-- ===== src/Parser/Tests.antt =====
-- The parser on a small program, and on an expression.
use luaxx.Base.{ℕ, ◌+◌, ◌-◌, ◌*◌, ◌/◌, ◌%◌, ◌^◌, ◌==◌, List, [], ◌∷◌, codes}
use luaxx.Object.{Strto}
use luaxx.Lexer.{tk_name, tk_eos}
use luaxx.Code.Constants.{FloatOps}
use luaxx.Parser.{Parser}
use luaxx.Parser.Scopes.{new_level}

instance abbrev no_numbers : Strto
no_numbers = record { strtod = λ s. (0, 0); strtoul = λ s. (0, 0) }

instance abbrev whole_numbers : FloatOps
whole_numbers = record {
  add = λ a b. a + b;
  sub = λ a b. a - b;
  mul = λ a b. a * b;
  div = λ a b. a / b;
  mod_of = λ a b. a % b;
  pow = λ a b. a ^ b;
  unm = λ a. a;
  eq = λ a b. a == b;
}

abbrev small : List ℕ
small = codes "local x = y while x do f(x, 'a') break end return x"

-- in front of `x + y * z )`, in the main function
abbrev sum : Parser
sum = record {
  ls = record {
    text = codes " + y * z )";
    linenumber = 1;
    lastline = 1;
    t = tk_name (codes "x");
    ahead = tk_eos;
    buffer = [];
    decpoint = b'.';
  };
  levels = new_level 0 ∷ [];
  calls = 1;
  source = codes "=sum";
}
