-- ===== src/Parser/Keeps/Whole.antt =====
-- The parser ends on every text.
use luaxx.Base.{ℕ, zero, suc, ◌≡◌, List, [], true, false, arith}
use luaxx.Object.{Strto}
use luaxx.Chunk.{Str}
use luaxx.Lexer.{LexState, tk_eos, set_input}
use luaxx.Code.Constants.{FloatOps}
use luaxx.Parser.{Parser, endless, throw, is_token}
use luaxx.Parser.Whole
use luaxx.Parser.Whole.{nested}
use luaxx.Parser.Keeps.{is_grammars, Ready}
use luaxx.Parser.Keeps.Exprs.{Keeps}
use luaxx.Parser.Keeps.Operands.{Eats-subexpr_over}
use luaxx.Parser.Keeps.Statements.{Safe-chunk_over}

-- `ls->t.token == TK_EOS`
abbrev IsEnd : LexState → Type 0
IsEnd ls = is_token tk_eos ls.t ≡ true

module _ ⦃fp : FloatOps⦄ ⦃lib : Strto⦄ (point : ℕ) where
  -- No level is left where the C calls are as many as they may be.
  too_deep : (s : Parser) → Ready 0 s → is_grammars endless ≡ false
  too_deep s r = let h = r.within in let k = r.deep in absurd (omega arith)

  pub nested-Keeps : (n : ℕ) → Keeps n (nested point n)
  unfolding nested throw
  nested-Keeps zero = record {
    subexpr = λ limit t. record { at = λ s r e. too_deep s r };
    chunk = record { at = too_deep };
  }
  nested-Keeps (suc n) = record {
    subexpr = Eats-subexpr_over point (nested point n) (nested-Keeps n);
    chunk = Safe-chunk_over point (nested point n) (nested-Keeps n);
  }

  abbrev start : Str → List ℕ → ℕ → Parser
  start name text calls = record { ls = set_input text; levels = []; calls = calls; source = name }
