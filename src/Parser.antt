-- ===== src/Parser.antt =====
-- lparser.c: the parser's state, its errors, and the operations that the grammar is written with.
-- The grammar reads tokens from the scanner (llex.c) and writes code with the generator (lcode.c)
-- at the function that is compiled, the first of `levels`.
pub mod Sequences
pub mod Scopes
pub mod Exprs
pub mod Statements
pub mod Whole
pub mod Keeps
pub mod Priority
mod Tests
use luaxx.Base.{
  ℕ, zero, suc, ◌+◌, ◌-◌, ◌==◌, List, [], ◌∷◌, Option, none, some, Bool, true, false, length, leb,
  ltb, if◌then◌else◌,
}
use luaxx.Object.{Strto}
use luaxx.Chunk.{Str}
use luaxx.Lexer
use luaxx.Lexer.{
  Token, char, tk_and, tk_break, tk_do, tk_else, tk_elseif, tk_end, tk_false, tk_for, tk_function,
  tk_if, tk_in, tk_local, tk_nil, tk_not, tk_or, tk_repeat, tk_return, tk_then, tk_true, tk_until,
  tk_while, tk_concat, tk_dots, tk_eq, tk_ge, tk_le, tk_ne, tk_number, tk_name, tk_string, tk_eos,
  LexState, LexError, Lex,
}
use luaxx.Lexer.Lex.{next_token, look_ahead}
use luaxx.Code.State
use luaxx.Code.State.{Jump, ExpKind, ExpDesc, v_k, v_local, v_upval, v_global, FuncState, Cmd}
use luaxx.Code.Constants.{FloatOps, string_k}
use luaxx.Scope
use luaxx.Scope.{Var, Level, Refusal, Out, gives, refused, generate}

-- LexState and the lua_State's `nCcalls`; `levels` is the chain that `ls->fs` starts.
pub record Parser : Type 0 where
  pub ls : LexState
  pub levels : List Level
  pub calls : ℕ
  pub source : Str

-- What luaX_syntaxerror, luaX_lexerror and luaG_runerror say. `endless` and `no_function` belong
-- to the model only: a loop that takes no token, and a use of `ls->fs` where it is NULL.
pub data ParseError : Type 0 where
  lexical : LexError → ParseError
  refusal : Refusal → ParseError
  expected : Token → ParseError
  expected_to_close : Token → Token → ℕ → ParseError
  ambiguous_call arguments_expected unexpected_symbol name_or_dots_expected : ParseError
  eq_or_in_expected no_dots_outside syntax_error no_loop_to_break : ParseError
  too_many_levels too_many_items too_many_variables too_many_functions : ParseError
  endless no_function : ParseError

pub data Outcome {ℓ} (A : Type ℓ) : Type ℓ where
  ok : A → Parser → Outcome A
  fail : ParseError → Outcome A

abbrev pub Parse {ℓ} : Type ℓ → Type ℓ
Parse A = Parser → Outcome A

unfoldable pub pure {ℓ} : {A : Type ℓ} → A → Parse A
pure a s = ok a s

unfoldable pub throw {ℓ} : {A : Type ℓ} → ParseError → Parse A
throw e s = fail e

abbrev pub and_then {ℓ κ} : {A : Type ℓ} {B : Type κ} → Outcome A → (A → Parse B) → Outcome B
and_then (ok a s) g = g a s
and_then (fail e) g = fail e

infixl 5 ◌>>=◌ ◌>>◌
unfoldable pub ◌>>=◌ {ℓ κ} : {A : Type ℓ} {B : Type κ} → Parse A → (A → Parse B) → Parse B
m >>= g = λ s. and_then (m s) g

abbrev pub ◌>>◌ {ℓ κ} : {A : Type ℓ} {B : Type κ} → Parse A → Parse B → Parse B
m >> n = m >>= λ _. n

unfoldable pub reads {ℓ} : {A : Type ℓ} → (Parser → A) → Parse A
reads f s = ok (f s) s

abbrev pub line_number : Parse ℕ
line_number = reads (λ s. s.ls.linenumber)

-- `ls->t` decides how to go on
unfoldable pub at_token {ℓ} : {A : Type ℓ} → (Token → Parse A) → Parse A
at_token f s = f s.ls.t s

-- check_condition
unfoldable pub check_condition : Bool → ParseError → Parse (Unit {0})
check_condition c e = if c then pure tt else throw e

-- A loop: `body` says whether the loop goes on, and with what.
pub data Step (A B : Type 0) : Type 0 where
  again : A → Step A B
  stop : B → Step A B

abbrev pub iterate_rest : {A B : Type 0} → (A → Parse B) → Step A B → Parse B
iterate_rest loop (again a) = loop a
iterate_rest loop (stop b) = pure b

unfoldable pub iterate_for : {A B : Type 0} → ℕ → (A → Parse (Step A B)) → A → Parse B
iterate_for zero body a = throw endless
iterate_for (suc n) body a = body a >>= iterate_rest (iterate_for n body)

-- 0 at the end of the text
unfoldable pub weight : Token → ℕ
weight tk_eos = 0
weight _ = 1

-- As many tokens as may still be read.
unfoldable pub tokens_left : LexState → ℕ
tokens_left ls = length ls.text + weight ls.ahead + weight ls.t

unfoldable pub iterate : {A B : Type 0} → (A → Parse (Step A B)) → A → Parse B
iterate body a s = iterate_for (suc (tokens_left s.ls)) body a s

abbrev pub level_result : {A : Type 0} → Parser → List Level → Out Level A → Outcome A
level_result s prev (gives a fs) = ok a (record s { levels = fs ∷ prev })
level_result s prev (refused e) = fail (refusal e)

abbrev pub at_first : {A : Type 0} → (Level → Out Level A) → Parser → List Level → Outcome A
at_first m s [] = fail no_function
at_first m s (fs ∷ prev) = level_result s prev (m fs)

-- an operation on `ls->fs`
unfoldable pub at_level : {A : Type 0} → (Level → Out Level A) → Parse A
at_level m s = at_first m s s.levels

abbrev pub update_level : (Level → Level) → Parse (Unit {0})
update_level f = at_level (λ fs. gives tt (f fs))

abbrev pub see_level : {A : Type 0} → (Level → A) → Parse A
see_level f = at_level (λ fs. gives (f fs) fs)

-- The generator takes the line from `fs->ls->lastline`.
abbrev pub on_line : ℕ → Level → Level
on_line line fs = record fs { gen = record fs.gen { lastline = line } }

-- an operation of the generator on `ls->fs`
unfoldable pub emit : {A : Type 0} → Cmd A → Parse A
emit m s = at_level (λ fs. generate m (on_line s.ls.lastline fs)) s

-- The number of a terminal: a character's code, or from FIRST_RESERVED on the order RESERVED.
unfoldable pub token_number : Token → ℕ
token_number (char c) = c
token_number tk_and = 257
token_number tk_break = 258
token_number tk_do = 259
token_number tk_else = 260
token_number tk_elseif = 261
token_number tk_end = 262
token_number tk_false = 263
token_number tk_for = 264
token_number tk_function = 265
token_number tk_if = 266
token_number tk_in = 267
token_number tk_local = 268
token_number tk_nil = 269
token_number tk_not = 270
token_number tk_or = 271
token_number tk_repeat = 272
token_number tk_return = 273
token_number tk_then = 274
token_number tk_true = 275
token_number tk_until = 276
token_number tk_while = 277
token_number tk_concat = 278
token_number tk_dots = 279
token_number tk_eq = 280
token_number tk_ge = 281
token_number tk_le = 282
token_number tk_ne = 283
token_number (tk_number r) = 284
token_number (tk_name s) = 285
token_number (tk_string s) = 286
token_number tk_eos = 287

-- `ls->t.token == c`
abbrev pub is_token : Token → Token → Bool
is_token c t = token_number t == token_number c

abbrev pub lex_result {ℓ} : {A : Type ℓ} → Parser → Lexer.Result A → Outcome A
lex_result s (Lexer.ok a ls) = ok a (record s { ls = ls })
lex_result s (Lexer.error e) = fail (lexical e)

-- an operation of the scanner
unfoldable pub scan {ℓ} : {A : Type ℓ} → Lex A → Parse A
scan m s = lex_result s (m s.ls)

module _ ⦃lib : Strto⦄ (point : ℕ) where
  -- luaX_next
  unfoldable pub next : Parse (Unit {0})
  next = scan (next_token point)

  -- luaX_lookahead, and the token that is seen
  unfoldable pub peek : Parse Token
  peek = scan (look_ahead point) >>= λ _. reads (λ s. s.ls.ahead)

  unfoldable pub test_next : Token → Parse Bool
  test_next c = at_token λ t. if is_token c t then (do next; pure true) else pure false

  unfoldable pub check : Token → Parse (Unit {0})
  check c = at_token λ t. if is_token c t then pure tt else throw (expected c)

  unfoldable pub check_next : Token → Parse (Unit {0})
  check_next c = do check c; next

  abbrev unmatched : Token → Token → ℕ → ℕ → Parse (Unit {0})
  unmatched what who where_ line =
      if where_ == line then throw (expected what) else throw (expected_to_close what who where_)

  unfoldable pub check_match : Token → Token → ℕ → Parse (Unit {0})
  check_match what who where_ = do
    found ← test_next what
    line ← line_number
    if found then pure tt else unmatched what who where_ line

  -- a token's name, where it is a TK_NAME
  abbrev pub name_then : Token → Parse Str
  name_then (tk_name s) = do next; pure s
  name_then t = throw (expected (tk_name []))

  unfoldable pub str_checkname : Parse Str
  str_checkname = at_token name_then

abbrev pub init_exp : ExpKind → ℕ → ExpDesc
init_exp k i = record { k = k; info = i; aux = 0; nval = 0; t = none; f = none }

-- The descriptor that singlevaraux leaves for a name.
abbrev pub var_exp : Var → ExpDesc
var_exp (Scope.global i) = init_exp v_global i
var_exp (Scope.local i) = init_exp v_local i
var_exp (Scope.upval i) = init_exp v_upval i

abbrev pub levels_result : Parser → Out (List Level) Var → Outcome ExpDesc
levels_result s (gives v levels) = ok (var_exp v) (record s { levels = levels })
levels_result s (refused e) = fail (refusal e)

module _ ⦃fp : FloatOps⦄ where
  unfoldable pub codestring : Str → Parse ExpDesc
  codestring s = emit (string_k s) >>= λ k. pure (init_exp v_k k)

  -- singlevar with the name that str_checkname gave
  unfoldable pub name_var : Str → Parse ExpDesc
  name_var name s = levels_result s (Scope.single_var name s.levels)

  module _ ⦃lib : Strto⦄ (point : ℕ) where
    unfoldable pub checkname : Parse ExpDesc
    checkname = str_checkname point >>= codestring

    unfoldable pub singlevar : Parse ExpDesc
    singlevar = str_checkname point >>= name_var

abbrev pub max_calls : ℕ
max_calls = 200

-- ++ls->L->nCcalls > LUAI_MAXCCALLS
unfoldable pub enter_level : Parse (Unit {0})
enter_level s =
    if leb (s.calls + 1) max_calls
    then ok tt (record s { calls = s.calls + 1 })
    else fail too_many_levels

unfoldable pub leave_level : Parse (Unit {0})
leave_level s = ok tt (record s { calls = s.calls - 1 })

-- The code between enterlevel and leavelevel.
unfoldable pub deeper : {A : Type 0} → Parse A → Parse A
deeper m = do enter_level; a ← m; leave_level; pure a
