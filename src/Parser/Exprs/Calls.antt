-- ===== src/Parser/Exprs/Calls.antt =====
-- lparser.c: names and calls, with what stands behind them.
use luaxx.Base.{ℕ, ◌==◌, ◌||◌, none, if◌then◌else◌}
use luaxx.Object.{Strto}
use luaxx.Lexer.{Token, char, tk_name, tk_string}
use luaxx.Code.State.{ExpDesc}
use luaxx.Code.Expr.{set_returns, discharge_vars, exp_to_next_reg, exp_to_any_reg, self, indexed}
use luaxx.Code.Constants.{FloatOps}
use luaxx.Parser.{
  Parse, pure, throw, ◌>>=◌, ◌>>◌, reads, check_condition, line_number, at_token, Step, again, stop,
  iterate, emit, is_token, next, check_match, checkname, singlevar, codestring, ambiguous_call,
  arguments_expected, unexpected_symbol,
}
use luaxx.Parser.Sequences.{void_exp, call_code}
use luaxx.Parser.Exprs.Lists.{Ahead, explist1, expr, yindex, field}
use luaxx.Parser.Exprs.Constructors.{constructor}

module _ ⦃fp : FloatOps⦄ ⦃lib : Strto⦄ (point : ℕ) (rec : Ahead) where
  abbrev listed : Parse ExpDesc
  listed = do (e, _) ← explist1 point rec; emit (set_returns e none); pure e

  abbrev pub paren_args : ℕ → Parse ExpDesc
  paren_args line = do
    last ← reads (λ s. s.ls.lastline)
    check_condition (line == last) ambiguous_call
    next point
    args ← (at_token λ t. if is_token (char b')') t then pure void_exp else listed)
    check_match point (char b')') (char b'(') line
    pure args

  abbrev pub args_at : ℕ → Token → Parse ExpDesc
  args_at line (tk_string s) = do e ← codestring s; next point; pure e
  args_at line (char c) =
      if c == b'('
      then paren_args line
      else (if c == b'{' then constructor point rec else throw arguments_expected)
  args_at line t = throw arguments_expected

  unfoldable pub funcargs : ExpDesc → Parse ExpDesc
  funcargs f = do line ← line_number; args ← at_token (args_at line); emit (call_code f args line)

  abbrev pub in_parens : Parse ExpDesc
  in_parens = do
    line ← line_number
    next point
    e ← expr point rec
    check_match point (char b')') (char b'(') line
    emit (discharge_vars e)

  abbrev pub prefix_at : Token → Parse ExpDesc
  prefix_at (tk_name s) = singlevar point
  prefix_at (char c) = if c == b'(' then in_parens else throw unexpected_symbol
  prefix_at t = throw unexpected_symbol

  unfoldable pub prefixexp : Parse ExpDesc
  prefixexp = at_token prefix_at

  abbrev pub index_suffix : ExpDesc → Parse ExpDesc
  index_suffix v = do v' ← emit (exp_to_any_reg v); key ← yindex point rec; emit (indexed v' key)

  abbrev pub method_suffix : ExpDesc → Parse ExpDesc
  method_suffix v = do next point; key ← checkname point; f ← emit (self v key); funcargs f

  abbrev pub call_suffix : ExpDesc → Parse ExpDesc
  call_suffix v = do f ← emit (exp_to_next_reg v); funcargs f

  abbrev pub go_on : Parse ExpDesc → Parse (Step ExpDesc ExpDesc)
  go_on m = do e ← m; pure (again e)

  abbrev pub suffix_at : ExpDesc → Token → Parse (Step ExpDesc ExpDesc)
  suffix_at v (tk_string s) = go_on (call_suffix v)
  suffix_at v (char c) =
      if c == b'.'
      then go_on (field point rec v)
      else (if c == b'['
          then go_on (index_suffix v)
          else (if c == b':'
              then go_on (method_suffix v)
              else (if (c == b'(') || (c == b'{') then go_on (call_suffix v) else pure (stop v))))
  suffix_at v t = pure (stop v)

  unfoldable pub primaryexp : Parse ExpDesc
  primaryexp = do v ← prefixexp; iterate (λ e. at_token (suffix_at e)) v
