-- ===== src/Parser/Exprs/Functions.antt =====
-- lparser.c: the parameters and the body of a function.
use luaxx.Parser.Exprs.Lists.{Ahead}
use luaxx.Base.{ℕ, ◌+◌, ◌-◌, ◌%◌, Bool, if◌then◌else◌, codes}
use luaxx.Object.{Strto}
use luaxx.Lexer.{Token, char, tk_end, tk_function, tk_dots, tk_name}
use luaxx.Code.State.{ExpDesc}
use luaxx.Code.Emit.{reserve_regs}
use luaxx.Code.Constants.{FloatOps}
use luaxx.Parser.{
  Parse, pure, throw, ◌>>=◌, ◌>>◌, line_number, at_token, Step, again, stop, iterate, update_level,
  see_level, emit, is_token, next, test_next, check_next, check_match, str_checkname,
  name_or_dots_expected,
}
use luaxx.Parser.Scopes.{new_var, adjust_vars, in_function, pushclosure}

module _ ⦃fp : FloatOps⦄ ⦃lib : Strto⦄ (point : ℕ) (rec : Ahead) where
  -- `arg` is the default name; HASARG, NEEDSARG and ISVARARG
  abbrev pub dots_param : ℕ → Parse (Step ℕ ℕ)
  dots_param n = do
    next point
    new_var (codes "arg") n
    update_level (λ fs. record fs { is_vararg = 7 })
    pure (stop (n + 1))

  abbrev pub name_param : ℕ → Parse (Step ℕ ℕ)
  name_param n = do
    name ← str_checkname point
    new_var name n
    more ← test_next point (char b',')
    if more then pure (again (n + 1)) else pure (stop (n + 1))

  abbrev pub param_at : ℕ → Token → Parse (Step ℕ ℕ)
  param_at n (tk_name s) = name_param n
  param_at n tk_dots = dots_param n
  param_at n t = throw name_or_dots_expected

  -- the parameters, if there are any
  abbrev pub params : Parse ℕ
  params =
      at_token
        λ t. if is_token (char b')') t then pure 0 else iterate (λ i. at_token (param_at i)) 0

  unfoldable pub parlist : Parse (Unit {0})
  parlist = do
    update_level (λ fs. record fs { is_vararg = 0 })
    n ← params
    adjust_vars n
    update_level (λ fs. record fs { numparams = (fs.gen.nactvar - fs.is_vararg % 2) % 256 })
    nactvar ← see_level (λ fs. fs.gen.nactvar)
    emit (reserve_regs nactvar)

  abbrev pub self_param : Bool → Parse (Unit {0})
  self_param needself = if needself then (do new_var (codes "self") 0; adjust_vars 1) else pure tt

  abbrev pub function_text : Bool → ℕ → Parse (Unit {0})
  function_text needself line = do
    check_next point (char b'(')
    self_param needself
    parlist
    check_next point (char b')')
    rec.chunk
    end ← line_number
    update_level (λ fs. record fs { lastlinedefined = end })
    check_match point tk_end tk_function line

  unfoldable pub body : Bool → ℕ → Parse ExpDesc
  body needself line = do f ← in_function line (function_text needself line); pushclosure f
