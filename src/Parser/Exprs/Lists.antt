-- ===== src/Parser/Exprs/Lists.antt =====
-- lparser.c: the functions that are declared ahead, and lists of expressions.
use luaxx.Base.{ℕ, ◌+◌, if◌then◌else◌}
use luaxx.Object.{Strto}
use luaxx.Lexer.{char}
use luaxx.Code.State.{ExpDesc}
use luaxx.Code.Expr.{exp_to_next_reg, exp_to_any_reg, exp_to_val, indexed}
use luaxx.Code.Oper.{BinOpr}
use luaxx.Code.Constants.{FloatOps}
use luaxx.Parser.{
  Parse, pure, ◌>>=◌, ◌>>◌, Step, again, stop, iterate, emit, next, test_next, check_next,
  checkname,
}

-- the functions that are declared ahead: `subexpr`, for `expr`, and `chunk`
pub record Ahead : Type 0 where
  pub subexpr : ℕ → Parse (ExpDesc × BinOpr)
  pub chunk : Parse (Unit {0})

module _ ⦃fp : FloatOps⦄ ⦃lib : Strto⦄ (point : ℕ) (rec : Ahead) where
  unfoldable pub expr : Parse ExpDesc
  expr = do (e, _) ← rec.subexpr 0; pure e

  unfoldable pub field : ExpDesc → Parse ExpDesc
  field v = do
    v' ← emit (exp_to_any_reg v)
    next point
    key ← checkname point
    emit (indexed v' key)

  unfoldable pub yindex : Parse ExpDesc
  yindex = do next point; e ← expr; e' ← emit (exp_to_val e); check_next point (char b']'); pure e'

  -- one more of a list behind a comma
  abbrev pub list_step : ExpDesc × ℕ → Parse (Step (ExpDesc × ℕ) (ExpDesc × ℕ))
  list_step (e, n) = do
    more ← test_next point (char b',')
    if more
        then (do emit (exp_to_next_reg e); e' ← expr; pure (again (e', n + 1)))
        else pure (stop (e, n))

  -- the last expression, and how many there are
  unfoldable pub explist1 : Parse (ExpDesc × ℕ)
  explist1 = do e ← expr; iterate list_step (e, 1)
