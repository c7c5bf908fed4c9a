-- ===== src/Parser/Statements/Branches.antt =====
-- lparser.c: `if`.
use luaxx.Base.{ℕ, none, if◌then◌else◌}
use luaxx.Object.{Strto}
use luaxx.Lexer.{tk_else, tk_elseif, tk_end, tk_if, tk_then}
use luaxx.Code.State.{Jump}
use luaxx.Code.Jumps.{patch_to_here}
use luaxx.Code.Constants.{FloatOps}
use luaxx.Parser.{
  Parse, pure, ◌>>=◌, ◌>>◌, at_token, Step, again, stop, iterate, emit, is_token, next, check_next,
  check_match,
}
use luaxx.Parser.Sequences.{escape_code, join_escapes}
use luaxx.Parser.Exprs.{Ahead}
use luaxx.Parser.Statements.Blocks.{block, cond}

module _ ⦃fp : FloatOps⦄ ⦃lib : Strto⦄ (point : ℕ) (rec : Ahead) where
  unfoldable pub test_then_block : Parse Jump
  test_then_block = do
    next point
    condexit ← cond point rec
    check_next point tk_then
    block point rec
    pure condexit

  abbrev pub elseif_part : Jump × Jump → Parse (Jump × Jump)
  elseif_part (escapelist, flist) = do
    escapes ← emit (escape_code escapelist flist)
    condexit ← test_then_block
    pure (escapes, condexit)

  -- while (ls->t.token == TK_ELSEIF)
  abbrev pub elseif_step : Jump × Jump → Parse (Step (Jump × Jump) (Jump × Jump))
  elseif_step lists = at_token λ t.
      if is_token tk_elseif t then (do l ← elseif_part lists; pure (again l)) else pure (stop lists)

  abbrev pub else_part : Jump → Jump → Parse Jump
  else_part escapelist flist = do
    escapes ← emit (escape_code escapelist flist)
    next point
    block point rec
    pure escapes

  unfoldable pub ifstat : ℕ → Parse (Unit {0})
  ifstat line = do
    flist ← test_then_block
    (escapes, last) ← iterate elseif_step (none, flist)
    (at_token λ t.
        if is_token tk_else t
        then (do l ← else_part escapes last; emit (patch_to_here l))
        else emit (join_escapes escapes last))
    check_match point tk_end tk_if line
