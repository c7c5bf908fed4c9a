-- ===== src/Parser/Statements/Loops.antt =====
-- lparser.c: `while`, `repeat` and `for`.
use luaxx.Base.{ℕ, ◌+◌, ◌-◌, ◌==◌, [], ◌∷◌, Bool, true, false, if◌then◌else◌, codes}
use luaxx.Object.{Strto}
use luaxx.Chunk.{Str}
use luaxx.Lexer.{Token, char, tk_do, tk_end, tk_for, tk_in, tk_repeat, tk_until, tk_while}
use luaxx.Code.State.{Jump, ExpKind}
use luaxx.Code.Jumps.{get_label, patch_list, patch_to_here}
use luaxx.Code.Emit.{reserve_regs, check_stack}
use luaxx.Code.Expr.{exp_to_next_reg}
use luaxx.Code.Constants.{FloatOps}
use luaxx.Scope.{Level}
use luaxx.Parser.{
  Parse, pure, throw, ◌>>=◌, ◌>>◌, line_number, at_token, Step, again, stop, iterate, see_level,
  emit, next, test_next, check_next, check_match, str_checkname, eq_or_in_expected,
}
use luaxx.Parser.Sequences.{freereg, jump_back, loop_prep, loop_close, adjust_assign, default_step}
use luaxx.Parser.Scopes.{new_var, adjust_vars, in_block, breakstat}
use luaxx.Parser.Exprs.{Ahead, expr, explist1}
use luaxx.Parser.Statements.Blocks.{cond, block}

module _ ⦃fp : FloatOps⦄ ⦃lib : Strto⦄ (point : ℕ) (rec : Ahead) where
  unfoldable pub whilestat : ℕ → Parse (Unit {0})
  whilestat line = do
    next point
    whileinit ← emit get_label
    condexit ← cond point rec
    in_block true (do
      check_next point tk_do
      block point rec
      emit (jump_back whileinit)
      check_match point tk_end tk_while line)
    emit (patch_to_here condexit)

  abbrev pub scope_has_upval : Level → Bool
  scope_has_upval fs = elim fs.blocks [ [] ↦ false | bl ∷ bls ↦ bl.upval ]

  -- if condition then break
  abbrev pub repeat_end : Bool → Jump → Parse (Unit {0})
  repeat_end closes condexit =
      if closes then (do breakstat; emit (patch_to_here condexit)) else pure tt

  -- the scope block of repeatstat: whether a variable of it is an upvalue, and `condexit`
  abbrev pub repeat_scope : ℕ → Parse (Bool × Jump)
  repeat_scope line = do
    next point
    rec.chunk
    check_match point tk_until tk_repeat line
    condexit ← cond point rec
    closes ← see_level scope_has_upval
    repeat_end closes condexit
    pure (closes, condexit)

  unfoldable pub repeatstat : ℕ → Parse (Unit {0})
  repeatstat line = do
    repeat_init ← emit get_label
    in_block true (do
      (closes, condexit) ← in_block false (repeat_scope line)
      emit (if closes then jump_back repeat_init else patch_list condexit repeat_init))

  unfoldable pub exp1 : Parse ExpKind
  exp1 = do e ← expr point rec; emit (exp_to_next_reg e); pure e.k

  unfoldable pub forbody : ℕ → ℕ → ℕ → Bool → Parse (Unit {0})
  forbody base line nvars isnum = do
    adjust_vars 3
    check_next point tk_do
    prep ← emit (loop_prep isnum base)
    in_block false (do adjust_vars nvars; emit (reserve_regs nvars); block point rec)
    emit (loop_close isnum base line nvars prep)

  -- the optional step, 1 if there is none
  abbrev pub for_step : Bool → Parse (Unit {0})
  for_step step = if step then (do exp1; pure tt) else emit default_step

  unfoldable pub fornum : Str → ℕ → Parse (Unit {0})
  fornum varname line = do
    base ← emit freereg
    new_var (codes "(for index)") 0
    new_var (codes "(for limit)") 1
    new_var (codes "(for step)") 2
    new_var varname 3
    check_next point (char b'=')
    exp1
    check_next point (char b',')
    exp1
    step ← test_next point (char b',')
    for_step step
    forbody base line 1 true

  -- one more name behind a comma
  abbrev pub name_step : ℕ → Parse (Step ℕ ℕ)
  name_step nvars = do
    more ← test_next point (char b',')
    if more
        then (do name ← str_checkname point; new_var name nvars; pure (again (nvars + 1)))
        else pure (stop nvars)

  unfoldable pub forlist : Str → Parse (Unit {0})
  forlist indexname = do
    base ← emit freereg
    new_var (codes "(for generator)") 0
    new_var (codes "(for state)") 1
    new_var (codes "(for control)") 2
    new_var indexname 3
    nvars ← iterate name_step 4
    check_next point tk_in
    line ← line_number
    (e, nexps) ← explist1 point rec
    emit (adjust_assign 3 nexps e)
    emit (check_stack 3)
    forbody base line (nvars - 3) false

  abbrev pub for_at : Str → ℕ → Token → Parse (Unit {0})
  for_at varname line (char c) =
      if c == b'='
      then fornum varname line
      else (if c == b',' then forlist varname else throw eq_or_in_expected)
  for_at varname line tk_in = forlist varname
  for_at varname line t = throw eq_or_in_expected

  unfoldable pub forstat : ℕ → Parse (Unit {0})
  forstat line = in_block true (do
    next point
    varname ← str_checkname point
    at_token (for_at varname line)
    check_match point tk_end tk_for line)
