-- ===== src/Parser/Statements/Declarations.antt =====
-- lparser.c: local variables, and functions as statements.
use luaxx.Base.{ℕ, ◌+◌, ◌-◌, Bool, true, false, if◌then◌else◌}
use luaxx.Object.{Strto}
use luaxx.Lexer.{char}
use luaxx.Code.State.{ExpDesc, v_local}
use luaxx.Code.Emit.{reserve_regs, fix_line}
use luaxx.Code.Expr.{store_var}
use luaxx.Code.Constants.{FloatOps}
use luaxx.Scope.{Level, change_var}
use luaxx.Parser.{
  Parse, pure, ◌>>=◌, ◌>>◌, line_number, at_token, Step, again, stop, iterate, update_level, emit,
  is_token, next, test_next, str_checkname, singlevar, init_exp,
}
use luaxx.Parser.Sequences.{freereg, void_exp, adjust_assign}
use luaxx.Parser.Scopes.{new_var, adjust_vars}
use luaxx.Parser.Exprs.{Ahead, explist1, field, body}

-- `getlocvar(fs, fs->nactvar - 1).startpc = fs->pc`
abbrev pub begin_here : Level → Level
begin_here fs = record fs {
  locvars =
      change_var fs.locvars fs.actvar (fs.gen.nactvar - 1) (λ v. record v { startpc = fs.gen.pc });
}

module _ ⦃fp : FloatOps⦄ ⦃lib : Strto⦄ (point : ℕ) (rec : Ahead) where
  unfoldable pub localfunc : Parse (Unit {0})
  localfunc = do
    name ← str_checkname point
    new_var name 0
    reg ← emit freereg
    emit (reserve_regs 1)
    adjust_vars 1
    line ← line_number
    b ← body point rec false line
    emit (store_var (init_exp v_local reg) b)
    update_level begin_here

  abbrev pub local_step : ℕ → Parse (Step ℕ ℕ)
  local_step nvars = do
    name ← str_checkname point
    new_var name nvars
    more ← test_next point (char b',')
    if more then pure (again (nvars + 1)) else pure (stop (nvars + 1))

  -- the last of the values that the variables are given, and how many there are
  abbrev pub initial : Bool → Parse (ExpDesc × ℕ)
  initial given = if given then explist1 point rec else pure (void_exp, 0)

  unfoldable pub localstat : Parse (Unit {0})
  localstat = do
    nvars ← iterate local_step 0
    given ← test_next point (char b'=')
    (e, nexps) ← initial given
    emit (adjust_assign nvars nexps e)
    adjust_vars nvars

  abbrev pub field_step : ExpDesc → Parse (Step ExpDesc ExpDesc)
  field_step v = at_token λ t.
      if is_token (char b'.') t then (do e ← field point rec v; pure (again e)) else pure (stop v)

  -- the function's variable, and `needself`
  unfoldable pub funcname : Parse (ExpDesc × Bool)
  funcname = do
    v ← singlevar point
    e ← iterate field_step v
    at_token λ t.
        if is_token (char b':') t
        then (do m ← field point rec e; pure (m, true))
        else pure (e, false)

  unfoldable pub funcstat : ℕ → Parse (Unit {0})
  funcstat line = do
    next point
    (v, needself) ← funcname
    b ← body point rec needself line
    emit (store_var v b)
    emit (fix_line line)
