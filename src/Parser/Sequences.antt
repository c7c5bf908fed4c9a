-- ===== src/Parser/Sequences.antt =====
-- lparser.c: the calls of the generator that a grammar rule makes in a row, between two tokens.
use luaxx.Base.{
  ℕ, ◌+◌, ◌-◌, ◌==◌, ◌||◌, List, [], ◌∷◌, none, some, Bool, true, false, ltb, if◌then◌else◌,
  minus_one,
}
use luaxx.Object.{int_to_fb}
use luaxx.Opcodes.{
  op_close, op_closure, op_move, op_getupval, op_newtable, op_settable, op_call, op_tailcall,
  op_loadk, op_forprep, op_forloop, op_tforloop, set_arg_b, set_arg_c, set_opcode,
}
use luaxx.Code.State.{
  Jump, Results, plus_one, ExpKind, ExpDesc, v_void, v_nil, v_false, v_relocable, v_indexed,
  v_nonreloc, v_call, v_vararg, Cmd, pure, ◌>>=◌, ◌>>◌, get_state, set_state, load, store,
}
use luaxx.Code.Jumps.{concat, patch_list, patch_to_here}
use luaxx.Code.Emit.{
  code_abc, code_abx, code_asbx, nil, jump, ret, reserve_regs, fix_line, set_list, fields_per_flush,
}
use luaxx.Code.Expr.{
  set_returns, set_one_ret, exp_to_next_reg, exp_to_any_reg, exp_to_rk, store_var, update_code,
}
use luaxx.Code.Oper.{go_if_true}
use luaxx.Code.Constants.{FloatOps, number_k}
use luaxx.Scope
use luaxx.Scope.{Var, Block}
use luaxx.Parser.{init_exp}

-- `hasmultret`
abbrev pub has_multret : ExpKind → Bool
has_multret k = elim k [ v_call ↦ true | v_vararg ↦ true | _ ↦ false ]

abbrev pub is_void : ExpKind → Bool
is_void k = elim k [ v_void ↦ true | _ ↦ false ]

abbrev pub is_call : ExpKind → Bool
is_call k = elim k [ v_call ↦ true | _ ↦ false ]

abbrev pub is_indexed : ExpKind → Bool
is_indexed k = elim k [ v_indexed ↦ true | _ ↦ false ]

abbrev pub freereg : Cmd ℕ
freereg = do fs ← get_state; pure fs.freereg

abbrev pub set_freereg : ℕ → Cmd (Unit {0})
set_freereg n = do fs ← get_state; set_state (record fs { freereg = n })

abbrev pub void_exp : ExpDesc
void_exp = init_exp v_void 0

-- breakstat, where `bl` is the loop: the new `breaklist`
abbrev pub break_code : Block → Bool → Cmd Jump
break_code bl upval = do
  (if upval then code_abc op_close bl.nactvar 0 0 else pure 0)
  j ← jump
  concat bl.breaklist (some j)

-- The instruction behind OP_CLOSURE for an upvalue.
abbrev capture : Var → Cmd ℕ
capture (Scope.local i) = code_abc op_move 0 i 0
capture (Scope.upval i) = code_abc op_getupval 0 i 0
capture (Scope.global i) = code_abc op_getupval 0 i 0

abbrev captures : List Var → Cmd (Unit {0})
captures [] = pure tt
captures (v ∷ vs) = do capture v; captures vs

abbrev pub closure_code : ℕ → List Var → Cmd ExpDesc
closure_code n vs = do i ← code_abx op_closure 0 n; captures vs; pure (init_exp v_relocable i)

-- `luaK_concat(fs, &escapelist, luaK_jump(fs)); luaK_patchtohere(fs, flist)` of ifstat
abbrev pub escape_code : Jump → Jump → Cmd Jump
escape_code escapelist flist = do
  j ← jump
  escapes ← concat escapelist (some j)
  patch_to_here flist
  pure escapes

abbrev pub join_escapes : Jump → Jump → Cmd (Unit {0})
join_escapes escapelist flist = do escapes ← concat escapelist flist; patch_to_here escapes

-- `luaK_patchlist(fs, luaK_jump(fs), target)`
abbrev pub jump_back : ℕ → Cmd (Unit {0})
jump_back target = do j ← jump; patch_list (some j) target

-- forbody, in front of the block
abbrev pub loop_prep : Bool → ℕ → Cmd ℕ
loop_prep isnum base = if isnum then code_asbx op_forprep base minus_one else jump

abbrev loop_end : Bool → ℕ → ℕ → Cmd ℕ
loop_end isnum base nvars =
    if isnum then code_asbx op_forloop base minus_one else code_abc op_tforloop base 0 nvars

-- forbody, behind the block
abbrev pub loop_close : Bool → ℕ → ℕ → ℕ → ℕ → Cmd (Unit {0})
loop_close isnum base line nvars prep = do
  patch_to_here (some prep)
  endfor ← loop_end isnum base nvars
  fix_line line
  back ← (if isnum then pure endfor else jump)
  patch_list (some back) (prep + 1)

-- A local that an assignment needs in a place on its left is replaced by a copy at `extra`.
abbrev pub safe_place : ℕ → ℕ → ExpDesc → ExpDesc
safe_place extra reg e =
    if is_indexed e.k
    then record e {
      info = if e.info == reg then extra else e.info;
      aux = if e.aux == reg then extra else e.aux;
    }
    else e

abbrev pub conflicts : ℕ → ExpDesc → Bool
conflicts reg e = if is_indexed e.k then (e.info == reg) || (e.aux == reg) else false

abbrev pub any_conflict : ℕ → List ExpDesc → Bool
any_conflict reg [] = false
any_conflict reg (e ∷ es) = conflicts reg e || any_conflict reg es

abbrev pub safe_places : ℕ → ℕ → List ExpDesc → List ExpDesc
safe_places extra reg [] = []
safe_places extra reg (e ∷ es) = safe_place extra reg e ∷ safe_places extra reg es

-- check_conflict: the left-hand sides so far, the last one first
unfoldable pub check_conflict : List ExpDesc → ExpDesc → Cmd (List ExpDesc)
check_conflict lhs v = do
  extra ← freereg
  if any_conflict v.info lhs
      then (do code_abc op_move extra v.info 0; reserve_regs 1; pure (safe_places extra v.info lhs))
      else pure lhs

-- a call statement uses no results
abbrev pub drop_results : ExpDesc → Cmd (Unit {0})
drop_results e = update_code e (λ i. set_arg_c i 1)

module _ ⦃fp : FloatOps⦄ where
  -- The last expression is a call or `...`: it provides `extra` values.
  abbrev adjust_open : ExpDesc → ℕ → Cmd (Unit {0})
  adjust_open e extra = do
    set_returns e (some extra)
    if ltb 1 extra then reserve_regs (extra - 1) else pure tt

  abbrev adjust_closed : ExpDesc → ℕ → Cmd (Unit {0})
  adjust_closed e extra = do
    (if is_void e.k then pure e else exp_to_next_reg e)
    reg ← freereg
    if ltb 0 extra then (do reserve_regs extra; nil reg extra) else pure tt

  -- A negative `extra` is 0 here: no test tells the two apart.
  unfoldable pub adjust_assign : ℕ → ℕ → ExpDesc → Cmd (Unit {0})
  adjust_assign nvars nexps e =
      if has_multret e.k then adjust_open e (nvars + 1 - nexps) else adjust_closed e (nvars - nexps)

  -- `falses' are all equal here
  abbrev as_false : ExpDesc → ExpDesc
  as_false e = elim e.k [ v_nil ↦ record e { k = v_false } | _ ↦ e ]

  -- cond, behind the expression
  abbrev pub condition : ExpDesc → Cmd Jump
  condition e = do e' ← go_if_true (as_false e); pure e'.f

  abbrev call_arguments : ExpDesc → ℕ → Cmd Results
  call_arguments args base = if has_multret args.k then pure none else (do
    (if is_void args.k then pure args else exp_to_next_reg args)
    top ← freereg
    pure (some (top - (base + 1))))

  -- the end of funcargs
  unfoldable pub call_code : ExpDesc → ExpDesc → ℕ → Cmd ExpDesc
  call_code f args line = do
    nparams ← call_arguments args f.info
    i ← code_abc op_call f.info (plus_one nparams) 2
    fix_line line
    set_freereg (f.info + 1)
    pure (init_exp v_call i)

  -- recfield, behind the value; the registers from `reg` on are free again
  unfoldable pub record_field : ℕ → ℕ → ExpDesc → ℕ → Cmd (Unit {0})
  record_field table key val reg = do
    (rk, _) ← exp_to_rk val
    code_abc op_settable table key rk
    set_freereg reg

  -- constructor, in front of the `{`: the NEWTABLE's place and the table's descriptor
  unfoldable pub new_table : Cmd (ℕ × ExpDesc)
  new_table = do
    pc ← code_abc op_newtable 0 0 0
    t ← exp_to_next_reg (init_exp v_relocable pc)
    pure (pc, t)

  -- closelistfield: the new `cc->tostore`
  unfoldable pub close_list_field : ℕ → ExpDesc → ℕ → ℕ → Cmd ℕ
  close_list_field table v na tostore = if is_void v.k then pure tostore else (do
    exp_to_next_reg v
    if tostore == fields_per_flush
        then (do set_list table na (some tostore); pure 0)
        else pure tostore)

  -- lastlistfield: the new `cc->na`
  unfoldable pub last_list_field : ℕ → ExpDesc → ℕ → ℕ → Cmd ℕ
  last_list_field table v na tostore =
      if tostore == 0
      then pure na
      else (if has_multret v.k
          then (do set_returns v none; set_list table na none; pure (na - 1))
          else (do
            (if is_void v.k then pure v else exp_to_next_reg v)
            set_list table na (some tostore)
            pure na))

  -- the sizes that the NEWTABLE at `pc` is given
  unfoldable pub table_sizes : ℕ → ℕ → ℕ → Cmd (Unit {0})
  table_sizes pc na nh = do
    i ← load pc
    store pc (set_arg_c (set_arg_b i (int_to_fb na)) (int_to_fb nh))

  -- `default step = 1` of fornum
  unfoldable pub default_step : Cmd (Unit {0})
  default_step = do
    k ← number_k 0x3ff0000000000000
    reg ← freereg
    code_abx op_loadk reg k
    reserve_regs 1

  -- The variable takes the value in the last register.
  abbrev pub store_default : ExpDesc → Cmd ExpDesc
  store_default v = do top ← freereg; store_var v (init_exp v_nonreloc (top - 1))

  -- the end of the last assignment, with as many values as variables or not
  unfoldable pub assign_last : ExpDesc → ℕ → ℕ → ExpDesc → Cmd ExpDesc
  assign_last v nvars nexps e =
      if nexps == nvars then (do e' ← set_one_ret e; store_var v e') else (do
        adjust_assign nvars nexps e
        top ← freereg
        set_freereg (top - (nexps - nvars))
        store_default v)

  -- The variables in front of it, the one on its left first.
  abbrev pub assign_rest : List ExpDesc → Cmd (Unit {0})
  assign_rest [] = pure tt
  assign_rest (v ∷ vs) = do store_default v; assign_rest vs

  abbrev return_open : ExpDesc → ℕ → Cmd (Unit {0})
  return_open e nret = do
    set_returns e none
    (if is_call e.k
        then (if nret == 1 then update_code e (λ i. set_opcode i op_tailcall) else pure tt)
        else pure tt)
    fs ← get_state
    ret fs.nactvar none

  abbrev return_closed : ExpDesc → ℕ → Cmd (Unit {0})
  return_closed e nret =
      if nret == 1
      then (do e' ← exp_to_any_reg e; ret e'.info (some 1))
      else (do exp_to_next_reg e; fs ← get_state; ret fs.nactvar (some nret))

  -- retstat, behind its `nret` expressions
  unfoldable pub return_code : ExpDesc → ℕ → Cmd (Unit {0})
  return_code e nret = if has_multret e.k then return_open e nret else return_closed e nret
