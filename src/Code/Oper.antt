-- ===== src/Code/Oper.antt =====
-- Operators: conditions and their jump lists, arithmetic, comparisons, constant folding.
pub mod Fold
pub mod Compare
use luaxx.Base.{
  ℕ, zero, suc, ◌+◌, ◌-◌, List, [], ◌∷◌, Option, none, some, Bool, true, false, not, ◌&&◌, ◌||◌,
  ltb, leb, ◌==◌, if◌then◌else◌,
}
use luaxx.Opcodes.{
  Instruction, OpCode, number, op_add, op_sub, op_mul, op_div, op_mod, op_pow, op_unm, op_not,
  op_len, op_concat, op_eq, op_lt, op_le, op_test, op_testset, get_opcode, get_arg_a, set_arg_a,
  get_arg_b, set_arg_b, no_reg,
}
use luaxx.Code.State.{
  Jump, ExpKind, v_void, v_nil, v_true, v_false, v_k, v_knum, v_local, v_upval, v_global, v_indexed,
  v_jmp, v_relocable, v_nonreloc, v_call, v_vararg, ExpDesc, FuncState, Run, ok, fail, Cmd, pure,
  throw, and_then, ◌>>=◌, ◌>>◌, get_state, set_state, load, store,
}
use luaxx.Code.Jumps.{get_jump_control, concat, patch_to_here, remove_values}
use luaxx.Code.Emit.{code_abc, cond_jump, free_exp}
use luaxx.Code.Constants.{FloatOps, is_nan}
use luaxx.Code.Expr.{
  with_info, discharge_vars, discharge_to_any_reg, exp_to_any_reg, exp_to_next_reg, exp_to_val,
  exp_to_rk,
}

pub data BinOpr : Type 0 where
  opr_add opr_sub opr_mul opr_div opr_mod opr_pow : BinOpr
  opr_concat : BinOpr
  opr_ne opr_eq : BinOpr
  opr_lt opr_le opr_gt opr_ge : BinOpr
  opr_and opr_or : BinOpr
  opr_nobinopr : BinOpr

pub data UnOpr : Type 0 where
  opr_minus opr_not opr_len opr_nounopr : UnOpr

-- `!n` of C
abbrev pub negate : ℕ → ℕ
negate n = if n == 0 then 1 else 0

unfoldable pub is_numeral : ExpDesc → Bool
is_numeral e = elim e.k [
  | v_knum ↦ elim e.t [ none ↦ (elim e.f [ none ↦ true | some _ ↦ false ]) | some _ ↦ false ]
  | _ ↦ false
]

-- What `invertjump` does at the jump `e.info`.
unfoldable pub invert_jump : ExpDesc → Cmd (Unit {0})
invert_jump e = do
  pc ← get_jump_control e.info
  i ← load pc
  store pc (set_arg_a i (negate (get_arg_a i)))

-- op != OP_UNM && op != OP_LEN
abbrev is_binary : OpCode → Bool
is_binary op = elim op [ op_unm ↦ false | op_len ↦ false | _ ↦ true ]

-- op == OP_EQ
abbrev pub is_eq : OpCode → Bool
is_eq op = elim op [ op_eq ↦ true | _ ↦ false ]

module _ ⦃fp : FloatOps⦄ where
  -- the test of a value in a register
  abbrev jump_on_value : ExpDesc → ℕ → Cmd (Jump × ExpDesc)
  jump_on_value e cond = do
    e' ← discharge_to_any_reg e
    free_exp e'
    j ← cond_jump op_testset no_reg e'.info cond
    pure (some j, e')

  -- `fs->pc--` takes the NOT back
  abbrev jump_on_not : ExpDesc → Instruction → ℕ → Cmd (Jump × ExpDesc)
  jump_on_not e ie cond = do
    fs ← get_state
    set_state (record fs { pc = fs.pc - 1 })
    j ← cond_jump op_test (get_arg_b ie) 0 (negate cond)
    pure (some j, e)

  unfoldable pub jump_on_cond : ExpDesc → ℕ → Cmd (Jump × ExpDesc)
  jump_on_cond e cond = elim e.k [
    | v_relocable ↦ (do
      ie ← load e.info
      if get_opcode ie == number op_not then jump_on_not e ie cond else jump_on_value e cond)
    | _ ↦ jump_on_value e cond
  ]

  -- the jump that is taken when the value is false
  abbrev jump_if_false : ExpDesc → Cmd (Jump × ExpDesc)
  jump_if_false e = elim e.k [
    | v_k ↦ pure (none, e)
    | v_knum ↦ pure (none, e)
    | v_true ↦ pure (none, e)
    | v_jmp ↦ (do invert_jump e; pure (some e.info, e))
    | _ ↦ jump_on_cond e 0
  ]

  unfoldable pub go_if_true : ExpDesc → Cmd ExpDesc
  go_if_true e = do
    e1 ← discharge_vars e
    (pc, e2) ← jump_if_false e1
    f ← concat e2.f pc
    patch_to_here e2.t
    pure (record e2 { f = f; t = none })

  -- the jump that is taken when the value is true
  abbrev jump_if_true : ExpDesc → Cmd (Jump × ExpDesc)
  jump_if_true e = elim e.k [
    | v_nil ↦ pure (none, e)
    | v_false ↦ pure (none, e)
    | v_jmp ↦ pure (some e.info, e)
    | _ ↦ jump_on_cond e 1
  ]

  unfoldable pub go_if_false : ExpDesc → Cmd ExpDesc
  go_if_false e = do
    e1 ← discharge_vars e
    (pc, e2) ← jump_if_true e1
    t ← concat e2.t pc
    patch_to_here e2.f
    pure (record e2 { t = t; f = none })

  abbrev not_value : ExpDesc → Cmd ExpDesc
  not_value e = do
    e' ← discharge_to_any_reg e
    free_exp e'
    n ← code_abc op_not 0 e'.info 0
    pure (with_info e' v_relocable n)

  abbrev negated : ExpDesc → Cmd ExpDesc
  negated e = elim e.k [
    | v_nil ↦ pure (record e { k = v_true })
    | v_false ↦ pure (record e { k = v_true })
    | v_k ↦ pure (record e { k = v_false })
    | v_knum ↦ pure (record e { k = v_false })
    | v_true ↦ pure (record e { k = v_false })
    | v_jmp ↦ (do invert_jump e; pure e)
    | v_relocable ↦ not_value e
    | v_nonreloc ↦ not_value e
    | _ ↦ pure e
  ]

  unfoldable pub code_not : ExpDesc → Cmd ExpDesc
  code_not e = do
    e1 ← discharge_vars e
    e2 ← negated e1
    remove_values e2.t
    remove_values e2.f
    pure (record e2 { t = e2.f; f = e2.t })

  -- The value of the operation on two numbers; `none` where it is not folded.
  abbrev folded : OpCode → ℕ → ℕ → Option ℕ
  folded op v1 v2 = elim op [
    | op_add ↦ some (fp.add v1 v2)
    | op_sub ↦ some (fp.sub v1 v2)
    | op_mul ↦ some (fp.mul v1 v2)
    | op_div ↦ if fp.eq v2 0 then none else some (fp.div v1 v2)
    | op_mod ↦ if fp.eq v2 0 then none else some (fp.mod_of v1 v2)
    | op_pow ↦ some (fp.pow v1 v2)
    | op_unm ↦ some (fp.unm v1)
    | op_len ↦ none
    | _ ↦ some 0
  ]

  -- `none` is the answer 0; else the new value of `e1->u.nval`
  unfoldable pub const_folding : OpCode → ExpDesc → ExpDesc → Option ℕ
  const_folding op e1 e2 =
      if is_numeral e1 && is_numeral e2
      then elim (folded op e1.nval e2.nval) [
        | none ↦ none
        | some r ↦ if is_nan r then none else some r
      ]
      else none

  abbrev free_both : Bool → ExpDesc → ExpDesc → Cmd (Unit {0})
  free_both first_up e1 e2 =
      if first_up then (do free_exp e1; free_exp e2) else (do free_exp e2; free_exp e1)

  unfoldable pub code_operation : OpCode → ExpDesc → ExpDesc → Cmd ExpDesc
  code_operation op e1 e2 = do
    (o2, e2') ← (if is_binary op then exp_to_rk e2 else pure (0, e2))
    (o1, e1') ← exp_to_rk e1
    free_both (ltb o2 o1) e1' e2'
    n ← code_abc op 0 o1 o2
    pure (with_info e1' v_relocable n)

  -- codearith
  unfoldable pub code_arith : OpCode → ExpDesc → ExpDesc → Cmd ExpDesc
  code_arith op e1 e2 = elim (const_folding op e1 e2) [
    | some r ↦ pure (record e1 { nval = r })
    | none ↦ code_operation op e1 e2
  ]

  -- codecomp: a comparison that is to be false, other than of equality, exchanges its operands
  unfoldable pub code_comp : OpCode → ℕ → ExpDesc → ExpDesc → Cmd ExpDesc
  code_comp op cond e1 e2 = do
    (o1, e1') ← exp_to_rk e1
    (o2, e2') ← exp_to_rk e2
    free_exp e2'
    free_exp e1'
    j ← (if (cond == 0) && not (is_eq op) then cond_jump op 1 o2 o1 else cond_jump op cond o1 o2)
    pure (with_info e1' v_jmp j)

  abbrev zero_numeral : ExpDesc
  zero_numeral = record { k = v_knum; info = 0; aux = 0; nval = 0; t = none; f = none }

  unfoldable pub prefix : UnOpr → ExpDesc → Cmd ExpDesc
  prefix op e = elim op [
    | opr_minus ↦ (do
      e1 ← (if is_numeral e then pure e else exp_to_any_reg e)
      code_arith op_unm e1 zero_numeral)
    | opr_not ↦ code_not e
    | opr_len ↦ (do e1 ← exp_to_any_reg e; code_arith op_len e1 zero_numeral)
    | opr_nounopr ↦ pure e
  ]

  abbrev rk_operand : ExpDesc → Cmd ExpDesc
  rk_operand v = do (_, v') ← exp_to_rk v; pure v'

  abbrev number_operand : ExpDesc → Cmd ExpDesc
  number_operand v = if is_numeral v then pure v else rk_operand v

  unfoldable pub infix_of : BinOpr → ExpDesc → Cmd ExpDesc
  infix_of op v = elim op [
    | opr_and ↦ go_if_true v
    | opr_or ↦ go_if_false v
    | opr_concat ↦ exp_to_next_reg v
    | opr_add ↦ number_operand v
    | opr_sub ↦ number_operand v
    | opr_mul ↦ number_operand v
    | opr_div ↦ number_operand v
    | opr_mod ↦ number_operand v
    | opr_pow ↦ number_operand v
    | _ ↦ rk_operand v
  ]

  abbrev concat_anew : ExpDesc → ExpDesc → Cmd ExpDesc
  concat_anew e1 e2 = do e2' ← exp_to_next_reg e2; code_arith op_concat e1 e2'

  abbrev concat_connect : ExpDesc → ExpDesc → Instruction → Cmd ExpDesc
  concat_connect e1 e2 i = do
    free_exp e1
    store e2.info (set_arg_b i e1.info)
    pure (with_info e1 v_relocable e2.info)

  -- a concatenation extends the one that its right operand ends in
  abbrev concat_with : ExpDesc → ExpDesc → Cmd ExpDesc
  concat_with e1 e2 = elim e2.k [
    | v_relocable ↦ (do
      i ← load e2.info
      if get_opcode i == number op_concat then concat_connect e1 e2 i else concat_anew e1 e2)
    | _ ↦ concat_anew e1 e2
  ]

  unfoldable pub posfix : BinOpr → ExpDesc → ExpDesc → Cmd ExpDesc
  posfix op e1 e2 = elim op [
    | opr_and ↦ (do e ← discharge_vars e2; f ← concat e.f e1.f; pure (record e { f = f }))
    | opr_or ↦ (do e ← discharge_vars e2; t ← concat e.t e1.t; pure (record e { t = t }))
    | opr_concat ↦ (do e ← exp_to_val e2; concat_with e1 e)
    | opr_add ↦ code_arith op_add e1 e2
    | opr_sub ↦ code_arith op_sub e1 e2
    | opr_mul ↦ code_arith op_mul e1 e2
    | opr_div ↦ code_arith op_div e1 e2
    | opr_mod ↦ code_arith op_mod e1 e2
    | opr_pow ↦ code_arith op_pow e1 e2
    | opr_eq ↦ code_comp op_eq 1 e1 e2
    | opr_ne ↦ code_comp op_eq 0 e1 e2
    | opr_lt ↦ code_comp op_lt 1 e1 e2
    | opr_le ↦ code_comp op_le 1 e1 e2
    | opr_gt ↦ code_comp op_lt 0 e1 e2
    | opr_ge ↦ code_comp op_le 0 e1 e2
    | opr_nobinopr ↦ pure e1
  ]
