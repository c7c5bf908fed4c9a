-- ===== src/Code/Expr.antt =====
-- Expressions: from a descriptor to code that leaves the value where it is wanted.
pub mod Settled
use luaxx.Base.{
  ℕ, zero, suc, ◌+◌, ◌-◌, List, [], ◌∷◌, Option, none, some, Bool, true, false, not, ◌&&◌, ◌||◌,
  ltb, leb, ◌==◌, if◌then◌else◌,
}
use luaxx.Opcodes.{
  Instruction, OpCode, op_move, op_loadk, op_loadbool, op_getupval, op_getglobal, op_gettable,
  op_setupval, op_setglobal, op_settable, op_self, get_arg_a, set_arg_a, set_arg_b, set_arg_c,
  max_index_rk, rk_as_k,
}
use luaxx.Code.State.{
  Jump, Results, plus_one, ExpKind, v_void, v_nil, v_true, v_false, v_k, v_knum, v_local, v_upval,
  v_global, v_indexed, v_jmp, v_relocable, v_nonreloc, v_call, v_vararg, ExpDesc, FuncState, Run,
  ok, fail, Cmd, pure, throw, and_then, ◌>>=◌, ◌>>◌, get_state, set_state, load, store, same_jump,
}
use luaxx.Code.Jumps.{need_value, patch_list_aux, patch_to_here, concat, get_label}
use luaxx.Code.Emit
use luaxx.Code.Emit.{code_abc, code_abx, jump, reserve_regs, free_reg, free_exp}
use luaxx.Code.Constants.{FloatOps, number_k, bool_k, nil_k}

-- `e->t != e->f`
abbrev pub has_jumps : ExpDesc → Bool
has_jumps e = not (same_jump e.t e.f)

abbrev pub is_jmp : ExpDesc → Bool
is_jmp e = elim e.k [ v_jmp ↦ true | _ ↦ false ]

abbrev pub is_nonreloc : ExpDesc → Bool
is_nonreloc e = elim e.k [ v_nonreloc ↦ true | _ ↦ false ]

abbrev pub with_info : ExpDesc → ExpKind → ℕ → ExpDesc
with_info e k info = record e { k = k; info = info }

-- an update of the instruction `getcode(fs, e)`
abbrev pub update_code : ExpDesc → (Instruction → Instruction) → Cmd (Unit {0})
update_code e change = do i ← load e.info; store e.info (change i)

unfoldable pub set_returns : ExpDesc → Results → Cmd (Unit {0})
set_returns e nresults = elim e.k [
  | v_call ↦ update_code e (λ i. set_arg_c i (plus_one nresults))
  | v_vararg ↦ (do
    update_code e (λ i. set_arg_b i (plus_one nresults))
    fs ← get_state
    update_code e (λ i. set_arg_a i fs.freereg)
    reserve_regs 1)
  | _ ↦ pure tt
]

unfoldable pub set_one_ret : ExpDesc → Cmd ExpDesc
set_one_ret e = elim e.k [
  | v_call ↦ (do i ← load e.info; pure (with_info e v_nonreloc (get_arg_a i)))
  | v_vararg ↦ (do update_code e (λ i. set_arg_b i 2); pure (record e { k = v_relocable }))
  | _ ↦ pure e
]

unfoldable pub discharge_vars : ExpDesc → Cmd ExpDesc
discharge_vars e = elim e.k [
  | v_local ↦ pure (record e { k = v_nonreloc })
  | v_upval ↦ (do n ← code_abc op_getupval 0 e.info 0; pure (with_info e v_relocable n))
  | v_global ↦ (do n ← code_abx op_getglobal 0 e.info; pure (with_info e v_relocable n))
  | v_indexed ↦ (do
    free_reg e.aux
    free_reg e.info
    n ← code_abc op_gettable 0 e.info e.aux
    pure (with_info e v_relocable n))
  | v_vararg ↦ set_one_ret e
  | v_call ↦ set_one_ret e
  | _ ↦ pure e
]

unfoldable pub code_label : ℕ → ℕ → ℕ → Cmd ℕ
code_label a b skip = do get_label; code_abc op_loadbool a b skip

module _ ⦃fp : FloatOps⦄ where
  -- the switch of `discharge2reg`
  unfoldable pub settle : ExpDesc → ℕ → Cmd ExpDesc
  settle e reg =
      let settled : ExpDesc = with_info e v_nonreloc reg in
      elim e.k [
        | v_nil ↦ (do Emit.nil reg 1; pure settled)
        | v_false ↦ (do code_abc op_loadbool reg 0 0; pure settled)
        | v_true ↦ (do code_abc op_loadbool reg 1 0; pure settled)
        | v_k ↦ (do code_abx op_loadk reg e.info; pure settled)
        | v_knum ↦ (do n ← number_k e.nval; code_abx op_loadk reg n; pure settled)
        | v_relocable ↦ (do update_code e (λ i. set_arg_a i reg); pure settled)
        | v_nonreloc ↦
            if reg == e.info then pure settled else (do code_abc op_move reg e.info 0; pure settled)
        | _ ↦ pure e
      ]

  unfoldable pub discharge_to_reg : ExpDesc → ℕ → Cmd ExpDesc
  discharge_to_reg e reg = do e' ← discharge_vars e; settle e' reg

  unfoldable pub discharge_to_any_reg : ExpDesc → Cmd ExpDesc
  discharge_to_any_reg e =
      if is_nonreloc e
      then pure e
      else (do reserve_regs 1; fs ← get_state; discharge_to_reg e (fs.freereg - 1))

  -- the LOADBOOL instructions for the jumps that do not carry a value: where they stand
  abbrev load_values : ExpDesc → ℕ → Bool → Cmd (Jump × Jump)
  load_values e reg needed =
      if needed
      then (do
        fj ← (if is_jmp e then pure none else (do j ← jump; pure (some j)))
        p_f ← code_label reg 0 1
        p_t ← code_label reg 1 0
        patch_to_here fj
        pure (some p_f, some p_t))
      else pure (none, none)

  -- what `exp2reg` does for an expression with jumps
  unfoldable pub close_jumps : ExpDesc → ℕ → Cmd (Unit {0})
  close_jumps e reg = do
    for_t ← need_value e.t
    needed ← (if for_t then pure true else need_value e.f)
    (p_f, p_t) ← load_values e reg needed
    end ← get_label
    patch_list_aux e.f (some end) reg p_f
    patch_list_aux e.t (some end) reg p_t

  unfoldable pub exp_to_reg : ExpDesc → ℕ → Cmd ExpDesc
  exp_to_reg e reg = do
    e1 ← discharge_to_reg e reg
    e2 ←
        (if is_jmp e1
          then (do t ← concat e1.t (some e1.info); pure (record e1 { t = t }))
          else pure e1)
    (if has_jumps e2 then close_jumps e2 reg else pure tt)
    pure (record e2 { f = none; t = none; info = reg; k = v_nonreloc })

  unfoldable pub exp_to_next_reg : ExpDesc → Cmd ExpDesc
  exp_to_next_reg e = do
    e1 ← discharge_vars e
    free_exp e1
    reserve_regs 1
    fs ← get_state
    exp_to_reg e1 (fs.freereg - 1)

  -- the descriptor, whose `info` is the register that the source returns
  unfoldable pub exp_to_any_reg : ExpDesc → Cmd ExpDesc
  exp_to_any_reg e = do
    e1 ← discharge_vars e
    fs ← get_state
    if is_nonreloc e1
        then (if has_jumps e1
            then (if leb fs.nactvar e1.info then exp_to_reg e1 e1.info else exp_to_next_reg e1)
            else pure e1)
        else exp_to_next_reg e1

  unfoldable pub exp_to_val : ExpDesc → Cmd ExpDesc
  exp_to_val e = if has_jumps e then exp_to_any_reg e else discharge_vars e

  abbrev in_register : ExpDesc → Cmd (ℕ × ExpDesc)
  in_register e = do e' ← exp_to_any_reg e; pure (e'.info, e')

  abbrev as_constant : ExpDesc → ℕ → ℕ × ExpDesc
  as_constant e n = (rk_as_k n, with_info e v_k n)

  -- a constant that is not in the table yet
  abbrev new_constant : ExpDesc → Cmd ℕ → Cmd (ℕ × ExpDesc)
  new_constant e enter = do
    fs ← get_state
    if leb fs.nk max_index_rk then (do n ← enter; pure (as_constant e n)) else in_register e

  -- the RK operand, and the descriptor
  unfoldable pub exp_to_rk : ExpDesc → Cmd (ℕ × ExpDesc)
  exp_to_rk e = do
    e1 ← exp_to_val e
    elim e1.k [
      | v_knum ↦ new_constant e1 (number_k e1.nval)
      | v_true ↦ new_constant e1 (bool_k true)
      | v_false ↦ new_constant e1 (bool_k false)
      | v_nil ↦ new_constant e1 nil_k
      | v_k ↦ if leb e1.info max_index_rk then pure (rk_as_k e1.info, e1) else in_register e1
      | _ ↦ in_register e1
    ]

  unfoldable pub store_var : ExpDesc → ExpDesc → Cmd ExpDesc
  store_var var ex = elim var.k [
    | v_local ↦ (do free_exp ex; exp_to_reg ex var.info)
    | v_upval ↦ (do
      e ← exp_to_any_reg ex
      code_abc op_setupval e.info var.info 0
      free_exp e
      pure e)
    | v_global ↦ (do
      e ← exp_to_any_reg ex
      code_abx op_setglobal e.info var.info
      free_exp e
      pure e)
    | v_indexed ↦ (do
      (rk, e) ← exp_to_rk ex
      code_abc op_settable var.info var.aux rk
      free_exp e
      pure e)
    | _ ↦ (do free_exp ex; pure ex)
  ]

  unfoldable pub self : ExpDesc → ExpDesc → Cmd ExpDesc
  self e key = do
    e1 ← exp_to_any_reg e
    free_exp e1
    fs ← get_state
    let func = fs.freereg
    reserve_regs 2
    (rk, key1) ← exp_to_rk key
    code_abc op_self func e1.info rk
    free_exp key1
    pure (with_info e1 v_nonreloc func)

  -- luaK_indexed
  unfoldable pub indexed : ExpDesc → ExpDesc → Cmd ExpDesc
  indexed t key = do (rk, key1) ← exp_to_rk key; pure (record t { aux = rk; k = v_indexed })
