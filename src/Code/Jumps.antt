-- ===== src/Code/Jumps.antt =====
-- Lists of jumps. A list is threaded through the jump offsets of the code; NO_JUMP ends it.
-- A loop along a list takes as fuel the length of the code and one: a list without repetition is
-- not longer.
pub mod Chain
pub mod Patch
pub mod Concat
use luaxx.Base.{
  ℕ, zero, suc, ◌+◌, ◌-◌, ◌%◌, List, [], ◌∷◌, Option, none, some, Bool, true, false, not, ◌&&◌,
  length, ltb, leb, ◌==◌, if◌then◌else◌, ℤ, pos, negsuc, ◌+ℤ◌, sub_ℕ, abs, is_minus_one,
}
use luaxx.Opcodes.{
  Instruction, number, op_test, op_testset, get_opcode, get_arg_a, set_arg_a, get_arg_b, get_arg_c,
  get_arg_sbx, set_arg_sbx, create_abc, max_arg_sbx, no_reg,
}
use luaxx.Opcodes.Modes.{test_t_mode}
use luaxx.Code.State.{
  Jump, FuncState, Failure, control_structure_too_long, out_of_bounds, endless, Run, ok, fail, Cmd,
  pure, throw, and_then, ◌>>=◌, ◌>>◌, get_state, set_state, load, store,
}

abbrev pub fuel : FuncState → ℕ
fuel fs = suc (length fs.code)

-- `dest-(pc+1)`, where a `dest` of NO_JUMP is -1
abbrev pub offset_to : Jump → ℕ → ℤ
offset_to none pc = negsuc (suc pc)
offset_to (some dest) pc = sub_ℕ dest (suc pc)

unfoldable pub fix_jump : ℕ → Jump → Cmd (Unit {0})
fix_jump pc dest = do
  jmp ← load pc
  let offset = offset_to dest pc
  if ltb max_arg_sbx (abs offset)
      then throw control_structure_too_long
      else store pc (set_arg_sbx jmp offset)

unfoldable pub get_label : Cmd ℕ
get_label fs = ok fs.pc (record fs { lasttarget = some fs.pc })

-- An absolute position; -1 is NO_JUMP, and a lower number no position at all.
abbrev pub position : ℤ → Cmd Jump
position (pos p) = pure (some p)
position (negsuc zero) = pure none
position (negsuc (suc n)) = throw out_of_bounds

unfoldable pub get_jump : ℕ → Cmd Jump
get_jump pc = do
  i ← load pc
  if is_minus_one (get_arg_sbx i) then pure none else position (pos (pc + 1) +ℤ get_arg_sbx i)

abbrev control_before : ℕ → Cmd ℕ
control_before zero = pure zero
control_before (suc p) = do i ← load p; if test_t_mode (get_opcode i) then pure p else pure (suc p)

-- where the instruction that controls the jump stands
unfoldable pub get_jump_control : ℕ → Cmd ℕ
get_jump_control pc = control_before pc

unfoldable pub need_value_loop : ℕ → Jump → Cmd Bool
need_value_loop n none = pure false
need_value_loop zero (some list) = throw endless
need_value_loop (suc n) (some list) = do
  c ← get_jump_control list
  i ← load c
  if get_opcode i == number op_testset
      then (do next ← get_jump list; need_value_loop n next)
      else pure true

unfoldable pub need_value : Jump → Cmd Bool
need_value list fs = need_value_loop (fuel fs) list fs

unfoldable pub patch_test_reg : ℕ → ℕ → Cmd Bool
patch_test_reg node reg = do
  c ← get_jump_control node
  i ← load c
  if get_opcode i == number op_testset
      then (do
        store c (
            if not (reg == no_reg) && not (reg == get_arg_b i)
            then set_arg_a i reg
            else create_abc op_test (get_arg_b i) 0 (get_arg_c i))
        pure true)
      else pure false

unfoldable pub remove_values_loop : ℕ → Jump → Cmd (Unit {0})
remove_values_loop n none = pure tt
remove_values_loop zero (some list) = throw endless
remove_values_loop (suc n) (some list) = do
  patch_test_reg list no_reg
  next ← get_jump list
  remove_values_loop n next

unfoldable pub remove_values : Jump → Cmd (Unit {0})
remove_values list fs = remove_values_loop (fuel fs) list fs

unfoldable pub patch_list_loop : ℕ → Jump → Jump → ℕ → Jump → Cmd (Unit {0})
patch_list_loop n none vtarget reg dtarget = pure tt
patch_list_loop zero (some list) vtarget reg dtarget = throw endless
patch_list_loop (suc n) (some list) vtarget reg dtarget = do
  next ← get_jump list
  b ← patch_test_reg list reg
  fix_jump list (if b then vtarget else dtarget)
  patch_list_loop n next vtarget reg dtarget

unfoldable pub patch_list_aux : Jump → Jump → ℕ → Jump → Cmd (Unit {0})
patch_list_aux list vtarget reg dtarget fs = patch_list_loop (fuel fs) list vtarget reg dtarget fs

unfoldable pub discharge_jpc : Cmd (Unit {0})
discharge_jpc = do
  fs ← get_state
  patch_list_aux fs.jpc (some fs.pc) no_reg (some fs.pc)
  fs' ← get_state
  set_state (record fs' { jpc = none })

-- the last jump of the list that starts at `list`
unfoldable pub last_of : ℕ → ℕ → Cmd ℕ
last_of zero list = throw endless
last_of (suc n) list = do
  next ← get_jump list
  elim next [ none ↦ pure list | some l ↦ last_of n l ]

abbrev join : ℕ → ℕ → Cmd Jump
join l1 l2 fs = (do last ← last_of (fuel fs) l1; fix_jump last (some l2); pure (some l1)) fs

-- luaK_concat: the new value of `*l1`
unfoldable pub concat : Jump → Jump → Cmd Jump
concat l1 none = pure l1
concat none (some l2) = pure (some l2)
concat (some l1) (some l2) = join l1 l2

unfoldable pub patch_to_here : Jump → Cmd (Unit {0})
patch_to_here list = do
  get_label
  fs ← get_state
  l ← concat fs.jpc list
  fs' ← get_state
  set_state (record fs' { jpc = l })

unfoldable pub patch_list : Jump → ℕ → Cmd (Unit {0})
patch_list list target = do
  fs ← get_state
  if target == fs.pc
      then patch_to_here list
      else patch_list_aux list (some target) no_reg (some target)
