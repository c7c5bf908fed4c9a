-- ===== src/Code/Emit.antt =====
-- Writing instructions, and the registers that they use.
pub mod Registers
pub mod Append
pub mod Nils
pub mod SetList
use luaxx.Base.{
  ℕ, zero, suc, ◌+◌, ◌-◌, ◌/◌, ◌^◌, ◌%◌, List, [], ◌∷◌, Option, none, some, Bool, true, false, not,
  ◌&&◌, put, ltb, leb, ◌==◌, if◌then◌else◌, ℤ, pos, negsuc, ◌+ℤ◌, minus_one,
}
use luaxx.Opcodes.{
  Instruction, OpCode, number, op_loadnil, op_jmp, op_return, op_setlist, get_opcode, get_arg_a,
  get_arg_b, set_arg_b, create_abc, create_abx, to_unsigned, max_arg_sbx, max_arg_c, is_k,
}
use luaxx.Code.State.{
  Jump, Results, plus_one, FuncState, Failure, code_size_overflow, function_too_complex, Run, ok,
  fail, Cmd, pure, throw, and_then, ◌>>=◌, ◌>>◌, get_state, set_state, load, store, above, ExpDesc,
  v_nonreloc,
}
use luaxx.Code.Jumps.{concat, discharge_jpc, get_label}

-- MAX_INT of llimits.h
abbrev pub max_int : ℕ
max_int = 2 ^ 31 - 3

unfoldable pub append : Instruction → ℕ → Cmd ℕ
append i line fs =
    if leb max_int fs.pc
    then fail code_size_overflow
    else ok fs.pc (record fs {
      code = put fs.code fs.pc i;
      lineinfo = put fs.lineinfo fs.pc line;
      pc = fs.pc + 1;
    })

-- luaK_code
unfoldable pub code : Instruction → ℕ → Cmd ℕ
code i line = do discharge_jpc; append i line

unfoldable pub code_abc : OpCode → ℕ → ℕ → ℕ → Cmd ℕ
code_abc o a b c = do fs ← get_state; code (create_abc o a b c) fs.lastline

unfoldable pub code_abx : OpCode → ℕ → ℕ → Cmd ℕ
code_abx o a bc = do fs ← get_state; code (create_abx o a bc) fs.lastline

unfoldable pub code_asbx : OpCode → ℕ → ℤ → Cmd ℕ
code_asbx o a sbx = code_abx o a (to_unsigned (sbx +ℤ pos max_arg_sbx))

unfoldable pub fix_line : ℕ → Cmd (Unit {0})
fix_line line fs = ok tt (record fs { lineinfo = put fs.lineinfo (fs.pc - 1) line })

abbrev nil_anew : ℕ → ℕ → Cmd (Unit {0})
nil_anew from n = do code_abc op_loadnil from (from + n - 1) 0; pure tt

-- the instruction before is a LOADNIL whose range can be extended
abbrev nil_connect : ℕ → ℕ → ℕ → Instruction → Cmd (Unit {0})
nil_connect from n at previous =
    let pfrom = get_arg_a previous in
    let pto = get_arg_b previous in
    if leb pfrom from && leb from (pto + 1)
    then (if ltb pto (from + n - 1) then store at (set_arg_b previous (from + n - 1)) else pure tt)
    else nil_anew from n

abbrev nil_after : ℕ → ℕ → ℕ → Cmd (Unit {0})
nil_after from n at = do
  previous ← load at
  if get_opcode previous == number op_loadnil
      then nil_connect from n at previous
      else nil_anew from n

-- luaK_nil: sets the `n` registers from `from` on to nil
unfoldable pub nil : ℕ → ℕ → Cmd (Unit {0})
nil from n = do
  fs ← get_state
  if above fs.pc fs.lasttarget
      then (if fs.pc == 0
          then (if leb fs.nactvar from then pure tt else nil_anew from n)
          else nil_after from n (fs.pc - 1))
      else nil_anew from n

-- luaK_jump: `luaK_concat` does not change a `j` that is no NO_JUMP
unfoldable pub jump : Cmd ℕ
jump = do
  fs ← get_state
  set_state (record fs { jpc = none })
  j ← code_asbx op_jmp 0 minus_one
  concat (some j) fs.jpc
  pure j

unfoldable pub ret : ℕ → Results → Cmd (Unit {0})
ret first nret = do code_abc op_return first (plus_one nret) 0; pure tt

unfoldable pub cond_jump : OpCode → ℕ → ℕ → ℕ → Cmd ℕ
cond_jump op a b c = do code_abc op a b c; jump

abbrev pub fields_per_flush : ℕ
fields_per_flush = 50

-- A batch number that does not fit C takes the next instruction word.
unfoldable pub set_list_code : ℕ → ℕ → ℕ → Cmd (Unit {0})
set_list_code base b c =
    if leb c max_arg_c
    then (do code_abc op_setlist base b c; pure tt)
    else (do code_abc op_setlist base b 0; fs ← get_state; code c fs.lastline; pure tt)

abbrev pub to_store : Results → ℕ
to_store none = 0
to_store (some n) = n

unfoldable pub set_list : ℕ → ℕ → Results → Cmd (Unit {0})
set_list base nelems tostore = do
  set_list_code base (to_store tostore) ((nelems - 1) / fields_per_flush + 1)
  fs ← get_state
  set_state (record fs { freereg = base + 1 })

-- llimits.h
abbrev pub max_stack : ℕ
max_stack = 250

unfoldable pub check_stack : ℕ → Cmd (Unit {0})
check_stack n fs =
    let newstack = fs.freereg + n in
    if ltb fs.maxstacksize newstack
    then (if leb max_stack newstack
        then fail function_too_complex
        else ok tt (record fs { maxstacksize = newstack % 2 ^ 8 }))
    else ok tt fs

unfoldable pub reserve_regs : ℕ → Cmd (Unit {0})
reserve_regs n = do
  check_stack n
  fs ← get_state
  set_state (record fs { freereg = fs.freereg + n })

unfoldable pub free_reg : ℕ → Cmd (Unit {0})
free_reg reg fs =
    if not (is_k reg) && leb fs.nactvar reg
    then ok tt (record fs { freereg = fs.freereg - 1 })
    else ok tt fs

unfoldable pub free_exp : ExpDesc → Cmd (Unit {0})
free_exp e = elim e.k [ v_nonreloc ↦ free_reg e.info | _ ↦ pure tt ]
