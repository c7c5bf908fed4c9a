-- ===== src/Checker.antt =====
-- ldebug.c: the bytecode checker, `symbexec` and luaG_checkcode. A function is its fields with the
-- functions that it contains. A check that does not hold is `fails`; `wild` is a read outside of
-- an array and `endless` a loop that does not end, which the model keeps apart.
pub mod Ensures
pub mod Parts
pub mod Reached
pub mod Rounds
pub mod Stops
pub mod Loop
pub mod Safe
mod Tests
use luaxx.Base.{
  ℕ, zero, suc, ◌+◌, ◌-◌, ◌/◌, ◌%◌, List, [], ◌∷◌, Option, none, some, Bool, true, false, not, ◌&&◌,
  ◌||◌, length, get_elem?, ltb, leb, ◌==◌, if◌then◌else◌, ℤ, pos, negsuc, ◌+ℤ◌,
}
use luaxx.Opcodes.{
  Instruction, OpCode, number, num_opcodes, get_opcode, get_arg_a, get_arg_b, get_arg_c, get_arg_bx,
  get_arg_sbx, is_k, index_k, no_reg,
}
use luaxx.Opcodes.Modes.{
  OpMode, i_abc, i_abx, OpArgMask, op_arg_n, op_arg_u, op_arg_r, op_arg_k, mode_number, mask_number,
  get_op_mode, get_b_mode, get_c_mode, test_a_mode, test_t_mode,
}
use luaxx.Chunk.{Constant, string, Header, Proto, proto, Protos, done, next, count}

pub data Checked {ℓ} (A : Type ℓ) : Type ℓ where
  fine : A → Checked A
  fails wild endless : Checked A

infixl 5 ◌>>=◌ ◌>>◌
abbrev pub ◌>>=◌ {ℓ κ} : {A : Type ℓ} {B : Type κ} → Checked A → (A → Checked B) → Checked B
(fine a) >>= g = g a
fails >>= g = fails
wild >>= g = wild
endless >>= g = endless

abbrev pub ◌>>◌ {ℓ κ} : {A : Type ℓ} {B : Type κ} → Checked A → Checked B → Checked B
m >> n = m >>= λ _. n

-- the macro `check`
abbrev pub check : Bool → Checked (Unit {0})
check b = if b then fine tt else fails

abbrev pub when : Bool → Checked (Unit {0}) → Checked (Unit {0})
when b m = if b then m else fine tt

abbrev pub of_option {ℓ} : {A : Type ℓ} → Option A → Checked A
of_option none = wild
of_option (some a) = fine a

abbrev pub read {ℓ} : {A : Type ℓ} → List A → ℕ → Checked A
read xs i = of_option (get_elem? xs i)

abbrev pub is_op : Instruction → OpCode → Bool
is_op i o = get_opcode i == number o

abbrev pub max_stack : ℕ
max_stack = 250

-- the bits of `is_vararg`
abbrev pub has_arg : Header → ℕ
has_arg f = f.is_vararg % 2

abbrev pub is_vararg_bit : Header → ℕ
is_vararg_bit f = f.is_vararg / 2 % 2

abbrev pub needs_arg : Header → ℕ
needs_arg f = f.is_vararg / 4 % 2

unfoldable pub precheck : Header → Checked (Unit {0})
precheck f = do
  check (leb f.maxstacksize max_stack)
  check (leb (f.numparams + has_arg f) f.maxstacksize)
  check (not (needs_arg f == 1) || (has_arg f == 1))
  check (leb (length f.upvalues) f.nups)
  check ((length f.lineinfo == length f.code) || (length f.lineinfo == 0))
  check (ltb 0 (length f.code))
  i ← read f.code (length f.code - 1)
  check (is_op i OpCode.op_return)

-- luaG_checkopenop
unfoldable pub check_open_op : Instruction → Bool
check_open_op i =
    (is_op i OpCode.op_call
      || is_op i OpCode.op_tailcall
      || is_op i OpCode.op_return
      || is_op i OpCode.op_setlist)
    && (get_arg_b i == 0)

unfoldable pub check_arg_mode : Header → ℕ → ℕ → Checked (Unit {0})
check_arg_mode f r mode =
    if mode == mask_number op_arg_n
    then check (r == 0)
    else (if mode == mask_number op_arg_u
        then fine tt
        else (if mode == mask_number op_arg_r
            then check (ltb r f.maxstacksize)
            else check (if is_k r then ltb (index_k r) (length f.k) else ltb r f.maxstacksize)))

-- a SETLIST whose count is the next word
abbrev pub is_bare_setlist : Instruction → Bool
is_bare_setlist d = is_op d OpCode.op_setlist && (get_arg_c d == 0)

-- The SETLISTs with a count that stand one after another right before a place.
unfoldable pub setlists_before : List ℕ → ℕ → Checked ℕ
setlists_before code zero = fine 0
setlists_before code (suc n) =
    let rest = setlists_before code n in
    do d ← read code n; if is_bare_setlist d then (do j ← rest; fine (j + 1)) else fine 0

-- where a jump at `pc` leads
abbrev pub dest_of : ℕ → Instruction → ℤ
dest_of pc i = pos (pc + 1) +ℤ get_arg_sbx i

unfoldable pub check_dest : List ℕ → ℤ → Checked (Unit {0})
check_dest code (negsuc n) = fails
check_dest code (pos dest) = do
  check (ltb dest (length code))
  j ← setlists_before code dest
  check (j % 2 == 0)

abbrev pub is_string : Constant → Bool
is_string (string s) = true
is_string _ = false

-- `pt->p[b]->nups`
abbrev pub nups_of : Protos → ℕ → Option ℕ
nups_of done b = none
nups_of (next (proto f fs) ps) zero = some f.nups
nups_of (next p ps) (suc b) = nups_of ps b

-- The pseudo-instructions behind a CLOSURE: `nup` of them.
unfoldable pub check_pseudo : List ℕ → ℕ → ℕ → Checked (Unit {0})
check_pseudo code pc zero = fine tt
check_pseudo code pc (suc nup) = do
  i ← read code (pc + 1)
  check (is_op i OpCode.op_getupval || is_op i OpCode.op_move)
  check_pseudo code (pc + 1) nup

-- the loop's variables `pc` and `last`
pub record Place : Type 0 where
  pub pc : ℕ
  pub last : ℕ

module _ (f : Header) (ps : Protos) (lastpc reg : ℕ) where
  abbrev pub check_reg : ℕ → Checked (Unit {0})
  check_reg r = check (ltb r f.maxstacksize)

  -- The switch over the modes: `b` and `c`. A jump's `b` is left to `dest_of`.
  unfoldable pub check_operands : ℕ → Instruction → ℕ → Checked (ℕ × ℕ)
  check_operands pc i op =
      if get_op_mode op == mode_number i_abc
      then (do
        check_arg_mode f (get_arg_b i) (get_b_mode op)
        check_arg_mode f (get_arg_c i) (get_c_mode op)
        fine (get_arg_b i, get_arg_c i))
      else (if get_op_mode op == mode_number i_abx
          then (do
            when (get_b_mode op == mask_number op_arg_k) (check (ltb (get_arg_bx i) (length f.k)))
            fine (get_arg_bx i, 0))
          else (do
            when (get_b_mode op == mask_number op_arg_r) (check_dest f.code (dest_of pc i))
            fine (0, 0)))

  -- the instruction behind a test
  unfoldable pub check_skip : ℕ → ℕ → Checked (Unit {0})
  check_skip pc op = when (test_t_mode op) (do
    check (ltb (pc + 2) (length f.code))
    i ← read f.code (pc + 1)
    check (is_op i OpCode.op_jmp))

  unfoldable pub check_loadbool : ℕ → ℕ → Checked (Unit {0})
  check_loadbool pc c = when (c == 1) (do
    check (ltb (pc + 2) (length f.code))
    i ← read f.code (pc + 1)
    check (not (is_op i OpCode.op_setlist) || not (get_arg_c i == 0)))

  unfoldable pub check_global : ℕ → Checked (Unit {0})
  check_global b = do k ← read f.k b; check (is_string k)

  unfoldable pub check_open : ℕ → Checked (Unit {0})
  check_open pc = do i ← read f.code (pc + 1); check (check_open_op i)

  -- `c - 1` results, where `c` is not 0
  abbrev check_results : ℕ → ℕ → ℕ → Checked (Unit {0})
  check_results pc a zero = check_open pc
  check_results pc a (suc zero) = fine tt
  check_results pc a (suc (suc c)) = check_reg (a + (c + 1) - 1)

  unfoldable pub check_call : ℕ → ℕ → ℕ → ℕ → Checked (Unit {0})
  check_call pc a b c = do when (not (b == 0)) (check_reg (a + b - 1)); check_results pc a c

  unfoldable pub check_closure : ℕ → ℕ → Checked ℕ
  check_closure pc b = do
    check (ltb b (count ps))
    nup ← of_option (nups_of ps b)
    check (ltb (pc + nup) (length f.code))
    check_pseudo f.code pc nup
    fine nup

  -- `a + b - 1`, for a `b` that is one less, is `a + b - 2` of the operand: below 0 where it stops
  -- at 0, and there is a register then.
  unfoldable pub check_vararg : ℕ → ℕ → ℕ → Checked (Unit {0})
  check_vararg pc a b = do
    check ((is_vararg_bit f == 1) && not (needs_arg f == 1))
    when (b == 0) (check_open pc)
    check_reg (a + b - 2)

  -- `pc` behind a jump forwards that does not pass `lastpc`, where a register is traced
  abbrev pub jumped : ℕ → ℤ → ℕ
  jumped pc (negsuc n) = pc
  jumped pc (pos dest) =
      if not (reg == no_reg) && ltb pc dest && leb dest lastpc then dest - 1 else pc

  abbrev pub set_last : Bool → Place → Place
  set_last b s = if b then record s { last = s.pc } else s

  abbrev pub at_pc : ℕ → Place → Place
  at_pc pc s = record s { pc = pc }

  -- The switch over the opcodes.
  unfoldable pub execute : Place → Instruction → ℕ → ℕ → ℕ → Checked Place
  execute s i a b c =
      if is_op i OpCode.op_loadbool
      then (do check_loadbool s.pc c; fine s)
      else (if is_op i OpCode.op_loadnil
          then fine (set_last (leb a reg && leb reg b) s)
          else (if is_op i OpCode.op_getupval || is_op i OpCode.op_setupval
              then (do check (ltb b f.nups); fine s)
              else (if is_op i OpCode.op_getglobal || is_op i OpCode.op_setglobal
                  then (do check_global b; fine s)
                  else (if is_op i OpCode.op_self
                      then (do check_reg (a + 1); fine (set_last (reg == a + 1) s))
                      else (if is_op i OpCode.op_concat
                          then (do check (ltb b c); fine s)
                          else (if is_op i OpCode.op_tforloop
                              then (do
                                check (leb 1 c)
                                check_reg (a + 2 + c)
                                fine (set_last (leb (a + 2) reg) s))
                              else (if is_op i OpCode.op_forloop || is_op i OpCode.op_forprep
                                  then (do
                                    check_reg (a + 3)
                                    fine (at_pc (jumped s.pc (dest_of s.pc i)) s))
                                  else (if is_op i OpCode.op_jmp
                                      then fine (at_pc (jumped s.pc (dest_of s.pc i)) s)
                                      else (if is_op i OpCode.op_call || is_op i OpCode.op_tailcall
                                          then (do
                                            check_call s.pc a b c
                                            fine (set_last (leb a reg) s))
                                          else (if is_op i OpCode.op_return
                                              then (do
                                                when (ltb 1 b) (check_reg (a + (b - 1) - 1))
                                                fine s)
                                              else (if is_op i OpCode.op_setlist
                                                  then (do
                                                    when (ltb 0 b) (check_reg (a + b))
                                                    if c == 0
                                                        then (do
                                                          check (ltb (s.pc + 1) (length f.code - 1))
                                                          fine (at_pc (s.pc + 1) s))
                                                        else fine s)
                                                  else (if is_op i OpCode.op_closure
                                                      then (do
                                                        nup ← check_closure s.pc b
                                                        fine (
                                                            at_pc
                                                            (if reg == no_reg
                                                            then s.pc
                                                            else s.pc + nup)
                                                            s))
                                                      else (if is_op i OpCode.op_vararg
                                                          then (do check_vararg s.pc a b; fine s)
                                                          else fine s)))))))))))))

  unfoldable pub checked_operands : Place → Instruction → ℕ × ℕ → Checked Place
  checked_operands s i (b, c) = do
    check_skip s.pc (get_opcode i)
    execute (set_last (test_a_mode (get_opcode i) && (get_arg_a i == reg)) s) i (get_arg_a i) b c

  -- A round of the loop, without its `pc++`.
  unfoldable pub check_instruction : Place → Checked Place
  check_instruction s = do
    i ← read f.code s.pc
    check (ltb (get_opcode i) num_opcodes)
    check_reg (get_arg_a i)
    operands ← check_operands s.pc i (get_opcode i)
    checked_operands s i operands

  -- Every round moves `pc` on, so `lastpc` rounds are enough.
  unfoldable pub check_loop : ℕ → Place → Checked ℕ
  check_loop zero s = if ltb s.pc lastpc then endless else fine s.last
  check_loop (suc n) s =
      if ltb s.pc lastpc
      then (do s' ← check_instruction s; check_loop n (at_pc (s'.pc + 1) s'))
      else fine s.last

  unfoldable pub symbexec : Checked Instruction
  symbexec = do
    precheck f
    last ← check_loop lastpc (record { pc = 0; last = length f.code - 1 })
    read f.code last

abbrev not_zero : Checked Instruction → Bool
not_zero (fine i) = not (i == 0)
not_zero _ = false

-- luaG_checkcode
unfoldable pub check_code : Proto → Bool
check_code (proto f ps) = not_zero (symbexec f ps (length f.code) no_reg)
