-- ===== src/Checker/Tests.antt =====
-- The checker on small functions.
use luaxx.Base.{ℕ, ◌<◌, ◌≡◌, refl, List, [], ◌∷◌, none, some, true, false, get_elem?, arith, ◌⊎◌}
use luaxx.Opcodes.{
  Instruction, OpCode, no_reg, create_abc, create_abx, get_opcode, get_arg_a, get_arg_b, get_arg_c,
  get_arg_bx, get_arg_sbx,
}
use luaxx.Opcodes.Modes.{get_op_mode, get_b_mode, get_c_mode, test_a_mode, test_t_mode}
use luaxx.Chunk.{Header, proto, done}
use luaxx.Checker
use luaxx.Checker.{fine, fails, symbexec, check_code}
use luaxx.Checker.Parts.{EndsInReturn}
use luaxx.Checker.Reached.{IsReached, IsCount}
use luaxx.Checker.Loop.{IsSound}
use luaxx.Checker.Safe.{symbexec_safe, check_code-IsSound}

abbrev with_code : List Instruction → Header
with_code code = record {
  source = none;
  linedefined = 0;
  lastlinedefined = 0;
  nups = 0;
  numparams = 1;
  is_vararg = 0;
  maxstacksize = 3;
  code = code;
  k = [];
  lineinfo = [];
  locvars = [];
  upvalues = [];
}

-- if a then return end
abbrev tested : Header
tested = with_code (
    create_abc OpCode.op_test 0 0 0
    ∷ create_abx OpCode.op_jmp 0 131072
    ∷ create_abc OpCode.op_return 0 1 0
    ∷ create_abc OpCode.op_return 0 1 0
    ∷ [])

tested_passes : check_code (proto tested done) ≡ true
unfolding Checker.check_code Checker.symbexec Checker.precheck Checker.check_loop
    Checker.check_instruction Checker.checked_operands Checker.check_operands Checker.check_skip
    Checker.execute Checker.check_arg_mode Checker.check_dest Checker.setlists_before get_opcode
    get_arg_a get_arg_b get_arg_c get_arg_bx get_arg_sbx get_op_mode get_b_mode get_c_mode
    test_a_mode test_t_mode create_abc create_abx
tested_passes = refl

check_code-IsSound_example :
    EndsInReturn tested.code
    × ((q : ℕ)
        → q < 4
        → (IsReached tested.code q × IsSound tested done 4 no_reg q) ⊎ IsCount tested.code q)
check_code-IsSound_example = check_code-IsSound tested done tested_passes

-- a jump behind the code
abbrev wrong : Header
wrong = with_code (create_abx OpCode.op_jmp 0 131080 ∷ create_abc OpCode.op_return 0 1 0 ∷ [])

wrong_jump_fails : check_code (proto wrong done) ≡ false
unfolding Checker.check_code Checker.symbexec Checker.precheck Checker.check_loop
    Checker.check_instruction Checker.checked_operands Checker.check_operands Checker.check_skip
    Checker.execute Checker.check_arg_mode Checker.check_dest Checker.setlists_before get_opcode
    get_arg_a get_arg_b get_arg_c get_arg_bx get_arg_sbx get_op_mode get_b_mode get_c_mode
    test_a_mode test_t_mode create_abc create_abx
wrong_jump_fails = refl

symbexec_safe_example :
    (symbexec tested done 3 0 ≡ fails)
    ⊎ ((i : Instruction) × (at : ℕ) × (symbexec tested done 3 0 ≡ fine i)
        × (get_elem? tested.code at ≡ some i))
symbexec_safe_example = symbexec_safe tested done 3 0 (omega arith)
