-- ===== src/Code/Oper/Compare.antt =====
-- Comparisons of two registers, and the instructions of the machine that decide them.
use luaxx.Base.{
  ℕ, ◌+◌, ◌<◌, ◌≡◌, Bool, false, not, ◌&&◌, none, some, length, get_elem?, ◌==◌, if◌then◌else◌, leb,
  ◌-◌, minus_one,
}
use luaxx.Opcodes.{
  Instruction, OpCode, number, op_eq, op_lt, op_jmp, create_abc, get_opcode, get_arg_a, get_arg_b,
  get_arg_c, get_arg_sbx, is_k,
}
use luaxx.Code.State.{ExpDesc, v_nonreloc, v_jmp, FuncState, Run, ok}
use luaxx.Code.Emit.{max_int}
use luaxx.Code.Oper.{BinOpr, opr_eq, opr_ne, opr_lt, opr_le, opr_gt, opr_ge, is_eq}

-- A value in a register, with no jumps of its own.
abbrev pub in_reg : ℕ → ExpDesc
in_reg r = record { k = v_nonreloc; info = r; aux = 0; nval = 0; t = none; f = none }

-- `freereg` after both operands are freed
abbrev freed : ℕ → FuncState → FuncState
freed r fs = if not (is_k r) && leb fs.nactvar r then record fs { freereg = fs.freereg - 1 } else fs

-- What freeing registers leaves alone.
record Same (fs fs' : FuncState) : Type 0 where
  code : fs'.code ≡ fs.code
  pc : fs'.pc ≡ fs.pc
  jpc : fs'.jpc ≡ fs.jpc

-- The words `w` and then a jump that ends a list are the last of the code, from `pc` on.
abbrev pub EndsWithJump : Instruction → ℕ → FuncState → Type 0
EndsWithJump w pc fs' =
    (get_elem? fs'.code pc ≡ some w)
    × ((j : Instruction) × (get_elem? fs'.code (pc + 1) ≡ some j)
        × (get_opcode j ≡ number op_jmp)
        × (get_arg_sbx j ≡ minus_one))
    × (fs'.pc ≡ pc + 2)
    × (length fs'.code ≡ pc + 2)

-- A comparison was emitted: the word `w` at `pc`, the jump behind it, and its descriptor.
abbrev Compared : Instruction → FuncState → Run ExpDesc → Type 0
Compared w fs r =
    (e : ExpDesc) × (fs' : FuncState) × (r ≡ ok e fs')
    × EndsWithJump w fs.pc fs'
    × (e.k ≡ v_jmp)
    × (e.info ≡ fs.pc + 1)

module _ (o : OpCode) (x y z a b : ℕ) (fs : FuncState) (waits : fs.jpc ≡ none)
    (top : fs.pc ≡ length fs.code) (small : fs.pc + 1 < max_int) where
  abbrev fs2 : FuncState
  fs2 = freed a (freed b fs)

abbrev comp_word : OpCode → ℕ → ℕ → ℕ → Instruction
comp_word o cond a b =
    if (cond == 0) && not (is_eq o) then create_abc o 1 b a else create_abc o cond a b

module _ {V : Type 0} (eq lt le : V → V → Bool) (val : ℕ → V) where
  -- lopcodes.h on OP_EQ, OP_LT and OP_LE: `if ((RK(B) op RK(C)) ~= A) then pc++`. The jump behind
  -- the instruction is taken when it is not skipped.
  abbrev pub takes_jump : Instruction → Bool
  takes_jump i =
      let b = val (get_arg_b i) in
      let c = val (get_arg_c i) in
      let result =
        if get_opcode i == number op_eq
        then eq b c
        else (if get_opcode i == number op_lt then lt b c else le b c) in
      if get_arg_a i == 0 then not result else result

  -- What the operator means on two registers. Only `<` and `<=` are primitive.
  abbrev pub holds : BinOpr → ℕ → ℕ → Bool
  holds opr_eq a b = eq (val a) (val b)
  holds opr_ne a b = not (eq (val a) (val b))
  holds opr_lt a b = lt (val a) (val b)
  holds opr_le a b = le (val a) (val b)
  holds opr_gt a b = lt (val b) (val a)
  holds opr_ge a b = le (val b) (val a)
  holds _ a b = false

pub data IsComparison : BinOpr → Type 0 where
  eq_compares : IsComparison opr_eq
  ne_compares : IsComparison opr_ne
  lt_compares : IsComparison opr_lt
  le_compares : IsComparison opr_le
  gt_compares : IsComparison opr_gt
  ge_compares : IsComparison opr_ge
