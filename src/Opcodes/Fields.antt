-- ===== src/Opcodes/Fields.antt =====
-- The macros that write a field of an instruction, and those that read one.
use luaxx.Base.{ℕ, ◌^◌, ◌≤◌, ◌<◌, ◌≡◌, true, arith, ℤ, pos, negsuc, abs}
use luaxx.Opcodes.{
  Instruction, OpCode, number, get_opcode, get_arg_a, set_arg_a, get_arg_b, set_arg_b, get_arg_c,
  set_arg_c, get_arg_bx, get_arg_sbx, set_arg_sbx, create_abc, create_abx, max_arg_sbx, is_k,
  index_k, rk_as_k, max_index_rk,
}

number-lt : (o : OpCode) → number o < 64
number-lt OpCode.op_move = omega arith
number-lt _ = omega arith

abbrev pub IsWord : Instruction → Type 0
IsWord i = i < 2 ^ 32

-- The four fields of an instruction word.
abbrev pub HasFields : Instruction → ℕ → ℕ → ℕ → ℕ → Type 0
HasFields i o a b c =
    IsWord i × (get_opcode i ≡ o) × (get_arg_a i ≡ a) × (get_arg_b i ≡ b) × (get_arg_c i ≡ c)

-- Writing a value that fits A into an instruction word gives a word whose A is that value and
-- whose opcode, B and C are those it had.
pub set_arg_a-HasFields :
    (i u : ℕ)
    → IsWord i
    → u < 256
    → HasFields (set_arg_a i u) (get_opcode i) u (get_arg_b i) (get_arg_c i)
unfolding set_arg_a get_opcode get_arg_a get_arg_b get_arg_c
set_arg_a-HasFields i u w h = omega arith

pub set_arg_a-bx : (i u : ℕ) → IsWord i → u < 256 → get_arg_bx (set_arg_a i u) ≡ get_arg_bx i
unfolding set_arg_a get_arg_bx
set_arg_a-bx i u w h = omega arith

pub set_arg_b-HasFields :
    (i u : ℕ)
    → IsWord i
    → u < 512
    → HasFields (set_arg_b i u) (get_opcode i) (get_arg_a i) u (get_arg_c i)
unfolding set_arg_b get_opcode get_arg_a get_arg_b get_arg_c
set_arg_b-HasFields i u w h = omega arith

pub set_arg_c-HasFields :
    (i u : ℕ)
    → IsWord i
    → u < 512
    → HasFields (set_arg_c i u) (get_opcode i) (get_arg_a i) (get_arg_b i) u
unfolding set_arg_c get_opcode get_arg_a get_arg_b get_arg_c
set_arg_c-HasFields i u w h = omega arith

-- An instruction created from arguments that fit their fields is a word that reads back as that
-- opcode, A, B and C.
pub create_abc-HasFields :
    (o : OpCode) (a b c : ℕ)
    → a < 256
    → b < 512
    → c < 512
    → HasFields (create_abc o a b c) (number o) a b c
unfolding create_abc get_opcode get_arg_a get_arg_b get_arg_c
create_abc-HasFields o a b c ha hb hc = omega (arith, number-lt o)

pub create_abx-fields :
    (o : OpCode) (a bc : ℕ)
    → a < 256
    → bc < 2 ^ 18
    → IsWord (create_abx o a bc)
      × (get_opcode (create_abx o a bc) ≡ number o)
      × (get_arg_a (create_abx o a bc) ≡ a)
      × (get_arg_bx (create_abx o a bc) ≡ bc)
unfolding create_abx get_opcode get_arg_a get_arg_bx
create_abx-fields o a bc ha hb = omega (arith, number-lt o)

-- Writing a jump offset that is in reach into an instruction word gives a word with that offset,
-- and with the opcode and the A that it had.
pub set_arg_sbx-fields :
    (i : ℕ) (z : ℤ)
    → IsWord i
    → abs z ≤ max_arg_sbx
    → IsWord (set_arg_sbx i z)
      × (get_arg_sbx (set_arg_sbx i z) ≡ z)
      × (get_opcode (set_arg_sbx i z) ≡ get_opcode i)
      × (get_arg_a (set_arg_sbx i z) ≡ get_arg_a i)
unfolding set_arg_sbx get_arg_sbx get_opcode get_arg_a
set_arg_sbx-fields i (pos n) w h = ground arith
set_arg_sbx-fields i (negsuc n) w h = ground arith

-- An index that the field allows, coded as an RK operand, is marked as a constant and reads back
-- as the index.
pub index_k-rk_as_k :
    (x : ℕ) → x ≤ max_index_rk → (is_k (rk_as_k x) ≡ true) × (index_k (rk_as_k x) ≡ x)
unfolding is_k index_k rk_as_k
index_k-rk_as_k x h = ground arith
