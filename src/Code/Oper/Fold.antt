-- ===== src/Code/Oper/Fold.antt =====
-- Constant folding.
use luaxx.Base.{ℕ, ◌≡◌, true, false, some, arith}
use luaxx.Opcodes.{OpCode, op_add, op_sub, op_mul, op_div, op_mod, op_pow, op_unm, op_len}
use luaxx.Code.State.{ExpDesc}
use luaxx.Code.Constants.{FloatOps, is_nan}
use luaxx.Code.Oper.{is_numeral, const_folding}

-- What each arithmetic operation gives at run time, on operands that it may be folded for: a
-- division by a number equal to 0 gives none of these, and no other operation does.
abbrev pub Computes : ⦃fp : FloatOps⦄ → ℕ → ℕ → OpCode → ℕ → Type 0
Computes ⦃fp⦄ a b op_add r = r ≡ fp.add a b
Computes ⦃fp⦄ a b op_sub r = r ≡ fp.sub a b
Computes ⦃fp⦄ a b op_mul r = r ≡ fp.mul a b
Computes ⦃fp⦄ a b op_div r = (fp.eq b 0 ≡ false) × (r ≡ fp.div a b)
Computes ⦃fp⦄ a b op_mod r = (fp.eq b 0 ≡ false) × (r ≡ fp.mod_of a b)
Computes ⦃fp⦄ a b op_pow r = r ≡ fp.pow a b
Computes ⦃fp⦄ a b op_unm r = r ≡ fp.unm a
Computes ⦃fp⦄ a b _ r = ⊥

-- The operations that `codearith` is called for with two operands that may both be numerals.
pub data IsArith : OpCode → Type 0 where
  add_is : IsArith op_add
  sub_is : IsArith op_sub
  mul_is : IsArith op_mul
  div_is : IsArith op_div
  mod_is : IsArith op_mod
  pow_is : IsArith op_pow
  unm_is : IsArith op_unm
  len_is : IsArith op_len

module _ ⦃fp : FloatOps⦄ where
  -- A folded operation had two numerals as operands, and the value is what the operation computes
  -- on them; it is no NaN, and no divisor was 0.
  pub const_folding_sound :
      (op : OpCode) (e1 e2 : ExpDesc) (r : ℕ)
      → IsArith op
      → const_folding op e1 e2 ≡ some r
      → (is_numeral e1 ≡ true)
        × (is_numeral e2 ≡ true)
        × (is_nan r ≡ false)
        × Computes e1.nval e2.nval op r
  unfolding const_folding
  const_folding_sound op e1 e2 r add_is h = ground arith
  const_folding_sound op e1 e2 r _ h = ground arith
