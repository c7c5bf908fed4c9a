-- ===== src/Strings/Slices.antt =====
-- `str_byte`, `str_sub` and `str_char` on the same positions.
use luaxx.Base.{
  ℕ, zero, suc, ◌+◌, ◌-◌, ◌^◌, ◌≤◌, ◌<◌, ◌≡◌, refl, [], ◌∷◌, some, Bool, true, false, length, take,
  drop, get_or, ltb, leb, if◌then◌else◌, ℤ, arith, Bool-cases, inl, inr,
}
use luaxx.Chunk.{Str}
use luaxx.Strings.{posrelat, from_one, up_to, slice, str_sub, pushed, push_bytes, str_byte}

drop_step : (at : ℕ) (s : Str) → at < length s → drop at s ≡ get_or s at 0 ∷ drop (suc at) s
drop_step at [] h = absurd (omega arith)
drop_step zero (c ∷ s) h = refl
drop_step (suc at) (c ∷ s) h = drop_step at s (omega arith)

pushed_lem : (n at : ℕ) (s : Str) → at + n ≤ length s → pushed n at s ≡ take n (drop at s)
unfolding pushed
pushed_lem zero at s h = refl
pushed_lem (suc n) at s h =
    let next : at + 1 ≡ suc at = omega arith in
    rw (drop_step at s (omega arith), next, pushed_lem n (suc at) s (omega arith))

length-pushed : (n at : ℕ) (s : Str) → length (pushed n at s) ≡ n
unfolding pushed
length-pushed zero at s = refl
length-pushed (suc n) at s = omega (arith, length-pushed n (at + 1) s)

-- from a first position that is not 0 to a last that is not past the end
pushed-slice :
    (room : ℕ → Bool) (s : Str) (st en : ℕ)
    → 1 ≤ st
    → en ≤ length s
    → length s < 2 ^ 31
    → room (length (slice st en s)) ≡ true
    → (if ltb en st then some [] else push_bytes room st (en - st + 1) s) ≡ some (slice st en s)
pushed-slice room s st en lo hi h r = elim (Bool-cases (leb st en)) [
  | inr empty ↦ let e : ltb en st ≡ true = ground arith in rw (empty, e)
  | inl some_bytes ↦
      let e : ltb en st ≡ false = ground arith in
      let small : leb (2 ^ 31) (en - st + 1) ≡ false = ground arith in
      let q = pushed_lem (en - st + 1) (st - 1) s (ground arith) in
      let n : length (take (en - st + 1) (drop (st - 1) s)) ≡ en - st + 1 =
        rw (← q) (length-pushed (en - st + 1) (st - 1) s) in
      let fits : room (en - st + 1) ≡ true = rw (some_bytes, n) at r in
      rw (e, some_bytes, small, fits, q)
]

-- On a string of fewer than 2 ^ 31 bytes, and with room for them on the stack, `str_byte` gives
-- the bytes of what `str_sub` gives for the same two positions, in range or not.
pub str_byte-str_sub :
    (room : ℕ → Bool) (s : Str) (i j : ℤ)
    → length s < 2 ^ 31
    → room (length (str_sub s i j)) ≡ true
    → str_byte room s i j ≡ some (str_sub s i j)
unfolding str_byte str_sub
str_byte-str_sub room s i j h r =
    pushed-slice room s (from_one (posrelat i (length s)))
      (up_to (length s) (posrelat j (length s))) (ground arith) (ground arith) h r
