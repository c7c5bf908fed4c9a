-- ===== src/Strings/Find/Plain.antt =====
-- `lmemfind` and the first occurrence of a string.
use luaxx.Base.{
  ℕ, zero, suc, ◌+◌, ◌-◌, ◌≤◌, ◌<◌, ◌≡◌, refl, sym, ◌∙◌, [], ◌∷◌, Option, none, some, Bool, true,
  false, length, take, ltb, ◌==◌, if◌then◌else◌, arith, Bool-cases, Option-cases, inl, inr,
}
use luaxx.Chunk.{Str, same_bytes}
use luaxx.Strings.Find.{mem_chr, mem_loop, lmemfind}

-- `s1` begins with `s2`.
abbrev pub starts : Str → Str → Bool
starts s2 s1 = same_bytes (take (length s2) s1) s2

-- The first place at which `s2` stands in `s1`, counted from `base`.
abbrev pub first_from : ℕ → Str → Str → Option ℕ
first_from base [] s2 = if starts s2 [] then some base else none
first_from base (x ∷ s1) s2 = if starts s2 (x ∷ s1) then some base else first_from (base + 1) s1 s2

starts_short : (s2 s1 : Str) → length s1 < length s2 → starts s2 s1 ≡ false
starts_short [] s1 h = absurd (omega arith)
starts_short (c ∷ s2) [] h = refl
starts_short (c ∷ s2) (x ∷ s1) h = ground (arith, starts_short s2 s1)

first_from_short : (base : ℕ) (s1 s2 : Str) → length s1 < length s2 → first_from base s1 s2 ≡ none
first_from_short base [] s2 h = rw (starts_short s2 [] h)
first_from_short base (x ∷ s1) s2 h =
    rw (starts_short s2 (x ∷ s1) h) (first_from_short (base + 1) s1 s2 (omega arith))

mem_loop-none : (fuel : ℕ) (s1 : Str) (base c : ℕ) (s2 : Str) → mem_loop fuel 0 s1 base c s2 ≡ none
unfolding mem_loop mem_chr
mem_loop-none zero s1 base c s2 = refl
mem_loop-none (suc fuel) s1 base c s2 = refl

module _ (c : ℕ) (s2 : Str) where
  -- a byte that does not begin `c ∷ s2`
  mem_loop_other :
      (fuel n x : ℕ) (s1 : Str) (base : ℕ)
      → (x == c) ≡ false
      → mem_loop fuel (suc n) (x ∷ s1) base c s2 ≡ mem_loop fuel n s1 (base + 1) c s2
  unfolding mem_loop mem_chr
  mem_loop_other zero n x s1 base e = refl
  mem_loop_other (suc fuel) n x s1 base e = elim (Option-cases (mem_chr c n s1)) [
    | inl h ↦ simp (mem_loop, mem_chr, e, h)
    | inr (k, h) ↦
        let place : base + (k + 1) ≡ base + 1 + k = omega arith in
        let left : suc n - suc (k + 1) ≡ n - (k + 1) = omega arith in
        let behind : base + suc (k + 1) ≡ base + 1 + (k + 1) = omega arith in
        let twice : k + 1 + 1 ≡ suc (k + 1) = omega arith in
        simp (mem_loop, mem_chr, e, h, place, twice, left, behind)
  ]

  mem_loop_first :
      (fuel n x : ℕ) (s1 : Str) (base : ℕ)
      → (x == c) ≡ true
      → mem_loop (suc fuel) (suc n) (x ∷ s1) base c s2
        ≡ (if starts s2 s1 then some base else mem_loop fuel n s1 (base + 1) c s2)
  unfolding mem_loop mem_chr
  mem_loop_first fuel n x s1 base e =
      let place : base + 0 ≡ base = omega arith in
      let left : suc n - 1 ≡ n = omega arith in simp (mem_loop, mem_chr, e, place, left)

  mem_loop-first_from :
      (fuel n : ℕ) (s1 : Str) (base : ℕ)
      → n ≤ fuel
      → n ≡ length s1 - length s2
      → mem_loop fuel n s1 base c s2 ≡ first_from base s1 (c ∷ s2)
  mem_loop-first_from fuel zero s1 base h e =
      mem_loop-none fuel s1 base c s2 ∙ sym (first_from_short base s1 (c ∷ s2) (omega arith))
  mem_loop-first_from fuel (suc n) [] base h e = absurd (omega arith)
  mem_loop-first_from zero (suc n) (x ∷ s1) base h e = absurd (omega arith)
  mem_loop-first_from (suc fuel) (suc n) (x ∷ s1) base h e = elim (Bool-cases (x == c)) [
    | inl y ↦
        mem_loop_first fuel n x s1 base y
        ∙ rw (y, mem_loop-first_from fuel n s1 (base + 1) (omega arith) (omega arith))
    | inr y ↦
        mem_loop_other (suc fuel) n x s1 base y
        ∙ rw (y, mem_loop-first_from (suc fuel) n s1 (base + 1) (omega arith) (omega arith))
  ]

-- `lmemfind` finds a string exactly where it first stands in the other, and nothing where it
-- stands nowhere.
pub lmemfind-first_from : (s1 s2 : Str) → lmemfind s1 s2 ≡ first_from 0 s1 s2
unfolding lmemfind
lmemfind-first_from [] [] = refl
lmemfind-first_from (x ∷ s1) [] = refl
lmemfind-first_from s1 (c ∷ s2) = elim (Bool-cases (ltb (length s1) (suc (length s2)))) [
  | inl e ↦ rw e (sym (first_from_short 0 s1 (c ∷ s2) (ground arith)))
  | inr e ↦ rw e (
      mem_loop-first_from c s2 (length s1 - length s2) (length s1 - length s2) s1 0 (omega arith)
        refl)
]
