-- ===== src/Table/ArrayPart.antt =====
-- `computesizes`: the array part that is chosen.
use luaxx.Base.{
  ℕ, suc, ◌+◌, ◌*◌, ◌/◌, ◌^◌, ◌<◌, ◌≡◌, refl, List, [], ◌∷◌, take, length, ltb, ◌==◌, ◌∙◌, arith,
  Bool-cases, ◌⊎◌, inl, inr, ◌++◌, append_assoc,
}
use luaxx.Table.{Sizes, count_slice, size_loop, compute_sizes}
use native.Mathlib.Nat.{pow-succ'}

-- The number of keys in the first slices.
abbrev pub total : List ℕ → ℕ
total [] = 0
total (x ∷ xs) = x + total xs

-- The keys in the first `k` slices, which are those up to 2 ^ (k - 1).
abbrev pub keys_to : List ℕ → ℕ → ℕ
keys_to nums k = total (take k nums)

-- No array part is chosen, or one of 2 ^ i places that more than half of its keys would fill.
abbrev pub IsChoice : List ℕ → Sizes → Type 0
IsChoice nums s =
    ((s.n ≡ 0) × (s.na ≡ 0))
    ⊎ ((i : ℕ) × (s.n ≡ 2 ^ i) × (s.na ≡ keys_to nums (suc i)) × (s.n / 2 < s.na))

keys_to-append :
    (pre : List ℕ) (x : ℕ) (xs : List ℕ)
    → keys_to (pre ++ (x ∷ xs)) (suc (length pre)) ≡ total pre + x
keys_to-append [] x xs = omega arith
keys_to-append (y ∷ pre) x xs = omega (arith, keys_to-append pre x xs)

total-append : (pre : List ℕ) (x : ℕ) → total (pre ++ (x ∷ [])) ≡ total pre + x
total-append [] x = omega arith
total-append (y ∷ pre) x = omega (arith, total-append pre x)

length-snoc : (pre : List ℕ) (x : ℕ) → length (pre ++ (x ∷ [])) ≡ suc (length pre)
length-snoc [] x = refl
length-snoc (y ∷ pre) x = omega (arith, length-snoc pre x)

count_slice-total : (x twotoi : ℕ) (s : Sizes) → (count_slice x twotoi s).a ≡ s.a + x
unfolding count_slice
count_slice-total x twotoi s = ground arith

count_slice-IsChoice :
    (pre : List ℕ) (x : ℕ) (xs : List ℕ) (twotoi : ℕ) (s : Sizes)
    → twotoi ≡ 2 ^ length pre
    → s.a ≡ total pre
    → IsChoice (pre ++ (x ∷ xs)) s
    → IsChoice (pre ++ (x ∷ xs)) (count_slice x twotoi s)
unfolding count_slice
count_slice-IsChoice pre x xs twotoi s p e c = elim (Bool-cases (ltb 0 x)) [
  | inr none_here ↦ rw none_here c
  | inl some_here ↦ elim (Bool-cases (ltb (twotoi / 2) (s.a + x))) [
    | inr few ↦ rw (some_here, few) c
    | inl many ↦
        rw (some_here, many)
          (inr (length pre, p, omega (arith, e, keys_to-append pre x xs), ground arith))
  ]
]

size_loop-IsChoice :
    (pre nums : List ℕ) (twotoi narray : ℕ) (s : Sizes)
    → twotoi ≡ 2 ^ length pre
    → s.a ≡ total pre
    → IsChoice (pre ++ nums) s
    → IsChoice (pre ++ nums) (size_loop nums twotoi narray s)
unfolding size_loop
size_loop-IsChoice pre [] twotoi narray s p e c = c
size_loop-IsChoice pre (x ∷ nums) twotoi narray s p e c =
    let next = count_slice x twotoi s in
    let here = count_slice-IsChoice pre x nums twotoi s p e c in
    let assoc = append_assoc pre (x ∷ []) nums in
    let rest : IsChoice (pre ++ (x ∷ nums)) (size_loop nums (twotoi * 2) narray next) =
      rw assoc at (
        size_loop-IsChoice (pre ++ (x ∷ [])) nums (twotoi * 2) narray next
          (rw (length-snoc pre x, p) (omega (arith, pow-succ' 2 (length pre))))
          (count_slice-total x twotoi s ∙ omega (arith, e, total-append pre x)) (rw assoc here)) in
    elim (Bool-cases (ltb (twotoi / 2) narray)) [
      | inr stop ↦ rw stop c
      | inl go ↦ elim (Bool-cases (next.a == narray)) [
        | inl all ↦ rw (go, all) here
        | inr more ↦ rw (go, more) rest
      ]
    ]

-- The array part that `computesizes` chooses is empty, or has a power of two of places and is
-- filled by more than half: `na` is then the number of keys up to that size, by the counts of
-- `nums`, and more than half of the size.
pub compute_sizes-IsChoice :
    (nums : List ℕ) (narray : ℕ) → IsChoice nums (compute_sizes nums narray)
unfolding compute_sizes
compute_sizes-IsChoice nums narray =
    size_loop-IsChoice [] nums 1 narray (record { a = 0; na = 0; n = 0 }) refl refl
      (inl (refl, refl))
