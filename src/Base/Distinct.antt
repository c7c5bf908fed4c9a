-- ===== src/Base/Distinct.antt =====
-- Lists of numbers without repetition.
use Prim.Native.Nat.{ℕ, zero, suc, ◌≤◌, ◌<◌}
use mathlib.Core.Path.{◌≡◌}
use mathlib.Core.Logic.{◌≢◌, inl, inr}
use mathlib.Core.List.{List, [], ◌∷◌}
use native.Mathlib.Omega.{arith}
use luaxx.Base.Tests.{◌==◌, if◌then◌else◌, Bool-cases, ==→eq}
use luaxx.Base.Lists.{length, All}

abbrev pub NotIn : ℕ → List ℕ → Type 0
NotIn p [] = Unit
NotIn p (x ∷ xs) = (p ≢ x) × NotIn p xs

abbrev pub Distinct : List ℕ → Type 0
Distinct [] = Unit
Distinct (x ∷ xs) = NotIn x xs × Distinct xs

-- The list less its first `n`.
without : ℕ → List ℕ → List ℕ
without n [] = []
without n (x ∷ xs) = if n == x then xs else x ∷ without n xs

length-without : (n : ℕ) (xs : List ℕ) → length xs ≤ suc (length (without n xs))
unfolding without
length-without n [] = omega arith
length-without n (x ∷ xs) = ground (arith, length-without n xs)

NotIn-without : (n p : ℕ) (xs : List ℕ) → NotIn p xs → NotIn p (without n xs)
unfolding without
NotIn-without n p [] h = tt
NotIn-without n p (x ∷ xs) (h, hs) = elim (Bool-cases (n == x)) [
  | inl e ↦ rw e hs
  | inr e ↦ rw e (h, NotIn-without n p xs hs)
]

Distinct-without : (n : ℕ) (xs : List ℕ) → Distinct xs → Distinct (without n xs)
unfolding without
Distinct-without n [] h = tt
Distinct-without n (x ∷ xs) (h, hs) = elim (Bool-cases (n == x)) [
  | inl e ↦ rw e hs
  | inr e ↦ rw e (NotIn-without n x xs h, Distinct-without n xs hs)
]

below_of_NotIn : (n : ℕ) (xs : List ℕ) → NotIn n xs → All (λ x. x < suc n) xs → All (λ x. x < n) xs
below_of_NotIn n [] h b = tt
below_of_NotIn n (x ∷ xs) (h, hs) (b, bs) =
    (omega (arith, λ (e : n ≡ x). h e), below_of_NotIn n xs hs bs)

below-without :
    (n : ℕ) (xs : List ℕ) → Distinct xs → All (λ x. x < suc n) xs → All (λ x. x < n) (without n xs)
unfolding without
below-without n [] h b = tt
below-without n (x ∷ xs) (h, hs) (b, bs) = elim (Bool-cases (n == x)) [
  | inl e ↦ rw e (below_of_NotIn n xs (rw (==→eq n x e) h) bs)
  | inr e ↦ rw e (ground arith, below-without n xs hs bs)
]

pub length-le_of_Distinct :
    (n : ℕ) (xs : List ℕ) → Distinct xs → All (λ x. x < n) xs → length xs ≤ n
length-le_of_Distinct n [] d b = omega arith
length-le_of_Distinct zero (x ∷ xs) d (b, bs) = absurd (omega arith)
length-le_of_Distinct (suc n) (x ∷ xs) d b = omega (
  arith,
  length-without n (x ∷ xs),
  length-le_of_Distinct n (without n (x ∷ xs)) (Distinct-without n (x ∷ xs) d)
      (below-without n (x ∷ xs) d b),
)
