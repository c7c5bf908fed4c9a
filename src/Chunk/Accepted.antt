-- ===== src/Chunk/Accepted.antt =====
-- What luaU_undump gives, and the bytecode checker.
use mathlib.Core.Path.{subst}
use luaxx.Base.{ℕ, zero, suc, ◌-◌, ◌≡◌, List, Option, some, Bool, Bool-cases, inl, inr}
use luaxx.Zio.{Zio}
use luaxx.Chunk.{Str, Proto}
use luaxx.Chunk.Load.{
  Load, Loaded, ok, error, and_then, load_times, load_start, load_constants, load_int, load_debug,
  load_header, load_function, undump, assemble, to_protos, max_c_calls, unknown_source,
}
use luaxx.Chunk.RoundTrip.{IsAccepted, AreAccepted}

abbrev Gives : {A : Type 0} → (A → Type 0) → Loaded A → Type 0
Gives P (ok a z) = P a
Gives P (error w) = Unit

Gives-bind :
    {A B : Type 0} (P : A → Type 0) (Q : B → Type 0) (r : Loaded A) (k : A → Load B)
    → Gives P r
    → ((a : A) (z : Zio) → P a → Gives Q (k a z))
    → Gives Q (and_then r k)
Gives-bind P Q (ok a z) k h g = g a z h
Gives-bind P Q (error w) k h g = tt

Gives-any : {A : Type 0} (r : Loaded A) → Gives (λ _. Unit) r
Gives-any (ok a z) = tt
Gives-any (error w) = tt

module _ {B : Type 0} (Q : B → Type 0) where
  Gives-after :
      {A : Type 0} (r : Loaded A) (k : A → Load B)
      → ((a : A) (z : Zio) → Gives Q (k a z))
      → Gives Q (and_then r k)
  Gives-after r k g = Gives-bind (λ _. Unit) Q r k (Gives-any r) λ a z _. g a z

module _ (checks : Proto → Bool) where
  load_times-AreAccepted :
      (n : ℕ) (one : Load Proto)
      → ((z : Zio) → Gives (IsAccepted checks) (one z))
      → (z : Zio) → Gives (λ fs. AreAccepted checks (to_protos fs)) (load_times n one z)
  unfolding load_times
  load_times-AreAccepted zero one h z = tt
  load_times-AreAccepted (suc n) one h z =
      let Q : List Proto → Type 0 = λ fs. AreAccepted checks (to_protos fs) in
      Gives-bind (IsAccepted checks) Q (one z) _ (h z) λ f z' a.
        Gives-bind Q Q (load_times n one z') _ (load_times-AreAccepted n one h z')
          λ fs z'' b. (a, b)

  load_function-IsAccepted :
      (room : ℕ) (p : Option Str) (z : Zio)
      → Gives (IsAccepted checks) (load_function checks room p z)
  unfolding load_function
  load_function-IsAccepted zero p z = tt
  load_function-IsAccepted (suc room) p z =
      let Q : Proto → Type 0 = IsAccepted checks in
      Gives-after Q (load_start p z) _ λ s z1. Gives-after Q (load_constants z1) _ λ k z2.
        Gives-after Q (load_int z2) _ λ n z3.
          Gives-bind (λ fs. AreAccepted checks (to_protos fs)) Q
            (load_times n (load_function checks room s.source) z3) _
            (load_times-AreAccepted n (load_function checks room s.source)
              (load_function-IsAccepted room s.source) z3)
            λ fs z4 a. Gives-after Q (load_debug z4) _ λ d z5.
              elim (Bool-cases (checks (assemble s k fs d))) [
                | inl e ↦ rw e (e, a)
                | inr e ↦ rw e tt
              ]

  -- Where luaU_undump gives a function, the bytecode checker has accepted it and every function
  -- inside it, whatever the stream held.
  pub undump-IsAccepted :
      (calls : ℕ) (z : Zio) (f : Proto) (z' : Zio)
      → undump checks calls z ≡ ok f z'
      → IsAccepted checks f
  unfolding undump
  undump-IsAccepted calls z f z' e = split (undump checks calls z) all e
    where
      all : Gives (IsAccepted checks) (undump checks calls z)
      all =
          Gives-after (IsAccepted checks) (load_header z) _
            λ _ z1. load_function-IsAccepted (max_c_calls - calls) (some unknown_source) z1

      split : (r : Loaded Proto) → Gives (IsAccepted checks) r → r ≡ ok f z' → IsAccepted checks f
      split (ok g z1) h e = let same : g ≡ f = cc in subst (IsAccepted checks) same h
      split (error w) h e = absurd cc
