-- ===== src/Code/Constants/Pool.antt =====
-- The constants that a function has entered.
use luaxx.Base.{
  ℕ, suc, ◌+◌, ◌<◌, ◌≡◌, refl, ◌∙◌, true, false, List, [], ◌∷◌, none, some, length, get_elem?, put,
  get_elem?-put_self, get_elem?-put_ne, lt_of_get_elem?, ◌≢◌, All, arith, Bool-cases, ◌⊎◌, inl, inr,
}
use luaxx.Chunk.{Constant, Str, same_bytes}
use luaxx.Code.State.{FuncState, ok, Key, value, itself}
use luaxx.Code.Constants.{FloatOps, is_nan, same_key, find, is_nan_key, add_k, number_k}

abbrev pub constant_of : Key → Constant
constant_of (value c) = c
constant_of itself = Constant.nil

length-put : {A : Type 0} (xs : List A) (v : A) → length (put xs (length xs) v) ≡ suc (length xs)
length-put [] v = refl
length-put (x ∷ xs) v = omega (arith, length-put xs v)

-- The entry's index is that of its constant.
abbrev pub Entered : List Constant → Key × ℕ → Type 0
Entered k (key, n) = get_elem? k n ≡ some (constant_of key)

-- `nk` counts the constants, and every entry of the table is one of them.
pub record IsPool (fs : FuncState) : Type 0 where
  pub counted : fs.nk ≡ length fs.k
  pub entered : All (Entered fs.k) fs.h

Entered-put :
    (k : List Constant) (v : Constant) (h : List (Key × ℕ))
    → All (Entered k) h
    → All (Entered (put k (length k) v)) h
Entered-put k v [] a = tt
Entered-put k v ((key, n) ∷ h) (a, as') =
    let below = lt_of_get_elem? k n a in
    let ne : length k ≢ n = λ e. absurd (omega arith) in
    (get_elem?-put_ne k (length k) n v (omega arith) ne ∙ a, Entered-put k v h as')

module _ ⦃fp : FloatOps⦄ where
  same_bytes_refl : (s : Str) → same_bytes s s ≡ true
  same_bytes_refl [] = refl
  same_bytes_refl (x ∷ s) = ground (arith, same_bytes_refl s)

  same_key_refl : (key : Key) → is_nan_key key ≡ false → same_key key key ≡ true
  unfolding same_key
  same_key_refl (value Constant.nil) h = refl
  same_key_refl (value (Constant.boolean true)) h = refl
  same_key_refl (value (Constant.boolean false)) h = refl
  same_key_refl (value (Constant.number r)) h = ground arith
  same_key_refl (value (Constant.string none)) h = refl
  same_key_refl (value (Constant.string (some s))) h = same_bytes_refl s
  same_key_refl itself h = refl

  find-Entered :
      (key : Key) (h : List (Key × ℕ)) (k : List Constant) (n : ℕ)
      → find key h ≡ some n
      → All (Entered k) h
      → (key' : Key) × (same_key key' key ≡ true) × (get_elem? k n ≡ some (constant_of key'))
  unfolding find
  find-Entered key [] k n e a = cc
  find-Entered key ((key', m) ∷ h) k n e (a, as') = elim (Bool-cases (same_key key' key)) [
    | inl s ↦ (key', s, ground arith)
    | inr s ↦ find-Entered key h k n (ground arith) as'
  ]

  abbrev entered_new : Key → Constant → FuncState → FuncState
  entered_new key v fs = record fs { h = (key, fs.nk) ∷ fs.h; k = put fs.k fs.nk v; nk = fs.nk + 1 }

  add_k_cases :
      (key : Key) (v : Constant) (fs fs' : FuncState) (n : ℕ)
      → add_k key v fs ≡ ok n fs'
      → ((find key fs.h ≡ some n) × (fs' ≡ fs))
        ⊎ ((is_nan_key key ≡ false) × (n ≡ fs.nk) × (fs' ≡ entered_new key v fs))
  unfolding add_k
  add_k_cases key v fs fs' n e = ground arith

  -- Entering a constant of a function whose constants are in order leaves them in order. It gives
  -- the index of a constant whose key is equal to the one entered, which is the constant itself
  -- where it was not entered before.
  pub add_k-IsPool :
      (key : Key) (fs fs' : FuncState) (n : ℕ)
      → IsPool fs
      → add_k key (constant_of key) fs ≡ ok n fs'
      → IsPool fs'
        × (n < fs'.nk)
        × (key' : Key) × (same_key key' key ≡ true)
        × (get_elem? fs'.k n ≡ some (constant_of key'))
  add_k-IsPool key fs fs' n p e = elim (add_k_cases key (constant_of key) fs fs' n e) [
    | inl (f, q) ↦ rw q (
        let (key', s, at) = find-Entered key fs.h fs.k n f p.entered in
        (p, rw p.counted (lt_of_get_elem? fs.k n at), key', s, at))
    | inr (h, i, q) ↦
        rw (q, i)
          (let at = get_elem?-put_self fs.k fs.nk (constant_of key) (omega (arith, p.counted)) in
            let grown : List Constant = put fs.k fs.nk (constant_of key) in
            let counted : fs.nk + 1 ≡ length grown =
              rw p.counted (omega (arith, length-put fs.k (constant_of key))) in
            let old : All (Entered grown) fs.h =
              rw p.counted (Entered-put fs.k (constant_of key) fs.h p.entered) in
            (
              record { counted = counted; entered = (at, old) },
              omega arith,
              key,
              same_key_refl key h,
              at,
            ))
  ]

  find_self :
      (key : Key) (n : ℕ) (h : List (Key × ℕ)) (key' : Key)
      → same_key key key' ≡ true
      → find key' ((key, n) ∷ h) ≡ some n
  unfolding find
  find_self key n h key' e = rw e

  -- In constants that are in order, two numbers that compare equal, the second no NaN, share one
  -- constant, also where their bit patterns differ, as
  -- those of 0 and -0 do: entering the second gives the index under which the first was entered
  -- anew, and changes nothing.
  pub number_k_shared :
      (a b : ℕ) (fs fs' : FuncState) (n : ℕ)
      → IsPool fs
      → is_nan b ≡ false
      → fp.eq a b ≡ true
      → find (value (Constant.number a)) fs.h ≡ none
      → number_k a fs ≡ ok n fs'
      → (number_k b fs' ≡ ok n fs') × (get_elem? fs'.k n ≡ some (Constant.number a))
  unfolding number_k add_k find same_key
  number_k_shared a b fs fs' n p nan same new e =
      let at = get_elem?-put_self fs.k fs.nk (Constant.number a) (omega (arith, p.counted)) in
      ground arith
