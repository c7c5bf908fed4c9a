-- ===== src/Checker/Ensures.antt =====
-- Checks that read inside of their arrays and end, with what holds where they pass.
use luaxx.Base.{
  ℕ, zero, suc, ◌<◌, ◌≡◌, refl, List, [], ◌∷◌, some, Bool, true, false, length, get_elem?,
  if◌then◌else◌, arith,
}
use luaxx.Checker.{Checked, fine, fails, wild, endless, ◌>>=◌, ◌>>◌, check, when, read}

abbrev pub Ensures : {A : Type 0} → (A → Type 0) → Checked A → Type 0
Ensures P (fine a) = P a
Ensures P fails = Unit
Ensures P wild = ⊥
Ensures P endless = ⊥

-- No more than that the checks end and read inside.
abbrev pub Fair : Checked (Unit {0}) → Type 0
Fair m = Ensures (λ _. Unit) m

pub Ensures-map :
    {A : Type 0} (P Q : A → Type 0) (m : Checked A)
    → ((a : A) → P a → Q a)
    → Ensures P m
    → Ensures Q m
Ensures-map P Q (fine a) k h = k a h
Ensures-map P Q fails k h = tt
Ensures-map P Q wild k h = h
Ensures-map P Q endless k h = h

pub Ensures-both :
    {A : Type 0} (P Q R : A → Type 0) (m : Checked A)
    → ((a : A) → P a → Q a → R a)
    → Ensures P m
    → Ensures Q m
    → Ensures R m
Ensures-both P Q R (fine a) k g h = k a g h
Ensures-both P Q R fails k g h = tt
Ensures-both P Q R wild k g h = h
Ensures-both P Q R endless k g h = h

pub read-Ensures :
    {A : Type 0} (P : A → Type 0) (xs : List A) (i : ℕ)
    → i < length xs
    → ((a : A) → get_elem? xs i ≡ some a → P a)
    → Ensures P (read xs i)
read-Ensures P [] i h k = absurd (omega arith)
read-Ensures P (x ∷ xs) zero h k = k x refl
read-Ensures P (x ∷ xs) (suc i) h k = read-Ensures P xs i (omega arith) k

module _ {A : Type 0} {B : Type 0} where
  pub Ensures-bind :
      (P : A → Type 0) (Q : B → Type 0) (m : Checked A) (g : A → Checked B)
      → Ensures P m
      → ((a : A) → P a → Ensures Q (g a))
      → Ensures Q (m >>= g)
  Ensures-bind P Q (fine a) g h k = k a h
  Ensures-bind P Q fails g h k = tt
  Ensures-bind P Q wild g h k = absurd h
  Ensures-bind P Q endless g h k = absurd h

  pub Ensures-read :
      (Q : B → Type 0) (xs : List A) (i : ℕ) (g : A → Checked B)
      → i < length xs
      → ((a : A) → get_elem? xs i ≡ some a → Ensures Q (g a))
      → Ensures Q (read xs i >>= g)
  Ensures-read Q [] i g h k = absurd (omega arith)
  Ensures-read Q (x ∷ xs) zero g h k = k x refl
  Ensures-read Q (x ∷ xs) (suc i) g h k = Ensures-read Q xs i g (omega arith) k

module _ {B : Type 0} (Q : B → Type 0) where
  pub Ensures-check :
      (b : Bool) (m : Checked B) → (b ≡ true → Ensures Q m) → Ensures Q (check b >> m)
  Ensures-check true m k = k refl
  Ensures-check false m k = tt

  pub Ensures-then :
      (m : Checked (Unit {0})) (n : Checked B) → Fair m → Ensures Q n → Ensures Q (m >> n)
  Ensures-then (fine a) n h k = k
  Ensures-then fails n h k = tt
  Ensures-then wild n h k = absurd h
  Ensures-then endless n h k = absurd h

  pub Ensures-if :
      (b : Bool) (m n : Checked B)
      → (b ≡ true → Ensures Q m)
      → (b ≡ false → Ensures Q n)
      → Ensures Q (if b then m else n)
  Ensures-if true m n h k = h refl
  Ensures-if false m n h k = k refl

pub check-Fair : (b : Bool) → Fair (check b)
check-Fair true = tt
check-Fair false = tt

pub check-Ensures : (P : Type 0) (b : Bool) → (b ≡ true → P) → Ensures (λ _. P) (check b)
check-Ensures P true k = k refl
check-Ensures P false k = tt

pub when-Fair : (b : Bool) (m : Checked (Unit {0})) → (b ≡ true → Fair m) → Fair (when b m)
when-Fair true m h = h refl
when-Fair false m h = tt

pub when-Ensures :
    (P : Type 0) (b : Bool) (m : Checked (Unit {0}))
    → (b ≡ true → Ensures (λ _. P) m)
    → Ensures (λ _. b ≡ true → P) (when b m)
when-Ensures P true m h = Ensures-map (λ _. P) (λ _. true ≡ true → P) m (λ _ p _. p) (h refl)
when-Ensures P false m h = λ e. absurd cc
