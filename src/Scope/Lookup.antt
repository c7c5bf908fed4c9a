-- ===== src/Scope/Lookup.antt =====
-- `searchvar` among the active variables.
use luaxx.Base.{
  ℕ, zero, suc, ◌+◌, ◌≤◌, ◌<◌, ◌≡◌, ◌≢◌, refl, sym, ◌∙◌, ap, [], ◌∷◌, Option, none, some, true,
  false, ◌==◌, arith, Bool-cases, inl, inr, ==→eq,
}
use luaxx.Chunk.{Str, same_bytes, same_string}
use luaxx.Scope.{Level, name_of, search_below, search_var}

pub same_bytes→eq : (s t : Str) → same_bytes s t ≡ true → s ≡ t
same_bytes→eq [] [] h = refl
same_bytes→eq [] (y ∷ t) h = absurd cc
same_bytes→eq (x ∷ s) [] h = absurd cc
same_bytes→eq (x ∷ s) (y ∷ t) h = elim (Bool-cases (x == y)) [
  | inl e ↦
      let head : x ≡ y = ==→eq x y e in
      let tail : s ≡ t = same_bytes→eq s t (ground arith) in rw (head, tail) refl
  | inr e ↦ absurd (ground arith)
]

pub same_bytes_refl : (s : Str) → same_bytes s s ≡ true
same_bytes_refl [] = refl
same_bytes_refl (x ∷ s) = ground (arith, same_bytes_refl s)

module _ (fs : Level) (name : Str) where
  -- No variable from `i` to `n` has the name.
  abbrev pub NotNamed : ℕ → ℕ → Type 0
  NotNamed i n = (j : ℕ) → i ≤ j → j < n → name_of fs j ≢ some name

  -- What a search below `n` finds: the last variable of that name, if there is one.
  abbrev pub IsLast : ℕ → Option ℕ → Type 0
  IsLast n none = NotNamed 0 n
  IsLast n (some i) = (i < n) × (name_of fs i ≡ some name) × NotNamed (i + 1) n

  named : (o : Option Str) → same_string (some name) o ≡ true → o ≡ some name
  named none h = absurd cc
  named (some s) h = rw (same_bytes→eq name s h) refl

  not_named : (o : Option Str) → same_string (some name) o ≡ false → o ≢ some name
  not_named o h e =
      let whole : same_bytes name name ≡ true = same_bytes_refl name in absurd (clash o h e whole)
    where
      clash :
          (o : Option Str)
          → same_string (some name) o ≡ false
          → o ≡ some name
          → same_bytes name name ≡ true
          → ⊥
      clash none h e whole = cc
      clash (some s) h e whole = cc

  NotNamed-suc : (i n : ℕ) → NotNamed i n → name_of fs n ≢ some name → NotNamed i (suc n)
  NotNamed-suc i n rest here j low high = elim (Bool-cases (j == n)) [
    | inl e ↦ λ f. here (ap (name_of fs) (sym (==→eq j n e)) ∙ f)
    | inr e ↦ rest j low (ground arith)
  ]

  search_below-IsLast : (n : ℕ) → IsLast n (search_below fs name n)
  unfolding search_below
  search_below-IsLast zero = λ j a b. absurd (omega arith)
  search_below-IsLast (suc n) = elim (Bool-cases (same_string (some name) (name_of fs n))) [
    | inl e ↦ rw e (omega arith, named (name_of fs n) e, λ j a b. absurd (omega arith))
    | inr e ↦
        rw e (further (search_below fs name n) (search_below-IsLast n) (not_named (name_of fs n) e))
  ]
    where
      further : (o : Option ℕ) → IsLast n o → name_of fs n ≢ some name → IsLast (suc n) o
      further none h here = NotNamed-suc 0 n h here
      further (some i) (a, b, c) here = (omega arith, b, NotNamed-suc (i + 1) n c here)

  -- `searchvar` finds the last active variable of a name: the variable that it gives is active and
  -- has the name, and none of the active ones behind it has; where it gives none, no active
  -- variable has the name.
  pub search_var-IsLast : IsLast fs.gen.nactvar (search_var fs name)
  unfolding search_var
  search_var-IsLast = search_below-IsLast fs.gen.nactvar
