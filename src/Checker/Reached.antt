-- ===== src/Checker/Reached.antt =====
-- The words that are instructions, and those that are counts of a SETLIST in front of them.
use mathlib.Core.Path.{subst}
use luaxx.Base.{
  ℕ, zero, suc, ◌+◌, ◌%◌, ◌≤◌, ◌<◌, ◌≡◌, refl, List, [], ◌∷◌, some, true, false, length, get_elem?,
  ◌==◌, if◌then◌else◌, arith, Bool-cases, inl, inr, ◌⊎◌,
}
use luaxx.Opcodes.{Instruction}
use luaxx.Checker.{is_bare_setlist, setlists_before}
use luaxx.Checker.Ensures.{Ensures, Ensures-bind, Ensures-read, Ensures-if}

-- Reading the code from its start: behind an instruction comes the next one, but a SETLIST with
-- C = 0 has its count in between.
pub data IsReached (code : List ℕ) : ℕ → Type 0 where
  start : IsReached code 0
  next :
      {pc : ℕ} (i : Instruction)
      → IsReached code pc
      → get_elem? code pc ≡ some i
      → is_bare_setlist i ≡ false
      → IsReached code (pc + 1)
  past :
      {pc : ℕ} (i : Instruction)
      → IsReached code pc
      → get_elem? code pc ≡ some i
      → is_bare_setlist i ≡ true
      → IsReached code (pc + 1 + 1)

-- The word at `pc` is the count of a SETLIST, which is an instruction, in front of it.
abbrev pub IsCount : List ℕ → ℕ → Type 0
IsCount code pc =
    (at : ℕ) × (i : ℕ) × (pc ≡ at + 1)
    × IsReached code at
    × (get_elem? code at ≡ some i)
    × (is_bare_setlist i ≡ true)

pub IsReached-step :
    (code : List ℕ) (pc : ℕ) (i : Instruction)
    → IsReached code pc
    → get_elem? code pc ≡ some i
    → IsReached code ((if is_bare_setlist i then pc + 1 else pc) + 1)
IsReached-step code pc i r at = elim (Bool-cases (is_bare_setlist i)) [
  | inl e ↦ rw e (past i r at e)
  | inr e ↦ rw e (next i r at e)
]

IsReached-behind_count : (code : List ℕ) (pc : ℕ) → IsCount code pc → IsReached code (suc pc)
IsReached-behind_count code pc (at, i, e, r, k, bare) =
    subst (IsReached code) (omega arith) (past i r k bare)

elem_at : (code : List ℕ) (n : ℕ) → n < length code → (d : ℕ) × (get_elem? code n ≡ some d)
elem_at [] n h = absurd (omega arith)
elem_at (d ∷ code) zero h = (d, refl)
elem_at (d ∷ code) (suc n) h = elem_at code n (omega arith)

-- Behind a word that does not look like a SETLIST with a count, an instruction begins.
plain-IsReached :
    (code : List ℕ) (n : ℕ) (d : Instruction)
    → get_elem? code n ≡ some d
    → is_bare_setlist d ≡ false
    → IsReached code n ⊎ IsCount code n
    → IsReached code (suc n)
plain-IsReached code n d at plain (inl r) = subst (IsReached code) (omega arith) (next d r at plain)
plain-IsReached code n d at plain (inr c) = IsReached-behind_count code n c

pub reached_or_IsCount :
    (code : List ℕ) (n : ℕ) → n ≤ length code → IsReached code n ⊎ IsCount code n
reached_or_IsCount code zero h = inl start
reached_or_IsCount code (suc n) h =
    let (d, at) = elem_at code n (omega arith) in
    let before = reached_or_IsCount code n (omega arith) in
    elim (Bool-cases (is_bare_setlist d)) [
      | inr plain ↦ inl (plain-IsReached code n d at plain before)
      | inl bare ↦ elim before [
        | inl r ↦ inr (n, d, omega arith, r, at, bare)
        | inr c ↦ inl (IsReached-behind_count code n c)
      ]
    ]

-- What the number of SETLISTs in front of a word says of it.
abbrev pub Parity : List ℕ → ℕ → ℕ → Type 0
Parity code n j = if j % 2 == 0 then IsReached code n else IsCount code n

Parity-setlist :
    (code : List ℕ) (n j : ℕ) (d : Instruction)
    → get_elem? code n ≡ some d
    → is_bare_setlist d ≡ true
    → Parity code n j
    → Parity code (suc n) (j + 1)
Parity-setlist code n j d at bare p = elim (Bool-cases (j % 2 == 0)) [
  | inl e ↦
      let odd : ((j + 1) % 2 == 0) ≡ false = ground arith in
      rw odd (n, d, omega arith, rw e at p, at, bare)
  | inr e ↦
      let even : ((j + 1) % 2 == 0) ≡ true = ground arith in
      rw even (IsReached-behind_count code n (rw e at p))
]

-- An even number of SETLISTs stands before an instruction, an odd one before a count.
pub setlists_before-Parity :
    (code : List ℕ) (n : ℕ) → n ≤ length code → Ensures (Parity code n) (setlists_before code n)
unfolding setlists_before
setlists_before-Parity code zero h = start
setlists_before-Parity code (suc n) h =
    Ensures-read (Parity code (suc n)) code n _ (omega arith) λ d at.
      Ensures-if (Parity code (suc n)) (is_bare_setlist d) _ _
        (λ bare.
          Ensures-bind (Parity code n) (Parity code (suc n)) (setlists_before code n) _
            (setlists_before-Parity code n (omega arith))
            λ j p. Parity-setlist code n j d at bare p)
        λ plain. plain-IsReached code n d at plain (reached_or_IsCount code n (omega arith))
