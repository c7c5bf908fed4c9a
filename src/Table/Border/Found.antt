-- ===== src/Table/Border/Found.antt =====
-- What luaH_getn finds.
use luaxx.Base.{
  ℕ, zero, suc, ◌+◌, ◌-◌, ◌*◌, ◌/◌, ◌≤◌, ◌<◌, ◌≡◌, refl, sym, ◌∙◌, ap, List, [], ◌∷◌, Option, none,
  some, Bool, true, false, not, ◌&&◌, length, ltb, leb, ◌==◌, arith, Bool-cases, inl, inr, ◌⊎◌,
}
use luaxx.Table.Border.{
  Table, in_hash, in_array, get_num, search_between, empty_hash, linear_search, max_int, largest,
  bound, doubling, unbound_search, get_n,
}

-- 0, or a place where `p` holds.
abbrev pub IsLow : (ℕ → Bool) → ℕ → Type 0
IsLow p i = (i ≡ 0) ⊎ (p i ≡ true)

-- A border of `p`: it holds there, but for 0, and not behind it.
abbrev pub IsBorder : (ℕ → Bool) → ℕ → Type 0
IsBorder p b = IsLow p b × (p (b + 1) ≡ false)

-- A search that ends at a border.
abbrev Finds : (ℕ → Bool) → Option ℕ → Type 0
Finds p none = ⊥
Finds p (some b) = IsBorder p b

-- The border lies below `j`.
abbrev FindsBelow : (ℕ → Bool) → ℕ → Option ℕ → Type 0
FindsBelow p j none = ⊥
FindsBelow p j (some b) = (b < j) × IsBorder p b

FindsBelow-le :
    (p : ℕ → Bool) (m j : ℕ) (o : Option ℕ) → m ≤ j → FindsBelow p m o → FindsBelow p j o
FindsBelow-le p m j none h f = f
FindsBelow-le p m j (some b) h (l, f) = (omega arith, f)

FindsBelow-Finds : (p : ℕ → Bool) (j : ℕ) (o : Option ℕ) → FindsBelow p j o → Finds p o
FindsBelow-Finds p j none f = f
FindsBelow-Finds p j (some b) (l, f) = f

search_between-FindsBelow :
    (p : ℕ → Bool) (n i j : ℕ)
    → IsLow p i
    → p j ≡ false
    → i < j
    → j - i < n
    → FindsBelow p j (search_between p n i j)
unfolding search_between
search_between-FindsBelow p zero i j low high h f = absurd (omega arith)
search_between-FindsBelow p (suc n) i j low high h f = elim (Bool-cases (ltb 1 (j - i))) [
  | inl e ↦ elim (Bool-cases (p ((i + j) / 2))) [
    | inl y ↦
        rw (e, y)
          (search_between-FindsBelow p n ((i + j) / 2) j (inr y) high (ground arith) (ground arith))
    | inr y ↦
        rw (e, y)
          (FindsBelow-le p ((i + j) / 2) j _ (ground arith)
            (search_between-FindsBelow p n i ((i + j) / 2) low y (ground arith) (ground arith)))
  ]
  | inr e ↦ let next : j ≡ i + 1 = ground arith in rw e (h, (low, ap p (sym next) ∙ high))
]

in_hash-bound : (nodes : List (ℕ × Bool)) (key : ℕ) → in_hash nodes key ≡ true → key ≤ largest nodes
in_hash-bound [] key h = absurd cc
in_hash-bound ((k, v) ∷ nodes) key h = elim (Bool-cases (k == key)) [
  | inl e ↦ ground arith
  | inr e ↦ let rest : key ≤ largest nodes = in_hash-bound nodes key (ground arith) in omega arith
]

get_num-bound : (t : Table) (key : ℕ) → get_num t key ≡ true → key ≤ bound t
unfolding get_num
get_num-bound t key h = elim (Bool-cases (ltb 0 key && leb key (length t.array))) [
  | inl e ↦ ground arith
  | inr e ↦ let small = in_hash-bound t.hash key (ground arith) in omega arith
]

linear_search-Finds :
    (t : Table) (n i : ℕ)
    → 0 < i
    → IsLow (get_num t) (i - 1)
    → bound t < n + i
    → Finds (get_num t) (linear_search t (suc n) i)
unfolding linear_search
linear_search-Finds t zero i pos low f = elim (Bool-cases (get_num t i)) [
  | inl e ↦ let small : i ≤ bound t = get_num-bound t i e in absurd (omega arith)
  | inr e ↦ let same : i ≡ i - 1 + 1 = omega arith in rw e (low, ap (get_num t) (sym same) ∙ e)
]
linear_search-Finds t (suc n) i pos low f = elim (Bool-cases (get_num t i)) [
  | inl e ↦
      let back : i + 1 - 1 ≡ i = omega arith in
      rw e (
        linear_search-Finds t n (i + 1) (omega arith) (inr (ap (get_num t) back ∙ e)) (omega arith))
  | inr e ↦ let same : i ≡ i - 1 + 1 = omega arith in rw e (low, ap (get_num t) (sym same) ∙ e)
]

array-get_num :
    (t : Table) (key : ℕ) → 0 < key → key ≤ length t.array → get_num t key ≡ in_array t key
unfolding get_num
array-get_num t key h l =
    let inside : (ltb 0 key && leb key (length t.array)) ≡ true = ground arith in rw inside refl

FindsBelow-array :
    (t : Table) (o : Option ℕ) → FindsBelow (in_array t) (length t.array) o → Finds (get_num t) o
FindsBelow-array t none f = f
FindsBelow-array t (some b) (l, (low, high)) =
    (lower low, array-get_num t (b + 1) (omega arith) (omega arith) ∙ high)
  where
    lower : IsLow (in_array t) b → IsLow (get_num t) b
    lower (inl e) = inl e
    lower (inr e) = elim (Bool-cases (b == 0)) [
      | inl z ↦ inl (ground arith)
      | inr z ↦ inr (array-get_num t b (ground arith) (omega arith) ∙ e)
    ]

doubling-Finds :
    (t : Table) (n i j : ℕ)
    → i < j
    → IsLow (get_num t) i
    → bound t < n + j
    → Finds (get_num t) (doubling t (suc n) i j)
unfolding doubling
doubling-Finds t zero i j h low f = elim (Bool-cases (get_num t j)) [
  | inl e ↦ let small : j ≤ bound t = get_num-bound t j e in absurd (omega arith)
  | inr e ↦ rw e (
      FindsBelow-Finds (get_num t) j _
        (search_between-FindsBelow (get_num t) (suc j) i j low e h (omega arith)))
]
doubling-Finds t (suc n) i j h low f = elim (Bool-cases (get_num t j)) [
  | inl e ↦ elim (Bool-cases (ltb max_int (j * 2))) [
    | inl g ↦ rw (e, g) (linear_search-Finds t (bound t) 1 (omega arith) (inl refl) (omega arith))
    | inr g ↦ rw (e, g) (doubling-Finds t n j (j * 2) (omega arith) (inr e) (omega arith))
  ]
  | inr e ↦ rw e (
      FindsBelow-Finds (get_num t) j _
        (search_between-FindsBelow (get_num t) (suc j) i j low e h (omega arith)))
]

array_end :
    (t : Table)
    → (ltb 0 (length t.array) && not (in_array t (length t.array))) ≡ false
    → IsLow (get_num t) (length t.array)
array_end t h = elim (Bool-cases (ltb 0 (length t.array))) [
  | inl e ↦ inr (array-get_num t (length t.array) (ground arith) (omega arith) ∙ ground arith)
  | inr e ↦ inl (ground arith)
]

behind_array : (t : Table) → empty_hash t.hash ≡ true → get_num t (length t.array + 1) ≡ false
unfolding get_num
behind_array t h =
    let outside : (ltb 0 (length t.array + 1) && leb (length t.array + 1) (length t.array))
        ≡ false =
      ground arith in
    rw outside (nothing t.hash h)
  where
    nothing :
        (nodes : List (ℕ × Bool))
        → empty_hash nodes ≡ true
        → in_hash nodes (length t.array + 1) ≡ false
    nothing [] h = refl
    nothing (node ∷ nodes) h = absurd cc

get_n-Finds : (t : Table) → Finds (get_num t) (get_n t)
unfolding get_n unbound_search
get_n-Finds t = elim (Bool-cases (ltb 0 (length t.array) && not (in_array t (length t.array)))) [
  | inl e ↦ rw e (
      FindsBelow-array t _ (
        search_between-FindsBelow (in_array t) (suc (length t.array)) 0 (length t.array) (inl refl)
          (ground arith) (ground arith) (omega arith)))
  | inr e ↦ elim (Bool-cases (empty_hash t.hash)) [
    | inl g ↦ rw (e, g) (array_end t e, behind_array t g)
    | inr g ↦
        rw (e, g)
          (doubling-Finds t (bound t) (length t.array) (length t.array + 1) (omega arith)
            (array_end t e) (omega arith))
  ]
]

-- luaH_getn ends on every table, with a border: 0 or a key whose value is not nil, such that the
-- value of the next key is nil.
pub get_n-IsBorder : (t : Table) → (b : ℕ) × (get_n t ≡ some b) × IsBorder (get_num t) b
get_n-IsBorder t = split (get_n t) (get_n-Finds t)
  where
    split : (o : Option ℕ) → Finds (get_num t) o → (b : ℕ) × (o ≡ some b) × IsBorder (get_num t) b
    split none f = absurd f
    split (some b) f = (b, refl, f)
