-- ===== src/Table/Border.antt =====
-- ltable.c: luaH_getn. Of a value the search asks only whether it is nil: `true` stands for a value
-- that is not. The hash part has its integer keys with their values, as the chains give them.
pub mod Found
use luaxx.Base.{
  ℕ, zero, suc, ◌+◌, ◌-◌, ◌*◌, ◌/◌, ◌^◌, List, [], ◌∷◌, Option, none, some, Bool, true, false, not,
  ◌&&◌, length, get_or, ltb, leb, ◌==◌, if◌then◌else◌,
}

pub record Table : Type 0 where
  pub array : List Bool
  pub hash : List (ℕ × Bool)

abbrev pub in_hash : List (ℕ × Bool) → ℕ → Bool
in_hash [] key = false
in_hash ((k, v) ∷ nodes) key = let rest = in_hash nodes key in if k == key then v else rest

-- !ttisnil(&t->array[key - 1])
abbrev pub in_array : Table → ℕ → Bool
in_array t key = get_or t.array (key - 1) false

-- !ttisnil(luaH_getnum(t, key))
unfoldable pub get_num : Table → ℕ → Bool
get_num t key = if ltb 0 key && leb key (length t.array) then in_array t key else in_hash t.hash key

-- The binary search between `i` and `j`, which halves their distance: it is enough fuel.
unfoldable pub search_between : (ℕ → Bool) → ℕ → ℕ → ℕ → Option ℕ
search_between p zero i j = none
search_between p (suc n) i j =
    let m = (i + j) / 2 in
    let above = search_between p n m j in
    let below = search_between p n i m in
    if ltb 1 (j - i) then (if p m then above else below) else some i

unfoldable pub linear_search : Table → ℕ → ℕ → Option ℕ
linear_search t zero i = none
linear_search t (suc n) i =
    let rest = linear_search t n (i + 1) in if get_num t i then rest else some (i - 1)

abbrev pub max_int : ℕ
max_int = 2 ^ 31 - 3

-- No key that is present is larger.
abbrev pub largest : List (ℕ × Bool) → ℕ
largest [] = 0
largest ((k, v) ∷ nodes) = k + largest nodes

abbrev pub bound : Table → ℕ
bound t = length t.array + largest t.hash

-- The loop that doubles `j`, and the search behind it. `j` is at most MAX_INT where it is doubled,
-- so that an unsigned int holds it.
unfoldable pub doubling : Table → ℕ → ℕ → ℕ → Option ℕ
doubling t zero i j = none
doubling t (suc n) i j =
    let rest = doubling t n j (j * 2) in
    if get_num t j
    then (if ltb max_int (j * 2) then linear_search t (suc (bound t)) 1 else rest)
    else search_between (get_num t) (suc j) i j

unfoldable pub unbound_search : Table → ℕ → Option ℕ
unbound_search t j = doubling t (suc (bound t)) j (j + 1)

abbrev pub empty_hash : List (ℕ × Bool) → Bool
empty_hash [] = true
empty_hash (node ∷ nodes) = false

unfoldable pub get_n : Table → Option ℕ
get_n t =
    let j = length t.array in
    if ltb 0 j && not (in_array t j)
    then search_between (in_array t) (suc j) 0 j
    else (if empty_hash t.hash then some j else unbound_search t j)
