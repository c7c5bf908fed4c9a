-- ===== src/Table/Tests.antt =====
-- The array part for the keys 1, 2, 3, 4 and 100, and a table with holes.
use luaxx.Base.{ℕ, true, false, some, ◌≡◌, refl, [], ◌∷◌}
use luaxx.Table.{count_slice, size_loop, compute_sizes}
use luaxx.Table.ArrayPart.{IsChoice, compute_sizes-IsChoice}
use luaxx.Table.Border
use luaxx.Table.Border.{Table, get_num, get_n}
use luaxx.Table.Border.Found.{IsBorder, get_n-IsBorder}

sizes_of_5 : compute_sizes (1 ∷ 1 ∷ 2 ∷ 0 ∷ 0 ∷ 0 ∷ 0 ∷ 1 ∷ []) 5 ≡ record { a = 4; na = 4; n = 4 }
unfolding compute_sizes size_loop count_slice
sizes_of_5 = refl

compute_sizes-IsChoice_example :
    IsChoice
      (1 ∷ 1 ∷ 2 ∷ 0 ∷ 0 ∷ 0 ∷ 0 ∷ 1 ∷ [])
      (compute_sizes (1 ∷ 1 ∷ 2 ∷ 0 ∷ 0 ∷ 0 ∷ 0 ∷ 1 ∷ []) 5)
compute_sizes-IsChoice_example = compute_sizes-IsChoice (1 ∷ 1 ∷ 2 ∷ 0 ∷ 0 ∷ 0 ∷ 0 ∷ 1 ∷ []) 5

-- {1, nil, 1, [4] = 1, [6] = 1}
abbrev holes : Table
holes = record { array = true ∷ false ∷ true ∷ []; hash = (4, true) ∷ (6, true) ∷ [] }

holes_border : get_n holes ≡ some 6
unfolding get_n Border.unbound_search Border.doubling Border.search_between get_num
holes_border = refl

get_n-IsBorder_example : (b : ℕ) × (get_n holes ≡ some b) × IsBorder (get_num holes) b
get_n-IsBorder_example = get_n-IsBorder holes
