-- ===== src/Concat/Tests.antt =====
-- table.concat on a table with strings at 1, 2 and 3, in a buffer of two bytes.
use luaxx.Base.{suc, get_elem?, ◌≡◌, [], ◌∷◌, Option, none, some, ℤ, pos, codes, arith, refl}
use luaxx.Chunk.{Str}
use luaxx.Concat.{valid, invalid_value, on_valid, distance, tconcat}
use luaxx.Concat.Whole.{interval, joined_by, strings, tconcat-strings}

abbrev three : ℤ → Option Str
three (pos (suc n)) = get_elem? (codes "one" ∷ codes "two" ∷ codes "three" ∷ []) n
three i = none

joined_test :
    interval three (pos 2) (distance (pos 2) (pos 3)) ≡ valid (codes "two" ∷ codes "three" ∷ [])
unfolding distance strings on_valid
joined_test = refl

invalid_test : tconcat 2 three none none none 4 [] ≡ invalid_value (pos 4)
unfolding tconcat distance on_valid strings
invalid_test = tconcat-strings 2 [] three none none none 4 (omega arith)

tconcat-strings_example :
    tconcat 2 three (some (codes ", ")) (some (pos 2)) none 3 (codes "below" ∷ [])
    ≡ on_valid
        (interval three (pos 2) (distance (pos 2) (pos 3)))
        (λ found. valid (joined_by (codes ", ") found ∷ codes "below" ∷ []))
tconcat-strings_example =
    tconcat-strings 2 (codes "below" ∷ []) three (some (codes ", ")) (some (pos 2)) none 3
      (omega arith)
