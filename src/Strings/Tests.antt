-- ===== src/Strings/Tests.antt =====
-- Slices of a short string, and searches in one.
use luaxx.Base.{
  List, ℕ, ◌≤◌, ◌≢◌, ◌⊎◌, none, codes, ◌≡◌, refl, [], ◌∷◌, some, ltb, arith, pos, negsuc,
}
use luaxx.Strings.{posrelat, str_sub, str_byte}
use luaxx.Strings.Slices.{str_byte-str_sub}
use luaxx.Strings.Pattern.{PatternError, endless}
use luaxx.Strings.Match.{Captures, ok, fail, match}
use luaxx.Strings.Match.Sound.{IsHeld}
use luaxx.Strings.Match.Total.{match_ends}
use luaxx.Strings.Gsub.{nothing, by_string, result, stopped, str_gsub}
use luaxx.Strings.Gsub.Whole.{str_gsub-percent_zero}
use luaxx.Strings.Find.{lmemfind, gmatch_aux}
use luaxx.Strings.Find.Progress.{Advances, gmatch_aux-Advances}
use luaxx.Strings.Find.Plain.{first_from, lmemfind-first_from}

-- ("abcd"):byte(-3, 9)
str_byte-str_sub_example :
    str_byte (λ n. ltb n 200) (97 ∷ 98 ∷ 99 ∷ 100 ∷ []) (negsuc 2) (pos 9)
    ≡ some (98 ∷ 99 ∷ 100 ∷ [])
unfolding str_sub posrelat
str_byte-str_sub_example =
    str_byte-str_sub (λ n. ltb n 200) (97 ∷ 98 ∷ 99 ∷ 100 ∷ []) (negsuc 2) (pos 9) (omega arith)
      refl

abbrev subject : List ℕ
subject = codes "abcabc"

match_ends_example :
    ((e : ℕ) × (ms' : Captures) × (match subject 7 1 (codes "(b)c-a") [] ≡ ok (some e) ms')
      × (1 ≤ e)
      × (e ≤ 6)
      × IsHeld e ms')
    ⊎ (match subject 7 1 (codes "(b)c-a") [] ≡ ok none [])
    ⊎ ((e : PatternError) × (match subject 7 1 (codes "(b)c-a") [] ≡ fail e) × (e ≢ endless))
match_ends_example = match_ends subject (codes "(b)c-a") 1 [] (omega arith) (tt, omega arith)

lmemfind-first_from_example : lmemfind subject (codes "ca") ≡ first_from 0 subject (codes "ca")
lmemfind-first_from_example = lmemfind-first_from subject (codes "ca")

str_gsub-percent_zero_example :
    ((n : ℕ) × (str_gsub subject (λ n. []) (λ vs. nothing) (codes "b*") (by_string (codes "%0")) 9
        ≡ result subject n))
    ⊎ ((e : PatternError) × (str_gsub subject
            (λ n. [])
            (λ vs. nothing)
            (codes "b*")
            (by_string (codes "%0"))
            9
          ≡ stopped e)
        × (e ≢ endless))
str_gsub-percent_zero_example =
    str_gsub-percent_zero subject (codes "b*") (λ n. []) (λ vs. nothing) 9

gmatch_aux-Advances_example : Advances subject 2 (gmatch_aux subject (codes "b*") 2)
gmatch_aux-Advances_example = gmatch_aux-Advances subject (codes "b*") 2
