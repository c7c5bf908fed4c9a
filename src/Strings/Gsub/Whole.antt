-- ===== src/Strings/Gsub/Whole.antt =====
-- string.gsub where every match is replaced by itself.
use luaxx.Base.{
  c_string, ℕ, zero, suc, ◌+◌, ◌-◌, ◌≤◌, ◌<◌, ◌≡◌, ◌≢◌, refl, ap, List, [], ◌∷◌, ◌++◌, append-nil,
  none, some, Bool, true, false, length, get_or, take, drop, ltb, ◌==◌, if◌then◌else◌, codes, arith,
  Bool-cases, inl, inr, ◌⊎◌,
}
use luaxx.Chunk.{Str}
use luaxx.Strings.Pattern.{PatternError, endless, peek, rest_of}
use luaxx.Strings.Match.{Captures}
use luaxx.Strings.Match.Total.{match_ends}
use luaxx.Strings.Find.{Value, pushed, slice}
use luaxx.Strings.Gsub.{
  Reply, Replacement, by_string, add_s, add_value, Gsub, result, stopped, add_front, left_over,
  next_place, continue_at, gsub_loop, str_gsub,
}

take-nil : (n : ℕ) → take {A = ℕ} n [] ≡ []
take-nil zero = refl
take-nil (suc n) = refl

drop-nil : (n : ℕ) → drop {A = ℕ} n [] ≡ []
drop-nil zero = refl
drop-nil (suc n) = refl

take-drop : (n : ℕ) (xs : Str) → take n xs ++ drop n xs ≡ xs
take-drop zero xs = refl
take-drop (suc n) [] = refl
take-drop (suc n) (x ∷ xs) = ap (λ t. x ∷ t) (take-drop n xs)

slice-drop : (xs : Str) (s e : ℕ) → s ≤ e → slice xs s e ++ drop e xs ≡ drop s xs
slice-drop xs zero e h = let all : e - 0 ≡ e = omega arith in rw all (take-drop e xs)
slice-drop [] (suc s) e h = rw (take-nil (e - suc s), drop-nil e) refl
slice-drop (x ∷ xs) (suc s) zero h = absurd (omega arith)
slice-drop (x ∷ xs) (suc s) (suc e) h =
    let less : suc e - suc s ≡ e - s = omega arith in rw less (slice-drop xs s e (omega arith))

cons-drop : (xs : Str) (s : ℕ) → s < length xs → get_or xs s 0 ∷ drop (s + 1) xs ≡ drop s xs
cons-drop [] s h = absurd (omega arith)
cons-drop (x ∷ xs) zero h = refl
cons-drop (x ∷ xs) (suc s) h =
    let next : suc s + 1 ≡ suc (s + 1) = omega arith in rw next (cons-drop xs s (omega arith))

module _ (src : Str) (digits : ℕ → Str) (value_of : List Value → Reply) where
  -- The replacement `%0` puts back what was matched.
  abbrev Puts : Replacement → Type 0
  Puts r =
      (ms : Captures) (s e : ℕ) → add_value src digits value_of r ms s e ≡ pushed (slice src s e)

  percent_zero : Puts (by_string (codes "%0"))
  unfolding add_value add_s
  percent_zero ms s e = ap pushed (append-nil (slice src s e))

  -- A result whose text is the subject from `s` on.
  abbrev IsRest : ℕ → Gsub src digits value_of → Type 0
  IsRest s (result t n) = t ≡ drop s src
  IsRest s (stopped e) = e ≢ endless

  add_front-IsRest :
      (s s' : ℕ) (t : Str) (r : Gsub src digits value_of)
      → IsRest s' r
      → t ++ drop s' src ≡ drop s src
      → IsRest s (add_front src digits value_of t r)
  add_front-IsRest s s' t (result u n) h e = rw h e
  add_front-IsRest s s' t (stopped w) h e = h

  empty-slice : (s e : ℕ) → s ≤ e → ltb s e ≡ false → slice src s e ≡ []
  empty-slice s e h f = let none_left : e - s ≡ 0 = ground arith in rw none_left refl

  module _ (p : Str) (r : Replacement) (puts : Puts r) (anchor : Bool) (max_s : ℕ) where
    abbrev Proceeds : ℕ → Type 0
    Proceeds fuel =
        (s n : ℕ)
        → s ≤ length src
        → length src < fuel + s
        → IsRest s (gsub_loop src digits value_of p r anchor max_s fuel s n)

    -- the loop from a place further on, or its end where the pattern is anchored
    further :
        (fuel : ℕ)
        → Proceeds fuel
        → (s' n : ℕ) → s' ≤ length src
        → length src < fuel + s'
        → (a : Bool)
        → IsRest s' (
            if a
            then left_over src digits value_of s' n
            else gsub_loop src digits value_of p r anchor max_s fuel s' n)
    further fuel loop s' n l f true = refl
    further fuel loop s' n l f false = loop s' n l f

    -- one byte, where nothing was taken
    one_byte :
        (fuel : ℕ)
        → Proceeds fuel
        → (s n : ℕ) → s ≤ length src
        → length src < suc fuel + s
        → IsRest s (
            continue_at src digits value_of
              (λ s'. gsub_loop src digits value_of p r anchor max_s fuel s' n)
              anchor
              s
              n
              (next_place src digits value_of s none))
    one_byte fuel loop s n l f = elim (Bool-cases (ltb s (length src))) [
      | inl e ↦ rw e (
          add_front-IsRest s (s + 1) (get_or src s 0 ∷ []) _
            (further fuel loop (s + 1) n (ground arith) (omega arith) anchor)
            (cons-drop src s (ground arith)))
      | inr e ↦ rw e refl
    ]

    matched_at :
        (fuel : ℕ)
        → Proceeds fuel
        → (s n e : ℕ) → s ≤ e
        → e ≤ length src
        → length src < suc fuel + s
        → IsRest s (
            add_front src digits value_of (slice src s e) (
              continue_at src digits value_of
                (λ s'. gsub_loop src digits value_of p r anchor max_s fuel s' n)
                anchor
                s
                n
                (next_place src digits value_of s (some e))))
    matched_at fuel loop s n e h l f = elim (Bool-cases (ltb s e)) [
      | inl y ↦ rw y (
          add_front-IsRest s e (slice src s e) _
            (add_front-IsRest e e [] _ (further fuel loop e n l (ground arith) anchor) refl)
            (slice-drop src s e h))
      | inr y ↦
          rw (y, empty-slice s e h y)
            (add_front-IsRest s s [] _ (one_byte fuel loop s n (omega arith) f) refl)
    ]

    gsub_loop-IsRest : (fuel : ℕ) → Proceeds fuel
    unfolding gsub_loop
    gsub_loop-IsRest zero s n l f = absurd (omega arith)
    gsub_loop-IsRest (suc fuel) s n l f = elim (Bool-cases (ltb n max_s)) [
      | inl e ↦ elim (match_ends src p s [] l (tt, omega arith)) [
        | inl (x, ms, m, a, b, held) ↦
            rw (e, m, puts ms s x) (matched_at fuel (gsub_loop-IsRest fuel) s (n + 1) x a b f)
        | inr (inl m) ↦ rw (e, m) (one_byte fuel (gsub_loop-IsRest fuel) s n l f)
        | inr (inr (w, m, ne)) ↦ rw (e, m) ne
      ]
      | inr e ↦ rw e refl
    ]

-- Where every match is replaced by "%0", string.gsub ends for every subject, every pattern and
-- every limit: it gives back the subject, or an error of the program.
pub str_gsub-percent_zero :
    (src pattern : Str) (digits : ℕ → Str) (value_of : List Value → Reply) (max_s : ℕ)
    → ((n : ℕ) × (str_gsub src digits value_of pattern (by_string (codes "%0")) max_s
          ≡ result src n))
      ⊎ ((e : PatternError) × (str_gsub src digits value_of pattern (by_string (codes "%0")) max_s
            ≡ stopped e)
          × (e ≢ endless))
unfolding str_gsub
str_gsub-percent_zero src pattern digits value_of max_s =
    split (str_gsub src digits value_of pattern (by_string (codes "%0")) max_s) whole
  where
    loop :
        (p : Str) (anchor : Bool)
        → IsRest src digits value_of 0 (
            gsub_loop src digits value_of p
              (by_string (codes "%0"))
              anchor
              max_s
              (suc (length src))
              0
              0)
    loop p anchor =
        gsub_loop-IsRest src digits value_of p (by_string (codes "%0"))
          (percent_zero src digits value_of) anchor max_s (suc (length src)) 0 0 (omega arith)
          (omega arith)

    whole :
        IsRest src digits value_of 0
          (str_gsub src digits value_of pattern (by_string (codes "%0")) max_s)
    whole = elim (Bool-cases (peek (c_string pattern) == b'^')) [
      | inl e ↦ rw (str_gsub, e) (loop (rest_of (c_string pattern)) true)
      | inr e ↦ rw (str_gsub, e) (loop (c_string pattern) false)
    ]

    split :
        (r : Gsub src digits value_of)
        → IsRest src digits value_of 0 r
        → ((n : ℕ) × (r ≡ result src n)) ⊎ ((e : PatternError) × (r ≡ stopped e) × (e ≢ endless))
    split (result t n) h = inl (n, rw h refl)
    split (stopped e) h = inr (e, refl, h)
