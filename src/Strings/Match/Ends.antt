-- ===== src/Strings/Match/Ends.antt =====
-- `match` and the recursion on the pattern, one item at a time.
use luaxx.Base.{
  ℕ, suc, ◌+◌, ◌-◌, ◌≤◌, ◌<◌, refl, [], ◌∷◌, Option, none, some, not, ◌||◌, length, get_or, ◌==◌,
  if◌then◌else◌, arith, Bool-cases, inl, inr,
}
use luaxx.Chunk.{Str}
use luaxx.Strings.Pattern.{
  endless, peek, rest_of, ClassEnd, ends, malformed, of_escape, of_bracket, class_end, class_body,
  bracket_end, match_bracket_class,
}
use luaxx.Strings.Match.{
  Captures, M, pure, throw, matches_item, max_expand, min_expand, previous, frontier, optional,
  item, plain_item,
}
use luaxx.Strings.Match.Sound.{
  IsHeld, IsHeld-le, IsGood, IsGood-le, or_else-IsGood, matches_item-lt, max_expand-IsGood,
  try_up-IsGood,
}

pub length-rest_of : (p : Str) → length (rest_of p) ≤ length p
length-rest_of [] = omega arith
length-rest_of (c ∷ p) = omega arith

abbrev Shorter : ℕ → Option Str → Type 0
Shorter n none = Unit
Shorter n (some p) = length p < n

bracket_end-Shorter : (n : ℕ) (p : Str) → length p ≤ n → Shorter n (bracket_end p)
unfolding bracket_end
bracket_end-Shorter n [] h = tt
bracket_end-Shorter n (c ∷ []) h = tt
bracket_end-Shorter n (c ∷ d ∷ p) h =
    ground (arith, bracket_end-Shorter n p, bracket_end-Shorter n (d ∷ p), length-rest_of p)

abbrev EndsShorter : ℕ → ClassEnd → Type 0
EndsShorter n (ends ep) = length ep < n
EndsShorter n (malformed endless) = ⊥
EndsShorter n (malformed _) = Unit

of_bracket-EndsShorter : (n : ℕ) (o : Option Str) → Shorter n o → EndsShorter n (of_bracket o)
of_bracket-EndsShorter n none h = tt
of_bracket-EndsShorter n (some p) h = h

class_end-EndsShorter : (c : ℕ) (q : Str) → EndsShorter (suc (length q)) (class_end (c ∷ q))
unfolding class_end
class_end-EndsShorter c q = elim (Bool-cases (c == b'%')) [
  | inl e ↦ rw e (escape q)
  | inr e ↦ rw e (elim (Bool-cases (c == b'[')) [
    | inr o ↦ rw o (omega arith)
    | inl o ↦ rw o (
        of_bracket-EndsShorter (suc (length q)) _
          (bracket_end-Shorter (suc (length q)) _ (ground (arith, length-rest_of q))))
  ])
]
  where
    escape : (q : Str) → EndsShorter (suc (length q)) (of_escape q)
    escape [] = tt
    escape (d ∷ q) = omega arith

module _ (src : Str) where
  -- Matches of the patterns of fewer than `n` bytes.
  abbrev pub GoodBelow : ℕ → (ℕ → Str → M (Option ℕ)) → Type 0
  GoodBelow n next =
      (q : Str) (t : ℕ) (ms : Captures)
      → length q < n
      → t ≤ length src
      → IsHeld t ms
      → IsGood src t ms (next t q ms)

  -- one byte further
  one_on :
      (s : ℕ) (ms : Captures) (q : Str) (n : ℕ) (next : ℕ → Str → M (Option ℕ))
      → GoodBelow n next
      → length q < n
      → s + 1 ≤ length src
      → IsHeld s ms
      → IsGood src s ms (next (s + 1) q ms)
  one_on s ms q n next g h l held =
      IsGood-le src s (s + 1) ms (next (s + 1) q ms) (omega arith)
        (g q (s + 1) ms h l (IsHeld-le s (s + 1) ms (omega arith) held))

  module _ (n s : ℕ) (p : Str) (next : ℕ → Str → M (Option ℕ)) (g : GoodBelow n next)
      (l : s ≤ length src) where
    plus-IsGood :
        (ep after : Str) (ms : Captures)
        → length after < n
        → IsHeld s ms
        → IsGood src s ms (
            (if matches_item src s p ep
                then max_expand src (s + 1) p ep (λ t. next t after)
                else pure none)
              ms)
    plus-IsGood ep after ms h held = elim (Bool-cases (matches_item src s p ep)) [
      | inr e ↦ rw e refl
      | inl e ↦
          let small = matches_item-lt src s p ep e in
          rw e (
            IsGood-le src s (s + 1) ms (max_expand src (s + 1) p ep (λ t. next t after) ms)
              (omega arith)
              (max_expand-IsGood src (s + 1) p ep (λ t. next t after) ms
                (λ t ms' a. g after t ms' h) small (IsHeld-le s (s + 1) ms (omega arith) held)))
    ]

    single-IsGood :
        (ep : Str) (ms : Captures)
        → length ep < n
        → IsHeld s ms
        → IsGood src s ms ((if matches_item src s p ep then next (s + 1) ep else pure none) ms)
    single-IsGood ep ms h held = elim (Bool-cases (matches_item src s p ep)) [
      | inr e ↦ rw e refl
      | inl e ↦ rw e (one_on s ms ep n next g h (matches_item-lt src s p ep e) held)
    ]

    optional-IsGood :
        (ep after : Str) (ms : Captures)
        → length after < n
        → IsHeld s ms
        → IsGood src s ms
            (optional src (matches_item src s p ep) (next (s + 1) after) (next s after) ms)
    optional-IsGood ep after ms h held = elim (Bool-cases (matches_item src s p ep)) [
      | inr e ↦ rw e (g after s ms h l held)
      | inl e ↦ rw e (
          or_else-IsGood src s ms (next (s + 1) after ms) (next s after)
            (one_on s ms after n next g h (matches_item-lt src s p ep e) held)
            (g after s ms h l held))
    ]

    item-IsGood :
        (ep : Str) (ms : Captures)
        → length ep < n
        → IsHeld s ms
        → IsGood src s ms (item src s p ep next ms)
    item-IsGood ep ms h held =
        let after = rest_of ep in
        let small : length after < n = omega (arith, length-rest_of ep) in
        let star =
          max_expand-IsGood src s p ep (λ t. next t after) ms (λ t ms' a. g after t ms' small) l
            held in
        let dash : IsGood src s ms (min_expand src s p ep (λ t. next t after) ms) =
          unfold min_expand in
          try_up-IsGood src (length src - s) s p ep (λ t. next t after) ms
            (λ t ms' a. g after t ms' small) l held in
        elim (Bool-cases (peek ep == b'?')) [
          | inl e ↦ rw e (optional-IsGood ep after ms small held)
          | inr e ↦ rw e (elim (Bool-cases (peek ep == b'*')) [
            | inl a ↦ rw a star
            | inr a ↦ rw a (elim (Bool-cases (peek ep == b'+')) [
              | inl b ↦ rw b (plus-IsGood ep after ms small held)
              | inr b ↦ rw b (elim (Bool-cases (peek ep == b'-')) [
                | inl c ↦ rw c dash
                | inr c ↦ rw c (single-IsGood ep ms h held)
              ])
            ])
          ])
        ]

  pub plain_item-IsGood :
      (n s c : ℕ) (q : Str) (next : ℕ → Str → M (Option ℕ)) (ms : Captures)
      → GoodBelow n next
      → length q < n
      → s ≤ length src
      → IsHeld s ms
      → IsGood src s ms (plain_item src s (c ∷ q) next ms)
  plain_item-IsGood n s c q next ms g h l held =
      split (class_end (c ∷ q)) (class_end-EndsShorter c q)
    where
      split :
          (o : ClassEnd)
          → EndsShorter (suc (length q)) o
          → IsGood src s ms (
              (elim o as (λ _. M (Option ℕ)) [
                | malformed e ↦ throw e
                | ends ep ↦ item src s (c ∷ q) ep next
              ])
                ms)
      split (ends ep) e = item-IsGood n s (c ∷ q) next g l ep ms (omega arith) held
      split (malformed endless) e = e
      split (malformed _) e = tt

  pub frontier-IsGood :
      (n s : ℕ) (p : Str) (next : Str → M (Option ℕ)) (ms : Captures)
      → ((q : Str) → length q < n → IsGood src s ms (next q ms))
      → length p < n
      → IsGood src s ms (frontier src s p next ms)
  frontier-IsGood n s [] next ms g h = tt
  frontier-IsGood n s (c ∷ q) next ms g h = elim (Bool-cases (c == b'[')) [
    | inr e ↦ rw e tt
    | inl e ↦ rw e (split (class_end (c ∷ q)) (class_end-EndsShorter c q))
  ]
    where
      split :
          (o : ClassEnd)
          → EndsShorter (suc (length q)) o
          → IsGood src s ms (
              (elim o as (λ _. M (Option ℕ)) [
                | malformed e ↦ throw e
                | ends ep ↦
                    if match_bracket_class (previous src s) (class_body (c ∷ q) ep)
                      || not (match_bracket_class (get_or src s 0) (class_body (c ∷ q) ep))
                    then pure none
                    else next ep
              ])
                ms)
      split (ends ep) e =
          elim (Bool-cases (
            match_bracket_class (previous src s) (class_body (c ∷ q) ep)
            || not (match_bracket_class (get_or src s 0) (class_body (c ∷ q) ep)))) [
              | inl y ↦ rw y refl
              | inr y ↦ rw y (g ep (omega arith))
            ]
      split (malformed endless) e = e
      split (malformed _) e = tt
