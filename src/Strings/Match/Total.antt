-- ===== src/Strings/Match/Total.antt =====
-- The recursion of `match` on the pattern.
use luaxx.Base.{
  ℕ, zero, suc, ◌≤◌, ◌<◌, ◌≡◌, ◌≢◌, refl, [], ◌∷◌, Option, none, some, Bool, true, false, ◌&&◌,
  length, ◌==◌, if◌then◌else◌, is_digit, arith, Bool-cases, inl, inr, ◌⊎◌,
}
use luaxx.Chunk.{Str}
use luaxx.Strings.Pattern.{PatternError, endless, peek, rest_of}
use luaxx.Strings.Match.{
  cap_unfinished, cap_position, Captures, Run, ok, fail, M, match_balance, match_capture, escaped,
  match,
}
use luaxx.Strings.Match.Sound.{
  IsHeld, IsGood, start_capture-IsGood, end_capture-IsGood, on_some-IsGood, match_balance-Steps,
  match_capture-Steps,
}
use luaxx.Strings.Match.Ends.{GoodBelow, plain_item-IsGood, frontier-IsGood, length-rest_of}

module _ (src : Str) where
  escaped-IsGood :
      (n s c : ℕ) (q : Str) (next : ℕ → Str → M (Option ℕ)) (ms : Captures)
      → GoodBelow src n next
      → length q < n
      → s ≤ length src
      → IsHeld s ms
      → IsGood src s ms (escaped src s (c ∷ q) q next ms)
  escaped-IsGood n s c q next ms g h l held =
      let r1 = length-rest_of q in
      let r2 = length-rest_of (rest_of q) in
      let r3 = length-rest_of (rest_of (rest_of q)) in
      elim (Bool-cases (peek q == b'b')) [
        | inl e ↦ rw e (
            on_some-IsGood src s ms (match_balance src s (rest_of q) ms)
              (λ t. next t (rest_of (rest_of (rest_of q))))
              (match_balance-Steps src s (rest_of q) ms l)
              (λ t ms' a. g (rest_of (rest_of (rest_of q))) t ms' (omega arith)) held)
        | inr e ↦ rw e (elim (Bool-cases (peek q == b'f')) [
          | inl f ↦ rw f (
              frontier-IsGood src n s (rest_of q) (next s) ms (λ q' h'. g q' s ms h' l held)
                (omega arith))
          | inr f ↦ rw f (elim (Bool-cases (is_digit (peek q))) [
            | inl d ↦ rw d (
                on_some-IsGood src s ms (match_capture src s (peek q) ms) (λ t. next t (rest_of q))
                  (match_capture-Steps src s (peek q) ms l)
                  (λ t ms' a. g (rest_of q) t ms' (omega arith)) held)
            | inr d ↦ rw d (plain_item-IsGood src n s c q next ms g h l held)
          ])
        ])
      ]

  match-IsGood :
      (n : ℕ) (p : Str) (s : ℕ) (ms : Captures)
      → length p < n
      → s ≤ length src
      → IsHeld s ms
      → IsGood src s ms (match src n s p ms)
  unfolding match
  match-IsGood zero p s ms h l held = absurd (omega arith)
  match-IsGood (suc n) [] s ms h l held = (omega arith, l, held)
  match-IsGood (suc n) (c ∷ q) s ms h l held =
      let g : GoodBelow src n (match src n) = λ q' t ms' h' l'. match-IsGood n q' t ms' h' l' in
      elim (Bool-cases (c == b'(')) [
        | inl e ↦ rw e (elim (Bool-cases (peek q == b')')) [
          | inl f ↦ rw f (
              start_capture-IsGood src s cap_position (match src n s (rest_of q)) ms (omega arith)
                (λ ms' held'. g (rest_of q) s ms' (omega (arith, length-rest_of q)) l held') held)
          | inr f ↦ rw f (
              start_capture-IsGood src s cap_unfinished (match src n s q) ms (omega arith)
                (λ ms' held'. g q s ms' (omega arith) l held') held)
        ])
        | inr e ↦ rw e (elim (Bool-cases (c == b')')) [
          | inl f ↦ rw f (
              end_capture-IsGood src s (match src n s q) ms
                (λ ms' held'. g q s ms' (omega arith) l held') held)
          | inr f ↦ rw f (elim (Bool-cases (c == b'%')) [
            | inl d ↦ rw d (escaped-IsGood n s c q (match src n) ms g (omega arith) l held)
            | inr d ↦ rw d (elim (Bool-cases ((c == b'$') && (peek q == 0))) [
              | inl k ↦ rw k (at_end (s == length src))
              | inr k ↦ rw k (plain_item-IsGood src n s c q (match src n) ms g (omega arith) l held)
            ])
          ])
        ])
      ]
    where
      at_end : (b : Bool) → IsGood src s ms (ok (if b then some s else none) ms)
      at_end true = (omega arith, l, held)
      at_end false = refl

  -- What `match` comes to from a position in the subject, with captures that lie before it: an
  -- end that lies behind the position and in the subject, with captures before that end and at
  -- most 32 of them; or no match, and then the captures are what they were; or an error of the
  -- program. The recursion always ends.
  pub match_ends :
      (p : Str) (s : ℕ) (ms : Captures)
      → s ≤ length src
      → IsHeld s ms
      → ((e : ℕ) × (ms' : Captures) × (match src (suc (length p)) s p ms ≡ ok (some e) ms')
          × (s ≤ e)
          × (e ≤ length src)
          × IsHeld e ms')
        ⊎ (match src (suc (length p)) s p ms ≡ ok none ms)
        ⊎ ((e : PatternError) × (match src (suc (length p)) s p ms ≡ fail e) × (e ≢ endless))
  match_ends p s ms l held =
      split (match src (suc (length p)) s p ms)
        (match-IsGood (suc (length p)) p s ms (omega arith) l held)
    where
      split :
          (r : Run (Option ℕ))
          → IsGood src s ms r
          → ((e : ℕ) × (ms' : Captures) × (r ≡ ok (some e) ms')
              × (s ≤ e)
              × (e ≤ length src)
              × IsHeld e ms')
            ⊎ (r ≡ ok none ms)
            ⊎ ((e : PatternError) × (r ≡ fail e) × (e ≢ endless))
      split (ok (some e) ms') (a, b, c) = inl (e, ms', refl, a, b, c)
      split (ok none ms') g = inr (inl (rw g))
      split (fail endless) g = absurd g
      split (fail e) g = inr (inr (e, refl, cc))
