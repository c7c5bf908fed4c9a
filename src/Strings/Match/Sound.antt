-- ===== src/Strings/Match/Sound.antt =====
-- `match` and the captures before and behind it.
use luaxx.Base.{
  ℕ, zero, suc, ◌+◌, ◌-◌, ◌≤◌, ◌≡◌, refl, sym, ap, List, [], ◌∷◌, ◌++◌, Option, none, some, true,
  ◌||◌, length, get_elem?, get_or, leb, ◌==◌, if◌then◌else◌, All, arith, Bool-cases, Option-cases,
  inl, inr, ◌≢◌, length-append, take-append_length,
}
use luaxx.Chunk.{Str}
use luaxx.Strings.Pattern.{PatternError, endless, peek, rest_of}
use luaxx.Strings.Match.{
  CaptureLen, cap_unfinished, closed, Capture, Captures, Run, ok, fail, M, pure, and_then,
  max_captures, is_unfinished, check_capture, last_unfinished, capture_to_close, without_last,
  set_len, balance, match_balance, match_capture, matches_item, repetitions, try_down, max_expand,
  try_up, undo_start, start_capture, undo_end, end_capture, on_some,
}

-- The capture ends at position `s` or before.
abbrev pub Before : ℕ → Capture → Type 0
Before s c = elim c.len [ closed n ↦ c.init + n ≤ s | _ ↦ c.init ≤ s ]

-- The captures of a match that has come to `s`.
abbrev pub IsHeld : ℕ → Captures → Type 0
IsHeld s ms = All (Before s) ms × (length ms ≤ max_captures)

Before-le : (s t : ℕ) (c : Capture) → s ≤ t → Before s c → Before t c
Before-le s t c h b = ground arith

All-Before-le : (s t : ℕ) (ms : Captures) → s ≤ t → All (Before s) ms → All (Before t) ms
All-Before-le s t [] h b = tt
All-Before-le s t (c ∷ ms) h (b, bs) = (Before-le s t c h b, All-Before-le s t ms h bs)

pub IsHeld-le : (s t : ℕ) (ms : Captures) → s ≤ t → IsHeld s ms → IsHeld t ms
IsHeld-le s t ms h (b, n) = (All-Before-le s t ms h b, n)

All-append :
    (s : ℕ) (ms : Captures) (c : Capture)
    → All (Before s) ms
    → Before s c
    → All (Before s) (ms ++ (c ∷ []))
All-append s [] c b d = (d, tt)
All-append s (x ∷ ms) c (b, bs) d = (b, All-append s ms c bs d)

module _ (src : Str) where
  -- What a match from `s` with the captures `ms` comes to: without success the captures are what
  -- they were, and with success its end lies in the subject and the captures before it.
  abbrev pub IsGood : ℕ → Captures → Run (Option ℕ) → Type 0
  IsGood s ms (ok none ms') = ms' ≡ ms
  IsGood s ms (ok (some e) ms') = (s ≤ e) × (e ≤ length src) × IsHeld e ms'
  IsGood s ms (fail endless) = ⊥
  IsGood s ms (fail _) = Unit

  -- A match of a rest of the pattern, at `s` or later.
  abbrev pub GoesWell : ℕ → (ℕ → M (Option ℕ)) → Type 0
  GoesWell s next =
      (t : ℕ) (ms : Captures) → s ≤ t → t ≤ length src → IsHeld t ms → IsGood t ms (next t ms)

  pub IsGood-le :
      (s t : ℕ) (ms : Captures) (r : Run (Option ℕ)) → s ≤ t → IsGood t ms r → IsGood s ms r
  IsGood-le s t ms (ok none ms') h g = g
  IsGood-le s t ms (ok (some e) ms') h (a, b, c) = (omega arith, b, c)
  IsGood-le s t ms (fail endless) h g = g
  IsGood-le s t ms (fail _) h g = tt

  -- Where the first try gives nothing, the second starts with the same captures.
  pub or_else-IsGood :
      (s : ℕ) (ms : Captures) (r : Run (Option ℕ)) (second : M (Option ℕ))
      → IsGood s ms r
      → IsGood s ms (second ms)
      → IsGood s ms (and_then r (λ res. elim res [ some e ↦ pure (some e) | none ↦ second ]))
  or_else-IsGood s ms (ok none ms') second g h = rw g h
  or_else-IsGood s ms (ok (some e) ms') second g h = g
  or_else-IsGood s ms (fail e) second g h = g

  try_down-IsGood :
      (i s : ℕ) (next : ℕ → M (Option ℕ)) (ms : Captures)
      → GoesWell s next
      → s + i ≤ length src
      → IsHeld s ms
      → IsGood s ms (try_down src i s next ms)
  unfolding try_down
  try_down-IsGood zero s next ms g h held = g s ms (omega arith) (omega arith) held
  try_down-IsGood (suc i) s next ms g h held =
      or_else-IsGood s ms (next (s + suc i) ms) (try_down src i s next)
        (IsGood-le s (s + suc i) ms (next (s + suc i) ms) (omega arith)
          (g (s + suc i) ms (omega arith) h (IsHeld-le s (s + suc i) ms (omega arith) held)))
        (try_down-IsGood i s next ms g (omega arith) held)

  pub matches_item-lt : (s : ℕ) (p ep : Str) → matches_item src s p ep ≡ true → s + 1 ≤ length src
  matches_item-lt s p ep e = ground arith

  repetitions-le :
      (n s : ℕ) (p ep : Str) → s ≤ length src → s + repetitions src n s p ep ≤ length src
  unfolding repetitions
  repetitions-le zero s p ep h = omega arith
  repetitions-le (suc n) s p ep h = elim (Bool-cases (matches_item src s p ep)) [
    | inr e ↦ rw e (omega arith)
    | inl e ↦ rw e (omega (arith, repetitions-le n (s + 1) p ep (matches_item-lt s p ep e)))
  ]

  pub max_expand-IsGood :
      (s : ℕ) (p ep : Str) (next : ℕ → M (Option ℕ)) (ms : Captures)
      → GoesWell s next
      → s ≤ length src
      → IsHeld s ms
      → IsGood s ms (max_expand src s p ep next ms)
  unfolding max_expand
  max_expand-IsGood s p ep next ms g h held =
      try_down-IsGood (repetitions src (length src - s) s p ep) s next ms g
        (repetitions-le (length src - s) s p ep h) held

  pub try_up-IsGood :
      (n s : ℕ) (p ep : Str) (next : ℕ → M (Option ℕ)) (ms : Captures)
      → GoesWell s next
      → s ≤ length src
      → IsHeld s ms
      → IsGood s ms (try_up src n s p ep next ms)
  unfolding try_up
  try_up-IsGood zero s p ep next ms g h held = g s ms (omega arith) h held
  try_up-IsGood (suc n) s p ep next ms g h held =
      or_else-IsGood s ms (next s ms)
        (if matches_item src s p ep then try_up src n (s + 1) p ep next else pure none)
        (g s ms (omega arith) h held)
        (elim (Bool-cases (matches_item src s p ep)) [
          | inr e ↦ rw e refl
          | inl e ↦ rw e (
              IsGood-le s (s + 1) ms (try_up src n (s + 1) p ep next ms) (omega arith) (
                try_up-IsGood n (s + 1) p ep next ms (λ t ms' l. g t ms' (omega arith))
                  (matches_item-lt s p ep e) (IsHeld-le s (s + 1) ms (omega arith) held)))
        ])

  without_last-append : (ms : Captures) (c : Capture) → without_last (ms ++ (c ∷ [])) ≡ ms
  without_last-append ms c =
      let n : length (ms ++ (c ∷ [])) - 1 ≡ length ms = omega (arith, length-append ms (c ∷ [])) in
      rw n (take-append_length ms (c ∷ []))

  undo_start-IsGood :
      (s : ℕ) (ms : Captures) (c : Capture) (r : Run (Option ℕ))
      → IsGood s (ms ++ (c ∷ [])) r
      → IsGood s ms (and_then r (undo_start src))
  undo_start-IsGood s ms c (ok none ms') g = rw g (without_last-append ms c)
  undo_start-IsGood s ms c (ok (some e) ms') g = g
  undo_start-IsGood s ms c (fail e) g = g

  pub start_capture-IsGood :
      (s : ℕ) (what : CaptureLen) (next : M (Option ℕ)) (ms : Captures)
      → Before s (record { init = s; len = what })
      → ((ms : Captures) → IsHeld s ms → IsGood s ms (next ms))
      → IsHeld s ms
      → IsGood s ms (start_capture src s what next ms)
  unfolding start_capture
  start_capture-IsGood s what next ms b g (held, few) =
      elim (Bool-cases (leb max_captures (length ms))) [
        | inl e ↦ rw e tt
        | inr e ↦ rw e (
            let c : Capture = record { init = s; len = what } in
            undo_start-IsGood s ms c (next (ms ++ (c ∷ []))) (
              g (ms ++ (c ∷ []))
                (All-append s ms c held b, ground (arith, length-append ms (c ∷ [])))))
      ]

  -- the capture at an index is unfinished
  abbrev Open : Captures → ℕ → Type 0
  Open ms l = (c : Capture) × (get_elem? ms l ≡ some c) × (c.len ≡ cap_unfinished)

  set_len_back :
      (ms : Captures) (l : ℕ) (f : ℕ → CaptureLen)
      → Open ms l
      → set_len l (λ _. cap_unfinished) (set_len l f ms) ≡ ms
  set_len_back [] l f (c, e, u) = cc
  set_len_back (x ∷ ms) zero f (c, e, u) =
      let q : x.len ≡ cap_unfinished = ground arith in
      let q' = sym q in λ i. record { init = x.init; len = q' i } ∷ ms
  set_len_back (x ∷ ms) (suc l) f o = ap (λ t. x ∷ t) (set_len_back ms l f o)

  is_unfinished_lem : (c : Capture) → is_unfinished c ≡ true → c.len ≡ cap_unfinished
  is_unfinished_lem c e = ground arith

  first_Open :
      (i : ℕ) (c : Capture) (ms : Captures) (l : ℕ)
      → last_unfinished (i + 1) ms ≡ none
      → last_unfinished i (c ∷ ms) ≡ some l
      → (i ≡ l) × (c.len ≡ cap_unfinished)
  first_Open i c ms l h e = ground (arith, is_unfinished_lem c)

  last_unfinished-Open :
      (i : ℕ) (ms : Captures) (l : ℕ) → last_unfinished i ms ≡ some l → (i ≤ l) × Open ms (l - i)
  last_unfinished-Open i [] l e = cc
  last_unfinished-Open i (c ∷ ms) l e = elim (Option-cases (last_unfinished (i + 1) ms)) [
    | inr (j, ej) ↦
        let (le, (x, at, u)) = last_unfinished-Open (i + 1) ms j ej in
        let same : j ≡ l = ground arith in
        let k : l - i ≡ suc (j - (i + 1)) = omega (arith, same) in
        (omega (arith, same), rw k (x, at, u))
    | inl none_later ↦
        let (same, u) = first_Open i c ms l none_later e in
        let k : l - i ≡ 0 = omega (arith, same) in (omega (arith, same), rw k (c, refl, u))
  ]

  Before-set_len :
      (s l : ℕ) (ms : Captures)
      → All (Before s) ms
      → Open ms l
      → All (Before s) (set_len l (λ init. closed (s - init)) ms)
  Before-set_len s l [] b (c, e, u) = tt
  Before-set_len s zero (x ∷ ms) (b, bs) (c, e, u) =
      (let q : x.len ≡ cap_unfinished = ground arith in omega (arith, rw q at b), bs)
  Before-set_len s (suc l) (x ∷ ms) (b, bs) o = (b, Before-set_len s l ms bs o)

  length-set_len :
      (l : ℕ) (f : ℕ → CaptureLen) (ms : Captures) → length (set_len l f ms) ≡ length ms
  length-set_len l f [] = refl
  length-set_len zero f (c ∷ ms) = refl
  length-set_len (suc l) f (c ∷ ms) = omega (arith, length-set_len l f ms)

  undo_end-IsGood :
      (s l : ℕ) (ms : Captures) (f : ℕ → CaptureLen) (r : Run (Option ℕ))
      → Open ms l
      → IsGood s (set_len l f ms) r
      → IsGood s ms (and_then r (undo_end src l))
  undo_end-IsGood s l ms f (ok none ms') o g = rw g (set_len_back ms l f o)
  undo_end-IsGood s l ms f (ok (some e) ms') o g = g
  undo_end-IsGood s l ms f (fail e) o g = g

  none_to_close :
      (ms : Captures)
      → last_unfinished 0 ms ≡ none
      → capture_to_close ms ≡ fail PatternError.invalid_pattern_capture
  unfolding capture_to_close
  none_to_close ms e = rw (capture_to_close, e)

  capture_to_close_lem :
      (ms : Captures) (l : ℕ) → last_unfinished 0 ms ≡ some l → capture_to_close ms ≡ ok l ms
  unfolding capture_to_close
  capture_to_close_lem ms l e = rw (capture_to_close, e)

  pub end_capture-IsGood :
      (s : ℕ) (next : M (Option ℕ)) (ms : Captures)
      → ((ms : Captures) → IsHeld s ms → IsGood s ms (next ms))
      → IsHeld s ms
      → IsGood s ms (end_capture src s next ms)
  unfolding end_capture
  end_capture-IsGood s next ms g (held, few) = elim (Option-cases (last_unfinished 0 ms)) [
    | inl e ↦ rw (none_to_close ms e) tt
    | inr (l, e) ↦ rw (capture_to_close_lem ms l e) (
        let z : l - 0 ≡ l = omega arith in
        let o : Open ms l = rw z at ((last_unfinished-Open 0 ms l e).1) in
        let f : ℕ → CaptureLen = λ init. closed (s - init) in
        undo_end-IsGood s l ms f (next (set_len l f ms)) o
          (g (set_len l f ms) (Before-set_len s l ms held o, omega (arith, length-set_len l f ms))))
  ]

  -- A step that leaves the captures alone, and may move on in the subject.
  abbrev Steps : ℕ → Captures → Run (Option ℕ) → Type 0
  Steps s ms (ok none ms') = ms' ≡ ms
  Steps s ms (ok (some e) ms') = (ms' ≡ ms) × (s ≤ e) × (e ≤ length src)
  Steps s ms (fail endless) = ⊥
  Steps s ms (fail _) = Unit

  pub on_some-IsGood :
      (s : ℕ) (ms : Captures) (r : Run (Option ℕ)) (next : ℕ → M (Option ℕ))
      → Steps s ms r
      → GoesWell s next
      → IsHeld s ms
      → IsGood s ms (and_then r (λ e. on_some src e next))
  on_some-IsGood s ms (ok none ms') next h g held = h
  on_some-IsGood s ms (ok (some e) ms') next (q, a, b) g held =
      rw q (IsGood-le s e ms (next e ms) a (g e ms a b (IsHeld-le s e ms a held)))
  on_some-IsGood s ms (fail endless) next h g held = h
  on_some-IsGood s ms (fail _) next h g held = tt

  Steps-suc :
      (s : ℕ) (ms : Captures) (o : Option ℕ) → Steps (s + 1) ms (ok o ms) → Steps s ms (ok o ms)
  Steps-suc s ms none h = h
  Steps-suc s ms (some e) (q, a, b) = (q, omega arith, b)

  balance-Steps :
      (n s b e cont : ℕ) (ms : Captures)
      → s + n ≤ length src
      → Steps s ms (ok (balance src n s b e cont) ms)
  unfolding balance
  balance-Steps zero s b e cont ms h = refl
  balance-Steps (suc n) s b e cont ms h =
      let at = λ (c : ℕ).
        Steps-suc s ms (balance src n (s + 1) b e c)
          (balance-Steps n (s + 1) b e c ms (omega arith)) in
      ground (arith, at (cont - 1), at (cont + 1), at cont)

  get_or_past : (xs : List ℕ) (s : ℕ) → length xs ≤ s → get_or xs s 0 ≡ 0
  get_or_past [] s h = refl
  get_or_past (x ∷ xs) zero h = absurd (omega arith)
  get_or_past (x ∷ xs) (suc s) h = get_or_past xs s (omega arith)

  inside : (s : ℕ) → get_or src s 0 ≢ 0 → s + 1 ≤ length src
  inside s h = elim (Bool-cases (leb (s + 1) (length src))) [
    | inl e ↦ ground arith
    | inr e ↦ absurd (h (get_or_past src s (ground arith)))
  ]

  pub match_balance-Steps :
      (s : ℕ) (p : Str) (ms : Captures) → s ≤ length src → Steps s ms (match_balance src s p ms)
  unfolding match_balance
  match_balance-Steps s p ms h =
      let b = λ (small : s + 1 ≤ length src).
        Steps-suc s ms (balance src (length src - (s + 1)) (s + 1) (peek p) (peek (rest_of p)) 1) (
          balance-Steps (length src - (s + 1)) (s + 1) (peek p) (peek (rest_of p)) 1 ms
            (omega arith)) in
      elim (Bool-cases ((peek p == 0) || (peek (rest_of p) == 0))) [
        | inl e ↦ rw e tt
        | inr e ↦ rw e (elim (Bool-cases (get_or src s 0 == peek p)) [
          | inr d ↦ rw d refl
          | inl d ↦ rw d (b (inside s (ground arith)))
        ])
      ]

  pub match_capture-Steps :
      (s digit : ℕ) (ms : Captures) → s ≤ length src → Steps s ms (match_capture src s digit ms)
  unfolding match_capture check_capture
  match_capture-Steps s digit ms h = ground arith
