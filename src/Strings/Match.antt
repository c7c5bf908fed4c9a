-- ===== src/Strings/Match.antt =====
-- lstrlib.c: matching at one position. `src` is the subject, and a position is an index in it;
-- `*s` is 0 at its end. The state is the captures so far, `ms->level` of them.
pub mod Sound
pub mod Ends
pub mod Total
use luaxx.Base.{
  ℕ, zero, suc, ◌+◌, ◌-◌, List, [], ◌∷◌, ◌++◌, Option, none, some, Bool, true, false, not, ◌&&◌,
  ◌||◌, length, get_elem?, get_or, set, take, drop, ltb, leb, ◌==◌, if◌then◌else◌, is_digit,
}
use luaxx.Chunk.{Str, same_bytes}
use luaxx.Strings.Pattern.{
  PatternError, invalid_capture_index, invalid_pattern_capture, unbalanced_pattern,
  too_many_captures, missing_frontier, endless, peek, rest_of, ClassEnd, ends, malformed, class_end,
  class_body, match_bracket_class, single_match,
}

pub data CaptureLen : Type 0 where
  cap_unfinished cap_position : CaptureLen
  closed : ℕ → CaptureLen

pub record Capture : Type 0 where
  pub init : ℕ
  pub len : CaptureLen

abbrev pub Captures : Type 0
Captures = List Capture

pub data Run {ℓ} (A : Type ℓ) : Type ℓ where
  ok : A → Captures → Run A
  fail : PatternError → Run A

abbrev pub M {ℓ} : Type ℓ → Type ℓ
M A = Captures → Run A

abbrev pub pure {ℓ} : {A : Type ℓ} → A → M A
pure a ms = ok a ms

abbrev pub throw {ℓ} : {A : Type ℓ} → PatternError → M A
throw e ms = fail e

abbrev pub and_then {ℓ κ} : {A : Type ℓ} {B : Type κ} → Run A → (A → M B) → Run B
and_then (ok a ms) m = m a ms
and_then (fail e) m = fail e

infixl 5 ◌>>=◌
abbrev pub ◌>>=◌ {ℓ κ} : {A : Type ℓ} {B : Type κ} → M A → (A → M B) → M B
m >>= g = λ ms. and_then (m ms) g

abbrev pub max_captures : ℕ
max_captures = 32

abbrev pub is_unfinished : Capture → Bool
is_unfinished c = elim c.len [ cap_unfinished ↦ true | _ ↦ false ]

-- The index that `check_capture` gives for a digit, and the capture there.
abbrev pub finished : Option Capture → Option Capture
finished none = none
finished (some c) = if is_unfinished c then none else some c

unfoldable pub check_capture : ℕ → M Capture
check_capture digit ms =
    if digit == b'0'
    then fail invalid_capture_index
    else elim (finished (get_elem? ms (digit - b'1'))) [
      | none ↦ fail invalid_capture_index
      | some c ↦ ok c ms
    ]

-- The last unfinished capture, from index `i` on.
abbrev pub last_unfinished : ℕ → Captures → Option ℕ
last_unfinished i [] = none
last_unfinished i (c ∷ ms) = elim (last_unfinished (i + 1) ms) [
  | some j ↦ some j
  | none ↦ if is_unfinished c then some i else none
]

unfoldable pub capture_to_close : M ℕ
capture_to_close ms = elim (last_unfinished 0 ms) [
  | none ↦ fail invalid_pattern_capture
  | some l ↦ ok l ms
]

-- `ms->level--`
abbrev pub without_last : Captures → Captures
without_last ms = take (length ms - 1) ms

abbrev pub set_len : ℕ → (ℕ → CaptureLen) → Captures → Captures
set_len l f [] = []
set_len zero f (c ∷ ms) = record c { len = f c.init } ∷ ms
set_len (suc l) f (c ∷ ms) = c ∷ set_len l f ms

module _ (src : Str) where
  -- The loop of matchbalance at position `s`, with `cont` open.
  unfoldable pub balance : ℕ → ℕ → ℕ → ℕ → ℕ → Option ℕ
  balance zero s b e cont = none
  balance (suc n) s b e cont =
      let fewer = balance n (s + 1) b e (cont - 1) in
      let more = balance n (s + 1) b e (cont + 1) in
      let same = balance n (s + 1) b e cont in
      if get_or src s 0 == e
      then (if cont == 1 then some (s + 1) else fewer)
      else (if get_or src s 0 == b then more else same)

  unfoldable pub match_balance : ℕ → Str → M (Option ℕ)
  match_balance s p =
      if (peek p == 0) || (peek (rest_of p) == 0)
      then throw unbalanced_pattern
      else (if get_or src s 0 == peek p
          then pure (balance (length src - (s + 1)) (s + 1) (peek p) (peek (rest_of p)) 1)
          else pure none)

  unfoldable pub match_capture : ℕ → ℕ → M (Option ℕ)
  match_capture s digit = do
    c ← check_capture digit
    elim c.len [
      | closed len ↦
          if leb len (length src - s)
            && same_bytes (take len (drop c.init src)) (take len (drop s src))
          then pure (some (s + len))
          else pure none
      | _ ↦ pure none
    ]

  -- s<ms->src_end && singlematch(uchar(*s), p, ep)
  abbrev pub matches_item : ℕ → Str → Str → Bool
  matches_item s p ep = ltb s (length src) && single_match (get_or src s 0) p ep

  -- The repetitions of an item from `s` on, of at most `n`.
  unfoldable pub repetitions : ℕ → ℕ → Str → Str → ℕ
  repetitions zero s p ep = 0
  repetitions (suc n) s p ep =
      let rest = repetitions n (s + 1) p ep in if matches_item s p ep then rest + 1 else 0

  -- The second loop of max_expand: `next` is the match of what follows the item.
  unfoldable pub try_down : ℕ → ℕ → (ℕ → M (Option ℕ)) → M (Option ℕ)
  try_down zero s next = next s
  try_down (suc i) s next = do
    res ← next (s + suc i)
    elim res [ some e ↦ pure (some e) | none ↦ try_down i s next ]

  unfoldable pub max_expand : ℕ → Str → Str → (ℕ → M (Option ℕ)) → M (Option ℕ)
  max_expand s p ep next = try_down (repetitions (length src - s) s p ep) s next

  -- min_expand, with at most `n` more repetitions
  unfoldable pub try_up : ℕ → ℕ → Str → Str → (ℕ → M (Option ℕ)) → M (Option ℕ)
  try_up zero s p ep next = next s
  try_up (suc n) s p ep next = do
    res ← next s
    elim res [
      | some e ↦ pure (some e)
      | none ↦ if matches_item s p ep then try_up n (s + 1) p ep next else pure none
    ]

  unfoldable pub min_expand : ℕ → Str → Str → (ℕ → M (Option ℕ)) → M (Option ℕ)
  min_expand s p ep next = try_up (length src - s) s p ep next

  abbrev pub undo_start : Option ℕ → M (Option ℕ)
  undo_start none ms = ok none (without_last ms)
  undo_start (some e) ms = ok (some e) ms

  unfoldable pub start_capture : ℕ → CaptureLen → M (Option ℕ) → M (Option ℕ)
  start_capture s what next ms =
      if leb max_captures (length ms)
      then fail too_many_captures
      else and_then (next (ms ++ (record { init = s; len = what } ∷ []))) undo_start

  abbrev pub undo_end : ℕ → Option ℕ → M (Option ℕ)
  undo_end l none ms = ok none (set_len l (λ _. cap_unfinished) ms)
  undo_end l (some e) ms = ok (some e) ms

  unfoldable pub end_capture : ℕ → M (Option ℕ) → M (Option ℕ)
  end_capture s next = do
    l ← capture_to_close
    res ← (λ ms. next (set_len l (λ init. closed (s - init)) ms))
    undo_end l res

  -- *(s-1), and 0 in front of the subject
  abbrev pub previous : ℕ → ℕ
  previous zero = 0
  previous (suc s) = get_or src s 0

  abbrev pub on_some : Option ℕ → (ℕ → M (Option ℕ)) → M (Option ℕ)
  on_some none next = pure none
  on_some (some e) next = next e

  -- `%f`: `p` stands at the class.
  abbrev pub frontier : ℕ → Str → (Str → M (Option ℕ)) → M (Option ℕ)
  frontier s p next =
      if peek p == b'['
      then elim (class_end p) [
        | malformed e ↦ throw e
        | ends ep ↦
            if match_bracket_class (previous s) (class_body p ep)
              || not (match_bracket_class (get_or src s 0) (class_body p ep))
            then pure none
            else next ep
      ]
      else throw missing_frontier

  abbrev pub optional : Bool → M (Option ℕ) → M (Option ℕ) → M (Option ℕ)
  optional m taken left =
      if m then (do res ← taken; elim res [ some e ↦ pure (some e) | none ↦ left ]) else left

  -- The default case: a pattern item with what follows it; `next` matches the rest of a pattern.
  abbrev pub item : ℕ → Str → Str → (ℕ → Str → M (Option ℕ)) → M (Option ℕ)
  item s p ep next =
      let m = matches_item s p ep in
      let after = rest_of ep in
      if peek ep == b'?'
      then optional m (next (s + 1) after) (next s after)
      else (if peek ep == b'*'
          then max_expand s p ep (λ t. next t after)
          else (if peek ep == b'+'
              then (if m then max_expand (s + 1) p ep (λ t. next t after) else pure none)
              else (if peek ep == b'-'
                  then min_expand s p ep (λ t. next t after)
                  else (if m then next (s + 1) ep else pure none))))

  abbrev pub plain_item : ℕ → Str → (ℕ → Str → M (Option ℕ)) → M (Option ℕ)
  plain_item s p next = elim (class_end p) [ malformed e ↦ throw e | ends ep ↦ item s p ep next ]

  -- Behind a `%`: `q` is what follows it in `p`.
  abbrev pub escaped : ℕ → Str → Str → (ℕ → Str → M (Option ℕ)) → M (Option ℕ)
  escaped s p q next =
      if peek q == b'b'
      then (do
        e ← match_balance s (rest_of q)
        on_some e (λ t. next t (rest_of (rest_of (rest_of q)))))
      else (if peek q == b'f'
          then frontier s (rest_of q) (next s)
          else (if is_digit (peek q)
              then (do e ← match_capture s (peek q); on_some e (λ t. next t (rest_of q)))
              else plain_item s p next))

  -- Every call is at a shorter pattern, so its length and one is enough fuel.
  unfoldable pub match : ℕ → ℕ → Str → M (Option ℕ)
  match zero s p = throw endless
  match (suc n) s [] = pure (some s)
  match (suc n) s (c ∷ q) =
      if c == b'('
      then (if peek q == b')'
          then start_capture s cap_position (match n s (rest_of q))
          else start_capture s cap_unfinished (match n s q))
      else (if c == b')'
          then end_capture s (match n s q)
          else (if c == b'%'
              then escaped s (c ∷ q) q (match n)
              else (if (c == b'$') && (peek q == 0)
                  then pure (if s == length src then some s else none)
                  else plain_item s (c ∷ q) (match n))))
