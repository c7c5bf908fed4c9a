-- ===== src/Strings/Find/Progress.antt =====
-- The iterator of string.gmatch and where it goes on.
use luaxx.Base.{
  c_string, ℕ, zero, suc, ◌+◌, ◌-◌, ◌≤◌, ◌<◌, ◌≡◌, ◌≢◌, List, [], ◌∷◌, Option, none, some, length,
  leb, ◌==◌, if◌then◌else◌, arith, Bool-cases, inl, inr,
}
use luaxx.Chunk.{Str}
use luaxx.Strings.Pattern.{endless}
use luaxx.Strings.Match.{Captures, Capture, CaptureLen, cap_unfinished, cap_position, closed}
use luaxx.Strings.Match.Total.{match_ends}
use luaxx.Strings.Find.{
  Value, Pushed, pushed, raised, push_each, push_captures, gmatch_from, gmatch_aux, with_value,
  capture_value,
}

module _ (src : Str) where
  abbrev IsReal : {A : Type 0} → Pushed A → Type 0
  IsReal (pushed v) = Unit
  IsReal (raised e) = e ≢ endless

  capture_value-IsReal : (c : Capture) → IsReal (capture_value src c)
  capture_value-IsReal c = by_len c.len
    where
      by_len : (l : CaptureLen) → IsReal (capture_value src (record c { len = l }))
      by_len cap_unfinished = λ e. absurd cc
      by_len cap_position = tt
      by_len (closed n) = tt

  with_value-IsReal :
      (v : Pushed Value) (vs : Pushed (List Value))
      → IsReal v
      → IsReal vs
      → IsReal (with_value v vs)
  with_value-IsReal (pushed v) (pushed vs) h k = tt
  with_value-IsReal (pushed v) (raised e) h k = k
  with_value-IsReal (raised e) vs h k = h

  push_each-IsReal : (ms : Captures) → IsReal (push_each src ms)
  unfolding push_each
  push_each-IsReal [] = tt
  push_each-IsReal (c ∷ ms) =
      with_value-IsReal (capture_value src c) (push_each src ms) (capture_value-IsReal c)
        (push_each-IsReal ms)

  push_captures-IsReal :
      (ms : Captures) (whole : Option (ℕ × ℕ)) → IsReal (push_captures src ms whole)
  unfolding push_captures
  push_captures-IsReal [] none = tt
  push_captures-IsReal [] (some (s, e)) = tt
  push_captures-IsReal (c ∷ ms) whole = push_each-IsReal (c ∷ ms)

  -- What a call of the iterator gives: nothing, an error of the program, or values and a later
  -- start, which is at most one past the subject's end.
  abbrev pub Advances : ℕ → Option (Pushed (List Value) × ℕ) → Type 0
  Advances s none = Unit
  Advances s (some (pushed vs, next)) = (s < next) × (next ≤ length src + 1)
  Advances s (some (raised e, next)) = e ≢ endless

  Advances-le :
      (s t : ℕ) (o : Option (Pushed (List Value) × ℕ)) → s ≤ t → Advances t o → Advances s o
  Advances-le s t none h a = a
  Advances-le s t (some (pushed vs, next)) h (a, b) = (omega arith, b)
  Advances-le s t (some (raised e, next)) h a = a

  at_match :
      (s e : ℕ) (v : Pushed (List Value))
      → IsReal v
      → s ≤ e
      → e ≤ length src
      → Advances s (some (v, if e == s then e + 1 else e))
  at_match s e (pushed vs) r h l = (ground arith, ground arith)
  at_match s e (raised w) r h l = r

  gmatch_from-Advances :
      (p : Str) (n s : ℕ) → n + s ≡ length src → Advances s (gmatch_from src p n s)
  unfolding gmatch_from
  gmatch_from-Advances p zero s f = elim (match_ends src p s [] (omega arith) (tt, omega arith)) [
    | inl (e, ms, m, a, b, held) ↦
        rw (Advances, gmatch_from, m)
          (at_match s e (push_captures src ms (some (s, e))) (push_captures-IsReal ms (some (s, e)))
            a b)
    | inr (inl m) ↦ rw (Advances, gmatch_from, m) tt
    | inr (inr (w, m, ne)) ↦ rw (Advances, gmatch_from, m) ne
  ]
  gmatch_from-Advances p (suc n) s f =
      elim (match_ends src p s [] (omega arith) (tt, omega arith)) [
        | inl (e, ms, m, a, b, held) ↦
            rw (Advances, gmatch_from, m)
              (at_match s e (push_captures src ms (some (s, e)))
                (push_captures-IsReal ms (some (s, e))) a b)
        | inr (inl m) ↦
            rw (Advances, gmatch_from, m)
              (Advances-le s (s + 1) _ (omega arith)
                (gmatch_from-Advances p n (s + 1) (omega arith)))
        | inr (inr (w, m, ne)) ↦ rw (Advances, gmatch_from, m) ne
      ]

  -- Every call of the iterator of string.gmatch ends. Where it gives values, its next start is
  -- later, and at most one past the subject's end, so that the iteration ends too.
  pub gmatch_aux-Advances : (p : Str) (s : ℕ) → Advances s (gmatch_aux src p s)
  unfolding gmatch_aux
  gmatch_aux-Advances p s = elim (Bool-cases (leb s (length src))) [
    | inl e ↦ rw e (gmatch_from-Advances (c_string p) (length src - s) s (ground arith))
    | inr e ↦ rw e tt
  ]
