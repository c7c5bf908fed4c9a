-- ===== src/Strings/Gsub.antt =====
-- lstrlib.c: string.gsub. A replacement is a string, or what a call or a table gives for the
-- captures, which is the parameter `value_of`.
pub mod Whole
use luaxx.Base.{
  c_string, ℕ, zero, suc, ◌+◌, ◌-◌, List, [], ◌∷◌, ◌++◌, Option, none, some, Bool, true, false, not,
  ◌&&◌, length, get_or, drop, ltb, ◌==◌, if◌then◌else◌, is_digit,
}
use luaxx.Chunk.{Str}
use luaxx.Strings.Pattern.{PatternError, invalid_replacement, endless, peek, rest_of}
use luaxx.Strings.Match.{Captures, ok, fail, match}
use luaxx.Strings.Find.{
  Value, bytes, place, Pushed, pushed, raised, slice, push_onecapture, push_captures,
}

-- the value as luaL_addvalue adds it: lua_tolstring of a position is its decimal text
abbrev pub text_of : (ℕ → Str) → Value → Str
text_of digits (bytes s) = s
text_of digits (place n) = digits n

pub data Replacement : Type 0 where
  by_string : Str → Replacement
  by_call by_table : Replacement

-- What a call or a table gives: nil or false, a string or a number, or another value.
pub data Reply : Type 0 where
  nothing other : Reply
  text : Str → Reply

abbrev pub add_to : Str → Pushed Str → Pushed Str
add_to s (pushed t) = pushed (s ++ t)
add_to s (raised e) = raised e

abbrev captured_text : (ℕ → Str) → Pushed Value → Pushed Str → Pushed Str
captured_text digits (pushed v) rest = add_to (text_of digits v) rest
captured_text digits (raised e) rest = raised e

module _ (src : Str) (digits : ℕ → Str) (value_of : List Value → Reply) where
  -- add_s. A `%` at the end takes the byte 0 that ends the string.
  unfoldable pub add_s : Str → Captures → ℕ → ℕ → Pushed Str
  add_s [] ms s e = pushed []
  add_s (c ∷ []) ms s e = pushed ((if c == b'%' then 0 else c) ∷ [])
  add_s (c ∷ d ∷ news) ms s e =
      let next = add_s (d ∷ news) ms s e in
      let past = add_s news ms s e in
      if not (c == b'%')
      then add_to (c ∷ []) next
      else (if not (is_digit d)
          then add_to (d ∷ []) past
          else (if d == b'0'
              then add_to (slice src s e) past
              else captured_text digits (push_onecapture src ms (d - b'1') s e) past))

  -- nil and false keep the original text
  abbrev kept : ℕ → ℕ → Reply → Pushed Str
  kept s e nothing = pushed (slice src s e)
  kept s e (text t) = pushed t
  kept s e other = raised invalid_replacement

  abbrev replaced : ℕ → ℕ → Pushed (List Value) → Pushed Str
  replaced s e (pushed vs) = kept s e (value_of vs)
  replaced s e (raised w) = raised w

  abbrev one_value : Pushed Value → Pushed (List Value)
  one_value (pushed v) = pushed (v ∷ [])
  one_value (raised w) = raised w

  unfoldable pub add_value : Replacement → Captures → ℕ → ℕ → Pushed Str
  add_value (by_string news) ms s e = add_s news ms s e
  add_value by_call ms s e = replaced s e (push_captures src ms (some (s, e)))
  add_value by_table ms s e = replaced s e (one_value (push_onecapture src ms 0 s e))

  -- A result: what is added to the buffer, and the substitutions counted.
  pub data Gsub : Type 0 where
    result : Str → ℕ → Gsub
    stopped : PatternError → Gsub

  abbrev pub add_front : Str → Gsub → Gsub
  add_front s (result t n) = result (s ++ t) n
  add_front s (stopped e) = stopped e

  -- the text behind `s`, when the loop is left
  abbrev pub left_over : ℕ → ℕ → Gsub
  left_over s n = result (drop s src) n

  -- Behind a match that ended at `e`, or none: the next place, what is added, and whether the loop
  -- goes on but for the anchor.
  abbrev pub next_place : ℕ → Option ℕ → Option (ℕ × Str)
  next_place s (some e) =
      if ltb s e
      then some (e, [])
      else (if ltb s (length src) then some (s + 1, get_or src s 0 ∷ []) else none)
  next_place s none = if ltb s (length src) then some (s + 1, get_or src s 0 ∷ []) else none

  abbrev pub continue_at : (ℕ → Gsub) → Bool → ℕ → ℕ → Option (ℕ × Str) → Gsub
  continue_at loop anchor s n none = left_over s n
  continue_at loop anchor s n (some (s', t)) =
      add_front t (if anchor then left_over s' n else loop s')

  abbrev pub with_text : Gsub → Pushed Str → Gsub
  with_text rest (pushed t) = add_front t rest
  with_text rest (raised e) = stopped e

  -- The loop of str_gsub at `s` with `n` substitutions made. Every round but the last takes a byte
  -- of the subject.
  unfoldable pub gsub_loop : Str → Replacement → Bool → ℕ → ℕ → ℕ → ℕ → Gsub
  gsub_loop p r anchor max_s zero s n = stopped endless
  gsub_loop p r anchor max_s (suc fuel) s n =
      if ltb n max_s
      then elim (match src (suc (length p)) s p []) [
        | fail e ↦ stopped e
        | ok none ms ↦
            continue_at (λ s'. gsub_loop p r anchor max_s fuel s' n) anchor s n (next_place s none)
        | ok (some e) ms ↦
            with_text
              (continue_at (λ s'. gsub_loop p r anchor max_s fuel s' (n + 1)) anchor s (n + 1)
                (next_place s (some e)))
              (add_value r ms s e)
      ]
      else left_over s n

  -- str_gsub, for `max_s` at least 0
  unfoldable pub str_gsub : Str → Replacement → ℕ → Gsub
  str_gsub pattern r max_s =
      let p = c_string pattern in
      if peek p == b'^'
      then gsub_loop (rest_of p) r true max_s (suc (length src)) 0 0
      else gsub_loop p r false max_s (suc (length src)) 0 0
