-- ===== src/Strings/Find.antt =====
-- lstrlib.c: `str_find_aux`, which string.find and string.match call, and the iterator of
-- string.gmatch. The subject is `src`. luaL_checkstack, which may refuse room for the captures, is
-- taken to give it.
pub mod Plain
pub mod Progress
use luaxx.Base.{
  c_string, ℕ, zero, suc, ◌+◌, ◌-◌, List, [], ◌∷◌, ◌++◌, Option, none, some, Bool, true, false, not,
  ◌&&◌, ◌||◌, length, get_elem?, take, drop, ltb, leb, ◌==◌, if◌then◌else◌, ℤ, codes,
}
use luaxx.Chunk.{Str, same_bytes}
use luaxx.Strings.{posrelat}
use luaxx.Strings.Pattern.{PatternError, invalid_capture_index, unfinished_capture, peek, rest_of}
use luaxx.Strings.Match.{
  Captures, Capture, cap_unfinished, cap_position, closed, Run, ok, fail, match,
}

-- memchr in the first `n` bytes: the index
unfoldable pub mem_chr : ℕ → ℕ → Str → Option ℕ
mem_chr c zero s = none
mem_chr c (suc n) [] = none
mem_chr c (suc n) (x ∷ s) =
    let rest = mem_chr c n s in
    if x == c then some 0 else elim rest [ none ↦ none | some k ↦ some (k + 1) ]

-- The loop of lmemfind: `base` bytes are behind, `n` starts are left. Every round uses one up at
-- least, so `n` is enough fuel.
unfoldable pub mem_loop : ℕ → ℕ → Str → ℕ → ℕ → Str → Option ℕ
mem_loop zero n s1 base c s2 = none
mem_loop (suc fuel) n s1 base c s2 = elim (mem_chr c n s1) [
  | none ↦ none
  | some k ↦
      if same_bytes (take (length s2) (drop (k + 1) s1)) s2
      then some (base + k)
      else mem_loop fuel (n - (k + 1)) (drop (k + 1) s1) (base + (k + 1)) c s2
]

unfoldable pub lmemfind : Str → Str → Option ℕ
lmemfind s1 [] = some 0
lmemfind s1 (c ∷ s2) =
    let n = length s1 - length s2 in
    if ltb (length s1) (suc (length s2)) then none else mem_loop n n s1 0 c s2

-- A value that is pushed: a string, or a position in the subject.
pub data Value : Type 0 where
  bytes : Str → Value
  place : ℕ → Value

pub data Pushed {ℓ} (A : Type ℓ) : Type ℓ where
  pushed : A → Pushed A
  raised : PatternError → Pushed A

abbrev pub slice : Str → ℕ → ℕ → Str
slice src s e = take (e - s) (drop s src)

abbrev pub capture_value : Str → Capture → Pushed Value
capture_value src c = elim c.len [
  | cap_unfinished ↦ raised unfinished_capture
  | cap_position ↦ pushed (place (c.init + 1))
  | closed n ↦ pushed (bytes (take n (drop c.init src)))
]

unfoldable pub push_onecapture : Str → Captures → ℕ → ℕ → ℕ → Pushed Value
push_onecapture src ms i s e = elim (get_elem? ms i) [
  | none ↦ if i == 0 then pushed (bytes (slice src s e)) else raised invalid_capture_index
  | some c ↦ capture_value src c
]

abbrev pub with_value : Pushed Value → Pushed (List Value) → Pushed (List Value)
with_value (pushed v) (pushed vs) = pushed (v ∷ vs)
with_value (pushed v) (raised e) = raised e
with_value (raised e) vs = raised e

unfoldable pub push_each : Str → Captures → Pushed (List Value)
push_each src [] = pushed []
push_each src (c ∷ ms) = with_value (capture_value src c) (push_each src ms)

-- `whole` is the match, where there is one to push without captures.
unfoldable pub push_captures : Str → Captures → Option (ℕ × ℕ) → Pushed (List Value)
push_captures src [] none = pushed []
push_captures src [] (some (s, e)) = pushed (bytes (slice src s e) ∷ [])
push_captures src (c ∷ ms) whole = push_each src (c ∷ ms)

pub data Found : Type 0 where
  not_found : Found
  found : ℕ → ℕ → List Value → Found
  matched : List Value → Found
  error : PatternError → Found

abbrev found_at : ℕ → ℕ → Pushed (List Value) → Found
found_at start end (pushed vs) = found start end vs
found_at start end (raised e) = error e

abbrev matched_at : Pushed (List Value) → Found
matched_at (pushed vs) = matched vs
matched_at (raised e) = error e

abbrev report : Str → Bool → ℕ → ℕ → Captures → Found
report src find s e ms =
    if find
    then found_at (s + 1) e (push_captures src ms none)
    else matched_at (push_captures src ms (some (s, e)))

-- The loop over the starts, of which `n` come after `s`.
unfoldable pub find_from : Str → Str → Bool → Bool → ℕ → ℕ → Found
find_from src p find anchor zero s = elim (match src (suc (length p)) s p []) [
  | fail e ↦ error e
  | ok (some e) ms ↦ report src find s e ms
  | ok none ms ↦ not_found
]
find_from src p find anchor (suc n) s =
    let rest = find_from src p find anchor n (s + 1) in
    elim (match src (suc (length p)) s p []) [
      | fail e ↦ error e
      | ok (some e) ms ↦ report src find s e ms
      | ok none ms ↦ if anchor then not_found else rest
    ]

abbrev pub specials : Str
specials = codes "^$*+?.([%-"

abbrev pub has : ℕ → Str → Bool
has c [] = false
has c (x ∷ s) = (c == x) || has c s

-- strpbrk(p, SPECIALS) == NULL
unfoldable pub no_specials : Str → Bool
no_specials [] = true
no_specials (c ∷ p) = not (has c specials) && no_specials p

abbrev plain_result : ℕ → ℕ → Option ℕ → Found
plain_result init len none = not_found
plain_result init len (some k) = found (init + k + 1) (init + k + len) []

unfoldable pub plain_find : Str → Str → ℕ → Found
plain_find src p init = plain_result init (length p) (lmemfind (drop init src) p)

unfoldable pub pattern_find : Str → Str → Bool → ℕ → Found
pattern_find src p find init =
    if peek p == b'^'
    then find_from src (rest_of p) find true (length src - init) init
    else find_from src p find false (length src - init) init

abbrev pub start_of : Str → ℤ → ℕ
start_of src i =
    let init = posrelat i (length src) - 1 in if ltb (length src) init then length src else init

-- `explicit` is the fourth argument of string.find.
unfoldable pub str_find_aux : Str → Str → ℤ → Bool → Bool → Found
str_find_aux src p i explicit find =
    let init = start_of src i in
    if find && (explicit || no_specials (c_string p))
    then plain_find src p init
    else pattern_find src (c_string p) find init

-- gmatch_aux from the start `s`, with `n` starts after it: the values and the next start.
unfoldable pub gmatch_from : Str → Str → ℕ → ℕ → Option (Pushed (List Value) × ℕ)
gmatch_from src p zero s = elim (match src (suc (length p)) s p []) [
  | fail e ↦ some (raised e, s)
  | ok (some e) ms ↦ some (push_captures src ms (some (s, e)), if e == s then e + 1 else e)
  | ok none ms ↦ none
]
gmatch_from src p (suc n) s =
    let rest = gmatch_from src p n (s + 1) in
    elim (match src (suc (length p)) s p []) [
      | fail e ↦ some (raised e, s)
      | ok (some e) ms ↦ some (push_captures src ms (some (s, e)), if e == s then e + 1 else e)
      | ok none ms ↦ rest
    ]

unfoldable pub gmatch_aux : Str → Str → ℕ → Option (Pushed (List Value) × ℕ)
gmatch_aux src p s =
    if leb s (length src) then gmatch_from src (c_string p) (length src - s) s else none
