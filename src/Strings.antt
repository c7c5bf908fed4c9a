-- ===== src/Strings.antt =====
-- lstrlib.c: the functions on bytes by position. A string is a list of bytes. `tolower` and
-- `toupper` of the C library are arguments. Positions fit the machine's ptrdiff_t.
pub mod Slices
pub mod Reversed
pub mod Quote
pub mod Pattern
pub mod Match
pub mod Find
pub mod Gsub
mod Tests
use luaxx.Base.{
  ℕ, zero, suc, ◌+◌, ◌-◌, ◌^◌, List, [], ◌∷◌, ◌++◌, Option, none, some, Bool, true, false, length,
  take, drop, get_or, ltb, leb, if◌then◌else◌, ℤ, pos, negsuc, ◌+ℤ◌,
}
use luaxx.Chunk.{Str}

-- `(pos >= 0) ? pos : 0`
abbrev at_least_zero : ℤ → ℕ
at_least_zero (pos n) = n
at_least_zero (negsuc n) = 0

unfoldable pub posrelat : ℤ → ℕ → ℕ
posrelat (pos n) len = n
posrelat (negsuc n) len = at_least_zero (negsuc n +ℤ pos (len + 1))

abbrev pub from_one : ℕ → ℕ
from_one start = if ltb start 1 then 1 else start

abbrev pub up_to : ℕ → ℕ → ℕ
up_to len end = if ltb len end then len else end

abbrev pub slice : ℕ → ℕ → Str → Str
slice start end s = if leb start end then take (end - start + 1) (drop (start - 1) s) else []

unfoldable pub str_sub : Str → ℤ → ℤ → Str
str_sub s i j =
    let len = length s in slice (from_one (posrelat i len)) (up_to len (posrelat j len)) s

-- `while (l--)`
unfoldable pub from_end : ℕ → Str → Str
from_end zero s = []
from_end (suc l) s = get_or s l 0 ∷ from_end l s

unfoldable pub str_reverse : Str → Str
str_reverse s = from_end (length s) s

unfoldable pub each_byte : (ℕ → ℕ) → Str → Str
each_byte f [] = []
each_byte f (c ∷ s) = f c ∷ each_byte f s

unfoldable pub str_lower : (ℕ → ℕ) → Str → Str
str_lower tolower s = each_byte tolower s

unfoldable pub str_upper : (ℕ → ℕ) → Str → Str
str_upper toupper s = each_byte toupper s

unfoldable pub repeated : ℕ → Str → Str
repeated zero s = []
repeated (suc n) s = s ++ repeated n s

-- `while (n-- > 0)`
unfoldable pub str_rep : Str → ℤ → Str
str_rep s (pos n) = repeated n s
str_rep s (negsuc n) = []

-- the `n` bytes from `s[at]` on, pushed in turn
unfoldable pub pushed : ℕ → ℕ → Str → List ℕ
pushed zero at s = []
pushed (suc n) at s = get_or s at 0 ∷ pushed n (at + 1) s

-- `n` is converted to int; where that loses bits, `posi + n <= pose` holds. `room` is the answer
-- of luaL_checkstack for `n` more values. `none` is the error "string slice too long".
abbrev pub push_bytes : (ℕ → Bool) → ℕ → ℕ → Str → Option (List ℕ)
push_bytes room posi n s =
    if leb (2 ^ 31) n then none else (if room n then some (pushed n (posi - 1) s) else none)

unfoldable pub str_byte : (ℕ → Bool) → Str → ℤ → ℤ → Option (List ℕ)
str_byte room s i j =
    let posi = from_one (posrelat i (length s)) in
    let pose = up_to (length s) (posrelat j (length s)) in
    if ltb pose posi then some [] else push_bytes room posi (pose - posi + 1) s

abbrev pub char_of : ℤ → Option ℕ
char_of (pos n) = if ltb n 256 then some n else none
char_of (negsuc n) = none

abbrev pub with_char : Option ℕ → Option Str → Option Str
with_char (some c) (some s) = some (c ∷ s)
with_char _ _ = none

-- `none` is the error "invalid value".
unfoldable pub str_char : List ℤ → Option Str
str_char [] = some []
str_char (z ∷ zs) = with_char (char_of z) (str_char zs)
