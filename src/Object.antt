-- ===== src/Object.antt =====
-- lobject.c: the size of a new table as a "floating point byte", and the name of a chunk that
-- messages show.
pub mod FloatByte
pub mod ChunkId
mod Tests
use luaxx.Base.{
  ℕ, zero, suc, ◌+◌, ◌-◌, ◌*◌, ◌/◌, ◌%◌, ◌^◌, List, [], ◌∷◌, ◌++◌, Option, none, some, Bool, true,
  false, ◌||◌, length, take, drop, ltb, leb, ◌==◌, if◌then◌else◌, is_space,
}

-- The loop of luaO_int2fb: `e` and `x` when `x` is less than 16. As many rounds as `x` are enough.
unfoldable pub halve : ℕ → ℕ → ℕ → ℕ × ℕ
halve zero e x = (e, x)
halve (suc n) e x =
    let rest = halve n (e + 1) ((x + 1) % 2 ^ 32 / 2) in if leb 16 x then rest else (e, x)

-- `((e+1) << 3) | (x - 8)`, whose parts do not overlap
abbrev pub pack : ℕ × ℕ → ℕ
pack (e, x) = if ltb x 8 then x else (e + 1) * 8 + (x - 8)

unfoldable pub int_to_fb : ℕ → ℕ
int_to_fb x = pack (halve x 0 x)

-- a number that an int holds; the shift of a larger one overflows
abbrev pub in_int : ℕ → Option ℕ
in_int r = if ltb r (2 ^ 31) then some r else none

unfoldable pub fb_to_int : ℕ → Option ℕ
fb_to_int x = let e = x / 8 % 32 in if e == 0 then some x else in_int ((x % 8 + 8) * 2 ^ (e - 1))

-- A string of C, without the byte 0 that ends it.
abbrev pub CString : Type 0
CString = List ℕ

-- `[string "`
abbrev pub opening : CString
opening = 91 ∷ 115 ∷ 116 ∷ 114 ∷ 105 ∷ 110 ∷ 103 ∷ 32 ∷ 34 ∷ []

-- `"]`
abbrev pub closing : CString
closing = 34 ∷ 93 ∷ []

abbrev pub dots : CString
dots = 46 ∷ 46 ∷ 46 ∷ []

-- the sizes of sizeof(" [string \"...\"] ")
abbrev pub file_room : ℕ
file_room = 8

abbrev pub string_room : ℕ
string_room = 17

-- strcspn(source, "\n\r")
unfoldable pub first_line : CString → ℕ
first_line [] = 0
first_line (c ∷ s) = let rest = first_line s in if (c == 10) || (c == 13) then 0 else rest + 1

-- The last part of a file name that is too long.
unfoldable pub file_name : CString → ℕ → CString
file_name source room =
    if ltb room (length source) then dots ++ drop (length source - room) source else source

unfoldable pub quoted_line : CString → ℕ → CString
quoted_line source room =
    let line = first_line source in
    let len = if ltb room line then room else line in
    opening ++ ((if ltb len (length source) then take len source ++ dots else source) ++ closing)

-- luaO_chunkid: the string that is left in `out`. `bufflen` is a size, and the room is what its
-- unsigned subtraction gives where `bufflen` is large enough.
unfoldable pub chunk_id : CString → ℕ → CString
chunk_id [] bufflen = quoted_line [] (bufflen - string_room)
chunk_id (c ∷ source) bufflen =
    if c == 61
    then take (bufflen - 1) source
    else (if c == 64
        then file_name source (bufflen - file_room)
        else quoted_line (c ∷ source) (bufflen - string_room))

-- strtod and strtoul to the base 16: the value, as the bit pattern of a double, and the number of
-- bytes that were read.
pub record Strto : Type 0 where
  pub strtod : CString → ℕ × ℕ
  pub strtoul : CString → ℕ × ℕ

abbrev pub drop_spaces : CString → CString
drop_spaces [] = []
drop_spaces (c ∷ s) = let rest = drop_spaces s in if is_space c then rest else c ∷ s

abbrev pub starts_with_x : CString → Bool
starts_with_x [] = false
starts_with_x (c ∷ s) = (c == b'x') || (c == b'X')

abbrev pub nothing_after : ℕ → CString → Option ℕ
nothing_after value rest = elim (drop_spaces rest) [ [] ↦ some value | _ ∷ _ ↦ none ]

-- luaO_str2d: `none` is the answer 0
unfoldable pub str_to_d : ⦃lib : Strto⦄ → CString → Option ℕ
str_to_d ⦃lib⦄ s =
    let (value, used) = lib.strtod s in
    let (hex, used_hex) = lib.strtoul s in
    if used == 0
    then none
    else (if starts_with_x (drop used s)
        then nothing_after hex (drop used_hex s)
        else nothing_after value (drop used s))
