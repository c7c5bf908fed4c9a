-- ===== src/Buffer.antt =====
-- lauxlib.c: the buffer in which library functions collect a string. What does not fit it goes
-- to the Lua stack in pieces.
pub mod Content
pub mod Result
mod Tests
use luaxx.Base.{
  ℕ, zero, suc, ◌+◌, ◌-◌, List, [], ◌∷◌, ◌++◌, Bool, true, false, ◌||◌, length, get_or, ltb, leb,
  if◌then◌else◌,
}
use luaxx.Chunk.{Str}

-- luaL_Buffer. `chars` is what `buffer` holds in front of `p`; `stack` is the Lua stack of `L`,
-- its top first, of which the topmost `lvl` strings belong to the buffer.
pub record Buffer : Type 0 where
  pub chars : Str
  pub stack : List Str
  pub lvl : ℕ

abbrev pub limit : ℕ
limit = 10

-- lua_concat of the topmost strings
unfoldable pub concat_top : ℕ → List Str → List Str
concat_top zero stack = [] ∷ stack
concat_top (suc zero) stack = stack
concat_top (suc (suc n)) (s ∷ t ∷ stack) = concat_top (suc n) ((t ++ s) ∷ stack)
concat_top (suc (suc n)) stack = stack

-- lua_strlen of the string that has `i` above it
abbrev pub strlen : List Str → ℕ → ℕ
strlen stack i = length (get_or stack i [])

unfoldable pub buffinit : List Str → Buffer
buffinit stack = record { chars = []; stack = stack; lvl = 0 }

abbrev pub pushed : Buffer → Buffer
pushed b = record { chars = []; stack = b.chars ∷ b.stack; lvl = suc b.lvl }

abbrev pub is_empty : Str → Bool
is_empty [] = true
is_empty (c ∷ s) = false

-- the result of the C function, and the buffer
unfoldable pub empty_buffer : Buffer → Bool × Buffer
empty_buffer b = if is_empty b.chars then (false, b) else (true, pushed b)

-- The loop of adjuststack, with `lvl - toget` rounds at most: the last `toget`.
unfoldable pub adjust_loop : ℕ → Buffer → ℕ → ℕ → ℕ
adjust_loop zero b toget toplen = toget
adjust_loop (suc n) b toget toplen =
    let l = strlen b.stack toget in
    let rest = adjust_loop n b (toget + 1) (toplen + l) in
    if leb limit (b.lvl - toget + 1) || ltb l toplen then rest else toget

abbrev pub joined : ℕ → Buffer → Buffer
joined toget b = record b { stack = concat_top toget b.stack; lvl = suc (b.lvl - toget) }

unfoldable pub adjust_stack : Buffer → Buffer
adjust_stack b =
    if ltb 1 b.lvl then joined (adjust_loop (b.lvl - 1) b 1 (strlen b.stack 0)) b else b

abbrev pub adjusted_if : Bool × Buffer → Buffer
adjusted_if (true, b) = adjust_stack b
adjusted_if (false, b) = b

unfoldable pub prep_buffer : Buffer → Buffer
prep_buffer b = adjusted_if (empty_buffer b)

abbrev pub put_char : ℕ → Buffer → Buffer
put_char c b = record b { chars = b.chars ++ (c ∷ []) }

-- lua_insert at -2 where `swapped` says so
abbrev pub below_top : List Str → List Str
below_top (s ∷ t ∷ stack) = t ∷ s ∷ stack
below_top stack = stack

abbrev pub value_on_top : Bool × Buffer → Buffer
value_on_top (true, b) = record b { stack = below_top b.stack }
value_on_top (false, b) = b

unfoldable pub push_result : Buffer → Buffer
push_result b =
    let b' = (empty_buffer b).1 in record b' { stack = concat_top b'.lvl b'.stack; lvl = 1 }

-- BUFSIZ of <stdio.h> is `size`.
module _ (size : ℕ) where
  unfoldable pub add_char : ℕ → Buffer → Buffer
  add_char c b = put_char c (if ltb (length b.chars) size then b else prep_buffer b)

  unfoldable pub add_lstring : Str → Buffer → Buffer
  add_lstring [] b = b
  add_lstring (c ∷ s) b = add_lstring s (add_char c b)

  abbrev pub count_value : Buffer → Buffer
  count_value b = adjust_stack (record b { lvl = suc b.lvl })

  -- luaL_addvalue, where the stack is `s` on `stack`
  abbrev pub take_value : Str → List Str → Buffer → Buffer
  take_value s stack b =
      if leb (length s) (size - length b.chars)
      then record b { chars = b.chars ++ s; stack = stack }
      else count_value (value_on_top (empty_buffer b))

  abbrev pub value_at : List Str → Buffer → Buffer
  value_at [] b = b
  value_at (s ∷ stack) b = take_value s stack b

  unfoldable pub add_value : Buffer → Buffer
  add_value b = value_at b.stack b
