-- ===== src/Concat.antt =====
-- ltablib.c: table.concat over a buffer. Of the table it asks for the strings that rawgeti and
-- lua_tolstring give, none for a value that is neither a string nor a number.
pub mod Whole
mod Tests
use luaxx.Base.{ℕ, zero, suc, ◌+◌, List, [], ◌∷◌, Option, none, some, ℤ, pos, negsuc, ◌+ℤ◌, sub_ℕ}
use luaxx.Chunk.{Str}
use luaxx.Buffer.{Buffer, buffinit, push_result, add_lstring, add_value}

-- What luaL_error ends with the index of an invalid value.
pub data Concatenated {ℓ} (A : Type ℓ) : Type ℓ where
  valid : A → Concatenated A
  invalid_value : ℤ → Concatenated A

unfoldable pub on_valid {ℓ} :
    {A B : Type ℓ} → Concatenated A → (A → Concatenated B) → Concatenated B
on_valid (valid x) f = f x
on_valid (invalid_value i) f = invalid_value i

-- last - i
unfoldable pub distance : ℤ → ℤ → ℤ
distance (pos a) (pos b) = sub_ℕ b a
distance (pos a) (negsuc b) = negsuc (a + b)
distance (negsuc a) (pos b) = pos (b + suc a)
distance (negsuc a) (negsuc b) = sub_ℕ a b

abbrev pub opt {ℓ} : {A : Type ℓ} → Option A → A → A
opt none x = x
opt (some y) x = y

-- BUFSIZ of <stdio.h> is `size`.
module _ (size : ℕ) (string_at : ℤ → Option Str) where
  abbrev pub add_string : ℤ → Option Str → Buffer → Concatenated Buffer
  add_string i none b = invalid_value i
  add_string i (some s) b = valid (add_value size (record b { stack = s ∷ b.stack }))

  abbrev pub addfield : ℤ → Buffer → Concatenated Buffer
  addfield i b = add_string i (string_at i) b

  -- The loop, which runs `last - i` times, and the last value.
  unfoldable pub add_fields : Str → ℕ → ℤ → Buffer → Concatenated Buffer
  add_fields sep zero i b = addfield i b
  add_fields sep (suc n) i b =
      on_valid (addfield i b) (λ c. add_fields sep n (i +ℤ pos 1) (add_lstring size sep c))

  abbrev pub add_interval : Str → ℤ → ℤ → Buffer → Concatenated Buffer
  add_interval sep i (pos n) b = add_fields sep n i b
  add_interval sep i (negsuc n) b = valid b

  -- The stack of Lua is `stack` where the buffer is initialised; luaL_getn is `size_of_table`.
  unfoldable pub tconcat : Option Str → Option ℤ → Option ℤ → ℕ → List Str → Concatenated (List Str)
  tconcat sep i last size_of_table stack =
      let first = opt i (pos 1) in
      on_valid
        (add_interval (opt sep []) first (distance first (opt last (pos size_of_table)))
          (buffinit stack))
        (λ b. valid (push_result b).stack)
