-- ===== src/Object/Tests.antt =====
-- Sizes and names of chunks.
use luaxx.Base.{◌+◌, ◌≤◌, ◌≡◌, refl, none, some, [], ◌∷◌, length, arith}
use luaxx.Object.{halve, pack, int_to_fb, fb_to_int, chunk_id}
use luaxx.Object.FloatByte.{IsClose, fb_to_int-int_to_fb}
use luaxx.Object.ChunkId.{chunk_id_fits}

-- 1000 becomes 1024
byte_of_1000 : fb_to_int (int_to_fb 1000) ≡ some 1024
unfolding fb_to_int int_to_fb halve
byte_of_1000 = refl

-- the byte of a size above 15 * 2 ^ 27, which becomes 2 ^ 31
overflows : fb_to_int (pack (28, 8)) ≡ none
unfolding fb_to_int
overflows = refl

fb_to_int-int_to_fb_example : IsClose 1000 (fb_to_int (int_to_fb 1000))
fb_to_int-int_to_fb_example = fb_to_int-int_to_fb 1000 (omega arith)

chunk_id_fits_example : length (chunk_id (97 ∷ 98 ∷ 10 ∷ 99 ∷ []) 60) + 1 ≤ 60
chunk_id_fits_example = chunk_id_fits (97 ∷ 98 ∷ 10 ∷ 99 ∷ []) 60 (omega arith)
