-- ===== src/Strings/Reversed.antt =====
-- `str_reverse` by position.
use luaxx.Base.{ℕ, zero, suc, ◌-◌, ◌<◌, ◌≡◌, refl, length, get_or, arith}
use luaxx.Chunk.{Str}
use luaxx.Strings.{from_end, str_reverse}

get_or-from_end : (l k : ℕ) (s : Str) → k < l → get_or (from_end l s) k 0 ≡ get_or s (l - 1 - k) 0
unfolding from_end
get_or-from_end zero k s h = absurd (omega arith)
get_or-from_end (suc l) zero s h = let e : suc l - 1 - 0 ≡ l = omega arith in rw e
get_or-from_end (suc l) (suc k) s h =
    let e : suc l - 1 - suc k ≡ l - 1 - k = omega arith in
    rw e (get_or-from_end l k s (omega arith))

length-from_end : (l : ℕ) (s : Str) → length (from_end l s) ≡ l
unfolding from_end
length-from_end zero s = refl
length-from_end (suc l) s = omega (arith, length-from_end l s)

-- A string's reverse is as long as the string, and has at each position the byte that the string
-- has as far from its end.
pub str_reverse-get_or :
    (s : Str) (k : ℕ)
    → k < length s
    → (length (str_reverse s) ≡ length s)
      × (get_or (str_reverse s) k 0 ≡ get_or s (length s - 1 - k) 0)
unfolding str_reverse
str_reverse-get_or s k h = (length-from_end (length s) s, get_or-from_end (length s) k s h)
