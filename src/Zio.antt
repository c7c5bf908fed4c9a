-- ===== src/Zio.antt =====
-- lzio.c: buffered input over a reader function.
-- A reader is the list of blocks that its calls will return. Both a NULL block and a block of
-- size 0 are the empty list; after its last block a reader returns NULL.
pub mod Read
use luaxx.Base.{
  ℕ, zero, suc, ◌+◌, ◌-◌, List, [], ◌∷◌, ◌++◌, Option, none, some, length, take, drop, leb, ◌==◌,
  if◌then◌else◌,
}

-- The stream: the `n` bytes that remain at `p`, and the reader's blocks to come.
pub record Zio : Type 0 where
  pub unread : List ℕ
  pub blocks : List (List ℕ)

-- `none` is EOZ.
abbrev pub fill_from : List ℕ → List (List ℕ) → Option ℕ × Zio
fill_from unread [] = (none, record { unread = unread; blocks = [] })
fill_from unread ([] ∷ bs) = (none, record { unread = unread; blocks = bs })
fill_from unread ((c ∷ cs) ∷ bs) = (some c, record { unread = cs; blocks = bs })

unfoldable pub fill : Zio → Option ℕ × Zio
fill z = fill_from z.unread z.blocks

-- Puts the byte that `fill` took back, and returns it.
abbrev unget : Option ℕ × Zio → Option ℕ × Zio
unget (none, z) = (none, z)
unget (some c, z) = (some c, record z { unread = c ∷ z.unread })

abbrev lookahead_from : List ℕ → Zio → Option ℕ × Zio
lookahead_from [] z = unget (fill z)
lookahead_from (c ∷ cs) z = (some c, z)

unfoldable pub lookahead : Zio → Option ℕ × Zio
unfolding fill
lookahead z = lookahead_from z.unread z

unfoldable pub init : List (List ℕ) → Zio
init reader = record { unread = []; blocks = reader }

-- What `luaZ_read` leaves: the number of missing bytes, the bytes copied to `b`, the stream.
pub record Copied : Type 0 where
  pub missing : ℕ
  pub bytes : List ℕ
  pub stream : Zio

-- `m` bytes were copied before what a later round copies.
abbrev after : List ℕ → Copied → Copied
after bs r = record r { bytes = bs ++ r.bytes }

abbrev smaller : ℕ → ℕ → ℕ
smaller n m = if leb n m then n else m

-- One round of the loop, from what `luaZ_lookahead` returned; `next` is the loop after it.
abbrev round : Option ℕ × Zio → ℕ → (ℕ → Zio → Copied) → Copied
round (none, z) n next = record { missing = n; bytes = []; stream = z }
round (some _, z) n next =
    let m = smaller n (length z.unread) in
    after (take m z.unread) (next (n - m) (record z { unread = drop m z.unread }))

read_loop : ℕ → ℕ → Zio → Copied
read_loop zero n z = record { missing = n; bytes = []; stream = z }
read_loop (suc fuel) zero z = record { missing = 0; bytes = []; stream = z }
read_loop (suc fuel) (suc n) z = round (lookahead z) (suc n) (read_loop fuel)

-- Every round copies a byte at least, so `n` rounds are enough.
unfoldable pub read : Zio → ℕ → Copied
unfolding read_loop
read z n = read_loop n n z
