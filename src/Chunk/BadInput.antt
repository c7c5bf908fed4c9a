-- ===== src/Chunk/BadInput.antt =====
-- The errors of `luaU_undump` on input that is no chunk.
use luaxx.Base.{
  ℕ, ◌<◌, ◌≤◌, ◌==◌, ◌≡◌, ◌≢◌, sym, Bool, false, Bool-cases, inl, inr, length, take, arith,
}
use luaxx.Zio.{Zio, read}
use luaxx.Zio.Read.{contents, read-IsRead}
use luaxx.Chunk.{Proto, Str, same_bytes, header}
use luaxx.Chunk.Load.{ok, error, unexpected_end, bad_header, load_block, load_header, undump}
use luaxx.Chunk.RoundTrip.{eq_of_same_bytes}

load_block_short :
    (n : ℕ) (z : Zio) → length (contents z) < n → load_block n z ≡ error unexpected_end
unfolding load_block
load_block_short n z h =
    let r = read-IsRead z n in
    let e : ((read z n).missing == 0) ≡ false = ground (arith, r.short) in rw e

load_block_full :
    (n : ℕ) (z : Zio)
    → n ≤ length (contents z)
    → load_block n z ≡ ok (take n (contents z)) (read z n).stream
unfolding load_block
load_block_full n z h =
    let r = read-IsRead z n in
    let e : (read z n).missing ≡ 0 = omega (arith, r.short) in rw (e, r.copied)

same_bytes_differ : (s t : Str) → t ≢ s → same_bytes s t ≡ false
same_bytes_differ s t h = elim (Bool-cases (same_bytes s t)) [
  | inl e ↦ absurd (h (sym (eq_of_same_bytes s t e)))
  | inr e ↦ e
]

-- Input of fewer bytes than a header ends unexpectedly.
pub undump_short :
    (checks : Proto → Bool) (calls : ℕ) (z : Zio)
    → length (contents z) < 12
    → undump checks calls z ≡ error unexpected_end
unfolding undump load_header
undump_short checks calls z h = rw (load_block_short 12 z h)

-- Input that does not begin with the header that this build writes is refused for it, whatever
-- follows.
pub undump_bad_header :
    (checks : Proto → Bool) (calls : ℕ) (z : Zio)
    → 12 ≤ length (contents z)
    → take 12 (contents z) ≢ header
    → undump checks calls z ≡ error bad_header
unfolding undump load_header
undump_bad_header checks calls z h ne = rw (load_block_full 12 z h, same_bytes_differ header _ ne)
