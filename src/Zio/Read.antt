-- ===== src/Zio/Read.antt =====
-- `luaZ_read` and the bytes that the reader's blocks hold.
use luaxx.Base.{
  ℕ, zero, suc, ◌-◌, ◌≤◌, ◌<◌, ◌≡◌, refl, ap, ◌∙◌, List, [], ◌∷◌, ◌++◌, Option, none, some, length,
  take, drop, length-append, arith,
}
use mathlib.Core.Path.{subst, sym}
use luaxx.Zio.{
  Zio, fill_from, lookahead_from, lookahead, Copied, smaller, read_loop, read, after, unget, round,
}

-- The bytes that a reader gives up to its first empty block.
abbrev pub joined : List (List ℕ) → List ℕ
joined [] = []
joined ([] ∷ bs) = []
joined ((c ∷ cs) ∷ bs) = c ∷ (cs ++ joined bs)

abbrev pub contents : Zio → List ℕ
contents z = z.unread ++ joined z.blocks

module _ {ℓ} {A : Type ℓ} where
  take-append_split :
      (m n : ℕ) (xs ys : List A)
      → m ≤ length xs
      → m ≤ n
      → take m xs ++ take (n - m) (drop m xs ++ ys) ≡ take n (xs ++ ys)
  take-append_split zero n xs ys h k = ap (λ t. take t (xs ++ ys)) (omega arith)
  take-append_split (suc m) zero xs ys h k = absurd (omega arith)
  take-append_split (suc m) (suc n) [] ys h k = absurd (omega arith)
  take-append_split (suc m) (suc n) (x ∷ xs) ys h k =
      ap (λ t. x ∷ (take m xs ++ take t (drop m xs ++ ys))) (omega arith)
      ∙ ap (λ t. x ∷ t) (take-append_split m n xs ys (omega arith) (omega arith))

  drop-append_split :
      (m n : ℕ) (xs ys : List A)
      → m ≤ length xs
      → m ≤ n
      → drop (n - m) (drop m xs ++ ys) ≡ drop n (xs ++ ys)
  drop-append_split zero n xs ys h k = ap (λ t. drop t (xs ++ ys)) (omega arith)
  drop-append_split (suc m) zero xs ys h k = absurd (omega arith)
  drop-append_split (suc m) (suc n) [] ys h k = absurd (omega arith)
  drop-append_split (suc m) (suc n) (x ∷ xs) ys h k =
      ap (λ t. drop t (drop m xs ++ ys)) (omega arith)
      ∙ drop-append_split m n xs ys (omega arith) (omega arith)

  pub length-drop : (n : ℕ) (xs : List A) → length (drop n xs) ≡ length xs - n
  length-drop zero xs = omega arith
  length-drop (suc n) [] = omega arith
  length-drop (suc n) (x ∷ xs) = omega (arith, length-drop n xs)

  take-zero_length : (n : ℕ) (xs : List A) → length xs ≡ 0 → take n xs ≡ []
  take-zero_length zero xs h = refl
  take-zero_length (suc n) [] h = refl
  take-zero_length (suc n) (x ∷ xs) h = absurd (omega arith)

-- What a lookahead finds: the end, or a byte that stays at the front of an unread block.
data Ahead (whole : List ℕ) : Option ℕ × Zio → Type 0 where
  at_end : {z : Zio} → length whole ≡ 0 → Ahead whole (none, z)
  at_byte : {z : Zio} {c : ℕ} → 1 ≤ length z.unread → contents z ≡ whole → Ahead whole (some c, z)

fill-Ahead : (bs : List (List ℕ)) → Ahead (joined bs) (unget (fill_from [] bs))
fill-Ahead [] = at_end refl
fill-Ahead ([] ∷ bs) = at_end refl
fill-Ahead ((c ∷ cs) ∷ bs) = at_byte (omega arith) refl

lookahead_from-Ahead :
    (u : List ℕ) (bs : List (List ℕ))
    → Ahead (u ++ joined bs) (lookahead_from u (record { unread = u; blocks = bs }))
unfolding lookahead
lookahead_from-Ahead [] bs = fill-Ahead bs
lookahead_from-Ahead (c ∷ u) bs = at_byte (omega arith) refl

lookahead-Ahead : (z : Zio) → Ahead (contents z) (lookahead z)
unfolding lookahead
lookahead-Ahead z = lookahead_from-Ahead z.unread z.blocks

-- The outcome of a read of `n` bytes of `whole`.
pub record IsRead (whole : List ℕ) (n : ℕ) (r : Copied) : Type 0 where
  pub copied : r.bytes ≡ take n whole
  pub short : r.missing ≡ n - length whole
  pub left : n ≤ length whole → contents r.stream ≡ drop n whole

after-IsRead :
    (m n : ℕ) (u js : List ℕ) (r : Copied)
    → m ≤ length u
    → m ≤ n
    → IsRead (drop m u ++ js) (n - m) r
    → IsRead (u ++ js) n (after (take m u) r)
after-IsRead m n u js r h k i = record {
  copied = ap (λ t. take m u ++ t) i.copied ∙ take-append_split m n u js h k;
  short = omega (
    arith,
    i.short,
    length-append {0} (drop m u) js,
    length-append {0} u js,
    length-drop {0} m u,
  );
  left = λ fits.
      i.left (
        omega (arith, length-append {0} (drop m u) js, length-append {0} u js, length-drop {0} m u))
      ∙ drop-append_split m n u js h k;
}

pub smaller_lem :
    (n m : ℕ) → (smaller n m ≤ n) × (smaller n m ≤ m) × (1 ≤ n → 1 ≤ m → 1 ≤ smaller n m)
smaller_lem n m = ground arith

round-IsRead :
    (whole : List ℕ) (n : ℕ) (next : ℕ → Zio → Copied)
    → 1 ≤ n
    → ((k : ℕ) (z : Zio) → k < n → IsRead (contents z) k (next k z))
    → (r : Option ℕ × Zio) → Ahead whole r
    → IsRead whole n (round r n next)
round-IsRead whole n next pn ih (none, z) (at_end e) = record {
  copied = sym (take-zero_length n whole e);
  short = omega arith;
  left = λ k. absurd (omega arith);
}
round-IsRead whole n next pn ih (some c, z) (at_byte p e) =
    let m = smaller n (length z.unread) in
    let b = smaller_lem n (length z.unread) in
    subst (λ w. IsRead w n (round (some c, z) n next)) e
      (after-IsRead m n z.unread (joined z.blocks) _ b.1 b.0
        (ih (n - m) (record z { unread = drop m z.unread }) (omega (arith, b.2 pn p))))

read_loop-IsRead : (fuel n : ℕ) (z : Zio) → n ≤ fuel → IsRead (contents z) n (read_loop fuel n z)
unfolding read_loop
read_loop-IsRead zero zero z h = record { copied = refl; short = omega arith; left = λ k. refl }
read_loop-IsRead zero (suc n) z h = absurd (omega arith)
read_loop-IsRead (suc fuel) zero z h = record {
  copied = refl;
  short = omega arith;
  left = λ k. refl;
}
read_loop-IsRead (suc fuel) (suc n) z h =
    round-IsRead (contents z) (suc n) (read_loop fuel) (omega arith)
      (λ k z' hk. read_loop-IsRead fuel k z' (omega arith)) (lookahead z) (lookahead-Ahead z)

pub read-IsRead : (z : Zio) (n : ℕ) → IsRead (contents z) n (read z n)
unfolding read
read-IsRead z n = read_loop-IsRead n n z (omega arith)

-- Where the stream holds `n` bytes, a read of `n` copies the first `n`, whatever blocks they come
-- in, misses none, and leaves the rest to be read.
pub read_full :
    (z : Zio) (n : ℕ)
    → n ≤ length (contents z)
    → ((read z n).missing ≡ 0)
      × ((read z n).bytes ≡ take n (contents z))
      × (contents (read z n).stream ≡ drop n (contents z))
read_full z n h = let r = read-IsRead z n in (omega (arith, r.short), r.copied, r.left h)
