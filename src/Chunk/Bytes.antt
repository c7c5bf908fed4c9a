-- ===== src/Chunk/Bytes.antt =====
-- The bytes of a machine word in memory, lowest first.
use luaxx.Base.{
  ℕ, zero, suc, ◌+◌, ◌*◌, ◌/◌, ◌%◌, ◌^◌, ◌<◌, ◌≡◌, refl, List, [], ◌∷◌, ◌++◌, length, take, drop,
  arith, All,
}
use mathlib.Core.Path.{ap₂}
use native.Mathlib.Nat.{pow-succ'}

unfoldable pub le : ℕ → ℕ → List ℕ
le zero x = []
le (suc k) x = x % 256 ∷ le k (x / 256)

unfoldable pub un_le : List ℕ → ℕ
un_le [] = 0
un_le (b ∷ bs) = b + 256 * un_le bs

-- An array of 4-byte words.
unfoldable pub word_bytes : List ℕ → List ℕ
word_bytes [] = []
word_bytes (x ∷ xs) = le 4 x ++ word_bytes xs

unfoldable pub words : ℕ → List ℕ → List ℕ
words zero bs = []
words (suc n) bs = un_le (take 4 bs) ∷ words n (drop 4 bs)

pub length-le : (k x : ℕ) → length (le k x) ≡ k
unfolding le
length-le zero x = refl
length-le (suc k) x = omega (arith, length-le k (x / 256))

pub un_le-le : (k x : ℕ) → x < 256 ^ k → un_le (le k x) ≡ x
unfolding le un_le
un_le-le zero x h = omega arith
un_le-le (suc k) x h =
    let small : x < 256 * 256 ^ k = rw (← pow-succ' 256 k) h in
    omega (arith, un_le-le k (x / 256) (omega arith))

pub words-word_bytes :
    (xs : List ℕ) → All (λ x. x < 2 ^ 32) xs → words (length xs) (word_bytes xs) ≡ xs
unfolding words word_bytes le
words-word_bytes [] h = refl
words-word_bytes (x ∷ xs) (h, hs) = ap₂ (λ a b. a ∷ b) (un_le-le 4 x h) (words-word_bytes xs hs)

pub length-word_bytes : (xs : List ℕ) → length (word_bytes xs) ≡ length xs * 4
unfolding word_bytes le
length-word_bytes [] = refl
length-word_bytes (x ∷ xs) = omega (arith, length-word_bytes xs)
