-- ===== src/Parser/Keeps/Kept.antt =====
-- Operations on one function, which keep its blocks.
use luaxx.Parser.Keeps.{is_grammars, Ensures, shape, IsOpen, Same, Still}
use luaxx.Base.{ℕ, ◌≡◌, refl, List, [], ◌∷◌, false, length, arith}
use luaxx.Scope.{Level, Out, gives, refused}
use luaxx.Parser.{Parser, refusal, level_result, at_first, at_level}

-- what an operation on the level `fs` may do to it
abbrev pub Kept : {A : Type 0} → Level → Out Level A → Type 0
Kept fs (gives a fs') = length fs'.blocks ≡ length fs.blocks
Kept fs (refused e) = is_grammars (refusal e) ≡ false

module _ {A : Type 0} (s : Parser) where
  level_result-Same :
      (fs : Level) (prev : List Level) (r : Out Level A)
      → shape s.levels ≡ shape (fs ∷ prev)
      → Kept fs r
      → Ensures (λ _ s'. Same s s') (level_result s prev r)
  unfolding shape
  level_result-Same fs prev (gives a fs') e k = record {
    after = record { tokens = omega arith; calls = refl; opened = rw (e, k) refl };
    scanner = refl;
  }
  level_result-Same fs prev (refused x) e k = k

  at_first-Same :
      (m : Level → Out Level A) (levels : List Level)
      → ((fs : Level) → Kept fs (m fs))
      → shape s.levels ≡ shape levels
      → IsOpen (shape levels)
      → Ensures (λ _ s'. Same s s') (at_first m s levels)
  unfolding shape
  at_first-Same m [] h e o = absurd o
  at_first-Same m (fs ∷ prev) h e o = level_result-Same fs prev (m fs) e (h fs)

module _ {n : ℕ} {A : Type 0} where
  pub Still-at_level :
      (m : Level → Out Level A) → ((fs : Level) → Kept fs (m fs)) → Still n (at_level m)
  unfolding at_level
  Still-at_level m h = record { at = λ s r. at_first-Same s m s.levels h refl r.opened }
