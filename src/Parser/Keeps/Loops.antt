-- ===== src/Parser/Keeps/Loops.antt =====
-- Loops of the grammar: every round that is followed by another takes a token.
use luaxx.Parser.Keeps.{
  Ensures, Ready, After, Less, Safe, Eats, After-refl, After-trans, After-Less, Ready-After,
  Ensures-weaken, Ensures-bind,
}
use luaxx.Base.{ℕ, zero, suc, ◌<◌, ◌≡◌, refl, Bool, true, false, if◌then◌else◌, arith}
use luaxx.Lexer.{Token}
use luaxx.Parser.{
  Parser, Parse, pure, ◌>>=◌, at_token, Step, again, stop, iterate_rest, iterate_for, iterate,
  tokens_left,
}

abbrev pub Stepped : {A B : Type 0} → Parser → Step A B → Parser → Type 0
Stepped s (again a) s' = Less s s'
Stepped s (stop b) s' = After s s'

-- a loop's step, which takes a token if the loop goes on
pub record Steps (n : ℕ) {A B : Type 0} (m : Parse (Step A B)) : Type 0 where
  pub at : (s : Parser) → Ready n s → Ensures (Stepped s) (m s)

pub record StepsAt (n : ℕ) (t : Token) {A B : Type 0} (m : Parse (Step A B)) : Type 0 where
  pub at : (s : Parser) → Ready n s → s.ls.t ≡ t → Ensures (Stepped s) (m s)

module _ {A B : Type 0} where
  pub Stepped-weaken :
      (s s' : Parser) (r : Step A B) (s'' : Parser)
      → After s s'
      → Stepped s' r s''
      → Stepped s r s''
  Stepped-weaken s s' (again a) s'' h k = After-Less s s' s'' h k
  Stepped-weaken s s' (stop b) s'' h k = After-trans s s' s'' h k

  pub Stepped-Less : (s : Parser) (r : Step A B) (s' : Parser) → Less s s' → Stepped s r s'
  Stepped-Less s (again a) s' k = k
  Stepped-Less s (stop b) s' k = k.after

module _ {n : ℕ} {A B : Type 0} where
  pub Steps-stop : (b : B) → Steps n {A = A} (pure (stop b))
  unfolding pure
  Steps-stop b = record { at = λ s r. After-refl s }

  pub StepsAt-Steps : {t : Token} (m : Parse (Step A B)) → Steps n m → StepsAt n t m
  StepsAt-Steps m h = record { at = λ s r e. h.at s r }

  pub StepsAt-Eats : {t : Token} (m : Parse (Step A B)) → Eats n t m → StepsAt n t m
  StepsAt-Eats m h = record {
    at = λ s r e. Ensures-weaken (m s) (λ x s' k. Stepped-Less s x s' k) (h.at s r e);
  }

  pub Steps-Eats : (m : Parse (Step A B)) → ((t : Token) → Eats n t m) → Steps n m
  Steps-Eats m h = record {
    at = λ s r. Ensures-weaken (m s) (λ x s' k. Stepped-Less s x s' k) ((h s.ls.t).at s r refl);
  }

  pub Steps-at_token :
      (f : Token → Parse (Step A B)) → ((t : Token) → StepsAt n t (f t)) → Steps n (at_token f)
  unfolding at_token
  Steps-at_token f h = record { at = λ s r. (h s.ls.t).at s r refl }

  pub Steps-if :
      (b : Bool) (m k : Parse (Step A B)) → Steps n m → Steps n k → Steps n (if b then m else k)
  Steps-if true m k hm hk = hm
  Steps-if false m k hm hk = hk

  pub Steps-bind :
      {C : Type 0} (m : Parse C) (g : C → Parse (Step A B))
      → Safe n m
      → ((c : C) → Steps n (g c))
      → Steps n (m >>= g)
  unfolding ◌>>=◌
  Steps-bind m g hm hg = record {
    at = λ s r. Ensures-bind _ _ (m s) g (hm.at s r) λ c s' k.
        Ensures-weaken (g c s') (λ x s'' h. Stepped-weaken s s' x s'' k h)
          ((hg c).at s' (Ready-After s s' r k));
  }

  -- More rounds than there are tokens left are enough.
  iterate_for-After :
      (fuel : ℕ) (body : A → Parse (Step A B)) (a : A) (s : Parser)
      → ((x : A) → Steps n (body x))
      → Ready n s
      → tokens_left s.ls < fuel
      → Ensures (λ _ s'. After s s') (iterate_for fuel body a s)
  unfolding iterate_for ◌>>=◌ pure
  iterate_for-After zero body a s h r l = absurd (omega arith)
  iterate_for-After (suc fuel) body a s h r l = Ensures-bind _ _ (body a s) _ ((h a).at s r) (
      rest λ a' s' k.
        iterate_for-After fuel body a' s' h (Ready-After s s' r k.after)
          (let f = k.fewer in omega arith))
    where
      rest :
          ((a' : A) (s' : Parser)
            → Less s s'
            → Ensures (λ _ s''. After s' s'') (iterate_for fuel body a' s'))
          → (x : Step A B) (s' : Parser) → Stepped s x s'
          → Ensures (λ _ s''. After s s'') (iterate_rest (iterate_for fuel body) x s')
      rest ih (again a') s' k =
          Ensures-weaken (iterate_for fuel body a' s') (λ b s''. After-trans s s' s'' k.after)
            (ih a' s' k)
      rest ih (stop b) s' k = k

  pub Safe-iterate :
      (body : A → Parse (Step A B)) (a : A) → ((x : A) → Steps n (body x)) → Safe n (iterate body a)
  unfolding iterate
  Safe-iterate body a h = record {
    at = λ s r. iterate_for-After (suc (tokens_left s.ls)) body a s h r (omega arith);
  }
