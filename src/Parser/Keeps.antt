-- ===== src/Parser/Keeps.antt =====
-- What a step of the parser keeps, one rule for each way to build a step: no more tokens are left
-- than before, `nCcalls` and the functions and blocks that are open are as before, and an error
-- is none of the failures of the model's own that the grammar could cause.
pub mod Loops
pub mod Kept
pub mod Tokens
pub mod Scanner
pub mod Names
pub mod Depth
pub mod Operands
pub mod Levels
pub mod Nesting
pub mod Functions
pub mod Exprs
pub mod Statements
pub mod Whole
use luaxx.Base.{
  ℕ, zero, suc, ◌+◌, ◌≤◌, ◌<◌, ◌≡◌, refl, ◌∙◌, List, [], ◌∷◌, Bool, true, false, ◌||◌, Bool-cases,
  inl, inr, ◌⊎◌, length, if◌then◌else◌, arith,
}
use luaxx.Lexer
use luaxx.Lexer.{Token, LexState}
use luaxx.Code.State as Generator
use luaxx.Code.State.{Cmd}
use luaxx.Scope.{Level, no_block, generator, Out, gives, refused, generate}
use luaxx.Parser.{
  Parser, ParseError, lexical, refusal, endless, no_function, Outcome, ok, fail, Parse, pure, throw,
  and_then, ◌>>=◌, reads, check_condition, at_token, Step, again, stop, iterate_rest, iterate_for,
  iterate, level_result, at_first, tokens_left, at_level, emit, max_calls,
}

-- The failures of the model's own, in the grammar, the scanner and the scopes: a loop or a nesting
-- that is out of fuel, and a function or a block that is not there.
unfoldable pub is_grammars : ParseError → Bool
is_grammars endless = true
is_grammars no_function = true
is_grammars (lexical Lexer.endless) = true
is_grammars (refusal no_block) = true
is_grammars e = false

-- The failures of the model's own in the code generator: walking a list of jumps, it does not come
-- to an end, or reads outside of the code.
unfoldable pub is_generators : ParseError → Bool
is_generators (refusal (generator Generator.endless)) = true
is_generators (refusal (generator Generator.out_of_bounds)) = true
is_generators e = false

-- all failures of the model's own: every other error is one that the program throws
abbrev pub is_own : ParseError → Bool
is_own e = is_grammars e || is_generators e

-- Where no failure is the grammar's, the program throws the error or the generator fails.
pub thrown_or_generators :
    (e : ParseError) → is_grammars e ≡ false → (is_own e ≡ false) ⊎ (is_generators e ≡ true)
thrown_or_generators e h = elim (Bool-cases (is_generators e)) [
  | inl g ↦ inr g
  | inr g ↦ inl (rw (h, g) refl)
]

abbrev pub Ensures : {A : Type 0} → (A → Parser → Type 0) → Outcome A → Type 0
Ensures post (ok a s) = post a s
Ensures post (fail e) = is_grammars e ≡ false

-- the number of blocks that are open in each function
unfoldable pub shape : List Level → List ℕ
shape [] = []
shape (fs ∷ prev) = length fs.blocks ∷ shape prev

abbrev pub IsOpen : List ℕ → Type 0
IsOpen [] = ⊥
IsOpen (n ∷ ns) = Unit

-- A function is open, and the grammar may go `n` levels deeper.
pub record Ready (n : ℕ) (s : Parser) : Type 0 where
  pub within : s.calls ≤ max_calls
  pub deep : max_calls < n + s.calls
  pub opened : IsOpen (shape s.levels)

pub record After (s s' : Parser) : Type 0 where
  pub tokens : tokens_left s'.ls ≤ tokens_left s.ls
  pub calls : s'.calls ≡ s.calls
  pub opened : shape s'.levels ≡ shape s.levels

pub record Less (s s' : Parser) : Type 0 where
  pub after : After s s'
  pub fewer : tokens_left s'.ls < tokens_left s.ls

pub record Same (s s' : Parser) : Type 0 where
  pub after : After s s'
  pub scanner : s'.ls ≡ s.ls

pub Ready-After : {n : ℕ} (s s' : Parser) → Ready n s → After s s' → Ready n s'
Ready-After s s' r a = record {
  within = rw a.calls r.within;
  deep = rw a.calls r.deep;
  opened = rw a.opened r.opened;
}

pub After-refl : (s : Parser) → After s s
After-refl s = record { tokens = omega arith; calls = refl; opened = refl }

pub After-trans : (s s' s'' : Parser) → After s s' → After s' s'' → After s s''
After-trans s s' s'' a b = record {
  tokens = let h = a.tokens in let k = b.tokens in omega arith;
  calls = b.calls ∙ a.calls;
  opened = b.opened ∙ a.opened;
}

pub Less-After : (s s' s'' : Parser) → Less s s' → After s' s'' → Less s s''
Less-After s s' s'' a b = record {
  after = After-trans s s' s'' a.after b;
  fewer = let h = a.fewer in let k = b.tokens in omega arith;
}

pub After-Less : (s s' s'' : Parser) → After s s' → Less s' s'' → Less s s''
After-Less s s' s'' a b = record {
  after = After-trans s s' s'' a b.after;
  fewer = let h = b.fewer in let k = a.tokens in omega arith;
}

-- the step keeps all that, and may take tokens
pub record Safe (n : ℕ) {A : Type 0} (m : Parse A) : Type 0 where
  pub at : (s : Parser) → Ready n s → Ensures (λ _ s'. After s s') (m s)

-- the step takes no token
pub record Still (n : ℕ) {A : Type 0} (m : Parse A) : Type 0 where
  pub at : (s : Parser) → Ready n s → Ensures (λ _ s'. Same s s') (m s)

-- at the token `t` the step takes one
pub record Eats (n : ℕ) (t : Token) {A : Type 0} (m : Parse A) : Type 0 where
  pub at : (s : Parser) → Ready n s → s.ls.t ≡ t → Ensures (λ _ s'. Less s s') (m s)

pub Ensures-weaken :
    {A : Type 0} {P Q : A → Parser → Type 0} (r : Outcome A)
    → ((a : A) (s : Parser) → P a s → Q a s)
    → Ensures P r
    → Ensures Q r
Ensures-weaken (ok a s) f h = f a s h
Ensures-weaken (fail e) f h = h

pub Ensures-bind :
    {A B : Type 0} (P : A → Parser → Type 0) (Q : B → Parser → Type 0) (r : Outcome A)
    (g : A → Parse B)
    → Ensures P r
    → ((a : A) (s : Parser) → P a s → Ensures Q (g a s))
    → Ensures Q (and_then r g)
Ensures-bind P Q (ok a s) g h k = k a s h
Ensures-bind P Q (fail e) g h k = h

module _ {n : ℕ} {A : Type 0} where
  pub Safe-pure : (a : A) → Safe n (pure a)
  unfolding pure
  Safe-pure a = record { at = λ s r. After-refl s }

  pub Still-pure : (a : A) → Still n (pure a)
  unfolding pure
  Still-pure a = record { at = λ s r. record { after = After-refl s; scanner = refl } }

  pub Safe-throw : (e : ParseError) → is_grammars e ≡ false → Safe n (throw {A = A} e)
  unfolding throw
  Safe-throw e h = record { at = λ s r. h }

  pub Safe-reads : (f : Parser → A) → Safe n (reads f)
  unfolding reads
  Safe-reads f = record { at = λ s r. After-refl s }

  pub Still-reads : (f : Parser → A) → Still n (reads f)
  unfolding reads
  Still-reads f = record { at = λ s r. record { after = After-refl s; scanner = refl } }

  pub Safe-if : (b : Bool) (m k : Parse A) → Safe n m → Safe n k → Safe n (if b then m else k)
  Safe-if true m k hm hk = hm
  Safe-if false m k hm hk = hk

  pub Safe-Still : (m : Parse A) → Still n m → Safe n m
  Safe-Still m h = record { at = λ s r. Ensures-weaken (m s) (λ a s' k. k.after) (h.at s r) }

  pub Safe-Eats : (m : Parse A) → ((t : Token) → Eats n t m) → Safe n m
  Safe-Eats m h = record {
    at = λ s r. Ensures-weaken (m s) (λ a s' k. k.after) ((h s.ls.t).at s r refl);
  }

  pub Safe-at_token : (f : Token → Parse A) → ((t : Token) → Safe n (f t)) → Safe n (at_token f)
  unfolding at_token
  Safe-at_token f h = record { at = λ s r. (h s.ls.t).at s r }

  pub Eats-at_token :
      (f : Token → Parse A) (t : Token) → ((t' : Token) → Eats n t' (f t')) → Eats n t (at_token f)
  unfolding at_token
  Eats-at_token f t h = record { at = λ s r e. (h s.ls.t).at s r refl }

  pub Eats-throw : (e : ParseError) (t : Token) → is_grammars e ≡ false → Eats n t (throw {A = A} e)
  unfolding throw
  Eats-throw e t h = record { at = λ s r _. h }

  pub Eats-if :
      (b : Bool) (t : Token) (m k : Parse A)
      → Eats n t m
      → Eats n t k
      → Eats n t (if b then m else k)
  Eats-if true t m k hm hk = hm
  Eats-if false t m k hm hk = hk

pub Safe-check_condition :
    {n : ℕ} (c : Bool) (e : ParseError) → is_grammars e ≡ false → Safe n (check_condition c e)
unfolding check_condition pure throw
Safe-check_condition true e h = record { at = λ s r. After-refl s }
Safe-check_condition false e h = record { at = λ s r. h }

pub Still-check_condition :
    {n : ℕ} (c : Bool) (e : ParseError) → is_grammars e ≡ false → Still n (check_condition c e)
unfolding check_condition pure throw
Still-check_condition true e h = record {
  at = λ s r. record { after = After-refl s; scanner = refl };
}
Still-check_condition false e h = record { at = λ s r. h }

module _ {n : ℕ} {A B : Type 0} (m : Parse A) (g : A → Parse B) where
  pub Safe-bind : Safe n m → ((a : A) → Safe n (g a)) → Safe n (m >>= g)
  unfolding ◌>>=◌
  Safe-bind hm hg = record {
    at = λ s r. Ensures-bind _ _ (m s) g (hm.at s r) λ a s' k.
        Ensures-weaken (g a s') (λ b s''. After-trans s s' s'' k)
          ((hg a).at s' (Ready-After s s' r k));
  }

  pub Still-bind : Still n m → ((a : A) → Still n (g a)) → Still n (m >>= g)
  unfolding ◌>>=◌
  Still-bind hm hg = record {
    at = λ s r. Ensures-bind _ _ (m s) g (hm.at s r) λ a s' k.
        Ensures-weaken (g a s')
          (λ b s'' j. record {
            after = After-trans s s' s'' k.after j.after;
            scanner = j.scanner ∙ k.scanner;
          })
          ((hg a).at s' (Ready-After s s' r k.after));
  }

  -- the token is taken first
  pub Eats-first : {t : Token} → Eats n t m → ((a : A) → Safe n (g a)) → Eats n t (m >>= g)
  unfolding ◌>>=◌
  Eats-first hm hg = record {
    at = λ s r e. Ensures-bind _ _ (m s) g (hm.at s r e) λ a s' k.
        Ensures-weaken (g a s') (λ b s''. Less-After s s' s'' k)
          ((hg a).at s' (Ready-After s s' r k.after));
  }

  -- the token is taken behind a step that takes none
  pub Eats-behind : {t : Token} → Still n m → ((a : A) → Eats n t (g a)) → Eats n t (m >>= g)
  unfolding ◌>>=◌
  Eats-behind hm hg = record {
    at = λ s r e. Ensures-bind _ _ (m s) g (hm.at s r) λ a s' k.
        Ensures-weaken (g a s') (λ b s''. After-Less s s' s'' k.after)
          ((hg a).at s' (Ready-After s s' r k.after) (rw k.scanner e));
  }

  -- a token is taken late, whatever it is
  pub Eats-late :
      {t : Token} → Safe n m → ((a : A) (t' : Token) → Eats n t' (g a)) → Eats n t (m >>= g)
  unfolding ◌>>=◌
  Eats-late hm hg = record {
    at = λ s r e. Ensures-bind _ _ (m s) g (hm.at s r) λ a s' k.
        Ensures-weaken (g a s') (λ b s''. After-Less s s' s'' k)
          ((hg a s'.ls.t).at s' (Ready-After s s' r k) refl);
  }
