-- ===== src/Parser/Keeps/Scanner.antt =====
-- The steps that read tokens: how many are left.
use luaxx.Parser.Keeps.Tokens.{
  lex_result-After, lex_result-Less, Shrinks-any, next_token-Shrinks, look_ahead-Shrinks,
}
use luaxx.Base.{ℕ, ◌≡◌, refl, [], Bool, true, false, ◌==◌, if◌then◌else◌, arith}
use luaxx.Object.{Strto}
use luaxx.Lexer.{Token, tk_eos, tk_name, char}
use luaxx.Lexer.Lex.{next_token, look_ahead}
use luaxx.Parser.{
  Parser, expected, expected_to_close, Parse, pure, throw, ◌>>=◌, at_token, weight, token_number,
  is_token, scan, next, peek, test_next, check, check_next, check_match, name_then, str_checkname,
  Step,
}
use luaxx.Parser.Keeps.{
  is_grammars, Ensures, Ready, Less, Safe, Eats, Ensures-bind, Ensures-weaken, Safe-pure,
  Safe-throw, Safe-reads, Safe-if, Safe-at_token, Safe-Eats, Safe-bind, Eats-at_token, Eats-throw,
  Eats-first, Less-After, Ready-After,
}
use luaxx.Parser.Keeps.Loops.{Steps, Stepped, StepsAt, StepsAt-Eats, StepsAt-Steps, Stepped-Less}

-- a token that is not the end
abbrev pub IsMore : Token → Type 0
IsMore t = weight t ≡ 1

module _ ⦃lib : Strto⦄ (point : ℕ) {n : ℕ} where
  pub Safe-next : Safe n (next point)
  unfolding next scan
  Safe-next = record {
    at = λ s r.
        lex_result-After s (next_token point s.ls) (
          Shrinks-any (weight s.ls.t) s.ls (next_token point s.ls) (next_token-Shrinks point s.ls));
  }

  pub Eats-next : (t : Token) → IsMore t → Eats n t (next point)
  unfolding next scan
  Eats-next t w = record {
    at =
        λ s r e. lex_result-Less s (next_token point s.ls) (rw e w) (next_token-Shrinks point s.ls);
  }

  pub Safe-peek : Safe n (peek point)
  unfolding peek scan
  Safe-peek =
      Safe-bind _ _
        (record {
          at = λ s r. lex_result-After s (look_ahead point s.ls) (look_ahead-Shrinks point s.ls);
        })
        λ _. Safe-reads _

pub IsMore-char : (c : ℕ) → IsMore (char c)
unfolding weight
IsMore-char c = refl

-- a token that the end is not taken for
abbrev pub IsMark : Token → Type 0
IsMark c = is_token c tk_eos ≡ false

is_token-IsMore : (c t : Token) → IsMark c → is_token c t ≡ true → IsMore t
unfolding weight
is_token-IsMore c tk_eos h e = absurd cc
is_token-IsMore c _ h e = refl

pub IsMark-char : (c : ℕ) → (c == 287) ≡ false → IsMark (char c)
unfolding token_number
IsMark-char c h = ground (arith, h)

-- Where the token is `c`, the loop may go on.
pub StepsAt-token :
    {n : ℕ} {A B : Type 0} (c t : Token) (m k : Parse (Step A B))
    → IsMark c
    → (IsMore t → Eats n t m)
    → Steps n k
    → StepsAt n t (if is_token c t then m else k)
StepsAt-token {n} c t m k mark hm hk = by_test (is_token c t) (is_token-IsMore c t mark)
  where
    by_test : (b : Bool) → (b ≡ true → IsMore t) → StepsAt n t (if b then m else k)
    by_test true f = StepsAt-Eats m (hm (f refl))
    by_test false f = StepsAt-Steps k hk

module _ ⦃lib : Strto⦄ (point : ℕ) {n : ℕ} where
  pub Safe-test_next : (c : Token) → Safe n (test_next point c)
  unfolding test_next
  Safe-test_next c =
      Safe-at_token _
        λ t. Safe-if _ _ _ (Safe-bind _ _ (Safe-next point) λ _. Safe-pure true) (Safe-pure false)

  pub Safe-check : (c : Token) → Safe n (check point c)
  unfolding check is_grammars
  Safe-check c = Safe-at_token _ λ t. Safe-if _ _ _ (Safe-pure tt) (Safe-throw (expected c) refl)

  pub Safe-check_next : (c : Token) → Safe n (check_next point c)
  unfolding check_next
  Safe-check_next c = Safe-bind _ _ (Safe-check c) λ _. Safe-next point

  pub Safe-check_match : (what who : Token) (line : ℕ) → Safe n (check_match point what who line)
  unfolding check_match is_grammars
  Safe-check_match what who line = Safe-bind _ _ (Safe-test_next what) λ found.
      Safe-bind _ _ (Safe-reads _) λ now. Safe-if found _ _ (Safe-pure tt) (
        Safe-if (line == now) _ _ (Safe-throw (expected what) refl)
          (Safe-throw (expected_to_close what who line) refl))

  pub Eats-check_next : (c t : Token) → IsMark c → Eats n t (check_next point c)
  unfolding check_next check at_token ◌>>=◌ pure throw is_grammars
  Eats-check_next c t mark = record { at = λ s r e. by_test s r (is_token c s.ls.t) refl }
    where
      by_test :
          (s : Parser)
          → Ready n s
          → (b : Bool) → is_token c s.ls.t ≡ b
          → Ensures (λ _ s'. Less s s') (check_next point c s)
      by_test s r true h =
          rw h ((Eats-next point s.ls.t (is_token-IsMore c s.ls.t mark h)).at s r refl)
      by_test s r false h = rw h refl

  pub Eats-str_checkname : (t : Token) → Eats n t (str_checkname point)
  unfolding str_checkname is_grammars weight
  Eats-str_checkname t = Eats-at_token _ t named
    where
      named : (t' : Token) → Eats n t' (name_then point t')
      named (tk_name s) = Eats-first _ _ (Eats-next point (tk_name s) refl) λ _. Safe-pure s
      named t' = Eats-throw (expected (tk_name [])) t' refl

  pub Safe-str_checkname : Safe n (str_checkname point)
  Safe-str_checkname = Safe-Eats _ Eats-str_checkname

  module _ {A B : Type 0} (c : Token) (yes no : Parse (Step A B)) where
    -- Where the token is found, the loop may go on.
    pub Steps-test_next :
        IsMark c
        → Safe n yes
        → Steps n no
        → Steps n (test_next point c >>= λ b. if b then yes else no)
    unfolding test_next at_token ◌>>=◌ pure
    Steps-test_next mark hy hn = record { at = λ s r. by_test s r (is_token c s.ls.t) refl }
      where
        on_yes : (s : Parser) → Ready n s → (s' : Parser) → Less s s' → Ensures (Stepped s) (yes s')
        on_yes s r s' k =
            Ensures-weaken (yes s') (λ x s'' h. Stepped-Less s x s'' (Less-After s s' s'' k h))
              (hy.at s' (Ready-After s s' r k.after))

        by_test :
            (s : Parser)
            → Ready n s
            → (b : Bool) → is_token c s.ls.t ≡ b
            → Ensures (Stepped s) ((test_next point c >>= λ b'. if b' then yes else no) s)
        by_test s r true h = rw h (
            Ensures-bind (λ b s'. (b ≡ true) × Less s s') _ _ _
              (Ensures-bind (λ _ s'. Less s s') _ (next point s) _
                ((Eats-next point s.ls.t (is_token-IsMore c s.ls.t mark h)).at s r refl)
                λ _ s' k. (refl, k))
              λ b s' k. let (found, less) = k in rw found (on_yes s r s' less))
        by_test s r false h = rw h (hn.at s r)
