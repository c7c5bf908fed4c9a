-- ===== src/Parser/Keeps/Tokens.antt =====
-- luaX_next and luaX_lookahead: how many tokens may be left.
use luaxx.Base.{
  ℕ, suc, ◌+◌, ◌≤◌, ◌≡◌, ◌≢◌, refl, List, [], ◌∷◌, true, false, length, arith, inl, inr, Bool-cases,
}
use luaxx.Object.{Strto}
use luaxx.Lexer
use luaxx.Lexer.{Token, tk_eos, tk_name, LexState, LexError, Result, head_of, char}
use luaxx.Lexer.Lex.{lex_loop, lex, is_eos, read_t, read_ahead, next_token, look_ahead}
use luaxx.Lexer.Ends.{lex_ends}
use luaxx.Parser.{Parser, lexical, weight, tokens_left, lex_result}
use luaxx.Parser.Keeps.{is_grammars, Ensures, After, Less}

-- What reading a token leaves, where `old` is the weight of the token that it replaces.
abbrev Shrinks : {A : Type 0} → ℕ → LexState → Result A → Type 0
Shrinks old ls (Lexer.ok a ls') = tokens_left ls' + old ≤ tokens_left ls
Shrinks old ls (Lexer.error e) = is_grammars (lexical e) ≡ false

weight_le : (t : Token) → weight t ≤ 1
unfolding weight
weight_le tk_eos = omega arith
weight_le _ = omega arith

is_grammars-lexical : (e : LexError) → e ≢ Lexer.endless → is_grammars (lexical e) ≡ false
unfolding is_grammars
is_grammars-lexical Lexer.endless h = absurd (h refl)
is_grammars-lexical e h = refl

is_eos-weight : (t : Token) → is_eos t ≡ true → weight t ≡ 0
unfolding weight
is_eos-weight tk_eos h = refl
is_eos-weight t h = absurd cc

abbrev Spends : ℕ → Result Token → Type 0
Spends n (Lexer.ok token ls) = length ls.text + weight token ≤ n
Spends n (Lexer.error e) = is_grammars (lexical e) ≡ false

module _ ⦃lib : Strto⦄ (point : ℕ) where
  -- At the end of the text there is no token left.
  lex_at_end :
      (ls : LexState)
      → ls.text ≡ []
      → lex point ls ≡ Lexer.ok tk_eos (record ls { buffer = []; text = [] })
  unfolding lex lex_loop
  lex_at_end ls e = rw e refl

  lex-Spends : (ls : LexState) → Spends (length ls.text) (lex point ls)
  unfolding weight
  lex-Spends ls = by_text ls.text refl
    where
      by_text : (text : List ℕ) → ls.text ≡ text → Spends (length ls.text) (lex point ls)
      by_text [] e = rw (lex_at_end ls e) (omega arith)
      by_text (c ∷ cs) e =
          let long : length ls.text ≡ suc (length cs) = rw e refl in
          elim (lex_ends point ls) [
            | inl (token, s, k, l) ↦
                let w = weight_le token in
                let fits : length s.text + weight token ≤ length ls.text = omega arith in rw k fits
            | inr (x, k, l) ↦ rw k (is_grammars-lexical x l)
          ]

  read_t-Shrinks :
      (ls : LexState) (r : Result Token)
      → is_eos ls.ahead ≡ true
      → Spends (length ls.text) r
      → Shrinks (weight ls.t) ls (read_t ls r)
  unfolding tokens_left
  read_t-Shrinks ls (Lexer.ok token s) h l = omega arith
  read_t-Shrinks ls (Lexer.error x) h l = l

  read_ahead-Shrinks :
      (ls : LexState) (r : Result Token)
      → Spends (length ls.text) r
      → Shrinks 0 ls (read_ahead ls r)
  unfolding tokens_left
  read_ahead-Shrinks ls (Lexer.ok token s) l = omega arith
  read_ahead-Shrinks ls (Lexer.error x) l = l

  pub next_token-Shrinks : (ls : LexState) → Shrinks (weight ls.t) ls (next_token point ls)
  unfolding next_token tokens_left weight
  next_token-Shrinks ls = elim (Bool-cases (is_eos ls.ahead)) [
    | inl e ↦ rw e (
        read_t-Shrinks ls (lex point (record ls { lastline = ls.linenumber })) e
          (lex-Spends (record ls { lastline = ls.linenumber })))
    | inr e ↦ rw e (omega arith)
  ]

  pub look_ahead-Shrinks : (ls : LexState) → Shrinks 0 ls (look_ahead point ls)
  unfolding look_ahead
  look_ahead-Shrinks ls = read_ahead-Shrinks ls (lex point ls) (lex-Spends ls)

pub lex_result-After :
    {A : Type 0} (s : Parser) (r : Result A)
    → Shrinks 0 s.ls r
    → Ensures (λ _ s'. After s s') (lex_result s r)
lex_result-After s (Lexer.ok a ls) h = record { tokens = omega arith; calls = refl; opened = refl }
lex_result-After s (Lexer.error x) h = h

pub lex_result-Less :
    {A : Type 0} (s : Parser) (r : Result A)
    → weight s.ls.t ≡ 1
    → Shrinks (weight s.ls.t) s.ls r
    → Ensures (λ _ s'. Less s s') (lex_result s r)
lex_result-Less s (Lexer.ok a ls) w h = record {
  after = record { tokens = omega arith; calls = refl; opened = refl };
  fewer = omega arith;
}
lex_result-Less s (Lexer.error x) w h = h

pub Shrinks-any :
    {A : Type 0} (old : ℕ) (ls : LexState) (r : Result A) → Shrinks old ls r → Shrinks 0 ls r
Shrinks-any old ls (Lexer.ok a ls') h = omega arith
Shrinks-any old ls (Lexer.error x) h = h
