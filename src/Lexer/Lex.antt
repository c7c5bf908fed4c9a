-- ===== src/Lexer/Lex.antt =====
-- llex.c: one token, and the token stream with one token of lookahead.
use luaxx.Base.{
  ℕ, zero, suc, [], ◌∷◌, Option, none, some, Bool, true, false, not, ◌||◌, ◌==◌, if◌then◌else◌,
  is_digit, is_alpha, is_alnum, is_space,
}
use luaxx.Chunk.{Str}
use luaxx.Object.{Strto}
use luaxx.Lexer.{
  Token, char, tk_concat, tk_dots, tk_eq, tk_ge, tk_le, tk_ne, tk_number, tk_name, tk_string,
  tk_eos, reserved_words, reserved_in, invalid_delimiter, endless, LexState, Result, ok, error, Lex,
  pure, throw, ◌>>=◌, ◌>>◌, get_state, current, next, save_and_next, reset_buffer, passes,
  is_newline, inc_line_number,
}
use luaxx.Lexer.Scan.{
  fuel, check_next, save_while, read_numeral, Sep, skip_sep, read_long_string, read_string,
}

-- `next` while the current character passes the test
unfoldable pub skip_while : (ℕ → Bool) → ℕ → Lex (Unit {0})
skip_while p zero = throw endless
skip_while p (suc n) = do c ← current; if passes p c then (do next; skip_while p n) else pure tt

unfoldable pub short_comment : Lex (Unit {0})
short_comment = do ls ← get_state; skip_while (λ c. not (is_newline c)) (fuel ls)

abbrev pub after_sep : Sep → Lex (Unit {0})
after_sep (true, sep) = do read_long_string false sep; reset_buffer
after_sep (false, _) = short_comment

-- A comment, behind its `--`.
unfoldable pub comment : Lex (Unit {0})
comment = do
  c ← current
  if passes (λ x. x == b'[') c
      then (do sep ← skip_sep; reset_buffer; after_sep sep)
      else short_comment

abbrev pub after_bracket : Sep → Lex Token
after_bracket (true, sep) = do s ← read_long_string true sep; pure (tk_string s)
after_bracket (false, zero) = pure (char b'[')
after_bracket (false, suc n) = throw invalid_delimiter

unfoldable pub bracket : Lex Token
bracket = do sep ← skip_sep; after_bracket sep

-- `c` alone, or `pair` where a `=` follows
unfoldable pub with_equals : ℕ → Token → Lex Token
with_equals c pair = do
  next
  d ← current
  if passes (λ x. x == b'=') d then (do next; pure pair) else pure (char c)

abbrev word_token : Str → Option Token → Token
word_token s none = tk_name s
word_token s (some token) = token

unfoldable pub identifier : Lex Token
identifier = do
  save_and_next
  a ← get_state
  save_while (λ c. is_alnum c || (c == b'_')) (fuel a)
  b ← get_state
  pure (word_token b.buffer (reserved_in reserved_words b.buffer))

abbrev one_char : ℕ → Lex Token
one_char c = do next; pure (char c)

abbrev pub is_eos : Token → Bool
is_eos tk_eos = true
is_eos _ = false

-- llex gives the token; it does not change the one that is not read.
abbrev pub read_t : LexState → Result Token → Result (Unit {0})
read_t ls (ok token s) = ok tt (record s { t = token; ahead = ls.ahead })
read_t ls (error e) = error e

abbrev pub read_ahead : LexState → Result Token → Result (Unit {0})
read_ahead ls (ok token s) = ok tt (record s { t = ls.t; ahead = token })
read_ahead ls (error e) = error e

abbrev on_line : LexState → LexState
on_line ls = record ls { lastline = ls.linenumber }

module _ ⦃lib : Strto⦄ (point : ℕ) where
  unfoldable pub numeral : Lex Token
  numeral = do r ← read_numeral point; pure (tk_number r)

  unfoldable pub dots : Lex Token
  dots = do
    save_and_next
    two ← check_next (b'.' ∷ [])
    if two
        then (do three ← check_next (b'.' ∷ []); pure (if three then tk_dots else tk_concat))
        else (do c ← current; if passes is_digit c then numeral else pure (char b'.'))

  -- The tokens that begin with a character that is no newline, no space and no `-`.
  unfoldable pub token_at : ℕ → Lex Token
  token_at c =
      if c == b'['
      then bracket
      else (if c == b'='
          then with_equals c tk_eq
          else (if c == b'<'
              then with_equals c tk_le
              else (if c == b'>'
                  then with_equals c tk_ge
                  else (if c == b'~'
                      then with_equals c tk_ne
                      else (if (c == b'"') || (c == 39)
                          then (do s ← read_string c; pure (tk_string s))
                          else (if c == b'.'
                              then dots
                              else (if is_digit c
                                  then numeral
                                  else (if is_alpha c || (c == b'_')
                                      then identifier
                                      else one_char c))))))))

  -- llex
  unfoldable pub lex_loop : ℕ → Lex Token
  lex_loop zero = throw endless
  lex_loop (suc n) = do
    c ← current
    elim c [
      | none ↦ pure tk_eos
      | some b ↦
          if is_newline b
          then (do inc_line_number; lex_loop n)
          else (if b == b'-'
              then (do
                next
                d ← current
                if passes (λ x. x == b'-') d
                    then (do next; comment; lex_loop n)
                    else pure (char b'-'))
              else (if is_space b then (do next; lex_loop n) else token_at b))
    ]

  unfoldable pub lex : Lex Token
  lex = do reset_buffer; ls ← get_state; lex_loop (fuel ls)

  -- luaX_next
  unfoldable pub next_token : Lex (Unit {0})
  next_token ls =
      let token = lex (on_line ls) in
      if is_eos ls.ahead
      then read_t ls token
      else ok tt (record ls { lastline = ls.linenumber; t = ls.ahead; ahead = tk_eos })

  -- luaX_lookahead
  unfoldable pub look_ahead : Lex (Unit {0})
  look_ahead ls = read_ahead ls (lex ls)
