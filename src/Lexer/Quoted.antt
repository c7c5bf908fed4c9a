-- ===== src/Lexer/Quoted.antt =====
-- `read_string` on what `string.format("%q", s)` gives.
use luaxx.Base.{
  ℕ, zero, suc, ◌+◌, ◌-◌, ◌≤◌, ◌<◌, ◌≡◌, refl, ap, ◌∙◌, [], ◌∷◌, ◌++◌, append_assoc, append-nil,
  false, not, ◌&&◌, length, take, leb, ◌==◌, if◌then◌else◌, arith, Bool-cases, inl, inr, ◌⊎◌, ==→eq,
  length-append, take-append_length,
}
use luaxx.Chunk.{Str}
use luaxx.Strings.Quote.{quote_byte, quote_bytes, add_quoted}
use luaxx.Object.{Strto}
use luaxx.Lexer.{
  Token, tk_string, LexState, ok, Lex, pure, and_then, ◌>>=◌, head_of, passes, is_newline,
  inc_line_number, max_int,
}
use luaxx.Lexer.Scan.{fuel, more_digits, decimal_escape, escape, string_loop, read_string}
use luaxx.Lexer.Lex.{token_at, lex_loop, lex}

-- the number of line breaks
abbrev pub newlines : Str → ℕ
newlines [] = 0
newlines (c ∷ s) = (if c == b'\n' then 1 else 0) + newlines s

-- The text of the string goes on with no carriage return.
no_return :
    (s rest : Str)
    → passes (λ d. is_newline d && not (d == b'\n')) (head_of (quote_bytes s ++ (b'"' ∷ rest)))
      ≡ false
unfolding quote_bytes
no_return [] rest = refl
no_return (c ∷ s) rest = ground arith

-- `ls` after the byte `c` was read
abbrev read_on : LexState → ℕ → Str → LexState
read_on ls c t = record ls {
  text = t;
  buffer = ls.buffer ++ (c ∷ []);
  linenumber = if c == b'\n' then ls.linenumber + 1 else ls.linenumber;
}

module _ (m : ℕ) (ls : LexState) (t : Str) where
  reads_escaped :
      (c : ℕ)
      → (c ≡ b'"') ⊎ (c ≡ b'\\')
      → ls.text ≡ b'\\' ∷ c ∷ t
      → string_loop (suc m) b'"' ls ≡ string_loop m b'"' (read_on ls c t)
  unfolding string_loop escape
  reads_escaped c (inl q) e = rw (e, q)
  reads_escaped c (inr q) e = rw (e, q)

  reads_newline :
      passes (λ d. is_newline d && not (d == b'\n')) (head_of t) ≡ false
      → ls.linenumber + 1 < max_int
      → ls.text ≡ b'\\' ∷ b'\n' ∷ t
      → string_loop (suc m) b'"' ls ≡ string_loop m b'"' (read_on ls b'\n' t)
  unfolding string_loop escape inc_line_number
  reads_newline h small e =
      let few : leb max_int (ls.linenumber + 1) ≡ false = ground arith in rw (e, h, few)

  reads_return :
      ls.text ≡ b'\\' ∷ b'r' ∷ t
      → string_loop (suc m) b'"' ls ≡ string_loop m b'"' (read_on ls b'\r' t)
  unfolding string_loop escape
  reads_return e = rw e

  reads_zero :
      ls.text ≡ b'\\' ∷ b'0' ∷ b'0' ∷ b'0' ∷ t
      → string_loop (suc m) b'"' ls ≡ string_loop m b'"' (read_on ls 0 t)
  unfolding string_loop escape decimal_escape more_digits
  reads_zero e = rw e

  reads_plain :
      (c : ℕ)
      → (c == b'"') ≡ false
      → (c == b'\\') ≡ false
      → (c == b'\n') ≡ false
      → (c == b'\r') ≡ false
      → ls.text ≡ c ∷ t
      → string_loop (suc m) b'"' ls ≡ string_loop m b'"' (read_on ls c t)
  unfolding string_loop
  reads_plain c e1 e2 e3 e4 e = rw (e, e1, e2, e3, e4)

  string_loop-quote_byte :
      (c : ℕ)
      → passes (λ d. is_newline d && not (d == b'\n')) (head_of t) ≡ false
      → ls.linenumber + (if c == b'\n' then 1 else 0) < max_int
      → ls.text ≡ quote_byte c ++ t
      → string_loop (suc m) b'"' ls ≡ string_loop m b'"' (read_on ls c t)
  string_loop-quote_byte c h small e = elim (Bool-cases (c == b'"')) [
    | inl q ↦ reads_escaped c (inl (==→eq c b'"' q)) (rw q at e)
    | inr q ↦ elim (Bool-cases (c == b'\\')) [
      | inl b ↦ reads_escaped c (inr (==→eq c b'\\' b)) (rw (q, b) at e)
      | inr b ↦ elim (Bool-cases (c == b'\n')) [
        | inl n ↦ rw (==→eq c b'\n' n) (reads_newline h (rw n at small) (rw (==→eq c b'\n' n) at e))
        | inr n ↦ elim (Bool-cases (c == b'\r')) [
          | inl r ↦ rw (==→eq c b'\r' r) (reads_return (rw (==→eq c b'\r' r) at e))
          | inr r ↦ elim (Bool-cases (c == 0)) [
            | inl z ↦ rw (==→eq c 0 z) (reads_zero (rw (==→eq c 0 z) at e))
            | inr z ↦ reads_plain c q b n r (rw (q, b, n, r, z) at e)
          ]
        ]
      ]
    ]
  ]

-- `ls` after the bytes `s` were read
abbrev read_all : LexState → Str → Str → LexState
read_all ls s t = record ls {
  text = t;
  buffer = ls.buffer ++ s;
  linenumber = ls.linenumber + newlines s;
}

string_loop_end :
    (m : ℕ) (ls : LexState) (rest : Str)
    → ls.text ≡ b'"' ∷ rest
    → string_loop (suc m) b'"' ls ≡ ok tt (read_all ls [] (b'"' ∷ rest))
unfolding string_loop
string_loop_end m ls rest e =
    let n0 : ls.linenumber + 0 ≡ ls.linenumber = omega arith in rw (n0, append-nil ls.buffer, e)

length-quote_bytes : (s t : Str) → length s ≤ length (quote_bytes s ++ t)
unfolding quote_bytes
length-quote_bytes [] t = omega arith
length-quote_bytes (c ∷ s) t =
    let more : (u : Str) → suc (length u) ≤ length (quote_byte c ++ u) = λ u. ground arith in
    rw (append_assoc (quote_byte c) (quote_bytes s) t)
      (omega (arith, more (quote_bytes s ++ t), length-quote_bytes s t))

-- the text between the quotes
inner : (s : Str) → take (suc (length (s ++ (b'"' ∷ []))) - 2) (s ++ (b'"' ∷ [])) ≡ s
inner s =
    let n : suc (length (s ++ (b'"' ∷ []))) - 2 ≡ length s =
      omega (arith, length-append s (b'"' ∷ [])) in
    rw n (take-append_length s (b'"' ∷ []))

string_loop-quote_bytes :
    (s rest : Str) (m : ℕ) (ls : LexState)
    → length s < m
    → ls.linenumber + newlines s < max_int
    → ls.text ≡ quote_bytes s ++ (b'"' ∷ rest)
    → string_loop m b'"' ls ≡ ok tt (read_all ls s (b'"' ∷ rest))
unfolding quote_bytes
string_loop-quote_bytes [] rest zero ls h small e = absurd (omega arith)
string_loop-quote_bytes [] rest (suc m) ls h small e = string_loop_end m ls rest e
string_loop-quote_bytes (c ∷ s) rest zero ls h small e = absurd (omega arith)
string_loop-quote_bytes (c ∷ s) rest (suc m) ls h small e =
    let t = quote_bytes s ++ (b'"' ∷ rest) in
    let text : ls.text ≡ quote_byte c ++ t =
      e ∙ append_assoc (quote_byte c) (quote_bytes s) (b'"' ∷ rest) in
    let step = string_loop-quote_byte m ls t c (no_return s rest) (ground arith) text in
    let lines : (if c == b'\n' then ls.linenumber + 1 else ls.linenumber) + newlines s
        ≡ ls.linenumber + ((if c == b'\n' then 1 else 0) + newlines s) =
      ground arith in
    let ih = string_loop-quote_bytes s rest m (read_on ls c t) (omega arith) (ground arith) refl in
    step ∙ (ih ∙ rw (lines, append_assoc ls.buffer (c ∷ []) s))

read_string-add_quoted :
    (s rest : Str) (ls : LexState)
    → ls.text ≡ add_quoted s ++ rest
    → ls.buffer ≡ []
    → ls.linenumber + newlines s < max_int
    → (ls' : LexState) × (read_string b'"' ls ≡ ok s ls')
      × (ls'.text ≡ rest)
      × (ls'.linenumber ≡ ls.linenumber + newlines s)
unfolding read_string add_quoted
read_string-add_quoted s rest ls e b small =
    let a : LexState = record ls { text = quote_bytes s ++ (b'"' ∷ rest); buffer = b'"' ∷ [] } in
    let text : ls.text ≡ b'"' ∷ (quote_bytes s ++ (b'"' ∷ rest)) =
      e ∙ ap (λ t. b'"' ∷ t) (append_assoc (quote_bytes s) (b'"' ∷ []) rest) in
    let run =
      string_loop-quote_bytes s rest (fuel a) a (omega (arith, length-quote_bytes s (b'"' ∷ rest)))
        small refl in
    (
      record ls {
        text = rest;
        buffer = b'"' ∷ (s ++ (b'"' ∷ []));
        linenumber = ls.linenumber + newlines s;
      },
      rw (text, b, run, inner s),
      refl,
      refl,
    )

abbrev string_token : Lex Token
string_token = read_string b'"' >>= λ s. pure (tk_string s)

lex_loop_at_quote :
    ⦃lib : Strto⦄ (point m : ℕ) (a : LexState) (t : Str)
    → a.text ≡ b'"' ∷ t
    → lex_loop point (suc m) a ≡ string_token a
unfolding lex_loop token_at
lex_loop_at_quote point m a t e = rw e

-- What `string.format("%q", s)` gives is read by `llex` as one string token, which is `s`: the text
-- behind it is left, and the lines of `s` are counted. This holds where the line number stays in
-- its range.
pub lex-add_quoted :
    ⦃lib : Strto⦄ (point : ℕ) (s rest : Str) (ls : LexState)
    → ls.text ≡ add_quoted s ++ rest
    → ls.linenumber + newlines s < max_int
    → (ls' : LexState) × (lex point ls ≡ ok (tk_string s) ls')
      × (ls'.text ≡ rest)
      × (ls'.linenumber ≡ ls.linenumber + newlines s)
unfolding lex add_quoted
lex-add_quoted point s rest ls e small =
    let (ls', run, text, line) =
      read_string-add_quoted s rest (record ls { buffer = [] }) e refl small in
    (
      ls',
      lex_loop_at_quote point (length ls.text) (record ls { buffer = [] }) _ e
          ∙ ap (λ r. and_then r (λ x. pure (tk_string x))) run,
      text,
      line,
    )
