-- ===== src/Lexer/Tests.antt =====
-- The scanner on short texts.
use luaxx.Base.{List, ℕ, ◌-◌, ◌+◌, ◌≤◌, ◌≡◌, ◌≢◌, refl, [], ◌∷◌, ◌++◌, length, codes, ◌⊎◌, arith}
use luaxx.Object.{Strto}
use luaxx.Lexer.{Token, tk_string, tk_eos, LexState, LexError, endless, ok, error}
use luaxx.Lexer.Lex.{lex}
use luaxx.Lexer.Ends.{lex_ends}
use luaxx.Lexer.Quoted.{newlines, lex-add_quoted}
use luaxx.Strings.Quote.{add_quoted}

-- A C library that reads no number.
abbrev no_numbers : Strto
no_numbers = record { strtod = λ s. (0, 0); strtoul = λ s. (0, 0) }

abbrev at_start : List ℕ → LexState
at_start s = record {
  text = s;
  linenumber = 1;
  lastline = 1;
  t = tk_eos;
  ahead = tk_eos;
  buffer = [];
  decpoint = b'.';
}

-- a comment and a name
abbrev a_name : LexState
a_name = at_start (codes "--[[ ]] x = 2")

lex_ends_example :
    ((token : Token) × (ls' : LexState) × (lex ⦃lib = no_numbers⦄ b'.' a_name ≡ ok token ls')
      × (length ls'.text ≤ length a_name.text - 1))
    ⊎ ((e : LexError) × (lex ⦃lib = no_numbers⦄ b'.' a_name ≡ error e) × (e ≢ endless))
lex_ends_example = lex_ends ⦃lib = no_numbers⦄ b'.' a_name

-- a string with a quote, a newline and a byte 0
abbrev awkward : List ℕ
awkward = codes "a" ++ (b'"' ∷ b'\n' ∷ 0 ∷ [])

abbrev quoted_text : LexState
quoted_text = at_start (add_quoted awkward ++ codes " ..")

lex-add_quoted_example :
    (ls' : LexState) × (lex ⦃lib = no_numbers⦄ b'.' quoted_text ≡ ok (tk_string awkward) ls')
    × (ls'.text ≡ codes " ..")
    × (ls'.linenumber ≡ 1 + newlines awkward)
lex-add_quoted_example =
    lex-add_quoted ⦃lib = no_numbers⦄ b'.' awkward (codes " ..") quoted_text refl (omega arith)
