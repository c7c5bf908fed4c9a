-- ===== src/Lexer.antt =====
-- llex.c: the state of the scanner, its tokens and its errors, and the operations that the
-- scanner is written with. `text` is `ls->current` in front of what the stream `ls->z` still
-- holds; it is empty where `ls->current` is EOZ, and the scanner reads no further then.
pub mod Scan
pub mod Lex
pub mod Fuel
pub mod Ends
pub mod Quoted
mod Tests
use luaxx.Base.{
  ℕ, zero, suc, ◌+◌, ◌-◌, ◌^◌, List, [], ◌∷◌, ◌++◌, Option, none, some, Bool, true, false, not,
  ◌&&◌, ◌||◌, length, leb, ◌==◌, if◌then◌else◌, codes,
}
use luaxx.Chunk.{Str, same_bytes}

-- A token with its semantic value: a single character, a reserved word and the other terminals.
-- A number is the bit pattern of a double.
pub data Token : Type 0 where
  char : ℕ → Token
  tk_and tk_break tk_do tk_else tk_elseif tk_end tk_false tk_for tk_function : Token
  tk_if tk_in tk_local tk_nil tk_not tk_or tk_repeat : Token
  tk_return tk_then tk_true tk_until tk_while : Token
  tk_concat tk_dots tk_eq tk_ge tk_le tk_ne : Token
  tk_number : ℕ → Token
  tk_name tk_string : Str → Token
  tk_eos : Token

-- the first NUM_RESERVED names of `luaX_tokens`
abbrev pub reserved_words : List (Str × Token)
reserved_words =
    (codes "and", tk_and)
    ∷ (codes "break", tk_break)
    ∷ (codes "do", tk_do)
    ∷ (codes "else", tk_else)
    ∷ (codes "elseif", tk_elseif)
    ∷ (codes "end", tk_end)
    ∷ (codes "false", tk_false)
    ∷ (codes "for", tk_for)
    ∷ (codes "function", tk_function)
    ∷ (codes "if", tk_if)
    ∷ (codes "in", tk_in)
    ∷ (codes "local", tk_local)
    ∷ (codes "nil", tk_nil)
    ∷ (codes "not", tk_not)
    ∷ (codes "or", tk_or)
    ∷ (codes "repeat", tk_repeat)
    ∷ (codes "return", tk_return)
    ∷ (codes "then", tk_then)
    ∷ (codes "true", tk_true)
    ∷ (codes "until", tk_until)
    ∷ (codes "while", tk_while)
    ∷ []

-- The mark that luaX_init puts on the reserved words, looked up.
unfoldable pub reserved_in : List (Str × Token) → Str → Option Token
reserved_in [] s = none
reserved_in ((word, token) ∷ words) s =
    let rest = reserved_in words s in if same_bytes word s then some token else rest

pub record LexState : Type 0 where
  pub text : List ℕ
  pub linenumber : ℕ
  pub lastline : ℕ
  pub t : Token
  pub ahead : Token
  pub buffer : List ℕ
  pub decpoint : ℕ

-- The errors of luaX_lexerror. `endless` belongs to the model only.
pub data LexError : Type 0 where
  unfinished_string unfinished_long_string unfinished_long_comment : LexError
  escape_too_large malformed_number invalid_delimiter : LexError
  too_many_lines nesting_deprecated endless : LexError

pub data Result {ℓ} (A : Type ℓ) : Type ℓ where
  ok : A → LexState → Result A
  error : LexError → Result A

abbrev pub Lex {ℓ} : Type ℓ → Type ℓ
Lex A = LexState → Result A

abbrev pub pure {ℓ} : {A : Type ℓ} → A → Lex A
pure a ls = ok a ls

abbrev pub throw {ℓ} : {A : Type ℓ} → LexError → Lex A
throw e ls = error e

abbrev pub and_then {ℓ κ} : {A : Type ℓ} {B : Type κ} → Result A → (A → Lex B) → Result B
and_then (ok a ls) m = m a ls
and_then (error e) m = error e

infixl 5 ◌>>=◌ ◌>>◌
abbrev pub ◌>>=◌ {ℓ κ} : {A : Type ℓ} {B : Type κ} → Lex A → (A → Lex B) → Lex B
m >>= g = λ ls. and_then (m ls) g

abbrev pub ◌>>◌ {ℓ κ} : {A : Type ℓ} {B : Type κ} → Lex A → Lex B → Lex B
m >> n = m >>= λ _. n

abbrev pub get_state : Lex LexState
get_state ls = ok ls ls

-- `ls->current`
abbrev pub head_of : List ℕ → Option ℕ
head_of [] = none
head_of (c ∷ cs) = some c

abbrev pub current : Lex (Option ℕ)
current ls = ok (head_of ls.text) ls

abbrev pub tail_of : List ℕ → List ℕ
tail_of [] = []
tail_of (c ∷ cs) = cs

-- the macro `next`
abbrev pub next : Lex (Unit {0})
next ls = ok tt (record ls { text = tail_of ls.text })

abbrev pub save : ℕ → Lex (Unit {0})
save c ls = ok tt (record ls { buffer = ls.buffer ++ (c ∷ []) })

-- EOZ is -1, and the byte 255 where it is saved.
abbrev pub byte_of : Option ℕ → ℕ
byte_of none = 255
byte_of (some c) = c

abbrev pub save_and_next : Lex (Unit {0})
save_and_next = do c ← current; save (byte_of c); next

abbrev pub reset_buffer : Lex (Unit {0})
reset_buffer ls = ok tt (record ls { buffer = [] })

-- a test of the current character, which no EOZ passes
abbrev pub passes : (ℕ → Bool) → Option ℕ → Bool
passes p none = false
passes p (some c) = p c

abbrev pub is_newline : ℕ → Bool
is_newline c = (c == b'\n') || (c == b'\r')

abbrev pub max_int : ℕ
max_int = 2 ^ 31 - 3

-- `next`, if the current character is a newline other than `old`
abbrev pub next_other : ℕ → Lex (Unit {0})
next_other old = do
  c ← current
  if passes (λ d. is_newline d && not (d == old)) c then next else pure tt

unfoldable pub inc_line_number : Lex (Unit {0})
inc_line_number = do
  old ← current
  next
  next_other (byte_of old)
  ls ← get_state
  if leb max_int (ls.linenumber + 1)
      then throw too_many_lines
      else (λ ls'. ok tt (record ls' { linenumber = ls'.linenumber + 1 }))

-- The stream that luaX_setinput is given holds `text`.
unfoldable pub set_input : List ℕ → LexState
set_input text = record {
  text = text;
  linenumber = 1;
  lastline = 1;
  t = tk_eos;
  ahead = tk_eos;
  buffer = [];
  decpoint = b'.';
}
