-- ===== src/Lexer/Scan.antt =====
-- llex.c: numerals, strings, long strings and comments. A loop has as fuel the length of the text
-- and one.
use luaxx.Base.{
  c_string, ℕ, zero, suc, ◌+◌, ◌-◌, ◌*◌, List, [], ◌∷◌, Option, none, some, Bool, true, false, ◌&&◌,
  ◌||◌, length, take, drop, ltb, ◌==◌, if◌then◌else◌, is_digit, is_alnum,
}
use luaxx.Chunk.{Str}
use luaxx.Object.{Strto, str_to_d}
use luaxx.Lexer.{
  LexState, unfinished_string, unfinished_long_string, unfinished_long_comment, escape_too_large,
  malformed_number, nesting_deprecated, endless, ok, error, Lex, pure, throw, ◌>>=◌, ◌>>◌,
  get_state, current, next, save, save_and_next, reset_buffer, passes, byte_of, is_newline,
  inc_line_number,
}

-- One more than the rounds that a loop may take.
abbrev pub fuel : LexState → ℕ
fuel ls = suc (length ls.text)

-- `strchr(set, c)` finds the byte 0 that ends the set, too.
abbrev pub in_set : List ℕ → ℕ → Bool
in_set [] c = c == 0
in_set (x ∷ set) c = (c == x) || in_set set c

unfoldable pub check_next : List ℕ → Lex Bool
check_next set = do
  c ← current
  if passes (in_set set) c then (do save_and_next; pure true) else pure false

-- `save_and_next` while the current character passes the test
unfoldable pub save_while : (ℕ → Bool) → ℕ → Lex (Unit {0})
save_while p zero = throw endless
save_while p (suc n) = do
  c ← current
  if passes p c then (do save_and_next; save_while p n) else pure tt

abbrev pub buff_replace : ℕ → ℕ → List ℕ → List ℕ
buff_replace from to [] = []
buff_replace from to (c ∷ s) = (if c == from then to else c) ∷ buff_replace from to s

module _ ⦃lib : Strto⦄ where
  -- The second try, after `localeconv` gave `point`; the numeral is in the buffer.
  unfoldable pub try_decpoint : ℕ → Lex ℕ
  try_decpoint point ls =
      let buff = buff_replace ls.decpoint point ls.buffer in
      elim (str_to_d (c_string buff)) [
        | some r ↦ ok r (record ls { buffer = buff; decpoint = point })
        | none ↦ error malformed_number
      ]

  unfoldable pub convert_numeral : ℕ → Lex ℕ
  convert_numeral point ls =
      let buff = buff_replace b'.' ls.decpoint ls.buffer in
      elim (str_to_d (c_string buff)) [
        | some r ↦ ok r (record ls { buffer = buff })
        | none ↦ try_decpoint point (record ls { buffer = buff })
      ]

  unfoldable pub read_numeral : ℕ → Lex ℕ
  read_numeral point = do
    save_and_next
    a ← get_state
    save_while (λ c. is_digit c || (c == b'.')) (fuel a)
    exponent ← check_next (b'E' ∷ b'e' ∷ [])
    if exponent then check_next (b'+' ∷ b'-' ∷ []) else pure false
    b ← get_state
    save_while (λ c. is_alnum c || (c == b'_')) (fuel b)
    save 0
    convert_numeral point

-- The `=` signs that are current, counted.
unfoldable pub count_equals : ℕ → ℕ → Lex ℕ
count_equals zero count = throw endless
count_equals (suc n) count = do
  c ← current
  if passes (λ x. x == b'=') c then (do save_and_next; count_equals n (count + 1)) else pure count

abbrev same_current : Option ℕ → Option ℕ → Bool
same_current (some a) (some b) = a == b
same_current _ _ = false

-- A count, where the delimiter is whole; else `none` with the count that is given as negative.
abbrev pub Sep : Type 0
Sep = Bool × ℕ

unfoldable pub skip_sep : Lex Sep
skip_sep = do
  s ← current
  save_and_next
  ls ← get_state
  count ← count_equals (fuel ls) 0
  c ← current
  pure (same_current c s, count)

abbrev pub same_sep : Sep → ℕ → Bool
same_sep (whole, count) sep = whole && (count == sep)

-- The end of a long string: its text lies between the delimiters.
abbrev pub between_seps : ℕ → List ℕ → Str
between_seps sep buff = take (length buff - 2 * (2 + sep)) (drop (2 + sep) buff)

abbrev pub save_if : Bool → Lex (Unit {0})
save_if seminfo = if seminfo then save_and_next else next

abbrev pub after_newline : Bool → Lex (Unit {0})
after_newline seminfo = do save b'\n'; inc_line_number; if seminfo then pure tt else reset_buffer

-- The loop of read_long_string. `seminfo` is false for a comment.
unfoldable pub long_string_loop : ℕ → Bool → ℕ → Lex (Unit {0})
long_string_loop zero seminfo sep = throw endless
long_string_loop (suc n) seminfo sep = do
  c ← current
  elim c [
    | none ↦ throw (if seminfo then unfinished_long_string else unfinished_long_comment)
    | some b ↦
        if b == b'['
        then (do
          s ← skip_sep
          if same_sep s sep
              then (do
                save_and_next
                if sep == 0 then throw nesting_deprecated else long_string_loop n seminfo sep)
              else long_string_loop n seminfo sep)
        else (if b == b']'
            then (do
              s ← skip_sep
              if same_sep s sep then save_and_next else long_string_loop n seminfo sep)
            else (if is_newline b
                then (do after_newline seminfo; long_string_loop n seminfo sep)
                else (do save_if seminfo; long_string_loop n seminfo sep)))
  ]

unfoldable pub read_long_string : Bool → ℕ → Lex Str
read_long_string seminfo sep = do
  save_and_next
  c ← current
  if passes is_newline c then inc_line_number else pure tt
  a ← get_state
  long_string_loop (fuel a) seminfo sep
  b ← get_state
  pure (between_seps sep b.buffer)

-- The digits of `\xxx`: up to `n` of them behind those that gave `c`.
unfoldable pub more_digits : ℕ → ℕ → Lex ℕ
more_digits zero c = pure c
more_digits (suc n) c = do
  d ← current
  if passes is_digit d then (do next; more_digits n (10 * c + (byte_of d - b'0'))) else pure c

unfoldable pub decimal_escape : Lex (Unit {0})
decimal_escape = do c ← more_digits 3 0; if ltb 255 c then throw escape_too_large else save c

-- The escapes of one letter: `\a` `\b` `\f` `\n` `\r` `\t` `\v`.
abbrev pub letter_escape : ℕ → Option ℕ
letter_escape c =
    if c == b'a'
    then some 7
    else (if c == b'b'
        then some 8
        else (if c == b'f'
            then some 12
            else (if c == b'n'
                then some 10
                else (if c == b'r'
                    then some 13
                    else (if c == b't' then some 9 else (if c == b'v' then some 11 else none))))))

abbrev other_escape : ℕ → Lex (Unit {0})
other_escape c =
    if is_newline c
    then (do save b'\n'; inc_line_number)
    else (if is_digit c then decimal_escape else save_and_next)

-- What stands behind a `\`. At EOZ nothing is done: the next round is an error.
unfoldable pub escape : Option ℕ → Lex (Unit {0})
escape none = pure tt
escape (some c) = elim (letter_escape c) [ some d ↦ (do save d; next) | none ↦ other_escape c ]

abbrev pub step_in_string : ℕ → Lex (Unit {0})
step_in_string c =
    if is_newline c
    then throw unfinished_string
    else (if c == b'\\' then (do next; d ← current; escape d) else save_and_next)

unfoldable pub string_loop : ℕ → ℕ → Lex (Unit {0})
string_loop zero del = throw endless
string_loop (suc n) del = do
  c ← current
  elim c [
    | none ↦ throw unfinished_string
    | some b ↦ if b == del then pure tt else (do step_in_string b; string_loop n del)
  ]

unfoldable pub read_string : ℕ → Lex Str
read_string del = do
  save_and_next
  a ← get_state
  string_loop (fuel a) del
  save_and_next
  b ← get_state
  pure (take (length b.buffer - 2) (drop 1 b.buffer))
