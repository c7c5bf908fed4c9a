-- ===== src/Strings/Pattern.antt =====
-- lstrlib.c: the items of a pattern. A pattern is a C string, so it ends at its first byte 0; `p`
-- is the text from the pointer on, and `*p` is 0 where it is empty.
use luaxx.Base.{
  ℕ, ◌-◌, [], ◌∷◌, Option, none, some, Bool, true, false, not, ◌&&◌, ◌||◌, length, take, leb, ◌==◌,
  if◌then◌else◌, is_digit, is_lower, is_upper, is_alpha, is_alnum, is_space, is_cntrl, is_punct,
  is_xdigit, to_lower,
}
use luaxx.Chunk.{Str}

-- The errors of luaL_error. `endless` belongs to the model only.
pub data PatternError : Type 0 where
  invalid_capture_index invalid_pattern_capture ends_with_escape missing_bracket : PatternError
  unbalanced_pattern too_many_captures missing_frontier unfinished_capture invalid_replacement
        endless :
      PatternError

-- `*p`
abbrev pub peek : Str → ℕ
peek [] = 0
peek (c ∷ p) = c

abbrev pub rest_of : Str → Str
rest_of [] = []
rest_of (c ∷ p) = p

-- The loop that looks for a `]`; `none` is the error for a missing one.
unfoldable pub bracket_end : Str → Option Str
bracket_end [] = none
bracket_end (c ∷ []) = none
bracket_end (c ∷ d ∷ p) =
    let past = bracket_end p in
    let next = bracket_end (d ∷ p) in
    if c == b'%'
    then (if peek p == b']' then some (rest_of p) else past)
    else (if d == b']' then some p else next)

pub data ClassEnd : Type 0 where
  ends : Str → ClassEnd
  malformed : PatternError → ClassEnd

abbrev pub of_bracket : Option Str → ClassEnd
of_bracket none = malformed missing_bracket
of_bracket (some p) = ends p

abbrev pub of_escape : Str → ClassEnd
of_escape [] = malformed ends_with_escape
of_escape (c ∷ p) = ends p

-- classend, which is not called at the end of a pattern
unfoldable pub class_end : Str → ClassEnd
class_end [] = ends []
class_end (c ∷ p) =
    if c == b'%'
    then of_escape p
    else (if c == b'['
        then of_bracket (bracket_end (if peek p == b'^' then rest_of p else p))
        else ends p)

-- The class of a letter in lower case; `none` for any other byte.
abbrev class_of : ℕ → ℕ → Option Bool
class_of letter c =
    if letter == b'a'
    then some (is_alpha c)
    else (if letter == b'c'
        then some (is_cntrl c)
        else (if letter == b'd'
            then some (is_digit c)
            else (if letter == b'l'
                then some (is_lower c)
                else (if letter == b'p'
                    then some (is_punct c)
                    else (if letter == b's'
                        then some (is_space c)
                        else (if letter == b'u'
                            then some (is_upper c)
                            else (if letter == b'w'
                                then some (is_alnum c)
                                else (if letter == b'x'
                                    then some (is_xdigit c)
                                    else (if letter == b'z' then some (c == 0) else none)))))))))

unfoldable pub match_class : ℕ → ℕ → Bool
match_class c cl = elim (class_of (to_lower cl) c) [
  | none ↦ cl == c
  | some res ↦ if is_lower cl then res else not res
]

-- The loop of matchbracketclass over the text between `[` or `[^` and the closing bracket. A `%`
-- at its end would take the bracket for its class.
unfoldable pub in_class : ℕ → Str → Bool
in_class c [] = false
in_class c (a ∷ []) = if a == b'%' then match_class c b']' else a == c
in_class c (a ∷ b ∷ []) =
    let next = in_class c (b ∷ []) in if a == b'%' then match_class c b else (a == c) || next
in_class c (a ∷ b ∷ d ∷ p) =
    let past_escape = in_class c (d ∷ p) in
    let past_range = in_class c p in
    let next = in_class c (b ∷ d ∷ p) in
    if a == b'%'
    then match_class c b || past_escape
    else (if b == b'-' then (leb a c && leb c d) || past_range else (a == c) || next)

-- The text of a class from `[` on, without its brackets; `ep` is what follows it.
abbrev pub class_body : Str → Str → Str
class_body p ep = take (length p - length ep - 2) (rest_of p)

unfoldable pub match_bracket_class : ℕ → Str → Bool
match_bracket_class c body =
    if peek body == b'^' then not (in_class c (rest_of body)) else in_class c body

unfoldable pub single_match : ℕ → Str → Str → Bool
single_match c p ep =
    if peek p == b'.'
    then true
    else (if peek p == b'%'
        then match_class c (peek (rest_of p))
        else (if peek p == b'[' then match_bracket_class c (class_body p ep) else peek p == c))
