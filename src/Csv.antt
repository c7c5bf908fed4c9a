-- ===== src/Csv.antt =====
-- lcsvlib.c: lines of comma-separated values. A C string is a list of bytes without the 0 that
-- ends it; the columns are not checked for numbers (`cols` is NULL).
pub mod Fields
mod Tests
use luaxx.Base.{
  c_string, ℕ, zero, suc, ◌+◌, ◌≤◌, ◌<◌, List, [], ◌∷◌, ◌++◌, Option, none, some, Bool, true, false,
  not, ◌&&◌, ◌||◌, length, ltb, leb, ◌==◌, if◌then◌else◌,
}

abbrev pub CString : Type 0
CString = List ℕ

abbrev pub quote_mark : ℕ
quote_mark = 34

abbrev pub max_field : ℕ
max_field = 512

-- strchr, as a test: it finds the 0 that ends the string too
abbrev pub has : ℕ → CString → Bool
has c [] = c == 0
has c (x ∷ s) = (x == c) || has c s

-- the loop that doubles the quotes
unfoldable pub double : CString → CString
double [] = []
double (c ∷ s) = let rest = double s in c ∷ (if c == quote_mark then quote_mark ∷ rest else rest)

unfoldable pub convert_field : ℕ → CString → CString
convert_field delim s =
    if has delim s || has quote_mark s then quote_mark ∷ (double s ++ (quote_mark ∷ [])) else s

unfoldable pub convert_csv_line : ℕ → List (List ℕ) → CString
convert_csv_line delim [] = []
convert_csv_line delim (s ∷ []) = convert_field delim (c_string s)
convert_csv_line delim (s ∷ t ∷ fields) =
    convert_field delim (c_string s) ++ (delim ∷ convert_csv_line delim (t ∷ fields))

abbrev pub onto : ℕ → CString × CString → CString × CString
onto c (field, rest) = (c ∷ field, rest)

-- The field that is copied, from a C string, and the pointer that is returned. The array is the
-- caller's: `fitting` says whether it holds the copy with the 0 behind it.
unfoldable pub copy_field : ℕ → CString → CString × CString
copy_field delim [] = ([], [])
copy_field delim (c ∷ []) = if c == delim then ([], c ∷ []) else (c ∷ [], [])
copy_field delim (c ∷ a ∷ []) =
    let next = copy_field delim (a ∷ []) in if c == delim then ([], c ∷ a ∷ []) else onto c next
copy_field delim (c ∷ a ∷ b ∷ p) =
    let next = copy_field delim (a ∷ b ∷ p) in
    let past = copy_field delim p in
    if c == delim
    then ([], c ∷ a ∷ b ∷ p)
    else (if (a == quote_mark) && (b == quote_mark)
        then onto c (onto quote_mark past)
        else onto c next)

abbrev is_line_end : ℕ → Bool
is_line_end c = (c == 10) || (c == 13)

abbrev trim_before : ℕ → Option CString → Option CString
trim_before c none = if is_line_end c then none else some (c ∷ [])
trim_before c (some s) = some (c ∷ s)

-- The text up to its last byte that ends no line. C reads in front of a text that has none, which
-- is `none` here.
unfoldable pub trim_line_end : CString → Option CString
trim_line_end [] = none
trim_line_end (c ∷ s) = trim_before c (trim_line_end s)

-- The fields of a line, the error 0, a use of memory out of bounds, and a line that does not end.
pub data Parsed : Type 0 where
  fields : List CString → Parsed
  no_line : Parsed
  out_of_bounds : Parsed
  endless : Parsed

abbrev before : CString → Parsed → Parsed
before s (fields ss) = fields (s ∷ ss)
before s r = r

abbrev trimmed : Option CString → Parsed
trimmed none = out_of_bounds
trimmed (some s) = fields (s ∷ [])

-- What is copied has to leave room for a 0 in `field`: a longer text is written behind it.
abbrev pub fitting : Bool × (CString × CString) → Option (Bool × (CString × CString))
fitting r = if leb max_field (length (r.1).0) then none else some r

-- A field, from the text at `*p`: whether it is quoted, what is copied, and the text after.
unfoldable pub take_field : ℕ → CString → Option (Bool × (CString × CString))
take_field delim [] = fitting (false, copy_field delim [])
take_field delim (c ∷ p) =
    if c == quote_mark
    then fitting (true, copy_field quote_mark p)
    else fitting (false, copy_field delim (c ∷ p))

-- What follows a field: its end is skipped, and for a quoted field the byte after the quote too.
-- After that a text of one byte or none ends the line.
abbrev pub after_field : Bool × (CString × CString) → (CString → Parsed) → Parsed
after_field (true, (field, [])) next = no_line
after_field (false, (field, [])) next = trimmed (trim_line_end field)
after_field (false, (field, _ ∷ p)) next = before field (next p)
after_field (true, (field, _ ∷ [])) next = out_of_bounds
after_field (true, (field, _ ∷ _ ∷ [])) next = trimmed (trim_line_end field)
after_field (true, (field, _ ∷ _ ∷ _ ∷ [])) next = trimmed (trim_line_end field)
after_field (true, (field, _ ∷ _ ∷ a ∷ b ∷ p)) next = before field (next (a ∷ b ∷ p))

abbrev pub within : Option (Bool × (CString × CString)) → (CString → Parsed) → Parsed
within none next = out_of_bounds
within (some r) next = after_field r next

unfoldable pub parse_fields : ℕ → ℕ → CString → Parsed
parse_fields zero delim p = endless
parse_fields (suc n) delim p = within (take_field delim p) (parse_fields n delim)

-- Every field but the last takes a byte at least.
unfoldable pub parse_csv_line : ℕ → List ℕ → Parsed
parse_csv_line delim p = let s = c_string p in parse_fields (suc (length s)) delim s
