-- ===== src/Strings/Quote.antt =====
-- lstrlib.c: the quoting of `string.format("%q", s)`.
use luaxx.Base.{ℕ, [], ◌∷◌, ◌++◌, ◌||◌, ◌==◌, if◌then◌else◌}
use luaxx.Chunk.{Str}

abbrev pub quote_byte : ℕ → Str
quote_byte c =
    if (c == b'"') || (c == b'\\') || (c == b'\n')
    then b'\\' ∷ c ∷ []
    else (if c == b'\r'
        then b'\\' ∷ b'r' ∷ []
        else (if c == 0 then b'\\' ∷ b'0' ∷ b'0' ∷ b'0' ∷ [] else c ∷ []))

-- the loop of addquoted
unfoldable pub quote_bytes : Str → Str
quote_bytes [] = []
quote_bytes (c ∷ s) = quote_byte c ++ quote_bytes s

unfoldable pub add_quoted : Str → Str
add_quoted s = b'"' ∷ (quote_bytes s ++ (b'"' ∷ []))
