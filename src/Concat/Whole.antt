-- ===== src/Concat/Whole.antt =====
-- What table.concat gives.
use luaxx.Base.{
  ℕ, zero, suc, ◌<◌, ◌≡◌, refl, sym, ap, List, [], ◌∷◌, ◌++◌, append-nil, append_assoc, Option,
  none, some, ℤ, pos, negsuc, ◌+ℤ◌,
}
use luaxx.Chunk.{Str}
use luaxx.Buffer.{Buffer, buffinit, push_result, add_lstring, add_value}
use luaxx.Buffer.Content.{push_result-stack}
use luaxx.Buffer.Result.{Holds, add_value-Holds, add_lstring-Holds, buffinit-Holds}
use luaxx.Concat.{
  Concatenated, valid, invalid_value, on_valid, distance, opt, add_string, add_fields, add_interval,
  tconcat,
}

abbrev pub with_separators : Str → List Str → Str
with_separators sep [] = []
with_separators sep (s ∷ rest) = sep ++ (s ++ with_separators sep rest)

-- the strings of a list, with the separator between them
abbrev pub joined_by : Str → List Str → Str
joined_by sep [] = []
joined_by sep (s ∷ rest) = s ++ with_separators sep rest

module _ (string_at : ℤ → Option Str) where
  abbrev pub one_string : ℤ → Option Str → Concatenated Str
  one_string i none = invalid_value i
  one_string i (some s) = valid s

  -- the strings at i, i + 1, ..., i + n, or the first index without one
  unfoldable pub strings : ℕ → ℤ → Concatenated (Str × List Str)
  strings zero i = on_valid (one_string i (string_at i)) (λ s. valid (s, []))
  strings (suc n) i =
      on_valid (one_string i (string_at i))
        (λ s. on_valid (strings n (i +ℤ pos 1)) (λ v. valid (s, v.0 ∷ v.1)))

  abbrev pub interval : ℤ → ℤ → Concatenated (List Str)
  interval i (pos n) = on_valid (strings n i) (λ v. valid (v.0 ∷ v.1))
  interval i (negsuc n) = valid []

module _ (size : ℕ) (base : List Str) (room : 0 < size) (sep : Str) where
  -- Where there are strings, the buffer holds them behind `text`.
  Writes : Str → Concatenated (Str × List Str) → Concatenated Buffer → Type 0
  Writes text (valid v) (valid b) = Holds size (text ++ joined_by sep (v.0 ∷ v.1)) base b
  Writes text (invalid_value i) (invalid_value j) = i ≡ j
  Writes text v r = ⊥

  Writes-behind :
      (text s : Str) (v : Concatenated (Str × List Str)) (r : Concatenated Buffer)
      → Writes ((text ++ s) ++ sep) v r
      → Writes text (on_valid v (λ w. valid (s, w.0 ∷ w.1))) r
  unfolding on_valid Writes
  Writes-behind text s (valid (t, rest)) (valid b) h =
      rw
        (
          sym (append_assoc text s (sep ++ (t ++ with_separators sep rest))),
          sym (append_assoc (text ++ s) sep (t ++ with_separators sep rest)),
        )
        h
  Writes-behind text s (invalid_value i) (invalid_value j) e = e
  Writes-behind text s (valid v) (invalid_value j) h = h
  Writes-behind text s (invalid_value i) (valid b) h = h

  module _ (string_at : ℤ → Option Str) where
    add_fields-Writes :
        (n : ℕ) (i : ℤ) (text : Str) (b : Buffer)
        → Holds size text base b
        → Writes text (strings string_at n i) (add_fields size string_at sep n i b)
    unfolding strings add_fields on_valid Writes
    add_fields-Writes zero i text b h = by_field (string_at i)
      where
        by_field :
            (f : Option Str)
            → Writes text
                (on_valid (one_string string_at i f) (λ s. valid (s, [])))
                (add_string size string_at i f b)
        by_field none = refl
        by_field (some s) = rw (append-nil s) (add_value-Holds size base room text s b h)
    add_fields-Writes (suc n) i text b h = by_field (string_at i) (λ s.
        let c = add_value size (record b { stack = s ∷ b.stack }) in
        add_fields-Writes n (i +ℤ pos 1) ((text ++ s) ++ sep) (add_lstring size sep c) (
          add_lstring-Holds size base room sep (text ++ s) c
            (add_value-Holds size base room text s b h)))
      where
        by_field :
            (f : Option Str)
            → ((s : Str)
                → let c = add_value size (record b { stack = s ∷ b.stack }) in
                  Writes
                    ((text ++ s) ++ sep)
                    (strings string_at n (i +ℤ pos 1))
                    (add_fields size string_at sep n (i +ℤ pos 1) (add_lstring size sep c)))
            → Writes text
                (on_valid
                  (one_string string_at i f)
                  (λ s. on_valid (strings string_at n (i +ℤ pos 1)) (λ v. valid (s, v.0 ∷ v.1))))
                (on_valid
                  (add_string size string_at i f b)
                  (λ c. add_fields size string_at sep n (i +ℤ pos 1) (add_lstring size sep c)))
        by_field none next = refl
        by_field (some s) next =
            Writes-behind text s (strings string_at n (i +ℤ pos 1))
              (add_fields size string_at sep n (i +ℤ pos 1)
                (add_lstring size sep (add_value size (record b { stack = s ∷ b.stack }))))
              (next s)

  Writes-push_result :
      (v : Concatenated (Str × List Str)) (r : Concatenated Buffer)
      → Writes [] v r
      → on_valid r (λ b. valid (push_result b).stack)
        ≡ on_valid
            (on_valid v (λ w. valid (w.0 ∷ w.1)))
            (λ found. valid (joined_by sep found ∷ base))
  unfolding on_valid Writes
  Writes-push_result (valid v) (valid b) h =
      ap valid (push_result-stack base (joined_by sep (v.0 ∷ v.1)) b h.collects)
  Writes-push_result (invalid_value i) (invalid_value j) e = ap invalid_value (sym e)
  Writes-push_result (valid v) (invalid_value j) h = elim h [ ]
  Writes-push_result (invalid_value i) (valid b) e = elim e [ ]

  add_interval-push_result :
      (string_at : ℤ → Option Str) (i d : ℤ)
      → on_valid
          (add_interval size string_at sep i d (buffinit base))
          (λ b. valid (push_result b).stack)
        ≡ on_valid (interval string_at i d) (λ found. valid (joined_by sep found ∷ base))
  unfolding on_valid
  add_interval-push_result string_at i (pos n) =
      Writes-push_result (strings string_at n i) (add_fields size string_at sep n i (buffinit base))
        (add_fields-Writes string_at n i [] (buffinit base) (buffinit-Holds size base room))
  add_interval-push_result string_at i (negsuc n) =
      ap valid (push_result-stack base [] (buffinit base) (buffinit-Holds size base room).collects)

-- Where BUFSIZ is not 0, table.concat leaves on top of the stack the strings of the table from the
-- first index to the last, with the separator between each two of them, and the empty string
-- where the last index is below the first; or it ends with an error that names the first index
-- there whose value is neither a string nor a number. The separator is empty, the first index 1
-- and the last one what luaL_getn gives, where the caller leaves them out.
pub tconcat-strings :
    (size : ℕ) (base : List Str) (string_at : ℤ → Option Str) (sep : Option Str) (i last : Option ℤ)
    (n : ℕ)
    → 0 < size
    → tconcat size string_at sep i last n base
      ≡ on_valid
          (interval string_at (opt i (pos 1)) (distance (opt i (pos 1)) (opt last (pos n))))
          (λ found. valid (joined_by (opt sep []) found ∷ base))
unfolding tconcat
tconcat-strings size base string_at sep i last n room =
    add_interval-push_result size base room (opt sep []) string_at (opt i (pos 1))
      (distance (opt i (pos 1)) (opt last (pos n)))
