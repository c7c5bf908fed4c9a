-- ===== src/Csv/Fields.antt =====
-- A field as lcsvlib.c writes it, in front of the rest of a line.
use luaxx.Base.{
  c_string, ℕ, ◌<◌, ◌≡◌, ◌≢◌, refl, ap, ◌∙◌, List, [], ◌∷◌, ◌++◌, append_assoc, All, some, Bool,
  true, false, ◌||◌, length, leb, ◌==◌, if◌then◌else◌, arith, Bool-cases, inl, inr, ==_refl, ==→eq,
  ne→==,
}
use luaxx.Csv.{
  CString, quote_mark, max_field, has, double, convert_field, onto, copy_field, fitting, take_field,
}

-- No quote is the first byte or stands behind another quote.
abbrev pub IsApart : CString → Type 0
IsApart [] = Unit
IsApart (c ∷ []) = c ≢ quote_mark
IsApart (c ∷ a ∷ s) = (c ≢ quote_mark) × (if a == quote_mark then IsApart s else IsApart (a ∷ s))

copy_step :
    (delim c a : ℕ) (t : CString)
    → (c == delim) ≡ false
    → (a == quote_mark) ≡ false
    → copy_field delim (c ∷ a ∷ t) ≡ onto c (copy_field delim (a ∷ t))
unfolding copy_field
copy_step delim c a [] h q = rw h
copy_step delim c a (b ∷ t) h q = rw (h, q)

copy_end : (c : ℕ) (p : CString) → copy_field c (c ∷ p) ≡ ([], c ∷ p)
unfolding copy_field
copy_end c [] = rw (==_refl c)
copy_end c (a ∷ []) = rw (==_refl c)
copy_end c (a ∷ b ∷ p) = rw (==_refl c)

copy_plain :
    (delim : ℕ) (s p : CString)
    → delim ≢ quote_mark
    → has delim s ≡ false
    → has quote_mark s ≡ false
    → copy_field delim (s ++ (delim ∷ p)) ≡ (s, delim ∷ p)
copy_plain delim [] p d h q = copy_end delim p
copy_plain delim (c ∷ []) p d h q =
    copy_step delim c delim p (ground arith) (ne→== delim quote_mark d) ∙ rw (copy_end delim p)
copy_plain delim (c ∷ a ∷ s) p d h q =
    copy_step delim c a (s ++ (delim ∷ p)) (ground arith) (ground arith)
    ∙ rw (copy_plain delim (a ∷ s) p d (ground arith) (ground arith))

copy_past :
    (c : ℕ) (t : CString)
    → (c == quote_mark) ≡ false
    → copy_field quote_mark (c ∷ quote_mark ∷ quote_mark ∷ t)
      ≡ onto c (onto quote_mark (copy_field quote_mark t))
unfolding copy_field
copy_past c t h = rw h

copy_last :
    (c d : ℕ) (p : CString)
    → (c == quote_mark) ≡ false
    → (d == quote_mark) ≡ false
    → copy_field quote_mark (c ∷ quote_mark ∷ d ∷ p) ≡ (c ∷ [], quote_mark ∷ d ∷ p)
unfolding copy_field
copy_last c d p h e = rw (h, e) (ap (onto c) (copy_end quote_mark (d ∷ p)))

copy_doubled :
    (s : CString) (d : ℕ) (p : CString)
    → d ≢ quote_mark
    → IsApart s
    → copy_field quote_mark (double s ++ (quote_mark ∷ d ∷ p)) ≡ (s, quote_mark ∷ d ∷ p)
unfolding double
copy_doubled [] d p h a = copy_end quote_mark (d ∷ p)
copy_doubled (c ∷ []) d p h a =
    rw (ne→== c quote_mark a) (copy_last c d p (ne→== c quote_mark a) (ne→== d quote_mark h))
copy_doubled (c ∷ b ∷ s) d p h (a, as') = elim (Bool-cases (b == quote_mark)) [
  | inl e ↦
      rw (ne→== c quote_mark a, e, ==→eq b quote_mark e)
        (copy_past c (double s ++ (quote_mark ∷ d ∷ p)) (ne→== c quote_mark a)
          ∙ ap (λ r. onto c (onto quote_mark r)) (copy_doubled s d p h (rw e at as')))
  | inr e ↦
      rw (ne→== c quote_mark a, e)
        (copy_step quote_mark c b (double s ++ (quote_mark ∷ d ∷ p)) (ne→== c quote_mark a) e
          ∙ ap (onto c) (rw e at (copy_doubled (b ∷ s) d p h (rw e at as'))))
]

fitting-some : (r : Bool × (CString × CString)) → length (r.1).0 < max_field → fitting r ≡ some r
fitting-some r h = let e : leb max_field (length (r.1).0) ≡ false = ground arith in rw e

take_plain :
    (delim : ℕ) (s p : CString)
    → delim ≢ quote_mark
    → (has delim s || has quote_mark s) ≡ false
    → length s < max_field
    → take_field delim (s ++ (delim ∷ p)) ≡ some (false, (s, delim ∷ p))
unfolding take_field
take_plain delim [] p d h l = rw (ne→== delim quote_mark d, copy_end delim p)
take_plain delim (c ∷ s) p d h l =
    let e : (c == quote_mark) ≡ false = ground arith in
    rw (e, copy_plain delim (c ∷ s) p d (ground arith) (ground arith))
      (fitting-some (false, (c ∷ s, delim ∷ p)) l)

-- No byte is 0.
abbrev HasNo0 : CString → Type 0
HasNo0 s = All (λ c. c ≢ 0) s

c_string-HasNo0 : (s : List ℕ) → HasNo0 (c_string s)
c_string-HasNo0 [] = tt
c_string-HasNo0 (c ∷ s) = elim (Bool-cases (c == 0)) [
  | inl e ↦ rw e tt
  | inr e ↦ rw e ((λ z. absurd (ground arith)), c_string-HasNo0 s)
]

c_string-append : (s t : List ℕ) → HasNo0 s → c_string (s ++ t) ≡ s ++ c_string t
c_string-append [] t h = refl
c_string-append (c ∷ s) t (n, h) = rw (ne→== c 0 n, c_string-append s t h)

HasNo0-append : (s t : CString) → HasNo0 s → HasNo0 t → HasNo0 (s ++ t)
HasNo0-append [] t h k = k
HasNo0-append (c ∷ s) t (n, h) k = (n, HasNo0-append s t h k)

quote-HasNo0 : HasNo0 (quote_mark ∷ [])
quote-HasNo0 = ((λ e. absurd (omega (arith, e))), tt)

double-HasNo0 : (s : CString) → HasNo0 s → HasNo0 (double s)
unfolding double
double-HasNo0 [] h = tt
double-HasNo0 (c ∷ s) (n, h) = elim (Bool-cases (c == quote_mark)) [
  | inl e ↦ rw e (n, (quote-HasNo0.0, double-HasNo0 s h))
  | inr e ↦ rw e (n, double-HasNo0 s h)
]

convert_field-HasNo0 : (delim : ℕ) (s : CString) → HasNo0 s → HasNo0 (convert_field delim s)
unfolding convert_field
convert_field-HasNo0 delim s h = elim (Bool-cases (has delim s || has quote_mark s)) [
  | inl e ↦
      rw e (
        quote-HasNo0.0,
        HasNo0-append (double s) (quote_mark ∷ []) (double-HasNo0 s h) quote-HasNo0,
      )
  | inr e ↦ rw e h
]

read_back :
    (delim : ℕ) (s p : CString)
    → delim ≢ quote_mark
    → IsApart s
    → length s < max_field
    → take_field delim (convert_field delim s ++ (delim ∷ p))
      ≡ some (
          let quoted = has delim s || has quote_mark s in
          (quoted, (s, if quoted then quote_mark ∷ delim ∷ p else delim ∷ p)))
unfolding take_field convert_field
read_back delim s p d a l = elim (Bool-cases (has delim s || has quote_mark s)) [
  | inl e ↦
      rw (e, append_assoc (double s) (quote_mark ∷ []) (delim ∷ p), copy_doubled s delim p d a)
        (fitting-some (true, (s, quote_mark ∷ delim ∷ p)) l)
  | inr e ↦ rw e (take_plain delim s p d e l)
]

-- Where the delimiter is neither a quote nor 0, and a text of fewer than 512 bytes has no quote as
-- its first byte or behind another, a field that `convert_csv_line` writes for it in front of a
-- delimiter is read back as the text, within `field`. It is quoted exactly when the text has a
-- delimiter or a quote, and the pointer stands at its end. The text and the line are C strings,
-- which end before the first 0 of what they are made of.
pub take_field-convert_field :
    (delim : ℕ) (s p : List ℕ)
    → delim ≢ 0
    → delim ≢ quote_mark
    → IsApart (c_string s)
    → length (c_string s) < max_field
    → take_field delim (c_string (convert_field delim (c_string s) ++ (delim ∷ p)))
      ≡ some (
          let t = c_string s in
          let quoted = has delim t || has quote_mark t in
          (quoted, (t, if quoted then quote_mark ∷ delim ∷ c_string p else delim ∷ c_string p)))
take_field-convert_field delim s p z d a l =
    let no0 = convert_field-HasNo0 delim (c_string s) (c_string-HasNo0 s) in
    ap (take_field delim) (
      c_string-append (convert_field delim (c_string s)) (delim ∷ p) no0
      ∙ ap (λ r. convert_field delim (c_string s) ++ r) (c_string-append (delim ∷ []) p (z, tt)))
    ∙ read_back delim (c_string s) (c_string p) d a l
