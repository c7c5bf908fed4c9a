-- ===== src/Lexer/Fuel.antt =====
-- The loops of the scanner and the text that they take.
use luaxx.Base.{
  ℕ, zero, suc, ◌+◌, ◌-◌, ◌≤◌, ◌<◌, ◌≡◌, refl, List, [], ◌∷◌, ◌++◌, Option, none, some, Bool, true,
  false, length, ◌==◌, if◌then◌else◌, is_digit, arith, Bool-cases, Option-cases, inl, inr,
}
use luaxx.Object.{Strto}
use luaxx.Lexer.{
  LexState, endless, nesting_deprecated, Result, ok, error, Lex, pure, throw, and_then, ◌>>=◌, ◌>>◌,
  head_of, save_and_next, reset_buffer, passes, byte_of, is_newline, inc_line_number, tail_of,
}
use luaxx.Lexer.Scan.{
  fuel, check_next, save_while, try_decpoint, convert_numeral, read_numeral, Sep, count_equals,
  skip_sep, long_string_loop, read_long_string, more_digits, decimal_escape, escape, after_newline,
  save_if, same_sep,
}

-- The run ended, and left at most `n` characters; an error ends it too, but not the model's own.
abbrev pub Leaves {ℓ} : {A : Type ℓ} → ℕ → Result A → Type 0
Leaves n (ok a ls) = length ls.text ≤ n
Leaves n (error endless) = ⊥
Leaves n (error _) = Unit

pub Leaves-bind {ℓ κ} :
    {A : Type ℓ} {B : Type κ} (m n : ℕ) (r : Result A) (g : A → Lex B)
    → Leaves m r
    → ((a : A) (ls : LexState) → length ls.text ≤ m → Leaves n (g a ls))
    → Leaves n (and_then r g)
Leaves-bind m n (ok a ls) g h k = k a ls h
Leaves-bind m n (error endless) g h k = h
Leaves-bind m n (error _) g h k = tt

pub length-tail_of : (xs : List ℕ) → length (tail_of xs) ≡ length xs - 1
length-tail_of [] = refl
length-tail_of (x ∷ xs) = omega arith

pub passes_pos : (p : ℕ → Bool) (xs : List ℕ) → passes p (head_of xs) ≡ true → 0 < length xs
passes_pos p [] e = cc
passes_pos p (x ∷ xs) e = omega arith

pub check_next-Leaves :
    (set : List ℕ) (n : ℕ) (ls : LexState) → length ls.text ≤ n → Leaves n (check_next set ls)
unfolding check_next
check_next-Leaves set n ls h = ground (arith, length-tail_of ls.text)

pub save_while-Leaves :
    (p : ℕ → Bool) (m n : ℕ) (ls : LexState)
    → length ls.text < m
    → length ls.text ≤ n
    → Leaves n (save_while p m ls)
unfolding save_while
save_while-Leaves p zero n ls h l = absurd (omega arith)
save_while-Leaves p (suc m) n ls h l = elim (Bool-cases (passes p (head_of ls.text))) [
  | inl e ↦ rw e (
      save_while-Leaves p m n _ (omega (arith, length-tail_of ls.text, passes_pos p ls.text e))
        (omega (arith, length-tail_of ls.text)))
  | inr e ↦ rw e l
]

pub inc_line_number-Leaves :
    (n : ℕ) (ls : LexState) → length ls.text ≤ suc n → Leaves n (inc_line_number ls)
unfolding inc_line_number
inc_line_number-Leaves n ls h =
    ground (arith, length-tail_of ls.text, length-tail_of (tail_of ls.text))

-- What eats the current character, if there is one.
abbrev pub Eats {ℓ} : {A : Type ℓ} → Lex A → Type 0
Eats m = (n : ℕ) (ls : LexState) → length ls.text ≤ suc n → Leaves n (m ls)

-- What leaves no more text than there was.
abbrev pub Keeps {ℓ} : {A : Type ℓ} → Lex A → Type 0
Keeps m = (n : ℕ) (ls : LexState) → length ls.text ≤ n → Leaves n (m ls)

-- The state after `save_and_next`
abbrev pub stepped : LexState → LexState
stepped ls = record ls {
  buffer = ls.buffer ++ (byte_of (head_of ls.text) ∷ []);
  text = tail_of ls.text;
}

pub stepped-le : (n : ℕ) (ls : LexState) → length ls.text ≤ suc n → length (stepped ls).text ≤ n
stepped-le n ls h = omega (arith, length-tail_of ls.text)

module _ ⦃lib : Strto⦄ (point : ℕ) where
  convert_numeral-Keeps : Keeps (convert_numeral point)
  unfolding convert_numeral try_decpoint
  convert_numeral-Keeps n ls h = ground arith

  pub read_numeral-Eats : Eats (read_numeral point)
  unfolding read_numeral
  read_numeral-Eats n ls h =
      let a = stepped ls in
      let ha = stepped-le n ls h in
      Leaves-bind n n (save_while _ (fuel a) a) _
        (save_while-Leaves _ (fuel a) n a (omega arith) ha)
        λ _ b hb. Leaves-bind n n (check_next _ b) _ (check_next-Leaves _ n b hb) λ exponent c hc.
          Leaves-bind n n ((if exponent then check_next (b'+' ∷ b'-' ∷ []) else pure false) c) _
            (sign exponent n c hc)
            λ _ d hd.
              Leaves-bind n n (save_while _ (fuel d) d) _
                (save_while-Leaves _ (fuel d) n d (omega arith) hd)
                λ _ e he. convert_numeral-Keeps n (record e { buffer = e.buffer ++ (0 ∷ []) }) he
    where
      sign : (b : Bool) → Keeps (if b then check_next (b'+' ∷ b'-' ∷ []) else pure false)
      sign true n ls h = check_next-Leaves _ n ls h
      sign false n ls h = h

count_equals-Leaves :
    (m count n : ℕ) (ls : LexState)
    → length ls.text < m
    → length ls.text ≤ n
    → Leaves n (count_equals m count ls)
unfolding count_equals
count_equals-Leaves zero count n ls h l = absurd (omega arith)
count_equals-Leaves (suc m) count n ls h l =
    elim (Bool-cases (passes (λ x. x == b'=') (head_of ls.text))) [
      | inl e ↦ rw e (
          count_equals-Leaves m (count + 1) n _
            (omega (arith, length-tail_of ls.text, passes_pos (λ x. x == b'=') ls.text e))
            (omega (arith, length-tail_of ls.text)))
      | inr e ↦ rw e l
    ]

pub skip_sep-Eats : Eats skip_sep
unfolding skip_sep
skip_sep-Eats n ls h =
    let a = stepped ls in
    let ha = stepped-le n ls h in
    Leaves-bind n n (count_equals (fuel a) 0 a) _
      (count_equals-Leaves (fuel a) 0 n a (omega arith) ha) λ _ b hb. hb

more_digits-Keeps : (m c : ℕ) → Keeps (more_digits m c)
unfolding more_digits
more_digits-Keeps zero c n ls h = h
more_digits-Keeps (suc m) c n ls h = elim (Bool-cases (passes is_digit (head_of ls.text))) [
  | inl e ↦ rw e (more_digits-Keeps m _ n _ (omega (arith, length-tail_of ls.text)))
  | inr e ↦ rw e h
]

decimal_escape-Keeps : Keeps decimal_escape
unfolding decimal_escape
decimal_escape-Keeps n ls h =
    Leaves-bind n n (more_digits 3 0 ls) _ (more_digits-Keeps 3 0 n ls h) λ c a ha. ground arith

pub inc_line_number-Keeps : Keeps inc_line_number
inc_line_number-Keeps n ls h = inc_line_number-Leaves n ls (omega arith)

pub escape-Keeps : (c : Option ℕ) → Keeps (escape c)
unfolding escape
escape-Keeps none n ls h = h
escape-Keeps (some c) n ls h = ground (
  arith,
  length-tail_of ls.text,
  decimal_escape-Keeps n ls h,
  inc_line_number-Keeps n (record ls { buffer = ls.buffer ++ (b'\n' ∷ []) }) h,
)

pub head_pos : (xs : List ℕ) {b : ℕ} → head_of xs ≡ some b → 0 < length xs
head_pos [] e = cc
head_pos (x ∷ xs) e = omega arith

-- Where a loop does something that eats a character and goes on, or ends.
abbrev GoesOn : (ℕ → Lex (Unit {0})) → ℕ → Type 0
GoesOn loop m =
    (n : ℕ) (ls : LexState) → length ls.text < m → length ls.text ≤ n → Leaves n (loop m ls)

pub Eats-then {ℓ κ} :
    {A : Type ℓ} {B : Type κ} (x : Lex A) (g : A → Lex B) (m n : ℕ) (ls : LexState)
    → Eats x
    → ((a : A) (ls' : LexState) → length ls'.text < m → length ls'.text ≤ n → Leaves n (g a ls'))
    → 0 < length ls.text
    → length ls.text < suc m
    → length ls.text ≤ n
    → Leaves n ((x >>= g) ls)
Eats-then x g m n ls e k pos small h =
    Leaves-bind (length ls.text - 1) n (x ls) g (e (length ls.text - 1) ls (omega arith))
      λ a ls' h'. k a ls' (omega arith) (omega arith)

after_newline-Eats : (seminfo : Bool) → Eats (after_newline seminfo)
after_newline-Eats seminfo n ls h =
    Leaves-bind n n (inc_line_number (record ls { buffer = ls.buffer ++ (b'\n' ∷ []) })) _
      (inc_line_number-Leaves n (record ls { buffer = ls.buffer ++ (b'\n' ∷ []) }) h)
      λ _ a ha. kept seminfo a ha
  where
    kept :
        (b : Bool) (a : LexState)
        → length a.text ≤ n
        → Leaves n ((if b then pure tt else reset_buffer) a)
    kept true a ha = ha
    kept false a ha = ha

save_if-Eats : (seminfo : Bool) → Eats (save_if seminfo)
save_if-Eats true n ls h = omega (arith, length-tail_of ls.text)
save_if-Eats false n ls h = omega (arith, length-tail_of ls.text)

module _ (seminfo : Bool) (sep : ℕ) where
  after_open :
      (m n : ℕ) (a : LexState)
      → ((n : ℕ) (ls : LexState)
          → length ls.text < m
          → length ls.text ≤ n
          → Leaves n (long_string_loop m seminfo sep ls))
      → (s : Sep) → length a.text < m
      → length a.text ≤ n
      → Leaves n (
          (if same_sep s sep
              then (do
                save_and_next
                if sep == 0 then throw nesting_deprecated else long_string_loop m seminfo sep)
              else long_string_loop m seminfo sep)
            a)
  after_open m n a ih s la ha = elim (Bool-cases (same_sep s sep)) [
    | inr e ↦ rw e (ih n a la ha)
    | inl e ↦ rw e (elim (Bool-cases (sep == 0)) [
      | inl z ↦ rw z tt
      | inr z ↦ rw z (
          ih n (stepped a) (omega (arith, length-tail_of a.text))
            (omega (arith, length-tail_of a.text)))
    ])
  ]

  after_close :
      (m n : ℕ) (a : LexState)
      → ((n : ℕ) (ls : LexState)
          → length ls.text < m
          → length ls.text ≤ n
          → Leaves n (long_string_loop m seminfo sep ls))
      → (s : Sep) → length a.text < m
      → length a.text ≤ n
      → Leaves n ((if same_sep s sep then save_and_next else long_string_loop m seminfo sep) a)
  after_close m n a ih s la ha = elim (Bool-cases (same_sep s sep)) [
    | inr e ↦ rw e (ih n a la ha)
    | inl e ↦ rw e (omega (arith, length-tail_of a.text))
  ]

  long_string_loop-Leaves :
      (m n : ℕ) (ls : LexState)
      → length ls.text < m
      → length ls.text ≤ n
      → Leaves n (long_string_loop m seminfo sep ls)
  unfolding long_string_loop
  long_string_loop-Leaves zero n ls h l = absurd (omega arith)
  long_string_loop-Leaves (suc m) n ls h l = elim (Option-cases (head_of ls.text)) [
    | inl e ↦ rw e (ground arith)
    | inr (b, e) ↦
        let pos = head_pos ls.text e in
        let ih = long_string_loop-Leaves m in
        rw e (elim (Bool-cases (b == b'[')) [
          | inl o ↦
              rw o
                (Eats-then skip_sep _ m n ls skip_sep-Eats (λ s a. after_open m n a ih s) pos h l)
          | inr o ↦ rw o (elim (Bool-cases (b == b']')) [
            | inl c ↦
                rw c (
                  Eats-then skip_sep _ m n ls skip_sep-Eats (λ s a. after_close m n a ih s) pos h l)
            | inr c ↦ rw c (elim (Bool-cases (is_newline b)) [
              | inl w ↦ rw w (
                  Eats-then (after_newline seminfo) _ m n ls (after_newline-Eats seminfo)
                    (λ _ a. ih n a) pos h l)
              | inr w ↦ rw w (
                  Eats-then (save_if seminfo) _ m n ls (save_if-Eats seminfo) (λ _ a. ih n a) pos h
                    l)
            ])
          ])
        ])
  ]

  pub read_long_string-Eats : Eats (read_long_string seminfo sep)
  unfolding read_long_string
  read_long_string-Eats n ls h =
      Leaves-bind n n
        ((if passes is_newline (head_of (stepped ls).text) then inc_line_number else pure tt)
          (stepped ls))
        _ (skipped (passes is_newline (head_of (stepped ls).text)))
        λ _ a ha.
          Leaves-bind n n (long_string_loop (fuel a) seminfo sep a) _
            (long_string_loop-Leaves (fuel a) n a (omega arith) ha) λ _ b hb. hb
    where
      skipped : (b : Bool) → Leaves n ((if b then inc_line_number else pure tt) (stepped ls))
      skipped true = inc_line_number-Keeps n (stepped ls) (stepped-le n ls h)
      skipped false = stepped-le n ls h
