-- ===== src/Lexer/Ends.antt =====
-- `llex` on every text: strings, comments and the loop over the characters.
use luaxx.Base.{
  ℕ, zero, suc, ◌-◌, ◌≤◌, ◌<◌, ◌≡◌, refl, List, [], ◌∷◌, none, Bool, true, false, length, ◌==◌,
  if◌then◌else◌, is_digit, is_space, arith, ◌≢◌, ◌⊎◌, Bool-cases, Option-cases, inl, inr,
}
use luaxx.Object.{Strto}
use luaxx.Lexer.{
  Token, char, tk_string, tk_eq, tk_le, tk_ge, tk_ne, tk_dots, tk_concat, LexState, LexError,
  endless, Result, ok, error, pure, ◌>>=◌, ◌>>◌, head_of, tail_of, current, next, passes,
  is_newline, inc_line_number,
}
use luaxx.Lexer.Scan.{
  fuel, check_next, save_while, read_numeral, Sep, skip_sep, read_long_string, step_in_string,
  string_loop, read_string,
}
use luaxx.Lexer.Lex.{
  skip_while, short_comment, after_sep, comment, after_bracket, bracket, with_equals, identifier,
  numeral, dots, token_at, lex_loop, lex,
}
use luaxx.Lexer.Fuel.{
  Leaves, Leaves-bind, Eats, Keeps, stepped, stepped-le, save_while-Leaves, inc_line_number-Leaves,
  length-tail_of, passes_pos, head_pos, skip_sep-Eats, read_numeral-Eats, read_long_string-Eats,
  escape-Keeps, check_next-Leaves, Eats-then,
}

step_in_string-Eats : (b : ℕ) → Eats (step_in_string b)
step_in_string-Eats b n ls h =
    let stepped_on = stepped-le n ls h in
    let escaped =
      escape-Keeps (head_of (tail_of ls.text)) n (record ls { text = tail_of ls.text })
        stepped_on in
    ground (arith, stepped_on, escaped)

string_loop-Leaves :
    (m del n : ℕ) (ls : LexState)
    → length ls.text < m
    → length ls.text ≤ n
    → Leaves n (string_loop m del ls)
unfolding string_loop
string_loop-Leaves zero del n ls h l = absurd (omega arith)
string_loop-Leaves (suc m) del n ls h l = elim (Option-cases (head_of ls.text)) [
  | inl e ↦ rw e tt
  | inr (b, e) ↦ rw e (elim (Bool-cases (b == del)) [
    | inl c ↦ rw c l
    | inr c ↦ rw c (
        Eats-then (step_in_string b) _ m n ls (step_in_string-Eats b)
          (λ _ a. string_loop-Leaves m del n a) (head_pos ls.text e) h l)
  ])
]

read_string-Eats : (del : ℕ) → Eats (read_string del)
unfolding read_string
read_string-Eats del n ls h =
    let a = stepped ls in
    let ha = stepped-le n ls h in
    Leaves-bind n n (string_loop (fuel a) del a) _
      (string_loop-Leaves (fuel a) del n a (omega arith) ha)
      λ _ b hb. omega (arith, length-tail_of b.text)

skip_while-Leaves :
    (p : ℕ → Bool) (m n : ℕ) (ls : LexState)
    → length ls.text < m
    → length ls.text ≤ n
    → Leaves n (skip_while p m ls)
unfolding skip_while
skip_while-Leaves p zero n ls h l = absurd (omega arith)
skip_while-Leaves p (suc m) n ls h l = elim (Bool-cases (passes p (head_of ls.text))) [
  | inl e ↦ rw e (
      skip_while-Leaves p m n _ (omega (arith, length-tail_of ls.text, passes_pos p ls.text e))
        (omega (arith, length-tail_of ls.text)))
  | inr e ↦ rw e l
]

short_comment-Keeps : Keeps short_comment
unfolding short_comment
short_comment-Keeps n ls h = skip_while-Leaves _ (fuel ls) n ls (omega arith) h

comment-Keeps : Keeps comment
unfolding comment
comment-Keeps n ls h = elim (Bool-cases (passes (λ x. x == b'[') (head_of ls.text))) [
  | inr e ↦ rw e (short_comment-Keeps n ls h)
  | inl e ↦ rw e (
      Leaves-bind n n (skip_sep ls) _ (skip_sep-Eats n ls (omega arith))
        λ s a ha. rest s (record a { buffer = [] }) ha)
]
  where
    rest : (s : Sep) (a : LexState) → length a.text ≤ n → Leaves n (after_sep s a)
    rest (true, sep) a ha =
        Leaves-bind n n (read_long_string false sep a) _
          (read_long_string-Eats false sep n a (omega arith)) λ _ b hb. hb
    rest (false, _) a ha = short_comment-Keeps n a ha

bracket-Eats : Eats bracket
unfolding bracket
bracket-Eats n ls h = Leaves-bind n n (skip_sep ls) _ (skip_sep-Eats n ls h) λ s a ha. rest s a ha
  where
    rest : (s : Sep) (a : LexState) → length a.text ≤ n → Leaves n (after_bracket s a)
    rest (true, sep) a ha =
        Leaves-bind n n (read_long_string true sep a) _
          (read_long_string-Eats true sep n a (omega arith)) λ _ b hb. hb
    rest (false, zero) a ha = ha
    rest (false, suc k) a ha = tt

with_equals-Eats : (c : ℕ) (pair : Token) → Eats (with_equals c pair)
unfolding with_equals
with_equals-Eats c pair n ls h =
    ground (arith, length-tail_of ls.text, length-tail_of (tail_of ls.text))

identifier-Eats : Eats identifier
unfolding identifier
identifier-Eats n ls h =
    let a = stepped ls in
    let ha = stepped-le n ls h in
    Leaves-bind n n (save_while _ (fuel a) a) _ (save_while-Leaves _ (fuel a) n a (omega arith) ha)
      λ _ b hb. hb

module _ ⦃lib : Strto⦄ (point : ℕ) where
  numeral-Eats : Eats (numeral point)
  unfolding numeral
  numeral-Eats n ls h =
      Leaves-bind n n (read_numeral point ls) _ (read_numeral-Eats point n ls h) λ _ a ha. ha

  numeral-Keeps : Keeps (numeral point)
  numeral-Keeps n ls h = numeral-Eats n ls (omega arith)

  dots-Eats : Eats (dots point)
  unfolding dots
  dots-Eats n ls h =
      Leaves-bind n n (check_next (b'.' ∷ []) (stepped ls)) _
        (check_next-Leaves (b'.' ∷ []) n (stepped ls) (stepped-le n ls h)) rest
    where
      rest :
          (two : Bool) (a : LexState)
          → length a.text ≤ n
          → Leaves n (
              (if two
                  then (do
                    three ← check_next (b'.' ∷ [])
                    pure (if three then tk_dots else tk_concat))
                  else (do
                    c ← current
                    if passes is_digit c then numeral point else pure (char b'.')))
                a)
      rest true a ha =
          Leaves-bind n n (check_next (b'.' ∷ []) a) _ (check_next-Leaves (b'.' ∷ []) n a ha)
            λ _ b hb. hb
      rest false a ha = elim (Bool-cases (passes is_digit (head_of a.text))) [
        | inl e ↦ rw e (numeral-Keeps n a ha)
        | inr e ↦ rw e ha
      ]

  token_at-Eats : (c : ℕ) → Eats (token_at point c)
  unfolding token_at
  token_at-Eats c n ls h =
      let quoted : Leaves n ((do s ← read_string c; pure (tk_string s)) ls) =
        Leaves-bind n n (read_string c ls) _ (read_string-Eats c n ls h) λ _ a ha. ha in
      ground (
        arith,
        bracket-Eats n ls h,
        with_equals-Eats c tk_eq n ls h,
        with_equals-Eats c tk_le n ls h,
        with_equals-Eats c tk_ge n ls h,
        with_equals-Eats c tk_ne n ls h,
        quoted,
        dots-Eats n ls h,
        numeral-Eats n ls h,
        identifier-Eats n ls h,
        length-tail_of ls.text,
      )

  after_minus :
      (m n : ℕ)
      → ((n : ℕ) (ls : LexState)
          → length ls.text < m
          → length ls.text ≤ suc n
          → Leaves n (lex_loop point m ls))
      → (a : LexState) → length a.text < m
      → length a.text ≤ n
      → Leaves n (
          (do
            d ← current
            if passes (λ x. x == b'-') d
                then (do next; comment; lex_loop point m)
                else pure (char b'-'))
            a)
  after_minus m n ih a la ha = elim (Bool-cases (passes (λ x. x == b'-') (head_of a.text))) [
    | inr e ↦ rw e ha
    | inl e ↦
        let b = record a { text = tail_of a.text } in
        rw e (
          Leaves-bind (length b.text) n (comment b) _
            (comment-Keeps (length b.text) b (omega arith))
            λ _ c hc.
              ih n c (omega (arith, length-tail_of a.text)) (omega (arith, length-tail_of a.text)))
  ]

  -- The loop with enough fuel leaves less text than there was, unless there was none.
  lex_loop-Leaves :
      (m n : ℕ) (ls : LexState)
      → length ls.text < m
      → length ls.text ≤ suc n
      → Leaves n (lex_loop point m ls)
  unfolding lex_loop
  lex_loop-Leaves zero n ls h l = absurd (omega arith)
  lex_loop-Leaves (suc m) n ls h l = elim (Option-cases (head_of ls.text)) [
    | inl e ↦ rw e (nothing ls.text e)
    | inr (b, e) ↦
        let pos = head_pos ls.text e in
        rw e (elim (Bool-cases (is_newline b)) [
          | inl w ↦ rw w (
              Leaves-bind (length ls.text - 1) n (inc_line_number ls) _
                (inc_line_number-Leaves (length ls.text - 1) ls (omega arith))
                λ _ a ha. lex_loop-Leaves m n a (omega arith) (omega arith))
          | inr w ↦ rw w (elim (Bool-cases (b == b'-')) [
            | inl minus ↦ rw minus (
                after_minus m n (lex_loop-Leaves m) (record ls { text = tail_of ls.text })
                  (omega (arith, length-tail_of ls.text)) (omega (arith, length-tail_of ls.text)))
            | inr other ↦ rw other (elim (Bool-cases (is_space b)) [
              | inl space ↦ rw space (
                  lex_loop-Leaves m n (record ls { text = tail_of ls.text })
                    (omega (arith, length-tail_of ls.text)) (omega (arith, length-tail_of ls.text)))
              | inr token ↦ rw token (token_at-Eats b n ls l)
            ])
          ])
        ])
  ]
    where
      nothing : (xs : List ℕ) → head_of xs ≡ none → length xs ≤ n
      nothing [] e = omega arith
      nothing (x ∷ xs) e = cc

  -- `llex` ends on every text. Where it gives a token, less text is left than there was, if there
  -- was any; else its error is one that the program throws.
  pub lex_ends :
      (ls : LexState)
      → ((token : Token) × (ls' : LexState) × (lex point ls ≡ ok token ls')
          × (length ls'.text ≤ length ls.text - 1))
        ⊎ ((e : LexError) × (lex point ls ≡ error e) × (e ≢ endless))
  unfolding lex
  lex_ends ls =
      let a = record ls { buffer = [] } in
      split (lex_loop point (fuel a) a)
        (lex_loop-Leaves (fuel a) (length ls.text - 1) a (omega arith) (omega arith))
    where
      split :
          (r : Result Token)
          → Leaves (length ls.text - 1) r
          → ((token : Token) × (ls' : LexState) × (r ≡ ok token ls')
              × (length ls'.text ≤ length ls.text - 1))
            ⊎ ((e : LexError) × (r ≡ error e) × (e ≢ endless))
      split (ok token ls') h = inl (token, ls', refl, h)
      split (error endless) h = absurd h
      split (error e) h = inr (e, refl, cc)
