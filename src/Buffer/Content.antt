-- ===== src/Buffer/Content.antt =====
-- What a buffer holds, in its array and in its pieces on the stack.
use luaxx.Base.{
  ℕ, zero, suc, ◌+◌, ◌-◌, ◌≤◌, ◌<◌, ◌≡◌, refl, sym, ap, ◌∙◌, List, [], ◌∷◌, ◌++◌, append-nil,
  append_assoc, Bool, true, false, length, drop, ltb, if◌then◌else◌, ◌⊎◌, inl, inr, arith,
  Bool-cases,
}
use luaxx.Chunk.{Str}
use luaxx.Buffer.{
  Buffer, limit, concat_top, strlen, pushed, is_empty, empty_buffer, adjust_loop, joined,
  adjust_stack, adjusted_if, prep_buffer, push_result,
}

-- the topmost `n` strings, the lowest one first
unfoldable pub text_of : ℕ → List Str → Str
text_of zero stack = []
text_of (suc n) [] = []
text_of (suc n) (s ∷ stack) = text_of n stack ++ s

-- The buffer holds `text`, on top of the stack `base`.
pub record Collects (text : Str) (base : List Str) (b : Buffer) : Type 0 where
  pub content : text_of b.lvl b.stack ++ b.chars ≡ text
  pub below : drop b.lvl b.stack ≡ base
  pub enough : b.lvl ≤ length b.stack

text_of-concat_top :
    (j m k : ℕ) (stack : List Str)
    → k ≡ suc j + m
    → k ≤ length stack
    → text_of (suc m) (concat_top (suc j) stack) ≡ text_of k stack
unfolding text_of concat_top
text_of-concat_top zero m k stack e h = let same : k ≡ suc m = omega arith in rw same refl
text_of-concat_top (suc j) m zero stack e h = absurd (omega arith)
text_of-concat_top (suc j) m (suc zero) stack e h = absurd (omega arith)
text_of-concat_top (suc j) m (suc (suc k)) [] e h = absurd (omega arith)
text_of-concat_top (suc j) m (suc (suc k)) (s ∷ []) e h = absurd (omega arith)
text_of-concat_top (suc j) m (suc (suc k)) (s ∷ t ∷ stack) e h =
    text_of-concat_top j m (suc k) ((t ++ s) ∷ stack) (omega arith) (omega arith)
    ∙ sym (append_assoc (text_of k stack) t s)

drop-concat_top :
    (j m k : ℕ) (stack : List Str)
    → k ≡ suc j + m
    → k ≤ length stack
    → drop (suc m) (concat_top (suc j) stack) ≡ drop k stack
unfolding concat_top
drop-concat_top zero m k stack e h = let same : k ≡ suc m = omega arith in rw same refl
drop-concat_top (suc j) m zero stack e h = absurd (omega arith)
drop-concat_top (suc j) m (suc zero) stack e h = absurd (omega arith)
drop-concat_top (suc j) m (suc (suc k)) [] e h = absurd (omega arith)
drop-concat_top (suc j) m (suc (suc k)) (s ∷ []) e h = absurd (omega arith)
drop-concat_top (suc j) m (suc (suc k)) (s ∷ t ∷ stack) e h =
    drop-concat_top j m (suc k) ((t ++ s) ∷ stack) (omega arith) (omega arith)

length-concat_top :
    (j : ℕ) (stack : List Str)
    → suc j ≤ length stack
    → length (concat_top (suc j) stack) + j ≡ length stack
unfolding concat_top
length-concat_top zero stack h = omega arith
length-concat_top (suc j) [] h = absurd (omega arith)
length-concat_top (suc j) (s ∷ []) h = absurd (omega arith)
length-concat_top (suc j) (s ∷ t ∷ stack) h =
    let rest = length-concat_top j ((t ++ s) ∷ stack) (omega arith) in omega arith

-- Where adjuststack stops: all pieces are one, or few are left.
abbrev Stops : ℕ → ℕ → ℕ → Type 0
Stops lvl toget r = (toget ≤ r) × (r ≤ lvl) × ((r ≡ lvl) ⊎ (lvl - r + 1 < limit))

Stops-if :
    (t : Bool) (lvl toget rest : ℕ)
    → Stops lvl (toget + 1) rest
    → (t ≡ false → lvl - toget + 1 < limit)
    → toget ≤ lvl
    → Stops lvl toget (if t then rest else toget)
Stops-if true lvl toget rest (more, fits, few) h l = (omega arith, fits, few)
Stops-if false lvl toget rest s h l = (omega arith, l, inr (h refl))

adjust_loop-Stops :
    (n : ℕ) (b : Buffer) (toget toplen : ℕ)
    → toget + n ≡ b.lvl
    → Stops b.lvl toget (adjust_loop n b toget toplen)
unfolding adjust_loop
adjust_loop-Stops zero b toget toplen e = (omega arith, omega arith, inl (omega arith))
adjust_loop-Stops (suc n) b toget toplen e =
    Stops-if _ b.lvl toget _
      (adjust_loop-Stops n b (toget + 1) (toplen + strlen b.stack toget) (omega arith))
      (λ stop. ground arith) (omega arith)

pub adjust_stack-chars : (b : Buffer) → (adjust_stack b).chars ≡ b.chars
unfolding adjust_stack
adjust_stack-chars b = ground arith

pub is_empty-nil : (s : Str) → is_empty s ≡ true → s ≡ []
is_empty-nil [] e = refl
is_empty-nil (c ∷ s) e = absurd cc

module _ (text : Str) (base : List Str) where
  joined-Collects :
      (toget : ℕ) (b : Buffer)
      → Collects text base b
      → 1 ≤ toget
      → toget ≤ b.lvl
      → Collects text base (joined toget b)
  joined-Collects zero b h l k = absurd (omega arith)
  joined-Collects (suc j) b h l k =
      let all : b.lvl ≡ suc j + (b.lvl - suc j) = omega arith in
      let enough = h.enough in
      let length_is = length-concat_top j b.stack (omega arith) in
      record {
        content = rw (text_of-concat_top j (b.lvl - suc j) b.lvl b.stack all h.enough) h.content;
        below = rw (drop-concat_top j (b.lvl - suc j) b.lvl b.stack all h.enough) h.below;
        enough = omega arith;
      }

  -- Joining pieces does not change what is held, and leaves fewer than LIMIT pieces.
  pub adjust_stack-Collects :
      (b : Buffer)
      → Collects text base b
      → Collects text base (adjust_stack b) × ((adjust_stack b).lvl < limit)
  unfolding adjust_stack
  adjust_stack-Collects b h = elim (Bool-cases (ltb 1 b.lvl)) [
    | inr e ↦ rw e (h, ground (arith, e))
    | inl e ↦
        let more : 1 < b.lvl = ground (arith, e) in
        let (least, most, few) =
          adjust_loop-Stops (b.lvl - 1) b 1 (strlen b.stack 0) (omega arith) in
        rw e (joined-Collects _ b h least most, omega arith)
  ]

  pub pushed-Collects : (b : Buffer) → Collects text base b → Collects text base (pushed b)
  unfolding text_of
  pushed-Collects b h = record {
    content = append-nil (text_of b.lvl b.stack ++ b.chars) ∙ h.content;
    below = h.below;
    enough = let k = h.enough in omega arith;
  }

  adjusted_if-Collects :
      (t : Bool) (b : Buffer)
      → Collects text base b
      → b.lvl < limit
      → is_empty b.chars ≡ t
      → Collects text base (adjusted_if (if t then (false, b) else (true, pushed b)))
        × ((adjusted_if (if t then (false, b) else (true, pushed b))).lvl < limit)
        × ((adjusted_if (if t then (false, b) else (true, pushed b))).chars ≡ [])
  adjusted_if-Collects true b h few e = (h, few, is_empty-nil b.chars e)
  adjusted_if-Collects false b h few e =
      let (held, less) = adjust_stack-Collects (pushed b) (pushed-Collects b h) in
      (held, less, adjust_stack-chars (pushed b))

  pub prep_buffer-Collects :
      (b : Buffer)
      → Collects text base b
      → b.lvl < limit
      → Collects text base (prep_buffer b)
        × ((prep_buffer b).lvl < limit)
        × ((prep_buffer b).chars ≡ [])
  unfolding prep_buffer empty_buffer
  prep_buffer-Collects b h few = adjusted_if-Collects (is_empty b.chars) b h few refl

one_piece : (stack : List Str) → 0 < length stack → stack ≡ text_of 1 stack ∷ drop 1 stack
unfolding text_of
one_piece [] h = absurd (omega arith)
one_piece (s ∷ stack) h = refl

-- The pieces are joined into one string, or the empty string is pushed.
concat_top-text :
    (n : ℕ) (stack : List Str)
    → n ≤ length stack
    → concat_top n stack ≡ text_of n stack ∷ drop n stack
unfolding concat_top text_of
concat_top-text zero stack h = refl
concat_top-text (suc j) stack h =
    let counted = length-concat_top j stack h in
    one_piece (concat_top (suc j) stack) (omega arith)
    ∙ ap (λ t. t ∷ drop 1 (concat_top (suc j) stack))
        (text_of-concat_top j 0 (suc j) stack (omega arith) h)
    ∙ ap (λ t. text_of (suc j) stack ∷ t) (drop-concat_top j 0 (suc j) stack (omega arith) h)

module _ (base : List Str) where
  pieces-text :
      (text : Str) (b : Buffer)
      → Collects text base b
      → b.chars ≡ []
      → concat_top b.lvl b.stack ≡ text ∷ base
  pieces-text text b h e =
      concat_top-text b.lvl b.stack h.enough
      ∙ ap (λ t. t ∷ drop b.lvl b.stack)
          (sym (append-nil (text_of b.lvl b.stack))
            ∙ ap (λ t. text_of b.lvl b.stack ++ t) (sym e)
            ∙ h.content)
      ∙ ap (λ t. text ∷ t) h.below

  abbrev spilled : Bool → Buffer → Buffer
  spilled t b = let pair : Bool × Buffer = if t then (false, b) else (true, pushed b) in pair.1

  pub push_result-stack :
      (text : Str) (b : Buffer) → Collects text base b → (push_result b).stack ≡ text ∷ base
  unfolding push_result empty_buffer
  push_result-stack text b h = by_test (is_empty b.chars) refl
    where
      by_test :
          (t : Bool)
          → is_empty b.chars ≡ t
          → concat_top (spilled t b).lvl (spilled t b).stack ≡ text ∷ base
      by_test true e = pieces-text text b h (is_empty-nil b.chars e)
      by_test false e = pieces-text text (pushed b) (pushed-Collects text base b h) refl
