-- ===== src/Buffer/Result.antt =====
-- What luaL_pushresult leaves of what was added to a buffer.
use luaxx.Base.{
  ℕ, suc, ◌-◌, ◌≤◌, ◌<◌, ◌≡◌, refl, sym, ap, ◌∙◌, List, [], ◌∷◌, ◌++◌, append-nil, append_assoc,
  Bool, true, false, length, ltb, leb, if◌then◌else◌, arith, length-append,
}
use luaxx.Chunk.{Str}
use luaxx.Buffer.{
  Buffer, limit, buffinit, pushed, is_empty, empty_buffer, prep_buffer, put_char, value_on_top,
  push_result, add_char, add_lstring, count_value, add_value,
}
use luaxx.Buffer.Content.{
  text_of, Collects, is_empty-nil, adjust_stack-chars, adjust_stack-Collects, pushed-Collects,
  prep_buffer-Collects, push_result-stack,
}

-- The buffer holds `text`, within its array, in fewer than LIMIT pieces.
pub record Holds (size : ℕ) (text : Str) (base : List Str) (b : Buffer) : Type 0 where
  pub collects : Collects text base b
  pub few : b.lvl < limit
  pub fits : length b.chars ≤ size

put_char-Collects :
    (text : Str) (base : List Str) (c : ℕ) (b : Buffer)
    → Collects text base b
    → Collects (text ++ (c ∷ [])) base (put_char c b)
put_char-Collects text base c b h = record {
  content =
      sym (append_assoc (text_of b.lvl b.stack) b.chars (c ∷ []))
      ∙ ap (λ t. t ++ (c ∷ [])) h.content;
  below = h.below;
  enough = h.enough;
}

module _ (size : ℕ) (base : List Str) (room : 0 < size) where
  add_char-Holds :
      (text : Str) (c : ℕ) (b : Buffer)
      → Holds size text base b
      → Holds size (text ++ (c ∷ [])) base (add_char size c b)
  unfolding add_char
  add_char-Holds text c b h = by_room (ltb (length b.chars) size) refl
    where
      by_room :
          (t : Bool)
          → ltb (length b.chars) size ≡ t
          → Holds size (text ++ (c ∷ [])) base (put_char c (if t then b else prep_buffer b))
      by_room true e = record {
        collects = put_char-Collects text base c b h.collects;
        few = h.few;
        fits = rw (length-append b.chars (c ∷ [])) (ground (arith, e));
      }
      by_room false e =
          let (held, few, none_left) = prep_buffer-Collects text base b h.collects h.few in
          record {
            collects = put_char-Collects text base c (prep_buffer b) held;
            few = few;
            fits = rw none_left room;
          }

  pub add_lstring-Holds :
      (s : Str) (text : Str) (b : Buffer)
      → Holds size text base b
      → Holds size (text ++ s) base (add_lstring size s b)
  unfolding add_lstring
  add_lstring-Holds [] text b h = rw (append-nil text) h
  add_lstring-Holds (c ∷ s) text b h =
      rw (sym (append_assoc text (c ∷ []) s))
        (add_lstring-Holds s (text ++ (c ∷ [])) (add_char size c b) (add_char-Holds text c b h))

  -- a value on top of what the buffer holds
  abbrev under : Str → Buffer → Buffer
  under s b = record b { stack = s ∷ b.stack }

  -- The value becomes a piece, where the array is empty.
  count_value-Holds :
      (text s : Str) (b : Buffer)
      → Collects text base b
      → b.chars ≡ []
      → Holds size (text ++ s) base (count_value size (under s b))
  unfolding text_of
  count_value-Holds text s b h e =
      let counted : Buffer = record (under s b) { lvl = suc b.lvl } in
      let whole : text_of b.lvl b.stack ≡ text =
        sym (append-nil (text_of b.lvl b.stack))
        ∙ ap (λ t. text_of b.lvl b.stack ++ t) (sym e)
        ∙ h.content in
      let held : Collects (text ++ s) base counted = record {
        content =
            ap (λ t. (text_of b.lvl b.stack ++ s) ++ t) e
            ∙ append-nil (text_of b.lvl b.stack ++ s)
            ∙ ap (λ t. t ++ s) whole;
        below = h.below;
        enough = let k = h.enough in omega arith;
      } in
      let (same, few) = adjust_stack-Collects (text ++ s) base counted held in
      record { collects = same; few = few; fits = rw (adjust_stack-chars counted, e) (omega arith) }

  spilled-Holds :
      (text s : Str) (t : Bool) (b : Buffer)
      → Holds size text base b
      → is_empty b.chars ≡ t
      → Holds size (text ++ s) base (
          count_value size
            (value_on_top (if t then (false, under s b) else (true, pushed (under s b)))))
  spilled-Holds text s true b h e = count_value-Holds text s b h.collects (is_empty-nil b.chars e)
  spilled-Holds text s false b h e =
      count_value-Holds text s (pushed b) (pushed-Collects text base b h.collects) refl

  copied-Holds :
      (text s : Str) (b : Buffer)
      → Holds size text base b
      → length s ≤ size - length b.chars
      → Holds size (text ++ s) base (record b { chars = b.chars ++ s })
  copied-Holds text s b h l =
      let held = h.collects in
      let fits = h.fits in
      record {
        collects = record {
          content =
              sym (append_assoc (text_of b.lvl b.stack) b.chars s) ∙ ap (λ t. t ++ s) held.content;
          below = held.below;
          enough = held.enough;
        };
        few = h.few;
        fits = rw (length-append b.chars s) (omega arith);
      }

  pub add_value-Holds :
      (text s : Str) (b : Buffer)
      → Holds size text base b
      → Holds size (text ++ s) base (add_value size (under s b))
  unfolding add_value empty_buffer
  add_value-Holds text s b h = by_room (leb (length s) (size - length b.chars)) refl
    where
      by_room :
          (t : Bool)
          → leb (length s) (size - length b.chars) ≡ t
          → Holds size (text ++ s) base (
              if t
              then record b { chars = b.chars ++ s }
              else count_value size (
                  value_on_top
                    (if is_empty b.chars then (false, under s b) else (true, pushed (under s b)))))
      by_room true e = copied-Holds text s b h (ground (arith, e))
      by_room false e = spilled-Holds text s (is_empty b.chars) b h refl

-- What a library function does with a buffer: it adds bytes, or a value that it pushes.
pub data Addition : Type 0 where
  bytes value : Str → Addition

abbrev pub added : Addition → Str
added (bytes s) = s
added (value s) = s

abbrev pub all_added : List Addition → Str
all_added [] = []
all_added (a ∷ rest) = added a ++ all_added rest

abbrev pub add : ℕ → Addition → Buffer → Buffer
add size (bytes s) b = add_lstring size s b
add size (value s) b = add_value size (record b { stack = s ∷ b.stack })

unfoldable pub add_all : ℕ → List Addition → Buffer → Buffer
add_all size [] b = b
add_all size (a ∷ rest) b = add_all size rest (add size a b)

module _ (size : ℕ) (base : List Str) (room : 0 < size) where
  add-Holds :
      (a : Addition) (text : Str) (b : Buffer)
      → Holds size text base b
      → Holds size (text ++ added a) base (add size a b)
  add-Holds (bytes s) text b h = add_lstring-Holds size base room s text b h
  add-Holds (value s) text b h = add_value-Holds size base room text s b h

  add_all-Holds :
      (rest : List Addition) (text : Str) (b : Buffer)
      → Holds size text base b
      → Holds size (text ++ all_added rest) base (add_all size rest b)
  unfolding add_all
  add_all-Holds [] text b h = rw (append-nil text) h
  add_all-Holds (a ∷ rest) text b h =
      rw (sym (append_assoc text (added a) (all_added rest)))
        (add_all-Holds rest (text ++ added a) (add size a b) (add-Holds a text b h))

  pub buffinit-Holds : Holds size [] base (buffinit base)
  unfolding buffinit text_of
  buffinit-Holds = record {
    collects = record { content = refl; below = refl; enough = omega arith };
    few = omega arith;
    fits = omega arith;
  }

  -- Whatever bytes and values a function adds to a buffer, luaL_pushresult leaves their
  -- concatenation on top of the stack that was there when the buffer was initialised; before it,
  -- the buffer is within its array and has fewer than LIMIT pieces on the stack. BUFSIZ is not 0.
  pub collected :
      (rest : List Addition)
      → let b = add_all size rest (buffinit base) in
        ((push_result b).stack ≡ all_added rest ∷ base) × (b.lvl < limit) × (length b.chars ≤ size)
  collected rest =
      let h = add_all-Holds rest [] (buffinit base) buffinit-Holds in
      (
        push_result-stack base (all_added rest) (add_all size rest (buffinit base)) h.collects,
        h.few,
        h.fits,
      )
