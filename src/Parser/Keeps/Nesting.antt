-- ===== src/Parser/Keeps/Nesting.antt =====
-- What stands inside a block, a function or a syntax level: they are closed again.
use luaxx.Base.{
  ℕ, suc, ◌<◌, ◌≡◌, refl, ap, ◌∙◌, List, [], ◌∷◌, Bool, true, false, length, arith, if◌then◌else◌,
}
use luaxx.Opcodes.{op_close}
use luaxx.Code.Emit.{code_abc}
use luaxx.Code.Jumps.{patch_to_here}
use luaxx.Scope.{
  Level, Block, Out, gives, refused, remove_vars, enter_block, leave_block, leave_rest, leave,
  leave_first, close_upvalues, generate, and_then,
}
use luaxx.Parser.{
  Parser, Parse, pure, ◌>>=◌, at_level, at_first, level_result, tokens_left, refusal,
}
use luaxx.Parser.Scopes.{in_block}
use luaxx.Parser.Keeps.{
  is_grammars, Ensures, shape, IsOpen, Ready, After, Less, Safe, Eats, Ensures-bind, Ensures-weaken,
}
use luaxx.Parser.Keeps.Kept.{Kept}
use luaxx.Parser.Keeps.Levels.{and_then-Kept, generate-Kept, remove_vars-blocks}
use luaxx.Lexer.{Token}

-- Fewer than `k` tokens are left.
pub record Within (k : ℕ) (s s' : Parser) : Type 0 where
  pub fewer : tokens_left s'.ls < k
  pub calls : s'.calls ≡ s.calls
  pub opened : shape s'.levels ≡ shape s.levels

pub Within-After : (s s' : Parser) → Within (suc (tokens_left s.ls)) s s' → After s s'
Within-After s s' w = record {
  tokens = let h = w.fewer in omega arith;
  calls = w.calls;
  opened = w.opened;
}

pub After-Within : (s s' : Parser) → After s s' → Within (suc (tokens_left s.ls)) s s'
After-Within s s' a = record {
  fewer = let h = a.tokens in omega arith;
  calls = a.calls;
  opened = a.opened;
}

pub Within-Less : (s s' : Parser) → Within (tokens_left s.ls) s s' → Less s s'
Within-Less s s' w = record {
  after = record { tokens = let h = w.fewer in omega arith; calls = w.calls; opened = w.opened };
  fewer = w.fewer;
}

pub Less-Within : (s s' : Parser) → Less s s' → Within (tokens_left s.ls) s s'
Less-Within s s' l = record { fewer = l.fewer; calls = l.after.calls; opened = l.after.opened }

-- One block more in the innermost function.
abbrev in_block_shape : List ℕ → List ℕ
in_block_shape [] = []
in_block_shape (x ∷ xs) = suc x ∷ xs

record Entered (s s' : Parser) : Type 0 where
  pub scanner : s'.ls ≡ s.ls
  pub calls : s'.calls ≡ s.calls
  pub opened : shape s'.levels ≡ in_block_shape (shape s.levels)

enter_block-Entered :
    (b : Bool) (s : Parser) (levels : List Level)
    → shape s.levels ≡ shape levels
    → IsOpen (shape levels)
    → Ensures (λ _ s'. Entered s s') (at_first (λ fs. gives tt (enter_block b fs)) s levels)
unfolding shape enter_block
enter_block-Entered b s [] e o = absurd o
enter_block-Entered b s (fs ∷ prev) e o = record {
  scanner = refl;
  calls = refl;
  opened = rw e refl;
}

Kept-trans :
    {A : Type 0} (fs fs' : Level) (r : Out Level A)
    → length fs'.blocks ≡ length fs.blocks
    → Kept fs' r
    → Kept fs r
Kept-trans fs fs' (gives a fs'') h k = k ∙ h
Kept-trans fs fs' (refused e) h k = k

Kept-if :
    {A : Type 0} (fs : Level) (b : Bool) (x y : Out Level A)
    → Kept fs x
    → Kept fs y
    → Kept fs (if b then x else y)
Kept-if fs true x y hx hy = hx
Kept-if fs false x y hx hy = hy

close_upvalues-Kept : (bl : Block) (fs : Level) → Kept fs (close_upvalues bl fs)
close_upvalues-Kept bl fs =
    let close = generate (code_abc op_close bl.nactvar 0 0) fs in
    Kept-if fs bl.upval (and_then close λ _ fs'. gives tt fs') (gives tt fs)
      (and_then-Kept fs close (λ _ fs'. gives tt fs')
        (generate-Kept (code_abc op_close bl.nactvar 0 0) fs) λ _ fs' h. h)
      refl

leave_rest-Kept :
    (bl : Block) (fs : Level) (u : Unit {0}) (fs' : Level)
    → length fs'.blocks ≡ length fs.blocks
    → Kept fs (leave_rest bl u fs')
leave_rest-Kept bl fs u fs' h =
    let freed : Level = record fs' { gen = record fs'.gen { freereg = fs'.gen.nactvar } } in
    Kept-trans fs freed _ h (generate-Kept (patch_to_here bl.breaklist) freed)

leave-Kept : (bl : Block) (fs : Level) → Kept fs (leave bl fs)
leave-Kept bl fs =
    let closed = remove_vars bl.nactvar fs in
    Kept-trans fs closed (leave bl fs) (ap length (remove_vars-blocks bl.nactvar fs)) (
      and_then-Kept closed (close_upvalues bl closed) (leave_rest bl)
        (close_upvalues-Kept bl closed) (leave_rest-Kept bl closed))

abbrev Leaves : ℕ → Out Level (Unit {0}) → Type 0
Leaves x (gives _ fs') = length fs'.blocks ≡ x
Leaves x (refused e) = is_grammars (refusal e) ≡ false

Kept-Leaves :
    (fs : Level) (x : ℕ) (r : Out Level (Unit {0})) → length fs.blocks ≡ x → Kept fs r → Leaves x r
Kept-Leaves fs x (gives _ fs') e h = h ∙ e
Kept-Leaves fs x (refused y) e h = h

leave_first-Leaves :
    (fs : Level) (bls : List Block) (x : ℕ) → length bls ≡ suc x → Leaves x (leave_first fs bls)
leave_first-Leaves fs [] x e = absurd (omega arith)
leave_first-Leaves fs (bl ∷ bls) x e =
    Kept-Leaves (record fs { blocks = bls }) x (leave bl (record fs { blocks = bls })) (omega arith)
      (leave-Kept bl (record fs { blocks = bls }))

record Left (s : Parser) (sh : List ℕ) (s' : Parser) : Type 0 where
  pub scanner : s'.ls ≡ s.ls
  pub calls : s'.calls ≡ s.calls
  pub opened : shape s'.levels ≡ sh

level_result-Left :
    (s : Parser) (prev : List Level) (x : ℕ) (r : Out Level (Unit {0}))
    → Leaves x r
    → Ensures (λ _ s'. Left s (x ∷ shape prev) s') (level_result s prev r)
unfolding shape
level_result-Left s prev x (gives _ fs') h = record {
  scanner = refl;
  calls = refl;
  opened = rw h refl;
}
level_result-Left s prev x (refused e) h = h

leave_block-Left :
    (s : Parser) (levels : List Level) (sh : List ℕ)
    → IsOpen sh
    → shape levels ≡ in_block_shape sh
    → Ensures (λ _ s'. Left s sh s') (at_first leave_block s levels)
unfolding shape leave_block
leave_block-Left s levels [] o e = absurd o
leave_block-Left s [] (x ∷ xs) o e = absurd cc
leave_block-Left s (fs ∷ prev) (x ∷ xs) o e =
    let first : length fs.blocks ≡ suc x = cc in
    let others : shape prev ≡ xs = cc in
    rw⁻¹ others
      (level_result-Left s prev x (leave_block fs) (leave_first-Leaves fs fs.blocks x first))

module _ {n : ℕ} {A : Type 0} (b : Bool) (m : Parse A) (s : Parser) (k : ℕ) where
  -- A block is entered, and left as its code ends.
  in_block-Within :
      Ready n s
      → ((s' : Parser) → Entered s s' → Ensures (λ _ s''. Within k s' s'') (m s'))
      → Ensures (λ _ s'. Within k s s') (in_block b m s)
  unfolding in_block at_level ◌>>=◌ pure
  in_block-Within r h =
      Ensures-bind (λ _ s1. Entered s s1) _ _ _ (enter_block-Entered b s s.levels refl r.opened)
        λ _ s1 e1.
          Ensures-bind (λ _ s2. Within k s1 s2) _ (m s1) _ (h s1 e1)
            λ a s2 w.
              Ensures-bind (λ _ s3. Left s2 (shape s.levels) s3) _ _ _
                (leave_block-Left s2 s2.levels (shape s.levels) r.opened (w.opened ∙ e1.opened))
                λ _ s3 l. record {
                  fewer = rw l.scanner w.fewer;
                  calls = l.calls ∙ w.calls ∙ e1.calls;
                  opened = l.opened;
                }

in_block_shape-IsOpen : (sh : List ℕ) → IsOpen sh → IsOpen (in_block_shape sh)
in_block_shape-IsOpen [] o = o
in_block_shape-IsOpen (x ∷ xs) o = tt

Ready-Entered : {n : ℕ} (s s' : Parser) → Ready n s → Entered s s' → Ready n s'
Ready-Entered s s' r e = record {
  within = rw e.calls r.within;
  deep = rw e.calls r.deep;
  opened = rw e.opened (in_block_shape-IsOpen (shape s.levels) r.opened);
}

module _ {n : ℕ} {A : Type 0} where
  pub Safe-in_block : (b : Bool) (m : Parse A) → Safe n m → Safe n (in_block b m)
  Safe-in_block b m h = record {
    at = λ s r.
        Ensures-weaken (in_block b m s) (λ _ s'. Within-After s s')
          (in_block-Within b m s (suc (tokens_left s.ls)) r λ s1 e.
            Ensures-weaken (m s1) (λ _ s2 a. rw⁻¹ e.scanner (After-Within s1 s2 a))
              (h.at s1 (Ready-Entered s s1 r e)));
  }

  pub Eats-in_block : {t : Token} (b : Bool) (m : Parse A) → Eats n t m → Eats n t (in_block b m)
  Eats-in_block b m h = record {
    at = λ s r q.
        Ensures-weaken (in_block b m s) (λ _ s'. Within-Less s s')
          (in_block-Within b m s (tokens_left s.ls) r λ s1 e.
            Ensures-weaken (m s1) (λ _ s2 a. rw⁻¹ e.scanner (Less-Within s1 s2 a))
              (h.at s1 (Ready-Entered s s1 r e) (rw e.scanner q)));
  }
