-- ===== src/Parser/Keeps/Names.antt =====
-- Names: singlevar keeps the functions and blocks that are open.
use luaxx.Base.{
  ℕ, ◌≡◌, refl, ◌∙◌, List, [], ◌∷◌, Option, none, some, Bool, true, false, length, arith,
}
use luaxx.Chunk.{Str}
use luaxx.Code.Constants.{FloatOps, string_k}
use luaxx.Scope.{
  Var, global, local, upval, Level, Block, Out, gives, refused, and_then, index_upvalue,
  find_upvalue, search_var, mark_blocks, captured, single_var_aux, global_name, single_var,
  generate,
}
use luaxx.Parser.{Parser, refusal, codestring, name_var, levels_result}
use luaxx.Parser.Keeps.{
  is_grammars, Ensures, shape, After, Safe, Still, Safe-Still, Still-pure, Still-bind,
}
use luaxx.Parser.Keeps.Kept.{Kept}
use luaxx.Parser.Keeps.Levels.{generate-Kept, Still-emit}

length-mark_blocks : (i : ℕ) (bls : List Block) → length (mark_blocks i bls) ≡ length bls
unfolding mark_blocks
length-mark_blocks i [] = refl
length-mark_blocks i (bl ∷ bls) = ground (arith, length-mark_blocks i bls)

index_upvalue-Kept : (name : Str) (v : Var) (fs : Level) → Kept fs (index_upvalue name v fs)
unfolding index_upvalue is_grammars
index_upvalue-Kept name v fs = by_place (find_upvalue v fs.upvalues) refl
  where
    by_place : (o : Option ℕ) → find_upvalue v fs.upvalues ≡ o → Kept fs (index_upvalue name v fs)
    by_place (some i) e = rw (Kept, e) refl
    by_place none e = rw (Kept, e) (ground arith)

-- as many functions and blocks as before
abbrev Opened : {A : Type 0} → List Level → Out (List Level) A → Type 0
Opened levels (gives a levels') = shape levels' ≡ shape levels
Opened levels (refused e) = is_grammars (refusal e) ≡ false

Opened-trans :
    {A : Type 0} (levels levels' : List Level) (r : Out (List Level) A)
    → shape levels' ≡ shape levels
    → Opened levels' r
    → Opened levels r
Opened-trans levels levels' (gives a levels'') h k = k ∙ h
Opened-trans levels levels' (refused e) h k = k

upvalue-Opened :
    (fs : Level) (prev prev' : List Level) (r : Out Level ℕ)
    → Kept fs r
    → shape prev' ≡ shape prev
    → Opened (fs ∷ prev) (and_then r (λ j fs'. gives (upval j) (fs' ∷ prev')))
unfolding shape
upvalue-Opened fs prev prev' (gives j fs') k h = rw (k, h) refl
upvalue-Opened fs prev prev' (refused e) k h = k

captured-Opened :
    (name : Str) (fs : Level) (prev : List Level) (r : Out (List Level) Var)
    → Opened prev r
    → Opened (fs ∷ prev) (and_then r (captured name fs))
unfolding shape
captured-Opened name fs prev (gives (global i) prev') h = rw h refl
captured-Opened name fs prev (gives (local i) prev') h =
    upvalue-Opened fs prev prev' _ (index_upvalue-Kept name (local i) fs) h
captured-Opened name fs prev (gives (upval i) prev') h =
    upvalue-Opened fs prev prev' _ (index_upvalue-Kept name (upval i) fs) h
captured-Opened name fs prev (refused e) h = h

single_var_aux-Opened :
    (levels : List Level) (name : Str) (base : Bool)
    → Opened levels (single_var_aux levels name base)
unfolding single_var_aux shape
single_var_aux-Opened [] name base = refl
single_var_aux-Opened (fs ∷ prev) name base =
    by_place (search_var fs name) refl (single_var_aux-Opened prev name false)
  where
    by_place :
        (o : Option ℕ)
        → search_var fs name ≡ o
        → Opened prev (single_var_aux prev name false)
        → Opened (fs ∷ prev) (single_var_aux (fs ∷ prev) name base)
    by_place (some v) e h = rw (Opened, e) (ground (arith, length-mark_blocks v fs.blocks))
    by_place none e h =
        rw (Opened, e) (captured-Opened name fs prev (single_var_aux prev name false) h)

module _ ⦃fp : FloatOps⦄ where
  global_name-Opened :
      (name : Str) (v : Var) (levels : List Level) → Opened levels (global_name name v levels)
  unfolding shape
  global_name-Opened name (global i) [] = refl
  global_name-Opened name (global i) (fs ∷ prev) =
      constant-Opened (generate (string_k name) fs) (generate-Kept (string_k name) fs)
    where
      constant-Opened :
          (r : Out Level ℕ)
          → Kept fs r
          → Opened (fs ∷ prev) (and_then r (λ k fs'. gives (global k) (fs' ∷ prev)))
      constant-Opened (gives k fs') h = rw h refl
      constant-Opened (refused e) h = h
  global_name-Opened name (local i) levels = refl
  global_name-Opened name (upval i) levels = refl

  single_var-Opened : (name : Str) (levels : List Level) → Opened levels (single_var name levels)
  unfolding single_var
  single_var-Opened name levels =
      then_ (single_var_aux levels name true) (single_var_aux-Opened levels name true)
    where
      then_ :
          (r : Out (List Level) Var)
          → Opened levels r
          → Opened levels (and_then r (global_name name))
      then_ (gives v levels') h =
          Opened-trans levels levels' _ h (global_name-Opened name v levels')
      then_ (refused e) h = h

module _ {n : ℕ} ⦃fp : FloatOps⦄ where
  pub Still-codestring : (s : Str) → Still n (codestring s)
  unfolding codestring
  Still-codestring s = Still-bind _ _ (Still-emit _) λ k. Still-pure _

  pub Safe-codestring : (s : Str) → Safe n (codestring s)
  Safe-codestring s = Safe-Still _ (Still-codestring s)

  pub Safe-name_var : (name : Str) → Safe n (name_var name)
  unfolding name_var
  Safe-name_var name = record {
    at = λ s r. by_result s (single_var name s.levels) (single_var-Opened name s.levels);
  }
    where
      by_result :
          (s : Parser) (r : Out (List Level) Var)
          → Opened s.levels r
          → Ensures (λ _ s'. After s s') (levels_result s r)
      by_result s (gives v levels) h = record { tokens = omega arith; calls = refl; opened = h }
      by_result s (refused e) h = h
