-- ===== src/Parser/Keeps/Levels.antt =====
-- The steps that work on the functions and blocks that are open.
use luaxx.Base.{ℕ, ◌≡◌, refl, List, [], ◌∷◌, length, arith}
use luaxx.Chunk.{Str}
use luaxx.Code.State
use luaxx.Code.State.{Jump, FuncState, Run, Cmd, ExpDesc, v_k}
use luaxx.Scope.{
  Level, Block, Out, gives, refused, and_then, register_local_var, new_local_var, adjust_local_vars,
  remove_vars, generated, generate,
}
use luaxx.Parser.{update_level, see_level, on_line, emit}
use luaxx.Parser.Scopes.{new_var, adjust_vars, set_breaklist}
use luaxx.Parser.Keeps.{is_grammars, Safe, Still, Safe-Still}
use luaxx.Parser.Keeps.Kept.{Kept, Still-at_level}

generated-Kept : {A : Type 0} (fs : Level) (r : Run A) → Kept fs (generated fs r)
unfolding is_grammars
generated-Kept fs (State.ok a gen) = refl
generated-Kept fs (State.fail e) = refl

pub generate-Kept : {A : Type 0} (m : Cmd A) (fs : Level) → Kept fs (generate m fs)
generate-Kept m fs = generated-Kept fs (m fs.gen)

-- `Kept` through a step of the level that is kept
pub and_then-Kept :
    {A B : Type 0} (fs : Level) (r : Out Level A) (k : A → Level → Out Level B)
    → Kept fs r
    → ((a : A) (fs' : Level) → length fs'.blocks ≡ length fs.blocks → Kept fs (k a fs'))
    → Kept fs (and_then r k)
and_then-Kept fs (gives a fs') k h f = f a fs' h
and_then-Kept fs (refused e) k h f = h

module _ {n : ℕ} {A : Type 0} where
  pub Still-emit : (m : Cmd A) → Still n (emit m)
  unfolding emit
  Still-emit m = record {
    at = λ s r. (Still-at_level _ λ fs. generate-Kept m (on_line s.ls.lastline fs)).at s r;
  }

  pub Safe-emit : (m : Cmd A) → Safe n (emit m)
  Safe-emit m = Safe-Still _ (Still-emit m)

  pub Still-see_level : (f : Level → A) → Still n (see_level f)
  Still-see_level f = Still-at_level _ λ fs. refl

  pub Safe-see_level : (f : Level → A) → Safe n (see_level f)
  Safe-see_level f = Safe-Still _ (Still-see_level f)

new_local_var-Kept : (name : Str) (i : ℕ) (fs : Level) → Kept fs (new_local_var name i fs)
unfolding new_local_var register_local_var is_grammars
new_local_var-Kept name i fs = ground arith

pub remove_vars-blocks : (i : ℕ) (fs : Level) → (remove_vars i fs).blocks ≡ fs.blocks
unfolding remove_vars
remove_vars-blocks i fs = ground arith

pub length-set_breaklist : (l : Jump) (bls : List Block) → length (set_breaklist l bls) ≡ length bls
unfolding set_breaklist
length-set_breaklist l [] = refl
length-set_breaklist l (bl ∷ bls) = ground (arith, length-set_breaklist l bls)

module _ {n : ℕ} where
  pub Still-update_level :
      (f : Level → Level)
      → ((fs : Level) → length (f fs).blocks ≡ length fs.blocks)
      → Still n (update_level f)
  Still-update_level f h = Still-at_level _ h

  pub Safe-new_var : (name : Str) (i : ℕ) → Safe n (new_var name i)
  unfolding new_var
  Safe-new_var name i = Safe-Still _ (Still-at_level _ (new_local_var-Kept name i))

  pub Safe-adjust_vars : (i : ℕ) → Safe n (adjust_vars i)
  unfolding adjust_vars adjust_local_vars
  Safe-adjust_vars i = Safe-Still _ (Still-update_level _ λ fs. refl)
