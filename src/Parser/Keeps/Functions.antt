-- ===== src/Parser/Keeps/Functions.antt =====
-- `break`, and functions inside functions.
use luaxx.Base.{ℕ, ◌+◌, ◌≤◌, ◌<◌, ◌≡◌, refl, ◌∙◌, List, [], ◌∷◌, Option, none, some, Bool}
use luaxx.Chunk.{Proto}
use luaxx.Lexer.{LexState}
use luaxx.Code.Emit.{ret}
use luaxx.Scope.{Var, Level, Block, remove_vars}
use luaxx.Parser.{
  Parser, Parse, ◌>>=◌, update_level, emit, max_calls, no_loop_to_break, too_many_functions,
}
use luaxx.Parser.Scopes.{
  break_from, breakstat, open_func, new_level, pop, pop_level, close_func, in_function, add_closure,
  pushclosure,
}
use luaxx.Parser.Keeps.{
  is_grammars, Ensures, shape, Ready, After, Same, Safe, Still, Ensures-bind, Ensures-weaken,
  Safe-throw, Safe-if, Safe-bind, Safe-Still, Ready-After,
}
use luaxx.Parser.Keeps.Levels.{
  Still-emit, Safe-emit, Safe-see_level, Still-update_level, length-set_breaklist,
  remove_vars-blocks,
}

module _ {n : ℕ} where
  Safe-break_from : (loop : Option (Block × Bool)) → Safe n (break_from loop)
  unfolding is_grammars
  Safe-break_from none = Safe-throw no_loop_to_break refl
  Safe-break_from (some (bl, upval)) =
      Safe-bind _ _ (Safe-emit _)
        λ l. Safe-Still _ (Still-update_level _ λ fs. length-set_breaklist l fs.blocks)

  pub Safe-breakstat : Safe n breakstat
  unfolding breakstat
  Safe-breakstat = Safe-bind _ _ (Safe-see_level _) Safe-break_from

  Safe-add_closure : (f : Proto) (vs : List Var) (i : ℕ) → Safe n (add_closure f vs i)
  unfolding is_grammars
  Safe-add_closure f vs i =
      Safe-if _ _ _ (Safe-throw too_many_functions refl)
        (Safe-bind _ _ (Safe-Still _ (Still-update_level _ λ fs. refl)) λ _. Safe-emit _)

  pub Safe-pushclosure : (f : Proto × List Var) → Safe n (pushclosure f)
  unfolding pushclosure
  Safe-pushclosure (f, vs) = Safe-bind _ _ (Safe-see_level _) (Safe-add_closure f vs)

-- The innermost function is closed.
record Popped (s s' : Parser) (sh : List ℕ) : Type 0 where
  pub scanner : s'.ls ≡ s.ls
  pub calls : s'.calls ≡ s.calls
  pub opened : shape s'.levels ≡ sh

pop-Popped :
    (s : Parser) (levels : List Level) (x : ℕ) (sh : List ℕ)
    → shape levels ≡ x ∷ sh
    → Ensures (λ _ s'. Popped s s' sh) (pop s levels)
unfolding shape
pop-Popped s [] x sh e = absurd cc
pop-Popped s (fs ∷ prev) x sh e = record { scanner = refl; calls = refl; opened = cc }

pop_level-Popped :
    (s : Parser) (x : ℕ) (sh : List ℕ)
    → shape s.levels ≡ x ∷ sh
    → Ensures (λ _ s'. Popped s s' sh) (pop_level s)
unfolding pop_level
pop_level-Popped s x sh e = pop-Popped s s.levels x sh e

module _ {n : ℕ} where
  Still-remove_vars : Still n (update_level (remove_vars 0))
  Still-remove_vars = Still-update_level _ λ fs. rw (remove_vars-blocks 0 fs) refl

  close_func-Popped :
      (s : Parser) (x : ℕ) (sh : List ℕ)
      → Ready n s
      → shape s.levels ≡ x ∷ sh
      → Ensures (λ _ s'. Popped s s' sh) (close_func s)
  unfolding close_func ◌>>=◌
  close_func-Popped s x sh r e =
      Ensures-bind (λ _ s1. Same s s1) _ (update_level (remove_vars 0) s) _
        (Still-remove_vars.at s r)
        λ _ s1 k1.
          Ensures-bind (λ _ s2. Same s1 s2) _ (emit (ret 0 (some 0)) s1) _
            ((Still-emit (ret 0 (some 0))).at s1 (Ready-After s s1 r k1.after))
            λ _ s2 k2.
              Ensures-weaken (pop_level s2)
                (λ f s3 p. record {
                  scanner = p.scanner ∙ k2.scanner ∙ k1.scanner;
                  calls = p.calls ∙ k2.after.calls ∙ k1.after.calls;
                  opened = p.opened;
                })
                (pop_level-Popped s2 x sh (k2.after.opened ∙ k1.after.opened ∙ e))

-- A function's code is between its opening and its closing, wherever it stands. What its code
-- leaves of the scanner's state is left.
pub in_function-After :
    (n : ℕ) (line : ℕ) (m : Parse (Unit {0})) (E : LexState → Type 0) (s : Parser)
    → ((s1 : Parser) → Ready n s1 → Ensures (λ _ s2. After s1 s2 × E s2.ls) (m s1))
    → s.calls ≤ max_calls
    → max_calls < n + s.calls
    → Ensures (λ _ s'. After s s' × E s'.ls) (in_function line m s)
unfolding in_function open_func ◌>>=◌ shape
in_function-After n line m E s h within deep =
    let s1 : Parser = record s { levels = new_level line ∷ s.levels } in
    let r : Ready n s1 = record { within = within; deep = deep; opened = tt } in
    Ensures-bind (λ _ s2. After s1 s2 × E s2.ls) _ (m s1) _ (h s1 r)
      λ _ s2 (a, left).
        Ensures-weaken (close_func s2)
          (λ f s3 p. (
            record { tokens = rw p.scanner a.tokens; calls = p.calls ∙ a.calls; opened = p.opened },
            rw p.scanner left,
          ))
          (close_func-Popped s2 0 (shape s.levels) (Ready-After s1 s2 r a) a.opened)

module _ {n : ℕ} where
  pub Safe-in_function : (line : ℕ) (m : Parse (Unit {0})) → Safe n m → Safe n (in_function line m)
  Safe-in_function line m h = record {
    at = λ s r.
        Ensures-weaken (in_function line m s) (λ _ s' (a, _). a)
          (in_function-After n line m (λ _. Unit) s
            (λ s1 r1. Ensures-weaken (m s1) (λ _ s2 a. (a, tt)) (h.at s1 r1)) r.within r.deep);
  }
