-- ===== src/Parser/Keeps/Depth.antt =====
-- Syntax levels: nCcalls is counted up and down again.
use luaxx.Parser.Keeps.Nesting.{Within, Within-After, After-Within, Within-Less, Less-Within}
use luaxx.Base.{ℕ, suc, ◌+◌, ◌≡◌, refl, arith, leb, Bool-cases, inl, inr}
use luaxx.Parser.{
  Parser, Parse, pure, ◌>>=◌, enter_level, leave_level, deeper, max_calls, tokens_left,
}
use luaxx.Parser.Keeps.{is_grammars, Ensures, Ready, Safe, Eats, Ensures-bind, Ensures-weaken}
use luaxx.Lexer.{Token}

-- One level more of the grammar, whose depth is counted.
module _ {n : ℕ} {A : Type 0} (m : Parse A) (s : Parser) (k : ℕ) where
  deeper-Within :
      Ready (suc n) s
      → ((s' : Parser) → Ready n s' → s'.ls ≡ s.ls → Ensures (λ _ s''. Within k s' s'') (m s'))
      → Ensures (λ _ s'. Within k s s') (deeper m s)
  unfolding deeper enter_level leave_level ◌>>=◌ pure is_grammars
  deeper-Within r h = elim (Bool-cases (leb (s.calls + 1) max_calls)) [
    | inr e ↦ rw e refl
    | inl e ↦
        let s1 : Parser = record s { calls = s.calls + 1 } in
        let deep = r.deep in
        let inside : Ready n s1 = record {
          within = ground (arith, e);
          deep = omega arith;
          opened = r.opened;
        } in
        rw e (
          Ensures-bind (λ _ s2. Within k s1 s2) _ (m s1) _ (h s1 inside refl)
            λ a s2 w. record {
              fewer = w.fewer;
              calls = rw w.calls (omega arith);
              opened = w.opened;
            })
  ]

module _ {n : ℕ} {A : Type 0} where
  pub Safe-deeper : (m : Parse A) → Safe n m → Safe (suc n) (deeper m)
  Safe-deeper m h = record {
    at = λ s r.
        Ensures-weaken (deeper m s) (λ _ s'. Within-After s s')
          (deeper-Within m s (suc (tokens_left s.ls)) r λ s1 r1 e.
            Ensures-weaken (m s1) (λ _ s2 a. rw⁻¹ e (After-Within s1 s2 a)) (h.at s1 r1));
  }

  pub Eats-deeper : {t : Token} (m : Parse A) → Eats n t m → Eats (suc n) t (deeper m)
  Eats-deeper m h = record {
    at = λ s r q.
        Ensures-weaken (deeper m s) (λ _ s'. Within-Less s s')
          (deeper-Within m s (tokens_left s.ls) r λ s1 r1 e.
            Ensures-weaken (m s1) (λ _ s2 a. rw⁻¹ e (Less-Within s1 s2 a)) (h.at s1 r1 (rw e q)));
  }
