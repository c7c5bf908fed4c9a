-- ===== src/Checker/Stops.antt =====
-- Where a round of the checker stops: a SETLIST with C = 0 passes its count.
use luaxx.Base.{
  ℕ, ◌+◌, ◌-◌, ◌<◌, ◌≡◌, refl, some, true, false, length, get_elem?, ltb, ◌==◌, if◌then◌else◌,
  arith, Bool-cases, inl, inr, ◌⊎◌,
}
use luaxx.Opcodes.{Instruction, get_opcode, get_arg_c, no_reg}
use luaxx.Opcodes.Modes.{get_op_mode}
use luaxx.Chunk.{Header, Protos}
use luaxx.Checker.{is_bare_setlist, Place, execute}
use luaxx.Checker.Ensures.{Ensures, Ensures-map, Ensures-both, Ensures-then, check-Fair, when-Fair}
use luaxx.Checker.Parts.{EndsInReturn, AreOperands}
use luaxx.Checker.Rounds.{Goes, execute-Ensures}

module _ (f : Header) (ps : Protos) (lastpc reg : ℕ) where
  -- Where a round stops: an accepted SETLIST with C = 0 passes its count too.
  abbrev pub Stops : Place → Instruction → Place → Type 0
  Stops s i s' =
      Goes f ps lastpc reg s i s'
      × (reg ≡ no_reg → s'.pc ≡ (if is_bare_setlist i then s.pc + 1 else s.pc))

  passes_count :
      (s : Place) (i : Instruction) (a b c : ℕ)
      → is_bare_setlist i ≡ true
      → c ≡ get_arg_c i
      → Ensures (λ s'. s'.pc ≡ s.pc + 1) (execute f ps lastpc reg s i a b c)
  unfolding execute
  passes_count s i a b c h same =
      let Q : Place → Type 0 = λ s'. s'.pc ≡ s.pc + 1 in
      let e : get_opcode i ≡ 34 = ground arith in
      let z : (get_arg_c i == 0) ≡ true = ground arith in
      rw (e, same, z)
        (Ensures-then Q _ _ (when-Fair (ltb 0 b) _ λ _. check-Fair (ltb (a + b) f.maxstacksize))
          (Ensures-then Q _ _ (check-Fair (ltb (s.pc + 1) (length f.code - 1))) refl))

  Stops-plain :
      (s : Place) (i : Instruction)
      → is_bare_setlist i ≡ false
      → (s' : Place) → Goes f ps lastpc reg s i s'
      → Stops s i s'
  Stops-plain s i plain s' (p, l, k) = ((p, l, k), λ n. rw plain (stays_at (k n)))
    where
      stays_at : (s'.pc ≡ s.pc) ⊎ ((s'.pc ≡ s.pc + 1) × (is_bare_setlist i ≡ true)) → s'.pc ≡ s.pc
      stays_at (inl x) = x
      stays_at (inr (x, bare)) = absurd cc

  pub execute-Stops :
      (s : Place) (i : Instruction) (a b c : ℕ)
      → EndsInReturn f.code
      → get_elem? f.code s.pc ≡ some i
      → s.last < length f.code
      → AreOperands f ps lastpc reg s.pc i (get_opcode i) (b, c)
      → Ensures (Stops s i) (execute f ps lastpc reg s i a b c)
  unfolding get_op_mode
  execute-Stops s i a b c ends at l operands =
      let goes = execute-Ensures f ps lastpc reg s i a b c ends at l operands in
      elim (Bool-cases (is_bare_setlist i)) [
        | inr plain ↦
            Ensures-map (Goes f ps lastpc reg s i) (Stops s i) _ (Stops-plain s i plain) goes
        | inl bare ↦
            let e : get_opcode i ≡ 34 = ground arith in
            let same : c ≡ get_arg_c i = operands.0 (rw e) in
            Ensures-both (Goes f ps lastpc reg s i) (λ s'. s'.pc ≡ s.pc + 1) (Stops s i) _
              (λ s' g x. (g, λ _. rw bare x)) goes (passes_count s i a b c bare same)
      ]
