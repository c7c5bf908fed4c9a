-- ===== src/Checker/Loop.antt =====
-- A round of the checker's loop, and the loop.
use mathlib.Core.Path.{subst}
use luaxx.Base.{
  ℕ, zero, suc, ◌+◌, ◌≤◌, ◌<◌, ◌≡◌, sym, some, Bool, true, false, ◌&&◌, length, get_elem?, ltb,
  ◌==◌, if◌then◌else◌, arith, ltb→lt, ==→eq, Bool-cases, inl, inr, ◌⊎◌,
}
use luaxx.Opcodes.{Instruction, num_opcodes, get_opcode, get_arg_a, no_reg}
use luaxx.Opcodes.Modes.{
  i_asbx, op_arg_r, mode_number, mask_number, get_op_mode, get_b_mode, test_a_mode,
}
use luaxx.Chunk.{Header, Protos}
use luaxx.Checker.{
  is_bare_setlist, dest_of, Place, check_operands, check_skip, set_last, execute, checked_operands,
  check_instruction, check_loop,
}
use luaxx.Checker.Ensures.{
  Ensures, Ensures-map, Ensures-bind, Ensures-read, Ensures-check, Ensures-if,
}
use luaxx.Checker.Parts.{
  EndsInReturn, IsDest, AreOperands, check_operands-Ensures, HasSkip, check_skip-Ensures,
}
use luaxx.Checker.Reached.{IsReached, IsCount, IsReached-step}
use luaxx.Checker.Stops.{Stops, execute-Stops}

module _ (f : Header) (ps : Protos) (lastpc reg : ℕ) where
  -- The word at `pc` is an instruction that passed: its opcode is known, its A is a register, a
  -- jump leads into the code, and a test is followed by a jump.
  abbrev pub IsSound : ℕ → Type 0
  IsSound pc =
      (i : ℕ) × (get_elem? f.code pc ≡ some i)
      × (get_opcode i < num_opcodes)
      × (get_arg_a i < f.maxstacksize)
      × ((get_op_mode (get_opcode i) == mode_number i_asbx) ≡ true
          → (get_b_mode (get_opcode i) == mask_number op_arg_r) ≡ true
          → IsDest f.code (dest_of pc i))
      × HasSkip f ps lastpc reg pc (get_opcode i)

  abbrev Passed : Place → Place → Type 0
  Passed s s' =
      (s.pc ≤ s'.pc)
      × (s'.last < length f.code)
      × IsSound s.pc
      × (reg ≡ no_reg
          → (i : ℕ) × (get_elem? f.code s.pc ≡ some i)
            × (s'.pc ≡ (if is_bare_setlist i then s.pc + 1 else s.pc)))

  Stops-Passed :
      (s : Place) (i : Instruction) (s' : Place)
      → get_elem? f.code s.pc ≡ some i
      → IsSound s.pc
      → Stops f ps lastpc reg s i s'
      → Passed s s'
  Stops-Passed s i s' at sound ((p, l, _), k) = (p, l, sound, λ e. (i, at, k e))

  check_instruction-Ensures :
      (s : Place)
      → EndsInReturn f.code
      → s.pc < length f.code
      → s.last < length f.code
      → Ensures (Passed s) (check_instruction f ps lastpc reg s)
  unfolding check_instruction checked_operands
  check_instruction-Ensures s ends p l =
      let Q : Place → Type 0 = Passed s in
      Ensures-read Q f.code s.pc _ p λ i at.
        Ensures-check Q (ltb (get_opcode i) num_opcodes) _ λ known.
          Ensures-check Q (ltb (get_arg_a i) f.maxstacksize) _ λ register.
            Ensures-bind (AreOperands f ps lastpc reg s.pc i (get_opcode i)) Q
              (check_operands f ps lastpc reg s.pc i (get_opcode i))
              (checked_operands f ps lastpc reg s i)
              (check_operands-Ensures f ps lastpc reg s.pc i (get_opcode i))
              λ o operands.
                rest i at (ltb→lt (get_opcode i) num_opcodes known)
                  (ltb→lt (get_arg_a i) f.maxstacksize register) o operands
    where
      execute-Passed :
          (i b c : ℕ)
          → get_elem? f.code s.pc ≡ some i
          → AreOperands f ps lastpc reg s.pc i (get_opcode i) (b, c)
          → IsSound s.pc
          → (change : Bool)
          → Ensures
              (Passed s)
              (execute f ps lastpc reg (set_last f ps lastpc reg change s) i (get_arg_a i) b c)
      execute-Passed i b c at operands sound true =
          Ensures-map (Stops f ps lastpc reg s i) (Passed s) _ (λ s'. Stops-Passed s i s' at sound)
            (execute-Stops f ps lastpc reg (record s { last = s.pc }) i (get_arg_a i) b c ends at p
              operands)
      execute-Passed i b c at operands sound false =
          Ensures-map (Stops f ps lastpc reg s i) (Passed s) _ (λ s'. Stops-Passed s i s' at sound)
            (execute-Stops f ps lastpc reg s i (get_arg_a i) b c ends at l operands)

      rest :
          (i : ℕ)
          → get_elem? f.code s.pc ≡ some i
          → get_opcode i < num_opcodes
          → get_arg_a i < f.maxstacksize
          → (o : ℕ × ℕ) → AreOperands f ps lastpc reg s.pc i (get_opcode i) o
          → Ensures (Passed s) (checked_operands f ps lastpc reg s i o)
      rest i at known register (b, c) (u, v, w) =
          Ensures-bind (λ _. HasSkip f ps lastpc reg s.pc (get_opcode i)) (Passed s)
            (check_skip f ps lastpc reg s.pc (get_opcode i)) _
            (check_skip-Ensures f ps lastpc reg s.pc (get_opcode i))
            λ _ skip.
              execute-Passed i b c at (u, v, w) (i, at, known, register, w, skip)
                (test_a_mode (get_opcode i) && (get_arg_a i == reg))

  -- What the loop has seen from `pc` on: of every word, whether it is an instruction or a count, and
  -- the instructions are sound.
  abbrev pub AreSound : ℕ → Type 0
  AreSound pc = (q : ℕ) → pc ≤ q → q < lastpc → (IsReached f.code q × IsSound q) ⊎ IsCount f.code q

  AreSound-cons :
      (s s' : Place)
      → reg ≡ no_reg
      → IsReached f.code s.pc
      → Passed s s'
      → AreSound (s'.pc + 1)
      → AreSound s.pc
  AreSound-cons s s' e reached (p, l, sound, k) rest q h below = elim (Bool-cases (q == s.pc)) [
    | inl x ↦
        inl (subst (λ n. IsReached f.code n × IsSound n) (sym (==→eq q s.pc x)) (reached, sound))
    | inr x ↦ behind (ground arith) (k e)
  ]
    where
      behind :
          s.pc < q
          → ((i : ℕ) × (get_elem? f.code s.pc ≡ some i)
              × (s'.pc ≡ (if is_bare_setlist i then s.pc + 1 else s.pc)))
          → (IsReached f.code q × IsSound q) ⊎ IsCount f.code q
      behind more (i, at, stop) = elim (Bool-cases (is_bare_setlist i && (q == s.pc + 1))) [
        | inl z ↦ inr (s.pc, i, ground arith, reached, at, ground arith)
        | inr z ↦ rest q (ground arith) below
      ]

  Passed-IsReached :
      (s s' : Place)
      → reg ≡ no_reg
      → IsReached f.code s.pc
      → Passed s s'
      → IsReached f.code (s'.pc + 1)
  Passed-IsReached s s' e reached (p, l, sound, k) =
      let (i, at, stop) = k e in
      subst (λ n. IsReached f.code (n + 1)) (sym stop) (IsReached-step f.code s.pc i reached at)

  pub check_loop-Ensures :
      (n : ℕ) (s : Place)
      → EndsInReturn f.code
      → lastpc ≤ length f.code
      → lastpc ≤ n + s.pc
      → s.last < length f.code
      → Ensures
          (λ last. (last < length f.code) × (reg ≡ no_reg → IsReached f.code s.pc → AreSound s.pc))
          (check_loop f ps lastpc reg n s)
  unfolding check_loop
  check_loop-Ensures zero s ends size fuel l =
      Ensures-if _ (ltb s.pc lastpc) _ _ (λ h. absurd (ground arith))
        λ h. (l, λ e reached q a b. absurd (ground arith))
  check_loop-Ensures (suc n) s ends size fuel l =
      let Q : ℕ → Type 0 =
        λ last. (last < length f.code) × (reg ≡ no_reg → IsReached f.code s.pc → AreSound s.pc) in
      Ensures-if Q (ltb s.pc lastpc) _ _
        (λ h.
          Ensures-bind (Passed s) Q (check_instruction f ps lastpc reg s) _
            (check_instruction-Ensures s ends (omega (arith, ltb→lt s.pc lastpc h)) l)
            λ s' (p, l', sound, k).
              Ensures-map
                (λ last.
                  (last < length f.code)
                  × (reg ≡ no_reg → IsReached f.code (s'.pc + 1) → AreSound (s'.pc + 1)))
                Q _
                (λ last (h', g). (
                  h',
                  λ e reached.
                      AreSound-cons s s' e reached (p, l', sound, k)
                        (g e (Passed-IsReached s s' e reached (p, l', sound, k))),
                ))
                (check_loop-Ensures n (record s' { pc = s'.pc + 1 }) ends size (omega arith) l'))
        (λ h. (l, λ e reached q a b. absurd (ground arith)))
