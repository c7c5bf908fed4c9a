-- ===== src/Checker/Rounds.antt =====
-- The checker's switch over the opcodes.
use luaxx.Base.{
  ℕ, ◌+◌, ◌-◌, ◌≤◌, ◌<◌, ◌≡◌, refl, sym, some, Bool, true, false, ◌&&◌, ◌||◌, length, get_elem?,
  ltb, leb, ◌==◌, if◌then◌else◌, ℤ, pos, negsuc, arith, lt_of_get_elem?, ==→eq, Bool-cases, inl,
  inr, ◌⊎◌,
}
use luaxx.Opcodes.{Instruction, OpCode, get_opcode, get_arg_c, no_reg}
use luaxx.Opcodes.Modes.{get_op_mode, get_b_mode}
use luaxx.Chunk.{Header, Protos}
use luaxx.Checker.{
  Checked, fine, ◌>>◌, when, is_op, is_bare_setlist, dest_of, Place, check_reg, check_closure,
  jumped, set_last, at_pc, execute,
}
use luaxx.Checker.Ensures.{
  Ensures, Fair, Ensures-bind, Ensures-then, Ensures-if, check-Fair, when-Fair,
}
use luaxx.Checker.Parts.{
  EndsInReturn, AreOperands, check_loadbool-Fair, check_global-Fair, check_call-Fair,
  check_closure-Ensures, check_vararg-Fair,
}

module _ (f : Header) (ps : Protos) (lastpc reg : ℕ) where
  -- Where a round that began at `s` with the instruction `i` may stop.
  abbrev pub Goes : Place → Instruction → Place → Type 0
  Goes s i s' =
      (s.pc ≤ s'.pc)
      × (s'.last < length f.code)
      × (reg ≡ no_reg → (s'.pc ≡ s.pc) ⊎ ((s'.pc ≡ s.pc + 1) × (is_bare_setlist i ≡ true)))

  jumped-le : (pc : ℕ) (d : ℤ) → pc ≤ jumped f ps lastpc reg pc d
  jumped-le pc (negsuc n) = omega arith
  jumped-le pc (pos d) = ground arith

  jumped-no_reg : (pc : ℕ) (d : ℤ) → reg ≡ no_reg → jumped f ps lastpc reg pc d ≡ pc
  jumped-no_reg pc (negsuc n) e = refl
  jumped-no_reg pc (pos d) e = rw e refl

  Goes-stay : (s : Place) (i : Instruction) → s.last < length f.code → Goes s i s
  Goes-stay s i h = (omega arith, h, λ _. inl refl)

  Goes-last :
      (s : Place) (i : Instruction) (b : Bool)
      → s.pc < length f.code
      → s.last < length f.code
      → Goes s i (set_last f ps lastpc reg b s)
  Goes-last s i true p h = (omega arith, p, λ _. inl refl)
  Goes-last s i false p h = (omega arith, h, λ _. inl refl)

  Goes-jump :
      (s : Place) (i : Instruction) (d : ℤ)
      → s.last < length f.code
      → Goes s i (at_pc f ps lastpc reg (jumped f ps lastpc reg s.pc d) s)
  Goes-jump s i d h = (jumped-le s.pc d, h, λ e. inl (jumped-no_reg s.pc d e))

  -- An instruction that is no RETURN has one behind it.
  room_behind :
      (pc : ℕ) (i : Instruction)
      → EndsInReturn f.code
      → get_elem? f.code pc ≡ some i
      → is_op i OpCode.op_return ≡ false
      → pc + 1 < length f.code
  room_behind pc i (r, e, k) h n = elim (Bool-cases (pc == length f.code - 1)) [
    | inl x ↦ absurd (clash (==→eq pc (length f.code - 1) x))
    | inr x ↦ let inside : pc < length f.code = lt_of_get_elem? f.code pc h in ground arith
  ]
    where
      clash : pc ≡ length f.code - 1 → ⊥
      clash x = cc

  module _ (s : Place) (i : Instruction) (a b c : ℕ) where
    -- Checks that keep the place as it is.
    stays :
        (m : Checked (Unit {0})) (s' : Place)
        → Fair m
        → Goes s i s'
        → Ensures (Goes s i) (m >> fine s')
    stays m s' h g = Ensures-then (Goes s i) m (fine s') h g

    -- a global's name is one of the constants
    in_constants :
        (number_of : ℕ)
        → get_opcode i ≡ number_of
        → (number_of ≡ 5) ⊎ (number_of ≡ 7)
        → AreOperands f ps lastpc reg s.pc i (get_opcode i) (b, c)
        → b < length f.k
    unfolding get_op_mode get_b_mode
    in_constants n e (inl x) (u, v, w) = v (rw (e, x)) (rw (e, x))
    in_constants n e (inr x) (u, v, w) = v (rw (e, x)) (rw (e, x))

    counted :
        get_opcode i ≡ 34
        → AreOperands f ps lastpc reg s.pc i (get_opcode i) (b, c)
        → (c == 0) ≡ true
        → is_bare_setlist i ≡ true
    unfolding get_op_mode
    counted e (u, v, w) z = let same : c ≡ get_arg_c i = u (rw e) in rw (e, sym same, z)

    pub execute-Ensures :
        EndsInReturn f.code
        → get_elem? f.code s.pc ≡ some i
        → s.last < length f.code
        → AreOperands f ps lastpc reg s.pc i (get_opcode i) (b, c)
        → Ensures (Goes s i) (execute f ps lastpc reg s i a b c)
    unfolding execute
    execute-Ensures ends at l operands =
        let Q : Place → Type 0 = Goes s i in
        let inside : s.pc < length f.code = lt_of_get_elem? f.code s.pc at in
        let stay : Goes s i s = Goes-stay s i l in
        Ensures-if Q (is_op i OpCode.op_loadbool) _ _
          (λ _. stays _ s (check_loadbool-Fair f ps lastpc reg s.pc c) stay)
          λ _.
            Ensures-if Q (is_op i OpCode.op_loadnil) _ _
              (λ _. Goes-last s i (leb a reg && leb reg b) inside l)
              λ _.
                Ensures-if Q (is_op i OpCode.op_getupval || is_op i OpCode.op_setupval) _ _
                  (λ _. stays _ s (check-Fair (ltb b f.nups)) stay)
                  λ _.
                    Ensures-if Q (is_op i OpCode.op_getglobal || is_op i OpCode.op_setglobal) _ _
                      (λ e. stays _ s (check_global-Fair f ps lastpc reg b (global e)) stay)
                      λ _.
                        Ensures-if Q (is_op i OpCode.op_self) _ _
                          (λ _.
                            stays _ _ (check-Fair (ltb (a + 1) f.maxstacksize))
                              (Goes-last s i (reg == a + 1) inside l))
                          λ _.
                            Ensures-if Q (is_op i OpCode.op_concat) _ _
                              (λ _. stays _ s (check-Fair (ltb b c)) stay)
                              λ _.
                                Ensures-if Q (is_op i OpCode.op_tforloop) _ _
                                  (λ _. Ensures-then Q _ _ (check-Fair (leb 1 c)) (
                                    stays _ _ (check-Fair (ltb (a + 2 + c) f.maxstacksize))
                                      (Goes-last s i (leb (a + 2) reg) inside l)))
                                  λ _.
                                    Ensures-if Q
                                      (is_op i OpCode.op_forloop || is_op i OpCode.op_forprep) _ _
                                      (λ _.
                                        stays _ _ (check-Fair (ltb (a + 3) f.maxstacksize))
                                          (Goes-jump s i (dest_of s.pc i) l))
                                      λ _.
                                        Ensures-if Q (is_op i OpCode.op_jmp) _ _
                                          (λ _. Goes-jump s i (dest_of s.pc i) l)
                                          λ _.
                                            Ensures-if Q
                                              (is_op i OpCode.op_call || is_op i OpCode.op_tailcall)
                                              _ _
                                              (λ e.
                                                stays _ _
                                                  (check_call-Fair f ps lastpc reg s.pc a b c
                                                    (room_behind s.pc i ends at (call e)))
                                                  (Goes-last s i (leb a reg) inside l))
                                              λ _.
                                                Ensures-if Q (is_op i OpCode.op_return) _ _
                                                  (λ _.
                                                    stays _ s
                                                      (when-Fair (ltb 1 b) _ (λ _.
                                                        check-Fair
                                                          (ltb (a + (b - 1) - 1) f.maxstacksize)))
                                                      stay)
                                                  λ _.
                                                    Ensures-if Q (is_op i OpCode.op_setlist) _ _
                                                      (λ e.
                                                        Ensures-then Q
                                                          (when (ltb 0 b)
                                                            (check_reg f ps lastpc reg (a + b)))
                                                          _
                                                          (when-Fair (ltb 0 b) _ (λ _.
                                                            check-Fair
                                                            (ltb (a + b) f.maxstacksize)))
                                                          (Ensures-if Q (c == 0) _ _
                                                            (λ z.
                                                            stays _ _
                                                            (check-Fair
                                                            (ltb (s.pc + 1) (length f.code - 1)))
                                                            (
                                                            omega arith,
                                                            l,
                                                            λ _. inr (
                                                            refl,
                                                            counted (==→eq (get_opcode i) 34 e)
                                                            operands z,
                                                            ),
                                                            ))
                                                            (λ _. stay)))
                                                      λ _.
                                                        Ensures-if Q (is_op i OpCode.op_closure) _ _
                                                          (λ _.
                                                            Ensures-bind (λ _. Unit) Q
                                                            (check_closure f ps lastpc reg s.pc b) _
                                                            (check_closure-Ensures f ps lastpc reg
                                                            s.pc b)
                                                            λ nup _. closure nup)
                                                          λ _.
                                                            Ensures-if Q (is_op i OpCode.op_vararg)
                                                            _ _
                                                            (λ e.
                                                            stays _ s
                                                            (check_vararg-Fair f ps lastpc reg s.pc
                                                            a b
                                                            (room_behind s.pc i ends at (vararg e)))
                                                            stay)
                                                            (λ _. stay)
      where
        global :
            (is_op i OpCode.op_getglobal || is_op i OpCode.op_setglobal) ≡ true → b < length f.k
        global e = elim (Bool-cases (is_op i OpCode.op_getglobal)) [
          | inl x ↦ in_constants 5 (==→eq (get_opcode i) 5 x) (inl refl) operands
          | inr x ↦ in_constants 7 (ground arith) (inr refl) operands
        ]

        call :
            (is_op i OpCode.op_call || is_op i OpCode.op_tailcall) ≡ true
            → is_op i OpCode.op_return ≡ false
        call e = ground arith

        vararg : is_op i OpCode.op_vararg ≡ true → is_op i OpCode.op_return ≡ false
        vararg e = ground arith

        closure :
            (nup : ℕ)
            → Goes s i (at_pc f ps lastpc reg (if reg == no_reg then s.pc else s.pc + nup) s)
        closure nup = (ground arith, l, λ e. inl (rw e refl))
