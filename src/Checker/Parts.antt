-- ===== src/Checker/Parts.antt =====
-- The checks of one instruction, each for itself.
use luaxx.Base.{
  ℕ, zero, suc, ◌+◌, ◌-◌, ◌%◌, ◌<◌, ◌≡◌, refl, List, some, true, not, ◌||◌, length, get_elem?, ltb,
  leb, ◌==◌, if◌then◌else◌, ℤ, pos, negsuc, arith, ltb→lt,
}
use luaxx.Opcodes.{Instruction, OpCode, get_arg_b, get_arg_c, get_arg_bx, is_k, index_k}
use luaxx.Opcodes.Modes.{
  i_abc, i_abx, i_asbx, op_arg_n, op_arg_u, op_arg_r, op_arg_k, mode_number, mask_number,
  get_op_mode, get_b_mode, get_c_mode, test_t_mode,
}
use luaxx.Chunk.{Header, proto, Protos, done, next, count}
use luaxx.Checker.{
  fine, check, when, is_op, precheck, check_arg_mode, setlists_before, check_dest, dest_of, nups_of,
  check_pseudo, check_reg, check_operands, check_skip, check_loadbool, check_global, check_open,
  check_results, check_call, check_closure, check_vararg, max_stack, has_arg, needs_arg, is_string,
  check_open_op,
}
use luaxx.Checker.Reached.{IsReached, Parity, setlists_before-Parity}
use luaxx.Checker.Ensures.{
  Ensures, Fair, Ensures-bind, Ensures-read, Ensures-check, Ensures-then, Ensures-if, check-Fair,
  check-Ensures, when-Fair, when-Ensures,
}

-- The code is not empty, and its last instruction is a RETURN.
abbrev pub EndsInReturn : List ℕ → Type 0
EndsInReturn code =
    (r : ℕ) × (get_elem? code (length code - 1) ≡ some r) × (is_op r OpCode.op_return ≡ true)

pub precheck-Ensures : (f : Header) → Ensures (λ _. EndsInReturn f.code) (precheck f)
unfolding precheck
precheck-Ensures f =
    let P : Unit {0} → Type 0 = λ _. EndsInReturn f.code in
    Ensures-check P (leb f.maxstacksize max_stack) _ λ _.
      Ensures-check P (leb (f.numparams + has_arg f) f.maxstacksize) _ λ _.
        Ensures-check P (not (needs_arg f == 1) || (has_arg f == 1)) _ λ _.
          Ensures-check P (leb (length f.upvalues) f.nups) _ λ _.
            Ensures-check P ((length f.lineinfo == length f.code) || (length f.lineinfo == 0)) _
              λ _. Ensures-check P (ltb 0 (length f.code)) _ λ h.
                Ensures-read P f.code (length f.code - 1) (λ i. check (is_op i OpCode.op_return))
                  (omega (arith, ltb→lt 0 (length f.code) h))
                  λ i e.
                    check-Ensures (EndsInReturn f.code) (is_op i OpCode.op_return) λ r. (i, e, r)

-- A destination in the code: an instruction, not the count of a SETLIST.
abbrev pub IsDest : List ℕ → ℤ → Type 0
IsDest code (pos n) = (n < length code) × IsReached code n
IsDest code (negsuc n) = ⊥

pub check_dest-Ensures : (code : List ℕ) (d : ℤ) → Ensures (λ _. IsDest code d) (check_dest code d)
unfolding check_dest
check_dest-Ensures code (negsuc n) = tt
check_dest-Ensures code (pos n) =
    let P : Unit {0} → Type 0 = λ _. (n < length code) × IsReached code n in
    Ensures-check P (ltb n (length code)) _ λ h.
      Ensures-bind (Parity code n) P (setlists_before code n) _
        (setlists_before-Parity code n (omega (arith, ltb→lt n (length code) h)))
        λ j p.
          check-Ensures ((n < length code) × IsReached code n) (j % 2 == 0)
            λ e. (ltb→lt n (length code) h, rw e at p)

pub check_pseudo-Fair :
    (code : List ℕ) (pc nup : ℕ) → pc + nup < length code → Fair (check_pseudo code pc nup)
unfolding check_pseudo
check_pseudo-Fair code pc zero h = tt
check_pseudo-Fair code pc (suc nup) h =
    Ensures-read (λ _. Unit) code (pc + 1) _ (omega arith)
      λ i _. Ensures-check (λ _. Unit) _ _ λ _. check_pseudo-Fair code (pc + 1) nup (omega arith)

nups_of_count : (ps : Protos) (b : ℕ) → b < count ps → (nup : ℕ) × (nups_of ps b ≡ some nup)
nups_of_count done b h = absurd (omega arith)
nups_of_count (next (proto f fs) ps) zero h = (f.nups, refl)
nups_of_count (next (proto f fs) ps) (suc b) h = nups_of_count ps b (omega arith)

pub check_arg_mode-Fair : (f : Header) (r mode : ℕ) → Fair (check_arg_mode f r mode)
unfolding check_arg_mode
check_arg_mode-Fair f r mode =
    let Any : Unit {0} → Type 0 = λ _. Unit in
    Ensures-if Any (mode == mask_number op_arg_n) _ _ (λ _. check-Fair (r == 0))
      λ _.
        Ensures-if Any (mode == mask_number op_arg_u) (fine tt) _ (λ _. tt)
          λ _.
            Ensures-if Any (mode == mask_number op_arg_r) _ _
              (λ _. check-Fair (ltb r f.maxstacksize))
              λ _.
                check-Fair (if is_k r then ltb (index_k r) (length f.k) else ltb r f.maxstacksize)

module _ (f : Header) (ps : Protos) (lastpc reg : ℕ) where
  -- What the switch over the modes leaves of an instruction's operands.
  abbrev pub AreOperands : ℕ → Instruction → ℕ → ℕ × ℕ → Type 0
  AreOperands pc i op (b, c) =
      ((get_op_mode op == mode_number i_abc) ≡ true → c ≡ get_arg_c i)
      × ((get_op_mode op == mode_number i_abx) ≡ true
          → (get_b_mode op == mask_number op_arg_k) ≡ true
          → b < length f.k)
      × ((get_op_mode op == mode_number i_asbx) ≡ true
          → (get_b_mode op == mask_number op_arg_r) ≡ true
          → IsDest f.code (dest_of pc i))

  pub check_operands-Ensures :
      (pc : ℕ) (i : Instruction) (op : ℕ)
      → Ensures (AreOperands pc i op) (check_operands f ps lastpc reg pc i op)
  unfolding check_operands
  check_operands-Ensures pc i op =
      let P : ℕ × ℕ → Type 0 = AreOperands pc i op in
      Ensures-if P (get_op_mode op == mode_number i_abc) _ _
        (λ m.
          Ensures-then P (check_arg_mode f (get_arg_b i) (get_b_mode op)) _
            (check_arg_mode-Fair f (get_arg_b i) (get_b_mode op))
            (Ensures-then P (check_arg_mode f (get_arg_c i) (get_c_mode op)) _
              (check_arg_mode-Fair f (get_arg_c i) (get_c_mode op))
              ((λ _. refl), (λ x. absurd (ground arith)), (λ x. absurd (ground arith)))))
        λ m.
          Ensures-if P (get_op_mode op == mode_number i_abx) _ _
            (λ n.
              Ensures-bind
                (λ _. (get_b_mode op == mask_number op_arg_k) ≡ true → get_arg_bx i < length f.k) P
                (when (get_b_mode op == mask_number op_arg_k)
                  (check (ltb (get_arg_bx i) (length f.k))))
                _
                (when-Ensures (get_arg_bx i < length f.k) (get_b_mode op == mask_number op_arg_k) _
                  λ _.
                    check-Ensures (get_arg_bx i < length f.k) (ltb (get_arg_bx i) (length f.k))
                      (ltb→lt (get_arg_bx i) (length f.k)))
                λ _ k. ((λ x. absurd (ground arith)), (λ _ y. k y), (λ x. absurd (ground arith))))
            λ n.
              Ensures-bind
                (λ _. (get_b_mode op == mask_number op_arg_r) ≡ true → IsDest f.code (dest_of pc i))
                P (when (get_b_mode op == mask_number op_arg_r) (check_dest f.code (dest_of pc i)))
                _
                (when-Ensures (IsDest f.code (dest_of pc i)) (get_b_mode op == mask_number op_arg_r)
                  _ λ _. check_dest-Ensures f.code (dest_of pc i))
                λ _ k. ((λ x. absurd cc), (λ x. absurd cc), (λ _ y. k y))

  -- A test is followed by a jump, and that is not the last instruction.
  abbrev pub HasSkip : ℕ → ℕ → Type 0
  HasSkip pc op =
      test_t_mode op ≡ true
      → (pc + 2 < length f.code)
        × (j : ℕ) × (get_elem? f.code (pc + 1) ≡ some j)
        × (is_op j OpCode.op_jmp ≡ true)

  pub check_skip-Ensures :
      (pc op : ℕ) → Ensures (λ _. HasSkip pc op) (check_skip f ps lastpc reg pc op)
  unfolding check_skip
  check_skip-Ensures pc op =
      let P : Type 0 =
        (pc + 2 < length f.code)
        × (j : ℕ) × (get_elem? f.code (pc + 1) ≡ some j)
        × (is_op j OpCode.op_jmp ≡ true) in
      when-Ensures P (test_t_mode op) _ λ _.
        Ensures-check (λ _. P) (ltb (pc + 2) (length f.code)) _
          λ h.
            let room : pc + 2 < length f.code = ltb→lt (pc + 2) (length f.code) h in
            Ensures-read (λ _. P) f.code (pc + 1) _ (omega arith)
              λ j e. check-Ensures P (is_op j OpCode.op_jmp) λ k. (room, j, e, k)

  pub check_loadbool-Fair : (pc c : ℕ) → Fair (check_loadbool f ps lastpc reg pc c)
  unfolding check_loadbool
  check_loadbool-Fair pc c = when-Fair (c == 1) _ λ _.
      Ensures-check (λ _. Unit) (ltb (pc + 2) (length f.code)) _
        λ h.
          Ensures-read (λ _. Unit) f.code (pc + 1) _
            (omega (arith, ltb→lt (pc + 2) (length f.code) h))
            λ i _. check-Fair (not (is_op i OpCode.op_setlist) || not (get_arg_c i == 0))

  pub check_global-Fair : (b : ℕ) → b < length f.k → Fair (check_global f ps lastpc reg b)
  unfolding check_global
  check_global-Fair b h = Ensures-read (λ _. Unit) f.k b _ h λ k _. check-Fair (is_string k)

  pub check_open-Fair : (pc : ℕ) → pc + 1 < length f.code → Fair (check_open f ps lastpc reg pc)
  unfolding check_open
  check_open-Fair pc h =
      Ensures-read (λ _. Unit) f.code (pc + 1) _ h λ i _. check-Fair (check_open_op i)

  pub check_call-Fair :
      (pc a b c : ℕ) → pc + 1 < length f.code → Fair (check_call f ps lastpc reg pc a b c)
  unfolding check_call
  check_call-Fair pc a b c h =
      Ensures-then (λ _. Unit) (when (not (b == 0)) (check_reg f ps lastpc reg (a + b - 1))) _
        (when-Fair (not (b == 0)) _ (λ _. check-Fair (ltb (a + b - 1) f.maxstacksize))) (results c)
    where
      results : (c : ℕ) → Fair (check_results f ps lastpc reg pc a c)
      results zero = check_open-Fair pc h
      results (suc zero) = tt
      results (suc (suc c)) = check-Fair (ltb (a + (c + 1) - 1) f.maxstacksize)

  pub check_closure-Ensures :
      (pc b : ℕ) → Ensures (λ _. Unit {0}) (check_closure f ps lastpc reg pc b)
  unfolding check_closure
  check_closure-Ensures pc b =
      let Any : ℕ → Type 0 = λ _. Unit in
      Ensures-check Any (ltb b (count ps)) _ λ h.
        let (nup, e) = nups_of_count ps b (ltb→lt b (count ps) h) in
        rw e (
          Ensures-check Any (ltb (pc + nup) (length f.code)) _ λ k.
            Ensures-then Any (check_pseudo f.code pc nup) _
              (check_pseudo-Fair f.code pc nup (ltb→lt (pc + nup) (length f.code) k)) tt)

  pub check_vararg-Fair :
      (pc a b : ℕ) → pc + 1 < length f.code → Fair (check_vararg f ps lastpc reg pc a b)
  unfolding check_vararg
  check_vararg-Fair pc a b h =
      Ensures-check (λ _. Unit) _ _
        λ _.
          Ensures-then (λ _. Unit) (when (b == 0) (check_open f ps lastpc reg pc)) _
            (when-Fair (b == 0) _ (λ _. check_open-Fair pc h))
            (check-Fair (ltb (a + b - 2) f.maxstacksize))
