-- ===== src/Code/Expr/Settled.antt =====
-- The instruction that `exp2reg` loads a register with.
use luaxx.Base.{
  ℕ, ◌+◌, ◌^◌, ◌<◌, ◌≡◌, ◌≢◌, refl, ◌∙◌, sym, ap, none, some, Bool, true, false, not, length,
  get_elem?, put, set, get_elem?-put_self, get_elem?-put_ne, get_elem?-set_self, get_elem?-set_ne,
  ◌==◌, arith, Bool-cases, inl, inr, ◌⊎◌, ==→eq, lt_of_get_elem?,
}
use luaxx.Opcodes.{
  Instruction, number, op_move, op_loadk, op_loadbool, op_getupval, op_getglobal, create_abc,
  create_abx, get_opcode, get_arg_a, get_arg_b, get_arg_c, get_arg_bx, set_arg_a,
}
use luaxx.Opcodes.Fields.{
  create_abc-HasFields, create_abx-fields, set_arg_a-HasFields, set_arg_a-bx,
}
use luaxx.Code.State.{
  ExpKind, v_true, v_false, v_k, v_local, v_upval, v_global, v_nonreloc, ExpDesc, FuncState, Run,
  ok, load, store,
}
use luaxx.Code.Jumps.Chain.{load-ok}
use luaxx.Code.Emit.{max_int}
use luaxx.Code.Emit.Append.{emitted, code_abc-ok, code_abx-ok}
use luaxx.Code.Constants.{FloatOps}
use luaxx.Code.Expr.{discharge_vars, settle, discharge_to_reg, exp_to_reg}

-- The descriptor says that the value is in the register `reg`, and no jump waits to give it.
abbrev pub InRegister : ExpDesc → ℕ → Type 0
InRegister e reg = (e.k ≡ v_nonreloc) × (e.info ≡ reg) × (e.t ≡ none) × (e.f ≡ none)

-- where one instruction takes a value from
pub data Source : Type 0 where
  register constant upvalue global : ℕ → Source
  boolean : Bool → Source

-- The comments of lopcodes.h on MOVE, LOADK, GETUPVAL, GETGLOBAL and LOADBOOL: the instruction puts
-- the value into `reg`, and does nothing else.
abbrev pub Puts : Instruction → ℕ → Source → Type 0
Puts i reg (register r) = (get_opcode i ≡ number op_move) × (get_arg_a i ≡ reg) × (get_arg_b i ≡ r)
Puts i reg (constant n) =
    (get_opcode i ≡ number op_loadk) × (get_arg_a i ≡ reg) × (get_arg_bx i ≡ n)
Puts i reg (upvalue n) =
    (get_opcode i ≡ number op_getupval) × (get_arg_a i ≡ reg) × (get_arg_b i ≡ n)
Puts i reg (global n) =
    (get_opcode i ≡ number op_getglobal) × (get_arg_a i ≡ reg) × (get_arg_bx i ≡ n)
Puts i reg (boolean b) =
    (get_opcode i ≡ number op_loadbool)
    × (get_arg_a i ≡ reg)
    × (not (get_arg_b i == 0) ≡ b)
    × (get_arg_c i ≡ 0)

-- The comments of lparser.h on the kinds of expressions that have such a value: the kind, `info`,
-- and where the value is.
pub data HasSource : ExpKind → ℕ → Source → Type 0 where
  true_value : {n : ℕ} → HasSource v_true n (boolean true)
  false_value : {n : ℕ} → HasSource v_false n (boolean false)
  constant_value : {n : ℕ} → HasSource v_k n (constant n)
  local_value : {r : ℕ} → HasSource v_local r (register r)
  register_value : {r : ℕ} → HasSource v_nonreloc r (register r)
  upvalue_value : {n : ℕ} → HasSource v_upval n (upvalue n)
  global_value : {n : ℕ} → HasSource v_global n (global n)

-- an expression without jumps; the other members of its union are not in use
abbrev pub plain : ExpKind → ℕ → ℕ → ℕ → ExpDesc
plain k info aux nval = record { k = k; info = info; aux = aux; nval = nval; t = none; f = none }

-- The number fits its field.
abbrev pub Fits : Source → Type 0
Fits (register r) = r < 256
Fits (constant n) = n < 2 ^ 18
Fits (upvalue n) = n < 256
Fits (global n) = n < 2 ^ 18
Fits (boolean b) = Unit

-- One more instruction puts the value into `reg`, behind the code that there was.
pub record Loads (v : Source) (reg : ℕ) (fs fs' : FuncState) : Type 0 where
  pub i : Instruction
  pub at : get_elem? fs'.code fs.pc ≡ some i
  pub puts : Puts i reg v
  pub moves : fs'.pc ≡ fs.pc + 1
  pub keeps : (q : ℕ) → q < fs.pc → get_elem? fs'.code q ≡ get_elem? fs.code q

-- The value is in `reg`, where it was already or where it is loaded.
abbrev pub IsSettled : Source → ℕ → FuncState → Run ExpDesc → Type 0
IsSettled v reg fs r =
    (e : ExpDesc) × (fs' : FuncState) × (r ≡ ok e fs')
    × InRegister e reg
    × (((v ≡ register reg) × (fs' ≡ fs)) ⊎ Loads v reg fs fs')

module _ (reg : ℕ) (fs : FuncState) (low : reg < 256) (waits : fs.jpc ≡ none)
    (top : fs.pc ≡ length fs.code) (small : fs.pc < max_int) where
  put-Loads :
      (v : Source) (i : Instruction) → Puts i reg v → Loads v reg fs (emitted i fs.lastline fs)
  put-Loads v i p = record {
    i = i;
    at = get_elem?-put_self fs.code fs.pc i (omega arith);
    puts = p;
    moves = refl;
    keeps = λ q h. get_elem?-put_ne fs.code fs.pc q i (omega arith) λ e. absurd (omega (arith, e));
  }

  -- an instruction that is emitted with another A, which is then set
  abbrev reset : Instruction → FuncState
  reset i =
      let fs1 = emitted i fs.lastline fs in
      record fs1 { code = set fs1.code fs.pc (set_arg_a i reg) }

  reset-Loads :
      (v : Source) (i : Instruction) → Puts (set_arg_a i reg) reg v → Loads v reg fs (reset i)
  reset-Loads v i p =
      let first = get_elem?-put_self fs.code fs.pc i (omega arith) in
      record {
        i = set_arg_a i reg;
        at =
            get_elem?-set_self (put fs.code fs.pc i) fs.pc (set_arg_a i reg)
              (lt_of_get_elem? (put fs.code fs.pc i) fs.pc first);
        puts = p;
        moves = refl;
        keeps = λ q h.
            let ne : fs.pc ≢ q = λ e. absurd (omega (arith, e)) in
            get_elem?-set_ne (put fs.code fs.pc i) fs.pc q (set_arg_a i reg) ne
            ∙ get_elem?-put_ne fs.code fs.pc q i (omega arith) ne;
      }

  module _ ⦃fp : FloatOps⦄ (aux nval : ℕ) where
    Puts-register : (r : ℕ) → r < 256 → Puts (create_abc op_move reg r 0) reg (register r)
    Puts-register r h =
        let f = create_abc-HasFields op_move reg r 0 low (omega arith) (omega arith) in
        (f.1, f.2, f.3)

    Puts-constant : (n : ℕ) → n < 2 ^ 18 → Puts (create_abx op_loadk reg n) reg (constant n)
    Puts-constant n h = let f = create_abx-fields op_loadk reg n low h in (f.1, f.2, f.3)

    Puts-true : Puts (create_abc op_loadbool reg 1 0) reg (boolean true)
    Puts-true =
        let f = create_abc-HasFields op_loadbool reg 1 0 low (omega arith) (omega arith) in
        (f.1, f.2, rw f.3 refl, f.4)

    Puts-false : Puts (create_abc op_loadbool reg 0 0) reg (boolean false)
    Puts-false =
        let f = create_abc-HasFields op_loadbool reg 0 0 low (omega arith) (omega arith) in
        (f.1, f.2, rw f.3 refl, f.4)

    Puts-upvalue :
        (n : ℕ) → n < 256 → Puts (set_arg_a (create_abc op_getupval 0 n 0) reg) reg (upvalue n)
    Puts-upvalue n h =
        let f = create_abc-HasFields op_getupval 0 n 0 (omega arith) (omega arith) (omega arith) in
        let g = set_arg_a-HasFields (create_abc op_getupval 0 n 0) reg f.0 low in
        (g.1 ∙ f.1, g.2, g.3 ∙ f.3)

    Puts-global :
        (n : ℕ) → n < 2 ^ 18 → Puts (set_arg_a (create_abx op_getglobal 0 n) reg) reg (global n)
    Puts-global n h =
        let f = create_abx-fields op_getglobal 0 n (omega arith) h in
        let g = set_arg_a-HasFields (create_abx op_getglobal 0 n) reg f.0 low in
        (g.1 ∙ f.1, g.2, set_arg_a-bx (create_abx op_getglobal 0 n) reg f.0 low ∙ f.3)

    -- A register is not moved to itself.
    local-IsSettled :
        (r : ℕ)
        → r < 256
        → IsSettled (register r) reg fs (exp_to_reg (plain v_local r aux nval) reg fs)
    unfolding exp_to_reg discharge_to_reg discharge_vars settle
    local-IsSettled r h = elim (Bool-cases (reg == r)) [
      | inl e ↦ rw e (
        plain v_nonreloc reg aux nval,
        fs,
        refl,
        (refl, refl, refl, refl),
        inl (ap register (sym (==→eq reg r e)), refl),
      )
      | inr e ↦
          rw (e, code_abc-ok op_move reg r 0 fs waits small)
            (
              plain v_nonreloc reg aux nval,
              emitted (create_abc op_move reg r 0) fs.lastline fs,
              refl,
              (refl, refl, refl, refl),
              inr (put-Loads (register r) _ (Puts-register r h)),
            )
    ]

    nonreloc_as_local :
        (r : ℕ)
        → exp_to_reg (plain v_nonreloc r aux nval) reg fs
          ≡ exp_to_reg (plain v_local r aux nval) reg fs
    unfolding exp_to_reg discharge_to_reg discharge_vars
    nonreloc_as_local r = refl

    -- One instruction that has its A from the start, and one that is given it later.
    loaded :
        (v : Source) (i : Instruction)
        → Puts i reg v
        → IsSettled v reg fs (ok (plain v_nonreloc reg aux nval) (emitted i fs.lastline fs))
    loaded v i p = (
      plain v_nonreloc reg aux nval,
      emitted i fs.lastline fs,
      refl,
      (refl, refl, refl, refl),
      inr (put-Loads v i p),
    )

    relocated :
        (v : Source) (i : Instruction)
        → Puts (set_arg_a i reg) reg v
        → IsSettled v reg fs (ok (plain v_nonreloc reg aux nval) (reset i))
    relocated v i p = (
      plain v_nonreloc reg aux nval,
      reset i,
      refl,
      (refl, refl, refl, refl),
      inr (reset-Loads v i p),
    )

    emitted-load :
        (i : Instruction) → load fs.pc (emitted i fs.lastline fs) ≡ ok i (emitted i fs.lastline fs)
    emitted-load i =
        load-ok fs.pc (emitted i fs.lastline fs) (get_elem?-put_self fs.code fs.pc i (omega arith))

    -- An expression without jumps that is true, false, a constant, a register, an upvalue or a
    -- global, at the end of code that has room for one more instruction, and with no jumps that
    -- wait: exp2reg leaves its value in the register that was asked for, and a descriptor that says
    -- so. Either the value is there already, and nothing is emitted, or one instruction is, which
    -- by the comments of lopcodes.h puts the value there. The code in front of it is as before.
    pub exp_to_reg-IsSettled :
        (k : ExpKind) (info : ℕ) (v : Source)
        → HasSource k info v
        → Fits v
        → IsSettled v reg fs (exp_to_reg (plain k info aux nval) reg fs)
    unfolding exp_to_reg discharge_to_reg discharge_vars settle store
    exp_to_reg-IsSettled _ n _ true_value h =
        rw (code_abc-ok op_loadbool reg 1 0 fs waits small) (loaded _ _ Puts-true)
    exp_to_reg-IsSettled _ n _ false_value h =
        rw (code_abc-ok op_loadbool reg 0 0 fs waits small) (loaded _ _ Puts-false)
    exp_to_reg-IsSettled _ n _ constant_value h =
        rw (code_abx-ok op_loadk reg n fs waits small) (loaded _ _ (Puts-constant n h))
    exp_to_reg-IsSettled _ r _ local_value h = local-IsSettled r h
    exp_to_reg-IsSettled _ r _ register_value h = rw (nonreloc_as_local r) (local-IsSettled r h)
    exp_to_reg-IsSettled _ n _ upvalue_value h =
        rw
          (
            code_abc-ok op_getupval 0 n 0 fs waits small,
            emitted-load (create_abc op_getupval 0 n 0),
          )
          (relocated _ _ (Puts-upvalue n h))
    exp_to_reg-IsSettled _ n _ global_value h =
        rw (code_abx-ok op_getglobal 0 n fs waits small, emitted-load (create_abx op_getglobal 0 n))
          (relocated _ _ (Puts-global n h))
