-- ===== src/Code/Jumps/Chain.antt =====
-- Lists of jumps as lists of positions, and one round of the loop that patches them.
use luaxx.Base.{
  ℕ, zero, suc, ◌+◌, ◌<◌, ◌≤◌, ◌==◌, ◌≡◌, ◌≢◌, refl, sym, ap, ◌∙◌, List, [], ◌∷◌, Option, none,
  some, Bool, true, false, not, ◌&&◌, length, get_elem?, set, get_elem?-set_self, get_elem?-set_ne,
  length-set, lt_of_get_elem?, ltb, if◌then◌else◌, pos, ◌+ℤ◌, abs, minus_one, is_minus_one,
  Bool-cases, inl, inr, arith, ==→eq, ne→==, ◌⊎◌,
}
use luaxx.Opcodes.{
  Instruction, number, op_test, op_testset, get_opcode, set_arg_a, get_arg_b, get_arg_c,
  get_arg_sbx, set_arg_sbx, create_abc, max_arg_sbx, no_reg,
}
use luaxx.Opcodes.Fields.{IsWord}
use luaxx.Opcodes.Modes.{test_t_mode}
use luaxx.Code.State.{Jump, FuncState, ok, pure, load, store}
use luaxx.Code.Jumps.{offset_to, fix_jump, get_jump, get_jump_control, patch_test_reg, position}

-- The instruction `i` at `p` jumps to `next`; a jump to itself stands for NO_JUMP.
abbrev pub Leads : Instruction → ℕ → Jump → Type 0
Leads i p none = get_arg_sbx i ≡ minus_one
Leads i p (some d) = (get_arg_sbx i ≡ offset_to (some d) p) × (d ≢ p)

-- A member of a list of jumps: an instruction with a jump offset, which no TESTSET is.
pub record Node (code : List Instruction) (p : ℕ) (next : Jump) : Type 0 where
  pub i : Instruction
  pub at : get_elem? code p ≡ some i
  pub word : IsWord i
  pub jumps : get_opcode i ≢ number op_testset
  pub leads : Leads i p next

-- The list that starts at a jump has these positions.
pub data Chain (code : List Instruction) : Jump → List ℕ → Type 0 where
  end : Chain code none []
  link :
      {p : ℕ} {next : Jump} {js : List ℕ}
      → Node code p next
      → Chain code next js
      → Chain code (some p) (p ∷ js)

abbrev pub is_testset : Option Instruction → Bool
is_testset none = false
is_testset (some i) = get_opcode i == number op_testset

-- A TESTSET stands before the jump.
abbrev pub carries : List Instruction → ℕ → Bool
carries code zero = false
carries code (suc q) = is_testset (get_elem? code q)

-- the instruction that `patchtestreg` writes
abbrev pub retest : Instruction → ℕ → Instruction
retest i reg =
    if not (reg == no_reg) && not (reg == get_arg_b i)
    then set_arg_a i reg
    else create_abc op_test (get_arg_b i) 0 (get_arg_c i)

abbrev pub retested : List Instruction → ℕ → ℕ → Option Instruction → List Instruction
retested code q reg none = code
retested code q reg (some i) =
    if get_opcode i == number op_testset then set code q (retest i reg) else code

abbrev pub patched_test : List Instruction → ℕ → ℕ → List Instruction
patched_test code zero reg = code
patched_test code (suc q) reg = retested code q reg (get_elem? code q)

pub load-ok :
    (p : ℕ) (fs : FuncState) {i : Instruction} → get_elem? fs.code p ≡ some i → load p fs ≡ ok i fs
unfolding load
load-ok p fs h = ground arith

jump_position :
    (i : Instruction) (p : ℕ) (fs : FuncState) (next : Jump)
    → Leads i p next
    → (if is_minus_one (get_arg_sbx i) then pure none else position (pos (p + 1) +ℤ get_arg_sbx i))
        fs
      ≡ ok next fs
jump_position i p fs none e = rw e
jump_position i p fs (some d) (e, h) = rw e (ground arith)

module _ {fs : FuncState} {p : ℕ} {next : Jump} (n : Node fs.code p next) where
  pub get_jump-ok : get_jump p fs ≡ ok next fs
  unfolding get_jump
  get_jump-ok = rw (load-ok p fs n.at) (jump_position n.i p fs next n.leads)

get_elem?_below :
    (xs : List Instruction) (q : ℕ) → q < length xs → (i : Instruction) × (get_elem? xs q ≡ some i)
get_elem?_below [] q h = absurd (omega arith)
get_elem?_below (x ∷ xs) zero h = (x, refl)
get_elem?_below (x ∷ xs) (suc q) h = get_elem?_below xs q (omega arith)

testset-test :
    (i : Instruction)
    → (get_opcode i == number op_testset) ≡ true
    → test_t_mode (get_opcode i) ≡ true
unfolding test_t_mode
testset-test i e = rw (==→eq _ _ e)

patch_after :
    (q reg : ℕ) (fs : FuncState) (i c : Instruction)
    → get_elem? fs.code (suc q) ≡ some i
    → get_opcode i ≢ number op_testset
    → get_elem? fs.code q ≡ some c
    → patch_test_reg (suc q) reg fs
      ≡ ok (carries fs.code (suc q)) (record fs { code = patched_test fs.code (suc q) reg })
unfolding patch_test_reg get_jump_control store load
patch_after q reg fs i c hi ne hc = ground (arith, testset-test c)

pub patch_test_reg-ok :
    (p reg : ℕ) (fs : FuncState) {next : Jump}
    → Node fs.code p next
    → patch_test_reg p reg fs
      ≡ ok (carries fs.code p) (record fs { code = patched_test fs.code p reg })
unfolding patch_test_reg get_jump_control
patch_test_reg-ok zero reg fs n = rw (load-ok zero fs n.at, ne→== _ _ n.jumps)
patch_test_reg-ok (suc q) reg fs n =
    let (c, at) = get_elem?_below fs.code q (omega (arith, lt_of_get_elem? fs.code (suc q) n.at)) in
    patch_after q reg fs n.i c n.at n.jumps at

pub fix_jump-ok :
    (p : ℕ) (dest : Jump) (fs : FuncState) {i : Instruction}
    → get_elem? fs.code p ≡ some i
    → abs (offset_to dest p) ≤ max_arg_sbx
    → fix_jump p dest fs
      ≡ ok tt (record fs { code = set fs.code p (set_arg_sbx i (offset_to dest p)) })
unfolding fix_jump store
fix_jump-ok p dest fs {i} at h =
    let e : ltb max_arg_sbx (abs (offset_to dest p)) ≡ false = ground arith in
    rw (load-ok p fs at, e)

-- What one round of the loop makes of the code.
abbrev pub dest_of : List Instruction → ℕ → Jump → Jump → Jump
dest_of code p vt dt = if carries code p then vt else dt

unfoldable pub patched : List Instruction → ℕ → Instruction → Jump → ℕ → Jump → List Instruction
patched code p i vt reg dt =
    set (patched_test code p reg) p (set_arg_sbx i (offset_to (dest_of code p vt dt) p))

length-retested :
    (code : List Instruction) (q reg : ℕ) (o : Option Instruction)
    → length (retested code q reg o) ≡ length code
length-retested code q reg none = refl
length-retested code q reg (some i) = elim (Bool-cases (get_opcode i == number op_testset)) [
  | inl e ↦ rw e (length-set code q _)
  | inr e ↦ rw e
]

length-patched_test :
    (code : List Instruction) (p reg : ℕ) → length (patched_test code p reg) ≡ length code
length-patched_test code zero reg = refl
length-patched_test code (suc q) reg = length-retested code q reg (get_elem? code q)

get_retested :
    (code : List Instruction) (q reg r : ℕ) (o : Option Instruction)
    → (r ≢ q) ⊎ (is_testset o ≡ false)
    → get_elem? (retested code q reg o) r ≡ get_elem? code r
get_retested code q reg r none h = refl
get_retested code q reg r (some i) h = elim (Bool-cases (get_opcode i == number op_testset)) [
  | inr t ↦ rw t
  | inl t ↦
      rw t (elim h [ inl ne ↦ get_elem?-set_ne code q r _ (λ x. ne (sym x)) | inr no_test ↦ cc ])
]

-- Only a TESTSET right before the jump is changed.
pub get_patched_test :
    (code : List Instruction) (p reg r : ℕ)
    → (suc r ≢ p) ⊎ (carries code p ≡ false)
    → get_elem? (patched_test code p reg) r ≡ get_elem? code r
get_patched_test code zero reg r h = refl
get_patched_test code (suc q) reg r (inl h) =
    get_retested code q reg r (get_elem? code q) (inl (λ e. h (ap suc e)))
get_patched_test code (suc q) reg r (inr h) = get_retested code q reg r (get_elem? code q) (inr h)

pub length-patched :
    (code : List Instruction) (p : ℕ) (i : Instruction) (vt : Jump) (reg : ℕ) (dt : Jump)
    → length (patched code p i vt reg dt) ≡ length code
unfolding patched
length-patched code p i vt reg dt =
    length-set (patched_test code p reg) p _ ∙ length-patched_test code p reg

-- Elsewhere the code stays as it is.
pub get_patched :
    (code : List Instruction) (p : ℕ) (i : Instruction) (vt : Jump) (reg : ℕ) (dt : Jump) (r : ℕ)
    → r ≢ p
    → (suc r ≢ p) ⊎ (carries code p ≡ false)
    → get_elem? (patched code p i vt reg dt) r ≡ get_elem? code r
unfolding patched
get_patched code p i vt reg dt r ne h =
    get_elem?-set_ne (patched_test code p reg) p r _ (λ e. ne (sym e))
    ∙ get_patched_test code p reg r h

pub get_patched_self :
    (code : List Instruction) (p : ℕ) (i : Instruction) (vt : Jump) (reg : ℕ) (dt : Jump)
    → p < length code
    → get_elem? (patched code p i vt reg dt) p
      ≡ some (set_arg_sbx i (offset_to (dest_of code p vt dt) p))
unfolding patched
get_patched_self code p i vt reg dt h =
    get_elem?-set_self (patched_test code p reg) p _ (omega (arith, length-patched_test code p reg))
