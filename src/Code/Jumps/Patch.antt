-- ===== src/Code/Jumps/Patch.antt =====
-- `patchlistaux` on a list of jumps.
use mathlib.Core.Path.{subst}
use luaxx.Base.{
  ℕ, zero, suc, ◌<◌, ◌≤◌, ◌==◌, ◌≡◌, ◌≢◌, refl, sym, ap, ◌∙◌, List, [], ◌∷◌, some, false, length,
  get_elem?, All, lt_of_get_elem?, if◌then◌else◌, abs, Bool-cases, inl, inr, ◌⊎◌, arith, ==→eq,
  ne→==,
}
use luaxx.Base.Distinct.{NotIn, Distinct, length-le_of_Distinct}
use luaxx.Opcodes.{Instruction, get_opcode, get_arg_sbx, set_arg_sbx, max_arg_sbx}
use luaxx.Opcodes.Fields.{set_arg_sbx-fields}
use luaxx.Code.State.{Jump, FuncState, Run, ok}
use luaxx.Code.Jumps.{fuel, offset_to, patch_list_loop, patch_list_aux}
use luaxx.Code.Jumps.Chain.{
  Node, Chain, end, link, is_testset, carries, get_jump-ok, patch_test_reg-ok, fix_jump-ok, dest_of,
  patched, patched_test, length-patched, get_patched, get_patched_self, get_patched_test,
}

-- The instruction at `p` jumps to `dest`.
abbrev pub Goes : List Instruction → ℕ → Jump → Type 0
Goes code p dest =
    (i : Instruction) × (get_elem? code p ≡ some i) × (get_arg_sbx i ≡ offset_to dest p)

-- Both targets are in reach of the jump.
abbrev pub InReach : Jump → Jump → ℕ → Type 0
InReach vt dt p = (abs (offset_to vt p) ≤ max_arg_sbx) × (abs (offset_to dt p) ≤ max_arg_sbx)

module _ (code : List Instruction) (vt : Jump) (reg : ℕ) (dt : Jump) {p : ℕ} {next : Jump}
    (n : Node code p next) (reach : InReach vt dt p) where
  abbrev one : List Instruction
  one = patched code p n.i vt reg dt

  dest-InReach : abs (offset_to (dest_of code p vt dt) p) ≤ max_arg_sbx
  dest-InReach = elim (Bool-cases (carries code p)) [ inl e ↦ rw e reach.0 | inr e ↦ rw e reach.1 ]

  one_opcode : get_opcode (set_arg_sbx n.i (offset_to (dest_of code p vt dt) p)) ≡ get_opcode n.i
  one_opcode = (set_arg_sbx-fields n.i (offset_to (dest_of code p vt dt) p) n.word dest-InReach).2

  one_self : get_elem? one p ≡ some (set_arg_sbx n.i (offset_to (dest_of code p vt dt) p))
  one_self = get_patched_self code p n.i vt reg dt (lt_of_get_elem? code p n.at)

  one_not_testset : is_testset (get_elem? one p) ≡ false
  one_not_testset = rw (one_self, one_opcode) (ne→== _ _ n.jumps)

  one-Node : {q : ℕ} {next' : Jump} → p ≢ q → Node code q next' → Node one q next'
  one-Node {q} ne m =
      let same = get_patched code p n.i vt reg dt q (λ e. ne (sym e)) (spared q m) in
      record { i = m.i; at = same ∙ m.at; word = m.word; jumps = m.jumps; leads = m.leads }
    where
      spared : (q : ℕ) {next' : Jump} → Node code q next' → (suc q ≢ p) ⊎ (carries code p ≡ false)
      spared q m = elim (Bool-cases (carries code p)) [
        | inr e ↦ inr e
        | inl e ↦ inl (λ x. m.jumps (==→eq _ _ (rw m.at at (rw (← x) at e))))
      ]

  one-Chain : {l : Jump} {js : List ℕ} → Chain code l js → NotIn p js → Chain one l js
  one-Chain end h = end
  one-Chain (link m c) (h, hs) = link (one-Node h m) (one-Chain c hs)

  one-carries : (q : ℕ) → p ≢ q → carries one q ≡ carries code q
  one-carries zero ne = refl
  one-carries (suc r) ne = elim (Bool-cases (r == p)) [
    | inl e ↦ rw (==→eq r p e) (one_not_testset ∙ sym (rw n.at (ne→== _ _ n.jumps)))
    | inr e ↦
        ap is_testset (get_patched code p n.i vt reg dt r (ground arith) (inl (λ x. ne (sym x))))
  ]

-- What the loop makes of the code: the jumps go to their targets, and what is neither a jump of
-- the list nor a TESTSET before one stays.
record Patched (code : List Instruction) (js : List ℕ) (vt dt : Jump) (code' : List Instruction)
    : Type 0 where
  same_length : length code' ≡ length code
  goes : All (λ p. Goes code' p (dest_of code p vt dt)) js
  spared :
      (r : ℕ)
      → NotIn r js
      → NotIn (suc r) js ⊎ (is_testset (get_elem? code r) ≡ false)
      → get_elem? code' r ≡ get_elem? code r

module _ (code : List Instruction) (vt : Jump) (reg : ℕ) (dt : Jump) {p : ℕ} {next : Jump}
    (n : Node code p next) (reach : InReach vt dt p) where
  same_dests :
      (code' : List Instruction) (js : List ℕ)
      → NotIn p js
      → All (λ q. Goes code' q (dest_of (one code vt reg dt n reach) q vt dt)) js
      → All (λ q. Goes code' q (dest_of code q vt dt)) js
  same_dests code' [] h g = tt
  same_dests code' (q ∷ js) (h, hs) (g, gs) = (
    subst (λ b. Goes code' q (if b then vt else dt)) (one-carries code vt reg dt n reach q h) g,
    same_dests code' js hs gs,
  )

  Patched-cons :
      (js : List ℕ) (code' : List Instruction)
      → NotIn p js
      → Patched (one code vt reg dt n reach) js vt dt code'
      → Patched code (p ∷ js) vt dt code'
  Patched-cons js code' h d = record {
    same_length = d.same_length ∙ length-patched code p n.i vt reg dt;
    goes = (
      (
        set_arg_sbx n.i (offset_to (dest_of code p vt dt) p),
        d.spared p h (inr (one_not_testset code vt reg dt n reach))
            ∙ one_self code vt reg dt n reach,
        (set_arg_sbx-fields n.i (offset_to (dest_of code p vt dt) p) n.word
            (dest-InReach code vt reg dt n reach)).1,
      ),
      same_dests code' js h d.goes,
    );
    spared = λ r (ne, nes) s.
        let same = get_patched code p n.i vt reg dt r ne (before r s) in
        d.spared r nes (after r ne s) ∙ same;
  }
    where
      before :
          (r : ℕ)
          → NotIn (suc r) (p ∷ js) ⊎ (is_testset (get_elem? code r) ≡ false)
          → (suc r ≢ p) ⊎ (carries code p ≡ false)
      before r (inl (ne, nes)) = inl ne
      before r (inr e) = elim (Bool-cases (suc r == p)) [
        | inl q ↦ inr (subst (λ x. carries code x ≡ false) (==→eq (suc r) p q) e)
        | inr q ↦ inl (ground arith)
      ]

      after :
          (r : ℕ)
          → r ≢ p
          → NotIn (suc r) (p ∷ js) ⊎ (is_testset (get_elem? code r) ≡ false)
          → NotIn (suc r) js ⊎ (is_testset (get_elem? (one code vt reg dt n reach) r) ≡ false)
      after r ne (inl (x, nes)) = inl nes
      after r ne (inr e) =
          inr (ap is_testset (get_patched code p n.i vt reg dt r ne (before r (inr e))) ∙ e)

-- A run that ends, with the code changed and nothing else.
abbrev Ends : (Run (Unit {0})) → FuncState → (List Instruction → Type 0) → Type 0
Ends r fs P = (code' : List Instruction) × (r ≡ ok tt (record fs { code = code' })) × P code'

round :
    (n : ℕ) (vt : Jump) (reg : ℕ) (dt : Jump) (fs : FuncState) {p : ℕ} {next : Jump}
    (m : Node fs.code p next) (reach : InReach vt dt p)
    → patch_list_loop (suc n) (some p) vt reg dt fs
      ≡ patch_list_loop n next vt reg dt (record fs { code = one fs.code vt reg dt m reach })
unfolding patch_list_loop patched
round n vt reg dt fs {p} m reach = rw (
  get_jump-ok {fs = fs} m,
  patch_test_reg-ok p reg fs m,
  fix_jump-ok p (dest_of fs.code p vt dt) (record fs { code = patched_test fs.code p reg })
      (get_patched_test fs.code p reg p (inl (λ (e : suc p ≡ p). absurd (omega arith))) ∙ m.at)
      (dest-InReach fs.code vt reg dt m reach),
)

loop-Ends :
    (n : ℕ) (vt : Jump) (reg : ℕ) (dt : Jump) (fs : FuncState) {l : Jump} {js : List ℕ}
    → Chain fs.code l js
    → Distinct js
    → All (InReach vt dt) js
    → length js ≤ n
    → Ends (patch_list_loop n l vt reg dt fs) fs (Patched fs.code js vt dt)
unfolding patch_list_loop
loop-Ends n vt reg dt fs end d r h =
    (fs.code, refl, record { same_length = refl; goes = tt; spared = λ q k s. refl })
loop-Ends zero vt reg dt fs (link m c) d r h = absurd (omega arith)
loop-Ends (suc n) vt reg dt fs (link {p} {js} m c) (d, ds) (r, rs) h =
    let (code', e, done) =
      loop-Ends n vt reg dt (record fs { code = one fs.code vt reg dt m r })
        (one-Chain fs.code vt reg dt m r c d) ds rs (omega arith) in
    (code', round n vt reg dt fs m r ∙ e, Patched-cons fs.code vt reg dt m r js code' d done)

pub Chain-below :
    (code : List Instruction) {l : Jump} {js : List ℕ}
    → Chain code l js
    → All (λ p. p < length code) js
Chain-below code end = tt
Chain-below code (link {p} m c) = (lt_of_get_elem? code p m.at, Chain-below code c)

pub length-Chain-le :
    (code : List Instruction) {l : Jump} {js : List ℕ}
    → Chain code l js
    → Distinct js
    → length js ≤ length code
length-Chain-le code {js} c d = length-le_of_Distinct (length code) js d (Chain-below code c)

-- Patching a list of jumps without repetition, whose targets are in reach, ends without error and
-- changes nothing but the code. There each jump that a TESTSET precedes goes to `vt`, and each
-- other to `dt`.
pub patch_list_aux-Goes :
    (vt : Jump) (reg : ℕ) (dt : Jump) (fs : FuncState) {l : Jump} {js : List ℕ}
    → Chain fs.code l js
    → Distinct js
    → All (InReach vt dt) js
    → (code' : List Instruction) × (patch_list_aux l vt reg dt fs
        ≡ ok tt (record fs { code = code' }))
      × (length code' ≡ length fs.code)
      × All (λ p. Goes code' p (if carries fs.code p then vt else dt)) js
unfolding patch_list_aux
patch_list_aux-Goes vt reg dt fs {js} c d r =
    let (code', e, done) =
      loop-Ends (fuel fs) vt reg dt fs c d r (omega (arith, length-Chain-le fs.code c d)) in
    (code', e, done.same_length, done.goes)

-- Patching a list of jumps leaves every instruction that is neither a jump of the list nor a
-- TESTSET in front of one.
pub patch_list_aux_spared :
    (vt : Jump) (reg : ℕ) (dt : Jump) (fs : FuncState) {l : Jump} {js : List ℕ} (r : ℕ)
    → Chain fs.code l js
    → Distinct js
    → All (InReach vt dt) js
    → NotIn r js
    → NotIn (suc r) js ⊎ (is_testset (get_elem? fs.code r) ≡ false)
    → (fs' : FuncState) × (patch_list_aux l vt reg dt fs ≡ ok tt fs')
      × (get_elem? fs'.code r ≡ get_elem? fs.code r)
unfolding patch_list_aux
patch_list_aux_spared vt reg dt fs r c d reach out s =
    let (code', e, done) =
      loop-Ends (fuel fs) vt reg dt fs c d reach (omega (arith, length-Chain-le fs.code c d)) in
    (record fs { code = code' }, e, done.spared r out s)
