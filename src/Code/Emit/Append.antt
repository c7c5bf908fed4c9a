-- ===== src/Code/Emit/Append.antt =====
-- `luaK_code`: a new instruction, and the jumps that wait for it.
use mathlib.Core.Path.{subst}
use luaxx.Base.{
  ℕ, ◌+◌, ◌<◌, ◌≡◌, ◌≢◌, refl, sym, ◌∙◌, false, List, [], ◌∷◌, none, some, length, get_elem?, put,
  get_elem?-put_self, get_elem?-put_ne, All, leb, if◌then◌else◌, arith, Bool-cases, inl, inr,
}
use luaxx.Base.Distinct.{Distinct}
use luaxx.Opcodes.{Instruction, OpCode, op_jmp, create_abc, create_abx, no_reg}
use luaxx.Code.State.{Jump, FuncState, ok}
use luaxx.Code.Jumps.{patch_list_aux, patch_list_loop, discharge_jpc, concat}
use luaxx.Code.Jumps.Chain.{Chain, carries}
use luaxx.Code.Jumps.Patch.{Goes, InReach, patch_list_aux-Goes, Chain-below}
use luaxx.Code.Emit.{max_int, append, code, code_abc, code_abx, code_asbx, jump, cond_jump}

-- The state with one more instruction, and no jumps that wait.
abbrev pub emitted : Instruction → ℕ → FuncState → FuncState
emitted i line fs = record fs {
  code = put fs.code fs.pc i;
  lineinfo = put fs.lineinfo fs.pc line;
  pc = fs.pc + 1;
  jpc = none;
}

pub append-ok :
    (i : Instruction) (line : ℕ) (fs : FuncState)
    → fs.pc < max_int
    → append i line fs
      ≡ ok fs.pc (record fs {
        code = put fs.code fs.pc i;
        lineinfo = put fs.lineinfo fs.pc line;
        pc = fs.pc + 1;
      })
unfolding append
append-ok i line fs h = let e : leb max_int fs.pc ≡ false = ground arith in rw e

discharge_none :
    (fs : FuncState) → fs.jpc ≡ none → discharge_jpc fs ≡ ok tt (record fs { jpc = none })
unfolding discharge_jpc patch_list_aux patch_list_loop
discharge_none fs e = rw e

pub code-ok :
    (i : Instruction) (line : ℕ) (fs : FuncState)
    → fs.jpc ≡ none
    → fs.pc < max_int
    → code i line fs ≡ ok fs.pc (emitted i line fs)
unfolding code
code-ok i line fs e h = rw (discharge_none fs e) (append-ok i line (record fs { jpc = none }) h)

pub code_abc-ok :
    (o : OpCode) (a b c : ℕ) (fs : FuncState)
    → fs.jpc ≡ none
    → fs.pc < max_int
    → code_abc o a b c fs ≡ ok fs.pc (emitted (create_abc o a b c) fs.lastline fs)
unfolding code_abc
code_abc-ok o a b c fs e h = code-ok (create_abc o a b c) fs.lastline fs e h

pub code_abx-ok :
    (o : OpCode) (a bc : ℕ) (fs : FuncState)
    → fs.jpc ≡ none
    → fs.pc < max_int
    → code_abx o a bc fs ≡ ok fs.pc (emitted (create_abx o a bc) fs.lastline fs)
unfolding code_abx
code_abx-ok o a bc fs e h = code-ok (create_abx o a bc) fs.lastline fs e h

abbrev pub jump_word : Instruction
jump_word = create_abx op_jmp 0 131070

pub jump-ok :
    (fs : FuncState)
    → fs.jpc ≡ none
    → fs.pc < max_int
    → jump fs ≡ ok fs.pc (emitted jump_word fs.lastline fs)
unfolding jump code_asbx code_abx concat
jump-ok fs e h = rw (e, code-ok jump_word fs.lastline (record fs { jpc = none }) refl h)

pub cond_jump-ok :
    (o : OpCode) (a b c : ℕ) (fs : FuncState)
    → fs.jpc ≡ none
    → fs.pc + 1 < max_int
    → cond_jump o a b c fs
      ≡ ok (fs.pc + 1) (emitted jump_word fs.lastline (emitted (create_abc o a b c) fs.lastline fs))
unfolding cond_jump
cond_jump-ok o a b c fs e h =
    rw (code_abc-ok o a b c fs e (omega arith))
      (jump-ok (emitted (create_abc o a b c) fs.lastline fs) refl h)

Goes-put :
    (code' : List Instruction) (n : ℕ) (i : Instruction) (vt : Jump) (code0 : List Instruction)
    (js : List ℕ)
    → All (λ p. p < length code') js
    → n ≡ length code'
    → All (λ p. Goes code' p (if carries code0 p then vt else vt)) js
    → All (λ p. Goes (put code' n i) p vt) js
Goes-put code' n i vt code0 [] b e g = tt
Goes-put code' n i vt code0 (p ∷ js) (b, bs) e ((w, at, goes), gs) =
    let ne : n ≢ p = λ x. absurd (omega arith) in
    let same = get_elem?-put_ne code' n p i (omega arith) ne in
    (
      (
        w,
        same ∙ at,
        elim (Bool-cases (carries code0 p)) [ inl c ↦ rw c at goes | inr c ↦ rw c at goes ],
      ),
      Goes-put code' n i vt code0 js bs e gs,
    )

-- A new instruction at the end of code that has room for it resolves the jumps that wait for it: where they are a
-- list without repetition and in reach, the instruction is written at `pc`, `pc` moves on by one,
-- every jump of the list goes to the new instruction, and none waits any more.
pub code-Goes :
    (i : Instruction) (line : ℕ) (fs : FuncState) (js : List ℕ)
    → Chain fs.code fs.jpc js
    → Distinct js
    → All (InReach (some fs.pc) (some fs.pc)) js
    → fs.pc ≡ length fs.code
    → fs.pc < max_int
    → (fs' : FuncState) × (code i line fs ≡ ok fs.pc fs')
      × (get_elem? fs'.code fs.pc ≡ some i)
      × (fs'.pc ≡ fs.pc + 1)
      × (fs'.jpc ≡ none)
      × All (λ p. Goes fs'.code p (some fs.pc)) js
unfolding code discharge_jpc
code-Goes i line fs js c d reach top small =
    let (code', e, len, goes) = patch_list_aux-Goes (some fs.pc) no_reg (some fs.pc) fs c d reach in
    let below : All (λ p. p < length code') js =
      subst (λ n. All (λ p. p < n) js) (sym len) (Chain-below fs.code c) in
    (
      record fs {
        code = put code' fs.pc i;
        lineinfo = put fs.lineinfo fs.pc line;
        pc = fs.pc + 1;
        jpc = none;
      },
      rw (e, append-ok i line (record fs { code = code'; jpc = none }) small),
      get_elem?-put_self code' fs.pc i (omega arith),
      refl,
      refl,
      Goes-put code' fs.pc i (some fs.pc) fs.code js below (omega arith) goes,
    )
