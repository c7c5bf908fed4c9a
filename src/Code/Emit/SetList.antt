-- ===== src/Code/Emit/SetList.antt =====
-- `luaK_setlist`: the batch number of a table constructor.
use luaxx.Base.{
  ℕ, zero, suc, ◌+◌, ◌-◌, ◌/◌, ◌<◌, ◌≡◌, refl, ◌∙◌, List, [], ◌∷◌, none, some, length, get_elem?,
  put, get_elem?-put_self, get_elem?-put_ne, leb, ◌==◌, if◌then◌else◌, arith, Bool-cases, inl, inr,
  get_or,
}
use luaxx.Opcodes.{
  Instruction, number, op_setlist, create_abc, get_opcode, get_arg_a, get_arg_b, get_arg_c,
  max_arg_c,
}
use luaxx.Opcodes.Fields.{create_abc-HasFields}
use luaxx.Code.State.{FuncState, Results, ok}
use luaxx.Code.Emit.{set_list, set_list_code, to_store, max_int}
use luaxx.Code.Emit.Append.{emitted, code-ok, code_abc-ok}

-- lopcodes.h on OP_SETLIST: if C is 0, then the next instruction is the real C.
abbrev pub batch_at : List Instruction → ℕ → ℕ
batch_at code p = let c = get_arg_c (get_or code p 0) in if c == 0 then get_or code (p + 1) 0 else c

get_or-of_get_elem? : (xs : List ℕ) (i : ℕ) {v : ℕ} → get_elem? xs i ≡ some v → get_or xs i 0 ≡ v
get_or-of_get_elem? [] i e = cc
get_or-of_get_elem? (x ∷ xs) zero e = cc
get_or-of_get_elem? (x ∷ xs) (suc i) e = get_or-of_get_elem? xs i e

length-put : (xs : List ℕ) (v : ℕ) → length (put xs (length xs) v) ≡ length xs + 1
length-put [] v = refl
length-put (x ∷ xs) v = omega (arith, length-put xs v)

-- At the end of code that has room for two more instructions, with no jumps that wait, and with a
-- table register and a number of items that fit their fields, the items of a constructor from item number
-- `nelems`, in batches of 50, are stored by a SETLIST whose batch number reads back as the batch
-- of that item, whether it fits the field C or takes a word of its own; A is the table, B the
-- number of items, and the registers above the table are free again.
pub set_list-batch :
    (base nelems : ℕ) (tostore : Results) (fs : FuncState)
    → fs.jpc ≡ none
    → fs.pc ≡ length fs.code
    → fs.pc + 1 < max_int
    → base < 256
    → to_store tostore < 512
    → (fs' : FuncState) × (set_list base nelems tostore fs ≡ ok tt fs')
      × (get_opcode (get_or fs'.code fs.pc 0) ≡ number op_setlist)
      × (get_arg_a (get_or fs'.code fs.pc 0) ≡ base)
      × (get_arg_b (get_or fs'.code fs.pc 0) ≡ to_store tostore)
      × (batch_at fs'.code fs.pc ≡ (nelems - 1) / 50 + 1)
      × (fs'.freereg ≡ base + 1)
unfolding set_list set_list_code
set_list-batch base nelems tostore fs waits top small hb hs =
    let batch = (nelems - 1) / 50 + 1 in
    let store_of = to_store tostore in
    elim (Bool-cases (leb batch max_arg_c)) [
      | inl fits ↦
          let w = create_abc op_setlist base store_of batch in
          let f = create_abc-HasFields op_setlist base store_of batch hb hs (ground arith) in
          let at : get_or (put fs.code fs.pc w) fs.pc 0 ≡ w =
            get_or-of_get_elem? _ fs.pc (get_elem?-put_self fs.code fs.pc w (omega arith)) in
          (
            record (emitted w fs.lastline fs) { freereg = base + 1 },
            rw (fits, code_abc-ok op_setlist base store_of batch fs waits (omega arith)),
            rw at f.1,
            rw at f.2,
            rw at f.3,
            rw (at, f.4) (ground arith),
            refl,
          )
      | inr large ↦
          let w = create_abc op_setlist base store_of 0 in
          let f = create_abc-HasFields op_setlist base store_of 0 hb hs (omega arith) in
          let fs1 : FuncState = emitted w fs.lastline fs in
          let len : length fs1.code ≡ fs1.pc = rw top (length-put fs.code w) in
          let at1 = get_elem?-put_self fs.code fs.pc w (omega arith) in
          let at : get_or (put fs1.code fs1.pc batch) fs.pc 0 ≡ w = get_or-of_get_elem? _ fs.pc (
            get_elem?-put_ne fs1.code fs1.pc fs.pc batch (omega arith) (λ e. absurd (omega arith))
            ∙ at1) in
          let next : get_or (put fs1.code fs1.pc batch) (fs.pc + 1) 0 ≡ batch =
            get_or-of_get_elem? _ fs1.pc (get_elem?-put_self fs1.code fs1.pc batch (omega arith)) in
          (
            record (emitted batch fs.lastline fs1) { freereg = base + 1 },
            rw (
              large,
              code_abc-ok op_setlist base store_of 0 fs waits (omega arith),
              code-ok batch fs.lastline fs1 refl (omega arith),
            ),
            rw at f.1,
            rw at f.2,
            rw at f.3,
            rw (at, f.4) next,
            refl,
          )
    ]
