-- ===== src/Code/State.antt =====
-- The generator's state, its errors, and the operations that lcode.c is written with.
-- A FuncState and the parts of its Proto that lcode.c writes are one record.
use luaxx.Base.{ℕ, ◌+◌, List, Option, none, some, Bool, true, false, get_elem?, set, ltb, ◌==◌}
use luaxx.Opcodes.{Instruction}
use luaxx.Chunk.{Constant}

-- A position in the code, or NO_JUMP for `none`. `lasttarget` starts at -1, which is `none` too.
abbrev pub Jump : Type 0
Jump = Option ℕ

-- A count of values, or LUA_MULTRET for `none`.
abbrev pub Results : Type 0
Results = Option ℕ

abbrev pub plus_one : Results → ℕ
plus_one none = 0
plus_one (some n) = n + 1

-- expkind
pub data ExpKind : Type 0 where
  v_void v_nil v_true v_false v_k v_knum v_local v_upval v_global v_indexed : ExpKind
  v_jmp v_relocable v_nonreloc v_call v_vararg : ExpKind

-- expdesc. The union's members stand side by side; `k` says which is in use. `nval` is the bit
-- pattern of a double.
pub record ExpDesc : Type 0 where
  pub k : ExpKind
  pub info : ℕ
  pub aux : ℕ
  pub nval : ℕ
  pub t : Jump
  pub f : Jump

-- A key of the table `h`: a constant, or the table itself, which stands for nil.
pub data Key : Type 0 where
  value : Constant → Key
  itself : Key

pub record FuncState : Type 0 where
  pub code : List Instruction
  pub lineinfo : List ℕ
  pub k : List Constant
  pub maxstacksize : ℕ
  pub h : List (Key × ℕ)
  pub lastline : ℕ
  pub pc : ℕ
  pub lasttarget : Jump
  pub jpc : Jump
  pub freereg : ℕ
  pub nk : ℕ
  pub nactvar : ℕ

-- The errors that are thrown, a use of the code array out of bounds, which C leaves undefined,
-- and a list of jumps that does not end.
pub data Failure : Type 0 where
  control_structure_too_long function_too_complex code_size_overflow : Failure
  constant_table_overflow nan_index out_of_bounds endless : Failure

pub data Run {ℓ} (A : Type ℓ) : Type ℓ where
  ok : A → FuncState → Run A
  fail : Failure → Run A

abbrev pub Cmd {ℓ} : Type ℓ → Type ℓ
Cmd A = FuncState → Run A

abbrev pub pure {ℓ} : {A : Type ℓ} → A → Cmd A
pure a fs = ok a fs

abbrev pub throw {ℓ} : {A : Type ℓ} → Failure → Cmd A
throw e fs = fail e

abbrev pub and_then {ℓ κ} : {A : Type ℓ} {B : Type κ} → Run A → (A → Cmd B) → Run B
and_then (ok a fs) m = m a fs
and_then (fail e) m = fail e

infixl 5 ◌>>=◌ ◌>>◌
abbrev pub ◌>>=◌ {ℓ κ} : {A : Type ℓ} {B : Type κ} → Cmd A → (A → Cmd B) → Cmd B
m >>= g = λ fs. and_then (m fs) g

abbrev pub ◌>>◌ {ℓ κ} : {A : Type ℓ} {B : Type κ} → Cmd A → Cmd B → Cmd B
m >> n = m >>= λ _. n

abbrev pub get_state : Cmd FuncState
get_state fs = ok fs fs

abbrev pub set_state : FuncState → Cmd (Unit {0})
set_state fs _ = ok tt fs

-- `f->code[pc]`, read and written
unfoldable pub load : ℕ → Cmd Instruction
load pc fs = elim (get_elem? fs.code pc) [ none ↦ fail out_of_bounds | some i ↦ ok i fs ]

unfoldable pub store : ℕ → Instruction → Cmd (Unit {0})
store pc i fs = ok tt (record fs { code = set fs.code pc i })

abbrev pub same_jump : Jump → Jump → Bool
same_jump none none = true
same_jump (some a) (some b) = a == b
same_jump _ _ = false

-- `pc > target`
abbrev pub above : ℕ → Jump → Bool
above pc none = true
above pc (some t) = ltb t pc
