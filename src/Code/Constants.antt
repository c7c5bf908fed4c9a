-- ===== src/Code/Constants.antt =====
-- The constants of a function, and the arithmetic on numbers.
pub mod Pool
use luaxx.Base.{
  ℕ, zero, suc, ◌+◌, ◌-◌, List, [], ◌∷◌, ◌++◌, Option, none, some, Bool, true, false, not, ◌&&◌,
  put, leb, ◌==◌, if◌then◌else◌,
}
use luaxx.Chunk
use luaxx.Chunk.{Constant, Str, same_string}
use luaxx.Opcodes.{max_arg_bx}
use luaxx.Code.State.{
  FuncState, Failure, constant_table_overflow, nan_index, Run, ok, fail, Cmd, pure, throw, and_then,
  ◌>>=◌, ◌>>◌, get_state, set_state, Key, value, itself,
}

-- The machine's arithmetic on doubles, given by their bit patterns: the operators that luaconf.h
-- names, and `pow`.
pub record FloatOps : Type 0 where
  pub add : ℕ → ℕ → ℕ
  pub sub : ℕ → ℕ → ℕ
  pub mul : ℕ → ℕ → ℕ
  pub div : ℕ → ℕ → ℕ
  pub mod_of : ℕ → ℕ → ℕ
  pub pow : ℕ → ℕ → ℕ
  pub unm : ℕ → ℕ
  pub eq : ℕ → ℕ → Bool

abbrev pub same_bool : Bool → Bool → Bool
same_bool true true = true
same_bool false false = true
same_bool _ _ = false

module _ ⦃fp : FloatOps⦄ where
  abbrev pub is_nan : ℕ → Bool
  is_nan r = not (fp.eq r r)

  -- luaO_rawequalObj on the keys that the generator uses
  unfoldable pub same_key : Key → Key → Bool
  same_key (value Constant.nil) (value Constant.nil) = true
  same_key (value (Constant.boolean a)) (value (Constant.boolean b)) = same_bool a b
  same_key (value (Constant.number a)) (value (Constant.number b)) = fp.eq a b
  same_key (value (Constant.string s)) (value (Constant.string t)) = same_string s t
  same_key itself itself = true
  same_key _ _ = false

  -- the entry of the table `h` for a key
  unfoldable pub find : Key → List (Key × ℕ) → Option ℕ
  find key [] = none
  find key ((key', n) ∷ h) = if same_key key' key then some n else find key h

  -- luaH_set refuses a key that is not a number
  abbrev pub is_nan_key : Key → Bool
  is_nan_key (value (Constant.number r)) = is_nan r
  is_nan_key _ = false

  unfoldable pub add_k : Key → Constant → Cmd ℕ
  add_k key v fs = if is_nan_key key then fail nan_index else elim (find key fs.h) [
    | some n ↦ ok n fs
    | none ↦
        if leb max_arg_bx fs.nk
        then fail constant_table_overflow
        else ok fs.nk (record fs { h = (key, fs.nk) ∷ fs.h; k = put fs.k fs.nk v; nk = fs.nk + 1 })
  ]

  unfoldable pub string_k : Str → Cmd ℕ
  string_k s = add_k (value (Constant.string (some s))) (Constant.string (some s))

  unfoldable pub number_k : ℕ → Cmd ℕ
  number_k r = add_k (value (Constant.number r)) (Constant.number r)

  unfoldable pub bool_k : Bool → Cmd ℕ
  bool_k b = add_k (value (Constant.boolean b)) (Constant.boolean b)

  unfoldable pub nil_k : Cmd ℕ
  nil_k = add_k itself Constant.nil
