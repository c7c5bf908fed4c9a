-- ===== src/Scope.antt =====
-- lparser.c: the local variables, upvalues and blocks of the functions that are being compiled. A
-- `Level` is a FuncState as the parser uses it, with the generator's part as `gen`; the list of
-- levels is the chain of `prev`, the function that is read first.
pub mod Lookup
pub mod Names
pub mod Declared
mod Tests
use luaxx.Base.{
  ℕ, zero, suc, ◌+◌, ◌-◌, ◌%◌, ◌^◌, List, [], ◌∷◌, ◌++◌, Option, none, some, Bool, true, false,
  length, get_elem?, set, put, ltb, leb, ◌==◌, ◌&&◌, if◌then◌else◌,
}
use luaxx.Opcodes.{OpCode, no_reg}
use luaxx.Chunk.{Str, LocVar, Proto, same_string}
use luaxx.Code.State
use luaxx.Code.State.{FuncState, Jump, Failure, Cmd}
use luaxx.Code.Constants.{FloatOps, string_k}
use luaxx.Code.Jumps.{patch_to_here}
use luaxx.Code.Emit.{code_abc}

-- What a name means: `init_exp(var, k, info)` with VGLOBAL, VLOCAL or VUPVAL. It is an entry of
-- `fs->upvalues`, too.
pub data Var : Type 0 where
  global local upval : ℕ → Var

pub record Block : Type 0 where
  pub breaklist : Jump
  pub nactvar : ℕ
  pub upval : Bool
  pub isbreakable : Bool

-- `locvars` and `upvalues` are as long as `nlocvars` and `nups` say; `names` is `f->upvalues`.
pub record Level : Type 0 where
  pub gen : FuncState
  pub locvars : List LocVar
  pub actvar : List ℕ
  pub upvalues : List Var
  pub names : List Str
  pub blocks : List Block
  pub protos : List Proto
  pub linedefined : ℕ
  pub lastlinedefined : ℕ
  pub numparams : ℕ
  pub is_vararg : ℕ

pub data Refusal : Type 0 where
  too_many_locals too_many_variables too_many_upvalues no_block : Refusal
  generator : Failure → Refusal

pub data Out (S A : Type 0) : Type 0 where
  gives : A → S → Out S A
  refused : Refusal → Out S A

abbrev pub and_then : {S A T B : Type 0} → Out S A → (A → S → Out T B) → Out T B
and_then (gives a s) k = k a s
and_then (refused e) k = refused e

abbrev pub max_vars : ℕ
max_vars = 200

abbrev pub max_upvalues : ℕ
max_upvalues = 60

abbrev pub shrt_max : ℕ
shrt_max = 32767

-- The entry's range of instructions is not set yet in C; it is 0 here.
unfoldable pub register_local_var : Str → Level → Out Level ℕ
register_local_var name fs =
    if leb shrt_max (length fs.locvars)
    then refused too_many_locals
    else gives (length fs.locvars) (record fs {
      locvars = fs.locvars ++ (record { varname = some name; startpc = 0; endpc = 0 } ∷ []);
    })

unfoldable pub new_local_var : Str → ℕ → Level → Out Level (Unit {0})
new_local_var name n fs =
    if ltb max_vars (fs.gen.nactvar + n + 1)
    then refused too_many_variables
    else and_then (register_local_var name fs) (λ i fs'.
      gives tt (record fs' { actvar = put fs'.actvar (fs'.gen.nactvar + n) (i % 2 ^ 16) }))

-- a change of `getlocvar(fs, i)`
abbrev pub change_var : List LocVar → List ℕ → ℕ → (LocVar → LocVar) → List LocVar
change_var vars active i f = elim (get_elem? active i) [
  | none ↦ vars
  | some at ↦ elim (get_elem? vars at) [ none ↦ vars | some v ↦ set vars at (f v) ]
]

-- `n` variables from number `i` on begin at `pc`.
abbrev start_vars : List ℕ → ℕ → ℕ → ℕ → List LocVar → List LocVar
start_vars active pc i zero vars = vars
start_vars active pc i (suc n) vars =
    start_vars active pc (i + 1) n (change_var vars active i (λ v. record v { startpc = pc }))

unfoldable pub adjust_local_vars : ℕ → Level → Level
adjust_local_vars nvars fs =
    let nactvar = (fs.gen.nactvar + nvars) % 256 in
    record fs {
      gen = record fs.gen { nactvar = nactvar };
      locvars = start_vars fs.actvar fs.gen.pc (nactvar - nvars) nvars fs.locvars;
    }

-- `n` variables end at `pc`, of which the last is number `tolevel + n - 1`.
abbrev end_vars : List ℕ → ℕ → ℕ → ℕ → List LocVar → List LocVar
end_vars active pc tolevel zero vars = vars
end_vars active pc tolevel (suc n) vars =
    end_vars active pc tolevel n
      (change_var vars active (tolevel + n) (λ v. record v { endpc = pc }))

unfoldable pub remove_vars : ℕ → Level → Level
remove_vars tolevel fs =
    if ltb tolevel fs.gen.nactvar
    then record fs {
      gen = record fs.gen { nactvar = tolevel };
      locvars = end_vars fs.actvar fs.gen.pc tolevel (fs.gen.nactvar - tolevel) fs.locvars;
    }
    else fs

abbrev pub same_var : Var → Var → Bool
same_var (global a) (global b) = a == b
same_var (local a) (local b) = a == b
same_var (upval a) (upval b) = a == b
same_var _ _ = false

-- `cast_byte` of the info
abbrev pub byte_info : Var → Var
byte_info (global a) = global (a % 256)
byte_info (local a) = local (a % 256)
byte_info (upval a) = upval (a % 256)

unfoldable pub find_upvalue : Var → List Var → Option ℕ
find_upvalue v [] = none
find_upvalue v (u ∷ us) =
    let rest = find_upvalue v us in
    if same_var u v then some 0 else elim rest [ none ↦ none | some i ↦ some (i + 1) ]

unfoldable pub index_upvalue : Str → Var → Level → Out Level ℕ
index_upvalue name v fs = elim (find_upvalue v fs.upvalues) [
  | some i ↦ gives i fs
  | none ↦
      if ltb max_upvalues (length fs.upvalues + 1)
      then refused too_many_upvalues
      else gives (length fs.upvalues) (record fs {
        upvalues = fs.upvalues ++ (byte_info v ∷ []);
        names = fs.names ++ (name ∷ []);
      })
]

-- `getlocvar(fs, i).varname`
abbrev pub name_of : Level → ℕ → Option Str
name_of fs i = elim (get_elem? fs.actvar i) [
  | none ↦ none
  | some at ↦ elim (get_elem? fs.locvars at) [ none ↦ none | some v ↦ v.varname ]
]

-- The loop of searchvar over the variables below `n`.
unfoldable pub search_below : Level → Str → ℕ → Option ℕ
search_below fs name zero = none
search_below fs name (suc n) =
    let rest = search_below fs name n in
    if same_string (some name) (name_of fs n) then some n else rest

unfoldable pub search_var : Level → Str → Option ℕ
search_var fs name = search_below fs name fs.gen.nactvar

unfoldable pub mark_blocks : ℕ → List Block → List Block
mark_blocks level [] = []
mark_blocks level (bl ∷ bls) =
    let rest = mark_blocks level bls in
    if ltb level bl.nactvar then bl ∷ rest else record bl { upval = true } ∷ bls

abbrev pub mark_upval : ℕ → Level → Level
mark_upval level fs = record fs { blocks = mark_blocks level fs.blocks }

-- An upper level's variable as an upvalue of this one.
abbrev pub captured : Str → Level → Var → List Level → Out (List Level) Var
captured name fs (global i) prev = gives (global i) (fs ∷ prev)
captured name fs v prev = and_then (index_upvalue name v fs) (λ j fs'. gives (upval j) (fs' ∷ prev))

unfoldable pub single_var_aux : List Level → Str → Bool → Out (List Level) Var
single_var_aux [] name base = gives (global no_reg) []
single_var_aux (fs ∷ prev) name base =
    let upper = single_var_aux prev name false in
    elim (search_var fs name) [
      | some v ↦ gives (local v) ((if base then fs else mark_upval v fs) ∷ prev)
      | none ↦ and_then upper (captured name fs)
    ]

abbrev pub generated : {A : Type 0} → Level → State.Run A → Out Level A
generated fs (State.ok a gen) = gives a (record fs { gen = gen })
generated fs (State.fail e) = refused (generator e)

-- An operation of the generator at a level.
abbrev pub generate : {A : Type 0} → Cmd A → Level → Out Level A
generate m fs = generated fs (m fs.gen)

module _ ⦃fp : FloatOps⦄ where
  abbrev pub global_name : Str → Var → List Level → Out (List Level) Var
  global_name name (global i) (fs ∷ prev) =
      and_then (generate (string_k name) fs) (λ k fs'. gives (global k) (fs' ∷ prev))
  global_name name v levels = gives v levels

  -- singlevar, behind str_checkname
  unfoldable pub single_var : Str → List Level → Out (List Level) Var
  single_var name levels = and_then (single_var_aux levels name true) (global_name name)

unfoldable pub enter_block : Bool → Level → Level
enter_block isbreakable fs = record fs {
  blocks =
      record {
        breaklist = none;
        nactvar = fs.gen.nactvar;
        upval = false;
        isbreakable = isbreakable;
      }
      ∷ fs.blocks;
}

abbrev pub close_upvalues : Block → Level → Out Level (Unit {0})
close_upvalues bl fs =
    if bl.upval
    then and_then (generate (code_abc OpCode.op_close bl.nactvar 0 0) fs) (λ _ fs'. gives tt fs')
    else gives tt fs

abbrev pub leave_rest : Block → Unit {0} → Level → Out Level (Unit {0})
leave_rest bl _ fs =
    generate (patch_to_here bl.breaklist)
      (record fs { gen = record fs.gen { freereg = fs.gen.nactvar } })

abbrev pub leave : Block → Level → Out Level (Unit {0})
leave bl fs = and_then (close_upvalues bl (remove_vars bl.nactvar fs)) (leave_rest bl)

abbrev pub leave_first : Level → List Block → Out Level (Unit {0})
leave_first fs [] = refused no_block
leave_first fs (bl ∷ bls) = leave bl (record fs { blocks = bls })

unfoldable pub leave_block : Level → Out Level (Unit {0})
leave_block fs = leave_first fs fs.blocks
