-- ===== src/Code/Tests.antt =====
-- The code generator at concrete states.
use luaxx.Base.{
  ℕ, ◌+◌, ◌-◌, ◌<◌, ◌==◌, ◌≡◌, refl, true, false, none, some, List, [], ◌∷◌, length, get_elem?,
  get_or, set, All, if◌then◌else◌, arith, inl, ◌*◌, ◌/◌, ◌%◌, ◌^◌,
}
use luaxx.Base.Distinct.{Distinct}
use luaxx.Opcodes.{
  Instruction, number, op_add, op_jmp, op_testset, op_loadnil, op_setlist, create_abc, create_abx,
  get_opcode, get_arg_a, get_arg_b, get_arg_sbx, no_reg,
}
use luaxx.Chunk.{Constant}
use luaxx.Code.State.{ExpDesc, v_knum, v_local, v_global, FuncState, ok, Key, value}
use luaxx.Code.Jumps.{patch_list_aux, concat}
use luaxx.Code.Jumps.Chain.{Node, Chain, end, link, carries}
use luaxx.Code.Jumps.Patch.{Goes, patch_list_aux-Goes, patch_list_aux_spared}
use luaxx.Code.Jumps.Concat.{concat-Chain}
use luaxx.Code.Emit
use luaxx.Code.Emit.{max_stack, code, reserve_regs, free_reg, set_list, to_store}
use luaxx.Code.Emit.Append.{code-Goes}
use luaxx.Code.Emit.SetList.{batch_at, set_list-batch}
use luaxx.Code.Emit.Registers.{IsFrame, reserve_regs-IsFrame}
use luaxx.Code.Constants.{FloatOps, same_key, add_k, number_k}
use luaxx.Code.Constants.Pool.{constant_of, IsPool, add_k-IsPool, number_k_shared}
use luaxx.Code.Expr.{exp_to_reg}
use luaxx.Code.Expr.Settled.{IsSettled, plain, global, global_value, exp_to_reg-IsSettled}
use luaxx.Code.Oper.{is_numeral, const_folding}
use luaxx.Code.Oper.Fold.{add_is, const_folding_sound}
use luaxx.Code.Oper.Compare.{in_reg}

-- Numbers stand for themselves, except that 100 and 101 compare equal, as 0 and -0 do.
instance abbrev whole_numbers : FloatOps
whole_numbers = record {
  add = λ a b. a + b;
  sub = λ a b. a - b;
  mul = λ a b. a * b;
  div = λ a b. a / b;
  mod_of = λ a b. a % b;
  pow = λ a b. a ^ b;
  unm = λ a. a;
  eq = λ a b. (if a == 101 then 100 else a) == (if b == 101 then 100 else b);
}

-- A function with this code, no constants and two local variables.
abbrev with_code : List Instruction → FuncState
with_code code = record {
  code = code;
  lineinfo = [];
  k = [];
  maxstacksize = 2;
  h = [];
  lastline = 1;
  pc = length code;
  lasttarget = none;
  jpc = none;
  freereg = 2;
  nk = 0;
  nactvar = 2;
}

-- two lists of one jump each, and a list of both
abbrev last_jump : Instruction
last_jump = create_abx op_jmp 0 131070

-- the jump at 1 leads back to 0
abbrev back_jump : Instruction
back_jump = create_abx op_jmp 0 131069

-- a jump at 0 that ends a list
last_jump-Node :
    (code : List Instruction) (p : ℕ) → get_elem? code p ≡ some last_jump → Node code p none
unfolding get_opcode get_arg_sbx create_abx luaxx.Opcodes.get_arg_bx
last_jump-Node code p e = record {
  i = last_jump;
  at = e;
  word = omega arith;
  jumps = λ w. absurd (omega (arith, w));
  leads = refl;
}

-- A test with its jump, and a jump that leads to that one in the list.
abbrev listed : FuncState
listed = with_code (create_abc op_testset 255 1 0 ∷ last_jump ∷ back_jump ∷ [])

listed-Chain : Chain listed.code (some 2) (2 ∷ 1 ∷ [])
unfolding get_opcode get_arg_sbx create_abx luaxx.Opcodes.get_arg_bx
listed-Chain =
    link
      (record {
        i = back_jump;
        at = refl;
        word = omega arith;
        jumps = λ w. absurd (omega (arith, w));
        leads = (refl, λ w. absurd (omega (arith, w)));
      })
      (link (last_jump-Node listed.code 1 refl) end)

listed-Distinct : Distinct (2 ∷ 1 ∷ [])
listed-Distinct = (((λ w. absurd (omega (arith, w))), tt), (tt, tt))

patch_list_aux-Goes_example :
    (code' : List Instruction) × (patch_list_aux (some 2) (some 7) no_reg (some 9) listed
      ≡ ok tt (record listed { code = code' }))
    × (length code' ≡ length listed.code)
    × All (λ p. Goes code' p (if carries listed.code p then some 7 else some 9)) (2 ∷ 1 ∷ [])
patch_list_aux-Goes_example =
    patch_list_aux-Goes (some 7) no_reg (some 9) listed listed-Chain listed-Distinct
      ((omega arith, omega arith), ((omega arith, omega arith), tt))

patch_list_aux_spared_example :
    (fs' : FuncState) × (patch_list_aux (some 1) (some 7) no_reg (some 9) listed ≡ ok tt fs')
    × (get_elem? fs'.code 2 ≡ some back_jump)
patch_list_aux_spared_example =
    patch_list_aux_spared (some 7) no_reg (some 9) listed 2
      (link (last_jump-Node listed.code 1 refl) end) (tt, tt) ((omega arith, omega arith), tt)
      ((λ w. absurd (omega (arith, w))), tt) (inl ((λ w. absurd (omega (arith, w))), tt))

-- two lists of one jump each
abbrev two_lists : FuncState
two_lists = with_code (last_jump ∷ last_jump ∷ [])

concat-Chain_example :
    (i : Instruction) × (concat (some 0) (some 1) two_lists
      ≡ ok (some 0) (record two_lists { code = set two_lists.code 0 i }))
    × Chain (set two_lists.code 0 i) (some 0) (0 ∷ 1 ∷ [])
concat-Chain_example =
    concat-Chain two_lists 0 1 [] [] (link (last_jump-Node two_lists.code 0 refl) end)
      (link (last_jump-Node two_lists.code 1 refl) end)
      (((λ w. absurd (omega (arith, w))), tt), (tt, tt)) (omega arith)

code-Goes_example :
    (fs' : FuncState) × (code 5 1 (record listed { jpc = some 2 }) ≡ ok 3 fs')
    × (get_elem? fs'.code 3 ≡ some 5)
    × (fs'.pc ≡ 4)
    × (fs'.jpc ≡ none)
    × All (λ p. Goes fs'.code p (some 3)) (2 ∷ 1 ∷ [])
code-Goes_example =
    code-Goes 5 1 (record listed { jpc = some 2 }) (2 ∷ 1 ∷ []) listed-Chain listed-Distinct
      ((omega arith, omega arith), ((omega arith, omega arith), tt)) refl (omega arith)

abbrev empty : FuncState
empty = with_code []

-- LOADNIL of the registers 0 to 1
abbrev nil_word : Instruction
nil_word = create_abc op_loadnil 0 1 0

-- item 25 601 belongs to batch 513, which does not fit the field C
set_list-batch_example :
    (fs' : FuncState) × (set_list 3 25601 none empty ≡ ok tt fs')
    × (get_opcode (get_or fs'.code 0 0) ≡ number op_setlist)
    × (get_arg_a (get_or fs'.code 0 0) ≡ 3)
    × (get_arg_b (get_or fs'.code 0 0) ≡ 0)
    × (batch_at fs'.code 0 ≡ 513)
    × (fs'.freereg ≡ 4)
set_list-batch_example =
    set_list-batch 3 25601 none empty refl refl (omega arith) (omega arith) (omega arith)

empty-IsFrame : IsFrame empty
empty-IsFrame = record { active = omega arith; within = omega arith; allowed = omega arith }

reserve_regs-IsFrame_example :
    (fs' : FuncState) × (reserve_regs 5 empty ≡ ok tt fs')
    × IsFrame fs'
    × (fs'.freereg ≡ 7)
    × (fs'.maxstacksize ≡ 7)
reserve_regs-IsFrame_example = reserve_regs-IsFrame 5 empty empty-IsFrame (omega arith)

abbrev one_more : FuncState
one_more = record empty { freereg = 3; maxstacksize = 3 }

reserves_one : reserve_regs 1 empty ≡ ok tt one_more
unfolding reserve_regs Emit.check_stack
reserves_one = refl

-- after the constant 100 is entered
abbrev with_100 : FuncState
with_100 = record empty {
  k = Constant.number 100 ∷ [];
  h = (value (Constant.number 100), 0) ∷ [];
  nk = 1;
}

empty-IsPool : IsPool empty
empty-IsPool = record { counted = refl; entered = tt }

with_100-IsPool : IsPool with_100
with_100-IsPool = record { counted = refl; entered = (refl, tt) }

enters_100 : number_k 100 empty ≡ ok 0 with_100
unfolding number_k add_k luaxx.Code.Constants.find
enters_100 = refl

abbrev two_constants : FuncState
two_constants = record empty {
  k = Constant.number 100 ∷ Constant.boolean true ∷ [];
  h = (value (Constant.boolean true), 1) ∷ (value (Constant.number 100), 0) ∷ [];
  nk = 2;
}

enters_true :
    add_k (value (Constant.boolean true)) (Constant.boolean true) with_100 ≡ ok 1 two_constants
unfolding add_k luaxx.Code.Constants.find same_key
enters_true = refl

add_k-IsPool_example :
    IsPool two_constants
    × (1 < 2)
    × (key' : Key) × (same_key key' (value (Constant.boolean true)) ≡ true)
    × (get_elem? two_constants.k 1 ≡ some (constant_of key'))
add_k-IsPool_example =
    add_k-IsPool (value (Constant.boolean true)) with_100 two_constants 1 with_100-IsPool
      enters_true

number_k_shared_example :
    (number_k 101 with_100 ≡ ok 0 with_100) × (get_elem? with_100.k 0 ≡ some (Constant.number 100))
unfolding luaxx.Code.Constants.find
number_k_shared_example =
    number_k_shared 100 101 empty with_100 0 empty-IsPool refl refl refl enters_100

abbrev numeral : ℕ → ExpDesc
numeral n = record { k = v_knum; info = 0; aux = 0; nval = n; t = none; f = none }

folds : const_folding op_add (numeral 2) (numeral 3) ≡ some 5
unfolding const_folding is_numeral
folds = refl

const_folding_sound_example :
    (is_numeral (numeral 2) ≡ true)
    × (is_numeral (numeral 3) ≡ true)
    × (false ≡ false)
    × (5 ≡ 2 + 3)
const_folding_sound_example = const_folding_sound op_add (numeral 2) (numeral 3) 5 add_is folds

-- the local variable in register 1, and the global whose name is the constant 3
abbrev stays : ExpDesc
stays = plain v_local 1 0 0

moves : exp_to_reg stays 1 empty ≡ ok (in_reg 1) empty
unfolding exp_to_reg luaxx.Code.Expr.discharge_to_reg luaxx.Code.Expr.discharge_vars
    luaxx.Code.Expr.settle
moves = refl

exp_to_reg-IsSettled_example :
    IsSettled
      (global 3)
      2
      (with_code (5 ∷ []))
      (exp_to_reg (plain v_global 3 0 0) 2 (with_code (5 ∷ [])))
exp_to_reg-IsSettled_example =
    exp_to_reg-IsSettled 2 (with_code (5 ∷ [])) (omega arith) refl refl (omega arith) 0 0 v_global 3
      (global 3) global_value (omega arith)
