-- ===== src/Opcodes.antt =====
-- lopcodes.h and lopcodes.c: the 32-bit instruction word, its fields, and the table of modes.
-- An instruction is a number below 2 ^ 32. A shift is a division or a product by a power of two,
-- `& MASK1(n, 0)` is the remainder by 2 ^ n, and `|` of fields that do not overlap is their sum.
pub mod Fields
pub mod Modes
use luaxx.Base.{
  ℕ, zero, suc, ◌+◌, ◌-◌, ◌*◌, ◌/◌, ◌%◌, ◌^◌, ◌≤◌, ◌<◌, ◌≡◌, Bool, true, false, List, [], ◌∷◌,
  get_or, leb, ◌==◌, if◌then◌else◌, ℤ, pos, negsuc, ◌+ℤ◌, sub_ℕ,
}

abbrev pub Instruction : Type 0
Instruction = ℕ

-- the opcodes, in their order
pub data OpCode : Type 0 where
  op_move op_loadk op_loadbool op_loadnil op_getupval : OpCode
  op_getglobal op_gettable : OpCode
  op_setglobal op_setupval op_settable : OpCode
  op_newtable op_self : OpCode
  op_add op_sub op_mul op_div op_mod op_pow op_unm op_not op_len : OpCode
  op_concat op_jmp : OpCode
  op_eq op_lt op_le op_test op_testset : OpCode
  op_call op_tailcall op_return : OpCode
  op_forloop op_forprep op_tforloop op_setlist : OpCode
  op_close op_closure op_vararg : OpCode

-- the value of the enumeration's member
abbrev pub number : OpCode → ℕ
number op_move = 0
number op_loadk = 1
number op_loadbool = 2
number op_loadnil = 3
number op_getupval = 4
number op_getglobal = 5
number op_gettable = 6
number op_setglobal = 7
number op_setupval = 8
number op_settable = 9
number op_newtable = 10
number op_self = 11
number op_add = 12
number op_sub = 13
number op_mul = 14
number op_div = 15
number op_mod = 16
number op_pow = 17
number op_unm = 18
number op_not = 19
number op_len = 20
number op_concat = 21
number op_jmp = 22
number op_eq = 23
number op_lt = 24
number op_le = 25
number op_test = 26
number op_testset = 27
number op_call = 28
number op_tailcall = 29
number op_return = 30
number op_forloop = 31
number op_forprep = 32
number op_tforloop = 33
number op_setlist = 34
number op_close = 35
number op_closure = 36
number op_vararg = 37

abbrev pub num_opcodes : ℕ
num_opcodes = number op_vararg + 1

-- sizes and positions of the fields
abbrev pub size_c : ℕ
size_c = 9

abbrev pub size_b : ℕ
size_b = 9

abbrev pub size_bx : ℕ
size_bx = size_c + size_b

abbrev pub size_a : ℕ
size_a = 8

abbrev pub size_op : ℕ
size_op = 6

abbrev pub pos_a : ℕ
pos_a = size_op

abbrev pub pos_c : ℕ
pos_c = pos_a + size_a

abbrev pub pos_b : ℕ
pos_b = pos_c + size_c

-- largest arguments; `max_arg_sbx` is also what a signed argument is in excess of
abbrev pub max_arg_bx : ℕ
max_arg_bx = 2 ^ size_bx - 1

abbrev pub max_arg_sbx : ℕ
max_arg_sbx = max_arg_bx / 2

abbrev pub max_arg_a : ℕ
max_arg_a = 2 ^ size_a - 1

abbrev pub max_arg_b : ℕ
max_arg_b = 2 ^ size_b - 1

abbrev pub max_arg_c : ℕ
max_arg_c = 2 ^ size_c - 1

-- `(i >> pos) & MASK1(size, 0)`
abbrev get_field : ℕ → ℕ → Instruction → ℕ
get_field at size i = i / 2 ^ at % 2 ^ size

-- `(i & MASK0(size, pos)) | ((u << pos) & MASK1(size, pos))`
abbrev set_field : ℕ → ℕ → Instruction → ℕ → Instruction
set_field at size i u = i - get_field at size i * 2 ^ at + u % 2 ^ size * 2 ^ at

unfoldable pub get_opcode : Instruction → ℕ
get_opcode i = get_field 0 size_op i

unfoldable pub set_opcode : Instruction → OpCode → Instruction
set_opcode i o = set_field 0 size_op i (number o)

unfoldable pub get_arg_a : Instruction → ℕ
get_arg_a i = get_field pos_a size_a i

unfoldable pub set_arg_a : Instruction → ℕ → Instruction
set_arg_a i u = set_field pos_a size_a i u

unfoldable pub get_arg_b : Instruction → ℕ
get_arg_b i = get_field pos_b size_b i

unfoldable pub set_arg_b : Instruction → ℕ → Instruction
set_arg_b i u = set_field pos_b size_b i u

unfoldable pub get_arg_c : Instruction → ℕ
get_arg_c i = get_field pos_c size_c i

unfoldable pub set_arg_c : Instruction → ℕ → Instruction
set_arg_c i u = set_field pos_c size_c i u

unfoldable pub get_arg_bx : Instruction → ℕ
get_arg_bx i = get_field pos_c size_bx i

unfoldable pub set_arg_bx : Instruction → ℕ → Instruction
set_arg_bx i u = set_field pos_c size_bx i u

unfoldable pub get_arg_sbx : Instruction → ℤ
unfolding get_arg_bx
get_arg_sbx i = sub_ℕ (get_arg_bx i) max_arg_sbx

-- `cast(unsigned int, z)`
abbrev pub to_unsigned : ℤ → ℕ
to_unsigned (pos n) = n % 2 ^ 32
to_unsigned (negsuc n) = 2 ^ 32 - 1 - n % 2 ^ 32

unfoldable pub set_arg_sbx : Instruction → ℤ → Instruction
unfolding set_arg_bx
set_arg_sbx i z = set_arg_bx i (to_unsigned (z +ℤ pos max_arg_sbx))

-- The arguments lie within their fields, so that `|` is `+`.
unfoldable pub create_abc : OpCode → ℕ → ℕ → ℕ → Instruction
create_abc o a b c = number o + a * 2 ^ pos_a + b * 2 ^ pos_b + c * 2 ^ pos_c

unfoldable pub create_abx : OpCode → ℕ → ℕ → Instruction
create_abx o a bc = number o + a * 2 ^ pos_a + bc * 2 ^ pos_c

-- RK operands: bit 8 marks a constant
abbrev pub bitrk : ℕ
bitrk = 2 ^ (size_b - 1)

unfoldable pub is_k : ℕ → Bool
is_k x = x / bitrk % 2 == 1

unfoldable pub index_k : ℕ → ℕ
unfolding is_k
index_k r = if is_k r then r - bitrk else r

abbrev pub max_index_rk : ℕ
max_index_rk = bitrk - 1

unfoldable pub rk_as_k : ℕ → ℕ
unfolding is_k
rk_as_k x = if is_k x then x else x + bitrk

abbrev pub no_reg : ℕ
no_reg = max_arg_a
