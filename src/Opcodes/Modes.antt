-- ===== src/Opcodes/Modes.antt =====
-- The properties of each opcode: `opmode`, `luaP_opmodes` and the macros that read it.
use luaxx.Base.{
  ℕ, ◌+◌, ◌*◌, ◌/◌, ◌%◌, ◌≡◌, ◌<◌, refl, Bool, true, false, List, [], ◌∷◌, get_or, ◌==◌, arith,
}
use luaxx.Opcodes.{OpCode, number}

pub data OpMode : Type 0 where
  i_abc i_abx i_asbx : OpMode

pub data OpArgMask : Type 0 where
  op_arg_n op_arg_u op_arg_r op_arg_k : OpArgMask

abbrev pub mode_number : OpMode → ℕ
mode_number i_abc = 0
mode_number i_abx = 1
mode_number i_asbx = 2

abbrev pub mask_number : OpArgMask → ℕ
mask_number op_arg_n = 0
mask_number op_arg_u = 1
mask_number op_arg_r = 2
mask_number op_arg_k = 3

-- The macro `opmode`: bits 0-1 the mode, 2-3 C, 4-5 B, 6 sets A, 7 is a test.
pub opmode : ℕ → ℕ → OpArgMask → OpArgMask → OpMode → ℕ
opmode t a b c m = t * 128 + a * 64 + mask_number b * 16 + mask_number c * 4 + mode_number m

opmodes : List ℕ
unfolding opmode
opmodes =
    opmode 0 1 op_arg_r op_arg_n i_abc
    ∷ opmode 0 1 op_arg_k op_arg_n i_abx
    ∷ opmode 0 1 op_arg_u op_arg_u i_abc
    ∷ opmode 0 1 op_arg_r op_arg_n i_abc
    ∷ opmode 0 1 op_arg_u op_arg_n i_abc
    ∷ opmode 0 1 op_arg_k op_arg_n i_abx
    ∷ opmode 0 1 op_arg_r op_arg_k i_abc
    ∷ opmode 0 0 op_arg_k op_arg_n i_abx
    ∷ opmode 0 0 op_arg_u op_arg_n i_abc
    ∷ opmode 0 0 op_arg_k op_arg_k i_abc
    ∷ opmode 0 1 op_arg_u op_arg_u i_abc
    ∷ opmode 0 1 op_arg_r op_arg_k i_abc
    ∷ opmode 0 1 op_arg_k op_arg_k i_abc
    ∷ opmode 0 1 op_arg_k op_arg_k i_abc
    ∷ opmode 0 1 op_arg_k op_arg_k i_abc
    ∷ opmode 0 1 op_arg_k op_arg_k i_abc
    ∷ opmode 0 1 op_arg_k op_arg_k i_abc
    ∷ opmode 0 1 op_arg_k op_arg_k i_abc
    ∷ opmode 0 1 op_arg_r op_arg_n i_abc
    ∷ opmode 0 1 op_arg_r op_arg_n i_abc
    ∷ opmode 0 1 op_arg_r op_arg_n i_abc
    ∷ opmode 0 1 op_arg_r op_arg_r i_abc
    ∷ opmode 0 0 op_arg_r op_arg_n i_asbx
    ∷ opmode 1 0 op_arg_k op_arg_k i_abc
    ∷ opmode 1 0 op_arg_k op_arg_k i_abc
    ∷ opmode 1 0 op_arg_k op_arg_k i_abc
    ∷ opmode 1 1 op_arg_r op_arg_u i_abc
    ∷ opmode 1 1 op_arg_r op_arg_u i_abc
    ∷ opmode 0 1 op_arg_u op_arg_u i_abc
    ∷ opmode 0 1 op_arg_u op_arg_u i_abc
    ∷ opmode 0 0 op_arg_u op_arg_n i_abc
    ∷ opmode 0 1 op_arg_r op_arg_n i_asbx
    ∷ opmode 0 1 op_arg_r op_arg_n i_asbx
    ∷ opmode 1 0 op_arg_n op_arg_u i_abc
    ∷ opmode 0 0 op_arg_u op_arg_u i_abc
    ∷ opmode 0 0 op_arg_n op_arg_n i_abc
    ∷ opmode 0 1 op_arg_u op_arg_n i_abx
    ∷ opmode 0 1 op_arg_u op_arg_n i_abc
    ∷ []

-- A read past the table is undefined in C; it gives 0 here.
opmode_of : ℕ → ℕ
unfolding opmodes
opmode_of m = get_or opmodes m 0

unfoldable pub get_op_mode : ℕ → ℕ
unfolding opmode_of
get_op_mode m = opmode_of m % 4

unfoldable pub get_b_mode : ℕ → ℕ
unfolding opmode_of
get_b_mode m = opmode_of m / 16 % 4

unfoldable pub get_c_mode : ℕ → ℕ
unfolding opmode_of
get_c_mode m = opmode_of m / 4 % 4

unfoldable pub test_a_mode : ℕ → Bool
unfolding opmode_of
test_a_mode m = opmode_of m / 64 % 2 == 1

unfoldable pub test_t_mode : ℕ → Bool
unfolding opmode_of
test_t_mode m = opmode_of m / 128 % 2 == 1

-- What lopcodes.h says of each opcode: it skips the next instruction on a condition.
abbrev pub skips : OpCode → Bool
skips OpCode.op_eq = true
skips OpCode.op_lt = true
skips OpCode.op_le = true
skips OpCode.op_test = true
skips OpCode.op_testset = true
skips OpCode.op_tforloop = true
skips _ = false

-- The opcodes whose argument is a jump offset or one wide operand.
abbrev pub wide : OpCode → OpMode
wide OpCode.op_loadk = i_abx
wide OpCode.op_getglobal = i_abx
wide OpCode.op_setglobal = i_abx
wide OpCode.op_closure = i_abx
wide OpCode.op_jmp = i_asbx
wide OpCode.op_forloop = i_asbx
wide OpCode.op_forprep = i_asbx
wide _ = i_abc

-- The table agrees with the description of every opcode: the test bit is set exactly for the
-- opcodes that skip, and the mode is the format that the opcode's arguments need.
pub opmodes_table :
    (o : OpCode)
    → (test_t_mode (number o) ≡ skips o) × (get_op_mode (number o) ≡ mode_number (wide o))
unfolding test_t_mode get_op_mode
opmodes_table OpCode.op_move = (refl, refl)
opmodes_table _ = (refl, refl)

-- The macros read back what `opmode` packed, for one-bit flags `t` and `a`.
pub opmode_unpack :
    (t a : ℕ) (b c : OpArgMask) (m : OpMode)
    → t < 2
    → a < 2
    → (opmode t a b c m % 4 ≡ mode_number m)
      × (opmode t a b c m / 4 % 4 ≡ mask_number c)
      × (opmode t a b c m / 16 % 4 ≡ mask_number b)
      × (opmode t a b c m / 64 % 2 ≡ a)
      × (opmode t a b c m / 128 % 2 ≡ t)
unfolding opmode
opmode_unpack t a b c m ht ha = ground arith
