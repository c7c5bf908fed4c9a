-- ===== src/Code/Emit/Nils.antt =====
-- `luaK_nil`: extending the LOADNIL before it.
use luaxx.Base.{ℕ, Bool, ◌&&◌, leb}
use luaxx.Opcodes.{Instruction, get_arg_a, get_arg_b}

-- A LOADNIL sets the register to nil: R(A) := ... := R(B) := nil.
abbrev pub clears : Instruction → ℕ → Bool
clears i r = leb (get_arg_a i) r && leb r (get_arg_b i)
