-- ===== src/Code/Emit/Registers.antt =====
-- The registers of a function: `luaK_checkstack`, `luaK_reserveregs`, `freereg`.
use luaxx.Base.{ℕ, ◌+◌, ◌≤◌, ◌<◌, ◌≡◌, refl, ltb, if◌then◌else◌, arith}
use luaxx.Opcodes.{is_k}
use luaxx.Code.State.{FuncState, ok, fail, function_too_complex}
use luaxx.Code.Emit.{max_stack, check_stack, reserve_regs, free_reg}

-- The free register lies within the frame that the function declares, and the frame is allowed.
pub record IsFrame (fs : FuncState) : Type 0 where
  pub active : fs.nactvar ≤ fs.freereg
  pub within : fs.freereg ≤ fs.maxstacksize
  pub allowed : fs.maxstacksize < max_stack

-- Reserving registers that the limit allows succeeds: the first free register moves on by their
-- number, the declared frame grows just as far as it must, and stays a frame.
pub reserve_regs-IsFrame :
    (n : ℕ) (fs : FuncState)
    → IsFrame fs
    → fs.freereg + n < max_stack
    → (fs' : FuncState) × (reserve_regs n fs ≡ ok tt fs')
      × IsFrame fs'
      × (fs'.freereg ≡ fs.freereg + n)
      × (fs'.maxstacksize
          ≡ (if ltb fs.maxstacksize (fs.freereg + n) then fs.freereg + n else fs.maxstacksize))
unfolding reserve_regs check_stack
reserve_regs-IsFrame n fs h small =
    let size = if ltb fs.maxstacksize (fs.freereg + n) then fs.freereg + n else fs.maxstacksize in
    (
      record fs { freereg = fs.freereg + n; maxstacksize = size },
      ground arith,
      ground arith,
      refl,
      refl,
    )

-- Reserving more registers than the limit allows is the error "function or expression too complex".
pub reserve_regs_too_complex :
    (n : ℕ) (fs : FuncState)
    → IsFrame fs
    → max_stack ≤ fs.freereg + n
    → reserve_regs n fs ≡ fail function_too_complex
unfolding reserve_regs check_stack
reserve_regs_too_complex n fs h big = ground arith

-- Freeing the register that was reserved last gives it back, and changes nothing else.
pub free_reg-reserve_regs :
    (fs fs' : FuncState)
    → IsFrame fs
    → reserve_regs 1 fs ≡ ok tt fs'
    → free_reg fs.freereg fs' ≡ ok tt (record fs' { freereg = fs.freereg })
unfolding reserve_regs check_stack free_reg is_k
free_reg-reserve_regs fs fs' h e = ground arith
