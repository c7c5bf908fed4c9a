-- ===== src/Checker/Safe.antt =====
-- The checker as a whole, on a function and in luaG_checkcode.
use luaxx.Base.{
  ℕ, ◌-◌, ◌≤◌, ◌<◌, ◌≡◌, refl, true, some, length, get_elem?, arith, lt_of_get_elem?, inl, inr, ◌⊎◌,
}
use luaxx.Opcodes.{Instruction, no_reg}
use luaxx.Chunk.{Header, proto, Protos}
use luaxx.Checker.{
  Checked, fine, fails, wild, endless, read, precheck, check_loop, symbexec, check_code, not_zero,
}
use luaxx.Checker.Ensures.{Ensures, Ensures-bind, read-Ensures}
use luaxx.Checker.Parts.{EndsInReturn, precheck-Ensures}
use luaxx.Checker.Reached.{IsReached, start, IsCount}
use luaxx.Checker.Loop.{IsSound, AreSound, check_loop-Ensures}

module _ (f : Header) (ps : Protos) (lastpc reg : ℕ) where
  abbrev Result : Instruction → Type 0
  Result i =
      ((at : ℕ) × (get_elem? f.code at ≡ some i))
      × EndsInReturn f.code
      × (reg ≡ no_reg → AreSound f ps lastpc reg 0)

  symbexec-Ensures : lastpc ≤ length f.code → Ensures Result (symbexec f ps lastpc reg)
  unfolding symbexec
  symbexec-Ensures size =
      Ensures-bind (λ _. EndsInReturn f.code) Result (precheck f) _ (precheck-Ensures f)
        λ _ (r, e, k).
          let inside : length f.code - 1 < length f.code =
            lt_of_get_elem? f.code (length f.code - 1) e in
          Ensures-bind
            (λ last.
              (last < length f.code)
              × (reg ≡ no_reg → IsReached f.code 0 → AreSound f ps lastpc reg 0))
            Result (check_loop f ps lastpc reg lastpc (record { pc = 0; last = length f.code - 1 }))
            (read f.code)
            (check_loop-Ensures f ps lastpc reg lastpc (record { pc = 0; last = length f.code - 1 })
              (r, e, k) size (omega arith) inside)
            λ last (l, sound).
              read-Ensures Result f.code last l λ i at. ((last, at), (r, e, k), λ n. sound n start)

-- On any function, whatever its bytes, and for a `lastpc` that is not past its code, the symbolic
-- execution ends and reads inside the function's arrays: it fails, or gives one of the function's
-- instructions.
pub symbexec_safe :
    (f : Header) (ps : Protos) (lastpc reg : ℕ)
    → lastpc ≤ length f.code
    → (symbexec f ps lastpc reg ≡ fails)
      ⊎ ((i : Instruction) × (at : ℕ) × (symbexec f ps lastpc reg ≡ fine i)
          × (get_elem? f.code at ≡ some i))
symbexec_safe f ps lastpc reg size =
    split (symbexec f ps lastpc reg) (symbexec-Ensures f ps lastpc reg size)
  where
    split :
        (r : Checked Instruction)
        → Ensures (Result f ps lastpc reg) r
        → (r ≡ fails)
          ⊎ ((i : Instruction) × (at : ℕ) × (r ≡ fine i) × (get_elem? f.code at ≡ some i))
    split (fine i) ((at, e), _, _) = inr (i, at, refl, e)
    split fails h = inl refl
    split wild h = absurd h
    split endless h = absurd h

-- A function that luaG_checkcode accepts has code that is not empty and ends in a RETURN. Read from
-- its start, where a SETLIST with C = 0 has its count behind it, every word of it is an instruction
-- or such a count, and every instruction is sound: its opcode is one of the 38, its A is below
-- maxstacksize, its jump leads to an instruction of the code and not to a count, and where it is a
-- test a jump follows and another word behind that.
pub check_code-IsSound :
    (f : Header) (ps : Protos)
    → check_code (proto f ps) ≡ true
    → EndsInReturn f.code
      × ((q : ℕ)
          → q < length f.code
          → (IsReached f.code q × IsSound f ps (length f.code) no_reg q) ⊎ IsCount f.code q)
unfolding check_code
check_code-IsSound f ps h =
    split (symbexec f ps (length f.code) no_reg)
      (symbexec-Ensures f ps (length f.code) no_reg (omega arith)) h
  where
    split :
        (r : Checked Instruction)
        → Ensures (Result f ps (length f.code) no_reg) r
        → not_zero r ≡ true
        → EndsInReturn f.code
          × ((q : ℕ)
              → q < length f.code
              → (IsReached f.code q × IsSound f ps (length f.code) no_reg q) ⊎ IsCount f.code q)
    split (fine i) (_, ends, sound) h = (ends, λ q below. sound refl q (omega arith) below)
    split fails x h = absurd cc
    split wild x h = absurd cc
    split endless x h = absurd cc
