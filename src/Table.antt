-- ===== src/Table.antt =====
-- ltable.c: the size of a table's array part. `nums` has at `i` the number of integer keys from
-- 2 ^ (i - 1) + 1 to 2 ^ i, and `narray` is the number of all of them.
pub mod ArrayPart
pub mod Border
mod Tests
use luaxx.Base.{
  ℕ, zero, suc, ◌+◌, ◌*◌, ◌/◌, List, [], ◌∷◌, Bool, true, false, ltb, ◌==◌, if◌then◌else◌,
}

-- The locals of the loop.
pub record Sizes : Type 0 where
  pub a : ℕ
  pub na : ℕ
  pub n : ℕ

-- One round, for `nums[i]` and 2 ^ i.
unfoldable pub count_slice : ℕ → ℕ → Sizes → Sizes
count_slice num twotoi s =
    if ltb 0 num
    then (let a = s.a + num in
        if ltb (twotoi / 2) a then record { a = a; na = a; n = twotoi } else record s { a = a })
    else s

-- The loop from 2 ^ i on, over the slices that are left. The array `nums` has MAXBITS + 1 slices,
-- and as many keys as `narray`, so that it is not left before the loop ends.
unfoldable pub size_loop : List ℕ → ℕ → ℕ → Sizes → Sizes
size_loop [] twotoi narray s = s
size_loop (num ∷ nums) twotoi narray s =
    let next = count_slice num twotoi s in
    let rest = size_loop nums (twotoi * 2) narray next in
    if ltb (twotoi / 2) narray then (if next.a == narray then next else rest) else s

-- `na`, and the new value of `*narray`
unfoldable pub compute_sizes : List ℕ → ℕ → Sizes
compute_sizes nums narray = size_loop nums 1 narray (record { a = 0; na = 0; n = 0 })
