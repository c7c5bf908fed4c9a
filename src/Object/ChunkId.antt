-- ===== src/Object/ChunkId.antt =====
-- `luaO_chunkid` and the size of its buffer.
use luaxx.Base.{
  ℕ, zero, suc, ◌+◌, ◌-◌, ◌≤◌, ◌≡◌, [], ◌∷◌, ◌++◌, length, take, drop, ltb, ◌==◌, if◌then◌else◌,
  arith, Bool-cases, inl, inr, length-append,
}
use luaxx.Object.{CString, closing, dots, first_line, file_name, quoted_line, chunk_id}

length-take_le : (n : ℕ) (s : CString) → length (take n s) ≤ n
length-take_le zero s = omega arith
length-take_le (suc n) [] = omega arith
length-take_le (suc n) (c ∷ s) = omega (arith, length-take_le n s)

length-drop_lem : (n : ℕ) (s : CString) → length (drop n s) ≡ length s - n
length-drop_lem zero s = omega arith
length-drop_lem (suc n) [] = omega arith
length-drop_lem (suc n) (c ∷ s) = omega (arith, length-drop_lem n s)

file_name_bound : (s : CString) (room : ℕ) → length (file_name s room) ≤ room + 3
unfolding file_name
file_name_bound s room = elim (Bool-cases (ltb room (length s))) [
  | inl e ↦ rw e (ground (arith, length-drop_lem (length s - room) s))
  | inr e ↦ rw e (ground arith)
]

shown_bound :
    (s : CString) (len : ℕ)
    → length (if ltb len (length s) then take len s ++ dots else s) ≤ len + 3
shown_bound s len = elim (Bool-cases (ltb len (length s))) [
  | inl e ↦ rw (e, length-append (take len s) dots) (omega (arith, length-take_le len s))
  | inr e ↦ rw e (ground arith)
]

quoted_line_bound : (s : CString) (room : ℕ) → length (quoted_line s room) ≤ room + 14
unfolding quoted_line
quoted_line_bound s room =
    let line = first_line s in
    let len = if ltb room line then room else line in
    let shown = if ltb len (length s) then take len s ++ dots else s in
    let small : len ≤ room = ground arith in
    rw (length-append shown closing) (omega (arith, shown_bound s len))

-- With a buffer of 17 bytes or more, the name of a chunk and the byte 0 behind it fit the buffer,
-- whatever the source.
pub chunk_id_fits :
    (source : CString) (bufflen : ℕ) → 17 ≤ bufflen → length (chunk_id source bufflen) + 1 ≤ bufflen
unfolding chunk_id
chunk_id_fits [] n h = omega (arith, quoted_line_bound [] (n - 17))
chunk_id_fits (c ∷ s) n h = elim (Bool-cases (c == 61)) [
  | inl e ↦ rw e (omega (arith, length-take_le (n - 1) s))
  | inr e ↦ elim (Bool-cases (c == 64)) [
    | inl e' ↦ rw (e, e') (omega (arith, file_name_bound s (n - 8)))
    | inr e' ↦ rw (e, e') (omega (arith, quoted_line_bound (c ∷ s) (n - 17)))
  ]
]
