-- ===== src/Chunk/Dump.antt =====
-- ldump.c: a prototype is written in blocks through the caller's lua_Writer.
-- `lua_State`, the writer and `strip` do not change during a dump and are parameters; the writer's
-- `data` is a state of its own.
use luaxx.Base.{
  ℕ, ◌+◌, ◌==◌, ◌||◌, if◌then◌else◌, Bool, true, false, List, [], ◌∷◌, ◌++◌, Option, none, some,
  length,
}
use luaxx.Chunk.{
  Str, Constant, nil, boolean, number, string, LocVar, Header, Proto, proto, Protos, done, next,
  count, same_string, header,
}
use luaxx.Chunk.Bytes.{le, word_bytes}

pub record DumpState (S : Type 0) : Type 0 where
  pub data_of : S
  pub status : ℕ

abbrev pub truth : Bool → ℕ
truth true = 1
truth false = 0

module _ {S : Type 0} (writer : S → List ℕ → ℕ × S) (strip : Bool) where
  unfoldable pub dump_block : List ℕ → DumpState S → DumpState S
  dump_block b d =
      if d.status == 0
      then (let (status, data_of) = writer d.data_of b in
          record { data_of = data_of; status = status })
      else d

  unfoldable pub dump_char : ℕ → DumpState S → DumpState S
  dump_char y d = dump_block (le 1 y) d

  unfoldable pub dump_int : ℕ → DumpState S → DumpState S
  dump_int x d = dump_block (le 4 x) d

  unfoldable pub dump_number : ℕ → DumpState S → DumpState S
  dump_number x d = dump_block (le 8 x) d

  -- DumpVector, for the arrays of 4-byte elements that the source gives it
  unfoldable pub dump_vector : List ℕ → DumpState S → DumpState S
  dump_vector b d = dump_block (word_bytes b) (dump_int (length b) d)

  unfoldable pub dump_string : Option Str → DumpState S → DumpState S
  dump_string none d = dump_block (le 8 0) d
  dump_string (some s) d = dump_block (s ++ (0 ∷ [])) (dump_block (le 8 (length s + 1)) d)

  unfoldable pub dump_constant : Constant → DumpState S → DumpState S
  dump_constant nil d = dump_char 0 d
  dump_constant (boolean b) d = dump_char (truth b) (dump_char 1 d)
  dump_constant (number n) d = dump_number n (dump_char 3 d)
  dump_constant (string s) d = dump_string s (dump_char 4 d)

  unfoldable pub dump_constant_list : List Constant → DumpState S → DumpState S
  dump_constant_list [] d = d
  dump_constant_list (o ∷ os) d = dump_constant_list os (dump_constant o d)

  unfoldable pub dump_locvar : LocVar → DumpState S → DumpState S
  dump_locvar v d = dump_int v.endpc (dump_int v.startpc (dump_string v.varname d))

  unfoldable pub dump_locvar_list : List LocVar → DumpState S → DumpState S
  dump_locvar_list [] d = d
  dump_locvar_list (v ∷ vs) d = dump_locvar_list vs (dump_locvar v d)

  unfoldable pub dump_string_list : List (Option Str) → DumpState S → DumpState S
  dump_string_list [] d = d
  dump_string_list (s ∷ ss) d = dump_string_list ss (dump_string s d)

  abbrev pub unless_stripped {ℓ} : {A : Type ℓ} → List A → List A
  unless_stripped xs = if strip then [] else xs

  unfoldable pub dump_debug : Header → DumpState S → DumpState S
  dump_debug f d =
      let d1 = dump_vector (unless_stripped f.lineinfo) d in
      let vs = unless_stripped f.locvars in
      let d2 = dump_locvar_list vs (dump_int (length vs) d1) in
      let us = unless_stripped f.upvalues in dump_string_list us (dump_int (length us) d2)

  -- the part of DumpFunction before the constants
  unfoldable pub dump_start : Header → Option Str → DumpState S → DumpState S
  dump_start f p d =
      let s = if same_string f.source p || strip then none else f.source in
      let d1 = dump_int f.lastlinedefined (dump_int f.linedefined (dump_string s d)) in
      let d2 = dump_char f.is_vararg (dump_char f.numparams (dump_char f.nups d1)) in
      dump_vector f.code (dump_char f.maxstacksize d2)

  -- the constants proper; the nested functions follow them in DumpConstants
  unfoldable pub dump_constants : List Constant → DumpState S → DumpState S
  dump_constants k d = dump_constant_list k (dump_int (length k) d)

  unfoldable mutual
    pub dump_function : Proto → Option Str → DumpState S → DumpState S
    dump_function (proto f ps) p d =
        let d1 = dump_constants f.k (dump_start f p d) in
        dump_debug f (dump_functions ps f.source (dump_int (count ps) d1))

    pub dump_functions : Protos → Option Str → DumpState S → DumpState S
    dump_functions done p d = d
    dump_functions (next f fs) p d = dump_functions fs p (dump_function f p d)

  unfoldable pub dump_header : DumpState S → DumpState S
  dump_header d = dump_block header d

  -- luaU_dump: the status, and the writer's data
  unfoldable pub dump : Proto → S → DumpState S
  dump f start = dump_function f none (dump_header (record { data_of = start; status = 0 }))
