-- ===== src/Chunk.antt =====
-- Precompiled chunks: function prototypes (lobject.h), ldump.c, lundump.c and lundump.h.
-- The byte layout is that of the little-endian 64-bit builds: `int` and `Instruction` take 4
-- bytes, `size_t` and `lua_Number` 8. A number is the bit pattern of its double.
pub mod Bytes
pub mod Dump
pub mod Load
pub mod Encoding
pub mod DumpLaws
pub mod DumpFailure
pub mod LoadLaws
pub mod RoundTrip
pub mod BadInput
pub mod Accepted
mod Tests
use luaxx.Base.{ℕ, zero, suc, ◌%◌, ◌==◌, ◌&&◌, Bool, true, false, List, [], ◌∷◌, Option, none, some}

-- A TString: its bytes; `none` is NULL. Strings are interned, so pointers are equal when the
-- bytes are.
abbrev pub Str : Type 0
Str = List ℕ

-- the values that a constant can have
pub data Constant : Type 0 where
  nil : Constant
  boolean : Bool → Constant
  number : ℕ → Constant
  string : Option Str → Constant

pub record LocVar : Type 0 where
  pub varname : Option Str
  pub startpc : ℕ
  pub endpc : ℕ

-- The fields of a Proto but `p`; each size field is the length of its list.
pub record Header : Type 0 where
  pub source : Option Str
  pub linedefined : ℕ
  pub lastlinedefined : ℕ
  pub nups : ℕ
  pub numparams : ℕ
  pub is_vararg : ℕ
  pub maxstacksize : ℕ
  pub code : List ℕ
  pub k : List Constant
  pub lineinfo : List ℕ
  pub locvars : List LocVar
  pub upvalues : List (Option Str)

mutual
  pub data Proto : Type 0 where
    proto : Header → Protos → Proto

  pub data Protos : Type 0 where
    done : Protos
    next : Proto → Protos → Protos

abbrev pub count : Protos → ℕ
count done = 0
count (next f fs) = suc (count fs)

-- `f->source==p` on pointers to interned strings
abbrev pub same_bytes : Str → Str → Bool
same_bytes [] [] = true
same_bytes (x ∷ xs) (y ∷ ys) = (x == y) && same_bytes xs ys
same_bytes _ _ = false

abbrev pub same_string : Option Str → Option Str → Bool
same_string none none = true
same_string (some s) (some t) = same_bytes s t
same_string _ _ = false

-- luaU_header: signature, version, format, endianness, the four sizes, "not integral"
abbrev pub header : List ℕ
header = 27 ∷ 76 ∷ 117 ∷ 97 ∷ 0x51 ∷ 0 ∷ 1 ∷ 4 ∷ 8 ∷ 4 ∷ 8 ∷ 0 ∷ []
