-- ===== src/Chunk/Encoding.antt =====
-- The bytes of a precompiled chunk, as one list in front of what follows them: the format that
-- ldump.c writes and lundump.c reads, stated apart from both.
use luaxx.Base.{
  ℕ, ◌+◌, ◌||◌, if◌then◌else◌, Bool, true, false, List, [], ◌∷◌, ◌++◌, Option, none, some, length,
}
use luaxx.Chunk.{
  Str, Constant, nil, boolean, number, string, LocVar, Header, Proto, proto, Protos, done, next,
  count, same_string, header,
}
use luaxx.Chunk.Bytes.{le, word_bytes}

abbrev pub enc_int : ℕ → List ℕ → List ℕ
enc_int x rest = le 4 x ++ rest

abbrev pub enc_vector : List ℕ → List ℕ → List ℕ
enc_vector xs rest = enc_int (length xs) (word_bytes xs ++ rest)

abbrev pub enc_string : Option Str → List ℕ → List ℕ
enc_string none rest = le 8 0 ++ rest
enc_string (some s) rest = le 8 (length s + 1) ++ ((s ++ (0 ∷ [])) ++ rest)

abbrev pub enc_constant : Constant → List ℕ → List ℕ
enc_constant nil rest = le 1 0 ++ rest
enc_constant (boolean true) rest = le 1 1 ++ (le 1 1 ++ rest)
enc_constant (boolean false) rest = le 1 1 ++ (le 1 0 ++ rest)
enc_constant (number n) rest = le 1 3 ++ (le 8 n ++ rest)
enc_constant (string s) rest = le 1 4 ++ enc_string s rest

abbrev pub enc_each {ℓ} : {A : Type ℓ} → (A → List ℕ → List ℕ) → List A → List ℕ → List ℕ
enc_each one [] rest = rest
enc_each one (x ∷ xs) rest = one x (enc_each one xs rest)

abbrev pub enc_counted {ℓ} : {A : Type ℓ} → (A → List ℕ → List ℕ) → List A → List ℕ → List ℕ
enc_counted one xs rest = enc_int (length xs) (enc_each one xs rest)

abbrev pub enc_locvar : LocVar → List ℕ → List ℕ
enc_locvar v rest = enc_string v.varname (enc_int v.startpc (enc_int v.endpc rest))

abbrev pub unless {ℓ} : {A : Type ℓ} → Bool → List A → List A
unless strip xs = if strip then [] else xs

unfoldable pub enc_debug : Bool → Header → List ℕ → List ℕ
enc_debug strip f rest = enc_vector (unless strip f.lineinfo) (
    enc_counted enc_locvar (unless strip f.locvars)
      (enc_counted enc_string (unless strip f.upvalues) rest))

-- What is written for a source, in a function whose parent's source is `p`.
abbrev pub written_source : Bool → Header → Option Str → Option Str
written_source strip f p = if same_string f.source p || strip then none else f.source

unfoldable pub enc_start : Bool → Header → Option Str → List ℕ → List ℕ
enc_start strip f p rest = enc_string (written_source strip f p) (
    enc_int f.linedefined (
      enc_int f.lastlinedefined (
        le 1 f.nups
        ++ (le 1 f.numparams
            ++ (le 1 f.is_vararg ++ (le 1 f.maxstacksize ++ enc_vector f.code rest))))))

abbrev pub enc_constants : List Constant → List ℕ → List ℕ
enc_constants k rest = enc_counted enc_constant k rest

unfoldable mutual
  pub enc_function : Bool → Proto → Option Str → List ℕ → List ℕ
  enc_function strip (proto f ps) p rest = enc_start strip f p (
      enc_constants f.k
        (enc_int (count ps) (enc_functions strip ps f.source (enc_debug strip f rest))))

  pub enc_functions : Bool → Protos → Option Str → List ℕ → List ℕ
  enc_functions strip done p rest = rest
  enc_functions strip (next f fs) p rest = enc_function strip f p (enc_functions strip fs p rest)

unfoldable pub enc_chunk : Bool → Proto → List ℕ → List ℕ
enc_chunk strip f rest = header ++ enc_function strip f none rest
