-- ===== src/Chunk/DumpLaws.antt =====
-- ldump.c with a writer that keeps what it is given.
use luaxx.Base.{
  ℕ, ◌+◌, ◌≡◌, refl, ◌∙◌, Bool, true, false, List, [], ◌∷◌, ◌++◌, Option, none, some, length,
  append_assoc,
}
use luaxx.Chunk.{
  Str, Constant, nil, boolean, number, string, LocVar, Header, Proto, proto, Protos, done, next,
  count, header,
}
use luaxx.Chunk.Bytes.{le, word_bytes}
use luaxx.Chunk.Dump.{
  DumpState, dump_block, dump_char, dump_int, dump_number, dump_vector, dump_string, dump_constant,
  dump_constant_list, dump_locvar, dump_locvar_list, dump_string_list, dump_debug, dump_start,
  dump_constants, dump_function, dump_functions, dump_header, dump,
}
use luaxx.Chunk.Encoding.{
  enc_int, enc_vector, enc_string, enc_constant, enc_each, enc_locvar, unless, enc_debug,
  written_source, enc_start, enc_constants, enc_function, enc_functions, enc_chunk,
}

-- A writer that keeps what it is given, and never fails.
abbrev pub keep : List ℕ → List ℕ → ℕ × List ℕ
keep data_of b = (0, data_of ++ b)

abbrev State : Type 0
State = DumpState (List ℕ)

-- `e` went to the writer between the states `d` and `d'`.
record Grown (d : State) (e : List ℕ → List ℕ) (d' : State) : Type 0 where
  clean : d'.status ≡ 0
  grown : (rest : List ℕ) → d'.data_of ++ rest ≡ d.data_of ++ e rest

abbrev Writes : (State → State) → (List ℕ → List ℕ) → Type 0
Writes f e = (d : State) → d.status ≡ 0 → Grown d e (f d)

infixl 5 ◌followed_by◌
◌followed_by◌ :
    {f g : State → State} {e e' : List ℕ → List ℕ}
    → Writes f e
    → Writes g e'
    → Writes (λ d. g (f d)) (λ rest. e (e' rest))
◌followed_by◌ {f} {e'} w w' d h =
    let a = w d h in
    let b = w' (f d) a.clean in
    record { clean = b.clean; grown = λ rest. b.grown rest ∙ a.grown (e' rest) }

module _ (strip : Bool) where
  block-Writes : (b : List ℕ) → Writes (dump_block keep strip b) (λ rest. b ++ rest)
  unfolding dump_block
  block-Writes b d h = rw h (record { clean = refl; grown = λ rest. append_assoc d.data_of b rest })

  string-Writes : (s : Option Str) → Writes (dump_string keep strip s) (enc_string s)
  unfolding dump_string
  string-Writes none = block-Writes (le 8 0)
  string-Writes (some s) =
      block-Writes (le 8 (length s + 1)) followed_by block-Writes (s ++ (0 ∷ []))

  int-Writes : (x : ℕ) → Writes (dump_int keep strip x) (enc_int x)
  unfolding dump_int
  int-Writes x = block-Writes (le 4 x)

  char-Writes : (x : ℕ) → Writes (dump_char keep strip x) (λ rest. le 1 x ++ rest)
  unfolding dump_char
  char-Writes x = block-Writes (le 1 x)

  vector-Writes : (xs : List ℕ) → Writes (dump_vector keep strip xs) (enc_vector xs)
  unfolding dump_vector
  vector-Writes xs = int-Writes (length xs) followed_by block-Writes (word_bytes xs)

  constant-Writes : (o : Constant) → Writes (dump_constant keep strip o) (enc_constant o)
  unfolding dump_constant dump_number
  constant-Writes nil = char-Writes 0
  constant-Writes (boolean true) = char-Writes 1 followed_by char-Writes 1
  constant-Writes (boolean false) = char-Writes 1 followed_by char-Writes 0
  constant-Writes (number n) = char-Writes 3 followed_by block-Writes (le 8 n)
  constant-Writes (string s) = char-Writes 4 followed_by string-Writes s

  constant_list-Writes :
      (k : List Constant) → Writes (dump_constant_list keep strip k) (enc_each enc_constant k)
  unfolding dump_constant_list
  constant_list-Writes [] = λ d h. record { clean = h; grown = λ rest. refl }
  constant_list-Writes (o ∷ os) = constant-Writes o followed_by constant_list-Writes os

  locvar-Writes : (v : LocVar) → Writes (dump_locvar keep strip v) (enc_locvar v)
  unfolding dump_locvar
  locvar-Writes v =
      string-Writes v.varname followed_by int-Writes v.startpc followed_by int-Writes v.endpc

  locvar_list-Writes :
      (vs : List LocVar) → Writes (dump_locvar_list keep strip vs) (enc_each enc_locvar vs)
  unfolding dump_locvar_list
  locvar_list-Writes [] = λ d h. record { clean = h; grown = λ rest. refl }
  locvar_list-Writes (v ∷ vs) = locvar-Writes v followed_by locvar_list-Writes vs

  string_list-Writes :
      (ss : List (Option Str)) → Writes (dump_string_list keep strip ss) (enc_each enc_string ss)
  unfolding dump_string_list
  string_list-Writes [] = λ d h. record { clean = h; grown = λ rest. refl }
  string_list-Writes (s ∷ ss) = string-Writes s followed_by string_list-Writes ss

  debug-Writes : (f : Header) → Writes (dump_debug keep strip f) (enc_debug strip f)
  unfolding dump_debug enc_debug
  debug-Writes f =
      vector-Writes (unless strip f.lineinfo)
      followed_by int-Writes (length (unless strip f.locvars))
      followed_by locvar_list-Writes (unless strip f.locvars)
      followed_by int-Writes (length (unless strip f.upvalues))
      followed_by string_list-Writes (unless strip f.upvalues)

  start-Writes :
      (f : Header) (p : Option Str) → Writes (dump_start keep strip f p) (enc_start strip f p)
  unfolding dump_start enc_start
  start-Writes f p =
      string-Writes (written_source strip f p)
      followed_by int-Writes f.linedefined
      followed_by int-Writes f.lastlinedefined
      followed_by char-Writes f.nups
      followed_by char-Writes f.numparams
      followed_by char-Writes f.is_vararg
      followed_by char-Writes f.maxstacksize
      followed_by vector-Writes f.code

  constants-Writes : (k : List Constant) → Writes (dump_constants keep strip k) (enc_constants k)
  unfolding dump_constants
  constants-Writes k = int-Writes (length k) followed_by constant_list-Writes k

mutual
  unfolding dump_function dump_functions enc_function enc_functions

  function-Writes :
      (strip : Bool) (f : Proto) (p : Option Str)
      → Writes (dump_function keep strip f p) (enc_function strip f p)
  function-Writes strip (proto f ps) p =
      start-Writes strip f p
      followed_by constants-Writes strip f.k
      followed_by int-Writes strip (count ps)
      followed_by functions-Writes strip ps f.source
      followed_by debug-Writes strip f

  functions-Writes :
      (strip : Bool) (fs : Protos) (p : Option Str)
      → Writes (dump_functions keep strip fs p) (enc_functions strip fs p)
  functions-Writes strip done p = λ d h. record { clean = h; grown = λ rest. refl }
  functions-Writes strip (next f fs) p =
      function-Writes strip f p followed_by functions-Writes strip fs p

-- With a writer that keeps its blocks, `luaU_dump` succeeds, and what it wrote is the chunk's
-- encoding behind what the writer held before, whatever bytes are put behind both.
pub dump-encoding :
    (strip : Bool) (f : Proto) (start rest : List ℕ)
    → ((dump keep strip f start).status ≡ 0)
      × ((dump keep strip f start).data_of ++ rest ≡ start ++ enc_chunk strip f rest)
unfolding dump dump_header enc_chunk
dump-encoding strip f start rest =
    let w =
      (block-Writes strip header followed_by function-Writes strip f none)
        (record { data_of = start; status = 0 }) refl in
    (w.clean, w.grown rest)
