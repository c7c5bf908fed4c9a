-- ===== src/Chunk/DumpFailure.antt =====
-- ldump.c with a writer that fails.
use luaxx.Base.{
  ℕ, ◌+◌, ◌≡◌, ◌≢◌, refl, Bool, List, [], ◌∷◌, ◌++◌, Option, none, some, length, ne→==,
}
use luaxx.Chunk.{
  Str, Constant, nil, boolean, number, string, LocVar, Header, Proto, proto, Protos, done, next,
  count,
}
use luaxx.Chunk.Bytes.{le, word_bytes}
use luaxx.Chunk.Dump.{
  DumpState, dump_block, dump_char, dump_int, dump_number, dump_vector, dump_string, dump_constant,
  dump_constant_list, dump_locvar, dump_locvar_list, dump_string_list, dump_debug, dump_start,
  dump_constants, dump_function, dump_functions, truth,
}

module _ {S : Type 0} (writer : S → List ℕ → ℕ × S) (strip : Bool) (P : DumpState S → Type 0)
    (keeps : (b : List ℕ) (d : DumpState S) → P d → P (dump_block writer strip b d)) where
  int_keeps : (x : ℕ) (d : DumpState S) → P d → P (dump_int writer strip x d)
  unfolding dump_int
  int_keeps x d h = keeps (le 4 x) d h

  char_keeps : (x : ℕ) (d : DumpState S) → P d → P (dump_char writer strip x d)
  unfolding dump_char
  char_keeps x d h = keeps (le 1 x) d h

  vector_keeps : (xs : List ℕ) (d : DumpState S) → P d → P (dump_vector writer strip xs d)
  unfolding dump_vector
  vector_keeps xs d h = keeps (word_bytes xs) _ (int_keeps (length xs) d h)

  string_keeps : (s : Option Str) (d : DumpState S) → P d → P (dump_string writer strip s d)
  unfolding dump_string
  string_keeps none d h = keeps (le 8 0) d h
  string_keeps (some s) d h = keeps (s ++ (0 ∷ [])) _ (keeps (le 8 (length s + 1)) d h)

  constant_keeps : (o : Constant) (d : DumpState S) → P d → P (dump_constant writer strip o d)
  unfolding dump_constant dump_number
  constant_keeps nil d h = char_keeps 0 d h
  constant_keeps (boolean b) d h = char_keeps (truth b) _ (char_keeps 1 d h)
  constant_keeps (number n) d h = keeps (le 8 n) _ (char_keeps 3 d h)
  constant_keeps (string s) d h = string_keeps s _ (char_keeps 4 d h)

  constant_list_keeps :
      (k : List Constant) (d : DumpState S) → P d → P (dump_constant_list writer strip k d)
  unfolding dump_constant_list
  constant_list_keeps [] d h = h
  constant_list_keeps (o ∷ os) d h = constant_list_keeps os _ (constant_keeps o d h)

  locvar_list_keeps :
      (vs : List LocVar) (d : DumpState S) → P d → P (dump_locvar_list writer strip vs d)
  unfolding dump_locvar_list dump_locvar
  locvar_list_keeps [] d h = h
  locvar_list_keeps (v ∷ vs) d h =
      locvar_list_keeps vs _
        (int_keeps v.endpc _ (int_keeps v.startpc _ (string_keeps v.varname d h)))

  string_list_keeps :
      (ss : List (Option Str)) (d : DumpState S) → P d → P (dump_string_list writer strip ss d)
  unfolding dump_string_list
  string_list_keeps [] d h = h
  string_list_keeps (s ∷ ss) d h = string_list_keeps ss _ (string_keeps s d h)

  debug_keeps : (f : Header) (d : DumpState S) → P d → P (dump_debug writer strip f d)
  unfolding dump_debug
  debug_keeps f d h =
      string_list_keeps _ _
        (int_keeps _ _ (locvar_list_keeps _ _ (int_keeps _ _ (vector_keeps _ d h))))

  start_keeps :
      (f : Header) (p : Option Str) (d : DumpState S) → P d → P (dump_start writer strip f p d)
  unfolding dump_start
  start_keeps f p d h =
      let h1 = int_keeps f.lastlinedefined _ (int_keeps f.linedefined _ (string_keeps _ d h)) in
      let h2 = char_keeps f.is_vararg _ (char_keeps f.numparams _ (char_keeps f.nups _ h1)) in
      vector_keeps f.code _ (char_keeps f.maxstacksize _ h2)

  constants_keeps :
      (k : List Constant) (d : DumpState S) → P d → P (dump_constants writer strip k d)
  unfolding dump_constants
  constants_keeps k d h = constant_list_keeps k _ (int_keeps (length k) d h)

mutual
  unfolding dump_function dump_functions

  function_keeps :
      {S : Type 0} (writer : S → List ℕ → ℕ × S) (strip : Bool) (P : DumpState S → Type 0)
      (keeps : (b : List ℕ) (d : DumpState S) → P d → P (dump_block writer strip b d)) (f : Proto)
      (p : Option Str) (d : DumpState S)
      → P d
      → P (dump_function writer strip f p d)
  function_keeps writer strip P keeps (proto f ps) p d h =
      let h1 =
        constants_keeps writer strip P keeps f.k _ (start_keeps writer strip P keeps f p d h) in
      debug_keeps writer strip P keeps f _ (
        functions_keeps writer strip P keeps ps f.source _
          (int_keeps writer strip P keeps (count ps) _ h1))

  functions_keeps :
      {S : Type 0} (writer : S → List ℕ → ℕ × S) (strip : Bool) (P : DumpState S → Type 0)
      (keeps : (b : List ℕ) (d : DumpState S) → P d → P (dump_block writer strip b d)) (fs : Protos)
      (p : Option Str) (d : DumpState S)
      → P d
      → P (dump_functions writer strip fs p d)
  functions_keeps writer strip P keeps done p d h = h
  functions_keeps writer strip P keeps (next f fs) p d h =
      functions_keeps writer strip P keeps fs p _ (function_keeps writer strip P keeps f p d h)

block_failed :
    {S : Type 0} (writer : S → List ℕ → ℕ × S) (strip : Bool) (b : List ℕ) (d : DumpState S)
    → d.status ≢ 0
    → dump_block writer strip b d ≡ d
unfolding dump_block
block_failed writer strip b d h = rw (ne→== d.status 0 h)

-- Once the writer has returned a status that is not 0, it is not called again: whatever function
-- is dumped from such a state, the writer's data and the status stay as they are.
pub dump_function_failed :
    {S : Type 0} (writer : S → List ℕ → ℕ × S) (strip : Bool) (f : Proto) (p : Option Str)
    (d : DumpState S)
    → d.status ≢ 0
    → dump_function writer strip f p d ≡ d
dump_function_failed writer strip f p d h =
    function_keeps writer strip (λ e. e ≡ d) (λ b e q. rw q (block_failed writer strip b d h)) f p d
      refl
