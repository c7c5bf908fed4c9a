-- ===== src/Chunk/Load.antt =====
-- lundump.c: a prototype is read back from a buffered stream.
-- An error leaves the function by `luaD_throw`. `luaG_checkcode` (ldebug.c) is the parameter
-- `checks`; memory never runs out.
use luaxx.Base.{
  ℕ, zero, suc, ◌-◌, ◌*◌, ◌^◌, ◌==◌, leb, ◌||◌, if◌then◌else◌, not, Bool, List, [], ◌∷◌, Option,
  none, some, length, take,
}
use luaxx.Zio.{Zio, read}
use luaxx.Chunk.{
  Str, Constant, nil, boolean, number, string, LocVar, Proto, proto, Protos, done, next, same_bytes,
  header,
}
use luaxx.Chunk.Bytes.{un_le, words}

pub data Why : Type 0 where
  unexpected_end bad_integer bad_constant too_deep bad_code bad_header : Why

pub data Loaded {ℓ} (A : Type ℓ) : Type ℓ where
  ok : A → Zio → Loaded A
  error : Why → Loaded A

abbrev pub Load {ℓ} : Type ℓ → Type ℓ
Load A = Zio → Loaded A

abbrev pub pure {ℓ} : {A : Type ℓ} → A → Load A
pure a z = ok a z

abbrev pub throw {ℓ} : {A : Type ℓ} → Why → Load A
throw w z = error w

abbrev pub and_then {ℓ κ} : {A : Type ℓ} {B : Type κ} → Loaded A → (A → Load B) → Loaded B
and_then (ok a z) k = k a z
and_then (error w) k = error w

infixl 5 ◌>>=◌ ◌>>◌
abbrev pub ◌>>=◌ {ℓ κ} : {A : Type ℓ} {B : Type κ} → Load A → (A → Load B) → Load B
m >>= k = λ z. and_then (m z) k

abbrev pub ◌>>◌ {ℓ κ} : {A : Type ℓ} {B : Type κ} → Load A → Load B → Load B
m >> n = m >>= λ _. n

unfoldable pub load_block : ℕ → Load (List ℕ)
load_block size z =
    let r = read z size in if r.missing == 0 then ok r.bytes r.stream else error unexpected_end

-- `char` as the byte that it is; the source compares it with values from 0 to 127 only, or
-- casts it to lu_byte.
unfoldable pub load_char : Load ℕ
load_char = do b ← load_block 1; pure (un_le b)

-- An `int` whose top bit is set is negative.
unfoldable pub load_int : Load ℕ
load_int = do b ← load_block 4; if leb (2 ^ 31) (un_le b) then throw bad_integer else pure (un_le b)

unfoldable pub load_number : Load ℕ
load_number = do b ← load_block 8; pure (un_le b)

unfoldable pub load_bytes : ℕ → Load (Option Str)
load_bytes zero = pure none
load_bytes (suc n) = do s ← load_block (suc n); pure (some (take n s))

unfoldable pub load_string : Load (Option Str)
unfolding load_bytes
load_string = do size ← load_block 8; load_bytes (un_le size)

-- LoadInt and LoadVector, for an array of 4-byte elements
unfoldable pub load_vector : Load (List ℕ)
load_vector = do n ← load_int; b ← load_block (n * 4); pure (words n b)

-- `for (i=0; i<n; i++)` over the elements of an array
unfoldable pub load_times {ℓ} : {A : Type ℓ} → ℕ → Load A → Load (List A)
load_times zero one = pure []
load_times (suc n) one = do x ← one; xs ← load_times n one; pure (x ∷ xs)

abbrev load_constant_of : ℕ → Load Constant
load_constant_of t =
    if t == 0
    then pure nil
    else (if t == 1
        then (do b ← load_char; pure (boolean (not (b == 0))))
        else (if t == 3
            then (do n ← load_number; pure (number n))
            else (if t == 4 then (do s ← load_string; pure (string s)) else throw bad_constant)))

unfoldable pub load_constant : Load Constant
load_constant = do t ← load_char; load_constant_of t

unfoldable pub load_constants : Load (List Constant)
load_constants = do n ← load_int; load_times n load_constant

unfoldable pub load_locvar : Load LocVar
load_locvar = do
  s ← load_string
  a ← load_int
  b ← load_int
  pure (record { varname = s; startpc = a; endpc = b })

-- The fields that LoadDebug sets.
pub record Debug : Type 0 where
  pub lineinfo : List ℕ
  pub locvars : List LocVar
  pub upvalues : List (Option Str)

unfoldable pub load_debug : Load Debug
load_debug = do
  ls ← load_vector
  n ← load_int
  vs ← load_times n load_locvar
  m ← load_int
  us ← load_times m load_string
  pure (record { lineinfo = ls; locvars = vs; upvalues = us })

-- `if (f->source==NULL) f->source=p`
abbrev pub or_parent : Option Str → Option Str → Option Str
or_parent none p = p
or_parent (some s) p = some s

-- The fields that LoadFunction sets before the constants.
pub record Start : Type 0 where
  pub source : Option Str
  pub linedefined : ℕ
  pub lastlinedefined : ℕ
  pub nups : ℕ
  pub numparams : ℕ
  pub is_vararg : ℕ
  pub maxstacksize : ℕ
  pub code : List ℕ

unfoldable pub load_start : Option Str → Load Start
load_start p = do
  s ← load_string
  l ← load_int
  ll ← load_int
  nu ← load_char
  np ← load_char
  va ← load_char
  ms ← load_char
  c ← load_vector
  pure (record {
    source = or_parent s p;
    linedefined = l;
    lastlinedefined = ll;
    nups = nu;
    numparams = np;
    is_vararg = va;
    maxstacksize = ms;
    code = c;
  })

abbrev pub to_protos : List Proto → Protos
to_protos [] = done
to_protos (f ∷ fs) = next f (to_protos fs)

abbrev pub assemble : Start → List Constant → List Proto → Debug → Proto
assemble s k ps d =
    proto
      (record {
        source = s.source;
        linedefined = s.linedefined;
        lastlinedefined = s.lastlinedefined;
        nups = s.nups;
        numparams = s.numparams;
        is_vararg = s.is_vararg;
        maxstacksize = s.maxstacksize;
        code = s.code;
        k = k;
        lineinfo = d.lineinfo;
        locvars = d.locvars;
        upvalues = d.upvalues;
      })
      (to_protos ps)

abbrev pub max_c_calls : ℕ
max_c_calls = 200

unfoldable pub load_header : Load (Unit {0})
load_header = do
  s ← load_block (length header)
  if same_bytes header s then pure tt else throw bad_header

-- the literal "=?"
abbrev pub unknown_source : Str
unknown_source = 61 ∷ 63 ∷ []

module _ (checks : Proto → Bool) where
  -- LoadFunction, where `room` more calls may nest: it is `LUAI_MAXCCALLS - L->nCcalls`.
  unfoldable pub load_function : ℕ → Option Str → Load Proto
  load_function zero p = throw too_deep
  load_function (suc room) p = do
    s ← load_start p
    k ← load_constants
    n ← load_int
    ps ← load_times n (load_function room s.source)
    d ← load_debug
    let f = assemble s k ps d
    if checks f then pure f else throw bad_code

  -- luaU_undump, called at the nesting depth `calls` of C functions
  unfoldable pub undump : ℕ → Load Proto
  undump calls = do load_header; load_function (max_c_calls - calls) (some unknown_source)

-- The name under which luaU_undump reports an error: "binary string" for a chunk that is its own
-- name.
unfoldable pub chunk_name : Str → Str
chunk_name [] = []
chunk_name (c ∷ cs) =
    if c == 64 || c == 61
    then cs
    else (if c == 27
        then 98 ∷ 105 ∷ 110 ∷ 97 ∷ 114 ∷ 121 ∷ 32 ∷ 115 ∷ 116 ∷ 114 ∷ 105 ∷ 110 ∷ 103 ∷ []
        else c ∷ cs)
