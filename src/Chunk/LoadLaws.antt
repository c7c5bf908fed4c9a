-- ===== src/Chunk/LoadLaws.antt =====
-- lundump.c on the pieces of the format.
use luaxx.Base.{
  ℕ, suc, ◌+◌, ◌*◌, ◌^◌, ◌<◌, ◌≤◌, ◌≡◌, refl, ◌∙◌, ◌||◌, leb, if◌then◌else◌, Bool, true, false,
  List, [], ◌∷◌, ◌++◌, Option, none, some, length, All, arith, length-append, take-append_length,
  drop-append_length,
}
use native.Mathlib.Numerals.{add-one}
use luaxx.Zio.{Zio, read}
use luaxx.Zio.Read.{contents, read-IsRead}
use luaxx.Chunk.{Str, Constant, nil, boolean, number, string, LocVar, Header, same_string, header}
use luaxx.Chunk.Bytes.{le, word_bytes, length-le, un_le-le, words-word_bytes, length-word_bytes}
use luaxx.Chunk.Load.{
  Loaded, Load, ok, and_then, load_block, load_char, load_int, load_number, load_bytes, load_string,
  load_vector, load_times, load_constant, load_constants, load_locvar, Debug, load_debug,
  load_start, load_header, Start, or_parent,
}
use luaxx.Chunk.Encoding.{
  enc_int, enc_vector, enc_string, enc_constant, enc_each, enc_counted, enc_locvar, unless,
  enc_debug, written_source, enc_start, enc_constants,
}

-- The load succeeds with the value `a`, and leaves `rest` to be read.
pub data Yields {A : Type 0} (a : A) (rest : List ℕ) : Loaded A → Type 0 where
  yields : {z : Zio} → contents z ≡ rest → Yields a rest (ok a z)

-- `m` reads `bytes`, in front of any rest, as `a`.
abbrev pub Parses : {A : Type 0} → Load A → (List ℕ → List ℕ) → A → Type 0
Parses m enc a = (rest : List ℕ) (z : Zio) → contents z ≡ enc rest → Yields a rest (m z)

module _ {A B : Type 0} where
  pub bind :
      {a : A} {m : Loaded A} {b : B} {mid rest : List ℕ} (k : A → Load B)
      → Yields a mid m
      → ((z : Zio) → contents z ≡ mid → Yields b rest (k a z))
      → Yields b rest (and_then m k)
  bind k (yields e) cont = cont _ e

block-Parses : (n : ℕ) (bs : List ℕ) → length bs ≡ n → Parses (load_block n) (λ rest. bs ++ rest) bs
unfolding load_block
block-Parses n bs e rest z h =
    let r = read-IsRead z n in
    let fits : n ≤ length (contents z) = rw h (omega (arith, length-append {0} bs rest)) in
    let full : (read z n).missing ≡ 0 = omega (arith, r.short) in
    let got : (read z n).bytes ≡ bs = r.copied ∙ rw (h, ← e) (take-append_length bs rest) in
    let left : contents (read z n).stream ≡ rest =
      r.left fits ∙ rw (h, ← e) (drop-append_length bs rest) in
    rw (full, got) (yields left)

char-Parses : (x : ℕ) → x < 256 → Parses load_char (λ rest. le 1 x ++ rest) x
unfolding load_char
char-Parses x h rest z e =
    bind _ (block-Parses 1 (le 1 x) (length-le 1 x) rest z e)
      λ z' e'. rw (un_le-le 1 x h) (yields e')

pub int-Parses : (x : ℕ) → x < 2 ^ 31 → Parses load_int (enc_int x) x
unfolding load_int
int-Parses x h rest z e =
    let small : leb (2 ^ 31) x ≡ false = ground arith in
    bind _ (block-Parses 4 (le 4 x) (length-le 4 x) rest z e)
      λ z' e'. rw (un_le-le 4 x (omega arith), small) (yields e')

number-Parses : (x : ℕ) → x < 2 ^ 64 → Parses load_number (λ rest. le 8 x ++ rest) x
unfolding load_number
number-Parses x h rest z e =
    bind _ (block-Parses 8 (le 8 x) (length-le 8 x) rest z e)
      λ z' e'. rw (un_le-le 8 x h) (yields e')

abbrev pub IsStr : Option Str → Type 0
IsStr none = Unit
IsStr (some s) = length s + 1 < 2 ^ 64

pub string-Parses : (s : Option Str) → IsStr s → Parses load_string (enc_string s) s
unfolding load_string load_bytes
string-Parses none h rest z e =
    bind _ (block-Parses 8 (le 8 0) (length-le 8 0) rest z e)
      λ z' e'. rw (un_le-le 8 0 (omega arith)) (yields e')
string-Parses (some s) h rest z e =
    bind _ (block-Parses 8 (le 8 (length s + 1)) (length-le 8 (length s + 1)) _ z e) λ z' e'.
      rw (un_le-le 8 (length s + 1) h, add-one (length s))
        (bind _
          (block-Parses (suc (length s)) (s ++ (0 ∷ []))
            (omega (arith, length-append {0} s (0 ∷ []))) rest z' e')
          λ z'' e''. rw (take-append_length s (0 ∷ [])) (yields e''))

abbrev pub IsArray : List ℕ → Type 0
IsArray xs = (length xs < 2 ^ 31) × All (λ x. x < 2 ^ 32) xs

pub vector-Parses : (xs : List ℕ) → IsArray xs → Parses load_vector (enc_vector xs) xs
unfolding load_vector
vector-Parses xs (h, ws) rest z e = bind _ (int-Parses (length xs) h _ z e) λ z' e'.
    bind _ (block-Parses (length xs * 4) (word_bytes xs) (length-word_bytes xs) rest z' e')
      λ z'' e''. rw (words-word_bytes xs ws) (yields e'')

module _ {A : Type 0} (P : A → Type 0) (one : Load A) (enc : A → List ℕ → List ℕ)
    (parses : (x : A) → P x → Parses one (enc x) x) where
  pub times-Parses :
      (xs : List A) → All P xs → Parses (load_times (length xs) one) (enc_each enc xs) xs
  unfolding load_times
  times-Parses [] h rest z e = yields e
  times-Parses (x ∷ xs) (h, hs) rest z e =
      bind _ (parses x h _ z e)
        λ z' e'. bind _ (times-Parses xs hs rest z' e') λ z'' e''. yields e''

abbrev pub IsConstant : Constant → Type 0
IsConstant nil = Unit
IsConstant (boolean b) = Unit
IsConstant (number n) = n < 2 ^ 64
IsConstant (string s) = IsStr s

constant-Parses : (o : Constant) → IsConstant o → Parses load_constant (enc_constant o) o
unfolding load_constant
constant-Parses nil h rest z e = bind _ (char-Parses 0 (omega arith) rest z e) λ z' e'. yields e'
constant-Parses (boolean true) h rest z e =
    bind _ (char-Parses 1 (omega arith) _ z e)
      λ z' e'. bind _ (char-Parses 1 (omega arith) rest z' e') λ z'' e''. yields e''
constant-Parses (boolean false) h rest z e =
    bind _ (char-Parses 1 (omega arith) _ z e)
      λ z' e'. bind _ (char-Parses 0 (omega arith) rest z' e') λ z'' e''. yields e''
constant-Parses (number n) h rest z e =
    bind _ (char-Parses 3 (omega arith) _ z e)
      λ z' e'. bind _ (number-Parses n h rest z' e') λ z'' e''. yields e''
constant-Parses (string s) h rest z e =
    bind _ (char-Parses 4 (omega arith) _ z e)
      λ z' e'. bind _ (string-Parses s h rest z' e') λ z'' e''. yields e''

abbrev pub IsCounted : {A : Type 0} → (A → Type 0) → List A → Type 0
IsCounted P xs = (length xs < 2 ^ 31) × All P xs

pub constants-Parses :
    (k : List Constant) → IsCounted IsConstant k → Parses load_constants (enc_constants k) k
unfolding load_constants
constants-Parses k (h, hs) rest z e =
    bind _ (int-Parses (length k) h _ z e)
      (times-Parses IsConstant load_constant enc_constant constant-Parses k hs rest)

abbrev pub IsLocVar : LocVar → Type 0
IsLocVar v = IsStr v.varname × (v.startpc < 2 ^ 31) × (v.endpc < 2 ^ 31)

locvar-Parses : (v : LocVar) → IsLocVar v → Parses load_locvar (enc_locvar v) v
unfolding load_locvar
locvar-Parses v (s, a, b) rest z e = bind _ (string-Parses v.varname s _ z e) λ z1 e1.
    bind _ (int-Parses v.startpc a _ z1 e1)
      λ z2 e2. bind _ (int-Parses v.endpc b rest z2 e2) λ z3 e3. yields e3

-- The three arrays of the debug information.
abbrev pub IsDebug : List ℕ → List LocVar → List (Option Str) → Type 0
IsDebug ls vs us = IsArray ls × IsCounted IsLocVar vs × IsCounted IsStr us

debug_lists-Parses :
    (ls : List ℕ) (vs : List LocVar) (us : List (Option Str))
    → IsDebug ls vs us
    → Parses load_debug
        (λ rest. enc_vector ls (enc_counted enc_locvar vs (enc_counted enc_string us rest)))
        (record { lineinfo = ls; locvars = vs; upvalues = us })
unfolding load_debug
debug_lists-Parses ls vs us (l, (vn, hv), (un, hu)) rest z e =
    bind _ (vector-Parses ls l _ z e) λ z1 e1. bind _ (int-Parses (length vs) vn _ z1 e1) λ z2 e2.
      bind _ (times-Parses IsLocVar load_locvar enc_locvar locvar-Parses vs hv _ z2 e2) λ z3 e3.
        bind _ (int-Parses (length us) un _ z3 e3) λ z4 e4.
          bind _ (times-Parses IsStr load_string enc_string string-Parses us hu rest z4 e4)
            λ z5 e5. yields e5

abbrev pub kept_debug : Bool → Header → Debug
kept_debug strip f = record {
  lineinfo = unless strip f.lineinfo;
  locvars = unless strip f.locvars;
  upvalues = unless strip f.upvalues;
}

pub debug-Parses :
    (strip : Bool) (f : Header)
    → IsDebug f.lineinfo f.locvars f.upvalues
    → Parses load_debug (enc_debug strip f) (kept_debug strip f)
unfolding enc_debug
debug-Parses true f h = debug_lists-Parses [] [] [] (omega arith)
debug-Parses false f h = debug_lists-Parses f.lineinfo f.locvars f.upvalues h

-- The scalar fields and the code of a function fit their types.
pub record IsStart (f : Header) : Type 0 where
  pub source : IsStr f.source
  pub linedefined : f.linedefined < 2 ^ 31
  pub lastlinedefined : f.lastlinedefined < 2 ^ 31
  pub nups : f.nups < 256
  pub numparams : f.numparams < 256
  pub is_vararg : f.is_vararg < 256
  pub maxstacksize : f.maxstacksize < 256
  pub code : IsArray f.code

abbrev pub start_of : Header → Option Str → Start
start_of f s = record {
  source = s;
  linedefined = f.linedefined;
  lastlinedefined = f.lastlinedefined;
  nups = f.nups;
  numparams = f.numparams;
  is_vararg = f.is_vararg;
  maxstacksize = f.maxstacksize;
  code = f.code;
}

written_source-IsStr :
    (strip : Bool) (f : Header) (p : Option Str) → IsStr f.source → IsStr (written_source strip f p)
written_source-IsStr strip f p h = go (same_string f.source p || strip)
  where
    go : (b : Bool) → IsStr (if b then none else f.source)
    go true = tt
    go false = h

pub start-Parses :
    (strip : Bool) (f : Header) (pd pl : Option Str)
    → IsStart f
    → Parses
        (load_start pl)
        (enc_start strip f pd)
        (start_of f (or_parent (written_source strip f pd) pl))
unfolding load_start enc_start
start-Parses strip f pd pl h rest z e =
    bind _ (string-Parses _ (written_source-IsStr strip f pd h.source) _ z e) λ z1 e1.
      bind _ (int-Parses f.linedefined h.linedefined _ z1 e1) λ z2 e2.
        bind _ (int-Parses f.lastlinedefined h.lastlinedefined _ z2 e2) λ z3 e3.
          bind _ (char-Parses f.nups h.nups _ z3 e3) λ z4 e4.
            bind _ (char-Parses f.numparams h.numparams _ z4 e4) λ z5 e5.
              bind _ (char-Parses f.is_vararg h.is_vararg _ z5 e5) λ z6 e6.
                bind _ (char-Parses f.maxstacksize h.maxstacksize _ z6 e6)
                  λ z7 e7. bind _ (vector-Parses f.code h.code rest z7 e7) λ z8 e8. yields e8

pub header-Parses : Parses load_header (λ rest. header ++ rest) tt
unfolding load_header
header-Parses rest z e = bind _ (block-Parses 12 header refl rest z e) λ z' e'. yields e'
