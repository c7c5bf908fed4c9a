-- ===== src/Chunk/RoundTrip.antt =====
-- lundump.c on what ldump.c writes.
use Prim.Native.Nat.{max}
use mathlib.Core.Path.{ap₂, subst}
use luaxx.Base.{
  ℕ, zero, suc, ◌+◌, ◌-◌, ◌^◌, ◌<◌, ◌≤◌, ◌≡◌, ◌⊎◌, inl, inr, Bool-cases, refl, sym, ap, ◌∙◌, ◌||◌,
  if◌then◌else◌, Bool, true, false, List, [], ◌∷◌, ◌++◌, Option, none, some, arith,
}
use luaxx.Zio.{Zio}
use luaxx.Zio.Read.{contents}
use luaxx.Chunk.{
  Str, Header, Proto, proto, Protos, done, next, count, same_string, same_bytes, header,
}
use luaxx.Chunk.Dump.{dump}
use luaxx.Chunk.DumpLaws.{keep, dump-encoding}
use luaxx.Chunk.Load.{
  load_times, load_function, undump, to_protos, or_parent, unknown_source, max_c_calls,
}
use luaxx.Chunk.Encoding.{unless, written_source, enc_function, enc_functions, enc_chunk}
use luaxx.Chunk.LoadLaws.{
  Yields, yields, Parses, bind, int-Parses, IsConstant, IsCounted, constants-Parses, IsDebug,
  debug-Parses, IsStart, start-Parses, header-Parses,
}

-- The source that a function has after the trip: `pd` and `pl` are its parent's, before and after.
abbrev pub reload_source : Bool → Header → Option Str → Option Str → Option Str
reload_source strip f pd pl = or_parent (written_source strip f pd) pl

abbrev pub reload_header : Bool → Header → Option Str → Header
reload_header strip f s = record f {
  source = s;
  lineinfo = unless strip f.lineinfo;
  locvars = unless strip f.locvars;
  upvalues = unless strip f.upvalues;
}

-- A function as it comes back: without what was stripped, and with its parent's source for none.
unfoldable mutual
  pub reload : Bool → Proto → Option Str → Option Str → Proto
  reload strip (proto f ps) pd pl =
      proto (reload_header strip f (reload_source strip f pd pl))
        (reloads strip ps f.source (reload_source strip f pd pl))

  pub reloads : Bool → Protos → Option Str → Option Str → Protos
  reloads strip done pd pl = done
  reloads strip (next f fs) pd pl = next (reload strip f pd pl) (reloads strip fs pd pl)

-- how deep functions nest
unfoldable mutual
  pub depth : Proto → ℕ
  depth (proto f ps) = suc (depths ps)

  pub depths : Protos → ℕ
  depths done = 0
  depths (next f fs) = max (depth f) (depths fs)

pub record IsHeader (f : Header) : Type 0 where
  pub start : IsStart f
  pub constants : IsCounted IsConstant f.k
  pub debug : IsDebug f.lineinfo f.locvars f.upvalues

-- Every field fits the C type that it is written in.
abbrev mutual
  pub IsDumpable : Proto → Type 0
  IsDumpable (proto f ps) = IsHeader f × (count ps < 2 ^ 31) × AreDumpable ps

  pub AreDumpable : Protos → Type 0
  AreDumpable done = Unit
  AreDumpable (next f fs) = IsDumpable f × AreDumpable fs

-- The bytecode checker accepts the function and those inside it.
abbrev mutual
  pub IsAccepted : (Proto → Bool) → Proto → Type 0
  IsAccepted checks (proto f ps) = (checks (proto f ps) ≡ true) × AreAccepted checks ps

  pub AreAccepted : (Proto → Bool) → Protos → Type 0
  AreAccepted checks done = Unit
  AreAccepted checks (next f fs) = IsAccepted checks f × AreAccepted checks fs

abbrev list_of : Protos → List Proto
list_of done = []
list_of (next f fs) = f ∷ list_of fs

to_protos-list_of : (fs : Protos) → to_protos (list_of fs) ≡ fs
to_protos-list_of done = refl
to_protos-list_of (next f fs) = ap (next f) (to_protos-list_of fs)

mutual
  unfolding reload reloads depth depths enc_function enc_functions load_function load_times

  function-Parses :
      (checks : Proto → Bool) (strip : Bool) (f : Proto) (pd pl : Option Str) (room : ℕ)
      → depth f ≤ room
      → IsDumpable f
      → IsAccepted checks (reload strip f pd pl)
      → Parses (load_function checks room pl) (enc_function strip f pd) (reload strip f pd pl)
  function-Parses checks strip (proto f ps) pd pl zero d h a rest z e = absurd (omega arith)
  function-Parses checks strip (proto f ps) pd pl (suc room) d (h, n, hs) (a, as') rest z e =
      bind _ (start-Parses strip f pd pl h.start _ z e) λ z1 e1.
        bind _ (constants-Parses f.k h.constants _ z1 e1) λ z2 e2.
          bind _ (int-Parses (count ps) n _ z2 e2) λ z3 e3.
            bind _
              (functions-Parses checks strip ps f.source (reload_source strip f pd pl) room
                (omega arith) hs as' _ z3 e3)
              λ z4 e4.
                bind _ (debug-Parses strip f h.debug rest z4 e4)
                  λ z5 e5. rw (to_protos-list_of _, a) (yields e5)

  functions-Parses :
      (checks : Proto → Bool) (strip : Bool) (fs : Protos) (pd pl : Option Str) (room : ℕ)
      → depths fs ≤ room
      → AreDumpable fs
      → AreAccepted checks (reloads strip fs pd pl)
      → Parses
          (load_times (count fs) (load_function checks room pl))
          (enc_functions strip fs pd)
          (list_of (reloads strip fs pd pl))
  functions-Parses checks strip done pd pl room d h a rest z e = yields e
  functions-Parses checks strip (next f fs) pd pl room d (h, hs) (a, as') rest z e =
      bind _ (function-Parses checks strip f pd pl room (omega arith) h a _ z e) λ z1 e1.
        bind _ (functions-Parses checks strip fs pd pl room (omega arith) hs as' rest z1 e1)
          λ z2 e2. yields e2

-- A dumped chunk is read back: with every field in the range of its C type, with nesting that
-- LUAI_MAXCCALLS admits above the `calls` already made, and a bytecode checker that accepts the
-- functions, `luaU_undump` succeeds on any stream that starts with what `luaU_dump` wrote. It
-- gives the function less what was stripped, and leaves the rest of the stream.
pub undump-dump :
    (checks : Proto → Bool) (strip : Bool) (f : Proto) (calls : ℕ) (rest : List ℕ) (z : Zio)
    → depth f + calls ≤ max_c_calls
    → IsDumpable f
    → IsAccepted checks (reload strip f none (some unknown_source))
    → contents z ≡ (dump keep strip f []).data_of ++ rest
    → Yields (reload strip f none (some unknown_source)) rest (undump checks calls z)
unfolding undump enc_chunk
undump-dump checks strip f calls rest z d h a e =
    let whole : contents z ≡ header ++ enc_function strip f none rest =
      e ∙ (dump-encoding strip f [] rest).1 in
    bind _ (header-Parses _ z whole) λ z1 e1.
      function-Parses checks strip f none (some unknown_source) (max_c_calls - calls) (omega arith)
        h a rest z1 e1

-- Every function knows its source.
abbrev mutual
  pub IsSourced : Proto → Type 0
  IsSourced (proto f ps) = ((s : Str) × (f.source ≡ some s)) × AreSourced ps

  pub AreSourced : Protos → Type 0
  AreSourced done = Unit
  AreSourced (next f fs) = IsSourced f × AreSourced fs

pub eq_of_same_bytes : (s t : Str) → same_bytes s t ≡ true → s ≡ t
eq_of_same_bytes [] [] h = refl
eq_of_same_bytes [] (y ∷ t) h = cc
eq_of_same_bytes (x ∷ s) [] h = cc
eq_of_same_bytes (x ∷ s) (y ∷ t) h = ground (arith, eq_of_same_bytes s t)

eq_of_same_string : (s t : Option Str) → same_string s t ≡ true → s ≡ t
eq_of_same_string none none h = refl
eq_of_same_string none (some t) h = cc
eq_of_same_string (some s) none h = cc
eq_of_same_string (some s) (some t) h = ap some (eq_of_same_bytes s t h)

reload_source_self :
    (source pd pl : Option Str) (s : Str)
    → source ≡ some s
    → ((pd ≡ none) ⊎ (pd ≡ pl))
    → or_parent (if same_string source pd || false then none else source) pl ≡ source
reload_source_self source pd pl s e h = elim (Bool-cases (same_string source pd)) [
  | inl same ↦ rw same (elim h [
    | inl root ↦ cc (eq_of_same_string source pd same)
    | inr child ↦ cc (eq_of_same_string source pd same)
  ])
  | inr other ↦ rw (other, e)
]

mutual
  unfolding reload reloads

  reload_self :
      (f : Proto) (pd pl : Option Str)
      → IsSourced f
      → ((pd ≡ none) ⊎ (pd ≡ pl))
      → reload false f pd pl ≡ f
  reload_self (proto f ps) pd pl ((s, e), es) h =
      let q = reload_source_self f.source pd pl s e h in
      λ i. proto (record f { source = q i }) (reloads_self ps f.source _ es (inr (sym q)) i)

  reloads_self :
      (fs : Protos) (pd pl : Option Str)
      → AreSourced fs
      → ((pd ≡ none) ⊎ (pd ≡ pl))
      → reloads false fs pd pl ≡ fs
  reloads_self done pd pl es h = refl
  reloads_self (next f fs) pd pl (e, es) h =
      ap₂ next (reload_self f pd pl e h) (reloads_self fs pd pl es h)

-- Without stripping, a function whose nested functions all know their source comes back as it
-- was, under the conditions of a successful undump.
pub undump-dump_whole :
    (checks : Proto → Bool) (f : Proto) (calls : ℕ) (rest : List ℕ) (z : Zio)
    → depth f + calls ≤ max_c_calls
    → IsDumpable f
    → IsSourced f
    → IsAccepted checks f
    → contents z ≡ (dump keep false f []).data_of ++ rest
    → Yields f rest (undump checks calls z)
undump-dump_whole checks f calls rest z d h es a e =
    let q = reload_self f none (some unknown_source) es (inl refl) in
    subst (λ g. Yields g rest (undump checks calls z)) q
      (undump-dump checks false f calls rest z d h (rw q a) e)
