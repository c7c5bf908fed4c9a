-- ===== src/Scope/Declared.antt =====
-- The life of a local variable: new_localvar, adjustlocalvars and removevars.
use luaxx.Base.{
  ℕ, zero, suc, ◌+◌, ◌-◌, ◌%◌, ◌≤◌, ◌<◌, ◌≡◌, ◌≢◌, refl, ◌∙◌, List, [], ◌∷◌, ◌++◌, Option, none,
  some, true, false, length, get_elem?, set, put, ltb, leb, arith, Bool-cases, Option-cases, inl,
  inr, get_elem?-put_self, get_elem?-put_ne,
}
use luaxx.Chunk.{Str, LocVar, same_bytes, same_string}
use luaxx.Scope.{
  Level, gives, max_vars, shrt_max, register_local_var, new_local_var, change_var,
  adjust_local_vars, remove_vars, name_of, search_below, search_var,
}
use luaxx.Scope.Lookup.{same_bytes→eq, same_bytes_refl}

-- Room for one more variable, and active variables that are registered.
abbrev pub IsReady : Level → Type 0
IsReady fs =
    (fs.gen.nactvar < max_vars)
    × (length fs.locvars < shrt_max)
    × (fs.gen.nactvar ≤ length fs.actvar)
    × ((i : ℕ) (at : ℕ)
        → i < fs.gen.nactvar
        → get_elem? fs.actvar i ≡ some at
        → at < length fs.locvars)

abbrev varname_at : List LocVar → ℕ → Option Str
varname_at vars at = elim (get_elem? vars at) [ none ↦ none | some v ↦ v.varname ]

abbrev name_in : List LocVar → List ℕ → ℕ → Option Str
name_in vars active i = elim (get_elem? active i) [ none ↦ none | some at ↦ varname_at vars at ]

set-varname_at :
    (vars : List LocVar) (j at : ℕ) (v w : LocVar)
    → get_elem? vars j ≡ some v
    → w.varname ≡ v.varname
    → varname_at (set vars j w) at ≡ varname_at vars at
set-varname_at [] j at v w h e = absurd cc
set-varname_at (x ∷ vars) zero zero v w h e = let same : x ≡ v = cc in rw (e, same) refl
set-varname_at (x ∷ vars) zero (suc at) v w h e = refl
set-varname_at (x ∷ vars) (suc j) zero v w h e = refl
set-varname_at (x ∷ vars) (suc j) (suc at) v w h e = set-varname_at vars j at v w h e

change_var-varname_at :
    (vars : List LocVar) (active : List ℕ) (i at : ℕ) (f : LocVar → LocVar)
    → ((v : LocVar) → (f v).varname ≡ v.varname)
    → varname_at (change_var vars active i f) at ≡ varname_at vars at
change_var-varname_at vars active i at f keeps = elim (Option-cases (get_elem? active i)) [
  | inl e ↦ rw (change_var, e) refl
  | inr (j, e) ↦ elim (Option-cases (get_elem? vars j)) [
    | inl g ↦ rw (change_var, e, g) refl
    | inr (v, g) ↦ rw (change_var, e, g) (set-varname_at vars j at v (f v) g (keeps v))
  ]
]

varname_at-append :
    (vars : List LocVar) (v : LocVar) (at : ℕ)
    → at < length vars
    → varname_at (vars ++ (v ∷ [])) at ≡ varname_at vars at
varname_at-append [] v at h = absurd (omega arith)
varname_at-append (x ∷ vars) v zero h = refl
varname_at-append (x ∷ vars) v (suc at) h = varname_at-append vars v at (omega arith)

varname_at-last :
    (vars : List LocVar) (v : LocVar) → varname_at (vars ++ (v ∷ [])) (length vars) ≡ v.varname
varname_at-last [] v = refl
varname_at-last (x ∷ vars) v = varname_at-last vars v

search_below-names :
    (fs fs' : Level) (name : Str) (n : ℕ)
    → ((i : ℕ) → i < n → name_of fs' i ≡ name_of fs i)
    → search_below fs' name n ≡ search_below fs name n
unfolding search_below
search_below-names fs fs' name zero h = refl
search_below-names fs fs' name (suc n) h =
    rw (h n (omega arith), search_below-names fs fs' name n (λ i b. h i (omega arith))) refl

same_string-false : (s t : Str) → s ≢ t → same_string (some s) (some t) ≡ false
same_string-false s t h = elim (Bool-cases (same_bytes s t)) [
  | inl e ↦ absurd (h (same_bytes→eq s t e))
  | inr e ↦ e
]

module _ (fs : Level) (name : Str) (ready : IsReady fs) where
  abbrev entry : LocVar
  entry = record { varname = some name; startpc = 0; endpc = 0 }

  abbrev active : List ℕ
  active = put fs.actvar fs.gen.nactvar (length fs.locvars)

  abbrev begun : LocVar → LocVar
  begun v = record v { startpc = fs.gen.pc }

  abbrev ended : LocVar → LocVar
  ended v = record v { endpc = fs.gen.pc }

  abbrev registered : Level
  registered = record fs { locvars = fs.locvars ++ (entry ∷ []); actvar = active }

  abbrev declared : Level
  declared = record registered {
    gen = record fs.gen { nactvar = suc fs.gen.nactvar };
    locvars = change_var registered.locvars active fs.gen.nactvar begun;
  }

  abbrev removed : Level
  removed = record declared {
    gen = fs.gen;
    locvars = change_var declared.locvars active fs.gen.nactvar ended;
  }

  declare-registered : new_local_var name 0 fs ≡ gives tt registered
  unfolding new_local_var register_local_var
  declare-registered =
      let (vars, locals, _, _) = ready in
      let fits : ltb max_vars (fs.gen.nactvar + 1) ≡ false = ground arith in
      let room : leb shrt_max (length fs.locvars) ≡ false = ground arith in
      let at : fs.gen.nactvar + 0 ≡ fs.gen.nactvar = omega arith in
      let short : length fs.locvars % 65536 ≡ length fs.locvars = omega arith in
      simp (fits, room, at, short)

  adjust_local_vars-declared : adjust_local_vars 1 registered ≡ declared
  unfolding adjust_local_vars
  adjust_local_vars-declared =
      let (vars, _, _, _) = ready in
      let next : (fs.gen.nactvar + 1) % 256 ≡ suc fs.gen.nactvar = omega arith in
      let first : suc fs.gen.nactvar - 1 ≡ fs.gen.nactvar = omega arith in simp (next, first)

  remove_vars-removed : remove_vars fs.gen.nactvar declared ≡ removed
  unfolding remove_vars
  remove_vars-removed =
      let more : ltb fs.gen.nactvar (suc fs.gen.nactvar) ≡ true = ground arith in
      let one : suc fs.gen.nactvar - fs.gen.nactvar ≡ 1 = omega arith in
      let at : fs.gen.nactvar + 0 ≡ fs.gen.nactvar = omega arith in simp (more, one, at)

  registered-name_of : (i : ℕ) → i < fs.gen.nactvar → name_of registered i ≡ name_of fs i
  registered-name_of i h =
      let (_, _, long, inside) = ready in
      let kept : get_elem? active i ≡ get_elem? fs.actvar i =
        get_elem?-put_ne fs.actvar fs.gen.nactvar i (length fs.locvars) long
          (λ e. absurd (omega arith)) in
      elim (Option-cases (get_elem? fs.actvar i)) [
        | inl e ↦ rw (name_of, kept, e) refl
        | inr (at, e) ↦
            rw (name_of, kept, e) (varname_at-append fs.locvars entry at (inside i at h e))
      ]

  registered-last : name_of registered fs.gen.nactvar ≡ some name
  registered-last =
      let (_, _, long, _) = ready in
      rw (name_of, get_elem?-put_self fs.actvar fs.gen.nactvar (length fs.locvars) long)
        (varname_at-last fs.locvars entry)

  changed-name_in :
      (vars : List LocVar) (f : LocVar → LocVar) (i : ℕ)
      → ((v : LocVar) → (f v).varname ≡ v.varname)
      → name_in (change_var vars active fs.gen.nactvar f) active i ≡ name_in vars active i
  changed-name_in vars f i keeps = elim (Option-cases (get_elem? active i)) [
    | inl e ↦ rw (name_in, e) refl
    | inr (at, e) ↦ rw (name_in, e) (change_var-varname_at vars active fs.gen.nactvar at f keeps)
  ]

  declared-name_of : (i : ℕ) → name_of declared i ≡ name_of registered i
  declared-name_of i = changed-name_in registered.locvars begun i (λ v. refl)

  removed-name_of : (i : ℕ) → name_of removed i ≡ name_of declared i
  removed-name_of i = changed-name_in declared.locvars ended i (λ v. refl)

  declared-below :
      (other : Str)
      → search_below declared other fs.gen.nactvar ≡ search_below fs other fs.gen.nactvar
  declared-below other =
      search_below-names fs declared other fs.gen.nactvar
        (λ i h. declared-name_of i ∙ registered-name_of i h)

  declared-search_var : search_var declared name ≡ some fs.gen.nactvar
  unfolding search_var search_below
  declared-search_var =
      rw (declared-name_of fs.gen.nactvar, registered-last, same_bytes_refl name) refl

  declared-search_var_other :
      (other : Str) → other ≢ name → search_var declared other ≡ search_var fs other
  unfolding search_var search_below
  declared-search_var_other other h =
      rw (declared-name_of fs.gen.nactvar, registered-last, same_string-false other name h)
        (declared-below other)

  removed-search_var : (other : Str) → search_var removed other ≡ search_var fs other
  unfolding search_var
  removed-search_var other =
      search_below-names fs removed other fs.gen.nactvar
        (λ i h. removed-name_of i ∙ declared-name_of i ∙ registered-name_of i h)

-- Where there is room for a variable and the active ones are registered, a variable that
-- new_localvar and adjustlocalvars declare is what its name means from then on, and other names
-- mean what they meant. When removevars has gone back to the level before, every name means what it
-- meant there.
pub new_local_var-adjust_local_vars :
    (fs : Level) (name : Str)
    → IsReady fs
    → (fs1 : Level) × (new_local_var name 0 fs ≡ gives tt fs1)
      × (search_var (adjust_local_vars 1 fs1) name ≡ some fs.gen.nactvar)
      × ((other : Str)
          → other ≢ name
          → search_var (adjust_local_vars 1 fs1) other ≡ search_var fs other)
      × ((other : Str)
          → search_var (remove_vars fs.gen.nactvar (adjust_local_vars 1 fs1)) other
            ≡ search_var fs other)
new_local_var-adjust_local_vars fs name ready =
    let begins : adjust_local_vars 1 (registered fs name ready) ≡ declared fs name ready =
      adjust_local_vars-declared fs name ready in
    (
      registered fs name ready,
      declare-registered fs name ready,
      rw begins (declared-search_var fs name ready),
      λ other h. rw begins (declared-search_var_other fs name ready other h),
      λ other.
          rw (begins, remove_vars-removed fs name ready) (removed-search_var fs name ready other),
    )
