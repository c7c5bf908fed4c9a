-- ===== src/Scope/Names.antt =====
-- `singlevaraux` along the chain of functions.
use luaxx.Base.{
  ℕ, zero, suc, ◌+◌, ◌≤◌, ◌<◌, ◌≡◌, refl, sym, ◌∙◌, ap, List, [], ◌∷◌, ◌++◌, Option, none, some,
  Bool, true, false, length, get_elem?, All, ltb, if◌then◌else◌, arith, Bool-cases, Option-cases,
  inl, inr, ◌⊎◌, ==→eq, length-append, lt_of_get_elem?,
}
use luaxx.Opcodes.{no_reg}
use luaxx.Chunk.{Str}
use luaxx.Scope.{
  Var, global, local, upval, Level, Out, gives, refused, too_many_upvalues, max_vars, max_upvalues,
  same_var, byte_info, find_upvalue, index_upvalue, search_below, search_var, mark_upval, captured,
  single_var_aux, and_then,
}
use luaxx.Scope.Lookup.{IsLast, search_var-IsLast}

-- The limits of a function's variables and upvalues.
abbrev pub IsLevel : Level → Type 0
IsLevel fs = (fs.gen.nactvar ≤ max_vars) × (length fs.upvalues ≤ max_upvalues)

abbrev IsCaptured : Var → Type 0
IsCaptured (global i) = ⊥
IsCaptured v = Unit

-- What a name means in a chain of functions. A local is the variable that a search in the
-- function finds. An upvalue is described by its entry: in the function around, the name means
-- that variable or that upvalue. A global is found nowhere.
abbrev pub Means : List Level → Str → Var → Type 0
Means [] name (global i) = i ≡ no_reg
Means [] name (local i) = ⊥
Means [] name (upval i) = ⊥
Means (fs ∷ prev) name (local i) = search_var fs name ≡ some i
Means (fs ∷ prev) name (global i) = (search_var fs name ≡ none) × Means prev name (global i)
Means (fs ∷ prev) name (upval j) =
    (search_var fs name ≡ none)
    × (v : Var) × (get_elem? fs.upvalues j ≡ some v)
    × IsCaptured v
    × Means prev name v

-- A level that has kept its variables, and its upvalues under their numbers.
abbrev pub Keeps : Level → Level → Type 0
Keeps fs fs' =
    (fs'.gen ≡ fs.gen)
    × (fs'.locvars ≡ fs.locvars)
    × (fs'.actvar ≡ fs.actvar)
    × ((j : ℕ) (v : Var) → get_elem? fs.upvalues j ≡ some v → get_elem? fs'.upvalues j ≡ some v)

abbrev pub AllKeep : List Level → List Level → Type 0
AllKeep [] [] = Unit
AllKeep (fs ∷ prev) (fs' ∷ prev') = Keeps fs fs' × AllKeep prev prev'
AllKeep [] (fs' ∷ prev') = ⊥
AllKeep (fs ∷ prev) [] = ⊥

same_var→eq : (u v : Var) → same_var u v ≡ true → u ≡ v
same_var→eq (global a) (global b) h = ap global (==→eq a b h)
same_var→eq (local a) (local b) h = ap local (==→eq a b h)
same_var→eq (upval a) (upval b) h = ap upval (==→eq a b h)
same_var→eq _ _ h = absurd cc

-- The place that a search for an upvalue gives.
abbrev IsPlace : Var → List Var → Option ℕ → Type 0
IsPlace v us none = Unit
IsPlace v us (some i) = get_elem? us i ≡ some v

find_upvalue-IsPlace : (v : Var) (us : List Var) → IsPlace v us (find_upvalue v us)
unfolding find_upvalue
find_upvalue-IsPlace v [] = tt
find_upvalue-IsPlace v (u ∷ us) = elim (Bool-cases (same_var u v)) [
  | inl e ↦ rw e (ap some (same_var→eq u v e))
  | inr e ↦ rw e (further (find_upvalue v us) (find_upvalue-IsPlace v us))
]
  where
    further :
        (o : Option ℕ)
        → IsPlace v us o
        → IsPlace v (u ∷ us) (elim o [ none ↦ none | some i ↦ some (i + 1) ])
    further none h = tt
    further (some i) h = let next : i + 1 ≡ suc i = omega arith in rw next h

get_elem?-last : (us : List Var) (v : Var) → get_elem? (us ++ (v ∷ [])) (length us) ≡ some v
get_elem?-last [] v = refl
get_elem?-last (u ∷ us) v = get_elem?-last us v

get_elem?-append :
    (us : List Var) (v : Var) (j : ℕ) (w : Var)
    → get_elem? us j ≡ some w
    → get_elem? (us ++ (v ∷ [])) j ≡ some w
get_elem?-append [] v j w h = absurd cc
get_elem?-append (u ∷ us) v zero w h = h
get_elem?-append (u ∷ us) v (suc j) w h = get_elem?-append us v j w h

search_var-lt : (fs : Level) (name : Str) (i : ℕ) → search_var fs name ≡ some i → i < fs.gen.nactvar
search_var-lt fs name i e = below (search_var fs name) (search_var-IsLast fs name) e
  where
    below : (o : Option ℕ) → IsLast fs name fs.gen.nactvar o → o ≡ some i → i < fs.gen.nactvar
    below none h e = absurd cc
    below (some k) (a, _, _) e = let same : k ≡ i = cc in rw (sym same) a

-- An entry for a variable that is described with a number below 256.
abbrev IsSmall : Var → Type 0
IsSmall (global i) = i < 256
IsSmall (local i) = i < 256
IsSmall (upval i) = i < 256

byte_info-IsSmall : (v : Var) → IsSmall v → byte_info v ≡ v
byte_info-IsSmall (global i) h = ap global (omega arith)
byte_info-IsSmall (local i) h = ap local (omega arith)
byte_info-IsSmall (upval i) h = ap upval (omega arith)

-- What an entry for `v` in the upvalues comes to.
abbrev IsIndexed : Level → Var → Out Level ℕ → Type 0
IsIndexed fs v (gives j fs') = Keeps fs fs' × IsLevel fs' × (get_elem? fs'.upvalues j ≡ some v)
IsIndexed fs v (refused e) = e ≡ too_many_upvalues

index_upvalue-IsIndexed :
    (name : Str) (v : Var) (fs : Level)
    → IsSmall v
    → IsLevel fs
    → IsIndexed fs v (index_upvalue name v fs)
unfolding index_upvalue
index_upvalue-IsIndexed name v fs small (vars, ups) =
    entry (find_upvalue v fs.upvalues) (find_upvalue-IsPlace v fs.upvalues) refl
  where
    entry :
        (o : Option ℕ)
        → IsPlace v fs.upvalues o
        → find_upvalue v fs.upvalues ≡ o
        → IsIndexed fs v (index_upvalue name v fs)
    entry (some i) h e =
        rw (IsIndexed, index_upvalue, e) ((refl, refl, refl, λ j w g. g), (vars, ups), h)
    entry none h e =
        rw (IsIndexed, index_upvalue, e)
          (elim (Bool-cases (ltb max_upvalues (length fs.upvalues + 1))) [
            | inl full ↦ rw full refl
            | inr room ↦
                rw (room, byte_info-IsSmall v small)
                  (
                    (refl, refl, refl, get_elem?-append fs.upvalues v),
                    (vars, ground (arith, length-append fs.upvalues (v ∷ []))),
                    get_elem?-last fs.upvalues v,
                  )
          ])

search_below-same :
    (fs fs' : Level) (name : Str) (n : ℕ)
    → fs'.locvars ≡ fs.locvars
    → fs'.actvar ≡ fs.actvar
    → search_below fs' name n ≡ search_below fs name n
unfolding search_below
search_below-same fs fs' name zero l a = refl
search_below-same fs fs' name (suc n) l a = rw (l, a, search_below-same fs fs' name n l a) refl

search_var-Keeps :
    (fs fs' : Level) (name : Str) → Keeps fs fs' → search_var fs' name ≡ search_var fs name
unfolding search_var
search_var-Keeps fs fs' name (g, l, a, u) =
    ap (λ s. search_below fs' name s.nactvar) g ∙ search_below-same fs fs' name fs.gen.nactvar l a

Keeps-refl : (fs : Level) → Keeps fs fs
Keeps-refl fs = (refl, refl, refl, λ j v h. h)

AllKeep-refl : (levels : List Level) → AllKeep levels levels
AllKeep-refl [] = tt
AllKeep-refl (fs ∷ prev) = (Keeps-refl fs, AllKeep-refl prev)

abbrev IsResolved : List Level → Str → Out (List Level) Var → Type 0
IsResolved levels name (gives v levels') =
    Means levels' name v × AllKeep levels levels' × All IsLevel levels' × IsSmall v
IsResolved levels name (refused e) = e ≡ too_many_upvalues

module _ (fs : Level) (prev : List Level) (name : Str) (missing : search_var fs name ≡ none)
    (level : IsLevel fs) where
  captured_at :
      (v : Var) (prev' : List Level)
      → IsCaptured v
      → Means prev' name v
      → AllKeep prev prev'
      → All IsLevel prev'
      → (r : Out Level ℕ) → IsIndexed fs v r
      → IsResolved (fs ∷ prev) name (and_then r (λ j fs'. gives (upval j) (fs' ∷ prev')))
  captured_at v prev' c m k l (refused e) h = h
  captured_at v prev' c m k l (gives j fs') (keeps, (vars, ups), at) = (
    (search_var-Keeps fs fs' name keeps ∙ missing, v, at, c, m),
    (keeps, k),
    ((vars, ups), l),
    omega (arith, lt_of_get_elem? fs'.upvalues j at),
  )

  captured-IsResolved :
      (r : Out (List Level) Var)
      → IsResolved prev name r
      → IsResolved (fs ∷ prev) name (and_then r (captured name fs))
  captured-IsResolved (refused e) h = h
  captured-IsResolved (gives (global i) prev') (m, k, l, s) =
      ((missing, m), (Keeps-refl fs, k), (level, l), s)
  captured-IsResolved (gives (local i) prev') (m, k, l, s) =
      captured_at (local i) prev' tt m k l (index_upvalue name (local i) fs)
        (index_upvalue-IsIndexed name (local i) fs s level)
  captured-IsResolved (gives (upval i) prev') (m, k, l, s) =
      captured_at (upval i) prev' tt m k l (index_upvalue name (upval i) fs)
        (index_upvalue-IsIndexed name (upval i) fs s level)

single_var_aux-IsResolved :
    (levels : List Level) (name : Str) (base : Bool)
    → All IsLevel levels
    → IsResolved levels name (single_var_aux levels name base)
unfolding single_var_aux
single_var_aux-IsResolved [] name base h = (refl, tt, tt, omega arith)
single_var_aux-IsResolved (fs ∷ prev) name base (level, h) =
    elim (Option-cases (search_var fs name)) [
      | inl e ↦
          rw (IsResolved, single_var_aux, e)
            (captured-IsResolved fs prev name e level (single_var_aux prev name false)
              (single_var_aux-IsResolved prev name false h))
      | inr (i, e) ↦ rw (IsResolved, single_var_aux, e) (found base i e)
    ]
  where
    found :
        (base : Bool) (i : ℕ)
        → search_var fs name ≡ some i
        → IsResolved
            (fs ∷ prev)
            name
            (gives (local i) ((if base then fs else mark_upval i fs) ∷ prev))
    found true i e = (
      e,
      (Keeps-refl fs, AllKeep-refl prev),
      (level, h),
      omega (arith, search_var-lt fs name i e),
    )
    found false i e =
        let keeps : Keeps fs (mark_upval i fs) = (refl, refl, refl, λ j v g. g) in
        (
          search_var-Keeps fs (mark_upval i fs) name keeps ∙ e,
          (keeps, AllKeep-refl prev),
          (level, h),
          omega (arith, search_var-lt fs name i e),
        )

-- In a chain of functions with at most 200 variables and 60 upvalues each, `singlevaraux` gives a
-- variable that is what the name means in the chain that it leaves, or refuses an upvalue too
-- many. Every function keeps its variables and its upvalues' numbers, and stays in its limits.
pub single_var_aux-Means :
    (levels : List Level) (name : Str) (base : Bool)
    → All IsLevel levels
    → ((v : Var) × (levels' : List Level) × (single_var_aux levels name base ≡ gives v levels')
        × Means levels' name v
        × AllKeep levels levels'
        × All IsLevel levels')
      ⊎ (single_var_aux levels name base ≡ refused too_many_upvalues)
single_var_aux-Means levels name base h =
    split (single_var_aux levels name base) (single_var_aux-IsResolved levels name base h)
  where
    split :
        (r : Out (List Level) Var)
        → IsResolved levels name r
        → ((v : Var) × (levels' : List Level) × (r ≡ gives v levels')
            × Means levels' name v
            × AllKeep levels levels'
            × All IsLevel levels')
          ⊎ (r ≡ refused too_many_upvalues)
    split (gives v levels') (m, k, l, s) = inl (v, levels', refl, m, k, l)
    split (refused e) h = inr (rw h refl)
