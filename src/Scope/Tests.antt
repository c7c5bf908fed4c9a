-- ===== src/Scope/Tests.antt =====
-- A function inside another one.
use luaxx.Base.{
  zero, suc, ◌<◌, ◌≢◌, get_elem?, ℕ, ◌≡◌, refl, List, [], ◌∷◌, none, some, true, codes, All, arith,
  ◌⊎◌,
}
use luaxx.Chunk.{LocVar}
use luaxx.Code.State.{FuncState}
use luaxx.Scope
use luaxx.Scope.{
  Var, local, upval, global, Level, gives, refused, too_many_upvalues, single_var_aux, search_var,
  new_local_var, adjust_local_vars, remove_vars,
}
use luaxx.Scope.Lookup.{IsLast, search_var-IsLast}
use luaxx.Scope.Declared.{new_local_var-adjust_local_vars}
use luaxx.Scope.Names.{IsLevel, Means, AllKeep, single_var_aux-Means}

abbrev generator : ℕ → FuncState
generator n = record {
  code = [];
  lineinfo = [];
  k = [];
  maxstacksize = 2;
  h = [];
  lastline = 1;
  pc = 0;
  lasttarget = none;
  jpc = none;
  freereg = n;
  nk = 0;
  nactvar = n;
}

abbrev variable : List ℕ → LocVar
variable s = record { varname = some s; startpc = 0; endpc = 0 }

-- local x, y, x
abbrev outer : Level
outer = record {
  gen = generator 3;
  locvars = variable (codes "x") ∷ variable (codes "y") ∷ variable (codes "x") ∷ [];
  actvar = 0 ∷ 1 ∷ 2 ∷ [];
  upvalues = [];
  names = [];
  blocks = [];
  protos = [];
  linedefined = 0;
  lastlinedefined = 0;
  numparams = 0;
  is_vararg = 0;
}

abbrev inner : Level
inner = record {
  gen = generator 0;
  locvars = [];
  actvar = [];
  upvalues = local 1 ∷ [];
  names = codes "y" ∷ [];
  blocks = [];
  protos = [];
  linedefined = 0;
  lastlinedefined = 0;
  numparams = 0;
  is_vararg = 0;
}

abbrev chain : List Level
chain = inner ∷ outer ∷ []

search_var-IsLast_example : IsLast outer (codes "x") 3 (search_var outer (codes "x"))
search_var-IsLast_example = search_var-IsLast outer (codes "x")

outer_registered : (i at : ℕ) → i < 3 → get_elem? outer.actvar i ≡ some at → at < 3
outer_registered zero at h e = let same : 0 ≡ at = cc in omega arith
outer_registered (suc zero) at h e = let same : 1 ≡ at = cc in omega arith
outer_registered (suc (suc zero)) at h e = let same : 2 ≡ at = cc in omega arith
outer_registered (suc (suc (suc i))) at h e = absurd (omega arith)

-- the name is the upvalue behind the one that is there
inner_x :
    single_var_aux chain (codes "x") true
    ≡ gives (upval 1) (
        record inner { upvalues = local 1 ∷ local 2 ∷ []; names = codes "y" ∷ codes "x" ∷ [] }
        ∷ outer
        ∷ [])
unfolding Scope.single_var_aux Scope.search_var Scope.search_below Scope.index_upvalue
    Scope.find_upvalue Scope.mark_blocks
inner_x = refl

single_var_aux-Means_example :
    ((v : Var) × (levels' : List Level) × (single_var_aux chain (codes "x") true ≡ gives v levels')
      × Means levels' (codes "x") v
      × AllKeep chain levels'
      × All IsLevel levels')
    ⊎ (single_var_aux chain (codes "x") true ≡ refused too_many_upvalues)
single_var_aux-Means_example =
    single_var_aux-Means chain (codes "x") true
      ((omega arith, omega arith), ((omega arith, omega arith), tt))

new_local_var-adjust_local_vars_example :
    (fs1 : Level) × (new_local_var (codes "y") 0 outer ≡ gives tt fs1)
    × (search_var (adjust_local_vars 1 fs1) (codes "y") ≡ some 3)
    × ((other : List ℕ)
        → other ≢ codes "y"
        → search_var (adjust_local_vars 1 fs1) other ≡ search_var outer other)
    × ((other : List ℕ)
        → search_var (remove_vars 3 (adjust_local_vars 1 fs1)) other ≡ search_var outer other)
new_local_var-adjust_local_vars_example =
    new_local_var-adjust_local_vars outer (codes "y")
      (omega arith, omega arith, omega arith, outer_registered)
