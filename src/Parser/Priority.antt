-- ===== src/Parser/Priority.antt =====
-- subexpr: the operator that it leaves, whose priority is too low.
use luaxx.Base.{ℕ, ◌≡◌, false}
use luaxx.Code.State.{ExpDesc}
use luaxx.Code.Oper.{BinOpr}
use luaxx.Parser.{Parser, Outcome, ok, fail, Parse}
use luaxx.Parser.Exprs
use luaxx.Parser.Exprs.{get_binopr, binds}
use luaxx.Parser.Keeps.Exprs.{Keeps}

-- where the step returns
abbrev Returns : {A : Type 0} → (A → Parser → Type 0) → Outcome A → Type 0
Returns post (ok a s) = post a s
Returns post (fail e) = Unit

record Gives {A : Type 0} (post : A → Parser → Type 0) (m : Parse A) : Type 0 where
  pub at : (s : Parser) → Returns post (m s)

-- the operator of the current token
abbrev IsNext : ExpDesc × BinOpr → Parser → Type 0
IsNext (v, op) s = op ≡ get_binopr s.ls.t

abbrev pub Untreated : ℕ → ExpDesc × BinOpr → Parser → Type 0
Untreated limit (v, op) s = (op ≡ get_binopr s.ls.t) × (binds limit op ≡ false)
