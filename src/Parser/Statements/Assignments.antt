-- ===== src/Parser/Statements/Assignments.antt =====
-- lparser.c: assignments, and calls as statements.
use luaxx.Base.{ℕ, ◌+◌, ◌-◌, not, List, [], ◌∷◌, Bool, true, false, ltb, if◌then◌else◌}
use luaxx.Object.{Strto}
use luaxx.Lexer.{char}
use luaxx.Code.State.{ExpDesc, ExpKind, v_local, v_upval, v_global, v_indexed}
use luaxx.Code.Constants.{FloatOps}
use luaxx.Parser.{
  Parse, pure, ◌>>=◌, ◌>>◌, reads, check_condition, Step, again, stop, iterate, emit, test_next,
  check_next, max_calls, syntax_error, too_many_variables,
}
use luaxx.Parser.Sequences.{is_call, check_conflict, drop_results, assign_last, assign_rest}
use luaxx.Parser.Exprs.{Ahead, explist1, primaryexp}

-- VLOCAL <= k && k <= VINDEXED
abbrev pub is_variable : ExpKind → Bool
is_variable k = elim k [
  | v_local ↦ true
  | v_upval ↦ true
  | v_global ↦ true
  | v_indexed ↦ true
  | _ ↦ false
]

abbrev pub is_local : ExpKind → Bool
is_local k = elim k [ v_local ↦ true | _ ↦ false ]

module _ ⦃fp : FloatOps⦄ ⦃lib : Strto⦄ (point : ℕ) (rec : Ahead) where
  -- the variables in front of `nv`
  abbrev pub seen : ExpDesc → List ExpDesc → ExpDesc → Parse (List ExpDesc)
  seen v lhs nv = if is_local nv.k then emit (check_conflict (v ∷ lhs) nv) else pure (v ∷ lhs)

  -- one more variable of an assignment, behind a comma
  abbrev pub one_more : ExpDesc → List ExpDesc → ℕ → Parse (ExpDesc × List ExpDesc × ℕ)
  one_more v lhs nvars = do
    nv ← primaryexp point rec
    lhs' ← seen v lhs nv
    calls ← reads (λ s. s.calls)
    check_condition (not (ltb (max_calls - calls) nvars)) too_many_variables
    pure (nv, lhs', nvars + 1)

  abbrev pub assignment_step :
      ExpDesc × List ExpDesc × ℕ
      → Parse (Step (ExpDesc × List ExpDesc × ℕ) (ExpDesc × List ExpDesc × ℕ))
  assignment_step (v, lhs, nvars) = do
    check_condition (is_variable v.k) syntax_error
    more ← test_next point (char b',')
    if more
        then (do next_one ← one_more v lhs nvars; pure (again next_one))
        else pure (stop (v, lhs, nvars))

  -- assignment: the recursion of the source over the variables is a loop, and what it does on its
  -- way back `assign_rest`.
  unfoldable pub assignment : ExpDesc → Parse (Unit {0})
  assignment first = do
    (v, lhs, nvars) ← iterate assignment_step (first, [], 1)
    check_next point (char b'=')
    (e, nexps) ← explist1 point rec
    emit (assign_last v nvars nexps e)
    emit (assign_rest lhs)

  unfoldable pub exprstat : Parse (Unit {0})
  exprstat = do
    v ← primaryexp point rec
    if is_call v.k then emit (drop_results v) else assignment v
