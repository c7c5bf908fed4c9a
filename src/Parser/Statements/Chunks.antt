-- ===== src/Parser/Statements/Chunks.antt =====
-- lparser.c: a statement, and chunk.
use luaxx.Base.{ℕ, ◌||◌, some, Bool, true, false, if◌then◌else◌}
use luaxx.Object.{Strto}
use luaxx.Lexer.{
  Token, char, tk_break, tk_do, tk_end, tk_for, tk_function, tk_if, tk_local, tk_repeat, tk_return,
  tk_while,
}
use luaxx.Code.Emit.{ret}
use luaxx.Code.Constants.{FloatOps}
use luaxx.Scope.{Level}
use luaxx.Parser.{
  Parse, pure, ◌>>=◌, ◌>>◌, line_number, at_token, Step, again, stop, iterate, update_level, emit,
  is_token, next, test_next, check_match, deeper,
}
use luaxx.Parser.Sequences.{return_code}
use luaxx.Parser.Scopes.{breakstat}
use luaxx.Parser.Exprs.{Ahead, explist1}
use luaxx.Parser.Statements.Blocks.{block_follow, block}
use luaxx.Parser.Statements.Declarations.{localfunc, localstat, funcstat}
use luaxx.Parser.Statements.Branches.{ifstat}
use luaxx.Parser.Statements.Loops.{whilestat, forstat, repeatstat}
use luaxx.Parser.Statements.Assignments.{exprstat}

-- `fs->freereg = fs->nactvar`
abbrev pub free_registers : Level → Level
free_registers fs = record fs { gen = record fs.gen { freereg = fs.gen.nactvar } }

module _ ⦃fp : FloatOps⦄ ⦃lib : Strto⦄ (point : ℕ) (rec : Ahead) where
  abbrev pub returned : Parse (Unit {0})
  returned = do (e, nret) ← explist1 point rec; emit (return_code e nret)

  unfoldable pub retstat : Parse (Unit {0})
  retstat = do
    next point
    at_token
        λ t. if block_follow t || is_token (char b';') t then emit (ret 0 (some 0)) else returned

  abbrev pub do_stat : ℕ → Parse (Unit {0})
  do_stat line = do next point; block point rec; check_match point tk_end tk_do line

  abbrev pub local_stat : Parse (Unit {0})
  local_stat = do
    next point
    function ← test_next point tk_function
    if function then localfunc point rec else localstat point rec

  -- a statement, and whether it must be the last one
  abbrev pub continues : Parse (Unit {0}) → Parse Bool
  continues m = do m; pure false

  abbrev pub ends : Parse (Unit {0}) → Parse Bool
  ends m = do m; pure true

  abbrev pub break_stat : Parse (Unit {0})
  break_stat = do next point; breakstat

  abbrev pub statement_at : ℕ → Token → Parse Bool
  statement_at line tk_if = continues (ifstat point rec line)
  statement_at line tk_while = continues (whilestat point rec line)
  statement_at line tk_do = continues (do_stat line)
  statement_at line tk_for = continues (forstat point rec line)
  statement_at line tk_repeat = continues (repeatstat point rec line)
  statement_at line tk_function = continues (funcstat point rec line)
  statement_at line tk_local = continues local_stat
  statement_at line tk_return = ends retstat
  statement_at line tk_break = ends break_stat
  statement_at line t = continues (exprstat point rec)

  unfoldable pub statement : Parse Bool
  statement = do line ← line_number; at_token (statement_at line)

  abbrev pub one_statement : Parse Bool
  one_statement = do
    islast ← statement
    test_next point (char b';')
    update_level free_registers
    pure islast

  -- while (!islast && !block_follow(ls->t.token))
  abbrev pub chunk_step : Bool → Parse (Step Bool (Unit {0}))
  chunk_step true = pure (stop tt)
  chunk_step false = at_token λ t.
      if block_follow t then pure (stop tt) else (do islast ← one_statement; pure (again islast))

  -- chunk, over the functions declared ahead
  unfoldable pub chunk_over : Parse (Unit {0})
  chunk_over = deeper (iterate chunk_step false)
