-- ===== src/Parser/Keeps/Statements.antt =====
-- The grammar of statements, over functions declared ahead that keep what it keeps.
use luaxx.Base.{ℕ, suc, refl, List, Bool, true, false}
use luaxx.Object.{Strto}
use luaxx.Chunk.{Str}
use luaxx.Lexer.{
  Token, char, tk_break, tk_do, tk_elseif, tk_for, tk_function, tk_if, tk_in, tk_local, tk_repeat,
  tk_return, tk_while,
}
use luaxx.Code.State.{Jump, ExpDesc}
use luaxx.Code.Constants.{FloatOps}
use luaxx.Parser.{
  Parse, pure, ◌>>=◌, weight, again, singlevar, eq_or_in_expected, syntax_error, too_many_variables,
  update_level, token_number,
}
use luaxx.Parser.Exprs.{Ahead, expr, explist1, field, body}
use luaxx.Parser.Statements
use luaxx.Parser.Statements.{
  block_follow, block, cond, assignment, whilestat, repeatstat, exp1, forbody, fornum, forlist,
  forstat, test_then_block, ifstat, localfunc, localstat, funcname, funcstat, exprstat, retstat,
  statement_at, statement, chunk_over,
}
use luaxx.Parser.Keeps.{
  is_grammars, Safe, Eats, Safe-pure, Safe-throw, Safe-reads, Still-reads, Safe-if, Safe-Still,
  Safe-Eats, Safe-at_token, Eats-at_token, Safe-check_condition, Safe-bind, Eats-first, Eats-behind,
}
use luaxx.Parser.Keeps.Loops.{
  Steps, Steps-stop, StepsAt-Steps, Steps-Eats, Steps-at_token, Steps-if, Steps-bind, Safe-iterate,
}
use luaxx.Parser.Keeps.Scanner.{
  IsMore, StepsAt-token, IsMark-char, Eats-next, Safe-str_checkname, Steps-test_next,
}
use luaxx.Parser.Keeps.Levels.{Still-emit, Safe-emit, Still-update_level, Safe-new_var}
use luaxx.Parser.Keeps.Nesting.{Safe-in_block, Eats-in_block}
use luaxx.Parser.Keeps.Depth.{Safe-deeper}
use luaxx.Parser.Keeps.Functions.{Safe-breakstat}
use luaxx.Parser.Keeps.Exprs.{
  safe_rules, Keeps, comma, Safe-expr, Safe-explist1, Safe-field, Eats-field, Eats-primaryexp,
}
use luaxx.Parser.Keeps.Operands.{Safe-body}

module _ ⦃fp : FloatOps⦄ ⦃lib : Strto⦄ (point : ℕ) {n : ℕ} (rec : Ahead) (ahead : Keeps n rec) where
  Safe-block : Safe n (block point rec)
  unfolding block
  Safe-block = Safe-in_block false rec.chunk ahead.chunk

  Safe-exp : Safe n (expr point rec)
  Safe-exp = Safe-expr point rec ahead

  Safe-explist : Safe n (explist1 point rec)
  Safe-explist = Safe-explist1 point rec ahead

  Safe-cond : Safe n (cond point rec)
  unfolding cond
  Safe-cond = search (safe_rules, Safe-exp)

  Safe-check_conflict :
      (v : ExpDesc) (lhs : List ExpDesc) (nv : ExpDesc)
      → Safe n (Statements.seen point rec v lhs nv)
  Safe-check_conflict v lhs nv = search safe_rules

  Safe-one_more :
      (v : ExpDesc) (lhs : List ExpDesc) (nvars : ℕ)
      → Safe n (Statements.one_more point rec v lhs nvars)
  unfolding is_grammars
  Safe-one_more v lhs nvars = Safe-bind _ _ (Safe-Eats _ (Eats-primaryexp point rec ahead)) λ nv.
      Safe-bind _ _ (Safe-check_conflict v lhs nv) λ lhs'.
        Safe-bind _ _ (Safe-reads _)
          λ calls. Safe-bind _ _ (Safe-check_condition _ too_many_variables refl) λ _. Safe-pure _

  Steps-assignment :
      (x : ExpDesc × List ExpDesc × ℕ) → Steps n (Statements.assignment_step point rec x)
  unfolding is_grammars
  Steps-assignment (v, lhs, nvars) = Steps-bind _ _ (Safe-check_condition _ syntax_error refl) λ _.
      Steps-test_next point (char b',') _ _ (comma point rec ahead)
        (Safe-bind _ _ (Safe-one_more v lhs nvars) λ _. Safe-pure _) (Steps-stop _)

  Safe-assignment : (first : ExpDesc) → Safe n (assignment point rec first)
  unfolding assignment
  Safe-assignment first =
      Safe-bind _ _ (Safe-iterate _ _ Steps-assignment) λ x. search (safe_rules, Safe-explist)

  Eats-whilestat : (line : ℕ) → Eats n tk_while (whilestat point rec line)
  unfolding whilestat weight
  Eats-whilestat line =
      Eats-first _ _ (Eats-next point tk_while refl)
        λ _. search (safe_rules, Safe-cond, Safe-block, Safe-in_block) depth 8

  Safe-repeat_end :
      (closes : Bool) (condexit : Jump) → Safe n (Statements.repeat_end point rec closes condexit)
  Safe-repeat_end closes condexit = search (safe_rules, Safe-breakstat)

  Eats-repeat_scope : (line : ℕ) → Eats n tk_repeat (Statements.repeat_scope point rec line)
  unfolding weight
  Eats-repeat_scope line =
      Eats-first _ _ (Eats-next point tk_repeat refl)
        λ _. Safe-bind _ _ ahead.chunk λ _. search (safe_rules, Safe-cond, Safe-repeat_end)

  Eats-repeatstat : (line : ℕ) → Eats n tk_repeat (repeatstat point rec line)
  unfolding repeatstat
  Eats-repeatstat line = Eats-behind _ _ (Still-emit _) λ repeat_init.
      Eats-in_block true _
        (Eats-first _ _ (Eats-in_block false _ (Eats-repeat_scope line)) λ r. Safe-emit _)

  Safe-exp1 : Safe n (exp1 point rec)
  unfolding exp1
  Safe-exp1 = search (safe_rules, Safe-exp)

  Safe-forbody :
      (base line nvars : ℕ) (isnum : Bool) → Safe n (forbody point rec base line nvars isnum)
  unfolding forbody
  Safe-forbody base line nvars isnum = search (safe_rules, Safe-block, Safe-in_block) depth 8

  Safe-for_step : (step : Bool) → Safe n (Statements.for_step point rec step)
  Safe-for_step step = search (safe_rules, Safe-exp1)

  Safe-fornum : (varname : Str) (line : ℕ) → Safe n (fornum point rec varname line)
  unfolding fornum
  Safe-fornum varname line = search (safe_rules, Safe-exp1, Safe-for_step, Safe-forbody) depth 16

  Steps-name : (nvars : ℕ) → Steps n (Statements.name_step point rec nvars)
  Steps-name nvars =
      Steps-test_next point (char b',') _ _ (comma point rec ahead) (search safe_rules)
        (Steps-stop _)

  Safe-forlist : (indexname : Str) → Safe n (forlist point rec indexname)
  unfolding forlist
  Safe-forlist indexname =
      search (safe_rules, Safe-iterate, Steps-name, Safe-explist, Safe-forbody) depth 16

  Safe-for_at :
      (varname : Str) (line : ℕ) (t : Token) → Safe n (Statements.for_at point rec varname line t)
  unfolding is_grammars
  Safe-for_at varname line (char c) =
      Safe-if _ _ _ (Safe-fornum varname line)
        (Safe-if _ _ _ (Safe-forlist varname) (Safe-throw eq_or_in_expected refl))
  Safe-for_at varname line tk_in = Safe-forlist varname
  Safe-for_at varname line _ = Safe-throw eq_or_in_expected refl

  Eats-forstat : (line : ℕ) → Eats n tk_for (forstat point rec line)
  unfolding forstat weight
  Eats-forstat line = Eats-in_block true _ (
      Eats-first _ _ (Eats-next point tk_for refl)
        λ _. search (safe_rules, Safe-at_token, Safe-for_at) depth 8)

  Eats-test_then_block : (t : Token) → IsMore t → Eats n t (test_then_block point rec)
  unfolding test_then_block
  Eats-test_then_block t more =
      Eats-first _ _ (Eats-next point t more)
        λ _. search (safe_rules, Safe-cond, Safe-block) depth 8

  -- at ELSEIF
  Eats-elseif_part :
      (t : Token) (lists : Jump × Jump)
      → IsMore t
      → Eats n t (Statements.elseif_part point rec lists)
  Eats-elseif_part t (escapelist, flist) more =
      Eats-behind _ _ (Still-emit _)
        λ escapes. Eats-first _ _ (Eats-test_then_block t more) λ condexit. Safe-pure _

  Steps-elseif : (lists : Jump × Jump) → Steps n (Statements.elseif_step point rec lists)
  unfolding token_number
  Steps-elseif lists = Steps-at_token _ λ t.
      StepsAt-token tk_elseif t _ _ refl
        (λ more. Eats-first _ _ (Eats-elseif_part t lists more) λ l. Safe-pure _) (Steps-stop lists)

  Safe-else_part :
      (escapelist flist : Jump) → Safe n (Statements.else_part point rec escapelist flist)
  Safe-else_part escapelist flist = search (safe_rules, Safe-block) depth 8

  Eats-ifstat : (line : ℕ) → Eats n tk_if (ifstat point rec line)
  unfolding ifstat weight
  Eats-ifstat line = Eats-first _ _ (Eats-test_then_block tk_if refl) λ flist.
      Safe-bind _ _ (Safe-iterate _ _ Steps-elseif)
        λ lists. search (safe_rules, Safe-at_token, Safe-else_part) depth 8

  Safe-a_body : (needself : Bool) (line : ℕ) → Safe n (body point rec needself line)
  Safe-a_body = Safe-body point rec ahead

  Safe-begin_here : Safe n (update_level Statements.begin_here)
  Safe-begin_here = Safe-Still _ (Still-update_level _ λ fs. refl)

  Safe-localfunc : Safe n (localfunc point rec)
  unfolding localfunc
  Safe-localfunc = search (safe_rules, Safe-a_body, Safe-begin_here) depth 16

  Steps-local : (nvars : ℕ) → Steps n (Statements.local_step point rec nvars)
  Steps-local nvars = Steps-bind _ _ (Safe-str_checkname point) λ name.
      Steps-bind _ _ (Safe-new_var name nvars) λ _.
        Steps-test_next point (char b',') _ _ (comma point rec ahead) (Safe-pure _) (Steps-stop _)

  Safe-given : (given : Bool) → Safe n (Statements.initial point rec given)
  Safe-given given = search (safe_rules, Safe-explist)

  Safe-localstat : Safe n (localstat point rec)
  unfolding localstat
  Safe-localstat =
      Safe-bind _ _ (Safe-iterate _ _ Steps-local) λ nvars. search (safe_rules, Safe-given) depth 8

  Steps-field : (v : ExpDesc) → Steps n (Statements.field_step point rec v)
  Steps-field v = Steps-at_token _ λ t.
      StepsAt-token (char b'.') t _ _ (IsMark-char b'.' refl)
        (λ more. Eats-first _ _ (Eats-field point rec ahead t v more) λ e. Safe-pure _)
        (Steps-stop v)

  Safe-a_field : (v : ExpDesc) → Safe n (field point rec v)
  Safe-a_field = Safe-field point rec ahead

  Safe-funcname : Safe n (funcname point rec)
  unfolding funcname singlevar
  Safe-funcname = Safe-bind _ _ (search safe_rules) λ v.
      Safe-bind _ _ (Safe-iterate _ _ Steps-field)
        λ e. search (safe_rules, Safe-at_token, Safe-a_field)

  Eats-funcstat : (line : ℕ) → Eats n tk_function (funcstat point rec line)
  unfolding funcstat weight
  Eats-funcstat line =
      Eats-first _ _ (Eats-next point tk_function refl)
        λ _. Safe-bind _ _ Safe-funcname λ x. search (safe_rules, Safe-a_body) depth 8

  Eats-exprstat : (t : Token) → Eats n t (exprstat point rec)
  unfolding exprstat
  Eats-exprstat t =
      Eats-first _ _ (Eats-primaryexp point rec ahead t) λ v. search (safe_rules, Safe-assignment)

  Safe-returned : Safe n (Statements.returned point rec)
  Safe-returned = search (safe_rules, Safe-explist)

  Eats-retstat : Eats n tk_return (retstat point rec)
  unfolding retstat weight
  Eats-retstat =
      Eats-first _ _ (Eats-next point tk_return refl)
        λ _. search (safe_rules, Safe-at_token, Safe-returned)

  Eats-do_stat : (line : ℕ) → Eats n tk_do (Statements.do_stat point rec line)
  unfolding weight
  Eats-do_stat line =
      Eats-first _ _ (Eats-next point tk_do refl) λ _. search (safe_rules, Safe-block)

  Eats-local_stat : Eats n tk_local (Statements.local_stat point rec)
  unfolding weight
  Eats-local_stat =
      Eats-first _ _ (Eats-next point tk_local refl)
        λ _. search (safe_rules, Safe-localfunc, Safe-localstat)

  Eats-break_stat : Eats n tk_break (Statements.break_stat point rec)
  unfolding weight
  Eats-break_stat = Eats-first _ _ (Eats-next point tk_break refl) λ _. Safe-breakstat

  Eats-continues :
      (t : Token) (m : Parse (Unit {0})) → Eats n t m → Eats n t (Statements.continues point rec m)
  Eats-continues t m h = Eats-first _ _ h λ _. Safe-pure false

  Eats-ends :
      (t : Token) (m : Parse (Unit {0})) → Eats n t m → Eats n t (Statements.ends point rec m)
  Eats-ends t m h = Eats-first _ _ h λ _. Safe-pure true

  Eats-statement_at : (line : ℕ) (t : Token) → Eats n t (statement_at point rec line t)
  Eats-statement_at line tk_if = Eats-continues _ _ (Eats-ifstat line)
  Eats-statement_at line tk_while = Eats-continues _ _ (Eats-whilestat line)
  Eats-statement_at line tk_do = Eats-continues _ _ (Eats-do_stat line)
  Eats-statement_at line tk_for = Eats-continues _ _ (Eats-forstat line)
  Eats-statement_at line tk_repeat = Eats-continues _ _ (Eats-repeatstat line)
  Eats-statement_at line tk_function = Eats-continues _ _ (Eats-funcstat line)
  Eats-statement_at line tk_local = Eats-continues _ _ Eats-local_stat
  Eats-statement_at line tk_return = Eats-ends _ _ Eats-retstat
  Eats-statement_at line tk_break = Eats-ends _ _ Eats-break_stat
  Eats-statement_at line t = Eats-continues _ _ (Eats-exprstat t)

  -- Every statement takes a token.
  Eats-statement : (t : Token) → Eats n t (statement point rec)
  unfolding statement
  Eats-statement t =
      Eats-behind _ _ (Still-reads _) λ line. Eats-at_token _ t (Eats-statement_at line)

  Safe-free_registers : Safe n (update_level Statements.free_registers)
  Safe-free_registers = Safe-Still _ (Still-update_level _ λ fs. refl)

  Eats-one_statement : (t : Token) → Eats n t (Statements.one_statement point rec)
  Eats-one_statement t =
      Eats-first _ _ (Eats-statement t) λ islast. search (safe_rules, Safe-free_registers)

  Steps-chunk : (islast : Bool) → Steps n (Statements.chunk_step point rec islast)
  Steps-chunk true = Steps-stop tt
  Steps-chunk false = Steps-at_token _ λ t. StepsAt-Steps _ (
      Steps-if (block_follow t) _
        (Statements.one_statement point rec >>= λ islast. pure (again islast)) (Steps-stop tt)
        (Steps-Eats _
          λ t'. Eats-first _ _ (Eats-one_statement t') λ islast. Safe-pure (again islast)))

  pub Safe-chunk_over : Safe (suc n) (chunk_over point rec)
  unfolding chunk_over
  Safe-chunk_over = Safe-deeper _ (Safe-iterate _ _ Steps-chunk)
