-- ===== src/Parser/Exprs/Operands.antt =====
-- lparser.c: operands, and subexpr.
use luaxx.Parser.Exprs.Lists.{Ahead}
use luaxx.Base.{ℕ, ◌+◌, ◌*◌, ◌/◌, ◌%◌, ◌==◌, not, false, if◌then◌else◌}
use luaxx.Object.{Strto}
use luaxx.Opcodes.{op_vararg}
use luaxx.Lexer.{Token, char, tk_false, tk_function, tk_nil, tk_true, tk_dots, tk_number, tk_string}
use luaxx.Code.State.{ExpDesc, v_nil, v_true, v_false, v_knum, v_vararg}
use luaxx.Code.Emit.{code_abc}
use luaxx.Code.Oper.{BinOpr, UnOpr, opr_nounopr, prefix, infix_of, posfix}
use luaxx.Code.Constants.{FloatOps}
use luaxx.Parser.{
  Parse, pure, ◌>>=◌, ◌>>◌, reads, check_condition, line_number, at_token, Step, again, stop,
  iterate, update_level, see_level, emit, next, codestring, init_exp, deeper, no_dots_outside,
}
use luaxx.Parser.Exprs.Functions.{body}
use luaxx.Parser.Exprs.Constructors.{constructor}
use luaxx.Parser.Exprs.Calls.{primaryexp}
use luaxx.Parser.Exprs.Operators.{unary_priority, right_priority, binds, get_unopr, get_binopr}

module _ ⦃fp : FloatOps⦄ ⦃lib : Strto⦄ (point : ℕ) (rec : Ahead) where
  abbrev pub literal : ExpDesc → Parse ExpDesc
  literal e = do next point; pure e

  -- `&= ~VARARG_NEEDSARG`
  abbrev not_needed : ℕ → ℕ
  not_needed is_vararg = is_vararg / 8 * 8 + is_vararg % 4

  abbrev pub dots_exp : Parse ExpDesc
  dots_exp = do
    is_vararg ← see_level (λ fs. fs.is_vararg)
    check_condition (not (is_vararg == 0)) no_dots_outside
    update_level (λ fs. record fs { is_vararg = not_needed fs.is_vararg })
    i ← emit (code_abc op_vararg 0 1 0)
    next point
    pure (init_exp v_vararg i)

  abbrev pub simple_at : Token → Parse ExpDesc
  simple_at (tk_number r) = literal (record (init_exp v_knum 0) { nval = r })
  simple_at (tk_string s) = do e ← codestring s; next point; pure e
  simple_at tk_nil = literal (init_exp v_nil 0)
  simple_at tk_true = literal (init_exp v_true 0)
  simple_at tk_false = literal (init_exp v_false 0)
  simple_at tk_dots = dots_exp
  simple_at tk_function = do next point; line ← line_number; body point rec false line
  simple_at (char c) = if c == b'{' then constructor point rec else primaryexp point rec
  simple_at t = primaryexp point rec

  unfoldable pub simpleexp : Parse ExpDesc
  simpleexp = at_token simple_at

  abbrev pub unary : UnOpr → Parse ExpDesc
  unary op = do next point; (e, _) ← rec.subexpr unary_priority; emit (prefix op e)

  abbrev pub operand : UnOpr → Parse ExpDesc
  operand op = elim op [ opr_nounopr ↦ simpleexp | other ↦ unary other ]

  abbrev pub combine : BinOpr → ExpDesc → ExpDesc × BinOpr → Parse (ExpDesc × BinOpr)
  combine op v1 (v2, nextop) = do e ← emit (posfix op v1 v2); pure (e, nextop)

  abbrev pub binary : ExpDesc → BinOpr → Parse (ExpDesc × BinOpr)
  binary v op = do
    next point
    v1 ← emit (infix_of op v)
    r ← rec.subexpr (right_priority op)
    combine op v1 r

  -- while (op != OPR_NOBINOPR && priority[op].left > limit)
  abbrev pub operator_step :
      ℕ → ExpDesc × BinOpr → Parse (Step (ExpDesc × BinOpr) (ExpDesc × BinOpr))
  operator_step limit (v, op) =
      if binds limit op then (do r ← binary v op; pure (again r)) else pure (stop (v, op))

  abbrev pub operators : ℕ → Parse (ExpDesc × BinOpr)
  operators limit = do
    v ← at_token (λ t. operand (get_unopr t))
    op ← reads (λ s. get_binopr s.ls.t)
    iterate (operator_step limit) (v, op)

  -- subexpr, over the functions declared ahead
  unfoldable pub subexpr_over : ℕ → Parse (ExpDesc × BinOpr)
  subexpr_over limit = deeper (operators limit)
