-- ===== src/Parser/Keeps/Operands.antt =====
-- Functions, operands and subexpr, over functions declared ahead that keep what they keep.
use luaxx.Base.{ℕ, suc, refl, Bool}
use luaxx.Object.{Strto}
use luaxx.Lexer.{
  Token, char, tk_nil, tk_true, tk_false, tk_dots, tk_function, tk_number, tk_name, tk_string,
}
use luaxx.Code.State.{ExpDesc}
use luaxx.Code.Oper.{BinOpr, UnOpr, opr_minus, opr_not, opr_len, opr_nounopr}
use luaxx.Code.Constants.{FloatOps}
use luaxx.Parser.{pure, ◌>>=◌, weight, again, name_or_dots_expected, no_dots_outside, update_level}
use luaxx.Parser.Exprs
use luaxx.Parser.Exprs.{
  Ahead, ConsControl, expr, field, yindex, explist1, recfield, listfield, constructor, funcargs,
  prefixexp, primaryexp, parlist, body, simpleexp, subexpr_over, binds, get_unopr,
}
use luaxx.Parser.Keeps.{
  is_grammars, Safe, Eats, Safe-pure, Safe-reads, Safe-if, Safe-Still, Safe-at_token, Eats-at_token,
  Eats-throw, Eats-if, Still-check_condition, Safe-bind, Eats-first, Eats-behind, Eats-late,
}
use luaxx.Parser.Keeps.Loops.{
  Steps, StepsAt, Steps-stop, StepsAt-Steps, StepsAt-Eats, Steps-Eats, Steps-at_token, Steps-if,
  Steps-bind, Safe-iterate,
}
use luaxx.Parser.Keeps.Scanner.{
  IsMore, Safe-next, Eats-next, Safe-check_next, Safe-str_checkname, Steps-test_next,
}
use luaxx.Parser.Keeps.Levels.{
  Still-emit, Safe-emit, Still-see_level, Still-update_level, Safe-new_var, Safe-adjust_vars,
}
use luaxx.Parser.Keeps.Names.{Still-codestring}
use luaxx.Parser.Keeps.Depth.{Eats-deeper}
use luaxx.Parser.Keeps.Functions.{Safe-in_function, Safe-pushclosure}
use luaxx.Parser.Keeps.Exprs.{safe_rules, Keeps, comma, Eats-constructor, Eats-primaryexp}

module _ ⦃fp : FloatOps⦄ ⦃lib : Strto⦄ (point : ℕ) {n : ℕ} (rec : Ahead) (ahead : Keeps n rec) where
  Steps-name_param : (i : ℕ) → Steps n (Exprs.name_param point rec i)
  Steps-name_param i = Steps-bind _ _ (Safe-str_checkname point) λ name.
      Steps-bind _ _ (Safe-new_var name i) λ _.
        Steps-test_next point (char b',') _ _ (comma point rec ahead) (Safe-pure _) (Steps-stop _)

  Safe-is_vararg : (v : ℕ) → Safe n (update_level (λ fs. record fs { is_vararg = v }))
  Safe-is_vararg v = Safe-Still _ (Still-update_level _ λ fs. refl)

  Steps-dots_param : (i : ℕ) → Steps n (Exprs.dots_param point rec i)
  Steps-dots_param i = Steps-bind _ _ (Safe-next point) λ _.
      Steps-bind _ _ (Safe-new_var _ i) λ _. Steps-bind _ _ (Safe-is_vararg 7) λ _. Steps-stop _

  StepsAt-param : (i : ℕ) (t : Token) → StepsAt n t (Exprs.param_at point rec i t)
  unfolding is_grammars
  StepsAt-param i (tk_name s) = StepsAt-Steps _ (Steps-name_param i)
  StepsAt-param i tk_dots = StepsAt-Steps _ (Steps-dots_param i)
  StepsAt-param i t = StepsAt-Eats _ (Eats-throw name_or_dots_expected t refl)

  Safe-params : Safe n (Exprs.params point rec)
  Safe-params =
      Safe-at_token _
        λ t. Safe-if _ _ _ (Safe-pure 0) (Safe-iterate _ _ λ i. Steps-at_token _ (StepsAt-param i))

  Safe-parlist : Safe n (parlist point rec)
  unfolding parlist
  Safe-parlist = Safe-bind _ _ (Safe-is_vararg 0) λ _. Safe-bind _ _ Safe-params λ i.
      Safe-bind _ _ (Safe-adjust_vars i)
        λ _. Safe-bind _ _ (Safe-Still _ (Still-update_level _ λ fs. refl)) λ _. search safe_rules

  Safe-ended : (line : ℕ) → Safe n (update_level (λ fs. record fs { lastlinedefined = line }))
  Safe-ended line = Safe-Still _ (Still-update_level _ λ fs. refl)

  Safe-self_param : (needself : Bool) → Safe n (Exprs.self_param point rec needself)
  Safe-self_param needself =
      Safe-if needself _ _ (Safe-bind _ _ (Safe-new_var _ 0) λ _. Safe-adjust_vars 1) (Safe-pure tt)

  Safe-function_text :
      (needself : Bool) (line : ℕ) → Safe n (Exprs.function_text point rec needself line)
  Safe-function_text needself line = Safe-bind _ _ (Safe-check_next point (char b'(')) λ _.
      Safe-bind _ _ (Safe-self_param needself) λ _. Safe-bind _ _ Safe-parlist λ _.
        Safe-bind _ _ (Safe-check_next point (char b')'))
          λ _. Safe-bind _ _ ahead.chunk λ _. search (safe_rules, Safe-ended)

  pub Safe-body : (needself : Bool) (line : ℕ) → Safe n (body point rec needself line)
  unfolding body
  Safe-body needself line =
      Safe-bind _ _ (Safe-in_function line _ (Safe-function_text needself line)) Safe-pushclosure

  Eats-literal : (t : Token) (e : ExpDesc) → IsMore t → Eats n t (Exprs.literal point rec e)
  Eats-literal t e more = Eats-first _ _ (Eats-next point t more) λ _. Safe-pure e

  Eats-dots_exp : Eats n tk_dots (Exprs.dots_exp point rec)
  unfolding is_grammars weight
  Eats-dots_exp = Eats-behind _ _ (Still-see_level _) λ is_vararg.
      Eats-behind _ _ (Still-check_condition _ no_dots_outside refl) λ _.
        Eats-behind _ _ (Still-update_level _ λ fs. refl) λ _.
          Eats-behind _ _ (Still-emit _)
            λ i. Eats-first _ _ (Eats-next point tk_dots refl) λ _. Safe-pure _

  Eats-simple_at : (t : Token) → Eats n t (Exprs.simple_at point rec t)
  unfolding weight
  Eats-simple_at (tk_number r) = Eats-literal (tk_number r) _ refl
  Eats-simple_at (tk_string s) =
      Eats-behind _ _ (Still-codestring s)
        λ e. Eats-first _ _ (Eats-next point (tk_string s) refl) λ _. Safe-pure e
  Eats-simple_at tk_nil = Eats-literal tk_nil _ refl
  Eats-simple_at tk_true = Eats-literal tk_true _ refl
  Eats-simple_at tk_false = Eats-literal tk_false _ refl
  Eats-simple_at tk_dots = Eats-dots_exp
  Eats-simple_at tk_function =
      Eats-first _ _ (Eats-next point tk_function refl) λ _. search (safe_rules, Safe-body)
  Eats-simple_at (char c) =
      Eats-if _ _ _ _ (Eats-constructor point rec ahead (char c))
        (Eats-primaryexp point rec ahead (char c))
  Eats-simple_at t = Eats-primaryexp point rec ahead t

  Eats-simpleexp : (t : Token) → Eats n t (simpleexp point rec)
  unfolding simpleexp
  Eats-simpleexp t = Eats-at_token _ t Eats-simple_at

  -- The operand of a unary operator is an expression.
  Eats-unary : (op : UnOpr) (t : Token) → Eats n t (Exprs.unary point rec op)
  Eats-unary op t =
      Eats-late _ _ (Safe-next point)
        λ _ t'. Eats-first _ _ (ahead.subexpr Exprs.unary_priority t') λ r. Safe-emit _

  Eats-operand : (op : UnOpr) (t : Token) → Eats n t (Exprs.operand point rec op)
  Eats-operand opr_nounopr t = Eats-simpleexp t
  Eats-operand opr_minus t = Eats-unary opr_minus t
  Eats-operand opr_not t = Eats-unary opr_not t
  Eats-operand opr_len t = Eats-unary opr_len t

  Eats-binary : (v : ExpDesc) (op : BinOpr) (t : Token) → Eats n t (Exprs.binary point rec v op)
  Eats-binary v op t = Eats-late _ _ (Safe-next point) λ _ _.
      Eats-late _ _ (Safe-emit _)
        λ v1 t'. Eats-first _ _ (ahead.subexpr _ t') λ r. search safe_rules

  Steps-operator :
      (limit : ℕ) (x : ExpDesc × BinOpr) → Steps n (Exprs.operator_step point rec limit x)
  Steps-operator limit (v, op) =
      Steps-if (binds limit op) (Exprs.binary point rec v op >>= λ r. pure (again r)) _
        (Steps-Eats _ λ t. Eats-first _ _ (Eats-binary v op t) λ r. Safe-pure (again r))
        (Steps-stop (v, op))

  pub Eats-subexpr_over : (limit : ℕ) (t : Token) → Eats (suc n) t (subexpr_over point rec limit)
  unfolding subexpr_over
  Eats-subexpr_over limit t = Eats-deeper _ (
      Eats-first _ _ (Eats-at_token _ t λ t'. Eats-operand (get_unopr t') t')
        λ v. Safe-bind _ _ (Safe-reads _) λ op. Safe-iterate _ _ (Steps-operator limit))
