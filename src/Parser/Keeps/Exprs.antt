-- ===== src/Parser/Keeps/Exprs.antt =====
-- The grammar of expressions, over functions declared ahead that keep what it keeps.
use luaxx.Base.{ℕ, refl, Bool, true, false, if◌then◌else◌}
use luaxx.Object.{Strto}
use luaxx.Lexer.{Token, char, tk_name, tk_string}
use luaxx.Code.State.{ExpDesc}
use luaxx.Code.Constants.{FloatOps}
use luaxx.Parser.{
  Parse, weight, Step, checkname, singlevar, too_many_items, ambiguous_call, arguments_expected,
  unexpected_symbol,
}
use luaxx.Parser.Exprs
use luaxx.Parser.Exprs.{
  Ahead, ConsControl, expr, field, yindex, explist1, recfield, listfield, constructor, funcargs,
  prefixexp, primaryexp, parlist, body, simpleexp, subexpr_over, binds, get_unopr,
}
use luaxx.Parser.Keeps.{
  is_grammars, Safe, Still, Eats, Safe-pure, Safe-throw, Safe-reads, Still-reads, Safe-if,
  Safe-Still, Safe-Eats, Safe-at_token, Eats-at_token, Eats-throw, Eats-if, Safe-check_condition,
  Still-check_condition, Safe-bind, Eats-first, Eats-behind, Eats-late,
}
use luaxx.Parser.Keeps.Loops.{
  Steps, StepsAt, Steps-stop, StepsAt-Steps, StepsAt-Eats, Steps-at_token, Steps-if, Steps-bind,
  Safe-iterate,
}
use luaxx.Parser.Keeps.Scanner.{
  IsMore, IsMore-char, IsMark, IsMark-char, Safe-next, Eats-next, Safe-peek, Safe-test_next,
  Safe-check_next, Safe-check_match, Eats-check_next, Eats-str_checkname, Safe-str_checkname,
  Steps-test_next,
}
use luaxx.Parser.Keeps.Levels.{
  Still-emit, Safe-emit, Still-see_level, Safe-see_level, Still-update_level, Safe-new_var,
  Safe-adjust_vars,
}
use luaxx.Parser.Keeps.Names.{Still-codestring, Safe-codestring, Safe-name_var}
use luaxx.Parser.Keeps.Functions.{Safe-in_function, Safe-pushclosure}

pub ruleset safe_rules = (
  Safe-pure, Safe-bind, Safe-if, Safe-reads, Safe-emit, Safe-see_level, Safe-next, Safe-peek,
  Safe-test_next, Safe-check_next, Safe-check_match, Safe-str_checkname, Safe-codestring,
  Safe-name_var, Safe-new_var, Safe-adjust_vars, Safe-pushclosure,
)

-- what the functions declared ahead are to keep
pub record Keeps (n : ℕ) (rec : Ahead) : Type 0 where
  pub subexpr : (limit : ℕ) (t : Token) → Eats n t (rec.subexpr limit)
  pub chunk : Safe n rec.chunk

module _ ⦃fp : FloatOps⦄ ⦃lib : Strto⦄ (point : ℕ) {n : ℕ} (rec : Ahead) (ahead : Keeps n rec) where
  Safe-subexpr : (limit : ℕ) → Safe n (rec.subexpr limit)
  Safe-subexpr limit = Safe-Eats _ (ahead.subexpr limit)

  pub Safe-checkname : Safe n (checkname point)
  unfolding checkname
  Safe-checkname = search safe_rules

  pub Safe-expr : Safe n (expr point rec)
  unfolding expr
  Safe-expr = search (safe_rules, Safe-subexpr)

  pub Safe-field : (v : ExpDesc) → Safe n (field point rec v)
  unfolding field
  Safe-field v = search (safe_rules, Safe-checkname)

  pub Eats-field : (t : Token) (v : ExpDesc) → IsMore t → Eats n t (field point rec v)
  unfolding field
  Eats-field t v more =
      Eats-behind _ _ (Still-emit _)
        λ v'. Eats-first _ _ (Eats-next point t more) λ _. search (safe_rules, Safe-checkname)

  Eats-yindex : (t : Token) → IsMore t → Eats n t (yindex point rec)
  unfolding yindex
  Eats-yindex t more = Eats-first _ _ (Eats-next point t more) λ _. search (safe_rules, Safe-expr)

  Safe-yindex : Safe n (yindex point rec)
  unfolding yindex
  Safe-yindex = search (safe_rules, Safe-expr)

  pub comma : IsMark (char b',')
  comma = IsMark-char b',' refl

  semicolon : IsMark (char b';')
  semicolon = IsMark-char b';' refl

  pub Safe-explist1 : Safe n (explist1 point rec)
  unfolding explist1
  Safe-explist1 = Safe-bind _ _ Safe-expr λ e. Safe-iterate _ _ λ x.
      Steps-test_next point (char b',') _ _ comma (search (safe_rules, Safe-expr)) (Steps-stop _)

  Safe-key_at : (nh : ℕ) (t : Token) → Safe n (Exprs.key_at point rec nh t)
  unfolding is_grammars
  Safe-key_at nh (tk_name s) = Safe-if _ _ _ (Safe-throw too_many_items refl) Safe-checkname
  Safe-key_at nh _ = Safe-yindex

  Safe-recfield : (cc : ConsControl) → Safe n (recfield point rec cc)
  unfolding recfield
  Safe-recfield cc = search (safe_rules, Safe-expr, Safe-at_token, Safe-key_at) depth 12

  Safe-listfield : (cc : ConsControl) → Safe n (listfield point rec cc)
  unfolding listfield is_grammars
  Safe-listfield cc =
      Safe-bind _ _ Safe-expr λ v. Safe-if _ _ _ (Safe-throw too_many_items refl) (Safe-pure _)

  Safe-item_at : (cc : ConsControl) (t : Token) → Safe n (Exprs.item_at point rec cc t)
  Safe-item_at cc (tk_name s) = search (safe_rules, Safe-recfield, Safe-listfield)
  Safe-item_at cc (char c) = search (safe_rules, Safe-recfield, Safe-listfield)
  Safe-item_at cc _ = Safe-listfield cc

  Steps-separated : (cc : ConsControl) → Steps n (Exprs.separated point rec cc)
  Steps-separated cc =
      Steps-test_next point (char b',') _ _ comma (Safe-pure _)
        (Steps-test_next point (char b';') _ _ semicolon (Safe-pure _) (Steps-stop _))

  Steps-item : (cc : ConsControl) → Steps n (Exprs.item_step point rec cc)
  Steps-item cc = Steps-at_token _ λ t. StepsAt-Steps _ (
      Steps-if _ _ _ (Steps-stop _) (
        Steps-bind _ _ (Safe-emit _)
          λ tostore. Steps-bind _ _ (Safe-at_token _ (Safe-item_at _)) Steps-separated))

  pub Eats-constructor : (t : Token) → Eats n t (constructor point rec)
  unfolding constructor
  Eats-constructor t = Eats-behind _ _ (Still-reads _) λ line.
      Eats-behind _ _ (Still-emit _) λ place.
        Eats-first _ _ (Eats-check_next point (char b'{') t (IsMark-char b'{' refl))
          λ _. Safe-bind _ _ (Safe-iterate _ _ Steps-item) λ cc. search safe_rules

  Safe-constructor : Safe n (constructor point rec)
  Safe-constructor = Safe-Eats _ Eats-constructor

  Eats-paren_args : (line c : ℕ) → Eats n (char c) (Exprs.paren_args point rec line)
  unfolding is_grammars
  Eats-paren_args line c = Eats-behind _ _ (Still-reads _) λ last.
      Eats-behind _ _ (Still-check_condition _ ambiguous_call refl) λ _.
        Eats-first _ _ (Eats-next point (char c) (IsMore-char c))
          λ _. search (safe_rules, Safe-at_token, Safe-explist1) depth 12

  Eats-args_at : (line : ℕ) (t : Token) → Eats n t (Exprs.args_at point rec line t)
  unfolding is_grammars weight
  Eats-args_at line (tk_string s) =
      Eats-behind _ _ (Still-codestring s)
        λ e. Eats-first _ _ (Eats-next point (tk_string s) refl) λ _. Safe-pure _
  Eats-args_at line (char c) =
      Eats-if _ _ _ _ (Eats-paren_args line c)
        (Eats-if _ _ _ _ (Eats-constructor (char c)) (Eats-throw arguments_expected (char c) refl))
  Eats-args_at line t = Eats-throw arguments_expected t refl

  -- The arguments of a call are at least one token.
  Eats-funcargs : (t : Token) (f : ExpDesc) → Eats n t (funcargs point rec f)
  unfolding funcargs
  Eats-funcargs t f =
      Eats-behind _ _ (Still-reads _)
        λ line. Eats-first _ _ (Eats-at_token _ t (Eats-args_at line)) λ args. Safe-emit _

  Safe-funcargs : (f : ExpDesc) → Safe n (funcargs point rec f)
  Safe-funcargs f = Safe-Eats _ λ t. Eats-funcargs t f

  Eats-prefix_at : (t : Token) → Eats n t (Exprs.prefix_at point rec t)
  unfolding is_grammars singlevar
  Eats-prefix_at (tk_name s) =
      Eats-first _ _ (Eats-str_checkname point (tk_name s)) λ name. Safe-name_var name
  Eats-prefix_at (char c) =
      Eats-if _ _ _ _
        (Eats-behind _ _ (Still-reads _) λ line.
          Eats-first _ _ (Eats-next point (char c) (IsMore-char c))
            λ _. search (safe_rules, Safe-expr) depth 8)
        (Eats-throw unexpected_symbol (char c) refl)
  Eats-prefix_at t = Eats-throw unexpected_symbol t refl

  Eats-prefixexp : (t : Token) → Eats n t (prefixexp point rec)
  unfolding prefixexp
  Eats-prefixexp t = Eats-at_token _ t Eats-prefix_at

  Eats-go_on : (t : Token) (m : Parse ExpDesc) → Eats n t m → Eats n t (Exprs.go_on point rec m)
  Eats-go_on t m h = Eats-first _ _ h λ e. Safe-pure _

  -- behind a step that takes no token
  Eats-call_suffix : (t : Token) (v : ExpDesc) → Eats n t (Exprs.call_suffix point rec v)
  Eats-call_suffix t v = Eats-behind _ _ (Still-emit _) λ f. Eats-funcargs t f

  StepsAt-go_on :
      (t : Token) (m : Parse ExpDesc) → Eats n t m → StepsAt n t (Exprs.go_on point rec m)
  StepsAt-go_on t m h = StepsAt-Eats _ (Eats-go_on t m h)

  StepsAt-if :
      (t : Token) (b : Bool) (x y : Parse (Step ExpDesc ExpDesc))
      → StepsAt n t x
      → StepsAt n t y
      → StepsAt n t (if b then x else y)
  StepsAt-if t true x y hx hy = hx
  StepsAt-if t false x y hx hy = hy

  Eats-index_suffix : (c : ℕ) (v : ExpDesc) → Eats n (char c) (Exprs.index_suffix point rec v)
  Eats-index_suffix c v =
      Eats-behind _ _ (Still-emit _)
        λ v'. Eats-first _ _ (Eats-yindex (char c) (IsMore-char c)) λ key. Safe-emit _

  Eats-method_suffix : (c : ℕ) (v : ExpDesc) → Eats n (char c) (Exprs.method_suffix point rec v)
  Eats-method_suffix c v =
      Eats-first _ _ (Eats-next point (char c) (IsMore-char c))
        λ _. search (safe_rules, Safe-checkname, Safe-funcargs)

  StepsAt-suffix : (v : ExpDesc) (t : Token) → StepsAt n t (Exprs.suffix_at point rec v t)
  StepsAt-suffix v (tk_string s) = StepsAt-go_on _ _ (Eats-call_suffix (tk_string s) v)
  StepsAt-suffix v (char c) =
      StepsAt-if _ _ _ _ (StepsAt-go_on _ _ (Eats-field (char c) v (IsMore-char c))) (
        StepsAt-if _ _ _ _ (StepsAt-go_on _ _ (Eats-index_suffix c v)) (
          StepsAt-if _ _ _ _ (StepsAt-go_on _ _ (Eats-method_suffix c v)) (
            StepsAt-if _ _ _ _ (StepsAt-go_on _ _ (Eats-call_suffix (char c) v))
              (StepsAt-Steps _ (Steps-stop v)))))
  StepsAt-suffix v t = StepsAt-Steps _ (Steps-stop v)

  pub Eats-primaryexp : (t : Token) → Eats n t (primaryexp point rec)
  unfolding primaryexp
  Eats-primaryexp t =
      Eats-first _ _ (Eats-prefixexp t)
        λ v. Safe-iterate _ _ λ e. Steps-at_token _ (StepsAt-suffix e)
