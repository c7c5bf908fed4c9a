-- ===== src/Parser/Exprs/Constructors.antt =====
-- lparser.c: table constructors.
use luaxx.Base.{ℕ, ◌+◌, ◌==◌, ltb, if◌then◌else◌}
use luaxx.Object.{Strto}
use luaxx.Lexer.{Token, char, tk_name}
use luaxx.Code.State.{ExpDesc, v_void}
use luaxx.Code.Emit.{max_int}
use luaxx.Code.Expr.{exp_to_rk}
use luaxx.Code.Constants.{FloatOps}
use luaxx.Parser.{
  Parse, pure, throw, ◌>>=◌, ◌>>◌, line_number, at_token, Step, again, stop, iterate, emit,
  is_token, peek, test_next, check_next, check_match, checkname, too_many_items,
}
use luaxx.Parser.Sequences.{
  freereg, void_exp, record_field, new_table, close_list_field, last_list_field, table_sizes,
}
use luaxx.Parser.Exprs.Lists.{Ahead, yindex, expr}

pub record ConsControl : Type 0 where
  pub v : ExpDesc
  pub table : ℕ
  pub nh : ℕ
  pub na : ℕ
  pub tostore : ℕ

module _ ⦃fp : FloatOps⦄ ⦃lib : Strto⦄ (point : ℕ) (rec : Ahead) where
  -- the key of recfield
  abbrev pub key_at : ℕ → Token → Parse ExpDesc
  key_at nh (tk_name s) = if ltb max_int nh then throw too_many_items else checkname point
  key_at nh t = yindex point rec

  unfoldable pub recfield : ConsControl → Parse ConsControl
  recfield cc = do
    reg ← emit freereg
    key ← at_token (key_at cc.nh)
    check_next point (char b'=')
    (rk, _) ← emit (exp_to_rk key)
    val ← expr point rec
    emit (record_field cc.table rk val reg)
    pure (record cc { nh = cc.nh + 1 })

  unfoldable pub listfield : ConsControl → Parse ConsControl
  listfield cc = do
    v ← expr point rec
    if ltb max_int cc.na
        then throw too_many_items
        else pure (record cc { v = v; na = cc.na + 1; tostore = cc.tostore + 1 })

  abbrev pub item_at : ConsControl → Token → Parse ConsControl
  item_at cc (tk_name s) = do
    ahead ← peek point
    if is_token (char b'=') ahead then recfield cc else listfield cc
  item_at cc (char c) = if c == b'[' then recfield cc else listfield cc
  item_at cc t = listfield cc

  -- `testnext(ls, ',') || testnext(ls, ';')`
  abbrev pub separated : ConsControl → Parse (Step ConsControl ConsControl)
  separated cc = do
    comma ← test_next point (char b',')
    if comma then pure (again cc) else (do
      semicolon ← test_next point (char b';')
      if semicolon then pure (again cc) else pure (stop cc))

  abbrev pub next_item : ConsControl → Parse (Step ConsControl ConsControl)
  next_item cc = do
    tostore ← emit (close_list_field cc.table cc.v cc.na cc.tostore)
    cc' ← at_token (item_at (record cc { v = record cc.v { k = v_void }; tostore = tostore }))
    separated cc'

  abbrev pub item_step : ConsControl → Parse (Step ConsControl ConsControl)
  item_step cc = at_token λ t. if is_token (char b'}') t then pure (stop cc) else next_item cc

  unfoldable pub constructor : Parse ExpDesc
  constructor = do
    line ← line_number
    (pc, t) ← emit new_table
    check_next point (char b'{')
    cc ← iterate item_step (record { v = void_exp; table = t.info; nh = 0; na = 0; tostore = 0 })
    check_match point (char b'}') (char b'{') line
    na ← emit (last_list_field cc.table cc.v cc.na cc.tostore)
    emit (table_sizes pc na cc.nh)
    pure t
