-- ===== src/Parser/Exprs/Operators.antt =====
-- lparser.c: the operators and their priorities.
use luaxx.Base.{ℕ, ◌==◌, Bool, false, ltb, if◌then◌else◌}
use luaxx.Lexer.{Token, char, tk_and, tk_not, tk_or, tk_concat, tk_eq, tk_ge, tk_le, tk_ne}
use luaxx.Code.Oper.{
  BinOpr, opr_add, opr_sub, opr_mul, opr_div, opr_mod, opr_pow, opr_concat, opr_ne, opr_eq, opr_lt,
  opr_le, opr_gt, opr_ge, opr_and, opr_or, opr_nobinopr, UnOpr, opr_minus, opr_not, opr_len,
  opr_nounopr,
}

-- getunopr
unfoldable pub get_unopr : Token → UnOpr
get_unopr tk_not = opr_not
get_unopr (char c) = if c == b'-' then opr_minus else (if c == b'#' then opr_len else opr_nounopr)
get_unopr t = opr_nounopr

-- getbinopr, on a character
abbrev char_binopr : ℕ → BinOpr
char_binopr c =
    if c == b'+'
    then opr_add
    else (if c == b'-'
        then opr_sub
        else (if c == b'*'
            then opr_mul
            else (if c == b'/'
                then opr_div
                else (if c == b'%'
                    then opr_mod
                    else (if c == b'^'
                        then opr_pow
                        else (if c == b'<'
                            then opr_lt
                            else (if c == b'>' then opr_gt else opr_nobinopr)))))))

unfoldable pub get_binopr : Token → BinOpr
get_binopr (char c) = char_binopr c
get_binopr tk_concat = opr_concat
get_binopr tk_ne = opr_ne
get_binopr tk_eq = opr_eq
get_binopr tk_le = opr_le
get_binopr tk_ge = opr_ge
get_binopr tk_and = opr_and
get_binopr tk_or = opr_or
get_binopr t = opr_nobinopr

-- `priority[op].left`; there is no entry for OPR_NOBINOPR, and none is asked for
unfoldable pub left_priority : BinOpr → ℕ
left_priority op = elim op [
  | opr_add ↦ 6
  | opr_sub ↦ 6
  | opr_mul ↦ 7
  | opr_div ↦ 7
  | opr_mod ↦ 7
  | opr_pow ↦ 10
  | opr_concat ↦ 5
  | opr_and ↦ 2
  | opr_or ↦ 1
  | opr_nobinopr ↦ 0
  | _ ↦ 3
]

unfoldable pub right_priority : BinOpr → ℕ
right_priority op = elim op [
  | opr_add ↦ 6
  | opr_sub ↦ 6
  | opr_mul ↦ 7
  | opr_div ↦ 7
  | opr_mod ↦ 7
  | opr_pow ↦ 9
  | opr_concat ↦ 4
  | opr_and ↦ 2
  | opr_or ↦ 1
  | opr_nobinopr ↦ 0
  | _ ↦ 3
]

abbrev pub unary_priority : ℕ
unary_priority = 8

-- `op != OPR_NOBINOPR && priority[op].left > limit`
unfoldable pub binds : ℕ → BinOpr → Bool
binds limit op = elim op [ opr_nobinopr ↦ false | other ↦ ltb limit (left_priority other) ]
