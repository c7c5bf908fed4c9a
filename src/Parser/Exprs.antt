-- ===== src/Parser/Exprs.antt =====
-- lparser.c: the grammar of expressions. Its recursion goes through `expr` and `chunk`, which the
-- source declares ahead: they are the argument `rec`.
mod Operators
mod Lists
mod Constructors
mod Calls
mod Functions
mod Operands
unfoldable pub use Operators.{get_unopr, get_binopr, left_priority, right_priority, binds}
pub use Operators.{unary_priority}
unfoldable pub use Lists.{expr, field, yindex, explist1}
pub use Lists.{Ahead, list_step}
unfoldable pub use Constructors.{recfield, listfield, constructor}
pub use Constructors.{ConsControl, key_at, item_at, separated, next_item, item_step}
unfoldable pub use Calls.{funcargs, prefixexp, primaryexp}
pub use Calls.{
  paren_args, args_at, in_parens, prefix_at, index_suffix, method_suffix, call_suffix, go_on,
  suffix_at,
}
unfoldable pub use Functions.{parlist, body}
pub use Functions.{dots_param, name_param, param_at, params, self_param, function_text}
unfoldable pub use Operands.{simpleexp, subexpr_over}
pub use Operands.{
  literal, dots_exp, simple_at, unary, operand, combine, binary, operator_step, operators,
}
