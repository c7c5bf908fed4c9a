-- ===== src/Parser/Statements.antt =====
-- lparser.c: the grammar of statements.
mod Blocks
mod Assignments
mod Loops
mod Branches
mod Declarations
mod Chunks
unfoldable pub use Blocks.{block_follow, block, cond}
unfoldable pub use Assignments.{assignment, exprstat}
pub use Assignments.{is_variable, is_local, seen, one_more, assignment_step}
unfoldable pub use Loops.{whilestat, repeatstat, exp1, forbody, fornum, forlist, forstat}
pub use Loops.{scope_has_upval, repeat_end, repeat_scope, for_step, name_step, for_at}
unfoldable pub use Branches.{test_then_block, ifstat}
pub use Branches.{elseif_part, elseif_step, else_part}
unfoldable pub use Declarations.{localfunc, localstat, funcname, funcstat}
pub use Declarations.{begin_here, local_step, initial, field_step}
unfoldable pub use Chunks.{retstat, statement, chunk_over}
pub use Chunks.{
  free_registers, returned, do_stat, local_stat, continues, ends, break_stat, statement_at,
  one_statement, chunk_step,
}
