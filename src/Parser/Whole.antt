-- ===== src/Parser/Whole.antt =====
-- lparser.c: the grammar's recursion, and luaY_parser.
use luaxx.Base.{ℕ, zero, suc, List, []}
use luaxx.Object.{Strto}
use luaxx.Chunk.{Str, Proto}
use luaxx.Lexer.{tk_eos, set_input}
use luaxx.Code.Constants.{FloatOps}
use luaxx.Parser.{
  Outcome, Parse, pure, throw, ◌>>=◌, ◌>>◌, endless, update_level, next, check, max_calls,
}
use luaxx.Parser.Scopes.{in_function}
use luaxx.Parser.Exprs.{Ahead, subexpr_over}
use luaxx.Parser.Statements.{chunk_over}

module _ ⦃fp : FloatOps⦄ ⦃lib : Strto⦄ (point : ℕ) where
  -- `subexpr` and `chunk`, `n` calls deep.
  unfoldable pub nested : ℕ → Ahead
  nested zero = record { subexpr = λ limit. throw endless; chunk = throw endless }
  nested (suc n) = record {
    subexpr = subexpr_over point (nested n);
    chunk = chunk_over point (nested n);
  }

  -- Both count themselves in `nCcalls`: as deep as LUAI_MAXCCALLS and one is enough.
  abbrev pub grammar : Ahead
  grammar = nested (suc max_calls)

  abbrev pub to_the_end : Parse (Unit {0})
  to_the_end = do update_level (λ fs. record fs { is_vararg = 2 }); next point; grammar.chunk

  abbrev pub main_text : Parse (Unit {0})
  main_text = do to_the_end; check point tk_eos

  abbrev pub whole : Parse Proto
  whole = do (f, _) ← in_function 0 main_text; pure f

  -- luaY_parser, on a thread that is `calls` C calls deep
  unfoldable pub parser : Str → List ℕ → ℕ → Outcome Proto
  parser name text calls =
      whole (record { ls = set_input text; levels = []; calls = calls; source = name })
