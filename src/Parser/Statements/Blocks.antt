-- ===== src/Parser/Statements/Blocks.antt =====
-- lparser.c: blocks and conditions.
use luaxx.Base.{ℕ, Bool, true, false}
use luaxx.Object.{Strto}
use luaxx.Lexer.{Token, tk_else, tk_elseif, tk_end, tk_until, tk_eos}
use luaxx.Code.State.{Jump}
use luaxx.Code.Constants.{FloatOps}
use luaxx.Parser.{Parse, ◌>>=◌, emit}
use luaxx.Parser.Sequences.{condition}
use luaxx.Parser.Scopes.{in_block}
use luaxx.Parser.Exprs.{Ahead, expr}

unfoldable pub block_follow : Token → Bool
block_follow tk_else = true
block_follow tk_elseif = true
block_follow tk_end = true
block_follow tk_until = true
block_follow tk_eos = true
block_follow t = false

module _ ⦃fp : FloatOps⦄ ⦃lib : Strto⦄ (point : ℕ) (rec : Ahead) where
  unfoldable pub block : Parse (Unit {0})
  block = in_block false rec.chunk

  unfoldable pub cond : Parse Jump
  cond = do e ← expr point rec; emit (condition e)
