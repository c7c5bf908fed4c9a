-- ===== src/Parser/Scopes.antt =====
-- lparser.c: variables, blocks, `break`, and functions inside functions, as steps of the parser.
use luaxx.Base.{
  ℕ, List, [], ◌∷◌, ◌++◌, Option, none, some, Bool, false, ◌||◌, length, take, leb, if◌then◌else◌,
}
use luaxx.Opcodes.{max_arg_bx}
use luaxx.Chunk
use luaxx.Chunk.{Str, Proto, Protos, proto, done}
use luaxx.Code.State.{Jump, ExpDesc}
use luaxx.Code.Emit.{ret}
use luaxx.Scope.{
  Var, Level, Block, new_local_var, adjust_local_vars, remove_vars, enter_block, leave_block,
}
use luaxx.Parser.Sequences.{break_code, closure_code}
use luaxx.Parser.{
  Parser, Outcome, ok, fail, no_loop_to_break, too_many_functions, no_function, Parse, pure, throw,
  ◌>>=◌, ◌>>◌, at_level, update_level, see_level, emit,
}

unfoldable pub new_var : Str → ℕ → Parse (Unit {0})
new_var name n = at_level (new_local_var name n)

unfoldable pub adjust_vars : ℕ → Parse (Unit {0})
adjust_vars n = update_level (adjust_local_vars n)

-- The code between enterblock and leaveblock.
unfoldable pub in_block : {A : Type 0} → Bool → Parse A → Parse A
in_block isbreakable m = do
  update_level (enter_block isbreakable)
  a ← m
  at_level leave_block
  pure a

-- The innermost block that is breakable, and the `upval` of those inside it.
unfoldable pub find_loop : List Block → Bool → Option (Block × Bool)
find_loop [] upval = none
find_loop (bl ∷ bls) upval =
    let rest = find_loop bls (upval || bl.upval) in
    if bl.isbreakable then some (bl, upval) else rest

-- `bl->breaklist` of the innermost breakable block
unfoldable pub set_breaklist : Jump → List Block → List Block
set_breaklist l [] = []
set_breaklist l (bl ∷ bls) =
    let rest = set_breaklist l bls in
    if bl.isbreakable then record bl { breaklist = l } ∷ bls else bl ∷ rest

abbrev pub break_from : Option (Block × Bool) → Parse (Unit {0})
break_from none = throw no_loop_to_break
break_from (some (bl, upval)) = do
  l ← emit (break_code bl upval)
  update_level (λ fs. record fs { blocks = set_breaklist l fs.blocks })

unfoldable pub breakstat : Parse (Unit {0})
breakstat = do loop ← see_level (λ fs. find_loop fs.blocks false); break_from loop

-- The FuncState and the Proto of a new function.
abbrev pub new_level : ℕ → Level
new_level line = record {
  gen = record {
    code = [];
    lineinfo = [];
    k = [];
    maxstacksize = 2;
    h = [];
    lastline = 0;
    pc = 0;
    lasttarget = none;
    jpc = none;
    freereg = 0;
    nk = 0;
    nactvar = 0;
  };
  locvars = [];
  actvar = [];
  upvalues = [];
  names = [];
  blocks = [];
  protos = [];
  linedefined = line;
  lastlinedefined = 0;
  numparams = 0;
  is_vararg = 0;
}

unfoldable pub open_func : ℕ → Parse (Unit {0})
open_func line s = ok tt (record s { levels = new_level line ∷ s.levels })

abbrev proto_list : List Proto → Protos
proto_list [] = done
proto_list (f ∷ fs) = Chunk.next f (proto_list fs)

abbrev name_list : List Str → List (Option Str)
name_list [] = []
name_list (s ∷ ss) = some s ∷ name_list ss

-- The Proto of a level, its arrays cut to what is in use.
unfoldable pub finished : Str → Level → Proto
finished source fs =
    proto
      (record {
        source = some source;
        linedefined = fs.linedefined;
        lastlinedefined = fs.lastlinedefined;
        nups = length fs.names;
        numparams = fs.numparams;
        is_vararg = fs.is_vararg;
        maxstacksize = fs.gen.maxstacksize;
        code = take fs.gen.pc fs.gen.code;
        k = take fs.gen.nk fs.gen.k;
        lineinfo = take fs.gen.pc fs.gen.lineinfo;
        locvars = fs.locvars;
        upvalues = name_list fs.names;
      })
      (proto_list fs.protos)

abbrev pub pop : Parser → List Level → Outcome (Proto × List Var)
pop s [] = fail no_function
pop s (fs ∷ prev) = ok (finished s.source fs, fs.upvalues) (record s { levels = prev })

-- `ls->fs = fs->prev`: the Proto, and what its upvalues are
unfoldable pub pop_level : Parse (Proto × List Var)
pop_level s = pop s s.levels

unfoldable pub close_func : Parse (Proto × List Var)
close_func = do update_level (remove_vars 0); emit (ret 0 (some 0)); pop_level

-- The code between open_func and close_func.
unfoldable pub in_function : ℕ → Parse (Unit {0}) → Parse (Proto × List Var)
in_function line m = do open_func line; m; close_func

abbrev pub add_closure : Proto → List Var → ℕ → Parse ExpDesc
add_closure f vs n = if leb max_arg_bx n then throw too_many_functions else (do
  update_level (λ fs. record fs { protos = fs.protos ++ (f ∷ []) })
  emit (closure_code n vs))

unfoldable pub pushclosure : Proto × List Var → Parse ExpDesc
pushclosure (f, vs) = see_level (λ fs. length fs.protos) >>= add_closure f vs
