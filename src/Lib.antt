-- ===== src/Lib.antt =====
-- A model of luaxx, a Lua 5.1 interpreter: the scanner, the scopes of names, the code generator,
-- the way of a function to a precompiled chunk and back through the bytecode checker, and some of
-- the libraries beside it.
--
-- Parts, and the files that model them:
--   Opcodes   src/lopcodes.h, src/lopcodes.c: instruction words, the macros GET_OPCODE, SETARG_A
--             and their like (`get_opcode`, `set_arg_a`), RK operands, the table of modes.
--   Zio       src/lzio.c: buffered input. `Zio` has the unread bytes of the current block and the
--             blocks that the reader function will give; an empty block ends the stream.
--   Chunk     src/ldump.c (Chunk/Dump) and src/lundump.c (Chunk/Load): a function prototype,
--             `Proto` of src/lobject.h, written through a lua_Writer and read back from a `Zio`.
--             `dump_string` is DumpString, `load_string` LoadString, and so on. `undump` is
--             luaU_undump, with the bytecode checker luaG_checkcode as its argument `checks` and
--             the depth of C calls already made as `calls`.
--   Checker   src/ldebug.c: the bytecode checker. `symbexec` gives an instruction, fails, or reads
--             outside of an array, which is a result of its own; `check_code` is luaG_checkcode,
--             one of the functions that `undump` can take for `checks`.
--   Code      src/lcode.c, src/lcode.h and the types of src/lparser.h: the code generator.
--             `FuncState` has the fields that lcode.c uses of the FuncState and of its Proto. A
--             C function that changes the state is a command `Cmd`, which gives a result and a
--             new state or fails with one of the thrown errors; one that writes an expdesc gives
--             the new descriptor. luaK_exp2reg is `exp_to_reg`, fixjump is `fix_jump`. Jumps has
--             the lists of jumps, Emit the instructions and registers, Constants the constants,
--             Expr the expressions and Oper the operators.
--   Scope     src/lparser.c: local variables, upvalues and blocks. A `Level` is a FuncState with
--             what the parser keeps of it, and a list of levels is the chain of functions that are
--             being compiled; `single_var_aux` is singlevaraux.
--   Parser    src/lparser.c: the parser over Lexer, Code and Scope. `Parser` is LexState with the
--             chain of functions and nCcalls; a C function is a step `Parse` that gives a result
--             and a new state or fails with a `ParseError`. Sequences has what a rule makes the
--             generator write between two tokens, Scopes the blocks and functions, Exprs and
--             Statements the grammar, and Whole `parser`, which is luaY_parser. enterblock and
--             leaveblock, open_func and close_func, enterlevel and leavelevel stand around a
--             step, as `in_block`, `in_function` and `deeper`.
--   Lexer     src/llex.c, src/llex.h: the scanner. `LexState` has the character that is current
--             with the text behind it as `text`, which is empty at EOZ. A C function is a command
--             `Lex` that gives a result and a new state or fails with a `LexError`. Scan has the
--             numerals and strings, Lex the tokens: `lex` is llex, `next_token` luaX_next.
--   Object    src/lobject.c: floating point bytes (`int_to_fb` is luaO_int2fb, and `fb_to_int`
--             luaO_fb2int, with none where an int does not hold its result), the names of
--             chunks in messages, and `str_to_d`, which is luaO_str2d over strtod and strtoul.
--   Table     src/ltable.c: `compute_sizes` is computesizes, with its loop's locals as a record;
--             `get_n` is luaH_getn on a table whose values are nil or not (Border).
--   Strings   src/lstrlib.c: the functions on bytes by position, where a missing argument has its
--             default written out; the quoting of %q (Quote); pattern matching, with the items of
--             a pattern (Pattern), `match` with its captures as a list (Match), string.find,
--             string.match and the iterator of string.gmatch (Find), and string.gsub (Gsub).
--   Csv       src/lcsvlib.c: `convert_csv_line` and `parse_csv_line`, the latter for `cols` NULL, on
--             what a C string has of its bytes (`c_string`); a field that MAXFIELD does not hold is
--             a use of memory out of bounds.
--   Buffer    src/lauxlib.c, src/lauxlib.h: the string buffers. `Buffer` is luaL_Buffer with the
--             Lua stack that it works on; `add_lstring` is luaL_addlstring.
--   Concat    src/ltablib.c: table.concat (tconcat, addfield) over these buffers; of the table it
--             has the strings that rawgeti and lua_tolstring give at each index.
--   Base      numbers, tests, lists and the character classes of <ctype.h> in the C locale.
-- The generator writes words through Opcodes, a chunk has the generator's code and constants, and
-- lundump.c reads all of it through Zio and gives it to the checker. A level of Scope contains the
-- generator's state. The parser takes its tokens from Lexer, and what it compiles is a Proto of
-- Chunk.
--
-- An Instruction is a number below 2 ^ 32. A double is its bit pattern, and the operations of
-- luaconf.h on doubles are the interface `FloatOps`. The header of a chunk is that of a
-- little-endian build with 4-byte int and Instruction and 8-byte size_t and double.
--
-- Loops: a loop along a list of jumps has as fuel the length of the code and one, which is enough
-- for a list without repetition; a read has as fuel the number of bytes that it wants; a load has
-- the depth of calls that LUAI_MAXCCALLS leaves, as the C code has. A use of the code array out of
-- bounds, and a list of jumps that does not end, are failures of the model's own, which a statement
-- counts as no error of the program. Reading a CSV line has
-- as fuel its length and one, as every field but the last takes a byte. A loop of the scanner has
-- as fuel the length of the text and one, as every round takes a character. Matching a pattern has
-- the pattern's length and one, as every call of `match` is at a shorter pattern; its loops over
-- the subject have the bytes that are left, and string.gsub has the subject's length and one. The
-- checker's loop has `lastpc` rounds. The searches of luaH_getn have a number that no key with a
-- value exceeds, and a binary search the larger of its ends and one. A loop of the grammar has the
-- tokens that may be left and one, as every round takes a token, and the grammar's recursion
-- LUAI_MAXCCALLS and one, as every call of subexpr or chunk is counted in nCcalls.
--
-- Not modelled: the rest of ldebug.c, the virtual machine, the garbage
-- collector, the rest of the tables, the C API, string.format but for %q, the texts of error
-- messages, and the bindings to other libraries.
pub mod Base
pub mod Opcodes
pub mod Zio
pub mod Chunk
pub mod Checker
pub mod Code
pub mod Concat
pub mod Scope
pub mod Parser
pub mod Buffer
pub mod Object
pub mod Csv
pub mod Strings
pub mod Table
pub mod Lexer
