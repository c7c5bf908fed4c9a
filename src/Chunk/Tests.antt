-- ===== src/Chunk/Tests.antt =====
-- A small chunk: its bytes, and the theorems at it.
use luaxx.Base.{
  ℕ, ◌≡◌, refl, arith, Bool, true, false, List, [], ◌∷◌, ◌++◌, none, some, take, drop, zero, suc,
  append-nil, get_or, ap,
}
use luaxx.Zio.{Zio, read}
use luaxx.Zio.Read.{contents, read_full}
use luaxx.Chunk.{nil, boolean, number, string, Header, Proto, proto, done, next}
use luaxx.Chunk.Bytes.{le, word_bytes}
use luaxx.Chunk.Dump
use luaxx.Chunk.Dump.{DumpState, dump, dump_function}
use luaxx.Chunk.DumpLaws.{keep, dump-encoding}
use luaxx.Chunk.DumpFailure.{dump_function_failed}
use luaxx.Chunk.Encoding.{enc_chunk}
use luaxx.Chunk.Load.{Loaded, ok, undump, unknown_source, error, bad_header}
use luaxx.Chunk.BadInput.{undump_bad_header}
use luaxx.Chunk.LoadLaws.{Yields, yields}
use luaxx.Chunk.Accepted.{undump-IsAccepted}
use luaxx.Opcodes.{get_opcode, get_arg_a, get_arg_b, get_arg_c, get_arg_bx}
use luaxx.Opcodes.Modes.{get_op_mode, get_b_mode, get_c_mode, test_a_mode, test_t_mode}
use luaxx.Checker
use luaxx.Checker.{check_code}
use luaxx.Chunk.RoundTrip.{
  IsAccepted, reload, depth, IsDumpable, IsHeader, undump-dump, undump-dump_whole,
}

abbrev inner : Header
inner = record {
  source = some (64 ∷ 120 ∷ []);
  linedefined = 2;
  lastlinedefined = 3;
  nups = 1;
  numparams = 0;
  is_vararg = 0;
  maxstacksize = 2;
  code = 0x80001e ∷ [];
  k = [];
  lineinfo = 3 ∷ [];
  locvars = [];
  upvalues = some (117 ∷ []) ∷ [];
}

abbrev outer : Header
outer = record {
  source = some (64 ∷ 120 ∷ []);
  linedefined = 0;
  lastlinedefined = 0;
  nups = 0;
  numparams = 0;
  is_vararg = 2;
  maxstacksize = 2;
  code = 0x24 ∷ 0 ∷ 0x80001e ∷ [];
  k = nil ∷ boolean true ∷ number 0x3ff0000000000000 ∷ string (some (104 ∷ 105 ∷ [])) ∷ [];
  lineinfo = 1 ∷ 1 ∷ 4 ∷ [];
  locvars = record { varname = some (97 ∷ []); startpc = 1; endpc = 3 } ∷ [];
  upvalues = [];
}

abbrev sample : Proto
sample = proto outer (next (proto inner done) done)

abbrev accept : Proto → Bool
accept f = true

abbrev written : List ℕ
written = (dump keep false sample []).data_of

-- The chunk in two blocks, cut inside it, with one byte behind.
abbrev stream : Zio
stream = record { unread = take 20 written; blocks = (drop 20 written ++ (7 ∷ [])) ∷ [] }

stream-contents : contents stream ≡ written ++ (7 ∷ [])
unfolding dump Dump.dump_header Dump.dump_function Dump.dump_functions Dump.dump_start
    Dump.dump_constants Dump.dump_debug Dump.dump_string_list Dump.dump_locvar_list Dump.dump_locvar
    Dump.dump_constant_list Dump.dump_constant Dump.dump_string Dump.dump_vector Dump.dump_number
    Dump.dump_int Dump.dump_char Dump.dump_block le word_bytes
stream-contents = refl

inner-IsHeader : IsHeader inner
inner-IsHeader = record { start = omega arith; constants = omega arith; debug = omega arith }

outer-IsHeader : IsHeader outer
outer-IsHeader = record { start = omega arith; constants = omega arith; debug = omega arith }

sample-IsDumpable : IsDumpable sample
sample-IsDumpable = (outer-IsHeader, omega arith, ((inner-IsHeader, omega arith, tt), tt))

undump-dump_whole_example : Yields sample (7 ∷ []) (undump accept 3 stream)
unfolding depth
undump-dump_whole_example =
    undump-dump_whole accept sample 3 (7 ∷ []) stream (omega arith) sample-IsDumpable
      ((64 ∷ 120 ∷ [], refl), (((64 ∷ 120 ∷ [], refl), tt), tt)) (refl, ((refl, tt), tt))
      stream-contents

inner_checked : check_code (proto inner done) ≡ true
unfolding Checker.check_code Checker.symbexec Checker.precheck Checker.check_loop
    Checker.check_instruction Checker.checked_operands Checker.check_operands Checker.check_skip
    Checker.execute Checker.check_arg_mode get_opcode get_arg_a get_arg_b get_arg_c get_arg_bx
    get_op_mode get_b_mode get_c_mode test_a_mode test_t_mode
inner_checked = refl

sample_checked : check_code sample ≡ true
unfolding Checker.check_code Checker.symbexec Checker.precheck Checker.check_loop
    Checker.check_instruction Checker.checked_operands Checker.check_operands Checker.check_skip
    Checker.execute Checker.check_arg_mode Checker.check_closure Checker.check_pseudo get_opcode
    get_arg_a get_arg_b get_arg_c get_arg_bx get_op_mode get_b_mode get_c_mode test_a_mode
    test_t_mode
sample_checked = refl

sample_loaded : (z : Zio) × (undump check_code 3 stream ≡ ok sample z)
unfolding depth
sample_loaded = loaded (
    undump-dump_whole check_code sample 3 (7 ∷ []) stream (omega arith) sample-IsDumpable
      ((64 ∷ 120 ∷ [], refl), (((64 ∷ 120 ∷ [], refl), tt), tt))
      (sample_checked, ((inner_checked, tt), tt)) stream-contents)
  where
    loaded : {r : Loaded Proto} → Yields sample (7 ∷ []) r → (z : Zio) × (r ≡ ok sample z)
    loaded (yields {z} e) = (z, refl)

undump-IsAccepted_example : IsAccepted check_code sample
undump-IsAccepted_example =
    undump-IsAccepted check_code 3 stream sample sample_loaded.0 sample_loaded.1

-- The stripped chunk keeps no debug information and no source of its own.
abbrev stripped : List ℕ
stripped = (dump keep true sample []).data_of

undump-dump_example :
    Yields
      (reload true sample none (some unknown_source))
      []
      (undump accept 0 (record { unread = stripped ++ []; blocks = [] }))
unfolding depth reload
undump-dump_example =
    undump-dump accept true sample 0 [] (record { unread = stripped ++ []; blocks = [] })
      (omega arith) sample-IsDumpable (refl, ((refl, tt), tt)) (append-nil _)

dump-encoding_example :
    ((dump keep true sample (1 ∷ [])).status ≡ 0)
    × ((dump keep true sample (1 ∷ [])).data_of ++ (9 ∷ []) ≡ 1 ∷ enc_chunk true sample (9 ∷ []))
dump-encoding_example = dump-encoding true sample (1 ∷ []) (9 ∷ [])

-- A writer with room for `n` more blocks.
abbrev bounded : ℕ → List ℕ → ℕ × ℕ
bounded zero b = (1, 0)
bounded (suc n) b = (0, n)

abbrev full : DumpState ℕ
full = record { data_of = 0; status = 1 }

dump_function_failed_example : dump_function bounded false sample none full ≡ full
dump_function_failed_example =
    dump_function_failed bounded false sample none full (λ e. absurd (omega arith))

-- The four first blocks are written, the fifth fails, and no other is tried.
dump_stops : dump bounded false sample 4 ≡ record { data_of = 0; status = 1 }
unfolding dump Dump.dump_header Dump.dump_function Dump.dump_functions Dump.dump_start
    Dump.dump_constants Dump.dump_debug Dump.dump_string_list Dump.dump_locvar_list Dump.dump_locvar
    Dump.dump_constant_list Dump.dump_constant Dump.dump_string Dump.dump_vector Dump.dump_number
    Dump.dump_int Dump.dump_char Dump.dump_block le word_bytes
dump_stops = refl

abbrev blocks : Zio
blocks = record { unread = 1 ∷ []; blocks = (2 ∷ 3 ∷ []) ∷ (4 ∷ []) ∷ [] }

read_full_example :
    ((read blocks 2).missing ≡ 0)
    × ((read blocks 2).bytes ≡ 1 ∷ 2 ∷ [])
    × (contents (read blocks 2).stream ≡ 3 ∷ 4 ∷ [])
read_full_example = read_full blocks 2 (omega arith)

-- a header of another format version
abbrev foreign : Zio
foreign = record {
  unread = 27 ∷ 76 ∷ 117 ∷ 97 ∷ 0x52 ∷ 0 ∷ 1 ∷ 4 ∷ 8 ∷ 4 ∷ 8 ∷ 0 ∷ [];
  blocks = [];
}

undump_bad_header_example : undump accept 0 foreign ≡ error bad_header
undump_bad_header_example =
    undump_bad_header accept 0 foreign (omega arith) (λ e. omega (arith, ap (λ s. get_or s 4 0) e))
