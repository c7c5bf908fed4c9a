-- ===== src/Code/Jumps/Concat.antt =====
-- `luaK_concat` on two lists of jumps.
use mathlib.Core.Path.{subst}
use luaxx.Base.{
  ℕ, zero, suc, ◌<◌, ◌≤◌, ◌≡◌, ◌≢◌, refl, sym, ◌∙◌, List, [], ◌∷◌, ◌++◌, none, some, length, set,
  get_elem?-set_self, get_elem?-set_ne, lt_of_get_elem?, abs, arith,
}
use luaxx.Base.Distinct.{NotIn, Distinct}
use luaxx.Opcodes.{Instruction, set_arg_sbx, max_arg_sbx}
use luaxx.Opcodes.Fields.{set_arg_sbx-fields}
use luaxx.Code.State.{Jump, FuncState, ok}
use luaxx.Code.Jumps.{fuel, offset_to, last_of, concat}
use luaxx.Code.Jumps.Chain.{Node, Chain, end, link, get_jump-ok, fix_jump-ok}
use luaxx.Code.Jumps.Patch.{length-Chain-le}

abbrev pub last : ℕ → List ℕ → ℕ
last p [] = p
last p (q ∷ js) = last q js

last_of-last :
    (n : ℕ) (fs : FuncState) (p : ℕ) (js : List ℕ) {next : Jump}
    → Node fs.code p next
    → Chain fs.code next js
    → length js < n
    → last_of n p fs ≡ ok (last p js) fs
unfolding last_of
last_of-last zero fs p js m c h = absurd (omega arith)
last_of-last (suc n) fs p [] m end h = rw (get_jump-ok {fs = fs} m)
last_of-last (suc n) fs p (q ∷ js) m (link m' c) h =
    rw (get_jump-ok {fs = fs} m) (last_of-last n fs q js m' c (omega arith))

last-Node :
    {code : List Instruction} (p : ℕ) (js : List ℕ) {next : Jump}
    → Node code p next
    → Chain code next js
    → Node code (last p js) none
last-Node p [] m end = m
last-Node p (q ∷ js) m (link m' c) = last-Node q js m' c

NotIn-append : (p : ℕ) (xs ys : List ℕ) → NotIn p (xs ++ ys) → NotIn p xs × NotIn p ys
NotIn-append p [] ys h = (tt, h)
NotIn-append p (x ∷ xs) ys (h, hs) = let (a, b) = NotIn-append p xs ys hs in ((h, a), b)

ne-last : (p q : ℕ) (js : List ℕ) → NotIn p (q ∷ js) → p ≢ last q js
ne-last p q [] (h, hs) = h
ne-last p q (r ∷ js) (h, hs) = ne-last p r js hs

last-NotIn : (p : ℕ) (js ys : List ℕ) → Distinct (p ∷ (js ++ ys)) → NotIn (last p js) ys
last-NotIn p [] ys (h, hs) = h
last-NotIn p (q ∷ js) ys (h, hs) = last-NotIn q js ys hs

Distinct-left : (xs ys : List ℕ) → Distinct (xs ++ ys) → Distinct xs
Distinct-left [] ys d = tt
Distinct-left (x ∷ xs) ys (h, d) = ((NotIn-append x xs ys h).0, Distinct-left xs ys d)

module _ (code : List Instruction) (z l2 : ℕ) (m : Node code z none)
    (reach : abs (offset_to (some l2) z) ≤ max_arg_sbx) where
  abbrev joined : List Instruction
  joined = set code z (set_arg_sbx m.i (offset_to (some l2) z))

  frame-Node : {p : ℕ} {next : Jump} → p ≢ z → Node code p next → Node joined p next
  frame-Node {p} ne n = record {
    i = n.i;
    at = get_elem?-set_ne code z p _ (λ e. ne (sym e)) ∙ n.at;
    word = n.word;
    jumps = n.jumps;
    leads = n.leads;
  }

  frame-Chain : {l : Jump} {js : List ℕ} → Chain code l js → NotIn z js → Chain joined l js
  frame-Chain end h = end
  frame-Chain (link n c) (h, hs) = link (frame-Node (λ e. h (sym e)) n) (frame-Chain c hs)

  joined-Node : l2 ≢ z → Node joined z (some l2)
  joined-Node ne =
      let fields = set_arg_sbx-fields m.i (offset_to (some l2) z) m.word reach in
      record {
        i = set_arg_sbx m.i (offset_to (some l2) z);
        at = get_elem?-set_self code z _ (lt_of_get_elem? code z m.at);
        word = fields.0;
        jumps = λ e. m.jumps (sym fields.2 ∙ e);
        leads = (fields.1, ne);
      }

  splice :
      (p : ℕ) (js js2 : List ℕ) {next : Jump}
      → Node code p next
      → Chain code next js
      → Chain code (some l2) (l2 ∷ js2)
      → Distinct (p ∷ (js ++ (l2 ∷ js2)))
      → z ≡ last p js
      → Chain joined (some p) (p ∷ (js ++ (l2 ∷ js2)))
  splice p [] js2 n end c2 (h, d) e =
      let out : NotIn z (l2 ∷ js2) = subst (λ w. NotIn w (l2 ∷ js2)) (sym e) h in
      subst (λ w. Chain joined (some w) (w ∷ (l2 ∷ js2))) e
        (link (joined-Node (λ x. out.0 (sym x))) (frame-Chain c2 out))
  splice p (q ∷ js) js2 n (link n' c) c2 (h, d) e =
      let ne = ne-last p q js (NotIn-append p (q ∷ js) (l2 ∷ js2) h).0 in
      link (frame-Node (λ x. ne (x ∙ e)) n) (splice q js js2 n' c c2 d e)

uncons :
    {code : List Instruction} {l : Jump} {q : ℕ} {js : List ℕ}
    → Chain code l (q ∷ js)
    → (next : Jump) × Node code q next × Chain code next js
uncons (link {next} m c) = (next, m, c)

-- Joining two lists of jumps with no jump in common, where the head of the second is in reach of
-- the last jump of the first, ends without error. The result starts at the first list's head and
-- has the first list's jumps and then the second's; only the first list's last jump is written.
pub concat-Chain :
    (fs : FuncState) (l1 l2 : ℕ) (js1 js2 : List ℕ)
    → Chain fs.code (some l1) (l1 ∷ js1)
    → Chain fs.code (some l2) (l2 ∷ js2)
    → Distinct (l1 ∷ (js1 ++ (l2 ∷ js2)))
    → abs (offset_to (some l2) (last l1 js1)) ≤ max_arg_sbx
    → (i : Instruction) × (concat (some l1) (some l2) fs
        ≡ ok (some l1) (record fs { code = set fs.code (last l1 js1) i }))
      × Chain (set fs.code (last l1 js1) i) (some l1) (l1 ∷ (js1 ++ (l2 ∷ js2)))
unfolding concat
concat-Chain fs l1 l2 js1 js2 c1 c2 d reach =
    let (next, n, c) = uncons c1 in
    let m = last-Node l1 js1 n c in
    let short = length-Chain-le fs.code c1 (Distinct-left (l1 ∷ js1) (l2 ∷ js2) d) in
    (
      set_arg_sbx m.i (offset_to (some l2) (last l1 js1)),
      rw (
        last_of-last (fuel fs) fs l1 js1 n c (omega arith),
        fix_jump-ok (last l1 js1) (some l2) fs m.at reach,
      ),
      splice fs.code (last l1 js1) l2 m reach l1 js1 js2 n c c2 d refl,
    )
