-- ===== src/Object/FloatByte.antt =====
-- `luaO_int2fb` and `luaO_fb2int`.
use luaxx.Base.{
  ℕ, zero, suc, ◌+◌, ◌-◌, ◌*◌, ◌/◌, ◌%◌, ◌^◌, ◌≤◌, ◌<◌, ◌≡◌, refl, sym, ap, ◌∙◌, Option, some, true,
  false, ltb, leb, ◌==◌, arith, Bool-cases, inl, inr,
}
use luaxx.Object.{halve, pack, int_to_fb, fb_to_int}
use native.Mathlib.Nat.{pow-succ'}

-- `r` is what the loop leaves of `x` after `d` rounds, and `v` the number that it stands for.
record Halved (x e b : ℕ) (r : ℕ × ℕ) : Type 0 where
  d : ℕ
  p : ℕ
  v : ℕ
  power : p ≡ 2 ^ d
  value : v ≡ r.1 * p
  count : r.0 ≡ e + d
  few : d ≤ b
  low : 8 ≤ r.1
  high : r.1 < 16
  above : x ≤ v
  below : v < x + p
  large : 8 * p ≤ v
  int : v ≤ 15 * 2 ^ b

-- One more round before those of half as much.
Halved-suc :
    (x e b : ℕ) (r : ℕ × ℕ)
    → x ≤ 2 ^ 31
    → Halved ((x + 1) % 2 ^ 32 / 2) (e + 1) b r
    → Halved x e (suc b) r
Halved-suc x e b r w h = record {
  d = suc h.d;
  p = 2 * h.p;
  v = 2 * h.v;
  power = rw h.power (omega (arith, pow-succ' 2 h.d));
  value = rw h.value (omega arith);
  count = omega (arith, h.count);
  few = omega (arith, h.few);
  low = h.low;
  high = h.high;
  above = omega (arith, h.above);
  below = omega (arith, h.below);
  large = omega (arith, h.large);
  int = omega (arith, h.int, pow-succ' 2 b);
}

unhalved : (x e b : ℕ) → 8 ≤ x → x < 16 → x ≤ 15 * 2 ^ b → Halved x e b (e, x)
unhalved x e b l u i = record {
  d = 0;
  p = 1;
  v = x;
  power = refl;
  value = omega arith;
  count = omega arith;
  few = omega arith;
  low = l;
  high = u;
  above = omega arith;
  below = omega arith;
  large = omega arith;
  int = i;
}

halve_small : (n e x : ℕ) → x < 16 → halve n e x ≡ (e, x)
unfolding halve
halve_small zero e x h = refl
halve_small (suc n) e x h = let q : leb 16 x ≡ false = ground arith in rw q

halve-Halved :
    (n e x b : ℕ) → x ≤ n → 8 ≤ x → x ≤ 15 * 2 ^ b → x ≤ 2 ^ 31 → Halved x e b (halve n e x)
unfolding halve
halve-Halved n e x zero h l u w =
    rw (halve_small n e x (omega arith)) (unhalved x e zero l (omega arith) u)
halve-Halved zero e x (suc b) h l u w = absurd (omega arith)
halve-Halved (suc n) e x (suc b) h l u w = elim (Bool-cases (leb 16 x)) [
  | inr small ↦ rw small (unhalved x e (suc b) l (ground arith) u)
  | inl big ↦ rw big (
      Halved-suc x e b _ w (
        halve-Halved n (e + 1) ((x + 1) % 2 ^ 32 / 2) b (ground arith) (ground arith)
          (omega (arith, pow-succ' 2 b)) (ground arith)))
]

-- The number that a pair stands for, with a byte's five bits of exponent.
fb-pack :
    (e y : ℕ)
    → e ≤ 28
    → 8 ≤ y
    → y < 16
    → y * 2 ^ e < 2 ^ 31
    → fb_to_int (pack (e, y)) ≡ some (y * 2 ^ e)
unfolding fb_to_int
fb-pack e y h l u i =
    let e1 : ltb y 8 ≡ false = ground arith in
    let e2 : ((e + 1) * 8 + (y - 8)) / 8 % 32 ≡ suc e = omega arith in
    let e3 : ((e + 1) * 8 + (y - 8)) % 8 + 8 ≡ y = omega arith in
    let e4 : (suc e == 0) ≡ false = ground arith in
    let e5 : suc e - 1 ≡ e = omega arith in
    let e6 : ltb (y * 2 ^ e) (2 ^ 31) ≡ true = ground arith in rw (e1, e2, e3, e4, e5, e6)

-- A number that is not below `x`, nor larger by more than a seventh.
abbrev pub IsClose : ℕ → Option ℕ → Type 0
IsClose x o = (r : ℕ) × (o ≡ some r) × (x ≤ r) × (7 * r ≤ 8 * x)

fb-Halved : (x : ℕ) (r : ℕ × ℕ) → Halved x 0 27 r → IsClose x (fb_to_int (pack r))
fb-Halved x (e, y) h =
    let same : e ≡ h.d = omega (arith, h.count) in
    let q : h.v ≡ y * 2 ^ e = h.value ∙ rw (h.power, same) in
    let fits : y * 2 ^ e < 2 ^ 31 = omega (arith, h.int, q) in
    (
      h.v,
      fb-pack e y (omega (arith, h.count, h.few)) h.low h.high fits ∙ ap some (sym q),
      h.above,
      omega (arith, h.below, h.large),
    )

-- A size up to 15 * 2 ^ 27, made a floating point byte and read back as an int, overflows nothing,
-- is not made smaller, and is made larger by at most a seventh.
pub fb_to_int-int_to_fb : (x : ℕ) → x ≤ 15 * 2 ^ 27 → IsClose x (fb_to_int (int_to_fb x))
unfolding int_to_fb fb_to_int
fb_to_int-int_to_fb x h = elim (Bool-cases (leb 8 x)) [
  | inl big ↦
      fb-Halved x (halve x 0 x)
        (halve-Halved x 0 x 27 (omega arith) (ground arith) (omega arith) (omega arith))
  | inr small ↦
      let e1 : ltb x 8 ≡ true = ground arith in
      let e2 : x / 8 ≡ 0 = ground arith in
      rw (halve_small x 0 x (ground arith), e1, e2) (x, refl, omega arith, omega arith)
]
