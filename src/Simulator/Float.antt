-- ===== src/Simulator/Float.antt =====
-- What the devices do with a `float64` and the `math` package. The arithmetic is Go's: an argument of
-- the definitions that use it.
use virtual_bess.Prelude.{
  ℕ, zero, suc, ◌+◌, ◌-◌, ◌*◌, ◌/◌, ◌%◌, ◌^◌, ◌≡◌, Bool, true, false, arith, ltb, leb, ◌==◌,
  if◌then◌else◌, IsU16,
}
pub use virtual_bess.Prelude.Integer.{ℤ, pos, negsuc}

pub record Float (F : Type 0) : Type 0 where
  -- `lit n k` is the constant n / 10^k
  pub lit : ℕ → ℕ → F
  pub add : F → F → F
  pub sub : F → F → F
  pub mul : F → F → F
  pub div : F → F → F
  pub neg : F → F
  pub abs : F → F
  pub sqrt : F → F
  pub hypot : F → F → F
  pub tan : F → F
  pub acos : F → F
  pub sin : F → F
  pub pi : F
  pub exp : F → F
  pub minimum : F → F → F
  pub maximum : F → F → F
  pub round : F → F
  pub ceil : F → F
  -- `x < y` and `x == y`
  pub lt : F → F → Bool
  pub eq : F → F → Bool
  -- `float64(n)` of a number that is not negative
  pub of_nat : ℕ → F
  -- `uint16(x)`, the sixteen bits of `int16(x)`, `uint32(x)`, the bits of `int32(x)`, and `int(x)` of
  -- a positive number
  pub to_u16 : F → ℕ
  pub to_s16 : F → ℕ
  pub to_u32 : F → ℕ
  pub to_s32 : F → ℕ
  pub to_int : F → ℕ

-- What IEEE 754 and the Go specification say of them, NaN included.
pub record IsFloat (F : Type 0) ⦃fl : Float F⦄ : Type 0 where
  pub lt_irrefl : (x : F) → fl.lt x x ≡ false
  pub lt_asymm : (x y : F) → fl.lt x y ≡ true → fl.lt y x ≡ false
  pub zero_eq : fl.eq (fl.lit 0 0) (fl.lit 0 0) ≡ true
  pub lit_nonneg : (n k : ℕ) → fl.lt (fl.lit n k) (fl.lit 0 0) ≡ false
  pub minimum-le : (x y : F) → fl.lt y (fl.minimum x y) ≡ false
  pub add_positive : (x d : F) → fl.lt (fl.lit 0 0) d ≡ true → fl.lt (fl.add x d) x ≡ false
  pub add_negated : (x d : F) → fl.lt (fl.lit 0 0) d ≡ false → fl.lt (fl.add x (fl.neg d)) x ≡ false
  pub to_u16-bound : (x : F) → IsU16 (fl.to_u16 x)
  pub to_s16-bound : (x : F) → IsU16 (fl.to_s16 x)

module _ {F : Type 0} ⦃fl : Float F⦄ where
  abbrev pub nought : F
  nought = fl.lit 0 0

  abbrev pub one : F
  one = fl.lit 1 0

  -- `x <= y`
  abbrev pub le : F → F → Bool
  le x y = if fl.lt x y then true else fl.eq x y

  -- `float64(uint16ToInt16(raw))`
  abbrev pub of_s16 : ℕ → F
  of_s16 raw = if ltb raw 32768 then fl.of_nat raw else fl.neg (fl.of_nat (65536 - raw))

  -- `1.0 + (rand.Float64()*0.01 - 0.005)`, from the number drawn
  abbrev pub jitter : F → F
  jitter draw = fl.add one (fl.sub (fl.mul draw (fl.lit 1 2)) (fl.lit 5 3))

-- The laws can be met: whole thousandths, without a NaN, and the identity for the functions that
-- have no exact value.
abbrev plus : ℤ → ℕ
plus (pos n) = n
plus (negsuc n) = 0

abbrev minus : ℤ → ℕ
minus (pos n) = 0
minus (negsuc n) = suc n

abbrev difference : ℕ → ℕ → ℤ
difference a b = if leb b a then pos (a - b) else negsuc (b - a - 1)

abbrev quotient : ℤ → ℕ → ℤ
quotient x d = difference (plus x / d) (minus x / d)

abbrev times : ℤ → ℤ → ℤ
times x y = difference (plus x * plus y + minus x * minus y) (plus x * minus y + minus x * plus y)

abbrev over : ℤ → ℤ → ℤ
over x (pos zero) = pos 0
over x (pos (suc d)) = quotient (times x (pos 1000)) (suc d)
over x (negsuc d) = quotient (times x (negsuc 999)) (suc d)

abbrev negated : ℤ → ℤ
negated x = difference (minus x) (plus x)

abbrev magnitude : ℤ → ℤ
magnitude x = pos (plus x + minus x)

-- the integer part modulo the width
abbrev bits : ℕ → ℤ → ℕ
bits w x = (plus x / 1000 + (w - minus x / 1000 % w)) % w

instance abbrev pub milli_float : Float ℤ
milli_float = record {
  lit = λ n k. pos (n * 1000 / 10 ^ k);
  add = λ x y. difference (plus x + plus y) (minus x + minus y);
  sub = λ x y. difference (plus x + minus y) (minus x + plus y);
  mul = λ x y. quotient (times x y) 1000;
  div = over;
  neg = negated;
  abs = magnitude;
  sqrt = λ x. x;
  hypot = λ x y. difference (plus (magnitude x) + plus (magnitude y)) 0;
  tan = λ x. x;
  acos = λ x. x;
  sin = λ x. x;
  pi = pos 3141;
  minimum = λ x y. if ltb (plus x + minus y) (plus y + minus x) then x else y;
  exp = λ x. x;
  maximum = λ x y. if ltb (plus x + minus y) (plus y + minus x) then y else x;
  round = λ x. x;
  ceil = λ x. x;
  lt = λ x y. ltb (plus x + minus y) (plus y + minus x);
  eq = λ x y. (plus x + minus y) == (plus y + minus x);
  of_nat = λ n. pos (n * 1000);
  to_u16 = bits 65536;
  to_s16 = bits 65536;
  to_u32 = bits 4294967296;
  to_s32 = bits 4294967296;
  to_int = λ x. plus x / 1000;
}

pub Milli-IsFloat : IsFloat ℤ
Milli-IsFloat = ground arith
