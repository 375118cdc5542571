-- ===== src/Prelude/Bits.antt =====
-- Laws of `^` on words, from the digit recursion that the native operation stands for, and masks
-- on one byte, each a table checked by evaluation.
use Prim.Native.Nat.{
  ℕ, zero, suc, ◌+◌, ◌*◌, ◌/◌, ◌%◌, ◌^◌, ◌≤◌, ◌<◌, digits, bitwise, bit_and, bit_or, bit_xor,
  bit_xor-bitwise, bit_and-bitwise, differ, min, max, bit_or-bitwise,
}
use mathlib.Core.Path.{◌≡◌, refl, ap, ◌∙◌}
use mathlib.Core.Bool.{Bool, true, ◌&&◌}
use native.Mathlib.Nat.{le_refl, pow-suc}
use native.Mathlib.Omega.{arith}
use virtual_bess.Prelude.Tests.{◌==◌, ==_iff, ltb, if◌then◌else◌}

-- Over a small range, check every value by evaluation.
unfoldable pub every_below : ℕ → (ℕ → Bool) → Bool
every_below zero test = true
every_below (suc bound) test = test bound && every_below bound test

pub every_below_sound :
    (bound : ℕ) (test : ℕ → Bool) (i : ℕ)
    → every_below bound test ≡ true
    → i < bound
    → test i ≡ true
unfolding every_below
every_below_sound zero test i all low = absurd (omega arith)
every_below_sound (suc bound) test i all low = ground (arith, every_below_sound bound test i)

-- The fuel of `digits` is dropped: one equation for the lowest digit.
module _ (z : ℕ → ℕ) (f : ℕ → ℕ → ℕ) where
  enough_digits : (n m a b : ℕ) → a ≤ n → a ≤ m → digits z f n a b ≡ digits z f m a b
  enough_digits zero zero a b p q = refl
  enough_digits zero (suc m) zero b p q = refl
  enough_digits zero (suc m) (suc a) b p q = absurd (omega arith)
  enough_digits (suc n) zero zero b p q = refl
  enough_digits (suc n) zero (suc a) b p q = absurd (omega arith)
  enough_digits (suc n) (suc m) zero b p q = refl
  enough_digits (suc n) (suc m) (suc a) b p q =
      rw (enough_digits n m (suc a / 2) (b / 2) (omega arith) (omega arith))

  lowest_digit :
      (a b : ℕ)
      → bitwise z f (suc a) b ≡ bitwise z f (suc a / 2) (b / 2) * 2 + f (suc a % 2) (b % 2)
  lowest_digit a b =
      omega (arith, enough_digits a (suc a / 2) (suc a / 2) (b / 2) (omega arith) (le_refl _))

differ_bits : (x y : ℕ) → x < 2 → y < 2 → differ x y ≡ (x + y) % 2
differ_bits zero y h k = omega arith
differ_bits (suc zero) zero h k = refl
differ_bits (suc zero) (suc zero) h k = refl
differ_bits (suc zero) (suc (suc y)) h k = absurd (omega arith)
differ_bits (suc (suc x)) y h k = absurd (omega arith)

xor_step : (a b : ℕ) → bit_xor a b ≡ bit_xor (a / 2) (b / 2) * 2 + (a % 2 + b % 2) % 2
xor_step zero b = simp bit_xor-bitwise (omega arith)
xor_step (suc a) b = simp bit_xor-bitwise (
    omega (
      arith,
      lowest_digit (λ b. b) differ a b,
      differ_bits (suc a % 2) (b % 2) (omega arith) (omega arith),
    ))

pub xor_half : (a b : ℕ) → bit_xor a b / 2 ≡ bit_xor (a / 2) (b / 2)
xor_half a b = omega (arith, xor_step a b)

pub xor_parity : (a b : ℕ) → bit_xor a b % 2 ≡ (a % 2 + b % 2) % 2
xor_parity a b = omega (arith, xor_step a b)

same_digits : (x y : ℕ) → x / 2 ≡ y / 2 → x % 2 ≡ y % 2 → x ≡ y
same_digits x y h k = omega arith

xor_assoc_fuel : (n a b c : ℕ) → a + b + c ≤ n → bit_xor (bit_xor a b) c ≡ bit_xor a (bit_xor b c)
xor_assoc_fuel zero zero zero zero h = refl
xor_assoc_fuel zero zero zero (suc c) h = absurd (omega arith)
xor_assoc_fuel zero zero (suc b) c h = absurd (omega arith)
xor_assoc_fuel zero (suc a) b c h = absurd (omega arith)
xor_assoc_fuel (suc n) a b c h =
    same_digits _ _
      (rw (xor_half (bit_xor a b) c, xor_half a b, xor_half a (bit_xor b c), xor_half b c)
        (xor_assoc_fuel n (a / 2) (b / 2) (c / 2) (omega arith)))
      (omega (
        arith,
        xor_parity (bit_xor a b) c,
        xor_parity a b,
        xor_parity a (bit_xor b c),
        xor_parity b c,
      ))

pub xor_assoc : (a b c : ℕ) → bit_xor (bit_xor a b) c ≡ bit_xor a (bit_xor b c)
xor_assoc a b c = xor_assoc_fuel (a + b + c) a b c (le_refl _)

xor_comm_fuel : (n a b : ℕ) → a + b ≤ n → bit_xor a b ≡ bit_xor b a
xor_comm_fuel zero zero zero h = refl
xor_comm_fuel zero zero (suc b) h = absurd (omega arith)
xor_comm_fuel zero (suc a) b h = absurd (omega arith)
xor_comm_fuel (suc n) a b h =
    same_digits _ _
      (rw (xor_half a b, xor_half b a) (xor_comm_fuel n (a / 2) (b / 2) (omega arith)))
      (omega (arith, xor_parity a b, xor_parity b a))

pub xor_comm : (a b : ℕ) → bit_xor a b ≡ bit_xor b a
xor_comm a b = xor_comm_fuel (a + b) a b (le_refl _)

pub zero-xor : (b : ℕ) → bit_xor 0 b ≡ b
zero-xor b = bit_xor-bitwise 0 b

pub xor-zero : (a : ℕ) → bit_xor a 0 ≡ a
xor-zero a = xor_comm a 0 ∙ zero-xor a

-- Words of `k` bits stay words of `k` bits.
pub xor-lt : (k a b : ℕ) → a < 2 ^ k → b < 2 ^ k → bit_xor a b < 2 ^ k
xor-lt zero zero zero h g = omega arith
xor-lt zero zero (suc b) h g = absurd (omega arith)
xor-lt zero (suc a) b h g = absurd (omega arith)
xor-lt (suc k) a b h g = omega (
  arith,
  pow-suc 2 k,
  xor_half a b,
  xor-lt k (a / 2) (b / 2) (omega (arith, pow-suc 2 k)) (omega (arith, pow-suc 2 k)),
)

xor_zero_of : (a b : ℕ) → b ≡ 0 → bit_xor a b ≡ a
xor_zero_of a b h = rw h (xor-zero a)

-- The bits above the low eight.
pub xor_high : (a b : ℕ) → b < 256 → bit_xor a b / 256 ≡ a / 256
xor_high a b h = omega (
  arith,
  xor_half (a) (b),
  xor_half (a / 2) (b / 2),
  xor_half (a / 2 / 2) (b / 2 / 2),
  xor_half (a / 2 / 2 / 2) (b / 2 / 2 / 2),
  xor_half (a / 2 / 2 / 2 / 2) (b / 2 / 2 / 2 / 2),
  xor_half (a / 2 / 2 / 2 / 2 / 2) (b / 2 / 2 / 2 / 2 / 2),
  xor_half (a / 2 / 2 / 2 / 2 / 2 / 2) (b / 2 / 2 / 2 / 2 / 2 / 2),
  xor_half (a / 2 / 2 / 2 / 2 / 2 / 2 / 2) (b / 2 / 2 / 2 / 2 / 2 / 2 / 2),
  xor_zero_of (a / 2 / 2 / 2 / 2 / 2 / 2 / 2 / 2) (b / 2 / 2 / 2 / 2 / 2 / 2 / 2 / 2) (omega arith),
)

double_pow : (h k : ℕ) → h * 2 ^ suc k ≡ 2 * (h * 2 ^ k)
double_pow h k = omega (arith, ap (λ (t : ℕ). h * t) (pow-suc 2 k))

-- Fields that do not overlap: `^` is `+`.
pub xor_fields : (k h l : ℕ) → l < 2 ^ k → bit_xor (h * 2 ^ k) l ≡ h * 2 ^ k + l
xor_fields zero h zero fits = omega (arith, xor-zero (h * 2 ^ 0))
xor_fields zero h (suc l) fits = absurd (omega arith)
xor_fields (suc k) h l fits =
    let e = double_pow h k in
    let half : h * 2 ^ suc k / 2 ≡ h * 2 ^ k = omega arith in
    same_digits _ _
      (rw (xor_half (h * 2 ^ suc k) l, half)
        (omega (arith, pow-suc 2 k, xor_fields k h (l / 2) (omega (arith, pow-suc 2 k)))))
      (omega (arith, xor_parity (h * 2 ^ suc k) l))

or_step : (a b : ℕ) → bit_or a b ≡ bit_or (a / 2) (b / 2) * 2 + max (a % 2) (b % 2)
or_step zero b = simp bit_or-bitwise (omega arith)
or_step (suc a) b = simp bit_or-bitwise (lowest_digit (λ b. b) max a b)

or-zero_of : (n a : ℕ) → a ≤ n → bit_or a 0 ≡ a
or-zero_of n zero h = refl
or-zero_of zero (suc a) h = absurd (omega arith)
or-zero_of (suc n) (suc a) h =
    omega (arith, or_step (suc a) 0, or-zero_of n (suc a / 2) (omega arith))

-- Fields that do not overlap: `|` is `+`.
pub or_fields : (k h l : ℕ) → l < 2 ^ k → bit_or (h * 2 ^ k) l ≡ h * 2 ^ k + l
or_fields zero h zero fits = omega (arith, or-zero_of (h * 2 ^ 0) (h * 2 ^ 0) (le_refl _))
or_fields zero h (suc l) fits = absurd (omega arith)
or_fields (suc k) h l fits =
    let e = double_pow h k in
    let half : h * 2 ^ suc k / 2 ≡ h * 2 ^ k = omega arith in
    let even : h * 2 ^ suc k % 2 ≡ 0 = omega arith in
    let step : bit_or (h * 2 ^ suc k) l ≡ bit_or (h * 2 ^ k) (l / 2) * 2 + max 0 (l % 2) =
      rw (half, even) at (or_step (h * 2 ^ suc k) l) in
    omega (arith, step, or_fields k h (l / 2) (omega (arith, pow-suc 2 k)))

and_step : (a b : ℕ) → bit_and a b ≡ bit_and (a / 2) (b / 2) * 2 + min (a % 2) (b % 2)
and_step zero b = simp bit_and-bitwise (omega arith)
and_step (suc a) b = simp bit_and-bitwise (lowest_digit (λ _. 0) min a b)

and_zero_fuel : (n a : ℕ) → a ≤ n → bit_and a 0 ≡ 0
and_zero_fuel n zero h = refl
and_zero_fuel zero (suc a) h = absurd (omega arith)
and_zero_fuel (suc n) (suc a) h =
    omega (arith, and_step (suc a) 0, and_zero_fuel n (suc a / 2) (omega arith))

pub and-one : (a : ℕ) → bit_and a 1 ≡ a % 2
and-one a = omega (arith, and_step a 1, and_zero_fuel (a / 2) (a / 2) (le_refl _))

and_odd : (a k : ℕ) → bit_and a (k * 2 + 1) ≡ bit_and (a / 2) k * 2 + a % 2
and_odd a k =
    let half : (k * 2 + 1) / 2 ≡ k = omega arith in
    let odd : (k * 2 + 1) % 2 ≡ 1 = omega arith in
    let e = and_step a (k * 2 + 1) in
    let e' : bit_and a (k * 2 + 1) ≡ bit_and (a / 2) k * 2 + min (a % 2) 1 = rw (half, odd) at e in
    omega (arith, e')

-- a mask of four bits more
and_nibble : (a k : ℕ) → bit_and a (k * 16 + 15) ≡ bit_and (a / 16) k * 16 + a % 16
and_nibble a k =
    let m1 : k * 16 + 15 ≡ (k * 8 + 7) * 2 + 1 = omega arith in
    let m2 : k * 8 + 7 ≡ (k * 4 + 3) * 2 + 1 = omega arith in
    let m3 : k * 4 + 3 ≡ (k * 2 + 1) * 2 + 1 = omega arith in
    let q : a / 2 / 2 / 2 / 2 ≡ a / 16 = omega arith in
    let e1 : bit_and a (k * 16 + 15) ≡ bit_and (a / 2) (k * 8 + 7) * 2 + a % 2 =
      rw m1 (and_odd a (k * 8 + 7)) in
    let e2 : bit_and (a / 2) (k * 8 + 7) ≡ bit_and (a / 2 / 2) (k * 4 + 3) * 2 + a / 2 % 2 =
      rw m2 (and_odd (a / 2) (k * 4 + 3)) in
    let e3 : bit_and (a / 2 / 2) (k * 4 + 3)
        ≡ bit_and (a / 2 / 2 / 2) (k * 2 + 1) * 2 + a / 2 / 2 % 2 =
      rw m3 (and_odd (a / 2 / 2) (k * 2 + 1)) in
    let e4 : bit_and (a / 2 / 2 / 2) (k * 2 + 1) ≡ bit_and (a / 16) k * 2 + a / 2 / 2 / 2 % 2 =
      rw (← q) (and_odd (a / 2 / 2 / 2) k) in
    omega (arith, e1, e2, e3, e4)

and_none : (a : ℕ) → bit_and a 0 ≡ 0
and_none a = and_zero_fuel a a (le_refl _)

-- `a & 0xff`
pub and-low_byte : (a : ℕ) → bit_and a 0xff ≡ a % 256
and-low_byte a =
    let e1 : bit_and a 255 ≡ bit_and (a / 16) 15 * 16 + a % 16 = and_nibble a 15 in
    let e2 : bit_and (a / 16) 15 ≡ bit_and (a / 16 / 16) 0 * 16 + a / 16 % 16 =
      and_nibble (a / 16) 0 in
    omega (arith, e1, e2, and_none (a / 16 / 16))

-- `v & 0xffff`
pub and-low_word : (a : ℕ) → bit_and a 0xffff ≡ a % 65536
and-low_word a =
    let e1 : bit_and a 65535 ≡ bit_and (a / 16) 4095 * 16 + a % 16 = and_nibble a 4095 in
    let e2 : bit_and (a / 16) 4095 ≡ bit_and (a / 16 / 16) 255 * 16 + a / 16 % 16 =
      and_nibble (a / 16) 255 in
    omega (arith, e1, e2, and-low_byte (a / 16 / 16))

-- `f | 0x80` and the test `f & 0x80`, on a byte
set_top_table : every_below 256 (λ f. bit_or f 0x80 == (if ltb f 128 then f + 128 else f)) ≡ true
unfolding every_below
set_top_table = refl

pub or-top : (f : ℕ) → f < 256 → bit_or f 0x80 ≡ (if ltb f 128 then f + 128 else f)
or-top f h = (==_iff _ _).0 (every_below_sound 256 _ f set_top_table h)

top_table : every_below 256 (λ f. bit_and f 0x80 == f / 128 * 128) ≡ true
unfolding every_below
top_table = refl

pub and-top : (f : ℕ) → f < 256 → bit_and f 0x80 ≡ f / 128 * 128
and-top f h = (==_iff _ _).0 (every_below_sound 256 _ f top_table h)
