-- ===== src/Prelude/Words.antt =====
-- Machine words as native numbers below a power of two, and their bytes.
use Prim.Native.Nat.{ℕ, ◌+◌, ◌*◌, ◌/◌, ◌%◌, ◌^◌, ◌<◌}
use mathlib.Core.Path.{◌≡◌}
use native.Mathlib.Omega.{arith}

abbrev pub IsByte : ℕ → Type 0
IsByte b = b < 256

abbrev pub IsU16 : ℕ → Type 0
IsU16 v = v < 65536

abbrev pub IsU32 : ℕ → Type 0
IsU32 v = v < 2 ^ 32

-- Conversions to a narrower type keep the low bits.
abbrev pub byte : ℕ → ℕ
byte v = v % 256

abbrev pub uint16 : ℕ → ℕ
uint16 v = v % 65536

-- `binary.BigEndian.Uint16` and the two bytes that `PutUint16` writes
abbrev pub be16 : ℕ → ℕ → ℕ
be16 hi lo = hi * 256 + lo

abbrev pub hi_byte : ℕ → ℕ
hi_byte v = v / 256 % 256

abbrev pub lo_byte : ℕ → ℕ
lo_byte v = v % 256

pub be16-bytes : (v : ℕ) → IsU16 v → be16 (hi_byte v) (lo_byte v) ≡ v
be16-bytes v h = omega arith

pub bytes-be16 :
    (hi lo : ℕ) → IsByte hi → IsByte lo → (hi_byte (be16 hi lo) ≡ hi) × (lo_byte (be16 hi lo) ≡ lo)
bytes-be16 hi lo h l = omega arith
