-- ===== src/Prelude/Integer.antt =====
-- Integers over the native numbers, and what `strconv.Atoi` reads.
use Prim.Native.Nat.{ℕ, zero, suc, ◌+◌, ◌-◌, ◌*◌, ◌^◌}
use mathlib.Core.Bool.{Bool, true, false}
use mathlib.Core.List.{[], ◌∷◌}
use mathlib.Core.Option.{Option, none, some}
use virtual_bess.Prelude.Tests.{ltb, leb, ◌==◌, if◌then◌else◌}
use virtual_bess.Prelude.Text.{Text, is_digit, is_empty}

pub data ℤ : Type 0 where
  pos : ℕ → ℤ
  negsuc : ℕ → ℤ

-- `n > 0`
abbrev pub is_positive : ℤ → Bool
is_positive (pos zero) = false
is_positive (pos (suc n)) = true
is_positive (negsuc n) = false

-- `n`, or the other value where `n <= 0`
abbrev pub or_positive : ℤ → ℤ → ℤ
or_positive n default = if is_positive n then n else default

-- the rounds of a loop up to `n`
abbrev pub rounds : ℤ → ℕ
rounds (pos n) = n
rounds (negsuc n) = 0

abbrev decimal_scan : Text → ℕ → Option ℕ
decimal_scan [] n = some n
decimal_scan (c ∷ s) n = if is_digit c then decimal_scan s (n * 10 + (c - b'0')) else none

abbrev decimal : Text → Option ℕ
decimal s = if is_empty s then none else decimal_scan s 0

abbrev positive_of : Option ℕ → Option ℤ
positive_of none = none
positive_of (some n) = if ltb n (2 ^ 63) then some (pos n) else none

abbrev negated : ℕ → ℤ
negated zero = pos 0
negated (suc n) = negsuc n

abbrev negative_of : Option ℕ → Option ℤ
negative_of none = none
negative_of (some n) = if leb n (2 ^ 63) then some (negated n) else none

-- `strconv.Atoi`, on 64 bits
abbrev pub atoi : Text → Option ℤ
atoi [] = none
atoi (c ∷ s) =
    if c == b'+'
    then positive_of (decimal s)
    else if c == b'-'
    then negative_of (decimal s)
    else positive_of (decimal (c ∷ s))
