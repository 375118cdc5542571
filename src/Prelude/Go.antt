-- ===== src/Prelude/Go.antt =====
-- What the Go run time adds to a computation: a panic, and an error beside a result. A slice is its
-- elements and the elements of the backing array behind them, up to its capacity.
use Prim.Native.Nat.{ℕ, ◌+◌, ◌%◌}
use mathlib.Core.List.{List, [], ◌++◌}
use mathlib.Core.Option.{Option, none, some}
use virtual_bess.Prelude.Tests.{ltb, ◌==◌, if◌then◌else◌}
use virtual_bess.Prelude.Lists.{length, get_elem?, take, drop}
use virtual_bess.Prelude.Words.{be16}

-- A computation that returns or panics.
pub data Run {ℓ} (A : Type ℓ) : Type ℓ where
  done : A → Run A
  panic : Run A

infixl 5 ◌>>=◌
abbrev pub ◌>>=◌ {ℓ κ} : {A : Type ℓ} {B : Type κ} → Run A → (A → Run B) → Run B
done a >>= f = f a
panic >>= f = panic

-- A computation that returns a value, returns a Go `error`, or panics.
pub data Outcome {ℓ κ} (E : Type ℓ) (A : Type κ) : Type (ℓ ⊔ κ) where
  ok : A → Outcome E A
  err : E → Outcome E A
  crash : Outcome E A

-- goes on from a computation that may panic to one that may also fail
abbrev pub after {ℓ κ μ} :
    {A : Type ℓ} {E : Type κ} {B : Type μ} → Run A → (A → Outcome E B) → Outcome E B
after (done a) f = f a
after panic f = crash

-- An index or slice expression out of range panics.
abbrev pub or_panic {ℓ} : {A : Type ℓ} → Option A → Run A
or_panic none = panic
or_panic (some a) = done a

-- `a % b` of two integers that are not negative: division by zero panics.
abbrev pub remainder : ℕ → ℕ → Run ℕ
remainder a b = if b == 0 then panic else done (a % b)

pub record Slice : Type 0 where
  pub vals : List ℕ
  pub spare : List ℕ

abbrev pub of_list : List ℕ → Slice
of_list xs = record { vals = xs; spare = [] }

abbrev pub len : Slice → ℕ
len s = length s.vals

abbrev pub backing : Slice → List ℕ
backing s = s.vals ++ s.spare

abbrev pub cap : Slice → ℕ
cap s = length (backing s)

-- `s[i]`
abbrev pub index : Slice → ℕ → Run ℕ
index s i = or_panic (get_elem? s.vals i)

-- `s[a:]`
abbrev pub from : Slice → ℕ → Run (List ℕ)
from s a = if ltb (len s) a then panic else done (drop a s.vals)

-- `s[0:b]`, which reaches up to the capacity and not only up to the length
abbrev pub upto : Slice → ℕ → Run (List ℕ)
upto s b = if ltb (cap s) b then panic else done (take b (backing s))

-- `binary.BigEndian.Uint16(s[a:a+2])`
abbrev pub u16_at : Slice → ℕ → Run ℕ
u16_at s a = do
  hi ← or_panic (get_elem? (backing s) a)
  lo ← or_panic (get_elem? (backing s) (a + 1))
  done (be16 hi lo)
