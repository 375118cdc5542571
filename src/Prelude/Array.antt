-- ===== src/Prelude/Array.antt =====
-- A Go slice whose length is its capacity: the register areas are made once and never appended to.
use Prim.Native.Nat.{ℕ, zero, suc, ◌+◌, ◌-◌, ◌<◌, min}
use mathlib.Core.Path.{◌≡◌, refl}
use mathlib.Core.Bool.{◌&&◌}
use mathlib.Core.List.{List, [], ◌∷◌}
use mathlib.Core.Option.{some}
use native.Mathlib.Omega.{arith}
use virtual_bess.Prelude.Tests.{ltb, leb, ◌==◌, if◌then◌else◌}
use virtual_bess.Prelude.Lists.{length, get_elem?, get_or}
use virtual_bess.Prelude.Go.{Run, done, panic}

pub record Array : Type 0 where
  pub size : ℕ
  pub at : ℕ → ℕ

-- `make([]uint16, n)`
abbrev pub zeros : ℕ → Array
zeros n = record { size = n; at = λ _. 0 }

abbrev pub update : (ℕ → ℕ) → ℕ → ℕ → ℕ → ℕ
update f i v j = if j == i then v else f j

abbrev pub overlay : (ℕ → ℕ) → ℕ → ℕ → List ℕ → ℕ → ℕ
overlay f off n xs j = if leb off j && ltb j (off + n) then get_or xs (j - off) 0 else f j

-- the `n` elements from `lo` on
abbrev pub window : (ℕ → ℕ) → ℕ → ℕ → List ℕ
window f lo zero = []
window f lo (suc n) = f lo ∷ window f (lo + 1) n

-- `a[i]`
abbrev pub read : Array → ℕ → Run ℕ
read a i = if ltb i a.size then done (a.at i) else panic

-- `a[i] = v`
abbrev pub write : Array → ℕ → ℕ → Run Array
write a i v = if ltb i a.size then done (record a { at = update a.at i v }) else panic

-- `a[lo:hi]`
abbrev pub section : Array → ℕ → ℕ → Run (List ℕ)
section a lo hi = if leb lo hi && leb hi a.size then done (window a.at lo (hi - lo)) else panic

-- the number of elements that `copy(a[off:], xs)` moves
abbrev pub copied : Array → ℕ → List ℕ → ℕ
copied a off xs = min (a.size - off) (length xs)

-- `copy(a[off:], xs)`
abbrev pub copy : Array → ℕ → List ℕ → Run Array
copy a off xs =
    if leb off a.size then done (record a { at = overlay a.at off (copied a off xs) xs }) else panic

pub length-window : (f : ℕ → ℕ) (lo n : ℕ) → length (window f lo n) ≡ n
length-window f lo zero = refl
length-window f lo (suc n) = omega (arith, length-window f (lo + 1) n)

pub get_elem?-window :
    (f : ℕ → ℕ) (lo n i : ℕ) → i < n → get_elem? (window f lo n) i ≡ some (f (lo + i))
get_elem?-window f lo zero i h = absurd (omega arith)
get_elem?-window f lo (suc n) zero h = ground arith
get_elem?-window f lo (suc n) (suc i) h = ground (arith, get_elem?-window f (lo + 1) n i)

pub get_or-window : (f : ℕ → ℕ) (lo n i d : ℕ) → i < n → get_or (window f lo n) i d ≡ f (lo + i)
get_or-window f lo zero i d h = absurd (omega arith)
get_or-window f lo (suc n) zero d h = ground arith
get_or-window f lo (suc n) (suc i) d h = ground (arith, get_or-window f (lo + 1) n i d)

-- A window holds the elements that each position has.
pub window_ext :
    (f : ℕ → ℕ) (lo n : ℕ) (xs : List ℕ)
    → length xs ≡ n
    → ((i : ℕ) → i < n → f (lo + i) ≡ get_or xs i 0)
    → window f lo n ≡ xs
window_ext f lo zero [] e h = refl
window_ext f lo zero (x ∷ xs) e h = absurd (omega arith)
window_ext f lo (suc n) [] e h = absurd (omega arith)
window_ext f lo (suc n) (x ∷ xs) e h =
    let start : lo + 0 ≡ lo = omega arith in
    let first : f lo ≡ x = rw start at (h 0 (omega arith)) in
    rw (first, window_ext f (lo + 1) n xs (omega arith) next)
  where
    next : (i : ℕ) → i < n → f (lo + 1 + i) ≡ get_or xs i 0
    next i k = let e' : lo + suc i ≡ lo + 1 + i = omega arith in rw e' at (h (suc i) (omega arith))

pub window-overlay :
    (f : ℕ → ℕ) (off n : ℕ) (xs : List ℕ) → length xs ≡ n → window (overlay f off n xs) off n ≡ xs
window-overlay f off n xs e =
    window_ext (overlay f off n xs) off n xs e
      λ i h. let d : off + i - off ≡ i = omega arith in rw d (ground arith)
