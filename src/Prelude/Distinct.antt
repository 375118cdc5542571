-- ===== src/Prelude/Distinct.antt =====
-- Sets kept as lists, as Go keeps them in a `map[K]bool`, and lists without repetition.
use mathlib.Core.Path.{◌≡◌, refl}
use mathlib.Core.Logic.{◌≢◌}
use mathlib.Core.Bool.{Bool, true, false}
use mathlib.Core.List.{List, [], ◌∷◌, ◌++◌}
use native.Mathlib.Omega.{arith}
use mathlib.Core.Logic.{inl, inr}
use virtual_bess.Prelude.Tests.{Bool-cases, if◌then◌else◌}
use virtual_bess.Prelude.Lists.{All}

abbrev pub Distinct : {A : Type 0} → List A → Type 0
Distinct [] = Unit {0}
Distinct (x ∷ xs) = All (λ y. y ≢ x) xs × Distinct xs

-- `seen[x] = true` for each element in turn
abbrev pub add_all : {A : Type 0} → List A → List A → List A
add_all seen [] = seen
add_all seen (x ∷ xs) = add_all (x ∷ seen) xs

pub add_all-append :
    {A : Type 0} (seen xs ys : List A) → add_all seen (xs ++ ys) ≡ add_all (add_all seen xs) ys
add_all-append seen [] ys = refl
add_all-append seen (x ∷ xs) ys = add_all-append (x ∷ seen) xs ys

module _ {A : Type 0} (same : A → A → Bool) where
  -- `seen[x]`
  abbrev pub elem : A → List A → Bool
  elem x [] = false
  elem x (y ∷ ys) = if same x y then true else elem x ys

  -- No element is among those seen before it.
  abbrev pub Fresh : List A → List A → Type 0
  Fresh seen [] = Unit {0}
  Fresh seen (x ∷ xs) = (elem x seen ≡ false) × Fresh (x ∷ seen) xs

  pub Fresh-append :
      (seen xs ys : List A) → Fresh seen xs → Fresh (add_all seen xs) ys → Fresh seen (xs ++ ys)
  Fresh-append seen [] ys h k = k
  Fresh-append seen (x ∷ xs) ys (p, h) k = (p, Fresh-append (x ∷ seen) xs ys h k)

module _ {A : Type 0} (same : A → A → Bool) (same_refl : (x : A) → same x x ≡ true) where
  elem_self : (x : A) (ys : List A) → elem same x (x ∷ ys) ≡ true
  elem_self x ys = ground (arith, same_refl x)

  -- an element that is seen already does not come again
  elem-Fresh :
      (seen xs : List A) (x : A)
      → elem same x seen ≡ true
      → Fresh same seen xs
      → All (λ y. y ≢ x) xs
  elem-Fresh seen [] x e h = tt
  elem-Fresh seen (y ∷ ys) x e (p, h) =
      (λ q. cc (q, p, e), elem-Fresh (y ∷ seen) ys x (ground (arith, e)) h)

  pub Fresh-Distinct : (seen xs : List A) → Fresh same seen xs → Distinct xs
  Fresh-Distinct seen [] h = tt
  Fresh-Distinct seen (x ∷ xs) (p, h) =
      (elem-Fresh (x ∷ seen) xs x (elem_self x seen) h, Fresh-Distinct (x ∷ seen) xs h)

-- no element of the second list is one of the first
abbrev Apart : {A : Type 0} → List A → List A → Type 0
Apart seen xs = All (λ s. All (λ y. y ≢ s) xs) seen

Apart-head :
    {A : Type 0} (x : A) (xs seen : List A)
    → Apart seen (x ∷ xs)
    → All (λ s. x ≢ s) seen × Apart seen xs
Apart-head x xs [] h = (tt, tt)
Apart-head x xs (s ∷ seen) ((p, ps), h) = let (q, qs) = Apart-head x xs seen h in ((p, q), (ps, qs))

module _ {A : Type 0} (same : A → A → Bool) (same-eq : (x y : A) → same x y ≡ true → x ≡ y) where
  elem-missing : (x : A) (seen : List A) → All (λ s. x ≢ s) seen → elem same x seen ≡ false
  elem-missing x [] h = refl
  elem-missing x (s ∷ seen) (p, h) = elim (Bool-cases (same x s)) [
    | inl e ↦ absurd (p (same-eq x s e))
    | inr e ↦ rw e (elem-missing x seen h)
  ]

  -- A list without repetition, none of whose elements is among those seen, is accepted.
  pub Distinct-Fresh : (seen xs : List A) → Apart seen xs → Distinct xs → Fresh same seen xs
  Distinct-Fresh seen [] h d = tt
  Distinct-Fresh seen (x ∷ xs) h (p, d) =
      let (q, qs) = Apart-head x xs seen h in
      (elem-missing x seen q, Distinct-Fresh (x ∷ seen) xs (p, qs) d)
