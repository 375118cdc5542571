-- ===== src/Prelude/Keyed.antt =====
-- Records that are put back into the objects with their keys, through a map of pointers.
use Prim.Native.Nat.{ℕ}
use mathlib.Core.Path.{◌≡◌, refl, sym, subst, ap, ◌∙◌}
use mathlib.Core.Logic.{◌≢◌}
use mathlib.Core.Bool.{true, false}
use mathlib.Core.Option.{Option, none, some}
use mathlib.Core.List.{List, [], ◌∷◌, map}
use native.Mathlib.Omega.{arith}
use virtual_bess.Prelude.Tests.{◌==◌, if◌then◌else◌}
use virtual_bess.Prelude.Lists.{All}
use virtual_bess.Prelude.Distinct.{Distinct}

abbrev pub or_same : {A : Type 0} → Option (List A) → List A → List A
or_same none xs = xs
or_same (some ys) xs = ys

abbrev pub or_first : {A : Type 0} → A → Option (List A) → Option (List A) → Option (List A)
or_first x none here = here
or_first x (some ys) here = some (x ∷ ys)

module _ {R A : Type 0} (key_r : R → ℕ) (key_a : A → ℕ) (put : R → A → A) where
  -- The last object with the key gets the record, since it is the one that the map points to.
  abbrev pub put_last : R → List A → Option (List A)
  put_last r [] = none
  put_last r (x ∷ xs) =
      or_first x (put_last r xs) (if key_a x == key_r r then some (put r x ∷ xs) else none)

  -- a record whose key no object has is left out
  abbrev pub put_all : List R → List A → List A
  put_all [] xs = xs
  put_all (r ∷ rs) xs = put_all rs (or_same (put_last r xs) xs)

  put_last_missing :
      (r : R) (xs : List A) → All (λ k. k ≢ key_r r) (map key_a xs) → put_last r xs ≡ none
  put_last_missing r [] h = refl
  put_last_missing r (x ∷ xs) (p, h) =
      let other : (key_a x == key_r r) ≡ false = ground (arith, p) in
      rw (put_last_missing r xs h, other) refl

  put_last_first :
      (r : R) (y : A) (ys : List A)
      → put_last r ys ≡ none
      → (key_a y == key_r r) ≡ true
      → or_same (put_last r (y ∷ ys)) (y ∷ ys) ≡ put r y ∷ ys
  put_last_first r y ys missing found = rw (missing, found) refl

  put_last_behind :
      (r : R) (x : A) (xs : List A)
      → key_a x ≢ key_r r
      → or_same (put_last r (x ∷ xs)) (x ∷ xs) ≡ x ∷ or_same (put_last r xs) xs
  put_last_behind r x xs p =
      let other : (key_a x == key_r r) ≡ false = ground (arith, p) in
      rw other (behind (put_last r xs))
    where
      behind :
          (found : Option (List A))
          → or_same (or_first x found none) (x ∷ xs) ≡ x ∷ or_same found xs
      behind none = refl
      behind (some ys) = refl

  put_all_behind :
      (rs : List R) (x : A) (xs : List A)
      → All (λ k. k ≢ key_a x) (map key_r rs)
      → put_all rs (x ∷ xs) ≡ x ∷ put_all rs xs
  put_all_behind [] x xs h = refl
  put_all_behind (r ∷ rs) x xs (p, h) =
      ap (put_all rs) (put_last_behind r x xs (λ e. p (sym e)))
      ∙ put_all_behind rs x (or_same (put_last r xs) xs) h

  keys_of :
      (take : A → R)
      → ((x : A) → key_r (take x) ≡ key_a x)
      → (xs : List A) → map key_r (map take xs) ≡ map key_a xs
  keys_of take k1 [] = refl
  keys_of take k1 (x ∷ xs) = rw (k1 x, keys_of take k1 xs) refl

  -- What is taken from objects with distinct keys, and put into others with the same keys, is what is
  -- taken from these then.
  pub put_all-take :
      (take : A → R)
      → ((x : A) → key_r (take x) ≡ key_a x)
      → ((r : R) (x : A) → key_a (put r x) ≡ key_a x)
      → ((r : R) (x : A) → key_r r ≡ key_a x → take (put r x) ≡ r)
      → (xs ys : List A) → Distinct (map key_a xs)
      → map key_a ys ≡ map key_a xs
      → map take (put_all (map take xs) ys) ≡ map take xs
  put_all-take take k1 k2 k3 [] [] d e = refl
  put_all-take take k1 k2 k3 [] (y ∷ ys) d e = cc
  put_all-take take k1 k2 k3 (x ∷ xs) [] d e = cc
  put_all-take take k1 k2 k3 (x ∷ xs) (y ∷ ys) (p, d) e =
      let first : key_a y ≡ key_a x = cc e in
      let others : map key_a ys ≡ map key_a xs = cc e in
      let y' = put (take x) y in
      let key : key_a y' ≡ key_a x = k2 (take x) y ∙ first in
      let missing = put_last_missing (take x) ys (
        subst (λ k. All (λ j. j ≢ k) (map key_a ys)) (sym (k1 x))
          (subst (All (λ j. j ≢ key_a x)) (sym others) p)) in
      let found : (key_a y == key_r (take x)) ≡ true = ground (arith, first, k1 x) in
      let apart =
        subst (λ k. All (λ j. j ≢ k) (map key_r (map take xs))) (sym key)
          (subst (All (λ j. j ≢ key_a x)) (sym (keys_of take k1 xs)) p) in
      ap (λ zs. map take (put_all (map take xs) zs)) (put_last_first (take x) y ys missing found)
      ∙ (ap (map take) (put_all_behind (map take xs) y' ys apart)
          ∙ rw (k3 (take x) y (k1 x ∙ sym first), put_all-take take k1 k2 k3 xs ys d others) refl)
