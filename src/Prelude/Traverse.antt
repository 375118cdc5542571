-- ===== src/Prelude/Traverse.antt =====
-- Loops over the elements of a list that may panic.
use Prim.Native.Nat.{ℕ, zero, suc, ◌<◌}
use mathlib.Core.Path.{◌≡◌, refl, ap}
use mathlib.Core.Option.{some}
use mathlib.Core.List.{List, [], ◌∷◌}
use native.Mathlib.Omega.{arith}
use virtual_bess.Prelude.Go.{Run, done, ◌>>=◌, or_panic}
use virtual_bess.Prelude.Hoare.{Ensures, Ensures-done, Ensures-bind}
use virtual_bess.Prelude.Lists.{length, get_elem?, All}

pub get_elem?-in {ℓ} :
    {A : Type ℓ} (xs : List A) (i : ℕ) → i < length xs → (x : A) × (get_elem? xs i ≡ some x)
get_elem?-in [] i h = absurd (omega arith)
get_elem?-in (x ∷ xs) zero h = (x, refl)
get_elem?-in (x ∷ xs) (suc i) h = get_elem?-in xs i (omega arith)

module _ {ℓ κ} {A : Type ℓ} {B : Type κ} where
  -- the body on each element, with its index
  abbrev pub traverse : (ℕ → A → Run B) → ℕ → List A → Run (List B)
  traverse f i [] = done []
  traverse f i (x ∷ xs) = do y ← f i x; ys ← traverse f (suc i) xs; done (y ∷ ys)

  pub traverse-Ensures {μ ν} :
      (P : A → Type μ) (Q : B → Type ν) (f : ℕ → A → Run B)
      → ((i : ℕ) (x : A) → P x → Ensures Q (f i x))
      → (i : ℕ) (xs : List A) → All P xs
      → Ensures (λ ys. All Q ys × (length ys ≡ length xs)) (traverse f i xs)
  traverse-Ensures P Q f each i [] h = Ensures-done [] (tt, refl)
  traverse-Ensures P Q f each i (x ∷ xs) (p, h) = Ensures-bind _ (each i x p) λ y q.
      Ensures-bind _ (traverse-Ensures P Q f each (suc i) xs h)
        λ ys (all, e). Ensures-done (y ∷ ys) ((q, all), ap suc e)

  -- `acc = step(acc, xs[i])` for each index in turn
  abbrev pub fold_at : (B → A → B) → List A → List ℕ → B → Run B
  fold_at step xs [] acc = done acc
  fold_at step xs (i ∷ is) acc = do x ← or_panic (get_elem? xs i); fold_at step xs is (step acc x)

  -- Indices in range do not panic.
  pub fold_at-runs :
      (step : B → A → B) (xs : List A) (is : List ℕ) (acc : B)
      → All (λ i. i < length xs) is
      → (b : B) × (fold_at step xs is acc ≡ done b)
  fold_at-runs step xs [] acc h = (acc, refl)
  fold_at-runs step xs (i ∷ is) acc (p, h) =
      let (x, found) = get_elem?-in xs i p in
      let (b, e) = fold_at-runs step xs is (step acc x) h in (b, rw found e)
