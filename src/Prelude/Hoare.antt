-- ===== src/Prelude/Hoare.antt =====
-- Total correctness of a computation that may panic: it returns, and what it returns satisfies a
-- predicate.
use mathlib.Core.Path.{◌≡◌, refl, sym, ◌∙◌, subst}
use mathlib.Core.Bool.{Bool, true, false}
use virtual_bess.Prelude.Tests.{if◌then◌else◌}
use virtual_bess.Prelude.Go.{Run, done, panic, ◌>>=◌}

abbrev pub Ensures {ℓ κ} : {A : Type ℓ} → (A → Type κ) → Run A → Type (ℓ ⊔ κ)
Ensures {A = A} P m = (a : A) × (m ≡ done a) × P a

module _ {ℓ κ} {A : Type ℓ} {P : A → Type κ} where
  pub Ensures-done : (a : A) → P a → Ensures P (done a)
  Ensures-done a p = (a, refl, p)

  pub Ensures-if :
      (b : Bool) {x y : Run A}
      → (b ≡ true → Ensures P x)
      → (b ≡ false → Ensures P y)
      → Ensures P (if b then x else y)
  Ensures-if true h k = h refl
  Ensures-if false h k = k refl

pub Ensures-bind {ℓ ℓ' κ κ'} :
    {A : Type ℓ} {B : Type ℓ'} {P : A → Type κ} {Q : B → Type κ'} (m : Run A) {f : A → Run B}
    → Ensures P m
    → ((a : A) → P a → Ensures Q (f a))
    → Ensures Q (m >>= f)
Ensures-bind {P = P} {Q = Q} m {f = f} (a, e, p) k = rw e (k a p)

pub Ensures-weaken {ℓ κ κ'} :
    {A : Type ℓ} {P : A → Type κ} {Q : A → Type κ'} {m : Run A}
    → Ensures P m
    → ((a : A) → P a → Q a)
    → Ensures Q m
Ensures-weaken (a, e, p) k = (a, e, k a p)

-- What both branches satisfy, the conditional satisfies.
pub if-elim {ℓ κ} :
    {A : Type ℓ} (P : A → Type κ) (b : Bool) {x y : A}
    → (b ≡ true → P x)
    → (b ≡ false → P y)
    → P (if b then x else y)
if-elim P true h k = h refl
if-elim P false h k = k refl

abbrev OnDone {ℓ κ} : {A : Type ℓ} → (A → Type κ) → Run A → Type κ
OnDone P (done a) = P a
OnDone P panic = Unit {κ}

-- What a run ensures holds of what it returned.
pub Ensures-returned {ℓ κ} :
    {A : Type ℓ} {P : A → Type κ} {m : Run A} {u : A} → Ensures P m → m ≡ done u → P u
Ensures-returned {P = P} (a, e, p) e' = subst (OnDone P) (sym e ∙ e') p
