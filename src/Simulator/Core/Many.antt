-- ===== src/Simulator/Core/Many.antt =====
-- Devices that consist of a list of devices. Slave ids are distinct, so the first one that has a bank
-- for an id is the one of the map.
use virtual_bess.Prelude.{
  ℕ, suc, ◌≡◌, refl, ap, List, [], ◌∷◌, Bool, true, false, Option, none, some, All, length, IsU16,
  ◌⊎◌, inl, inr, if◌then◌else◌,
}
use virtual_bess.Prelude.Go.{Run, done, ◌>>=◌}
use virtual_bess.Prelude.Hoare.{Ensures, Ensures-done, Ensures-bind}
use virtual_bess.Simulator.Bank.{SlaveBank}
use virtual_bess.Simulator.Bank.Effects.{IsSized, put, update_uint16_data-put}
use virtual_bess.Simulator.Core.{Devices, WriteError, write_holding}

abbrev pub is_some : {A : Type 0} → Option A → Bool
is_some none = false
is_some (some a) = true

abbrev pub or_else : {A : Type 0} → Option A → Option A → Option A
or_else none other = other
or_else (some a) other = some a

pub or_else-found :
    {A : Type 0} (found other : Option A) {a : A}
    → or_else found other ≡ some a
    → (found ≡ some a) ⊎ ((is_some found ≡ false) × (other ≡ some a))
or_else-found none other e = inr (refl, e)
or_else-found (some a) other e = inl e

pub or_else-first :
    {A : Type 0} (found other : Option A)
    → is_some found ≡ true
    → is_some (or_else found other) ≡ true
or_else-first none other e = cc
or_else-first (some a) other e = refl

pub or_else-second :
    {A : Type 0} (found other : Option A)
    → is_some other ≡ true
    → is_some (or_else found other) ≡ true
or_else-second none other e = e
or_else-second (some a) other e = refl

-- The banks have 65536 registers; a bank stays under its id when a word is stored; and the callback
-- behind the store returns, and keeps the predicate.
pub record IsDevice {A : Type 0} (d : Devices A) (P : A → Type 0) : Type 0 where
  pub bank_sized : (x : A) (id : ℕ) (b : SlaveBank) → P x → d.bank_of x id ≡ some b → IsSized b
  pub answers :
      (x : A) (id addr v : ℕ) (b : SlaveBank)
      → d.bank_of x id ≡ some b
      → is_some (d.bank_of (d.set_bank x id (put b addr v)) id) ≡ true
  pub keeps :
      (x : A) (id addr v : ℕ) (b : SlaveBank)
      → P x
      → d.bank_of x id ≡ some b
      → IsU16 addr
      → Ensures P (d.on_write (d.set_bank x id (put b addr v)) id addr v)

-- A write from inside returns, and keeps the predicate, whether or not there is such a slave.
pub write_holding-keeps :
    {A : Type 0} (d : Devices A) (P : A → Type 0)
    → IsDevice d P
    → (x : A) (id addr v : ℕ) → P x
    → IsU16 addr
    → Ensures (λ r. P r.0) (write_holding d x id addr v)
unfolding write_holding
write_holding-keeps d P is x id addr v p h = go (d.bank_of x id) refl
  where
    go :
        (found : Option SlaveBank)
        → d.bank_of x id ≡ found
        → Ensures (λ r. P r.0) (write_holding d x id addr v)
    go none e = rw e (Ensures-done (x, some (WriteError.unknown_slave_id id)) p)
    go (some b) e =
        rw (e, update_uint16_data-put b addr v (is.bank_sized x id b p e) h)
          (Ensures-bind _ (is.keeps x id addr v b p e h) λ x' p'. Ensures-done (x', none) p')

module _ {A : Type 0} (d : Devices A) where
  abbrev pub bank_in : List A → ℕ → Option SlaveBank
  bank_in [] id = none
  bank_in (x ∷ xs) id = or_else (d.bank_of x id) (bank_in xs id)

  abbrev pub set_in : List A → ℕ → SlaveBank → List A
  set_in [] id b = []
  set_in (x ∷ xs) id b =
      if is_some (d.bank_of x id) then d.set_bank x id b ∷ xs else x ∷ set_in xs id b

  abbrev pub write_in : List A → ℕ → ℕ → ℕ → Run (List A)
  write_in [] id addr v = done []
  write_in (x ∷ xs) id addr v =
      let rest = write_in xs id addr v in
      if is_some (d.bank_of x id)
      then (do x' ← d.on_write x id addr v; done (x' ∷ xs))
      else (do xs' ← rest; done (x ∷ xs'))

  abbrev pub list_devices : Devices (List A)
  list_devices = record { bank_of = bank_in; set_bank = set_in; on_write = write_in }

  module _ (P : A → Type 0) (is : IsDevice d P) where
    bank_in-IsSized :
        (xs : List A) (id : ℕ) (b : SlaveBank) → All P xs → bank_in xs id ≡ some b → IsSized b
    bank_in-IsSized [] id b ps e = cc
    bank_in-IsSized (x ∷ xs) id b (p, ps) e =
        elim (or_else-found (d.bank_of x id) (bank_in xs id) e) [
          | inl e' ↦ is.bank_sized x id b p e'
          | inr (_, e') ↦ bank_in-IsSized xs id b ps e'
        ]

    bank_in-set_in :
        (xs : List A) (id addr v : ℕ) (b : SlaveBank)
        → bank_in xs id ≡ some b
        → is_some (bank_in (set_in xs id (put b addr v)) id) ≡ true
    bank_in-set_in [] id addr v b e = cc
    bank_in-set_in (x ∷ xs) id addr v b e =
        elim (or_else-found (d.bank_of x id) (bank_in xs id) e) [
          | inl e' ↦ rw e' (or_else-first _ (bank_in xs id) (is.answers x id addr v b e'))
          | inr (n, e') ↦
              rw n (or_else-second (d.bank_of x id) _ (bank_in-set_in xs id addr v b e'))
        ]

    write_in-keeps :
        (xs : List A) (id addr v : ℕ) (b : SlaveBank)
        → All P xs
        → bank_in xs id ≡ some b
        → IsU16 addr
        → Ensures
            (λ ys. All P ys × (length ys ≡ length xs))
            (write_in (set_in xs id (put b addr v)) id addr v)
    write_in-keeps [] id addr v b ps e h = cc
    write_in-keeps (x ∷ xs) id addr v b (p, ps) e h =
        elim (or_else-found (d.bank_of x id) (bank_in xs id) e) [
          | inl e' ↦
              rw (e', is.answers x id addr v b e')
                (Ensures-bind _ (is.keeps x id addr v b p e' h)
                  λ x' p'. Ensures-done (x' ∷ xs) ((p', ps), refl))
          | inr (n, e') ↦
              rw (n, n)
                (Ensures-bind _ (write_in-keeps xs id addr v b ps e' h)
                  λ ys (ps', same). Ensures-done (x ∷ ys) ((p, ps'), ap suc same))
        ]

    -- A list of devices is one, for as many as there are.
    pub list-IsDevice : (n : ℕ) → IsDevice list_devices (λ xs. All P xs × (length xs ≡ n))
    list-IsDevice n = record {
      bank_sized = λ xs id b (ps, _) e. bank_in-IsSized xs id b ps e;
      answers = bank_in-set_in;
      keeps = λ xs id addr v b (ps, count) e h. rw (← count) (write_in-keeps xs id addr v b ps e h);
    }
