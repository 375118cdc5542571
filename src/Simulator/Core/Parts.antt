-- ===== src/Simulator/Core/Parts.antt =====
-- Devices with one bank, devices that are a field of something larger, and two kinds of devices of
-- the same thing.
use virtual_bess.Prelude.{
  ℕ, ◌≡◌, refl, Bool, true, false, none, some, inl, inr, ◌==◌, IsU16, if◌then◌else◌,
}
use virtual_bess.Prelude.Go.{Run, done, ◌>>=◌}
use virtual_bess.Prelude.Hoare.{if-elim, Ensures, Ensures-done, Ensures-bind}
use virtual_bess.Simulator.Bank.{SlaveBank}
use virtual_bess.Simulator.Bank.Effects.{IsSized, put}
use virtual_bess.Simulator.Core.{Devices}
use virtual_bess.Simulator.Core.Many.{
  is_some, or_else, or_else-found, or_else-first, or_else-second, IsDevice,
}

if-some :
    {A : Type 0} (t : Bool) (x : A) {y : A}
    → (if t then some x else none) ≡ some y
    → (t ≡ true) × (x ≡ y)
if-some true x e = (refl, cc e)
if-some false x e = cc

module _ {A : Type 0} (bank : A → SlaveBank) (set : SlaveBank → A → A)
    (write : A → ℕ → ℕ → Run A) where
  abbrev pub single_devices : Devices A
  single_devices = record {
    bank_of = λ x id. if id == (bank x).slave_id then some (bank x) else none;
    set_bank = λ x id b. set b x;
    on_write = λ x id addr v. write x addr v;
  }

  -- A device with one bank.
  pub single-IsDevice :
      (P : A → Type 0)
      → ((b : SlaveBank) (x : A) → bank (set b x) ≡ b)
      → ((x : A) → P x → IsSized (bank x))
      → ((x : A) (addr v : ℕ)
          → P x
          → IsU16 addr
          → Ensures P (write (set (put (bank x) addr v) x) addr v))
      → IsDevice single_devices P
  single-IsDevice P get-set sized keeps = record {
    bank_sized = λ x id b p e.
        let (_, same) = if-some (id == (bank x).slave_id) (bank x) e in rw (← same) (sized x p);
    answers = λ x id addr v b e.
        let (asked, same) = if-some (id == (bank x).slave_id) (bank x) e in
        rw (get-set (put b addr v) x, rw same at asked) refl;
    keeps = λ x id addr v b p e h.
        let (_, same) = if-some (id == (bank x).slave_id) (bank x) e in
        rw (← same) (keeps x addr v p h);
  }

module _ {S A : Type 0} (get : S → A) (set : A → S → S) (d : Devices A) where
  abbrev pub field_devices : Devices S
  field_devices = record {
    bank_of = λ s id. d.bank_of (get s) id;
    set_bank = λ s id b. set (d.set_bank (get s) id b) s;
    on_write = λ s id addr v. (do a ← d.on_write (get s) id addr v; done (set a s));
  }

  -- Devices that are a field, whose predicate may depend on what the field stands in.
  pub field-IsDevice :
      (Q : S → A → Type 0) (P : S → Type 0)
      → ((s : S) → IsDevice d (Q s))
      → ((a : A) (s : S) → get (set a s) ≡ a)
      → ((a a' : A) (s : S) → set a (set a' s) ≡ set a s)
      → ((s : S) → P s → Q s (get s))
      → ((s : S) (a : A) → P s → Q s a → P (set a s))
      → IsDevice field_devices P
  field-IsDevice Q P is get-set set-set out back = record {
    bank_sized = λ s id b p e. (is s).bank_sized (get s) id b (out s p) e;
    answers = λ s id addr v b e.
        rw (get-set (d.set_bank (get s) id (put b addr v)) s)
          ((is s).answers (get s) id addr v b e);
    keeps = λ s id addr v b p e h.
        let a0 = d.set_bank (get s) id (put b addr v) in
        rw (get-set a0 s) (
          Ensures-bind _ ((is s).keeps (get s) id addr v b (out s p) e h)
            λ a q. Ensures-done (set a (set a0 s)) (rw (set-set a a0 s) (back s a p q)));
  }

module _ {S : Type 0} (d e : Devices S) where
  abbrev pub either_devices : Devices S
  either_devices = record {
    bank_of = λ s id. or_else (d.bank_of s id) (e.bank_of s id);
    set_bank = λ s id b. if is_some (d.bank_of s id) then d.set_bank s id b else e.set_bank s id b;
    on_write = λ s id addr v.
        if is_some (d.bank_of s id) then d.on_write s id addr v else e.on_write s id addr v;
  }

  -- Two kinds of devices that leave each other alone.
  pub either-IsDevice :
      (P : S → Type 0)
      → IsDevice d P
      → IsDevice e P
      → ((s : S) (id : ℕ) (b : SlaveBank) → d.bank_of (e.set_bank s id b) id ≡ d.bank_of s id)
      → IsDevice either_devices P
  either-IsDevice P i j apart = record {
    bank_sized = λ s id b p h. elim (or_else-found (d.bank_of s id) (e.bank_of s id) h) [
      | inl found ↦ i.bank_sized s id b p found
      | inr (_, found) ↦ j.bank_sized s id b p found
    ];
    answers = λ s id addr v b h. elim (or_else-found (d.bank_of s id) (e.bank_of s id) h) [
      | inl found ↦ rw found (or_else-first _ _ (i.answers s id addr v b found))
      | inr (n, found) ↦ rw n (or_else-second _ _ (j.answers s id addr v b found))
    ];
    keeps = λ s id addr v b p h small. elim (or_else-found (d.bank_of s id) (e.bank_of s id) h) [
      | inl found ↦ rw (found, i.answers s id addr v b found) (i.keeps s id addr v b p found small)
      | inr (n, found) ↦ rw (n, apart s id (put b addr v), n) (j.keeps s id addr v b p found small)
    ];
  }

-- What leaves each of two kinds of devices alone, leaves both alone.
pub apart-either :
    {S : Type 0} (c d e : Devices S)
    → ((s : S) (id : ℕ) (b : SlaveBank) → c.bank_of (d.set_bank s id b) id ≡ c.bank_of s id)
    → ((s : S) (id : ℕ) (b : SlaveBank) → c.bank_of (e.set_bank s id b) id ≡ c.bank_of s id)
    → (s : S) (id : ℕ) (b : SlaveBank)
    → c.bank_of ((either_devices d e).set_bank s id b) id ≡ c.bank_of s id
apart-either c d e h k s id b =
    if-elim (λ s'. c.bank_of s' id ≡ c.bank_of s id) (is_some (d.bank_of s id)) (λ _. h s id b)
      (λ _. k s id b)
