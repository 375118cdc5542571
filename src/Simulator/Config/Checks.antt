-- ===== src/Simulator/Config/Checks.antt =====
-- The results of the validation: a value or one of the errors of config.go, in a monad.
use virtual_bess.Prelude.{
  ℕ, List, ◌∷◌, ◌≡◌, ◌≢◌, refl, arith, Bool, true, false, ◌==◌, if◌then◌else◌,
}
use virtual_bess.Prelude.Text.{Text}
use virtual_bess.Prelude.Distinct.{elem}

pub data ConfigError : Type 0 where
  invalid_timezone : Text → ConfigError
  invalid_grid_coupling invalid_pcs_coupling : ConfigError
  no_battery_unit no_meter : ConfigError
  zero_slave_id : ConfigError
  slave_id_conflict : ℕ → ConfigError
  no_load_name : ConfigError
  duplicate_load : Text → ConfigError
  bad_flow_direction : Text → ConfigError
  unknown_pcs unknown_pv unknown_bms : ℕ → ConfigError
  unknown_load : Text → ConfigError
  bad_differential bad_setpoints : ConfigError
  no_devices : ConfigError
  duplicate_bms : ℕ → ConfigError
  no_address no_interface : ConfigError
  duplicate_address duplicate_interface : Text → ConfigError
  wrong_cluster_count : ℕ → ConfigError
  duplicate_cluster : ℕ → ConfigError
  goose_needs_iec61850 : ConfigError
  bad_ied_name duplicate_ied_name bad_iec61850_address : Text → ConfigError
  bad_app_id bad_mac duplicate_app_id : Text → ConfigError
  bad_interval bad_time_to_live : ConfigError
  unreadable_file bad_yaml : ConfigError

pub data Checked {ℓ} (A : Type ℓ) : Type ℓ where
  valid : A → Checked A
  invalid : ConfigError → Checked A

infixl 5 ◌>>=◌ ◌>>◌
abbrev pub ◌>>=◌ {ℓ κ} : {A : Type ℓ} {B : Type κ} → Checked A → (A → Checked B) → Checked B
valid a >>= f = f a
invalid e >>= f = invalid e

abbrev pub ◌>>◌ {ℓ} : {B : Type ℓ} → Checked (Unit {0}) → Checked B → Checked B
m >> k = m >>= λ _. k

-- `if bad { return err }`
abbrev pub refuse_if : Bool → ConfigError → Checked (Unit {0})
refuse_if bad e = if bad then invalid e else valid tt

-- What a successful chain did before.
pub >>=-valid {ℓ κ} :
    {A : Type ℓ} {B : Type κ} (m : Checked A) (f : A → Checked B) {b : B}
    → (m >>= f) ≡ valid b
    → (a : A) × (m ≡ valid a) × (f a ≡ valid b)
>>=-valid (valid a) f h = (a, refl, h)
>>=-valid (invalid e) f h = cc

pub refuse_if-valid :
    (bad : Bool) (e : ConfigError) {t : Unit {0}} → refuse_if bad e ≡ valid t → bad ≡ false
refuse_if-valid true e h = cc
refuse_if-valid false e h = refl

-- a sequence of checks that hold
pub >>-valid {ℓ} :
    {B : Type ℓ} (bad : Bool) (e : ConfigError) (k : Checked B) {b : B}
    → (refuse_if bad e >> k) ≡ valid b
    → (bad ≡ false) × (k ≡ valid b)
>>-valid true e k h = cc
>>-valid false e k h = (refl, h)

abbrev pub same_id : ℕ → ℕ → Bool
same_id = ◌==◌

pub same_id-eq : (x y : ℕ) → same_id x y ≡ true → x ≡ y
same_id-eq x y e = ground (arith, e)

-- the closure `check` of `validate`, on the ids seen; the names are for the text of the error alone
unfoldable pub check : ℕ → List ℕ → Checked (List ℕ)
check id seen = do
  refuse_if (id == 0) zero_slave_id
  refuse_if (elem same_id id seen) (slave_id_conflict id)
  valid (id ∷ seen)

pub check-valid :
    (id : ℕ) (seen : List ℕ) {seen' : List ℕ}
    → check id seen ≡ valid seen'
    → (id ≢ 0) × (elem same_id id seen ≡ false) × (seen' ≡ id ∷ seen)
unfolding check
check-valid id seen h =
    let (p, h1) = >>-valid (id == 0) zero_slave_id _ h in
    let (q, h2) = >>-valid (elem same_id id seen) (slave_id_conflict id) _ h1 in
    (ground (arith, p), q, cc h2)
