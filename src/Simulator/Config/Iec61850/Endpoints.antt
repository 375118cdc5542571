-- ===== src/Simulator/Config/Iec61850/Endpoints.antt =====
-- What IEC 61850 endpoints that are accepted satisfy.
use virtual_bess.Prelude.{
  arith, ◌≢◌, not-false, ℕ, List, [], ◌∷◌, map, ◌≡◌, refl, ==_refl, Bool, true, false, not, ◌&&◌,
  Option, none, some, All, ◌==◌, if◌then◌else◌,
}
use virtual_bess.Prelude.Integer.{ℤ}
use virtual_bess.Prelude.Text.{Text, is_empty, same, same_refl}
use virtual_bess.Prelude.Distinct.{elem, Fresh, Distinct, Fresh-Distinct}
use virtual_bess.Simulator.Config.{Iec61850Config, Iec61850DeviceConfig}
use virtual_bess.Simulator.Config.Names.{
  effective_ied_name, is_valid_ied_name, parse_iec61850_app_id, split_iec61850_address,
}
use virtual_bess.Simulator.Config.Checks.{
  Checked, valid, >>=-valid, >>-valid, same_id, goose_needs_iec61850, bad_ied_name,
  duplicate_ied_name, zero_slave_id, unknown_pcs, no_address, bad_iec61850_address,
  duplicate_address, duplicate_app_id,
}
use virtual_bess.Simulator.Config.Iec61850.{
  is_none, validate_iec61850_goose_config, goose_without_iec61850, add_app_id, seen_app_ids,
  validate_iec61850_devices, validate_iec61850,
}

not_none : {A : Type 0} (x : Option A) → is_none x ≡ false → (a : A) × (x ≡ some a)
not_none none h = cc
not_none (some a) h = (a, refl)

-- the application ids of the devices that publish GOOSE
abbrev pub with_app_id : Bool → Option ℕ → List ℕ → List ℕ
with_app_id true (some id) ids = id ∷ ids
with_app_id true none ids = ids
with_app_id false found ids = ids

abbrev pub goose_app_ids : List Iec61850DeviceConfig → List ℕ
goose_app_ids [] = []
goose_app_ids (d ∷ devices) =
    with_app_id d.goose.enabled (parse_iec61850_app_id d.goose.app_id) (goose_app_ids devices)

-- The endpoint has a valid name, belongs to a configured PCS, and listens on a host and a port; its
-- GOOSE settings are in order.
pub record IsServed (cfg : Iec61850Config) (pcs_ids : List ℕ) (d : Iec61850DeviceConfig)
    : Type 0 where
  pub name_valid : is_valid_ied_name (effective_ied_name cfg d true) ≡ true
  pub pcs_known : elem same_id d.pcs_slave_id pcs_ids ≡ true
  pub pcs_nonzero : d.pcs_slave_id ≢ 0
  pub has_address : is_empty d.address ≡ false
  pub goose_valid : validate_iec61850_goose_config d.goose ≡ valid tt
  pub listens : Text × ℤ
  pub address_splits : split_iec61850_address d.address ≡ some listens

abbrev pub names_of : Iec61850Config → List Iec61850DeviceConfig → List Text
names_of cfg = map (λ (d : Iec61850DeviceConfig). effective_ied_name cfg d true)

abbrev pub addresses_of : List Iec61850DeviceConfig → List Text
addresses_of = map (λ (d : Iec61850DeviceConfig). d.address)

-- the step of the application ids
added :
    (enabled : Bool) (text : Text) (found : Option ℕ) (seen : List ℕ) {seen' : List ℕ}
    (rest : List ℕ)
    → (if enabled then add_app_id text seen found else valid seen) ≡ valid seen'
    → Fresh same_id seen' rest
    → Fresh same_id seen (with_app_id enabled found rest)
added true text none seen rest h f = cc
added true text (some id) seen {seen'} rest h f =
    let (p, e) = >>-valid (elem same_id id seen) (duplicate_app_id text) _ h in
    let same_seen : seen' ≡ id ∷ seen = cc e in (p, rw same_seen at f)
added false text found seen {seen'} rest h f =
    let same_seen : seen' ≡ seen = cc h in rw same_seen at f

validate_iec61850_devices-IsServed :
    (cfg : Iec61850Config) (pcs_ids : List ℕ) (names addresses : List Text) (app_ids : List ℕ)
    (devices : List Iec61850DeviceConfig) {t : Unit {0}}
    → validate_iec61850_devices cfg pcs_ids names addresses app_ids devices ≡ valid t
    → All (IsServed cfg pcs_ids) devices
      × Fresh same names (names_of cfg devices)
      × Fresh same addresses (addresses_of devices)
      × Fresh same_id app_ids (goose_app_ids devices)
unfolding validate_iec61850_devices
validate_iec61850_devices-IsServed cfg pcs_ids names addresses app_ids [] h = (tt, tt, tt, tt)
validate_iec61850_devices-IsServed cfg pcs_ids names addresses app_ids (d ∷ devices) h =
    let name = effective_ied_name cfg d true in
    let split = split_iec61850_address d.address in
    let (v, h1) = >>-valid (not (is_valid_ied_name name)) (bad_ied_name name) _ h in
    let (n, h2) = >>-valid (elem same name names) (duplicate_ied_name name) _ h1 in
    let (z, h3) = >>-valid (d.pcs_slave_id == 0) zero_slave_id _ h2 in
    let (k, h4) =
      >>-valid (not (elem same_id d.pcs_slave_id pcs_ids)) (unknown_pcs d.pcs_slave_id) _ h3 in
    let (y, h5) = >>-valid (is_empty d.address) no_address _ h4 in
    let (s, h6) = >>-valid (is_none split) (bad_iec61850_address d.address) _ h5 in
    let (a, h7) = >>-valid (elem same d.address addresses) (duplicate_address d.address) _ h6 in
    let (_, g, h8) = >>=-valid (validate_iec61850_goose_config d.goose) _ h7 in
    let (app_ids', e, h9) = >>=-valid (seen_app_ids d.goose app_ids) _ h8 in
    let (host_port, x) = not_none split s in
    let (all, f1, f2, f3) =
      validate_iec61850_devices-IsServed cfg pcs_ids (name ∷ names) (d.address ∷ addresses) app_ids'
        devices h9 in
    let served : IsServed cfg pcs_ids d = record {
      name_valid = not-false (is_valid_ied_name name) v;
      pcs_known = not-false (elem same_id d.pcs_slave_id pcs_ids) k;
      pcs_nonzero = ground (arith, z);
      has_address = y;
      goose_valid = g;
      listens = host_port;
      address_splits = x;
    } in
    let fresh =
      added d.goose.enabled d.goose.app_id (parse_iec61850_app_id d.goose.app_id) app_ids
        (goose_app_ids devices) e f3 in
    ((served, all), (n, f1), (a, f2), fresh)

reached :
    (enabled nothing : Bool) (x y : Checked (Unit {0})) {z : Checked (Unit {0})} {t : Unit {0}}
    → enabled ≡ true
    → nothing ≡ false
    → (if not enabled then x else if nothing then y else z) ≡ valid t
    → z ≡ valid t
reached enabled nothing x y on some_device h = rw (on, some_device) at h

-- IEC 61850 endpoints that are enabled and accepted, one at least: the names that they take, their
-- addresses, and the application ids of those that publish GOOSE are distinct; each name is valid,
-- each address has a host and a port, each PCS is configured, and
-- the GOOSE settings are in order.
pub validate_iec61850-IsServed :
    (cfg : Iec61850Config) (pcs_ids : List ℕ) {t : Unit {0}}
    → cfg.enabled ≡ true
    → is_empty cfg.devices ≡ false
    → validate_iec61850 cfg pcs_ids ≡ valid t
    → Distinct (names_of cfg cfg.devices)
      × Distinct (addresses_of cfg.devices)
      × Distinct (goose_app_ids cfg.devices)
      × All (IsServed cfg pcs_ids) cfg.devices
unfolding validate_iec61850
validate_iec61850-IsServed cfg pcs_ids on some_device h =
    let (_, h1) = >>-valid (cfg.goose.enabled && not cfg.enabled) goose_needs_iec61850 _ h in
    let (_, h2) =
      >>-valid (goose_without_iec61850 cfg.enabled cfg.devices) goose_needs_iec61850 _ h1 in
    let (all, f1, f2, f3) =
      validate_iec61850_devices-IsServed cfg pcs_ids [] [] [] cfg.devices
        (reached cfg.enabled (is_empty cfg.devices) _ _ on some_device h2) in
    (
      Fresh-Distinct same same_refl [] (names_of cfg cfg.devices) f1,
      Fresh-Distinct same same_refl [] (addresses_of cfg.devices) f2,
      Fresh-Distinct same_id ==_refl [] (goose_app_ids cfg.devices) f3,
      all,
    )
