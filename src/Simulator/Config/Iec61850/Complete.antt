-- ===== src/Simulator/Config/Iec61850/Complete.antt =====
-- The IEC 61850 endpoints that are accepted are exactly the regular ones.
use virtual_bess.Prelude.{
  ℕ, List, [], ◌∷◌, ◌≡◌, ◌↔◌, refl, arith, Bool, true, false, not, ◌&&◌, Option, none, some, All,
  ◌==◌, if◌then◌else◌,
}
use virtual_bess.Prelude.Text.{Text, is_empty, same, same-eq}
use virtual_bess.Prelude.Distinct.{Fresh, Distinct, Distinct-Fresh}
use virtual_bess.Simulator.Config.{Iec61850Config, Iec61850DeviceConfig, Iec61850GooseConfig}
use virtual_bess.Simulator.Config.Names.{effective_ied_name, parse_iec61850_app_id}
use virtual_bess.Simulator.Config.Checks.{
  valid, >>-valid, same_id, same_id-eq, no_interface, bad_app_id,
}
use virtual_bess.Simulator.Config.Iec61850.{
  is_none, validate_iec61850_goose_config, goose_without_iec61850, add_app_id,
  validate_iec61850_devices, validate_iec61850,
}
use virtual_bess.Simulator.Config.Iec61850.Endpoints.{
  with_app_id, goose_app_ids, IsServed, names_of, addresses_of, validate_iec61850-IsServed,
}

-- GOOSE settings in order have an application id.
has_app_id :
    (goose : Iec61850GooseConfig)
    → validate_iec61850_goose_config goose ≡ valid tt
    → goose.enabled ≡ true
    → is_none (parse_iec61850_app_id goose.app_id) ≡ false
unfolding validate_iec61850_goose_config
has_app_id goose h on =
    let (_, h1) = >>-valid (is_empty goose.interface_id) no_interface _ (rw on at h) in
    (>>-valid (is_none (parse_iec61850_app_id goose.app_id)) (bad_app_id goose.app_id) _ h1).0

add_app_id-accepts :
    (enabled : Bool) (text : Text) (found : Option ℕ) (seen rest : List ℕ)
    → (enabled ≡ true → is_none found ≡ false)
    → Fresh same_id seen (with_app_id enabled found rest)
    → (seen' : List ℕ) × ((if enabled then add_app_id text seen found else valid seen)
        ≡ valid seen')
      × Fresh same_id seen' rest
add_app_id-accepts true text none seen rest h f = let impossible = h refl in cc
add_app_id-accepts true text (some id) seen rest h (p, f) = (id ∷ seen, rw p refl, f)
add_app_id-accepts false text found seen rest h f = (seen, refl, f)

not_enabled : (devices : List Iec61850DeviceConfig) → goose_without_iec61850 true devices ≡ false
not_enabled [] = refl
not_enabled (d ∷ devices) = ground (arith, not_enabled devices)

validate_iec61850_devices-accepts :
    (cfg : Iec61850Config) (pcs_ids : List ℕ) (names addresses : List Text) (app_ids : List ℕ)
    (devices : List Iec61850DeviceConfig)
    → All (IsServed cfg pcs_ids) devices
    → Fresh same names (names_of cfg devices)
    → Fresh same addresses (addresses_of devices)
    → Fresh same_id app_ids (goose_app_ids devices)
    → validate_iec61850_devices cfg pcs_ids names addresses app_ids devices ≡ valid tt
unfolding validate_iec61850_devices
validate_iec61850_devices-accepts cfg pcs_ids names addresses app_ids [] h f1 f2 f3 = refl
validate_iec61850_devices-accepts cfg pcs_ids names addresses app_ids (d ∷ devices) (e, h) (p, f1)
      (q, f2) f3 =
    let nonzero : (d.pcs_slave_id == 0) ≡ false = ground (arith, e.pcs_nonzero) in
    let (app_ids', r, f3') =
      add_app_id-accepts d.goose.enabled d.goose.app_id (parse_iec61850_app_id d.goose.app_id)
        app_ids (goose_app_ids devices) (has_app_id d.goose e.goose_valid) f3 in
    rw (e.name_valid, p, nonzero, e.pcs_known, e.has_address, e.address_splits, q, e.goose_valid, r)
      (validate_iec61850_devices-accepts cfg pcs_ids (effective_ied_name cfg d true ∷ names)
        (d.address ∷ addresses) app_ids' devices h f1 f2 f3')

-- IEC 61850 endpoints that are enabled, one at least, are accepted exactly if the names that they
-- take, their addresses, and the application ids of those that publish GOOSE are distinct, and each
-- has a valid name, a configured PCS, an address with a host and a port, and GOOSE settings in order.
pub validate_iec61850_iff :
    (cfg : Iec61850Config) (pcs_ids : List ℕ)
    → cfg.enabled ≡ true
    → is_empty cfg.devices ≡ false
    → (validate_iec61850 cfg pcs_ids ≡ valid tt) ↔ (
        Distinct (names_of cfg cfg.devices)
        × Distinct (addresses_of cfg.devices)
        × Distinct (goose_app_ids cfg.devices)
        × All (IsServed cfg pcs_ids) cfg.devices)
unfolding validate_iec61850 validate_iec61850_devices effective_ied_name
validate_iec61850_iff cfg pcs_ids on some_device = (
  validate_iec61850-IsServed cfg pcs_ids on some_device,
  λ (d1, d2, d3, all).
      let allowed : (cfg.goose.enabled && not true) ≡ false = ground arith in
      rw (on, allowed, not_enabled cfg.devices, some_device)
        (validate_iec61850_devices-accepts cfg pcs_ids [] [] [] cfg.devices all
          (Distinct-Fresh same same-eq [] (names_of cfg cfg.devices) tt d1)
          (Distinct-Fresh same same-eq [] (addresses_of cfg.devices) tt d2)
          (Distinct-Fresh same_id same_id-eq [] (goose_app_ids cfg.devices) tt d3)),
)
