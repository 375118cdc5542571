-- ===== src/Simulator/Config/Xn3477/Complete.antt =====
-- The XN3477 endpoints that are accepted are exactly the regular ones.
use virtual_bess.Prelude.{
  ℕ, List, [], ◌∷◌, ◌≡◌, ◌≢◌, ◌↔◌, refl, ==_refl, arith, true, false, All, ◌==◌,
}
use virtual_bess.Prelude.Integer.{ℤ}
use virtual_bess.Prelude.Text.{Text, is_empty, same, same-eq}
use virtual_bess.Prelude.Distinct.{Fresh, Distinct, Distinct-Fresh}
use virtual_bess.Simulator.Config.{Xn3477Config, Xn3477DeviceConfig}
use virtual_bess.Simulator.Config.Checks.{valid, same_id, same_id-eq}
use virtual_bess.Simulator.Config.Xn3477.{
  validate_clusters, validate_xn3477_devices, validate_xn3477,
}
use virtual_bess.Simulator.Config.Xn3477.Accepted.{
  IsEndpoint, addresses_of, units_of, validate_xn3477-IsEndpoint,
}

validate_clusters-accepts :
    (ids slaves : List ℕ)
    → All (λ id. id ≢ 0) ids
    → Fresh same_id slaves ids
    → validate_clusters ids slaves ≡ valid tt
unfolding validate_clusters
validate_clusters-accepts [] slaves h f = refl
validate_clusters-accepts (id ∷ ids) slaves (p, h) (q, f) =
    let nonzero : (id == 0) ≡ false = ground (arith, p) in
    rw (nonzero, q) (validate_clusters-accepts ids (id ∷ slaves) h f)

validate_xn3477_devices-accepts :
    (counts : List (ℕ × ℤ)) (addresses : List Text) (units : List ℕ)
    (devices : List Xn3477DeviceConfig)
    → All (IsEndpoint counts) devices
    → Fresh same addresses (addresses_of devices)
    → Fresh same_id units (units_of devices)
    → validate_xn3477_devices counts addresses units devices ≡ valid tt
unfolding validate_xn3477_devices
validate_xn3477_devices-accepts counts addresses units [] h f g = refl
validate_xn3477_devices-accepts counts addresses units (d ∷ devices) (e, h) (p, f) (q, g) =
    let nonzero : (d.bau_slave_id == 0) ≡ false = ground (arith, e.ids_nonzero.0) in
    let (apart, rest) = e.ids_distinct in
    let clusters =
      validate_clusters-accepts d.cluster_slave_ids (d.bau_slave_id ∷ []) e.ids_nonzero.1 (
        Distinct-Fresh same_id same_id-eq (d.bau_slave_id ∷ []) d.cluster_slave_ids (apart, tt)
          rest) in
    rw (e.counted, q, e.has_address, p, nonzero, e.complete, ==_refl e.clusters, clusters)
      (validate_xn3477_devices-accepts counts (d.address ∷ addresses) (d.bms_slave_id ∷ units)
        devices h f g)

-- XN3477 endpoints that are enabled are accepted exactly if there is one at least; no two share an
-- address, nor has one the address of the other Modbus server; no two show the same BMS; and each has
-- a slave for the BAU and one for every cluster of its BMS, with ids of their own that are not zero,
-- and an address.
pub validate_xn3477_iff :
    (cfg : Xn3477Config) (modbus_address : Text) (counts : List (ℕ × ℤ))
    → cfg.enabled ≡ true
    → (validate_xn3477 cfg modbus_address counts ≡ valid tt) ↔ (
        (is_empty cfg.devices ≡ false)
        × Distinct (modbus_address ∷ addresses_of cfg.devices)
        × Distinct (units_of cfg.devices)
        × All (IsEndpoint counts) cfg.devices)
unfolding validate_xn3477
validate_xn3477_iff cfg modbus_address counts on = (
  validate_xn3477-IsEndpoint cfg modbus_address counts on,
  λ (some_device, (apart, d), units, all).
      rw (on, some_device)
        (validate_xn3477_devices-accepts counts (modbus_address ∷ []) [] cfg.devices all
          (Distinct-Fresh same same-eq (modbus_address ∷ []) (addresses_of cfg.devices) (apart, tt)
            d)
          (Distinct-Fresh same_id same_id-eq [] (units_of cfg.devices) tt units)),
)
