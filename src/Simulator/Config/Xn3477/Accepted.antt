-- ===== src/Simulator/Config/Xn3477/Accepted.antt =====
-- What XN3477 endpoints that are accepted satisfy.
use virtual_bess.Prelude.{
  ℕ, List, [], ◌∷◌, map, ◌≡◌, ◌≢◌, refl, ==_refl, arith, true, false, not, Option, none, some, All,
  ◌==◌, length,
}
use virtual_bess.Prelude.Integer.{ℤ, pos, negsuc}
use virtual_bess.Prelude.Text.{Text, is_empty, same, same_refl}
use virtual_bess.Prelude.Distinct.{elem, Fresh, Distinct, Fresh-Distinct}
use virtual_bess.Simulator.Config.{Xn3477Config, Xn3477DeviceConfig}
use virtual_bess.Simulator.Config.Checks.{
  valid, >>=-valid, >>-valid, same_id, no_devices, duplicate_bms, no_address, duplicate_address,
  zero_slave_id, wrong_cluster_count, duplicate_cluster,
}
use virtual_bess.Simulator.Config.Xn3477.{
  lookup_count, is_count, validate_clusters, count_or_refuse, validate_xn3477_devices,
  validate_xn3477,
}

-- The slaves of an endpoint have ids of their own that are not zero, one for each cluster and one for
-- the BAU.
pub record IsEndpoint (counts : List (ℕ × ℤ)) (device : Xn3477DeviceConfig) : Type 0 where
  pub clusters : ℕ
  pub counted : lookup_count device.bms_slave_id counts ≡ some (pos clusters)
  pub complete : length device.cluster_slave_ids ≡ clusters
  pub ids_nonzero : All (λ id. id ≢ 0) (device.bau_slave_id ∷ device.cluster_slave_ids)
  pub ids_distinct : Distinct (device.bau_slave_id ∷ device.cluster_slave_ids)
  pub has_address : is_empty device.address ≡ false

abbrev pub addresses_of : List Xn3477DeviceConfig → List Text
addresses_of = map (λ (d : Xn3477DeviceConfig). d.address)

abbrev pub units_of : List Xn3477DeviceConfig → List ℕ
units_of = map (λ (d : Xn3477DeviceConfig). d.bms_slave_id)

-- The ids of the clusters are new and not zero.
abbrev AreNew : List ℕ → List ℕ → Type 0
AreNew slaves ids = All (λ id. id ≢ 0) ids × Fresh same_id slaves ids

validate_clusters-AreNew :
    (ids slaves : List ℕ) {t : Unit {0}}
    → validate_clusters ids slaves ≡ valid t
    → AreNew slaves ids
unfolding validate_clusters
validate_clusters-AreNew [] slaves h = (tt, tt)
validate_clusters-AreNew (id ∷ ids) slaves h =
    let (p, h1) = >>-valid (id == 0) zero_slave_id _ h in
    let (q, h2) = >>-valid (elem same_id id slaves) (duplicate_cluster id) _ h1 in
    let (all, fresh) = validate_clusters-AreNew ids (id ∷ slaves) h2 in
    ((ground (arith, p), all), (q, fresh))

found_count :
    (id : ℕ) (found : Option ℤ) {n : ℤ} → count_or_refuse id found ≡ valid n → found ≡ some n
found_count id none h = cc
found_count id (some m) h = cc

is_count-pos : (n : ℕ) (count : ℤ) → not (is_count n count) ≡ false → count ≡ pos n
is_count-pos n (pos m) h = ground (arith, h)
is_count-pos n (negsuc m) h = cc

validate_xn3477_devices-IsEndpoint :
    (counts : List (ℕ × ℤ)) (addresses : List Text) (units : List ℕ)
    (devices : List Xn3477DeviceConfig) {t : Unit {0}}
    → validate_xn3477_devices counts addresses units devices ≡ valid t
    → All (IsEndpoint counts) devices
      × Fresh same addresses (addresses_of devices)
      × Fresh same_id units (units_of devices)
unfolding validate_xn3477_devices
validate_xn3477_devices-IsEndpoint counts addresses units [] h = (tt, tt, tt)
validate_xn3477_devices-IsEndpoint counts addresses units (d ∷ devices) h =
    let ids = d.cluster_slave_ids in
    let found = lookup_count d.bms_slave_id counts in
    let (n, e, h1) = >>=-valid (count_or_refuse d.bms_slave_id found) _ h in
    let (b, h2) =
      >>-valid (elem same_id d.bms_slave_id units) (duplicate_bms d.bms_slave_id) _ h1 in
    let (a, h3) = >>-valid (is_empty d.address) no_address _ h2 in
    let (f, h4) = >>-valid (elem same d.address addresses) (duplicate_address d.address) _ h3 in
    let (z, h5) = >>-valid (d.bau_slave_id == 0) zero_slave_id _ h4 in
    let (c, h6) =
      >>-valid (not (is_count (length ids) n)) (wrong_cluster_count (length ids)) _ h5 in
    let (t', x, h7) = >>=-valid (validate_clusters ids (d.bau_slave_id ∷ [])) _ h6 in
    let (all, fresh) = validate_clusters-AreNew ids (d.bau_slave_id ∷ []) x in
    let (rest, r1, r2) =
      validate_xn3477_devices-IsEndpoint counts (d.address ∷ addresses) (d.bms_slave_id ∷ units)
        devices h7 in
    let endpoint : IsEndpoint counts d = record {
      clusters = length ids;
      counted = cc (found_count d.bms_slave_id found e, is_count-pos (length ids) n c);
      complete = refl;
      ids_nonzero = (ground (arith, z), all);
      ids_distinct = Fresh-Distinct same_id ==_refl [] (d.bau_slave_id ∷ ids) (refl, fresh);
      has_address = a;
    } in
    ((endpoint, rest), (f, r1), (b, r2))

-- XN3477 endpoints that are enabled and accepted: there is one at least; no two share an address, nor
-- has one the address of the other Modbus server; no two show the same BMS; and each has a slave for
-- the BAU and one for every cluster of its BMS, with ids of their own that are not zero.
pub validate_xn3477-IsEndpoint :
    (cfg : Xn3477Config) (modbus_address : Text) (counts : List (ℕ × ℤ)) {t : Unit {0}}
    → cfg.enabled ≡ true
    → validate_xn3477 cfg modbus_address counts ≡ valid t
    → (is_empty cfg.devices ≡ false)
      × Distinct (modbus_address ∷ addresses_of cfg.devices)
      × Distinct (units_of cfg.devices)
      × All (IsEndpoint counts) cfg.devices
unfolding validate_xn3477
validate_xn3477-IsEndpoint cfg modbus_address counts on h =
    let (some_device, h1) = >>-valid (is_empty cfg.devices) no_devices _ (rw on at h) in
    let (all, f, g) =
      validate_xn3477_devices-IsEndpoint counts (modbus_address ∷ []) [] cfg.devices h1 in
    (
      some_device,
      Fresh-Distinct same same_refl [] (modbus_address ∷ addresses_of cfg.devices) (refl, f),
      Fresh-Distinct same_id ==_refl [] (units_of cfg.devices) g,
      all,
    )
