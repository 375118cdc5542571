-- ===== src/Simulator/Config/Xn3477.antt =====
-- internal/simulator/config_xn3477.go: the validation of the XN3477 endpoints.
pub mod Accepted
pub mod Complete
use virtual_bess.Prelude.{
  ℕ, List, [], ◌∷◌, Bool, true, false, not, Option, none, some, ◌==◌, if◌then◌else◌, length,
}
use virtual_bess.Prelude.Integer.{ℤ, pos, negsuc}
use virtual_bess.Prelude.Text.{Text, is_empty, same}
use virtual_bess.Prelude.Distinct.{elem}
use virtual_bess.Simulator.Config.{Xn3477Config, Xn3477DeviceConfig}
use virtual_bess.Simulator.Config.Checks.{
  Checked, valid, invalid, ◌>>=◌, ◌>>◌, refuse_if, same_id, no_devices, unknown_bms, duplicate_bms,
  no_address, duplicate_address, zero_slave_id, wrong_cluster_count, duplicate_cluster,
}

-- `bmsClusterCounts[id]`; the newest entry comes first
abbrev pub lookup_count : ℕ → List (ℕ × ℤ) → Option ℤ
lookup_count id [] = none
lookup_count id ((k, n) ∷ counts) = if id == k then some n else lookup_count id counts

-- `n == count` for a length `n`
abbrev pub is_count : ℕ → ℤ → Bool
is_count n (pos m) = n == m
is_count n (negsuc m) = false

-- the loop over `ClusterSlaveIDs`, on the slaves of the endpoint
unfoldable pub validate_clusters : List ℕ → List ℕ → Checked (Unit {0})
validate_clusters [] slaves = valid tt
validate_clusters (id ∷ ids) slaves = do
  refuse_if (id == 0) zero_slave_id
  refuse_if (elem same_id id slaves) (duplicate_cluster id)
  validate_clusters ids (id ∷ slaves)

abbrev pub count_or_refuse : ℕ → Option ℤ → Checked ℤ
count_or_refuse id none = invalid (unknown_bms id)
count_or_refuse id (some n) = valid n

-- the loop over the devices, on `addresses` and `bmsDevices`
unfoldable pub validate_xn3477_devices :
    List (ℕ × ℤ) → List Text → List ℕ → List Xn3477DeviceConfig → Checked (Unit {0})
validate_xn3477_devices counts addresses bms_devices [] = valid tt
validate_xn3477_devices counts addresses bms_devices (device ∷ devices) = do
  cluster_count ← count_or_refuse device.bms_slave_id (lookup_count device.bms_slave_id counts)
  refuse_if (elem same_id device.bms_slave_id bms_devices) (duplicate_bms device.bms_slave_id)
  refuse_if (is_empty device.address) no_address
  refuse_if (elem same device.address addresses) (duplicate_address device.address)
  refuse_if (device.bau_slave_id == 0) zero_slave_id
  refuse_if (not (is_count (length device.cluster_slave_ids) cluster_count))
      (wrong_cluster_count (length device.cluster_slave_ids))
  validate_clusters device.cluster_slave_ids (device.bau_slave_id ∷ [])
  validate_xn3477_devices counts (device.address ∷ addresses) (device.bms_slave_id ∷ bms_devices)
      devices

-- `XN3477Config.validate`
unfoldable pub validate_xn3477 : Xn3477Config → Text → List (ℕ × ℤ) → Checked (Unit {0})
validate_xn3477 cfg modbus_address counts = if not cfg.enabled then valid tt else (do
  refuse_if (is_empty cfg.devices) no_devices
  validate_xn3477_devices counts (modbus_address ∷ []) [] cfg.devices)
