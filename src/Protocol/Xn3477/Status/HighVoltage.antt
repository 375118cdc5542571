-- ===== src/Protocol/Xn3477/Status/HighVoltage.antt =====
-- The run status tells whether the high voltage is closed.
use virtual_bess.Prelude.{ℕ, ◌≤◌, ◌<◌, ◌≡◌, ◌≢◌, ◌⊎◌, ◌↔◌, arith}
use virtual_bess.Protocol.Xn3477.Status.{xn_status, xn_cluster_status, xn_online_main}

-- the values of the BMS status with closed high voltage: standby, charging and discharging
abbrev IsClosed : ℕ → Type 0
IsClosed status = (status ≡ 1) ⊎ ((status ≡ 3) ⊎ (status ≡ 4))

-- The run status that `xnStatus` reports is below 3, the value of an open high voltage, exactly if the
-- BMS is in standby, charging or discharging. It is normal exactly if, besides, neither charging
-- nor discharging is forbidden. The status of the current is charging or discharging exactly if
-- the BMS is.
xn_status-IsClosed :
    (status charge_forbidden discharge_forbidden : ℕ)
    → (((xn_status status charge_forbidden discharge_forbidden).0 < 3) ↔ IsClosed status)
      × (((xn_status status charge_forbidden discharge_forbidden).0 ≡ 0)
          ↔ (IsClosed status × (charge_forbidden ≢ 1) × (discharge_forbidden ≢ 1)))
      × (((xn_status status charge_forbidden discharge_forbidden).1 ≡ 2) ↔ (status ≡ 3))
      × (((xn_status status charge_forbidden discharge_forbidden).1 ≡ 1) ↔ (status ≡ 4))
unfolding xn_status xn_online_main
xn_status-IsClosed status charge_forbidden discharge_forbidden = (
  (λ h. ground arith, λ h. ground arith),
  (λ h. ground arith, λ h. ground arith),
  (λ h. ground arith, λ h. ground arith),
  (λ h. ground arith, λ h. ground arith),
)

-- A cluster reports the same pair as the whole battery, for every status that the two share but
-- starting, which is offline for a cluster.
pub xn_cluster_status-xn_status :
    (status charge_forbidden discharge_forbidden : ℕ)
    → 1 ≤ status
    → status ≤ 4
    → xn_cluster_status status charge_forbidden discharge_forbidden
      ≡ xn_status status charge_forbidden discharge_forbidden
unfolding xn_status xn_cluster_status
xn_cluster_status-xn_status status charge_forbidden discharge_forbidden low high = ground arith
