-- ===== src/Simulator/Battery/Sync.antt =====
-- internal/simulator/battery_sync.go: `Sync`.
use virtual_bess.Prelude.{ℕ}
use virtual_bess.Prelude.Go.{Run, ◌>>=◌}
use virtual_bess.Simulator.Float.{Float}
use virtual_bess.Simulator.Battery.{BatteryUnit, soc, battery_voltage}
use virtual_bess.Simulator.Battery.PcsSync.{
  Draws, sync_pcs_status, sync_pcs_power, sync_pcs_grid, sync_pcs_dc, sync_pcs_temperature,
  sync_system_status,
}
use virtual_bess.Simulator.Battery.BmsSync.{
  sync_bms_status, sync_bms_energy, sync_bms_limits, sync_bms_cell_stats,
}
use virtual_bess.Simulator.Battery.ClusterSync.{sync_cluster_registers}

-- the numbers that one `Sync` draws, by the function that draws them
pub record SyncDraws (F : Type 0) : Type 0 where
  pub grid : Draws F
  pub cells : Draws F
  pub clusters : ℕ → Draws F

module _ {F : Type 0} ⦃fl : Float F⦄ where
  -- `Sync`
  unfoldable pub sync : F → SyncDraws F → BatteryUnit F → Run (BatteryUnit F)
  sync grid_frequency_hz draws bu = do
    let percent = soc bu
    let power_kw = bu.actual_power_kw
    let reactive_kvar = bu.actual_reactive_kvar
    let bat_voltage = battery_voltage bu
    b1 ← sync_pcs_status power_kw bu
    b2 ← sync_pcs_power power_kw reactive_kvar b1
    b3 ← sync_pcs_grid grid_frequency_hz draws.grid power_kw reactive_kvar b2
    b4 ← sync_pcs_dc power_kw bat_voltage b3
    b5 ← sync_pcs_temperature b4
    b6 ← sync_bms_status percent power_kw b5
    b7 ← sync_bms_energy percent bat_voltage power_kw b6
    b8 ← sync_bms_limits percent bat_voltage b7
    b9 ← sync_bms_cell_stats draws.cells b8
    b10 ← sync_system_status power_kw reactive_kvar b9
    sync_cluster_registers draws.clusters percent bat_voltage power_kw b10
