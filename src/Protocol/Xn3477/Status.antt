-- ===== src/Protocol/Xn3477/Status.antt =====
-- internal/protocol/xn3477/registers.go: the two status registers.
pub mod HighVoltage
use virtual_bess.Prelude.{ℕ, ◌==◌, ◌||◌, if◌then◌else◌}
use virtual_bess.Simulator.Registers.Bms.{
  bms_status_standby, bms_status_charging, bms_status_discharging,
}
use virtual_bess.Simulator.Registers.Cluster.{
  cluster_status_standby, cluster_status_stopped, cluster_status_charging,
  cluster_status_discharging, cluster_status_running,
}
use virtual_bess.Protocol.Xn3477.BcuRegisters.{
  xn_run_normal, xn_run_charge_forbidden, xn_run_discharge_forbidden, xn_run_standby,
  xn_run_stopped, xn_chg_dsg_rest, xn_chg_dsg_discharge, xn_chg_dsg_charge,
}

-- `xnOnlineMain`
unfoldable pub xn_online_main : ℕ → ℕ → ℕ
xn_online_main charge_forbidden discharge_forbidden =
    if charge_forbidden == 1
    then xn_run_charge_forbidden
    else if discharge_forbidden == 1
    then xn_run_discharge_forbidden
    else xn_run_normal

-- `xnStatus`
unfoldable pub xn_status : ℕ → ℕ → ℕ → ℕ × ℕ
unfolding xn_online_main
xn_status status charge_forbidden discharge_forbidden =
    if status == bms_status_standby
    then (xn_online_main charge_forbidden discharge_forbidden, xn_chg_dsg_rest)
    else if status == bms_status_charging
    then (xn_online_main charge_forbidden discharge_forbidden, xn_chg_dsg_charge)
    else if status == bms_status_discharging
    then (xn_online_main charge_forbidden discharge_forbidden, xn_chg_dsg_discharge)
    else (xn_run_standby, xn_chg_dsg_rest)

-- `xnClusterStatus`
unfoldable pub xn_cluster_status : ℕ → ℕ → ℕ → ℕ × ℕ
unfolding xn_online_main
xn_cluster_status status charge_forbidden discharge_forbidden =
    if status == cluster_status_standby || (status == cluster_status_running)
    then (xn_online_main charge_forbidden discharge_forbidden, xn_chg_dsg_rest)
    else if status == cluster_status_charging
    then (xn_online_main charge_forbidden discharge_forbidden, xn_chg_dsg_charge)
    else if status == cluster_status_discharging
    then (xn_online_main charge_forbidden discharge_forbidden, xn_chg_dsg_discharge)
    else if status == cluster_status_stopped
    then (xn_run_standby, xn_chg_dsg_rest)
    else (xn_run_stopped, xn_chg_dsg_rest)
