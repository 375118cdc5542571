-- ===== src/Simulator/Battery/Controls/Idle.antt =====
-- A battery unit ready for a power command: it runs, and no control register has a pulse, so that
-- `ProcessBMSControls` and `ProcessPCSControls` read the modes alone.
use virtual_bess.Prelude.{◌≡◌, ◌≢◌, refl, arith, true, false, ◌==◌}
use virtual_bess.Prelude.Go.{done}
use virtual_bess.Simulator.Bank.Words.{read_u16-at}
use virtual_bess.Simulator.Bank.Effects.{IsSized}
use virtual_bess.Simulator.Float.{Float}
use virtual_bess.Simulator.Battery.{BatteryUnit, process_bms_controls, process_pcs_controls}
use virtual_bess.Simulator.Registers.Pcs.{
  reg_pcs_grid_mode, reg_pcs_fault_reset, reg_pcs_startup, reg_pcs_shutdown, reg_pcs_estop,
  reg_pcs_remote_local,
}
use virtual_bess.Simulator.Registers.Bms.{reg_bms_close_hv, reg_bms_open_hv, reg_bms_fault_reset}

module _ {F : Type 0} ⦃fl : Float F⦄ where
  pub record IsReady (bu : BatteryUnit F) : Type 0 where
    pub pcs_sized : IsSized bu.pcs
    pub bms_sized : IsSized bu.bms
    pub running : bu.pcs_running ≡ true
    pub closed : bu.bms_hv_closed ≡ true
    pub remote : bu.pcs.holding.at reg_pcs_remote_local ≡ 1
    pub no_close : bu.bms.holding.at reg_bms_close_hv ≢ 1
    pub no_open : bu.bms.holding.at reg_bms_open_hv ≢ 1
    pub no_bms_reset : bu.bms.holding.at reg_bms_fault_reset ≢ 1
    pub no_startup : bu.pcs.holding.at reg_pcs_startup ≢ 1
    pub no_shutdown : bu.pcs.holding.at reg_pcs_shutdown ≢ 1
    pub no_estop : bu.pcs.holding.at reg_pcs_estop ≢ 1
    pub no_pcs_reset : bu.pcs.holding.at reg_pcs_fault_reset ≢ 1

  pub process_bms_controls_idle :
      (bu : BatteryUnit F) → IsReady bu → process_bms_controls bu ≡ done bu
  unfolding process_bms_controls
  process_bms_controls_idle bu r =
      let size = r.bms_sized in
      let closing : bu.bms.holding.at reg_bms_close_hv == 1 ≡ false = ground (arith, r.no_close) in
      let opening : bu.bms.holding.at reg_bms_open_hv == 1 ≡ false = ground (arith, r.no_open) in
      let reset : bu.bms.holding.at reg_bms_fault_reset == 1 ≡ false =
        ground (arith, r.no_bms_reset) in
      rw
        (
          read_u16-at bu.bms size reg_bms_close_hv (omega arith),
          closing,
          read_u16-at bu.bms size reg_bms_open_hv (omega arith),
          opening,
          read_u16-at bu.bms size reg_bms_fault_reset (omega arith),
          reset,
        )
        refl

  -- Only the modes are read: remote, and whether the grid is tied.
  pub process_pcs_controls_idle :
      (bu : BatteryUnit F)
      → IsReady bu
      → process_pcs_controls bu
        ≡ done
            (record bu { remote_mode = true; grid_tied = bu.pcs.holding.at reg_pcs_grid_mode == 0 })
  unfolding process_pcs_controls
  process_pcs_controls_idle bu r =
      let size = r.pcs_sized in
      let startup : bu.pcs.holding.at reg_pcs_startup == 1 ≡ false = ground (arith, r.no_startup) in
      let shutdown : bu.pcs.holding.at reg_pcs_shutdown == 1 ≡ false =
        ground (arith, r.no_shutdown) in
      let estop : bu.pcs.holding.at reg_pcs_estop == 1 ≡ false = ground (arith, r.no_estop) in
      let reset : bu.pcs.holding.at reg_pcs_fault_reset == 1 ≡ false =
        ground (arith, r.no_pcs_reset) in
      rw
        (
          read_u16-at bu.pcs size reg_pcs_remote_local (omega arith),
          read_u16-at bu.pcs size reg_pcs_grid_mode (omega arith),
          r.remote,
          read_u16-at bu.pcs size reg_pcs_startup (omega arith),
          startup,
          read_u16-at bu.pcs size reg_pcs_shutdown (omega arith),
          shutdown,
          read_u16-at bu.pcs size reg_pcs_estop (omega arith),
          estop,
          read_u16-at bu.pcs size reg_pcs_fault_reset (omega arith),
          reset,
        )
        refl
