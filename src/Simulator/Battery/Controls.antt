-- ===== src/Simulator/Battery/Controls.antt =====
-- What the control pulses of the BMS do.
pub mod Idle
pub mod Pcs
use virtual_bess.Prelude.{
  ℕ, ◌<◌, ◌≡◌, ◌≢◌, refl, ◌∙◌, arith, Bool, true, false, not, ◌==◌, ◌&&◌, ◌||◌, if◌then◌else◌,
}
use virtual_bess.Prelude.Go.{done}
use virtual_bess.Prelude.Hoare.{Ensures}
use virtual_bess.Simulator.Bank.Words.{read_u16-at}
use virtual_bess.Simulator.Bank.Effects.{IsSized, put, write_u16-put}
use virtual_bess.Simulator.Float.{Float, nought}
use virtual_bess.Simulator.Battery.{
  BatteryUnit, process_bms_controls, process_pcs_controls, bms_pulse, pcs_pulse, close_hv, open_hv,
  start_up, shut_down, reset_fault,
}
use virtual_bess.Simulator.Registers.Pcs.{
  reg_pcs_grid_mode, reg_pcs_fault_reset, reg_pcs_startup, reg_pcs_shutdown, reg_pcs_estop,
  reg_pcs_remote_local,
}
use virtual_bess.Simulator.Registers.Bms.{reg_bms_fault_reset, reg_bms_close_hv, reg_bms_open_hv}

module _ {F : Type 0} ⦃fl : Float F⦄ where
  -- What a pulse leaves on a bank of 65536 registers.
  abbrev pub bms_pulsed : ℕ → (BatteryUnit F → BatteryUnit F) → BatteryUnit F → BatteryUnit F
  bms_pulsed reg effect bu =
      if bu.bms.holding.at reg == 1
      then record (effect bu) { bms = put (effect bu).bms reg 0 }
      else bu

  bms_pulse_run :
      (reg : ℕ) (effect : BatteryUnit F → BatteryUnit F) (bu : BatteryUnit F)
      → reg < 65535
      → IsSized bu.bms
      → (effect bu).bms ≡ bu.bms
      → (bms_pulse reg effect bu ≡ done (bms_pulsed reg effect bu))
        × IsSized (bms_pulsed reg effect bu).bms
  bms_pulse_run reg effect bu h size same =
      let size' : IsSized (effect bu).bms = rw same size in
      (
        rw (read_u16-at bu.bms size reg h, write_u16-put (effect bu).bms reg 0 size' (omega arith))
            (ground arith),
        ground arith,
      )

  module _ (bu : BatteryUnit F) where
    abbrev pub after_bms_controls : BatteryUnit F
    after_bms_controls =
        bms_pulsed reg_bms_fault_reset (λ b. b)
          (bms_pulsed reg_bms_open_hv open_hv (bms_pulsed reg_bms_close_hv close_hv bu))

    pub process_bms_controls_run :
        IsSized bu.bms → process_bms_controls bu ≡ done after_bms_controls
    unfolding process_bms_controls
    process_bms_controls_run size =
        let (run1, size1) = bms_pulse_run reg_bms_close_hv close_hv bu (omega arith) size refl in
        let bu1 = bms_pulsed reg_bms_close_hv close_hv bu in
        let (run2, size2) = bms_pulse_run reg_bms_open_hv open_hv bu1 (omega arith) size1 refl in
        let bu2 = bms_pulsed reg_bms_open_hv open_hv bu1 in
        let (run3, _) = bms_pulse_run reg_bms_fault_reset (λ b. b) bu2 (omega arith) size2 refl in
        rw (run1, run2, run3) refl

    -- `ProcessBMSControls` returns on a bank of 65536 registers. The contactor is open after an open
    -- pulse, closed after a close pulse alone, else as it was; an open pulse also takes both powers to
    -- zero; the three pulse registers do not read 1 any more.
    pub process_bms_controls_contactor :
        IsSized bu.bms
        → Ensures
            (λ bu'.
              (bu'.bms_hv_closed ≡ (
                if bu.bms.holding.at reg_bms_open_hv == 1
                then false
                else if bu.bms.holding.at reg_bms_close_hv == 1
                then true
                else bu.bms_hv_closed))
              × (bu.bms.holding.at reg_bms_open_hv ≡ 1
                  → (bu'.actual_power_kw ≡ nought) × (bu'.actual_reactive_kvar ≡ nought))
              × (bu'.bms.holding.at reg_bms_open_hv ≢ 1)
              × (bu'.bms.holding.at reg_bms_close_hv ≢ 1)
              × (bu'.bms.holding.at reg_bms_fault_reset ≢ 1))
            (process_bms_controls bu)
    process_bms_controls_contactor size = (
      after_bms_controls,
      process_bms_controls_run size,
      (ground arith, ground arith, ground arith, ground arith, ground arith),
    )
