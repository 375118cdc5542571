-- ===== src/Simulator/Battery/Controls/Pcs.antt =====
-- What the control pulses of the PCS do.
use virtual_bess.Prelude.{
  ℕ, ◌<◌, ◌≡◌, ◌≢◌, refl, ◌∙◌, arith, Bool, true, false, not, ◌==◌, ◌&&◌, ◌||◌, if◌then◌else◌,
}
use virtual_bess.Prelude.Go.{done}
use virtual_bess.Prelude.Hoare.{Ensures}
use virtual_bess.Simulator.Bank.Words.{read_u16-at}
use virtual_bess.Simulator.Bank.Effects.{IsSized, put, write_u16-put}
use virtual_bess.Simulator.Float.{Float, nought}
use virtual_bess.Simulator.Battery.{
  BatteryUnit, process_pcs_controls, pcs_pulse, start_up, shut_down, reset_fault,
}
use virtual_bess.Simulator.Registers.Pcs.{
  reg_pcs_grid_mode, reg_pcs_fault_reset, reg_pcs_startup, reg_pcs_shutdown, reg_pcs_estop,
  reg_pcs_remote_local,
}

module _ {F : Type 0} ⦃fl : Float F⦄ where
  -- What a pulse leaves on a bank of 65536 registers.
  abbrev pub pcs_pulsed : ℕ → (BatteryUnit F → BatteryUnit F) → BatteryUnit F → BatteryUnit F
  pcs_pulsed reg effect bu =
      if bu.pcs.holding.at reg == 1
      then record (effect bu) { pcs = put (effect bu).pcs reg 0 }
      else bu

  pcs_pulse_run :
      (reg : ℕ) (effect : BatteryUnit F → BatteryUnit F) (bu : BatteryUnit F)
      → reg < 65535
      → IsSized bu.pcs
      → (effect bu).pcs ≡ bu.pcs
      → (pcs_pulse reg effect bu ≡ done (pcs_pulsed reg effect bu))
        × IsSized (pcs_pulsed reg effect bu).pcs
  pcs_pulse_run reg effect bu h size same =
      let size' : IsSized (effect bu).pcs = rw same size in
      (
        rw (read_u16-at bu.pcs size reg h, write_u16-put (effect bu).pcs reg 0 size' (omega arith))
            (ground arith),
        ground arith,
      )

  -- what the pulse of a PCS register does to the fields that the theorems speak of
  record IsPulsed (reg : ℕ) (e b b' : BatteryUnit F) : Type 0 where
    running : b'.pcs_running ≡ (if b.pcs.holding.at reg == 1 then e.pcs_running else b.pcs_running)
    fault : b'.pcs_dc_under_volt_fault ≡ (
        if b.pcs.holding.at reg == 1 then e.pcs_dc_under_volt_fault else b.pcs_dc_under_volt_fault)
    power :
        b'.actual_power_kw
        ≡ (if b.pcs.holding.at reg == 1 then e.actual_power_kw else b.actual_power_kw)
    reactive :
        b'.actual_reactive_kvar
        ≡ (if b.pcs.holding.at reg == 1 then e.actual_reactive_kvar else b.actual_reactive_kvar)
    frame : (j : ℕ) → j ≢ reg → b'.pcs.holding.at j ≡ b.pcs.holding.at j

  pcs_pulsed-IsPulsed :
      (reg : ℕ) (effect : BatteryUnit F → BatteryUnit F) (bu : BatteryUnit F)
      → (effect bu).pcs ≡ bu.pcs
      → IsPulsed reg (effect bu) bu (pcs_pulsed reg effect bu)
  pcs_pulsed-IsPulsed reg effect bu same = record {
    running = ground arith;
    fault = ground arith;
    power = ground arith;
    reactive = ground arith;
    frame = λ j h. ground arith;
  }

  module _ (b0 b1 b2 b3 b4 : BatteryUnit F) (p1 : IsPulsed reg_pcs_startup (start_up b0) b0 b1)
      (p2 : IsPulsed reg_pcs_shutdown (shut_down b1) b1 b2)
      (p3 : IsPulsed reg_pcs_estop (shut_down b2) b2 b3)
      (p4 : IsPulsed reg_pcs_fault_reset (reset_fault b3) b3 b4) where
    abbrev stopped : Bool
    stopped = (b0.pcs.holding.at reg_pcs_shutdown == 1) || (b0.pcs.holding.at reg_pcs_estop == 1)

    shutdown_seen : b1.pcs.holding.at reg_pcs_shutdown ≡ b0.pcs.holding.at reg_pcs_shutdown
    shutdown_seen = p1.frame reg_pcs_shutdown (omega arith)

    estop_seen : b2.pcs.holding.at reg_pcs_estop ≡ b0.pcs.holding.at reg_pcs_estop
    estop_seen = p2.frame reg_pcs_estop (omega arith) ∙ p1.frame reg_pcs_estop (omega arith)

    reset_seen : b3.pcs.holding.at reg_pcs_fault_reset ≡ b0.pcs.holding.at reg_pcs_fault_reset
    reset_seen =
        p3.frame reg_pcs_fault_reset (omega arith)
        ∙ p2.frame reg_pcs_fault_reset (omega arith)
        ∙ p1.frame reg_pcs_fault_reset (omega arith)

    pulses-running : b4.pcs_running ≡ (
        if stopped
        then false
        else if (b0.pcs.holding.at reg_pcs_startup == 1) && b0.bms_hv_closed
        then true
        else b0.pcs_running)
    pulses-running =
        rw (p4.running, p3.running, p2.running, p1.running, shutdown_seen, estop_seen)
          (ground arith)

    pulses-rest :
        stopped ≡ true → (b4.actual_power_kw ≡ nought) × (b4.actual_reactive_kvar ≡ nought)
    pulses-rest h = (
      rw (p4.power, p3.power, p2.power, p1.power, shutdown_seen, estop_seen) (ground arith),
      rw (p4.reactive, p3.reactive, p2.reactive, p1.reactive, shutdown_seen, estop_seen)
          (ground arith),
    )

    pulses-fault : b4.pcs_dc_under_volt_fault ≡ (
        if b0.pcs.holding.at reg_pcs_fault_reset == 1
        then false
        else if (b0.pcs.holding.at reg_pcs_startup == 1) && not b0.bms_hv_closed
        then true
        else b0.pcs_dc_under_volt_fault)
    pulses-fault = rw (p4.fault, p3.fault, p2.fault, p1.fault, reset_seen) (ground arith)

  module _ (bu : BatteryUnit F) where
    abbrev pub modes_read : BatteryUnit F
    modes_read = record bu {
      remote_mode = bu.pcs.holding.at reg_pcs_remote_local == 1;
      grid_tied = bu.pcs.holding.at reg_pcs_grid_mode == 0;
    }

    abbrev pub after_pcs_controls : BatteryUnit F
    after_pcs_controls = pcs_pulsed reg_pcs_fault_reset reset_fault (
        pcs_pulsed reg_pcs_estop shut_down
          (pcs_pulsed reg_pcs_shutdown shut_down (pcs_pulsed reg_pcs_startup start_up modes_read)))

    pub process_pcs_controls_run :
        IsSized bu.pcs → process_pcs_controls bu ≡ done after_pcs_controls
    unfolding process_pcs_controls
    process_pcs_controls_run size =
        let at1 = read_u16-at bu.pcs size reg_pcs_remote_local (omega arith) in
        let at2 = read_u16-at bu.pcs size reg_pcs_grid_mode (omega arith) in
        let (run1, size1) =
          pcs_pulse_run reg_pcs_startup start_up modes_read (omega arith) size (ground arith) in
        let bu1 = pcs_pulsed reg_pcs_startup start_up modes_read in
        let (run2, size2) = pcs_pulse_run reg_pcs_shutdown shut_down bu1 (omega arith) size1 refl in
        let bu2 = pcs_pulsed reg_pcs_shutdown shut_down bu1 in
        let (run3, size3) = pcs_pulse_run reg_pcs_estop shut_down bu2 (omega arith) size2 refl in
        let bu3 = pcs_pulsed reg_pcs_estop shut_down bu2 in
        let (run4, _) =
          pcs_pulse_run reg_pcs_fault_reset reset_fault bu3 (omega arith) size3 refl in
        rw (at1, at2, run1, run2, run3, run4) refl

    -- the pulses that stand in the registers
    abbrev pub starting : Bool
    starting = bu.pcs.holding.at reg_pcs_startup == 1

    abbrev pub stopping : Bool
    stopping = (bu.pcs.holding.at reg_pcs_shutdown == 1) || (bu.pcs.holding.at reg_pcs_estop == 1)

    abbrev pub clearing : Bool
    clearing = bu.pcs.holding.at reg_pcs_fault_reset == 1

    -- `ProcessPCSControls` returns on a bank of 65536 registers. A shutdown or an emergency stop ends
    -- with the PCS stopped and without power, also beside a start-up pulse; a start-up alone starts it
    -- if the contactor is closed; else it runs or stands as before. The DC undervoltage fault is clear
    -- after a reset, else set by a start-up with the contactor open, else as before.
    pub process_pcs_controls_running :
        IsSized bu.pcs
        → Ensures
            (λ bu'.
              (bu'.pcs_running ≡ (
                if stopping
                then false
                else if starting && bu.bms_hv_closed
                then true
                else bu.pcs_running))
              × (stopping ≡ true
                  → (bu'.actual_power_kw ≡ nought) × (bu'.actual_reactive_kvar ≡ nought))
              × (bu'.pcs_dc_under_volt_fault ≡ (
                  if clearing
                  then false
                  else if starting && not bu.bms_hv_closed
                  then true
                  else bu.pcs_dc_under_volt_fault)))
            (process_pcs_controls bu)
    process_pcs_controls_running size =
        let p1 = pcs_pulsed-IsPulsed reg_pcs_startup start_up modes_read (ground arith) in
        let b1 = pcs_pulsed reg_pcs_startup start_up modes_read in
        let p2 = pcs_pulsed-IsPulsed reg_pcs_shutdown shut_down b1 refl in
        let b2 = pcs_pulsed reg_pcs_shutdown shut_down b1 in
        let p3 = pcs_pulsed-IsPulsed reg_pcs_estop shut_down b2 refl in
        let b3 = pcs_pulsed reg_pcs_estop shut_down b2 in
        let p4 = pcs_pulsed-IsPulsed reg_pcs_fault_reset reset_fault b3 refl in
        (
          after_pcs_controls,
          process_pcs_controls_run size,
          (
            pulses-running modes_read b1 b2 b3 after_pcs_controls p1 p2 p3 p4,
            pulses-rest modes_read b1 b2 b3 after_pcs_controls p1 p2 p3 p4,
            pulses-fault modes_read b1 b2 b3 after_pcs_controls p1 p2 p3 p4,
          ),
        )
