-- ===== src/Simulator/Battery/Invariant/Tick.antt =====
-- A tick keeps the invariant of a battery unit.
use virtual_bess.Prelude.{ℕ, ◌≡◌, refl, arith, true, false, not, ◌==◌, ◌&&◌, ◌||◌, if◌then◌else◌}
use virtual_bess.Prelude.Go.{done}
use virtual_bess.Prelude.Hoare.{Ensures, Ensures-done, Ensures-if, Ensures-bind}
use virtual_bess.Simulator.Bank.Words.{read_u16-at}
use virtual_bess.Simulator.Bank.Effects.{IsSized, put, write_u16-put}
use virtual_bess.Simulator.Float.{Float, IsFloat, nought, le, jitter}
use virtual_bess.Simulator.Battery.{
  BatteryUnit, process_pcs_controls, start_up, shut_down, reset_fault, at_rest, remember,
  update_grid_voltage,
}
use virtual_bess.Simulator.Battery.Reactive.{
  reactive_mode_const_pf, reactive_mode_qu, reactive_from_power_factor, reactive_from_voltage_droop,
  grid_phase_voltage, reactive_target_kvar, update_reactive_output, limit_reactive_by_apparent,
}
use virtual_bess.Simulator.Battery.Power.{
  selected, sync_power_command_registers, commanded, process_power_command, update_energy,
  tick_unit,
}
use virtual_bess.Simulator.Battery.Invariant.{
  Inv, start_up-Inv, modes-Inv, at_rest-Inv, pcs_pulse-Inv, switched_at_rest-Inv, both_commands-Inv,
  process_bms_controls-Inv,
}
use virtual_bess.Simulator.Battery.Invariant.Energy.{update_energy-Inv}
use virtual_bess.Simulator.Registers.Pcs.{
  reg_pcs_grid_mode, reg_pcs_fault_reset, reg_pcs_startup, reg_pcs_shutdown, reg_pcs_estop,
  reg_pcs_remote_local, reg_pcs_power_cmd_alias, reg_pcs_power_cmd, reg_pcs_reactive_power_cmd,
  reg_pcs_reactive_mode_cmd, reg_pcs_power_factor_cmd, reg_pcs_grid_voltage_cmd,
}

module _ {F : Type 0} ⦃fl : Float F⦄ where
  -- `ProcessPCSControls` returns, and keeps the invariant.
  pub process_pcs_controls-Inv :
      (bu : BatteryUnit F) → Inv bu → Ensures Inv (process_pcs_controls bu)
  unfolding process_pcs_controls
  process_pcs_controls-Inv bu i =
      let remote = bu.pcs.holding.at reg_pcs_remote_local == 1 in
      let tied = bu.pcs.holding.at reg_pcs_grid_mode == 0 in
      let modes = record bu { remote_mode = remote; grid_tied = tied } in
      let i0 = modes-Inv bu remote tied bu.pcs_dc_under_volt_fault i in
      rw
        (
          read_u16-at bu.pcs i.pcs_sized reg_pcs_remote_local (omega arith),
          read_u16-at bu.pcs i.pcs_sized reg_pcs_grid_mode (omega arith),
        )
        (Ensures-bind _
          (pcs_pulse-Inv reg_pcs_startup start_up modes (omega arith) (omega arith) (omega arith) i0
            (start_up-Inv modes i0))
          λ b1 i1.
            Ensures-bind _
              (pcs_pulse-Inv reg_pcs_shutdown shut_down b1 (omega arith) (omega arith) (omega arith)
                i1 (switched_at_rest-Inv b1 false b1.bms_hv_closed i1))
              λ b2 i2.
                Ensures-bind _
                  (pcs_pulse-Inv reg_pcs_estop shut_down b2 (omega arith) (omega arith)
                    (omega arith) i2 (switched_at_rest-Inv b2 false b2.bms_hv_closed i2))
                  λ b3 i3.
                    pcs_pulse-Inv reg_pcs_fault_reset reset_fault b3 (omega arith) (omega arith)
                      (omega arith) i3 (modes-Inv b3 b3.remote_mode b3.grid_tied false i3))

  -- A droop or a set value is computed without a panic on a bank of 65536 registers.
  droop_returns :
      (bu : BatteryUnit F)
      → IsSized bu.pcs
      → Ensures (λ (q : F). q ≡ q) (reactive_from_voltage_droop bu)
  unfolding reactive_from_voltage_droop grid_phase_voltage
  droop_returns bu size = rw (read_u16-at bu.pcs size reg_pcs_grid_voltage_cmd (omega arith)) (
      Ensures-if (le bu.pcs_ac_voltage nought) (λ _. Ensures-done _ refl)
        (λ _. Ensures-done _ refl))

  factor_returns :
      (bu : BatteryUnit F) (kw : F)
      → IsSized bu.pcs
      → Ensures (λ (q : F). q ≡ q) (reactive_from_power_factor bu kw)
  unfolding reactive_from_power_factor
  factor_returns bu kw size =
      rw (read_u16-at bu.pcs size reg_pcs_power_factor_cmd (omega arith)) (Ensures-done _ refl)

  target_returns :
      (bu : BatteryUnit F) (mode : ℕ) (kw : F)
      → IsSized bu.pcs
      → Ensures (λ (q : F). q ≡ q) (reactive_target_kvar bu mode kw)
  unfolding reactive_target_kvar
  target_returns bu mode kw size =
      Ensures-if (mode == reactive_mode_const_pf) (λ _. factor_returns bu kw size)
        λ _.
          Ensures-if (mode == reactive_mode_qu) (λ _. droop_returns bu size)
            λ _.
              rw (read_u16-at bu.pcs size reg_pcs_reactive_power_cmd (omega arith))
                (Ensures-done _ refl)

  -- `updateReactiveOutput` on a bank of 65536 registers changes the reactive power alone.
  pub update_reactive_output_run :
      (draw : F) (bu : BatteryUnit F)
      → IsSized bu.pcs
      → (q : F) × (update_reactive_output draw bu ≡ done (record bu { actual_reactive_kvar = q }))
  unfolding update_reactive_output
  update_reactive_output_run draw bu size =
      let mode = bu.pcs.holding.at reg_pcs_reactive_mode_cmd in
      let (target, e, _) = target_returns bu mode bu.actual_power_kw size in
      let derived = (mode == reactive_mode_const_pf) || (mode == reactive_mode_qu) in
      (
        limit_reactive_by_apparent (if derived then target else fl.mul target (jitter draw))
            bu.actual_power_kw bu.rated_power_kw,
        rw (read_u16-at bu.pcs size reg_pcs_reactive_mode_cmd (omega arith), e) refl,
      )

  -- While the PCS runs with the contactor closed, its powers are free.
  pub powers-Inv :
      (bu : BatteryUnit F) (p q : F)
      → Inv bu
      → bu.pcs_running ≡ true
      → bu.bms_hv_closed ≡ true
      → Inv (record bu { actual_power_kw = p; actual_reactive_kvar = q })
  powers-Inv bu p q i running closed = record {
    pcs_sized = i.pcs_sized;
    bms_sized = i.bms_sized;
    input_sized = i.input_sized;
    open_resting = λ h. ground (arith, closed);
    stopped_resting = λ h. ground (arith, running);
    charged = i.charged;
    aliased = i.aliased;
  }

  pub voltage-Inv : (bu : BatteryUnit F) (v : F) → Inv bu → Inv (record bu { bus_voltage_v = v })
  voltage-Inv bu v i = record {
    pcs_sized = i.pcs_sized;
    bms_sized = i.bms_sized;
    input_sized = i.input_sized;
    open_resting = i.open_resting;
    stopped_resting = i.stopped_resting;
    charged = i.charged;
    aliased = i.aliased;
  }

  -- the unit behind `syncPowerCommandRegisters`
  abbrev pub commanded_both : BatteryUnit F → ℕ → BatteryUnit F
  commanded_both bu v =
      remember (record bu { pcs = put (put bu.pcs reg_pcs_power_cmd v) reg_pcs_power_cmd_alias v })
        v

  -- `syncPowerCommandRegisters` on a bank of 65536 registers: the command that it takes is in both
  -- registers, and remembered for both.
  pub sync_power_command_registers_run :
      (bu : BatteryUnit F) (v : ℕ)
      → IsSized bu.pcs
      → selected bu
          (bu.pcs.holding.at reg_pcs_power_cmd)
          (bu.pcs.holding.at reg_pcs_power_cmd_alias)
        ≡ v
      → sync_power_command_registers bu ≡ done (commanded_both bu v, v)
  unfolding sync_power_command_registers
  sync_power_command_registers_run bu v size e =
      rw
        (
          read_u16-at bu.pcs size reg_pcs_power_cmd (omega arith),
          read_u16-at bu.pcs size reg_pcs_power_cmd_alias (omega arith),
          e,
          write_u16-put bu.pcs reg_pcs_power_cmd v size (omega arith),
          write_u16-put (put bu.pcs reg_pcs_power_cmd v) reg_pcs_power_cmd_alias v size
              (omega arith),
        )
        refl

  -- `ProcessPowerCommand` returns, and keeps the invariant.
  pub process_power_command-Inv :
      (draw draw' : F) (bu : BatteryUnit F)
      → Inv bu
      → Ensures Inv (process_power_command draw draw' bu)
  unfolding process_power_command update_reactive_output
  process_power_command-Inv draw draw' bu i =
      let v =
        selected bu (bu.pcs.holding.at reg_pcs_power_cmd)
          (bu.pcs.holding.at reg_pcs_power_cmd_alias) in
      let b = commanded_both bu v in
      let ib : Inv b = both_commands-Inv bu v i in
      let p = fl.mul (commanded b v) (jitter draw) in
      rw (sync_power_command_registers_run bu v i.pcs_sized refl) (
        Ensures-if (b.pcs_running && b.remote_mode && b.bms_hv_closed)
          (λ on.
            let (q, e) =
              update_reactive_output_run draw' (record b { actual_power_kw = p }) i.pcs_sized in
            (
              record b { actual_power_kw = p; actual_reactive_kvar = q },
              e,
              powers-Inv b p q ib (ground (arith, on)) (ground (arith, on)),
            ))
          (λ _.
            Ensures-if (not b.remote_mode) (λ _. Ensures-done b ib)
              (λ _. Ensures-done (at_rest b) (at_rest-Inv b ib))))

  -- A tick of a unit returns, and keeps the invariant.
  pub tick_unit-Inv :
      (laws : IsFloat F) (dt draw draw' : F) (bu : BatteryUnit F)
      → Inv bu
      → Ensures Inv (tick_unit dt draw draw' bu)
  unfolding tick_unit update_grid_voltage
  tick_unit-Inv laws dt draw draw' bu i = Ensures-bind _ (process_bms_controls-Inv bu i) λ b1 i1.
      Ensures-bind _ (process_pcs_controls-Inv b1 i1) λ b2 i2.
        Ensures-bind _
          (process_power_command-Inv draw draw' (update_grid_voltage dt b2)
            (voltage-Inv b2 (update_grid_voltage dt b2).bus_voltage_v i2))
          λ b3 i3. Ensures-done (update_energy dt b3) (update_energy-Inv laws dt b3 i3)
