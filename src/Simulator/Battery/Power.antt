-- ===== src/Simulator/Battery/Power.antt =====
-- internal/simulator/battery_unit.go: the power command and the energy.
use virtual_bess.Prelude.{ℕ, not, ◌==◌, ◌&&◌, if◌then◌else◌}
use virtual_bess.Prelude.Go.{Run, done, ◌>>=◌}
use virtual_bess.Simulator.Bank.{read_u16}
use virtual_bess.Simulator.Float.{Float, le, nought, of_s16, jitter}
use virtual_bess.Simulator.GridVoltage.{clamp}
use virtual_bess.Simulator.Battery.{
  BatteryUnit, on_pcs, at_rest, remember, soc, process_bms_controls, process_pcs_controls,
  update_grid_voltage,
}
use virtual_bess.Simulator.Battery.Reactive.{update_reactive_output}
use virtual_bess.Simulator.Registers.Pcs.{reg_pcs_power_cmd_alias, reg_pcs_power_cmd}

module _ {F : Type 0} ⦃fl : Float F⦄ where
  -- the choice of `syncPowerCommandRegisters`: the register changed since the last tick
  abbrev pub selected : BatteryUnit F → ℕ → ℕ → ℕ
  selected bu cmd_raw alias_raw =
      if not (alias_raw == bu.last_power_cmd_alias_raw) && (cmd_raw == bu.last_power_cmd_raw)
      then alias_raw
      else cmd_raw

  -- `syncPowerCommandRegisters`, with the command that it returns
  unfoldable pub sync_power_command_registers : BatteryUnit F → Run (BatteryUnit F × ℕ)
  sync_power_command_registers bu = do
    cmd_raw ← read_u16 bu.pcs reg_pcs_power_cmd
    alias_raw ← read_u16 bu.pcs reg_pcs_power_cmd_alias
    bu1 ← on_pcs bu reg_pcs_power_cmd (selected bu cmd_raw alias_raw)
    bu2 ← on_pcs bu1 reg_pcs_power_cmd_alias (selected bu cmd_raw alias_raw)
    done (remember bu2 (selected bu cmd_raw alias_raw), selected bu cmd_raw alias_raw)

  -- the command in kW, limited to the rated power
  abbrev pub commanded : BatteryUnit F → ℕ → F
  commanded bu raw = clamp bu.rated_power_kw (fl.mul (of_s16 raw) (fl.lit 1 1))

  -- `ProcessPowerCommand`, with the numbers drawn for the active and the reactive power
  unfoldable pub process_power_command : F → F → BatteryUnit F → Run (BatteryUnit F)
  process_power_command draw draw' bu = do
    (bu', cmd_raw) ← sync_power_command_registers bu
    if bu'.pcs_running && bu'.remote_mode && bu'.bms_hv_closed
        then update_reactive_output draw'
            (record bu' { actual_power_kw = fl.mul (commanded bu' cmd_raw) (jitter draw) })
        else if not bu'.remote_mode
        then done bu'
        else done (at_rest bu')

  abbrev pub no_power : BatteryUnit F → BatteryUnit F
  no_power bu = record bu { actual_power_kw = nought }

  -- the totals of `UpdateEnergy`
  abbrev pub count_energy : F → BatteryUnit F → BatteryUnit F
  count_energy delta bu =
      if fl.lt nought delta
      then record bu {
        total_charge_kwh = fl.add bu.total_charge_kwh delta;
        session_charge_kwh = fl.add bu.session_charge_kwh delta;
      }
      else if fl.lt delta nought
      then record bu {
        total_discharge_kwh = fl.add bu.total_discharge_kwh (fl.neg delta);
        session_discharge_kwh = fl.add bu.session_discharge_kwh (fl.neg delta);
      }
      else bu

  -- the limits at the end of `UpdateEnergy`
  abbrev pub not_below_empty : BatteryUnit F → BatteryUnit F
  not_below_empty bu =
      if fl.lt bu.current_energy_kwh nought
      then record bu { current_energy_kwh = nought; actual_power_kw = nought }
      else bu

  abbrev pub not_above_full : BatteryUnit F → BatteryUnit F
  not_above_full bu =
      if fl.lt bu.rated_capacity_kwh bu.current_energy_kwh
      then record bu { current_energy_kwh = bu.rated_capacity_kwh; actual_power_kw = nought }
      else bu

  abbrev pub move_energy : F → BatteryUnit F → BatteryUnit F
  move_energy dt bu =
      let delta = fl.div (fl.mul (fl.neg bu.actual_power_kw) dt) (fl.lit 3600 0) in
      not_above_full (
        not_below_empty (
          count_energy delta
            (record bu { current_energy_kwh = fl.add bu.current_energy_kwh delta })))

  -- `UpdateEnergy`
  unfoldable pub update_energy : F → BatteryUnit F → BatteryUnit F
  update_energy dt bu =
      if fl.eq bu.actual_power_kw nought
      then bu
      else if fl.lt bu.actual_power_kw nought && le (fl.lit 100 0) (soc bu)
      then no_power bu
      else if fl.lt nought bu.actual_power_kw && le (soc bu) nought
      then no_power bu
      else move_energy dt bu

  -- what `Tick` does with one battery unit
  unfoldable pub tick_unit : F → F → F → BatteryUnit F → Run (BatteryUnit F)
  tick_unit dt draw draw' bu = do
    bu1 ← process_bms_controls bu
    bu2 ← process_pcs_controls bu1
    bu3 ← process_power_command draw draw' (update_grid_voltage dt bu2)
    done (update_energy dt bu3)
