-- ===== src/Simulator/Battery/Reactive.antt =====
-- internal/simulator/battery_reactive.go: the reactive power of the PCS.
use virtual_bess.Prelude.{ℕ, ◌==◌, ◌||◌, if◌then◌else◌}
use virtual_bess.Prelude.Go.{Run, done, ◌>>=◌}
use virtual_bess.Simulator.Bank.{read_u16}
use virtual_bess.Simulator.Float.{Float, le, nought, one, of_s16, jitter}
use virtual_bess.Simulator.Battery.{BatteryUnit}
use virtual_bess.Simulator.Registers.Pcs.{
  reg_pcs_reactive_power_cmd, reg_pcs_reactive_mode_cmd, reg_pcs_power_factor_cmd,
  reg_pcs_grid_voltage_cmd,
}

abbrev pub reactive_mode_const_q : ℕ
reactive_mode_const_q = 0

abbrev pub reactive_mode_const_pf : ℕ
reactive_mode_const_pf = 1

abbrev pub reactive_mode_qu : ℕ
reactive_mode_qu = 2

module _ {F : Type 0} ⦃fl : Float F⦄ where
  abbrev pub min_settable_power_factor : F
  min_settable_power_factor = fl.lit 5 2

  abbrev pub settable : F → F
  settable magnitude =
      let m = if fl.lt one magnitude then one else magnitude in
      if fl.lt m min_settable_power_factor then min_settable_power_factor else m

  -- `reactiveFromPowerFactor`, behind the read of the set value
  unfoldable pub reactive_of_power_factor : F → F → F
  reactive_of_power_factor set active_kw =
      let pf = if fl.eq set nought then one else set in
      let reactive = fl.mul (fl.abs active_kw) (fl.tan (fl.acos (settable (fl.abs pf)))) in
      if fl.lt pf nought then fl.neg reactive else reactive

  unfoldable pub reactive_from_power_factor : BatteryUnit F → F → Run F
  reactive_from_power_factor bu active_kw = do
    raw ← read_u16 bu.pcs reg_pcs_power_factor_cmd
    done (reactive_of_power_factor (fl.mul (of_s16 raw) (fl.lit 1 3)) active_kw)

  -- `gridPhaseVoltage`
  unfoldable pub grid_phase_voltage : BatteryUnit F → Run F
  grid_phase_voltage bu = do
    forced ← read_u16 bu.pcs reg_pcs_grid_voltage_cmd
    done (if forced == 0 then bu.bus_voltage_v else fl.mul (fl.of_nat forced) (fl.lit 1 1))

  -- `reactiveFromVoltageDroop`, behind the read of the voltage
  unfoldable pub reactive_of_deviation : BatteryUnit F → F → F
  reactive_of_deviation bu deviation =
      let magnitude = fl.abs deviation in
      if le magnitude bu.qu_deadband
      then nought
      else (let share =
            fl.div (fl.sub magnitude bu.qu_deadband) (fl.sub bu.qu_full_response bu.qu_deadband) in
          let ratio = if fl.lt one share then one else share in
          if fl.lt deviation nought
          then fl.mul ratio bu.rated_power_kw
          else fl.mul (fl.neg ratio) bu.rated_power_kw)

  unfoldable pub reactive_from_voltage_droop : BatteryUnit F → Run F
  reactive_from_voltage_droop bu = if le bu.pcs_ac_voltage nought then done nought else do
    voltage ← grid_phase_voltage bu
    done (reactive_of_deviation bu (fl.sub (fl.div voltage bu.pcs_ac_voltage) one))

  -- `reactiveTargetKVAr`
  unfoldable pub reactive_target_kvar : BatteryUnit F → ℕ → F → Run F
  reactive_target_kvar bu mode active_kw =
      if mode == reactive_mode_const_pf
      then reactive_from_power_factor bu active_kw
      else if mode == reactive_mode_qu
      then reactive_from_voltage_droop bu
      else do
        raw ← read_u16 bu.pcs reg_pcs_reactive_power_cmd
        done (fl.mul (of_s16 raw) (fl.lit 1 1))

  -- `limitReactiveByApparent`
  unfoldable pub limit_reactive_by_apparent : F → F → F → F
  limit_reactive_by_apparent reactive_kvar active_kw rated_kva =
      let headroom = fl.sub (fl.mul rated_kva rated_kva) (fl.mul active_kw active_kw) in
      if le headroom nought
      then nought
      else (let limit = fl.sqrt headroom in
          if fl.lt limit reactive_kvar
          then limit
          else if fl.lt reactive_kvar (fl.neg limit)
          then fl.neg limit
          else reactive_kvar)

  -- `updateReactiveOutput`, with the number that it draws in a constant mode
  unfoldable pub update_reactive_output : F → BatteryUnit F → Run (BatteryUnit F)
  update_reactive_output draw bu = do
    mode ← read_u16 bu.pcs reg_pcs_reactive_mode_cmd
    target ← reactive_target_kvar bu mode bu.actual_power_kw
    let derived = (mode == reactive_mode_const_pf) || (mode == reactive_mode_qu)
    let tracked = if derived then target else fl.mul target (jitter draw)
    done (record bu {
      actual_reactive_kvar =
          limit_reactive_by_apparent tracked bu.actual_power_kw bu.rated_power_kw;
    })
