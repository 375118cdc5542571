-- ===== src/Tests/Battery.antt =====
-- Battery units on numbers in thousandths.
use virtual_bess.Prelude.{ℕ, ◌+◌, ◌≤◌, ◌≡◌, ◌≢◌, ◌⊎◌, ◌↔◌, refl, arith, true, false}
use virtual_bess.Prelude.Go.{done, ◌>>=◌}
use virtual_bess.Prelude.Hoare.{Ensures}
use virtual_bess.Simulator.Bank.{new_slave_bank}
use virtual_bess.Simulator.Bank.Effects.{put, write_u16-put}
use virtual_bess.Simulator.Float.{ℤ, pos, negsuc, milli_float, Milli-IsFloat, nought}
use virtual_bess.Simulator.Battery.{
  BatteryUnit, BatterySettings, process_bms_controls, process_pcs_controls, on_bms_write, on_pcs,
  soc,
}
use virtual_bess.Simulator.Battery.Power.{commanded, update_energy, tick_unit}
use virtual_bess.Simulator.Battery.PcsSync.{sync_system_status}
use virtual_bess.Simulator.Battery.Sync.{SyncDraws, sync}
use virtual_bess.Simulator.Battery.Invariant.{IsResting, Inv}
use virtual_bess.Simulator.Battery.Invariant.Reach.{
  here, next, write_bms_register, started, started-Inv, new_battery_unit_run, pcs_written,
  bms_written, reachable_safe, reachable_runs,
}
use virtual_bess.Simulator.Battery.Controls.{process_bms_controls_contactor}
use virtual_bess.Simulator.Battery.Controls.Pcs.{process_pcs_controls_running, stopping}
use virtual_bess.Simulator.Battery.Command.{IsObeyed, at_alias_alone, power_command_followed}
use virtual_bess.Simulator.Battery.Controls.Idle.{IsReady}
use virtual_bess.Simulator.Battery.Status.{sync_system_status_shows}
use virtual_bess.Simulator.Registers.Pcs.{reg_pcs_shutdown, reg_pcs_fault_status}
use virtual_bess.Simulator.Registers.Bms.{
  reg_bms_fault_status, reg_bms_max_charge_pw, reg_bms_max_discharge_pw,
}
use virtual_bess.Simulator.Registers.Sys.{
  reg_sys_running, reg_sys_fault, reg_sys_standby, reg_sys_max_charge_pw, reg_sys_max_discharge_pw,
  reg_max_charge_pw_setting, reg_max_discharge_pw_setting,
}

abbrev pub settings : BatterySettings ℤ
settings = record {
  capacity_kwh = pos 200000;
  power_kw = pos 100000;
  health = pos 100000;
  initial_soc = pos 50000;
  voltage_full = pos 800000;
  clusters = 2;
  ac_voltage = pos 230000;
  deadband = pos 10;
  full_response = pos 50;
  grid = record {
    base_kva = pos 0;
    resistance_pu = pos 0;
    reactance_pu = pos 0;
    response_seconds = pos 0;
  };
}

abbrev pub unit : BatteryUnit ℤ
unit = started settings 1 2

-- 50.0 kW are commanded, and 150.0 kW are limited to the rated power
command_test : commanded unit 500 ≡ pos 50000
command_test = refl

limit_test : commanded unit 1500 ≡ pos 100000
limit_test = refl

-- an hour of charging with 50 kW
charge_test :
    (update_energy
      (pos 3600000)
      (record unit { actual_power_kw = negsuc 49999 })).current_energy_kwh
    ≡ pos 150000
unfolding update_energy soc
charge_test = refl

abbrev opening : BatteryUnit ℤ
opening = record unit { bms = put unit.bms 40002 1 }

opening_run : bms_written unit 40002 1 ≡ done opening
unfolding bms_written on_bms_write new_slave_bank
opening_run = rw (write_u16-put unit.bms 40002 1 refl (omega arith)) refl

pub unit-Inv : Inv unit
unit-Inv = started-Inv settings 1 2 (refl, refl, refl)

reachable_safe_example :
    (opening.bms_hv_closed ≡ false → IsResting opening)
    × (opening.pcs_running ≡ false → IsResting opening)
    × (milli_float.lt opening.current_energy_kwh nought ≡ false)
    × (milli_float.lt opening.rated_capacity_kwh opening.current_energy_kwh ≡ false)
reachable_safe_example =
    reachable_safe Milli-IsFloat settings 1 2 unit opening (refl, refl, refl)
      (new_battery_unit_run settings 1 2)
      (next here (write_bms_register 40002 1 (omega arith) opening_run))

abbrev draws : SyncDraws ℤ
draws = record {
  grid = record { float64 = λ k. pos 500; intn = λ k n. 0 };
  cells = record { float64 = λ k. pos 500; intn = λ k n. 0 };
  clusters = λ i. record { float64 = λ k. pos 500; intn = λ k n. 0 };
}

reachable_runs_example :
    ((u : BatteryUnit ℤ) × (pcs_written opening 30010 500 ≡ done u))
    × ((u : BatteryUnit ℤ) × (bms_written opening 30010 500 ≡ done u))
    × ((u : BatteryUnit ℤ) × (tick_unit (pos 1000) (pos 500) (pos 500) opening ≡ done u))
    × ((u : BatteryUnit ℤ) × (sync (pos 50000) draws opening ≡ done u))
reachable_runs_example =
    reachable_runs Milli-IsFloat unit opening 30010 500 (pos 1000) (pos 500) (pos 500) (pos 50000)
      draws unit-Inv (next here (write_bms_register 40002 1 (omega arith) opening_run))
      (omega arith)

unit-IsReady : IsReady unit
unfolding new_slave_bank
unit-IsReady = record {
  pcs_sized = unit-Inv.pcs_sized;
  bms_sized = unit-Inv.bms_sized;
  running = refl;
  closed = refl;
  remote = refl;
  no_close = omega arith;
  no_open = omega arith;
  no_bms_reset = omega arith;
  no_startup = omega arith;
  no_shutdown = omega arith;
  no_estop = omega arith;
  no_pcs_reset = omega arith;
}

power_command_followed_example :
    Ensures
      (IsObeyed (pos 1000) (pos 500) unit 1500)
      (do b ← on_pcs unit 3010 1500; tick_unit (pos 1000) (pos 500) (pos 500) b)
unfolding new_slave_bank
power_command_followed_example =
    power_command_followed (pos 1000) (pos 500) (pos 500) unit 1500 (on_pcs unit 3010 1500)
      unit-IsReady refl (at_alias_alone (record { alias = refl; last = refl; last_alias = refl }))

process_bms_controls_contactor_example :
    Ensures
      (λ (bu' : BatteryUnit ℤ).
        (bu'.bms_hv_closed ≡ false)
        × ((◌≡◌ {A = ℕ} 1 1) → (bu'.actual_power_kw ≡ nought) × (bu'.actual_reactive_kvar ≡ nought))
        × (bu'.bms.holding.at 40002 ≢ 1)
        × (bu'.bms.holding.at 40001 ≢ 1)
        × (bu'.bms.holding.at 40000 ≢ 1))
      (process_bms_controls opening)
unfolding new_slave_bank
process_bms_controls_contactor_example = process_bms_controls_contactor opening refl

abbrev shutting : BatteryUnit ℤ
shutting = record opening { pcs = put unit.pcs reg_pcs_shutdown 1 }

process_pcs_controls_running_example :
    Ensures
      (λ (bu' : BatteryUnit ℤ).
        (bu'.pcs_running ≡ false)
        × (stopping shutting ≡ true
            → (bu'.actual_power_kw ≡ nought) × (bu'.actual_reactive_kvar ≡ nought))
        × (bu'.pcs_dc_under_volt_fault ≡ false))
      (process_pcs_controls shutting)
unfolding new_slave_bank
process_pcs_controls_running_example = process_pcs_controls_running shutting refl

abbrev tripped : BatteryUnit ℤ
tripped = record unit { bms_hv_closed = false }

abbrev limited_unit : BatteryUnit ℤ
limited_unit = record unit {
  pcs = put unit.pcs reg_max_charge_pw_setting 300;
  bms = put unit.bms reg_bms_max_charge_pw 1000;
}

sync_system_status_shows_example :
    Ensures
      (λ (bu' : BatteryUnit ℤ).
        (bu'.pcs.holding.at reg_sys_running
            + bu'.pcs.holding.at reg_sys_fault
            + bu'.pcs.holding.at reg_sys_standby
          ≡ 1)
        × ((bu'.pcs.holding.at reg_sys_fault ≡ 1) ↔ (
            (limited_unit.pcs.holding.at reg_pcs_fault_status ≡ 1)
            ⊎ (limited_unit.bms.holding.at reg_bms_fault_status ≡ 1)))
        × (bu'.pcs.holding.at reg_sys_max_charge_pw ≤ 1000)
        × ((◌≢◌ {A = ℕ} 300 0) → bu'.pcs.holding.at reg_sys_max_charge_pw ≤ 300)
        × (bu'.pcs.holding.at reg_sys_max_discharge_pw
            ≤ limited_unit.bms.holding.at reg_bms_max_discharge_pw)
        × (limited_unit.pcs.holding.at reg_max_discharge_pw_setting ≢ 0
            → bu'.pcs.holding.at reg_sys_max_discharge_pw
              ≤ limited_unit.pcs.holding.at reg_max_discharge_pw_setting))
      (sync_system_status (pos 0) (pos 0) limited_unit)
unfolding new_slave_bank
sync_system_status_shows_example = sync_system_status_shows (pos 0) (pos 0) limited_unit refl refl
