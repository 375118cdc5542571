-- ===== src/Simulator/Battery.antt =====
-- internal/simulator/battery_unit.go: one battery unit, a PCS slave and a BMS slave with the state
-- that they share. The random numbers that the code draws are arguments.
pub mod Reactive
pub mod Power
pub mod PcsSync
pub mod BmsSync
pub mod ClusterSync
pub mod Sync
pub mod Controls
pub mod Invariant
pub mod Command
pub mod Status
use virtual_bess.Prelude.{ℕ, ◌≡◌, Bool, true, false, not, ltb, ◌==◌, ◌&&◌, ◌||◌, if◌then◌else◌}
use virtual_bess.Prelude.Go.{Run, done, ◌>>=◌}
use virtual_bess.Simulator.Bank.{SlaveBank, read_u16, write_u16}
use virtual_bess.Simulator.Float.{Float, le, nought, one}
use virtual_bess.Simulator.GridVoltage.{
  GridCouplingConfig, resolve_coupling, default_pcs_coupling, bus_voltage_target, relax_voltage,
}
use virtual_bess.Simulator.Registers.Pcs.{
  reg_pcs_grid_mode, reg_pcs_run_mode, reg_pcs_fault_reset, reg_pcs_startup, reg_pcs_shutdown,
  reg_pcs_estop, reg_pcs_remote_local, reg_pcs_power_cmd_alias, reg_pcs_power_cmd,
}
use virtual_bess.Simulator.Registers.Bms.{reg_bms_fault_reset, reg_bms_close_hv, reg_bms_open_hv}

-- `BatteryUnit`
pub record BatteryUnit (F : Type 0) : Type 0 where
  pub pcs : SlaveBank
  pub bms : SlaveBank
  pub rated_capacity_kwh : F
  pub rated_power_kw : F
  pub soh : F
  pub battery_voltage_full : F
  pub pcs_ac_voltage : F
  pub qu_deadband : F
  pub qu_full_response : F
  pub cluster_count : ℕ
  pub coupling : GridCouplingConfig F
  pub current_energy_kwh : F
  pub pcs_running : Bool
  pub bms_hv_closed : Bool
  pub remote_mode : Bool
  pub grid_tied : Bool
  pub actual_power_kw : F
  pub actual_reactive_kvar : F
  pub bus_voltage_v : F
  pub last_power_cmd_raw : ℕ
  pub last_power_cmd_alias_raw : ℕ
  pub pcs_dc_under_volt_fault : Bool
  pub total_charge_kwh : F
  pub total_discharge_kwh : F
  pub session_charge_kwh : F
  pub session_discharge_kwh : F

-- the fields of `BatteryUnitConfig` and `PCSConfig` that `NewBatteryUnit` reads
pub record BatterySettings (F : Type 0) : Type 0 where
  pub capacity_kwh : F
  pub power_kw : F
  pub health : F
  pub initial_soc : F
  pub voltage_full : F
  pub clusters : ℕ
  pub ac_voltage : F
  pub deadband : F
  pub full_response : F
  pub grid : GridCouplingConfig F

-- `boolToU16`
abbrev pub bool_to_u16 : Bool → ℕ
bool_to_u16 v = if v then 1 else 0

module _ {F : Type 0} ⦃fl : Float F⦄ where
  -- the struct literal and the default droop curve of `NewBatteryUnit`
  abbrev pub initial_unit : BatterySettings F → SlaveBank → SlaveBank → BatteryUnit F
  initial_unit cfg pcs bms =
      let flat = le cfg.deadband nought || le cfg.full_response cfg.deadband in
      record {
        pcs = pcs;
        bms = bms;
        rated_capacity_kwh = cfg.capacity_kwh;
        rated_power_kw = cfg.power_kw;
        soh = cfg.health;
        battery_voltage_full = cfg.voltage_full;
        pcs_ac_voltage = cfg.ac_voltage;
        qu_deadband = if flat then fl.lit 1 2 else cfg.deadband;
        qu_full_response = if flat then fl.lit 5 2 else cfg.full_response;
        cluster_count = cfg.clusters;
        coupling = resolve_coupling cfg.grid default_pcs_coupling cfg.power_kw;
        current_energy_kwh = fl.div (fl.mul cfg.capacity_kwh cfg.initial_soc) (fl.lit 100 0);
        pcs_running = true;
        bms_hv_closed = true;
        remote_mode = true;
        grid_tied = true;
        actual_power_kw = nought;
        actual_reactive_kvar = nought;
        bus_voltage_v = cfg.ac_voltage;
        last_power_cmd_raw = 0;
        last_power_cmd_alias_raw = 0;
        pcs_dc_under_volt_fault = false;
        total_charge_kwh = nought;
        total_discharge_kwh = nought;
        session_charge_kwh = nought;
        session_discharge_kwh = nought;
      }

  -- `NewBatteryUnit`
  unfoldable pub new_battery_unit : BatterySettings F → SlaveBank → SlaveBank → Run (BatteryUnit F)
  new_battery_unit cfg pcs bms = do
    pcs1 ← write_u16 pcs reg_pcs_remote_local 1
    pcs2 ← write_u16 pcs1 reg_pcs_grid_mode 0
    pcs3 ← write_u16 pcs2 reg_pcs_run_mode 2
    done (initial_unit cfg pcs3 bms)

  -- `SOC`, in percent
  unfoldable pub soc : BatteryUnit F → F
  soc bu =
      if fl.eq bu.rated_capacity_kwh nought
      then nought
      else fl.mul (fl.div bu.current_energy_kwh bu.rated_capacity_kwh) (fl.lit 100 0)

  -- `cellCount`
  unfoldable pub cell_count : BatteryUnit F → ℕ
  cell_count bu =
      let n = fl.to_int (fl.round (fl.div bu.battery_voltage_full (fl.lit 36 1))) in
      if ltb n 2 then 2 else n

  -- `cellAvgVoltage`
  unfoldable pub cell_avg_voltage : BatteryUnit F → F
  cell_avg_voltage bu =
      fl.add (fl.lit 28 1)
        (fl.div (fl.mul (fl.sub (fl.lit 36 1) (fl.lit 28 1)) (soc bu)) (fl.lit 100 0))

  -- `BatteryVoltage`
  unfoldable pub battery_voltage : BatteryUnit F → F
  battery_voltage bu = fl.mul (fl.of_nat (cell_count bu)) (cell_avg_voltage bu)

  -- `bu.pcs.WriteU16(reg, v)` and `bu.bms.WriteU16(reg, v)`
  abbrev pub on_pcs : BatteryUnit F → ℕ → ℕ → Run (BatteryUnit F)
  on_pcs bu reg v = do pcs ← write_u16 bu.pcs reg v; done (record bu { pcs = pcs })

  abbrev pub on_bms : BatteryUnit F → ℕ → ℕ → Run (BatteryUnit F)
  on_bms bu reg v = do bms ← write_u16 bu.bms reg v; done (record bu { bms = bms })

  abbrev pub remember : BatteryUnit F → ℕ → BatteryUnit F
  remember bu value = record bu { last_power_cmd_raw = value; last_power_cmd_alias_raw = value }

  -- `OnPCSWrite`
  unfoldable pub on_pcs_write : BatteryUnit F → ℕ → ℕ → Run (BatteryUnit F)
  on_pcs_write bu addr value =
      if addr == reg_pcs_power_cmd
      then (do bu' ← on_pcs bu reg_pcs_power_cmd_alias value; done (remember bu' value))
      else if addr == reg_pcs_power_cmd_alias
      then (do bu' ← on_pcs bu reg_pcs_power_cmd value; done (remember bu' value))
      else done bu

  -- `OnBMSWrite`
  unfoldable pub on_bms_write : BatteryUnit F → ℕ → ℕ → Run (BatteryUnit F)
  on_bms_write bu addr value = done bu

  -- `bu.actualPowerKW = 0; bu.actualReactiveKVAr = 0`
  abbrev pub at_rest : BatteryUnit F → BatteryUnit F
  at_rest bu = record bu { actual_power_kw = nought; actual_reactive_kvar = nought }

  -- A control pulse of the PCS or the BMS: when the register reads 1, the effect, and the register is
  -- cleared.
  abbrev pub pcs_pulse : ℕ → (BatteryUnit F → BatteryUnit F) → BatteryUnit F → Run (BatteryUnit F)
  pcs_pulse reg effect bu = do
    v ← read_u16 bu.pcs reg
    if v == 1 then on_pcs (effect bu) reg 0 else done bu

  abbrev pub bms_pulse : ℕ → (BatteryUnit F → BatteryUnit F) → BatteryUnit F → Run (BatteryUnit F)
  bms_pulse reg effect bu = do
    v ← read_u16 bu.bms reg
    if v == 1 then on_bms (effect bu) reg 0 else done bu

  abbrev pub close_hv : BatteryUnit F → BatteryUnit F
  close_hv bu = record bu { bms_hv_closed = true }

  abbrev pub open_hv : BatteryUnit F → BatteryUnit F
  open_hv bu = at_rest (record bu { bms_hv_closed = false })

  -- `ProcessBMSControls`
  unfoldable pub process_bms_controls : BatteryUnit F → Run (BatteryUnit F)
  process_bms_controls bu = do
    bu1 ← bms_pulse reg_bms_close_hv close_hv bu
    bu2 ← bms_pulse reg_bms_open_hv open_hv bu1
    bms_pulse reg_bms_fault_reset (λ b. b) bu2

  abbrev pub start_up : BatteryUnit F → BatteryUnit F
  start_up bu =
      if not bu.bms_hv_closed
      then record bu { pcs_dc_under_volt_fault = true }
      else record bu { pcs_running = true }

  abbrev pub shut_down : BatteryUnit F → BatteryUnit F
  shut_down bu = at_rest (record bu { pcs_running = false })

  abbrev pub reset_fault : BatteryUnit F → BatteryUnit F
  reset_fault bu = record bu { pcs_dc_under_volt_fault = false }

  -- `ProcessPCSControls`
  unfoldable pub process_pcs_controls : BatteryUnit F → Run (BatteryUnit F)
  process_pcs_controls bu = do
    remote ← read_u16 bu.pcs reg_pcs_remote_local
    mode ← read_u16 bu.pcs reg_pcs_grid_mode
    bu1 ←
        pcs_pulse reg_pcs_startup start_up
          (record bu { remote_mode = remote == 1; grid_tied = mode == 0 })
    bu2 ← pcs_pulse reg_pcs_shutdown shut_down bu1
    bu3 ← pcs_pulse reg_pcs_estop shut_down bu2
    pcs_pulse reg_pcs_fault_reset reset_fault bu3

  -- `UpdateGridVoltage`
  unfoldable pub update_grid_voltage : F → BatteryUnit F → BatteryUnit F
  update_grid_voltage dt bu =
      let target =
        bus_voltage_target bu.coupling bu.pcs_ac_voltage bu.actual_power_kw
          bu.actual_reactive_kvar in
      record bu {
        bus_voltage_v = relax_voltage bu.bus_voltage_v target dt bu.coupling.response_seconds;
      }
