-- ===== src/Simulator/Pv.antt =====
-- internal/simulator/pv_unit.go and pv_sync.go: one PV inverter. The local time of the site is an
-- argument, since the time zone is looked up in Go's library.
pub mod Simulation
pub mod Sync
pub mod Limits
pub mod Bounds
pub mod Kept
use virtual_bess.Prelude.{
  ℕ, ◌+◌, ◌*◌, List, [], ◌∷◌, Bool, true, false, not, ltb, ◌==◌, ◌||◌, if◌then◌else◌,
}
use virtual_bess.Prelude.Go.{Run, done, ◌>>=◌}
use virtual_bess.Simulator.Bank.{SlaveBank, read_u16, write_u16, write_u32}
use virtual_bess.Simulator.Bank.Effects.{write_words}
use virtual_bess.Simulator.Float.{Float, le, nought, one, jitter}
use virtual_bess.Simulator.Registers.Pv.{
  reg_pv_startup, reg_pv_shutdown, reg_pv_percent_limit, reg_pv_fixed_limit, reg_pv_run_status,
  reg_pv_total_energy_hi, reg_pv_daily_energy_hi, reg_pv_monthly_energy_hi, reg_pv_yearly_energy_hi,
  reg_pv_rated_power, reg_pv_fault_alarm, reg_pv_ac_voltage_a, reg_pv_ac_voltage_b,
  reg_pv_ac_voltage_c, reg_pv_ac_current_a, reg_pv_ac_current_b, reg_pv_ac_current_c,
  reg_pv_grid_frequency, reg_pv_power_factor, reg_pv_ac_active_power, reg_pv_ac_reactive_power,
  reg_pv_inverter_efficiency, reg_pv_daily_peak_power, reg_pv_apparent_power, reg_pv_dc_input_power,
  reg_pv_internal_temp, reg_pv_dc_voltage, reg_pv_dc_current,
}

-- the fields of `now.In(siteLocation)`
pub record LocalTime : Type 0 where
  pub year : ℕ
  pub month : ℕ
  pub year_day : ℕ
  pub hour : ℕ
  pub minute : ℕ
  pub second : ℕ
  pub nanosecond : ℕ

-- `pvLimitMode`
pub data PvLimitMode : Type 0 where
  pv_limit_percent : PvLimitMode
  pv_limit_fixed : PvLimitMode

-- `PVUnit`
pub record PvUnit (F : Type 0) : Type 0 where
  pub bank : SlaveBank
  pub rated_power_kw : F
  pub pcs_ac_voltage : F
  pub battery_voltage_nom : F
  pub running : Bool
  pub actual_power_kw : F
  pub total_energy_kwh : F
  pub daily_energy_kwh : F
  pub monthly_energy_kwh : F
  pub yearly_energy_kwh : F
  pub daily_peak_power_kw : F
  pub limit_mode : PvLimitMode
  pub last_percent_limit_raw : ℕ
  pub last_fixed_limit_raw : ℕ
  pub day_key : ℕ
  pub month_key : ℕ
  pub year_key : ℕ

-- `clampU16`
abbrev pub clamp_u16 : ℕ → ℕ → ℕ → ℕ
clamp_u16 value low high = if ltb value low then low else if ltb high value then high else value

module _ {F : Type 0} ⦃fl : Float F⦄ where
  -- the struct literal of `NewPVUnit`, with the limit that it remembers
  abbrev pub initial_pv : F → F → SlaveBank → PvUnit F
  initial_pv rated_power_kw pcs_ac_voltage bank = record {
    bank = bank;
    rated_power_kw = rated_power_kw;
    pcs_ac_voltage = pcs_ac_voltage;
    battery_voltage_nom = fl.lit 800 0;
    running = true;
    actual_power_kw = nought;
    total_energy_kwh = nought;
    daily_energy_kwh = nought;
    monthly_energy_kwh = nought;
    yearly_energy_kwh = nought;
    daily_peak_power_kw = nought;
    limit_mode = pv_limit_percent;
    last_percent_limit_raw = 1000;
    last_fixed_limit_raw = 0;
    day_key = 0;
    month_key = 0;
    year_key = 0;
  }

  -- `NewPVUnit`
  unfoldable pub new_pv_unit : F → F → SlaveBank → Run (PvUnit F)
  new_pv_unit rated_power_kw pcs_ac_voltage bank = do
    bank' ← write_u16 bank reg_pv_percent_limit 1000
    done (initial_pv rated_power_kw pcs_ac_voltage bank')

  -- `maxFixedLimitRaw`
  unfoldable pub max_fixed_limit_raw : PvUnit F → ℕ
  max_fixed_limit_raw pv =
      let max_raw = fl.mul pv.rated_power_kw (fl.lit 10 0) in
      if fl.lt (fl.lit 65535 0) max_raw then 65535 else fl.to_u16 max_raw

  -- `pv.bank.WriteU16(reg, v)`
  unfoldable pub on_bank : PvUnit F → ℕ → ℕ → Run (PvUnit F)
  on_bank pv reg v = do bank ← write_u16 pv.bank reg v; done (record pv { bank = bank })

  abbrev pub take_percent : ℕ → PvUnit F → PvUnit F
  take_percent v pv = record pv { last_percent_limit_raw = v; limit_mode = pv_limit_percent }

  abbrev pub take_fixed : ℕ → PvUnit F → PvUnit F
  take_fixed v pv = record pv { last_fixed_limit_raw = v; limit_mode = pv_limit_fixed }

  -- `OnPVWrite`
  unfoldable pub on_pv_write : PvUnit F → ℕ → ℕ → Run (PvUnit F)
  on_pv_write pv addr value =
      if addr == reg_pv_percent_limit
      then (do
        pv' ← on_bank pv reg_pv_percent_limit (clamp_u16 value 0 1000)
        done (take_percent (clamp_u16 value 0 1000) pv'))
      else if addr == reg_pv_fixed_limit
      then (do
        pv' ← on_bank pv reg_pv_fixed_limit (clamp_u16 value 0 (max_fixed_limit_raw pv))
        done (take_fixed (clamp_u16 value 0 (max_fixed_limit_raw pv)) pv'))
      else done pv

  -- a start or stop pulse
  abbrev pub pv_pulse : ℕ → (PvUnit F → PvUnit F) → PvUnit F → Run (PvUnit F)
  pv_pulse reg effect pv = do
    v ← read_u16 pv.bank reg
    if v == 1 then on_bank (effect pv) reg 0 else done pv

  abbrev pub start : PvUnit F → PvUnit F
  start pv = record pv { running = true }

  abbrev pub stop : PvUnit F → PvUnit F
  stop pv = record pv { running = false; actual_power_kw = nought }

  -- `ProcessControls`
  unfoldable pub process_controls : PvUnit F → Run (PvUnit F)
  process_controls pv = do
    pv1 ← pv_pulse reg_pv_startup start pv
    pv2 ← pv_pulse reg_pv_shutdown stop pv1
    percent_raw ← read_u16 pv2.bank reg_pv_percent_limit
    let percent = clamp_u16 percent_raw 0 1000
    pv3 ← on_bank pv2 reg_pv_percent_limit percent
    fixed_raw ← read_u16 pv3.bank reg_pv_fixed_limit
    let fixed = clamp_u16 fixed_raw 0 (max_fixed_limit_raw pv3)
    pv4 ← on_bank pv3 reg_pv_fixed_limit fixed
    let pv5 = if percent_raw == pv4.last_percent_limit_raw then pv4 else take_percent percent pv4
    done (if fixed_raw == pv5.last_fixed_limit_raw then pv5 else take_fixed fixed pv5)
