-- ===== src/Simulator/Pv/Sync.antt =====
-- internal/simulator/pv_sync.go: the registers of a PV inverter.
use virtual_bess.Prelude.{ℕ, List, [], ◌∷◌, not, if◌then◌else◌}
use virtual_bess.Prelude.Go.{Run, done, ◌>>=◌}
use virtual_bess.Simulator.Bank.{SlaveBank, read_u16, write_u16, write_u32}
use virtual_bess.Simulator.Bank.Effects.{write_words}
use virtual_bess.Simulator.Float.{Float, nought, jitter}
use virtual_bess.Simulator.Registers.Pv.{
  reg_pv_run_status, reg_pv_total_energy_hi, reg_pv_daily_energy_hi, reg_pv_monthly_energy_hi,
  reg_pv_yearly_energy_hi, reg_pv_rated_power, reg_pv_fault_alarm, reg_pv_ac_voltage_a,
  reg_pv_ac_voltage_b, reg_pv_ac_voltage_c, reg_pv_ac_current_a, reg_pv_ac_current_b,
  reg_pv_ac_current_c, reg_pv_grid_frequency, reg_pv_power_factor, reg_pv_ac_active_power,
  reg_pv_ac_reactive_power, reg_pv_inverter_efficiency, reg_pv_daily_peak_power,
  reg_pv_apparent_power, reg_pv_dc_input_power, reg_pv_internal_temp, reg_pv_dc_voltage,
  reg_pv_dc_current,
}
use virtual_bess.Simulator.Pv.{PvUnit, on_bank}

module _ {F : Type 0} ⦃fl : Float F⦄ where
  abbrev pub run_status : PvUnit F → ℕ
  run_status pv = if not pv.running then 1 else if fl.lt nought pv.actual_power_kw then 5 else 2

  -- the current of one phase, from the voltage register of the phase
  unfoldable pub pv_current : ℕ → ℕ → PvUnit F → Run (PvUnit F)
  pv_current voltage_reg reg pv = do
    raw ← read_u16 pv.bank voltage_reg
    let phase_voltage = fl.mul (fl.of_nat raw) (fl.lit 1 1)
    let phase_kw = fl.div pv.actual_power_kw (fl.lit 3 0)
    let current_a = fl.div (fl.mul phase_kw (fl.lit 1000 0)) phase_voltage
    if fl.lt nought phase_voltage
        then on_bank pv reg (fl.to_s16 (fl.mul current_a (fl.lit 10 0)))
        else done pv

  abbrev pub inverter_efficiency : F
  inverter_efficiency = fl.lit 98 2

  abbrev pub tenths : F → ℕ
  tenths x = fl.to_u16 (fl.mul x (fl.lit 10 0))

  abbrev pub signed_tenths : F → ℕ
  signed_tenths x = fl.to_s16 (fl.mul x (fl.lit 10 0))

  abbrev pub dc_input_power_kw : PvUnit F → F
  dc_input_power_kw pv =
      if fl.lt nought pv.actual_power_kw
      then fl.div pv.actual_power_kw inverter_efficiency
      else nought

  abbrev pub pv_dc_current_a : PvUnit F → F
  pv_dc_current_a pv =
      if fl.lt nought pv.battery_voltage_nom
      then fl.div (fl.mul (dc_input_power_kw pv) (fl.lit 1000 0)) pv.battery_voltage_nom
      else nought

  abbrev pub voltage_words : (ℕ → F) → PvUnit F → List (ℕ × ℕ)
  voltage_words draw pv =
      (reg_pv_rated_power, tenths pv.rated_power_kw)
      ∷ (reg_pv_fault_alarm, 0)
      ∷ (reg_pv_ac_voltage_a, tenths (fl.mul pv.pcs_ac_voltage (jitter (draw 0))))
      ∷ (reg_pv_ac_voltage_b, tenths (fl.mul pv.pcs_ac_voltage (jitter (draw 1))))
      ∷ (reg_pv_ac_voltage_c, tenths (fl.mul pv.pcs_ac_voltage (jitter (draw 2))))
      ∷ []

  abbrev pub power_words : F → PvUnit F → List (ℕ × ℕ)
  power_words grid_frequency_hz pv =
      (reg_pv_grid_frequency, fl.to_u16 (fl.mul grid_frequency_hz (fl.lit 100 0)))
      ∷ (reg_pv_power_factor, 1000)
      ∷ (reg_pv_ac_active_power, signed_tenths pv.actual_power_kw)
      ∷ (reg_pv_ac_reactive_power, 0)
      ∷ (reg_pv_inverter_efficiency, 980)
      ∷ (reg_pv_daily_peak_power, signed_tenths pv.daily_peak_power_kw)
      ∷ (reg_pv_apparent_power, tenths (fl.abs pv.actual_power_kw))
      ∷ (reg_pv_dc_input_power, signed_tenths (dc_input_power_kw pv))
      ∷ (reg_pv_internal_temp, 300)
      ∷ (reg_pv_dc_voltage, tenths pv.battery_voltage_nom)
      ∷ (reg_pv_dc_current, signed_tenths (pv_dc_current_a pv))
      ∷ []

  unfoldable pub pv_words : List (ℕ × ℕ) → PvUnit F → Run (PvUnit F)
  pv_words ws pv = do bank ← write_words ws pv.bank; done (record pv { bank = bank })

  -- the run status and the energies
  unfoldable pub write_energies : PvUnit F → Run SlaveBank
  write_energies pv = do
    b0 ← write_u16 pv.bank reg_pv_run_status (run_status pv)
    b1 ← write_u32 b0 reg_pv_total_energy_hi (fl.to_u32 pv.total_energy_kwh)
    b2 ← write_u32 b1 reg_pv_daily_energy_hi (fl.to_u32 pv.daily_energy_kwh)
    b3 ← write_u32 b2 reg_pv_monthly_energy_hi (fl.to_u32 pv.monthly_energy_kwh)
    write_u32 b3 reg_pv_yearly_energy_hi (fl.to_u32 pv.yearly_energy_kwh)

  -- `Sync`, with the site's frequency and the numbers drawn for the phases
  unfoldable pub pv_sync : F → (ℕ → F) → PvUnit F → Run (PvUnit F)
  pv_sync grid_frequency_hz draw pv = do
    b4 ← write_energies pv
    pv1 ← pv_words (voltage_words draw pv) (record pv { bank = b4 })
    pv2 ← pv_current reg_pv_ac_voltage_a reg_pv_ac_current_a pv1
    pv3 ← pv_current reg_pv_ac_voltage_b reg_pv_ac_current_b pv2
    pv4 ← pv_current reg_pv_ac_voltage_c reg_pv_ac_current_c pv3
    pv_words (power_words grid_frequency_hz pv) pv4
