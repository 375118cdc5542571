-- ===== src/Simulator/Battery/PcsSync.antt =====
-- internal/simulator/battery_sync.go: the registers of the PCS. Runs of writes stand as lists.
use virtual_bess.Prelude.{ℕ, ◌%◌, List, [], ◌∷◌, Bool, not, ltb, ◌==◌, ◌&&◌, ◌||◌, if◌then◌else◌}
use virtual_bess.Prelude.Go.{Run, done, panic, ◌>>=◌}
use virtual_bess.Simulator.Bank.{read_u16}
use virtual_bess.Simulator.Bank.Effects.{write_words}
use virtual_bess.Simulator.Float.{Float, nought, one, jitter}
use virtual_bess.Simulator.Battery.{BatteryUnit, bool_to_u16, on_pcs}
use virtual_bess.Simulator.Battery.Reactive.{grid_phase_voltage}
use virtual_bess.Simulator.Registers.Pcs.{
  reg_pcs_remote_status, reg_pcs_sys_status, reg_pcs_grid_status, reg_pcs_alarm_status,
  reg_pcs_fault_status, reg_pcs_power_factor, reg_pcs_total_active_pw, reg_pcs_total_react_pw,
  reg_pcs_total_apparent, reg_pcs_active_pwa, reg_pcs_active_pwb, reg_pcs_active_pwc,
  reg_pcs_react_pwa, reg_pcs_react_pwb, reg_pcs_react_pwc, reg_pcs_voltage_a, reg_pcs_voltage_b,
  reg_pcs_voltage_c, reg_pcs_current_a, reg_pcs_current_b, reg_pcs_current_c, reg_pcs_frequency,
  reg_pcs_dc_voltage, reg_pcs_dc_current, reg_pcs_dc_power, reg_pcs_internal_temp,
  reg_pcs_igbt_temp_a, reg_pcs_igbt_temp_b, reg_pcs_igbt_temp_c, reg_pcs_dc_under_volt,
}
use virtual_bess.Simulator.Registers.Bms.{
  reg_bms_fault_status, reg_bms_max_charge_pw, reg_bms_max_discharge_pw,
}
use virtual_bess.Simulator.Registers.Sys.{
  reg_sys_running, reg_sys_fault, reg_sys_standby, reg_emu_bms_comm, reg_emu_pcs_comm,
  reg_sys_run_mode, reg_sys_max_charge_pw, reg_sys_max_discharge_pw, reg_sys_actual_power,
  reg_bms_master_mode, reg_bms_cluster_count, reg_max_charge_pw_setting,
  reg_max_discharge_pw_setting,
}

-- The numbers that `rand.Float64()` and `rand.Intn(n)` return, in the order of the calls; what
-- `rand.Intn` returns is asked for only when it does not panic.
pub record Draws (F : Type 0) : Type 0 where
  pub float64 : ℕ → F
  pub intn : ℕ → ℕ → ℕ

-- the `k`-th `rand.Intn(n)`, which panics when `n` is 0
abbrev pub rand_intn : (ℕ → ℕ → ℕ) → ℕ → ℕ → Run ℕ
rand_intn intn k n = if n == 0 then panic else done (intn k n)

-- a BMS limit, or the setting from outside when it is lower and not 0
abbrev pub limited : ℕ → ℕ → ℕ
limited limit ext = if not (ext == 0) && ltb ext limit then ext else limit

abbrev pub system_words : Bool → Bool → List (ℕ × ℕ)
system_words has_fault is_running =
    (reg_sys_running, bool_to_u16 is_running)
    ∷ (reg_sys_fault, bool_to_u16 has_fault)
    ∷ (reg_sys_standby, bool_to_u16 (not is_running && not has_fault))
    ∷ (reg_emu_bms_comm, 1)
    ∷ (reg_emu_pcs_comm, 1)
    ∷ (reg_sys_run_mode, 2)
    ∷ []

module _ {F : Type 0} ⦃fl : Float F⦄ where
  unfoldable pub write_pcs : List (ℕ × ℕ) → BatteryUnit F → Run (BatteryUnit F)
  write_pcs ws bu = do pcs ← write_words ws bu.pcs; done (record bu { pcs = pcs })

  unfoldable pub write_bms : List (ℕ × ℕ) → BatteryUnit F → Run (BatteryUnit F)
  write_bms ws bu = do bms ← write_words ws bu.bms; done (record bu { bms = bms })

  -- `uint16(x*10)`, and the bits of `int16(x*10)`
  abbrev pub tenths : F → ℕ
  tenths x = fl.to_u16 (fl.mul x (fl.lit 10 0))

  abbrev pub signed_tenths : F → ℕ
  signed_tenths x = fl.to_s16 (fl.mul x (fl.lit 10 0))

  abbrev pub pcs_sys_status : BatteryUnit F → F → ℕ
  pcs_sys_status bu power_kw =
      if not bu.pcs_running
      then 1
      else if fl.lt power_kw nought
      then 3
      else if fl.lt nought power_kw
      then 4
      else 2

  abbrev pub latched : BatteryUnit F → Bool
  latched bu = bu.pcs_dc_under_volt_fault || (bu.pcs_running && not bu.bms_hv_closed)

  abbrev pub status_words : F → BatteryUnit F → List (ℕ × ℕ)
  status_words power_kw bu =
      (reg_pcs_remote_status, bool_to_u16 bu.remote_mode)
      ∷ (reg_pcs_grid_status, bool_to_u16 (not bu.grid_tied))
      ∷ (reg_pcs_alarm_status, 0)
      ∷ (reg_pcs_sys_status, pcs_sys_status bu power_kw)
      ∷ []

  abbrev pub fault_words : BatteryUnit F → List (ℕ × ℕ)
  fault_words bu =
      (reg_pcs_dc_under_volt, bool_to_u16 (latched bu))
      ∷ (reg_pcs_fault_status, bool_to_u16 (latched bu))
      ∷ []

  -- `syncPCSStatus`
  unfoldable pub sync_pcs_status : F → BatteryUnit F → Run (BatteryUnit F)
  sync_pcs_status power_kw bu = do
    bu1 ← write_pcs (status_words power_kw bu) bu
    write_pcs (fault_words bu) (record bu1 { pcs_dc_under_volt_fault = latched bu })

  abbrev pub power_factor : F → F → F
  power_factor power_kw reactive_kvar =
      let apparent_kva = fl.hypot power_kw reactive_kvar in
      let factor =
        if fl.lt nought apparent_kva then fl.div (fl.abs power_kw) apparent_kva else one in
      if fl.lt reactive_kvar nought then fl.neg factor else factor

  -- `int16(x/3.0*10)`
  abbrev pub phase_tenths : F → ℕ
  phase_tenths x = fl.to_s16 (fl.mul (fl.div x (fl.lit 3 0)) (fl.lit 10 0))

  -- `syncPCSPower`
  unfoldable pub sync_pcs_power : F → F → BatteryUnit F → Run (BatteryUnit F)
  sync_pcs_power power_kw reactive_kvar bu =
      write_pcs
        ((reg_pcs_total_active_pw, signed_tenths power_kw)
          ∷ (reg_pcs_total_react_pw, signed_tenths reactive_kvar)
          ∷ (reg_pcs_total_apparent, tenths (fl.hypot power_kw reactive_kvar))
          ∷ (
            reg_pcs_power_factor,
            fl.to_s16 (fl.round (fl.mul (power_factor power_kw reactive_kvar) (fl.lit 100 0))),
          )
          ∷ (reg_pcs_active_pwa, phase_tenths power_kw)
          ∷ (reg_pcs_active_pwb, phase_tenths power_kw)
          ∷ (reg_pcs_active_pwc, phase_tenths power_kw)
          ∷ (reg_pcs_react_pwa, phase_tenths reactive_kvar)
          ∷ (reg_pcs_react_pwb, phase_tenths reactive_kvar)
          ∷ (reg_pcs_react_pwc, phase_tenths reactive_kvar)
          ∷ [])
        bu

  abbrev pub phase_current : F → F → F → F
  phase_current phase_power_kw phase_apparent_kva phase_voltage =
      let current_a = fl.div (fl.mul phase_apparent_kva (fl.lit 1000 0)) phase_voltage in
      if fl.lt phase_power_kw nought then fl.neg current_a else current_a

  -- the current of one phase, from the voltage register of the phase
  unfoldable pub sync_current : F → F → ℕ → ℕ → BatteryUnit F → Run (BatteryUnit F)
  sync_current phase_power_kw phase_apparent_kva voltage_reg reg bu = do
    raw ← read_u16 bu.pcs voltage_reg
    let phase_voltage = fl.mul (fl.of_nat raw) (fl.lit 1 1)
    if fl.lt nought phase_voltage
        then on_pcs bu reg
            (signed_tenths (phase_current phase_power_kw phase_apparent_kva phase_voltage))
        else done bu

  -- `syncPCSGrid`, with the site's frequency
  unfoldable pub sync_pcs_grid : F → Draws F → F → F → BatteryUnit F → Run (BatteryUnit F)
  sync_pcs_grid grid_frequency_hz draws power_kw reactive_kvar bu = do
    base_voltage ← grid_phase_voltage bu
    let phase_kw = fl.div power_kw (fl.lit 3 0)
    let phase_kva = fl.hypot phase_kw (fl.div reactive_kvar (fl.lit 3 0))
    bu1 ←
        write_pcs
          ((reg_pcs_voltage_a, tenths (fl.mul base_voltage (jitter (draws.float64 0))))
            ∷ (reg_pcs_voltage_b, tenths (fl.mul base_voltage (jitter (draws.float64 1))))
            ∷ (reg_pcs_voltage_c, tenths (fl.mul base_voltage (jitter (draws.float64 2))))
            ∷ [])
          bu
    bu2 ← sync_current phase_kw phase_kva reg_pcs_voltage_a reg_pcs_current_a bu1
    bu3 ← sync_current phase_kw phase_kva reg_pcs_voltage_b reg_pcs_current_b bu2
    bu4 ← sync_current phase_kw phase_kva reg_pcs_voltage_c reg_pcs_current_c bu3
    on_pcs bu4 reg_pcs_frequency (fl.to_u16 (fl.mul grid_frequency_hz (fl.lit 100 0)))

  -- the current on the DC side
  abbrev pub dc_current_a : F → F → F
  dc_current_a kw bat_voltage =
      if fl.lt nought bat_voltage then fl.div (fl.mul kw (fl.lit 1000 0)) bat_voltage else nought

  -- `syncPCSDC`
  unfoldable pub sync_pcs_dc : F → F → BatteryUnit F → Run (BatteryUnit F)
  sync_pcs_dc power_kw bat_voltage bu =
      write_pcs
        ((reg_pcs_dc_voltage, signed_tenths bat_voltage)
          ∷ (reg_pcs_dc_current, signed_tenths (dc_current_a power_kw bat_voltage))
          ∷ (reg_pcs_dc_power, signed_tenths power_kw)
          ∷ [])
        bu

  -- `syncPCSTemperature`
  unfoldable pub sync_pcs_temperature : BatteryUnit F → Run (BatteryUnit F)
  sync_pcs_temperature bu =
      write_pcs
        ((reg_pcs_internal_temp, 300)
          ∷ (reg_pcs_igbt_temp_a, 300)
          ∷ (reg_pcs_igbt_temp_b, 300)
          ∷ (reg_pcs_igbt_temp_c, 300)
          ∷ [])
        bu

  abbrev pub shows_running : F → F → BatteryUnit F → Bool → Bool
  shows_running power_kw reactive_kvar bu has_fault =
      bu.pcs_running
      && (not (fl.eq power_kw nought) || not (fl.eq reactive_kvar nought))
      && not has_fault

  abbrev pub limit_words : F → BatteryUnit F → ℕ → ℕ → List (ℕ × ℕ)
  limit_words power_kw bu max_charge max_discharge =
      (reg_sys_max_charge_pw, max_charge)
      ∷ (reg_sys_max_discharge_pw, max_discharge)
      ∷ (reg_sys_actual_power, tenths (fl.abs power_kw))
      ∷ (reg_bms_master_mode, if ltb 1 bu.cluster_count then 2 else 1)
      ∷ (reg_bms_cluster_count, bu.cluster_count % 65536)
      ∷ []

  -- `syncSystemStatus`
  unfoldable pub sync_system_status : F → F → BatteryUnit F → Run (BatteryUnit F)
  sync_system_status power_kw reactive_kvar bu = do
    pcs_fault ← read_u16 bu.pcs reg_pcs_fault_status
    bms_fault ← read_u16 bu.bms reg_bms_fault_status
    let has_fault = (pcs_fault == 1) || (bms_fault == 1)
    let is_running = shows_running power_kw reactive_kvar bu has_fault
    bu1 ← write_pcs (system_words has_fault is_running) bu
    max_charge ← read_u16 bu1.bms reg_bms_max_charge_pw
    charge_setting ← read_u16 bu1.pcs reg_max_charge_pw_setting
    max_discharge ← read_u16 bu1.bms reg_bms_max_discharge_pw
    discharge_setting ← read_u16 bu1.pcs reg_max_discharge_pw_setting
    write_pcs
        (limit_words power_kw bu (limited max_charge charge_setting)
          (limited max_discharge discharge_setting))
        bu1
