-- ===== src/Simulator/Meter.antt =====
-- internal/simulator/meter.go: one meter, for the grid connection or for a part of the site.
use virtual_bess.Prelude.{ℕ, zero, suc, List, [], ◌∷◌, Bool, true, false, if◌then◌else◌}
use virtual_bess.Prelude.Go.{Run, done, ◌>>=◌}
use virtual_bess.Simulator.Bank.{SlaveBank, write_u16, write_longs}
use virtual_bess.Simulator.Bank.Effects.{write_words}
use virtual_bess.Simulator.Float.{Float, le, nought, one}
use virtual_bess.Prelude.Text.{codes, same}
use virtual_bess.Simulator.Config.{MeterConfig}
use virtual_bess.Simulator.GridVoltage.{
  GridCouplingConfig, default_grid_coupling, resolve_coupling, bus_voltage_target, relax_voltage,
}
use virtual_bess.Simulator.Registers.Meter.{
  reg_meter_combined_energy_hi, reg_meter_forward_energy_hi, reg_meter_reverse_energy_hi,
  reg_meter_voltage_a, reg_meter_voltage_b, reg_meter_voltage_c, reg_meter_current_a_hi,
  reg_meter_current_b_hi, reg_meter_current_c_hi, reg_meter_active_pw_total_hi,
  reg_meter_active_pwa_hi, reg_meter_active_pwb_hi, reg_meter_active_pwc_hi,
  reg_meter_reactive_pw_total_hi, reg_meter_reactive_pwa_hi, reg_meter_reactive_pwb_hi,
  reg_meter_reactive_pwc_hi, reg_meter_apparent_pw_total_hi, reg_meter_apparent_pwa_hi,
  reg_meter_apparent_pwb_hi, reg_meter_apparent_pwc_hi, reg_meter_pf_total_hi, reg_meter_pfa_hi,
  reg_meter_pfb_hi, reg_meter_pfc_hi, reg_meter_frequency,
}
pub mod Energy

-- `MeterInput`
pub record MeterInput (F : Type 0) : Type 0 where
  pub load_kw : F
  pub pcs_kw : F
  pub pcs_kvar : F
  pub pv_kw : F

-- `Meter`
pub record Meter (F : Type 0) : Type 0 where
  pub bank : SlaveBank
  pub grid_voltage : F
  pub pt_ratio : F
  pub ct_ratio : F
  pub coupling : GridCouplingConfig F
  pub outflow : Bool
  pub grid_power_kw : F
  pub load_power_kw : F
  pub reactive_kvar : F
  pub bus_voltage : F
  pub forward_kwh : F
  pub reverse_kwh : F

module _ {F : Type 0} ⦃fl : Float F⦄ where
  -- `loadTanPhi`; the compiler computes 1 - 0.95 * 0.95
  abbrev pub load_tan_phi : F
  load_tan_phi = fl.div (fl.sqrt (fl.lit 975 4)) (fl.lit 95 2)

  abbrev pub automatic_pt : F → F
  automatic_pt v = let pt = fl.ceil (fl.div v (fl.lit 6200 0)) in if fl.lt pt one then one else pt

  -- `NewMeter`
  abbrev pub new_meter : MeterConfig F → F → GridCouplingConfig F → F → SlaveBank → Meter F
  new_meter cfg default_voltage coupling auto_base_kva bank =
      let v = if fl.eq cfg.voltage nought then default_voltage else cfg.voltage in
      record {
        bank = bank;
        grid_voltage = v;
        pt_ratio = if le cfg.pt_ratio nought then automatic_pt v else cfg.pt_ratio;
        ct_ratio = if le cfg.ct_ratio nought then one else cfg.ct_ratio;
        coupling = resolve_coupling coupling default_grid_coupling auto_base_kva;
        outflow = same cfg.flow_direction (codes "outflow");
        grid_power_kw = nought;
        load_power_kw = nought;
        reactive_kvar = nought;
        bus_voltage = v;
        forward_kwh = nought;
        reverse_kwh = nought;
      }

  -- `physicalImportKW`
  abbrev pub physical_import_kw : Meter F → F
  physical_import_kw m = if m.outflow then fl.neg m.grid_power_kw else m.grid_power_kw

  -- `physicalImportKVAr`
  abbrev pub physical_import_kvar : Meter F → F
  physical_import_kvar m = if m.outflow then fl.neg m.reactive_kvar else m.reactive_kvar

  -- `updateVoltage`
  unfoldable pub update_voltage : F → Meter F → Meter F
  update_voltage dt m =
      let target =
        bus_voltage_target m.coupling m.grid_voltage (fl.neg (physical_import_kw m))
          (fl.neg (physical_import_kvar m)) in
      record m { bus_voltage = relax_voltage m.bus_voltage target dt m.coupling.response_seconds }

  -- the first assignments of `Update`
  abbrev pub measure : MeterInput F → Meter F → Meter F
  measure input m = record m {
    load_power_kw = input.load_kw;
    grid_power_kw = fl.sub (fl.add input.load_kw input.pcs_kw) input.pv_kw;
    reactive_kvar = fl.add (fl.mul input.load_kw load_tan_phi) input.pcs_kvar;
  }

  -- the energy that `Update` counts
  unfoldable pub count_kwh : F → Meter F → Meter F
  count_kwh delta m =
      if fl.lt nought delta
      then record m { forward_kwh = fl.add m.forward_kwh delta }
      else record m { reverse_kwh = fl.add m.reverse_kwh (fl.neg delta) }

  -- `Update`
  unfoldable pub meter_update : F → MeterInput F → Meter F → Meter F
  meter_update dt input m =
      let m' = update_voltage dt (measure input m) in
      if le dt nought
      then m'
      else count_kwh (fl.div (fl.mul m'.grid_power_kw dt) (fl.lit 3600 0)) m'

  abbrev pub apparent_kva : Meter F → F
  apparent_kva m = fl.hypot m.grid_power_kw m.reactive_kvar

  abbrev pub meter_pf : Meter F → F
  meter_pf m =
      let mag =
        if fl.lt nought (apparent_kva m)
        then fl.div (fl.abs m.grid_power_kw) (apparent_kva m)
        else one in
      if fl.lt m.reactive_kvar nought then fl.neg mag else mag

  -- `1.0 + (rand.Float64()*0.002 - 0.001)`, from the number drawn
  abbrev pub meter_jitter : F → F
  meter_jitter draw = fl.add one (fl.sub (fl.mul draw (fl.lit 2 3)) (fl.lit 1 3))

  abbrev pub phase_voltage : Meter F → F → F
  phase_voltage m draw = fl.mul m.bus_voltage (meter_jitter draw)

  abbrev pub secondary_voltage : Meter F → F → ℕ
  secondary_voltage m draw =
      fl.to_u16 (fl.mul (fl.div (phase_voltage m draw) m.pt_ratio) (fl.lit 10 0))

  -- the current of a phase, by the number that its voltage was drawn with
  unfoldable pub meter_current : Meter F → F → ℕ
  meter_current m draw =
      let volts = phase_voltage m draw in
      let mag = fl.div (fl.mul (fl.div (apparent_kva m) (fl.lit 3 0)) (fl.lit 1000 0)) volts in
      let signed = if fl.lt (fl.div m.grid_power_kw (fl.lit 3 0)) nought then fl.neg mag else mag in
      let current_a = if fl.lt nought volts then signed else nought in
      fl.to_s32 (fl.mul (fl.div current_a m.ct_ratio) (fl.lit 10 0))

  -- `int32(x * scale / ptct)`
  abbrev pub secondary : Meter F → F → F → ℕ
  secondary m x scale = fl.to_s32 (fl.div (fl.mul x scale) (fl.mul m.pt_ratio m.ct_ratio))

  abbrev pub energy_longs : Meter F → List (ℕ × ℕ)
  energy_longs m =
      (
        reg_meter_combined_energy_hi,
        secondary m (fl.add m.forward_kwh m.reverse_kwh) (fl.lit 100 0),
      )
      ∷ (reg_meter_forward_energy_hi, secondary m m.forward_kwh (fl.lit 100 0))
      ∷ (reg_meter_reverse_energy_hi, secondary m m.reverse_kwh (fl.lit 100 0))
      ∷ []

  abbrev pub meter_voltages : (ℕ → F) → Meter F → List (ℕ × ℕ)
  meter_voltages draw m =
      (reg_meter_voltage_a, secondary_voltage m (draw 0))
      ∷ (reg_meter_voltage_b, secondary_voltage m (draw 1))
      ∷ (reg_meter_voltage_c, secondary_voltage m (draw 2))
      ∷ []

  abbrev pub meter_currents : (ℕ → F) → Meter F → List (ℕ × ℕ)
  meter_currents draw m =
      (reg_meter_current_a_hi, meter_current m (draw 0))
      ∷ (reg_meter_current_b_hi, meter_current m (draw 1))
      ∷ (reg_meter_current_c_hi, meter_current m (draw 2))
      ∷ []

  -- a total and the same third of it for each phase
  abbrev pub total_and_phases : Meter F → F → ℕ → ℕ → ℕ → ℕ → List (ℕ × ℕ) → List (ℕ × ℕ)
  total_and_phases m x total a b c rest =
      let third = secondary m (fl.div x (fl.lit 3 0)) (fl.lit 1000 0) in
      (total, secondary m x (fl.lit 1000 0)) ∷ (a, third) ∷ (b, third) ∷ (c, third) ∷ rest

  abbrev pub power_longs : Meter F → List (ℕ × ℕ)
  power_longs m =
      let pf1000 = fl.to_s32 (fl.round (fl.mul (meter_pf m) (fl.lit 1000 0))) in
      total_and_phases m m.grid_power_kw reg_meter_active_pw_total_hi reg_meter_active_pwa_hi
        reg_meter_active_pwb_hi reg_meter_active_pwc_hi
        (total_and_phases m m.reactive_kvar reg_meter_reactive_pw_total_hi reg_meter_reactive_pwa_hi
          reg_meter_reactive_pwb_hi reg_meter_reactive_pwc_hi
          (total_and_phases m (apparent_kva m) reg_meter_apparent_pw_total_hi
            reg_meter_apparent_pwa_hi reg_meter_apparent_pwb_hi reg_meter_apparent_pwc_hi
            ((reg_meter_pf_total_hi, pf1000)
              ∷ (reg_meter_pfa_hi, pf1000)
              ∷ (reg_meter_pfb_hi, pf1000)
              ∷ (reg_meter_pfc_hi, pf1000)
              ∷ [])))

  abbrev pub meter_frequency : F → F → ℕ
  meter_frequency grid_frequency_hz draw =
      let offset = fl.mul (fl.sub (fl.mul draw (fl.lit 2 0)) one) (fl.lit 5 2) in
      fl.to_u16 (fl.mul (fl.add grid_frequency_hz offset) (fl.lit 100 0))

  -- `Sync`, with the site's frequency and the numbers drawn
  unfoldable pub meter_sync : F → (ℕ → F) → Meter F → Run (Meter F)
  meter_sync grid_frequency_hz draw m = do
    b1 ← write_longs (energy_longs m) m.bank
    b2 ← write_words (meter_voltages draw m) b1
    b3 ← write_longs (meter_currents draw m) b2
    b4 ← write_longs (power_longs m) b3
    b5 ← write_u16 b4 reg_meter_frequency (meter_frequency grid_frequency_hz (draw 3))
    done (record m { bank = b5 })
