-- ===== src/Simulator/Pv/Simulation.antt =====
-- internal/simulator/pv_unit.go: the power and the energy of a PV inverter.
use virtual_bess.Prelude.{ℕ, ◌+◌, ◌*◌, ◌==◌, ◌||◌, if◌then◌else◌}
use virtual_bess.Simulator.Float.{Float, le, nought}
use virtual_bess.Simulator.Pv.{LocalTime, PvLimitMode, PvUnit, pv_limit_fixed, pv_limit_percent}

abbrev pub key_or : ℕ → ℕ → ℕ
key_or key fresh = if key == 0 then fresh else key

abbrev pub day_of : LocalTime → ℕ
day_of t = t.year * 1000 + t.year_day

abbrev pub month_of : LocalTime → ℕ
month_of t = t.year * 100 + t.month

module _ {F : Type 0} ⦃fl : Float F⦄ where
  abbrev pub hour_of : LocalTime → F
  hour_of t =
      fl.add
        (fl.add (fl.add (fl.of_nat t.hour) (fl.div (fl.of_nat t.minute) (fl.lit 60 0)))
          (fl.div (fl.of_nat t.second) (fl.lit 3600 0)))
        (fl.div (fl.of_nat t.nanosecond) (fl.of_nat 3600000000000))

  -- `naturalPowerKW`
  unfoldable pub natural_power_kw : PvUnit F → LocalTime → F → F
  natural_power_kw pv t weather_coeff =
      let sunrise = fl.lit 6 0 in
      let sunset = fl.lit 18 0 in
      if le (hour_of t) sunrise || le sunset (hour_of t)
      then nought
      else (let angle =
            fl.div (fl.mul fl.pi (fl.sub (hour_of t) sunrise)) (fl.sub sunset sunrise) in
          fl.mul (fl.mul (fl.mul pv.rated_power_kw (fl.lit 95 2)) (fl.sin angle)) weather_coeff)

  abbrev pub limit_kw : PvLimitMode → F → ℕ → ℕ → F
  limit_kw pv_limit_fixed rated_kw percent fixed = fl.mul (fl.of_nat fixed) (fl.lit 1 1)
  limit_kw pv_limit_percent rated_kw percent fixed =
      fl.div (fl.mul rated_kw (fl.of_nat percent)) (fl.lit 1000 0)

  -- `activeLimitKW`
  unfoldable pub active_limit_kw : PvUnit F → F
  active_limit_kw pv =
      limit_kw pv.limit_mode pv.rated_power_kw pv.last_percent_limit_raw pv.last_fixed_limit_raw

  abbrev pub new_day : LocalTime → PvUnit F → PvUnit F
  new_day t pv =
      if day_of t == pv.day_key
      then pv
      else record pv { daily_energy_kwh = nought; daily_peak_power_kw = nought; day_key = day_of t }

  abbrev pub new_month : LocalTime → PvUnit F → PvUnit F
  new_month t pv =
      if month_of t == pv.month_key
      then pv
      else record pv { monthly_energy_kwh = nought; month_key = month_of t }

  abbrev pub new_year : LocalTime → PvUnit F → PvUnit F
  new_year t pv =
      if t.year == pv.year_key
      then pv
      else record pv { yearly_energy_kwh = nought; year_key = t.year }

  -- `resetPeriods`
  unfoldable pub reset_periods : LocalTime → PvUnit F → PvUnit F
  reset_periods t pv = new_year t (
      new_month t (
        new_day t (record pv {
          day_key = key_or pv.day_key (day_of t);
          month_key = key_or pv.month_key (month_of t);
          year_key = key_or pv.year_key t.year;
        })))

  abbrev pub not_negative : F → F
  not_negative x = if fl.lt x nought then nought else x

  abbrev pub produced : PvUnit F → LocalTime → F → F
  produced pv t weather_coeff = not_negative (
      if pv.running
      then fl.minimum (natural_power_kw pv t weather_coeff) (active_limit_kw pv)
      else nought)

  abbrev pub with_power : F → PvUnit F → PvUnit F
  with_power kw pv = record pv {
    actual_power_kw = kw;
    daily_peak_power_kw = if fl.lt pv.daily_peak_power_kw kw then kw else pv.daily_peak_power_kw;
  }

  abbrev pub with_energy : F → PvUnit F → PvUnit F
  with_energy delta pv = record pv {
    total_energy_kwh = fl.add pv.total_energy_kwh delta;
    daily_energy_kwh = fl.add pv.daily_energy_kwh delta;
    monthly_energy_kwh = fl.add pv.monthly_energy_kwh delta;
    yearly_energy_kwh = fl.add pv.yearly_energy_kwh delta;
  }

  abbrev pub produce : F → F → PvUnit F → PvUnit F
  produce kw dt pv =
      if le dt nought || fl.eq kw nought
      then with_power kw pv
      else with_energy (fl.div (fl.mul kw dt) (fl.lit 3600 0)) (with_power kw pv)

  -- `UpdateSimulation`
  unfoldable pub update_simulation : LocalTime → F → F → PvUnit F → PvUnit F
  update_simulation t dt weather_coeff pv =
      let pv' = reset_periods t pv in produce (produced pv' t weather_coeff) dt pv'
