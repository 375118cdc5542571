-- ===== src/Simulator/Pv/Bounds.antt =====
-- The power of a PV inverter under its limit.
use virtual_bess.Prelude.{◌≡◌, refl, arith, false, ◌==◌, ◌||◌}
use virtual_bess.Prelude.Hoare.{if-elim}
use virtual_bess.Simulator.Float.{Float, IsFloat, nought, le}
use virtual_bess.Simulator.Pv.{PvUnit, LocalTime}
use virtual_bess.Simulator.Pv.Simulation.{
  natural_power_kw, active_limit_kw, reset_periods, new_day, new_month, key_or, day_of, month_of,
  produced, produce, update_simulation,
}

module _ {F : Type 0} ⦃fl : Float F⦄ where
  produce-power : (kw dt : F) (pv : PvUnit F) → (produce kw dt pv).actual_power_kw ≡ kw
  produce-power kw dt pv =
      if-elim (λ (p : PvUnit F). p.actual_power_kw ≡ kw) (le dt nought || fl.eq kw nought)
        (λ _. refl) (λ _. refl)

  abbrev IsAlike : PvUnit F → PvUnit F → Type 0
  IsAlike pv p = (p.running ≡ pv.running) × (active_limit_kw p ≡ active_limit_kw pv)

  -- The end of a day, a month or a year leaves the state and the limit.
  reset_periods-IsAlike : (t : LocalTime) (pv : PvUnit F) → IsAlike pv (reset_periods t pv)
  unfolding reset_periods active_limit_kw
  reset_periods-IsAlike t pv =
      let p0 : PvUnit F = record pv {
        day_key = key_or pv.day_key (day_of t);
        month_key = key_or pv.month_key (month_of t);
        year_key = key_or pv.year_key t.year;
      } in
      let p1 : PvUnit F = new_day t p0 in
      let p2 : PvUnit F = new_month t p1 in
      let a1 : IsAlike pv p1 =
        if-elim (IsAlike pv) (day_of t == p0.day_key) {x = p0}
          {y = record p0 {
            daily_energy_kwh = nought;
            daily_peak_power_kw = nought;
            day_key = day_of t;
          }}
          (λ _. (refl, refl)) (λ _. (refl, refl)) in
      let a2 : IsAlike pv p2 =
        if-elim (IsAlike pv) (month_of t == p1.month_key) {x = p1}
          {y = record p1 { monthly_energy_kwh = nought; month_key = month_of t }} (λ _. a1)
          (λ _. a1) in
      if-elim (IsAlike pv) (t.year == p2.year_key) {x = p2}
        {y = record p2 { yearly_energy_kwh = nought; year_key = t.year }} (λ _. a2) (λ _. a2)

  -- `UpdateSimulation`: a stopped inverter gives no power, a running one no more than its active limit,
  -- and neither a negative power. The limit is not negative, the comparison of floats is irreflexive,
  -- and `math.Min` is not above its second argument.
  pub update_simulation_bounded :
      (laws : IsFloat F) (t : LocalTime) (dt coeff : F) (pv : PvUnit F)
      → fl.lt (active_limit_kw pv) nought ≡ false
      → (fl.lt (update_simulation t dt coeff pv).actual_power_kw nought ≡ false)
        × (fl.lt (active_limit_kw pv) (update_simulation t dt coeff pv).actual_power_kw ≡ false)
        × (pv.running ≡ false → (update_simulation t dt coeff pv).actual_power_kw ≡ nought)
  unfolding update_simulation
  update_simulation_bounded laws t dt coeff pv limit =
      let pv' = reset_periods t pv in
      let (state, same) = reset_periods-IsAlike t pv in
      rw (produce-power (produced pv' t coeff) dt pv') (
        ground (arith, laws.lt_irrefl nought),
        ground (
          arith,
          limit,
          same,
          laws.minimum-le (natural_power_kw pv' t coeff) (active_limit_kw pv'),
        ),
        λ stopped. ground (arith, stopped, state, laws.lt_irrefl nought),
      )
