-- ===== src/Simulator/Meter/Energy.antt =====
-- The energy counters of a meter.
use virtual_bess.Prelude.{◌≡◌, ◌⊎◌, inl, inr, refl, arith, true, false}
use virtual_bess.Prelude.Hoare.{if-elim}
use virtual_bess.Simulator.Float.{Float, IsFloat, le, nought}
use virtual_bess.Simulator.Meter.{
  MeterInput, Meter, update_voltage, measure, count_kwh, meter_update,
}

module _ {F : Type 0} ⦃fl : Float F⦄ where
  -- No counter falls, and one of them stays.
  abbrev pub Counts : Meter F → Meter F → Type 0
  Counts m m' =
      (fl.lt m'.forward_kwh m.forward_kwh ≡ false)
      × (fl.lt m'.reverse_kwh m.reverse_kwh ≡ false)
      × ((m'.forward_kwh ≡ m.forward_kwh) ⊎ (m'.reverse_kwh ≡ m.reverse_kwh))

  count_kwh-Counts : (laws : IsFloat F) (delta : F) (m : Meter F) → Counts m (count_kwh delta m)
  unfolding count_kwh
  count_kwh-Counts laws delta m =
      if-elim (Counts m) (fl.lt nought delta)
        (λ on. (laws.add_positive m.forward_kwh delta on, laws.lt_irrefl m.reverse_kwh, inr refl))
        (λ off. (laws.lt_irrefl m.forward_kwh, laws.add_negated m.reverse_kwh delta off, inl refl))

  count_kwh-power : (delta : F) (m : Meter F) → (count_kwh delta m).grid_power_kw ≡ m.grid_power_kw
  unfolding count_kwh
  count_kwh-power delta m = ground arith

  -- `Update`: neither the forward nor the reverse energy falls, and at most one of them changes; the
  -- power is that of the load and the PCS less the PV. When no time passes, both stay.
  pub meter_update-Counts :
      (laws : IsFloat F) (dt : F) (input : MeterInput F) (m : Meter F)
      → Counts m (meter_update dt input m)
        × ((meter_update dt input m).grid_power_kw
            ≡ fl.sub (fl.add input.load_kw input.pcs_kw) input.pv_kw)
        × (le dt nought ≡ true
            → ((meter_update dt input m).forward_kwh ≡ m.forward_kwh)
              × ((meter_update dt input m).reverse_kwh ≡ m.reverse_kwh))
  unfolding meter_update update_voltage
  meter_update-Counts laws dt input m =
      let m' = update_voltage dt (measure input m) in
      let delta = fl.div (fl.mul m'.grid_power_kw dt) (fl.lit 3600 0) in
      (
        if-elim (Counts m) (le dt nought)
            (λ _. (laws.lt_irrefl m.forward_kwh, laws.lt_irrefl m.reverse_kwh, inl refl))
            (λ _. count_kwh-Counts laws delta m'),
        if-elim (λ (u : Meter F). u.grid_power_kw ≡ m'.grid_power_kw) (le dt nought) (λ _. refl)
            (λ _. count_kwh-power delta m'),
        λ h. (ground (arith, h), ground (arith, h)),
      )
