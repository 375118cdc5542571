-- ===== src/Simulator/Battery/Command/Refusal.antt =====
-- The power that `UpdateEnergy` leaves to a battery, and when it is refused.
use virtual_bess.Prelude.{◌≡◌, refl, ◌∙◌, arith, Bool, true, false, not, ◌&&◌, ◌||◌, if◌then◌else◌}
use virtual_bess.Prelude.Hoare.{if-elim}
use virtual_bess.Simulator.Float.{Float, le, nought}
use virtual_bess.Simulator.Battery.{BatteryUnit, soc}
use virtual_bess.Simulator.Battery.Power.{
  count_energy, not_below_empty, not_above_full, no_power, move_energy, update_energy,
}

-- what an early return, two refusals and a last case show
refused :
    {A B : Type 0} (f : A → B) (idle full empty out : Bool) (x y w : A) (o p : B)
    → f x ≡ p
    → f y ≡ o
    → f w ≡ (if out then o else p)
    → f (if idle then x else if full then y else if empty then y else w)
      ≡ (if not idle && (full || (empty || out)) then o else p)
refused f true full empty out x y w o p ex ey ew = ex
refused f false true empty out x y w o p ex ey ew = ey
refused f false false true out x y w o p ex ey ew = ey
refused f false false false out x y w o p ex ey ew = ew

module _ {F : Type 0} ⦃fl : Float F⦄ where
  -- the energy after `dt` seconds at the power `kw`
  abbrev pub moved_energy : F → BatteryUnit F → F → F
  moved_energy dt bu kw =
      fl.add bu.current_energy_kwh (fl.div (fl.mul (fl.neg kw) dt) (fl.lit 3600 0))

  -- whether the battery refuses the power `kw` for `dt` seconds: it charges when full, discharges
  -- when empty, or would end below zero or above the capacity
  abbrev pub refuses_power : F → BatteryUnit F → F → Bool
  refuses_power dt bu kw =
      not (fl.eq kw nought)
      && ((fl.lt kw nought && le (fl.lit 100 0) (soc bu))
          || ((fl.lt nought kw && le (soc bu) nought)
              || (fl.lt (moved_energy dt bu kw) nought
                  || fl.lt bu.rated_capacity_kwh (moved_energy dt bu kw))))

  -- The totals of the energy change neither the power nor the energy.
  count_energy-power :
      (delta : F) (bu : BatteryUnit F)
      → ((count_energy delta bu).actual_power_kw ≡ bu.actual_power_kw)
        × ((count_energy delta bu).current_energy_kwh ≡ bu.current_energy_kwh)
        × ((count_energy delta bu).rated_capacity_kwh ≡ bu.rated_capacity_kwh)
  count_energy-power delta bu =
      if-elim
        (λ (b : BatteryUnit F).
          (b.actual_power_kw ≡ bu.actual_power_kw)
          × (b.current_energy_kwh ≡ bu.current_energy_kwh)
          × (b.rated_capacity_kwh ≡ bu.rated_capacity_kwh))
        (fl.lt nought delta) (λ _. (refl, refl, refl)) λ _. ground arith

  kept_within-power :
      (bu : BatteryUnit F) (kw kwh cap : F)
      → bu.actual_power_kw ≡ kw
      → bu.current_energy_kwh ≡ kwh
      → bu.rated_capacity_kwh ≡ cap
      → (not_above_full (not_below_empty bu)).actual_power_kw
        ≡ (if fl.lt kwh nought || fl.lt cap kwh then nought else kw)
  kept_within-power bu kw kwh cap e e' e'' = rw (← e, ← e', ← e'') (ground arith)

  move_energy-power :
      (dt : F) (bu : BatteryUnit F)
      → (move_energy dt bu).actual_power_kw ≡ (
          if fl.lt (moved_energy dt bu bu.actual_power_kw) nought
            || fl.lt bu.rated_capacity_kwh (moved_energy dt bu bu.actual_power_kw)
          then nought
          else bu.actual_power_kw)
  move_energy-power dt bu =
      let delta = fl.div (fl.mul (fl.neg bu.actual_power_kw) dt) (fl.lit 3600 0) in
      let b = record bu { current_energy_kwh = fl.add bu.current_energy_kwh delta } in
      let (e, e', e'') = count_energy-power delta b in
      kept_within-power (count_energy delta b) _ _ _ e e' e''

  -- The power behind `UpdateEnergy`.
  pub update_energy-power :
      (dt : F) (bu : BatteryUnit F)
      → (update_energy dt bu).actual_power_kw
        ≡ (if refuses_power dt bu bu.actual_power_kw then nought else bu.actual_power_kw)
  unfolding update_energy
  update_energy-power dt bu =
      refused (λ (b : BatteryUnit F). b.actual_power_kw) (fl.eq bu.actual_power_kw nought)
        (fl.lt bu.actual_power_kw nought && le (fl.lit 100 0) (soc bu))
        (fl.lt nought bu.actual_power_kw && le (soc bu) nought) _ bu (no_power bu)
        (move_energy dt bu) nought bu.actual_power_kw refl refl (move_energy-power dt bu)

  kept_within-pcs : (bu : BatteryUnit F) → (not_above_full (not_below_empty bu)).pcs ≡ bu.pcs
  kept_within-pcs bu = ground arith

  count_energy-pcs : (delta : F) (bu : BatteryUnit F) → (count_energy delta bu).pcs ≡ bu.pcs
  count_energy-pcs delta bu = ground arith

  -- `UpdateEnergy` changes no register.
  pub update_energy-pcs : (dt : F) (bu : BatteryUnit F) → (update_energy dt bu).pcs ≡ bu.pcs
  unfolding update_energy
  update_energy-pcs dt bu =
      let P = λ (b : BatteryUnit F). b.pcs ≡ bu.pcs in
      if-elim P (fl.eq bu.actual_power_kw nought) (λ _. refl)
        λ _.
          if-elim P (fl.lt bu.actual_power_kw nought && le (fl.lit 100 0) (soc bu)) (λ _. refl)
            λ _.
              if-elim P (fl.lt nought bu.actual_power_kw && le (soc bu) nought) (λ _. refl)
                λ _. kept_within-pcs _ ∙ count_energy-pcs _ _
