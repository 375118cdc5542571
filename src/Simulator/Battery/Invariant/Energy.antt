-- ===== src/Simulator/Battery/Invariant/Energy.antt =====
-- `UpdateEnergy` keeps the invariant of a battery unit.
use virtual_bess.Prelude.{◌≡◌, arith, true, false, ◌&&◌}
use virtual_bess.Prelude.Hoare.{if-elim}
use virtual_bess.Simulator.Bank.Effects.{IsSized, HasInput}
use virtual_bess.Simulator.Float.{Float, IsFloat, nought, le}
use virtual_bess.Simulator.Battery.{BatteryUnit, soc}
use virtual_bess.Simulator.Battery.Power.{
  update_energy, count_energy, no_power, not_below_empty, not_above_full,
}
use virtual_bess.Simulator.Battery.Invariant.{Inv, IsCharged}
use virtual_bess.Simulator.Registers.Pcs.{reg_pcs_power_cmd_alias, reg_pcs_power_cmd}

module _ {F : Type 0} ⦃fl : Float F⦄ where
  -- a unit that moves energy
  record IsLive (bu : BatteryUnit F) : Type 0 where
    pcs_sized : IsSized bu.pcs
    bms_sized : IsSized bu.bms
    input_sized : HasInput bu.bms
    running : bu.pcs_running ≡ true
    closed : bu.bms_hv_closed ≡ true
    capacity : fl.lt bu.rated_capacity_kwh nought ≡ false
    aliased : bu.pcs.holding.at reg_pcs_power_cmd ≡ bu.pcs.holding.at reg_pcs_power_cmd_alias

  abbrev energies : BatteryUnit F → F → F → F → F → F → F → BatteryUnit F
  energies bu power energy charge discharge session session' = record bu {
    actual_power_kw = power;
    current_energy_kwh = energy;
    total_charge_kwh = charge;
    total_discharge_kwh = discharge;
    session_charge_kwh = session;
    session_discharge_kwh = session';
  }

  energies-IsLive :
      {bu : BatteryUnit F} {power energy charge discharge session session' : F}
      → IsLive bu
      → IsLive (energies bu power energy charge discharge session session')
  energies-IsLive l = record {
    pcs_sized = l.pcs_sized;
    bms_sized = l.bms_sized;
    input_sized = l.input_sized;
    running = l.running;
    closed = l.closed;
    capacity = l.capacity;
    aliased = l.aliased;
  }

  count_energy-IsLive :
      (delta : F) (bu : BatteryUnit F) → IsLive bu → IsLive (count_energy delta bu)
  count_energy-IsLive delta bu l =
      if-elim IsLive (fl.lt nought delta) (λ _. energies-IsLive l)
        (λ _. if-elim IsLive (fl.lt delta nought) (λ _. energies-IsLive l) (λ _. l))

  -- Behind the limits at the end of `UpdateEnergy` the energy is in its range.
  limits-IsCharged :
      (laws : IsFloat F) (bu : BatteryUnit F)
      → IsLive bu
      → IsLive (not_above_full (not_below_empty bu))
        × IsCharged (not_above_full (not_below_empty bu))
  limits-IsCharged laws bu l =
      let low : BatteryUnit F = not_below_empty bu in
      let (l1, above) : IsLive low × (fl.lt low.current_energy_kwh nought ≡ false) =
        if-elim (λ b. IsLive b × (fl.lt b.current_energy_kwh nought ≡ false))
          (fl.lt bu.current_energy_kwh nought) (λ _. (energies-IsLive l, laws.lt_irrefl nought))
          (λ e. (l, e)) in
      if-elim (λ b. IsLive b × IsCharged b) (fl.lt low.rated_capacity_kwh low.current_energy_kwh)
        (λ _.
          (energies-IsLive l1, (l1.capacity, laws.lt_irrefl low.rated_capacity_kwh, l1.capacity)))
        (λ e. (l1, (above, e, l1.capacity)))

  IsLive-Inv : {bu : BatteryUnit F} → IsLive bu → IsCharged bu → Inv bu
  IsLive-Inv l c = record {
    pcs_sized = l.pcs_sized;
    bms_sized = l.bms_sized;
    input_sized = l.input_sized;
    open_resting = λ h. ground (arith, l.closed);
    stopped_resting = λ h. ground (arith, l.running);
    charged = c;
    aliased = l.aliased;
  }

  -- A unit whose power is not zero runs with the contactor closed.
  powered-IsLive :
      (laws : IsFloat F) (bu : BatteryUnit F)
      → Inv bu
      → fl.eq bu.actual_power_kw nought ≡ false
      → IsLive bu
  powered-IsLive laws bu i e = record {
    pcs_sized = i.pcs_sized;
    bms_sized = i.bms_sized;
    input_sized = i.input_sized;
    running = ground (arith, laws.zero_eq, i.stopped_resting);
    closed = ground (arith, laws.zero_eq, i.open_resting);
    capacity = i.charged.2;
    aliased = i.aliased;
  }

  -- `UpdateEnergy` keeps the invariant.
  pub update_energy-Inv :
      (laws : IsFloat F) (dt : F) (bu : BatteryUnit F) → Inv bu → Inv (update_energy dt bu)
  unfolding update_energy
  update_energy-Inv laws dt bu i =
      if-elim Inv (fl.eq bu.actual_power_kw nought) (λ _. i)
        λ moving.
          let l = powered-IsLive laws bu i moving in
          let delta = fl.div (fl.mul (fl.neg bu.actual_power_kw) dt) (fl.lit 3600 0) in
          let stopped : Inv (no_power bu) = IsLive-Inv (energies-IsLive l) i.charged in
          let (l', c) = limits-IsCharged laws _ (
            count_energy-IsLive delta
              (record bu { current_energy_kwh = fl.add bu.current_energy_kwh delta })
              (energies-IsLive l)) in
          if-elim Inv (fl.lt bu.actual_power_kw nought && le (fl.lit 100 0) (soc bu)) (λ _. stopped)
            λ _.
              if-elim Inv (fl.lt nought bu.actual_power_kw && le (soc bu) nought) (λ _. stopped)
                (λ _. IsLive-Inv l' c)
