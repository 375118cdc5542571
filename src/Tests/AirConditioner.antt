-- ===== src/Tests/AirConditioner.antt =====
-- An air conditioner on numbers in thousandths: cooling at 26 degrees, heating at 15.
use virtual_bess.Prelude.{◌≡◌, refl, arith, false, []}
use virtual_bess.Prelude.Hoare.{Ensures}
use virtual_bess.Simulator.Bank.{new_slave_bank}
use virtual_bess.Simulator.Float.{ℤ, pos, milli_float}
use virtual_bess.Simulator.Config.Defaults.{default_air_conditioner}
use virtual_bess.Simulator.AirConditioner.{
  AirConditioner, air_conditioner_ac, climate_stopped, climate_cooling, new_air_conditioner,
  next_status,
}
use virtual_bess.Simulator.AirConditioner.Thermostat.{
  IsClimate, ShowsStatus, climate_tick, climate_tick_holds,
}

abbrev conditioner : AirConditioner ℤ
conditioner =
    new_air_conditioner air_conditioner_ac
      (record (default_air_conditioner 5 [] 27 30) { cooling_setpoint = pos 26000 })
      (new_slave_bank 5 false)

abbrev cooling_unit : AirConditioner ℤ
cooling_unit = record conditioner { status = climate_cooling }

conditioner-IsClimate : IsClimate conditioner
unfolding new_slave_bank
conditioner-IsClimate = record {
  sized = refl;
  status_known = omega arith;
  cooling_positive = refl;
  heating_positive = refl;
}

cooling_unit-IsClimate : IsClimate cooling_unit
unfolding new_slave_bank
cooling_unit-IsClimate = record {
  sized = refl;
  status_known = omega arith;
  cooling_positive = refl;
  heating_positive = refl;
}

-- 27 degrees: it starts to cool
cooling_test : next_status conditioner ≡ climate_cooling
unfolding next_status
cooling_test = refl

climate_tick_holds_example :
    Ensures
      (λ (ac : AirConditioner ℤ).
        IsClimate ac × (ac.enabled ≡ false → ac.status ≡ climate_stopped) × ShowsStatus ac.kind ac)
      (climate_tick conditioner 262 1 (pos 1000))
climate_tick_holds_example =
    climate_tick_holds conditioner 262 1 (pos 1000) conditioner-IsClimate (omega arith)
