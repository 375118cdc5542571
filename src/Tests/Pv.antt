-- ===== src/Tests/Pv.antt =====
-- A PV inverter of 50 kW on numbers in thousandths.
use virtual_bess.Prelude.{◌≡◌, refl, arith, false}
use virtual_bess.Prelude.Go.{◌>>=◌}
use virtual_bess.Prelude.Hoare.{Ensures}
use virtual_bess.Simulator.Bank.{new_slave_bank}
use virtual_bess.Simulator.Bank.Effects.{put}
use virtual_bess.Simulator.Float.{ℤ, pos, milli_float, Milli-IsFloat, nought}
use virtual_bess.Simulator.Registers.Pv.{reg_pv_percent_limit}
use virtual_bess.Simulator.Pv.{PvUnit, LocalTime, initial_pv, process_controls}
use virtual_bess.Simulator.Pv.Simulation.{update_simulation, active_limit_kw}
use virtual_bess.Simulator.Pv.Limits.{IsLimited, pv_written, limits_hold}
use virtual_bess.Simulator.Pv.Bounds.{update_simulation_bounded}

abbrev inverter : PvUnit ℤ
inverter =
    initial_pv (pos 50000) (pos 230000) (put (new_slave_bank 3 false) reg_pv_percent_limit 1000)

abbrev noon : LocalTime
noon = record {
  year = 2024;
  month = 6;
  year_day = 170;
  hour = 12;
  minute = 0;
  second = 0;
  nanosecond = 0;
}

inverter-IsLimited : IsLimited inverter
unfolding new_slave_bank
inverter-IsLimited = record {
  sized = refl;
  percent_range = omega arith;
  percent_known = refl;
  fixed_range = omega arith;
  fixed_known = refl;
}

-- half of the power
half_test : active_limit_kw (record inverter { last_percent_limit_raw = 500 }) ≡ pos 25000
unfolding active_limit_kw
half_test = refl

limits_hold_example :
    Ensures IsLimited (do pv ← pv_written inverter 60003 60000; process_controls pv)
limits_hold_example = limits_hold inverter 60003 60000 inverter-IsLimited (omega arith)

update_simulation_bounded_example :
    (milli_float.lt (update_simulation noon (pos 1000) (pos 900) inverter).actual_power_kw nought
      ≡ false)
    × (milli_float.lt
          (active_limit_kw inverter)
          (update_simulation noon (pos 1000) (pos 900) inverter).actual_power_kw
        ≡ false)
    × (inverter.running ≡ false
        → (update_simulation noon (pos 1000) (pos 900) inverter).actual_power_kw ≡ nought)
update_simulation_bounded_example =
    update_simulation_bounded Milli-IsFloat noon (pos 1000) (pos 900) inverter
      (unfold active_limit_kw in refl)
