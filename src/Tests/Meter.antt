-- ===== src/Tests/Meter.antt =====
-- A meter at 10 kV on numbers in thousandths.
use virtual_bess.Prelude.{◌≡◌, refl, true, false}
use virtual_bess.Simulator.Bank.{new_slave_bank}
use virtual_bess.Simulator.Float.{ℤ, pos, negsuc, milli_float, Milli-IsFloat, le, nought}
use virtual_bess.Simulator.GridVoltage.{default_grid_coupling}
use virtual_bess.Simulator.Config.Defaults.{default_meter}
use virtual_bess.Simulator.Meter.{Meter, MeterInput, new_meter, count_kwh, meter_update}
use virtual_bess.Simulator.Meter.Energy.{Counts, meter_update-Counts}

abbrev connection : Meter ℤ
connection =
    new_meter
      (record default_meter { voltage = pos 10000000; pt_ratio = pos 100000; ct_ratio = pos 1000 })
      (pos 10000000) default_grid_coupling (pos 500000) (new_slave_bank 6 false)

abbrev charging : MeterInput ℤ
charging = record { load_kw = pos 20000; pcs_kw = pos 50000; pcs_kvar = pos 0; pv_kw = pos 10000 }

-- energy that flows back is counted as reverse
reverse_test : (count_kwh (negsuc 1999) connection).reverse_kwh ≡ pos 2000
unfolding count_kwh
reverse_test = refl

meter_update-Counts_example :
    Counts connection (meter_update (pos 1000) charging connection)
    × ((meter_update (pos 1000) charging connection).grid_power_kw
        ≡ milli_float.sub (milli_float.add (pos 20000) (pos 50000)) (pos 10000))
    × (le (pos 1000) nought ≡ true
        → ((meter_update (pos 1000) charging connection).forward_kwh ≡ connection.forward_kwh)
          × ((meter_update (pos 1000) charging connection).reverse_kwh ≡ connection.reverse_kwh))
meter_update-Counts_example = meter_update-Counts Milli-IsFloat (pos 1000) charging connection
