-- ===== src/Tests/Site.antt =====
-- A site on numbers in thousandths: the default configuration runs, and its state comes back.
use virtual_bess.Prelude.{List, arith, ◌≡◌, refl, [], ◌∷◌, true, false, some}
use virtual_bess.Prelude.Go.{◌>>=◌}
use virtual_bess.Prelude.Hoare.{Ensures}
use virtual_bess.Simulator.Bank.{new_slave_bank}
use virtual_bess.Simulator.Float.{ℤ, pos, milli_float, Milli-IsFloat}
use virtual_bess.Simulator.GridVoltage.{validate, default_grid_coupling}
use virtual_bess.Simulator.Battery.{BatteryUnit}
use virtual_bess.Simulator.Battery.PcsSync.{Draws}
use virtual_bess.Simulator.Battery.Invariant.Reach.{started}
use virtual_bess.Simulator.Pv.{LocalTime, PvUnit, initial_pv}
use virtual_bess.Simulator.Meter.{new_meter}
use virtual_bess.Simulator.Weather.{WeatherDraws, weather_sunny, new_weather}
use virtual_bess.Simulator.Config.Checks.{valid, check}
use virtual_bess.Simulator.Config.Defaults.{default_config, default_meter, default_battery_unit}
use virtual_bess.Simulator.Config.Xn3477.{validate_xn3477}
use virtual_bess.Simulator.Config.Can.{validate_can}
use virtual_bess.Simulator.Config.Iec61850.{validate_iec61850}
use virtual_bess.Simulator.Config.Validate.{
  check_battery_units, check_pv_units, check_loads, check_references, check_meters, check_fire,
  check_temperature_humid, validate_air_conditioner_config, check_air_conditioners, check_others,
  validate_config,
}
use virtual_bess.Simulator.Site.{Site, MeterAgg, SiteSyncDraws, TickInput}
use virtual_bess.Simulator.Site.Events.{SiteEvent, ticks, writes, run_events}
use virtual_bess.Simulator.Site.Start.{StartDraws, settings_of, new_simulator}
use virtual_bess.Simulator.Site.Invariant.{SiteInv}
use virtual_bess.Simulator.Site.Runs.{AreCharged, simulation_runs}
use virtual_bess.Simulator.Site.State.{snapshot, restore, snapshot-restore}

abbrev noon : LocalTime
noon = record {
  year = 2024;
  month = 6;
  year_day = 170;
  hour = 12;
  minute = 0;
  second = 0;
  nanosecond = 0;
}

abbrev weather_draws : WeatherDraws ℤ
weather_draws = record {
  next = pos 600;
  duration = pos 500;
  target = pos 500;
  shadow = pos 0;
  shadow_duration = pos 500;
  depth = pos 500;
}

abbrev start_draws : StartDraws ℤ
start_draws = record {
  weather_state = weather_sunny;
  weather_duration = pos 500;
  weather_target = pos 500;
  first_update = weather_draws;
  first_loads = λ k. pos 500;
}

abbrev middle : Draws ℤ
middle = record { float64 = λ i. pos 500; intn = λ n i. 0 }

abbrev sync_draws : SiteSyncDraws ℤ
sync_draws = record {
  for_battery = λ k. record { grid = middle; cells = middle; clusters = λ c. middle };
  for_pv = λ k i. pos 500;
  for_meter = λ k i. pos 500;
}

-- one second
abbrev second : TickInput ℤ
second = record {
  local_time = noon;
  seconds = pos 1000;
  draws = record {
    for_weather = weather_draws;
    for_load = λ k. pos 500;
    for_power = λ k. pos 500;
    for_reactive = λ k. pos 500;
  };
  sync_draws = sync_draws;
}

default_config-accepted : validate_config (λ zone. false) (default_config {F = ℤ}) ≡ valid tt
unfolding default_config validate_config validate validate_xn3477 validate_can validate_iec61850
    check check_battery_units check_pv_units check_loads check_references check_meters check_fire
    check_temperature_humid validate_air_conditioner_config check_air_conditioners check_others
default_config-accepted = refl

default_config-AreCharged : AreCharged {F = ℤ} default_config.pcs default_config.battery_units
unfolding default_config
default_config-AreCharged = ((refl, refl, refl), tt)

-- two ticks, and in between writes to a PCS and to a PV inverter
abbrev day : List (SiteEvent ℤ)
day = ticks second ∷ writes 1 59990 1 ∷ writes 21 60003 500 ∷ ticks second ∷ []

simulation_runs_example : Ensures SiteInv (do
  site ← new_simulator (pos 50000) noon start_draws sync_draws default_config
  run_events (pos 50000) day site)
simulation_runs_example =
    simulation_runs Milli-IsFloat (λ zone. false) default_config (pos 50000) noon start_draws
      sync_draws day default_config-accepted default_config-AreCharged
      (tt, (omega arith, (omega arith, (tt, tt))))

abbrev connection : ℤ → MeterAgg ℤ
connection forward = record {
  meter =
      record (new_meter default_meter (pos 10000000) default_grid_coupling (pos 500000)
        (new_slave_bank 31 false)) { forward_kwh = forward };
  is_main = true;
  outflow = false;
  pcs_idx = 0 ∷ [];
  pv_idx = 0 ∷ [];
  load_idx = [];
}

abbrev unit_at : ℤ → BatteryUnit ℤ
unit_at energy =
    record (started (settings_of (default_config {F = ℤ}).pcs default_battery_unit) 1 11) {
      current_energy_kwh = energy;
    }

abbrev inverter : ℤ → PvUnit ℤ
inverter total = record (initial_pv (pos 50000) (pos 230000) (new_slave_bank 21 false)) {
  total_energy_kwh = total;
}

-- a site behind some production, and the same site made again
abbrev site_at : ℤ → Site ℤ
site_at n = record {
  batteries = unit_at n ∷ [];
  pvs = inverter n ∷ [];
  meters = connection n ∷ [];
  loads = [];
  fires = [];
  temphumids = [];
  air_conditioners = [];
  weather = new_weather weather_sunny (pos 500) (pos 500);
}

snapshot-restore_example :
    snapshot (restore (some (snapshot (site_at (pos 7000)))) (site_at (pos 0)))
    ≡ snapshot (site_at (pos 7000))
unfolding new_slave_bank
snapshot-restore_example =
    snapshot-restore (site_at (pos 7000)) (site_at (pos 0)) (tt, tt) (tt, tt) (tt, tt)
      (record { same_meters = refl; same_batteries = refl; same_pvs = refl })
