-- ===== src/Simulator/Site/Start.antt =====
-- internal/simulator/simulator.go: `NewSimulator`, without the registration of the handlers and of the
-- callbacks.
use virtual_bess.Prelude.{
  ℕ, suc, List, [], ◌∷◌, ◌++◌, map, Bool, true, false, Option, none, some, ◌==◌, if◌then◌else◌,
}
use virtual_bess.Prelude.Go.{Run, done, ◌>>=◌}
use virtual_bess.Prelude.Integer.{rounds}
use virtual_bess.Prelude.Text.{Text, codes, same}
use virtual_bess.Prelude.Traverse.{traverse}
use virtual_bess.Simulator.Bank.{new_slave_bank}
use virtual_bess.Simulator.Float.{Float, nought}
use virtual_bess.Simulator.Battery.{BatteryUnit, BatterySettings, new_battery_unit}
use virtual_bess.Simulator.Pv.{PvUnit, LocalTime, new_pv_unit}
use virtual_bess.Simulator.Pv.Simulation.{update_simulation}
use virtual_bess.Simulator.Meter.{new_meter}
use virtual_bess.Simulator.Load.{new_load}
use virtual_bess.Simulator.Environment.{Fire, TempHumid, new_temp_humid}
use virtual_bess.Simulator.AirConditioner.{
  AirConditioner, AirConditionerKind, air_conditioner_ac, air_conditioner_lc, new_air_conditioner,
}
use virtual_bess.Simulator.Weather.{WeatherState, WeatherDraws, new_weather, weather_update}
use virtual_bess.Simulator.Config.{
  Config, PcsConfig, BatteryUnitConfig, PvUnitConfig, MeterConfig, LoadCfg, FireConfig, ThConfig,
  AirConditionerConfig,
}
use virtual_bess.Simulator.Config.Validate.{pcs_ids_of, pv_ids_of, load_names_of}
use virtual_bess.Simulator.Site.{
  Site, MeterAgg, SiteSyncDraws, update_loads, update_meters, sync_all,
}

-- a loop that overwrites an entry of a map, so that the last index with a key stays
abbrev pub last_index {ℓ} : {A : Type ℓ} → (A → A → Bool) → A → ℕ → List A → Option ℕ → Option ℕ
last_index equal key i [] found = found
last_index equal key i (k ∷ ks) found =
    last_index equal key (suc i) ks (if equal key k then some i else found)

-- a key that is missing gives 0
abbrev pub or_zero : Option ℕ → ℕ
or_zero none = 0
or_zero (some i) = i

-- `pcsIdxByID[id]` and `pvIdxByID[id]`, and `loadIdxByName[n]`
abbrev pub idx_by_id : List ℕ → ℕ → ℕ
idx_by_id ids id = or_zero (last_index ◌==◌ id 0 ids none)

abbrev pub idx_by_name : List Text → Text → ℕ
idx_by_name names n = or_zero (last_index same n 0 names none)

-- `for i := range xs { idx = append(idx, i) }`
abbrev pub indices_from {ℓ} : {A : Type ℓ} → ℕ → List A → List ℕ
indices_from i [] = []
indices_from i (x ∷ xs) = i ∷ indices_from (suc i) xs

abbrev pub new_fires : Option FireConfig → List Fire
new_fires none = []
new_fires (some fire) = record { bank = new_slave_bank fire.slave_id false; cfg = fire } ∷ []

-- the numbers drawn for the weather, its first update, and the loads
pub record StartDraws (F : Type 0) : Type 0 where
  pub weather_state : WeatherState
  pub weather_duration : F
  pub weather_target : F
  pub first_update : WeatherDraws F
  pub first_loads : ℕ → F

module _ {F : Type 0} ⦃fl : Float F⦄ where
  -- the fields that `NewBatteryUnit` reads
  abbrev pub settings_of : PcsConfig F → BatteryUnitConfig F → BatterySettings F
  settings_of pcs bu = record {
    capacity_kwh = bu.rated_capacity_kwh;
    power_kw = bu.rated_power_kw;
    health = bu.soh;
    initial_soc = bu.initial_soc;
    voltage_full = bu.battery_voltage_full;
    clusters = rounds bu.cluster_count;
    ac_voltage = pcs.ac_voltage;
    deadband = pcs.reactive_qu.deadband;
    full_response = pcs.reactive_qu.full_response;
    grid = pcs.coupling;
  }

  abbrev pub new_unit : PcsConfig F → BatteryUnitConfig F → Run (BatteryUnit F)
  new_unit pcs bu =
      new_battery_unit (settings_of pcs bu) (new_slave_bank bu.pcs_slave_id false)
        (new_slave_bank bu.bms_slave_id true)

  abbrev pub new_pv : F → PvUnitConfig F → Run (PvUnit F)
  new_pv ac_voltage pv = new_pv_unit pv.rated_power_kw ac_voltage (new_slave_bank pv.slave_id false)

  -- the sum of the rated powers, for the coupling of the meters
  abbrev pub site_pcs_rated_kva : F → List (BatteryUnitConfig F) → F
  site_pcs_rated_kva total [] = total
  site_pcs_rated_kva total (bu ∷ rest) = site_pcs_rated_kva (fl.add total bu.rated_power_kw) rest

  -- the main meter takes all devices, a sub-meter those that it names
  unfoldable pub new_agg : Config F → MeterConfig F → MeterAgg F
  new_agg cfg m =
      let rated = site_pcs_rated_kva nought cfg.battery_units in
      record {
        meter =
            new_meter m cfg.grid.voltage cfg.grid.coupling rated (new_slave_bank m.slave_id false);
        is_main = m.is_main;
        outflow = same m.flow_direction (codes "outflow");
        pcs_idx =
            if m.is_main
            then indices_from 0 cfg.battery_units
            else map (idx_by_id (pcs_ids_of cfg.battery_units)) m.pcs_slave_ids;
        pv_idx =
            if m.is_main
            then indices_from 0 cfg.pv_units
            else map (idx_by_id (pv_ids_of cfg.pv_units)) m.pv_slave_ids;
        load_idx =
            if m.is_main
            then indices_from 0 cfg.loads
            else map (idx_by_name (load_names_of cfg.loads)) m.load_names;
      }

  abbrev pub new_th : ThConfig F → TempHumid F
  new_th th = new_temp_humid th (new_slave_bank th.slave_id false)

  abbrev pub new_climate : AirConditionerKind → AirConditionerConfig F → AirConditioner F
  new_climate kind cfg = new_air_conditioner kind cfg (new_slave_bank cfg.slave_id false)

  -- the devices, as they are made
  unfoldable pub new_devices : StartDraws F → Config F → Run (Site F)
  new_devices draws cfg = do
    batteries ← traverse (λ i bu. new_unit cfg.pcs bu) 0 cfg.battery_units
    pvs ← traverse (λ i pv. new_pv cfg.pcs.ac_voltage pv) 0 cfg.pv_units
    done (record {
      batteries = batteries;
      pvs = pvs;
      meters = map (new_agg cfg) cfg.meters;
      loads = map (λ (ld : LoadCfg F). new_load ld.rated_power_kw) cfg.loads;
      fires = new_fires cfg.fire;
      temphumids = map new_th cfg.temperature_humid;
      air_conditioners =
          map (new_climate air_conditioner_ac) cfg.ac_units
          ++ map (new_climate air_conditioner_lc) cfg.lc_units;
      weather = new_weather draws.weather_state draws.weather_duration draws.weather_target;
    })

  -- the first update of the weather, the loads and the PV inverters
  unfoldable pub first_values : LocalTime → StartDraws F → Site F → Site F
  first_values t draws site =
      let weather = weather_update nought draws.first_update site.weather in
      record site {
        weather = weather;
        loads = update_loads t draws.first_loads 0 site.loads;
        pvs = map (update_simulation t nought weather.coeff) site.pvs;
      }

  -- `NewSimulator`
  unfoldable pub new_simulator :
      F → LocalTime → StartDraws F → SiteSyncDraws F → Config F → Run (Site F)
  new_simulator hz t draws sync_draws cfg = do
    site ← new_devices draws cfg
    site1 ← update_meters nought (first_values t draws site)
    sync_all hz sync_draws site1
