-- ===== src/Simulator/Site.antt =====
-- internal/simulator/simulator.go: all devices of the site, how `NewSimulator` makes them, and the
-- tick. The time that has passed, the local time, and the numbers drawn are arguments. A unit holds its
-- banks, so the map of the banks is a search for the slave id.
pub mod Start
pub mod State
pub mod Indices
pub mod Invariant
pub mod Ticks
pub mod Devices
pub mod Clients
pub mod Events
pub mod Runs
use virtual_bess.Prelude.{ℕ, suc, ◌+◌, ◌-◌, List, [], ◌∷◌, map, Bool, true, false, if◌then◌else◌}
use virtual_bess.Prelude.Go.{Run, done, ◌>>=◌}
use virtual_bess.Prelude.Traverse.{traverse, fold_at}
use virtual_bess.Simulator.Float.{Float, nought}
use virtual_bess.Simulator.Battery.{BatteryUnit}
use virtual_bess.Simulator.Battery.Power.{tick_unit}
use virtual_bess.Simulator.Battery.Sync.{SyncDraws, sync}
use virtual_bess.Simulator.Pv.{PvUnit, LocalTime, process_controls}
use virtual_bess.Simulator.Pv.Simulation.{update_simulation}
use virtual_bess.Simulator.Pv.Sync.{pv_sync}
use virtual_bess.Simulator.Meter.{Meter, MeterInput, meter_update, meter_sync}
use virtual_bess.Simulator.Load.{Load, load_update}
use virtual_bess.Simulator.Environment.{
  Fire, fire_sync, TempHumid, temp_humid_update, temp_humid_sync,
}
use virtual_bess.Simulator.AirConditioner.{AirConditioner, climate_update, climate_sync}
use virtual_bess.Simulator.Weather.{Weather, WeatherDraws, weather_update}

-- `meterAgg`
pub record MeterAgg (F : Type 0) : Type 0 where
  pub meter : Meter F
  pub is_main : Bool
  pub outflow : Bool
  pub pcs_idx : List ℕ
  pub pv_idx : List ℕ
  pub load_idx : List ℕ

-- the devices of `Simulator`
pub record Site (F : Type 0) : Type 0 where
  pub batteries : List (BatteryUnit F)
  pub pvs : List (PvUnit F)
  pub meters : List (MeterAgg F)
  pub loads : List (Load F)
  pub fires : List Fire
  pub temphumids : List (TempHumid F)
  pub air_conditioners : List (AirConditioner F)
  pub weather : Weather F

-- the numbers drawn in one tick, by the index of the device, and those of the synchronisation
pub record TickDraws (F : Type 0) : Type 0 where
  pub for_weather : WeatherDraws F
  pub for_load : ℕ → F
  pub for_power : ℕ → F
  pub for_reactive : ℕ → F

pub record SiteSyncDraws (F : Type 0) : Type 0 where
  pub for_battery : ℕ → SyncDraws F
  pub for_pv : ℕ → ℕ → F
  pub for_meter : ℕ → ℕ → F

-- what a tick is given
pub record TickInput (F : Type 0) : Type 0 where
  pub local_time : LocalTime
  pub seconds : F
  pub draws : TickDraws F
  pub sync_draws : SiteSyncDraws F

module _ {F : Type 0} ⦃fl : Float F⦄ where
  abbrev pub update_loads : LocalTime → (ℕ → F) → ℕ → List (Load F) → List (Load F)
  update_loads t draw i [] = []
  update_loads t draw i (ld ∷ rest) = load_update t (draw i) ld ∷ update_loads t draw (suc i) rest

  -- what `updateMeters` adds for one PCS, to the active and to the reactive power
  abbrev pub add_pcs : F × F → BatteryUnit F → F × F
  add_pcs (pcs, reactive) bu =
      (fl.sub pcs bu.actual_power_kw, fl.sub reactive bu.actual_reactive_kvar)

  abbrev pub add_pv : F → PvUnit F → F
  add_pv total pv = fl.add total pv.actual_power_kw

  abbrev pub add_load : F → Load F → F
  add_load total ld = fl.add total ld.actual_power_kw

  abbrev pub negated_input : MeterInput F → MeterInput F
  negated_input input = record {
    load_kw = fl.neg input.load_kw;
    pcs_kw = fl.neg input.pcs_kw;
    pcs_kvar = fl.neg input.pcs_kvar;
    pv_kw = fl.neg input.pv_kw;
  }

  -- the input of one meter, and its update
  unfoldable pub update_agg : Site F → F → ℕ → MeterAgg F → Run (MeterAgg F)
  update_agg site dt i agg = do
    (pcs, reactive) ← fold_at add_pcs site.batteries agg.pcs_idx (nought, nought)
    pv ← fold_at add_pv site.pvs agg.pv_idx nought
    load ← fold_at add_load site.loads agg.load_idx nought
    let input : MeterInput F = record {
      load_kw = load;
      pcs_kw = pcs;
      pcs_kvar = reactive;
      pv_kw = pv;
    }
    let directed = if agg.outflow then negated_input input else input
    done (record agg { meter = meter_update dt directed agg.meter })

  -- `updateMeters`
  unfoldable pub update_meters : F → Site F → Run (Site F)
  update_meters dt site = do
    meters ← traverse (update_agg site dt) 0 site.meters
    done (record site { meters = meters })

  abbrev pub sync_agg : F → (ℕ → F) → MeterAgg F → Run (MeterAgg F)
  sync_agg hz draw agg = do m ← meter_sync hz draw agg.meter; done (record agg { meter = m })

  -- `syncAll`, at the site's frequency
  unfoldable pub sync_all : F → SiteSyncDraws F → Site F → Run (Site F)
  sync_all hz draws site = do
    batteries ← traverse (λ i bu. sync hz (draws.for_battery i) bu) 0 site.batteries
    pvs ← traverse (λ i pv. pv_sync hz (draws.for_pv i) pv) 0 site.pvs
    meters ← traverse (λ i agg. sync_agg hz (draws.for_meter i) agg) 0 site.meters
    fires ← traverse (λ i f. fire_sync f) 0 site.fires
    temphumids ← traverse (λ i th. temp_humid_sync th) 0 site.temphumids
    air_conditioners ← traverse (λ i ac. climate_sync ac) 0 site.air_conditioners
    done (record site {
      batteries = batteries;
      pvs = pvs;
      meters = meters;
      fires = fires;
      temphumids = temphumids;
      air_conditioners = air_conditioners;
    })

  -- the loop over the PV inverters
  unfoldable pub tick_pv : LocalTime → F → F → PvUnit F → Run (PvUnit F)
  tick_pv t dt weather_coeff pv = do
    pv' ← process_controls pv
    done (update_simulation t dt weather_coeff pv')

  -- the devices in front of the meters
  unfoldable pub tick_devices : LocalTime → F → TickDraws F → Site F → Run (Site F)
  tick_devices t dt draws site = do
    let weather = weather_update dt draws.for_weather site.weather
    let loads = update_loads t draws.for_load 0 site.loads
    batteries ←
        traverse (λ i bu. tick_unit dt (draws.for_power i) (draws.for_reactive i) bu) 0
          site.batteries
    pvs ← traverse (λ i pv. tick_pv t dt weather.coeff pv) 0 site.pvs
    done (record site {
      weather = weather;
      loads = loads;
      batteries = batteries;
      pvs = pvs;
      temphumids = map (temp_humid_update dt) site.temphumids;
      air_conditioners = map (climate_update dt) site.air_conditioners;
    })

  -- `Tick`, when `dt` seconds have passed
  unfoldable pub tick_site :
      F → LocalTime → F → TickDraws F → SiteSyncDraws F → Site F → Run (Site F)
  tick_site hz t dt draws sync_draws site = do
    site1 ← tick_devices t dt draws site
    site2 ← update_meters dt site1
    sync_all hz sync_draws site2
