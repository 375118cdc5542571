-- ===== src/Simulator/Site/Runs.antt =====
-- The simulator starts from an accepted configuration, and whatever happens to it then returns.
use virtual_bess.Prelude.{
  ◌≡◌, refl, List, ◌++◌, map, Bool, All, All-append, All-map, every, length, length-map, Option,
  none, some,
}
use virtual_bess.Prelude.Go.{◌>>=◌}
use virtual_bess.Prelude.Hoare.{Ensures, Ensures-done, Ensures-bind}
use virtual_bess.Prelude.Text.{Text}
use virtual_bess.Prelude.Traverse.{traverse-Ensures}
use virtual_bess.Simulator.Bank.{new_slave_bank}
use virtual_bess.Simulator.Float.{Float, IsFloat, nought}
use virtual_bess.Simulator.Battery.Invariant.{Inv, IsCharged}
use virtual_bess.Simulator.Battery.Invariant.Reach.{started, started-Inv, new_battery_unit_run}
use virtual_bess.Simulator.Pv.{LocalTime}
use virtual_bess.Simulator.Pv.Limits.{IsLimited, new_pv_unit-IsLimited}
use virtual_bess.Simulator.Pv.Simulation.{update_simulation}
use virtual_bess.Simulator.Pv.Kept.{update_simulation-IsLimited}
use virtual_bess.Simulator.Load.{new_load}
use virtual_bess.Simulator.AirConditioner.{
  AirConditionerKind, air_conditioner_ac, air_conditioner_lc,
}
use virtual_bess.Simulator.Weather.{weather_update, new_weather}
use virtual_bess.Simulator.Config.{
  Config, PcsConfig, BatteryUnitConfig, MeterConfig, LoadCfg, FireConfig, ThConfig,
  AirConditionerConfig,
}
use virtual_bess.Simulator.Config.Checks.{valid}
use virtual_bess.Simulator.Config.Validate.{pcs_ids_of, pv_ids_of, load_names_of, validate_config}
use virtual_bess.Simulator.Config.Validate.References.{Resolves}
use virtual_bess.Simulator.Config.Validate.Accepted.{IsAccepted, validate_config-IsAccepted}
use virtual_bess.Simulator.Site.{Site, SiteSyncDraws}
use virtual_bess.Simulator.Site.Ticks.{
  MeterIn-moved, length-update_loads, sync_all-SiteInv, update_meters-SiteInv,
}
use virtual_bess.Simulator.Site.Events.{SiteEvent, IsEvent, run_events, run_events-SiteInv}
use virtual_bess.Simulator.Site.Start.{
  StartDraws, settings_of, new_unit, new_agg, new_fires, new_th, new_climate, new_devices,
  first_values, new_simulator,
}
use virtual_bess.Simulator.Site.Indices.{new_agg-InRange}
use virtual_bess.Simulator.Site.Invariant.{IsSizedTh, IsSizedClimate, IsSizedFire, MeterIn, SiteInv}

new_fires-IsSized : (fire : Option FireConfig) → All IsSizedFire (new_fires fire)
unfolding new_slave_bank
new_fires-IsSized none = tt
new_fires-IsSized (some fire) = (refl, tt)

module _ {F : Type 0} ⦃fl : Float F⦄ where
  -- Every configured unit begins with an energy between zero and its capacity.
  abbrev pub AreCharged : PcsConfig F → List (BatteryUnitConfig F) → Type 0
  AreCharged pcs =
      All (λ bu. IsCharged (started (settings_of pcs bu) bu.pcs_slave_id bu.bms_slave_id))

  new_unit-Inv :
      (pcs : PcsConfig F) (bu : BatteryUnitConfig F)
      → IsCharged (started (settings_of pcs bu) bu.pcs_slave_id bu.bms_slave_id)
      → Ensures Inv (new_unit pcs bu)
  new_unit-Inv pcs bu c = (
    started (settings_of pcs bu) bu.pcs_slave_id bu.bms_slave_id,
    new_battery_unit_run (settings_of pcs bu) bu.pcs_slave_id bu.bms_slave_id,
    started-Inv (settings_of pcs bu) bu.pcs_slave_id bu.bms_slave_id c,
  )

  new_agg-MeterIn :
      (cfg : Config F) (site : Site F) (m : MeterConfig F)
      → length site.batteries ≡ length cfg.battery_units
      → length site.pvs ≡ length cfg.pv_units
      → length site.loads ≡ length cfg.loads
      → Resolves (pcs_ids_of cfg.battery_units) (pv_ids_of cfg.pv_units) (load_names_of cfg.loads) m
      → MeterIn site (new_agg cfg m)
  unfolding new_agg new_slave_bank
  new_agg-MeterIn cfg site m e1 e2 e3 r = (refl, rw (e1, e2, e3) (new_agg-InRange cfg m r))

  new_climate-IsSized :
      (kind : AirConditionerKind) (cfg : AirConditionerConfig F)
      → IsSizedClimate (new_climate kind cfg)
  unfolding new_slave_bank
  new_climate-IsSized kind cfg = refl

  new_th-IsSized : (cfg : ThConfig F) → IsSizedTh (new_th cfg)
  unfolding new_slave_bank
  new_th-IsSized cfg = refl

  new_climates-IsSized :
      (cfg : Config F)
      → All IsSizedClimate (
          map (new_climate air_conditioner_ac) cfg.ac_units
          ++ map (new_climate air_conditioner_lc) cfg.lc_units)
  new_climates-IsSized cfg =
      All-append IsSizedClimate (map (new_climate air_conditioner_ac) cfg.ac_units)
        (map (new_climate air_conditioner_lc) cfg.lc_units)
        (All-map (λ c. Unit {0}) IsSizedClimate (new_climate air_conditioner_ac)
          (λ c _. new_climate-IsSized air_conditioner_ac c) cfg.ac_units (every cfg.ac_units))
        (All-map (λ c. Unit {0}) IsSizedClimate (new_climate air_conditioner_lc)
          (λ c _. new_climate-IsSized air_conditioner_lc c) cfg.lc_units (every cfg.lc_units))

  -- The devices of an accepted configuration are made.
  new_devices-SiteInv :
      (draws : StartDraws F) (cfg : Config F)
      → IsAccepted cfg
      → AreCharged cfg.pcs cfg.battery_units
      → Ensures SiteInv (new_devices draws cfg)
  unfolding new_devices
  new_devices-SiteInv draws cfg a charged =
      Ensures-bind _
        (traverse-Ensures _ Inv _ (λ k bu c. new_unit-Inv cfg.pcs bu c) 0 cfg.battery_units charged)
        λ bs (hb, eb).
          Ensures-bind _
            (traverse-Ensures (λ pv. Unit {0}) IsLimited _
              (λ k pv _. new_pv_unit-IsLimited pv.rated_power_kw cfg.pcs.ac_voltage pv.slave_id) 0
              cfg.pv_units (every cfg.pv_units))
            λ ps (hp, ep).
              let site : Site F = record {
                batteries = bs;
                pvs = ps;
                meters = map (new_agg cfg) cfg.meters;
                loads = map (λ (ld : LoadCfg F). new_load ld.rated_power_kw) cfg.loads;
                fires = new_fires cfg.fire;
                temphumids = map new_th cfg.temperature_humid;
                air_conditioners =
                    map (new_climate air_conditioner_ac) cfg.ac_units
                    ++ map (new_climate air_conditioner_lc) cfg.lc_units;
                weather =
                    new_weather draws.weather_state draws.weather_duration draws.weather_target;
              } in
              let el = length-map (λ (ld : LoadCfg F). new_load ld.rated_power_kw) cfg.loads in
              Ensures-done site (record {
                batteries_inv = hb;
                pvs_limited = hp;
                meters_in =
                    All-map _ (MeterIn site) (new_agg cfg)
                      (λ m r. new_agg-MeterIn cfg site m eb ep el r) cfg.meters a.meters_resolve;
                fires_sized = new_fires-IsSized cfg.fire;
                ths_sized =
                    All-map (λ c. Unit {0}) IsSizedTh new_th (λ c _. new_th-IsSized c)
                      cfg.temperature_humid (every cfg.temperature_humid);
                climates_sized = new_climates-IsSized cfg;
              })

  first_values-SiteInv :
      (t : LocalTime) (draws : StartDraws F) (site : Site F)
      → SiteInv site
      → SiteInv (first_values t draws site)
  unfolding first_values
  first_values-SiteInv t draws site i =
      let weather = weather_update nought draws.first_update site.weather in
      let site' = first_values t draws site in
      record {
        batteries_inv = i.batteries_inv;
        pvs_limited =
            All-map IsLimited IsLimited (update_simulation t nought weather.coeff)
              (update_simulation-IsLimited t nought weather.coeff) site.pvs i.pvs_limited;
        meters_in =
            MeterIn-moved site site' site.meters
              (
                refl,
                length-map (update_simulation t nought weather.coeff) site.pvs,
                length-update_loads t draws.first_loads 0 site.loads,
              )
              i.meters_in;
        fires_sized = i.fires_sized;
        ths_sized = i.ths_sized;
        climates_sized = i.climates_sized;
      }

  -- `NewSimulator` returns for an accepted configuration.
  pub new_simulator-SiteInv :
      (hz : F) (t : LocalTime) (draws : StartDraws F) (sync_draws : SiteSyncDraws F)
      (cfg : Config F)
      → IsAccepted cfg
      → AreCharged cfg.pcs cfg.battery_units
      → Ensures SiteInv (new_simulator hz t draws sync_draws cfg)
  unfolding new_simulator
  new_simulator-SiteInv hz t draws sync_draws cfg a charged =
      Ensures-bind _ (new_devices-SiteInv draws cfg a charged) λ s i.
        Ensures-bind _
          (update_meters-SiteInv nought (first_values t draws s) (first_values-SiteInv t draws s i))
          λ s1 i1. sync_all-SiteInv hz sync_draws s1 i1

  -- From a configuration that `validate` accepts, with every unit charged between zero and its
  -- capacity, `NewSimulator` returns, and so does any sequence of ticks and of calls of `WriteHolding`
  -- for any slave, register and value behind it: nothing panics, whatever the time and whatever numbers
  -- are drawn. Behind them the battery units keep their invariant, the limits of the PV inverters are in
  -- range, and each meter refers to devices that there are. The registers are sixteen-bit addresses, and
  -- the laws of the floating point numbers hold.
  pub simulation_runs :
      (laws : IsFloat F) (knows_zone : Text → Bool) (cfg : Config F) (hz : F) (t : LocalTime)
      (draws : StartDraws F) (sync_draws : SiteSyncDraws F) (es : List (SiteEvent F))
      → validate_config knows_zone cfg ≡ valid tt
      → AreCharged cfg.pcs cfg.battery_units
      → All IsEvent es
      → Ensures SiteInv (do site ← new_simulator hz t draws sync_draws cfg; run_events hz es site)
  simulation_runs laws knows_zone cfg hz t draws sync_draws es accepted charged ok =
      Ensures-bind _
        (new_simulator-SiteInv hz t draws sync_draws cfg
          (validate_config-IsAccepted knows_zone cfg accepted) charged)
        λ s i. run_events-SiteInv laws hz es s ok i
