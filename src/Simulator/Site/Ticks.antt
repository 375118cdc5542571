-- ===== src/Simulator/Site/Ticks.antt =====
-- Each loop of a tick returns, and keeps what the devices satisfy.
use virtual_bess.Prelude.{ℕ, suc, ◌≡◌, refl, ap, List, [], ◌∷◌, map, All, All-map, length}
use virtual_bess.Prelude.Hoare.{Ensures, Ensures-done, Ensures-bind}
use virtual_bess.Prelude.Traverse.{traverse-Ensures}
use virtual_bess.Simulator.Float.{Float, IsFloat}
use virtual_bess.Simulator.Battery.Invariant.{Inv}
use virtual_bess.Simulator.Battery.Invariant.Tick.{tick_unit-Inv}
use virtual_bess.Simulator.Battery.Invariant.Sync.{sync-Inv}
use virtual_bess.Simulator.Pv.{PvUnit, LocalTime}
use virtual_bess.Simulator.Pv.Limits.{IsLimited, process_controls-IsLimited}
use virtual_bess.Simulator.Pv.Simulation.{update_simulation}
use virtual_bess.Simulator.Pv.Kept.{update_simulation-IsLimited, pv_sync-IsLimited}
use virtual_bess.Simulator.Load.{Load}
use virtual_bess.Simulator.Environment.{temp_humid_update}
use virtual_bess.Simulator.AirConditioner.{climate_update}
use virtual_bess.Simulator.Weather.{weather_update}
use virtual_bess.Simulator.Site.{
  MeterAgg, Site, TickDraws, SiteSyncDraws, update_loads, update_agg, update_meters, sync_all,
  tick_pv, tick_devices, tick_site,
}
use virtual_bess.Simulator.Site.Invariant.{
  IsSizedTh, IsSizedClimate, IsSizedFire, MeterIn, SiteInv, update_agg-MeterIn, sync_agg-MeterIn,
  temp_humid_sync-IsSized, climate_sync-IsSized, climate_update-IsSized, fire_sync-IsSized,
}

module _ {F : Type 0} ⦃fl : Float F⦄ where
  pub length-update_loads :
      (t : LocalTime) (draw : ℕ → F) (i : ℕ) (loads : List (Load F))
      → length (update_loads t draw i loads) ≡ length loads
  length-update_loads t draw i [] = refl
  length-update_loads t draw i (ld ∷ rest) = ap suc (length-update_loads t draw (suc i) rest)

  -- as many devices, of the three kinds that meters refer to
  abbrev pub SameCount : Site F → Site F → Type 0
  SameCount a b =
      (length b.batteries ≡ length a.batteries)
      × (length b.pvs ≡ length a.pvs)
      × (length b.loads ≡ length a.loads)

  pub MeterIn-moved :
      (a b : Site F) (aggs : List (MeterAgg F))
      → SameCount a b
      → All (MeterIn a) aggs
      → All (MeterIn b) aggs
  MeterIn-moved a b [] same h = tt
  MeterIn-moved a b (agg ∷ rest) (e1, e2, e3) ((size, r), h) =
      ((size, rw (e1, e2, e3) r), MeterIn-moved a b rest (e1, e2, e3) h)

  -- `syncAll` returns.
  pub sync_all-SiteInv :
      (hz : F) (draws : SiteSyncDraws F) (site : Site F)
      → SiteInv site
      → Ensures SiteInv (sync_all hz draws site)
  unfolding sync_all
  sync_all-SiteInv hz draws site i =
      Ensures-bind _
        (traverse-Ensures Inv Inv _ (λ k bu j. sync-Inv hz (draws.for_battery k) bu j) 0
          site.batteries i.batteries_inv)
        λ bs (hb, eb).
          Ensures-bind _
            (traverse-Ensures IsLimited IsLimited _
              (λ k pv l. pv_sync-IsLimited hz (draws.for_pv k) pv l) 0 site.pvs i.pvs_limited)
            λ ps (hp, ep).
              Ensures-bind _
                (traverse-Ensures (MeterIn site) (MeterIn site) _
                  (λ k agg m. sync_agg-MeterIn site hz (draws.for_meter k) agg m) 0 site.meters
                  i.meters_in)
                λ ms (hm, _).
                  Ensures-bind _
                    (traverse-Ensures IsSizedFire IsSizedFire _ (λ k f s. fire_sync-IsSized f s) 0
                      site.fires i.fires_sized)
                    λ fs (hf, _).
                      Ensures-bind _
                        (traverse-Ensures IsSizedTh IsSizedTh _
                          (λ k th s. temp_humid_sync-IsSized th s) 0 site.temphumids i.ths_sized)
                        λ ts (ht, _).
                          Ensures-bind _
                            (traverse-Ensures IsSizedClimate IsSizedClimate _
                              (λ k ac s. climate_sync-IsSized ac s) 0 site.air_conditioners
                              i.climates_sized)
                            λ acs (ha, _).
                              let site' = record site {
                                batteries = bs;
                                pvs = ps;
                                meters = ms;
                                fires = fs;
                                temphumids = ts;
                                air_conditioners = acs;
                              } in
                              Ensures-done site' (record {
                                batteries_inv = hb;
                                pvs_limited = hp;
                                meters_in = MeterIn-moved site site' ms (eb, ep, refl) hm;
                                fires_sized = hf;
                                ths_sized = ht;
                                climates_sized = ha;
                              })

  -- `updateMeters` returns.
  pub update_meters-SiteInv :
      (dt : F) (site : Site F) → SiteInv site → Ensures SiteInv (update_meters dt site)
  unfolding update_meters
  update_meters-SiteInv dt site i =
      Ensures-bind _
        (traverse-Ensures (MeterIn site) (MeterIn site) (update_agg site dt)
          (update_agg-MeterIn site dt) 0 site.meters i.meters_in)
        λ ms (hm, _).
          let site' = record site { meters = ms } in
          Ensures-done site' (record {
            batteries_inv = i.batteries_inv;
            pvs_limited = i.pvs_limited;
            meters_in = MeterIn-moved site site' ms (refl, refl, refl) hm;
            fires_sized = i.fires_sized;
            ths_sized = i.ths_sized;
            climates_sized = i.climates_sized;
          })

  tick_pv-IsLimited :
      (t : LocalTime) (dt coeff : F) (pv : PvUnit F)
      → IsLimited pv
      → Ensures IsLimited (tick_pv t dt coeff pv)
  unfolding tick_pv
  tick_pv-IsLimited t dt coeff pv l = Ensures-bind _ (process_controls-IsLimited pv l) λ pv' l'.
      Ensures-done (update_simulation t dt coeff pv')
        (update_simulation-IsLimited t dt coeff pv' l')

  -- the loops in front of the meters
  tick_devices-SiteInv :
      (laws : IsFloat F) (t : LocalTime) (dt : F) (draws : TickDraws F) (site : Site F)
      → SiteInv site
      → Ensures SiteInv (tick_devices t dt draws site)
  unfolding tick_devices temp_humid_update
  tick_devices-SiteInv laws t dt draws site i =
      let weather = weather_update dt draws.for_weather site.weather in
      let loads = update_loads t draws.for_load 0 site.loads in
      Ensures-bind _
        (traverse-Ensures Inv Inv _
          (λ k bu j. tick_unit-Inv laws dt (draws.for_power k) (draws.for_reactive k) bu j) 0
          site.batteries i.batteries_inv)
        λ bs (hb, eb).
          Ensures-bind _
            (traverse-Ensures IsLimited IsLimited _
              (λ k pv l. tick_pv-IsLimited t dt weather.coeff pv l) 0 site.pvs i.pvs_limited)
            λ ps (hp, ep).
              let site' = record site {
                weather = weather;
                loads = loads;
                batteries = bs;
                pvs = ps;
                temphumids = map (temp_humid_update dt) site.temphumids;
                air_conditioners = map (climate_update dt) site.air_conditioners;
              } in
              Ensures-done site' (record {
                batteries_inv = hb;
                pvs_limited = hp;
                meters_in =
                    MeterIn-moved site site' site.meters
                      (eb, ep, length-update_loads t draws.for_load 0 site.loads) i.meters_in;
                fires_sized = i.fires_sized;
                ths_sized =
                    All-map IsSizedTh IsSizedTh (temp_humid_update dt) (λ th s. s) site.temphumids
                      i.ths_sized;
                climates_sized =
                    All-map IsSizedClimate IsSizedClimate (climate_update dt)
                      (climate_update-IsSized dt) site.air_conditioners i.climates_sized;
              })

  -- A tick returns, and keeps what the devices satisfy.
  pub tick_site-SiteInv :
      (laws : IsFloat F) (hz : F) (t : LocalTime) (dt : F) (draws : TickDraws F)
      (sync_draws : SiteSyncDraws F) (site : Site F)
      → SiteInv site
      → Ensures SiteInv (tick_site hz t dt draws sync_draws site)
  unfolding tick_site
  tick_site-SiteInv laws hz t dt draws sync_draws site i =
      Ensures-bind _ (tick_devices-SiteInv laws t dt draws site i) λ s1 i1.
        Ensures-bind _ (update_meters-SiteInv dt s1 i1)
          λ s2 i2. sync_all-SiteInv hz sync_draws s2 i2
