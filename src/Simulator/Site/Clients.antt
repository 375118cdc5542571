-- ===== src/Simulator/Site/Clients.antt =====
-- Writes to any slave of the site keep what the devices satisfy.
use virtual_bess.Prelude.{List, ◌≡◌, refl, All, length}
use virtual_bess.Simulator.Float.{Float}
use virtual_bess.Simulator.Battery.Invariant.{Inv}
use virtual_bess.Simulator.Pv.Limits.{IsLimited}
use virtual_bess.Simulator.Environment.{Fire, TempHumid}
use virtual_bess.Simulator.AirConditioner.{AirConditioner}
use virtual_bess.Simulator.Core.Units.{battery_devices}
use virtual_bess.Simulator.Core.Many.{IsDevice, list-IsDevice}
use virtual_bess.Simulator.Core.Parts.{
  field-IsDevice, either_devices, either-IsDevice, apart-either,
}
use virtual_bess.Simulator.Site.{Site}
use virtual_bess.Simulator.Site.Invariant.{IsSizedTh, IsSizedClimate, IsSizedFire, MeterIn, SiteInv}
use virtual_bess.Simulator.Site.Ticks.{MeterIn-moved}
use virtual_bess.Simulator.Site.Devices.{
  fire_devices, meter_devices, th_devices, pv_devices, climate_devices, battery_list, pv_list,
  meter_list, fire_list, th_list, climate_list, site_devices, battery-IsDevice, pv-IsDevice,
  climate-IsDevice, fire-IsDevice, th-IsDevice, meter-IsDevice,
}

module _ {F : Type 0} ⦃fl : Float F⦄ where
  battery_list-IsDevice : IsDevice {A = Site F} battery_list SiteInv
  battery_list-IsDevice =
      field-IsDevice _ _ _ (λ s xs. All Inv xs × (length xs ≡ length s.batteries)) SiteInv
        (λ s. list-IsDevice battery_devices Inv battery-IsDevice (length s.batteries))
        (λ xs s. refl) (λ xs ys s. refl) (λ s i. (i.batteries_inv, refl))
        λ s xs i (h, count). record {
          batteries_inv = h;
          pvs_limited = i.pvs_limited;
          meters_in =
              MeterIn-moved s (record s { batteries = xs }) s.meters (count, refl, refl)
                i.meters_in;
          fires_sized = i.fires_sized;
          ths_sized = i.ths_sized;
          climates_sized = i.climates_sized;
        }

  pv_list-IsDevice : IsDevice {A = Site F} pv_list SiteInv
  pv_list-IsDevice =
      field-IsDevice _ _ _ (λ s xs. All IsLimited xs × (length xs ≡ length s.pvs)) SiteInv
        (λ s. list-IsDevice pv_devices IsLimited pv-IsDevice (length s.pvs)) (λ xs s. refl)
        (λ xs ys s. refl) (λ s i. (i.pvs_limited, refl))
        λ s xs i (h, count). record {
          batteries_inv = i.batteries_inv;
          pvs_limited = h;
          meters_in =
              MeterIn-moved s (record s { pvs = xs }) s.meters (refl, count, refl) i.meters_in;
          fires_sized = i.fires_sized;
          ths_sized = i.ths_sized;
          climates_sized = i.climates_sized;
        }

  meter_list-IsDevice : IsDevice {A = Site F} meter_list SiteInv
  meter_list-IsDevice =
      field-IsDevice _ _ _ (λ s xs. All (MeterIn s) xs × (length xs ≡ length s.meters)) SiteInv
        (λ s. list-IsDevice meter_devices (MeterIn s) (meter-IsDevice s) (length s.meters))
        (λ xs s. refl) (λ xs ys s. refl) (λ s i. (i.meters_in, refl))
        λ s xs i (h, _). record {
          batteries_inv = i.batteries_inv;
          pvs_limited = i.pvs_limited;
          meters_in = MeterIn-moved s (record s { meters = xs }) xs (refl, refl, refl) h;
          fires_sized = i.fires_sized;
          ths_sized = i.ths_sized;
          climates_sized = i.climates_sized;
        }

  -- what no meter refers to
  others :
      (s : Site F) (fires : List Fire) (ths : List (TempHumid F)) (acs : List (AirConditioner F))
      → SiteInv s
      → All IsSizedFire fires
      → All IsSizedTh ths
      → All IsSizedClimate acs
      → SiteInv (record s { fires = fires; temphumids = ths; air_conditioners = acs })
  others s fires ths acs i h1 h2 h3 = record {
    batteries_inv = i.batteries_inv;
    pvs_limited = i.pvs_limited;
    meters_in =
        MeterIn-moved s (record s { fires = fires; temphumids = ths; air_conditioners = acs })
          s.meters (refl, refl, refl) i.meters_in;
    fires_sized = h1;
    ths_sized = h2;
    climates_sized = h3;
  }

  fire_list-IsDevice : IsDevice {A = Site F} fire_list SiteInv
  fire_list-IsDevice =
      field-IsDevice _ _ _ (λ s xs. All IsSizedFire xs × (length xs ≡ length s.fires)) SiteInv
        (λ s. list-IsDevice fire_devices IsSizedFire fire-IsDevice (length s.fires)) (λ xs s. refl)
        (λ xs ys s. refl) (λ s i. (i.fires_sized, refl))
        λ s xs i (h, _).
          others s xs s.temphumids s.air_conditioners i h i.ths_sized i.climates_sized

  th_list-IsDevice : IsDevice {A = Site F} th_list SiteInv
  th_list-IsDevice =
      field-IsDevice _ _ _ (λ s xs. All IsSizedTh xs × (length xs ≡ length s.temphumids)) SiteInv
        (λ s. list-IsDevice th_devices IsSizedTh th-IsDevice (length s.temphumids)) (λ xs s. refl)
        (λ xs ys s. refl) (λ s i. (i.ths_sized, refl))
        λ s xs i (h, _). others s s.fires xs s.air_conditioners i i.fires_sized h i.climates_sized

  climate_list-IsDevice : IsDevice {A = Site F} climate_list SiteInv
  climate_list-IsDevice =
      field-IsDevice _ _ _ (λ s xs. All IsSizedClimate xs × (length xs ≡ length s.air_conditioners))
        SiteInv
        (λ s.
          list-IsDevice climate_devices IsSizedClimate climate-IsDevice (length s.air_conditioners))
        (λ xs s. refl) (λ xs ys s. refl) (λ s i. (i.climates_sized, refl))
        λ s xs i (h, _). others s s.fires s.temphumids xs i i.fires_sized i.ths_sized h

  -- A write to any slave of the site returns, and keeps what the devices satisfy.
  pub site-IsDevice : IsDevice {A = Site F} site_devices SiteInv
  site-IsDevice =
      let d5 =
        either-IsDevice th_list climate_list SiteInv th_list-IsDevice climate_list-IsDevice
          (λ s id b. refl) in
      let e4 = either_devices th_list climate_list in
      let d4 =
        either-IsDevice fire_list e4 SiteInv fire_list-IsDevice d5
          (apart-either fire_list th_list climate_list (λ s id b. refl) (λ s id b. refl)) in
      let e3 = either_devices fire_list e4 in
      let d3 = either-IsDevice meter_list e3 SiteInv meter_list-IsDevice d4 (
        apart-either meter_list fire_list e4 (λ s id b. refl)
          (apart-either meter_list th_list climate_list (λ s id b. refl) (λ s id b. refl))) in
      let e2 = either_devices meter_list e3 in
      let d2 = either-IsDevice pv_list e2 SiteInv pv_list-IsDevice d3 (
        apart-either pv_list meter_list e3 (λ s id b. refl)
          (apart-either pv_list fire_list e4 (λ s id b. refl)
            (apart-either pv_list th_list climate_list (λ s id b. refl) (λ s id b. refl)))) in
      either-IsDevice battery_list (either_devices pv_list e2) SiteInv battery_list-IsDevice d2 (
        apart-either battery_list pv_list e2 (λ s id b. refl)
          (apart-either battery_list meter_list e3 (λ s id b. refl)
            (apart-either battery_list fire_list e4 (λ s id b. refl)
              (apart-either battery_list th_list climate_list (λ s id b. refl) (λ s id b. refl)))))
