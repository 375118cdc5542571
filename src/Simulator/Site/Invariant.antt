-- ===== src/Simulator/Site/Invariant.antt =====
-- What the devices of the site satisfy, and that each loop of a tick keeps it.
use virtual_bess.Prelude.{ℕ, ◌≡◌, refl, arith, All, length, if◌then◌else◌}
use virtual_bess.Prelude.Hoare.{Ensures, Ensures-done, Ensures-bind}
use virtual_bess.Prelude.Traverse.{fold_at-runs}
use virtual_bess.Simulator.Bank.Effects.{IsSized}
use virtual_bess.Simulator.Bank.Keeps.{
  IsWordFrom, write_u16-Keeps, write_words-Keeps, write_longs-Keeps,
}
use virtual_bess.Simulator.Float.{Float, nought}
use virtual_bess.Simulator.Battery.Invariant.{Inv}
use virtual_bess.Simulator.Pv.Limits.{IsLimited}
use virtual_bess.Simulator.Meter.{
  Meter, MeterInput, update_voltage, count_kwh, meter_update, energy_longs, meter_voltages,
  meter_currents, power_longs, meter_sync,
}
use virtual_bess.Simulator.Registers.Meter.{reg_meter_frequency}
use virtual_bess.Simulator.Environment.{
  Fire, fire_words, fire_sync, TempHumid, temp_humid_words, temp_humid_sync,
}
use virtual_bess.Simulator.AirConditioner.{
  AirConditioner, AirConditionerKind, air_conditioner_ac, air_conditioner_lc, words_of,
  climate_update, climate_sync, update_status, tend,
}
use virtual_bess.Simulator.Site.{
  MeterAgg, Site, add_pcs, add_pv, add_load, negated_input, update_agg, sync_agg,
}
use virtual_bess.Simulator.Site.Indices.{InRange}

module _ {F : Type 0} where
  abbrev pub IsSizedMeter : MeterAgg F → Type 0
  IsSizedMeter agg = IsSized agg.meter.bank

  abbrev pub IsSizedTh : TempHumid F → Type 0
  IsSizedTh th = IsSized th.bank

  abbrev pub IsSizedClimate : AirConditioner F → Type 0
  IsSizedClimate ac = IsSized ac.bank

abbrev pub IsSizedFire : Fire → Type 0
IsSizedFire f = IsSized f.bank

module _ {F : Type 0} ⦃fl : Float F⦄ where
  -- The meters refer to devices that are there.
  abbrev pub MeterIn : Site F → MeterAgg F → Type 0
  MeterIn site agg =
      IsSized agg.meter.bank
      × InRange (length site.batteries) (length site.pvs) (length site.loads) agg

  -- Every device keeps its own invariant, and no meter refers to a device that is not there.
  pub record SiteInv (site : Site F) : Type 0 where
    pub batteries_inv : All Inv site.batteries
    pub pvs_limited : All IsLimited site.pvs
    pub meters_in : All (MeterIn site) site.meters
    pub fires_sized : All IsSizedFire site.fires
    pub ths_sized : All IsSizedTh site.temphumids
    pub climates_sized : All IsSizedClimate site.air_conditioners

  meter_update-bank :
      (dt : F) (input : MeterInput F) (m : Meter F) → (meter_update dt input m).bank ≡ m.bank
  unfolding meter_update update_voltage count_kwh
  meter_update-bank dt input m = ground arith

  -- `updateMeters` finds the devices of a meter.
  pub update_agg-MeterIn :
      (site : Site F) (dt : F) (i : ℕ) (agg : MeterAgg F)
      → MeterIn site agg
      → Ensures (MeterIn site) (update_agg site dt i agg)
  unfolding update_agg
  update_agg-MeterIn site dt i agg (size, r) =
      let ((pcs, reactive), e1) =
        fold_at-runs add_pcs site.batteries agg.pcs_idx (nought, nought) r.pcs_below in
      let (pv, e2) = fold_at-runs add_pv site.pvs agg.pv_idx nought r.pvs_below in
      let (load, e3) = fold_at-runs add_load site.loads agg.load_idx nought r.loads_below in
      let input : MeterInput F = record {
        load_kw = load;
        pcs_kw = pcs;
        pcs_kvar = reactive;
        pv_kw = pv;
      } in
      let directed = if agg.outflow then negated_input input else input in
      (
        record agg { meter = meter_update dt directed agg.meter },
        rw (e1, e2, e3) refl,
        (
          rw (meter_update-bank dt directed agg.meter) size,
          record { pcs_below = r.pcs_below; pvs_below = r.pvs_below; loads_below = r.loads_below },
        ),
      )

  meter_sync-IsSized :
      (hz : F) (draw : ℕ → F) (m : Meter F)
      → IsSized m.bank
      → Ensures (λ m'. IsSized m'.bank) (meter_sync hz draw m)
  unfolding meter_sync
  meter_sync-IsSized hz draw m size =
      Ensures-bind _ (write_longs-Keeps 0 (energy_longs m) m.bank size (omega arith)) λ b1 k1.
        Ensures-bind _ (write_words-Keeps 0 (meter_voltages draw m) b1 k1.sized (omega arith))
          λ b2 k2.
            Ensures-bind _ (write_longs-Keeps 0 (meter_currents draw m) b2 k2.sized (omega arith))
              λ b3 k3.
                Ensures-bind _ (write_longs-Keeps 0 (power_longs m) b3 k3.sized (omega arith))
                  λ b4 k4.
                    Ensures-bind _
                      (write_u16-Keeps 0 b4 reg_meter_frequency _ k4.sized (omega arith)
                        (omega arith))
                      λ b5 k5. Ensures-done (record m { bank = b5 }) k5.sized

  -- `Sync` of a meter keeps what it refers to.
  pub sync_agg-MeterIn :
      (site : Site F) (hz : F) (draw : ℕ → F) (agg : MeterAgg F)
      → MeterIn site agg
      → Ensures (MeterIn site) (sync_agg hz draw agg)
  sync_agg-MeterIn site hz draw agg (size, r) =
      Ensures-bind _ (meter_sync-IsSized hz draw agg.meter size) λ m s.
        Ensures-done (record agg { meter = m })
          (
            s,
            record {
              pcs_below = r.pcs_below;
              pvs_below = r.pvs_below;
              loads_below = r.loads_below;
            },
          )

  pub temp_humid_sync-IsSized :
      (th : TempHumid F) → IsSizedTh th → Ensures IsSizedTh (temp_humid_sync th)
  unfolding temp_humid_sync
  temp_humid_sync-IsSized th size =
      Ensures-bind _ (write_words-Keeps 0 (temp_humid_words th) th.bank size (omega arith))
        λ b k. Ensures-done (record th { bank = b }) k.sized

  climate_words-IsWordFrom :
      (kind : AirConditionerKind) (ac : AirConditioner F) → All (IsWordFrom 0) (words_of kind ac)
  climate_words-IsWordFrom air_conditioner_ac ac = omega arith
  climate_words-IsWordFrom air_conditioner_lc ac = omega arith

  pub climate_sync-IsSized :
      (ac : AirConditioner F) → IsSizedClimate ac → Ensures IsSizedClimate (climate_sync ac)
  unfolding climate_sync
  climate_sync-IsSized ac size =
      Ensures-bind _
        (write_words-Keeps 0 (words_of ac.kind ac) ac.bank size
          (climate_words-IsWordFrom ac.kind ac))
        λ b k. Ensures-done (record ac { bank = b }) k.sized

  pub climate_update-IsSized :
      (dt : F) (ac : AirConditioner F) → IsSizedClimate ac → IsSizedClimate (climate_update dt ac)
  unfolding climate_update update_status tend
  climate_update-IsSized dt ac size = size

pub fire_sync-IsSized : (f : Fire) → IsSizedFire f → Ensures IsSizedFire (fire_sync f)
unfolding fire_sync
fire_sync-IsSized f size =
    Ensures-bind _ (write_words-Keeps 0 (fire_words f.cfg) f.bank size (omega arith))
      λ b k. Ensures-done (record f { bank = b }) k.sized
