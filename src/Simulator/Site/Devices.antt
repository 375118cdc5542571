-- ===== src/Simulator/Site/Devices.antt =====
-- internal/simulator/simulator.go: the maps `sim.banks` and `sim.writeHandlers` that `NewSimulator`
-- fills, as devices that consist of the units of the site. The slave ids are distinct.
use virtual_bess.Prelude.{
  ℕ, ◌≡◌, refl, arith, Bool, true, false, none, some, IsU16, ◌⊎◌, inl, inr, ◌==◌, if◌then◌else◌,
}
use virtual_bess.Prelude.Go.{Run, done}
use virtual_bess.Prelude.Hoare.{Ensures, Ensures-done}
use virtual_bess.Simulator.Bank.{SlaveBank}
use virtual_bess.Simulator.Bank.Effects.{put, write_u16-put}
use virtual_bess.Simulator.Float.{Float}
use virtual_bess.Simulator.Battery.{BatteryUnit, on_pcs_write, on_bms_write}
use virtual_bess.Simulator.Battery.Invariant.{Inv}
use virtual_bess.Simulator.Battery.Invariant.Reach.{
  pcs_written, bms_written, pcs_written-Inv, bms_written-Inv,
}
use virtual_bess.Simulator.Pv.{PvUnit, on_pv_write, on_bank}
use virtual_bess.Simulator.Pv.Limits.{IsLimited, pv_written, pv_written-IsLimited}
use virtual_bess.Simulator.AirConditioner.{
  AirConditioner, AirConditionerKind, air_conditioner_ac, air_conditioner_lc, on_write, on_write_of,
  on_ac_write, on_lc_write,
}
use virtual_bess.Simulator.Environment.{Fire, TempHumid}
use virtual_bess.Simulator.Core.{Devices}
use virtual_bess.Simulator.Core.Units.{battery_devices}
use virtual_bess.Simulator.Core.Many.{IsDevice, list_devices}
use virtual_bess.Simulator.Core.Parts.{
  single_devices, single-IsDevice, field_devices, either_devices,
}
use virtual_bess.Simulator.Site.{MeterAgg, Site}
use virtual_bess.Simulator.Site.Invariant.{IsSizedTh, IsSizedClimate, IsSizedFire, MeterIn}

-- a slave that has no write callback
abbrev no_callback : {A : Type 0} → A → ℕ → ℕ → Run A
no_callback x addr v = done x

abbrev pub fire_devices : Devices Fire
fire_devices =
    single_devices (λ (f : Fire). f.bank) (λ b (f : Fire). record f { bank = b }) no_callback

pub fire-IsDevice : IsDevice fire_devices IsSizedFire
fire-IsDevice =
    single-IsDevice _ _ _ IsSizedFire (λ b f. refl) (λ f size. size)
      λ f addr v size h. Ensures-done (record f { bank = put f.bank addr v }) size

-- which of two banks is found
one_of_two :
    {A : Type 0} (t u : Bool) (x y : A) {a : A}
    → (if t then some x else if u then some y else none) ≡ some a
    → ((t ≡ true) × (x ≡ a)) ⊎ ((t ≡ false) × (u ≡ true) × (y ≡ a))
one_of_two true u x y e = inl (refl, cc e)
one_of_two false true x y e = inr (refl, refl, cc e)
one_of_two false false x y e = cc

module _ {F : Type 0} where
  abbrev pub meter_devices : Devices (MeterAgg F)
  meter_devices =
      single_devices (λ (agg : MeterAgg F). agg.meter.bank)
        (λ b (agg : MeterAgg F). record agg { meter = record agg.meter { bank = b } }) no_callback

  abbrev pub th_devices : Devices (TempHumid F)
  th_devices =
      single_devices (λ (th : TempHumid F). th.bank)
        (λ b (th : TempHumid F). record th { bank = b }) no_callback

module _ {F : Type 0} ⦃fl : Float F⦄ where
  abbrev pub pv_devices : Devices (PvUnit F)
  pv_devices =
      single_devices (λ (pv : PvUnit F). pv.bank) (λ b (pv : PvUnit F). record pv { bank = b })
        on_pv_write

  abbrev pub climate_devices : Devices (AirConditioner F)
  climate_devices =
      single_devices (λ (ac : AirConditioner F). ac.bank)
        (λ b (ac : AirConditioner F). record ac { bank = b })
        (λ ac addr v. done (on_write ac addr v))

  abbrev pub battery_list : Devices (Site F)
  battery_list =
      field_devices (λ (s : Site F). s.batteries) (λ xs (s : Site F). record s { batteries = xs })
        (list_devices battery_devices)

  abbrev pub pv_list : Devices (Site F)
  pv_list =
      field_devices (λ (s : Site F). s.pvs) (λ xs (s : Site F). record s { pvs = xs })
        (list_devices pv_devices)

  abbrev pub meter_list : Devices (Site F)
  meter_list =
      field_devices (λ (s : Site F). s.meters) (λ xs (s : Site F). record s { meters = xs })
        (list_devices meter_devices)

  abbrev pub fire_list : Devices (Site F)
  fire_list =
      field_devices (λ (s : Site F). s.fires) (λ xs (s : Site F). record s { fires = xs })
        (list_devices fire_devices)

  abbrev pub th_list : Devices (Site F)
  th_list =
      field_devices (λ (s : Site F). s.temphumids) (λ xs (s : Site F). record s { temphumids = xs })
        (list_devices th_devices)

  abbrev pub climate_list : Devices (Site F)
  climate_list =
      field_devices (λ (s : Site F). s.air_conditioners)
        (λ xs (s : Site F). record s { air_conditioners = xs }) (list_devices climate_devices)

  -- every slave of the site
  abbrev pub site_devices : Devices (Site F)
  site_devices = either_devices battery_list (
      either_devices pv_list (
        either_devices meter_list (either_devices fire_list (either_devices th_list climate_list))))

  on_pcs_write-Inv :
      (bu : BatteryUnit F) (addr v : ℕ)
      → Inv bu
      → IsU16 addr
      → Ensures Inv (on_pcs_write (record bu { pcs = put bu.pcs addr v }) addr v)
  unfolding pcs_written
  on_pcs_write-Inv bu addr v i h =
      rw (write_u16-put bu.pcs addr v i.pcs_sized h) at (pcs_written-Inv bu addr v i h)

  on_bms_write-Inv :
      (bu : BatteryUnit F) (addr v : ℕ)
      → Inv bu
      → IsU16 addr
      → Ensures Inv (on_bms_write (record bu { bms = put bu.bms addr v }) addr v)
  unfolding bms_written
  on_bms_write-Inv bu addr v i h =
      rw (write_u16-put bu.bms addr v i.bms_sized h) at (bms_written-Inv bu addr v i h)

  found_bank :
      (bu : BatteryUnit F) (id : ℕ) {b : SlaveBank}
      → battery_devices.bank_of bu id ≡ some b
      → (((id == bu.pcs.slave_id) ≡ true) × (bu.pcs ≡ b))
        ⊎ (((id == bu.pcs.slave_id) ≡ false) × ((id == bu.bms.slave_id) ≡ true) × (bu.bms ≡ b))
  found_bank bu id e = one_of_two (id == bu.pcs.slave_id) (id == bu.bms.slave_id) bu.pcs bu.bms e

  pub battery-IsDevice : IsDevice {A = BatteryUnit F} battery_devices Inv
  battery-IsDevice = record {
    bank_sized = λ bu id b i e. elim (found_bank bu id e) [
      | inl (_, same) ↦ rw (← same) i.pcs_sized
      | inr (_, _, same) ↦ rw (← same) i.bms_sized
    ];
    answers = λ bu id addr v b e. elim (found_bank bu id e) [
      | inl (t, same) ↦ rw (t, rw same at t) refl
      | inr (t, u, same) ↦ rw (t, t, rw same at u) refl
    ];
    keeps = λ bu id addr v b i e h. elim (found_bank bu id e) [
      | inl (t, same) ↦ rw (t, rw same at t) (rw same at (on_pcs_write-Inv bu addr v i h))
      | inr (t, u, same) ↦ rw (t, t) (rw same at (on_bms_write-Inv bu addr v i h))
    ];
  }

  pub pv-IsDevice : IsDevice {A = PvUnit F} pv_devices IsLimited
  unfolding pv_written on_bank
  pv-IsDevice =
      single-IsDevice _ _ _ IsLimited (λ b pv. refl) (λ pv l. l.sized)
        λ pv addr v l h.
          rw (write_u16-put pv.bank addr v l.sized h) at (pv_written-IsLimited pv addr v l h)

  on_write_of-IsSized :
      (kind : AirConditionerKind) (ac : AirConditioner F) (addr v : ℕ)
      → IsSizedClimate ac
      → IsSizedClimate (on_write_of kind ac addr v)
  unfolding on_ac_write on_lc_write
  on_write_of-IsSized air_conditioner_ac ac addr v size = ground (arith, size)
  on_write_of-IsSized air_conditioner_lc ac addr v size = ground (arith, size)

  pub climate-IsDevice : IsDevice {A = AirConditioner F} climate_devices IsSizedClimate
  climate-IsDevice =
      single-IsDevice _ _ _ IsSizedClimate (λ b ac. refl) (λ ac size. size)
        λ ac addr v size h.
          let stored = record ac { bank = put ac.bank addr v } in
          Ensures-done (on_write stored addr v) (on_write_of-IsSized ac.kind stored addr v size)

  pub th-IsDevice : IsDevice {A = TempHumid F} th_devices IsSizedTh
  th-IsDevice =
      single-IsDevice _ _ _ IsSizedTh (λ b th. refl) (λ th size. size)
        λ th addr v size h. Ensures-done (record th { bank = put th.bank addr v }) size

  pub meter-IsDevice : (site : Site F) → IsDevice {A = MeterAgg F} meter_devices (MeterIn site)
  meter-IsDevice site =
      single-IsDevice _ _ _ (MeterIn site) (λ b agg. refl) (λ agg m. m.0)
        λ agg addr v (size, r) h.
          Ensures-done
            (record agg { meter = record agg.meter { bank = put agg.meter.bank addr v } })
            (
              size,
              record {
                pcs_below = r.pcs_below;
                pvs_below = r.pvs_below;
                loads_below = r.loads_below;
              },
            )
