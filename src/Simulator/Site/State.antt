-- ===== src/Simulator/Site/State.antt =====
-- internal/simulator/state.go: what is saved of the devices and put back. The file and its JSON are
-- left out.
use virtual_bess.Prelude.{ℕ, ◌≡◌, refl, List, map, Option, none, some}
use virtual_bess.Prelude.Distinct.{Distinct}
use virtual_bess.Prelude.Keyed.{put_all, put_all-take}
use virtual_bess.Simulator.Battery.{BatteryUnit}
use virtual_bess.Simulator.Pv.{PvUnit}
use virtual_bess.Simulator.Site.{MeterAgg, Site}

pub record PersistedMeter (F : Type 0) : Type 0 where
  pub slave_id : ℕ
  pub forward_kwh : F
  pub reverse_kwh : F

pub record PersistedBattery (F : Type 0) : Type 0 where
  pub pcs_slave_id : ℕ
  pub current_energy_kwh : F
  pub total_charge_kwh : F
  pub total_discharge_kwh : F
  pub session_charge_kwh : F
  pub session_discharge_kwh : F

pub record PersistedPv (F : Type 0) : Type 0 where
  pub slave_id : ℕ
  pub total_energy_kwh : F
  pub daily_energy_kwh : F
  pub monthly_energy_kwh : F
  pub yearly_energy_kwh : F
  pub daily_peak_power_kw : F
  pub day_key : ℕ
  pub month_key : ℕ
  pub year_key : ℕ

pub record PersistedState (F : Type 0) : Type 0 where
  pub meters : List (PersistedMeter F)
  pub batteries : List (PersistedBattery F)
  pub pvs : List (PersistedPv F)

module _ {F : Type 0} where
  abbrev pub meter_slave : MeterAgg F → ℕ
  meter_slave agg = agg.meter.bank.slave_id

  abbrev pub pcs_slave : BatteryUnit F → ℕ
  pcs_slave bu = bu.pcs.slave_id

  abbrev pub pv_slave : PvUnit F → ℕ
  pv_slave pv = pv.bank.slave_id

  abbrev pub saved_meter : MeterAgg F → PersistedMeter F
  saved_meter agg = record {
    slave_id = agg.meter.bank.slave_id;
    forward_kwh = agg.meter.forward_kwh;
    reverse_kwh = agg.meter.reverse_kwh;
  }

  abbrev pub saved_battery : BatteryUnit F → PersistedBattery F
  saved_battery bu = record {
    pcs_slave_id = bu.pcs.slave_id;
    current_energy_kwh = bu.current_energy_kwh;
    total_charge_kwh = bu.total_charge_kwh;
    total_discharge_kwh = bu.total_discharge_kwh;
    session_charge_kwh = bu.session_charge_kwh;
    session_discharge_kwh = bu.session_discharge_kwh;
  }

  abbrev pub saved_pv : PvUnit F → PersistedPv F
  saved_pv pv = record {
    slave_id = pv.bank.slave_id;
    total_energy_kwh = pv.total_energy_kwh;
    daily_energy_kwh = pv.daily_energy_kwh;
    monthly_energy_kwh = pv.monthly_energy_kwh;
    yearly_energy_kwh = pv.yearly_energy_kwh;
    daily_peak_power_kw = pv.daily_peak_power_kw;
    day_key = pv.day_key;
    month_key = pv.month_key;
    year_key = pv.year_key;
  }

  -- `Snapshot`, which `SnapshotLocked` calls
  unfoldable pub snapshot : Site F → PersistedState F
  snapshot site = record {
    meters = map saved_meter site.meters;
    batteries = map saved_battery site.batteries;
    pvs = map saved_pv site.pvs;
  }

  abbrev pub restore_meter : PersistedMeter F → MeterAgg F → MeterAgg F
  restore_meter pm agg = record agg {
    meter = record agg.meter { forward_kwh = pm.forward_kwh; reverse_kwh = pm.reverse_kwh };
  }

  abbrev pub restore_battery : PersistedBattery F → BatteryUnit F → BatteryUnit F
  restore_battery pb bu = record bu {
    current_energy_kwh = pb.current_energy_kwh;
    total_charge_kwh = pb.total_charge_kwh;
    total_discharge_kwh = pb.total_discharge_kwh;
    session_charge_kwh = pb.session_charge_kwh;
    session_discharge_kwh = pb.session_discharge_kwh;
  }

  abbrev pub restore_pv : PersistedPv F → PvUnit F → PvUnit F
  restore_pv pp pv = record pv {
    total_energy_kwh = pp.total_energy_kwh;
    daily_energy_kwh = pp.daily_energy_kwh;
    monthly_energy_kwh = pp.monthly_energy_kwh;
    yearly_energy_kwh = pp.yearly_energy_kwh;
    daily_peak_power_kw = pp.daily_peak_power_kw;
    day_key = pp.day_key;
    month_key = pp.month_key;
    year_key = pp.year_key;
  }

  abbrev pub restored : PersistedState F → Site F → Site F
  restored st site = record site {
    meters =
        put_all (λ (pm : PersistedMeter F). pm.slave_id) meter_slave restore_meter st.meters
          site.meters;
    batteries =
        put_all (λ (pb : PersistedBattery F). pb.pcs_slave_id) pcs_slave restore_battery
          st.batteries site.batteries;
    pvs = put_all (λ (pp : PersistedPv F). pp.slave_id) pv_slave restore_pv st.pvs site.pvs;
  }

  -- `Restore`, which `RestoreLocked` calls, on a pointer that may be nil
  unfoldable pub restore : Option (PersistedState F) → Site F → Site F
  restore none site = site
  restore (some st) site = restored st site

  -- The meters, the battery units and the PV inverters have the slave ids of another site.
  pub record SameSlaves (site : Site F) (other : Site F) : Type 0 where
    pub same_meters : map meter_slave other.meters ≡ map meter_slave site.meters
    pub same_batteries : map pcs_slave other.batteries ≡ map pcs_slave site.batteries
    pub same_pvs : map pv_slave other.pvs ≡ map pv_slave site.pvs

  -- A snapshot that is restored into a site with the same slaves, as it is made again from the same
  -- configuration, is its snapshot then: every counter, energy and period of a meter, a battery unit
  -- and a PV inverter is back with the device that it was taken from. The slave ids are distinct.
  pub snapshot-restore :
      (site other : Site F)
      → Distinct (map meter_slave site.meters)
      → Distinct (map pcs_slave site.batteries)
      → Distinct (map pv_slave site.pvs)
      → SameSlaves site other
      → snapshot (restore (some (snapshot site)) other) ≡ snapshot site
  unfolding snapshot restore
  snapshot-restore site other d1 d2 d3 s =
      let e1 =
        put_all-take (λ (pm : PersistedMeter F). pm.slave_id) meter_slave restore_meter saved_meter
          (λ x. refl) (λ r x. refl) (λ r x e. rw (← e) refl) site.meters other.meters d1
          s.same_meters in
      let e2 =
        put_all-take (λ (pb : PersistedBattery F). pb.pcs_slave_id) pcs_slave restore_battery
          saved_battery (λ x. refl) (λ r x. refl) (λ r x e. rw (← e) refl) site.batteries
          other.batteries d2 s.same_batteries in
      let e3 =
        put_all-take (λ (pp : PersistedPv F). pp.slave_id) pv_slave restore_pv saved_pv (λ x. refl)
          (λ r x. refl) (λ r x e. rw (← e) refl) site.pvs other.pvs d3 s.same_pvs in
      rw (e1, e2, e3) refl
