-- ===== src/Simulator/Battery/BmsSync.antt =====
-- internal/simulator/battery_sync.go: the holding registers of the BMS.
use virtual_bess.Prelude.{ℕ, ◌+◌, [], ◌∷◌, Bool, not, ltb, ◌==◌, if◌then◌else◌, uint16}
use virtual_bess.Prelude.Go.{Run, done, ◌>>=◌, remainder}
use virtual_bess.Simulator.Bank.{write_u32}
use virtual_bess.Simulator.Float.{Float, le, nought, one}
use virtual_bess.Simulator.Battery.{BatteryUnit, bool_to_u16, cell_count, cell_avg_voltage}
use virtual_bess.Simulator.Battery.PcsSync.{
  Draws, rand_intn, write_bms, tenths, signed_tenths, dc_current_a,
}
use virtual_bess.Simulator.Registers.Bms.{
  reg_bms_fault_status, reg_bms_alarm_status, reg_bms_sys_status, reg_bms_charge_forbid,
  reg_bms_discharge_forbid, reg_bms_soc, reg_bms_soh, reg_bms_remain_charge,
  reg_bms_remain_discharge, reg_bms_voltage, reg_bms_current, reg_bms_power, reg_bms_total_charge,
  reg_bms_total_discharge, reg_bms_max_charge_pw, reg_bms_max_discharge_pw, reg_bms_max_charge_i,
  reg_bms_max_discharge_i, reg_bms_cell_v_max, reg_bms_cell_v_max_idx, reg_bms_cell_v_min,
  reg_bms_cell_v_min_idx, reg_bms_cell_v_avg, reg_bms_cell_t_max, reg_bms_cell_t_max_idx,
  reg_bms_cell_t_min, reg_bms_cell_t_min_idx, reg_bms_cell_t_avg, reg_bms_cell_v_spread,
  reg_bms_cell_t_spread, bms_status_standby, bms_status_stopped, bms_status_charging,
  bms_status_discharging,
}

-- drawn cell statistics: the mean, the spread and where the extremes lie
pub record CellStats (F : Type 0) : Type 0 where
  pub max_v : F
  pub min_v : F
  pub avg_v : F
  pub spread_v : F
  pub max_t : F
  pub min_t : F
  pub avg_t : F
  pub spread_t : F
  pub max_v_idx : ℕ
  pub min_v_idx : ℕ
  pub max_t_idx : ℕ
  pub min_t_idx : ℕ

-- the index of a cell, from 1 on
abbrev pub cell_index : ℕ → ℕ
cell_index pick = uint16 (pick + 1)

-- the cell behind the one of the maximum, when the same was drawn twice
abbrev pub other_index : ℕ → ℕ → ℕ → Run ℕ
other_index cells max_idx min_idx =
    if min_idx == max_idx
    then (do behind ← remainder max_idx cells; done (uint16 (behind + 1)))
    else done min_idx

-- the cells of a maximum and of a minimum, from the `k`-th and the next draw of `rand.Intn`
unfoldable pub drawn_pair : ℕ → (ℕ → ℕ → ℕ) → ℕ → Run (ℕ × ℕ)
drawn_pair cells intn k = do
  max_pick ← rand_intn intn k cells
  min_pick ← rand_intn intn (k + 1) cells
  min_idx ← other_index cells (cell_index max_pick) (cell_index min_pick)
  done (cell_index max_pick, min_idx)

module _ {F : Type 0} ⦃fl : Float F⦄ where
  abbrev pub full : F → Bool
  full soc = le (fl.lit 100 0) soc

  abbrev pub empty : F → Bool
  empty soc = le soc nought

  abbrev pub bms_sys_status : BatteryUnit F → F → ℕ
  bms_sys_status bu power_kw =
      if not bu.bms_hv_closed
      then bms_status_stopped
      else if fl.lt power_kw nought
      then bms_status_charging
      else if fl.lt nought power_kw
      then bms_status_discharging
      else bms_status_standby

  -- `syncBMSStatus`
  unfoldable pub sync_bms_status : F → F → BatteryUnit F → Run (BatteryUnit F)
  sync_bms_status soc power_kw bu =
      write_bms
        ((reg_bms_fault_status, 0)
          ∷ (reg_bms_alarm_status, 0)
          ∷ (reg_bms_sys_status, bms_sys_status bu power_kw)
          ∷ (reg_bms_charge_forbid, bool_to_u16 (full soc))
          ∷ (reg_bms_discharge_forbid, bool_to_u16 (empty soc))
          ∷ [])
        bu

  -- `uint32(x*10)`
  abbrev pub tenths_u32 : F → ℕ
  tenths_u32 x = fl.to_u32 (fl.mul x (fl.lit 10 0))

  -- `syncBMSEnergy`
  unfoldable pub sync_bms_energy : F → F → F → BatteryUnit F → Run (BatteryUnit F)
  sync_bms_energy soc bat_voltage power_kw bu = do
    bu1 ←
        write_bms
          ((reg_bms_soc, tenths soc)
            ∷ (reg_bms_soh, tenths bu.soh)
            ∷ (reg_bms_remain_charge, tenths (fl.sub bu.rated_capacity_kwh bu.current_energy_kwh))
            ∷ (reg_bms_remain_discharge, tenths bu.current_energy_kwh)
            ∷ (reg_bms_voltage, tenths bat_voltage)
            ∷ (reg_bms_current, signed_tenths (dc_current_a power_kw bat_voltage))
            ∷ (reg_bms_power, signed_tenths power_kw)
            ∷ [])
          bu
    bms ← write_u32 bu1.bms reg_bms_total_charge (tenths_u32 bu.total_charge_kwh)
    bms' ← write_u32 bms reg_bms_total_discharge (tenths_u32 bu.total_discharge_kwh)
    done (record bu1 { bms = bms' })

  -- `syncBMSLimits`
  unfoldable pub sync_bms_limits : F → F → BatteryUnit F → Run (BatteryUnit F)
  sync_bms_limits soc bat_voltage bu =
      let rated_current_a = dc_current_a bu.rated_power_kw bat_voltage in
      write_bms
        ((reg_bms_max_charge_pw, tenths (if full soc then nought else bu.rated_power_kw))
          ∷ (reg_bms_max_discharge_pw, tenths (if empty soc then nought else bu.rated_power_kw))
          ∷ (reg_bms_max_charge_i, tenths (if full soc then nought else rated_current_a))
          ∷ (reg_bms_max_discharge_i, tenths (if empty soc then nought else rated_current_a))
          ∷ [])
        bu

  -- `rand.Float64()*0.6 + 0.2`
  abbrev pub bias : F → F
  bias draw = fl.add (fl.mul draw (fl.lit 6 1)) (fl.lit 2 1)

  abbrev pub highest : F → F → F → F
  highest avg spread b = fl.add avg (fl.mul spread b)

  abbrev pub lowest : F → F → F → F
  lowest avg spread b = fl.sub avg (fl.mul spread (fl.sub one b))

  -- the statistics of one tick or one cluster, from the mean voltage and temperature; the numbers
  -- drawn from index 0 on are the spread and the bias of the voltage, then of the temperature
  unfoldable pub cell_stats : ℕ → F → F → (ℕ → F) → (ℕ → ℕ → ℕ) → Run (CellStats F)
  cell_stats cells avg_v avg_t draw intn = do
    let spread_v = fl.add (fl.lit 30 3) (fl.mul (draw 0) (fl.lit 50 3))
    let spread_t = fl.add (fl.lit 30 1) (fl.mul (draw 2) (fl.lit 30 1))
    v_pair ← drawn_pair cells intn 0
    t_pair ← drawn_pair cells intn 2
    done (record {
      max_v = highest avg_v spread_v (bias (draw 1));
      min_v = lowest avg_v spread_v (bias (draw 1));
      avg_v = avg_v;
      spread_v = spread_v;
      max_t = highest avg_t spread_t (bias (draw 3));
      min_t = lowest avg_t spread_t (bias (draw 3));
      avg_t = avg_t;
      spread_t = spread_t;
      max_v_idx = v_pair.0;
      min_v_idx = v_pair.1;
      max_t_idx = t_pair.0;
      min_t_idx = t_pair.1;
    })

  -- `uint16(x*1000)`
  abbrev pub thousandths : F → ℕ
  thousandths x = fl.to_u16 (fl.mul x (fl.lit 1000 0))

  abbrev pub bms_stats : Draws F → BatteryUnit F → Run (CellStats F)
  bms_stats draws bu =
      cell_stats (cell_count bu) (cell_avg_voltage bu)
        (fl.add (fl.lit 30 0) (fl.sub (fl.mul (draws.float64 2) (fl.lit 2 0)) one))
        (λ k. draws.float64 (if ltb k 2 then k else k + 1)) draws.intn

  -- `syncBMSCellStats`
  unfoldable pub sync_bms_cell_stats : Draws F → BatteryUnit F → Run (BatteryUnit F)
  sync_bms_cell_stats draws bu = do
    s ← bms_stats draws bu
    write_bms
        ((reg_bms_cell_v_max, thousandths s.max_v)
          ∷ (reg_bms_cell_v_max_idx, s.max_v_idx)
          ∷ (reg_bms_cell_v_min, thousandths s.min_v)
          ∷ (reg_bms_cell_v_min_idx, s.min_v_idx)
          ∷ (reg_bms_cell_v_avg, thousandths s.avg_v)
          ∷ (reg_bms_cell_t_max, signed_tenths s.max_t)
          ∷ (reg_bms_cell_t_max_idx, s.max_t_idx)
          ∷ (reg_bms_cell_t_min, signed_tenths s.min_t)
          ∷ (reg_bms_cell_t_min_idx, s.min_t_idx)
          ∷ (reg_bms_cell_t_avg, signed_tenths s.avg_t)
          ∷ (reg_bms_cell_v_spread, thousandths s.spread_v)
          ∷ (reg_bms_cell_t_spread, tenths s.spread_t)
          ∷ [])
        bu
