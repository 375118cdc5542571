-- ===== src/Simulator/Battery/ClusterSync.antt =====
-- internal/simulator/battery_sync.go: the input registers of the clusters.
use virtual_bess.Prelude.{ℕ, zero, suc, ◌+◌, List, [], ◌∷◌, not, ltb, if◌then◌else◌}
use virtual_bess.Prelude.Go.{Run, done, ◌>>=◌}
use virtual_bess.Simulator.Bank.{SlaveBank, write_input_u16}
use virtual_bess.Simulator.Float.{Float, nought, one}
use virtual_bess.Simulator.Battery.{BatteryUnit, cell_count, cell_avg_voltage}
use virtual_bess.Simulator.Battery.PcsSync.{Draws, tenths, signed_tenths, dc_current_a}
use virtual_bess.Simulator.Battery.BmsSync.{
  CellStats, cell_stats, full, empty, tenths_u32, thousandths,
}
use virtual_bess.Simulator.Registers.{cluster_ir, uint32_to_regs}
use virtual_bess.Simulator.Registers.Cluster.{
  off_cluster_status, off_cluster_soc, off_cluster_soh, off_cluster_remain_charge,
  off_cluster_remain_discharge, off_cluster_voltage, off_cluster_current, off_cluster_power,
  off_cluster_total_charge_hi, off_cluster_total_charge_lo, off_cluster_total_disch_hi,
  off_cluster_total_disch_lo, off_cluster_sess_charge_hi, off_cluster_sess_charge_lo,
  off_cluster_sess_disch_hi, off_cluster_sess_disch_lo, off_cluster_max_charge_pw,
  off_cluster_max_discharge_pw, off_cluster_max_charge_i, off_cluster_max_discharge_i,
  off_cluster_cell_v_max, off_cluster_cell_v_max_idx, off_cluster_cell_v_min,
  off_cluster_cell_v_min_idx, off_cluster_cell_v_avg, off_cluster_cell_t_max,
  off_cluster_cell_t_max_idx, off_cluster_cell_t_min, off_cluster_cell_t_min_idx,
  off_cluster_cell_t_avg, off_cluster_cell_v_spread, off_cluster_cell_t_spread,
  cluster_status_standby, cluster_status_stopped, cluster_status_charging,
  cluster_status_discharging, cluster_status_running,
}

-- a run of `WriteInputU16` at the offsets of one cluster
abbrev pub write_cluster : ℕ → List (ℕ × ℕ) → SlaveBank → Run SlaveBank
write_cluster i [] b = done b
write_cluster i ((offset, v) ∷ ws) b = do
  b' ← write_input_u16 b (cluster_ir i offset) v
  write_cluster i ws b'

module _ {F : Type 0} ⦃fl : Float F⦄ where
  abbrev pub cluster_status : BatteryUnit F → F → ℕ
  cluster_status bu power_kw =
      if not bu.bms_hv_closed
      then cluster_status_stopped
      else if fl.lt power_kw nought
      then cluster_status_charging
      else if fl.lt nought power_kw
      then cluster_status_discharging
      else if bu.pcs_running
      then cluster_status_running
      else cluster_status_standby

  -- the statistics that one turn of the loop draws
  abbrev pub cluster_stats : Draws F → BatteryUnit F → Run (CellStats F)
  cluster_stats draws bu =
      cell_stats (cell_count bu)
        (fl.add (cell_avg_voltage bu)
          (fl.mul (fl.sub (fl.mul (draws.float64 0) (fl.lit 2 0)) one) (fl.lit 5 3)))
        (fl.add (fl.lit 30 0) (fl.sub (fl.mul (draws.float64 3) (fl.lit 4 0)) (fl.lit 2 0)))
        (λ k. draws.float64 (if ltb k 2 then k + 1 else k + 2)) draws.intn

  -- the share `x / float64(n)` of a cluster, and its two registers as a total
  abbrev pub share : BatteryUnit F → F → F
  share bu x = fl.div x (fl.of_nat bu.cluster_count)

  abbrev pub share_regs : BatteryUnit F → F → ℕ × ℕ
  share_regs bu x = uint32_to_regs (tenths_u32 (share bu x))

  -- the values that every turn of the loop writes
  abbrev pub shared_words : F → F → F → BatteryUnit F → List (ℕ × ℕ)
  shared_words soc bat_voltage power_kw bu =
      let rated_current_a = dc_current_a bu.rated_power_kw bat_voltage in
      (off_cluster_status, cluster_status bu power_kw)
      ∷ (off_cluster_soc, tenths soc)
      ∷ (off_cluster_soh, tenths bu.soh)
      ∷ (
        off_cluster_remain_charge,
        tenths (share bu (fl.sub bu.rated_capacity_kwh bu.current_energy_kwh)),
      )
      ∷ (off_cluster_remain_discharge, tenths (share bu bu.current_energy_kwh))
      ∷ (off_cluster_voltage, tenths bat_voltage)
      ∷ (off_cluster_current, signed_tenths (dc_current_a (share bu power_kw) bat_voltage))
      ∷ (off_cluster_power, signed_tenths (share bu power_kw))
      ∷ (off_cluster_total_charge_hi, (share_regs bu bu.total_charge_kwh).0)
      ∷ (off_cluster_total_charge_lo, (share_regs bu bu.total_charge_kwh).1)
      ∷ (off_cluster_total_disch_hi, (share_regs bu bu.total_discharge_kwh).0)
      ∷ (off_cluster_total_disch_lo, (share_regs bu bu.total_discharge_kwh).1)
      ∷ (off_cluster_sess_charge_hi, (share_regs bu bu.session_charge_kwh).0)
      ∷ (off_cluster_sess_charge_lo, (share_regs bu bu.session_charge_kwh).1)
      ∷ (off_cluster_sess_disch_hi, (share_regs bu bu.session_discharge_kwh).0)
      ∷ (off_cluster_sess_disch_lo, (share_regs bu bu.session_discharge_kwh).1)
      ∷ (
        off_cluster_max_charge_pw,
        tenths (if full soc then nought else share bu bu.rated_power_kw),
      )
      ∷ (
        off_cluster_max_discharge_pw,
        tenths (if empty soc then nought else share bu bu.rated_power_kw),
      )
      ∷ (off_cluster_max_charge_i, tenths (if full soc then nought else share bu rated_current_a))
      ∷ (
        off_cluster_max_discharge_i,
        tenths (if empty soc then nought else share bu rated_current_a),
      )
      ∷ []

  -- the drawn values that one turn writes
  abbrev pub drawn_words : CellStats F → List (ℕ × ℕ)
  drawn_words s =
      (off_cluster_cell_v_max, thousandths s.max_v)
      ∷ (off_cluster_cell_v_max_idx, s.max_v_idx)
      ∷ (off_cluster_cell_v_min, thousandths s.min_v)
      ∷ (off_cluster_cell_v_min_idx, s.min_v_idx)
      ∷ (off_cluster_cell_v_avg, thousandths s.avg_v)
      ∷ (off_cluster_cell_t_max, signed_tenths s.max_t)
      ∷ (off_cluster_cell_t_max_idx, s.max_t_idx)
      ∷ (off_cluster_cell_t_min, signed_tenths s.min_t)
      ∷ (off_cluster_cell_t_min_idx, s.min_t_idx)
      ∷ (off_cluster_cell_t_avg, signed_tenths s.avg_t)
      ∷ (off_cluster_cell_v_spread, thousandths s.spread_v)
      ∷ (off_cluster_cell_t_spread, tenths s.spread_t)
      ∷ []

  -- the loop of `syncClusterRegisters`, with `left` clusters to go from the `i`-th on; each draws its
  -- own numbers
  unfoldable pub sync_clusters :
      ℕ → ℕ → (ℕ → Draws F) → List (ℕ × ℕ) → BatteryUnit F → SlaveBank → Run SlaveBank
  sync_clusters zero i draws words bu b = done b
  sync_clusters (suc left) i draws words bu b = do
    s ← cluster_stats (draws i) bu
    b1 ← write_cluster i words b
    b2 ← write_cluster i (drawn_words s) b1
    sync_clusters left (i + 1) draws words bu b2

  -- `syncClusterRegisters`; without clusters the loop has no turn
  unfoldable pub sync_cluster_registers :
      (ℕ → Draws F) → F → F → F → BatteryUnit F → Run (BatteryUnit F)
  sync_cluster_registers draws soc bat_voltage power_kw bu = do
    bms ←
        sync_clusters bu.cluster_count 0 draws (shared_words soc bat_voltage power_kw bu) bu bu.bms
    done (record bu { bms = bms })
