-- ===== src/Protocol/Xn3477/SyncBcu.antt =====
-- internal/protocol/xn3477/registers.go: the copy of the registers of a cluster into the bank of its
-- BCU. A function is one block of the statements of its Go function.
use virtual_bess.Prelude.{ℕ, zero, suc, ◌+◌, ◌*◌, ◌/◌, List, [], ◌∷◌, uint16, ◌==◌, if◌then◌else◌}
use virtual_bess.Prelude.Go.{Run, done, ◌>>=◌}
use virtual_bess.Mbserver.Registers.{update_uint16_data}
use virtual_bess.Simulator.Bank.{
  SlaveBank, write_u16, write_u32, read_u16, read_input_u16, read_input_u32,
}
use virtual_bess.Simulator.Registers.Bms.{reg_bms_charge_forbid, reg_bms_discharge_forbid}
use virtual_bess.Simulator.Registers.Cluster.{
  ir_cluster_stride, off_cluster_status, off_cluster_soc, off_cluster_soh, off_cluster_voltage,
  off_cluster_current, off_cluster_total_charge_hi, off_cluster_total_disch_hi,
  off_cluster_max_charge_i, off_cluster_max_discharge_i, off_cluster_cell_v_max,
  off_cluster_cell_v_max_idx, off_cluster_cell_v_min, off_cluster_cell_v_min_idx,
  off_cluster_cell_v_avg, off_cluster_cell_t_max, off_cluster_cell_t_max_idx,
  off_cluster_cell_t_min, off_cluster_cell_t_min_idx, off_cluster_cell_t_avg,
  off_cluster_cell_v_spread, off_cluster_cell_t_spread, cluster_status_fault,
}
use virtual_bess.Protocol.Xn3477.BcuRegisters.{
  xn_bcu_fault_flags, xn_bcu_warning_flags, xn_bcu_main_status, xn_bcu_work_status,
  xn_bcu_max_cell_voltage, xn_bcu_max_cell_voltage_no, xn_bcu_max_cell_voltage_pack,
  xn_bcu_min_cell_voltage, xn_bcu_min_cell_voltage_no, xn_bcu_min_cell_voltage_pack,
  xn_bcu_cell_voltage_delta, xn_bcu_avg_cell_voltage, xn_bcu_max_cell_temp, xn_bcu_max_cell_temp_no,
  xn_bcu_max_cell_temp_pack, xn_bcu_min_cell_temp, xn_bcu_min_cell_temp_no,
  xn_bcu_min_cell_temp_pack, xn_bcu_avg_cell_temp, xn_bcu_max_charge_current,
  xn_bcu_max_discharge_current, xn_bcu_soc, xn_bcu_soh, xn_bcu_cell_temp_delta, xn_bcu_voltage,
  xn_bcu_current, xn_bcu_total_charge, xn_bcu_total_discharge, xn_bcu_cell_voltage_start,
  xn_bcu_cell_temp_start, xn_bcu_cell_count,
}
use virtual_bess.Protocol.Xn3477.Status.{xn_cluster_status}

-- the faults and the two status registers of a BCU
unfoldable pub sync_bcu_status : SlaveBank → ℕ → SlaveBank → Run SlaveBank
sync_bcu_status source offset d = do
  status ← read_input_u16 source (uint16 (offset + off_cluster_status))
  charge_forbid ← read_u16 source reg_bms_charge_forbid
  discharge_forbid ← read_u16 source reg_bms_discharge_forbid
  let (main_status, work_status) = xn_cluster_status status charge_forbid discharge_forbid
  d ← write_u16 d xn_bcu_fault_flags (if status == cluster_status_fault then 1 else 0)
  d ← write_u16 d xn_bcu_warning_flags 0
  d ← write_u16 d xn_bcu_main_status main_status
  write_u16 d xn_bcu_work_status work_status

-- the charge, the voltage, the current, the energy and the limits of a BCU
unfoldable pub sync_bcu_limits : SlaveBank → ℕ → SlaveBank → Run SlaveBank
sync_bcu_limits source offset d = do
  v ← read_input_u16 source (uint16 (offset + off_cluster_soc))
  d ← write_u16 d xn_bcu_soc v
  v ← read_input_u16 source (uint16 (offset + off_cluster_soh))
  d ← write_u16 d xn_bcu_soh v
  v ← read_input_u16 source (uint16 (offset + off_cluster_voltage))
  d ← write_u16 d xn_bcu_voltage v
  v ← read_input_u16 source (uint16 (offset + off_cluster_current))
  d ← write_u16 d xn_bcu_current v
  v ← read_input_u32 source (uint16 (offset + off_cluster_total_charge_hi))
  d ← write_u32 d xn_bcu_total_charge (v / 10)
  v ← read_input_u32 source (uint16 (offset + off_cluster_total_disch_hi))
  d ← write_u32 d xn_bcu_total_discharge (v / 10)
  v ← read_input_u16 source (uint16 (offset + off_cluster_max_charge_i))
  d ← write_u16 d xn_bcu_max_charge_current v
  v ← read_input_u16 source (uint16 (offset + off_cluster_max_discharge_i))
  write_u16 d xn_bcu_max_discharge_current v

-- the cell voltages of a BCU
unfoldable pub sync_bcu_cell_voltages : SlaveBank → ℕ → SlaveBank → Run SlaveBank
sync_bcu_cell_voltages source offset d = do
  v ← read_input_u16 source (uint16 (offset + off_cluster_cell_v_max))
  d ← write_u16 d xn_bcu_max_cell_voltage v
  v ← read_input_u16 source (uint16 (offset + off_cluster_cell_v_max_idx))
  d ← write_u16 d xn_bcu_max_cell_voltage_no v
  d ← write_u16 d xn_bcu_max_cell_voltage_pack 1
  v ← read_input_u16 source (uint16 (offset + off_cluster_cell_v_min))
  d ← write_u16 d xn_bcu_min_cell_voltage v
  v ← read_input_u16 source (uint16 (offset + off_cluster_cell_v_min_idx))
  d ← write_u16 d xn_bcu_min_cell_voltage_no v
  d ← write_u16 d xn_bcu_min_cell_voltage_pack 1
  v ← read_input_u16 source (uint16 (offset + off_cluster_cell_v_spread))
  d ← write_u16 d xn_bcu_cell_voltage_delta v
  v ← read_input_u16 source (uint16 (offset + off_cluster_cell_v_avg))
  write_u16 d xn_bcu_avg_cell_voltage v

-- the cell temperatures of a BCU
unfoldable pub sync_bcu_cell_temperatures : SlaveBank → ℕ → SlaveBank → Run SlaveBank
sync_bcu_cell_temperatures source offset d = do
  v ← read_input_u16 source (uint16 (offset + off_cluster_cell_t_max))
  d ← write_u16 d xn_bcu_max_cell_temp v
  v ← read_input_u16 source (uint16 (offset + off_cluster_cell_t_max_idx))
  d ← write_u16 d xn_bcu_max_cell_temp_no v
  d ← write_u16 d xn_bcu_max_cell_temp_pack 1
  v ← read_input_u16 source (uint16 (offset + off_cluster_cell_t_min))
  d ← write_u16 d xn_bcu_min_cell_temp v
  v ← read_input_u16 source (uint16 (offset + off_cluster_cell_t_min_idx))
  d ← write_u16 d xn_bcu_min_cell_temp_no v
  d ← write_u16 d xn_bcu_min_cell_temp_pack 1
  v ← read_input_u16 source (uint16 (offset + off_cluster_cell_t_avg))
  d ← write_u16 d xn_bcu_avg_cell_temp v
  v ← read_input_u16 source (uint16 (offset + off_cluster_cell_t_spread))
  write_u16 d xn_bcu_cell_temp_delta v

-- one read for each of the cells
unfoldable pub read_cells : ℕ → SlaveBank → ℕ → Run (List ℕ)
read_cells zero source register = done []
read_cells (suc n) source register = do
  v ← read_input_u16 source register
  vs ← read_cells n source register
  done (v ∷ vs)

-- the arrays of the cells
unfoldable pub sync_bcu_cells : SlaveBank → ℕ → SlaveBank → Run SlaveBank
sync_bcu_cells source offset d = do
  cell_voltages ← read_cells xn_bcu_cell_count source (uint16 (offset + off_cluster_cell_v_avg))
  cell_temps ← read_cells xn_bcu_cell_count source (uint16 (offset + off_cluster_cell_t_avg))
  (r, _) ← update_uint16_data d.holding xn_bcu_cell_voltage_start cell_voltages
  (r, _) ← update_uint16_data r xn_bcu_cell_temp_start cell_temps
  done (record d { holding = r })

-- `syncBCU`
unfoldable pub sync_bcu : SlaveBank → ℕ → SlaveBank → Run SlaveBank
sync_bcu source cluster_index d = do
  let offset = uint16 (cluster_index * ir_cluster_stride)
  d ← sync_bcu_status source offset d
  d ← sync_bcu_limits source offset d
  d ← sync_bcu_cell_voltages source offset d
  d ← sync_bcu_cell_temperatures source offset d
  sync_bcu_cells source offset d
