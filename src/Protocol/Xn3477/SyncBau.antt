-- ===== src/Protocol/Xn3477/SyncBau.antt =====
-- internal/protocol/xn3477/registers.go: the copy of the BMS registers into the banks of an endpoint.
-- A function is one block of the statements of its Go function.
use virtual_bess.Prelude.{ℕ, ◌+◌, ◌/◌, ltb, if◌then◌else◌}
use virtual_bess.Prelude.Go.{Run, ◌>>=◌}
use virtual_bess.Simulator.Bank.{SlaveBank, write_u16, write_u32, read_u16, read_u32}
use virtual_bess.Simulator.Registers.Bms.{
  reg_bms_fault_status, reg_bms_sys_status, reg_bms_charge_forbid, reg_bms_discharge_forbid,
  reg_bms_soc, reg_bms_soh, reg_bms_remain_charge, reg_bms_remain_discharge, reg_bms_voltage,
  reg_bms_current, reg_bms_total_charge, reg_bms_total_discharge, reg_bms_max_charge_pw,
  reg_bms_max_discharge_pw, reg_bms_max_charge_i, reg_bms_max_discharge_i, reg_bms_cell_v_max,
  reg_bms_cell_v_max_idx, reg_bms_cell_v_min, reg_bms_cell_v_min_idx, reg_bms_cell_v_avg,
  reg_bms_cell_t_max, reg_bms_cell_t_max_idx, reg_bms_cell_t_min, reg_bms_cell_t_min_idx,
  reg_bms_cell_t_avg,
}
use virtual_bess.Protocol.Xn3477.BauRegisters.{
  xn_bau_fault_flags, xn_bau_main_status, xn_bau_work_status, xn_bau_voltage, xn_bau_current,
  xn_bau_soc, xn_bau_soh, xn_bau_remaining_charge, xn_bau_remaining_discharge,
  xn_bau_max_charge_current, xn_bau_max_discharge_current, xn_bau_max_cell_voltage_rack,
  xn_bau_max_cell_voltage_pack, xn_bau_max_cell_voltage_no, xn_bau_max_cell_voltage,
  xn_bau_min_cell_voltage_rack, xn_bau_min_cell_voltage_pack, xn_bau_min_cell_voltage_no,
  xn_bau_min_cell_voltage, xn_bau_avg_cell_voltage, xn_bau_max_cell_temp_rack,
  xn_bau_max_cell_temp_pack, xn_bau_max_cell_temp_no, xn_bau_max_cell_temp,
  xn_bau_min_cell_temp_rack, xn_bau_min_cell_temp_pack, xn_bau_min_cell_temp_no,
  xn_bau_min_cell_temp, xn_bau_avg_cell_temp, xn_bau_total_charge, xn_bau_total_discharge,
  xn_bau_max_discharge_power, xn_bau_max_charge_power, xn_bau_daily_discharge, xn_bau_daily_charge,
}
use virtual_bess.Protocol.Xn3477.Status.{xn_status}

-- `copyHoldingU16`
unfoldable pub copy_holding_u16 : SlaveBank → ℕ → SlaveBank → ℕ → Run SlaveBank
copy_holding_u16 dest dest_address source source_address = do
  v ← read_u16 source source_address
  write_u16 dest dest_address v

-- `uint32(int32(int16(v)))`
unfoldable pub sign_extend : ℕ → ℕ
sign_extend v = if ltb v 32768 then v else v + 0xFFFF0000

-- the faults and the two status registers of the BAU
unfoldable pub sync_bau_status : SlaveBank → SlaveBank → Run SlaveBank
sync_bau_status source d = do
  faults ← read_u16 source reg_bms_fault_status
  d ← write_u16 d xn_bau_fault_flags faults
  status ← read_u16 source reg_bms_sys_status
  charge_forbid ← read_u16 source reg_bms_charge_forbid
  discharge_forbid ← read_u16 source reg_bms_discharge_forbid
  let (main_status, work_status) = xn_status status charge_forbid discharge_forbid
  d ← write_u16 d xn_bau_main_status main_status
  write_u16 d xn_bau_work_status work_status

-- the voltage, the current, the charge and the limits of the BAU
unfoldable pub sync_bau_limits : SlaveBank → SlaveBank → Run SlaveBank
sync_bau_limits source d = do
  d ← copy_holding_u16 d xn_bau_voltage source reg_bms_voltage
  v ← read_u16 source reg_bms_current
  d ← write_u32 d xn_bau_current (sign_extend v)
  d ← copy_holding_u16 d xn_bau_soc source reg_bms_soc
  d ← copy_holding_u16 d xn_bau_soh source reg_bms_soh
  v ← read_u16 source reg_bms_remain_charge
  d ← write_u16 d xn_bau_remaining_charge (v / 10)
  v ← read_u16 source reg_bms_remain_discharge
  d ← write_u16 d xn_bau_remaining_discharge (v / 10)
  d ← copy_holding_u16 d xn_bau_max_charge_current source reg_bms_max_charge_i
  copy_holding_u16 d xn_bau_max_discharge_current source reg_bms_max_discharge_i

-- the cell voltages of the BAU
unfoldable pub sync_bau_cell_voltages : SlaveBank → SlaveBank → Run SlaveBank
sync_bau_cell_voltages source d = do
  d ← write_u16 d xn_bau_max_cell_voltage_rack 1
  d ← write_u16 d xn_bau_max_cell_voltage_pack 1
  d ← copy_holding_u16 d xn_bau_max_cell_voltage_no source reg_bms_cell_v_max_idx
  d ← copy_holding_u16 d xn_bau_max_cell_voltage source reg_bms_cell_v_max
  d ← write_u16 d xn_bau_min_cell_voltage_rack 1
  d ← write_u16 d xn_bau_min_cell_voltage_pack 1
  d ← copy_holding_u16 d xn_bau_min_cell_voltage_no source reg_bms_cell_v_min_idx
  d ← copy_holding_u16 d xn_bau_min_cell_voltage source reg_bms_cell_v_min
  copy_holding_u16 d xn_bau_avg_cell_voltage source reg_bms_cell_v_avg

-- the cell temperatures of the BAU
unfoldable pub sync_bau_cell_temperatures : SlaveBank → SlaveBank → Run SlaveBank
sync_bau_cell_temperatures source d = do
  d ← write_u16 d xn_bau_max_cell_temp_rack 1
  d ← write_u16 d xn_bau_max_cell_temp_pack 1
  d ← copy_holding_u16 d xn_bau_max_cell_temp_no source reg_bms_cell_t_max_idx
  d ← copy_holding_u16 d xn_bau_max_cell_temp source reg_bms_cell_t_max
  d ← write_u16 d xn_bau_min_cell_temp_rack 1
  d ← write_u16 d xn_bau_min_cell_temp_pack 1
  d ← copy_holding_u16 d xn_bau_min_cell_temp_no source reg_bms_cell_t_min_idx
  d ← copy_holding_u16 d xn_bau_min_cell_temp source reg_bms_cell_t_min
  copy_holding_u16 d xn_bau_avg_cell_temp source reg_bms_cell_t_avg

-- the energy and the power limits of the BAU
unfoldable pub sync_bau_energy : SlaveBank → SlaveBank → Run SlaveBank
sync_bau_energy source d = do
  v ← read_u32 source reg_bms_total_charge
  d ← write_u32 d xn_bau_total_charge (v / 10)
  v ← read_u32 source reg_bms_total_discharge
  d ← write_u32 d xn_bau_total_discharge (v / 10)
  d ← write_u16 d xn_bau_daily_charge 0
  d ← write_u16 d xn_bau_daily_discharge 0
  v ← read_u16 source reg_bms_max_charge_pw
  d ← write_u16 d xn_bau_max_charge_power (v / 10)
  v ← read_u16 source reg_bms_max_discharge_pw
  write_u16 d xn_bau_max_discharge_power (v / 10)

-- `syncBAU`
unfoldable pub sync_bau : SlaveBank → SlaveBank → Run SlaveBank
sync_bau source d = do
  d ← sync_bau_status source d
  d ← sync_bau_limits source d
  d ← sync_bau_cell_voltages source d
  d ← sync_bau_cell_temperatures source d
  sync_bau_energy source d
