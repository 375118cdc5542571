-- ===== src/Protocol/Xn3477/BcuRegisters.antt =====
-- internal/protocol/xn3477/registers.go: the registers of a BCU, and the values of the two status
-- registers.
use virtual_bess.Prelude.{ℕ}

abbrev pub xn_bcu_fault_flags : ℕ
xn_bcu_fault_flags = 0x0012

abbrev pub xn_bcu_warning_flags : ℕ
xn_bcu_warning_flags = 0x0013

abbrev pub xn_bcu_main_status : ℕ
xn_bcu_main_status = 0x0019

abbrev pub xn_bcu_work_status : ℕ
xn_bcu_work_status = 0x001D

abbrev pub xn_bcu_max_cell_voltage : ℕ
xn_bcu_max_cell_voltage = 0x0210

abbrev pub xn_bcu_max_cell_voltage_no : ℕ
xn_bcu_max_cell_voltage_no = 0x0211

abbrev pub xn_bcu_max_cell_voltage_pack : ℕ
xn_bcu_max_cell_voltage_pack = 0x0212

abbrev pub xn_bcu_min_cell_voltage : ℕ
xn_bcu_min_cell_voltage = 0x0214

abbrev pub xn_bcu_min_cell_voltage_no : ℕ
xn_bcu_min_cell_voltage_no = 0x0215

abbrev pub xn_bcu_min_cell_voltage_pack : ℕ
xn_bcu_min_cell_voltage_pack = 0x0216

abbrev pub xn_bcu_cell_voltage_delta : ℕ
xn_bcu_cell_voltage_delta = 0x0218

abbrev pub xn_bcu_avg_cell_voltage : ℕ
xn_bcu_avg_cell_voltage = 0x0219

abbrev pub xn_bcu_max_cell_temp : ℕ
xn_bcu_max_cell_temp = 0x021A

abbrev pub xn_bcu_max_cell_temp_no : ℕ
xn_bcu_max_cell_temp_no = 0x021B

abbrev pub xn_bcu_max_cell_temp_pack : ℕ
xn_bcu_max_cell_temp_pack = 0x021C

abbrev pub xn_bcu_min_cell_temp : ℕ
xn_bcu_min_cell_temp = 0x021E

abbrev pub xn_bcu_min_cell_temp_no : ℕ
xn_bcu_min_cell_temp_no = 0x021F

abbrev pub xn_bcu_min_cell_temp_pack : ℕ
xn_bcu_min_cell_temp_pack = 0x0220

abbrev pub xn_bcu_avg_cell_temp : ℕ
xn_bcu_avg_cell_temp = 0x0222

abbrev pub xn_bcu_max_charge_current : ℕ
xn_bcu_max_charge_current = 0x0225

abbrev pub xn_bcu_max_discharge_current : ℕ
xn_bcu_max_discharge_current = 0x0226

abbrev pub xn_bcu_soc : ℕ
xn_bcu_soc = 0x0227

abbrev pub xn_bcu_soh : ℕ
xn_bcu_soh = 0x0228

abbrev pub xn_bcu_cell_temp_delta : ℕ
xn_bcu_cell_temp_delta = 0x0229

abbrev pub xn_bcu_voltage : ℕ
xn_bcu_voltage = 0x0231

abbrev pub xn_bcu_current : ℕ
xn_bcu_current = 0x0232

abbrev pub xn_bcu_total_charge : ℕ
xn_bcu_total_charge = 0x024C

abbrev pub xn_bcu_total_discharge : ℕ
xn_bcu_total_discharge = 0x024E

abbrev pub xn_bcu_fault_reset : ℕ
xn_bcu_fault_reset = 0x0403

abbrev pub xn_bcu_cell_voltage_start : ℕ
xn_bcu_cell_voltage_start = 0x1401

abbrev pub xn_bcu_cell_temp_start : ℕ
xn_bcu_cell_temp_start = 0x1801

abbrev pub xn_bcu_cell_count : ℕ
xn_bcu_cell_count = 512

abbrev pub xn_run_normal : ℕ
xn_run_normal = 0

abbrev pub xn_run_charge_forbidden : ℕ
xn_run_charge_forbidden = 1

abbrev pub xn_run_discharge_forbidden : ℕ
xn_run_discharge_forbidden = 2

abbrev pub xn_run_standby : ℕ
xn_run_standby = 3

abbrev pub xn_run_stopped : ℕ
xn_run_stopped = 4

abbrev pub xn_chg_dsg_rest : ℕ
xn_chg_dsg_rest = 0

abbrev pub xn_chg_dsg_discharge : ℕ
xn_chg_dsg_discharge = 1

abbrev pub xn_chg_dsg_charge : ℕ
xn_chg_dsg_charge = 2
