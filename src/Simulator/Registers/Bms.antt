-- ===== src/Simulator/Registers/Bms.antt =====
-- internal/simulator/registers.go: the BMS registers and the values of the BMS status.
use virtual_bess.Prelude.{ℕ}

abbrev pub reg_bms_fault_reset : ℕ
reg_bms_fault_reset = 40000

abbrev pub reg_bms_close_hv : ℕ
reg_bms_close_hv = 40001

abbrev pub reg_bms_open_hv : ℕ
reg_bms_open_hv = 40002

abbrev pub reg_bms_fault_status : ℕ
reg_bms_fault_status = 40100

abbrev pub reg_bms_alarm_status : ℕ
reg_bms_alarm_status = 40101

abbrev pub reg_bms_sys_status : ℕ
reg_bms_sys_status = 40102

abbrev pub reg_bms_charge_forbid : ℕ
reg_bms_charge_forbid = 40103

abbrev pub reg_bms_discharge_forbid : ℕ
reg_bms_discharge_forbid = 40104

abbrev pub reg_bms_soc : ℕ
reg_bms_soc = 40105

abbrev pub reg_bms_soh : ℕ
reg_bms_soh = 40106

abbrev pub reg_bms_remain_charge : ℕ
reg_bms_remain_charge = 40107

abbrev pub reg_bms_remain_discharge : ℕ
reg_bms_remain_discharge = 40108

abbrev pub reg_bms_voltage : ℕ
reg_bms_voltage = 40109

abbrev pub reg_bms_current : ℕ
reg_bms_current = 40110

abbrev pub reg_bms_power : ℕ
reg_bms_power = 40111

abbrev pub reg_bms_total_charge : ℕ
reg_bms_total_charge = 40112

abbrev pub reg_bms_total_discharge : ℕ
reg_bms_total_discharge = 40114

abbrev pub reg_bms_max_charge_pw : ℕ
reg_bms_max_charge_pw = 40120

abbrev pub reg_bms_max_discharge_pw : ℕ
reg_bms_max_discharge_pw = 40121

abbrev pub reg_bms_max_charge_i : ℕ
reg_bms_max_charge_i = 40122

abbrev pub reg_bms_max_discharge_i : ℕ
reg_bms_max_discharge_i = 40123

abbrev pub reg_bms_cell_v_max : ℕ
reg_bms_cell_v_max = 40124

abbrev pub reg_bms_cell_v_max_idx : ℕ
reg_bms_cell_v_max_idx = 40125

abbrev pub reg_bms_cell_v_min : ℕ
reg_bms_cell_v_min = 40126

abbrev pub reg_bms_cell_v_min_idx : ℕ
reg_bms_cell_v_min_idx = 40127

abbrev pub reg_bms_cell_v_avg : ℕ
reg_bms_cell_v_avg = 40128

abbrev pub reg_bms_cell_t_max : ℕ
reg_bms_cell_t_max = 40129

abbrev pub reg_bms_cell_t_max_idx : ℕ
reg_bms_cell_t_max_idx = 40130

abbrev pub reg_bms_cell_t_min : ℕ
reg_bms_cell_t_min = 40131

abbrev pub reg_bms_cell_t_min_idx : ℕ
reg_bms_cell_t_min_idx = 40132

abbrev pub reg_bms_cell_t_avg : ℕ
reg_bms_cell_t_avg = 40133

abbrev pub reg_bms_cell_v_spread : ℕ
reg_bms_cell_v_spread = 40134

abbrev pub reg_bms_cell_t_spread : ℕ
reg_bms_cell_t_spread = 40135

abbrev pub bms_status_starting : ℕ
bms_status_starting = 0

abbrev pub bms_status_standby : ℕ
bms_status_standby = 1

abbrev pub bms_status_stopped : ℕ
bms_status_stopped = 2

abbrev pub bms_status_charging : ℕ
bms_status_charging = 3

abbrev pub bms_status_discharging : ℕ
bms_status_discharging = 4
