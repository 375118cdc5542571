-- ===== src/Simulator/Registers/Sys.antt =====
-- internal/simulator/registers.go: the registers of the system.
use virtual_bess.Prelude.{ℕ}

abbrev pub reg_sys_running : ℕ
reg_sys_running = 1

abbrev pub reg_sys_fault : ℕ
reg_sys_fault = 2

abbrev pub reg_sys_standby : ℕ
reg_sys_standby = 3

abbrev pub reg_emu_bms_comm : ℕ
reg_emu_bms_comm = 4

abbrev pub reg_emu_pcs_comm : ℕ
reg_emu_pcs_comm = 5

abbrev pub reg_sys_run_mode : ℕ
reg_sys_run_mode = 100

abbrev pub reg_sys_max_charge_pw : ℕ
reg_sys_max_charge_pw = 101

abbrev pub reg_sys_max_discharge_pw : ℕ
reg_sys_max_discharge_pw = 102

abbrev pub reg_sys_actual_power : ℕ
reg_sys_actual_power = 103

abbrev pub reg_bms_master_mode : ℕ
reg_bms_master_mode = 104

abbrev pub reg_bms_cluster_count : ℕ
reg_bms_cluster_count = 105

abbrev pub reg_max_charge_pw_setting : ℕ
reg_max_charge_pw_setting = 700

abbrev pub reg_max_discharge_pw_setting : ℕ
reg_max_discharge_pw_setting = 701
