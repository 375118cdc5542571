-- ===== src/Simulator/Registers/Pcs.antt =====
-- internal/simulator/registers.go: the PCS registers.
use virtual_bess.Prelude.{ℕ}

abbrev pub reg_pcs_grid_mode : ℕ
reg_pcs_grid_mode = 30000

abbrev pub reg_pcs_run_mode : ℕ
reg_pcs_run_mode = 30001

abbrev pub reg_pcs_fault_reset : ℕ
reg_pcs_fault_reset = 30002

abbrev pub reg_pcs_startup : ℕ
reg_pcs_startup = 30003

abbrev pub reg_pcs_shutdown : ℕ
reg_pcs_shutdown = 30004

abbrev pub reg_pcs_estop : ℕ
reg_pcs_estop = 30005

abbrev pub reg_pcs_remote_local : ℕ
reg_pcs_remote_local = 30006

abbrev pub reg_pcs_power_cmd_alias : ℕ
reg_pcs_power_cmd_alias = 3010

abbrev pub reg_pcs_power_cmd : ℕ
reg_pcs_power_cmd = 30010

abbrev pub reg_pcs_reactive_power_cmd : ℕ
reg_pcs_reactive_power_cmd = 30014

abbrev pub reg_pcs_reactive_mode_cmd : ℕ
reg_pcs_reactive_mode_cmd = 30015

abbrev pub reg_pcs_power_factor_cmd : ℕ
reg_pcs_power_factor_cmd = 30016

abbrev pub reg_pcs_grid_voltage_cmd : ℕ
reg_pcs_grid_voltage_cmd = 30020

abbrev pub reg_pcs_remote_status : ℕ
reg_pcs_remote_status = 30049

abbrev pub reg_pcs_sys_status : ℕ
reg_pcs_sys_status = 30050

abbrev pub reg_pcs_grid_status : ℕ
reg_pcs_grid_status = 30051

abbrev pub reg_pcs_alarm_status : ℕ
reg_pcs_alarm_status = 30052

abbrev pub reg_pcs_fault_status : ℕ
reg_pcs_fault_status = 30053

abbrev pub reg_pcs_power_factor : ℕ
reg_pcs_power_factor = 30060

abbrev pub reg_pcs_total_active_pw : ℕ
reg_pcs_total_active_pw = 30061

abbrev pub reg_pcs_total_react_pw : ℕ
reg_pcs_total_react_pw = 30062

abbrev pub reg_pcs_total_apparent : ℕ
reg_pcs_total_apparent = 30063

abbrev pub reg_pcs_active_pwa : ℕ
reg_pcs_active_pwa = 30064

abbrev pub reg_pcs_active_pwb : ℕ
reg_pcs_active_pwb = 30065

abbrev pub reg_pcs_active_pwc : ℕ
reg_pcs_active_pwc = 30066

abbrev pub reg_pcs_react_pwa : ℕ
reg_pcs_react_pwa = 30067

abbrev pub reg_pcs_react_pwb : ℕ
reg_pcs_react_pwb = 30068

abbrev pub reg_pcs_react_pwc : ℕ
reg_pcs_react_pwc = 30069

abbrev pub reg_pcs_voltage_a : ℕ
reg_pcs_voltage_a = 30070

abbrev pub reg_pcs_voltage_b : ℕ
reg_pcs_voltage_b = 30071

abbrev pub reg_pcs_voltage_c : ℕ
reg_pcs_voltage_c = 30072

abbrev pub reg_pcs_current_a : ℕ
reg_pcs_current_a = 30073

abbrev pub reg_pcs_current_b : ℕ
reg_pcs_current_b = 30074

abbrev pub reg_pcs_current_c : ℕ
reg_pcs_current_c = 30075

abbrev pub reg_pcs_frequency : ℕ
reg_pcs_frequency = 30076

abbrev pub reg_pcs_dc_voltage : ℕ
reg_pcs_dc_voltage = 30077

abbrev pub reg_pcs_dc_current : ℕ
reg_pcs_dc_current = 30078

abbrev pub reg_pcs_dc_power : ℕ
reg_pcs_dc_power = 30079

abbrev pub reg_pcs_internal_temp : ℕ
reg_pcs_internal_temp = 30080

abbrev pub reg_pcs_igbt_temp_a : ℕ
reg_pcs_igbt_temp_a = 30081

abbrev pub reg_pcs_igbt_temp_b : ℕ
reg_pcs_igbt_temp_b = 30082

abbrev pub reg_pcs_igbt_temp_c : ℕ
reg_pcs_igbt_temp_c = 30083

abbrev pub reg_pcs_dc_under_volt : ℕ
reg_pcs_dc_under_volt = 30180
