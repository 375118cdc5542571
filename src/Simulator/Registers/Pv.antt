-- ===== src/Simulator/Registers/Pv.antt =====
-- internal/simulator/registers.go: the PV registers.
use virtual_bess.Prelude.{ℕ}

abbrev pub reg_pv_startup : ℕ
reg_pv_startup = 60000

abbrev pub reg_pv_shutdown : ℕ
reg_pv_shutdown = 60001

abbrev pub reg_pv_percent_limit : ℕ
reg_pv_percent_limit = 60002

abbrev pub reg_pv_fixed_limit : ℕ
reg_pv_fixed_limit = 60003

abbrev pub reg_pv_run_status : ℕ
reg_pv_run_status = 60100

abbrev pub reg_pv_total_energy_hi : ℕ
reg_pv_total_energy_hi = 60140

abbrev pub reg_pv_total_energy_lo : ℕ
reg_pv_total_energy_lo = 60141

abbrev pub reg_pv_daily_energy_hi : ℕ
reg_pv_daily_energy_hi = 60142

abbrev pub reg_pv_daily_energy_lo : ℕ
reg_pv_daily_energy_lo = 60143

abbrev pub reg_pv_monthly_energy_hi : ℕ
reg_pv_monthly_energy_hi = 60144

abbrev pub reg_pv_monthly_energy_lo : ℕ
reg_pv_monthly_energy_lo = 60145

abbrev pub reg_pv_yearly_energy_hi : ℕ
reg_pv_yearly_energy_hi = 60146

abbrev pub reg_pv_yearly_energy_lo : ℕ
reg_pv_yearly_energy_lo = 60147

abbrev pub reg_pv_rated_power : ℕ
reg_pv_rated_power = 60148

abbrev pub reg_pv_fault_alarm : ℕ
reg_pv_fault_alarm = 60149

abbrev pub reg_pv_ac_voltage_a : ℕ
reg_pv_ac_voltage_a = 60150

abbrev pub reg_pv_ac_voltage_b : ℕ
reg_pv_ac_voltage_b = 60151

abbrev pub reg_pv_ac_voltage_c : ℕ
reg_pv_ac_voltage_c = 60152

abbrev pub reg_pv_ac_current_a : ℕ
reg_pv_ac_current_a = 60153

abbrev pub reg_pv_ac_current_b : ℕ
reg_pv_ac_current_b = 60154

abbrev pub reg_pv_ac_current_c : ℕ
reg_pv_ac_current_c = 60155

abbrev pub reg_pv_grid_frequency : ℕ
reg_pv_grid_frequency = 60156

abbrev pub reg_pv_power_factor : ℕ
reg_pv_power_factor = 60157

abbrev pub reg_pv_ac_active_power : ℕ
reg_pv_ac_active_power = 60158

abbrev pub reg_pv_ac_reactive_power : ℕ
reg_pv_ac_reactive_power = 60159

abbrev pub reg_pv_inverter_efficiency : ℕ
reg_pv_inverter_efficiency = 60160

abbrev pub reg_pv_daily_peak_power : ℕ
reg_pv_daily_peak_power = 60161

abbrev pub reg_pv_apparent_power : ℕ
reg_pv_apparent_power = 60162

abbrev pub reg_pv_dc_input_power : ℕ
reg_pv_dc_input_power = 60280

abbrev pub reg_pv_internal_temp : ℕ
reg_pv_internal_temp = 60281

abbrev pub reg_pv_dc_voltage : ℕ
reg_pv_dc_voltage = 60282

abbrev pub reg_pv_dc_current : ℕ
reg_pv_dc_current = 60283
