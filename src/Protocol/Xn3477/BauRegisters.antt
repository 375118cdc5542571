-- ===== src/Protocol/Xn3477/BauRegisters.antt =====
-- internal/protocol/xn3477/registers.go: the registers of the BAU.
use virtual_bess.Prelude.{ℕ}

abbrev pub xn_bau_fault_flags : ℕ
xn_bau_fault_flags = 0x1001

abbrev pub xn_bau_main_status : ℕ
xn_bau_main_status = 0x1031

abbrev pub xn_bau_work_status : ℕ
xn_bau_work_status = 0x1032

abbrev pub xn_bau_cluster_cut_in_fail : ℕ
xn_bau_cluster_cut_in_fail = 0x1036

abbrev pub xn_bau_cluster_grid_fail : ℕ
xn_bau_cluster_grid_fail = 0x1076

abbrev pub xn_bau_voltage : ℕ
xn_bau_voltage = 0x2001

abbrev pub xn_bau_current : ℕ
xn_bau_current = 0x2002

abbrev pub xn_bau_soc : ℕ
xn_bau_soc = 0x2004

abbrev pub xn_bau_soh : ℕ
xn_bau_soh = 0x2005

abbrev pub xn_bau_remaining_charge : ℕ
xn_bau_remaining_charge = 0x2007

abbrev pub xn_bau_remaining_discharge : ℕ
xn_bau_remaining_discharge = 0x2008

abbrev pub xn_bau_max_charge_current : ℕ
xn_bau_max_charge_current = 0x2009

abbrev pub xn_bau_max_discharge_current : ℕ
xn_bau_max_discharge_current = 0x200A

abbrev pub xn_bau_max_cell_voltage_rack : ℕ
xn_bau_max_cell_voltage_rack = 0x200D

abbrev pub xn_bau_max_cell_voltage_pack : ℕ
xn_bau_max_cell_voltage_pack = 0x200E

abbrev pub xn_bau_max_cell_voltage_no : ℕ
xn_bau_max_cell_voltage_no = 0x200F

abbrev pub xn_bau_max_cell_voltage : ℕ
xn_bau_max_cell_voltage = 0x2010

abbrev pub xn_bau_min_cell_voltage_rack : ℕ
xn_bau_min_cell_voltage_rack = 0x2011

abbrev pub xn_bau_min_cell_voltage_pack : ℕ
xn_bau_min_cell_voltage_pack = 0x2012

abbrev pub xn_bau_min_cell_voltage_no : ℕ
xn_bau_min_cell_voltage_no = 0x2013

abbrev pub xn_bau_min_cell_voltage : ℕ
xn_bau_min_cell_voltage = 0x2014

abbrev pub xn_bau_avg_cell_voltage : ℕ
xn_bau_avg_cell_voltage = 0x2015

abbrev pub xn_bau_max_cell_temp_rack : ℕ
xn_bau_max_cell_temp_rack = 0x2016

abbrev pub xn_bau_max_cell_temp_pack : ℕ
xn_bau_max_cell_temp_pack = 0x2017

abbrev pub xn_bau_max_cell_temp_no : ℕ
xn_bau_max_cell_temp_no = 0x2018

abbrev pub xn_bau_max_cell_temp : ℕ
xn_bau_max_cell_temp = 0x2019

abbrev pub xn_bau_min_cell_temp_rack : ℕ
xn_bau_min_cell_temp_rack = 0x201A

abbrev pub xn_bau_min_cell_temp_pack : ℕ
xn_bau_min_cell_temp_pack = 0x201B

abbrev pub xn_bau_min_cell_temp_no : ℕ
xn_bau_min_cell_temp_no = 0x201C

abbrev pub xn_bau_min_cell_temp : ℕ
xn_bau_min_cell_temp = 0x201D

abbrev pub xn_bau_avg_cell_temp : ℕ
xn_bau_avg_cell_temp = 0x201E

abbrev pub xn_bau_total_charge : ℕ
xn_bau_total_charge = 0x201F

abbrev pub xn_bau_total_discharge : ℕ
xn_bau_total_discharge = 0x2021

abbrev pub xn_bau_max_discharge_power : ℕ
xn_bau_max_discharge_power = 0x2026

abbrev pub xn_bau_max_charge_power : ℕ
xn_bau_max_charge_power = 0x2027

abbrev pub xn_bau_daily_discharge : ℕ
xn_bau_daily_discharge = 0x2028

abbrev pub xn_bau_daily_charge : ℕ
xn_bau_daily_charge = 0x2029

abbrev pub xn_bau_hv_control : ℕ
xn_bau_hv_control = 0x3001

abbrev pub xn_bau_cluster_enable_start : ℕ
xn_bau_cluster_enable_start = 0x3005

abbrev pub xn_bau_fault_reset : ℕ
xn_bau_fault_reset = 0x3047
