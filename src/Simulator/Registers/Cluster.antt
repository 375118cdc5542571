-- ===== src/Simulator/Registers/Cluster.antt =====
-- internal/simulator/registers.go: the registers of a battery cluster and the values of its status.
use virtual_bess.Prelude.{ℕ}

abbrev pub ir_cluster_stride : ℕ
ir_cluster_stride = 1600

abbrev pub off_cluster_status : ℕ
off_cluster_status = 1

abbrev pub off_cluster_soc : ℕ
off_cluster_soc = 2

abbrev pub off_cluster_soh : ℕ
off_cluster_soh = 3

abbrev pub off_cluster_remain_charge : ℕ
off_cluster_remain_charge = 4

abbrev pub off_cluster_remain_discharge : ℕ
off_cluster_remain_discharge = 5

abbrev pub off_cluster_voltage : ℕ
off_cluster_voltage = 6

abbrev pub off_cluster_current : ℕ
off_cluster_current = 7

abbrev pub off_cluster_power : ℕ
off_cluster_power = 8

abbrev pub off_cluster_total_charge_hi : ℕ
off_cluster_total_charge_hi = 9

abbrev pub off_cluster_total_charge_lo : ℕ
off_cluster_total_charge_lo = 10

abbrev pub off_cluster_total_disch_hi : ℕ
off_cluster_total_disch_hi = 11

abbrev pub off_cluster_total_disch_lo : ℕ
off_cluster_total_disch_lo = 12

abbrev pub off_cluster_sess_charge_hi : ℕ
off_cluster_sess_charge_hi = 13

abbrev pub off_cluster_sess_charge_lo : ℕ
off_cluster_sess_charge_lo = 14

abbrev pub off_cluster_sess_disch_hi : ℕ
off_cluster_sess_disch_hi = 15

abbrev pub off_cluster_sess_disch_lo : ℕ
off_cluster_sess_disch_lo = 16

abbrev pub off_cluster_max_charge_pw : ℕ
off_cluster_max_charge_pw = 17

abbrev pub off_cluster_max_discharge_pw : ℕ
off_cluster_max_discharge_pw = 18

abbrev pub off_cluster_max_charge_i : ℕ
off_cluster_max_charge_i = 19

abbrev pub off_cluster_max_discharge_i : ℕ
off_cluster_max_discharge_i = 20

abbrev pub off_cluster_cell_v_max : ℕ
off_cluster_cell_v_max = 21

abbrev pub off_cluster_cell_v_max_idx : ℕ
off_cluster_cell_v_max_idx = 22

abbrev pub off_cluster_cell_v_min : ℕ
off_cluster_cell_v_min = 23

abbrev pub off_cluster_cell_v_min_idx : ℕ
off_cluster_cell_v_min_idx = 24

abbrev pub off_cluster_cell_v_avg : ℕ
off_cluster_cell_v_avg = 25

abbrev pub off_cluster_cell_t_max : ℕ
off_cluster_cell_t_max = 26

abbrev pub off_cluster_cell_t_max_idx : ℕ
off_cluster_cell_t_max_idx = 27

abbrev pub off_cluster_cell_t_min : ℕ
off_cluster_cell_t_min = 28

abbrev pub off_cluster_cell_t_min_idx : ℕ
off_cluster_cell_t_min_idx = 29

abbrev pub off_cluster_cell_t_avg : ℕ
off_cluster_cell_t_avg = 30

abbrev pub off_cluster_cell_v_spread : ℕ
off_cluster_cell_v_spread = 31

abbrev pub off_cluster_cell_t_spread : ℕ
off_cluster_cell_t_spread = 32

abbrev pub cluster_status_offline : ℕ
cluster_status_offline = 0

abbrev pub cluster_status_standby : ℕ
cluster_status_standby = 1

abbrev pub cluster_status_stopped : ℕ
cluster_status_stopped = 2

abbrev pub cluster_status_charging : ℕ
cluster_status_charging = 3

abbrev pub cluster_status_discharging : ℕ
cluster_status_discharging = 4

abbrev pub cluster_status_running : ℕ
cluster_status_running = 5

abbrev pub cluster_status_fault : ℕ
cluster_status_fault = 6
