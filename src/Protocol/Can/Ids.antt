-- ===== src/Protocol/Can/Ids.antt =====
-- internal/protocol/can/can_frames.go: the identifiers of the frames.
use virtual_bess.Prelude.{ℕ}

abbrev pub can_eff_flag : ℕ
can_eff_flag = 0x80000000

abbrev pub can_id_status : ℕ
can_id_status = 0x1850F4E8

abbrev pub can_id_status2 : ℕ
can_id_status2 = 0x1851F4E8

abbrev pub can_id_soc_energy : ℕ
can_id_soc_energy = 0x1852F4E8

abbrev pub can_id_vip : ℕ
can_id_vip = 0x1853F4E8

abbrev pub can_id_total_e : ℕ
can_id_total_e = 0x1854F4E8

abbrev pub can_id_limits : ℕ
can_id_limits = 0x1855F4E8

abbrev pub can_id_cell_v : ℕ
can_id_cell_v = 0x1856F4E8

abbrev pub can_id_cell_v_idx : ℕ
can_id_cell_v_idx = 0x1857F4E8

abbrev pub can_id_cell_t : ℕ
can_id_cell_t = 0x1858F4E8

abbrev pub can_id_cell_t_idx : ℕ
can_id_cell_t_idx = 0x1859F4E8

abbrev pub can_id_command : ℕ
can_id_command = 0x1881E8F4
