-- ===== src/Protocol/Can.antt =====
-- internal/protocol/can/can_frames.go: the CAN frames that publish the BMS registers, and the command
-- frame. A frame has eight bytes of data.
pub mod Ids
pub mod Signals
pub mod Commands
use virtual_bess.Prelude.{
  zero, suc, ℕ, ◌+◌, ◌/◌, ◌^◌, List, [], ◌∷◌, Option, none, some, byte, bit_and, ltb, ◌==◌, not,
  ◌||◌, if◌then◌else◌, length, get_or,
}
use virtual_bess.Simulator.Registers.Bms.{
  reg_bms_fault_reset, reg_bms_close_hv, reg_bms_open_hv, reg_bms_fault_status,
  reg_bms_alarm_status, reg_bms_sys_status, reg_bms_charge_forbid, reg_bms_discharge_forbid,
  reg_bms_soc, reg_bms_soh, reg_bms_remain_charge, reg_bms_remain_discharge, reg_bms_voltage,
  reg_bms_current, reg_bms_power, reg_bms_total_charge, reg_bms_total_discharge,
  reg_bms_max_charge_pw, reg_bms_max_discharge_pw, reg_bms_max_charge_i, reg_bms_max_discharge_i,
  reg_bms_cell_v_max, reg_bms_cell_v_max_idx, reg_bms_cell_v_min, reg_bms_cell_v_min_idx,
  reg_bms_cell_v_avg, reg_bms_cell_t_max, reg_bms_cell_t_max_idx, reg_bms_cell_t_min,
  reg_bms_cell_t_min_idx, reg_bms_cell_t_avg, reg_bms_cell_v_spread, reg_bms_cell_t_spread,
}
use virtual_bess.Protocol.Can.Ids.{
  can_id_status, can_id_status2, can_id_soc_energy, can_id_vip, can_id_total_e, can_id_limits,
  can_id_cell_v, can_id_cell_v_idx, can_id_cell_t, can_id_cell_t_idx, can_id_command,
}

-- `canFrame`
pub record CanFrame : Type 0 where
  pub id : ℕ
  pub bytes : List ℕ

abbrev pub no_bytes : List ℕ
no_bytes = 0 ∷ (0 ∷ (0 ∷ (0 ∷ (0 ∷ (0 ∷ (0 ∷ (0 ∷ [])))))))

-- `data[i] = v` for an index inside the array
abbrev pub set_at : List ℕ → ℕ → ℕ → List ℕ
set_at [] i v = []
set_at (x ∷ xs) zero v = v ∷ xs
set_at (x ∷ xs) (suc i) v = x ∷ set_at xs i v

-- `putBE16`
abbrev pub put_be16 : List ℕ → ℕ → ℕ → List ℕ
put_be16 d off v = set_at (set_at d off (byte (v / 2 ^ 8))) (off + 1) (byte (bit_and v 0xff))

-- a new frame, and one word more
abbrev pub frame : ℕ → CanFrame
frame id = record { id = id; bytes = no_bytes }

abbrev pub put : ℕ → ℕ → CanFrame → CanFrame
put off v f = record f { bytes = put_be16 f.bytes off v }

-- `buildBMSFrames`; `r` is the method `ReadU16` of the interface `bmsRegReader`
unfoldable pub build_bms_frames : (ℕ → ℕ) → List CanFrame
build_bms_frames r =
    put 6 (r reg_bms_charge_forbid) (
      put 4 (r reg_bms_sys_status)
        (put 2 (r reg_bms_alarm_status) (put 0 (r reg_bms_fault_status) (frame can_id_status))))
    ∷ (put 0 (r reg_bms_discharge_forbid) (frame can_id_status2)
        ∷ (put 6 (r reg_bms_remain_discharge) (
              put 4 (r reg_bms_remain_charge)
                (put 2 (r reg_bms_soh) (put 0 (r reg_bms_soc) (frame can_id_soc_energy))))
            ∷ (put 4 (r reg_bms_power)
                  (put 2 (r reg_bms_current) (put 0 (r reg_bms_voltage) (frame can_id_vip)))
                ∷ (put 6 (r (reg_bms_total_discharge + 1)) (
                      put 4 (r reg_bms_total_discharge) (
                        put 2 (r (reg_bms_total_charge + 1))
                          (put 0 (r reg_bms_total_charge) (frame can_id_total_e))))
                    ∷ (put 6 (r reg_bms_max_discharge_i) (
                          put 4 (r reg_bms_max_charge_i) (
                            put 2 (r reg_bms_max_discharge_pw)
                              (put 0 (r reg_bms_max_charge_pw) (frame can_id_limits))))
                        ∷ (put 6 (r reg_bms_cell_v_spread) (
                              put 4 (r reg_bms_cell_v_avg) (
                                put 2 (r reg_bms_cell_v_min)
                                  (put 0 (r reg_bms_cell_v_max) (frame can_id_cell_v))))
                            ∷ (put 2 (r reg_bms_cell_v_min_idx)
                                  (put 0 (r reg_bms_cell_v_max_idx) (frame can_id_cell_v_idx))
                                ∷ (put 6 (r reg_bms_cell_t_spread) (
                                      put 4 (r reg_bms_cell_t_avg) (
                                        put 2 (r reg_bms_cell_t_min)
                                          (put 0 (r reg_bms_cell_t_max) (frame can_id_cell_t))))
                                    ∷ (put 2 (r reg_bms_cell_t_min_idx) (
                                          put 0 (r reg_bms_cell_t_max_idx)
                                            (frame can_id_cell_t_idx))
                                        ∷ [])))))))))

-- `decodeBMSCommand`: the register and the value to write
unfoldable pub decode_bms_command : ℕ → List ℕ → Option (ℕ × ℕ)
decode_bms_command id bytes =
    if not (id == can_id_command) || ltb (length bytes) 8
    then none
    else if get_or bytes 5 0 == 0x55
    then some (reg_bms_fault_reset, 1)
    else if get_or bytes 1 0 == 3
    then some (reg_bms_close_hv, 1)
    else if get_or bytes 0 0 == 1
    then some (reg_bms_open_hv, 1)
    else none
