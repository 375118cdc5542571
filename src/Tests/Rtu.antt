-- ===== src/Tests/Rtu.antt =====
-- RTU frames and their checksum.
use virtual_bess.Prelude.{ℕ, List, [], ◌∷◌, ◌++◌, ◌≡◌, refl, arith, IsByte, All, replicate}
use virtual_bess.Prelude.Go.{ok, of_list}
use virtual_bess.Mbserver.Crc.{crc_modbus, crc_loop, crc_table, table_rounds, table_round}
use virtual_bess.Mbserver.Crc.Reference.{serial_crc, crc_modbus-serial_crc}
use virtual_bess.Mbserver.Frame.Rtu.{RtuFrame, new_rtu_frame, frame_of, rtu_bytes}
use virtual_bess.Mbserver.Frame.Rtu.RoundTrip.{
  reparsed, new_rtu_frame-rtu_bytes, rtu_bytes-new_rtu_frame,
}
use virtual_bess.Mbserver.Server.Mbap.{received}
use virtual_bess.Mbserver.Server.RtuOverTcp.{read_rtu_request}
use virtual_bess.Mbserver.Server.RtuOverTcp.Requests.{seven, read_rtu_request_exact}

-- a read of one register, without its checksum
abbrev read_bytes : List ℕ
read_bytes = 0x01 ∷ (0x03 ∷ (0x00 ∷ (0x00 ∷ (0x00 ∷ (0x01 ∷ [])))))

read_bytes_are_bytes : All IsByte read_bytes
read_bytes_are_bytes =
    (omega arith, (omega arith, (omega arith, (omega arith, (omega arith, (omega arith, tt))))))

crc_modbus_run : crc_modbus read_bytes ≡ 0x0A84
unfolding crc_modbus crc_loop crc_table table_rounds table_round
crc_modbus_run = refl

crc_modbus-serial_crc_example : crc_modbus read_bytes ≡ serial_crc 0xffff read_bytes
crc_modbus-serial_crc_example = crc_modbus-serial_crc read_bytes read_bytes_are_bytes

abbrev rtu_frame : RtuFrame
rtu_frame = record {
  address = 1;
  function = 3;
  payload = of_list (0x00 ∷ (0x00 ∷ (0x00 ∷ (0x01 ∷ []))));
  crc = 0;
}

new_rtu_frame-rtu_bytes_example :
    new_rtu_frame (of_list (rtu_bytes rtu_frame)) ≡ ok (reparsed rtu_frame)
new_rtu_frame-rtu_bytes_example =
    new_rtu_frame-rtu_bytes rtu_frame
      (record { bytes = read_bytes_are_bytes; some_data = omega arith })

abbrev read_request : List ℕ
read_request = read_bytes ++ (0x84 ∷ (0x0A ∷ []))

read_request_parses : new_rtu_frame (of_list read_request) ≡ ok (frame_of (of_list read_request))
unfolding new_rtu_frame crc_modbus crc_loop crc_table table_rounds table_round
read_request_parses = refl

rtu_bytes-new_rtu_frame_example : rtu_bytes (frame_of (of_list read_request)) ≡ read_request
rtu_bytes-new_rtu_frame_example =
    rtu_bytes-new_rtu_frame (of_list read_request) (frame_of (of_list read_request))
      (
        omega arith,
        (
          omega arith,
          (
            omega arith,
            (omega arith, (omega arith, (omega arith, (omega arith, (omega arith, tt))))),
          ),
        ),
      )
      read_request_parses

-- a write of one register's two bytes, with the next request behind it
read_rtu_request_exact_example :
    read_rtu_request (seven 1 0x10 0 10 0 1 2 ++ ((0 ∷ (7 ∷ (0xAA ∷ (0xBB ∷ [])))) ++ (1 ∷ [])))
    ≡ received
        (record {
          vals = seven 1 0x10 0 10 0 1 2 ++ (0 ∷ (7 ∷ (0xAA ∷ (0xBB ∷ []))));
          spare = replicate 245 0;
        })
        (1 ∷ [])
read_rtu_request_exact_example =
    read_rtu_request_exact 1 0x10 0 10 0 1 2 (0 ∷ (7 ∷ (0xAA ∷ (0xBB ∷ [])))) (1 ∷ []) refl
      (omega arith)
