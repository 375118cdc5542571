-- ===== src/Mbserver/Frame/Tcp.antt =====
-- internal/mbserver/frametcp.go: Modbus TCP frames.
pub mod RoundTrip
pub mod Crash
pub mod Accepted
use virtual_bess.Prelude.{
  ℕ, ◌+◌, ◌*◌, ◌-◌, ◌/◌, List, [], ◌∷◌, ◌++◌, be16, hi_byte, lo_byte, uint16, bit_or, ltb, leb,
  ◌==◌, ◌&&◌, not, if◌then◌else◌, length,
}
use virtual_bess.Prelude.Go.{Outcome, ok, err, crash, after, Slice, len, of_list, index, u16_at}
use virtual_bess.Mbserver.Exceptions.{Exception, code}
use virtual_bess.Mbserver.Frame.{
  FrameError, packet_too_short, length_mismatch, data_length_error, function_code_error, Framer,
}

-- `TCPFrame`; its field `Data` is `payload`
pub record TcpFrame : Type 0 where
  pub transaction_identifier : ℕ
  pub protocol_identifier : ℕ
  pub frame_length : ℕ
  pub device : ℕ
  pub function : ℕ
  pub payload : Slice

-- the cases 0x0F and 0x10 of `checkDataLength`; `expected` is computed from the count in uint16
abbrev pub check_byte_count : (ℕ → ℕ) → Slice → Outcome FrameError (Unit {0})
check_byte_count expected d = after (u16_at d 2) λ count. after (index d 4) λ byte_count.
    if not (uint16 byte_count == expected count)
    then err data_length_error
    else if not (len d - 5 == byte_count)
    then err data_length_error
    else ok tt

abbrev pub bytes_for_coils : ℕ → ℕ
bytes_for_coils count = uint16 (count + 7) / 8

abbrev pub bytes_for_registers : ℕ → ℕ
bytes_for_registers count = uint16 (count * 2)

-- `checkDataLength`
unfoldable pub check_data_length : ℕ → Slice → Outcome FrameError (Unit {0})
check_data_length f d =
    if leb 1 f && leb f 6
    then (if not (len d == 4) then err data_length_error else ok tt)
    else if f == 0x0F
    then check_byte_count bytes_for_coils d
    else if f == 0x10
    then check_byte_count bytes_for_registers d
    else err function_code_error

abbrev checked : TcpFrame → Outcome FrameError (Unit {0}) → Outcome FrameError TcpFrame
checked frame (ok _) = ok frame
checked frame (err e) = err e
checked frame crash = crash

-- the part of `NewTCPFrame` behind the header
unfoldable pub finish_frame : TcpFrame → Outcome FrameError TcpFrame
finish_frame frame =
    if not (frame.frame_length == len frame.payload + 2)
    then err length_mismatch
    else checked frame (check_data_length frame.function frame.payload)

-- the fields of a packet that has nine bytes at least; `spare` is what lies behind the packet
unfoldable pub parse_packet : List ℕ → List ℕ → Outcome FrameError TcpFrame
parse_packet (t1 ∷ (t0 ∷ (p1 ∷ (p0 ∷ (l1 ∷ (l0 ∷ (dev ∷ (fn ∷ (x ∷ rest))))))))) spare =
    finish_frame (record {
      transaction_identifier = be16 t1 t0;
      protocol_identifier = be16 p1 p0;
      frame_length = be16 l1 l0;
      device = dev;
      function = fn;
      payload = record { vals = x ∷ rest; spare = spare };
    })
parse_packet _ spare = err packet_too_short

-- `NewTCPFrame`
unfoldable pub new_tcp_frame : Slice → Outcome FrameError TcpFrame
new_tcp_frame packet = parse_packet packet.vals packet.spare

-- `Bytes`; the length field is written from the data
unfoldable pub tcp_bytes : TcpFrame → List ℕ
tcp_bytes frame =
    hi_byte frame.transaction_identifier
    ∷ (lo_byte frame.transaction_identifier
        ∷ (hi_byte frame.protocol_identifier
            ∷ (lo_byte frame.protocol_identifier
                ∷ (hi_byte (uint16 (2 + len frame.payload))
                    ∷ (lo_byte (uint16 (2 + len frame.payload))
                        ∷ (frame.device ∷ (frame.function ∷ frame.payload.vals)))))))

-- `setLength`
unfoldable pub set_length : TcpFrame → TcpFrame
set_length frame = record frame { frame_length = uint16 (len frame.payload + 2) }

-- `SetData`
unfoldable pub tcp_set_data : List ℕ → TcpFrame → TcpFrame
unfolding set_length
tcp_set_data d frame = set_length (record frame { payload = of_list d })

-- `SetException`
unfoldable pub tcp_set_exception : Exception → TcpFrame → TcpFrame
unfolding set_length code
tcp_set_exception e frame =
    set_length
      (record frame { function = bit_or frame.function 0x80; payload = of_list (code e ∷ []) })

instance abbrev pub tcp_framer : Framer TcpFrame
tcp_framer = record {
  bytes = tcp_bytes;
  get_data = λ frame. frame.payload;
  get_function = λ frame. frame.function;
  get_device_id = λ frame. frame.device;
  set_exception = tcp_set_exception;
  set_data = tcp_set_data;
}
