-- ===== src/Tests/Frames.antt =====
-- Frames and the streams that carry them.
use virtual_bess.Prelude.{ℕ, List, [], ◌∷◌, ◌≡◌, ◌↔◌, refl, arith, IsByte, All}
use virtual_bess.Prelude.Go.{ok, crash, of_list}
use virtual_bess.Mbserver.Frame.Tcp.{
  TcpFrame, parse_packet, check_data_length, finish_frame, new_tcp_frame, tcp_bytes,
}
use virtual_bess.Mbserver.Frame.Tcp.RoundTrip.{
  IsWellFormed, new_tcp_frame-tcp_bytes, tcp_bytes-new_tcp_frame,
}
use virtual_bess.Mbserver.Frame.Tcp.Crash.{LacksByteCount, new_tcp_frame-crash}

-- a read of two registers from register 10 on
abbrev pub read_packet_bytes : List ℕ
read_packet_bytes =
    0x00
    ∷ (0x01
        ∷ (0x00
            ∷ (0x00 ∷ (0x00 ∷ (0x06 ∷ (0x01 ∷ (0x03 ∷ (0x00 ∷ (0x0A ∷ (0x00 ∷ (0x02 ∷ [])))))))))))

abbrev pub read_frame : TcpFrame
read_frame = record {
  transaction_identifier = 1;
  protocol_identifier = 0;
  frame_length = 6;
  device = 1;
  function = 3;
  payload = of_list (0x00 ∷ (0x0A ∷ (0x00 ∷ (0x02 ∷ []))));
}

pub read_packet_parses : new_tcp_frame (of_list read_packet_bytes) ≡ ok read_frame
unfolding new_tcp_frame parse_packet finish_frame check_data_length
read_packet_parses = refl

pub read_packet_are_bytes : All IsByte read_packet_bytes
read_packet_are_bytes = (
  omega arith,
  (
    omega arith,
    (
      omega arith,
      (
        omega arith,
        (
          omega arith,
          (
            omega arith,
            (
              omega arith,
              (omega arith, (omega arith, (omega arith, (omega arith, (omega arith, tt))))),
            ),
          ),
        ),
      ),
    ),
  ),
)

pub read_frame-IsWellFormed : IsWellFormed read_frame
read_frame-IsWellFormed = record {
  transaction = omega arith;
  protocol = omega arith;
  fits = omega arith;
  counted = refl;
  accepted = unfold check_data_length in refl;
}

new_tcp_frame-tcp_bytes_example : new_tcp_frame (of_list (tcp_bytes read_frame)) ≡ ok read_frame
new_tcp_frame-tcp_bytes_example =
    new_tcp_frame-tcp_bytes read_frame 0x00 (0x0A ∷ (0x00 ∷ (0x02 ∷ []))) read_frame-IsWellFormed
      refl

tcp_bytes-new_tcp_frame_example :
    (tcp_bytes read_frame ≡ read_packet_bytes) × IsWellFormed read_frame
tcp_bytes-new_tcp_frame_example =
    tcp_bytes-new_tcp_frame (of_list read_packet_bytes) read_frame read_packet_are_bytes
      read_packet_parses

-- a write of several registers whose data field is one byte
abbrev cut_packet : List ℕ
cut_packet = 0 ∷ (1 ∷ (0 ∷ (0 ∷ (0 ∷ (3 ∷ (1 ∷ (0x10 ∷ (0 ∷ []))))))))

new_tcp_frame-crash_example :
    (new_tcp_frame (of_list cut_packet) ≡ crash) ↔ LacksByteCount cut_packet
new_tcp_frame-crash_example = new_tcp_frame-crash (of_list cut_packet)

cut_packet_crashes : new_tcp_frame (of_list cut_packet) ≡ crash
unfolding new_tcp_frame parse_packet finish_frame check_data_length
cut_packet_crashes = refl
