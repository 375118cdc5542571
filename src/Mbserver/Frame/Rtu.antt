-- ===== src/Mbserver/Frame/Rtu.antt =====
-- internal/mbserver/framertu.go: Modbus RTU frames.
pub mod RoundTrip
use virtual_bess.Prelude.{
  ℕ, ◌+◌, ◌*◌, ◌-◌, List, [], ◌∷◌, ◌++◌, hi_byte, lo_byte, bit_or, ltb, ◌==◌, not, if◌then◌else◌,
  length, get_or, take, drop,
}
use virtual_bess.Prelude.Go.{Outcome, ok, err, Slice, of_list}
use virtual_bess.Mbserver.Crc.{crc_modbus}
use virtual_bess.Mbserver.Exceptions.{Exception, code}
use virtual_bess.Mbserver.Frame.{FrameError, packet_too_short, crc_mismatch, Framer}

-- `RTUFrame`; its field `Data` is `payload`
pub record RtuFrame : Type 0 where
  pub address : ℕ
  pub function : ℕ
  pub payload : Slice
  pub crc : ℕ

-- `binary.LittleEndian.Uint16` of the last two bytes
abbrev pub trailer : List ℕ → ℕ
trailer packet = get_or packet (length packet - 1) 0 * 256 + get_or packet (length packet - 2) 0

abbrev pub without_trailer : List ℕ → List ℕ
without_trailer packet = take (length packet - 2) packet

-- The data is a part of the packet, so the CRC bytes lie behind it in the backing array.
abbrev pub frame_of : Slice → RtuFrame
frame_of packet = record {
  address = get_or packet.vals 0 0;
  function = get_or packet.vals 1 0;
  payload = record {
    vals = drop 2 (without_trailer packet.vals);
    spare = drop (length packet.vals - 2) packet.vals ++ packet.spare;
  };
  crc = 0;
}

-- `NewRTUFrame`
unfoldable pub new_rtu_frame : Slice → Outcome FrameError RtuFrame
new_rtu_frame packet =
    if ltb (length packet.vals) 5
    then err packet_too_short
    else if not (crc_modbus (without_trailer packet.vals) == trailer packet.vals)
    then err (crc_mismatch (trailer packet.vals) (crc_modbus (without_trailer packet.vals)))
    else ok (frame_of packet)

abbrev pub rtu_body : RtuFrame → List ℕ
rtu_body frame = frame.address ∷ (frame.function ∷ frame.payload.vals)

-- `Bytes`
pub rtu_bytes : RtuFrame → List ℕ
rtu_bytes frame =
    rtu_body frame
    ++ (lo_byte (crc_modbus (rtu_body frame)) ∷ (hi_byte (crc_modbus (rtu_body frame)) ∷ []))

-- `SetData`
pub rtu_set_data : List ℕ → RtuFrame → RtuFrame
rtu_set_data d frame = record frame { payload = of_list d }

-- `SetException`
pub rtu_set_exception : Exception → RtuFrame → RtuFrame
unfolding code
rtu_set_exception e frame = record frame {
  function = bit_or frame.function 0x80;
  payload = of_list (code e ∷ []);
}

instance abbrev pub rtu_framer : Framer RtuFrame
rtu_framer = record {
  bytes = rtu_bytes;
  get_data = λ frame. frame.payload;
  get_function = λ frame. frame.function;
  get_device_id = λ frame. frame.address;
  set_exception = rtu_set_exception;
  set_data = rtu_set_data;
}
