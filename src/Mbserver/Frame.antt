-- ===== src/Mbserver/Frame.antt =====
-- internal/mbserver/frame.go: the interface that the two frame formats implement, and the helpers
-- that read and build the data field. `Copy` is the identity: values are never shared.
pub mod Tcp
pub mod Rtu
use virtual_bess.Prelude.{
  ℕ, ◌+◌, ◌*◌, List, [], ◌∷◌, ◌++◌, hi_byte, lo_byte, byte, bit_and, ◌==◌, if◌then◌else◌, length,
}
use virtual_bess.Prelude.Go.{Run, done, ◌>>=◌, Slice, index, u16_at}
use virtual_bess.Mbserver.Exceptions.{Exception}

-- The errors that the constructors of frames return.
pub data FrameError : Type 0 where
  packet_too_short : FrameError
  length_mismatch : FrameError
  data_length_error : FrameError
  function_code_error : FrameError
  crc_mismatch : ℕ → ℕ → FrameError

-- `Framer`
pub record Framer (F : Type 0) : Type 0 where
  pub bytes : F → List ℕ
  pub get_data : F → Slice
  pub get_function : F → ℕ
  pub get_device_id : F → ℕ
  pub set_exception : Exception → F → F
  pub set_data : List ℕ → F → F

-- What a function handler reads of a frame.
pub record View : Type 0 where
  pub device_id : ℕ
  pub function : ℕ
  pub body : Slice

abbrev pub view : {F : Type 0} ⦃f : Framer F⦄ → F → View
view ⦃f⦄ frame = record {
  device_id = f.get_device_id frame;
  function = f.get_function frame;
  body = f.get_data frame;
}

-- `RegisterAddressAndNumber`
unfoldable pub register_address_and_number : Slice → Run (ℕ × ℕ × ℕ)
register_address_and_number body = do
  register ← u16_at body 0
  num_regs ← u16_at body 2
  done (register, num_regs, register + num_regs)

-- `RegisterAddressAndValue`
unfoldable pub register_address_and_value : Slice → Run (ℕ × ℕ)
register_address_and_value body = do
  register ← u16_at body 0
  value ← u16_at body 2
  done (register, value)

-- `Uint16ToBytes` of functions.go
unfoldable pub uint16_to_bytes : List ℕ → List ℕ
uint16_to_bytes [] = []
uint16_to_bytes (v ∷ vs) = hi_byte v ∷ (lo_byte v ∷ uint16_to_bytes vs)

abbrev pub register_and_number : ℕ → ℕ → List ℕ → List ℕ
register_and_number register number rest =
    hi_byte register ∷ (lo_byte register ∷ (hi_byte number ∷ (lo_byte number ∷ rest)))

module _ {F : Type 0} ⦃f : Framer F⦄ where
  -- `GetException`
  unfoldable pub get_exception : F → Run ℕ
  get_exception frame =
      if bit_and (f.get_function frame) 0x80 == 0 then done 0 else index (f.get_data frame) 0

  unfoldable pub set_data_with_register_and_number : F → ℕ → ℕ → F
  set_data_with_register_and_number frame register number =
      f.set_data (register_and_number register number []) frame

  unfoldable pub set_data_with_register_and_number_and_values : F → ℕ → ℕ → List ℕ → F
  set_data_with_register_and_number_and_values frame register number values =
      f.set_data
        (register_and_number register number (byte (length values * 2) ∷ uint16_to_bytes values))
        frame

  unfoldable pub set_data_with_register_and_number_and_bytes : F → ℕ → ℕ → List ℕ → F
  set_data_with_register_and_number_and_bytes frame register number values =
      f.set_data (register_and_number register number (byte (length values) ∷ values)) frame
