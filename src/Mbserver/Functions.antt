-- ===== src/Mbserver/Functions.antt =====
-- internal/mbserver/functions.go: the default function handlers. A handler takes the memory and the
-- frame, and returns the memory, the data of the response and the exception.
pub mod Codec
pub mod Request
pub mod Bits
pub mod PackBits
pub mod WriteBits
pub mod Coils
pub mod Safety
pub mod HoldingRegisters
use virtual_bess.Prelude.{
  ℕ, zero, suc, ◌+◌, ◌*◌, ◌-◌, ◌/◌, ◌%◌, ◌^◌, List, [], ◌∷◌, be16, byte, bit_or, bit_and, ltb, leb,
  ◌==◌, if◌then◌else◌, length,
}
use virtual_bess.Prelude.Go.{Run, done, panic, ◌>>=◌, Slice, from, upto}
use virtual_bess.Prelude.Array.{Array, zeros, window, read, write, section, copy, copied}
use virtual_bess.Mbserver.Exceptions.{Exception, success, illegal_data_address}
use virtual_bess.Mbserver.Frame.{
  View, register_address_and_number, register_address_and_value, uint16_to_bytes,
}

-- the memory areas of `Server`
pub record Memory : Type 0 where
  pub discrete_inputs : Array
  pub coils : Array
  pub holding_registers : Array
  pub input_registers : Array

pub record Reply (S : Type 0) : Type 0 where
  pub state : S
  pub response : List ℕ
  pub exception : Exception

abbrev pub Handler : Type 0 → Type 0
Handler S = S → View → Run (Reply S)

module _ {S : Type 0} where
  abbrev pub answer : S → List ℕ → Run (Reply S)
  answer s d = done (record { state = s; response = d; exception = success })

  abbrev pub refuse : S → Exception → Run (Reply S)
  refuse s e = done (record { state = s; response = []; exception = e })

-- `BytesToUint16`
unfoldable pub bytes_to_uint16 : List ℕ → List ℕ
bytes_to_uint16 [] = []
bytes_to_uint16 (hi ∷ []) = []
bytes_to_uint16 (hi ∷ (lo ∷ rest)) = be16 hi lo ∷ bytes_to_uint16 rest

-- `bitAtPosition`
unfoldable pub bit_at_position : ℕ → ℕ → ℕ
bit_at_position value pos = bit_and (value / 2 ^ pos) 0x01

-- `data[k] |= b`
pub or_in : Array → ℕ → ℕ → Run Array
or_in d k b = do x ← read d k; write d k (bit_or x b)

-- the loop of `ReadCoils` and `ReadDiscreteInputs` from the value with index `i` on
pub pack_bits : Array → ℕ → List ℕ → Run Array
pack_bits d i [] = done d
pack_bits d i (value ∷ rest) = do
  d' ← (if value == 0 then done d else or_in d (1 + i / 8) (byte (2 ^ (i % 8))))
  pack_bits d' (i + 1) rest

abbrev pub data_size : ℕ → ℕ
data_size num_regs = if num_regs % 8 == 0 then num_regs / 8 else num_regs / 8 + 1

-- what `ReadCoils` and `ReadDiscreteInputs` do with the area that they read
pub read_bits : Array → Memory → View → Run (Reply Memory)
unfolding pack_bits or_in
read_bits area m v = do
  (register, num_regs, end_register) ← register_address_and_number v.body
  if ltb 65535 end_register then refuse m illegal_data_address else do
    values ← section area register end_register
    first ← write (zeros (1 + data_size num_regs)) 0 (byte (data_size num_regs))
    d ← pack_bits first 0 values
    answer m (window d.at 0 d.size)

pub read_coils : Handler Memory
unfolding read_bits
read_coils m = read_bits m.coils m

pub read_discrete_inputs : Handler Memory
unfolding read_bits
read_discrete_inputs m = read_bits m.discrete_inputs m

-- what `ReadHoldingRegisters` and `ReadInputRegisters` do with the area that they read
pub read_words : Array → Memory → View → Run (Reply Memory)
read_words area m v = do
  (register, num_regs, end_register) ← register_address_and_number v.body
  if ltb 65536 end_register then refuse m illegal_data_address else do
    values ← section area register end_register
    answer m (byte (num_regs * 2) ∷ uint16_to_bytes values)

pub read_holding_registers : Handler Memory
unfolding read_words
read_holding_registers m = read_words m.holding_registers m

pub read_input_registers : Handler Memory
unfolding read_words
read_input_registers m = read_words m.input_registers m

pub write_single_coil : Handler Memory
write_single_coil m v = do
  (register, value) ← register_address_and_value v.body
  coils ← write m.coils register (if value == 0 then 0 else 1)
  echo ← upto v.body 4
  answer (record m { coils = coils }) echo

pub write_holding_register : Handler Memory
write_holding_register m v = do
  (register, value) ← register_address_and_value v.body
  regs ← write m.holding_registers register value
  echo ← upto v.body 4
  answer (record m { holding_registers = regs }) echo

-- the inner loop of `WriteMultipleCoils`, with `left` bit positions to go; it returns `bitCount`
pub write_bits : ℕ → Array → ℕ → ℕ → ℕ → ℕ → ℕ → Run (Array × ℕ)
write_bits zero coils base value pos bit_count num_regs = done (coils, bit_count)
write_bits (suc left) coils base value pos bit_count num_regs = do
  coils' ← write coils (base + pos) (bit_at_position value pos)
  let rest = write_bits left coils' base value (pos + 1) (bit_count + 1) num_regs
  if leb num_regs (bit_count + 1) then done (coils', bit_count + 1) else rest

-- the outer loop, from the byte with index `i` on
pub write_coil_bytes : List ℕ → Array → ℕ → ℕ → ℕ → ℕ → Run Array
write_coil_bytes [] coils register i bit_count num_regs = done coils
write_coil_bytes (value ∷ rest) coils register i bit_count num_regs = do
  (coils', bit_count') ← write_bits 8 coils (register + i * 8) value 0 bit_count num_regs
  let more = write_coil_bytes rest coils' register (i + 1) bit_count' num_regs
  if leb num_regs bit_count' then done coils' else more

pub write_multiple_coils : Handler Memory
unfolding write_coil_bytes write_bits
write_multiple_coils m v = do
  (register, num_regs, end_register) ← register_address_and_number v.body
  value_bytes ← from v.body 5
  if ltb 65536 end_register then refuse m illegal_data_address else do
    coils ← write_coil_bytes value_bytes m.coils register 0 0 num_regs
    echo ← upto v.body 4
    answer (record m { coils = coils }) echo

-- The test of the byte count sets an exception that the code then overwrites.
pub write_holding_registers : Handler Memory
write_holding_registers m v = do
  (register, num_regs, _) ← register_address_and_number v.body
  value_bytes ← from v.body 5
  let values = bytes_to_uint16 value_bytes
  regs ← copy m.holding_registers register values
  let m' = record m { holding_registers = regs }
  if copied m.holding_registers register values == num_regs
      then (do echo ← upto v.body 4; answer m' echo)
      else refuse m' illegal_data_address
