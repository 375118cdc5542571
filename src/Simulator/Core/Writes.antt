-- ===== src/Simulator/Core/Writes.antt =====
-- Writes of registers through the handlers of the simulator, and through its own interface.
use virtual_bess.Prelude.{
  ℕ, ◌+◌, ◌*◌, ◌/◌, ◌<◌, ◌≡◌, ◌≢◌, refl, arith, List, [], ◌∷◌, All, none, some, uint16, byte, IsU16,
  length,
}
use virtual_bess.Prelude.Go.{done}
use virtual_bess.Mbserver.Exceptions.{illegal_data_address, gateway_target_device_failedto_respond}
use virtual_bess.Mbserver.Frame.{View, uint16_to_bytes, register_and_number}
use virtual_bess.Mbserver.Functions.{answer, refuse}
use virtual_bess.Mbserver.Functions.Codec.{bytes_to_uint16-uint16_to_bytes, length-uint16_to_bytes}
use virtual_bess.Mbserver.Functions.Request.{
  request, address_and_number, address_and_value, value_bytes, echo,
}
use virtual_bess.Mbserver.Registers.Ranges.{update_then_get}
use virtual_bess.Simulator.Bank.{SlaveBank}
use virtual_bess.Simulator.Core.{
  Devices, unknown_slave_id, store, write_holding, handle_read_holding, handle_read_input,
  handle_write_single_holding, handle_write_multiple_holding, call_back,
}

-- a request to a slave
abbrev pub to_slave : ℕ → ℕ → ℕ → List ℕ → List ℕ → View
to_slave slave_id register number rest spare = record (request register number rest spare) {
  device_id = slave_id;
}

module _ {D : Type 0} (devices : Devices D) (d : D) (slave_id : ℕ) where
  open devices use {bank_of, set_bank, on_write}

  -- A request to a slave that the simulator does not have: each of the four handlers answers
  -- GatewayTargetDeviceFailedtoRespond, a write from inside returns the error that names the slave,
  -- and no device changes.
  unknown_slave :
      (register number : ℕ) (rest spare : List ℕ)
      → bank_of d slave_id ≡ none
      → (handle_read_holding devices d (to_slave slave_id register number rest spare)
          ≡ refuse d gateway_target_device_failedto_respond)
        × (handle_read_input devices d (to_slave slave_id register number rest spare)
            ≡ refuse d gateway_target_device_failedto_respond)
        × (handle_write_single_holding devices d (to_slave slave_id register number rest spare)
            ≡ refuse d gateway_target_device_failedto_respond)
        × (handle_write_multiple_holding devices d (to_slave slave_id register number rest spare)
            ≡ refuse d gateway_target_device_failedto_respond)
        × (write_holding devices d slave_id register number
            ≡ done (d, some (unknown_slave_id slave_id)))
  unfolding handle_read_holding handle_read_input handle_write_single_holding
      handle_write_multiple_holding write_holding
  unknown_slave register number rest spare missing =
      (rw missing refl, rw missing refl, rw missing refl, rw missing refl, rw missing refl)

  module _ (bank : SlaveBank) (found : bank_of d slave_id ≡ some bank) where
    -- Function code 6 and `WriteHoldingExternal` do the same to the devices: when the store and the
    -- callback return, the write from inside returns no error, and the handler leaves the same
    -- devices and echoes the request. The register and the value fit in sixteen bits.
    pub write_single-eq-write_holding :
        (register value : ℕ) (spare : List ℕ) (d' : D)
        → IsU16 register
        → IsU16 value
        → store devices d slave_id bank register value ≡ done d'
        → (write_holding devices d slave_id register value ≡ done (d', none))
          × (handle_write_single_holding devices d (to_slave slave_id register value [] spare)
              ≡ answer d' (register_and_number register value []))
    unfolding write_holding handle_write_single_holding
    write_single-eq-write_holding register value spare d' hr hv run =
        let low : uint16 register ≡ register = omega arith in
        (
          rw (found, run) refl,
          rw
              (
                found,
                address_and_value register value [] spare hr hv,
                low,
                run,
                echo register value [] spare,
              )
              refl,
        )

    -- A write of several registers whose number of values is not the number announced is refused
    -- with IllegalDataAddress, and no device changes.
    write_multiple_mismatch :
        (register number byte_count : ℕ) (vs : List ℕ) (spare : List ℕ)
        → IsU16 register
        → IsU16 number
        → length vs ≢ number
        → handle_write_multiple_holding devices d
            (to_slave slave_id register number (byte_count ∷ uint16_to_bytes vs) spare)
          ≡ refuse d illegal_data_address
    unfolding handle_write_multiple_holding
    write_multiple_mismatch register number byte_count vs spare hr hn differ =
        rw
          (
            found,
            address_and_number register number (byte_count ∷ uint16_to_bytes vs) spare hr hn,
            value_bytes register number byte_count (uint16_to_bytes vs) spare,
            length-uint16_to_bytes vs,
          )
          (ground arith)

  -- Callbacks that do nothing leave the devices as they are.
  call_back_quiet :
      (e : D) (quiet : (a v : ℕ) → on_write e slave_id a v ≡ done e) (vs : List ℕ) (register i : ℕ)
      → call_back devices vs e slave_id register i ≡ done e
  unfolding call_back
  call_back_quiet e quiet [] register i = refl
  call_back_quiet e quiet (v ∷ vs) register i =
      rw (quiet (uint16 (register + i)) v) (call_back_quiet e quiet vs register (i + 1))

  -- Function code 16, then function code 3 for the same registers, to a slave whose callback does
  -- nothing once a bank is stored: the write succeeds and echoes the request, and the read answers the
  -- values written. The bank has 65536 registers, the range ends before the last, the number of values
  -- is the one announced, and a bank with the slave id of the one there is found again once it is set.
  pub write_multiple_then_read_bank :
      (bank : SlaveBank) (register byte_count v : ℕ) (vs spare spare' : List ℕ)
      → bank_of d slave_id ≡ some bank
      → ((b : SlaveBank)
          → b.slave_id ≡ bank.slave_id
          → bank_of (set_bank d slave_id b) slave_id ≡ some b)
      → ((b : SlaveBank)
          → b.slave_id ≡ bank.slave_id
          → (a w : ℕ)
          → on_write (set_bank d slave_id b) slave_id a w ≡ done (set_bank d slave_id b))
      → All IsU16 (v ∷ vs)
      → bank.holding.size ≡ 65536
      → register + length (v ∷ vs) < 65536
      → (d' : D) × (handle_write_multiple_holding devices d (
            to_slave slave_id register
              (length (v ∷ vs))
              (byte_count ∷ uint16_to_bytes (v ∷ vs))
              spare)
          ≡ answer d' (register_and_number register (length (v ∷ vs)) []))
        × (handle_read_holding devices d' (to_slave slave_id register (length (v ∷ vs)) [] spare')
            ≡ answer d' (byte (length (v ∷ vs) * 2) ∷ uint16_to_bytes (v ∷ vs)))
  unfolding handle_write_multiple_holding handle_read_holding
  write_multiple_then_read_bank bank register byte_count v vs spare spare' found set quiet words
        size inside =
      let n = length (v ∷ vs) in
      let (r, run, got, _, _) =
        update_then_get bank.holding register v vs (omega arith) (omega arith) (omega arith) in
      let d' = set_bank d slave_id (record bank { holding = r }) in
      let low : uint16 register ≡ register = omega arith in
      let low' : uint16 n ≡ n = omega arith in
      let all : length (uint16_to_bytes (v ∷ vs)) / 2 ≡ n =
        omega (arith, length-uint16_to_bytes (v ∷ vs)) in
      (
        d',
        rw
            (
              found,
              address_and_number register n (byte_count ∷ uint16_to_bytes (v ∷ vs)) spare
                  (omega arith) (omega arith),
              value_bytes register n byte_count (uint16_to_bytes (v ∷ vs)) spare,
              all,
              bytes_to_uint16-uint16_to_bytes (v ∷ vs) words,
              low,
              run,
              call_back_quiet d' (quiet (record bank { holding = r }) refl) (v ∷ vs) register 0,
              echo register n (byte_count ∷ uint16_to_bytes (v ∷ vs)) spare,
            )
            (ground arith),
        rw
            (
              set (record bank { holding = r }) refl,
              address_and_number register n [] spare' (omega arith) (omega arith),
              low,
              low',
              got,
            )
            refl,
      )
