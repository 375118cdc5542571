-- ===== src/Simulator/Core.antt =====
-- internal/simulator/simulator.go: how reads and writes of registers reach the devices. The devices
-- are an interface: the banks by slave id, which the units share, and the write callbacks.
pub mod Writes
pub mod Units
pub mod Many
pub mod Parts
use virtual_bess.Prelude.{
  ℕ, ◌+◌, ◌*◌, ◌/◌, List, [], ◌∷◌, Bool, true, false, Option, none, some, uint16, byte, ◌==◌, not,
  if◌then◌else◌, length,
}
use virtual_bess.Prelude.Go.{Run, done, panic, ◌>>=◌, Outcome, ok, err, crash, from, upto}
use virtual_bess.Mbserver.Exceptions.{
  Exception, illegal_data_address, gateway_target_device_failedto_respond,
}
use virtual_bess.Mbserver.Frame.{
  View, register_address_and_number, register_address_and_value, uint16_to_bytes,
}
use virtual_bess.Mbserver.Functions.{Reply, Handler, answer, refuse, bytes_to_uint16}
use virtual_bess.Mbserver.Registers.{update_uint16_data, get_data}
use virtual_bess.Mbserver.Server.{Table, register_function_handler}
use virtual_bess.Prelude.Array.{Array}
use virtual_bess.Simulator.Bank.{SlaveBank}

-- `sim.banks`, the store through the shared pointer to a bank, and `sim.writeHandlers`: a slave
-- without a handler has one that does nothing.
pub record Devices (D : Type 0) : Type 0 where
  pub bank_of : D → ℕ → Option SlaveBank
  pub set_bank : D → ℕ → SlaveBank → D
  pub on_write : D → ℕ → ℕ → ℕ → Run D

-- `errUnknownSlaveID`
pub data WriteError : Type 0 where
  unknown_slave_id : ℕ → WriteError

module _ {D : Type 0} (devices : Devices D) where
  open devices use {bank_of, set_bank, on_write}

  abbrev pub store : D → ℕ → SlaveBank → ℕ → ℕ → Run D
  store d slave_id bank register value = do
    (r, _) ← update_uint16_data bank.holding register (value ∷ [])
    on_write (set_bank d slave_id (record bank { holding = r })) slave_id register value

  abbrev pub write_to : Option SlaveBank → D → ℕ → ℕ → ℕ → Run (D × Option WriteError)
  write_to none d slave_id register value = done (d, some (unknown_slave_id slave_id))
  write_to (some bank) d slave_id register value = do
    d' ← store d slave_id bank register value
    done (d', none)

  -- `writeHolding`, which `WriteHolding` and `WriteHoldingExternal` call
  unfoldable pub write_holding : D → ℕ → ℕ → ℕ → Run (D × Option WriteError)
  write_holding d slave_id register value = write_to (bank_of d slave_id) d slave_id register value

  abbrev pub reply_data : D → ℕ → Outcome Exception (List ℕ) → Run (Reply D)
  reply_data d num (ok values) = answer d (byte (num * 2) ∷ uint16_to_bytes values)
  reply_data d num (err e) = refuse d e
  reply_data d num crash = panic

  abbrev pub read_holding : Option SlaveBank → Handler D
  read_holding none d v = refuse d gateway_target_device_failedto_respond
  read_holding (some bank) d v = do
    (addr, num, _) ← register_address_and_number v.body
    reply_data d num (get_data bank.holding (uint16 addr) (uint16 num))

  -- `handleReadHolding`
  unfoldable pub handle_read_holding : Handler D
  handle_read_holding d v = read_holding (bank_of d v.device_id) d v

  -- the input area of a bank, nil for a slave without one
  abbrev pub input_of : Option SlaveBank → Option Array
  input_of none = none
  input_of (some bank) = bank.input

  abbrev pub read_input : Option Array → Handler D
  read_input none d v = refuse d gateway_target_device_failedto_respond
  read_input (some area) d v = do
    (addr, num, _) ← register_address_and_number v.body
    reply_data d num (get_data area (uint16 addr) (uint16 num))

  -- `handleReadInput`
  unfoldable pub handle_read_input : Handler D
  handle_read_input d v = read_input (input_of (bank_of d v.device_id)) d v

  abbrev pub write_single : Option SlaveBank → Handler D
  write_single none d v = refuse d gateway_target_device_failedto_respond
  write_single (some bank) d v = do
    (register, value) ← register_address_and_value v.body
    d' ← store d v.device_id bank (uint16 register) value
    echo ← upto v.body 4
    answer d' echo

  -- `handleWriteSingleHolding`
  unfoldable pub handle_write_single_holding : Handler D
  handle_write_single_holding d v = write_single (bank_of d v.device_id) d v

  -- the callbacks of `handleWriteMultipleHolding`, from the value with index `i` on
  unfoldable pub call_back : List ℕ → D → ℕ → ℕ → ℕ → Run D
  call_back [] d slave_id register i = done d
  call_back (value ∷ rest) d slave_id register i = do
    d' ← on_write d slave_id (uint16 (register + i)) value
    call_back rest d' slave_id register (i + 1)

  abbrev pub write_multiple : Option SlaveBank → Handler D
  write_multiple none d v = refuse d gateway_target_device_failedto_respond
  write_multiple (some bank) d v = do
    (register, num_regs, _) ← register_address_and_number v.body
    value_bytes ← from v.body 5
    if not (length value_bytes / 2 == num_regs) then refuse d illegal_data_address else do
      (r, updated) ← update_uint16_data bank.holding (uint16 register) (bytes_to_uint16 value_bytes)
      let stored = set_bank d v.device_id (record bank { holding = r })
      if not (updated == num_regs) then refuse stored illegal_data_address else do
        d' ← call_back (bytes_to_uint16 value_bytes) stored v.device_id register 0
        echo ← upto v.body 4
        answer d' echo

  -- `handleWriteMultipleHolding`
  unfoldable pub handle_write_multiple_holding : Handler D
  handle_write_multiple_holding d v = write_multiple (bank_of d v.device_id) d v

  -- the handlers that `NewSimulator` registers
  unfoldable pub simulator_handlers : Table D → Table D
  simulator_handlers table = register_function_handler 16 handle_write_multiple_holding (
      register_function_handler 6 handle_write_single_holding (
        register_function_handler 4 handle_read_input
          (register_function_handler 3 handle_read_holding table)))
