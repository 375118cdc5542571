-- ===== src/Protocol/Xn3477/Endpoint.antt =====
-- internal/protocol/xn3477/service.go: the function handlers of one endpoint. The writes that it
-- forwards to the simulator are an operation of the section.
pub mod Controls
pub mod Replies
use virtual_bess.Prelude.{
  ℕ, zero, suc, ◌+◌, ◌*◌, ◌/◌, List, [], ◌∷◌, Bool, true, false, Option, none, some, uint16, byte,
  ◌==◌, ◌&&◌, not, if◌then◌else◌, length,
}
use virtual_bess.Prelude.Go.{Run, done, panic, ◌>>=◌, Outcome, ok, err, crash, from, upto}
use virtual_bess.Mbserver.Exceptions.{
  Exception, success, illegal_function, illegal_data_address,
  gateway_target_device_failedto_respond, is_success,
}
use virtual_bess.Mbserver.Frame.{
  View, register_address_and_number, register_address_and_value, uint16_to_bytes,
}
use virtual_bess.Mbserver.Functions.{Reply, Handler, answer, refuse, bytes_to_uint16}
use virtual_bess.Mbserver.Registers.{update_uint16_data, get_data}
use virtual_bess.Mbserver.Server.{Table, register_function_handler}
use virtual_bess.Simulator.Bank.{SlaveBank}
use virtual_bess.Simulator.Registers.Bms.{reg_bms_fault_reset, reg_bms_close_hv, reg_bms_open_hv}
use virtual_bess.Protocol.Xn3477.BauRegisters.{xn_bau_hv_control, xn_bau_fault_reset}
use virtual_bess.Protocol.Xn3477.BcuRegisters.{xn_bcu_fault_reset}

-- The parts of `endpoint` that the handlers use: the banks by slave id, the slave id of the BAU and
-- of the BMS, and the simulator.
pub record Endpoint (W : Type 0) : Type 0 where
  pub banks : ℕ → Option SlaveBank
  pub bau_slave_id : ℕ
  pub bms_slave_id : ℕ
  pub sim : W

module _ {W : Type 0} (write_holding_external : W → ℕ → ℕ → ℕ → W) where
  -- `banks[id] = bank`
  abbrev pub set_bank : ℕ → SlaveBank → Endpoint W → Endpoint W
  set_bank id bank ep = record ep {
    banks = λ other. if other == id then some bank else ep.banks other;
  }

  -- a write of 1 to a register of the BMS; its error is dropped
  abbrev pub forward : Endpoint W → ℕ → Endpoint W
  forward ep register = record ep { sim = write_holding_external ep.sim ep.bms_slave_id register 1 }

  -- `forwardBAUControl`
  unfoldable pub forward_bau_control : Endpoint W → ℕ → ℕ → Endpoint W
  forward_bau_control ep addr value =
      if addr == xn_bau_fault_reset && (value == 1)
      then forward ep reg_bms_fault_reset
      else if addr == xn_bau_hv_control && (value == 1)
      then forward ep reg_bms_close_hv
      else if addr == xn_bau_hv_control && (value == 2)
      then forward ep reg_bms_open_hv
      else ep

  -- the end of `write`, behind the store
  unfoldable pub forward_write : Endpoint W → ℕ → ℕ → ℕ → Endpoint W
  forward_write ep slave_id addr value =
      if slave_id == ep.bau_slave_id
      then forward_bau_control ep addr value
      else if addr == xn_bcu_fault_reset && (value == 1)
      then forward ep reg_bms_fault_reset
      else ep

  abbrev pub write_bank : Option SlaveBank → Endpoint W → ℕ → ℕ → ℕ → Run (Endpoint W × Exception)
  write_bank none ep slave_id addr value = done (ep, gateway_target_device_failedto_respond)
  write_bank (some bank) ep slave_id addr value = do
    (r, n) ← update_uint16_data bank.holding addr (value ∷ [])
    let ep' = set_bank slave_id (record bank { holding = r }) ep
    if n == 1
        then done (forward_write ep' slave_id addr value, success)
        else done (ep', illegal_data_address)

  -- `write`
  unfoldable pub write : Endpoint W → ℕ → ℕ → ℕ → Run (Endpoint W × Exception)
  write ep slave_id addr value = write_bank (ep.banks slave_id) ep slave_id addr value

  -- the loop of `handleWriteMultiple`, from the value with index `i` on
  unfoldable pub write_all : List ℕ → Endpoint W → ℕ → ℕ → ℕ → Run (Endpoint W × Exception)
  write_all [] ep slave_id addr i = done (ep, success)
  write_all (value ∷ rest) ep slave_id addr i = do
    (ep', exception) ← write ep slave_id (uint16 (addr + i)) value
    let more = write_all rest ep' slave_id addr (i + 1)
    if not (is_success exception) then done (ep', exception) else more

  -- the reply of a write: the echo of the request, or the exception
  abbrev pub reply_write : View → Run (Endpoint W × Exception) → Run (Reply (Endpoint W))
  reply_write v run = do
    (ep, exception) ← run
    if not (is_success exception)
        then refuse ep exception
        else (do echo ← upto v.body 4; answer ep echo)

  -- `illegalFunction`
  unfoldable pub illegal_function_handler : Handler (Endpoint W)
  illegal_function_handler ep v = refuse ep illegal_function

  abbrev pub read_reply : Endpoint W → ℕ → Outcome Exception (List ℕ) → Run (Reply (Endpoint W))
  read_reply ep count (ok values) = answer ep (byte (count * 2) ∷ uint16_to_bytes values)
  read_reply ep count (err e) = refuse ep e
  read_reply ep count crash = panic

  abbrev pub read_bank : Option SlaveBank → Handler (Endpoint W)
  read_bank none ep v = refuse ep gateway_target_device_failedto_respond
  read_bank (some bank) ep v = do
    (addr, count, _) ← register_address_and_number v.body
    read_reply ep count (get_data bank.holding (uint16 addr) (uint16 count))

  -- `handleRead`
  unfoldable pub handle_read : Handler (Endpoint W)
  handle_read ep v = read_bank (ep.banks v.device_id) ep v

  -- `handleWriteSingle`
  unfoldable pub handle_write_single : Handler (Endpoint W)
  handle_write_single ep v = do
    (addr, value) ← register_address_and_value v.body
    reply_write v (write ep v.device_id (uint16 addr) value)

  -- `handleWriteMultiple`
  unfoldable pub handle_write_multiple : Handler (Endpoint W)
  handle_write_multiple ep v = do
    (addr, count, _) ← register_address_and_number v.body
    value_bytes ← from v.body 5
    if not (length value_bytes / 2 == count)
        then refuse ep illegal_data_address
        else reply_write v (write_all (bytes_to_uint16 value_bytes) ep v.device_id addr 0)

  -- the handlers that `newEndpoint` registers
  unfoldable pub endpoint_handlers : Table (Endpoint W) → Table (Endpoint W)
  endpoint_handlers table = register_function_handler 16 handle_write_multiple (
      register_function_handler 15 illegal_function_handler (
        register_function_handler 6 handle_write_single (
          register_function_handler 5 illegal_function_handler (
            register_function_handler 4 handle_read (
              register_function_handler 3 handle_read (
                register_function_handler 2 illegal_function_handler
                  (register_function_handler 1 illegal_function_handler table)))))))
