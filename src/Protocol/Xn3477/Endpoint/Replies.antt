-- ===== src/Protocol/Xn3477/Endpoint/Replies.antt =====
-- The handlers of an endpoint on requests as a client writes them.
use virtual_bess.Prelude.{
  ℕ, ◌+◌, ◌-◌, ◌*◌, ◌/◌, ◌<◌, List, [], ◌∷◌, ◌≡◌, refl, ap, ◌∙◌, arith, All, IsU16, some, uint16,
  byte, length,
}
use virtual_bess.Prelude.Array.{window, window_ext, overlay}
use virtual_bess.Mbserver.Exceptions.{is_success}
use virtual_bess.Mbserver.Frame.{View, uint16_to_bytes, register_and_number}
use virtual_bess.Mbserver.Functions.{answer}
use virtual_bess.Mbserver.Functions.Codec.{bytes_to_uint16-uint16_to_bytes, length-uint16_to_bytes}
use virtual_bess.Mbserver.Functions.Request.{request, address_and_number, value_bytes, echo}
use virtual_bess.Mbserver.Registers.Ranges.{get_data-branches}
use virtual_bess.Simulator.Bank.{SlaveBank}
use virtual_bess.Protocol.Xn3477.Endpoint.{Endpoint, handle_read, handle_write_multiple}
use virtual_bess.Protocol.Xn3477.Endpoint.Controls.{write_all-Stores}

-- a request to one slave
abbrev pub request_to : ℕ → ℕ → ℕ → List ℕ → List ℕ → View
request_to slave_id register number rest spare = record (request register number rest spare) {
  device_id = slave_id;
}

module _ {W : Type 0} (write_holding_external : W → ℕ → ℕ → ℕ → W) where
  handle_read_run :
      (ep : Endpoint W) (bank : SlaveBank) (slave_id addr count : ℕ) (spare : List ℕ)
      → ep.banks slave_id ≡ some bank
      → bank.holding.size ≡ 65536
      → IsU16 addr
      → addr + count < 65536
      → handle_read write_holding_external ep (request_to slave_id addr count [] spare)
        ≡ answer ep (byte (count * 2) ∷ uint16_to_bytes (window bank.holding.at addr count))
  unfolding handle_read
  handle_read_run ep bank slave_id addr count spare found size ha inside =
      let a : uint16 addr ≡ addr = omega arith in
      let c : uint16 count ≡ count = omega arith in
      let values =
        (get_data-branches bank.holding addr count ha (omega arith) (omega arith)).0
          (omega arith) in
      rw (found, address_and_number addr count [] spare ha (omega arith), a, c, values) refl

  -- `handleWriteMultiple` of a run of registers of a known slave, then `handleRead` of the same
  -- ones: the write echoes the request, and the read answers the values written. The bank has
  -- 65536 registers, the values are as many as announced, and the range ends before register 65536.
  pub write_multiple_then_read :
      (ep : Endpoint W) (bank : SlaveBank) (slave_id addr count : ℕ) (vs : List ℕ) (byte_count : ℕ)
      (spare spare' : List ℕ)
      → ep.banks slave_id ≡ some bank
      → bank.holding.size ≡ 65536
      → All IsU16 vs
      → length vs ≡ count
      → addr + count < 65536
      → (ep' : Endpoint W) × (handle_write_multiple write_holding_external ep
            (request_to slave_id addr count (byte_count ∷ uint16_to_bytes vs) spare)
          ≡ answer ep' (register_and_number addr count []))
        × (handle_read write_holding_external ep' (request_to slave_id addr count [] spare')
            ≡ answer ep' (byte (count * 2) ∷ uint16_to_bytes vs))
  unfolding handle_write_multiple is_success
  write_multiple_then_read ep bank slave_id addr count vs byte_count spare spare' found size words
        counted inside =
      let start : addr + 0 ≡ addr = omega arith in
      let (ep', bank', run, found', size', values) =
        write_all-Stores write_holding_external vs ep bank slave_id addr 0 found size
          (omega arith) in
      let half : length (uint16_to_bytes vs) / 2 ≡ count =
        omega (arith, length-uint16_to_bytes vs) in
      let seen : window bank'.holding.at addr count ≡ vs = window_values (rw start at values) in
      (
        ep',
        rw
            (
              address_and_number addr count (byte_count ∷ uint16_to_bytes vs) spare (omega arith)
                  (omega arith),
              value_bytes addr count byte_count (uint16_to_bytes vs) spare,
              half,
              bytes_to_uint16-uint16_to_bytes vs words,
              run,
              echo addr count (byte_count ∷ uint16_to_bytes vs) spare,
            )
            (ground arith),
        handle_read_run ep' bank' slave_id addr count spare' found' size' (omega arith) inside
            ∙ ap (λ ws. answer ep' (byte (count * 2) ∷ uint16_to_bytes ws)) seen,
      )
    where
      window_values :
          {g : ℕ → ℕ}
          → ((j : ℕ) → g j ≡ overlay bank.holding.at addr (length vs) vs j)
          → window g addr count ≡ vs
      window_values {g} p = window_ext g addr count vs counted λ i h.
          let back : addr + i - addr ≡ i = omega arith in p (addr + i) ∙ rw back (ground arith)
