-- ===== src/Mbserver/Functions/HoldingRegisters.antt =====
-- Function codes 3, 6 and 16 on the holding registers.
use virtual_bess.Prelude.{
  ℕ, ◌+◌, ◌-◌, ◌*◌, sym, ap, ◌∙◌, ◌==◌, if◌then◌else◌, ◌≤◌, ◌<◌, List, [], ◌∷◌, ◌≡◌, ◌≢◌, ◌⊎◌, refl,
  arith, All, IsU16, byte, length,
}
use virtual_bess.Prelude.Array.{overlay, update, window, window-overlay, copied}
use virtual_bess.Mbserver.Exceptions.{illegal_data_address}
use virtual_bess.Mbserver.Frame.{uint16_to_bytes, register_and_number}
use virtual_bess.Mbserver.Functions.{
  Memory, answer, refuse, read_holding_registers, write_holding_register, write_holding_registers,
}
use virtual_bess.Mbserver.Functions.Codec.{bytes_to_uint16-uint16_to_bytes}
use virtual_bess.Mbserver.Functions.Request.{
  request, address_and_number, address_and_value, value_bytes, echo,
}

module _ (m : Memory) (register num_regs : ℕ) (hr : IsU16 register) (hn : IsU16 num_regs) where
  -- `ReadHoldingRegisters` returns the registers asked for.
  pub read_holding_registers-window :
      (rest spare : List ℕ)
      → m.holding_registers.size ≡ 65536
      → register + num_regs ≤ 65536
      → read_holding_registers m (request register num_regs rest spare)
        ≡ answer m (
            byte (num_regs * 2) ∷ uint16_to_bytes (window m.holding_registers.at register num_regs))
  unfolding read_holding_registers
  read_holding_registers-window rest spare size inside =
      rw (address_and_number register num_regs rest spare hr hn) (ground arith)

  -- What `WriteHoldingRegisters` leaves: the values at the registers, and all else as it was.
  abbrev pub with_values : List ℕ → Memory
  with_values vs = record m {
    holding_registers = record m.holding_registers {
      at = overlay m.holding_registers.at register (length vs) vs;
    };
  }

  module _ (vs : List ℕ) (byte_count : ℕ) (spare : List ℕ) (words : All IsU16 vs) where
    -- `WriteHoldingRegisters` writes the values whether or not their number is the one announced;
    -- only the reply depends on that.
    pub write_holding_registers_run :
        m.holding_registers.size ≡ 65536
        → register + length vs ≤ 65536
        → write_holding_registers m
            (request register num_regs (byte_count ∷ uint16_to_bytes vs) spare)
          ≡ (if length vs == num_regs
              then answer (with_values vs) (register_and_number register num_regs [])
              else refuse (with_values vs) illegal_data_address)
    unfolding write_holding_registers
    write_holding_registers_run size inside =
        let moved : copied m.holding_registers register vs ≡ length vs = omega arith in
        rw
          (
            address_and_number register num_regs (byte_count ∷ uint16_to_bytes vs) spare hr hn,
            value_bytes register num_regs byte_count (uint16_to_bytes vs) spare,
            bytes_to_uint16-uint16_to_bytes vs words,
            moved,
            echo register num_regs (byte_count ∷ uint16_to_bytes vs) spare,
          )
          (ground arith)

module _ (m : Memory) (register num_regs : ℕ) (hr : IsU16 register) (hn : IsU16 num_regs) where
  -- A write of several registers (function code 16), then a read of the same ones (function code 3)
  -- from the memory that the write left: the write succeeds, the read answers the values written,
  -- and every other register is as before. The area has 65536 registers, the range is inside it,
  -- and the number of values is the number announced.
  pub write_then_read :
      (vs : List ℕ) (byte_count : ℕ) (spare spare' : List ℕ)
      → All IsU16 vs
      → length vs ≡ num_regs
      → m.holding_registers.size ≡ 65536
      → register + num_regs ≤ 65536
      → (m' : Memory) × (write_holding_registers m
            (request register num_regs (byte_count ∷ uint16_to_bytes vs) spare)
          ≡ answer m' (register_and_number register num_regs []))
        × (read_holding_registers m' (request register num_regs [] spare')
            ≡ answer m' (byte (num_regs * 2) ∷ uint16_to_bytes vs))
        × ((j : ℕ)
            → (j < register) ⊎ (register + num_regs ≤ j)
            → m'.holding_registers.at j ≡ m.holding_registers.at j)
  write_then_read vs byte_count spare spare' words count size inside =
      let m' = with_values m register num_regs hr hn vs in
      let seen : window m'.holding_registers.at register num_regs ≡ vs =
        rw (sym count) (window-overlay m.holding_registers.at register (length vs) vs refl) in
      (
        m',
        write_holding_registers_run m register num_regs hr hn vs byte_count spare words size
              (omega arith)
            ∙ ground arith,
        read_holding_registers-window m' register num_regs hr hn [] spare' size inside
            ∙ ap (λ ws. answer m' (byte (num_regs * 2) ∷ uint16_to_bytes ws)) seen,
        λ j h. ground arith,
      )

  -- A write whose values are not as many as announced is refused with IllegalDataAddress, and the
  -- memory is changed all the same: the register at the address holds the first value.
  pub write_holding_registers_mismatch :
      (v : ℕ) (vs : List ℕ) (byte_count : ℕ) (spare : List ℕ)
      → All IsU16 (v ∷ vs)
      → length (v ∷ vs) ≢ num_regs
      → m.holding_registers.size ≡ 65536
      → register + length (v ∷ vs) ≤ 65536
      → (m' : Memory) × (write_holding_registers m
            (request register num_regs (byte_count ∷ uint16_to_bytes (v ∷ vs)) spare)
          ≡ refuse m' illegal_data_address)
        × (m'.holding_registers.at register ≡ v)
  write_holding_registers_mismatch v vs byte_count spare words count size inside =
      let start : register - register ≡ 0 = omega arith in
      (
        with_values m register num_regs hr hn (v ∷ vs),
        write_holding_registers_run m register num_regs hr hn (v ∷ vs) byte_count spare words size
              inside
            ∙ ground arith,
        rw start (ground arith),
      )

  -- A write of one register (function code 6), then a read of it: the write echoes the request, the
  -- read answers the value, and every other register is as before. The area has 65536 registers.
  pub write_one_then_read :
      (spare spare' : List ℕ)
      → m.holding_registers.size ≡ 65536
      → (m' : Memory) × (write_holding_register m (request register num_regs [] spare)
          ≡ answer m' (register_and_number register num_regs []))
        × (read_holding_registers m' (request register 1 [] spare')
            ≡ answer m' (2 ∷ uint16_to_bytes (num_regs ∷ [])))
        × ((j : ℕ) → j ≢ register → m'.holding_registers.at j ≡ m.holding_registers.at j)
  unfolding write_holding_register
  write_one_then_read spare spare' size =
      let m' = record m {
        holding_registers = record m.holding_registers {
          at = update m.holding_registers.at register num_regs;
        };
      } in
      (
        m',
        rw (address_and_value register num_regs [] spare hr hn, echo register num_regs [] spare)
            (ground arith),
        read_holding_registers-window m' register 1 hr (omega arith) [] spare' size (omega arith)
            ∙ ground arith,
        λ j h. ground arith,
      )
