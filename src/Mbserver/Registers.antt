-- ===== src/Mbserver/Registers.antt =====
-- internal/mbserver/registers.go: a register area with range checks. The range checks add in uint16.
-- The mutex serves one caller at a time, so each operation is one step.
pub mod Ranges
use virtual_bess.Prelude.{
  ℕ, ◌+◌, ◌-◌, ◌/◌, ◌^◌, List, [], ◌∷◌, uint16, ltb, leb, ◌==◌, ◌&&◌, if◌then◌else◌, length,
  bit_and, get_or,
}
use virtual_bess.Prelude.Go.{Run, done, panic, ◌>>=◌, Outcome, ok, err, after}
use virtual_bess.Prelude.Array.{Array, read, write, section, copy, copied, window}
use virtual_bess.Mbserver.Exceptions.{Exception, illegal_data_address}

-- `NewRegisters`; the slice becomes the area
unfoldable pub new_registers : List ℕ → Run Array
new_registers values =
    if ltb 65536 (length values)
    then panic
    else done (record { size = length values; at = λ i. get_or values i 0 })

-- `UpdateUint16Data`, with the number of the registers written
unfoldable pub update_uint16_data : Array → ℕ → List ℕ → Run (Array × ℕ)
update_uint16_data r addr values =
    if length values == 0
    then done (r, 0)
    else if ltb r.size (uint16 (addr + uint16 (length values)))
    then done (r, 0)
    else do r' ← copy r addr values; done (r', copied r addr values)

-- `UpdateUint32Data`
unfoldable pub update_uint32_data : Array → ℕ → ℕ → Run Array
update_uint32_data r addr v = if ltb r.size (uint16 (addr + 1)) then done r else do
  r1 ← write r addr (uint16 (v / 2 ^ 16))
  write r1 (uint16 (addr + 1)) (uint16 (bit_and v 0xffff))

-- `GetData`; `copy` into a new slice of `cnt` elements, as many as the section has
unfoldable pub get_data : Array → ℕ → ℕ → Outcome Exception (List ℕ)
get_data r addr cnt =
    if ltb r.size (uint16 (addr + cnt))
    then err illegal_data_address
    else after (section r addr (uint16 (addr + cnt))) ok
