-- ===== src/Simulator/Bank/Words.antt =====
-- What is written to a bank is what is read from it.
use virtual_bess.Prelude.{ℕ, ◌+◌, ◌*◌, ◌/◌, ◌%◌, ◌^◌, ◌<◌, [], ◌≡◌, ◌≢◌, refl, ◌∙◌, arith, IsU32}
use virtual_bess.Prelude.Bits.{or_fields}
use virtual_bess.Prelude.Go.{done}
use virtual_bess.Mbserver.Registers.Ranges.{
  get_data-branches, update_then_get, update_uint32_then_get,
}
use virtual_bess.Simulator.Bank.{SlaveBank, write_u16, write_u32, read_u16, read_u32}

module _ (b : SlaveBank) (size : b.holding.size ≡ 65536) where
  -- `ReadU16` below the last register returns the register.
  pub read_u16-at : (addr : ℕ) → addr < 65535 → read_u16 b addr ≡ done (b.holding.at addr)
  unfolding read_u16
  read_u16-at addr h =
      rw
        ((get_data-branches b.holding addr 1 (omega arith) (omega arith) (omega arith)).0
          (omega arith))
        refl

  -- `WriteU16`, then `ReadU16` on a bank with 65536 registers, below the last one: the value is read
  -- back, and every other register below the last one reads as before.
  pub write_u16_then_read :
      (addr v : ℕ)
      → addr < 65535
      → (b' : SlaveBank) × (write_u16 b addr v ≡ done b')
        × (b'.holding.size ≡ 65536)
        × (read_u16 b' addr ≡ done v)
        × ((j : ℕ) → j < 65535 → j ≢ addr → read_u16 b' j ≡ read_u16 b j)
  unfolding write_u16 read_u16
  write_u16_then_read addr v h =
      let (r, run, got, same, others) =
        update_then_get b.holding addr v [] (omega arith) (omega arith) (omega arith) in
      (
        record b { holding = r },
        rw run refl,
        same ∙ size,
        rw got refl,
        λ j below other.
            let at1 =
              (get_data-branches r j 1 (omega arith) (omega arith) (omega (arith, same))).0
                (omega (arith, same)) in
            let at2 =
              (get_data-branches b.holding j 1 (omega arith) (omega arith) (omega arith)).0
                (omega arith) in
            let e : r.at j ≡ b.holding.at j = others j (ground arith) in rw (at1, at2, e) refl,
      )

  -- `WriteU32`, then `ReadU32` on a bank with 65536 registers: the 32-bit value is read back from
  -- its two registers, if they end before the last register.
  write_u32_then_read :
      (addr v : ℕ)
      → IsU32 v
      → addr + 2 < 65536
      → (b' : SlaveBank) × (write_u32 b addr v ≡ done b') × (read_u32 b' addr ≡ done v)
  unfolding write_u32 read_u32
  write_u32_then_read addr v hv h =
      let (r, run, got, others) =
        update_uint32_then_get b.holding addr v hv (omega arith) (omega arith) (omega arith) in
      let whole : v / 65536 * 2 ^ 16 + v % 65536 ≡ v = omega arith in
      (
        record b { holding = r },
        rw run refl,
        rw (got, or_fields 16 (v / 65536) (v % 65536) (omega arith), whole) refl,
      )
