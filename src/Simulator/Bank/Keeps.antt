-- ===== src/Simulator/Bank/Keeps.antt =====
-- Writes from a register upwards keep the registers below it.
use virtual_bess.Prelude.{
  ℕ, ◌+◌, ◌/◌, ◌^◌, uint16, bit_and, ◌<◌, ◌≤◌, ◌≡◌, refl, ◌∙◌, arith, List, [], ◌∷◌, All,
}
use virtual_bess.Prelude.Array.{Array, update}
use virtual_bess.Prelude.Hoare.{Ensures, Ensures-done, Ensures-bind, Ensures-weaken}
use virtual_bess.Mbserver.Registers.{update_uint32_data}
use virtual_bess.Simulator.Bank.{SlaveBank, write_u16, write_u32, write_longs}
use virtual_bess.Simulator.Bank.Effects.{IsSized, put, write_u16-put, write_words}

-- 65536 registers, those below `k` as they were, and the slave id as it was
pub record Keeps (k : ℕ) (b : SlaveBank) (b' : SlaveBank) : Type 0 where
  pub sized : IsSized b'
  pub below : (j : ℕ) → j < k → b'.holding.at j ≡ b.holding.at j
  pub same_slave : b'.slave_id ≡ b.slave_id

pub Keeps-refl : (k : ℕ) (b : SlaveBank) → IsSized b → Keeps k b b
Keeps-refl k b size = record { sized = size; below = λ j h. refl; same_slave = refl }

pub Keeps-trans : {k : ℕ} {b b1 b2 : SlaveBank} → Keeps k b b1 → Keeps k b1 b2 → Keeps k b b2
Keeps-trans p q = record {
  sized = q.sized;
  below = λ j h. q.below j h ∙ p.below j h;
  same_slave = q.same_slave ∙ p.same_slave;
}

-- a register from `k` on, with one behind it for the wide writes
abbrev pub IsWordFrom : ℕ → ℕ × ℕ → Type 0
IsWordFrom k w = (k ≤ w.0) × (w.0 < 65536)

abbrev pub IsLongFrom : ℕ → ℕ × ℕ → Type 0
IsLongFrom k w = (k ≤ w.0) × (w.0 < 65535)

pub write_u16-Keeps :
    (k : ℕ) (b : SlaveBank) (addr v : ℕ)
    → IsSized b
    → k ≤ addr
    → addr < 65536
    → Ensures (Keeps k b) (write_u16 b addr v)
write_u16-Keeps k b addr v size low high = (
  put b addr v,
  write_u16-put b addr v size high,
  record { sized = size; below = λ j h. ground (arith, low, h); same_slave = refl },
)

pub write_u32-Keeps :
    (k : ℕ) (b : SlaveBank) (addr v : ℕ)
    → IsSized b
    → k ≤ addr
    → addr < 65535
    → Ensures (Keeps k b) (write_u32 b addr v)
unfolding write_u32 update_uint32_data
write_u32-Keeps k b addr v size low high =
    let r1 : Array = record b.holding { at = update b.holding.at addr (uint16 (v / 2 ^ 16)) } in
    let r2 : Array = record r1 {
      at = update r1.at (uint16 (addr + 1)) (uint16 (bit_and v 0xffff));
    } in
    (
      record b { holding = r2 },
      ground arith,
      record { sized = size; below = λ j h. ground (arith, low, high, h); same_slave = refl },
    )

pub write_words-Keeps :
    (k : ℕ) (ws : List (ℕ × ℕ)) (b : SlaveBank)
    → IsSized b
    → All (IsWordFrom k) ws
    → Ensures (Keeps k b) (write_words ws b)
write_words-Keeps k [] b size h = Ensures-done b (Keeps-refl k b size)
write_words-Keeps k ((addr, v) ∷ ws) b size ((low, high), hs) =
    Ensures-bind _ (write_u16-Keeps k b addr v size low high)
      λ b1 p. Ensures-weaken (write_words-Keeps k ws b1 p.sized hs) λ b2 q. Keeps-trans p q

pub write_longs-Keeps :
    (k : ℕ) (ws : List (ℕ × ℕ)) (b : SlaveBank)
    → IsSized b
    → All (IsLongFrom k) ws
    → Ensures (Keeps k b) (write_longs ws b)
write_longs-Keeps k [] b size h = Ensures-done b (Keeps-refl k b size)
write_longs-Keeps k ((addr, v) ∷ ws) b size ((low, high), hs) =
    Ensures-bind _ (write_u32-Keeps k b addr v size low high)
      λ b1 p. Ensures-weaken (write_longs-Keeps k ws b1 p.sized hs) λ b2 q. Keeps-trans p q
