-- ===== src/Simulator/Registers.antt =====
-- internal/simulator/registers.go: the register map, and words of registers.
pub mod Bms
pub mod Cluster
pub mod Pcs
pub mod Pv
pub mod Sys
pub mod Meter
use virtual_bess.Prelude.{ℕ, ◌+◌, ◌*◌, ◌/◌, ◌^◌, uint16, bit_and}
use virtual_bess.Prelude.Go.{Run, ◌>>=◌}
use virtual_bess.Prelude.Array.{write}
use virtual_bess.Mbserver.Functions.{Memory}
use virtual_bess.Simulator.Registers.Cluster.{ir_cluster_stride}

-- `clusterIR`
unfoldable pub cluster_ir : ℕ → ℕ → ℕ
cluster_ir cluster_idx offset = uint16 (uint16 (cluster_idx * ir_cluster_stride) + offset)

-- `uint32ToRegs`
unfoldable pub uint32_to_regs : ℕ → ℕ × ℕ
uint32_to_regs v = (uint16 (v / 2 ^ 16), uint16 (bit_and v 0xffff))

-- `writeS32Holding`, on the 32 bits of the signed value; the address of the low word wraps
unfoldable pub write_s32_holding : Memory → ℕ → ℕ → Run Memory
write_s32_holding m high_reg u = do
  r1 ← write m.holding_registers high_reg (uint16 (u / 2 ^ 16))
  r2 ← write r1 (uint16 (high_reg + 1)) (uint16 (bit_and u 0xffff))
  Run.done (record m { holding_registers = r2 })
