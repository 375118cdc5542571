-- ===== src/Simulator/Bank.antt =====
-- internal/simulator/bank.go: the registers of one slave.
pub mod Words
pub mod Effects
pub mod Keeps
use virtual_bess.Prelude.{
  ℕ, ◌+◌, ◌*◌, ◌^◌, List, [], ◌∷◌, Bool, true, false, Option, none, some, bit_or, replicate,
}
use virtual_bess.Prelude.Go.{Run, done, panic, ◌>>=◌, or_panic, Outcome, ok, err, crash}
use virtual_bess.Prelude.Array.{Array, zeros}
use virtual_bess.Mbserver.Exceptions.{Exception}
use virtual_bess.Mbserver.Registers.{update_uint16_data, update_uint32_data, get_data}

-- `SlaveBank`; the input area is nil for most slaves
pub record SlaveBank : Type 0 where
  pub slave_id : ℕ
  pub holding : Array
  pub input : Option Array

-- `NewSlaveBank`
unfoldable pub new_slave_bank : ℕ → Bool → SlaveBank
new_slave_bank slave_id true = record {
  slave_id = slave_id;
  holding = zeros 65536;
  input = some (zeros 65536);
}
new_slave_bank slave_id false = record { slave_id = slave_id; holding = zeros 65536; input = none }

-- A method on a nil area reads its size and panics.
abbrev pub on_input : SlaveBank → (Array → Run Array) → Run SlaveBank
on_input b f = do area ← or_panic b.input; area' ← f area; done (record b { input = some area' })

-- the first register of what `GetData` returned; an exception leaves an empty slice
abbrev pub first_word : Outcome Exception (List ℕ) → Run ℕ
first_word (ok []) = done 0
first_word (ok (d ∷ _)) = done d
first_word (err _) = done 0
first_word crash = panic

-- two registers, the high word first
abbrev pub two_words : Outcome Exception (List ℕ) → Run ℕ
two_words (ok (hi ∷ (lo ∷ []))) = done (bit_or (hi * 2 ^ 16) lo)
two_words (ok _) = done 0
two_words (err _) = done 0
two_words crash = panic

-- `WriteU16`
unfoldable pub write_u16 : SlaveBank → ℕ → ℕ → Run SlaveBank
write_u16 b addr v = do
  (r, _) ← update_uint16_data b.holding addr (v ∷ [])
  done (record b { holding = r })

-- `WriteU32`, and `WriteS32` on the 32 bits of the signed value
unfoldable pub write_u32 : SlaveBank → ℕ → ℕ → Run SlaveBank
write_u32 b addr v = do r ← update_uint32_data b.holding addr v; done (record b { holding = r })

-- a run of writes of two registers each
abbrev pub write_longs : List (ℕ × ℕ) → SlaveBank → Run SlaveBank
write_longs [] b = done b
write_longs ((addr, v) ∷ ws) b = do b' ← write_u32 b addr v; write_longs ws b'

-- `ReadU16`
unfoldable pub read_u16 : SlaveBank → ℕ → Run ℕ
read_u16 b addr = first_word (get_data b.holding addr 1)

-- `ReadU32`
unfoldable pub read_u32 : SlaveBank → ℕ → Run ℕ
read_u32 b addr = two_words (get_data b.holding addr 2)

-- `WriteInputU16`
unfoldable pub write_input_u16 : SlaveBank → ℕ → ℕ → Run SlaveBank
write_input_u16 b addr v =
    on_input b λ area. do (r, _) ← update_uint16_data area addr (v ∷ []); done r

-- `WriteInputU32`, and `WriteInputS32` on the 32 bits of the signed value
unfoldable pub write_input_u32 : SlaveBank → ℕ → ℕ → Run SlaveBank
write_input_u32 b addr v = on_input b λ area. update_uint32_data area addr v

abbrev pub from_input : Option Array → (Array → Run ℕ) → Run ℕ
from_input none f = done 0
from_input (some area) f = f area

-- `ReadInputU16`
unfoldable pub read_input_u16 : SlaveBank → ℕ → Run ℕ
read_input_u16 b addr = from_input b.input λ area. first_word (get_data area addr 1)

-- `ReadInputU32`
unfoldable pub read_input_u32 : SlaveBank → ℕ → Run ℕ
read_input_u32 b addr = from_input b.input λ area. two_words (get_data area addr 2)
