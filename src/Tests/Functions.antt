-- ===== src/Tests/Functions.antt =====
-- The function handlers on requests.
use virtual_bess.Prelude.{ℕ, ◌≤◌, ◌<◌, [], ◌∷◌, ◌≡◌, ◌⊎◌, refl, arith}
use virtual_bess.Prelude.Array.{Array, window}
use virtual_bess.Mbserver.Exceptions.{illegal_data_address}
use virtual_bess.Mbserver.Frame.{uint16_to_bytes, register_and_number}
use virtual_bess.Mbserver.Functions.{
  Memory, answer, refuse, read_coils, read_holding_registers, write_multiple_coils,
  write_holding_registers,
}
use virtual_bess.Mbserver.Functions.Request.{request}
use virtual_bess.Mbserver.Functions.PackBits.{bit_of}
use virtual_bess.Mbserver.Functions.WriteBits.{bits_of}
use virtual_bess.Mbserver.Functions.Coils.{
  IsBitResponse, read_coils-IsBitResponse, write_coils_then_read,
}
use virtual_bess.Mbserver.Functions.HoldingRegisters.{
  write_then_read, write_holding_registers_mismatch,
}
use virtual_bess.Mbserver.Server.{new_memory}

-- the bytes of two registers
codec_run : uint16_to_bytes (0x1234 ∷ (0xABCD ∷ [])) ≡ 0x12 ∷ (0x34 ∷ (0xAB ∷ (0xCD ∷ [])))
unfolding uint16_to_bytes
codec_run = refl

write_then_read_example :
    (m' : Memory) × (write_holding_registers new_memory
        (request 10 2 (4 ∷ uint16_to_bytes (7 ∷ (65535 ∷ []))) [])
      ≡ answer m' (register_and_number 10 2 []))
    × (read_holding_registers m' (request 10 2 [] [])
        ≡ answer m' (4 ∷ uint16_to_bytes (7 ∷ (65535 ∷ []))))
    × ((j : ℕ)
        → (j < 10) ⊎ (12 ≤ j)
        → m'.holding_registers.at j ≡ new_memory.holding_registers.at j)
write_then_read_example =
    write_then_read new_memory 10 2 (omega arith) (omega arith) (7 ∷ (65535 ∷ [])) 4 [] []
      (omega arith, (omega arith, tt)) refl (unfold new_memory in refl) (omega arith)

write_holding_registers_mismatch_example :
    (m' : Memory) × (write_holding_registers new_memory
        (request 10 2 (4 ∷ uint16_to_bytes (7 ∷ [])) [])
      ≡ refuse m' illegal_data_address)
    × (m'.holding_registers.at 10 ≡ 7)
write_holding_registers_mismatch_example =
    write_holding_registers_mismatch new_memory 10 2 (omega arith) (omega arith) 7 [] 4 []
      (omega arith, tt) (λ e. absurd (omega arith)) (unfold new_memory in refl) (omega arith)

read_coils-IsBitResponse_example :
    (d : Array) × (read_coils new_memory (request 100 10 [] [])
      ≡ answer new_memory (window d.at 0 d.size))
    × IsBitResponse new_memory.coils d 100 10
read_coils-IsBitResponse_example =
    read_coils-IsBitResponse new_memory 100 10 (omega arith) (omega arith) [] []
      (unfold new_memory in refl) (omega arith)

write_coils_then_read_example :
    (m' : Memory) × (d : Array) × (write_multiple_coils new_memory
        (request 20 10 (2 ∷ (0xCD ∷ (0x01 ∷ []))) [])
      ≡ answer m' (register_and_number 20 10 []))
    × (read_coils m' (request 20 10 [] []) ≡ answer m' (window d.at 0 d.size))
    × ((i : ℕ) → i < 10 → bit_of d i ≡ bits_of (0xCD ∷ (0x01 ∷ [])) i)
    × ((j : ℕ) → (j < 20) ⊎ (30 ≤ j) → m'.coils.at j ≡ new_memory.coils.at j)
write_coils_then_read_example =
    write_coils_then_read new_memory 20 10 (omega arith) (omega arith) (0xCD ∷ (0x01 ∷ [])) 2 [] []
      (omega arith) (omega arith) (unfold new_memory in refl) (omega arith)
