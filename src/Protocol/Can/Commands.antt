-- ===== src/Protocol/Can/Commands.antt =====
-- Which command frames are recognised, and in which order of priority.
use virtual_bess.Prelude.{ℕ, ◌≤◌, List, ◌≡◌, ◌≢◌, ◌⊎◌, ◌↔◌, arith, some, length, get_or}
use virtual_bess.Protocol.Can.{decode_bms_command}

-- A frame that can carry a command.
abbrev pub IsCommand : ℕ → List ℕ → Type 0
IsCommand id bytes = (id ≡ 0x1881E8F4) × (8 ≤ length bytes)

-- The register that the marks of a frame ask for: the reset of a fault comes before closing the
-- high voltage, and that before opening it.
abbrev pub AsksFor : List ℕ → ℕ → Type 0
AsksFor bytes register =
    ((register ≡ 40000) × (get_or bytes 5 0 ≡ 0x55))
    ⊎ (((register ≡ 40001) × (get_or bytes 5 0 ≢ 0x55) × (get_or bytes 1 0 ≡ 3))
        ⊎ ((register ≡ 40002)
            × (get_or bytes 5 0 ≢ 0x55)
            × (get_or bytes 1 0 ≢ 3)
            × (get_or bytes 0 0 ≡ 1)))

-- `decodeBMSCommand` returns a register and a value exactly if the frame has the identifier of a
-- command and eight bytes, the register is the one that its marks ask for, the reset of a fault
-- first, and the value is 1.
decode_bms_command_iff :
    (id : ℕ) (bytes : List ℕ) (register value : ℕ)
    → (decode_bms_command id bytes ≡ some (register, value))
      ↔ (IsCommand id bytes × AsksFor bytes register × (value ≡ 1))
unfolding decode_bms_command
decode_bms_command_iff id bytes register value = (λ e. ground arith, λ e. ground arith)
