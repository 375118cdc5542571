-- ===== src/Mbserver/Crc.antt =====
-- internal/mbserver/crc.go: the CRC-16 of RTU frames, by a table of 256 entries.
pub mod Reference
use virtual_bess.Prelude.{ℕ, zero, suc, ◌/◌, bit_and, bit_xor, List, [], ◌∷◌, ltb, if◌then◌else◌}
use virtual_bess.Prelude.Array.{Array}

abbrev pub crc16_ibm : ℕ
crc16_ibm = 0xA001

-- one pass of the inner loop on `crc`; `c` is shifted beside it
unfoldable pub table_round : ℕ → ℕ → ℕ
table_round crc c =
    if ltb 0 (bit_and (bit_xor crc c) 1) then bit_xor (crc / 2) crc16_ibm else crc / 2

unfoldable pub table_rounds : ℕ → ℕ → ℕ → ℕ
table_rounds zero crc c = crc
table_rounds (suc j) crc c = table_rounds j (table_round crc c) (c / 2)

-- `crcInitTable`
unfoldable pub crc_table : Array
crc_table = record { size = 256; at = λ i. table_rounds 8 0 i }

abbrev pub table_index : ℕ → ℕ → ℕ
table_index crc v = bit_and (bit_xor crc v) 0xff

-- the loop of `crcModbus` over the bytes that are left
unfoldable pub crc_loop : ℕ → List ℕ → ℕ
crc_loop crc [] = crc
crc_loop crc (v ∷ rest) = crc_loop (bit_xor (crc / 256) (crc_table.at (table_index crc v))) rest

unfoldable pub crc_modbus : List ℕ → ℕ
crc_modbus = crc_loop 0xffff
