-- ===== src/Mbserver/Crc/Reference.antt =====
-- The table-driven CRC against the bit-serial definition of the polynomial 0xA001.
use native.Mathlib.Nat.{pow-suc}
use virtual_bess.Prelude.{
  ℕ, zero, suc, ◌*◌, ◌/◌, ◌%◌, ◌^◌, ◌<◌, bit_xor, List, [], ◌∷◌, ◌≡◌, refl, ap, ◌∙◌, sym, arith,
  ◌==◌, if◌then◌else◌, All, IsByte, IsU16,
}
use virtual_bess.Prelude.Bits.{
  xor_half, xor_parity, xor_assoc, xor_comm, xor-zero, zero-xor, xor-lt, xor_high, xor_fields,
  and-one, and-low_byte,
}
use virtual_bess.Mbserver.Crc.{
  crc16_ibm, table_round, table_rounds, crc_table, table_index, crc_loop, crc_modbus,
}

-- One bit through the shift register.
pub shift_bit : ℕ → ℕ
shift_bit x = if x % 2 == 1 then bit_xor (x / 2) crc16_ibm else x / 2

pub shift_bits : ℕ → ℕ → ℕ
shift_bits zero x = x
shift_bits (suc n) x = shift_bits n (shift_bit x)

-- The CRC by its definition: each byte is added to the register and shifted out bit by bit.
pub serial_crc : ℕ → List ℕ → ℕ
serial_crc crc [] = crc
serial_crc crc (v ∷ rest) = serial_crc (shift_bits 8 (bit_xor crc v)) rest

xor_right_comm : (a b c : ℕ) → bit_xor (bit_xor a b) c ≡ bit_xor (bit_xor a c) b
xor_right_comm a b c = xor_assoc a b c ∙ ap (bit_xor a) (xor_comm b c) ∙ sym (xor_assoc a c b)

round-shift_bit : (crc c : ℕ) → bit_xor (table_round crc c) (c / 2) ≡ shift_bit (bit_xor crc c)
unfolding table_round shift_bit
round-shift_bit crc c =
    ground
      (arith, and-one (bit_xor crc c), xor_half crc c, xor_right_comm (crc / 2) crc16_ibm (c / 2))

rounds-shift_bits : (n crc c : ℕ) → c < 2 ^ n → table_rounds n crc c ≡ shift_bits n (bit_xor crc c)
unfolding table_rounds shift_bits
rounds-shift_bits zero crc zero h = sym (xor-zero crc)
rounds-shift_bits zero crc (suc c) h = absurd (omega arith)
rounds-shift_bits (suc n) crc c h =
    rounds-shift_bits n (table_round crc c) (c / 2) (omega (arith, pow-suc 2 n))
    ∙ ap (shift_bits n) (round-shift_bit crc c)

shift_bit-fields : (a b : ℕ) → shift_bit (bit_xor (2 * a) b) ≡ bit_xor a (shift_bit b)
unfolding shift_bit
shift_bit-fields a b =
    let half : 2 * a / 2 ≡ a = omega arith in
    ground (arith, half, xor_half (2 * a) b, xor_parity (2 * a) b, xor_assoc a (b / 2) crc16_ibm)

double_pow : (h k : ℕ) → h * 2 ^ suc k ≡ 2 * (h * 2 ^ k)
double_pow h k = omega (arith, ap (λ (t : ℕ). h * t) (pow-suc 2 k))

shift_bits-fields : (n a b : ℕ) → shift_bits n (bit_xor (a * 2 ^ n) b) ≡ bit_xor a (shift_bits n b)
unfolding shift_bits
shift_bits-fields zero a b = let e : a * 2 ^ 0 ≡ a = omega arith in rw e
shift_bits-fields (suc n) a b =
    rw (double_pow a n, shift_bit-fields (a * 2 ^ n) b) (shift_bits-fields n a (shift_bit b))

table_entry : (i : ℕ) → i < 256 → crc_table.at i ≡ shift_bits 8 i
unfolding crc_table
table_entry i h = rounds-shift_bits 8 0 i h ∙ ap (shift_bits 8) (zero-xor i)

split_word : (x : ℕ) → bit_xor (x / 256 * 2 ^ 8) (x % 256) ≡ x
split_word x = xor_fields 8 (x / 256) (x % 256) (omega arith) ∙ omega arith

table_step :
    (crc v : ℕ)
    → v < 256
    → bit_xor (crc / 256) (crc_table.at (table_index crc v)) ≡ shift_bits 8 (bit_xor crc v)
table_step crc v h =
    let x = bit_xor crc v in
    rw (and-low_byte x, table_entry (x % 256) (omega arith), ← xor_high crc v h)
      (sym (shift_bits-fields 8 (x / 256) (x % 256)) ∙ ap (shift_bits 8) (split_word x))

crc_loop-serial_crc :
    (crc : ℕ) (bytes : List ℕ) → All IsByte bytes → crc_loop crc bytes ≡ serial_crc crc bytes
unfolding crc_loop serial_crc
crc_loop-serial_crc crc [] h = refl
crc_loop-serial_crc crc (v ∷ rest) (hv, hs) =
    rw (table_step crc v hv) (crc_loop-serial_crc (shift_bits 8 (bit_xor crc v)) rest hs)

-- On every byte sequence the table-driven CRC is the bit-serial CRC with polynomial 0xA001 and
-- start value 0xffff.
pub crc_modbus-serial_crc :
    (bytes : List ℕ) → All IsByte bytes → crc_modbus bytes ≡ serial_crc 0xffff bytes
unfolding crc_modbus
crc_modbus-serial_crc bytes h = crc_loop-serial_crc 0xffff bytes h

-- `crcTable` is read inside its 256 entries, whatever the register and the byte.
pub table_index-lt : (crc v : ℕ) → table_index crc v < crc_table.size
unfolding crc_table
table_index-lt crc v = omega (arith, and-low_byte (bit_xor crc v))

shift_bit-lt : (x : ℕ) → IsU16 x → IsU16 (shift_bit x)
unfolding shift_bit
shift_bit-lt x h = ground (arith, xor-lt 16 (x / 2) crc16_ibm)

shift_bits-lt : (n x : ℕ) → IsU16 x → IsU16 (shift_bits n x)
unfolding shift_bits
shift_bits-lt zero x h = h
shift_bits-lt (suc n) x h = shift_bits-lt n (shift_bit x) (shift_bit-lt x h)

serial_crc-lt :
    (crc : ℕ) (bytes : List ℕ) → IsU16 crc → All IsByte bytes → IsU16 (serial_crc crc bytes)
unfolding serial_crc
serial_crc-lt crc [] h k = h
serial_crc-lt crc (v ∷ rest) h (hv, hs) =
    serial_crc-lt (shift_bits 8 (bit_xor crc v)) rest
      (shift_bits-lt 8 (bit_xor crc v) (xor-lt 16 crc v (omega arith) (omega arith))) hs

pub crc_modbus-IsU16 : (bytes : List ℕ) → All IsByte bytes → IsU16 (crc_modbus bytes)
crc_modbus-IsU16 bytes h =
    rw (crc_modbus-serial_crc bytes h) (serial_crc-lt 0xffff bytes (omega arith) h)
