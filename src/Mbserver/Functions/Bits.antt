-- ===== src/Mbserver/Functions/Bits.antt =====
-- Single bits of a byte, by tables over all bytes and positions.
use virtual_bess.Prelude.{
  ℕ, ◌^◌, ◌<◌, bit_or, ◌≡◌, refl, Bool, true, ltb, ◌==◌, ==_iff, ltb→lt, if◌then◌else◌,
}
use virtual_bess.Prelude.Bits.{every_below, every_below_sound}
use virtual_bess.Mbserver.Functions.{bit_at_position}

abbrev set_bit_ok : ℕ → ℕ → ℕ → Bool
set_bit_ok s t b =
    bit_at_position (bit_or b (2 ^ s)) t == (if t == s then 1 else bit_at_position b t)

set_bit_table : every_below 8 (λ s. every_below 8 (λ t. every_below 256 (set_bit_ok s t))) ≡ true
unfolding every_below bit_at_position
set_bit_table = refl

-- `b | 1 << s` has bit `s` set and the other bits of `b`.
pub bit_at_position-set_bit :
    (s t b : ℕ)
    → s < 8
    → t < 8
    → b < 256
    → bit_at_position (bit_or b (2 ^ s)) t ≡ (if t == s then 1 else bit_at_position b t)
bit_at_position-set_bit s t b hs ht hb = (==_iff _ _).0 (
    every_below_sound 256 (set_bit_ok s t) b
      (every_below_sound 8 (λ t. every_below 256 (set_bit_ok s t)) t
        (every_below_sound 8 (λ s. every_below 8 (λ t. every_below 256 (set_bit_ok s t))) s
          set_bit_table hs)
        ht)
      hb)

byte_table : every_below 8 (λ s. every_below 256 (λ b. ltb (bit_or b (2 ^ s)) 256)) ≡ true
unfolding every_below
byte_table = refl

pub set_bit-lt : (s b : ℕ) → s < 8 → b < 256 → bit_or b (2 ^ s) < 256
set_bit-lt s b hs hb = ltb→lt _ _ (
    every_below_sound 256 (λ b. ltb (bit_or b (2 ^ s)) 256) b
      (every_below_sound 8 (λ s. every_below 256 (λ b. ltb (bit_or b (2 ^ s)) 256)) s byte_table hs)
      hb)
