-- ===== src/Mbserver/Functions/Codec.antt =====
-- `BytesToUint16` and `Uint16ToBytes`.
use virtual_bess.Prelude.{
  ℕ, ◌-◌, ◌*◌, ◌/◌, List, [], ◌∷◌, ◌≡◌, refl, arith, All, IsByte, IsU16, length,
}
use virtual_bess.Mbserver.Frame.{uint16_to_bytes}
use virtual_bess.Mbserver.Functions.{bytes_to_uint16}

-- Registers survive the way to bytes and back.
pub bytes_to_uint16-uint16_to_bytes :
    (vs : List ℕ) → All IsU16 vs → bytes_to_uint16 (uint16_to_bytes vs) ≡ vs
unfolding bytes_to_uint16 uint16_to_bytes
bytes_to_uint16-uint16_to_bytes [] h = refl
bytes_to_uint16-uint16_to_bytes (v ∷ vs) (hv, hs) =
    ground (arith, bytes_to_uint16-uint16_to_bytes vs hs)

pub length-uint16_to_bytes : (vs : List ℕ) → length (uint16_to_bytes vs) ≡ 2 * length vs
unfolding uint16_to_bytes
length-uint16_to_bytes [] = refl
length-uint16_to_bytes (v ∷ vs) = omega (arith, length-uint16_to_bytes vs)

pub length-bytes_to_uint16 : (bs : List ℕ) → length (bytes_to_uint16 bs) ≡ length bs / 2
unfolding bytes_to_uint16
length-bytes_to_uint16 [] = refl
length-bytes_to_uint16 (a ∷ []) = refl
length-bytes_to_uint16 (a ∷ (b ∷ bs)) = omega (arith, length-bytes_to_uint16 bs)

-- An even number of bytes survives the way to registers and back.
pub uint16_to_bytes-bytes_to_uint16 :
    (n : ℕ) (bs : List ℕ)
    → length bs ≡ 2 * n
    → All IsByte bs
    → uint16_to_bytes (bytes_to_uint16 bs) ≡ bs
unfolding bytes_to_uint16 uint16_to_bytes
uint16_to_bytes-bytes_to_uint16 n [] e h = refl
uint16_to_bytes-bytes_to_uint16 n (a ∷ []) e h = absurd (omega arith)
uint16_to_bytes-bytes_to_uint16 n (a ∷ (b ∷ bs)) e (ha, (hb, hs)) =
    ground (arith, uint16_to_bytes-bytes_to_uint16 (n - 1) bs (omega arith) hs)
