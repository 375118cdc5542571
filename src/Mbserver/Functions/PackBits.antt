-- ===== src/Mbserver/Functions/PackBits.antt =====
-- The loop of `ReadCoils` and `ReadDiscreteInputs`: it stays inside the response, and sets the bit
-- of each value that is not 0.
use virtual_bess.Prelude.{
  ℕ, zero, suc, ◌+◌, ◌-◌, ◌*◌, ◌/◌, ◌%◌, ◌^◌, ◌≤◌, ◌<◌, List, [], ◌∷◌, bit_or, ◌≡◌, refl, true,
  ◌&&◌, not, arith, ltb, leb, ◌==◌, ==_iff, if◌then◌else◌, Bool-cases, inl, inr, length, get_or,
  byte,
}
use virtual_bess.Prelude.Go.{done}
use virtual_bess.Prelude.Array.{Array, update}
use virtual_bess.Prelude.Bits.{every_below, every_below_sound}
use virtual_bess.Mbserver.Functions.{bit_at_position, or_in, pack_bits}
use virtual_bess.Mbserver.Functions.Bits.{bit_at_position-set_bit, set_bit-lt}

-- the bit that holds value `j` of a response; byte 0 is the byte count
unfoldable pub bit_of : Array → ℕ → ℕ
bit_of d j = bit_at_position (d.at (1 + j / 8)) (j % 8)

-- `d'` is `d` with the values `vs` packed in from bit `i` on.
pub record IsPacked (d d' : Array) (i : ℕ) (vs : List ℕ) : Type 0 where
  pub same_size : d'.size ≡ d.size
  pub first : d'.at 0 ≡ d.at 0
  pub bytes : (k : ℕ) → d'.at k < 256
  pub bits :
      (j : ℕ)
      → bit_of d' j ≡ (
          if leb i j && (ltb j (i + length vs) && not (get_or vs (j - i) 0 == 0))
          then 1
          else bit_of d j)

power_table : every_below 8 (λ s. byte (2 ^ s) == 2 ^ s) ≡ true
unfolding every_below
power_table = refl

power_byte : (s : ℕ) → s < 8 → byte (2 ^ s) ≡ 2 ^ s
power_byte s h = (==_iff _ _).0 (every_below_sound 8 (λ s. byte (2 ^ s) == 2 ^ s) s power_table h)

module _ (d : Array) (i : ℕ) (b : (k : ℕ) → d.at k < 256) where
  marked : Array
  marked = record d { at = update d.at (1 + i / 8) (bit_or (d.at (1 + i / 8)) (2 ^ (i % 8))) }

  or_in-marked : 1 + i / 8 < d.size → or_in d (1 + i / 8) (byte (2 ^ (i % 8))) ≡ done marked
  unfolding or_in marked
  or_in-marked h = ground (arith, power_byte (i % 8) (omega arith))

  bytes-marked : (k : ℕ) → marked.at k < 256
  unfolding marked
  bytes-marked k = ground (arith, b k, set_bit-lt (i % 8) (d.at (1 + i / 8)), b (1 + i / 8))

  bit_of-marked : (j : ℕ) → bit_of marked j ≡ (if j == i then 1 else bit_of d j)
  unfolding marked bit_of
  bit_of-marked j = ground (
    arith,
    b (1 + i / 8),
    bit_at_position-set_bit (i % 8) (j % 8) (d.at (1 + i / 8)) (omega arith) (omega arith),
  )

get_or_behind : (v : ℕ) (vs : List ℕ) (k : ℕ) → 0 < k → get_or (v ∷ vs) k 0 ≡ get_or vs (k - 1) 0
get_or_behind v vs zero h = absurd (omega arith)
get_or_behind v vs (suc k) h = ground arith

module _ (d d1 d' : Array) (i v : ℕ) (vs : List ℕ) where
  -- One value more in front.
  IsPacked-cons :
      d1.size ≡ d.size
      → d1.at 0 ≡ d.at 0
      → ((j : ℕ) → bit_of d1 j ≡ (if j == i && not (v == 0) then 1 else bit_of d j))
      → IsPacked d1 d' (i + 1) vs
      → IsPacked d d' i (v ∷ vs)
  IsPacked-cons hs h0 hb p = record {
    same_size = omega (arith, p.same_size);
    first = omega (arith, p.first);
    bytes = p.bytes;
    bits = λ j. ground (arith, p.bits j, hb j, index j);
  }
    where
      index : (j : ℕ) → i < j → get_or (v ∷ vs) (j - i) 0 ≡ get_or vs (j - (i + 1)) 0
      index j h =
          let e : j - i - 1 ≡ j - (i + 1) = omega arith in
          rw (← e) (get_or_behind v vs (j - i) (omega arith))

-- The loop returns if the response has room, and packs all values.
pub pack_bits-IsPacked :
    (d : Array) (i : ℕ) (vs : List ℕ)
    → ((k : ℕ) → d.at k < 256)
    → i + length vs + 8 ≤ 8 * d.size
    → (d' : Array) × (pack_bits d i vs ≡ done d') × IsPacked d d' i vs
unfolding pack_bits
pack_bits-IsPacked d i [] b h =
    (d, refl, record { same_size = refl; first = refl; bytes = b; bits = λ j. ground arith })
pack_bits-IsPacked d i (v ∷ vs) b h = elim (Bool-cases (v == 0)) [
  | inl zero_value ↦
      let (d', run, p) = pack_bits-IsPacked d (i + 1) vs b (omega arith) in
      (d', rw zero_value run, IsPacked-cons d d d' i v vs refl refl (λ j. ground arith) p)
  | inr set_value ↦
      let (d', run, p) =
        pack_bits-IsPacked (marked d i b) (i + 1) vs (bytes-marked d i b)
          (unfold marked in omega arith) in
      (
        d',
        rw (set_value, or_in-marked d i b (omega arith)) run,
        IsPacked-cons d (marked d i b) d' i v vs (unfold marked in refl)
            (unfold marked in ground arith) (λ j. ground (arith, bit_of-marked d i b j)) p,
      )
]
