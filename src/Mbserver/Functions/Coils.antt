-- ===== src/Mbserver/Functions/Coils.antt =====
-- Function codes 1, 2 and 15 on the coils and the discrete inputs.
use virtual_bess.Prelude.{
  ℕ, ◌+◌, ◌-◌, ◌*◌, ◌/◌, ◌%◌, ◌^◌, ◌≤◌, ◌<◌, List, [], ◌∷◌, ◌≡◌, refl, ap, ◌∙◌, true, arith, IsU16,
  byte, length, get_or, ◌==◌, ==_iff, if◌then◌else◌, min, le→ltb_false, ◌⊎◌,
}
use virtual_bess.Prelude.Bits.{every_below, every_below_sound, and-one}
use virtual_bess.Prelude.Array.{Array, update, window, length-window, get_or-window}
use virtual_bess.Mbserver.Frame.{register_and_number}
use virtual_bess.Mbserver.Functions.{
  Memory, answer, data_size, bit_at_position, read_bits, read_coils, read_discrete_inputs,
  write_multiple_coils,
}
use virtual_bess.Mbserver.Functions.PackBits.{bit_of, pack_bits-IsPacked}
use virtual_bess.Mbserver.Functions.WriteBits.{
  IsOverlaid, bits_of, quota, write_coil_bytes-IsOverlaid,
}
use virtual_bess.Mbserver.Functions.Request.{request, address_and_number, value_bytes, echo}

clear_table : every_below 8 (λ t. bit_at_position 0 t == 0) ≡ true
unfolding every_below bit_at_position
clear_table = refl

clear : (t : ℕ) → t < 8 → bit_at_position 0 t ≡ 0
clear t h = (==_iff _ _).0 (every_below_sound 8 (λ t. bit_at_position 0 t == 0) t clear_table h)

-- `d` is the response that holds the `n` elements of `area` from `register` on, one bit for each.
pub record IsBitResponse (area d : Array) (register n : ℕ) : Type 0 where
  pub exact : d.size ≡ 1 + (n + 7) / 8
  pub byte_count : d.at 0 ≡ byte ((n + 7) / 8)
  pub bytes : (k : ℕ) → d.at k < 256
  pub bits : (i : ℕ) → i < n → bit_of d i ≡ (if area.at (register + i) == 0 then 0 else 1)

module _ (area : Array) (m : Memory) (register n : ℕ) (hr : IsU16 register) (hn : IsU16 n) where
  abbrev first : Array
  first = record { size = 1 + data_size n; at = update (λ _. 0) 0 (byte (data_size n)) }

  bytes_first : (k : ℕ) → first.at k < 256
  bytes_first k = ground arith

  bit_of-first : (j : ℕ) → bit_of first j ≡ 0
  unfolding bit_of
  bit_of-first j = ground (arith, clear (j % 8) (omega arith))

  pub read_bits_run :
      (rest spare : List ℕ)
      → area.size ≡ 65536
      → register + n ≤ 65535
      → (d : Array) × (read_bits area m (request register n rest spare)
          ≡ answer m (window d.at 0 d.size))
        × IsBitResponse area d register n
  unfolding read_bits
  read_bits_run rest spare size inside =
      let values = window area.at register n in
      let count = length-window area.at register n in
      let (d, run, p) = pack_bits-IsPacked first 0 values bytes_first (ground arith) in
      let span : register + n - register ≡ n = omega arith in
      (
        d,
        rw (address_and_number register n rest spare hr hn, span) (ground (arith, run)),
        record {
          exact = ground (arith, p.same_size);
          byte_count = ground (arith, p.first);
          bytes = p.bytes;
          bits = λ i h.
              ground (arith, p.bits i, bit_of-first i, get_or-window area.at register n i 0 h);
        },
      )

  pub write_multiple_coils_run :
      (bytes : List ℕ) (count : ℕ) (spare : List ℕ) (k : ℕ)
      → k ≡ min (8 * length bytes) (quota 0 n)
      → m.coils.size ≡ 65536
      → register + n ≤ 65536
      → register + k ≤ 65536
      → (c : Array) × (write_multiple_coils m (request register n (count ∷ bytes) spare)
          ≡ answer (record m { coils = c }) (register_and_number register n []))
        × IsOverlaid m.coils c register k (bits_of bytes)
  unfolding write_multiple_coils
  write_multiple_coils_run bytes count spare k e size inside fits =
      let start : register + 0 * 8 ≡ register = omega arith in
      let (c, run, p) =
        write_coil_bytes-IsOverlaid bytes m.coils register 0 0 n k e (omega arith) in
      (
        c,
        rw
            (
              address_and_number register n (count ∷ bytes) spare hr hn,
              value_bytes register n count bytes spare,
              echo register n (count ∷ bytes) spare,
              le→ltb_false 65536 (register + n) inside,
              run,
            )
            refl,
        rw start at p,
      )

bits_of-lt : (bytes : List ℕ) (i : ℕ) → bits_of bytes i < 2
unfolding bits_of bit_at_position
bits_of-lt bytes i = omega (arith, and-one (get_or bytes (i / 8) 0 / 2 ^ (i % 8)))

module _ (m : Memory) (register n : ℕ) (hr : IsU16 register) (hn : IsU16 n) where
  -- `ReadCoils` answers the coils asked for, packed, and changes nothing: the area has 65536 coils
  -- and the range ends before the last one.
  pub read_coils-IsBitResponse :
      (rest spare : List ℕ)
      → m.coils.size ≡ 65536
      → register + n ≤ 65535
      → (d : Array) × (read_coils m (request register n rest spare)
          ≡ answer m (window d.at 0 d.size))
        × IsBitResponse m.coils d register n
  unfolding read_coils
  read_coils-IsBitResponse rest spare size inside =
      read_bits_run m.coils m register n hr hn rest spare size inside

  -- `ReadDiscreteInputs` answers the discrete inputs asked for, packed, and changes nothing: the
  -- area has 65536 of them and the range ends before the last one.
  pub read_discrete_inputs-IsBitResponse :
      (rest spare : List ℕ)
      → m.discrete_inputs.size ≡ 65536
      → register + n ≤ 65535
      → (d : Array) × (read_discrete_inputs m (request register n rest spare)
          ≡ answer m (window d.at 0 d.size))
        × IsBitResponse m.discrete_inputs d register n
  unfolding read_discrete_inputs
  read_discrete_inputs-IsBitResponse rest spare size inside =
      read_bits_run m.discrete_inputs m register n hr hn rest spare size inside

  -- `WriteMultipleCoils` with enough bytes for at least one coil, then `ReadCoils` of the same
  -- coils: the write echoes the request, the bits read are the bits written, and every other coil
  -- is as before. The area has 65536 coils and the range ends before the last one.
  pub write_coils_then_read :
      (bytes : List ℕ) (count : ℕ) (spare spare' : List ℕ)
      → 1 ≤ n
      → n ≤ 8 * length bytes
      → m.coils.size ≡ 65536
      → register + n ≤ 65535
      → (m' : Memory) × (d : Array) × (write_multiple_coils m
            (request register n (count ∷ bytes) spare)
          ≡ answer m' (register_and_number register n []))
        × (read_coils m' (request register n [] spare') ≡ answer m' (window d.at 0 d.size))
        × ((i : ℕ) → i < n → bit_of d i ≡ bits_of bytes i)
        × ((j : ℕ) → (j < register) ⊎ (register + n ≤ j) → m'.coils.at j ≡ m.coils.at j)
  write_coils_then_read bytes count spare spare' some_coil enough size inside =
      let (c, written, p) =
        write_multiple_coils_run m.coils m register n hr hn bytes count spare n (omega arith) size
          (omega arith) (omega arith) in
      let m' = record m { coils = c } in
      let (d, answered, q) =
        read_bits_run c m' register n hr hn [] spare' (omega (arith, p.same_size)) inside in
      (
        m',
        d,
        written,
        unfold read_coils in answered,
        λ i h.
            let back : register + i - register ≡ i = omega arith in
            ground (arith, q.bits i h, p.elements (register + i), bits_of-lt bytes i, back),
        λ j h. ground (arith, p.elements j),
      )

  -- A write of no coils at all that carries a byte of data still writes the first coil.
  write_no_coils :
      (b count : ℕ) (bytes spare : List ℕ)
      → n ≡ 0
      → m.coils.size ≡ 65536
      → (m' : Memory) × (write_multiple_coils m (request register n (count ∷ (b ∷ bytes)) spare)
          ≡ answer m' (register_and_number register n []))
        × (m'.coils.at register ≡ bits_of (b ∷ bytes) 0)
  write_no_coils b count bytes spare none size =
      let (c, written, p) =
        write_multiple_coils_run m.coils m register n hr hn (b ∷ bytes) count spare 1 (omega arith)
          size (omega arith) (omega arith) in
      let back : register - register ≡ 0 = omega arith in
      let v : c.at register ≡ bits_of (b ∷ bytes) (register - register) =
        ground (arith, p.elements register) in
      (record m { coils = c }, written, v ∙ ap (λ t. bits_of (b ∷ bytes) t) back)
