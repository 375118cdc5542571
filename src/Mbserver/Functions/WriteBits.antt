-- ===== src/Mbserver/Functions/WriteBits.antt =====
-- The two loops of `WriteMultipleCoils`: which coils they write, and with what.
use Prim.Native.Nat.{max}
use virtual_bess.Prelude.{
  ℕ, zero, suc, ◌+◌, ◌-◌, ◌*◌, ◌/◌, ◌%◌, ◌≤◌, ◌<◌, List, [], ◌∷◌, ◌≡◌, refl, ap, ◌∙◌, ◌&&◌, arith,
  ltb, leb, if◌then◌else◌, length, get_or, min,
}
use native.Mathlib.Decide.{dec_le}
use virtual_bess.Prelude.Go.{done}
use virtual_bess.Prelude.Array.{Array, update}
use virtual_bess.Mbserver.Functions.{bit_at_position, write_bits, write_coil_bytes}

-- `c'` is `c` with `n` elements from `lo` on replaced by the values of `f`.
pub record IsOverlaid (c c' : Array) (lo n : ℕ) (f : ℕ → ℕ) : Type 0 where
  pub same_size : c'.size ≡ c.size
  pub elements : (j : ℕ) → c'.at j ≡ (if leb lo j && ltb j (lo + n) then f (j - lo) else c.at j)

IsOverlaid-none : (c : Array) (lo : ℕ) (f : ℕ → ℕ) → IsOverlaid c c lo 0 f
IsOverlaid-none c lo f = record { same_size = refl; elements = λ j. ground arith }

IsOverlaid-join :
    (c c1 c' : Array) (lo n m : ℕ) (f g h : ℕ → ℕ)
    → ((k : ℕ) → k < n → h k ≡ f k)
    → ((k : ℕ) → h (n + k) ≡ g k)
    → IsOverlaid c c1 lo n f
    → IsOverlaid c1 c' (lo + n) m g
    → IsOverlaid c c' lo (n + m) h
IsOverlaid-join c c1 c' lo n m f g h hf hg p q = record {
  same_size = omega (arith, p.same_size, q.same_size);
  elements = λ j. ground (arith, p.elements j, q.elements j, hf (j - lo), behind j);
}
  where
    behind : (j : ℕ) → lo + n ≤ j → h (j - lo) ≡ g (j - (lo + n))
    behind j k = let e : n + (j - (lo + n)) ≡ j - lo = omega arith in rw (← e) (hg (j - (lo + n)))

IsOverlaid-cong :
    (c c' : Array) (lo n : ℕ) (f g : ℕ → ℕ)
    → ((k : ℕ) → k < n → g k ≡ f k)
    → IsOverlaid c c' lo n f
    → IsOverlaid c c' lo n g
IsOverlaid-cong c c' lo n f g same p = record {
  same_size = p.same_size;
  elements = λ j. ground (arith, p.elements j, same (j - lo));
}

-- `bitCount` before a write and the count asked for: how many bits are still written, at least one
abbrev pub quota : ℕ → ℕ → ℕ
quota bit_count num_regs = max 1 (num_regs - bit_count)

module _ (c : Array) (lo : ℕ) (f : ℕ → ℕ) where
  abbrev after_one : Array
  after_one = record c { at = update c.at lo (f 0) }

  IsOverlaid-one : IsOverlaid c after_one lo 1 f
  IsOverlaid-one = record { same_size = refl; elements = λ j. ground (arith, index j) }
    where
      index : (j : ℕ) → j ≡ lo → f (j - lo) ≡ f 0
      index j e = let z : j - lo ≡ 0 = omega arith in rw z

-- the bits of one byte from position `pos` on
abbrev byte_bits : ℕ → ℕ → ℕ → ℕ
byte_bits value pos k = bit_at_position value (pos + k)

byte_bits_next : (value pos k : ℕ) → byte_bits value pos (1 + k) ≡ byte_bits value (pos + 1) k
byte_bits_next value pos k = let e : pos + (1 + k) ≡ pos + 1 + k = omega arith in rw e

-- One round of the inner loop.
module _ (left : ℕ) (c : Array) (base value pos bit_count num_regs : ℕ)
    (h : base + pos < c.size) where
  abbrev one_more : Array
  one_more = after_one c (base + pos) (byte_bits value pos)

  write_bits_last :
      num_regs ≤ bit_count + 1
      → write_bits (suc left) c base value pos bit_count num_regs ≡ done (one_more, bit_count + 1)
  unfolding write_bits
  write_bits_last k = let start : pos + 0 ≡ pos = omega arith in ground (arith, start)

  write_bits_more :
      bit_count + 1 < num_regs
      → write_bits (suc left) c base value pos bit_count num_regs
        ≡ write_bits left one_more base value (pos + 1) (bit_count + 1) num_regs
  unfolding write_bits
  write_bits_more k = let start : pos + 0 ≡ pos = omega arith in ground (arith, start)

-- What the inner loop does from `c`, in `n` writes.
abbrev Writes : ℕ → Array → ℕ → ℕ → ℕ → ℕ → ℕ → ℕ → Type 0
Writes left c base value pos bit_count num_regs n =
    (c' : Array) × (write_bits left c base value pos bit_count num_regs ≡ done (c', bit_count + n))
    × IsOverlaid c c' (base + pos) n (byte_bits value pos)

Writes-one :
    (left : ℕ) (c : Array) (base value pos bit_count num_regs : ℕ)
    → base + pos < c.size
    → num_regs ≤ bit_count + 1
    → Writes (suc left) c base value pos bit_count num_regs 1
Writes-one left c base value pos bit_count num_regs h k = (
  after_one c (base + pos) (byte_bits value pos),
  write_bits_last left c base value pos bit_count num_regs h k,
  IsOverlaid-one c (base + pos) (byte_bits value pos),
)

Writes-suc :
    (left : ℕ) (c : Array) (base value pos bit_count num_regs n : ℕ)
    → base + pos < c.size
    → bit_count + 1 < num_regs
    → Writes left
        (after_one c (base + pos) (byte_bits value pos))
        base
        value
        (pos + 1)
        (bit_count + 1)
        num_regs
        n
    → Writes (suc left) c base value pos bit_count num_regs (1 + n)
Writes-suc left c base value pos bit_count num_regs n h k (c', run, p) =
    let lo : base + (pos + 1) ≡ base + pos + 1 = omega arith in
    let total : bit_count + 1 + n ≡ bit_count + (1 + n) = omega arith in
    let c1 = after_one c (base + pos) (byte_bits value pos) in
    (
      c',
      write_bits_more left c base value pos bit_count num_regs h k
          ∙ run
          ∙ ap (λ (t : ℕ). done (c', t)) total,
      IsOverlaid-join c c1 c' (base + pos) 1 n (byte_bits value pos) (byte_bits value (pos + 1))
          (byte_bits value pos) (λ j _. refl) (byte_bits_next value pos)
          (IsOverlaid-one c (base + pos) (byte_bits value pos)) (rw lo at p),
    )

Writes-none :
    (c : Array) (base value pos bit_count num_regs : ℕ)
    → Writes zero c base value pos bit_count num_regs 0
unfolding write_bits
Writes-none c base value pos bit_count num_regs =
    let same : bit_count ≡ bit_count + 0 = omega arith in
    (c, ap (λ (t : ℕ). done (c, t)) same, IsOverlaid-none c (base + pos) (byte_bits value pos))

-- The inner loop, with `left` positions to go, writes the bits of the byte up to the count.
write_bits-Writes :
    (left : ℕ) (c : Array) (base value pos bit_count num_regs n : ℕ)
    → n ≡ min left (quota bit_count num_regs)
    → base + pos + n ≤ c.size
    → Writes left c base value pos bit_count num_regs n
write_bits-Writes zero c base value pos bit_count num_regs n e h =
    let none : n ≡ 0 = omega arith in rw none (Writes-none c base value pos bit_count num_regs)
write_bits-Writes (suc left) c base value pos bit_count num_regs n e h =
    elim (dec_le num_regs (bit_count + 1)) [
      | yes last ↦
          let one : n ≡ 1 = omega arith in
          rw one (Writes-one left c base value pos bit_count num_regs (omega arith) last)
      | no more ↦
          let next : n ≡ 1 + (n - 1) = omega arith in
          let c1 = after_one c (base + pos) (byte_bits value pos) in
          rw next (
            Writes-suc left c base value pos bit_count num_regs (n - 1) (omega arith) (omega arith)
              (write_bits-Writes left c1 base value (pos + 1) (bit_count + 1) num_regs (n - 1)
                (omega arith) (omega arith)))
    ]

-- the bits of a sequence of bytes, each from its lowest on
unfoldable pub bits_of : List ℕ → ℕ → ℕ
bits_of bytes k = bit_at_position (get_or bytes (k / 8) 0) (k % 8)

bits_of_head :
    (value : ℕ) (rest : List ℕ) (k : ℕ) → k < 8 → bits_of (value ∷ rest) k ≡ byte_bits value 0 k
unfolding bits_of
bits_of_head value rest k h =
    let quotient : k / 8 ≡ 0 = omega arith in
    let remainder : k % 8 ≡ 0 + k = omega arith in rw (quotient, remainder)

bits_of_tail : (value : ℕ) (rest : List ℕ) (k : ℕ) → bits_of (value ∷ rest) (8 + k) ≡ bits_of rest k
unfolding bits_of
bits_of_tail value rest k =
    let quotient : (8 + k) / 8 ≡ suc (k / 8) = omega arith in
    let remainder : (8 + k) % 8 ≡ k % 8 = omega arith in rw (quotient, remainder)

-- One round of the outer loop, from what the inner one did.
module _ (value : ℕ) (rest : List ℕ) (c : Array) (register i bit_count num_regs : ℕ) where
  coil_bytes_last :
      (c1 : Array) (m : ℕ)
      → write_bits 8 c (register + i * 8) value 0 bit_count num_regs ≡ done (c1, bit_count + m)
      → num_regs ≤ bit_count + m
      → write_coil_bytes (value ∷ rest) c register i bit_count num_regs ≡ done c1
  unfolding write_coil_bytes
  coil_bytes_last c1 m run k = rw run (ground arith)

  coil_bytes_more :
      (c1 : Array) (m : ℕ)
      → write_bits 8 c (register + i * 8) value 0 bit_count num_regs ≡ done (c1, bit_count + m)
      → bit_count + m < num_regs
      → write_coil_bytes (value ∷ rest) c register i bit_count num_regs
        ≡ write_coil_bytes rest c1 register (i + 1) (bit_count + m) num_regs
  unfolding write_coil_bytes
  coil_bytes_more c1 m run k = rw run (ground arith)

-- `WriteMultipleCoils` writes the bits of the bytes, up to the count and one at least, in order
-- and inside the area.
pub write_coil_bytes-IsOverlaid :
    (bytes : List ℕ) (c : Array) (register i bit_count num_regs n : ℕ)
    → n ≡ min (8 * length bytes) (quota bit_count num_regs)
    → register + i * 8 + n ≤ c.size
    → (c' : Array) × (write_coil_bytes bytes c register i bit_count num_regs ≡ done c')
      × IsOverlaid c c' (register + i * 8) n (bits_of bytes)
write_coil_bytes-IsOverlaid [] c register i bit_count num_regs n e h =
    let none : n ≡ 0 = omega arith in
    rw none (c, unfold write_coil_bytes in refl, IsOverlaid-none c (register + i * 8) (bits_of []))
write_coil_bytes-IsOverlaid (value ∷ rest) c register i bit_count num_regs n e h =
    let m = min 8 (quota bit_count num_regs) in
    let start : register + i * 8 + 0 ≡ register + i * 8 = omega arith in
    let (c1, run, p) =
      write_bits-Writes 8 c (register + i * 8) value 0 bit_count num_regs m refl (omega arith) in
    let p' : IsOverlaid c c1 (register + i * 8) m (byte_bits value 0) = rw start at p in
    elim (dec_le num_regs (bit_count + m)) [
      | yes last ↦
          let all : n ≡ m = omega arith in
          rw all (
            c1,
            coil_bytes_last value rest c register i bit_count num_regs c1 m run last,
            IsOverlaid-cong c c1 (register + i * 8) m (byte_bits value 0) (bits_of (value ∷ rest))
                (λ k below. bits_of_head value rest k (omega arith)) p',
          )
      | no more ↦
          let eight : m ≡ 8 = omega arith in
          let split : n ≡ 8 + (n - 8) = omega arith in
          let next : register + (i + 1) * 8 ≡ register + i * 8 + 8 = omega arith in
          let p8 : IsOverlaid c c1 (register + i * 8) 8 (byte_bits value 0) = rw eight at p' in
          let (c', run', q) =
            write_coil_bytes-IsOverlaid rest c1 register (i + 1) (bit_count + m) num_regs (n - 8)
              (omega arith) (omega (arith, p'.same_size)) in
          rw split (
            c',
            coil_bytes_more value rest c register i bit_count num_regs c1 m run (omega arith)
                ∙ run',
            IsOverlaid-join c c1 c' (register + i * 8) 8 (n - 8) (byte_bits value 0) (bits_of rest)
                (bits_of (value ∷ rest)) (bits_of_head value rest) (bits_of_tail value rest) p8
                (rw next at q),
          )
    ]
