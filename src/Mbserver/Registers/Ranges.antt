-- ===== src/Mbserver/Registers/Ranges.antt =====
-- Which ranges the operations of `Registers` accept, and what they do with them.
use virtual_bess.Prelude.{
  ℕ, ◌+◌, ◌-◌, ◌/◌, ◌%◌, ◌^◌, ◌≤◌, ◌<◌, List, [], ◌∷◌, ◌≡◌, ◌⊎◌, ◌↔◌, refl, ap, ◌∙◌, arith, IsU16,
  IsU32, uint16, length, bit_and,
}
use virtual_bess.Prelude.Go.{done, panic, ok, err, crash}
use virtual_bess.Prelude.Array.{Array, window, window-overlay, overlay, update, copied}
use virtual_bess.Prelude.Bits.{and-low_word}
use virtual_bess.Mbserver.Exceptions.{illegal_data_address}
use virtual_bess.Mbserver.Registers.{update_uint16_data, update_uint32_data, get_data}

module _ (r : Array) (addr cnt : ℕ) (ha : IsU16 addr) (hc : IsU16 cnt) where
  -- `GetData` on an area of 65536 registers or fewer, for an address and a count that fit in
  -- sixteen bits: the registers asked for when their range ends inside the area and before
  -- register 65536, IllegalDataAddress when it ends outside the area and before that, and for a
  -- range that reaches 65536, where the sum wraps, a panic or that exception, never data.
  pub get_data-branches :
      r.size ≤ 65536
      → ((addr + cnt ≤ r.size) × (addr + cnt < 65536)
          → get_data r addr cnt ≡ ok (window r.at addr cnt))
        × ((r.size < addr + cnt) × (addr + cnt < 65536)
            → get_data r addr cnt ≡ err illegal_data_address)
        × (65536 ≤ addr + cnt
            → (get_data r addr cnt ≡ crash) ⊎ (get_data r addr cnt ≡ err illegal_data_address))
  unfolding get_data
  get_data-branches small =
      let span : addr + cnt - addr ≡ cnt = omega arith in
      (λ h. ground (arith, span), λ h. ground arith, λ h. ground arith)

  -- On an area of 65536 registers `GetData` panics on exactly the ranges that reach the last
  -- register.
  pub get_data-crash : r.size ≡ 65536 → (get_data r addr cnt ≡ crash) ↔ (65536 ≤ addr + cnt)
  unfolding get_data
  get_data-crash size = (λ h. ground arith, λ h. ground arith)

-- `UpdateUint16Data` of a run of values that ends inside the area and before register 65536: it
-- returns the number of the values, `GetData` then gives them back, and every other register is as
-- before. The area has 65536 registers or fewer.
pub update_then_get :
    (r : Array) (addr v : ℕ) (vs : List ℕ)
    → r.size ≤ 65536
    → addr + length (v ∷ vs) ≤ r.size
    → addr + length (v ∷ vs) < 65536
    → (r' : Array) × (update_uint16_data r addr (v ∷ vs) ≡ done (r', length (v ∷ vs)))
      × (get_data r' addr (length (v ∷ vs)) ≡ ok (v ∷ vs))
      × (r'.size ≡ r.size)
      × ((j : ℕ) → (j < addr) ⊎ (addr + length (v ∷ vs) ≤ j) → r'.at j ≡ r.at j)
unfolding update_uint16_data
update_then_get r addr v vs small inside below =
    let n = length (v ∷ vs) in
    let r' : Array = record r { at = overlay r.at addr n (v ∷ vs) } in
    let all : copied r addr (v ∷ vs) ≡ n = omega arith in
    (
      r',
      rw all (ground arith),
      (get_data-branches r' addr n (omega arith) (omega arith) small).0 (inside, below)
          ∙ ap ok (window-overlay r.at addr n (v ∷ vs) refl),
      refl,
      λ j h. ground arith,
    )

module _ (r : Array) (addr v : ℕ) (hv : IsU32 v) where
  high_word : uint16 (v / 2 ^ 16) ≡ v / 65536
  high_word = omega arith

  low_word : uint16 (bit_and v 0xffff) ≡ v % 65536
  low_word = omega (arith, and-low_word v)

  -- `UpdateUint32Data` at an address with two registers: `GetData` of them gives the high and the low
  -- word, and every other register is as before. The pair ends inside the area and before register
  -- 65536; the area has 65536 registers or fewer.
  pub update_uint32_then_get :
      r.size ≤ 65536
      → addr + 2 ≤ r.size
      → addr + 2 < 65536
      → (r' : Array) × (update_uint32_data r addr v ≡ done r')
        × (get_data r' addr 2 ≡ ok (v / 65536 ∷ (v % 65536 ∷ [])))
        × ((j : ℕ) → (j < addr) ⊎ (addr + 2 ≤ j) → r'.at j ≡ r.at j)
  unfolding update_uint32_data
  update_uint32_then_get small inside below =
      let r' : Array = record r {
        at = update (update r.at addr (v / 65536)) (addr + 1) (v % 65536);
      } in
      (
        r',
        rw (high_word, low_word) (ground arith),
        (get_data-branches r' addr 2 (omega arith) (omega arith) small).0 (inside, below)
            ∙ ground arith,
        λ j h. ground arith,
      )

  -- At address 65535 of an area of 65536 registers the low word goes to register 0.
  pub update_uint32_wraps :
      r.size ≡ 65536
      → addr ≡ 65535
      → (r' : Array) × (update_uint32_data r addr v ≡ done r')
        × (r'.at 65535 ≡ v / 65536)
        × (r'.at 0 ≡ v % 65536)
  unfolding update_uint32_data
  update_uint32_wraps size last = (
    record r { at = update (update r.at addr (v / 65536)) 0 (v % 65536) },
    rw (high_word, low_word) (ground arith),
    ground arith,
    ground arith,
  )

  -- At the last register of a smaller area the range check passes and the second store panics.
  pub update_uint32_panics :
      r.size < 65536 → addr + 1 ≡ r.size → update_uint32_data r addr v ≡ panic
  unfolding update_uint32_data
  update_uint32_panics small last = ground arith
