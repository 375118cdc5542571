-- ===== src/Simulator/Bank/Effects.antt =====
-- What reads and writes of a bank of 65536 registers do, at addresses below the last register.
use virtual_bess.Prelude.{ℕ, ◌<◌, List, [], ◌∷◌, ◌≡◌, ◌≢◌, refl, ◌∙◌, fun_ext, arith, All, some}
use virtual_bess.Prelude.Go.{Run, done, ◌>>=◌}
use virtual_bess.Prelude.Hoare.{Ensures}
use virtual_bess.Prelude.Array.{Array, update, overlay, copied}
use virtual_bess.Mbserver.Registers.{update_uint16_data}
use virtual_bess.Simulator.Bank.{SlaveBank, write_u16, write_input_u16}

abbrev pub IsSized : SlaveBank → Type 0
IsSized b = b.holding.size ≡ 65536

-- the input area that a BMS has
abbrev pub HasInput : SlaveBank → Type 0
HasInput b = (area : Array) × (b.input ≡ some area) × (area.size ≡ 65536)

-- the bank with a word stored
abbrev pub put : SlaveBank → ℕ → ℕ → SlaveBank
put b addr v = record b {
  holding = record { size = b.holding.size; at = update b.holding.at addr v };
}

overlay-update : (f : ℕ → ℕ) (addr v : ℕ) → overlay f addr 1 (v ∷ []) ≡ update f addr v
overlay-update f addr v = fun_ext λ j. ground arith

pub write_u16-put :
    (b : SlaveBank) (addr v : ℕ)
    → IsSized b
    → addr < 65536
    → write_u16 b addr v ≡ done (put b addr v)
unfolding write_u16 update_uint16_data
write_u16-put b addr v size h =
    let all : copied b.holding addr (v ∷ []) ≡ 1 = omega arith in
    ground (arith, all, overlay-update b.holding.at addr v)

pub update_uint16_data-put :
    (b : SlaveBank) (addr v : ℕ)
    → IsSized b
    → addr < 65536
    → update_uint16_data b.holding addr (v ∷ []) ≡ done ((put b addr v).holding, 1)
unfolding update_uint16_data
update_uint16_data-put b addr v size h =
    let all : copied b.holding addr (v ∷ []) ≡ 1 = omega arith in
    ground (arith, all, overlay-update b.holding.at addr v)

-- a run of writes, one after the other
abbrev pub write_words : List (ℕ × ℕ) → SlaveBank → Run SlaveBank
write_words [] b = done b
write_words ((addr, v) ∷ ws) b = do b' ← write_u16 b addr v; write_words ws b'

abbrev pub put_words : List (ℕ × ℕ) → SlaveBank → SlaveBank
put_words [] b = b
put_words ((addr, v) ∷ ws) b = put_words ws (put b addr v)

abbrev pub IsBelow : ℕ × ℕ → Type 0
IsBelow w = w.0 < 65536

pub write_words-put :
    (ws : List (ℕ × ℕ)) (b : SlaveBank)
    → IsSized b
    → All IsBelow ws
    → write_words ws b ≡ done (put_words ws b)
write_words-put [] b size h = refl
write_words-put ((addr, v) ∷ ws) b size (h, hs) =
    rw (write_u16-put b addr v size h) (write_words-put ws (put b addr v) size hs)

pub put_words-IsSized : (ws : List (ℕ × ℕ)) (b : SlaveBank) → IsSized b → IsSized (put_words ws b)
put_words-IsSized [] b size = size
put_words-IsSized ((addr, v) ∷ ws) b size = put_words-IsSized ws (put b addr v) size

-- A register that none of the writes names keeps its word.
pub put_words-frame :
    (ws : List (ℕ × ℕ)) (b : SlaveBank) (j : ℕ)
    → All (λ w. j ≢ w.0) ws
    → (put_words ws b).holding.at j ≡ b.holding.at j
put_words-frame [] b j h = refl
put_words-frame ((addr, v) ∷ ws) b j (h, hs) = put_words-frame ws (put b addr v) j hs ∙ ground arith

-- `WriteInputU16` stores in the input area and leaves the holding registers.
pub write_input_u16-HasInput :
    (b : SlaveBank) (addr v : ℕ)
    → HasInput b
    → addr < 65536
    → Ensures (λ b'. HasInput b' × (b'.holding ≡ b.holding)) (write_input_u16 b addr v)
unfolding write_input_u16 update_uint16_data
write_input_u16-HasInput b addr v (area, some_area, size) h =
    let all : copied area addr (v ∷ []) ≡ 1 = omega arith in
    let area' : Array = record area { at = update area.at addr v } in
    (
      record b { input = some area' },
      rw some_area (ground (arith, all, overlay-update area.at addr v)),
      ((area', refl, size), refl),
    )
