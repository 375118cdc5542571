-- ===== src/Simulator/Battery/Invariant/Draws.antt =====
-- The numbers drawn for the cells of a battery: `rand.Intn` and `%` do not panic, since a battery has
-- two cells or more.
use virtual_bess.Prelude.{ℕ, ◌+◌, ◌≤◌, ◌≡◌, false, ◌==◌, refl, arith}
use virtual_bess.Prelude.Hoare.{Ensures, Ensures-done, Ensures-if, Ensures-bind}
use virtual_bess.Simulator.Float.{Float}
use virtual_bess.Simulator.Battery.{BatteryUnit, cell_count}
use virtual_bess.Simulator.Battery.BmsSync.{CellStats, cell_index, drawn_pair, cell_stats}

-- With a cell or more, the draws of two cells return.
drawn_pair-returns :
    (cells : ℕ) (intn : ℕ → ℕ → ℕ) (k : ℕ)
    → 2 ≤ cells
    → Ensures (λ (p : ℕ × ℕ). p ≡ p) (drawn_pair cells intn k)
unfolding drawn_pair
drawn_pair-returns cells intn k two =
    let some_cells : cells == 0 ≡ false = ground arith in
    let max_idx = cell_index (intn k cells) in
    let min_idx = cell_index (intn (k + 1) cells) in
    rw some_cells (
      Ensures-bind {P = λ (r : ℕ). r ≡ r} _
        (Ensures-if (min_idx == max_idx) (λ _. Ensures-done _ refl) (λ _. Ensures-done _ refl))
        (λ r _. Ensures-done _ refl))

module _ {F : Type 0} ⦃fl : Float F⦄ where
  -- A battery has two cells or more.
  pub cell_count-least : (bu : BatteryUnit F) → 2 ≤ cell_count bu
  unfolding cell_count
  cell_count-least bu = ground arith

  pub cell_stats-returns :
      (cells : ℕ) (avg_v avg_t : F) (draw : ℕ → F) (intn : ℕ → ℕ → ℕ)
      → 2 ≤ cells
      → Ensures (λ (s : CellStats F). s ≡ s) (cell_stats cells avg_v avg_t draw intn)
  unfolding cell_stats
  cell_stats-returns cells avg_v avg_t draw intn two =
      Ensures-bind _ (drawn_pair-returns cells intn 0 two)
        λ v _. Ensures-bind _ (drawn_pair-returns cells intn 2 two) λ t _. Ensures-done _ refl
