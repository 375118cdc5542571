-- ===== src/Simulator/Battery/Invariant/Words.antt =====
-- What the writes of `Sync` do to the banks.
use virtual_bess.Prelude.{
  ℕ, ◌+◌, ◌/◌, ◌^◌, uint16, bit_and, ◌<◌, ◌≡◌, ◌≢◌, refl, ◌∙◌, arith, List, [], ◌∷◌, All,
}
use virtual_bess.Prelude.Array.{Array, update}
use virtual_bess.Prelude.Hoare.{Ensures, Ensures-done, Ensures-bind, Ensures-weaken}
use virtual_bess.Simulator.Bank.{SlaveBank, write_u32}
use virtual_bess.Mbserver.Registers.{update_uint32_data}
use virtual_bess.Simulator.Bank.Effects.{
  IsSized, HasInput, put, put_words, write_input_u16-HasInput,
}
use virtual_bess.Simulator.Battery.ClusterSync.{write_cluster}
use virtual_bess.Simulator.Registers.{cluster_ir}
use virtual_bess.Simulator.Registers.Pcs.{reg_pcs_power_cmd_alias, reg_pcs_power_cmd}

-- a register that is neither the power command nor its alias
abbrev pub IsOther : ℕ × ℕ → Type 0
IsOther w = (reg_pcs_power_cmd ≢ w.0) × (reg_pcs_power_cmd_alias ≢ w.0)

-- The two commands are as before behind writes to other registers.
pub others-frame :
    (ws : List (ℕ × ℕ)) (b : SlaveBank)
    → All IsOther ws
    → ((put_words ws b).holding.at reg_pcs_power_cmd ≡ b.holding.at reg_pcs_power_cmd)
      × ((put_words ws b).holding.at reg_pcs_power_cmd_alias ≡ b.holding.at reg_pcs_power_cmd_alias)
others-frame [] b h = (refl, refl)
others-frame ((reg, v) ∷ ws) b (h, hs) =
    let (e1, e2) = others-frame ws (put b reg v) hs in (e1 ∙ ground arith, e2 ∙ ground arith)

-- Writes to the holding registers leave the input area.
pub put_words-input : (ws : List (ℕ × ℕ)) (b : SlaveBank) → (put_words ws b).input ≡ b.input
put_words-input [] b = refl
put_words-input ((reg, v) ∷ ws) b = put_words-input ws (put b reg v)

pub write_u32-IsSized :
    (b : SlaveBank) (addr v : ℕ)
    → IsSized b
    → HasInput b
    → addr < 65535
    → Ensures (λ b'. IsSized b' × HasInput b') (write_u32 b addr v)
unfolding write_u32 update_uint32_data
write_u32-IsSized b addr v size input h =
    let r1 : Array = record b.holding { at = update b.holding.at addr (uint16 (v / 2 ^ 16)) } in
    let r2 : Array = record r1 {
      at = update r1.at (uint16 (addr + 1)) (uint16 (bit_and v 0xffff));
    } in
    (record b { holding = r2 }, ground arith, (size, input))

-- Only the input area changes.
abbrev pub IsInputOf : SlaveBank → SlaveBank → Type 0
IsInputOf b b' = HasInput b' × (b'.holding ≡ b.holding)

pub write_cluster-IsInputOf :
    (i : ℕ) (ws : List (ℕ × ℕ)) (b : SlaveBank)
    → HasInput b
    → Ensures (IsInputOf b) (write_cluster i ws b)
unfolding cluster_ir
write_cluster-IsInputOf i [] b h = Ensures-done b (h, refl)
write_cluster-IsInputOf i ((offset, v) ∷ ws) b h =
    Ensures-bind _ (write_input_u16-HasInput b (cluster_ir i offset) v h (omega arith))
      λ b1 (h1, e1).
        Ensures-weaken (write_cluster-IsInputOf i ws b1 h1) λ b2 (h2, e2). (h2, e2 ∙ e1)
