-- ===== src/Simulator/Battery/Status.antt =====
-- What `Sync` shows of the state of a battery unit.
use virtual_bess.Prelude.{
  ℕ, ◌+◌, ◌%◌, uint16, ◌<◌, ◌≤◌, ◌≡◌, ◌≢◌, refl, arith, true, false, not, ◌==◌, ◌&&◌, ◌||◌, List,
  All, ◌↔◌, ◌⊎◌,
}
use native.Mathlib.Decide.{dec_lt}
use native.Mathlib.Nat.{mod_self, mod-eq_of_lt}
use virtual_bess.Prelude.Go.{done}
use virtual_bess.Prelude.Hoare.{Ensures, Ensures-done, Ensures-if}
use virtual_bess.Simulator.Bank.Words.{read_u16-at}
use virtual_bess.Simulator.Bank.Effects.{
  IsSized, IsBelow, put_words, write_words-put, put_words-IsSized,
}
use virtual_bess.Simulator.Float.{Float, nought}
use virtual_bess.Simulator.Battery.{BatteryUnit, bool_to_u16}
use virtual_bess.Simulator.Battery.PcsSync.{
  write_pcs, latched, status_words, fault_words, system_words, limit_words, shows_running, limited,
  sync_pcs_status, sync_system_status,
}
use virtual_bess.Simulator.Battery.BmsSync.{cell_index, other_index}
use virtual_bess.Simulator.Registers.Pcs.{
  reg_pcs_sys_status, reg_pcs_fault_status, reg_pcs_dc_under_volt,
}
use virtual_bess.Simulator.Registers.Bms.{
  reg_bms_fault_status, reg_bms_max_charge_pw, reg_bms_max_discharge_pw,
}
use virtual_bess.Simulator.Registers.Sys.{
  reg_sys_running, reg_sys_fault, reg_sys_standby, reg_sys_max_charge_pw, reg_sys_max_discharge_pw,
  reg_max_charge_pw_setting, reg_max_discharge_pw_setting,
}

next_index :
    (cells i : ℕ)
    → i < cells
    → 2 ≤ cells
    → cells < 65536
    → (uint16 ((i + 1) % cells + 1) ≢ i + 1)
      × (1 ≤ uint16 ((i + 1) % cells + 1))
      × (uint16 ((i + 1) % cells + 1) ≤ cells)
next_index cells i h two small = elim (dec_lt (i + 1) cells) [
  | yes k ↦
      (let e : (i + 1) % cells ≡ i + 1 = mod-eq_of_lt k in
        rw e (omega arith, omega arith, omega arith))
  | no n ↦
      (let last : i + 1 ≡ cells = omega (arith, h) in
        let e : cells % cells ≡ 0 = mod_self cells in
        rw (last, e) (omega arith, omega arith, omega arith))
]

-- The cells of the extremes, for cell numbers that fit in sixteen bits: both are from 1 to the number
-- of cells, and they differ when there are two cells or more.
pub index_pair :
    (cells i j : ℕ)
    → i < cells
    → j < cells
    → 2 ≤ cells
    → cells < 65536
    → (1 ≤ cell_index i)
      × (cell_index i ≤ cells)
      × Ensures
          (λ r. (1 ≤ r) × (r ≤ cells) × (r ≢ cell_index i))
          (other_index cells (cell_index i) (cell_index j))
index_pair cells i j hi hj two small =
    let e1 : uint16 (i + 1) ≡ i + 1 = omega arith in
    let e2 : uint16 (j + 1) ≡ j + 1 = omega arith in
    let some_cells : cells == 0 ≡ false = ground arith in
    let (differ, low, high) = next_index cells i hi two small in
    rw (e1, e2)
      (
        omega arith,
        omega arith,
        Ensures-if (j + 1 == i + 1) (λ _. rw some_cells (Ensures-done _ (low, high, differ)))
            (λ other. Ensures-done _ (omega arith, omega arith, ground (arith, other))),
      )

module _ {F : Type 0} ⦃fl : Float F⦄ where
  write_pcs_run :
      (ws : List (ℕ × ℕ)) (bu : BatteryUnit F)
      → IsSized bu.pcs
      → All IsBelow ws
      → write_pcs ws bu ≡ done (record bu { pcs = put_words ws bu.pcs })
  unfolding write_pcs
  write_pcs_run ws bu size below = rw (write_words-put ws bu.pcs size below) refl

  -- `syncPCSStatus` on 65536 registers: the DC undervoltage fault is set if it was, or if the PCS
  -- runs with the contactor open, and is never cleared; both fault registers show it, and the status
  -- register shows stopped, charging, discharging or standby by the state and the sign of the power.
  sync_pcs_status_shows :
      (kw : F) (bu : BatteryUnit F)
      → IsSized bu.pcs
      → Ensures
          (λ bu'.
            (bu'.pcs_dc_under_volt_fault
              ≡ bu.pcs_dc_under_volt_fault || (bu.pcs_running && not bu.bms_hv_closed))
            × (bu'.pcs.holding.at reg_pcs_dc_under_volt ≡ bool_to_u16 bu'.pcs_dc_under_volt_fault)
            × (bu'.pcs.holding.at reg_pcs_fault_status ≡ bool_to_u16 bu'.pcs_dc_under_volt_fault)
            × (bu.pcs_running ≡ false → bu'.pcs.holding.at reg_pcs_sys_status ≡ 1)
            × (bu.pcs_running ≡ true
                → fl.lt kw nought ≡ true
                → bu'.pcs.holding.at reg_pcs_sys_status ≡ 3)
            × (bu.pcs_running ≡ true
                → fl.lt kw nought ≡ false
                → fl.lt nought kw ≡ true
                → bu'.pcs.holding.at reg_pcs_sys_status ≡ 4)
            × (bu.pcs_running ≡ true
                → fl.lt kw nought ≡ false
                → fl.lt nought kw ≡ false
                → bu'.pcs.holding.at reg_pcs_sys_status ≡ 2))
          (sync_pcs_status kw bu)
  unfolding sync_pcs_status
  sync_pcs_status_shows kw bu size =
      let ws1 = status_words kw bu in
      let ws2 = fault_words bu in
      let bank1 = put_words ws1 bu.pcs in
      (
        record bu { pcs = put_words ws2 bank1; pcs_dc_under_volt_fault = latched bu },
        rw
            (
              write_pcs_run ws1 bu size (ground arith),
              write_pcs_run ws2 (record bu { pcs = bank1; pcs_dc_under_volt_fault = latched bu })
                  (put_words-IsSized ws1 bu.pcs size) (ground arith),
            )
            refl,
        (
          refl,
          refl,
          refl,
          λ h. ground (arith, h),
          λ h k. ground (arith, h, k),
          λ h k l. ground (arith, h, k, l),
          λ h k l. ground (arith, h, k, l),
        ),
      )

  -- `syncSystemStatus` on 65536 registers of each slave: of running, fault and standby exactly one is
  -- shown, and it is fault if and only if the PCS or the BMS shows a fault; the system's limits are
  -- not above the limits of the BMS, nor above a setting from outside that is not 0.
  pub sync_system_status_shows :
      (kw kvar : F) (bu : BatteryUnit F)
      → IsSized bu.pcs
      → IsSized bu.bms
      → Ensures
          (λ bu'.
            (bu'.pcs.holding.at reg_sys_running
                + bu'.pcs.holding.at reg_sys_fault
                + bu'.pcs.holding.at reg_sys_standby
              ≡ 1)
            × ((bu'.pcs.holding.at reg_sys_fault ≡ 1) ↔ (
                (bu.pcs.holding.at reg_pcs_fault_status ≡ 1)
                ⊎ (bu.bms.holding.at reg_bms_fault_status ≡ 1)))
            × (bu'.pcs.holding.at reg_sys_max_charge_pw ≤ bu.bms.holding.at reg_bms_max_charge_pw)
            × (bu.pcs.holding.at reg_max_charge_pw_setting ≢ 0
                → bu'.pcs.holding.at reg_sys_max_charge_pw
                  ≤ bu.pcs.holding.at reg_max_charge_pw_setting)
            × (bu'.pcs.holding.at reg_sys_max_discharge_pw
                ≤ bu.bms.holding.at reg_bms_max_discharge_pw)
            × (bu.pcs.holding.at reg_max_discharge_pw_setting ≢ 0
                → bu'.pcs.holding.at reg_sys_max_discharge_pw
                  ≤ bu.pcs.holding.at reg_max_discharge_pw_setting))
          (sync_system_status kw kvar bu)
  unfolding sync_system_status
  sync_system_status_shows kw kvar bu size size' =
      let has_fault =
        (bu.pcs.holding.at reg_pcs_fault_status == 1)
        || (bu.bms.holding.at reg_bms_fault_status == 1) in
      let is_running = shows_running kw kvar bu has_fault in
      let ws1 = system_words has_fault is_running in
      let bank1 = put_words ws1 bu.pcs in
      let sized1 = put_words-IsSized ws1 bu.pcs size in
      let charge =
        limited (bu.bms.holding.at reg_bms_max_charge_pw)
          (bu.pcs.holding.at reg_max_charge_pw_setting) in
      let discharge =
        limited (bu.bms.holding.at reg_bms_max_discharge_pw)
          (bu.pcs.holding.at reg_max_discharge_pw_setting) in
      let ws2 = limit_words kw bu charge discharge in
      (
        record bu { pcs = put_words ws2 bank1 },
        rw
            (
              read_u16-at bu.pcs size reg_pcs_fault_status (omega arith),
              read_u16-at bu.bms size' reg_bms_fault_status (omega arith),
              write_pcs_run ws1 bu size (ground arith),
              read_u16-at bu.bms size' reg_bms_max_charge_pw (omega arith),
              read_u16-at bank1 sized1 reg_max_charge_pw_setting (omega arith),
              read_u16-at bu.bms size' reg_bms_max_discharge_pw (omega arith),
              read_u16-at bank1 sized1 reg_max_discharge_pw_setting (omega arith),
              write_pcs_run ws2 (record bu { pcs = bank1 }) sized1 (ground arith),
            )
            refl,
        (ground arith, ground arith, ground arith, ground arith, ground arith, ground arith),
      )
