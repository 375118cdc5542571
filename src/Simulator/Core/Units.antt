-- ===== src/Simulator/Core/Units.antt =====
-- A battery unit as devices of the simulator: its PCS and its BMS under their slave ids.
use virtual_bess.Prelude.{
  ℕ, ◌≡◌, ◌≢◌, refl, sym, ◌∙◌, ==_refl, arith, List, [], ◌∷◌, false, Option, none, some, IsU16,
  ◌==◌, if◌then◌else◌,
}
use virtual_bess.Prelude.Go.{done}
use virtual_bess.Simulator.Bank.Effects.{put, write_u16-put, update_uint16_data-put}
use virtual_bess.Simulator.Float.{Float}
use virtual_bess.Simulator.Battery.{BatteryUnit, on_pcs_write, on_bms_write}
use virtual_bess.Simulator.Battery.Invariant.{Inv}
use virtual_bess.Simulator.Battery.Invariant.Reach.{
  pcs_written, bms_written, pcs_written-Inv, bms_written-Inv,
}
use virtual_bess.Simulator.Core.{Devices, write_holding}

module _ {F : Type 0} ⦃fl : Float F⦄ where
  -- `BatteryUnitByPCSSlaveID` and `BatteryUnitByBMSSlaveID`
  unfoldable pub battery_unit_by_pcs_slave_id : List (BatteryUnit F) → ℕ → Option (BatteryUnit F)
  battery_unit_by_pcs_slave_id [] id = none
  battery_unit_by_pcs_slave_id (bu ∷ rest) id =
      if bu.pcs.slave_id == id then some bu else battery_unit_by_pcs_slave_id rest id

  unfoldable pub battery_unit_by_bms_slave_id : List (BatteryUnit F) → ℕ → Option (BatteryUnit F)
  battery_unit_by_bms_slave_id [] id = none
  battery_unit_by_bms_slave_id (bu ∷ rest) id =
      if bu.bms.slave_id == id then some bu else battery_unit_by_bms_slave_id rest id

  -- the entries that `NewSimulator` makes for a battery unit
  abbrev pub battery_devices : Devices (BatteryUnit F)
  battery_devices = record {
    bank_of = λ bu id.
        if id == bu.pcs.slave_id
        then some bu.pcs
        else if id == bu.bms.slave_id
        then some bu.bms
        else none;
    set_bank = λ bu id bank.
        if id == bu.pcs.slave_id then record bu { pcs = bank } else record bu { bms = bank };
    on_write = λ bu id addr v.
        if id == bu.pcs.slave_id then on_pcs_write bu addr v else on_bms_write bu addr v;
  }

  -- A write from inside to the PCS of a unit is the step of the unit that stores the value and calls
  -- the PCS back, and one to the BMS is that of the BMS; each returns without an error, and keeps the
  -- invariant. The two slave ids differ, and the register fits in sixteen bits.
  pub write_holding-refines :
      (bu : BatteryUnit F) (register value : ℕ)
      → Inv bu
      → bu.bms.slave_id ≢ bu.pcs.slave_id
      → IsU16 register
      → ((u : BatteryUnit F) × (pcs_written bu register value ≡ done u)
          × (write_holding battery_devices bu bu.pcs.slave_id register value ≡ done (u, none))
          × Inv u)
        × ((u : BatteryUnit F) × (bms_written bu register value ≡ done u)
            × (write_holding battery_devices bu bu.bms.slave_id register value ≡ done (u, none))
            × Inv u)
  unfolding write_holding pcs_written bms_written
  write_holding-refines bu register value i differ h =
      let (u, e, k) = pcs_written-Inv bu register value i h in
      let (u', e', k') = bms_written-Inv bu register value i h in
      let b = record bu { pcs = put bu.pcs register value } in
      let b' = record bu { bms = put bu.bms register value } in
      let called : pcs_written bu register value ≡ on_pcs_write b register value =
        rw (write_u16-put bu.pcs register value i.pcs_sized h) refl in
      let called' : bms_written bu register value ≡ on_bms_write b' register value =
        rw (write_u16-put bu.bms register value i.bms_sized h) refl in
      let stored = update_uint16_data-put bu.pcs register value i.pcs_sized h in
      let stored' = update_uint16_data-put bu.bms register value i.bms_sized h in
      let other : (bu.bms.slave_id == bu.pcs.slave_id) ≡ false = ground (arith, differ) in
      (
        (u, e, rw (==_refl bu.pcs.slave_id, stored) (ground (arith, sym called ∙ e)), k),
        (
          u',
          e',
          rw (other, ==_refl bu.bms.slave_id, stored') (ground (arith, other, sym called' ∙ e')),
          k',
        ),
      )
