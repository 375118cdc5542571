-- ===== src/Simulator/Battery/Invariant/Reach.antt =====
-- The operations of a battery unit as steps: the writes of a client, the tick, and the
-- synchronisation of the registers.
use virtual_bess.Prelude.{ℕ, ◌<◌, ◌≡◌, refl, arith, true, false, ◌==◌, IsU16}
use virtual_bess.Prelude.Go.{Run, done, ◌>>=◌}
use virtual_bess.Prelude.Array.{zeros}
use virtual_bess.Prelude.Hoare.{Ensures, Ensures-done, Ensures-if, Ensures-bind, Ensures-returned}
use virtual_bess.Simulator.Bank.{SlaveBank, new_slave_bank}
use virtual_bess.Simulator.Bank.Effects.{IsSized, put, write_u16-put}
use virtual_bess.Simulator.Float.{Float, IsFloat, nought}
use virtual_bess.Simulator.Battery.{
  BatteryUnit, BatterySettings, new_battery_unit, on_pcs, on_bms, on_pcs_write, on_bms_write,
  remember, initial_unit,
}
use virtual_bess.Simulator.Battery.Power.{tick_unit}
use virtual_bess.Simulator.Battery.Sync.{SyncDraws, sync}
use virtual_bess.Simulator.Battery.Invariant.{
  Inv, IsResting, IsCharged, on_bms-Inv, pcs_changed-Inv,
}
use virtual_bess.Simulator.Battery.Invariant.Tick.{tick_unit-Inv}
use virtual_bess.Simulator.Battery.Invariant.Sync.{sync-Inv}
use virtual_bess.Simulator.Registers.Pcs.{
  reg_pcs_grid_mode, reg_pcs_run_mode, reg_pcs_remote_local, reg_pcs_power_cmd_alias,
  reg_pcs_power_cmd,
}

-- the PCS registers that `NewBatteryUnit` sets
abbrev pub started_pcs : ℕ → SlaveBank
started_pcs pcs_id =
    let modes =
      put (put (new_slave_bank pcs_id false) reg_pcs_remote_local 1) reg_pcs_grid_mode 0 in
    put modes reg_pcs_run_mode 2

module _ {F : Type 0} ⦃fl : Float F⦄ where
  -- What `writeHolding` does for a slave of the unit: the store, then the callback.
  unfoldable pub pcs_written : BatteryUnit F → ℕ → ℕ → Run (BatteryUnit F)
  pcs_written bu addr v = do bu' ← on_pcs bu addr v; on_pcs_write bu' addr v

  unfoldable pub bms_written : BatteryUnit F → ℕ → ℕ → Run (BatteryUnit F)
  bms_written bu addr v = do bu' ← on_bms bu addr v; on_bms_write bu' addr v

  pub data Step (t : BatteryUnit F) (u : BatteryUnit F) : Type 0 where
    write_pcs_register : (addr v : ℕ) → IsU16 addr → pcs_written t addr v ≡ done u → Step t u
    write_bms_register : (addr v : ℕ) → IsU16 addr → bms_written t addr v ≡ done u → Step t u
    tick : (dt draw draw' : F) → tick_unit dt draw draw' t ≡ done u → Step t u
    synchronise : (hz : F) (draws : SyncDraws F) → sync hz draws t ≡ done u → Step t u

  pub data Reach (s : BatteryUnit F) : BatteryUnit F → Type 0 where
    here : Reach s s
    next : {t u : BatteryUnit F} → Reach s t → Step t u → Reach s u

  commands-Inv :
      (bu : BatteryUnit F) (bank : SlaveBank) (v : ℕ)
      → Inv bu
      → IsSized bank
      → bank.holding.at reg_pcs_power_cmd ≡ bank.holding.at reg_pcs_power_cmd_alias
      → Inv (remember (record bu { pcs = bank }) v)
  commands-Inv bu bank v i size same = record {
    pcs_sized = size;
    bms_sized = i.bms_sized;
    input_sized = i.input_sized;
    open_resting = i.open_resting;
    stopped_resting = i.stopped_resting;
    charged = i.charged;
    aliased = same;
  }

  -- the two stores of a command written at `addr`, with the other address `twin`
  both_stores :
      (bu : BatteryUnit F) (addr twin v : ℕ)
      → Inv bu
      → addr < 65536
      → twin < 65536
      → (put (put bu.pcs addr v) twin v).holding.at reg_pcs_power_cmd
        ≡ (put (put bu.pcs addr v) twin v).holding.at reg_pcs_power_cmd_alias
      → Ensures Inv
          (do b ← on_pcs (record bu { pcs = put bu.pcs addr v }) twin v; done (remember b v))
  both_stores bu addr twin v i h h' same = (
    remember (record bu { pcs = put (put bu.pcs addr v) twin v }) v,
    rw (write_u16-put (put bu.pcs addr v) twin v i.pcs_sized h') refl,
    commands-Inv bu (put (put bu.pcs addr v) twin v) v i i.pcs_sized same,
  )

  -- A write of a PCS register and its callback return, and keep the invariant.
  pub pcs_written-Inv :
      (bu : BatteryUnit F) (addr v : ℕ) → Inv bu → IsU16 addr → Ensures Inv (pcs_written bu addr v)
  unfolding pcs_written on_pcs_write
  pcs_written-Inv bu addr v i h = rw (write_u16-put bu.pcs addr v i.pcs_sized h) (
      Ensures-if (addr == reg_pcs_power_cmd)
        (λ e. both_stores bu addr reg_pcs_power_cmd_alias v i h (omega arith) (ground (arith, e)))
        λ n1.
          Ensures-if (addr == reg_pcs_power_cmd_alias)
            (λ e. both_stores bu addr reg_pcs_power_cmd v i h (omega arith) (ground (arith, e)))
            λ n2.
              Ensures-done (record bu { pcs = put bu.pcs addr v })
                (pcs_changed-Inv bu (put bu.pcs addr v) i i.pcs_sized
                  (ground (arith, n1, n2, i.aliased))))

  pub bms_written-Inv :
      (bu : BatteryUnit F) (addr v : ℕ) → Inv bu → IsU16 addr → Ensures Inv (bms_written bu addr v)
  unfolding bms_written on_bms_write
  bms_written-Inv bu addr v i h =
      Ensures-bind _ (on_bms-Inv bu addr v i h) λ b1 i1. Ensures-done b1 i1

  pub Step-Inv : (laws : IsFloat F) {t u : BatteryUnit F} → Step t u → Inv t → Inv u
  Step-Inv laws {t} (write_pcs_register addr v h e) i =
      Ensures-returned (pcs_written-Inv t addr v i h) e
  Step-Inv laws {t} (write_bms_register addr v h e) i =
      Ensures-returned (bms_written-Inv t addr v i h) e
  Step-Inv laws {t} (tick dt draw draw' e) i =
      Ensures-returned (tick_unit-Inv laws dt draw draw' t i) e
  Step-Inv laws {t} (synchronise hz draws e) i = Ensures-returned (sync-Inv hz draws t i) e

  -- Every unit that the steps reach from a unit with the invariant has it.
  pub Reach-Inv : (laws : IsFloat F) {s t : BatteryUnit F} → Inv s → Reach s t → Inv t
  Reach-Inv laws i here = i
  Reach-Inv laws i (next r step) = Step-Inv laws step (Reach-Inv laws i r)

  abbrev pub started : BatterySettings F → ℕ → ℕ → BatteryUnit F
  started cfg pcs_id bms_id = initial_unit cfg (started_pcs pcs_id) (new_slave_bank bms_id true)

  pub new_battery_unit_run :
      (cfg : BatterySettings F) (pcs_id bms_id : ℕ)
      → new_battery_unit cfg (new_slave_bank pcs_id false) (new_slave_bank bms_id true)
        ≡ done (started cfg pcs_id bms_id)
  unfolding new_battery_unit new_slave_bank
  new_battery_unit_run cfg pcs_id bms_id =
      let b0 = new_slave_bank pcs_id false in
      let b1 = put b0 reg_pcs_remote_local 1 in
      let b2 = put b1 reg_pcs_grid_mode 0 in
      rw
        (
          write_u16-put b0 reg_pcs_remote_local 1 refl (omega arith),
          write_u16-put b1 reg_pcs_grid_mode 0 refl (omega arith),
          write_u16-put b2 reg_pcs_run_mode 2 refl (omega arith),
        )
        refl

  -- A new unit has the invariant, when the configured energy is between zero and the capacity.
  pub started-Inv :
      (cfg : BatterySettings F) (pcs_id bms_id : ℕ)
      → IsCharged (started cfg pcs_id bms_id)
      → Inv (started cfg pcs_id bms_id)
  unfolding new_slave_bank
  started-Inv cfg pcs_id bms_id c = record {
    pcs_sized = refl;
    bms_sized = refl;
    input_sized = (zeros 65536, refl, refl);
    open_resting = λ h. (refl, refl);
    stopped_resting = λ h. (refl, refl);
    charged = c;
    aliased = refl;
  }

  -- From a new unit, through any writes of registers, ticks and synchronisations: with the contactor
  -- open or the PCS stopped the active and the reactive power are zero, and the energy is neither
  -- below zero nor above the capacity. The initial energy is in that range, and the comparison of
  -- floats is irreflexive and finds zero equal to itself.
  pub reachable_safe :
      (laws : IsFloat F) (cfg : BatterySettings F) (pcs_id bms_id : ℕ) (s t : BatteryUnit F)
      → IsCharged (started cfg pcs_id bms_id)
      → new_battery_unit cfg (new_slave_bank pcs_id false) (new_slave_bank bms_id true) ≡ done s
      → Reach s t
      → (t.bms_hv_closed ≡ false → IsResting t)
        × (t.pcs_running ≡ false → IsResting t)
        × (fl.lt t.current_energy_kwh nought ≡ false)
        × (fl.lt t.rated_capacity_kwh t.current_energy_kwh ≡ false)
  reachable_safe laws cfg pcs_id bms_id s t c e r =
      let new : Ensures Inv
          (new_battery_unit cfg (new_slave_bank pcs_id false) (new_slave_bank bms_id true)) =
        (
          started cfg pcs_id bms_id,
          new_battery_unit_run cfg pcs_id bms_id,
          started-Inv cfg pcs_id bms_id c,
        ) in
      let i = Reach-Inv laws (Ensures-returned new e) r in
      (i.open_resting, i.stopped_resting, i.charged.0, i.charged.1)

  -- Every operation returns on a unit that the steps reach from one with the invariant, whatever
  -- numbers are drawn, with the laws of the floating point numbers: a write of a register of either
  -- slave at a sixteen-bit address, a tick, and the synchronisation of the registers never panic. The
  -- invariant of the first unit: its banks have 65536 registers, the BMS with an input area; its
  -- energy is between zero and its capacity; its two command registers agree; and both powers are zero
  -- while the contactor is open or the PCS stopped.
  pub reachable_runs :
      (laws : IsFloat F) (s t : BatteryUnit F) (addr v : ℕ) (dt draw draw' hz : F)
      (draws : SyncDraws F)
      → Inv s
      → Reach s t
      → IsU16 addr
      → ((u : BatteryUnit F) × (pcs_written t addr v ≡ done u))
        × ((u : BatteryUnit F) × (bms_written t addr v ≡ done u))
        × ((u : BatteryUnit F) × (tick_unit dt draw draw' t ≡ done u))
        × ((u : BatteryUnit F) × (sync hz draws t ≡ done u))
  reachable_runs laws s t addr v dt draw draw' hz draws i0 r h =
      let i = Reach-Inv laws i0 r in
      let (u1, e1, _) = pcs_written-Inv t addr v i h in
      let (u2, e2, _) = bms_written-Inv t addr v i h in
      let (u3, e3, _) = tick_unit-Inv laws dt draw draw' t i in
      let (u4, e4, _) = sync-Inv hz draws t i in ((u1, e1), (u2, e2), (u3, e3), (u4, e4))
