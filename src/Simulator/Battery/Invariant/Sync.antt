-- ===== src/Simulator/Battery/Invariant/Sync.antt =====
-- `Sync` returns, and keeps the invariant of a battery unit.
use virtual_bess.Prelude.{ℕ, zero, suc, ◌+◌, ◌<◌, refl, sym, ◌∙◌, arith, List, All}
use virtual_bess.Prelude.Hoare.{Ensures, Ensures-done, Ensures-if, Ensures-bind, Ensures-weaken}
use virtual_bess.Simulator.Bank.{SlaveBank}
use virtual_bess.Simulator.Bank.Words.{read_u16-at}
use virtual_bess.Simulator.Bank.Effects.{
  HasInput, IsBelow, put_words, write_words-put, put_words-IsSized,
}
use virtual_bess.Simulator.Float.{Float, nought}
use virtual_bess.Simulator.Battery.{BatteryUnit, soc, battery_voltage}
use virtual_bess.Simulator.Battery.Reactive.{grid_phase_voltage}
use virtual_bess.Simulator.Battery.PcsSync.{
  Draws, write_pcs, write_bms, latched, sync_pcs_status, sync_pcs_power, signed_tenths,
  phase_current, sync_current, sync_pcs_grid, sync_pcs_dc, sync_pcs_temperature, sync_system_status,
}
use virtual_bess.Simulator.Battery.BmsSync.{
  sync_bms_status, sync_bms_energy, sync_bms_limits, sync_bms_cell_stats,
}
use virtual_bess.Simulator.Battery.ClusterSync.{
  drawn_words, shared_words, sync_clusters, sync_cluster_registers,
}
use virtual_bess.Simulator.Battery.Sync.{SyncDraws, sync}
use virtual_bess.Simulator.Battery.Invariant.{
  Inv, modes-Inv, pcs_changed-Inv, bms_changed-Inv, on_pcs-Inv,
}
use virtual_bess.Simulator.Registers.Pcs.{
  reg_pcs_grid_voltage_cmd, reg_pcs_fault_status, reg_pcs_voltage_a, reg_pcs_voltage_b,
  reg_pcs_voltage_c, reg_pcs_current_a, reg_pcs_current_b, reg_pcs_current_c, reg_pcs_frequency,
}
use virtual_bess.Simulator.Registers.Bms.{
  reg_bms_fault_status, reg_bms_total_charge, reg_bms_total_discharge, reg_bms_max_charge_pw,
  reg_bms_max_discharge_pw,
}
use virtual_bess.Simulator.Registers.Sys.{reg_max_charge_pw_setting, reg_max_discharge_pw_setting}
use virtual_bess.Simulator.Battery.Invariant.Draws.{cell_count-least, cell_stats-returns}
use virtual_bess.Simulator.Battery.Invariant.Words.{
  IsOther, others-frame, put_words-input, write_u32-IsSized, IsInputOf, write_cluster-IsInputOf,
}

module _ {F : Type 0} ⦃fl : Float F⦄ where
  write_pcs-Inv :
      (ws : List (ℕ × ℕ)) (bu : BatteryUnit F)
      → Inv bu
      → All IsBelow ws
      → All IsOther ws
      → Ensures Inv (write_pcs ws bu)
  unfolding write_pcs
  write_pcs-Inv ws bu i below other =
      let (e1, e2) = others-frame ws bu.pcs other in
      (
        record bu { pcs = put_words ws bu.pcs },
        rw (write_words-put ws bu.pcs i.pcs_sized below) refl,
        pcs_changed-Inv bu (put_words ws bu.pcs) i (put_words-IsSized ws bu.pcs i.pcs_sized)
            (e1 ∙ i.aliased ∙ sym e2),
      )

  write_bms-Inv :
      (ws : List (ℕ × ℕ)) (bu : BatteryUnit F)
      → Inv bu
      → All IsBelow ws
      → Ensures Inv (write_bms ws bu)
  unfolding write_bms
  write_bms-Inv ws bu i below =
      let (area, e, size) = i.input_sized in
      (
        record bu { bms = put_words ws bu.bms },
        rw (write_words-put ws bu.bms i.bms_sized below) refl,
        bms_changed-Inv bu (put_words ws bu.bms) i (put_words-IsSized ws bu.bms i.bms_sized)
            (area, put_words-input ws bu.bms ∙ e, size),
      )

  sync_pcs_status-Inv : (kw : F) (bu : BatteryUnit F) → Inv bu → Ensures Inv (sync_pcs_status kw bu)
  unfolding sync_pcs_status
  sync_pcs_status-Inv kw bu i =
      Ensures-bind _ (write_pcs-Inv _ bu i (ground arith) (ground arith)) λ b1 i1.
        write_pcs-Inv _ (record b1 { pcs_dc_under_volt_fault = latched bu })
          (modes-Inv b1 b1.remote_mode b1.grid_tied (latched bu) i1) (ground arith) (ground arith)

  sync_pcs_power-Inv :
      (kw kvar : F) (bu : BatteryUnit F) → Inv bu → Ensures Inv (sync_pcs_power kw kvar bu)
  unfolding sync_pcs_power
  sync_pcs_power-Inv kw kvar bu i = write_pcs-Inv _ bu i (ground arith) (ground arith)

  sync_current-Inv :
      (kw kva : F) (voltage_reg reg : ℕ) (bu : BatteryUnit F)
      → Inv bu
      → voltage_reg < 65535
      → reg < 65536
      → IsOther (reg, 0)
      → Ensures Inv (sync_current kw kva voltage_reg reg bu)
  unfolding sync_current
  sync_current-Inv kw kva voltage_reg reg bu i h h' other =
      let voltage = fl.mul (fl.of_nat (bu.pcs.holding.at voltage_reg)) (fl.lit 1 1) in
      rw (read_u16-at bu.pcs i.pcs_sized voltage_reg h) (
        Ensures-if (fl.lt nought voltage)
          (λ _.
            on_pcs-Inv bu reg (signed_tenths (phase_current kw kva voltage)) i h'
              (ground (arith, other)) (ground (arith, other)))
          (λ _. Ensures-done bu i))

  sync_pcs_grid-Inv :
      (hz : F) (draws : Draws F) (kw kvar : F) (bu : BatteryUnit F)
      → Inv bu
      → Ensures Inv (sync_pcs_grid hz draws kw kvar bu)
  unfolding sync_pcs_grid grid_phase_voltage
  sync_pcs_grid-Inv hz draws kw kvar bu i =
      rw (read_u16-at bu.pcs i.pcs_sized reg_pcs_grid_voltage_cmd (omega arith)) (
        Ensures-bind _ (write_pcs-Inv _ bu i (ground arith) (ground arith)) λ b1 i1.
          Ensures-bind _
            (sync_current-Inv _ _ reg_pcs_voltage_a reg_pcs_current_a b1 i1 (omega arith)
              (omega arith) (ground arith))
            λ b2 i2.
              Ensures-bind _
                (sync_current-Inv _ _ reg_pcs_voltage_b reg_pcs_current_b b2 i2 (omega arith)
                  (omega arith) (ground arith))
                λ b3 i3.
                  Ensures-bind _
                    (sync_current-Inv _ _ reg_pcs_voltage_c reg_pcs_current_c b3 i3 (omega arith)
                      (omega arith) (ground arith))
                    λ b4 i4.
                      on_pcs-Inv b4 reg_pcs_frequency _ i4 (omega arith) (omega arith)
                        (omega arith))

  sync_pcs_dc-Inv :
      (kw volts : F) (bu : BatteryUnit F) → Inv bu → Ensures Inv (sync_pcs_dc kw volts bu)
  unfolding sync_pcs_dc
  sync_pcs_dc-Inv kw volts bu i = write_pcs-Inv _ bu i (ground arith) (ground arith)

  sync_pcs_temperature-Inv : (bu : BatteryUnit F) → Inv bu → Ensures Inv (sync_pcs_temperature bu)
  unfolding sync_pcs_temperature
  sync_pcs_temperature-Inv bu i = write_pcs-Inv _ bu i (ground arith) (ground arith)

  sync_bms_status-Inv :
      (percent kw : F) (bu : BatteryUnit F) → Inv bu → Ensures Inv (sync_bms_status percent kw bu)
  unfolding sync_bms_status
  sync_bms_status-Inv percent kw bu i = write_bms-Inv _ bu i (ground arith)

  sync_bms_energy-Inv :
      (percent volts kw : F) (bu : BatteryUnit F)
      → Inv bu
      → Ensures Inv (sync_bms_energy percent volts kw bu)
  unfolding sync_bms_energy
  sync_bms_energy-Inv percent volts kw bu i =
      Ensures-bind _ (write_bms-Inv _ bu i (ground arith)) λ b1 i1.
        Ensures-bind _
          (write_u32-IsSized b1.bms reg_bms_total_charge _ i1.bms_sized i1.input_sized
            (omega arith))
          λ c (size, input).
            Ensures-bind _ (write_u32-IsSized c reg_bms_total_discharge _ size input (omega arith))
              λ c' (size', input').
                Ensures-done (record b1 { bms = c' }) (bms_changed-Inv b1 c' i1 size' input')

  sync_bms_limits-Inv :
      (percent volts : F) (bu : BatteryUnit F)
      → Inv bu
      → Ensures Inv (sync_bms_limits percent volts bu)
  unfolding sync_bms_limits
  sync_bms_limits-Inv percent volts bu i = write_bms-Inv _ bu i (ground arith)

  sync_bms_cell_stats-Inv :
      (draws : Draws F) (bu : BatteryUnit F) → Inv bu → Ensures Inv (sync_bms_cell_stats draws bu)
  unfolding sync_bms_cell_stats
  sync_bms_cell_stats-Inv draws bu i =
      Ensures-bind _ (cell_stats-returns _ _ _ _ draws.intn (cell_count-least bu))
        λ s _. write_bms-Inv _ bu i (ground arith)

  sync_system_status-Inv :
      (kw kvar : F) (bu : BatteryUnit F) → Inv bu → Ensures Inv (sync_system_status kw kvar bu)
  unfolding sync_system_status
  sync_system_status-Inv kw kvar bu i =
      rw
        (
          read_u16-at bu.pcs i.pcs_sized reg_pcs_fault_status (omega arith),
          read_u16-at bu.bms i.bms_sized reg_bms_fault_status (omega arith),
        )
        (Ensures-bind _ (write_pcs-Inv _ bu i (ground arith) (ground arith)) λ b1 i1.
          rw
            (
              read_u16-at b1.bms i1.bms_sized reg_bms_max_charge_pw (omega arith),
              read_u16-at b1.pcs i1.pcs_sized reg_max_charge_pw_setting (omega arith),
              read_u16-at b1.bms i1.bms_sized reg_bms_max_discharge_pw (omega arith),
              read_u16-at b1.pcs i1.pcs_sized reg_max_discharge_pw_setting (omega arith),
            )
            (write_pcs-Inv _ b1 i1 (ground arith) (ground arith)))

  sync_clusters-IsInputOf :
      (left i : ℕ) (draws : ℕ → Draws F) (words : List (ℕ × ℕ)) (bu : BatteryUnit F) (b : SlaveBank)
      → HasInput b
      → Ensures (IsInputOf b) (sync_clusters left i draws words bu b)
  unfolding sync_clusters
  sync_clusters-IsInputOf zero i draws words bu b h = Ensures-done b (h, refl)
  sync_clusters-IsInputOf (suc left) i draws words bu b h =
      Ensures-bind _ (cell_stats-returns _ _ _ _ (draws i).intn (cell_count-least bu)) λ s _.
        Ensures-bind _ (write_cluster-IsInputOf i words b h) λ b1 (h1, e1).
          Ensures-bind _ (write_cluster-IsInputOf i (drawn_words s) b1 h1) λ b2 (h2, e2).
            Ensures-weaken (sync_clusters-IsInputOf left (i + 1) draws words bu b2 h2)
              λ b3 (h3, e3). (h3, e3 ∙ e2 ∙ e1)

  sync_cluster_registers-Inv :
      (draws : ℕ → Draws F) (percent volts kw : F) (bu : BatteryUnit F)
      → Inv bu
      → Ensures Inv (sync_cluster_registers draws percent volts kw bu)
  unfolding sync_cluster_registers
  sync_cluster_registers-Inv draws percent volts kw bu i =
      Ensures-bind _
        (sync_clusters-IsInputOf bu.cluster_count 0 draws (shared_words percent volts kw bu) bu
          bu.bms i.input_sized)
        λ c (input, same).
          Ensures-done (record bu { bms = c }) (bms_changed-Inv bu c i (rw same i.bms_sized) input)

  -- `Sync` returns, and keeps the invariant.
  pub sync-Inv :
      (hz : F) (draws : SyncDraws F) (bu : BatteryUnit F) → Inv bu → Ensures Inv (sync hz draws bu)
  unfolding sync
  sync-Inv hz draws bu i =
      let percent = soc bu in
      let kw = bu.actual_power_kw in
      let kvar = bu.actual_reactive_kvar in
      let volts = battery_voltage bu in
      Ensures-bind _ (sync_pcs_status-Inv kw bu i) λ b1 i1.
        Ensures-bind _ (sync_pcs_power-Inv kw kvar b1 i1) λ b2 i2.
          Ensures-bind _ (sync_pcs_grid-Inv hz draws.grid kw kvar b2 i2) λ b3 i3.
            Ensures-bind _ (sync_pcs_dc-Inv kw volts b3 i3) λ b4 i4.
              Ensures-bind _ (sync_pcs_temperature-Inv b4 i4) λ b5 i5.
                Ensures-bind _ (sync_bms_status-Inv percent kw b5 i5) λ b6 i6.
                  Ensures-bind _ (sync_bms_energy-Inv percent volts kw b6 i6) λ b7 i7.
                    Ensures-bind _ (sync_bms_limits-Inv percent volts b7 i7) λ b8 i8.
                      Ensures-bind _ (sync_bms_cell_stats-Inv draws.cells b8 i8) λ b9 i9.
                        Ensures-bind _ (sync_system_status-Inv kw kvar b9 i9) λ b10 i10.
                          sync_cluster_registers-Inv draws.clusters percent volts kw b10 i10
