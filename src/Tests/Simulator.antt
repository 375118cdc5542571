-- ===== src/Tests/Simulator.antt =====
-- Writes through the simulator, to one slave without a callback, and to a battery unit.
use virtual_bess.Prelude.{false, ◌≡◌, refl, arith, [], ◌∷◌, none, some, ◌==◌, if◌then◌else◌}
use virtual_bess.Prelude.Go.{done}
use virtual_bess.Mbserver.Frame.{uint16_to_bytes, register_and_number}
use virtual_bess.Mbserver.Functions.{answer}
use virtual_bess.Simulator.Bank.{SlaveBank, new_slave_bank}
use virtual_bess.Simulator.Float.{ℤ, milli_float}
use virtual_bess.Simulator.Bank.Effects.{put, update_uint16_data-put}
use virtual_bess.Simulator.Battery.{BatteryUnit, on_bms_write}
use virtual_bess.Simulator.Battery.Invariant.{Inv}
use virtual_bess.Simulator.Battery.Invariant.Reach.{pcs_written, bms_written}
use virtual_bess.Simulator.Core.{
  Devices, store, write_holding, handle_read_holding, handle_write_single_holding,
  handle_write_multiple_holding,
}
use virtual_bess.Simulator.Core.Writes.{
  to_slave, write_single-eq-write_holding, write_multiple_then_read_bank,
}
use virtual_bess.Simulator.Core.Units.{battery_devices, write_holding-refines}
use virtual_bess.Tests.Battery.{unit, unit-Inv}

-- one slave with the id 7
abbrev one : Devices SlaveBank
one = record {
  bank_of = λ b id. if id == 7 then some b else none;
  set_bank = λ b id bank. bank;
  on_write = λ b id addr v. done b;
}

abbrev bank : SlaveBank
bank = new_slave_bank 7 false

stored : store one bank 7 bank 100 42 ≡ done (put bank 100 42)
stored = rw (update_uint16_data-put bank 100 42 (unfold new_slave_bank in refl) (omega arith)) refl

write_single-eq-write_holding_example :
    (write_holding one bank 7 100 42 ≡ done (put bank 100 42, none))
    × (handle_write_single_holding one bank (to_slave 7 100 42 [] [])
        ≡ answer (put bank 100 42) (register_and_number 100 42 []))
write_single-eq-write_holding_example =
    write_single-eq-write_holding one bank 7 bank refl 100 42 [] (put bank 100 42) (omega arith)
      (omega arith) stored

write_multiple_then_read_bank_example :
    (u : BatteryUnit ℤ) × (handle_write_multiple_holding battery_devices unit
        (to_slave 2 100 2 (4 ∷ uint16_to_bytes (5 ∷ (6 ∷ []))) [])
      ≡ answer u (register_and_number 100 2 []))
    × (handle_read_holding battery_devices u (to_slave 2 100 2 [] [])
        ≡ answer u (4 ∷ uint16_to_bytes (5 ∷ (6 ∷ []))))
unfolding new_slave_bank
write_multiple_then_read_bank_example =
    write_multiple_then_read_bank battery_devices unit 2 unit.bms 100 4 5 (6 ∷ []) [] [] refl
      (λ b same. rw same refl) (λ b same a w. rw same (unfold on_bms_write in refl))
      (omega arith, (omega arith, tt)) unit-Inv.bms_sized (omega arith)

write_holding-refines_example :
    ((u : BatteryUnit ℤ) × (pcs_written unit 30010 500 ≡ done u)
      × (write_holding battery_devices unit 1 30010 500 ≡ done (u, none))
      × Inv u)
    × ((u : BatteryUnit ℤ) × (bms_written unit 30010 500 ≡ done u)
        × (write_holding battery_devices unit 2 30010 500 ≡ done (u, none))
        × Inv u)
unfolding new_slave_bank
write_holding-refines_example =
    write_holding-refines unit 30010 500 unit-Inv (omega arith) (omega arith)
