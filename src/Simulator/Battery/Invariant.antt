-- ===== src/Simulator/Battery/Invariant.antt =====
-- What holds of a battery unit between two of its operations, each of which returns.
pub mod Draws
pub mod Energy
pub mod Tick
pub mod Words
pub mod Sync
pub mod Reach
use virtual_bess.Prelude.{
  ℕ, ◌+◌, ◌<◌, ◌≡◌, ◌≢◌, refl, sym, ◌∙◌, arith, Bool, true, false, not, ◌==◌, ◌&&◌, ◌||◌,
  if◌then◌else◌,
}
use virtual_bess.Prelude.Go.{Run, done, ◌>>=◌}
use virtual_bess.Prelude.Hoare.{Ensures, Ensures-done, Ensures-if, Ensures-bind, if-elim}
use virtual_bess.Simulator.Bank.{SlaveBank, read_u16, write_u16}
use virtual_bess.Simulator.Bank.Words.{read_u16-at}
use virtual_bess.Simulator.Bank.Effects.{IsSized, HasInput, put, write_u16-put}
use virtual_bess.Simulator.Float.{Float, IsFloat, nought}
use virtual_bess.Simulator.Battery.{
  BatteryUnit, process_bms_controls, process_pcs_controls, bms_pulse, pcs_pulse, close_hv, open_hv,
  start_up, shut_down, reset_fault, on_pcs, on_bms, on_pcs_write, at_rest, remember,
  update_grid_voltage,
}
use virtual_bess.Simulator.Registers.Pcs.{reg_pcs_power_cmd_alias, reg_pcs_power_cmd}
use virtual_bess.Simulator.Registers.Bms.{reg_bms_fault_reset, reg_bms_close_hv, reg_bms_open_hv}

module _ {F : Type 0} ⦃fl : Float F⦄ where
  abbrev pub IsResting : BatteryUnit F → Type 0
  IsResting bu = (bu.actual_power_kw ≡ nought) × (bu.actual_reactive_kvar ≡ nought)

  -- Neither the energy nor the capacity is below zero, nor the energy above the capacity.
  abbrev pub IsCharged : BatteryUnit F → Type 0
  IsCharged bu =
      (fl.lt bu.current_energy_kwh nought ≡ false)
      × (fl.lt bu.rated_capacity_kwh bu.current_energy_kwh ≡ false)
      × (fl.lt bu.rated_capacity_kwh nought ≡ false)

  pub record Inv (bu : BatteryUnit F) : Type 0 where
    pub pcs_sized : IsSized bu.pcs
    pub bms_sized : IsSized bu.bms
    pub input_sized : HasInput bu.bms
    pub open_resting : bu.bms_hv_closed ≡ false → IsResting bu
    pub stopped_resting : bu.pcs_running ≡ false → IsResting bu
    pub charged : IsCharged bu
    pub aliased : bu.pcs.holding.at reg_pcs_power_cmd ≡ bu.pcs.holding.at reg_pcs_power_cmd_alias

  -- A change of the PCS registers other than the command and its alias keeps the invariant.
  pub pcs_changed-Inv :
      (bu : BatteryUnit F) (bank : SlaveBank)
      → Inv bu
      → IsSized bank
      → bank.holding.at reg_pcs_power_cmd ≡ bank.holding.at reg_pcs_power_cmd_alias
      → Inv (record bu { pcs = bank })
  pcs_changed-Inv bu bank i size same = record {
    pcs_sized = size;
    bms_sized = i.bms_sized;
    input_sized = i.input_sized;
    open_resting = i.open_resting;
    stopped_resting = i.stopped_resting;
    charged = i.charged;
    aliased = same;
  }

  pub bms_changed-Inv :
      (bu : BatteryUnit F) (bank : SlaveBank)
      → Inv bu
      → IsSized bank
      → HasInput bank
      → Inv (record bu { bms = bank })
  bms_changed-Inv bu bank i size input = record {
    pcs_sized = i.pcs_sized;
    bms_sized = size;
    input_sized = input;
    open_resting = i.open_resting;
    stopped_resting = i.stopped_resting;
    charged = i.charged;
    aliased = i.aliased;
  }

  pub on_bms-Inv :
      (bu : BatteryUnit F) (reg v : ℕ) → Inv bu → reg < 65536 → Ensures Inv (on_bms bu reg v)
  on_bms-Inv bu reg v i h =
      let b = put bu.bms reg v in
      (
        record bu { bms = b },
        rw (write_u16-put bu.bms reg v i.bms_sized h) refl,
        bms_changed-Inv bu b i i.bms_sized i.input_sized,
      )

  pub on_pcs-Inv :
      (bu : BatteryUnit F) (reg v : ℕ)
      → Inv bu
      → reg < 65536
      → reg ≢ reg_pcs_power_cmd
      → reg ≢ reg_pcs_power_cmd_alias
      → Ensures Inv (on_pcs bu reg v)
  on_pcs-Inv bu reg v i h n1 n2 =
      let b = put bu.pcs reg v in
      (
        record bu { pcs = b },
        rw (write_u16-put bu.pcs reg v i.pcs_sized h) refl,
        pcs_changed-Inv bu b i i.pcs_sized (ground (arith, i.aliased)),
      )

  -- The command written at either address, and then at the other.
  pub both_commands-Inv :
      (bu : BatteryUnit F) (v : ℕ)
      → Inv bu
      → Inv (
          remember
            (record bu { pcs = put (put bu.pcs reg_pcs_power_cmd v) reg_pcs_power_cmd_alias v })
            v)
  both_commands-Inv bu v i = record {
    pcs_sized = i.pcs_sized;
    bms_sized = i.bms_sized;
    input_sized = i.input_sized;
    open_resting = i.open_resting;
    stopped_resting = i.stopped_resting;
    charged = i.charged;
    aliased = ground arith;
  }

  pub at_rest-Inv : (bu : BatteryUnit F) → Inv bu → Inv (at_rest bu)
  at_rest-Inv bu i = record {
    pcs_sized = i.pcs_sized;
    bms_sized = i.bms_sized;
    input_sized = i.input_sized;
    open_resting = λ h. (refl, refl);
    stopped_resting = λ h. (refl, refl);
    charged = i.charged;
    aliased = i.aliased;
  }

  -- A unit at rest satisfies the invariant whatever its contactor and its PCS do.
  pub switched_at_rest-Inv :
      (bu : BatteryUnit F) (running closed : Bool)
      → Inv bu
      → Inv (at_rest (record bu { pcs_running = running; bms_hv_closed = closed }))
  switched_at_rest-Inv bu running closed i = record {
    pcs_sized = i.pcs_sized;
    bms_sized = i.bms_sized;
    input_sized = i.input_sized;
    open_resting = λ h. (refl, refl);
    stopped_resting = λ h. (refl, refl);
    charged = i.charged;
    aliased = i.aliased;
  }

  close_hv-Inv : (bu : BatteryUnit F) → Inv bu → Inv (close_hv bu)
  close_hv-Inv bu i = record {
    pcs_sized = i.pcs_sized;
    bms_sized = i.bms_sized;
    input_sized = i.input_sized;
    open_resting = λ h. ground arith;
    stopped_resting = i.stopped_resting;
    charged = i.charged;
    aliased = i.aliased;
  }

  pub start_up-Inv : (bu : BatteryUnit F) → Inv bu → Inv (start_up bu)
  start_up-Inv bu i = record {
    pcs_sized = ground (arith, i.pcs_sized);
    bms_sized = ground (arith, i.bms_sized);
    input_sized =
        if-elim (λ (b : BatteryUnit F). HasInput b.bms) (not bu.bms_hv_closed) (λ _. i.input_sized)
          (λ _. i.input_sized);
    open_resting = ground (arith, i.open_resting);
    stopped_resting = ground (arith, i.stopped_resting);
    charged = ground (arith, i.charged);
    aliased = ground (arith, i.aliased);
  }

  -- the fields that the invariant does not read
  pub modes-Inv :
      (bu : BatteryUnit F) (remote tied fault : Bool)
      → Inv bu
      → Inv (record bu { remote_mode = remote; grid_tied = tied; pcs_dc_under_volt_fault = fault })
  modes-Inv bu remote tied fault i = record {
    pcs_sized = i.pcs_sized;
    bms_sized = i.bms_sized;
    input_sized = i.input_sized;
    open_resting = i.open_resting;
    stopped_resting = i.stopped_resting;
    charged = i.charged;
    aliased = i.aliased;
  }

  bms_pulse-Inv :
      (reg : ℕ) (effect : BatteryUnit F → BatteryUnit F) (bu : BatteryUnit F)
      → reg < 65535
      → Inv bu
      → Inv (effect bu)
      → Ensures Inv (bms_pulse reg effect bu)
  bms_pulse-Inv reg effect bu h i i' = rw (read_u16-at bu.bms i.bms_sized reg h) (
      Ensures-if (bu.bms.holding.at reg == 1) (λ _. on_bms-Inv (effect bu) reg 0 i' (omega arith))
        (λ _. Ensures-done bu i))

  pub pcs_pulse-Inv :
      (reg : ℕ) (effect : BatteryUnit F → BatteryUnit F) (bu : BatteryUnit F)
      → reg < 65535
      → reg ≢ reg_pcs_power_cmd
      → reg ≢ reg_pcs_power_cmd_alias
      → Inv bu
      → Inv (effect bu)
      → Ensures Inv (pcs_pulse reg effect bu)
  pcs_pulse-Inv reg effect bu h n1 n2 i i' = rw (read_u16-at bu.pcs i.pcs_sized reg h) (
      Ensures-if (bu.pcs.holding.at reg == 1)
        (λ _. on_pcs-Inv (effect bu) reg 0 i' (omega arith) n1 n2) (λ _. Ensures-done bu i))

  -- `ProcessBMSControls` returns, and keeps the invariant.
  pub process_bms_controls-Inv :
      (bu : BatteryUnit F) → Inv bu → Ensures Inv (process_bms_controls bu)
  unfolding process_bms_controls
  process_bms_controls-Inv bu i =
      Ensures-bind _
        (bms_pulse-Inv reg_bms_close_hv close_hv bu (omega arith) i (close_hv-Inv bu i))
        λ b1 i1.
          Ensures-bind _
            (bms_pulse-Inv reg_bms_open_hv open_hv b1 (omega arith) i1
              (switched_at_rest-Inv b1 b1.pcs_running false i1))
            λ b2 i2. bms_pulse-Inv reg_bms_fault_reset (λ b. b) b2 (omega arith) i2 i2
