-- ===== src/Simulator/Battery/Command.antt =====
-- What the power command of a client does at the next tick.
pub mod Refusal
use virtual_bess.Prelude.{
  ℕ, ◌≡◌, ◌≢◌, ◌⊎◌, refl, ◌∙◌, arith, true, false, ◌==◌, ◌&&◌, if◌then◌else◌,
}
use virtual_bess.Prelude.Go.{Run, done, ◌>>=◌}
use virtual_bess.Prelude.Hoare.{Ensures}
use virtual_bess.Simulator.Bank.{SlaveBank}
use virtual_bess.Simulator.Bank.Effects.{IsSized, put, write_u16-put}
use virtual_bess.Simulator.Float.{Float, nought, of_s16, jitter}
use virtual_bess.Simulator.Battery.{BatteryUnit, soc, on_pcs, on_pcs_write, update_grid_voltage}
use virtual_bess.Simulator.Battery.Power.{
  selected, commanded, process_power_command, update_energy, tick_unit,
}
use virtual_bess.Simulator.Battery.Command.Refusal.{
  refuses_power, update_energy-power, update_energy-pcs,
}
use virtual_bess.Simulator.Battery.Controls.Idle.{
  IsReady, process_bms_controls_idle, process_pcs_controls_idle,
}
use virtual_bess.Simulator.Battery.Invariant.Tick.{
  commanded_both, sync_power_command_registers_run, update_reactive_output_run,
}
use virtual_bess.Simulator.Battery.Invariant.Reach.{pcs_written}
use virtual_bess.Simulator.Registers.Pcs.{
  reg_pcs_grid_mode, reg_pcs_startup, reg_pcs_shutdown, reg_pcs_estop, reg_pcs_fault_reset,
  reg_pcs_remote_local, reg_pcs_power_cmd_alias, reg_pcs_power_cmd,
}

module _ {F : Type 0} ⦃fl : Float F⦄ where
  -- `p` is `asked`, brought to the rated power, either way, when it is beyond it
  abbrev pub IsLimit : F → F → F → Type 0
  IsLimit rated asked p =
      ((fl.lt rated asked ≡ true) × (p ≡ rated))
      ⊎ ((fl.lt rated asked ≡ false) × (fl.lt asked (fl.neg rated) ≡ true) × (p ≡ fl.neg rated))
      ⊎ ((fl.lt rated asked ≡ false) × (fl.lt asked (fl.neg rated) ≡ false) × (p ≡ asked))

  -- the two command registers and the two values remembered are one value
  pub record IsAgreed (bu : BatteryUnit F) : Type 0 where
    pub alias : bu.pcs.holding.at reg_pcs_power_cmd_alias ≡ bu.pcs.holding.at reg_pcs_power_cmd
    pub last : bu.last_power_cmd_raw ≡ bu.pcs.holding.at reg_pcs_power_cmd
    pub last_alias : bu.last_power_cmd_alias_raw ≡ bu.pcs.holding.at reg_pcs_power_cmd

  -- The ways to command `v`: at either register with the callback, or at one of two that agree, by a
  -- store without it.
  pub data IsCommand (bu : BatteryUnit F) (v : ℕ) : Run (BatteryUnit F) → Type 0 where
    at_command : IsCommand bu v (pcs_written bu reg_pcs_power_cmd v)
    at_alias : IsCommand bu v (pcs_written bu reg_pcs_power_cmd_alias v)
    at_command_alone : IsAgreed bu → IsCommand bu v (on_pcs bu reg_pcs_power_cmd v)
    at_alias_alone : IsAgreed bu → IsCommand bu v (on_pcs bu reg_pcs_power_cmd_alias v)

  -- The unit `u` behind a tick that starts from `bu` follows the command `v`.
  abbrev pub IsObeyed : F → F → BatteryUnit F → ℕ → BatteryUnit F → Type 0
  IsObeyed dt draw bu v u =
      (p : F) × IsLimit bu.rated_power_kw (fl.mul (of_s16 v) (fl.lit 1 1)) p
      × (u.actual_power_kw ≡ (
          if refuses_power dt bu (fl.mul p (jitter draw)) then nought else fl.mul p (jitter draw)))
      × (u.pcs.holding.at reg_pcs_power_cmd ≡ v)
      × (u.pcs.holding.at reg_pcs_power_cmd_alias ≡ v)

  commanded-IsLimit :
      (bu : BatteryUnit F) (v : ℕ)
      → fl.lt bu.rated_power_kw (fl.neg bu.rated_power_kw) ≡ false
      → IsLimit bu.rated_power_kw (fl.mul (of_s16 v) (fl.lit 1 1)) (commanded bu v)
  commanded-IsLimit bu v rated = let asked = fl.mul (of_s16 v) (fl.lit 1 1) in ground (arith, rated)

  process_power_command_on :
      (draw draw' : F) (bu : BatteryUnit F) (v : ℕ)
      → IsSized bu.pcs
      → selected bu
          (bu.pcs.holding.at reg_pcs_power_cmd)
          (bu.pcs.holding.at reg_pcs_power_cmd_alias)
        ≡ v
      → bu.pcs_running && bu.remote_mode && bu.bms_hv_closed ≡ true
      → (q : F) × (process_power_command draw draw' bu
          ≡ done (record (commanded_both bu v) {
            actual_power_kw = fl.mul (commanded bu v) (jitter draw);
            actual_reactive_kvar = q;
          }))
  unfolding process_power_command
  process_power_command_on draw draw' bu v size took on =
      let b = record (commanded_both bu v) {
        actual_power_kw = fl.mul (commanded bu v) (jitter draw);
      } in
      let (q, e) = update_reactive_output_run draw' b size in
      (q, rw (sync_power_command_registers_run bu v size took, on) e)

  -- A tick of a unit that is ready and takes the command `v` follows it.
  tick_unit-IsObeyed :
      (dt draw draw' : F) (bu : BatteryUnit F) (v : ℕ)
      → IsReady bu
      → fl.lt bu.rated_power_kw (fl.neg bu.rated_power_kw) ≡ false
      → selected bu
          (bu.pcs.holding.at reg_pcs_power_cmd)
          (bu.pcs.holding.at reg_pcs_power_cmd_alias)
        ≡ v
      → Ensures (IsObeyed dt draw bu v) (tick_unit dt draw draw' bu)
  unfolding tick_unit update_grid_voltage soc
  tick_unit-IsObeyed dt draw draw' bu v r rated took =
      let tied = bu.pcs.holding.at reg_pcs_grid_mode == 0 in
      let b = update_grid_voltage dt (record bu { remote_mode = true; grid_tied = tied }) in
      let on : bu.pcs_running && true && bu.bms_hv_closed ≡ true =
        ground (arith, r.running, r.closed) in
      let (q, e) = process_power_command_on draw draw' b v r.pcs_sized took on in
      let c = record (commanded_both b v) {
        actual_power_kw = fl.mul (commanded b v) (jitter draw);
        actual_reactive_kvar = q;
      } in
      let same = update_energy-pcs dt c in
      (
        update_energy dt c,
        rw (process_bms_controls_idle bu r, process_pcs_controls_idle bu r, e) refl,
        (
          commanded bu v,
          commanded-IsLimit bu v rated,
          update_energy-power dt c,
          rw same refl,
          rw same refl,
        ),
      )

  -- A store at the command registers leaves a unit ready.
  stored-IsReady :
      (bu : BatteryUnit F) (bank : SlaveBank) (last last_alias : ℕ)
      → IsReady bu
      → IsSized bank
      → ((r : ℕ)
          → r ≢ reg_pcs_power_cmd
          → r ≢ reg_pcs_power_cmd_alias
          → bank.holding.at r ≡ bu.pcs.holding.at r)
      → IsReady (record bu {
        pcs = bank;
        last_power_cmd_raw = last;
        last_power_cmd_alias_raw = last_alias;
      })
  stored-IsReady bu bank last last_alias r size frame = record {
    pcs_sized = size;
    bms_sized = r.bms_sized;
    running = r.running;
    closed = r.closed;
    remote = frame reg_pcs_remote_local (omega arith) (omega arith) ∙ r.remote;
    no_close = r.no_close;
    no_open = r.no_open;
    no_bms_reset = r.no_bms_reset;
    no_startup = rw (frame reg_pcs_startup (omega arith) (omega arith)) r.no_startup;
    no_shutdown = rw (frame reg_pcs_shutdown (omega arith) (omega arith)) r.no_shutdown;
    no_estop = rw (frame reg_pcs_estop (omega arith) (omega arith)) r.no_estop;
    no_pcs_reset = rw (frame reg_pcs_fault_reset (omega arith) (omega arith)) r.no_pcs_reset;
  }

  stored-IsObeyed :
      (dt draw draw' : F) (bu : BatteryUnit F) (bank : SlaveBank) (last last_alias v : ℕ)
      → IsReady bu
      → fl.lt bu.rated_power_kw (fl.neg bu.rated_power_kw) ≡ false
      → IsSized bank
      → ((r : ℕ)
          → r ≢ reg_pcs_power_cmd
          → r ≢ reg_pcs_power_cmd_alias
          → bank.holding.at r ≡ bu.pcs.holding.at r)
      → selected
          (record bu { last_power_cmd_raw = last; last_power_cmd_alias_raw = last_alias })
          (bank.holding.at reg_pcs_power_cmd)
          (bank.holding.at reg_pcs_power_cmd_alias)
        ≡ v
      → Ensures (IsObeyed dt draw bu v) (
          tick_unit dt draw draw' (record bu {
            pcs = bank;
            last_power_cmd_raw = last;
            last_power_cmd_alias_raw = last_alias;
          }))
  unfolding soc
  stored-IsObeyed dt draw draw' bu bank last last_alias v r rated size frame took =
      tick_unit-IsObeyed dt draw draw' _ v (stored-IsReady bu bank last last_alias r size frame)
        rated took

  -- A command and the next tick, for a unit that runs in remote mode with the contactor closed and
  -- has no control pulse pending, on 65536 registers, and whose rated power is not below its negative.
  -- Whether it is written at the command register or at its alias, with the callback, or stored there
  -- without it while the registers and the values remembered agree: both registers hold it behind the
  -- tick, and the active power is the value in tenths of a kW, brought to the rated power, either way,
  -- when it is beyond it, times the jitter drawn; or it is zero, exactly when that power is not zero
  -- and would charge a full battery, discharge an empty one, or move the energy below zero or above
  -- the capacity.
  pub power_command_followed :
      (dt draw draw' : F) (bu : BatteryUnit F) (v : ℕ) (m : Run (BatteryUnit F))
      → IsReady bu
      → fl.lt bu.rated_power_kw (fl.neg bu.rated_power_kw) ≡ false
      → IsCommand bu v m
      → Ensures (IsObeyed dt draw bu v) (do b ← m; tick_unit dt draw draw' b)
  unfolding pcs_written on_pcs_write
  power_command_followed dt draw draw' bu v _ r rated at_command =
      let first = put bu.pcs reg_pcs_power_cmd v in
      rw
        (
          write_u16-put bu.pcs reg_pcs_power_cmd v r.pcs_sized (omega arith),
          write_u16-put first reg_pcs_power_cmd_alias v r.pcs_sized (omega arith),
        )
        (stored-IsObeyed dt draw draw' bu (put first reg_pcs_power_cmd_alias v) v v v r rated
          r.pcs_sized (λ a n n'. ground (arith, n, n')) (ground arith))
  power_command_followed dt draw draw' bu v _ r rated at_alias =
      let first = put bu.pcs reg_pcs_power_cmd_alias v in
      rw
        (
          write_u16-put bu.pcs reg_pcs_power_cmd_alias v r.pcs_sized (omega arith),
          write_u16-put first reg_pcs_power_cmd v r.pcs_sized (omega arith),
        )
        (stored-IsObeyed dt draw draw' bu (put first reg_pcs_power_cmd v) v v v r rated r.pcs_sized
          (λ a n n'. ground (arith, n, n')) (ground arith))
  power_command_followed dt draw draw' bu v _ r rated (at_command_alone a) =
      rw (write_u16-put bu.pcs reg_pcs_power_cmd v r.pcs_sized (omega arith)) (
        stored-IsObeyed dt draw draw' bu (put bu.pcs reg_pcs_power_cmd v) bu.last_power_cmd_raw
          bu.last_power_cmd_alias_raw v r rated r.pcs_sized (λ r n n'. ground (arith, n, n'))
          (ground (arith, a.alias, a.last, a.last_alias)))
  power_command_followed dt draw draw' bu v _ r rated (at_alias_alone a) =
      rw (write_u16-put bu.pcs reg_pcs_power_cmd_alias v r.pcs_sized (omega arith)) (
        stored-IsObeyed dt draw draw' bu (put bu.pcs reg_pcs_power_cmd_alias v)
          bu.last_power_cmd_raw bu.last_power_cmd_alias_raw v r rated r.pcs_sized
          (λ r n n'. ground (arith, n, n')) (ground (arith, a.alias, a.last, a.last_alias)))
