-- ===== src/Simulator/Pv/Limits.antt =====
-- The limits of a PV inverter, and its power under them.
use virtual_bess.Prelude.{
  ℕ, ◌<◌, ◌≤◌, ◌≡◌, ◌≢◌, refl, sym, ◌∙◌, arith, Bool, true, false, ◌==◌, if◌then◌else◌, IsU16,
}
use virtual_bess.Prelude.Go.{Run, done, ◌>>=◌}
use virtual_bess.Prelude.Hoare.{Ensures, Ensures-done, Ensures-if, Ensures-bind}
use virtual_bess.Simulator.Bank.{SlaveBank, read_u16, new_slave_bank}
use virtual_bess.Simulator.Bank.Words.{read_u16-at}
use virtual_bess.Simulator.Bank.Effects.{IsSized, put, write_u16-put}
use virtual_bess.Simulator.Float.{Float, nought}
use virtual_bess.Simulator.Pv.{
  PvUnit, clamp_u16, initial_pv, new_pv_unit, max_fixed_limit_raw, on_bank, take_percent,
  take_fixed, on_pv_write, pv_pulse, start, stop, process_controls,
}
use virtual_bess.Simulator.Registers.Pv.{
  reg_pv_startup, reg_pv_shutdown, reg_pv_percent_limit, reg_pv_fixed_limit,
}

clamp_u16-le : (v high : ℕ) → clamp_u16 v 0 high ≤ high
clamp_u16-le v high = ground arith

clamp_u16_id : (v high : ℕ) → v ≤ high → clamp_u16 v 0 high ≡ v
clamp_u16_id v high h = ground arith

module _ {F : Type 0} ⦃fl : Float F⦄ where
  -- The limit registers are in their ranges, and the unit knows them.
  pub record IsLimited (pv : PvUnit F) : Type 0 where
    pub sized : IsSized pv.bank
    pub percent_range : pv.bank.holding.at reg_pv_percent_limit ≤ 1000
    pub percent_known : pv.last_percent_limit_raw ≡ pv.bank.holding.at reg_pv_percent_limit
    pub fixed_range : pv.bank.holding.at reg_pv_fixed_limit ≤ max_fixed_limit_raw pv
    pub fixed_known : pv.last_fixed_limit_raw ≡ pv.bank.holding.at reg_pv_fixed_limit

  -- What `writeHolding` does for the slave of the unit: the store, then the callback.
  unfoldable pub pv_written : PvUnit F → ℕ → ℕ → Run (PvUnit F)
  pv_written pv addr v = do pv' ← on_bank pv addr v; on_pv_write pv' addr v

  -- A new unit is limited to all of its power.
  pub new_pv_unit-IsLimited :
      (kw volts : F) (id : ℕ)
      → Ensures (λ (pv : PvUnit F). IsLimited pv) (new_pv_unit kw volts (new_slave_bank id false))
  unfolding new_pv_unit new_slave_bank
  new_pv_unit-IsLimited kw volts id = (
    initial_pv kw volts (put (new_slave_bank id false) reg_pv_percent_limit 1000),
    rw (write_u16-put (new_slave_bank id false) reg_pv_percent_limit 1000 refl (omega arith)) refl,
    record {
      sized = refl;
      percent_range = omega arith;
      percent_known = refl;
      fixed_range = omega arith;
      fixed_known = refl;
    },
  )

  put_other :
      (pv : PvUnit F) (reg v : ℕ)
      → IsLimited pv
      → reg ≢ reg_pv_percent_limit
      → reg ≢ reg_pv_fixed_limit
      → IsLimited (record pv { bank = put pv.bank reg v })
  unfolding max_fixed_limit_raw
  put_other pv reg v l n1 n2 = record {
    sized = l.sized;
    percent_range = ground (arith, l.percent_range);
    percent_known = ground (arith, l.percent_known);
    fixed_range = ground (arith, l.fixed_range);
    fixed_known = ground (arith, l.fixed_known);
  }

  put_percent :
      (pv : PvUnit F) (bank : SlaveBank) (v : ℕ)
      → IsLimited pv
      → IsSized bank
      → bank.holding.at reg_pv_fixed_limit ≡ pv.bank.holding.at reg_pv_fixed_limit
      → bank.holding.at reg_pv_percent_limit ≡ v
      → v ≤ 1000
      → IsLimited (take_percent v (record pv { bank = bank }))
  unfolding max_fixed_limit_raw
  put_percent pv bank v l size same e h = record {
    sized = size;
    percent_range = rw e h;
    percent_known = sym e;
    fixed_range = rw same l.fixed_range;
    fixed_known = l.fixed_known ∙ sym same;
  }

  put_fixed :
      (pv : PvUnit F) (bank : SlaveBank) (v : ℕ)
      → IsLimited pv
      → IsSized bank
      → bank.holding.at reg_pv_percent_limit ≡ pv.bank.holding.at reg_pv_percent_limit
      → bank.holding.at reg_pv_fixed_limit ≡ v
      → v ≤ max_fixed_limit_raw pv
      → IsLimited (take_fixed v (record pv { bank = bank }))
  unfolding max_fixed_limit_raw
  put_fixed pv bank v l size same e h = record {
    sized = size;
    percent_range = rw same l.percent_range;
    percent_known = l.percent_known ∙ sym same;
    fixed_range = rw e h;
    fixed_known = sym e;
  }

  max_fixed_limit_raw-bank :
      (pv : PvUnit F) (bank : SlaveBank)
      → max_fixed_limit_raw (record pv { bank = bank }) ≡ max_fixed_limit_raw pv
  unfolding max_fixed_limit_raw
  max_fixed_limit_raw-bank pv bank = refl

  pub kept :
      (pv : PvUnit F) (bank : SlaveBank)
      → IsLimited pv
      → IsSized bank
      → bank.holding.at reg_pv_percent_limit ≡ pv.bank.holding.at reg_pv_percent_limit
      → bank.holding.at reg_pv_fixed_limit ≡ pv.bank.holding.at reg_pv_fixed_limit
      → IsLimited (record pv { bank = bank })
  unfolding max_fixed_limit_raw
  kept pv bank l size same same' = record {
    sized = size;
    percent_range = rw same l.percent_range;
    percent_known = l.percent_known ∙ sym same;
    fixed_range = rw same' l.fixed_range;
    fixed_known = l.fixed_known ∙ sym same';
  }

  -- A write of any register and its callback return, and keep the limits in their ranges.
  pub pv_written-IsLimited :
      (pv : PvUnit F) (addr v : ℕ)
      → IsLimited pv
      → IsU16 addr
      → Ensures IsLimited (pv_written pv addr v)
  unfolding pv_written on_pv_write on_bank
  pv_written-IsLimited pv addr v l h =
      let b = put pv.bank addr v in
      let p = clamp_u16 v 0 1000 in
      let q = clamp_u16 v 0 (max_fixed_limit_raw pv) in
      rw (write_u16-put pv.bank addr v l.sized h) (
        Ensures-if (addr == reg_pv_percent_limit)
          (λ e. (
            take_percent p (record pv { bank = put b reg_pv_percent_limit p }),
            rw (write_u16-put b reg_pv_percent_limit p l.sized (omega arith)) refl,
            put_percent pv (put b reg_pv_percent_limit p) p l l.sized (ground (arith, e))
                (ground arith) (clamp_u16-le v 1000),
          ))
          λ n1.
            Ensures-if (addr == reg_pv_fixed_limit)
              (λ e. (
                take_fixed q (record pv { bank = put b reg_pv_fixed_limit q }),
                rw
                    (
                      max_fixed_limit_raw-bank pv b,
                      write_u16-put b reg_pv_fixed_limit q l.sized (omega arith),
                    )
                    refl,
                put_fixed pv (put b reg_pv_fixed_limit q) q l l.sized (ground (arith, e))
                    (ground arith) (clamp_u16-le v (max_fixed_limit_raw pv)),
              ))
              λ n2.
                Ensures-done (record pv { bank = b })
                  (put_other pv addr v l (ground (arith, n1)) (ground (arith, n2))))

  -- start and stop leave the limits
  state_changed :
      (pv : PvUnit F) (running : Bool) (kw : F)
      → IsLimited pv
      → IsLimited (record pv { running = running; actual_power_kw = kw })
  unfolding max_fixed_limit_raw
  state_changed pv running kw l = record {
    sized = l.sized;
    percent_range = l.percent_range;
    percent_known = l.percent_known;
    fixed_range = l.fixed_range;
    fixed_known = l.fixed_known;
  }

  pv_pulse-IsLimited :
      (reg : ℕ) (effect : PvUnit F → PvUnit F) (pv : PvUnit F)
      → reg < 65535
      → reg ≢ reg_pv_percent_limit
      → reg ≢ reg_pv_fixed_limit
      → IsLimited pv
      → IsLimited (effect pv)
      → Ensures IsLimited (pv_pulse reg effect pv)
  unfolding on_bank
  pv_pulse-IsLimited reg effect pv h n1 n2 l l' = rw (read_u16-at pv.bank l.sized reg h) (
      Ensures-if (pv.bank.holding.at reg == 1)
        (λ _. (
          record (effect pv) { bank = put (effect pv).bank reg 0 },
          rw (write_u16-put (effect pv).bank reg 0 l'.sized (omega arith)) refl,
          put_other (effect pv) reg 0 l' n1 n2,
        ))
        (λ _. Ensures-done pv l))

  -- the rest of `ProcessControls`, behind the pulses: limits that are in range stay as they are
  limits_kept :
      (pv : PvUnit F)
      → IsLimited pv
      → Ensures IsLimited (do
        percent_raw ← read_u16 pv.bank reg_pv_percent_limit
        pv3 ← on_bank pv reg_pv_percent_limit (clamp_u16 percent_raw 0 1000)
        fixed_raw ← read_u16 pv3.bank reg_pv_fixed_limit
        pv4 ← on_bank pv3 reg_pv_fixed_limit (clamp_u16 fixed_raw 0 (max_fixed_limit_raw pv3))
        let percent = clamp_u16 percent_raw 0 1000
        let fixed = clamp_u16 fixed_raw 0 (max_fixed_limit_raw pv3)
        let pv5 =
            if percent_raw == pv4.last_percent_limit_raw then pv4 else take_percent percent pv4
        done (if fixed_raw == pv5.last_fixed_limit_raw then pv5 else take_fixed fixed pv5))
  unfolding on_bank
  limits_kept pv l =
      let p = pv.bank.holding.at reg_pv_percent_limit in
      let q = pv.bank.holding.at reg_pv_fixed_limit in
      let b3 = put pv.bank reg_pv_percent_limit p in
      let b4 = put b3 reg_pv_fixed_limit q in
      let same : (p == pv.last_percent_limit_raw) ≡ true = ground (arith, l.percent_known) in
      let same' : (q == pv.last_fixed_limit_raw) ≡ true = ground (arith, l.fixed_known) in
      (
        record pv { bank = b4 },
        rw
            (
              read_u16-at pv.bank l.sized reg_pv_percent_limit (omega arith),
              clamp_u16_id p 1000 l.percent_range,
              write_u16-put pv.bank reg_pv_percent_limit p l.sized (omega arith),
              read_u16-at b3 l.sized reg_pv_fixed_limit (omega arith),
              max_fixed_limit_raw-bank pv b3,
              clamp_u16_id q (max_fixed_limit_raw pv) l.fixed_range,
              write_u16-put b3 reg_pv_fixed_limit q l.sized (omega arith),
            )
            (ground (arith, same, same')),
        kept pv b4 l l.sized refl refl,
      )

  -- `ProcessControls` returns, and keeps the limits in their ranges.
  pub process_controls-IsLimited :
      (pv : PvUnit F) → IsLimited pv → Ensures IsLimited (process_controls pv)
  unfolding process_controls
  process_controls-IsLimited pv l =
      Ensures-bind _
        (pv_pulse-IsLimited reg_pv_startup start pv (omega arith) (omega arith) (omega arith) l
          (state_changed pv true pv.actual_power_kw l))
        λ p1 l1.
          Ensures-bind _
            (pv_pulse-IsLimited reg_pv_shutdown stop p1 (omega arith) (omega arith) (omega arith) l1
              (state_changed p1 false nought l1))
            λ p2 l2. limits_kept p2 l2

  -- Whatever register a client writes, the write, its callback and the next `ProcessControls` return,
  -- and leave the limits in their ranges: the percent limit at most 1000 tenths, the fixed limit at
  -- most the rated power. They were in range before, and the register fits in sixteen bits.
  pub limits_hold :
      (pv : PvUnit F) (addr v : ℕ)
      → IsLimited pv
      → IsU16 addr
      → Ensures IsLimited (do pv' ← pv_written pv addr v; process_controls pv')
  limits_hold pv addr v l h =
      Ensures-bind _ (pv_written-IsLimited pv addr v l h) process_controls-IsLimited
