-- ===== src/Simulator/Pv/Kept.antt =====
-- The simulation and the synchronisation of a PV inverter keep its limits.
use virtual_bess.Prelude.{ℕ, ◌≡◌, refl, sym, ap, subst, ◌∙◌, ◌<◌, ◌≤◌, arith, List, All}
use virtual_bess.Prelude.Go.{Run, done, ◌>>=◌}
use virtual_bess.Prelude.Hoare.{Ensures, Ensures-done, Ensures-if, Ensures-bind, Ensures-weaken}
use virtual_bess.Simulator.Bank.{SlaveBank, write_u16}
use virtual_bess.Simulator.Bank.Words.{read_u16-at}
use virtual_bess.Simulator.Bank.Effects.{IsSized, write_words}
use virtual_bess.Simulator.Bank.Keeps.{
  Keeps, Keeps-refl, Keeps-trans, IsWordFrom, write_u16-Keeps, write_u32-Keeps, write_words-Keeps,
}
use virtual_bess.Simulator.Float.{Float, nought}
use virtual_bess.Simulator.Pv.{PvUnit, LocalTime, max_fixed_limit_raw, on_bank}
use virtual_bess.Simulator.Pv.Limits.{IsLimited, kept}
use virtual_bess.Simulator.Pv.Simulation.{reset_periods, produce, update_simulation, produced}
use virtual_bess.Simulator.Pv.Sync.{
  pv_current, voltage_words, power_words, pv_words, write_energies, pv_sync,
}
use virtual_bess.Simulator.Registers.Pv.{
  reg_pv_run_status, reg_pv_ac_voltage_a, reg_pv_ac_voltage_b, reg_pv_ac_voltage_c,
  reg_pv_ac_current_a, reg_pv_ac_current_b, reg_pv_ac_current_c, reg_pv_percent_limit,
  reg_pv_fixed_limit,
}

module _ {F : Type 0} ⦃fl : Float F⦄ where
  -- Only the energies, the power and the keys of the periods differ.
  pub record SameLimits (pv : PvUnit F) (pv' : PvUnit F) : Type 0 where
    pub same_bank : pv'.bank ≡ pv.bank
    pub same_rating : pv'.rated_power_kw ≡ pv.rated_power_kw
    pub same_percent : pv'.last_percent_limit_raw ≡ pv.last_percent_limit_raw
    pub same_fixed : pv'.last_fixed_limit_raw ≡ pv.last_fixed_limit_raw

  SameLimits-trans : {a b c : PvUnit F} → SameLimits a b → SameLimits b c → SameLimits a c
  SameLimits-trans p q = record {
    same_bank = q.same_bank ∙ p.same_bank;
    same_rating = q.same_rating ∙ p.same_rating;
    same_percent = q.same_percent ∙ p.same_percent;
    same_fixed = q.same_fixed ∙ p.same_fixed;
  }

  reset_periods-SameLimits : (t : LocalTime) (pv : PvUnit F) → SameLimits pv (reset_periods t pv)
  unfolding reset_periods
  reset_periods-SameLimits t pv = record {
    same_bank = ground arith;
    same_rating = ground arith;
    same_percent = ground arith;
    same_fixed = ground arith;
  }

  produce-SameLimits : (kw dt : F) (pv : PvUnit F) → SameLimits pv (produce kw dt pv)
  produce-SameLimits kw dt pv = record {
    same_bank = ground arith;
    same_rating = ground arith;
    same_percent = ground arith;
    same_fixed = ground arith;
  }

  update_simulation-SameLimits :
      (t : LocalTime) (dt coeff : F) (pv : PvUnit F)
      → SameLimits pv (update_simulation t dt coeff pv)
  unfolding update_simulation
  update_simulation-SameLimits t dt coeff pv =
      let pv' = reset_periods t pv in
      SameLimits-trans (reset_periods-SameLimits t pv)
        (produce-SameLimits (produced pv' t coeff) dt pv')

  SameLimits-IsLimited : {pv pv' : PvUnit F} → SameLimits pv pv' → IsLimited pv → IsLimited pv'
  unfolding max_fixed_limit_raw
  SameLimits-IsLimited {pv} {pv'} s l = record {
    sized = rw s.same_bank l.sized;
    percent_range = rw s.same_bank l.percent_range;
    percent_known = rw (s.same_bank, s.same_percent) l.percent_known;
    fixed_range = rw (s.same_bank, s.same_rating) l.fixed_range;
    fixed_known = rw (s.same_bank, s.same_fixed) l.fixed_known;
  }

  -- `UpdateSimulation` keeps the limits.
  pub update_simulation-IsLimited :
      (t : LocalTime) (dt coeff : F) (pv : PvUnit F)
      → IsLimited pv
      → IsLimited (update_simulation t dt coeff pv)
  update_simulation-IsLimited t dt coeff pv l =
      SameLimits-IsLimited (update_simulation-SameLimits t dt coeff pv) l

  -- Only registers from the run status on differ.
  abbrev IsSynced : PvUnit F → PvUnit F → Type 0
  IsSynced pv pv' =
      (b : SlaveBank) × (pv' ≡ record pv { bank = b }) × Keeps reg_pv_run_status pv.bank b

  with_bank :
      (pv : PvUnit F) (m : Run SlaveBank)
      → Ensures (Keeps reg_pv_run_status pv.bank) m
      → Ensures (IsSynced pv) (do b ← m; done (record pv { bank = b }))
  with_bank pv m h = Ensures-bind m h λ b k. Ensures-done (record pv { bank = b }) (b, refl, k)

  IsSynced-trans : {pv pv1 pv2 : PvUnit F} → IsSynced pv pv1 → IsSynced pv1 pv2 → IsSynced pv pv2
  IsSynced-trans {pv} (b1, e1, k1) (b2, e2, k2) = (
    b2,
    e2 ∙ ap (λ (u : PvUnit F). record u { bank = b2 }) e1,
    Keeps-trans k1 (subst (λ (u : PvUnit F). Keeps reg_pv_run_status u.bank b2) e1 k2),
  )

  synced-IsSized : {pv pv' : PvUnit F} → IsSynced pv pv' → IsSized pv'.bank
  synced-IsSized (b, e, k) = rw e k.sized

  pv_words-IsSynced :
      (ws : List (ℕ × ℕ)) (pv : PvUnit F)
      → IsSized pv.bank
      → All (IsWordFrom reg_pv_run_status) ws
      → Ensures (IsSynced pv) (pv_words ws pv)
  unfolding pv_words
  pv_words-IsSynced ws pv size h =
      with_bank pv (write_words ws pv.bank) (write_words-Keeps reg_pv_run_status ws pv.bank size h)

  pv_current-IsSynced :
      (voltage_reg reg : ℕ) (pv : PvUnit F)
      → IsSized pv.bank
      → voltage_reg < 65535
      → reg_pv_run_status ≤ reg
      → reg < 65536
      → Ensures (IsSynced pv) (pv_current voltage_reg reg pv)
  unfolding pv_current on_bank
  pv_current-IsSynced voltage_reg reg pv size h low high =
      let volts = fl.mul (fl.of_nat (pv.bank.holding.at voltage_reg)) (fl.lit 1 1) in
      let amps = fl.div (fl.mul (fl.div pv.actual_power_kw (fl.lit 3 0)) (fl.lit 1000 0)) volts in
      let v = fl.to_s16 (fl.mul amps (fl.lit 10 0)) in
      rw (read_u16-at pv.bank size voltage_reg h) (
        Ensures-if (fl.lt nought volts)
          (λ _.
            with_bank pv (write_u16 pv.bank reg v)
              (write_u16-Keeps reg_pv_run_status pv.bank reg v size low high))
          (λ _. Ensures-done pv (pv.bank, refl, Keeps-refl reg_pv_run_status pv.bank size)))

  write_energies-Keeps :
      (pv : PvUnit F)
      → IsSized pv.bank
      → Ensures (Keeps reg_pv_run_status pv.bank) (write_energies pv)
  unfolding write_energies
  write_energies-Keeps pv size =
      let k = reg_pv_run_status in
      Ensures-bind _ (write_u16-Keeps k pv.bank k _ size (omega arith) (omega arith)) λ b0 p0.
        Ensures-bind _ (write_u32-Keeps k b0 _ _ p0.sized (omega arith) (omega arith)) λ b1 p1.
          Ensures-bind _ (write_u32-Keeps k b1 _ _ p1.sized (omega arith) (omega arith)) λ b2 p2.
            Ensures-bind _ (write_u32-Keeps k b2 _ _ p2.sized (omega arith) (omega arith)) λ b3 p3.
              Ensures-weaken (write_u32-Keeps k b3 _ _ p3.sized (omega arith) (omega arith))
                λ b4 p4. Keeps-trans p0 (Keeps-trans p1 (Keeps-trans p2 (Keeps-trans p3 p4)))

  current_of :
      (pv : PvUnit F) (voltage_reg reg : ℕ)
      → voltage_reg < 65535
      → reg_pv_run_status ≤ reg
      → reg < 65536
      → (pv' : PvUnit F) → IsSynced pv pv'
      → Ensures (IsSynced pv) (pv_current voltage_reg reg pv')
  current_of pv voltage_reg reg h low high pv' s =
      Ensures-weaken (pv_current-IsSynced voltage_reg reg pv' (synced-IsSized s) h low high)
        λ pv'' s'. IsSynced-trans s s'

  words_of :
      (pv : PvUnit F) (ws : List (ℕ × ℕ))
      → All (IsWordFrom reg_pv_run_status) ws
      → (pv' : PvUnit F) → IsSynced pv pv'
      → Ensures (IsSynced pv) (pv_words ws pv')
  words_of pv ws h pv' s =
      Ensures-weaken (pv_words-IsSynced ws pv' (synced-IsSized s) h) λ pv'' s'. IsSynced-trans s s'

  pv_sync-IsSynced :
      (hz : F) (draw : ℕ → F) (pv : PvUnit F)
      → IsSized pv.bank
      → Ensures (IsSynced pv) (pv_sync hz draw pv)
  unfolding pv_sync
  pv_sync-IsSynced hz draw pv size =
      let a =
        current_of pv reg_pv_ac_voltage_a reg_pv_ac_current_a (omega arith) (omega arith)
          (omega arith) in
      let b =
        current_of pv reg_pv_ac_voltage_b reg_pv_ac_current_b (omega arith) (omega arith)
          (omega arith) in
      let c =
        current_of pv reg_pv_ac_voltage_c reg_pv_ac_current_c (omega arith) (omega arith)
          (omega arith) in
      Ensures-bind (write_energies pv) (write_energies-Keeps pv size) λ b4 k.
        Ensures-bind _
          (words_of pv (voltage_words draw pv) (omega arith) (record pv { bank = b4 })
            (b4, refl, k))
          λ p1 s1. Ensures-bind _ (a p1 s1) λ p2 s2. Ensures-bind _ (b p2 s2) λ p3 s3.
            Ensures-bind _ (c p3 s3) λ p4 s4. words_of pv (power_words hz pv) (omega arith) p4 s4

  -- `Sync` returns, and keeps the limits.
  pub pv_sync-IsLimited :
      (hz : F) (draw : ℕ → F) (pv : PvUnit F)
      → IsLimited pv
      → Ensures IsLimited (pv_sync hz draw pv)
  pv_sync-IsLimited hz draw pv l =
      Ensures-weaken (pv_sync-IsSynced hz draw pv l.sized) λ pv' (b, e, k).
        subst IsLimited (sym e) (
          kept pv b l k.sized (k.below reg_pv_percent_limit (omega arith))
            (k.below reg_pv_fixed_limit (omega arith)))
