-- ===== src/Simulator/Config/Validate/Ids.antt =====
-- The slave ids that the validation registers.
use virtual_bess.Prelude.{
  ℕ, List, [], ◌∷◌, ◌++◌, map, ◌≡◌, ◌≢◌, refl, sym, subst, ◌∙◌, ap, Option, none, some, All,
  All-append,
}
use virtual_bess.Prelude.Distinct.{Fresh, Fresh-append, add_all, add_all-append}
use virtual_bess.Simulator.Config.{BatteryUnitConfig, PvUnitConfig, FireConfig, ThConfig}
use virtual_bess.Simulator.Config.Checks.{valid, >>=-valid, same_id, check, check-valid}
use virtual_bess.Simulator.Config.Validate.{
  check_battery_units, check_pv_units, check_fire, check_temperature_humid,
}

-- The ids are not zero, new, and seen from now on.
pub record Registers (seen : List ℕ) (ids : List ℕ) (seen' : List ℕ) : Type 0 where
  pub nonzero : All (λ id. id ≢ 0) ids
  pub fresh : Fresh same_id seen ids
  pub now_seen : seen' ≡ add_all seen ids

pub Registers-nil : (seen : List ℕ) → Registers seen [] seen
Registers-nil seen = record { nonzero = tt; fresh = tt; now_seen = refl }

pub Registers-append :
    {seen xs seen1 ys seen2 : List ℕ}
    → Registers seen xs seen1
    → Registers seen1 ys seen2
    → Registers seen (xs ++ ys) seen2
Registers-append {seen} {xs} {seen1} {ys} {seen2} r q = record {
  nonzero = All-append (λ id. id ≢ 0) xs ys r.nonzero q.nonzero;
  fresh =
      Fresh-append same_id seen xs ys r.fresh (subst (λ s. Fresh same_id s ys) r.now_seen q.fresh);
  now_seen = q.now_seen ∙ ap (λ s. add_all s ys) r.now_seen ∙ sym (add_all-append seen xs ys);
}

pub check-Registers :
    (id : ℕ) (seen : List ℕ) {seen' : List ℕ}
    → check id seen ≡ valid seen'
    → Registers seen (id ∷ []) seen'
check-Registers id seen h =
    let (p, q, e) = check-valid id seen h in
    record { nonzero = (p, tt); fresh = (q, tt); now_seen = e }

abbrev pub fire_ids : Option FireConfig → List ℕ
fire_ids none = []
fire_ids (some fire) = fire.slave_id ∷ []

pub check_fire-Registers :
    (fire : Option FireConfig) (seen : List ℕ) {seen' : List ℕ}
    → check_fire fire seen ≡ valid seen'
    → Registers seen (fire_ids fire) seen'
unfolding check_fire
check_fire-Registers none seen {seen'} h = record { nonzero = tt; fresh = tt; now_seen = cc h }
check_fire-Registers (some fire) seen h = check-Registers fire.slave_id seen h

module _ {F : Type 0} where
  abbrev pub unit_ids : List (BatteryUnitConfig F) → List ℕ
  unit_ids [] = []
  unit_ids (bu ∷ rest) = bu.pcs_slave_id ∷ bu.bms_slave_id ∷ unit_ids rest

  pub check_battery_units-Registers :
      (units : List (BatteryUnitConfig F)) (seen : List ℕ) {seen' : List ℕ}
      → check_battery_units units seen ≡ valid seen'
      → Registers seen (unit_ids units) seen'
  unfolding check_battery_units
  check_battery_units-Registers [] seen h = record { nonzero = tt; fresh = tt; now_seen = cc h }
  check_battery_units-Registers (bu ∷ rest) seen h =
      let (s1, e1, h1) = >>=-valid (check bu.pcs_slave_id seen) _ h in
      let (s2, e2, h2) = >>=-valid (check bu.bms_slave_id s1) _ h1 in
      Registers-append (check-Registers bu.pcs_slave_id seen e1) (
        Registers-append (check-Registers bu.bms_slave_id s1 e2)
          (check_battery_units-Registers rest s2 h2))

  pub check_pv_units-Registers :
      (units : List (PvUnitConfig F)) (seen : List ℕ) {seen' : List ℕ}
      → check_pv_units units seen ≡ valid seen'
      → Registers seen (map (λ (pv : PvUnitConfig F). pv.slave_id) units) seen'
  unfolding check_pv_units
  check_pv_units-Registers [] seen h = record { nonzero = tt; fresh = tt; now_seen = cc h }
  check_pv_units-Registers (pv ∷ rest) seen h =
      let (s1, e1, h1) = >>=-valid (check pv.slave_id seen) _ h in
      Registers-append (check-Registers pv.slave_id seen e1) (check_pv_units-Registers rest s1 h1)

  pub check_temperature_humid-Registers :
      (units : List (ThConfig F)) (seen : List ℕ) {seen' : List ℕ}
      → check_temperature_humid units seen ≡ valid seen'
      → Registers seen (map (λ (th : ThConfig F). th.slave_id) units) seen'
  unfolding check_temperature_humid
  check_temperature_humid-Registers [] seen h = record { nonzero = tt; fresh = tt; now_seen = cc h }
  check_temperature_humid-Registers (th ∷ rest) seen h =
      let (s1, e1, h1) = >>=-valid (check th.slave_id seen) _ h in
      Registers-append (check-Registers th.slave_id seen e1)
        (check_temperature_humid-Registers rest s1 h1)
