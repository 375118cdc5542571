-- ===== src/Simulator/Config/Validate/Accepts.antt =====
-- What the loops of the validation accept: ids that are new and not zero, and what is regular.
use virtual_bess.Prelude.{
  ℕ, List, [], ◌∷◌, ◌++◌, map, ◌≡◌, ◌≢◌, refl, arith, false, inl, inr, Option, none, some, All,
  Bool-cases, ◌==◌,
}
use virtual_bess.Prelude.Text.{Text, same, is_empty}
use virtual_bess.Prelude.Distinct.{elem, Fresh, add_all}
use virtual_bess.Simulator.Float.{Float}
use virtual_bess.Simulator.Config.{
  BatteryUnitConfig, PvUnitConfig, MeterConfig, LoadCfg, FireConfig, ThConfig, AirConditionerConfig,
}
use virtual_bess.Simulator.Config.Checks.{valid, same_id, check}
use virtual_bess.Simulator.Config.Validate.{
  pv_ids_of, load_names_of, check_known_pcs, check_known_pvs, check_known_loads,
  check_battery_units, check_pv_units, check_loads, check_references, check_meters, check_fire,
  check_temperature_humid, validate_air_conditioner_config, check_air_conditioners,
}
use virtual_bess.Simulator.Config.Validate.Ids.{fire_ids, unit_ids}
use virtual_bess.Simulator.Config.Validate.References.{IsKnown, IsNamed, Resolves, IsRegular}

-- The ids are not zero and new.
abbrev pub AreNew : List ℕ → List ℕ → Type 0
AreNew seen ids = All (λ id. id ≢ 0) ids × Fresh same_id seen ids

pub AreNew-split :
    (seen xs ys : List ℕ) → AreNew seen (xs ++ ys) → AreNew seen xs × AreNew (add_all seen xs) ys
AreNew-split seen [] ys h = ((tt, tt), h)
AreNew-split seen (x ∷ xs) ys ((p, ps), (q, qs)) =
    let ((a, b), rest) = AreNew-split (x ∷ seen) xs ys (ps, qs) in (((p, a), (q, b)), rest)

check-accepts :
    (id : ℕ) (seen : List ℕ)
    → id ≢ 0
    → elem same_id id seen ≡ false
    → check id seen ≡ valid (id ∷ seen)
unfolding check
check-accepts id seen p q =
    let nonzero : (id == 0) ≡ false = ground (arith, p) in rw (nonzero, q) refl

pub check_fire-accepts :
    (fire : Option FireConfig) (seen : List ℕ)
    → AreNew seen (fire_ids fire)
    → check_fire fire seen ≡ valid (add_all seen (fire_ids fire))
unfolding check_fire
check_fire-accepts none seen h = refl
check_fire-accepts (some fire) seen ((p, _), (q, _)) = check-accepts fire.slave_id seen p q

check_known_pcs-accepts :
    (known ids : List ℕ) → All (IsKnown known) ids → check_known_pcs known ids ≡ valid tt
unfolding check_known_pcs
check_known_pcs-accepts known [] h = refl
check_known_pcs-accepts known (id ∷ ids) (p, h) = rw p (check_known_pcs-accepts known ids h)

check_known_pvs-accepts :
    (known ids : List ℕ) → All (IsKnown known) ids → check_known_pvs known ids ≡ valid tt
unfolding check_known_pvs
check_known_pvs-accepts known [] h = refl
check_known_pvs-accepts known (id ∷ ids) (p, h) = rw p (check_known_pvs-accepts known ids h)

check_known_loads-accepts :
    (known ns : List Text) → All (IsNamed known) ns → check_known_loads known ns ≡ valid tt
unfolding check_known_loads
check_known_loads-accepts known [] h = refl
check_known_loads-accepts known (n ∷ ns) (p, h) = rw p (check_known_loads-accepts known ns h)

module _ {F : Type 0} where
  pub check_battery_units-accepts :
      (units : List (BatteryUnitConfig F)) (seen : List ℕ)
      → AreNew seen (unit_ids units)
      → check_battery_units units seen ≡ valid (add_all seen (unit_ids units))
  unfolding check_battery_units
  check_battery_units-accepts [] seen h = refl
  check_battery_units-accepts (bu ∷ rest) seen ((p, (p', ps)), (q, (q', qs))) =
      rw
        (
          check-accepts bu.pcs_slave_id seen p q,
          check-accepts bu.bms_slave_id (bu.pcs_slave_id ∷ seen) p' q',
        )
        (check_battery_units-accepts rest (bu.bms_slave_id ∷ bu.pcs_slave_id ∷ seen) (ps, qs))

  pub check_pv_units-accepts :
      (units : List (PvUnitConfig F)) (seen : List ℕ)
      → AreNew seen (pv_ids_of units)
      → check_pv_units units seen ≡ valid (add_all seen (pv_ids_of units))
  unfolding check_pv_units
  check_pv_units-accepts [] seen h = refl
  check_pv_units-accepts (pv ∷ rest) seen ((p, ps), (q, qs)) =
      rw (check-accepts pv.slave_id seen p q)
        (check_pv_units-accepts rest (pv.slave_id ∷ seen) (ps, qs))

  pub check_temperature_humid-accepts :
      (units : List (ThConfig F)) (seen : List ℕ)
      → AreNew seen (map (λ (th : ThConfig F). th.slave_id) units)
      → check_temperature_humid units seen
        ≡ valid (add_all seen (map (λ (th : ThConfig F). th.slave_id) units))
  unfolding check_temperature_humid
  check_temperature_humid-accepts [] seen h = refl
  check_temperature_humid-accepts (th ∷ rest) seen ((p, ps), (q, qs)) =
      rw (check-accepts th.slave_id seen p q)
        (check_temperature_humid-accepts rest (th.slave_id ∷ seen) (ps, qs))

  pub check_loads-accepts :
      (loads : List (LoadCfg F)) (seen : List Text)
      → Fresh same seen (load_names_of loads)
      → All (λ (ld : LoadCfg F). is_empty ld.name ≡ false) loads
      → check_loads loads seen ≡ valid tt
  unfolding check_loads
  check_loads-accepts [] seen f h = refl
  check_loads-accepts (ld ∷ rest) seen (q, f) (p, h) =
      rw (p, q) (check_loads-accepts rest (ld.name ∷ seen) f h)

  check_references-accepts :
      (pcs_ids pv_ids : List ℕ) (names : List Text) (m : MeterConfig F)
      → Resolves pcs_ids pv_ids names m
      → check_references pcs_ids pv_ids names m ≡ valid tt
  unfolding check_references
  check_references-accepts pcs_ids pv_ids names m r = elim (Bool-cases m.is_main) [
    | inl e ↦ rw e refl
    | inr e ↦
        rw
          (
            e,
            check_known_pcs-accepts pcs_ids m.pcs_slave_ids (r.pcs_known e),
            check_known_pvs-accepts pv_ids m.pv_slave_ids (r.pvs_known e),
          )
          (check_known_loads-accepts names m.load_names (r.loads_known e))
  ]

  pub check_meters-accepts :
      (pcs_ids pv_ids : List ℕ) (names : List Text) (ms : List (MeterConfig F)) (seen : List ℕ)
      → AreNew seen (map (λ (m : MeterConfig F). m.slave_id) ms)
      → All (Resolves pcs_ids pv_ids names) ms
      → check_meters pcs_ids pv_ids names ms seen
        ≡ valid (add_all seen (map (λ (m : MeterConfig F). m.slave_id) ms))
  unfolding check_meters
  check_meters-accepts pcs_ids pv_ids names [] seen h r = refl
  check_meters-accepts pcs_ids pv_ids names (m ∷ ms) seen ((p, ps), (q, qs)) (r, rs) =
      rw
        (
          check-accepts m.slave_id seen p q,
          r.direction,
          check_references-accepts pcs_ids pv_ids names m r,
        )
        (check_meters-accepts pcs_ids pv_ids names ms (m.slave_id ∷ seen) (ps, qs) rs)

module _ {F : Type 0} ⦃fl : Float F⦄ where
  pub check_air_conditioners-accepts :
      (units : List (AirConditionerConfig F)) (seen : List ℕ)
      → AreNew seen (map (λ (ac : AirConditionerConfig F). ac.slave_id) units)
      → All IsRegular units
      → check_air_conditioners units seen
        ≡ valid (add_all seen (map (λ (ac : AirConditionerConfig F). ac.slave_id) units))
  unfolding check_air_conditioners validate_air_conditioner_config
  check_air_conditioners-accepts [] seen h r = refl
  check_air_conditioners-accepts (ac ∷ rest) seen ((p, ps), (q, qs)) ((r1, r2, r3), rs) =
      rw (check-accepts ac.slave_id seen p q, r1, r2, r3)
        (check_air_conditioners-accepts rest (ac.slave_id ∷ seen) (ps, qs) rs)
