-- ===== src/Simulator/Config/Validate/References.antt =====
-- What the validation says of the loads, the meters and the air conditioners.
use virtual_bess.Prelude.{
  not-false, ℕ, List, [], ◌∷◌, map, ◌≡◌, refl, Bool, true, false, not, ◌||◌, All,
}
use virtual_bess.Prelude.Text.{Text, same, is_empty}
use virtual_bess.Prelude.Distinct.{elem, Fresh}
use virtual_bess.Simulator.Float.{Float, le, nought}
use virtual_bess.Simulator.Config.{MeterConfig, LoadCfg, AirConditionerConfig}
use virtual_bess.Simulator.Config.Checks.{
  valid, >>=-valid, >>-valid, same_id, check, unknown_pcs, unknown_pv, unknown_load, no_load_name,
  duplicate_load, bad_flow_direction, bad_differential, bad_setpoints,
}
use virtual_bess.Simulator.Config.Validate.{
  check_known_pcs, check_known_pvs, check_known_loads, is_flow_direction, load_names_of,
  check_loads, check_references, check_meters, validate_air_conditioner_config,
  check_air_conditioners,
}
use virtual_bess.Simulator.Config.Validate.Ids.{Registers, Registers-append, check-Registers}

neither : (a b : Bool) → (a || b) ≡ false → (a ≡ false) × (b ≡ false)
neither true b h = cc
neither false b h = (refl, h)

-- The slave is one of those configured.
abbrev pub IsKnown : List ℕ → ℕ → Type 0
IsKnown ids id = elem same_id id ids ≡ true

abbrev pub IsNamed : List Text → Text → Type 0
IsNamed names name = elem same name names ≡ true

check_known_pcs-IsKnown :
    (known ids : List ℕ) {t : Unit {0}}
    → check_known_pcs known ids ≡ valid t
    → All (IsKnown known) ids
unfolding check_known_pcs
check_known_pcs-IsKnown known [] h = tt
check_known_pcs-IsKnown known (id ∷ ids) h =
    let (p, h1) = >>-valid (not (elem same_id id known)) (unknown_pcs id) _ h in
    (not-false (elem same_id id known) p, check_known_pcs-IsKnown known ids h1)

check_known_pvs-IsKnown :
    (known ids : List ℕ) {t : Unit {0}}
    → check_known_pvs known ids ≡ valid t
    → All (IsKnown known) ids
unfolding check_known_pvs
check_known_pvs-IsKnown known [] h = tt
check_known_pvs-IsKnown known (id ∷ ids) h =
    let (p, h1) = >>-valid (not (elem same_id id known)) (unknown_pv id) _ h in
    (not-false (elem same_id id known) p, check_known_pvs-IsKnown known ids h1)

check_known_loads-IsNamed :
    (known ns : List Text) {t : Unit {0}}
    → check_known_loads known ns ≡ valid t
    → All (IsNamed known) ns
unfolding check_known_loads
check_known_loads-IsNamed known [] h = tt
check_known_loads-IsNamed known (n ∷ ns) h =
    let (p, h1) = >>-valid (not (elem same n known)) (unknown_load n) _ h in
    (not-false (elem same n known) p, check_known_loads-IsNamed known ns h1)

module _ {F : Type 0} where
  -- The direction of flow is a known one, and what a sub-meter refers to is configured.
  pub record Resolves (pcs_ids : List ℕ) (pv_ids : List ℕ) (load_names : List Text)
      (m : MeterConfig F) : Type 0 where
    pub direction : is_flow_direction m.flow_direction ≡ true
    pub pcs_known : m.is_main ≡ false → All (IsKnown pcs_ids) m.pcs_slave_ids
    pub pvs_known : m.is_main ≡ false → All (IsKnown pv_ids) m.pv_slave_ids
    pub loads_known : m.is_main ≡ false → All (IsNamed load_names) m.load_names

  -- of a meter that is not the main one
  sub_references :
      (pcs_ids pv_ids : List ℕ) (names : List Text) (m : MeterConfig F) {t : Unit {0}}
      → m.is_main ≡ false
      → check_references pcs_ids pv_ids names m ≡ valid t
      → All (IsKnown pcs_ids) m.pcs_slave_ids
        × All (IsKnown pv_ids) m.pv_slave_ids
        × All (IsNamed names) m.load_names
  unfolding check_references
  sub_references pcs_ids pv_ids names m sub h0 =
      let h = rw sub at h0 in
      let (t1, e1, h1) = >>=-valid (check_known_pcs pcs_ids m.pcs_slave_ids) _ h in
      let (t2, e2, h2) = >>=-valid (check_known_pvs pv_ids m.pv_slave_ids) _ h1 in
      (
        check_known_pcs-IsKnown pcs_ids m.pcs_slave_ids e1,
        check_known_pvs-IsKnown pv_ids m.pv_slave_ids e2,
        check_known_loads-IsNamed names m.load_names h2,
      )

  check_references-Resolves :
      (pcs_ids pv_ids : List ℕ) (names : List Text) (m : MeterConfig F) {t : Unit {0}}
      → is_flow_direction m.flow_direction ≡ true
      → check_references pcs_ids pv_ids names m ≡ valid t
      → Resolves pcs_ids pv_ids names m
  check_references-Resolves pcs_ids pv_ids names m d h = record {
    direction = d;
    pcs_known = λ sub. (sub_references pcs_ids pv_ids names m sub h).0;
    pvs_known = λ sub. (sub_references pcs_ids pv_ids names m sub h).1;
    loads_known = λ sub. (sub_references pcs_ids pv_ids names m sub h).2;
  }

  pub check_meters-Resolves :
      (pcs_ids pv_ids : List ℕ) (names : List Text) (ms : List (MeterConfig F)) (seen : List ℕ)
      {seen' : List ℕ}
      → check_meters pcs_ids pv_ids names ms seen ≡ valid seen'
      → Registers seen (map (λ (m : MeterConfig F). m.slave_id) ms) seen'
        × All (Resolves pcs_ids pv_ids names) ms
  unfolding check_meters
  check_meters-Resolves pcs_ids pv_ids names [] seen h =
      (record { nonzero = tt; fresh = tt; now_seen = cc h }, tt)
  check_meters-Resolves pcs_ids pv_ids names (m ∷ ms) seen h =
      let (s1, e1, h1) = >>=-valid (check m.slave_id seen) _ h in
      let (d, h2) =
        >>-valid (not (is_flow_direction m.flow_direction)) (bad_flow_direction m.flow_direction) _
          h1 in
      let (t, e3, h3) = >>=-valid (check_references pcs_ids pv_ids names m) _ h2 in
      let (r, all) = check_meters-Resolves pcs_ids pv_ids names ms s1 h3 in
      (
        Registers-append (check-Registers m.slave_id seen e1) r,
        (
          check_references-Resolves pcs_ids pv_ids names m
              (not-false (is_flow_direction m.flow_direction) d) e3,
          all,
        ),
      )

  -- The names of the loads are not empty and new.
  pub check_loads-Fresh :
      (loads : List (LoadCfg F)) (seen : List Text) {t : Unit {0}}
      → check_loads loads seen ≡ valid t
      → Fresh same seen (load_names_of loads)
        × All (λ (ld : LoadCfg F). is_empty ld.name ≡ false) loads
  unfolding check_loads
  check_loads-Fresh [] seen h = (tt, tt)
  check_loads-Fresh (ld ∷ rest) seen h =
      let (p, h1) = >>-valid (is_empty ld.name) no_load_name _ h in
      let (q, h2) = >>-valid (elem same ld.name seen) (duplicate_load ld.name) _ h1 in
      let (r, all) = check_loads-Fresh rest (ld.name ∷ seen) h2 in ((q, r), (p, all))

module _ {F : Type 0} ⦃fl : Float F⦄ where
  -- No differential is zero or negative, and heating begins below cooling.
  abbrev pub IsRegular : AirConditionerConfig F → Type 0
  IsRegular cfg =
      (le cfg.cooling_differential nought ≡ false)
      × (le cfg.heating_differential nought ≡ false)
      × (le cfg.cooling_setpoint cfg.heating_setpoint ≡ false)

  pub check_air_conditioners-IsRegular :
      (units : List (AirConditionerConfig F)) (seen : List ℕ) {seen' : List ℕ}
      → check_air_conditioners units seen ≡ valid seen'
      → Registers seen (map (λ (ac : AirConditionerConfig F). ac.slave_id) units) seen'
        × All IsRegular units
  unfolding check_air_conditioners validate_air_conditioner_config
  check_air_conditioners-IsRegular [] seen h =
      (record { nonzero = tt; fresh = tt; now_seen = cc h }, tt)
  check_air_conditioners-IsRegular (ac ∷ rest) seen h =
      let (s1, e1, h1) = >>=-valid (validate_air_conditioner_config ac seen) _ h in
      let (s2, e2, k1) = >>=-valid (check ac.slave_id seen) _ e1 in
      let (p, k2) =
        >>-valid (le ac.cooling_differential nought || le ac.heating_differential nought)
          bad_differential _ k1 in
      let (q, k3) = >>-valid (le ac.cooling_setpoint ac.heating_setpoint) bad_setpoints _ k2 in
      let (c1, c2) =
        neither (le ac.cooling_differential nought) (le ac.heating_differential nought) p in
      let (r, all) = check_air_conditioners-IsRegular rest s1 h1 in
      (Registers-append (check-Registers ac.slave_id seen (cc (e2, k3))) r, ((c1, c2, q), all))
