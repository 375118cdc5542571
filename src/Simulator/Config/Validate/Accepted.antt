-- ===== src/Simulator/Config/Validate/Accepted.antt =====
-- What a configuration that is accepted satisfies.
use virtual_bess.Prelude.{
  true, not-false, ℕ, List, [], ◌∷◌, ◌++◌, map, ◌≡◌, ◌≢◌, subst, ==_refl, Bool, false, not, Option,
  none, some, All,
}
use virtual_bess.Prelude.Text.{Text, same, same_refl, is_empty}
use virtual_bess.Prelude.Distinct.{Distinct, Fresh-Distinct}
use virtual_bess.Simulator.Float.{Float}
use virtual_bess.Simulator.GridVoltage.{validate}
use virtual_bess.Simulator.Config.{Config, MeterConfig, LoadCfg, ThConfig, AirConditionerConfig}
use virtual_bess.Simulator.Config.Checks.{
  valid, >>=-valid, >>-valid, same_id, invalid_timezone, invalid_grid_coupling,
  invalid_pcs_coupling, no_battery_unit, no_meter,
}
use virtual_bess.Simulator.Config.Defaults.{default_config, apply_defaults}
use virtual_bess.Simulator.Config.Xn3477.{validate_xn3477}
use virtual_bess.Simulator.Config.Can.{validate_can}
use virtual_bess.Simulator.Config.Iec61850.{validate_iec61850}
use virtual_bess.Simulator.Config.Validate.{
  cluster_counts, pcs_ids_of, bms_ids_of, pv_ids_of, load_names_of, check_battery_units,
  check_pv_units, check_loads, check_meters, check_fire, check_temperature_humid,
  check_air_conditioners, is_location, check_others, validate_config, FileRead, contents, not_exist,
  read_error, validated, load_parsed, load_read, load_config,
}
use virtual_bess.Simulator.Config.Validate.Ids.{
  Registers, Registers-append, fire_ids, unit_ids, check_fire-Registers,
  check_battery_units-Registers, check_pv_units-Registers, check_temperature_humid-Registers,
}
use virtual_bess.Simulator.Config.Validate.References.{
  Resolves, IsRegular, check_meters-Resolves, check_loads-Fresh, check_air_conditioners-IsRegular,
}

module _ {F : Type 0} where
  -- the ids of the slaves behind the battery units
  abbrev pub other_ids : Config F → List ℕ
  other_ids c =
      pv_ids_of c.pv_units
      ++ (map (λ (m : MeterConfig F). m.slave_id) c.meters
          ++ (fire_ids c.fire
              ++ (map (λ (th : ThConfig F). th.slave_id) c.temperature_humid
                  ++ (map (λ (ac : AirConditionerConfig F). ac.slave_id) c.ac_units
                      ++ map (λ (ac : AirConditionerConfig F). ac.slave_id) c.lc_units))))

  -- the ids of all slaves
  abbrev pub slave_ids : Config F → List ℕ
  slave_ids c = unit_ids c.battery_units ++ other_ids c

module _ {F : Type 0} ⦃fl : Float F⦄ where
  -- There are units and meters, every slave has an id of its own that is not zero, and what refers to
  -- a slave or a load refers to one that is configured.
  pub record IsAccepted (c : Config F) : Type 0 where
    pub has_unit : is_empty c.battery_units ≡ false
    pub has_meter : is_empty c.meters ≡ false
    pub ids_nonzero : All (λ id. id ≢ 0) (slave_ids c)
    pub ids_distinct : Distinct (slave_ids c)
    pub meters_resolve :
        All
          (Resolves (pcs_ids_of c.battery_units) (pv_ids_of c.pv_units) (load_names_of c.loads))
          c.meters
    pub loads_distinct : Distinct (load_names_of c.loads)
    pub loads_named : All (λ (ld : LoadCfg F). is_empty ld.name ≡ false) c.loads
    pub ac_regular : All IsRegular c.ac_units
    pub lc_regular : All IsRegular c.lc_units

  -- What the loops behind the protocols make sure of.
  record IsChecked (c : Config F) (seen : List ℕ) : Type 0 where
    pub last : List ℕ
    pub registers : Registers seen (other_ids c) last
    pub resolve :
        All
          (Resolves (pcs_ids_of c.battery_units) (pv_ids_of c.pv_units) (load_names_of c.loads))
          c.meters
    pub distinct : Distinct (load_names_of c.loads)
    pub named : All (λ (ld : LoadCfg F). is_empty ld.name ≡ false) c.loads
    pub regular : All IsRegular c.ac_units
    pub regular_lc : All IsRegular c.lc_units

  check_others-IsChecked :
      (c : Config F) (seen : List ℕ) {t : Unit {0}}
      → check_others c seen ≡ valid t
      → IsChecked c seen
  unfolding check_others
  check_others-IsChecked c seen h =
      let pcs_ids = pcs_ids_of c.battery_units in
      let pv_ids = pv_ids_of c.pv_units in
      let names = load_names_of c.loads in
      let (s2, e2, h1) = >>=-valid (check_pv_units c.pv_units seen) _ h in
      let (t, x, h2) = >>=-valid (check_loads c.loads []) _ h1 in
      let (s3, e3, h3) = >>=-valid (check_meters pcs_ids pv_ids names c.meters s2) _ h2 in
      let (s4, e4, h4) = >>=-valid (check_fire c.fire s3) _ h3 in
      let (s5, e5, h5) = >>=-valid (check_temperature_humid c.temperature_humid s4) _ h4 in
      let (s6, e6, h6) = >>=-valid (check_air_conditioners c.ac_units s5) _ h5 in
      let (s7, e7, _) = >>=-valid (check_air_conditioners c.lc_units s6) _ h6 in
      let (r3, all3) = check_meters-Resolves pcs_ids pv_ids names c.meters s2 e3 in
      let (r6, all6) = check_air_conditioners-IsRegular c.ac_units s5 e6 in
      let (r7, all7) = check_air_conditioners-IsRegular c.lc_units s6 e7 in
      let (f, named) = check_loads-Fresh c.loads [] x in
      let r5 = check_temperature_humid-Registers c.temperature_humid s4 e5 in
      let r4 = check_fire-Registers c.fire s3 e4 in
      let behind_meters = Registers-append r4 (Registers-append r5 (Registers-append r6 r7)) in
      record {
        last = s7;
        registers =
            Registers-append (check_pv_units-Registers c.pv_units seen e2)
              (Registers-append r3 behind_meters);
        resolve = all3;
        distinct = Fresh-Distinct same same_refl [] names f;
        named = named;
        regular = all6;
        regular_lc = all7;
      }

  -- The time zone is known, the couplings and the protocols are valid, and the devices are accepted.
  pub record IsSound (knows_zone : Text → Bool) (c : Config F) : Type 0 where
    pub zone_known : is_location knows_zone c.timezone ≡ true
    pub grid_coupled : validate c.grid.coupling ≡ true
    pub pcs_coupled : validate c.pcs.coupling ≡ true
    pub xn3477_valid :
        validate_xn3477 c.xn3477 c.modbus.address (cluster_counts c.battery_units []) ≡ valid tt
    pub can_valid : validate_can c.can (bms_ids_of c.battery_units) ≡ valid tt
    pub iec61850_valid : validate_iec61850 c.iec61850 (pcs_ids_of c.battery_units) ≡ valid tt
    pub accepted : IsAccepted c

  pub validate_config-IsSound :
      (knows_zone : Text → Bool) (c : Config F) {t : Unit {0}}
      → validate_config knows_zone c ≡ valid t
      → IsSound knows_zone c
  unfolding validate_config
  validate_config-IsSound knows_zone c h =
      let counts = cluster_counts c.battery_units [] in
      let pcs_ids = pcs_ids_of c.battery_units in
      let (z, h1) =
        >>-valid (not (is_location knows_zone c.timezone)) (invalid_timezone c.timezone) _ h in
      let (g, h2) = >>-valid (not (validate c.grid.coupling)) invalid_grid_coupling _ h1 in
      let (p, h3) = >>-valid (not (validate c.pcs.coupling)) invalid_pcs_coupling _ h2 in
      let (u, h4) = >>-valid (is_empty c.battery_units) no_battery_unit _ h3 in
      let (m, h5) = >>-valid (is_empty c.meters) no_meter _ h4 in
      let (s1, e1, h6) = >>=-valid (check_battery_units c.battery_units []) _ h5 in
      let (_, x, h7) = >>=-valid (validate_xn3477 c.xn3477 c.modbus.address counts) _ h6 in
      let (_, y, h8) = >>=-valid (validate_can c.can (bms_ids_of c.battery_units)) _ h7 in
      let (_, w, h9) = >>=-valid (validate_iec61850 c.iec61850 pcs_ids) _ h8 in
      let rest = check_others-IsChecked c s1 h9 in
      let all =
        Registers-append (check_battery_units-Registers c.battery_units [] e1) rest.registers in
      record {
        zone_known = not-false (is_location knows_zone c.timezone) z;
        grid_coupled = not-false (validate c.grid.coupling) g;
        pcs_coupled = not-false (validate c.pcs.coupling) p;
        xn3477_valid = x;
        can_valid = y;
        iec61850_valid = w;
        accepted = record {
          has_unit = u;
          has_meter = m;
          ids_nonzero = all.nonzero;
          ids_distinct = Fresh-Distinct same_id ==_refl [] (slave_ids c) all.fresh;
          meters_resolve = rest.resolve;
          loads_distinct = rest.distinct;
          loads_named = rest.named;
          ac_regular = rest.regular;
          lc_regular = rest.regular_lc;
        };
      }

  -- A configuration without an error has units and meters, slave ids of its own that are not zero,
  -- references that resolve, and air conditioners with regular settings.
  pub validate_config-IsAccepted :
      (knows_zone : Text → Bool) (c : Config F) {t : Unit {0}}
      → validate_config knows_zone c ≡ valid t
      → IsAccepted c
  validate_config-IsAccepted knows_zone c h = (validate_config-IsSound knows_zone c h).accepted

  validated-IsAccepted :
      (knows_zone : Text → Bool) (c : Config F) {c' : Config F}
      → validated knows_zone c ≡ valid c'
      → IsAccepted c'
  validated-IsAccepted knows_zone c {c'} h =
      let (t, e, h1) = >>=-valid (validate_config knows_zone c) _ h in
      let same_config : c ≡ c' = cc h1 in
      subst IsAccepted same_config (validate_config-IsAccepted knows_zone c e)

  load_parsed-IsAccepted :
      (knows_zone : Text → Bool) (unmarshal : List ℕ → Config F → Option (Config F))
      (parsed : Option (Config F)) {c : Config F}
      → load_parsed knows_zone unmarshal parsed ≡ valid c
      → IsAccepted c
  load_parsed-IsAccepted knows_zone unmarshal none h = cc
  load_parsed-IsAccepted knows_zone unmarshal (some c) h =
      validated-IsAccepted knows_zone (apply_defaults c) h

  load_read-IsAccepted :
      (knows_zone : Text → Bool) (unmarshal : List ℕ → Config F → Option (Config F))
      (read : FileRead) {c : Config F}
      → load_read knows_zone unmarshal read ≡ valid c
      → IsAccepted c
  load_read-IsAccepted knows_zone unmarshal (contents bytes) h =
      load_parsed-IsAccepted knows_zone unmarshal (unmarshal bytes default_config) h
  load_read-IsAccepted knows_zone unmarshal not_exist h =
      validated-IsAccepted knows_zone default_config h
  load_read-IsAccepted knows_zone unmarshal read_error h = cc

  -- Whatever the file is and whatever the decoder makes of it, a configuration that `LoadConfig`
  -- returns has units and meters; every slave has an id of its own that is not zero; the load names
  -- are distinct; each sub-meter refers to slaves and loads that are configured; and no air
  -- conditioner has a differential of zero or below, or heats at the temperature at which it cools.
  pub load_config-IsAccepted :
      (knows_zone : Text → Bool) (unmarshal : List ℕ → Config F → Option (Config F)) (path : Text)
      (read_file : Text → FileRead) {c : Config F}
      → load_config knows_zone unmarshal path read_file ≡ valid c
      → IsAccepted c
  unfolding load_config
  load_config-IsAccepted knows_zone unmarshal [] read_file h =
      validated-IsAccepted knows_zone default_config h
  load_config-IsAccepted knows_zone unmarshal (b ∷ path) read_file h =
      load_read-IsAccepted knows_zone unmarshal (read_file (b ∷ path)) h
