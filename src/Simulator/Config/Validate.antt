-- ===== src/Simulator/Config/Validate.antt =====
-- internal/simulator/config.go: `validate` and `LoadConfig`. Whether the time zone data knows a name,
-- and what `yaml.Unmarshal` makes of a file, are arguments.
pub mod Ids
pub mod References
pub mod Accepted
pub mod Accepts
pub mod Complete
use virtual_bess.Prelude.{
  ℕ, List, [], ◌∷◌, map, Bool, true, false, not, ◌||◌, Option, none, some, ◌==◌, if◌then◌else◌,
}
use virtual_bess.Prelude.Integer.{ℤ}
use virtual_bess.Prelude.Text.{Text, codes, is_empty, same}
use virtual_bess.Prelude.Distinct.{elem}
use virtual_bess.Simulator.Float.{Float, le, nought}
use virtual_bess.Simulator.GridVoltage.{validate}
use virtual_bess.Simulator.Config.{
  Config, BatteryUnitConfig, PvUnitConfig, MeterConfig, LoadCfg, FireConfig, ThConfig,
  AirConditionerConfig,
}
use virtual_bess.Simulator.Config.Checks.{
  Checked, valid, invalid, ◌>>=◌, ◌>>◌, refuse_if, same_id, check, invalid_timezone,
  invalid_grid_coupling, invalid_pcs_coupling, no_battery_unit, no_meter, no_load_name,
  duplicate_load, bad_flow_direction, unknown_pcs, unknown_pv, unknown_load, bad_differential,
  bad_setpoints, unreadable_file, bad_yaml,
}
use virtual_bess.Simulator.Config.Defaults.{default_config, apply_defaults}
use virtual_bess.Simulator.Config.Xn3477.{validate_xn3477}
use virtual_bess.Simulator.Config.Can.{validate_can}
use virtual_bess.Simulator.Config.Iec61850.{validate_iec61850}

-- the references of a sub-meter to slaves, and to loads
unfoldable pub check_known_pcs : List ℕ → List ℕ → Checked (Unit {0})
check_known_pcs pcs_ids [] = valid tt
check_known_pcs pcs_ids (id ∷ ids) = do
  refuse_if (not (elem same_id id pcs_ids)) (unknown_pcs id)
  check_known_pcs pcs_ids ids

unfoldable pub check_known_pvs : List ℕ → List ℕ → Checked (Unit {0})
check_known_pvs pv_ids [] = valid tt
check_known_pvs pv_ids (id ∷ ids) = do
  refuse_if (not (elem same_id id pv_ids)) (unknown_pv id)
  check_known_pvs pv_ids ids

unfoldable pub check_known_loads : List Text → List Text → Checked (Unit {0})
check_known_loads load_names [] = valid tt
check_known_loads load_names (n ∷ ns) = do
  refuse_if (not (elem same n load_names)) (unknown_load n)
  check_known_loads load_names ns

abbrev pub is_flow_direction : Text → Bool
is_flow_direction s = is_empty s || same s (codes "inflow") || same s (codes "outflow")

module _ {F : Type 0} where
  -- the loop over the battery units, on the ids seen; the ids and the cluster counts of the units are
  -- those of the list
  unfoldable pub check_battery_units : List (BatteryUnitConfig F) → List ℕ → Checked (List ℕ)
  check_battery_units [] seen = valid seen
  check_battery_units (bu ∷ rest) seen = do
    seen1 ← check bu.pcs_slave_id seen
    seen2 ← check bu.bms_slave_id seen1
    check_battery_units rest seen2

  -- `bmsClusterCounts` behind the loop
  abbrev pub cluster_counts : List (BatteryUnitConfig F) → List (ℕ × ℤ) → List (ℕ × ℤ)
  cluster_counts [] counts = counts
  cluster_counts (bu ∷ rest) counts =
      cluster_counts rest ((bu.bms_slave_id, bu.cluster_count) ∷ counts)

  -- `pcsIDs`, `bmsIDs`, `pvIDs` and `loadNames` behind their loops
  abbrev pub pcs_ids_of : List (BatteryUnitConfig F) → List ℕ
  pcs_ids_of = map (λ (bu : BatteryUnitConfig F). bu.pcs_slave_id)

  abbrev pub bms_ids_of : List (BatteryUnitConfig F) → List ℕ
  bms_ids_of = map (λ (bu : BatteryUnitConfig F). bu.bms_slave_id)

  abbrev pub pv_ids_of : List (PvUnitConfig F) → List ℕ
  pv_ids_of = map (λ (pv : PvUnitConfig F). pv.slave_id)

  abbrev pub load_names_of : List (LoadCfg F) → List Text
  load_names_of = map (λ (ld : LoadCfg F). ld.name)

  unfoldable pub check_pv_units : List (PvUnitConfig F) → List ℕ → Checked (List ℕ)
  check_pv_units [] seen = valid seen
  check_pv_units (pv ∷ rest) seen = do seen' ← check pv.slave_id seen; check_pv_units rest seen'

  -- the loop over the loads, on `loadNames`
  unfoldable pub check_loads : List (LoadCfg F) → List Text → Checked (Unit {0})
  check_loads [] seen = valid tt
  check_loads (ld ∷ rest) seen = do
    refuse_if (is_empty ld.name) no_load_name
    refuse_if (elem same ld.name seen) (duplicate_load ld.name)
    check_loads rest (ld.name ∷ seen)

  -- the references of a meter
  unfoldable pub check_references : List ℕ → List ℕ → List Text → MeterConfig F → Checked (Unit {0})
  check_references pcs_ids pv_ids load_names m = if m.is_main then valid tt else (do
    check_known_pcs pcs_ids m.pcs_slave_ids
    check_known_pvs pv_ids m.pv_slave_ids
    check_known_loads load_names m.load_names)

  unfoldable pub check_meters :
      List ℕ → List ℕ → List Text → List (MeterConfig F) → List ℕ → Checked (List ℕ)
  check_meters pcs_ids pv_ids load_names [] seen = valid seen
  check_meters pcs_ids pv_ids load_names (m ∷ rest) seen = do
    seen' ← check m.slave_id seen
    refuse_if (not (is_flow_direction m.flow_direction)) (bad_flow_direction m.flow_direction)
    check_references pcs_ids pv_ids load_names m
    check_meters pcs_ids pv_ids load_names rest seen'

  unfoldable pub check_temperature_humid : List (ThConfig F) → List ℕ → Checked (List ℕ)
  check_temperature_humid [] seen = valid seen
  check_temperature_humid (th ∷ rest) seen = do
    seen' ← check th.slave_id seen
    check_temperature_humid rest seen'

-- `resolveLocation`: whether it returns no error
abbrev pub is_location : (Text → Bool) → Text → Bool
is_location knows_zone tz = is_empty tz || knows_zone tz

unfoldable pub check_fire : Option FireConfig → List ℕ → Checked (List ℕ)
check_fire none seen = valid seen
check_fire (some fire) seen = check fire.slave_id seen

module _ {F : Type 0} ⦃fl : Float F⦄ where
  -- `validateAirConditionerConfig`
  unfoldable pub validate_air_conditioner_config :
      AirConditionerConfig F → List ℕ → Checked (List ℕ)
  validate_air_conditioner_config cfg seen = do
    seen' ← check cfg.slave_id seen
    refuse_if (le cfg.cooling_differential nought || le cfg.heating_differential nought)
        bad_differential
    refuse_if (le cfg.cooling_setpoint cfg.heating_setpoint) bad_setpoints
    valid seen'

  unfoldable pub check_air_conditioners : List (AirConditionerConfig F) → List ℕ → Checked (List ℕ)
  check_air_conditioners [] seen = valid seen
  check_air_conditioners (ac ∷ rest) seen = do
    seen' ← validate_air_conditioner_config ac seen
    check_air_conditioners rest seen'

  -- the loops behind the protocols, on the ids seen
  unfoldable pub check_others : Config F → List ℕ → Checked (Unit {0})
  check_others c seen1 = do
    seen2 ← check_pv_units c.pv_units seen1
    check_loads c.loads []
    seen3 ←
        check_meters (pcs_ids_of c.battery_units) (pv_ids_of c.pv_units) (load_names_of c.loads)
          c.meters seen2
    seen4 ← check_fire c.fire seen3
    seen5 ← check_temperature_humid c.temperature_humid seen4
    seen6 ← check_air_conditioners c.ac_units seen5
    seen7 ← check_air_conditioners c.lc_units seen6
    valid tt

  -- `Config.validate`
  unfoldable pub validate_config : (Text → Bool) → Config F → Checked (Unit {0})
  validate_config knows_zone c = do
    refuse_if (not (is_location knows_zone c.timezone)) (invalid_timezone c.timezone)
    refuse_if (not (validate c.grid.coupling)) invalid_grid_coupling
    refuse_if (not (validate c.pcs.coupling)) invalid_pcs_coupling
    refuse_if (is_empty c.battery_units) no_battery_unit
    refuse_if (is_empty c.meters) no_meter
    seen1 ← check_battery_units c.battery_units []
    validate_xn3477 c.xn3477 c.modbus.address (cluster_counts c.battery_units [])
    validate_can c.can (bms_ids_of c.battery_units)
    validate_iec61850 c.iec61850 (pcs_ids_of c.battery_units)
    check_others c seen1

  abbrev pub validated : (Text → Bool) → Config F → Checked (Config F)
  validated knows_zone c = do validate_config knows_zone c; valid c

-- what `os.ReadFile` returns
pub data FileRead : Type 0 where
  contents : List ℕ → FileRead
  not_exist : FileRead
  read_error : FileRead

module _ {F : Type 0} ⦃fl : Float F⦄ (knows_zone : Text → Bool)
    (unmarshal : List ℕ → Config F → Option (Config F)) where
  abbrev pub load_parsed : Option (Config F) → Checked (Config F)
  load_parsed none = invalid bad_yaml
  load_parsed (some c) = validated knows_zone (apply_defaults c)

  abbrev pub load_read : FileRead → Checked (Config F)
  load_read (contents bytes) = load_parsed (unmarshal bytes default_config)
  load_read not_exist = validated knows_zone default_config
  load_read read_error = invalid unreadable_file

  -- `LoadConfig`; `unmarshal` changes the configuration that it is given, or fails
  unfoldable pub load_config : Text → (Text → FileRead) → Checked (Config F)
  load_config path read_file =
      if is_empty path then validated knows_zone default_config else load_read (read_file path)
