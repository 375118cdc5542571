-- ===== src/Tests/Config.antt =====
-- Configurations on numbers in thousandths: the default one, and one with endpoints.
use virtual_bess.Prelude.{◌↔◌, ◌≡◌, refl, ℕ, List, [], ◌∷◌, true, false, Option, none, All}
use virtual_bess.Prelude.Integer.{ℤ, pos}
use virtual_bess.Prelude.Text.{Text, codes, is_empty}
use virtual_bess.Prelude.Distinct.{Distinct}
use virtual_bess.Simulator.Float.{milli_float}
use virtual_bess.Simulator.GridVoltage.{validate}
use virtual_bess.Simulator.Config.{
  Config, Xn3477Config, Xn3477DeviceConfig, Iec61850Config, Iec61850DeviceConfig,
}
use virtual_bess.Simulator.Config.Checks.{valid, invalid, slave_id_conflict, check}
use virtual_bess.Simulator.Config.Defaults.{default_config, default_iec61850}
use virtual_bess.Simulator.Config.Xn3477.{
  validate_clusters, validate_xn3477_devices, validate_xn3477,
}
use virtual_bess.Simulator.Config.Xn3477.Complete.{validate_xn3477_iff}
use virtual_bess.Simulator.Config.Iec61850.Complete.{validate_iec61850_iff}
use virtual_bess.Simulator.Config.Xn3477.Accepted.{IsEndpoint, addresses_of, units_of}
use virtual_bess.Simulator.Config.Can.{validate_can}
use virtual_bess.Simulator.Config.Iec61850.{
  validate_iec61850_devices, validate_iec61850_goose_config, validate_iec61850, no_device,
}
use virtual_bess.Simulator.Config.Iec61850.Endpoints.{IsServed, names_of, goose_app_ids}
use virtual_bess.Simulator.Config.Names.{
  effective_ied_name, is_valid_ied_name, split_iec61850_address,
}
use virtual_bess.Simulator.Config.Validate.{
  FileRead, read_error, check_battery_units, check_pv_units, check_loads, check_references,
  check_meters, check_fire, check_temperature_humid, validate_air_conditioner_config,
  check_air_conditioners, check_others, validate_config, load_config,
}
use virtual_bess.Simulator.Config.Validate.Accepted.{IsAccepted, load_config-IsAccepted}

-- a slave id that is used already is refused
check_test : check 3 (4 ∷ 3 ∷ []) ≡ invalid (slave_id_conflict 3)
unfolding check
check_test = refl

abbrev cluster_bms : Xn3477DeviceConfig
cluster_bms = record {
  bms_slave_id = 11;
  address = codes ":503";
  bau_slave_id = 1;
  cluster_slave_ids = 2 ∷ 3 ∷ [];
}

abbrev bms_endpoints : Xn3477Config
bms_endpoints = record { enabled = true; devices = cluster_bms ∷ [] }

validate_xn3477_iff_example :
    (validate_xn3477 bms_endpoints (codes ":502") ((11, pos 2) ∷ []) ≡ valid tt) ↔ (
      (is_empty bms_endpoints.devices ≡ false)
      × Distinct (codes ":502" ∷ addresses_of bms_endpoints.devices)
      × Distinct (units_of bms_endpoints.devices)
      × All (IsEndpoint ((11, pos 2) ∷ [])) bms_endpoints.devices)
validate_xn3477_iff_example =
    validate_xn3477_iff bms_endpoints (codes ":502") ((11, pos 2) ∷ []) refl

xn3477_accepted_test : validate_xn3477 bms_endpoints (codes ":502") ((11, pos 2) ∷ []) ≡ valid tt
unfolding validate_xn3477 validate_xn3477_devices validate_clusters
xn3477_accepted_test = refl

abbrev pcs_endpoint : ℕ → Text → Iec61850DeviceConfig
pcs_endpoint id address = record no_device { pcs_slave_id = id; address = address }

abbrev pcs_endpoints : Iec61850Config
pcs_endpoints = record default_iec61850 {
  enabled = true;
  devices = pcs_endpoint 1 (codes ":102") ∷ pcs_endpoint 2 (codes "[::1]:103") ∷ [];
}

validate_iec61850_iff_example : (validate_iec61850 pcs_endpoints (1 ∷ 2 ∷ []) ≡ valid tt) ↔ (
    Distinct (names_of pcs_endpoints pcs_endpoints.devices)
    × Distinct (codes ":102" ∷ codes "[::1]:103" ∷ [])
    × Distinct (goose_app_ids pcs_endpoints.devices)
    × All (IsServed pcs_endpoints (1 ∷ 2 ∷ [])) pcs_endpoints.devices)
validate_iec61850_iff_example = validate_iec61850_iff pcs_endpoints (1 ∷ 2 ∷ []) refl refl

iec61850_accepted_test : validate_iec61850 pcs_endpoints (1 ∷ 2 ∷ []) ≡ valid tt
unfolding validate_iec61850 validate_iec61850_devices validate_iec61850_goose_config
    effective_ied_name is_valid_ied_name split_iec61850_address
iec61850_accepted_test = refl

abbrev no_file : Text → FileRead
no_file path = read_error

abbrev no_decoder : List ℕ → Config ℤ → Option (Config ℤ)
no_decoder bytes c = none

default_config-accepted : load_config (λ zone. false) no_decoder [] no_file ≡ valid default_config
unfolding load_config default_config validate_config validate validate_xn3477 validate_can
    validate_iec61850 check check_battery_units check_pv_units check_loads check_references
    check_meters check_fire check_temperature_humid validate_air_conditioner_config
    check_air_conditioners check_others
default_config-accepted = refl

load_config-IsAccepted_example : IsAccepted {F = ℤ} default_config
load_config-IsAccepted_example =
    load_config-IsAccepted (λ zone. false) no_decoder [] no_file default_config-accepted
