-- ===== src/Simulator/Config/Iec61850.antt =====
-- internal/simulator/config.go: the validation of the IEC 61850 endpoints and of GOOSE.
pub mod Endpoints
pub mod Complete
use virtual_bess.Prelude.{
  ℕ, List, [], ◌∷◌, Bool, true, false, not, ◌&&◌, Option, none, some, ◌==◌, if◌then◌else◌,
}
use virtual_bess.Prelude.Integer.{pos, is_positive}
use virtual_bess.Prelude.Text.{Text, is_empty, same}
use virtual_bess.Prelude.Distinct.{elem}
use virtual_bess.Simulator.Config.{Iec61850Config, Iec61850DeviceConfig, Iec61850GooseConfig}
use virtual_bess.Simulator.Config.Names.{
  effective_ied_name, is_valid_ied_name, parse_iec61850_app_id, parse_iec61850_mac,
  split_iec61850_address,
}
use virtual_bess.Simulator.Config.Checks.{
  Checked, valid, invalid, ◌>>=◌, ◌>>◌, refuse_if, same_id, no_interface, bad_app_id, bad_mac,
  bad_interval, bad_time_to_live, goose_needs_iec61850, bad_ied_name, duplicate_ied_name,
  zero_slave_id, unknown_pcs, no_address, bad_iec61850_address, duplicate_address, duplicate_app_id,
  ConfigError,
}

-- `err != nil` of a parse
abbrev pub is_none {ℓ} : {A : Type ℓ} → Option A → Bool
is_none none = true
is_none (some a) = false

-- `validateIEC61850GOOSEConfig`
unfoldable pub validate_iec61850_goose_config : Iec61850GooseConfig → Checked (Unit {0})
validate_iec61850_goose_config cfg = if not cfg.enabled then valid tt else (do
  refuse_if (is_empty cfg.interface_id) no_interface
  refuse_if (is_none (parse_iec61850_app_id cfg.app_id)) (bad_app_id cfg.app_id)
  refuse_if (is_none (parse_iec61850_mac cfg.dst_mac)) (bad_mac cfg.dst_mac)
  refuse_if (not (is_positive cfg.interval_ms)) bad_interval
  refuse_if (cfg.time_allowed_to_live_ms == 0) bad_time_to_live)

-- the first loop: GOOSE of a device wants the protocol
abbrev pub goose_without_iec61850 : Bool → List Iec61850DeviceConfig → Bool
goose_without_iec61850 enabled [] = false
goose_without_iec61850 enabled (device ∷ devices) =
    if device.goose.enabled && not enabled then true else goose_without_iec61850 enabled devices

-- the application id of a device, behind the ones that are seen
abbrev pub add_app_id : Text → List ℕ → Option ℕ → Checked (List ℕ)
add_app_id text seen none = invalid (bad_app_id text)
add_app_id text seen (some app_id) = do
  refuse_if (elem same_id app_id seen) (duplicate_app_id text)
  valid (app_id ∷ seen)

abbrev pub seen_app_ids : Iec61850GooseConfig → List ℕ → Checked (List ℕ)
seen_app_ids goose seen =
    if goose.enabled
    then add_app_id goose.app_id seen (parse_iec61850_app_id goose.app_id)
    else valid seen

-- the loop over the devices, on `seenIEDNames`, `seenAddresses` and `seenGOOSEAppIDs`
unfoldable pub validate_iec61850_devices :
    Iec61850Config
    → List ℕ
    → List Text
    → List Text
    → List ℕ
    → List Iec61850DeviceConfig
    → Checked (Unit {0})
validate_iec61850_devices cfg pcs_ids names addresses app_ids [] = valid tt
validate_iec61850_devices cfg pcs_ids names addresses app_ids (device ∷ devices) = do
  let name = effective_ied_name cfg device true
  refuse_if (not (is_valid_ied_name name)) (bad_ied_name name)
  refuse_if (elem same name names) (duplicate_ied_name name)
  refuse_if (device.pcs_slave_id == 0) zero_slave_id
  refuse_if (not (elem same_id device.pcs_slave_id pcs_ids)) (unknown_pcs device.pcs_slave_id)
  refuse_if (is_empty device.address) no_address
  refuse_if (is_none (split_iec61850_address device.address)) (bad_iec61850_address device.address)
  refuse_if (elem same device.address addresses) (duplicate_address device.address)
  validate_iec61850_goose_config device.goose
  app_ids' ← seen_app_ids device.goose app_ids
  validate_iec61850_devices cfg pcs_ids (name ∷ names) (device.address ∷ addresses) app_ids' devices

-- `IEC61850DeviceConfig{}`
abbrev pub empty_goose : Iec61850GooseConfig
empty_goose = record {
  enabled = false;
  interface_id = [];
  app_id = [];
  dst_mac = [];
  vlan_priority = 0;
  vlan_id = 0;
  disable_vlan = false;
  interval_ms = pos 0;
  time_allowed_to_live_ms = 0;
}

abbrev pub no_device : Iec61850DeviceConfig
no_device = record { pcs_slave_id = 0; address = []; ied_name = []; goose = empty_goose }

abbrev pub validate_single : Iec61850Config → Checked (Unit {0})
validate_single cfg = do
  let name = effective_ied_name cfg no_device false
  refuse_if (not (is_valid_ied_name name)) (bad_ied_name name)
  validate_iec61850_goose_config cfg.goose

-- `IEC61850Config.validate`
unfoldable pub validate_iec61850 : Iec61850Config → List ℕ → Checked (Unit {0})
validate_iec61850 cfg pcs_ids = do
  refuse_if (cfg.goose.enabled && not cfg.enabled) goose_needs_iec61850
  refuse_if (goose_without_iec61850 cfg.enabled cfg.devices) goose_needs_iec61850
  if not cfg.enabled
      then valid tt
      else if is_empty cfg.devices
      then validate_single cfg
      else validate_iec61850_devices cfg pcs_ids [] [] [] cfg.devices
