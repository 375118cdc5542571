-- ===== src/Simulator/Config/Can.antt =====
-- internal/simulator/config.go: the validation of the CAN devices.
use virtual_bess.Prelude.{ℕ, List, [], ◌∷◌, not, if◌then◌else◌}
use virtual_bess.Prelude.Text.{Text, is_empty, same}
use virtual_bess.Prelude.Distinct.{elem}
use virtual_bess.Simulator.Config.{CanConfig, CanDeviceConfig}
use virtual_bess.Simulator.Config.Checks.{
  Checked, valid, ◌>>◌, refuse_if, same_id, no_devices, no_interface, duplicate_interface,
  unknown_bms,
}

-- the loop over the devices, on `seenIface`
unfoldable pub validate_can_devices : List ℕ → List Text → List CanDeviceConfig → Checked (Unit {0})
validate_can_devices bms_ids seen [] = valid tt
validate_can_devices bms_ids seen (d ∷ devices) = do
  refuse_if (is_empty d.interface) no_interface
  refuse_if (elem same d.interface seen) (duplicate_interface d.interface)
  refuse_if (not (elem same_id d.bms_slave_id bms_ids)) (unknown_bms d.bms_slave_id)
  validate_can_devices bms_ids (d.interface ∷ seen) devices

-- `CANConfig.validate`
unfoldable pub validate_can : CanConfig → List ℕ → Checked (Unit {0})
validate_can cfg bms_ids = if not cfg.enabled then valid tt else (do
  refuse_if (is_empty cfg.devices) no_devices
  validate_can_devices bms_ids [] cfg.devices)
