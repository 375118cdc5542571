-- ===== src/Simulator/Config.antt =====
-- internal/simulator/config.go and config_xn3477.go: the configuration, as `yaml.Unmarshal` fills it.
-- Strings are their bytes, and the labels in the texts of the errors are left out.
use virtual_bess.Prelude.{ℕ, List, Bool, true, false, Option, if◌then◌else◌}
use virtual_bess.Prelude.Integer.{ℤ}
use virtual_bess.Prelude.Text.{Text}
use virtual_bess.Simulator.GridVoltage.{GridCouplingConfig}
pub mod Checks
pub mod Defaults
pub mod Names
pub mod Xn3477
pub mod Can
pub mod Iec61850
pub mod Validate

pub record GridConfig (F : Type 0) : Type 0 where
  pub voltage : F
  pub frequency : F
  pub coupling : GridCouplingConfig F

pub record ReactiveQuConfig (F : Type 0) : Type 0 where
  pub deadband : F
  pub full_response : F

pub record PcsConfig (F : Type 0) : Type 0 where
  pub ac_voltage : F
  pub reactive_qu : ReactiveQuConfig F
  pub coupling : GridCouplingConfig F

pub record BatteryUnitConfig (F : Type 0) : Type 0 where
  pub pcs_slave_id : ℕ
  pub bms_slave_id : ℕ
  pub rated_capacity_kwh : F
  pub rated_power_kw : F
  pub initial_soc : F
  pub soh : F
  pub battery_voltage_full : F
  pub cluster_count : ℤ

pub record PvUnitConfig (F : Type 0) : Type 0 where
  pub slave_id : ℕ
  pub rated_power_kw : F

pub record MeterConfig (F : Type 0) : Type 0 where
  pub slave_id : ℕ
  pub name : Text
  pub is_main : Bool
  pub pcs_slave_ids : List ℕ
  pub pv_slave_ids : List ℕ
  pub load_names : List Text
  pub flow_direction : Text
  pub voltage : F
  pub pt_ratio : F
  pub ct_ratio : F

pub record LoadCfg (F : Type 0) : Type 0 where
  pub name : Text
  pub rated_power_kw : F

pub record FireConfig : Type 0 where
  pub slave_id : ℕ
  pub fire_system : ℕ
  pub smoke : ℕ
  pub gas : ℕ
  pub fire_device : ℕ

pub record ThConfig (F : Type 0) : Type 0 where
  pub slave_id : ℕ
  pub temperature : F
  pub humidity : F

pub record AirConditionerConfig (F : Type 0) : Type 0 where
  pub slave_id : ℕ
  pub name : Text
  pub indoor_temperature : F
  pub ambient_temperature : F
  pub cooling_setpoint : F
  pub heating_setpoint : F
  pub cooling_differential : F
  pub heating_differential : F

pub record ModbusConfig : Type 0 where
  pub address : Text
  pub rtu_over_tcp_address : Text

pub record CanDeviceConfig : Type 0 where
  pub bms_slave_id : ℕ
  pub interface : Text
  pub bit_rate : ℤ
  pub broadcast_period_ms : ℤ

pub record CanConfig : Type 0 where
  pub enabled : Bool
  pub devices : List CanDeviceConfig

pub record Iec61850GooseConfig : Type 0 where
  pub enabled : Bool
  pub interface_id : Text
  pub app_id : Text
  pub dst_mac : Text
  pub vlan_priority : ℕ
  pub vlan_id : ℕ
  pub disable_vlan : Bool
  pub interval_ms : ℤ
  pub time_allowed_to_live_ms : ℕ

pub record Iec61850DeviceConfig : Type 0 where
  pub pcs_slave_id : ℕ
  pub address : Text
  pub ied_name : Text
  pub goose : Iec61850GooseConfig

pub record Iec61850Config : Type 0 where
  pub enabled : Bool
  pub address : Text
  pub ied_name : Text
  pub goose : Iec61850GooseConfig
  pub devices : List Iec61850DeviceConfig

pub record Xn3477DeviceConfig : Type 0 where
  pub bms_slave_id : ℕ
  pub address : Text
  pub bau_slave_id : ℕ
  pub cluster_slave_ids : List ℕ

pub record Xn3477Config : Type 0 where
  pub enabled : Bool
  pub devices : List Xn3477DeviceConfig

pub record LogConfig : Type 0 where
  pub file : Text
  pub level : Text
  pub console : Bool

pub record StateConfig : Type 0 where
  pub file : Text
  pub interval : ℤ

pub record Config (F : Type 0) : Type 0 where
  pub modbus : ModbusConfig
  pub xn3477 : Xn3477Config
  pub iec61850 : Iec61850Config
  pub can : CanConfig
  pub grid : GridConfig F
  pub pcs : PcsConfig F
  pub battery_units : List (BatteryUnitConfig F)
  pub pv_units : List (PvUnitConfig F)
  pub meters : List (MeterConfig F)
  pub loads : List (LoadCfg F)
  pub ac_units : List (AirConditionerConfig F)
  pub lc_units : List (AirConditionerConfig F)
  pub fire : Option FireConfig
  pub temperature_humid : List (ThConfig F)
  pub log : LogConfig
  pub state : StateConfig
  pub timezone : Text
