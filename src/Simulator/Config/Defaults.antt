-- ===== src/Simulator/Config/Defaults.antt =====
-- internal/simulator/config.go: the defaults.
use virtual_bess.Prelude.{ℕ, [], ◌∷◌, map, true, false, none, ◌==◌, if◌then◌else◌}
use virtual_bess.Prelude.Integer.{ℤ, pos, negsuc, or_positive}
use virtual_bess.Prelude.Text.{Text, codes, or_text}
use virtual_bess.Simulator.Float.{Float, le, nought}
use virtual_bess.Simulator.GridVoltage.{GridCouplingConfig}
use virtual_bess.Simulator.Config.{
  Config, ReactiveQuConfig, BatteryUnitConfig, MeterConfig, AirConditionerConfig, CanConfig,
  CanDeviceConfig, Iec61850Config, Iec61850DeviceConfig, Iec61850GooseConfig,
}
use virtual_bess.Simulator.Config.Iec61850.{empty_goose}

abbrev pub or_number : ℕ → ℕ → ℕ
or_number n default = if n == 0 then default else n

-- `n`, or the other value where `n == 0`
abbrev pub or_integer : ℤ → ℤ → ℤ
or_integer (pos n) default = if n == 0 then default else pos n
or_integer (negsuc n) default = negsuc n

-- `applyIEC61850GOOSEDefaults`
abbrev pub apply_iec61850_goose_defaults : Iec61850GooseConfig → Iec61850GooseConfig
apply_iec61850_goose_defaults cfg = record cfg {
  app_id = or_text cfg.app_id (codes "0100");
  dst_mac = or_text cfg.dst_mac (codes "01-0C-CD-01-01-00");
  vlan_priority = or_number cfg.vlan_priority 4;
  interval_ms = or_integer cfg.interval_ms (pos 1000);
  time_allowed_to_live_ms = or_number cfg.time_allowed_to_live_ms 5000;
}

abbrev pub apply_iec61850_defaults : Iec61850Config → Iec61850Config
apply_iec61850_defaults cfg = record cfg {
  address = or_text cfg.address (codes ":102");
  goose = apply_iec61850_goose_defaults cfg.goose;
  devices =
      map (λ (d : Iec61850DeviceConfig). record d { goose = apply_iec61850_goose_defaults d.goose })
        cfg.devices;
}

abbrev pub apply_can_defaults : CanConfig → CanConfig
apply_can_defaults cfg = record cfg {
  devices =
      map
        (λ (d : CanDeviceConfig). record d {
          broadcast_period_ms = or_positive d.broadcast_period_ms (pos 200);
        })
        cfg.devices;
}

abbrev pub default_iec61850 : Iec61850Config
default_iec61850 = record {
  enabled = false;
  address = codes ":102";
  ied_name = [];
  goose = empty_goose;
  devices = [];
}

module _ {F : Type 0} ⦃fl : Float F⦄ where
  -- `x`, or the other value where `x == 0`
  abbrev pub or_value : F → F → F
  or_value x default = if fl.eq x nought then default else x

  -- `applyAirConditionerDefaults`
  abbrev pub apply_air_conditioner_defaults : AirConditionerConfig F → AirConditionerConfig F
  apply_air_conditioner_defaults cfg =
      let ambient = or_value cfg.ambient_temperature (fl.lit 30 0) in
      record cfg {
        cooling_setpoint = or_value cfg.cooling_setpoint (fl.lit 25 0);
        heating_setpoint = or_value cfg.heating_setpoint (fl.lit 15 0);
        cooling_differential = or_value cfg.cooling_differential (fl.lit 2 0);
        heating_differential = or_value cfg.heating_differential (fl.lit 2 0);
        ambient_temperature = ambient;
        indoor_temperature = or_value cfg.indoor_temperature ambient;
      }

  abbrev pub default_qu_deadband_pu : F
  default_qu_deadband_pu = fl.lit 1 2

  abbrev pub default_qu_full_response_pu : F
  default_qu_full_response_pu = fl.lit 5 2

  abbrev pub apply_qu_defaults : ReactiveQuConfig F → ReactiveQuConfig F
  apply_qu_defaults qu =
      let deadband = if le qu.deadband nought then default_qu_deadband_pu else qu.deadband in
      record {
        deadband = deadband;
        full_response =
            if le qu.full_response deadband
            then fl.sub (fl.add deadband default_qu_full_response_pu) default_qu_deadband_pu
            else qu.full_response;
      }

  abbrev pub apply_battery_unit_defaults : BatteryUnitConfig F → BatteryUnitConfig F
  apply_battery_unit_defaults bu = record bu {
    cluster_count = or_positive bu.cluster_count (pos 1);
    battery_voltage_full = or_value bu.battery_voltage_full (fl.lit 1400 0);
    soh = or_value bu.soh (fl.lit 100 0);
  }

  -- `applyDefaults`
  unfoldable pub apply_defaults : Config F → Config F
  apply_defaults c = record c {
    grid = record c.grid {
      voltage = or_value c.grid.voltage (fl.lit 220 0);
      frequency = or_value c.grid.frequency (fl.lit 50 0);
    };
    modbus = record c.modbus { address = or_text c.modbus.address (codes ":502") };
    iec61850 = apply_iec61850_defaults c.iec61850;
    pcs = record c.pcs {
      ac_voltage = or_value c.pcs.ac_voltage (fl.lit 400 0);
      reactive_qu = apply_qu_defaults c.pcs.reactive_qu;
    };
    state = record c.state { interval = or_positive c.state.interval (pos 15) };
    battery_units = map apply_battery_unit_defaults c.battery_units;
    can = apply_can_defaults c.can;
    ac_units = map apply_air_conditioner_defaults c.ac_units;
    lc_units = map apply_air_conditioner_defaults c.lc_units;
  }

  abbrev pub no_coupling : GridCouplingConfig F
  no_coupling = record {
    base_kva = nought;
    resistance_pu = nought;
    reactance_pu = nought;
    response_seconds = nought;
  }

  abbrev pub default_air_conditioner : ℕ → Text → ℕ → ℕ → AirConditionerConfig F
  default_air_conditioner slave_id name indoor ambient = record {
    slave_id = slave_id;
    name = name;
    indoor_temperature = fl.lit indoor 0;
    ambient_temperature = fl.lit ambient 0;
    cooling_setpoint = fl.lit 25 0;
    heating_setpoint = fl.lit 15 0;
    cooling_differential = fl.lit 2 0;
    heating_differential = fl.lit 2 0;
  }

  abbrev pub default_battery_unit : BatteryUnitConfig F
  default_battery_unit = record {
    pcs_slave_id = 1;
    bms_slave_id = 11;
    rated_capacity_kwh = fl.lit 261 0;
    rated_power_kw = fl.lit 120 0;
    initial_soc = fl.lit 30 0;
    soh = fl.lit 100 0;
    battery_voltage_full = fl.lit 1400 0;
    cluster_count = pos 1;
  }

  abbrev pub default_meter : MeterConfig F
  default_meter = record {
    slave_id = 31;
    name = codes "main";
    is_main = true;
    pcs_slave_ids = [];
    pv_slave_ids = [];
    load_names = [];
    flow_direction = [];
    voltage = nought;
    pt_ratio = nought;
    ct_ratio = nought;
  }

  -- `DefaultConfig`
  unfoldable pub default_config : Config F
  default_config = record {
    modbus = record { address = codes ":502"; rtu_over_tcp_address = [] };
    xn3477 = record { enabled = false; devices = [] };
    iec61850 = default_iec61850;
    can = record { enabled = false; devices = [] };
    grid = record { voltage = fl.lit 220 0; frequency = nought; coupling = no_coupling };
    pcs = record {
      ac_voltage = fl.lit 400 0;
      reactive_qu = record {
        deadband = default_qu_deadband_pu;
        full_response = default_qu_full_response_pu;
      };
      coupling = no_coupling;
    };
    battery_units = default_battery_unit ∷ [];
    pv_units = record { slave_id = 21; rated_power_kw = fl.lit 120 0 } ∷ [];
    meters = default_meter ∷ [];
    loads = record { name = codes "load"; rated_power_kw = fl.lit 80 0 } ∷ [];
    ac_units =
        default_air_conditioner 41 (codes "ac-1") 30 32
        ∷ default_air_conditioner 42 (codes "ac-2") 29 31
        ∷ [];
    lc_units =
        default_air_conditioner 51 (codes "lc-1") 30 32
        ∷ default_air_conditioner 52 (codes "lc-2") 29 31
        ∷ [];
    fire = none;
    temperature_humid = [];
    log = record { file = []; level = codes "info"; console = true };
    state = record { file = []; interval = pos 0 };
    timezone = [];
  }
