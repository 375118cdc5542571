-- ===== src/Simulator/GridVoltage.antt =====
-- internal/simulator/grid_voltage.go: how injected power moves the voltage of a busbar.
use virtual_bess.Prelude.{Bool, false, ◌&&◌, ◌||◌, not, if◌then◌else◌}
use virtual_bess.Simulator.Float.{Float, le, nought, one}

-- `GridCouplingConfig`
pub record GridCouplingConfig (F : Type 0) : Type 0 where
  pub base_kva : F
  pub resistance_pu : F
  pub reactance_pu : F
  pub response_seconds : F

module _ {F : Type 0} ⦃fl : Float F⦄ where
  abbrev pub max_voltage_deviation_pu : F
  max_voltage_deviation_pu = fl.lit 5 1

  abbrev pub max_coupling_pu : F
  max_coupling_pu = fl.lit 2 0

  -- `defaultPCSCoupling` and `defaultGridCoupling`
  abbrev pub default_pcs_coupling : GridCouplingConfig F
  default_pcs_coupling = record {
    base_kva = nought;
    resistance_pu = fl.lit 15 3;
    reactance_pu = fl.lit 6 2;
    response_seconds = fl.lit 2 0;
  }

  abbrev pub default_grid_coupling : GridCouplingConfig F
  default_grid_coupling = record {
    base_kva = nought;
    resistance_pu = fl.lit 10 3;
    reactance_pu = fl.lit 1200 3;
    response_seconds = fl.lit 3 0;
  }

  -- `cfg == (GridCouplingConfig{})`
  abbrev pub is_unset : GridCouplingConfig F → Bool
  is_unset c =
      fl.eq c.base_kva nought
      && fl.eq c.resistance_pu nought
      && fl.eq c.reactance_pu nought
      && fl.eq c.response_seconds nought

  -- `resolveCoupling`
  unfoldable pub resolve_coupling :
      GridCouplingConfig F → GridCouplingConfig F → F → GridCouplingConfig F
  resolve_coupling cfg fallback auto_base_kva =
      let c = if is_unset cfg then fallback else cfg in
      record {
        base_kva = if le c.base_kva nought then auto_base_kva else c.base_kva;
        resistance_pu = c.resistance_pu;
        reactance_pu = c.reactance_pu;
        response_seconds =
            if le c.response_seconds nought then fallback.response_seconds else c.response_seconds;
      }

  -- the two tests that keep a value between `-limit` and `limit`, in the order of the code
  abbrev pub clamp_above : F → F → F
  clamp_above limit x = if fl.lt limit x then limit else x

  abbrev pub clamp_below : F → F → F
  clamp_below limit x = if fl.lt x (fl.neg limit) then fl.neg limit else x

  abbrev pub clamp : F → F → F
  clamp limit x = clamp_below limit (clamp_above limit x)

  -- `busVoltageTarget`
  unfoldable pub bus_voltage_target : GridCouplingConfig F → F → F → F → F
  bus_voltage_target c nominal_v inject_kw inject_kvar =
      if le nominal_v nought || le c.base_kva nought
      then nominal_v
      else (let deviation =
            fl.div (fl.add (fl.mul inject_kw c.resistance_pu) (fl.mul inject_kvar c.reactance_pu))
              c.base_kva in
          fl.mul nominal_v (fl.add one (clamp max_voltage_deviation_pu deviation)))

  -- `relaxVoltage`
  unfoldable pub relax_voltage : F → F → F → F → F
  relax_voltage current target dt tau_seconds =
      if le dt nought
      then current
      else if le tau_seconds nought
      then target
      else fl.add current (fl.div (fl.mul (fl.sub target current) dt) (fl.add tau_seconds dt))

  -- `validate`: true when it returns no error
  unfoldable pub validate : GridCouplingConfig F → Bool
  validate c =
      if fl.lt c.resistance_pu nought || fl.lt c.reactance_pu nought
      then false
      else if fl.lt max_coupling_pu c.resistance_pu || fl.lt max_coupling_pu c.reactance_pu
      then false
      else if fl.lt c.base_kva nought
      then false
      else not (fl.lt c.response_seconds nought)
