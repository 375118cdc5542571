-- ===== src/Simulator/AirConditioner.antt =====
-- internal/simulator/air_conditioner.go: one air conditioner, of the kind AC or LC, with its
-- thermostat and its registers.
use virtual_bess.Prelude.{ℕ, ◌*◌, ◌%◌, List, [], ◌∷◌, Bool, true, false, ◌==◌, if◌then◌else◌}
use virtual_bess.Prelude.Go.{Run, done, ◌>>=◌}
use virtual_bess.Simulator.Bank.{SlaveBank}
use virtual_bess.Simulator.Bank.Effects.{write_words}
use virtual_bess.Simulator.Float.{Float, le, nought, one, of_s16}
use virtual_bess.Simulator.Config.{AirConditionerConfig}
use virtual_bess.Simulator.Battery.{bool_to_u16}
pub mod Thermostat

-- `airConditionerKind`
pub data AirConditionerKind : Type 0 where
  air_conditioner_ac : AirConditionerKind
  air_conditioner_lc : AirConditionerKind

abbrev pub climate_stopped : ℕ
climate_stopped = 0

abbrev pub climate_cooling : ℕ
climate_cooling = 1

abbrev pub climate_heating : ℕ
climate_heating = 2

-- `AirConditioner`
pub record AirConditioner (F : Type 0) : Type 0 where
  pub kind : AirConditionerKind
  pub bank : SlaveBank
  pub enabled : Bool
  pub status : ℕ
  pub cooling_setpoint : F
  pub heating_setpoint : F
  pub cooling_differential : F
  pub heating_differential : F
  pub indoor_temperature : F
  pub ambient_temperature : F
  pub phase : F

-- `acStatus`
abbrev pub ac_status : ℕ → ℕ
ac_status status =
    if status == climate_cooling then 2 else if status == climate_heating then 3 else 0

-- `lcStatus`
abbrev pub lc_status : Bool → ℕ → ℕ
lc_status enabled status = if enabled then status else 0

module _ {F : Type 0} ⦃fl : Float F⦄ where
  -- `NewAirConditioner`
  abbrev pub new_air_conditioner :
      AirConditionerKind → AirConditionerConfig F → SlaveBank → AirConditioner F
  new_air_conditioner kind cfg bank = record {
    kind = kind;
    bank = bank;
    enabled = false;
    status = climate_stopped;
    cooling_setpoint = cfg.cooling_setpoint;
    heating_setpoint = cfg.heating_setpoint;
    cooling_differential = cfg.cooling_differential;
    heating_differential = cfg.heating_differential;
    indoor_temperature = cfg.indoor_temperature;
    ambient_temperature = cfg.ambient_temperature;
    phase = nought;
  }

  -- `positiveSetting`
  unfoldable pub positive_setting : F → F → F
  positive_setting value fallback = if fl.lt nought value then value else fallback

  -- `onACWrite`
  unfoldable pub on_ac_write : AirConditioner F → ℕ → ℕ → AirConditioner F
  on_ac_write ac addr value =
      let v = fl.div (of_s16 value) (fl.lit 10 0) in
      if addr == 256
      then record ac { cooling_setpoint = v }
      else if addr == 257
      then record ac { cooling_differential = positive_setting v ac.cooling_differential }
      else if addr == 260
      then record ac { heating_setpoint = v }
      else if addr == 261
      then record ac { heating_differential = positive_setting v ac.heating_differential }
      else if addr == 262
      then record ac { enabled = value == 1 }
      else ac

  -- the control register of an LC
  abbrev pub on_lc_control : AirConditioner F → ℕ → AirConditioner F
  on_lc_control ac value =
      if value == 1
      then record ac { enabled = true }
      else if value == 2
      then record ac { enabled = false }
      else if value == 4
      then record ac { status = climate_stopped }
      else ac

  -- `onLCWrite`
  unfoldable pub on_lc_write : AirConditioner F → ℕ → ℕ → AirConditioner F
  on_lc_write ac addr value =
      if addr == 4099
      then record ac { cooling_setpoint = of_s16 value }
      else if addr == 4100
      then record ac {
        cooling_differential = positive_setting (fl.of_nat value) ac.cooling_differential;
      }
      else if addr == 4101
      then record ac { heating_setpoint = of_s16 value }
      else if addr == 4102
      then record ac {
        heating_differential = positive_setting (fl.of_nat value) ac.heating_differential;
      }
      else if addr == 768
      then on_lc_control ac value
      else ac

  abbrev pub on_write_of : AirConditionerKind → AirConditioner F → ℕ → ℕ → AirConditioner F
  on_write_of air_conditioner_ac = on_ac_write
  on_write_of air_conditioner_lc = on_lc_write

  -- `OnWrite`
  abbrev pub on_write : AirConditioner F → ℕ → ℕ → AirConditioner F
  on_write ac addr value = on_write_of ac.kind ac addr value

  -- the status that `updateStatus` gives an enabled unit
  unfoldable pub next_status : AirConditioner F → ℕ
  next_status ac =
      if ac.status == climate_cooling
      then (if le ac.indoor_temperature (fl.sub ac.cooling_setpoint ac.cooling_differential)
          then climate_stopped
          else climate_cooling)
      else if ac.status == climate_heating
      then (if le (fl.add ac.heating_setpoint ac.heating_differential) ac.indoor_temperature
          then climate_stopped
          else climate_heating)
      else if le ac.cooling_setpoint ac.indoor_temperature
      then climate_cooling
      else if le ac.indoor_temperature ac.heating_setpoint
      then climate_heating
      else ac.status

  -- `updateStatus`
  unfoldable pub update_status : AirConditioner F → AirConditioner F
  update_status ac = record ac { status = if ac.enabled then next_status ac else climate_stopped }

  -- the temperature that the room tends to
  unfoldable pub target_of : AirConditioner F → F → F
  target_of ac ambient =
      if ac.status == climate_cooling
      then fl.sub ac.cooling_setpoint (fl.div ac.cooling_differential (fl.lit 2 0))
      else if ac.status == climate_heating
      then fl.add ac.heating_setpoint (fl.div ac.heating_differential (fl.lit 2 0))
      else ambient

  abbrev pub ambient_of : AirConditioner F → F
  ambient_of ac =
      fl.add ac.ambient_temperature (fl.mul (fl.sin (fl.div ac.phase (fl.lit 90 0))) (fl.lit 15 1))

  -- the room moves to the target
  unfoldable pub tend : F → F → AirConditioner F → AirConditioner F
  tend dt ambient ac =
      let alpha = fl.sub one (fl.exp (fl.div (fl.neg (fl.maximum dt nought)) (fl.lit 90 0))) in
      record ac {
        indoor_temperature =
            fl.add ac.indoor_temperature
              (fl.mul (fl.sub (target_of ac ambient) ac.indoor_temperature) alpha);
      }

  -- `Update`
  unfoldable pub climate_update : F → AirConditioner F → AirConditioner F
  climate_update dt ac =
      let ac' = record ac { phase = fl.add ac.phase dt } in
      tend dt (ambient_of ac') (update_status ac')

  -- `signedTenths`
  unfoldable pub rounded_tenths : F → ℕ
  rounded_tenths value = fl.to_s16 (fl.round (fl.mul value (fl.lit 10 0)))

  -- `waterTemperatures`
  unfoldable pub water_temperatures : AirConditioner F → F × F
  water_temperatures ac =
      let t = ac.indoor_temperature in
      if ac.status == climate_cooling
      then (fl.sub t (fl.lit 6 0), fl.sub t (fl.lit 3 0))
      else if ac.status == climate_heating
      then (fl.add t (fl.lit 6 0), fl.add t (fl.lit 3 0))
      else (t, t)

  -- the writes of `syncAC`
  abbrev pub ac_words : AirConditioner F → List (ℕ × ℕ)
  ac_words ac =
      (256, rounded_tenths ac.cooling_setpoint)
      ∷ (257, rounded_tenths ac.cooling_differential)
      ∷ (260, rounded_tenths ac.heating_setpoint)
      ∷ (261, rounded_tenths ac.heating_differential)
      ∷ (262, bool_to_u16 ac.enabled)
      ∷ (267, rounded_tenths ac.indoor_temperature)
      ∷ (268, rounded_tenths (fl.sub ac.indoor_temperature (fl.lit 4 0)))
      ∷ (269, rounded_tenths ac.ambient_temperature)
      ∷ (270, rounded_tenths (fl.add ac.indoor_temperature (fl.lit 8 0)))
      ∷ (271, rounded_tenths (fl.add ac.indoor_temperature (fl.lit 12 0)))
      ∷ (278, ac_status ac.status)
      ∷ []

  -- the writes of `syncLC`
  abbrev pub lc_words : AirConditioner F → List (ℕ × ℕ)
  lc_words ac =
      (0, lc_status ac.enabled ac.status * 256 % 65536)
      ∷ (3, rounded_tenths (water_temperatures ac).0)
      ∷ (4, rounded_tenths (water_temperatures ac).1)
      ∷ (8, rounded_tenths ac.indoor_temperature)
      ∷ (18, 2200)
      ∷ (19, 1800)
      ∷ (4099, fl.to_u16 (fl.round ac.cooling_setpoint))
      ∷ (4100, fl.to_u16 (fl.round ac.cooling_differential))
      ∷ (4101, fl.to_u16 (fl.round ac.heating_setpoint))
      ∷ (4102, fl.to_u16 (fl.round ac.heating_differential))
      ∷ []

  abbrev pub words_of : AirConditionerKind → AirConditioner F → List (ℕ × ℕ)
  words_of air_conditioner_ac = ac_words
  words_of air_conditioner_lc = lc_words

  -- `Sync`
  unfoldable pub climate_sync : AirConditioner F → Run (AirConditioner F)
  climate_sync ac = do
    bank ← write_words (words_of ac.kind ac) ac.bank
    done (record ac { bank = bank })
