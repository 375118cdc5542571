-- ===== src/Simulator/Environment.antt =====
-- internal/simulator/fire.go and temperature_humidity.go: the devices that only show values.
use virtual_bess.Prelude.{ℕ, List, [], ◌∷◌}
use virtual_bess.Prelude.Go.{Run, done, ◌>>=◌}
use virtual_bess.Simulator.Bank.{SlaveBank}
use virtual_bess.Simulator.Bank.Effects.{write_words}
use virtual_bess.Simulator.Float.{Float, nought}
use virtual_bess.Simulator.AirConditioner.{rounded_tenths}
use virtual_bess.Simulator.Config.{FireConfig, ThConfig}

-- `Fire`; the record is what `NewFire` makes
pub record Fire : Type 0 where
  pub bank : SlaveBank
  pub cfg : FireConfig

abbrev pub fire_words : FireConfig → List (ℕ × ℕ)
fire_words cfg = (0, cfg.fire_system) ∷ (1, cfg.smoke) ∷ (2, cfg.gas) ∷ (3, cfg.fire_device) ∷ []

-- `Fire.Sync`
unfoldable pub fire_sync : Fire → Run Fire
fire_sync f = do bank ← write_words (fire_words f.cfg) f.bank; done (record f { bank = bank })

-- `TempHumid`
pub record TempHumid (F : Type 0) : Type 0 where
  pub bank : SlaveBank
  pub base_temp : F
  pub base_humid : F
  pub phase : F
  pub cur_temp : F
  pub cur_humid : F

module _ {F : Type 0} ⦃fl : Float F⦄ where
  -- `NewTempHumid`
  abbrev pub new_temp_humid : ThConfig F → SlaveBank → TempHumid F
  new_temp_humid cfg bank = record {
    bank = bank;
    base_temp = cfg.temperature;
    base_humid = cfg.humidity;
    phase = nought;
    cur_temp = cfg.temperature;
    cur_humid = cfg.humidity;
  }

  -- `TempHumid.Update`
  unfoldable pub temp_humid_update : F → TempHumid F → TempHumid F
  temp_humid_update dt th =
      let phase = fl.add th.phase dt in
      record th {
        phase = phase;
        cur_temp = fl.add th.base_temp (fl.mul (fl.sin (fl.div phase (fl.lit 300 1))) (fl.lit 5 1));
        cur_humid =
            fl.add th.base_humid (fl.mul (fl.sin (fl.div phase (fl.lit 450 1))) (fl.lit 20 1));
      }

  abbrev pub temp_humid_words : TempHumid F → List (ℕ × ℕ)
  temp_humid_words th = (0, rounded_tenths th.cur_temp) ∷ (1, rounded_tenths th.cur_humid) ∷ []

  -- `TempHumid.Sync`
  unfoldable pub temp_humid_sync : TempHumid F → Run (TempHumid F)
  temp_humid_sync th = do
    bank ← write_words (temp_humid_words th) th.bank
    done (record th { bank = bank })
