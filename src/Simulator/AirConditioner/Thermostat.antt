-- ===== src/Simulator/AirConditioner/Thermostat.antt =====
-- The thermostat of an air conditioner under the writes of a client, and what its registers show.
use virtual_bess.Prelude.{ℕ, ◌<◌, ◌*◌, ◌≡◌, ◌≢◌, refl, arith, true, false, IsU16, All}
use virtual_bess.Prelude.Go.{Run, ◌>>=◌}
use virtual_bess.Prelude.Hoare.{Ensures}
use virtual_bess.Simulator.Bank.{write_u16}
use virtual_bess.Simulator.Bank.Effects.{
  IsSized, put, put_words, write_u16-put, write_words-put, put_words-IsSized, IsBelow,
}
use virtual_bess.Simulator.Float.{Float, nought}
use virtual_bess.Simulator.Battery.{bool_to_u16}
use virtual_bess.Simulator.AirConditioner.{
  AirConditionerKind, air_conditioner_ac, air_conditioner_lc, AirConditioner, climate_stopped,
  climate_cooling, climate_heating, ac_status, lc_status, positive_setting, on_ac_write,
  on_lc_write, on_write_of, on_write, next_status, update_status, tend, climate_update, words_of,
  climate_sync,
}

module _ {F : Type 0} ⦃fl : Float F⦄ where
  -- The status is one of the three, and the differentials are positive.
  pub record IsClimate (ac : AirConditioner F) : Type 0 where
    pub sized : IsSized ac.bank
    pub status_known : ac.status < 3
    pub cooling_positive : fl.lt nought ac.cooling_differential ≡ true
    pub heating_positive : fl.lt nought ac.heating_differential ≡ true

  -- The registers show the status, and for an AC the switch.
  abbrev pub ShowsStatus : AirConditionerKind → AirConditioner F → Type 0
  ShowsStatus air_conditioner_ac ac =
      (ac.bank.holding.at 262 ≡ bool_to_u16 ac.enabled)
      × (ac.bank.holding.at 278 ≡ ac_status ac.status)
  ShowsStatus air_conditioner_lc ac = ac.bank.holding.at 0 ≡ lc_status ac.enabled ac.status * 256

  -- What `writeHolding` does for the slave of the unit, then `Update` and `Sync` of the next tick.
  unfoldable pub climate_tick : AirConditioner F → ℕ → ℕ → F → Run (AirConditioner F)
  climate_tick ac addr v dt = do
    bank ← write_u16 ac.bank addr v
    climate_sync (climate_update dt (on_write (record ac { bank = bank }) addr v))

  on_write_of-IsClimate :
      (kind : AirConditionerKind) (ac : AirConditioner F) (addr v : ℕ)
      → IsClimate ac
      → IsClimate (on_write_of kind ac addr v)
  unfolding on_ac_write on_lc_write positive_setting
  on_write_of-IsClimate air_conditioner_ac ac addr v c = record {
    sized = ground (arith, c.sized);
    status_known = ground (arith, c.status_known);
    cooling_positive = ground (arith, c.cooling_positive);
    heating_positive = ground (arith, c.heating_positive);
  }
  on_write_of-IsClimate air_conditioner_lc ac addr v c = record {
    sized = ground (arith, c.sized);
    status_known = ground (arith, c.status_known);
    cooling_positive = ground (arith, c.cooling_positive);
    heating_positive = ground (arith, c.heating_positive);
  }

  climate_update-IsClimate :
      (dt : F) (ac : AirConditioner F) → IsClimate ac → IsClimate (climate_update dt ac)
  unfolding climate_update update_status next_status tend
  climate_update-IsClimate dt ac c = record {
    sized = c.sized;
    status_known = ground (arith, c.status_known);
    cooling_positive = c.cooling_positive;
    heating_positive = c.heating_positive;
  }

  climate_update-stopped :
      (dt : F) (ac : AirConditioner F)
      → (climate_update dt ac).enabled ≡ false
      → (climate_update dt ac).status ≡ climate_stopped
  unfolding climate_update update_status next_status tend
  climate_update-stopped dt ac off = ground (arith, off)

  -- One `Update` does not reverse a unit: from cooling it goes on or stops, from heating likewise.
  -- The unit has a known status.
  climate_update_never_reverses :
      (dt : F) (ac : AirConditioner F)
      → IsClimate ac
      → (ac.status ≡ climate_cooling → (climate_update dt ac).status ≢ climate_heating)
        × (ac.status ≡ climate_heating → (climate_update dt ac).status ≢ climate_cooling)
  unfolding climate_update update_status next_status tend
  climate_update_never_reverses dt ac c = (λ h. ground (arith, h), λ h. ground (arith, h))

  words_of-IsBelow :
      (kind : AirConditionerKind) (ac : AirConditioner F) → All IsBelow (words_of kind ac)
  words_of-IsBelow air_conditioner_ac ac = ground arith
  words_of-IsBelow air_conditioner_lc ac = ground arith

  words_of-ShowsStatus :
      (kind : AirConditionerKind) (ac : AirConditioner F)
      → ac.status < 3
      → ShowsStatus kind (record ac { bank = put_words (words_of kind ac) ac.bank })
  words_of-ShowsStatus air_conditioner_ac ac h = (refl, refl)
  words_of-ShowsStatus air_conditioner_lc ac h = ground (arith, h)

  synced :
      (ac : AirConditioner F)
      → IsClimate ac
      → (ac.enabled ≡ false → ac.status ≡ climate_stopped)
      → Ensures
          (λ ac'.
            IsClimate ac'
            × (ac'.enabled ≡ false → ac'.status ≡ climate_stopped)
            × ShowsStatus ac'.kind ac')
          (climate_sync ac)
  unfolding climate_sync
  synced ac c off = (
    record ac { bank = put_words (words_of ac.kind ac) ac.bank },
    rw (write_words-put (words_of ac.kind ac) ac.bank c.sized (words_of-IsBelow ac.kind ac)) refl,
    (
      record {
        sized = put_words-IsSized (words_of ac.kind ac) ac.bank c.sized;
        status_known = c.status_known;
        cooling_positive = c.cooling_positive;
        heating_positive = c.heating_positive;
      },
      off,
      words_of-ShowsStatus ac.kind ac c.status_known,
    ),
  )

  -- Whatever register a client writes, the write and the `Update` and `Sync` behind it return; then
  -- the status is a known one, the differentials are positive, a unit that is switched off is stopped,
  -- and the registers show the status, of an AC also the switch. The status was known before, the
  -- differentials positive, and the register fits in sixteen bits.
  pub climate_tick_holds :
      (ac : AirConditioner F) (addr v : ℕ) (dt : F)
      → IsClimate ac
      → IsU16 addr
      → Ensures
          (λ ac'.
            IsClimate ac'
            × (ac'.enabled ≡ false → ac'.status ≡ climate_stopped)
            × ShowsStatus ac'.kind ac')
          (climate_tick ac addr v dt)
  unfolding climate_tick
  climate_tick_holds ac addr v dt c h =
      let stored = record ac { bank = put ac.bank addr v } in
      let c' : IsClimate stored = record {
        sized = c.sized;
        status_known = c.status_known;
        cooling_positive = c.cooling_positive;
        heating_positive = c.heating_positive;
      } in
      let ac1 = on_write_of ac.kind stored addr v in
      rw (write_u16-put ac.bank addr v c.sized h) (
        synced (climate_update dt ac1)
          (climate_update-IsClimate dt ac1 (on_write_of-IsClimate ac.kind stored addr v c'))
          (climate_update-stopped dt ac1))
