-- ===== src/Simulator/Weather/Coefficient.antt =====
-- The coefficient of the weather and the depth of a shadow stay in their ranges.
use virtual_bess.Prelude.{◌≡◌, refl, sym, subst, ◌∙◌, arith, false}
use virtual_bess.Prelude.Hoare.{if-elim}
use virtual_bess.Simulator.Float.{Float, IsFloat, le, nought, one}
use virtual_bess.Simulator.Weather.{
  Weather, WeatherDraws, WeatherState, weather_sunny, weather_partly_cloudy, weather_cloudy,
  weather_rainy, next_weather_state, clamp_float64, weather_state_target, update_coeff, new_weather,
  update_slow_coeff, update_shade_depth, update_cloud_shadow, change_state, weather_update,
}

-- From one state the other follows within one change: the sun does not go over into rain at once, nor
-- rain into sun.
pub data Follows : WeatherState → WeatherState → Type 0 where
  stays : (s : WeatherState) → Follows s s
  clouds_gather : Follows weather_sunny weather_partly_cloudy
  clouds_close : Follows weather_sunny weather_cloudy
  clears : Follows weather_partly_cloudy weather_sunny
  covers : Follows weather_partly_cloudy weather_cloudy
  showers : Follows weather_partly_cloudy weather_rainy
  opens : Follows weather_cloudy weather_sunny
  breaks : Follows weather_cloudy weather_partly_cloudy
  rains : Follows weather_cloudy weather_rainy
  dries : Follows weather_rainy weather_partly_cloudy
  lifts : Follows weather_rainy weather_cloudy

module _ {F : Type 0} ⦃fl : Float F⦄ where
  -- Not below the lower bound and not above the upper one.
  abbrev pub IsWithin : F → F → F → Type 0
  IsWithin low high x = (fl.lt x low ≡ false) × (fl.lt high x ≡ false)

  clamp_float64-IsWithin :
      (laws : IsFloat F) (value low high : F)
      → fl.lt high low ≡ false
      → IsWithin low high (clamp_float64 value low high)
  unfolding clamp_float64
  clamp_float64-IsWithin laws value low high order =
      if-elim (IsWithin low high) (fl.lt value low) (λ _. (laws.lt_irrefl low, order))
        (λ above.
          if-elim (IsWithin low high) (fl.lt high value) (λ _. (order, laws.lt_irrefl high))
            (λ below. (above, below)))

  -- The coefficient is between 0 and 1, the depth of the shadow between 0 and 0.85, and the target of
  -- the coefficient between 0 and 1.
  pub record IsWeather (w : Weather F) : Type 0 where
    pub coeff_range : IsWithin nought one w.coeff
    pub shade_range : IsWithin nought (fl.lit 85 2) w.shade_depth
    pub target_range : IsWithin nought one w.slow_target

  update_coeff-IsWeather :
      (laws : IsFloat F) (w : Weather F)
      → IsWithin nought (fl.lit 85 2) w.shade_depth
      → IsWithin nought one w.slow_target
      → IsWeather (update_coeff w)
  unfolding update_coeff
  update_coeff-IsWeather laws w shade target = record {
    coeff_range = clamp_float64-IsWithin laws _ nought one (laws.lit_nonneg 1 0);
    shade_range = shade;
    target_range = target;
  }

  weather_state_target-IsWithin :
      (laws : IsFloat F) (s : WeatherState) (draw : F)
      → IsWithin nought one (weather_state_target s draw)
  unfolding weather_state_target
  weather_state_target-IsWithin laws s draw =
      clamp_float64-IsWithin laws _ nought one (laws.lit_nonneg 1 0)

  -- New weather is in its ranges.
  pub new_weather-IsWeather :
      (laws : IsFloat F) (s : WeatherState) (duration target : F)
      → IsWeather (new_weather s duration target)
  unfolding new_weather
  new_weather-IsWeather laws s duration target =
      update_coeff-IsWeather laws _ (laws.lt_irrefl nought, laws.lit_nonneg 85 2)
        (weather_state_target-IsWithin laws s target)

  change_state-IsWithin :
      (laws : IsFloat F) (d : WeatherDraws F) (w : Weather F)
      → IsWithin nought one w.slow_target
      → IsWithin nought one (change_state d w).slow_target
  unfolding change_state
  change_state-IsWithin laws d w h =
      if-elim (λ (u : Weather F). IsWithin nought one u.slow_target) (le w.remain nought)
        (λ _. weather_state_target-IsWithin laws (next_weather_state d.next w.state) d.target)
        (λ _. h)

  -- The first entry above a number is one of those of the table.
  next_weather_state-Follows : (r : F) (s : WeatherState) → Follows s (next_weather_state r s)
  unfolding next_weather_state
  next_weather_state-Follows r weather_sunny =
      if-elim (Follows weather_sunny) (fl.lt r (fl.lit 50 2)) (λ _. stays weather_sunny)
        (λ _.
          if-elim (Follows weather_sunny) (fl.lt r (fl.lit 85 2)) (λ _. clouds_gather)
            (λ _.
              if-elim (Follows weather_sunny) (fl.lt r (fl.lit 100 2)) (λ _. clouds_close)
                (λ _. stays weather_sunny)))
  next_weather_state-Follows r weather_partly_cloudy =
      if-elim (Follows weather_partly_cloudy) (fl.lt r (fl.lit 30 2)) (λ _. clears)
        (λ _.
          if-elim (Follows weather_partly_cloudy) (fl.lt r (fl.lit 60 2))
            (λ _. stays weather_partly_cloudy)
            (λ _.
              if-elim (Follows weather_partly_cloudy) (fl.lt r (fl.lit 90 2)) (λ _. covers)
                (λ _.
                  if-elim (Follows weather_partly_cloudy) (fl.lt r (fl.lit 100 2)) (λ _. showers)
                    (λ _. stays weather_partly_cloudy))))
  next_weather_state-Follows r weather_cloudy =
      if-elim (Follows weather_cloudy) (fl.lt r (fl.lit 10 2)) (λ _. opens)
        (λ _.
          if-elim (Follows weather_cloudy) (fl.lt r (fl.lit 35 2)) (λ _. breaks)
            (λ _.
              if-elim (Follows weather_cloudy) (fl.lt r (fl.lit 75 2)) (λ _. stays weather_cloudy)
                (λ _.
                  if-elim (Follows weather_cloudy) (fl.lt r (fl.lit 100 2)) (λ _. rains)
                    (λ _. stays weather_cloudy))))
  next_weather_state-Follows r weather_rainy =
      if-elim (Follows weather_rainy) (fl.lt r (fl.lit 15 2)) (λ _. dries)
        (λ _.
          if-elim (Follows weather_rainy) (fl.lt r (fl.lit 50 2)) (λ _. lifts)
            (λ _.
              if-elim (Follows weather_rainy) (fl.lt r (fl.lit 100 2)) (λ _. stays weather_rainy)
                (λ _. stays weather_rainy)))

  update_coeff-state : (w : Weather F) → (update_coeff w).state ≡ w.state
  unfolding update_coeff
  update_coeff-state w = refl

  -- the state and the target, which the shadow leaves
  update_kept :
      (dt : F) (d : WeatherDraws F) (w : Weather F)
      → let u = update_cloud_shadow dt d (update_slow_coeff dt w) in
        (u.state ≡ w.state) × (u.slow_target ≡ w.slow_target)
  unfolding update_cloud_shadow update_slow_coeff update_shade_depth
  update_kept dt d w = (ground arith, ground arith)

  update_cloud_shadow-IsWithin :
      (laws : IsFloat F) (dt : F) (d : WeatherDraws F) (w : Weather F)
      → IsWithin nought (fl.lit 85 2) (update_cloud_shadow dt d w).shade_depth
  unfolding update_cloud_shadow update_shade_depth
  update_cloud_shadow-IsWithin laws dt d w =
      clamp_float64-IsWithin laws _ nought (fl.lit 85 2) (laws.lit_nonneg 85 2)

  change_state-Follows :
      (d : WeatherDraws F) (w : Weather F) → Follows w.state (change_state d w).state
  unfolding change_state
  change_state-Follows d w =
      if-elim (λ (u : Weather F). Follows w.state u.state) (le w.remain nought)
        (λ _. next_weather_state-Follows d.next w.state) (λ _. stays w.state)

  moved :
      (laws : IsFloat F) (dt : F) (d : WeatherDraws F) (w : Weather F)
      → IsWithin nought one w.slow_target
      → let u = update_coeff (update_cloud_shadow dt d (update_slow_coeff dt (change_state d w))) in
        IsWeather u × Follows w.state u.state
  moved laws dt d w target =
      let w1 = change_state d w in
      let (e, e') = update_kept dt d w1 in
      let u = update_cloud_shadow dt d (update_slow_coeff dt w1) in
      (
        update_coeff-IsWeather laws u
            (update_cloud_shadow-IsWithin laws dt d (update_slow_coeff dt w1))
            (subst (IsWithin nought one) (sym e') (change_state-IsWithin laws d w target)),
        subst (Follows w.state) (sym (update_coeff-state u ∙ e)) (change_state-Follows d w),
      )

  -- `Update` keeps the coefficient and its target between 0 and 1 and the depth of a shadow between 0
  -- and 0.85, whatever numbers are drawn and however long the step is; and the state stays or goes to
  -- one of those that may follow it, never from sun to rain or from rain to sun.
  pub weather_update-IsWeather :
      (laws : IsFloat F) (dt : F) (d : WeatherDraws F) (w : Weather F)
      → IsWeather w
      → IsWeather (weather_update dt d w) × Follows w.state (weather_update dt d w).state
  unfolding weather_update
  weather_update-IsWeather laws dt d w h =
      if-elim (λ (u : Weather F). IsWeather u × Follows w.state u.state) (le dt nought)
        (λ _. (
          update_coeff-IsWeather laws w h.shade_range h.target_range,
          subst (Follows w.state) (sym (update_coeff-state w)) (stays w.state),
        ))
        (λ _. moved laws dt d (record w { remain = fl.sub w.remain dt }) h.target_range)
