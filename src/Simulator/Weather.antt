-- ===== src/Simulator/Weather.antt =====
-- internal/simulator/weather.go: the weather that all PV inverters share. Every number that the code
-- draws is an argument: `rand.Float64()` a number, `rand.Intn(4)` a state.
pub mod Coefficient
use virtual_bess.Prelude.{List, [], ◌∷◌, Bool, true, false, if◌then◌else◌}
use virtual_bess.Simulator.Float.{Float, le, nought, one}

-- `weatherState`
pub data WeatherState : Type 0 where
  weather_sunny weather_partly_cloudy weather_cloudy weather_rainy : WeatherState

-- `Weather`
pub record Weather (F : Type 0) : Type 0 where
  pub state : WeatherState
  pub remain : F
  pub coeff : F
  pub slow_coeff : F
  pub slow_target : F
  pub shade_depth : F
  pub shade_target : F
  pub shade_remain : F

-- the numbers drawn in one `Update`: for the next state, its duration and its target, for the start
-- or the change of a shadow, its duration and its depth
pub record WeatherDraws (F : Type 0) : Type 0 where
  pub next : F
  pub duration : F
  pub target : F
  pub shadow : F
  pub shadow_duration : F
  pub depth : F

module _ {F : Type 0} ⦃fl : Float F⦄ where
  -- `weatherBaseCoeff`
  abbrev pub weather_base_coeff : WeatherState → F
  weather_base_coeff weather_sunny = fl.lit 97 2
  weather_base_coeff weather_partly_cloudy = fl.lit 68 2
  weather_base_coeff weather_cloudy = fl.lit 35 2
  weather_base_coeff weather_rainy = fl.lit 8 2

  -- `weatherTargetSpread`
  abbrev pub weather_target_spread : WeatherState → F
  weather_target_spread weather_sunny = fl.lit 2 2
  weather_target_spread weather_partly_cloudy = fl.lit 10 2
  weather_target_spread weather_cloudy = fl.lit 6 2
  weather_target_spread weather_rainy = fl.lit 3 2

  -- `low + rand.Float64()*width`
  abbrev pub drawn : F → F → F → F
  drawn low width draw = fl.add low (fl.mul draw width)

  -- `weatherStateDuration`
  abbrev pub weather_state_duration : WeatherState → F → F
  weather_state_duration weather_sunny = drawn (fl.lit 1200 0) (fl.lit 2400 0)
  weather_state_duration weather_partly_cloudy = drawn (fl.lit 600 0) (fl.lit 1200 0)
  weather_state_duration weather_cloudy = drawn (fl.lit 900 0) (fl.lit 1500 0)
  weather_state_duration weather_rainy = drawn (fl.lit 1800 0) (fl.lit 3600 0)

  -- `weatherTransitions`
  abbrev pub weather_transitions : WeatherState → List (WeatherState × F)
  weather_transitions weather_sunny =
      (weather_sunny, fl.lit 50 2)
      ∷ (weather_partly_cloudy, fl.lit 85 2)
      ∷ (weather_cloudy, fl.lit 100 2)
      ∷ []
  weather_transitions weather_partly_cloudy =
      (weather_sunny, fl.lit 30 2)
      ∷ (weather_partly_cloudy, fl.lit 60 2)
      ∷ (weather_cloudy, fl.lit 90 2)
      ∷ (weather_rainy, fl.lit 100 2)
      ∷ []
  weather_transitions weather_cloudy =
      (weather_sunny, fl.lit 10 2)
      ∷ (weather_partly_cloudy, fl.lit 35 2)
      ∷ (weather_cloudy, fl.lit 75 2)
      ∷ (weather_rainy, fl.lit 100 2)
      ∷ []
  weather_transitions weather_rainy =
      (weather_partly_cloudy, fl.lit 15 2)
      ∷ (weather_cloudy, fl.lit 50 2)
      ∷ (weather_rainy, fl.lit 100 2)
      ∷ []

  abbrev pub first_above : F → WeatherState → List (WeatherState × F) → WeatherState
  first_above r cur [] = cur
  first_above r cur ((next, cum) ∷ rest) = if fl.lt r cum then next else first_above r cur rest

  -- `nextWeatherState`
  unfoldable pub next_weather_state : F → WeatherState → WeatherState
  next_weather_state r cur = first_above r cur (weather_transitions cur)

  -- `clampFloat64`
  unfoldable pub clamp_float64 : F → F → F → F
  clamp_float64 value low high =
      if fl.lt value low then low else if fl.lt high value then high else value

  -- `weatherStateTarget`
  unfoldable pub weather_state_target : WeatherState → F → F
  weather_state_target s draw =
      let swing = fl.sub (fl.mul draw (fl.lit 2 0)) one in
      clamp_float64 (fl.add (weather_base_coeff s) (fl.mul swing (weather_target_spread s))) nought
        one

  -- `updateCoeff`
  unfoldable pub update_coeff : Weather F → Weather F
  update_coeff w = record w {
    coeff = clamp_float64 (fl.mul w.slow_coeff (fl.sub one w.shade_depth)) nought one;
  }

  -- `NewWeather`, from the state drawn and the numbers for its duration and its target
  unfoldable pub new_weather : WeatherState → F → F → Weather F
  new_weather state duration target = update_coeff (record {
    state = state;
    remain = weather_state_duration state duration;
    coeff = nought;
    slow_coeff = weather_state_target state target;
    slow_target = weather_state_target state target;
    shade_depth = nought;
    shade_target = nought;
    shade_remain = nought;
  })

  -- `1 - math.Exp(-dtSeconds/tau)`
  abbrev pub approach : F → F → F
  approach dt tau = fl.sub one (fl.exp (fl.div (fl.neg dt) tau))

  -- `updateSlowCoeff`
  unfoldable pub update_slow_coeff : F → Weather F → Weather F
  update_slow_coeff dt w = record w {
    slow_coeff =
        fl.add w.slow_coeff
          (fl.mul (fl.sub w.slow_target w.slow_coeff) (approach dt (fl.lit 240 0)));
  }

  -- `shadowMeanIntervalSeconds`
  abbrev pub shadow_mean_interval_seconds : WeatherState → F
  shadow_mean_interval_seconds weather_sunny = fl.lit 1800 0
  shadow_mean_interval_seconds weather_partly_cloudy = fl.lit 180 0
  shadow_mean_interval_seconds weather_cloudy = fl.lit 300 0
  shadow_mean_interval_seconds weather_rainy = fl.lit 900 0

  -- `shadowStartProbability`
  abbrev pub shadow_start_probability : WeatherState → F → F
  shadow_start_probability s dt = approach dt (shadow_mean_interval_seconds s)

  -- `shadowRetargetProbability`
  abbrev pub shadow_retarget_probability : F → F
  shadow_retarget_probability dt = approach dt (fl.lit 8 0)

  -- `randomShadowDuration`
  abbrev pub random_shadow_duration : WeatherState → F → F
  random_shadow_duration weather_sunny = drawn (fl.lit 20 0) (fl.lit 70 0)
  random_shadow_duration weather_partly_cloudy = drawn (fl.lit 10 0) (fl.lit 80 0)
  random_shadow_duration weather_cloudy = drawn (fl.lit 20 0) (fl.lit 100 0)
  random_shadow_duration weather_rainy = drawn (fl.lit 30 0) (fl.lit 120 0)

  -- `randomShadowDepth`
  abbrev pub random_shadow_depth : WeatherState → F → F
  random_shadow_depth weather_sunny = drawn (fl.lit 3 2) (fl.lit 9 2)
  random_shadow_depth weather_partly_cloudy = drawn (fl.lit 15 2) (fl.lit 45 2)
  random_shadow_depth weather_cloudy = drawn (fl.lit 10 2) (fl.lit 30 2)
  random_shadow_depth weather_rainy = drawn (fl.lit 5 2) (fl.lit 15 2)

  -- `updateShadeDepth`
  unfoldable pub update_shade_depth : F → Weather F → Weather F
  update_shade_depth dt w =
      let tau = if fl.lt w.shade_depth w.shade_target then fl.lit 4 0 else fl.lit 25 0 in
      let moved = fl.mul (fl.sub w.shade_target w.shade_depth) (approach dt tau) in
      record w { shade_depth = clamp_float64 (fl.add w.shade_depth moved) nought (fl.lit 85 2) }

  -- a shadow that is there, after `dtSeconds` less of its time
  abbrev pub shadow_goes_on : F → WeatherDraws F → Weather F → Weather F
  shadow_goes_on dt d w =
      if le w.shade_remain nought
      then record w { shade_target = nought }
      else if fl.lt d.shadow (shadow_retarget_probability dt)
      then record w { shade_target = random_shadow_depth w.state d.depth }
      else w

  abbrev pub shadow_starts : F → WeatherDraws F → Weather F → Weather F
  shadow_starts dt d w =
      if fl.lt d.shadow (shadow_start_probability w.state dt)
      then record w {
        shade_remain = random_shadow_duration w.state d.shadow_duration;
        shade_target = random_shadow_depth w.state d.depth;
      }
      else w

  -- `updateCloudShadow`
  unfoldable pub update_cloud_shadow : F → WeatherDraws F → Weather F → Weather F
  update_cloud_shadow dt d w = update_shade_depth dt (
      if fl.lt nought w.shade_remain
      then shadow_goes_on dt d (record w { shade_remain = fl.sub w.shade_remain dt })
      else shadow_starts dt d w)

  -- the change of the state when its time has run out
  unfoldable pub change_state : WeatherDraws F → Weather F → Weather F
  change_state d w =
      let s = next_weather_state d.next w.state in
      if le w.remain nought
      then record w {
        state = s;
        remain = weather_state_duration s d.duration;
        slow_target = weather_state_target s d.target;
      }
      else w

  -- `Update`
  unfoldable pub weather_update : F → WeatherDraws F → Weather F → Weather F
  weather_update dt d w =
      if le dt nought
      then update_coeff w
      else (let w1 = change_state d (record w { remain = fl.sub w.remain dt }) in
          update_coeff (update_cloud_shadow dt d (update_slow_coeff dt w1)))
