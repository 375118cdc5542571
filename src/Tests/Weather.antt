-- ===== src/Tests/Weather.antt =====
-- The weather on numbers in thousandths.
use virtual_bess.Prelude.{◌≡◌, refl}
use virtual_bess.Simulator.Float.{ℤ, pos, milli_float, Milli-IsFloat}
use virtual_bess.Simulator.Weather.{
  Weather, WeatherDraws, weather_sunny, weather_partly_cloudy, next_weather_state, new_weather,
  weather_update,
}
use virtual_bess.Simulator.Weather.Coefficient.{
  IsWeather, Follows, new_weather-IsWeather, weather_update-IsWeather,
}

abbrev draws : WeatherDraws ℤ
draws = record {
  next = pos 600;
  duration = pos 500;
  target = pos 500;
  shadow = pos 0;
  shadow_duration = pos 500;
  depth = pos 500;
}

abbrev morning : Weather ℤ
morning = new_weather weather_sunny (pos 500) (pos 250)

next_weather_state_test : next_weather_state draws.next weather_sunny ≡ weather_partly_cloudy
unfolding next_weather_state
next_weather_state_test = refl

weather_update-IsWeather_example :
    IsWeather (weather_update (pos 1000) draws morning)
    × Follows morning.state (weather_update (pos 1000) draws morning).state
weather_update-IsWeather_example =
    weather_update-IsWeather Milli-IsFloat (pos 1000) draws morning
      (new_weather-IsWeather Milli-IsFloat weather_sunny (pos 500) (pos 250))
