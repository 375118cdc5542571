-- ===== src/Simulator/Load.antt =====
-- internal/simulator/load.go: one load, which no register shows. The local time of the site and the
-- number drawn are arguments.
use virtual_bess.Prelude.{List, [], ◌∷◌, if◌then◌else◌}
use virtual_bess.Simulator.Float.{Float, le, nought, one}
use virtual_bess.Simulator.Pv.{LocalTime}

-- `Load`; the name is the key of the configuration
pub record Load (F : Type 0) : Type 0 where
  pub rated_power_kw : F
  pub actual_power_kw : F

module _ {F : Type 0} ⦃fl : Float F⦄ where
  -- `NewLoad`
  abbrev pub new_load : F → Load F
  new_load rated = record { rated_power_kw = rated; actual_power_kw = nought }

  -- `smoothstep`
  unfoldable pub smoothstep : F → F
  smoothstep x =
      let t = fl.maximum nought (fl.minimum one x) in
      fl.mul (fl.mul t t) (fl.sub (fl.lit 3 0) (fl.mul (fl.lit 2 0) t))

  -- the points of the curve, behind the first
  abbrev pub key_points : List (F × F)
  key_points =
      (fl.lit 60 1, fl.lit 22 2)
      ∷ (fl.lit 80 1, fl.lit 88 2)
      ∷ (fl.lit 115 1, fl.lit 90 2)
      ∷ (fl.lit 125 1, fl.lit 52 2)
      ∷ (fl.lit 135 1, fl.lit 88 2)
      ∷ (fl.lit 180 1, fl.lit 92 2)
      ∷ (fl.lit 210 1, fl.lit 92 2)
      ∷ (fl.lit 230 1, fl.lit 22 2)
      ∷ (fl.lit 240 1, fl.lit 22 2)
      ∷ []

  -- the curve between two points
  unfoldable pub interpolated : F → F × F → F × F → F
  interpolated hour (h, v) (h', v') =
      let t = fl.div (fl.sub hour h) (fl.sub h' h) in fl.add v (fl.mul (fl.sub v' v) (smoothstep t))

  -- the loop, on the point before
  abbrev pub base_ratio_from : F → F × F → List (F × F) → F
  base_ratio_from hour before [] = fl.lit 22 2
  base_ratio_from hour before (p ∷ rest) =
      if le hour p.0 then interpolated hour before p else base_ratio_from hour p rest

  -- `loadBaseRatio`
  unfoldable pub load_base_ratio : F → F
  load_base_ratio hour = base_ratio_from hour (fl.lit 0 1, fl.lit 22 2) key_points

  abbrev pub load_hour : LocalTime → F
  load_hour t =
      fl.add (fl.add (fl.of_nat t.hour) (fl.div (fl.of_nat t.minute) (fl.lit 60 0)))
        (fl.div (fl.of_nat t.second) (fl.lit 3600 0))

  -- `Update`
  unfoldable pub load_update : LocalTime → F → Load F → Load F
  load_update t draw ld =
      let noise = fl.add one (fl.sub (fl.mul draw (fl.lit 10 2)) (fl.lit 5 2)) in
      record ld {
        actual_power_kw = fl.mul (fl.mul ld.rated_power_kw (load_base_ratio (load_hour t))) noise;
      }
