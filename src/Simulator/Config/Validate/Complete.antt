-- ===== src/Simulator/Config/Validate/Complete.antt =====
-- The configurations that are accepted are exactly the sound ones.
use virtual_bess.Prelude.Text.{Text}
use virtual_bess.Simulator.Float.{Float}
use virtual_bess.Simulator.Config.{Config}
