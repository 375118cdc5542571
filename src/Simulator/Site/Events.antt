-- ===== src/Simulator/Site/Events.antt =====
-- What happens to a running site: its ticks, and the writes of the other protocols, in any order. The
-- mutex of the simulator makes each of them one step.
use virtual_bess.Prelude.{ℕ, List, [], ◌∷◌, IsU16, All}
use virtual_bess.Prelude.Go.{Run, done, ◌>>=◌}
use virtual_bess.Prelude.Hoare.{Ensures, Ensures-done, Ensures-bind}
use virtual_bess.Simulator.Float.{Float, IsFloat}
use virtual_bess.Simulator.Core.{write_holding}
use virtual_bess.Simulator.Core.Many.{write_holding-keeps}
use virtual_bess.Simulator.Site.{Site, TickInput, tick_site}
use virtual_bess.Simulator.Site.Devices.{site_devices}
use virtual_bess.Simulator.Site.Invariant.{SiteInv}
use virtual_bess.Simulator.Site.Ticks.{tick_site-SiteInv}
use virtual_bess.Simulator.Site.Clients.{site-IsDevice}

-- a tick, or `WriteHolding` with a slave id, a register and a value
pub data SiteEvent (F : Type 0) : Type 0 where
  ticks : TickInput F → SiteEvent F
  writes : ℕ → ℕ → ℕ → SiteEvent F

-- A register is a sixteen-bit address.
abbrev pub IsEvent : {F : Type 0} → SiteEvent F → Type 0
IsEvent (ticks x) = Unit {0}
IsEvent (writes slave_id register value) = IsU16 register

module _ {F : Type 0} ⦃fl : Float F⦄ where
  -- The error of a slave that is not there is dropped.
  abbrev pub run_event : F → SiteEvent F → Site F → Run (Site F)
  run_event hz (ticks x) site = tick_site hz x.local_time x.seconds x.draws x.sync_draws site
  run_event hz (writes slave_id register value) site = do
    (site', _) ← write_holding site_devices site slave_id register value
    done site'

  unfoldable pub run_events : F → List (SiteEvent F) → Site F → Run (Site F)
  run_events hz [] site = done site
  run_events hz (e ∷ es) site = do site' ← run_event hz e site; run_events hz es site'

  run_event-SiteInv :
      (laws : IsFloat F) (hz : F) (e : SiteEvent F) (site : Site F)
      → IsEvent e
      → SiteInv site
      → Ensures SiteInv (run_event hz e site)
  run_event-SiteInv laws hz (ticks x) site ok i =
      tick_site-SiteInv laws hz x.local_time x.seconds x.draws x.sync_draws site i
  run_event-SiteInv laws hz (writes slave_id register value) site small i =
      Ensures-bind _
        (write_holding-keeps site_devices SiteInv site-IsDevice site slave_id register value i
          small)
        λ r j. Ensures-done r.0 j

  pub run_events-SiteInv :
      (laws : IsFloat F) (hz : F) (es : List (SiteEvent F)) (site : Site F)
      → All IsEvent es
      → SiteInv site
      → Ensures SiteInv (run_events hz es site)
  unfolding run_events
  run_events-SiteInv laws hz [] site ok i = Ensures-done site i
  run_events-SiteInv laws hz (e ∷ es) site (ok, oks) i =
      Ensures-bind _ (run_event-SiteInv laws hz e site ok i)
        λ s' i'. run_events-SiteInv laws hz es s' oks i'
