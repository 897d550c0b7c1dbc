-- ===== src/System.antt =====
-- The running server: New of internal/http/server.go starts the worker and the timer of the expiry
-- beside the handler, and the limiter its cleanup. Their steps and the requests come in any order,
-- each at a time, under faults and with answers of panels of its own.
pub mod Between
pub mod Services
pub mod Background
pub mod Routes
pub mod Guarded
pub mod Events
pub mod Orders
use x_ui_site.Prelude.{ℕ, Option, List, [], ◌∷◌}
use x_ui_site.Db.Session.{World, Fault, PanelReply}
use x_ui_site.Http.{Request}
use x_ui_site.Middleware.RateLimit.{Buckets, cleanup}
use x_ui_site.Http.Server.{Setup, handle}
use x_ui_site.Provisioning.{tick}
use x_ui_site.Proxy.{run_expiry_job}

pub data Activity : Type 0 where
  requested : Request → Activity
  job_tick expiry_tick cleanup_tick : Activity

pub record Event : Type 0 where
  pub time : ℕ
  pub faults : List Fault
  pub replies : List (Option PanelReply)
  pub random : List (List ℕ)
  pub activity : Activity

abbrev pub State : Type 0
State = Buckets × World

abbrev pub meet : Event → World → World
meet e w = record w { now = e.time; faults = e.faults; replies = e.replies; random = e.random }

module _ (s : Setup) where
  abbrev pub act : Activity → State → State
  act (requested r) x = (handle s r x).1
  act job_tick (b, w) = (b, tick s.cipher w)
  act expiry_tick (b, w) = (b, run_expiry_job w)
  act cleanup_tick (b, w) = (cleanup w.now b, w)

  -- The events one after the other.
  unfoldable pub live : List Event → State → State
  live [] x = x
  live (e ∷ es) (b, w) = live es (act e.activity (b, meet e w))
