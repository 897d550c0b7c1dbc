-- ===== src/Tests/Services.antt =====
-- Services and the rate limiter in the shop.
use x_ui_site.Prelude.{◌≡◌, ◌≤◌, ◌*◌, refl, true, false, none, some, List, [], ◌∷◌, ◌⊎◌, arith}
use x_ui_site.Db.Rows.{active, suspended}
use x_ui_site.Db.Session.{World}
use x_ui_site.Db.Rules.{Runs, Unchanged}
use x_ui_site.Repository.Proxies.{mark_expired, set_status}
use x_ui_site.Proxy.{suspend, resume}
use x_ui_site.Proxy.Lifecycle.{Announced, StatusSet, suspend_atomic, resume_atomic}
use x_ui_site.Proxy.Expiry.{Swept, mark_expired-Runs}
use x_ui_site.Prelude.Int.{pos}
use x_ui_site.Proxy.Provision.{ProvisionRequest}
use x_ui_site.Middleware.RateLimit.{Event, requested, cleaned, RateLimiter, passed}
use x_ui_site.Middleware.RateLimit.Cleanup.{answers, requests_only, cleanup-unseen}
use x_ui_site.Middleware.RateLimit.Window.{passed-bound}
use x_ui_site.Tests.{world}

suspend_atomic_example :
    Runs world
      (suspend 1 1)
      (λ _. Announced 1 1 suspended world false "service.suspended")
      (λ w. Unchanged world w ⊎ StatusSet 1 1 suspended world w)
suspend_atomic_example = suspend_atomic 1 1 world refl

abbrev paused : World
paused = record world { tables = set_status 1 1 suspended world.tables }

resume_atomic_example :
    Runs paused
      (resume 1 1)
      (λ _. Announced 1 1 active paused true "service.resumed")
      (λ w. Unchanged paused w ⊎ StatusSet 1 1 active paused w)
resume_atomic_example = resume_atomic 1 1 paused refl

mark_expired-Runs_example :
    Runs world mark_expired
      (λ n w. Swept world n w)
      (λ w. Unchanged world w ⊎ ((n : _) × Swept world n w))
mark_expired-Runs_example = mark_expired-Runs world

abbrev limiter : RateLimiter
limiter = record { limit = 2; window = 60 }

abbrev events : List Event
events =
    requested "a" 10
    ∷ requested "b" 11
    ∷ requested "a" 12
    ∷ cleaned 20
    ∷ requested "a" 30
    ∷ requested "a" 70
    ∷ []

passed-bound_example : passed limiter "a" events (λ k. none) ≤ 2 * 2
passed-bound_example =
    passed-bound limiter "a" 10 events (λ k. none) (omega arith)
      (
        ((omega arith), (omega arith)),
        (
          ((omega arith), (omega arith)),
          (
            ((omega arith), (omega arith)),
            (
              ((omega arith), (omega arith)),
              (((omega arith), (omega arith)), (((omega arith), (omega arith)), tt)),
            ),
          ),
        ),
      )

abbrev client_request : ProvisionRequest
client_request = record {
  vendor_id = 1;
  user_id = 1;
  order_id = some 1;
  protocol = "vless";
  traffic_limit_gb = pos 10;
  duration_days = pos 30;
}

cleanup-unseen_example :
    answers limiter events (λ k. none) ≡ answers limiter (requests_only events) (λ k. none)
cleanup-unseen_example =
    cleanup-unseen limiter events 10 (λ k. none)
      (
        (omega arith),
        ((omega arith), ((omega arith), ((omega arith), ((omega arith), ((omega arith), tt))))),
      )
