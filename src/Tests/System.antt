-- ===== src/Tests/System.antt =====
-- A running shop.
use x_ui_site.Prelude.{ℕ, ◌≤◌, refl, none, List, [], ◌∷◌, arith}
use x_ui_site.Db.Session.{Fault, refused, unacked}
use x_ui_site.Order.Once.{keyed_orders}
use x_ui_site.Middleware.RateLimit.{Buckets}
use x_ui_site.System.{Activity, Event, requested, job_tick, expiry_tick, cleanup_tick, live}
use x_ui_site.System.Orders.{Grown, live_at_most_once, live-Grown}
use x_ui_site.Tests.{world}
use x_ui_site.Tests.Server.{setup, post_to, admin_post}

abbrev at : ℕ → List Fault → Activity → Event
at time faults activity = record {
  time = time;
  faults = faults;
  replies = [];
  random = [];
  activity = activity;
}

-- An order whose commit is not heard, the same again, and what the server does in between.
abbrev day : List Event
day =
    at 10 (unacked ∷ []) (requested (post_to "/api/v1/order/create"))
    ∷ at 20 [] job_tick
    ∷ at 30 [] (requested (post_to "/api/v1/order/create"))
    ∷ at 40 (refused ∷ []) expiry_tick
    ∷ at 50 [] cleanup_tick
    ∷ at 60 [] (requested (admin_post "/api/v1/admin/wallet/topup"))
    ∷ []

abbrev empty : Buckets
empty = λ key. none

live_at_most_once_example : keyed_orders 1 1 "k" (live setup day (empty, world)).1.tables ≤ 1
live_at_most_once_example =
    live_at_most_once setup (record { still = λ r w. refl }) (record { still = λ r w. refl }) 1 1
      "k" day empty world refl (record { one_row = (omega arith); no_more = (omega arith) })

live-Grown_example : Grown world.tables (live setup day (empty, world)).1.tables
live-Grown_example =
    live-Grown setup (record { still = λ r w. refl }) (record { still = λ r w. refl }) day empty
      world refl
