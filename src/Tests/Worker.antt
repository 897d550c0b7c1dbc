-- ===== src/Tests/Worker.antt =====
-- The worker in the shop.
use x_ui_site.Prelude.{refl, inl, inr, none, [], ◌∷◌, arith}
use x_ui_site.Db.Rules.{Runs}
use x_ui_site.Provisioning.{call_of, adapter_retries, provision, service_request, handle_job}
use x_ui_site.Provisioning.Delivery.{Tried, provision-Tried}
use x_ui_site.Provisioning.Stored.{Delivered, Undelivered}
use x_ui_site.Provisioning.Handling.{handle_job_atomic}
use x_ui_site.Prelude.Int.{pos}
use x_ui_site.Provisioning.Delivers.{Deliverable, Finished, handle_job_delivers}
use x_ui_site.Provisioning.Queue.{OneShot, ticks}
use x_ui_site.Provisioning.Repeats.{AreDistinct, handled_jobs, ticks_once}
use x_ui_site.Tests.{world, panel, item, old_order, plain}

provision-Tried_example :
    Tried
      (call_of panel (service_request old_order item 1000) 1000)
      adapter_retries
      world
      (provision panel (service_request old_order item 1000) world).0
      (provision panel (service_request old_order item 1000) world).1
provision-Tried_example = provision-Tried panel (service_request old_order item 1000) world

handle_job_atomic_example :
    Runs world (handle_job plain 1 1) (λ _. Delivered plain 1 1 world) (Undelivered plain 1 1 world)
handle_job_atomic_example = handle_job_atomic plain 1 1 world refl

world-OneShot : OneShot world
world-OneShot = record {
  closed = refl;
  jobs = ((record { retries = (omega arith); alive = refl; fresh = λ e. refl }, tt), (tt, tt));
}

ticks_once_example :
    AreDistinct (handled_jobs plain (1000 ∷ 2000 ∷ []) world)
    × OneShot (ticks plain (1000 ∷ 2000 ∷ []) world)
ticks_once_example = ticks_once plain (1000 ∷ 2000 ∷ []) world world-OneShot

old_job-Deliverable : Deliverable plain 1 1 world
old_job-Deliverable = record {
  closed = refl;
  healthy = refl;
  o = record old_order { idempotency_key = none };
  panel = panel;
  item = item;
  target = record { order = refl; sealed = panel; first = refl; unsealed = refl; listed = refl };
  pr = record { uuid = "u2"; expires_at = pos 9000 };
  turn = 2;
  soon = (omega arith);
  came = inr (refl, inl (refl, refl));
  fresh = refl;
  fits = refl;
  keys_exist = refl;
}

handle_job_delivers_example :
    Finished plain 1 1 world old_job-Deliverable
      (handle_job plain 1 1 world).0
      (handle_job plain 1 1 world).1
handle_job_delivers_example = handle_job_delivers plain 1 1 world old_job-Deliverable
