-- ===== src/System/Background.antt =====
-- The worker and the timer of the expiry keep what rests on the orders and their keys.
use x_ui_site.Prelude.{ℕ, ◌≡◌, refl, ap, ◌∙◌, inl, inr, Bool, Option, none, some, List}
use x_ui_site.Db.Rows.{Tables, OrderRow, Job}
use x_ui_site.Db.Errors.{Error, Result, ok, err}
use x_ui_site.Db.Session.{World, exec}
use x_ui_site.Db.Rules.{Runs-world}
use x_ui_site.Db.Frame.{IfOk, IfOk-ok, exec-Keeps}
use x_ui_site.Order.History.{Between}
use x_ui_site.Repository.Panels.{TokenCipher}
use x_ui_site.Repository.Proxies
use x_ui_site.Repository.Jobs.{claim_row, claim_next, mark_done, mark_failed, job_retries}
use x_ui_site.Proxy.{run_expiry_job}
use x_ui_site.Provisioning.{handle_job, settle_job, handled, tick}
use x_ui_site.Provisioning.Stored.{Undelivered, Stored}
use x_ui_site.Provisioning.Handling.{handle_job_atomic}
use x_ui_site.System.Between.{exec-Closes, Holds, same-Between}
use x_ui_site.System.Services.{bare-with_service, sold, look-Holds, other_call}

module _ (K : Tables → Type 0) (stable : (t t' : Tables) → sold t' ≡ sold t → K t → K t') where
  module _ (cipher : TokenCipher) where
    stored-Between :
        (order_id vendor_id : ℕ) (w x : World) (id stored_for : ℕ)
        → Between K w
        → Stored cipher order_id vendor_id w id stored_for x
        → Between K x
    stored-Between order_id vendor_id w x id stored_for b s = record {
      closed = s.saved;
      rows =
          stable w.tables x.tables
            (ap sold s.rows
              ∙ ap
                  (λ (os : List OrderRow). record {
                    orders = os;
                    keys = w.tables.order_idempotency_keys;
                  })
                  (bare-with_service s.o.id id w.tables.orders))
            b.rows;
    }

    handle_job-Holds : (order_id vendor_id : ℕ) → Holds K (handle_job cipher order_id vendor_id)
    handle_job-Holds order_id vendor_id = record {
      holds = λ w b.
          Runs-world (Between K) (handle_job_atomic cipher order_id vendor_id w b.closed)
            (λ _ x d. stored-Between order_id vendor_id w x d.id d.stored_for b d.stored)
            (λ x u. by_rows w x b u);
    }
      where
        by_rows :
            (w x : World) → Between K w → Undelivered cipher order_id vendor_id w x → Between K x
        by_rows w x b (inl n) = same-Between K w x n.tables n.saved b
        by_rows w x b (inr u) = stored-Between order_id vendor_id w x u.id u.stored_for b u.stored

    mark_done-Holds : (id : ℕ) → Holds K (mark_done id)
    unfolding mark_done
    mark_done-Holds id =
        other_call K stable _ (exec-Keeps sold _ (record { frames = λ s t. IfOk-ok _ _ refl }))
          (exec-Closes _)

    mark_failed-Holds : (id : ℕ) (e : Error) (dead : Bool) → Holds K (mark_failed id e dead)
    unfolding mark_failed
    mark_failed-Holds id e dead =
        other_call K stable _ (exec-Keeps sold _ (record { frames = λ s t. IfOk-ok _ _ refl }))
          (exec-Closes _)

    claim_row-Sold :
        (o : Option Job) (t : Tables)
        → IfOk (λ (p : Job × Tables). sold p.1 ≡ sold t) (claim_row o t)
    claim_row-Sold none t = record { holds = tt }
    claim_row-Sold (some j) t = record { holds = refl }

    claim_next-Holds : Holds K claim_next
    unfolding claim_next
    claim_next-Holds =
        other_call K stable _ (exec-Keeps sold _ (record { frames = λ s t. claim_row-Sold _ t }))
          (exec-Closes _)

    settle_job-Between :
        (id : ℕ) (r : Result (Unit {0})) (w : World) → Between K w → Between K (settle_job id r w)
    unfolding settle_job
    settle_job-Between id (ok _) w b = (mark_done-Holds id).holds w b
    settle_job-Between id (err e) w b =
        (mark_failed-Holds id e _).holds _ ((look-Holds K stable (job_retries id)).holds w b)

    handled-Between : (r : Result Job) (w : World) → Between K w → Between K (handled cipher r w)
    handled-Between (err e) w b = b
    handled-Between (ok j) w b =
        settle_job-Between j.id _ _ ((handle_job-Holds j.order_id j.vendor_id).holds w b)

    pub tick-Between : (w : World) → Between K w → Between K (tick cipher w)
    unfolding tick
    tick-Between w b =
        handled-Between (claim_next w).0 (claim_next w).1 (claim_next-Holds.holds w b)

  expire_rows-Holds : (now : ℕ) → Holds K (exec (Proxies.expire_rows now))
  unfolding Proxies.expire_rows
  expire_rows-Holds now =
      other_call K stable _ (exec-Keeps sold _ (record { frames = λ s t. IfOk-ok _ _ refl }))
        (exec-Closes _)

  pub run_expiry_job-Between : (w : World) → Between K w → Between K (run_expiry_job w)
  unfolding run_expiry_job Proxies.mark_expired
  run_expiry_job-Between w b = (expire_rows-Holds w.now).holds w b
