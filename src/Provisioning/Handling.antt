-- ===== src/Provisioning/Handling.antt =====
-- WorkerV2.handleJob leaves behind a stored service that its order names, or no change of rows.
use x_ui_site.Prelude.{ℕ, ◌≤◌, ◌≡◌, ◌∙◌, ap, subst, none, ◌++◌, inl, inr, replicate, arith}
use x_ui_site.Db.Rows.{Tables, Order, Panel, CatalogItem}
use x_ui_site.Db.Errors.{Result, ok}
use x_ui_site.Db.Session.{
  World, ProvisionCall, ProvisionResponse, ◌>>=◌, ◌>>◌, notify, commit, begin, gets, committed,
}
use x_ui_site.Db.Rules.{
  Runs, bind-Runs, weaken-Runs, lift-Runs, look-Runs, gets-Runs, Unchanged, Unchanged-refl,
  Unchanged-trans, committed_of_closed,
}
use x_ui_site.Repository.Orders.{order_by_id, with_service, link_service_tx}
use x_ui_site.Repository.Orders
use x_ui_site.Repository.Catalog.{item_by_id}
use x_ui_site.Repository.Catalog
use x_ui_site.Repository.Panels.{TokenCipher, active_panel, with_token, first_active}
use x_ui_site.Provisioning.{
  call_of, provision, service_request, new_service, store_service, provisioned_payload, handle_job,
}
use x_ui_site.Provisioning.Delivery.{Asked, FirstAt}
use x_ui_site.Provisioning.Transaction.{Reached, store-Runs}
use x_ui_site.Provisioning.Stored.{provision-Runs, Target, NotStored, Delivered, Undelivered}

module _ (cipher : TokenCipher) (order_id vendor_id : ℕ) (v : World) (closed : v.saved ≡ none) where
  Unchanged-NotStored : (w : World) → Unchanged v w → Undelivered cipher order_id vendor_id v w
  Unchanged-NotStored w s = inl (record {
    tables = s.tables;
    saved = s.outside.saved ∙ closed;
    sent = s.outside.sent;
    asked = inl s.outside.calls;
  })

  seen :
      {A : Type 0} (q : Tables → Result A) (a : A) (u : World)
      → Unchanged v u
      → q (committed u) ≡ ok a
      → q v.tables ≡ ok a
  seen q a u s e =
      subst (λ t. q t ≡ ok a) (committed_of_closed u (s.outside.saved ∙ closed) ∙ s.tables) e

  not_stored :
      (call : ProvisionCall) (w : World) (k : ℕ)
      → Unchanged v w
      → 1 ≤ k
      → k ≤ 3
      → (x : World) → Asked call k w x
      → NotStored cipher order_id vendor_id v x
  not_stored call w k s low high x a = record {
    tables = a.tables ∙ s.tables;
    saved = a.saved ∙ s.outside.saved ∙ closed;
    sent = a.sent ∙ s.outside.sent;
    asked = inr (call, k, low, high, a.calls ∙ ap (λ c. c ++ replicate k call) s.outside.calls);
  }

  reached :
      (o : Order) (panel : Panel) (item : CatalogItem) (now : ℕ) (w x : World)
      → Target cipher order_id vendor_id v o panel item
      → Unchanged v w
      → now ≡ v.now
      → (k : ℕ) → 1 ≤ k
      → k ≤ 3
      → Asked (call_of panel (service_request o item now) w.now) k w x
      → (answer : ProvisionResponse) → FirstAt k w.replies answer
      → Reached cipher order_id vendor_id v o panel item answer x
  reached o panel item now w x t s clock k low high a answer f = record {
    came = subst (λ rs. FirstAt k rs answer) s.outside.replies f;
    target = t;
    times = k;
    at_least = low;
    at_most = high;
    calls =
        a.calls
        ∙ ap (λ c. c ++ replicate k (call_of panel (service_request o item now) w.now))
            s.outside.calls
        ∙ ap (λ n. v.calls ++ replicate k (call_of panel (service_request o item n) w.now)) clock
        ∙ ap (λ n. v.calls ++ replicate k (call_of panel (service_request o item v.now) n))
            s.outside.now;
    tables = a.tables ∙ s.tables;
    saved = a.saved ∙ s.outside.saved ∙ closed;
    sent = a.sent ∙ s.outside.sent;
  }

  deliver-Runs :
      (o : Order) (panel : Panel) (item : CatalogItem) (u : World)
      → Target cipher order_id vendor_id v o panel item
      → Unchanged v u
      → Runs u
          (do
            now ← gets (λ w. w.now)
            pr ← provision panel (service_request o item now)
            begin
            service_id ← store_service o.id (new_service panel o item pr)
            commit
            notify "service.provisioned" (provisioned_payload o.id service_id))
          (λ _. Delivered cipher order_id vendor_id v)
          (Undelivered cipher order_id vendor_id v)
  deliver-Runs o panel item u t s =
      bind-Runs {P = λ n w. Unchanged v w × (n ≡ v.now)} (gets-Runs _ (s, s.outside.now))
        λ now w0 (s0, clock).
          bind-Runs
            (weaken-Runs (provision-Runs panel (service_request o item now) w0) (λ a x h. h)
              (λ x (a, f). inl (not_stored _ w0 3 s0 (omega arith) (omega arith) x a)))
            λ pr w1 (k, low, high, a, f).
              store-Runs cipher order_id vendor_id v o panel item pr w1
                (reached o panel item now w0 w1 t s0 clock k low high a pr f)

  -- With no transaction open, and whatever fails or goes unheard: a job that succeeds has asked
  -- the vendor's first active panel one to three times for the item of its order, up to the first reply
  -- that brings a client, stored the service with the UUID and the expiry of that client, named it in the order and announced it once; a job that fails has
  -- changed no row and announced nothing, though it may have asked a panel one to three times, or
  -- its commit went through unheard and only the announcement is missing.
  pub handle_job_atomic :
      Runs v
        (handle_job cipher order_id vendor_id)
        (λ _. Delivered cipher order_id vendor_id v)
        (Undelivered cipher order_id vendor_id v)
  unfolding handle_job first_active Orders.by_id Catalog.get_by_id
  handle_job_atomic =
      bind-Runs
        (weaken-Runs (look-Runs (order_by_id vendor_id order_id) v) (λ a x h. h)
          Unchanged-NotStored)
        λ o w1 (s1, e1).
          bind-Runs
            {P = λ panel w.
              Unchanged v w
              × (p : Panel) × (active_panel vendor_id v.tables ≡ ok p)
              × (with_token cipher p (cipher.decrypt p.token) ≡ ok panel)}
            (bind-Runs
              (weaken-Runs (look-Runs (active_panel vendor_id) w1) (λ a x h. h)
                (λ x h. Unchanged-NotStored x (Unchanged-trans s1 h)))
              λ p w2 (s2, e2).
                lift-Runs _
                  (λ panel e.
                    (Unchanged-trans s1 s2, p, seen (active_panel vendor_id) p w1 s1 e2, e))
                  (Unchanged-NotStored w2 (Unchanged-trans s1 s2)))
            λ panel w2 (s2, p, e2, e).
              bind-Runs
                (weaken-Runs (look-Runs (item_by_id o.catalog_id) w2) (λ a x h. h)
                  (λ x h. Unchanged-NotStored x (Unchanged-trans s2 h)))
                λ item w3 (s3, e3).
                  deliver-Runs o panel item w3
                    (record {
                      order = seen (order_by_id vendor_id order_id) o v (Unchanged-refl v) e1;
                      sealed = p;
                      first = e2;
                      unsealed = e;
                      listed = seen (item_by_id o.catalog_id) item w2 s2 e3;
                    })
                    (Unchanged-trans s2 s3)
