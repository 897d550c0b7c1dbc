-- ===== src/Provisioning/Transaction.antt =====
-- The transaction of handleJob, once the panel has answered.
use x_ui_site.Prelude.{ℕ, ◌≤◌, ◌≡◌, refl, ◌∙◌, ap, none, [], ◌∷◌, ◌++◌, ◌⊎◌, inl, inr, replicate}
use x_ui_site.Db.Rows.{Order, Panel, CatalogItem}
use x_ui_site.Db.Session.{World, ProvisionResponse, ◌>>=◌, ◌>>◌, notify, commit, begin}
use x_ui_site.Db.Rules.{Runs, bind-Runs, weaken-Runs, begin-Runs, Guards-Runs, commit-Runs}
use x_ui_site.Repository.Panels.{TokenCipher}
use x_ui_site.Provisioning.{
  call_of, service_request, new_service, store_service, provisioned_payload,
}
use x_ui_site.Provisioning.Delivery.{FirstAt}
use x_ui_site.Provisioning.Stored.{
  with_delivery, store_service-Guards, Target, NotStored, Stored, Delivered, Undelivered, delivery,
}

module _ (cipher : TokenCipher) (order_id vendor_id : ℕ) (v : World) where
  -- The panel has answered; what is left is the transaction.
  pub record Reached (o : Order) (panel : Panel) (item : CatalogItem) (answer : ProvisionResponse)
      (w : World) : Type 0 where
    pub target : Target cipher order_id vendor_id v o panel item
    pub times : ℕ
    pub at_least : 1 ≤ times
    pub at_most : times ≤ 3
    pub came : FirstAt times v.replies answer
    pub calls :
        w.calls ≡ v.calls ++ replicate times (call_of panel (service_request o item v.now) v.now)
    pub tables : w.tables ≡ v.tables
    pub saved : w.saved ≡ none
    pub sent : w.sent ≡ v.sent

  module _ (o : Order) (panel : Panel) (item : CatalogItem) (answer : ProvisionResponse) (w : World)
      (r : Reached o panel item answer w) where
    idle :
        (x : World)
        → x.tables ≡ w.tables
        → x.saved ≡ none
        → x.sent ≡ w.sent
        → x.calls ≡ w.calls
        → NotStored cipher order_id vendor_id v x
    idle x t s n c = record {
      tables = t ∙ r.tables;
      saved = s;
      sent = n ∙ r.sent;
      asked = inr (_, r.times, r.at_least, r.at_most, c ∙ r.calls);
    }

    stored_in :
        (id : ℕ) (x : World)
        → x.tables ≡ with_delivery o.id (new_service panel o item answer) id w.tables
        → x.saved ≡ none
        → x.calls ≡ w.calls
        → Stored cipher order_id vendor_id v id o.id x
    stored_in id x t s c = record {
      o = o;
      panel = panel;
      item = item;
      target = r.target;
      the_order = refl;
      times = r.times;
      at_least = r.at_least;
      at_most = r.at_most;
      calls = c ∙ r.calls;
      answer = answer;
      came = r.came;
      client = record {
        uuid = refl;
        expires_at = refl;
        order = refl;
        customer = refl;
        vendor = refl;
        status = refl;
      };
      rows = t ∙ ap (with_delivery o.id (new_service panel o item answer) id) r.tables;
      saved = s;
    }

    notify-Delivered :
        (id : ℕ) (x : World)
        → Stored cipher order_id vendor_id v id o.id x
        → x.sent ≡ v.sent
        → Runs x
            (notify "service.provisioned" (provisioned_payload o.id id))
            (λ _. Delivered cipher order_id vendor_id v)
            (Undelivered cipher order_id vendor_id v)
    unfolding notify
    notify-Delivered id x h n = record {
      holds = record {
        id = id;
        stored_for = o.id;
        stored = record {
          o = h.o;
          panel = h.panel;
          item = h.item;
          target = h.target;
          the_order = h.the_order;
          times = h.times;
          at_least = h.at_least;
          at_most = h.at_most;
          calls = h.calls;
          answer = h.answer;
          came = h.came;
          client = h.client;
          rows = h.rows;
          saved = h.saved;
        };
        sent = ap (λ y. y ++ delivery cipher order_id vendor_id v o.id id ∷ []) n;
      };
    }

    pub store-Runs :
        Runs w
          (do
            begin
            id ← store_service o.id (new_service panel o item answer)
            commit
            notify "service.provisioned" (provisioned_payload o.id id))
          (λ _. Delivered cipher order_id vendor_id v)
          (Undelivered cipher order_id vendor_id v)
    store-Runs =
        bind-Runs
          (weaken-Runs (begin-Runs w) (λ a x h. h)
            (λ x h.
              inl (idle x h.tables (h.outside.saved ∙ r.saved) h.outside.sent h.outside.calls)))
          λ _ w2 b.
            bind-Runs
              (weaken-Runs
                (Guards-Runs w2 w.tables _
                  (store_service-Guards (new_service panel o item answer) o.id w2 w.tables b.saved))
                (λ a x h. h)
                (λ x q. inl (idle x q.tables q.saved (q.sent ∙ b.sent) (q.calls ∙ b.calls))))
              λ id w3 (s, rows).
                let whole =
                  rows ∙ ap (with_delivery o.id (new_service panel o item answer) id) b.tables in
                let calls = s.calls ∙ b.calls in
                let sent = s.sent ∙ b.sent in
                bind-Runs
                  (weaken-Runs (commit-Runs w3 w.tables (s.saved ∙ b.saved)) (λ a x h. h)
                    (λ x d. in_doubt id x (d.sent ∙ sent) (d.calls ∙ calls) d.saved (elim d.tables [
                      | inl (all, gone) ↦ inl (all ∙ whole)
                      | inr back ↦ inr back
                    ])))
                  λ _ w4 c.
                    notify-Delivered id w4
                      (stored_in id w4 (c.tables ∙ whole) c.saved (c.calls ∙ calls))
                      (c.sent ∙ sent ∙ r.sent)
      where
        in_doubt :
            (id : ℕ) (x : World)
            → x.sent ≡ w.sent
            → x.calls ≡ w.calls
            → x.saved ≡ none
            → ((x.tables ≡ with_delivery o.id (new_service panel o item answer) id w.tables)
                ⊎ (x.tables ≡ w.tables))
            → Undelivered cipher order_id vendor_id v x
        in_doubt id x n c s (inl all) = inr (record {
          id = id;
          stored_for = o.id;
          stored = stored_in id x all s c;
          sent = n ∙ r.sent;
        })
        in_doubt id x n c s (inr back) = inl (idle x back s n c)
