-- ===== src/Order/Atomic.antt =====
-- Service.Create and Service.Renew: one order is placed whole, or no row changes.
use x_ui_site.Prelude.{
  ℕ, ◌≡◌, refl, ◌∙◌, ap, subst, true, false, some, none, ◌++◌, ◌∷◌, [], update_where, find,
}
use x_ui_site.Prelude.Int.{ℤ}
use x_ui_site.Db.Rows.{Tables}
use x_ui_site.Db.Errors.{Error}
use x_ui_site.Db.Session.{World, M, ◌>>=◌, ◌>>◌, or_rollback, pure}
use x_ui_site.Db.Hoare.{Guards, bind-Guards, pure-Guards, or_rollback-Guards}
use x_ui_site.Repository.Wallets.{is_wallet_of, deduct_tx}
use x_ui_site.Repository.Orders.{
  order_keys, create_tx, reserve_tx, link_order_tx, is_key, with_order,
}
use x_ui_site.Repository.Jobs.{enqueue_tx}
use x_ui_site.Order.{CreateRequest, new_order, place}
use x_ui_site.Order.Effect.{Placed, charge, overflows, key_row, order_row, job_row}
use x_ui_site.Order.Steps.{
  Reserved, Charged, Ordered, Linked, Enqueued, reserve-Opens, deduct-Opens, create-Opens,
  link-Opens, enqueue-Opens,
}

module _ (req : CreateRequest) (price : ℤ) where
  abbrev reserved_rows : Tables → Tables
  reserved_rows t = record t {
    order_idempotency_keys = t.order_idempotency_keys ++ key_row req none ∷ [];
  }

  abbrev ordered_rows : ℕ → Tables → Tables
  ordered_rows id t = record t { orders = t.orders ++ order_row req price id ∷ [] }

  abbrev linked_rows : ℕ → Tables → Tables
  linked_rows id t = record t {
    order_idempotency_keys =
        update_where (is_key req.vendor_id req.user_id req.idempotency_key) (with_order id)
          t.order_idempotency_keys;
  }

  abbrev enqueued_rows : ℕ → ℕ → Tables → Tables
  enqueued_rows id job t = record t {
    provisioning_jobs = t.provisioning_jobs ++ job_row req id job ∷ [];
  }

  -- The five steps, one after the other, are the whole effect.
  pub steps-Placed :
      (order_id : ℕ) (t0 t1 t2 t3 t4 t5 : Tables)
      → Reserved req t0 t1
      → Charged req.user_id price t1 t2
      → Ordered req price order_id t2 t3
      → Linked req order_id t3 t4
      → Enqueued req order_id t4 t5
      → Placed req price order_id t0 t5
  steps-Placed order_id t0 t1 t2 t3 t4 t5 a b c d e =
      let e2 = b.rows ∙ ap (charge b.wallet b.entry_id req.user_id price) a.rows in
      let e3 = c.rows ∙ ap (ordered_rows order_id) e2 in
      let e4 = d.rows ∙ ap (linked_rows order_id) e3 in
      record {
        placement = record {
          wallet = b.wallet;
          entry_id = b.entry_id;
          order_id = order_id;
          job_id = e.job_id;
        };
        the_order = refl;
        payable = record {
          new_key = a.new_key;
          found =
              subst (λ t. find (is_wallet_of req.user_id) t.wallets ≡ some b.wallet) a.rows b.found;
          covered = b.covered;
          in_range = subst (λ t. overflows b.wallet price t ≡ false) a.rows b.in_range;
          keys_exist = subst (λ t. order_keys (new_order req price) t ≡ true) e2 c.keys_exist;
        };
        rows = e.rows ∙ ap (enqueued_rows order_id e.job_id) e4;
      }

  -- The steps of the transaction, each with the error that it wraps, and what follows them.
  unfoldable pub placing : {B : Type 0} (f1 f2 f3 f4 f5 : Error → Error) (k : ℕ → M B) → M B
  placing f1 f2 f3 f4 f5 k = do
    or_rollback f1 (reserve_tx req.vendor_id req.user_id req.idempotency_key)
    or_rollback f2 (deduct_tx req.user_id price)
    order_id ← or_rollback f3 (create_tx (new_order req price))
    or_rollback f4 (link_order_tx req.vendor_id req.user_id req.idempotency_key order_id)
    or_rollback f5 (enqueue_tx req.vendor_id order_id)
    k order_id

  pub placing-Guards :
      {B : Type 0} {R : B → Tables → Type 0} (f1 f2 f3 f4 f5 : Error → Error) (k : ℕ → M B)
      (v : World) (t : Tables)
      → v.saved ≡ some t
      → ((order_id : ℕ) (w : World)
          → w.saved ≡ some t
          → w.now ≡ v.now
          → Placed req price order_id v.tables w.tables
          → Guards w t (k order_id) R)
      → Guards v t (placing f1 f2 f3 f4 f5 k) R
  unfolding placing
  placing-Guards f1 f2 f3 f4 f5 k v t o h =
      bind-Guards (or_rollback-Guards f1 o (reserve-Opens req v)) λ _ w1 s1 a.
        let o1 = s1.saved ∙ o in
        bind-Guards (or_rollback-Guards f2 o1 (deduct-Opens req.user_id price w1)) λ _ w2 s2 b.
          let o2 = s2.saved ∙ o1 in
          bind-Guards (or_rollback-Guards f3 o2 (create-Opens req price w2)) λ id w3 s3 c.
            let o3 = s3.saved ∙ o2 in
            bind-Guards (or_rollback-Guards f4 o3 (link-Opens req id w3)) λ _ w4 s4 d.
              let o4 = s4.saved ∙ o3 in
              bind-Guards (or_rollback-Guards f5 o4 (enqueue-Opens req id w4)) λ _ w5 s5 e.
                h id w5 (s5.saved ∙ o4) (s5.now ∙ s4.now ∙ s3.now ∙ s2.now ∙ s1.now)
                  (steps-Placed id _ _ _ _ _ _ a b c d e)

  pub place-Guards :
      (v : World) (t : Tables)
      → v.saved ≡ some t
      → Guards v t (place req price) (λ id. Placed req price id v.tables)
  unfolding place placing
  place-Guards v t o = placing-Guards _ _ _ _ _ pure v t o λ id w _ _ p. pure-Guards id p
