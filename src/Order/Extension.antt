-- ===== src/Order/Extension.antt =====
-- The steps of Service.Renew inside its transaction: a paid order, and the expiry of its service.
use x_ui_site.Prelude.{
  ℕ, ◌≡◌, refl, sym, ◌∙◌, ap, subst, subst₂, some, none, Option, ◌==◌, update_where, Bool, true,
  false, if◌then◌else◌, arith,
}
use x_ui_site.Prelude.Int.{ℤ, pos, ltb_ℤ, IsBefore}
use x_ui_site.Db.Rows.{Tables, Order, ProxyRow, ProxyService}
use x_ui_site.Db.Errors.{ok, ok-injective}
use x_ui_site.Db.Session.{World}
use x_ui_site.Db.Hoare.{
  Opens, Guards, bind-Guards, pure-Guards, gets-Guards, weaken-Guards, or_rollback-Guards,
  exec-Opens, lift-Opens,
}
use x_ui_site.Db.Rules.{look-Opens, committed_of_open}
use x_ui_site.Db.Updates.{RowsUpdated, update_where-RowsUpdated}
use x_ui_site.Repository.Orders.{order_by_id, by_id}
use x_ui_site.Repository.Catalog.{CatalogPrice, catalog_price, get}
use x_ui_site.Repository.Proxies.{
  proxy_where, of_user, extended, days_after, with_expiry, update_expiry, extend_expiry_tx,
  by_id_for_user_tx,
}
use x_ui_site.Order.{
  CreateRequest, same_error, original_order, renewal_request, renew_key, renew_steps, renew_body,
}
use x_ui_site.Order.Effect.{Placed}
use x_ui_site.Order.Steps.{read-Opens}
use x_ui_site.Order.Atomic.{placing, placing-Guards}

-- The rows after the expiry of a service was extended at the time `now`.
abbrev pub extended_rows : ℕ → ℤ → ℕ → Tables → Tables
extended_rows service_id days now t = record t {
  proxy_services =
      update_where (λ r. r.service.id == service_id) (with_expiry now days) t.proxy_services;
}

-- `days` after a start: now, or the expiry `old` if that is not before now.
pub data IsProlonged (now : ℕ) (days : ℤ) (old : Option ℤ) : ℤ → Type 0 where
  unlimited : old ≡ none → IsProlonged now days old (days_after (pos now) days)
  over :
      (e : ℤ)
      → old ≡ some e
      → IsBefore e (pos now)
      → IsProlonged now days old (days_after (pos now) days)
  running :
      (e : ℤ)
      → old ≡ some e
      → (IsBefore e (pos now) → ⊥)
      → IsProlonged now days old (days_after e days)

-- The row has the longer expiry, and is as it was otherwise.
pub record HasTerm (now : ℕ) (days : ℤ) (r q : ProxyRow) : Type 0 where
  pub expiry : ℤ
  pub prolonged : IsProlonged now days r.service.expires_at expiry
  pub row : q ≡ record r { service = record (r.service) { expires_at = some expiry } }

-- Of the rows of services, those of `service_id` alone have a longer expiry.
abbrev pub Extended : ℕ → ℤ → ℕ → Tables → Tables → Type 0
Extended service_id days now t t' =
    RowsUpdated (λ r. r.service.id ≡ service_id) (HasTerm now days) t.proxy_services
      t'.proxy_services

extended-IsProlonged :
    (now : ℕ) (days : ℤ) (old : Option ℤ) → IsProlonged now days old (extended now days old)
unfolding extended
extended-IsProlonged now days none = unlimited refl
extended-IsProlonged now days (some e) = by (ltb_ℤ e (pos now)) refl
  where
    by :
        (b : Bool)
        → ltb_ℤ e (pos now) ≡ b
        → IsProlonged now days (some e) (days_after (if b then pos now else e) days)
    by true h = over e refl (ground arith)
    by false h = running e refl (ground arith)

extended_rows-Extended :
    (service_id : ℕ) (days : ℤ) (now : ℕ) (t : Tables)
    → Extended service_id days now t (extended_rows service_id days now t)
extended_rows-Extended service_id days now t =
    update_where-RowsUpdated (λ r. r.service.id == service_id) (with_expiry now days)
      (λ r h. ground arith) (λ r h q. ground arith)
      (λ r. record {
        expiry = extended now days r.service.expires_at;
        prolonged = extended-IsProlonged now days r.service.expires_at;
        row = refl;
      })
      t.proxy_services

-- `t'` is `t` after one paid renewal at the time `now`, under the order `order_id`.
pub record Renewal (user_id service_id now order_id : ℕ) (t t' : Tables) : Type 0 where
  pub service : ProxyService
  pub owned : proxy_where (of_user service_id user_id) t ≡ ok service
  pub original : ℕ
  pub has_original : service.order_id ≡ some original
  pub order : Order
  pub found : order_by_id service.vendor_id original t ≡ ok order
  pub item : CatalogPrice
  pub listed : catalog_price service.vendor_id order.catalog_id t ≡ ok item
  pub paid : Tables
  pub placed :
      Placed
        (renewal_request service.vendor_id user_id order.catalog_id (renew_key service_id now))
        item.price
        order_id
        t
        paid
  pub services : Extended service_id service.duration_days now paid t'
  pub rows : t' ≡ extended_rows service_id service.duration_days now paid

extend-Opens :
    (service_id : ℕ) (days : ℤ) (v : World)
    → Opens v
        (extend_expiry_tx service_id days)
        (λ _ t. t ≡ extended_rows service_id days v.now v.tables)
unfolding extend_expiry_tx update_expiry
extend-Opens service_id days v = record {
  holds =
      (exec-Opens (update_expiry service_id days v.now) {v = v}
        λ a t e. sym (ap (λ p. p.1) (ok-injective e))).holds;
}

renew_steps-Guards :
    (req : CreateRequest) (price : ℤ) (service_id : ℕ) (days : ℤ) (v : World) (t : Tables)
    → v.saved ≡ some t
    → Guards v t (renew_steps req price service_id days) (λ order_id t'.
      (paid : Tables) × Placed req price order_id v.tables paid
      × (t' ≡ extended_rows service_id days v.now paid))
unfolding renew_steps placing
renew_steps-Guards req price service_id days v t o =
    placing-Guards req price same_error same_error same_error same_error same_error _ v t o
      λ id w ow now placed.
        bind-Guards (or_rollback-Guards same_error ow (extend-Opens service_id days w))
          λ _ w' s rows.
            pure-Guards id
              (w.tables, placed, rows ∙ ap (λ n. extended_rows service_id days n w.tables) now)

original-eq-some : (o : Option ℕ) (id : ℕ) → original_order o ≡ ok id → o ≡ some id
original-eq-some none id e = cc
original-eq-some (some x) id e = ap some (ok-injective e)

module _ (user_id service_id : ℕ) where
  abbrev OwnedIn : Tables → ProxyService → Type 0
  OwnedIn t svc = proxy_where (of_user service_id user_id) t ≡ ok svc

  pub renew_body-Guards :
      (v : World) (t : Tables)
      → v.saved ≡ some t
      → v.tables ≡ t
      → Guards v t
          (renew_body user_id service_id)
          (λ order_id. Renewal user_id service_id v.now order_id t)
  unfolding renew_body by_id_for_user_tx by_id get
  renew_body-Guards v t o same =
      bind-Guards
        (or_rollback-Guards same_error o (read-Opens (proxy_where (of_user service_id user_id)) v))
        λ svc w1 s1 (owned, t1).
          let o1 = s1.saved ∙ o in
          bind-Guards {Q = λ id x. (svc.order_id ≡ some id) × (x ≡ w1.tables)}
            (or_rollback-Guards same_error o1 (
              lift-Opens (original_order svc.order_id)
                λ id e. (original-eq-some svc.order_id id e, refl)))
            λ original w2 s2 (has, t2).
              let o2 = s2.saved ∙ o1 in
              bind-Guards
                (or_rollback-Guards same_error o2
                  (look-Opens (order_by_id svc.vendor_id original) w2))
                λ order w3 s3 (found, t3).
                  let o3 = s3.saved ∙ o2 in
                  bind-Guards
                    (or_rollback-Guards same_error o3
                      (look-Opens (catalog_price svc.vendor_id order.catalog_id) w3))
                    λ item w4 s4 (listed, t4).
                      let o4 = s4.saved ∙ o3 in
                      let e4 = t4 ∙ t3 ∙ t2 ∙ t1 ∙ same in
                      let now4 = s4.now ∙ s3.now ∙ s2.now ∙ s1.now in
                      bind-Guards {Q = λ n x. (n ≡ v.now) × (x ≡ w4.tables)}
                        (gets-Guards (λ w. w.now) (now4, refl))
                        λ n w5 s5 (is_now, t5).
                          weaken-Guards
                            (renew_steps-Guards _ item.price service_id svc.duration_days w5 t
                              (s5.saved ∙ o4))
                            λ id x (paid, placed, rows). record {
                              service = svc;
                              owned = subst (λ y. OwnedIn y svc) same owned;
                              original = original;
                              has_original = has;
                              order = order;
                              found =
                                  subst (λ y. order_by_id svc.vendor_id original y ≡ ok order)
                                    (committed_of_open w2 t o2) found;
                              item = item;
                              listed =
                                  subst
                                    (λ y. catalog_price svc.vendor_id order.catalog_id y ≡ ok item)
                                    (committed_of_open w3 t o3) listed;
                              paid = paid;
                              placed =
                                  subst₂
                                    (λ k y.
                                      Placed
                                        (renewal_request svc.vendor_id user_id order.catalog_id
                                          (renew_key service_id k))
                                        item.price id y paid)
                                    is_now (t5 ∙ e4) placed;
                              services =
                                  subst (λ y. Extended service_id svc.duration_days v.now paid y)
                                    (sym (
                                      rows
                                      ∙ ap (λ k. extended_rows service_id svc.duration_days k paid)
                                          (s5.now ∙ now4)))
                                    (extended_rows-Extended service_id svc.duration_days v.now
                                      paid);
                              rows =
                                  rows
                                  ∙ ap (λ k. extended_rows service_id svc.duration_days k paid)
                                      (s5.now ∙ now4);
                            }
