-- ===== src/Provisioning/Stored.antt =====
-- What storing a delivered service does to the rows, and what a job can leave behind.
use x_ui_site.Prelude.{
  ℕ, ◌≤◌, ◌≡◌, sym, ◌∙◌, ap, some, none, [], ◌∷◌, ◌++◌, ◌⊎◌, not, any, update_where, replicate,
  str_eq, ◌==◌, false, ◌&&◌,
}
use x_ui_site.Prelude.Int.{pos}
use x_ui_site.Db.Rows.{active, Tables, Order, Panel, CatalogItem, ProxyService, ProxyRow}
use x_ui_site.Db.Errors.{Result, ok, err, ok-injective}
use x_ui_site.Db.Session.{World, Notice, ProvisionCall, ProvisionResponse}
use x_ui_site.Db.Hoare.{Guards, Opens, exec-Opens, bind-Guards, pure-Guards, or_rollback-Guards}
use x_ui_site.Db.Rules.{Runs, Ends}
use x_ui_site.Repository.Statements.{checked-eq-ok, unless_taken-eq-ok, in_range-eq-ok}
use x_ui_site.Repository.Orders.{order_by_id, with_service, link_service_tx}
use x_ui_site.Repository.Proxies.{insert_proxy, create_tx}
use x_ui_site.Repository.Catalog.{item_by_id}
use x_ui_site.Repository.Panels.{TokenCipher, active_panel, with_token}
use x_ui_site.Provisioning.{
  ProvisionRequest, call_of, adapter_retries, provision, service_request, new_service,
  store_service, same_error, provisioned_payload,
}
use x_ui_site.Provisioning.Delivery.{Asked, Tried, FirstAt, IsSilent, provision-Tried}

-- The row of a stored service.
abbrev pub service_row : ProxyService → ℕ → ProxyRow
service_row p id = record {
  service = record p { id = id; traffic_used_gb = pos 0 };
  deleted = false;
}

-- A service is inserted and its order names it.
abbrev pub with_delivery : ℕ → ProxyService → ℕ → Tables → Tables
with_delivery order_id p id t = record t {
  proxy_services = t.proxy_services ++ service_row p id ∷ [];
  orders = update_where (λ r. r.order.id == order_id) (with_service id) t.orders;
}

abbrev pub linked_rows : ℕ → ℕ → Tables → Tables
linked_rows order_id id t = record t {
  orders = update_where (λ r. r.order.id == order_id) (with_service id) t.orders;
}

module _ (p : ProxyService) where
  pub record Inserted (id : ℕ) (t t' : Tables) : Type 0 where
    pub new_uuid : any (λ r. str_eq r.service.uuid p.uuid && not r.deleted) t.proxy_services ≡ false
    pub rows : t' ≡ record t { proxy_services = t.proxy_services ++ service_row p id ∷ [] }

  pub insert-Opens : (v : World) → Opens v (create_tx p) (λ id. Inserted id v.tables)
  unfolding create_tx insert_proxy
  insert-Opens v = exec-Opens _ λ a t e.
      let (fits, tried) = in_range-eq-ok _ _ e in
      let (fresh, written) = unless_taken-eq-ok _ _ tried in
      let (exist, same) = checked-eq-ok _ _ _ written in
      record {
        new_uuid = fresh;
        rows =
            sym (ap (λ q. q.1) same)
            ∙ ap
                (λ id. record (v.tables) {
                  proxy_services = v.tables.proxy_services ++ service_row p id ∷ [];
                })
                (ap (λ q. q.0) same);
      }

  link-Opens :
      (order_id id : ℕ) (v : World)
      → Opens v (link_service_tx order_id id) (λ _ t'. t' ≡ linked_rows order_id id v.tables)
  unfolding link_service_tx
  link-Opens order_id id v = exec-Opens _ λ a t e. sym (ap (λ q. q.1) (ok-injective e))

  pub store_service-Guards :
      (order_id : ℕ) (v : World) (t : Tables)
      → v.saved ≡ some t
      → Guards v t (store_service order_id p) (λ id t'. t' ≡ with_delivery order_id p id v.tables)
  unfolding store_service
  store_service-Guards order_id v t o =
      bind-Guards (or_rollback-Guards same_error o (insert-Opens v)) λ id w s i.
        bind-Guards (or_rollback-Guards same_error (s.saved ∙ o) (link-Opens order_id id w))
          λ _ x r l. pure-Guards id (l ∙ ap (linked_rows order_id id) i.rows)

Tried-Ends :
    (call : ProvisionCall) (n : ℕ) (v : World) (r : Result ProvisionResponse) (w : World)
    → Tried call n v r w
    → Ends
        (λ a x. (k : ℕ) × (1 ≤ k) × (k ≤ n) × Asked call k v x × FirstAt k v.replies a)
        (λ x. Asked call n v x × IsSilent n v.replies)
        r
        w
Tried-Ends call n v (ok r) w h = h
Tried-Ends call n v (err e) w h = h

pub provision-Runs :
    (panel : Panel) (req : ProvisionRequest) (v : World)
    → Runs v
        (provision panel req)
        (λ a x.
          (k : ℕ) × (1 ≤ k)
          × (k ≤ 3)
          × Asked (call_of panel req v.now) k v x
          × FirstAt k v.replies a)
        (λ x. Asked (call_of panel req v.now) 3 v x × IsSilent 3 v.replies)
provision-Runs panel req v = record {
  holds = Tried-Ends _ adapter_retries v _ _ (provision-Tried panel req v);
}

-- What is stored of a client: for its order and its customer, under its own UUID, to its own expiry.
pub record IsServiceOf (o : Order) (panel : Panel) (answer : ProvisionResponse) (p : ProxyService)
    : Type 0 where
  pub uuid : p.uuid ≡ answer.uuid
  pub expires_at : p.expires_at ≡ some answer.expires_at
  pub order : p.order_id ≡ some o.id
  pub customer : p.user_id ≡ o.user_id
  pub vendor : p.vendor_id ≡ panel.vendor_id
  pub status : p.status ≡ active

module _ (cipher : TokenCipher) (order_id vendor_id : ℕ) (v : World) where
  -- What the job is about: the order of the vendor, its catalog item, the panel with its token.
  pub record Target (o : Order) (panel : Panel) (item : CatalogItem) : Type 0 where
    pub order : order_by_id vendor_id order_id v.tables ≡ ok o
    pub sealed : Panel
    pub first : active_panel vendor_id v.tables ≡ ok sealed
    pub unsealed : with_token cipher sealed (cipher.decrypt sealed.token) ≡ ok panel
    pub listed : item_by_id o.catalog_id v.tables ≡ ok item

  -- A panel was asked, three times at most, or none; nothing else happened.
  pub record NotStored (w : World) : Type 0 where
    pub tables : w.tables ≡ v.tables
    pub saved : w.saved ≡ none
    pub sent : w.sent ≡ v.sent
    pub asked :
        (w.calls ≡ v.calls)
        ⊎ ((call : ProvisionCall) × (times : ℕ) × (1 ≤ times)
            × (times ≤ 3)
            × (w.calls ≡ v.calls ++ replicate times call))

  -- All of the job, but for the notification.
  pub record Stored (id : ℕ) (stored_for : ℕ) (w : World) : Type 0 where
    pub o : Order
    pub panel : Panel
    pub item : CatalogItem
    pub target : Target o panel item
    pub the_order : stored_for ≡ o.id
    pub times : ℕ
    pub at_least : 1 ≤ times
    pub at_most : times ≤ 3
    pub calls :
        w.calls ≡ v.calls ++ replicate times (call_of panel (service_request o item v.now) v.now)
    pub answer : ProvisionResponse
    pub came : FirstAt times v.replies answer
    pub client : IsServiceOf o panel answer (new_service panel o item answer)
    pub rows : w.tables ≡ with_delivery o.id (new_service panel o item answer) id v.tables
    pub saved : w.saved ≡ none

  abbrev pub delivery : ℕ → ℕ → Notice
  delivery id service_id = record {
    topic = "service.provisioned";
    payload = provisioned_payload id service_id;
  }

  -- The service is stored, its order names it, and this is announced once.
  pub record Delivered (w : World) : Type 0 where
    pub id : ℕ
    pub stored_for : ℕ
    pub stored : Stored id stored_for w
    pub sent : w.sent ≡ v.sent ++ delivery stored_for id ∷ []

  -- The answer to the commit was lost.
  pub record Unheard (w : World) : Type 0 where
    pub id : ℕ
    pub stored_for : ℕ
    pub stored : Stored id stored_for w
    pub sent : w.sent ≡ v.sent

  abbrev pub Undelivered : World → Type 0
  Undelivered w = NotStored w ⊎ Unheard w
