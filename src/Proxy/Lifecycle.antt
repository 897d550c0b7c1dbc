-- ===== src/Proxy/Lifecycle.antt =====
-- What suspending, resuming and expiring do to the services.
use x_ui_site.Prelude.{
  ℕ, ◌≡◌, refl, ◌==◌, ◌&&◌, arith, sym, ◌∙◌, ap, subst, String, Bool, true, false, not, none, [],
  ◌∷◌, ◌++◌, ◌⊎◌, inl, inr, if◌then◌else◌, not-eq-true,
}
use x_ui_site.Db.Rows.{Tables, ProxyRow, ProxyService, ProxyState, active, suspended}
use x_ui_site.Db.Errors.{Error, Result, ok, err, new, wrap, ok-injective}
use x_ui_site.Db.Session.{World, M, Sql, query, exec, ◌>>=◌, ◌>>◌, lift, or_return, notify}
use x_ui_site.Db.Hoare.{SameOutside, SameOutside-trans, Open, Opens, exec-Opens}
use x_ui_site.Db.Moves.{Moved, exec-Moved}
use x_ui_site.Db.Rules.{
  Runs, Ends, bind-Runs, or_return-Runs, weaken-Runs, lift-Runs, look-Runs, Unchanged,
  committed_of_closed,
}
use x_ui_site.Db.Updates.{RowsUpdated, update_where-RowsUpdated}
use x_ui_site.Repository.Statements.{checked, checked-eq-ok}
use x_ui_site.Repository.Proxies.{
  proxy_where, of_vendor, set_status, with_status, is_due, expire_rows, mark_expired,
}
use x_ui_site.Repository.Proxies
use x_ui_site.Proxy.{is_suspended, service_payload, suspend, resume}

-- A row of the service `service_id` of the vendor `vendor_id`.
pub record IsRowOf (vendor_id service_id : ℕ) (r : ProxyRow) : Type 0 where
  pub id : r.service.id ≡ service_id
  pub vendor : r.service.vendor_id ≡ vendor_id

-- The row has the status, and is as it was otherwise.
abbrev pub HasStatus : ProxyState → ProxyRow → ProxyRow → Type 0
HasStatus status r q = q ≡ record r { service = record (r.service) { status = status } }

module _ (vendor_id service_id : ℕ) (status : ProxyState) where
  IsRowOf-of_test :
      (r : ProxyRow)
      → of_vendor vendor_id service_id r.service ≡ true
      → IsRowOf vendor_id service_id r
  IsRowOf-of_test r h = record { id = (ground (arith, h)); vendor = (ground (arith, h)) }

  not_IsRowOf :
      (r : ProxyRow)
      → of_vendor vendor_id service_id r.service ≡ false
      → IsRowOf vendor_id service_id r
      → ⊥
  not_IsRowOf r h q = apart r.service.id r.service.vendor_id h q.id q.vendor
    where
      apart :
          (a b : ℕ)
          → (a == service_id && b == vendor_id) ≡ false
          → a ≡ service_id
          → b ≡ vendor_id
          → ⊥
      apart a b h i j = ground arith

  set_status-RowsUpdated :
      (t : Tables)
      → RowsUpdated
          (IsRowOf vendor_id service_id)
          (HasStatus status)
          t.proxy_services
          (set_status vendor_id service_id status t).proxy_services
  set_status-RowsUpdated t =
      update_where-RowsUpdated (λ r. of_vendor vendor_id service_id r.service) (with_status status)
        IsRowOf-of_test not_IsRowOf (λ r. refl) t.proxy_services

module _ (vendor_id service_id : ℕ) (status : ProxyState) (v : World) where
  abbrev pub ServicesSet : World → Type 0
  ServicesSet w =
      RowsUpdated (IsRowOf vendor_id service_id) (HasStatus status) v.tables.proxy_services
        w.tables.proxy_services

  ServicesSet-of_rows :
      (w : World) → w.tables ≡ set_status vendor_id service_id status v.tables → ServicesSet w
  ServicesSet-of_rows w e =
      subst
        (λ t.
          RowsUpdated (IsRowOf vendor_id service_id) (HasStatus status) v.tables.proxy_services
            t.proxy_services)
        (sym e) (set_status-RowsUpdated vendor_id service_id status v.tables)

  -- The status is set: in every row of this id and vendor, and nowhere else.
  pub record StatusSet (w : World) : Type 0 where
    pub services : ServicesSet w
    pub tables : w.tables ≡ set_status vendor_id service_id status v.tables
    pub saved : w.saved ≡ v.saved
    pub sent : w.sent ≡ v.sent
    pub calls : w.calls ≡ v.calls

  abbrev RowsSet : Tables → Type 0
  RowsSet t = t ≡ set_status vendor_id service_id status v.tables

  set-Runs :
      (u : World)
      → Unchanged v u
      → Runs u
          (Proxies.update_status vendor_id service_id status)
          (λ _. StatusSet)
          (λ w. Unchanged v w ⊎ StatusSet w)
  unfolding Proxies.update_status
  set-Runs u s = record { holds = by_result _ _ opened.holds moved }
    where
      statement : Sql (Unit {0})
      statement = query λ t. ok (tt, set_status vendor_id service_id status t)

      opened : Opens u (exec statement) (λ _. RowsSet)
      opened = exec-Opens statement {v = u} λ a t e.
          sym (ap (λ q. q.1) (ok-injective e))
          ∙ ap (set_status vendor_id service_id status) s.tables

      moved : Moved (λ t. (t ≡ v.tables) ⊎ RowsSet t) u (exec statement u).1
      moved =
          exec-Moved (λ t. (t ≡ v.tables) ⊎ RowsSet t) u (λ t. t ≡ v.tables) statement (λ t. inl)
            (λ _ t e. inr (ap (set_status vendor_id service_id status) e)) s.tables

      after : (w : World) → SameOutside u w → RowsSet w.tables → StatusSet w
      after w o e = record {
        services = ServicesSet-of_rows w e;
        tables = e;
        saved = o.saved ∙ s.outside.saved;
        sent = o.sent ∙ s.outside.sent;
        calls = o.calls ∙ s.outside.calls;
      }

      by_result :
          (r : Result (Unit {0})) (w : World)
          → Open u (λ _. RowsSet) r w
          → Moved (λ t. (t ≡ v.tables) ⊎ RowsSet t) u w
          → Ends (λ _. StatusSet) (λ x. Unchanged v x ⊎ StatusSet x) r w
      by_result (ok a) w o m = after w o.0 o.1
      by_result (err e) w o (outside, inl same) =
          inl (record { outside = SameOutside-trans v u w s.outside outside; tables = same })
      by_result (err e) w o (outside, inr set) = inr (after w outside set)

  -- The status is set and this is announced under `topic`.
  pub record Announced (suspension : Bool) (topic : String) (w : World) : Type 0 where
    pub service : ProxyService
    pub found : proxy_where (of_vendor vendor_id service_id) v.tables ≡ ok service
    pub was : is_suspended service.status ≡ suspension
    pub services : ServicesSet w
    pub tables : w.tables ≡ set_status vendor_id service_id status v.tables
    pub saved : w.saved ≡ v.saved
    pub calls : w.calls ≡ v.calls
    pub sent :
        w.sent
        ≡ v.sent ++ record { topic = topic; payload = service_payload vendor_id service_id } ∷ []

module _ (vendor_id service_id : ℕ) (v : World) (closed : v.saved ≡ none) where
  -- One of the two: the service is looked up, its status tested, set, and the change announced.
  unfoldable changing :
      (was : Bool) (to : ProxyState) (topic : String) (problem : Error) → M (Unit {0})
  changing was to topic problem = do
    service ← or_return (wrap "service not found") (Proxies.by_id vendor_id service_id)
    lift (
        checked (if was then is_suspended service.status else not (is_suspended service.status))
          problem tt)
    Proxies.update_status vendor_id service_id to
    notify topic (service_payload vendor_id service_id)

  state_of : (was b : Bool) → (if was then b else not b) ≡ true → b ≡ was
  state_of true b e = e
  state_of false b e = not-eq-true b e

  changing-Runs :
      (was : Bool) (to : ProxyState) (topic : String) (problem : Error)
      → Runs v
          (changing was to topic problem)
          (λ _. Announced vendor_id service_id to v was topic)
          (λ w. Unchanged v w ⊎ StatusSet vendor_id service_id to v w)
  unfolding changing Proxies.by_id notify
  changing-Runs was to topic problem =
      bind-Runs
        (or_return-Runs _ (
          weaken-Runs (look-Runs (proxy_where (of_vendor vendor_id service_id)) v) (λ a x h. h)
            (λ x h. inl h)))
        λ service w1 (s, e).
          bind-Runs {P = λ _ w. Unchanged v w × (is_suspended service.status ≡ was)}
            (lift-Runs _ (λ _ q. (s, state_of was _ (checked-eq-ok _ _ _ q).0)) (inl s))
            λ _ w2 (s2, q). bind-Runs (set-Runs vendor_id service_id to v w2 s2) λ _ w3 h.
              announce service w3
                (subst (λ t. proxy_where (of_vendor vendor_id service_id) t ≡ ok service)
                  (committed_of_closed v closed) e)
                q h
    where
      announce :
          (service : ProxyService) (w : World)
          → proxy_where (of_vendor vendor_id service_id) v.tables ≡ ok service
          → is_suspended service.status ≡ was
          → StatusSet vendor_id service_id to v w
          → Runs w
              (notify topic (service_payload vendor_id service_id))
              (λ _. Announced vendor_id service_id to v was topic)
              (λ x. Unchanged v x ⊎ StatusSet vendor_id service_id to v x)
      announce service w found q h = record {
        holds = record {
          service = service;
          found = found;
          was = q;
          services = h.services;
          tables = h.tables;
          saved = h.saved;
          calls = h.calls;
          sent =
              ap
                (λ n.
                  n
                  ++ record { topic = topic; payload = service_payload vendor_id service_id } ∷ [])
                h.sent;
        };
      }

  -- With no transaction open: Suspend answers only if the vendor has the service and it is not
  -- suspended; it then sets the status of this service alone and announces it once. A failing
  -- call has changed nothing, or the update went through and only its announcement is missing.
  pub suspend_atomic :
      Runs v
        (suspend vendor_id service_id)
        (λ _. Announced vendor_id service_id suspended v false "service.suspended")
        (λ w. Unchanged v w ⊎ StatusSet vendor_id service_id suspended v w)
  unfolding suspend changing Proxies.suspend
  suspend_atomic =
      changing-Runs false suspended "service.suspended" (new "service already suspended")

  -- With no transaction open: Resume answers only if the vendor has the service and it is suspended;
  -- it then sets the status of this service alone to active, whatever it was before the suspension,
  -- and announces it once. A failing call has changed nothing, or the update went through and only
  -- its announcement is missing.
  pub resume_atomic :
      Runs v
        (resume vendor_id service_id)
        (λ _. Announced vendor_id service_id active v true "service.resumed")
        (λ w. Unchanged v w ⊎ StatusSet vendor_id service_id active v w)
  unfolding resume changing Proxies.resume
  resume_atomic = changing-Runs true active "service.resumed" (new "service is not suspended")
