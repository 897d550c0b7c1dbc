-- ===== src/Provisioning/Delivers.antt =====
-- handleJob over a healthy connection: where the rows allow it and the panel answers in time, the
-- order gets its service.
use x_ui_site.Prelude.{
  ℕ, ◌≤◌, ◌≡◌, refl, sym, subst, ◌∙◌, true, false, not, ◌&&◌, Option, none, some, [], ◌∷◌, ◌++◌,
  any, str_eq,
}
use x_ui_site.Prelude.Int.{fits32}
use x_ui_site.Db.Rows.{Tables, Order, Panel, CatalogItem}
use x_ui_site.Db.Errors.{Result, ok, err, new, ok-injective}
use x_ui_site.Db.Session.{World, M, ProvisionResponse, gets, begin, commit, notify, ◌>>=◌, ◌>>◌}
use x_ui_site.Db.Rules.{Runs, Ends, bind-Runs, pure-Runs, gets-Runs, weaken-Runs}
use x_ui_site.Db.Success.{
  Stands, Never, Gives, exec-Gives, begin-Stands, commit-Stands, or_rollback-Never, lift-Gives,
}
use x_ui_site.Repository.Statements.{has_user, has_vendor}
use x_ui_site.Repository.Orders
use x_ui_site.Repository.Orders.{order_by_id, link_service_tx}
use x_ui_site.Repository.Catalog
use x_ui_site.Repository.Catalog.{item_by_id}
use x_ui_site.Repository.Proxies.{insert_proxy, create_tx, known_order}
use x_ui_site.Repository.Panels.{TokenCipher, active_panel, with_token, first_active}
use x_ui_site.Provisioning.{
  call_of, provision, service_request, new_service, store_service, handle_job, provisioned_payload,
}
use x_ui_site.Provisioning.Asking.{Any, look-Seen, attempts-Gives}
use x_ui_site.Provisioning.Delivery.{FirstAt, FirstAt-unique}
use x_ui_site.Provisioning.Stored.{Target, Delivered, service_row}
use x_ui_site.Provisioning.Handling.{handle_job_atomic}

-- What lets a job be done: its order with the rows it names, and a client among the next three
-- replies of the panel, whose UUID no live service has.
-- The numbers of its item are in the range of an INT, as its columns are.
pub record Deliverable (cipher : TokenCipher) (order_id vendor_id : ℕ) (v : World) : Type 0 where
  pub closed : v.saved ≡ none
  pub healthy : v.faults ≡ []
  pub o : Order
  pub panel : Panel
  pub item : CatalogItem
  pub target : Target cipher order_id vendor_id v o panel item
  pub pr : ProvisionResponse
  pub turn : ℕ
  pub soon : turn ≤ 3
  pub came : FirstAt turn v.replies pr
  pub fresh :
      any (λ r. str_eq r.service.uuid pr.uuid && not r.deleted) v.tables.proxy_services ≡ false
  pub fits : (fits32 item.traffic_limit_gb && fits32 item.duration_days) ≡ true
  pub keys_exist :
      (has_vendor panel.vendor_id v.tables
        && has_user o.user_id v.tables
        && known_order (some o.id) v.tables)
      ≡ true

module _ (cipher : TokenCipher) (order_id vendor_id : ℕ) (v : World)
    (d : Deliverable cipher order_id vendor_id v) where
  abbrev stored_rows : ℕ → Tables
  stored_rows id = record (v.tables) {
    proxy_services =
        v.tables.proxy_services ++ service_row (new_service d.panel d.o d.item d.pr) id ∷ [];
  }

  store_service-Gives :
      (b : Option Tables) (w : World)
      → Stands b v.tables w
      → Runs w
          (store_service d.o.id (new_service d.panel d.o d.item d.pr))
          (λ _ x. (u : Tables) × Stands b u x)
          Never
  unfolding store_service create_tx insert_proxy link_service_tx
  store_service-Gives b w s =
      bind-Runs
        (or_rollback-Never _ (
          exec-Gives b w.seqs.proxy_services (stored_rows w.seqs.proxy_services)
            (insert_proxy (new_service d.panel d.o d.item d.pr)) v.tables w s
            (rw d.fits (rw d.fresh (rw d.keys_exist refl)))))
        λ id w1 (e, s1).
          bind-Runs
            (or_rollback-Never _
              (exec-Gives b tt _ _ (stored_rows w.seqs.proxy_services) w1 s1 refl))
            λ _ w2 (_, s2). pure-Runs id (_, s2)

  told :
      (id : ℕ) (w : World)
      → Runs w (notify "service.provisioned" (provisioned_payload d.o.id id)) Any Never
  unfolding notify
  told id w = record { holds = tt }

  storing-Gives :
      (w : World)
      → Stands none v.tables w
      → Runs w
          (do
            begin
            id ← store_service d.o.id (new_service d.panel d.o d.item d.pr)
            commit
            notify "service.provisioned" (provisioned_payload d.o.id id))
          Any
          Never
  storing-Gives w s = bind-Runs (begin-Stands v.tables w s) λ _ w1 s1.
      bind-Runs (store_service-Gives (some v.tables) w1 s1)
        λ id w2 (u, s2). bind-Runs (commit-Stands u (some v.tables) w2 s2) λ _ w3 s3. told id w3

  abbrev Ready : World → Type 0
  Ready w = Stands none v.tables w × (w.replies ≡ v.replies)

  panel-Gives :
      (w : World)
      → Ready w
      → Runs w (first_active cipher vendor_id) (λ p x. (p ≡ d.panel) × Ready x) Never
  unfolding first_active
  panel-Gives w (s, r) =
      bind-Runs (look-Seen v.tables (active_panel vendor_id) d.target.sealed w s d.target.first)
        λ p w1 ((e, s1), r1).
          lift-Gives _ d.panel
            (subst (λ (q : Panel). with_token cipher q (cipher.decrypt q.token) ≡ ok d.panel)
              (sym e) d.target.unsealed)
            (refl, (s1, r1 ∙ r))

  asking-Gives :
      (now : ℕ) (w : World)
      → Ready w
      → Runs w
          (do
            pr ← provision d.panel (service_request d.o d.item now)
            begin
            id ← store_service d.o.id (new_service d.panel d.o d.item pr)
            commit
            notify "service.provisioned" (provisioned_payload d.o.id id))
          Any
          Never
  unfolding provision
  asking-Gives now w (s, r) =
      bind-Runs {P = Gives none d.pr v.tables}
        (record {
          holds =
              attempts-Gives v.tables (call_of d.panel (service_request d.o d.item now) w.now) d.pr
                3 d.turn (new "") w s d.soon (subst (λ rs. FirstAt d.turn rs d.pr) (sym r) d.came);
        })
        λ pr w1 (e, s1).
          subst
            (λ (q : ProvisionResponse).
              Runs w1
                (do
                  begin
                  id ← store_service d.o.id (new_service d.panel d.o d.item q)
                  commit
                  notify "service.provisioned" (provisioned_payload d.o.id id))
                Any Never)
            (sym e) (storing-Gives w1 s1)

  abbrev for_item : Order → Panel → CatalogItem → M (Unit {0})
  for_item o panel item = do
    now ← gets (λ w. w.now)
    pr ← provision panel (service_request o item now)
    begin
    id ← store_service o.id (new_service panel o item pr)
    commit
    notify "service.provisioned" (provisioned_payload o.id id)

  abbrev for_panel : Order → Panel → M (Unit {0})
  for_panel o panel = Catalog.get_by_id o.catalog_id >>= for_item o panel

  abbrev for_order : Order → M (Unit {0})
  for_order o = first_active cipher vendor_id >>= for_panel o

  item-Gives : (w : World) → Ready w → Runs w (for_item d.o d.panel d.item) Any Never
  item-Gives w h = bind-Runs {P = λ _ x. Ready x} (gets-Runs _ h) λ now w1 r. asking-Gives now w1 r

  found-Gives : (w : World) → Ready w → Runs w (for_panel d.o d.panel) Any Never
  unfolding Catalog.get_by_id
  found-Gives w (s, r) =
      bind-Runs (look-Seen v.tables (item_by_id d.o.catalog_id) d.item w s d.target.listed)
        λ item w1 ((e, s1), r1).
          subst (λ i. Runs w1 (for_item d.o d.panel i) Any Never) (sym e)
            (item-Gives w1 (s1, r1 ∙ r))

  order-Gives : (w : World) → Ready w → Runs w (for_order d.o) Any Never
  order-Gives w h =
      bind-Runs (panel-Gives w h) λ panel w1 (e, r).
        subst (λ p. Runs w1 (for_panel d.o p) Any Never) (sym e) (found-Gives w1 r)

  handle_job-Gives : Runs v (handle_job cipher order_id vendor_id) Any Never
  unfolding handle_job Orders.by_id
  handle_job-Gives =
      bind-Runs
        (look-Seen v.tables (order_by_id vendor_id order_id) d.o v
          (record { healthy = d.healthy; saved = d.closed; tables = refl }) d.target.order)
        λ o w1 ((e, s1), r1).
          subst (λ x. Runs w1 (for_order x) Any Never) (sym e) (order-Gives w1 (s1, r1))

  -- The job is done: the client that was awaited is stored for its order, and this is announced.
  abbrev pub Finished : Result (Unit {0}) → World → Type 0
  Finished r x =
      (r ≡ ok tt)
      × ((h : Delivered cipher order_id vendor_id v x) × (h.stored.answer ≡ d.pr)
          × (h.stored.o ≡ d.o))

  finished :
      (r : Result (Unit {0})) (x : World)
      → Ends Any Never r x
      → Ends (λ _. Delivered cipher order_id vendor_id v) (λ _. Unit {0}) r x
      → Finished r x
  finished (ok u) x h k = (
    refl,
    (
      k,
      FirstAt-unique k.stored.times d.turn v.replies k.stored.answer d.pr k.stored.came d.came,
      ok-injective (sym k.stored.target.order ∙ d.target.order),
    ),
  )
  finished (err e) x h k = absurd h

  -- Over a healthy connection with no transaction open, where the order of the job is found with its
  -- item and an active panel whose token decrypts, one of the next three replies of the panel is the
  -- first to bring a client, and its service satisfies the constraints of the schema: the job ends
  -- without an error, that client is stored for the order under its UUID and to its expiry, named by
  -- the order and notified, once.
  pub handle_job_delivers :
      Finished (handle_job cipher order_id vendor_id v).0 (handle_job cipher order_id vendor_id v).1
  handle_job_delivers =
      finished (handle_job cipher order_id vendor_id v).0 (handle_job cipher order_id vendor_id v).1
        handle_job-Gives.holds
        (weaken-Runs (handle_job_atomic cipher order_id vendor_id v d.closed) (λ _ x h. h)
          (λ x h. tt)).holds
