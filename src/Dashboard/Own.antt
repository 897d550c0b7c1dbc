-- ===== src/Dashboard/Own.antt =====
-- The dashboard shows the rows of its user alone.
use x_ui_site.Prelude.{
  ℕ, String, ◌≡◌, sym, subst, not, ◌&&◌, none, List, [], ◌∷◌, str_eq, ◌==◌, All, All-map,
  All-select, All-reverse, All-take, All-of_map, arith, find_holds, ◌⊎◌, inl, inr,
}
use x_ui_site.Prelude.Int.{pos}
use x_ui_site.Prelude.Text.{split, trim, trim_prefix, same_char, parse_id}
use x_ui_site.Db.Rows.{Order, OrderRow, ProxyService, ProxyRow, WalletTx}
use x_ui_site.Db.Errors.{ok, ok-injective}
use x_ui_site.Db.Session.{World}
use x_ui_site.Db.Rules.{Runs, Unchanged, Unchanged-refl, weaken-Runs, bind-Runs, lift-Runs}
use x_ui_site.Repository.Statements.{map_ok-eq-ok, scan_row-eq-ok}
use x_ui_site.Repository.Orders
use x_ui_site.Repository.Orders.{scan_order}
use x_ui_site.Repository.Proxies
use x_ui_site.Repository.Proxies.{of_user}
use x_ui_site.Repository.Wallets
use x_ui_site.Repository.Wallets.{wallet_of}
use x_ui_site.Storefront
use x_ui_site.Storefront.Reads.{
  Reads, render-Reads, branch-Reads, if-Reads, or_value-All, look-Seen,
}
use x_ui_site.Security.{Crypto, Claims}
use x_ui_site.Middleware.Jwt.{user_id_from_ctx, with_claims}
use x_ui_site.Middleware.Jwt.Guard.{guarded, guarded_or_Refused, Refused, Admits}
use x_ui_site.Http.{
  Request, Response, Payload, dashboard_index, dashboard_services, dashboard_service,
  dashboard_orders, dashboard_wallet, plain,
}
use x_ui_site.Dashboard.{
  index_page, services_page, service_page, orders_page, wallet_page, services_section, section_page,
  by_segments, router,
}

-- What a page may show to the user.
abbrev pub Mine : ℕ → Payload → Type 0
Mine user_id (dashboard_index balance svcs orders) =
    All (λ p. p.user_id ≡ user_id) svcs × All (λ o. o.user_id ≡ user_id) orders
Mine user_id (dashboard_services svcs) = All (λ p. p.user_id ≡ user_id) svcs
Mine user_id (dashboard_service p qr) = p.user_id ≡ user_id
Mine user_id (dashboard_orders orders) = All (λ o. o.user_id ≡ user_id) orders
Mine user_id (dashboard_wallet balance txs) = All (λ x. x.user_id ≡ user_id) txs
Mine user_id (plain message) = Unit
Mine user_id _ = ⊥

module _ (user_id : ℕ) (v : World) (closed : v.saved ≡ none) where
  abbrev Fine : Response × World → Type 0
  Fine = Reads (Mine user_id) v

  services-Runs :
      (w : World)
      → Unchanged v w
      → Runs w
          (Proxies.list_all_by_user user_id)
          (λ ps x. Unchanged v x × All (λ (p : ProxyService). p.user_id ≡ user_id) ps)
          (Unchanged v)
  unfolding Proxies.list_all_by_user
  services-Runs w u =
      weaken-Runs (look-Seen _ v w closed u)
        (λ ps x h. (
          h.0,
          subst (λ z. All (λ (p : ProxyService). p.user_id ≡ user_id) z) (ok-injective h.1)
              (All-of_map (λ (p : ProxyService). p.user_id ≡ user_id) (λ (r : ProxyRow). r.service)
                _
                (All-reverse _ _ (
                  All-map _ (λ r e. ground arith)
                    (All-select (λ (r : ProxyRow). r.service.user_id == user_id && not r.deleted)
                      v.tables.proxy_services)))),
        ))
        (λ x h. h)

  orders-Runs :
      (limit : ℕ) (w : World)
      → Unchanged v w
      → Runs w
          (Orders.list_by_user user_id limit)
          (λ os x. Unchanged v x × All (λ (o : Order). o.user_id ≡ user_id) os)
          (Unchanged v)
  unfolding Orders.list_by_user
  orders-Runs limit w u =
      weaken-Runs (look-Seen _ v w closed u)
        (λ os x h. (
          h.0,
          subst (λ z. All (λ (o : Order). o.user_id ≡ user_id) z) (ok-injective h.1)
              (All-take _ limit _ (
                All-of_map (λ (o : Order). o.user_id ≡ user_id) scan_order _
                  (All-reverse _ _ (
                    All-map _ (λ r e. ground arith)
                      (All-select (λ (r : OrderRow). r.order.user_id == user_id && not r.deleted)
                        v.tables.orders))))),
        ))
        (λ x h. h)

  transactions-Runs :
      (limit : ℕ) (w : World)
      → Unchanged v w
      → Runs w
          (Wallets.list_transactions user_id limit)
          (λ ts x. Unchanged v x × All (λ (t : WalletTx). t.user_id ≡ user_id) ts)
          (Unchanged v)
  unfolding Wallets.list_transactions
  transactions-Runs limit w u =
      weaken-Runs (look-Seen _ v w closed u)
        (λ ts x h. (
          h.0,
          subst (λ z. All (λ (t : WalletTx). t.user_id ≡ user_id) z) (ok-injective h.1)
              (All-take _ limit _ (
                All-reverse _ _ (
                  All-map _ (λ r e. ground arith)
                    (All-select (λ (t : WalletTx). t.user_id == user_id && not t.deleted)
                      v.tables.wallet_transactions)))),
        ))
        (λ x h. h)

  balance-Runs :
      (w : World)
      → Unchanged v w
      → Runs w (Wallets.balance user_id) (λ b x. Unchanged v x × Unit {0}) (Unchanged v)
  unfolding Wallets.balance
  balance-Runs w u =
      bind-Runs (look-Seen (wallet_of user_id) v w closed u)
        λ row x h. lift-Runs _ (λ b e. (h.0, tt)) h.0

  index-Fine : (w : World) → Unchanged v w → Fine (index_page user_id w)
  index-Fine w u =
      let (u1, _) =
        or_value-All (λ _. Unit {0}) (pos 0) {v = v} {m = Wallets.balance user_id} w tt
          (balance-Runs w u) in
      let (u2, ps) =
        or_value-All (λ ps. All (λ (p : ProxyService). p.user_id ≡ user_id) ps) [] {v = v}
          {m = Proxies.list_all_by_user user_id} _ tt (services-Runs _ u1) in
      let (u3, os) =
        or_value-All (λ os. All (λ (o : Order). o.user_id ≡ user_id) os) [] {v = v}
          {m = Orders.list_by_user user_id 10} _ tt (orders-Runs 10 _ u2) in
      render-Reads 200 _ _ u3 (ps, os)

  services-Fine : (w : World) → Unchanged v w → Fine (services_page user_id w)
  services-Fine w u =
      let (u1, ps) =
        or_value-All (λ ps. All (λ (p : ProxyService). p.user_id ≡ user_id) ps) [] {v = v}
          {m = Proxies.list_all_by_user user_id} w tt (services-Runs w u) in
      render-Reads 200 _ _ u1 ps

  orders-Fine : (w : World) → Unchanged v w → Fine (orders_page user_id w)
  orders-Fine w u =
      let (u1, os) =
        or_value-All (λ os. All (λ (o : Order). o.user_id ≡ user_id) os) [] {v = v}
          {m = Orders.list_by_user user_id 50} w tt (orders-Runs 50 w u) in
      render-Reads 200 _ _ u1 os

  wallet-Fine : (w : World) → Unchanged v w → Fine (wallet_page user_id w)
  wallet-Fine w u =
      let (u1, _) =
        or_value-All (λ _. Unit {0}) (pos 0) {v = v} {m = Wallets.balance user_id} w tt
          (balance-Runs w u) in
      let (u2, ts) =
        or_value-All (λ ts. All (λ (t : WalletTx). t.user_id ≡ user_id) ts) [] {v = v}
          {m = Wallets.list_transactions user_id 20} _ tt (transactions-Runs 20 _ u1) in
      render-Reads 200 _ _ u2 ts

  service-Fine : (id : ℕ) (w : World) → Unchanged v w → Fine (service_page user_id id w)
  unfolding Proxies.by_id_for_user
  service-Fine id w u =
      branch-Reads _ _ (Proxies.by_id_for_user id user_id) w (look-Seen _ v w closed u)
        (λ x u'. render-Reads 404 (plain "not found") x u' tt)
        λ p x (u', found).
          render-Reads 200 (dashboard_service p (not (str_eq p.subscription_url ""))) x u'
            (own p found)
    where
      own :
          (p : ProxyService)
          → Proxies.proxy_where (of_user id user_id) v.tables ≡ ok p
          → p.user_id ≡ user_id
      own p found =
          let (row, scanned, same) = map_ok-eq-ok (λ (r : ProxyRow). r.service) _ found in
          let held = find_holds _ v.tables.proxy_services row (scan_row-eq-ok _ scanned) in
          subst (λ (q : ProxyService). q.user_id ≡ user_id) same (ground arith)

  missing-Fine : (m : String) (w : World) → Unchanged v w → Fine (Storefront.render 404 (plain m) w)
  missing-Fine m w u = render-Reads 404 (plain m) w u tt

  section-Fine : (name : String) (rest : List String) → Fine (section_page user_id name rest v)
  section-Fine name rest =
      let u = Unchanged-refl v in
      if-Reads (str_eq name "services") _ _ (λ _. by_rest rest u)
        λ _.
          if-Reads (str_eq name "orders") _ _ (λ _. orders-Fine v u)
            λ _.
              if-Reads (str_eq name "wallet") _ _ (λ _. wallet-Fine v u)
                λ _. missing-Fine "404 page not found" v u
    where
      by_rest : (rest : List String) → Unchanged v v → Fine (services_section user_id rest v)
      by_rest [] u = services-Fine v u
      by_rest (id ∷ more) u = service-Fine (parse_id id) v u

  segments-Fine : (segments : List String) → Fine (by_segments user_id segments v)
  segments-Fine [] = missing-Fine "404 page not found" v (Unchanged-refl v)
  segments-Fine (name ∷ rest) = section-Fine name rest

router-Fine :
    (r : Request) (v : World)
    → v.saved ≡ none
    → Reads (Mine (user_id_from_ctx r.context)) v (router r v)
unfolding router
router-Fine r v closed =
    let user_id = user_id_from_ctx r.context in
    let p = trim (same_char "/") (trim_prefix "/dashboard" r.path) in
    if-Reads (str_eq p "") (index_page user_id v) (by_segments user_id (split "/" p) v)
      (λ _. index-Fine user_id v closed v (Unchanged-refl v))
      λ _. segments-Fine user_id v closed (split "/" p)

-- With no transaction open: the dashboard behind JWT and RequireRole, whatever the path and whatever
-- statement fails, changes no row, and is refused with 401 or 403 or shows services, orders and
-- entries of the subject of the request's token alone.
pub dashboard_own :
    (k : Crypto) (secret : String) (roles : List String) (r : Request) (v : World)
    → v.saved ≡ none
    → Refused k secret roles v (guarded k secret roles router r v)
      ⊎ ((c : Claims) × Admits k secret roles r c
          × Reads (Mine c.sub) v (guarded k secret roles router r v))
dashboard_own k secret roles r v closed = elim (guarded_or_Refused k secret roles router r v) [
  | inl (c, a, e) ↦
      inr (
        c,
        a,
        subst (Reads (Mine c.sub) v) (sym e) (router-Fine (with_claims k secret c r) v closed),
      )
  | inr (q, why) ↦ inl q
]
