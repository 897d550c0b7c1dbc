-- ===== src/Http/Server/Money.antt =====
-- What the server does for a request without a token.
use x_ui_site.Prelude.{
  String, ◌≡◌, refl, sym, ap, subst, ◌⊎◌, inl, inr, Bool, true, false, none, some, List, ◌++◌, any,
  str_eq, All, All-append, All-map, arith,
}
use x_ui_site.Db.Session.{World}
use x_ui_site.Security.{Claims}
use x_ui_site.Middleware.RateLimit.{Buckets, allow}
use x_ui_site.Middleware.Jwt.Guard.{guarded_or_Refused, Admits}
use x_ui_site.Storefront
use x_ui_site.Storefront.Pages.{store_shows_offers}
use x_ui_site.Http.{Request, Response, Handler}
use x_ui_site.Http.Frame.{protected}
use x_ui_site.Http.Audit.{real_ip}
use x_ui_site.Http.Api.{register_route, login_route, vendor_create, vendor_list, wallet_balance}
use x_ui_site.Http.Proxies.{provision_route, suspend_route, resume_route}
use x_ui_site.Http.Proxies
use x_ui_site.Http.Orders.{order_create, order_renew, order_get}
use x_ui_site.Http.Management.{
  catalog_create, catalog_list, panel_add, panel_list, topup, health_route,
}
use x_ui_site.Dashboard
use x_ui_site.Http.Server.{
  Setup, handle, limited, limiter, site, open_routes, guarded_routes, user_roles, vendor_roles,
  admin_roles, for_roles, if_allowed,
}
use x_ui_site.Http.Server.Routing.{mux-Has}
use x_ui_site.Http.Leaves.{
  Leaves, register_route-Leaves, login_route-Leaves, vendor_create-Leaves, vendor_list-Leaves,
  wallet_balance-Leaves, provision_route-Leaves, get-Leaves, list-Leaves, suspend_route-Leaves,
  resume_route-Leaves,
}

-- A handler that touches nothing.
pub record IsStill (h : Handler) : Type 0 where
  pub still : (r : Request) (w : World) → (h r w).1 ≡ w

module _ (s : Setup) where
  -- The protected rows are as before, or the request has a token signed with the secret for one of
  -- the roles.
  abbrev pub Kept : Request → World → Response × World → Type 0
  Kept r w answer =
      (protected answer.1.tables ≡ protected w.tables)
      ⊎ ((c : Claims) × Admits s.crypto s.jwt_secret user_roles r c)

  abbrev Safe : Handler → Type 0
  Safe h = (r : Request) (w : World) → w.saved ≡ none → Kept r w (h r w)

  Leaves-Safe : (h : Handler) → Leaves h → Safe h
  Leaves-Safe h l r w closed = inl (
      (l.leaves r (protected w.tables) w (record {
        here = refl;
        saved =
            subst (λ o. elim o [ none ↦ Unit {0} | some t ↦ protected t ≡ protected w.tables ])
              (sym closed) tt;
      })).here)

  IsStill-Safe : (h : Handler) → IsStill h → Safe h
  IsStill-Safe h q r w closed = inl (ap (λ x. protected x.tables) (q.still r w))

  store-Safe : Safe (Storefront.router s.crypto s.jwt_secret)
  store-Safe r w closed =
      inl (ap protected (store_shows_offers s.crypto s.jwt_secret r w closed).unchanged.tables)

  guarded-Safe :
      (roles : List String)
      → ((role : String) → any (str_eq role) roles ≡ true → any (str_eq role) user_roles ≡ true)
      → (h : Handler) → Safe (for_roles s roles h)
  guarded-Safe roles less h r w closed =
      elim (guarded_or_Refused s.crypto s.jwt_secret roles h r w) [
        | inl (c, a, e) ↦ inr (c, record { signed = a.signed; allowed = less c.role a.allowed })
        | inr (q, why) ↦ inl (ap (λ x. protected x.tables) q.untouched)
      ]

  vendors_are_users :
      (role : String) → any (str_eq role) vendor_roles ≡ true → any (str_eq role) user_roles ≡ true
  vendors_are_users role h = ground arith

  admins_are_users :
      (role : String) → any (str_eq role) admin_roles ≡ true → any (str_eq role) user_roles ≡ true
  admins_are_users role h = ground arith

  guarded_routes-Safe : All (λ route. Safe route.handler) (guarded_routes s)
  guarded_routes-Safe = (
    user order_create,
    (
      user order_renew,
      (
        user order_get,
        (
          user Dashboard.router,
          (
            user Dashboard.router,
            (
              seller catalog_create,
              (
                seller catalog_list,
                (
                  seller (panel_add s.cipher),
                  (
                    seller (panel_list s.cipher),
                    (guarded-Safe admin_roles admins_are_users topup, tt),
                  ),
                ),
              ),
            ),
          ),
        ),
      ),
    ),
  )
    where
      user : (h : Handler) → Safe (for_roles s user_roles h)
      user h = guarded-Safe user_roles (λ role e. e) h

      seller : (h : Handler) → Safe (for_roles s vendor_roles h)
      seller h = guarded-Safe vendor_roles vendors_are_users h

  module _ (assets_still : IsStill s.assets) (events_still : IsStill s.events) where
    open_routes-Safe : All (λ route. Safe route.handler) (open_routes s)
    unfolding health_route
    open_routes-Safe = (
      IsStill-Safe s.assets assets_still,
      (
        store-Safe,
        (
          store-Safe,
          (
            (λ r w closed. inl refl),
            (
              Leaves-Safe (register_route s.crypto s.jwt_secret)
                  (register_route-Leaves s.crypto s.jwt_secret),
              (
                Leaves-Safe (login_route s.crypto s.jwt_secret)
                    (login_route-Leaves s.crypto s.jwt_secret),
                (
                  Leaves-Safe vendor_create vendor_create-Leaves,
                  (
                    Leaves-Safe vendor_list vendor_list-Leaves,
                    (
                      Leaves-Safe wallet_balance wallet_balance-Leaves,
                      (
                        Leaves-Safe (provision_route s.cipher) (provision_route-Leaves s.cipher),
                        (
                          Leaves-Safe Proxies.get get-Leaves,
                          (
                            Leaves-Safe Proxies.list list-Leaves,
                            (
                              Leaves-Safe suspend_route suspend_route-Leaves,
                              (
                                Leaves-Safe resume_route resume_route-Leaves,
                                (IsStill-Safe s.events events_still, tt),
                              ),
                            ),
                          ),
                        ),
                      ),
                    ),
                  ),
                ),
              ),
            ),
          ),
        ),
      ),
    )

    site-Safe : Safe (site s)
    site-Safe r w closed =
        mux-Has Kept (λ r w answer. inl refl) (open_routes s ++ guarded_routes s) r w
          (All-map {P = λ route. Safe route.handler} {Q = λ route. Kept r w (route.handler r w)}
            (open_routes s ++ guarded_routes s) (λ route safe. safe r w closed)
            (All-append (λ route. Safe route.handler) (open_routes s) (guarded_routes s)
              open_routes-Safe guarded_routes-Safe))

    after_limit :
        (answer : Bool) (r : Request) (b : Buckets) (w : World) (x : Response × World)
        → Kept r w x
        → Kept r w ((if_allowed answer x b w).0, (if_allowed answer x b w).1.1)
    after_limit true r b w x h = h
    after_limit false r b w x h = inl refl

    -- Whatever request arrives, whatever statement fails, and whatever the limiter has counted,
    -- with no transaction open, and if serving static files and event streams touches nothing:
    -- the ledger, the orders with their keys and jobs, the catalog and the panels are as before, or
    -- the request has a bearer token that was signed with the server's secret for a user, a vendor or
    -- an administrator.
    pub handle_protects :
        (r : Request) (buckets : Buckets) (w : World)
        → w.saved ≡ none
        → (protected (handle s r (buckets, w)).1.1.tables ≡ protected w.tables)
          ⊎ ((c : Claims) × Admits s.crypto s.jwt_secret user_roles r c)
    unfolding handle limited
    handle_protects r buckets w closed =
        after_limit (allow limiter (real_ip r) w.now buckets).0 r
          (allow limiter (real_ip r) w.now buckets).1 w (site s r w) (site-Safe r w closed)
