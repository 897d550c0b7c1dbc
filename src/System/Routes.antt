-- ===== src/System/Routes.antt =====
-- The routes without a token keep what rests on the orders and their keys.
use x_ui_site.Prelude.{◌≡◌, sym, subst, All, ◌==◌, ◌||◌}
use x_ui_site.Prelude.Text.{parse_id}
use x_ui_site.Db.Rows.{Tables}
use x_ui_site.Order.History.{Between}
use x_ui_site.Storefront
use x_ui_site.Storefront.Pages.{store_shows_offers}
use x_ui_site.Http.{Handler}
use x_ui_site.Http.Api.{
  credentials, new_vendor, register_route, login_route, vendor_create, vendor_list, wallet_balance,
}
use x_ui_site.Http.Proxies.{
  provision_body, with_defaults, service_body, provision_route, suspend_route, resume_route,
}
use x_ui_site.Http.Proxies
use x_ui_site.Http.Management.{health_route}
use x_ui_site.Http.Server.{Setup, open_routes}
use x_ui_site.Http.Server.Money.{IsStill}
use x_ui_site.System.Between.{
  Fits, Unchanged-Between, called-Fits, if-Between, only_post-Fits, with_body-Fits,
}
use x_ui_site.System.Services.{
  sold, register-Holds, login-Holds, create_vendor-Holds, list_by_owner-Holds, balance-Holds,
  suspend-Holds, resume-Holds, provision_service-Holds, by_id-Holds, list_by_user-Holds,
}

module _ (K : Tables → Type 0) (stable : (t t' : Tables) → sold t' ≡ sold t → K t → K t') where
  module _ (s : Setup) where
    register_route-Fits : Fits K (register_route s.crypto s.jwt_secret)
    unfolding register_route
    register_route-Fits =
        with_body-Fits K credentials _
          λ b. called-Fits K _ _ _ (register-Holds K stable s.crypto b.email b.password)

    login_route-Fits : Fits K (login_route s.crypto s.jwt_secret)
    unfolding login_route
    login_route-Fits =
        with_body-Fits K credentials _
          λ b. called-Fits K _ _ _ (login-Holds K stable s.crypto s.jwt_secret b.email b.password)

    vendor_create-Fits : Fits K vendor_create
    unfolding vendor_create
    vendor_create-Fits =
        with_body-Fits K new_vendor _
          λ b. called-Fits K _ _ _ (create_vendor-Holds K stable b.owner_id b.name b.slug)

    vendor_list-Fits : Fits K vendor_list
    unfolding vendor_list
    vendor_list-Fits = record {
      fits = λ r w b.
          (called-Fits K _ _ _ (list_by_owner-Holds K stable (parse_id (r.query "owner_id")))).fits
            r w b;
    }

    wallet_balance-Fits : Fits K wallet_balance
    unfolding wallet_balance
    wallet_balance-Fits = record {
      fits = λ r w b.
          (called-Fits K _ _ _ (balance-Holds K stable (parse_id (r.query "user_id")))).fits r w b;
    }

    provision_route-Fits : Fits K (provision_route s.cipher)
    unfolding provision_route
    provision_route-Fits = only_post-Fits K _ (
        with_body-Fits K provision_body _
          λ b. called-Fits K _ _ _ (provision_service-Holds K stable s.cipher (with_defaults b)))

    get-Fits : Fits K Proxies.get
    unfolding Proxies.get
    get-Fits = record {
      fits = λ r w b.
          let vendor_id = parse_id (r.query "vendor_id") in
          let service_id = parse_id (r.query "service_id") in
          if-Between K (vendor_id == 0 || service_id == 0) _ _ b
            ((called-Fits K _ _ _ (by_id-Holds K stable vendor_id service_id)).fits r w b);
    }

    list-Fits : Fits K Proxies.list
    unfolding Proxies.list
    list-Fits = record {
      fits = λ r w b.
          let vendor_id = parse_id (r.query "vendor_id") in
          let user_id = parse_id (r.query "user_id") in
          if-Between K (vendor_id == 0 || user_id == 0) _ _ b
            ((called-Fits K _ _ _ (list_by_user-Holds K stable vendor_id user_id)).fits r w b);
    }

    suspend_route-Fits : Fits K suspend_route
    unfolding suspend_route
    suspend_route-Fits =
        only_post-Fits K _ (
          with_body-Fits K service_body _ λ b. called-Fits K _ _ _ (suspend-Holds K stable b.0 b.1))

    resume_route-Fits : Fits K resume_route
    unfolding resume_route
    resume_route-Fits =
        only_post-Fits K _
          (with_body-Fits K service_body _ λ b. called-Fits K _ _ _ (resume-Holds K stable b.0 b.1))

    store-Fits : Fits K (Storefront.router s.crypto s.jwt_secret)
    store-Fits = record {
      fits = λ r w b.
          Unchanged-Between K w _ (store_shows_offers s.crypto s.jwt_secret r w b.closed).unchanged
            b;
    }

    module _ (assets_still : IsStill s.assets) (events_still : IsStill s.events) where
      IsStill-Fits : (h : Handler) → IsStill h → Fits K h
      IsStill-Fits h q = record { fits = λ r w b. subst (Between K) (sym (q.still r w)) b }

      pub open_routes-Fits : All (λ route. Fits K route.handler) (open_routes s)
      unfolding health_route
      open_routes-Fits = (
        IsStill-Fits s.assets assets_still,
        (
          store-Fits,
          (
            store-Fits,
            (
              record { fits = λ r w b. b },
              (
                register_route-Fits,
                (
                  login_route-Fits,
                  (
                    vendor_create-Fits,
                    (
                      vendor_list-Fits,
                      (
                        wallet_balance-Fits,
                        (
                          provision_route-Fits,
                          (
                            get-Fits,
                            (
                              list-Fits,
                              (
                                suspend_route-Fits,
                                (resume_route-Fits, (IsStill-Fits s.events events_still, tt)),
                              ),
                            ),
                          ),
                        ),
                      ),
                    ),
                  ),
                ),
              ),
            ),
          ),
        ),
      )
