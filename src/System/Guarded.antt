-- ===== src/System/Guarded.antt =====
-- The routes behind a token keep what rests on the orders and their keys, if orders and renewals do.
use x_ui_site.Prelude.{ℕ, String, ◌≡◌, sym, subst, inl, inr, List, All, ◌==◌}
use x_ui_site.Prelude.Text.{parse_id, trim_prefix}
use x_ui_site.Db.Rows.{Tables}
use x_ui_site.Db.Errors.{Result, ok, err}
use x_ui_site.Db.Session.{World, M}
use x_ui_site.Repository.Panels.{TokenCipher}
use x_ui_site.Repository.Catalog.{CatalogPrice, catalog_price}
use x_ui_site.Order.{CreateRequest, CreateResponse, create, renew}
use x_ui_site.Order.Effect.{Placed}
use x_ui_site.Order.Extension.{Renewal}
use x_ui_site.Order.History.{Between, creates, renews, perform, perform-Between}
use x_ui_site.Middleware.Jwt.{with_claims, user_id_from_ctx}
use x_ui_site.Middleware.Jwt.Guard.{guarded_or_Refused}
use x_ui_site.Dashboard
use x_ui_site.Dashboard.Own.{dashboard_own}
use x_ui_site.Http.{Request, Response, Handler}
use x_ui_site.Http.Orders.{create_body, audited, order_create, order_renew, order_get}
use x_ui_site.Http.Management.{
  logged, item_body, panel_body, topup_body, catalog_create, catalog_list, panel_add, panel_list,
  topup,
}
use x_ui_site.Http.Server.{Setup, guarded_routes, user_roles, vendor_roles, admin_roles, for_roles}
use x_ui_site.System.Between.{
  Holds, Fits, Unchanged-Between, called-Fits, if-Between, only_post-Fits, with_body-Fits,
}
use x_ui_site.System.Services.{
  sold, look-Holds, create_item-Holds, create_panel-Holds, list_panels-Holds, order_by_id-Holds,
  apply_transaction-Holds,
}

module _ (K : Tables → Type 0) (stable : (t t' : Tables) → sold t' ≡ sold t → K t → K t') where
  logged-Between :
      {A : Type 0} (r : Request) (action resource : String) (answer : A → Response)
      (x : Result A × World)
      → Between K x.1
      → Between K (logged r action resource answer x).1
  logged-Between r action resource answer (ok a, w) b = record { closed = b.closed; rows = b.rows }
  logged-Between r action resource answer (err e, w) b = b

  logged-Fits :
      {A : Type 0} (action resource : String) (answer : A → Response) (m : M A)
      → Holds K m
      → Fits K (λ r w. logged r action resource answer (m w))
  logged-Fits action resource answer m h = record {
    fits = λ r w b. logged-Between r action resource answer (m w) (h.holds w b);
  }

  catalog_create-Fits : Fits K catalog_create
  unfolding catalog_create
  catalog_create-Fits =
      only_post-Fits K _
        (with_body-Fits K item_body _ λ i. logged-Fits _ _ _ _ (create_item-Holds K stable i))

  catalog_list-Fits : Fits K catalog_list
  unfolding catalog_list
  catalog_list-Fits = record {
    fits = λ r w b. (called-Fits K _ _ _ (look-Holds K stable _)).fits r w b;
  }

  topup-Fits : Fits K topup
  unfolding topup
  topup-Fits = only_post-Fits K _ (
      with_body-Fits K topup_body _
        λ b. logged-Fits _ _ _ _ (apply_transaction-Holds K stable b.0 b.1 "admin_topup"))

  module _ (cipher : TokenCipher) where
    panel_add-Fits : Fits K (panel_add cipher)
    unfolding panel_add
    panel_add-Fits = only_post-Fits K _ (
        with_body-Fits K panel_body _
          λ p. logged-Fits _ _ _ _ (create_panel-Holds K stable cipher p))

    panel_list-Fits : Fits K (panel_list cipher)
    unfolding panel_list
    panel_list-Fits = record {
      fits = λ r w b.
          (called-Fits K _ _ _
              (list_panels-Holds K stable cipher (parse_id (r.query "vendor_id")))).fits
            r w b;
    }

  order_get-Fits : Fits K order_get
  unfolding order_get
  order_get-Fits = record {
    fits = λ r w b.
        (called-Fits K _ _ _ (
            order_by_id-Holds K stable (parse_id (r.query "vendor_id"))
              (parse_id (r.query "order_id")))).fits
          r w b;
  }

  audited-Between :
      (r : Request) (action : String) (code : CreateResponse → ℕ)
      (x : Result CreateResponse × World)
      → Between K x.1
      → Between K (audited r action code x).1
  audited-Between r action code (ok a, w) b = record { closed = b.closed; rows = b.rows }
  audited-Between r action code (err e, w) b = record { closed = b.closed; rows = b.rows }

  module _
      (by_order : (req : CreateRequest) (item : CatalogPrice) (id : ℕ) (t t' : Tables)
        → catalog_price req.vendor_id req.catalog_id t ≡ ok item
        → Placed req item.price id t t'
        → K t
        → K t')
      (by_renewal : (user service now id : ℕ) (t t' : Tables)
        → Renewal user service now id t t'
        → K t
        → K t') where
    create-Between : (req : CreateRequest) (w : World) → Between K w → Between K (create req w).1
    unfolding perform
    create-Between req w b = perform-Between K by_order by_renewal (creates req) w b

    renew-Between :
        (user service : ℕ) (w : World) → Between K w → Between K (renew user service w).1
    unfolding perform
    renew-Between user service w b = perform-Between K by_order by_renewal (renews user service) w b

    order_create-Fits : Fits K order_create
    unfolding order_create
    order_create-Fits = record {
      fits = λ r w b.
          (only_post-Fits K _ (
              with_body-Fits K (create_body (user_id_from_ctx r.context)) _ λ req. record {
                fits = λ r w b. audited-Between r _ _ (create req w) (create-Between req w b);
              })).fits
            r w b;
    }

    order_renew-Fits : Fits K order_renew
    unfolding order_renew
    order_renew-Fits = only_post-Fits K _ (record {
      fits = λ r w b.
          let service_id = parse_id (trim_prefix "/api/v1/order/renew/" r.path) in
          let user_id = user_id_from_ctx r.context in
          if-Between K (service_id == 0) _ _ b (
            audited-Between r _ _ (renew user_id service_id w)
              (renew-Between user_id service_id w b));
    })

    module _ (s : Setup) where
      dashboard-Fits : Fits K (for_roles s user_roles Dashboard.router)
      dashboard-Fits = record {
        fits = λ r w b. elim (dashboard_own s.crypto s.jwt_secret user_roles r w b.closed) [
          | inl q ↦ subst (Between K) (sym q.untouched) b
          | inr (c, a, shown) ↦ Unchanged-Between K w _ shown.unchanged b
        ];
      }

      for_roles-Fits : (roles : List String) (h : Handler) → Fits K h → Fits K (for_roles s roles h)
      for_roles-Fits roles h f = record {
        fits = λ r w b. elim (guarded_or_Refused s.crypto s.jwt_secret roles h r w) [
          | inl (c, a, e) ↦
              subst (λ answer. Between K answer.1) (sym e)
                (f.fits (with_claims s.crypto s.jwt_secret c r) w b)
          | inr (q, why) ↦ subst (Between K) (sym q.untouched) b
        ];
      }

      pub guarded_routes-Fits : All (λ route. Fits K route.handler) (guarded_routes s)
      guarded_routes-Fits = (
        user order_create order_create-Fits,
        (
          user order_renew order_renew-Fits,
          (
            user order_get order_get-Fits,
            (
              dashboard-Fits,
              (
                dashboard-Fits,
                (
                  seller catalog_create catalog_create-Fits,
                  (
                    seller catalog_list catalog_list-Fits,
                    (
                      seller (panel_add s.cipher) (panel_add-Fits s.cipher),
                      (
                        seller (panel_list s.cipher) (panel_list-Fits s.cipher),
                        (for_roles-Fits admin_roles topup topup-Fits, tt),
                      ),
                    ),
                  ),
                ),
              ),
            ),
          ),
        ),
      )
        where
          user : (h : Handler) → Fits K h → Fits K (for_roles s user_roles h)
          user h f = for_roles-Fits user_roles h f

          seller : (h : Handler) → Fits K h → Fits K (for_roles s vendor_roles h)
          seller h f = for_roles-Fits vendor_roles h f
