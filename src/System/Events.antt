-- ===== src/System/Events.antt =====
-- Every event keeps what rests on the orders and their keys, if orders and renewals do.
use x_ui_site.Prelude.{ℕ, ◌≡◌, Bool, true, false, List, [], ◌∷◌, ◌++◌, All-append, All-map}
use x_ui_site.Db.Rows.{Tables}
use x_ui_site.Db.Errors.{ok}
use x_ui_site.Db.Session.{World}
use x_ui_site.Repository.Catalog.{CatalogPrice, catalog_price}
use x_ui_site.Order.{CreateRequest}
use x_ui_site.Order.Effect.{Placed}
use x_ui_site.Order.Extension.{Renewal}
use x_ui_site.Order.History.{Between}
use x_ui_site.Middleware.RateLimit.{Buckets, allow}
use x_ui_site.Http.{Request, Response}
use x_ui_site.Http.Audit.{real_ip}
use x_ui_site.Http.Server.{
  Setup, handle, limited, limiter, site, open_routes, guarded_routes, if_allowed,
}
use x_ui_site.Http.Server.Routing.{mux-Has}
use x_ui_site.Http.Server.Money.{IsStill}
use x_ui_site.System.{
  Activity, requested, job_tick, expiry_tick, cleanup_tick, Event, act, meet, live,
}
use x_ui_site.System.Between.{Fits}
use x_ui_site.System.Services.{sold}
use x_ui_site.System.Background.{tick-Between, run_expiry_job-Between}
use x_ui_site.System.Routes.{open_routes-Fits}
use x_ui_site.System.Guarded.{guarded_routes-Fits}

module _ (K : Tables → Type 0) (stable : (t t' : Tables) → sold t' ≡ sold t → K t → K t')
    (by_order : (req : CreateRequest) (item : CatalogPrice) (id : ℕ) (t t' : Tables)
      → catalog_price req.vendor_id req.catalog_id t ≡ ok item
      → Placed req item.price id t t'
      → K t
      → K t')
    (by_renewal : (user service now id : ℕ) (t t' : Tables)
      → Renewal user service now id t t'
      → K t
      → K t')
    (s : Setup) (assets_still : IsStill s.assets) (events_still : IsStill s.events) where
  abbrev Keeping : Request → World → Response × World → Type 0
  Keeping r w answer = Between K w → Between K answer.1

  site-Fits : Fits K (site s)
  site-Fits = record {
    fits = λ r w.
        mux-Has Keeping (λ r w answer b. b) (open_routes s ++ guarded_routes s) r w
          (All-map {P = λ route. Fits K route.handler}
            {Q = λ route. Keeping r w (route.handler r w)} (open_routes s ++ guarded_routes s)
            (λ route f. f.fits r w)
            (All-append (λ route. Fits K route.handler) (open_routes s) (guarded_routes s)
              (open_routes-Fits K stable s assets_still events_still)
              (guarded_routes-Fits K stable by_order by_renewal s)));
  }

  after_limit :
      (answer : Bool) (b : Buckets) (w : World) (x : Response × World)
      → Between K w
      → Between K x.1
      → Between K (if_allowed answer x b w).1.1
  after_limit true b w x before after = after
  after_limit false b w x before after = before

  handle-Between :
      (r : Request) (b : Buckets) (w : World) → Between K w → Between K (handle s r (b, w)).1.1
  unfolding handle limited
  handle-Between r b w h =
      after_limit (allow limiter (real_ip r) w.now b).0 (allow limiter (real_ip r) w.now b).1 w
        (site s r w) h (site-Fits.fits r w h)

  act-Between :
      (a : Activity) (b : Buckets) (w : World) → Between K w → Between K (act s a (b, w)).1
  act-Between (requested r) b w h = handle-Between r b w h
  act-Between job_tick b w h = tick-Between K stable s.cipher w h
  act-Between expiry_tick b w h = run_expiry_job-Between K stable w h
  act-Between cleanup_tick b w h = h

  pub live-Between :
      (es : List Event) (b : Buckets) (w : World) → Between K w → Between K (live s es (b, w)).1
  unfolding live
  live-Between [] b w h = h
  live-Between (e ∷ es) b w h =
      let m : Between K (meet e w) = record { closed = h.closed; rows = h.rows } in
      live-Between es _ _ (act-Between e.activity b (meet e w) m)
