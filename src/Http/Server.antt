-- ===== src/Http/Server.antt =====
-- internal/http/server.go: the routes, and what stands before them. The static files and the event
-- stream are parameters; a handler that panics is not modelled, so `recovery` does nothing.
pub mod Routing
pub mod Money
use Prim.Native.String
use x_ui_site.Prelude.{
  ℕ, String, Bool, true, false, ◌&&◌, Option, none, some, List, [], ◌∷◌, ◌++◌, find, str_eq,
  if◌then◌else◌,
}
use x_ui_site.Prelude.Text.{strip_prefix, same_char}
use x_ui_site.Db.Session.{World}
use x_ui_site.Repository.Panels.{TokenCipher}
use x_ui_site.Security.{Crypto}
use x_ui_site.Middleware.RateLimit.{RateLimiter, Buckets, allow}
use x_ui_site.Middleware.Jwt.{jwt, require_role, chain, security_headers}
use x_ui_site.Http.{Request, Response, Handler, plain, redirect}
use x_ui_site.Http.Audit.{real_ip}
use x_ui_site.Http.Api.{register_route, login_route, vendor_create, vendor_list, wallet_balance}
use x_ui_site.Http.Orders.{order_create, order_renew, order_get}
use x_ui_site.Http.Proxies.{provision_route, suspend_route, resume_route}
use x_ui_site.Http.Proxies
use x_ui_site.Http.Management.{
  catalog_create, catalog_list, panel_add, panel_list, topup, health_route,
}
use x_ui_site.Storefront
use x_ui_site.Dashboard

-- A pattern of the mux with its handler.
pub record Route : Type 0 where
  pub pattern : String
  pub handler : Handler

abbrev pub ends_in_slash : String → Bool
ends_in_slash String.[] = false
ends_in_slash (String.◌∷◌ c String.[]) = same_char c "/"
ends_in_slash (String.◌∷◌ c (String.◌∷◌ d s)) = ends_in_slash (String.◌∷◌ d s)

abbrev pub begins_with : String → String → Bool
begins_with p s = elim (strip_prefix p s) [ none ↦ false | some rest ↦ true ]

abbrev pub is_exact : String → Route → Bool
is_exact path route = str_eq route.pattern path

-- A subtree that the path lies in. No pattern of the server's lies in another's subtree.
abbrev pub is_above : String → Route → Bool
is_above path route = ends_in_slash route.pattern && begins_with route.pattern path

abbrev pub not_found : Response
not_found = record { code = 404; headers = []; payload = plain "404 page not found" }

abbrev pub moved : String → Response
moved path = record { code = 301; headers = ("Location", path) ∷ []; payload = redirect path }

abbrev pub below : Option Route → Handler
below none r w = (not_found, w)
below (some route) r w = route.handler r w

abbrev pub slashed : List Route → Option Route → Handler
slashed routes none r w = below (find (is_above r.path) routes) r w
slashed routes (some route) r w = (moved (String.◌++◌ r.path "/"), w)

abbrev pub exactly : List Route → Option Route → Handler
exactly routes none r w = slashed routes (find (is_exact (String.◌++◌ r.path "/")) routes) r w
exactly routes (some route) r w = route.handler r w

-- ServeMux: the pattern itself, the pattern with a slash behind the path, a subtree, or 404.
unfoldable pub mux : List Route → Handler
mux routes r w = exactly routes (find (is_exact r.path) routes) r w

-- What New is given, and the parts that are not modelled.
pub record Setup : Type 0 where
  pub crypto : Crypto
  pub cipher : TokenCipher
  pub jwt_secret : String
  pub redis : String
  pub minio : String
  pub pinged : Bool
  pub reachable : String → Bool
  pub assets : Handler
  pub events : Handler

abbrev pub user_roles : List String
user_roles = "user" ∷ "vendor" ∷ "admin" ∷ []

abbrev pub vendor_roles : List String
vendor_roles = "vendor" ∷ "admin" ∷ []

abbrev pub admin_roles : List String
admin_roles = "admin" ∷ []

module _ (s : Setup) where
  -- middleware.Chain(h, jwtMW, …)
  abbrev pub for_roles : List String → Handler → Handler
  for_roles roles h = chain h (jwt s.crypto s.jwt_secret ∷ require_role roles ∷ [])

  abbrev route : String → Handler → Route
  route pattern handler = record { pattern = pattern; handler = handler }

  -- The routes that are open to everyone, in groups of their handlers.
  abbrev pub open_routes : List Route
  open_routes =
      route "/assets/" s.assets
      ∷ route "/store" (Storefront.router s.crypto s.jwt_secret)
      ∷ route "/store/" (Storefront.router s.crypto s.jwt_secret)
      ∷ route "/health" (health_route s.pinged s.reachable s.redis s.minio)
      ∷ route "/api/v1/auth/register" (register_route s.crypto s.jwt_secret)
      ∷ route "/api/v1/auth/login" (login_route s.crypto s.jwt_secret)
      ∷ route "/api/v1/vendor/create" vendor_create
      ∷ route "/api/v1/vendor/list" vendor_list
      ∷ route "/api/v1/wallet/balance" wallet_balance
      ∷ route "/api/v1/service/provision" (provision_route s.cipher)
      ∷ route "/api/v1/service/get" Proxies.get
      ∷ route "/api/v1/service/list" Proxies.list
      ∷ route "/api/v1/service/suspend" suspend_route
      ∷ route "/api/v1/service/resume" resume_route
      ∷ route "/api/v1/events" s.events
      ∷ []

  -- The routes behind a token.
  abbrev pub guarded_routes : List Route
  guarded_routes =
      route "/api/v1/order/create" (for_roles user_roles order_create)
      ∷ route "/api/v1/order/renew/" (for_roles user_roles order_renew)
      ∷ route "/api/v1/order/get" (for_roles user_roles order_get)
      ∷ route "/dashboard" (for_roles user_roles Dashboard.router)
      ∷ route "/dashboard/" (for_roles user_roles Dashboard.router)
      ∷ route "/api/v1/vendor/catalog/create" (for_roles vendor_roles catalog_create)
      ∷ route "/api/v1/vendor/catalog/list" (for_roles vendor_roles catalog_list)
      ∷ route "/api/v1/vendor/panel/add" (for_roles vendor_roles (panel_add s.cipher))
      ∷ route "/api/v1/vendor/panel/list" (for_roles vendor_roles (panel_list s.cipher))
      ∷ route "/api/v1/admin/wallet/topup" (for_roles admin_roles topup)
      ∷ []

  -- The mux of New.
  abbrev pub site : Handler
  site = mux (open_routes ++ guarded_routes)

-- 120 requests in a minute
abbrev pub limiter : RateLimiter
limiter = record { limit = 120; window = 60000000000 }

abbrev pub too_many : Response
too_many = record {
  code = 429;
  headers = ("Retry-After", "60") ∷ [];
  payload = plain "{\"error\":\"rate limit exceeded\"}";
}

-- The answer of the handler, or 429 without calling it.
abbrev pub if_allowed : Bool → Response × World → Buckets → World → Response × (Buckets × World)
if_allowed true answer after w = (answer.0, (after, answer.1))
if_allowed false answer after w = (too_many, (after, w))

-- RateLimiter.Middleware with the buckets beside the world.
unfoldable pub limited :
    RateLimiter → Handler → Request → Buckets × World → Response × (Buckets × World)
limited rl next r (buckets, w) =
    let (answer, after) = allow rl (real_ip r) w.now buckets in if_allowed answer (next r w) after w

-- What the server does with a request. The headers that SecureHeaders sets stand on every answer.
unfoldable pub handle : Setup → Request → Buckets × World → Response × (Buckets × World)
handle s r (buckets, w) =
    let (response, after) = limited limiter (site s) r (buckets, w) in
    (record response { headers = security_headers ++ response.headers }, after)
