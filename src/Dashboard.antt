-- ===== src/Dashboard.antt =====
-- internal/dashboard/handler.go: a customer's own services, orders and wallet.
pub mod Own
use x_ui_site.Prelude.{ℕ, String, Bool, not, List, [], ◌∷◌, str_eq, if◌then◌else◌}
use x_ui_site.Prelude.Int.{ℤ, pos}
use x_ui_site.Prelude.Text.{same_char, split, trim, trim_prefix, parse_id}
use x_ui_site.Db.Session.{World}
use x_ui_site.Repository.Orders
use x_ui_site.Repository.Proxies
use x_ui_site.Repository.Wallets
use x_ui_site.Storefront.{render, branch, or_value}
use x_ui_site.Middleware.Jwt.{user_id_from_ctx}
use x_ui_site.Http.{
  Request, Response, Handler, Payload, dashboard_index, dashboard_services, dashboard_service,
  dashboard_orders, dashboard_wallet, plain,
}

abbrev pub index_page : ℕ → World → Response × World
index_page user_id w =
    let (bal, w1) = Wallets.balance user_id w in
    let (svcs, w2) = Proxies.list_all_by_user user_id w1 in
    let (orders, w3) = Orders.list_by_user user_id 10 w2 in
    render 200 (dashboard_index (or_value (pos 0) bal) (or_value [] svcs) (or_value [] orders)) w3

abbrev pub services_page : ℕ → World → Response × World
services_page user_id w =
    let (svcs, w1) = Proxies.list_all_by_user user_id w in
    render 200 (dashboard_services (or_value [] svcs)) w1

abbrev pub service_page : ℕ → ℕ → World → Response × World
service_page user_id id w =
    branch (render 404 (plain "not found"))
      (λ rec. render 200 (dashboard_service rec (not (str_eq rec.subscription_url ""))))
      (Proxies.by_id_for_user id user_id w)

abbrev pub orders_page : ℕ → World → Response × World
orders_page user_id w =
    let (orders, w1) = Orders.list_by_user user_id 50 w in
    render 200 (dashboard_orders (or_value [] orders)) w1

abbrev pub wallet_page : ℕ → World → Response × World
wallet_page user_id w =
    let (bal, w1) = Wallets.balance user_id w in
    let (txs, w2) = Wallets.list_transactions user_id 20 w1 in
    render 200 (dashboard_wallet (or_value (pos 0) bal) (or_value [] txs)) w2

abbrev pub services_section : ℕ → List String → World → Response × World
services_section user_id [] w = services_page user_id w
services_section user_id (id ∷ more) w = service_page user_id (parse_id id) w

-- The page of a section, by the segments behind it.
abbrev pub section_page : ℕ → String → List String → World → Response × World
section_page user_id name rest w =
    if str_eq name "services"
    then services_section user_id rest w
    else if str_eq name "orders"
    then orders_page user_id w
    else if str_eq name "wallet"
    then wallet_page user_id w
    else render 404 (plain "404 page not found") w

abbrev pub by_segments : ℕ → List String → World → Response × World
by_segments user_id [] w = render 404 (plain "404 page not found") w
by_segments user_id (name ∷ rest) w = section_page user_id name rest w

-- Handler.Router
unfoldable pub router : Handler
router r w =
    let p = trim (same_char "/") (trim_prefix "/dashboard" r.path) in
    let user_id = user_id_from_ctx r.context in
    if str_eq p "" then index_page user_id w else by_segments user_id (split "/" p) w
