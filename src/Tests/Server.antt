-- ===== src/Tests/Server.antt =====
-- The server before the shop.
use Prim.Native.String
use x_ui_site.Prelude.{
  ℕ, String, ◌≡◌, refl, ◌⊎◌, true, false, none, some, [], str_eq, if◌then◌else◌,
}
use x_ui_site.Prelude.Int.{pos}
use x_ui_site.Db.Errors.{ok}
use x_ui_site.Db.Rows.{Panel}
use x_ui_site.Db.Session.{World, pure, ◌>>=◌, ◌>>◌}
use x_ui_site.Repository.Panels
use x_ui_site.Security.Cipher.{token_cipher}
use x_ui_site.Security.Cipher.Panels.{create-first_active}
use x_ui_site.Db.Rules.{Runs, Unchanged}
use x_ui_site.Db.Success.{Never}
use x_ui_site.Security.{Claims, sign_jwt, validate_jwt, compare_password}
use x_ui_site.Auth.{register, login}
use x_ui_site.Auth.Login.{LoggedIn, login_outcome, login_wrong_password}
use x_ui_site.Auth.Register.{register-login}
use x_ui_site.Repository.Users.{user_by_email}
use x_ui_site.Middleware.Jwt.{parse_jwt}
use x_ui_site.Middleware.Jwt.Guard.{Unfit, guarded, Reached, Refused, Admits, guarded_or_Refused}
use x_ui_site.Middleware.Jwt.Tokens.{Signed, parse_jwt-sign_jwt, parse_jwt_sound}
use x_ui_site.Storefront.Slug.{all_words, valid_slug_iff_words}
use x_ui_site.Storefront.{valid_slug, router}
use x_ui_site.Storefront.Reads.{Reads}
use x_ui_site.Storefront.Pages.{Shown, store_shows_offers}
use x_ui_site.Dashboard
use x_ui_site.Dashboard.Own.{Mine, dashboard_own}
use x_ui_site.Http.{Request, Json, text, num, null, no_context, write_json, token, plain}
use x_ui_site.Http.Api.{login_route}
use x_ui_site.Http.Orders.{order_create, order_get}
use x_ui_site.Http.Orders.Outcome.{Settled, order_create-Settled}
use x_ui_site.Http.Orders.Own.{Permitted, order_get_own}
use x_ui_site.Http.Frame.{protected}
use x_ui_site.Http.Server.{Setup, handle, user_roles}
use x_ui_site.Http.Server.Money.{handle_protects}
use x_ui_site.Prelude.Text.{split}
use x_ui_site.Tests.{world, shop, panel, plain as plain_tokens}
use x_ui_site.Tests.Utf8.{toy_libraries, toy_aes, toy-Promises}
use x_ui_site.Tests.Toys.{toy, toy-Lawful, decode_from}

parse_jwt-sign_jwt_example :
    parse_jwt toy "s" (sign_jwt toy "s" 1 "user" 1000)
    ≡ some (record { sub = 1; role = "user"; vendor_id = 0 })
parse_jwt-sign_jwt_example = parse_jwt-sign_jwt toy "s" toy-Lawful 1 "user" 1000 refl

abbrev customer : Claims
customer = record { sub = 1; role = "user"; vendor_id = 0 }

parse_jwt_sound_example :
    Signed toy "s" (sign_jwt toy "s" 1 "user" 1000) customer
    × (validate_jwt toy "s" (sign_jwt toy "s" 1 "user" 1000) ≡ true)
parse_jwt_sound_example =
    parse_jwt_sound toy "s" (sign_jwt toy "s" 1 "user" 1000) customer
      (parse_jwt-sign_jwt toy "s" toy-Lawful 1 "user" 1000 refl)

-- A POST with the customer's token, for an order of the item 7 at the vendor 1.
abbrev members : String → Json
members name =
    if str_eq name "vendor_id"
    then num (pos 1)
    else if str_eq name "catalog_id"
    then num (pos 7)
    else if str_eq name "idempotency_key"
    then text "k"
    else if str_eq name "email"
    then text "a@b"
    else if str_eq name "password"
    then text "wrong"
    else if str_eq name "user_id"
    then num (pos 1)
    else if str_eq name "amount"
    then num (pos 50)
    else null

abbrev post_as : String → String → Request
post_as role path = record {
  method = "POST";
  path = path;
  query = λ name. "1";
  header = λ name.
      if str_eq name "Authorization"
      then String.◌++◌ "Bearer " (sign_jwt toy "s" 1 role 1000)
      else "";
  body = some members;
  remote_addr = "10.0.0.1:4000";
  context = no_context;
}

abbrev pub post_to : String → Request
post_to path = post_as "user" path

abbrev pub admin_post : String → Request
admin_post path = post_as "admin" path

guarded_or_Refused_example :
    Reached toy "s" user_roles order_create
      (post_to "/api/v1/order/create")
      world
      (guarded toy "s" user_roles order_create (post_to "/api/v1/order/create") world)
    ⊎ (Refused toy "s" user_roles world
          (guarded toy "s" user_roles order_create (post_to "/api/v1/order/create") world)
        × Unfit toy "s" user_roles
            (post_to "/api/v1/order/create")
            (guarded toy "s" user_roles order_create (post_to "/api/v1/order/create") world).0)
guarded_or_Refused_example =
    guarded_or_Refused toy "s" user_roles order_create (post_to "/api/v1/order/create") world

order_create-Settled_example :
    Settled toy "s" user_roles
      (post_to "/api/v1/order/create")
      world
      (guarded toy "s" user_roles order_create (post_to "/api/v1/order/create") world)
order_create-Settled_example =
    order_create-Settled toy "s" user_roles (post_to "/api/v1/order/create") world refl

order_get_own_example :
    Permitted toy "s" user_roles
      (post_to "/api/v1/order/get")
      world
      refl
      (guarded toy "s" user_roles order_get (post_to "/api/v1/order/get") world)
order_get_own_example = order_get_own toy "s" user_roles (post_to "/api/v1/order/get") world refl

abbrev pub setup : Setup
setup = record {
  crypto = toy;
  cipher = plain_tokens;
  jwt_secret = "s";
  redis = "redis:6379";
  minio = "";
  pinged = true;
  reachable = λ addr. true;
  assets = λ r w. (record { code = 404; headers = []; payload = plain "404 page not found" }, w);
  events = λ r w. (record { code = 200; headers = []; payload = plain "" }, w);
}

handle_protects_example :
    (protected (handle setup (post_to "/api/v1/order/create") ((λ key. none), world)).1.1.tables
      ≡ protected world.tables)
    ⊎ ((c : Claims) × Admits toy "s" user_roles (post_to "/api/v1/order/create") c)
handle_protects_example =
    handle_protects setup (record { still = λ r w. refl }) (record { still = λ r w. refl })
      (post_to "/api/v1/order/create") (λ key. none) world refl

store_shows_offers_example :
    Reads
      (Shown world.tables)
      world
      (router toy "s" (post_to "/store/v/products/basic/checkout") world)
store_shows_offers_example =
    store_shows_offers toy "s" (post_to "/store/v/products/basic/checkout") world refl

valid_slug_iff_words_example : valid_slug "a-b1" ≡ all_words (split "-" "a-b1")
valid_slug_iff_words_example = valid_slug_iff_words "a-b1"

dashboard_own_example :
    Refused toy "s" user_roles world
      (guarded toy "s" user_roles Dashboard.router (post_to "/dashboard/wallet") world)
    ⊎ ((c : Claims) × Admits toy "s" user_roles (post_to "/dashboard/wallet") c
        × Reads
            (Mine c.sub)
            world
            (guarded toy "s" user_roles Dashboard.router (post_to "/dashboard/wallet") world))
dashboard_own_example = dashboard_own toy "s" user_roles (post_to "/dashboard/wallet") world refl

login_outcome_example :
    Runs world
      (login toy "s" "a@b" "pw")
      (λ t x. Unchanged world x × LoggedIn toy "s" "a@b" "pw" world.tables world.now t)
      (Unchanged world)
login_outcome_example = login_outcome toy "s" "a@b" "pw" world refl

login_wrong_password_example :
    ((login_route toy "s" (post_to "/api/v1/auth/login") world).0 ≡ write_json 200 (token ""))
    × (parse_jwt toy "s" "" ≡ none)
unfolding compare_password decode_from
login_wrong_password_example =
    login_wrong_password toy "s" (post_to "/api/v1/auth/login")
      (record { email = "a@b"; password = "wrong" })
      (record { id = 1; email = "a@b"; password_hash = "h"; role = "user"; deleted = false }) world
      refl refl refl refl refl

register-login_example :
    Runs world
      (do register toy "n@b" "pw"; login toy "s" "n@b" "pw")
      (λ t x.
        (u : _) × (user_by_email "n@b" x.tables ≡ ok u)
        × (parse_jwt toy "s" t ≡ some (record { sub = u.id; role = "user"; vendor_id = 0 })))
      Never
register-login_example = register-login toy "n@b" "p" "w" world refl refl refl toy-Lawful "s" refl

-- 16 zeros and the number of the 18 bytes of salt and password, in unary.
abbrev hashed : String
hashed = "bbbbbbbbbbbbbbbb.aaaaaaaaaaaaaaaaaab"

abbrev new_panel : Panel
new_panel = record panel { token = "tök"; vendor_id = 1 }

abbrev panelless : World
panelless = record world { tables = record shop { xui_panels = [] } }

create-first_active_example :
    Runs {A = ℕ × Panel} panelless
      (do
        id ← Panels.create (token_cipher toy_libraries toy_aes "key") new_panel
        q ← Panels.first_active (token_cipher toy_libraries toy_aes "key") 1
        pure (id, q))
      (λ r x. r.1 ≡ record new_panel { id = r.0; health = "unknown" })
      Never
create-first_active_example =
    create-first_active toy_libraries toy_aes toy-Promises "key" panelless refl refl new_panel refl
      refl refl
