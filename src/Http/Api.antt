-- ===== src/Http/Api.antt =====
-- internal/http/api/router.go: registration, login, vendors and balances, open to everyone.
use x_ui_site.Prelude.{String}
use x_ui_site.Prelude.Text.{parse_id}
use x_ui_site.Prelude.{ℕ, Option}
use x_ui_site.Http.{
  Json, Handler, write_json, status, token, vendors, balance, with_body, text_field, id_field,
  then_field, map_field, respond, failed, http_error,
}
use x_ui_site.Security.{Crypto}
use x_ui_site.Auth.{register, login}
use x_ui_site.Repository.Users
use x_ui_site.Repository.Wallets

-- struct{ Email, Password string }
pub record Credentials : Type 0 where
  pub email : String
  pub password : String

abbrev pub credentials : (String → Json) → Option Credentials
credentials j = then_field (text_field (j "email")) λ email.
    map_field (λ password. record { email = email; password = password })
      (text_field (j "password"))

-- The body of vendorCreate.
pub record NewVendor : Type 0 where
  pub owner_id : ℕ
  pub name : String
  pub slug : String

abbrev pub new_vendor : (String → Json) → Option NewVendor
new_vendor j = then_field (id_field (j "owner_id")) λ owner_id.
    then_field (text_field (j "name")) λ name.
      map_field (λ slug. record { owner_id = owner_id; name = name; slug = slug })
        (text_field (j "slug"))

module _ (k : Crypto) (secret : String) where
  -- register
  unfoldable pub register_route : Handler
  register_route = with_body credentials λ b r w.
      respond (failed 400) (λ _. write_json 201 (status "registered"))
        (register k b.email b.password w)

  abbrev pub login_with : Credentials → Handler
  login_with b r w =
      respond (λ e. http_error 401 "unauthorized") (λ t. write_json 200 (token t))
        (login k secret b.email b.password w)

  -- login
  unfoldable pub login_route : Handler
  login_route = with_body credentials login_with

-- vendorCreate
unfoldable pub vendor_create : Handler
vendor_create = with_body new_vendor λ b r w.
    respond (failed 400) (λ _. write_json 201 (status "created"))
      (Users.create_vendor b.owner_id b.name b.slug w)

-- vendorList
unfoldable pub vendor_list : Handler
vendor_list r w =
    respond (failed 400) (λ rows. write_json 200 (vendors rows))
      (Users.list_by_owner (parse_id (r.query "owner_id")) w)

-- walletBalance
unfoldable pub wallet_balance : Handler
wallet_balance r w =
    respond (λ e. http_error 404 "wallet not found") (λ b. write_json 200 (balance b))
      (Wallets.balance (parse_id (r.query "user_id")) w)
