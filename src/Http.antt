-- ===== src/Http.antt =====
-- net/http and encoding/json as the handlers use them: requests, responses, and the fields of a
-- decoded body.
pub mod Api
pub mod Frame
pub mod Leaves
pub mod Audit
pub mod Orders
pub mod OrderHandler
pub mod Proxies
pub mod Management
pub mod Server
use x_ui_site.Prelude.{
  ℕ, zero, suc, ◌-◌, String, Bool, true, false, not, ◌&&◌, Option, none, some, List, [], ◌∷◌,
  str_eq, ltb, if◌then◌else◌,
}
use x_ui_site.Prelude.Int.{ℤ, pos, fits64}
use x_ui_site.Prelude.Text.{id_of}
use x_ui_site.Db.Rows.{Order, ProxyService, Panel, WalletTx, VendorRow, CatalogRow}
use x_ui_site.Db.Errors.{Error, Result, ok, err}
use x_ui_site.Db.Session.{World, M}
use x_ui_site.Order.{CreateResponse}
use x_ui_site.Proxy.Provision.{ProvisionResponse}

-- A member of a JSON object; `other` is an array, an object, or a number that no int64 holds.
pub data Json : Type 0 where
  null other : Json
  bool : Bool → Json
  num : ℤ → Json
  text : String → Json

-- The values that JWT puts into the context of a request.
pub record Context : Type 0 where
  pub user_id : Option ℕ
  pub role : Option String
  pub vendor_id : Option ℕ

-- `query` and `header` answer "" where nothing is given; the path is one that the mux does not
-- clean. `body` is `none` if it is neither a JSON object nor null, and
-- answers `null` for an absent member.
pub record Request : Type 0 where
  pub method : String
  pub path : String
  pub query : String → String
  pub header : String → String
  pub body : Option (String → Json)
  pub remote_addr : String
  pub context : Context

-- What is written into a response: a JSON value, a page with the rows it shows, or a text.
pub data Payload : Type 0 where
  -- {"error": err.Error()} and {"error": msg}
  failure : Error → Payload
  refusal : String → Payload
  -- {"status": …} and {"token": …}
  status token : String → Payload
  balance : ℤ → Payload
  created : CreateResponse → Payload
  provisioned : ProvisionResponse → Payload
  panel_created : ℕ → Payload
  order : Order → Payload
  service : ProxyService → Payload
  services : List ProxyService → Payload
  vendors : List VendorRow → Payload
  catalog : List CatalogRow → Payload
  panels : List Panel → Payload
  health : Bool → Bool → Bool → Payload
  -- the templates of the store, by name
  store_index : Payload
  not_found : String → Payload
  vendor : VendorRow → List CatalogRow → Payload
  product checkout_login : VendorRow → CatalogRow → Payload
  checkout : VendorRow → CatalogRow → ℤ → Bool → Payload
  purchase_success purchase_failed : VendorRow → Payload
  -- the templates of the dashboard, by name; a service with its QR code, if it has one
  dashboard_index : ℤ → List ProxyService → List Order → Payload
  dashboard_services : List ProxyService → Payload
  dashboard_service : ProxyService → Bool → Payload
  dashboard_orders : List Order → Payload
  dashboard_wallet : ℤ → List WalletTx → Payload
  -- http.Error, http.NotFound, http.Redirect
  plain redirect : String → Payload

pub record Response : Type 0 where
  pub code : ℕ
  pub headers : List (String × String)
  pub payload : Payload

abbrev pub Handler : Type 0
Handler = Request → World → Response × World

-- writeJSON of internal/http/server.go; write of internal/http/api/router.go and writeJSON of the
-- other handlers are the same.
abbrev pub write_json : ℕ → Payload → Response
write_json code p = record {
  code = code;
  headers = ("Content-Type", "application/json") ∷ [];
  payload = p;
}

-- httpError
abbrev pub http_error : ℕ → String → Response
http_error code msg = write_json code (refusal msg)

-- r.Method == http.MethodPost
abbrev pub is_post : Request → Bool
is_post r = str_eq r.method "POST"

-- A handler that refuses all methods but POST.
abbrev pub only_post : Handler → Handler
only_post h r w = if is_post r then h r w else (http_error 405 "method not allowed", w)

-- A member decoded into a field: an absent one leaves the zero value.
abbrev pub int_field : Json → Option ℤ
int_field null = some (pos 0)
int_field other = none
int_field (bool b) = none
int_field (num n) = if fits64 n then some n else none
int_field (text s) = none

abbrev pub text_field : Json → Option String
text_field null = some ""
text_field other = none
text_field (bool b) = none
text_field (num n) = none
text_field (text s) = some s

abbrev pub bool_field : Json → Option Bool
bool_field null = some false
bool_field other = none
bool_field (bool b) = some b
bool_field (num n) = none
bool_field (text s) = none

abbrev pub then_field : {A B : Type 0} → Option A → (A → Option B) → Option B
then_field none f = none
then_field (some a) f = f a

abbrev pub map_field : {A B : Type 0} → (A → B) → Option A → Option B
map_field f none = none
map_field f (some a) = some (f a)

abbrev pub id_field : Json → Option ℕ
id_field j = map_field id_of (int_field j)

abbrev pub by_body : {A : Type 0} → (A → Handler) → Option A → Handler
by_body h none r w = (http_error 400 "bad request", w)
by_body h (some a) r w = h a r w

-- json.NewDecoder(r.Body).Decode(&body): the answer is 400 where it fails.
abbrev pub with_body : {A : Type 0} → ((String → Json) → Option A) → (A → Handler) → Handler
with_body decode h r w = by_body h (then_field r.body decode) r w

-- A call, and the response to each of its results.
abbrev pub respond :
    {A : Type 0} → (Error → Response) → (A → Response) → Result A × World → Response × World
respond on_err on_ok (ok a, w) = (on_ok a, w)
respond on_err on_ok (err e, w) = (on_err e, w)

-- httpError(w, code, err.Error())
abbrev pub failed : ℕ → Error → Response
failed code e = write_json code (failure e)

abbrev pub no_context : Context
no_context = record { user_id = none; role = none; vendor_id = none }
