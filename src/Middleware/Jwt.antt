-- ===== src/Middleware/Jwt.antt =====
-- internal/middleware/jwt.go and rbac.go with internal/rbac: who may reach a handler.
pub mod Guard
pub mod Tokens
use x_ui_site.Prelude.{
  ℕ, String, Bool, true, false, not, Option, none, some, List, [], ◌∷◌, ◌++◌, any, str_eq,
  if◌then◌else◌,
}
use x_ui_site.Prelude.Text.{split, strip_prefix, trim, is_space}
use x_ui_site.Db.Errors.{Result, ok, err, new}
use x_ui_site.Db.Session.{World}
use x_ui_site.Security.{Crypto, Claims, signed_parts}
use x_ui_site.Http.{Request, Response, Handler, Context, write_json, refusal, plain}

-- extractBearer, and ExtractToken, which only calls it
abbrev pub extract_bearer : Request → String
extract_bearer r = elim (strip_prefix "Bearer " (r.header "Authorization")) [
  | none ↦ ""
  | some token ↦ token
]

-- jsonError
abbrev pub json_error : ℕ → String → Response
json_error code msg = write_json code (refusal msg)

-- UserIDFromCtx, RoleFromCtx and VendorIDFromCtx: the zero value where nothing was set
abbrev or_zero : Option ℕ → ℕ
or_zero none = 0
or_zero (some n) = n

abbrev or_empty : Option String → String
or_empty none = ""
or_empty (some s) = s

abbrev pub user_id_from_ctx : Context → ℕ
user_id_from_ctx c = or_zero c.user_id

abbrev pub role_from_ctx : Context → String
role_from_ctx c = or_empty c.role

abbrev pub vendor_id_from_ctx : Context → ℕ
vendor_id_from_ctx c = or_zero c.vendor_id

module _ (k : Crypto) (secret : String) where
  abbrev pub decoded : Option (List ℕ) → Option Claims
  decoded none = none
  decoded (some payload) = k.unmarshal payload

  abbrev pub claims_in : List String → Option Claims
  claims_in [] = none
  claims_in (a ∷ []) = none
  claims_in (a ∷ b ∷ rest) = decoded (k.decode_url b)

  abbrev pub if_signed : Bool → Option Claims → Option Claims
  if_signed true c = c
  if_signed false c = none

  -- parseJWT with verifyHMAC, and ParseToken, which only calls it
  unfoldable pub parse_jwt : String → Option Claims
  parse_jwt token =
      let parts = split "." token in if_signed (signed_parts k secret parts) (claims_in parts)

  -- r.WithContext(ctx) with the claims
  abbrev pub with_claims : Claims → Request → Request
  with_claims c r = record r {
    context = record { user_id = some c.sub; role = some c.role; vendor_id = some c.vendor_id };
  }

  abbrev pub admitted : Handler → Option Claims → Handler
  admitted next none r w = (json_error 401 "invalid token", w)
  admitted next (some c) r w = next (with_claims c r) w

  abbrev pub by_token : Handler → String → Handler
  by_token next token r w =
      if str_eq token ""
      then (json_error 401 "missing token", w)
      else admitted next (parse_jwt token) r w

  -- JWT
  unfoldable pub jwt : Handler → Handler
  jwt next r w = by_token next (extract_bearer r) r w

-- RequireRole
unfoldable pub require_role : List String → Handler → Handler
require_role roles next r w =
    if any (str_eq (role_from_ctx r.context)) roles
    then next r w
    else (json_error 403 "forbidden", w)

-- Chain: the middleware listed first runs first.
unfoldable pub chain : Handler → List (Handler → Handler) → Handler
chain h [] = h
chain h (m ∷ ms) = m (chain h ms)

abbrev pub with_headers : List (String × String) → Response × World → Response × World
with_headers hs (p, w) = (record p { headers = hs ++ p.headers }, w)

abbrev pub security_headers : List (String × String)
security_headers =
    ("X-Content-Type-Options", "nosniff")
    ∷ ("X-Frame-Options", "DENY")
    ∷ ("X-XSS-Protection", "1; mode=block")
    ∷ ("Referrer-Policy", "strict-origin-when-cross-origin")
    ∷ ("Content-Security-Policy", "default-src 'self'")
    ∷ []

-- SecureHeaders
unfoldable pub secure_headers : Handler → Handler
secure_headers next r w = with_headers security_headers (next r w)

-- rbac.Enforce
unfoldable pub enforce : String → List String → Result (Unit {0})
enforce role allowed = if any (str_eq role) allowed then ok tt else err (new "forbidden")

abbrev enforced : Handler → Result (Unit {0}) → Handler
enforced next (ok u) r w = next r w
enforced next (err e) r w = (record { code = 403; headers = []; payload = plain "forbidden" }, w)

-- RBAC
unfoldable pub rbac : List String → Handler → Handler
unfolding enforce
rbac roles next r w = enforced next (enforce (trim is_space (r.header "X-Role")) roles) r w
