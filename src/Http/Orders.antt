-- ===== src/Http/Orders.antt =====
-- The routes of internal/http/server.go for orders.
pub mod Outcome
pub mod Own
pub mod Renewal
use x_ui_site.Prelude.{
  ℕ, String, Bool, true, false, not, ◌&&◌, ◌||◌, Option, str_eq, ◌==◌, if◌then◌else◌,
}
use x_ui_site.Prelude.Text.{trim_prefix, parse_id}
use x_ui_site.Db.Rows.{Order}
use x_ui_site.Db.Errors.{Result, ok, err}
use x_ui_site.Db.Session.{World}
use x_ui_site.Order.{CreateRequest, CreateResponse, create, renew}
use x_ui_site.Repository.Orders
use x_ui_site.Http.{
  Json, Request, Response, Handler, write_json, http_error, failed, created, order, only_post,
  with_body, id_field, text_field, then_field, map_field, respond,
}
use x_ui_site.Http.Audit.{from_request, log}
use x_ui_site.Middleware.Jwt.{user_id_from_ctx, role_from_ctx}

-- The body of /order/create: the customer is the subject of the token.
abbrev pub create_body : ℕ → (String → Json) → Option CreateRequest
create_body user_id j = then_field (id_field (j "vendor_id")) λ vendor_id.
    then_field (id_field (j "catalog_id")) λ catalog_id.
      map_field
        (λ key. record {
          vendor_id = vendor_id;
          user_id = user_id;
          catalog_id = catalog_id;
          idempotency_key = key;
        })
        (text_field (j "idempotency_key"))

-- The status of an answer: 200 for an order that was there before.
abbrev pub created_code : CreateResponse → ℕ
created_code resp = if resp.duplicate then 200 else 201

-- An engine's answer, with its entry in the audit log.
abbrev pub audited :
    Request → String → (CreateResponse → ℕ) → Result CreateResponse × World → Response × World
audited r action code (ok resp, w) =
    (write_json (code resp) (created resp), log (from_request r action "order" "ok") w)
audited r action code (err e, w) = (failed 400 e, log (from_request r action "order" "error") w)

-- /api/v1/order/create
unfoldable pub order_create : Handler
order_create = only_post λ r.
    with_body (create_body (user_id_from_ctx r.context))
      (λ req r w. audited r "order.create" created_code (create req w)) r

-- /api/v1/order/renew/:serviceID
unfoldable pub order_renew : Handler
order_renew = only_post λ r w.
    let service_id = parse_id (trim_prefix "/api/v1/order/renew/" r.path) in
    if service_id == 0
    then (http_error 400 "invalid service id", w)
    else audited r "order.renew" (λ _. 201) (renew (user_id_from_ctx r.context) service_id w)

-- A user sees no order of someone else.
abbrev pub is_foreign : Request → Order → Bool
is_foreign r o =
    str_eq (role_from_ctx r.context) "user" && not (o.user_id == user_id_from_ctx r.context)

-- /api/v1/order/get
unfoldable pub order_get : Handler
order_get r w =
    respond (λ e. http_error 404 "not found")
      (λ o. if is_foreign r o then http_error 403 "forbidden" else write_json 200 (order o))
      (Orders.by_id (parse_id (r.query "vendor_id")) (parse_id (r.query "order_id")) w)
