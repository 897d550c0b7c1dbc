-- ===== src/Http/OrderHandler.antt =====
-- internal/order/handler.go: the handlers of orders that the server does not register.
use x_ui_site.Prelude.{String, ◌||◌, Option, ◌==◌, if◌then◌else◌}
use x_ui_site.Prelude.Text.{parse_id}
use x_ui_site.Order.{CreateRequest, create}
use x_ui_site.Repository.Orders
use x_ui_site.Http.{
  Json, Handler, write_json, http_error, failed, created, order, only_post, with_body, id_field,
  then_field, respond,
}
use x_ui_site.Http.Orders.{create_body, created_code}

-- The body of Handler.create names the customer itself.
abbrev full_body : (String → Json) → Option CreateRequest
full_body j = then_field (id_field (j "user_id")) λ user_id. create_body user_id j

-- Handler.create
pub create_order : Handler
create_order = only_post (
    with_body full_body λ req r w.
      respond (failed 400) (λ resp. write_json (created_code resp) (created resp)) (create req w))

-- Handler.get
pub get : Handler
get r w =
    let vendor_id = parse_id (r.query "vendor_id") in
    let order_id = parse_id (r.query "order_id") in
    if vendor_id == 0 || order_id == 0
    then (http_error 400 "vendor_id and order_id required", w)
    else respond (λ e. http_error 404 "order not found") (λ o. write_json 200 (order o))
        (Orders.by_id vendor_id order_id w)
