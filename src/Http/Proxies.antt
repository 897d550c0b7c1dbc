-- ===== src/Http/Proxies.antt =====
-- internal/proxy/handler.go: proxy services, open to everyone.
use x_ui_site.Prelude.{ℕ, zero, suc, String, ◌||◌, Option, none, some, str_eq, ◌==◌, if◌then◌else◌}
use x_ui_site.Prelude.Int.{ℤ, pos, negsuc}
use x_ui_site.Prelude.Text.{parse_id}
use x_ui_site.Repository.Panels.{TokenCipher}
use x_ui_site.Repository.Proxies
use x_ui_site.Proxy.{suspend, resume}
use x_ui_site.Proxy.Provision.{ProvisionRequest, provision_service}
use x_ui_site.Http.{
  Json, null, Handler, write_json, http_error, failed, provisioned, service, services, status,
  only_post, with_body, id_field, int_field, text_field, then_field, map_field, respond,
}

-- A *int64 field
abbrev optional_id : Json → Option (Option ℕ)
optional_id null = some none
optional_id j = map_field some (id_field j)

abbrev pub provision_body : (String → Json) → Option ProvisionRequest
provision_body j = then_field (id_field (j "vendor_id")) λ vendor_id.
    then_field (id_field (j "user_id")) λ user_id.
      then_field (optional_id (j "order_id")) λ order_id.
        then_field (text_field (j "protocol")) λ protocol.
          then_field (int_field (j "traffic_limit_gb")) λ traffic.
            map_field
              (λ days. record {
                vendor_id = vendor_id;
                user_id = user_id;
                order_id = order_id;
                protocol = protocol;
                traffic_limit_gb = traffic;
                duration_days = days;
              })
              (int_field (j "duration_days"))

abbrev or_default : ℤ → ℤ → ℤ
or_default d (pos zero) = d
or_default d (pos (suc n)) = pos (suc n)
or_default d (negsuc n) = negsuc n

-- What the handler fills in for zero values.
abbrev pub with_defaults : ProvisionRequest → ProvisionRequest
with_defaults b = record b {
  protocol = if str_eq b.protocol "" then "vless" else b.protocol;
  duration_days = or_default (pos 30) b.duration_days;
  traffic_limit_gb = or_default (pos 100) b.traffic_limit_gb;
}

module _ (cipher : TokenCipher) where
  -- provision
  unfoldable pub provision_route : Handler
  provision_route = only_post (
      with_body provision_body λ b r w.
        respond (failed 400) (λ resp. write_json 201 (provisioned resp))
          (provision_service cipher (with_defaults b) w))

-- get
unfoldable pub get : Handler
get r w =
    let vendor_id = parse_id (r.query "vendor_id") in
    let service_id = parse_id (r.query "service_id") in
    if vendor_id == 0 || service_id == 0
    then (http_error 400 "vendor_id and service_id required", w)
    else respond (λ e. http_error 404 "service not found") (λ rec. write_json 200 (service rec))
        (Proxies.by_id vendor_id service_id w)

-- list
unfoldable pub list : Handler
list r w =
    let vendor_id = parse_id (r.query "vendor_id") in
    let user_id = parse_id (r.query "user_id") in
    if vendor_id == 0 || user_id == 0
    then (http_error 400 "vendor_id and user_id required", w)
    else respond (λ e. http_error 500 "failed to list services")
        (λ recs. write_json 200 (services recs)) (Proxies.list_by_user vendor_id user_id w)

-- struct{ VendorID, ServiceID int64 }
abbrev pub service_body : (String → Json) → Option (ℕ × ℕ)
service_body j =
    then_field (id_field (j "vendor_id"))
      λ vendor_id. map_field (λ service_id. (vendor_id, service_id)) (id_field (j "service_id"))

-- suspend
unfoldable pub suspend_route : Handler
suspend_route = only_post (
    with_body service_body
      λ b r w. respond (failed 400) (λ _. write_json 200 (status "suspended")) (suspend b.0 b.1 w))

-- resume
unfoldable pub resume_route : Handler
resume_route = only_post (
    with_body service_body
      λ b r w. respond (failed 400) (λ _. write_json 200 (status "active")) (resume b.0 b.1 w))
