-- ===== src/Http/Management.antt =====
-- The routes of internal/http/server.go for vendors and administrators: catalog, panels, top-up, and
-- the health of the server.
pub mod TopUp
use x_ui_site.Prelude.{
  ℕ, String, Bool, true, false, not, ◌&&◌, Option, select, str_eq, ◌==◌, if◌then◌else◌,
}
use x_ui_site.Prelude.Int.{ℤ}
use x_ui_site.Prelude.Text.{parse_id}
use x_ui_site.Db.Rows.{CatalogItem, Panel}
use x_ui_site.Db.Errors.{Result, ok, err}
use x_ui_site.Db.Session.{World, look}
use x_ui_site.Repository.Catalog
use x_ui_site.Repository.Panels
use x_ui_site.Repository.Panels.{TokenCipher}
use x_ui_site.Repository.Wallets
use x_ui_site.Http.{
  Json, Request, Response, Handler, write_json, failed, status, catalog, panels, panel_created,
  health, only_post, with_body, id_field, int_field, text_field, bool_field, then_field, map_field,
  respond,
}
use x_ui_site.Http.Audit.{from_request, log}

-- A call whose success alone is entered in the audit log.
abbrev pub logged :
    {A : Type 0} → Request → String → String → (A → Response) → Result A × World → Response × World
logged r action resource answer (ok a, w) = (answer a, log (from_request r action resource "ok") w)
logged r action resource answer (err e, w) = (failed 400 e, w)

abbrev pub item_body : (String → Json) → Option CatalogItem
item_body j = then_field (id_field (j "vendor_id")) λ vendor_id.
    then_field (text_field (j "slug")) λ slug. then_field (text_field (j "title")) λ title.
      then_field (text_field (j "description")) λ description.
        then_field (text_field (j "protocol")) λ protocol.
          then_field (id_field (j "inbound_id")) λ inbound_id.
            then_field (id_field (j "xui_node_id")) λ xui_node_id.
              then_field (int_field (j "traffic_limit_gb")) λ traffic.
                then_field (int_field (j "duration_days")) λ days.
                  then_field (int_field (j "price_toman")) λ price.
                    then_field (bool_field (j "is_active")) λ is_active.
                      then_field (bool_field (j "auto_provision")) λ auto_provision.
                        then_field (bool_field (j "renewal_enabled")) λ renewal_enabled.
                          then_field (text_field (j "country_code")) λ country.
                            map_field
                              (λ stock. record {
                                vendor_id = vendor_id;
                                slug = slug;
                                title = title;
                                description = description;
                                protocol = protocol;
                                inbound_id = inbound_id;
                                xui_node_id = xui_node_id;
                                traffic_limit_gb = traffic;
                                duration_days = days;
                                price_toman = price;
                                is_active = is_active;
                                auto_provision = auto_provision;
                                renewal_enabled = renewal_enabled;
                                country_code = country;
                                stock_status = stock;
                              })
                              (text_field (j "stock_status"))

-- /api/v1/vendor/catalog/create
unfoldable pub catalog_create : Handler
catalog_create = only_post (
    with_body item_body λ p r w.
      logged r "catalog.create" "catalog_item" (λ _. write_json 201 (status "created"))
        (Catalog.create p w))

-- /api/v1/vendor/catalog/list. A row that does not scan would show zero values; every row of the
-- table scans.
unfoldable pub catalog_list : Handler
catalog_list r w =
    let vendor_id = parse_id (r.query "vendor_id") in
    respond (failed 400) (λ rows. write_json 200 (catalog rows))
      (look
        (λ t.
          ok (select (λ row. row.item.vendor_id == vendor_id && not row.deleted) t.catalog_items))
        w)

-- A panel is added active; its health is what the column defaults to.
abbrev pub panel_body : (String → Json) → Option Panel
panel_body j = then_field (id_field (j "vendor_id")) λ vendor_id.
    then_field (text_field (j "name")) λ name. then_field (text_field (j "url")) λ url.
      then_field (text_field (j "token")) λ token.
        map_field
          (λ inbound_id. record {
            id = 0;
            vendor_id = vendor_id;
            name = name;
            url = url;
            token = token;
            inbound_id = inbound_id;
            is_active = true;
            health = "";
          })
          (id_field (j "inbound_id"))

module _ (cipher : TokenCipher) where
  -- /api/v1/vendor/panel/add
  unfoldable pub panel_add : Handler
  panel_add = only_post (
      with_body panel_body λ p r w.
        logged r "panel.add" "xui_panel" (λ id. write_json 201 (panel_created id))
          (Panels.create cipher p w))

  -- /api/v1/vendor/panel/list
  unfoldable pub panel_list : Handler
  panel_list r w =
      respond (failed 400) (λ ps. write_json 200 (panels ps))
        (Panels.list_by_vendor cipher (parse_id (r.query "vendor_id")) w)

-- struct{ UserID, Amount int64 }
abbrev pub topup_body : (String → Json) → Option (ℕ × ℤ)
topup_body j =
    then_field (id_field (j "user_id"))
      λ user_id. map_field (λ amount. (user_id, amount)) (int_field (j "amount"))

-- /api/v1/admin/wallet/topup
unfoldable pub topup : Handler
topup = only_post (
    with_body topup_body λ b r w.
      logged r "wallet.topup" "wallet" (λ _. write_json 200 (status "ok"))
        (Wallets.apply_transaction b.0 b.1 "admin_topup" w))

-- probeTCP, where `reachable` says whether a connection can be made
abbrev probe : (String → Bool) → String → Bool
probe reachable addr = if str_eq addr "" then false else reachable addr

-- /health: what the database and the two services answer
unfoldable pub health_route : Bool → (String → Bool) → String → String → Handler
health_route pinged reachable redis minio r w =
    (write_json 200 (health pinged (probe reachable redis) (probe reachable minio)), w)
