-- ===== src/Repository/Catalog.antt =====
-- CatalogPriceRepository of internal/repository/order_repository.go and CatalogRepository of
-- commerce_repository.go.
use x_ui_site.Prelude.{ℕ, ◌+◌, str_eq, Bool, false, not, ◌&&◌, [], ◌∷◌, ◌++◌, find, any, ◌==◌}
use x_ui_site.Prelude.Int.{ℤ, fits32}
use x_ui_site.Db.Rows.{Tables, CatalogItem, CatalogRow}
use x_ui_site.Db.Errors.{Result, foreign_key_violation, map_ok}
use x_ui_site.Db.Session.{M, Sql, exec, look}
use x_ui_site.Repository.Statements.{scan_row, checked, unless_taken, in_range, has_vendor}

-- CatalogPrice; ExpiresAt is never set.
pub record CatalogPrice : Type 0 where
  pub vendor_id : ℕ
  pub price : ℤ
  pub is_active : Bool

abbrev pub price_of : CatalogItem → CatalogPrice
price_of i = record { vendor_id = i.vendor_id; price = i.price_toman; is_active = i.is_active }

abbrev pub catalog_price : ℕ → ℕ → Tables → Result CatalogPrice
catalog_price vendor_id catalog_id t =
    map_ok (λ r. price_of r.item)
      (scan_row (
        find (λ r. r.id == catalog_id && r.item.vendor_id == vendor_id && not r.deleted)
          t.catalog_items))

-- CatalogPriceRepository.Get
unfoldable pub get : ℕ → ℕ → M CatalogPrice
get vendor_id catalog_id = look (catalog_price vendor_id catalog_id)

abbrev pub item_by_id : ℕ → Tables → Result CatalogItem
item_by_id id t =
    map_ok (λ r. r.item) (scan_row (find (λ r. r.id == id && not r.deleted) t.catalog_items))

-- CatalogRepository.GetByID
unfoldable pub get_by_id : ℕ → M CatalogItem
get_by_id id = look (item_by_id id)

-- INSERT INTO catalog_items, with UNIQUE(vendor_id, slug) and two columns of type INT
unfoldable pub insert_item : CatalogItem → Sql (Unit {0})
insert_item i s t =
    let row : CatalogRow = record { id = s.catalog_items; item = i; deleted = false } in
    (
      record s { catalog_items = s.catalog_items + 1 },
      in_range (fits32 i.traffic_limit_gb && fits32 i.duration_days) (
          unless_taken
            (any (λ r. r.item.vendor_id == i.vendor_id && str_eq r.item.slug i.slug)
              t.catalog_items)
            (checked (has_vendor i.vendor_id t) foreign_key_violation
              (tt, record t { catalog_items = t.catalog_items ++ row ∷ [] }))),
    )

-- CatalogRepository.Create
unfoldable pub create : CatalogItem → M (Unit {0})
create i = exec (insert_item i)
