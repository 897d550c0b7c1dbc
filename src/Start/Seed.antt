-- ===== src/Start/Seed.antt =====
-- SeedDemo of internal/storefront/service.go: the shop that a development server shows.
use x_ui_site.Prelude.{ℕ, true, str_eq, count_where, ltb, if◌then◌else◌}
use x_ui_site.Prelude.Int.{pos}
use x_ui_site.Db.Rows.{Tables, Seqs, CatalogItem}
use x_ui_site.Db.Errors.{Result, ok, err, map_ok}
use x_ui_site.Db.Session.{World, M, Sql, exec, look}
use x_ui_site.Repository.Users.{insert_user, insert_vendor}
use x_ui_site.Repository.Catalog.{insert_item}

-- SELECT COUNT(1) FROM vendors WHERE slug='demo'
abbrev pub demo_vendors : Tables → Result ℕ
demo_vendors t = ok (count_where (λ v. str_eq v.slug "demo") t.vendors)

-- INSERT INTO vendors(…) … RETURNING id
abbrev pub insert_demo : ℕ → Sql ℕ
insert_demo user_id s t =
    let (s', r) = insert_vendor user_id "Demo Vendor" "demo" s t in
    (s', map_ok (λ p. (s.vendors, p.1)) r)

abbrev pub premium : ℕ → CatalogItem
premium vendor_id = record {
  vendor_id = vendor_id;
  slug = "premium-vless";
  title = "Premium VLESS";
  description = "Fast stable route";
  protocol = "vless";
  inbound_id = 1;
  xui_node_id = 1;
  traffic_limit_gb = pos 200;
  duration_days = pos 30;
  price_toman = pos 199000;
  is_active = true;
  auto_provision = true;
  renewal_enabled = true;
  country_code = "DE";
  stock_status = "in_stock";
}

abbrev pub starter : ℕ → CatalogItem
starter vendor_id = record {
  vendor_id = vendor_id;
  slug = "starter-trojan";
  title = "Starter Trojan";
  description = "Budget route";
  protocol = "trojan";
  inbound_id = 2;
  xui_node_id = 1;
  traffic_limit_gb = pos 100;
  duration_days = pos 30;
  price_toman = pos 99000;
  is_active = true;
  auto_provision = true;
  renewal_enabled = true;
  country_code = "NL";
  stock_status = "low_stock";
}

abbrev pub in_turn :
    {A B : Type 0} → (A → Sql B) → Seqs × Result (A × Tables) → Seqs × Result (B × Tables)
in_turn next (s, ok (a, t)) = next a s t
in_turn next (s, err e) = (s, err e)

-- One INSERT of both rows.
abbrev pub insert_items : ℕ → Sql (Unit {0})
insert_items vendor_id s t =
    in_turn (λ _. insert_item (starter vendor_id)) (insert_item (premium vendor_id) s t)

-- `if err := …; err != nil { return nil }`
abbrev pub or_done :
    {A : Type 0} → (A → M (Unit {0})) → Result A × World → Result (Unit {0}) × World
or_done f (ok a, w) = f a w
or_done f (err e, w) = (ok tt, w)

abbrev pub count_of : Result ℕ → ℕ
count_of (ok n) = n
count_of (err e) = 0

-- `_, _ = s.db.Exec(…)`
abbrev pub add_items : ℕ → M (Unit {0})
add_items vendor_id w = (ok tt, (exec (insert_items vendor_id) w).1)

abbrev pub add_demo : M (Unit {0})
add_demo w =
    or_done (λ user_id x. or_done add_items (exec (insert_demo user_id) x))
      (exec (insert_user "demo@garuda.local" "x" "vendor") w)

abbrev pub unless_counted : Result ℕ × World → Result (Unit {0}) × World
unless_counted (r, w) = if ltb 0 (count_of r) then (ok tt, w) else add_demo w

-- SeedDemo with a database
unfoldable pub seed_demo : M (Unit {0})
seed_demo w = unless_counted (look demo_vendors w)
