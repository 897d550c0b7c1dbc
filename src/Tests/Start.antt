-- ===== src/Tests/Start.antt =====
-- A development server that starts over an empty catalog.
use x_ui_site.Prelude.{
  ◌≡◌, ◌≤◌, refl, true, false, none, some, List, [], ◌∷◌, map, str_eq, if◌then◌else◌,
}
use x_ui_site.Db.Rows.{VendorRow, CatalogItem}
use x_ui_site.Db.Errors.{ok}
use x_ui_site.Db.Session.{World, fine, refused, pure, ◌>>=◌, ◌>>◌}
use x_ui_site.Db.Rules.{Runs, Unchanged}
use x_ui_site.Db.Success.{Never}
use x_ui_site.Storefront.{get_vendor_by_slug, list_products}
use x_ui_site.Start.{Machine, Knocked, knock, fuel, run}
use x_ui_site.Start.Seed.{seed_demo, premium, starter}
use x_ui_site.Start.Demo.{seed_demo_again}
use x_ui_site.Start.Shop.{seed_demo-shown}
use x_ui_site.Start.Knocking.{one_of, knock_ends}
use x_ui_site.Start.Ready.{Ready, NotReady, run-Ready}
use x_ui_site.Tests.{world, shop}

abbrev new_world : World
new_world = record world { tables = record shop { catalog_items = [] } }

seed_demo-shown_example :
    Runs {A = VendorRow × List CatalogItem} new_world
      (do
        seed_demo
        shop ← get_vendor_by_slug "demo"
        rows ← list_products shop.id
        pure (shop, map (λ r. r.item) rows))
      (λ p x. (p.0.status ≡ "active") × (p.1 ≡ starter p.0.id ∷ premium p.0.id ∷ []))
      Never
seed_demo-shown_example = seed_demo-shown new_world refl refl refl refl refl

-- The user was made, the vendor was not.
abbrev half_made : World
half_made = record world {
  tables = record shop {
    users =
        record {
          id = 2;
          email = "demo@garuda.local";
          password_hash = "x";
          role = "vendor";
          deleted = false;
        }
        ∷ [];
  };
  faults = fine ∷ refused ∷ [];
}

seed_demo_again_example :
    ((seed_demo half_made).0 ≡ ok tt) × Unchanged half_made (seed_demo half_made).1
seed_demo_again_example = seed_demo_again half_made refl

knock_ends_example :
    (k : Knocked) × (knock fuel 1 0 (false ∷ true ∷ []) ≡ some k)
    × (k.sent ≤ 15)
    × (k.slept ≤ 60000)
    × (k.answered ≡ one_of 15 (false ∷ true ∷ []))
knock_ends_example = knock_ends (false ∷ true ∷ [])

abbrev machine : Machine
machine = record {
  getenv = λ name.
      if str_eq name "PANEL_ENCRYPTION_KEY"
      then "0123456789abcdef0123456789abcdef"
      else "development";
  opens = none;
  pings = false ∷ true ∷ [];
  files = ok ("002.sql" ∷ "001.sql" ∷ []);
  read_file = λ name. ok (if str_eq name "001.sql" then "CREATE TABLE users()" else "");
  script = λ text w. (ok tt, w);
}

run-Ready_example :
    Runs new_world (run machine) (Ready machine new_world) (NotReady machine new_world)
run-Ready_example = run-Ready machine new_world
