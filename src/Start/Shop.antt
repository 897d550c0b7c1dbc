-- ===== src/Start/Shop.antt =====
-- The shop after SeedDemo.
use x_ui_site.Prelude.{
  ℕ, ◌+◌, ◌≡◌, refl, sym, ap, subst, false, not, none, List, [], ◌∷◌, ◌++◌, map, reverse, any,
  select, str_eq, count_where_none, any-last, find-append_last, find-none_of_any_both, ◌==◌,
  ==-refl,
}
use x_ui_site.Db.Rows.{Tables, UserRow, VendorRow, CatalogItem, CatalogRow}
use x_ui_site.Db.Errors.{Result, ok, err}
use x_ui_site.Db.Session.{World, M, exec, look, pure, ◌>>=◌, ◌>>◌}
use x_ui_site.Db.Rules.{Runs, Ends, bind-Runs, weaken-Runs, pure-Runs, Runs-world}
use x_ui_site.Db.Success.{Stands, Never, Gives, exec-Gives, look-Gives}
use x_ui_site.Repository.Statements.{scan_row}
use x_ui_site.Repository.Users.{user_row, insert_user, insert_vendor}
use x_ui_site.Repository.Catalog.{insert_item}
use x_ui_site.Storefront.{
  of_slug, of_vendor, valid_slug, vendor_by_slug, get_vendor_by_slug, list_products,
}
use x_ui_site.Start.Demo.{has_demo_user}
use x_ui_site.Start.Seed.{
  demo_vendors, insert_demo, insert_items, premium, starter, or_done, add_items, add_demo,
  unless_counted, seed_demo,
}

module _ (v : World) (closed : v.saved ≡ none) (healthy : v.faults ≡ [])
    (new_user : has_demo_user v.tables ≡ false)
    (new_slug : any (λ r. str_eq r.slug "demo") v.tables.vendors ≡ false)
    (no_items : v.tables.catalog_items ≡ []) where
  abbrev demo : ℕ → ℕ → VendorRow
  demo id user_id = record {
    id = id;
    owner_user_id = user_id;
    name = "Demo Vendor";
    slug = "demo";
    status = "active";
    deleted = false;
  }

  abbrev with_user : ℕ → Tables
  with_user user_id = record v.tables {
    users = v.tables.users ++ user_row user_id "demo@garuda.local" "x" "vendor" ∷ [];
  }

  abbrev with_vendor : ℕ → ℕ → Tables
  with_vendor user_id id = record (with_user user_id) {
    vendors = v.tables.vendors ++ demo id user_id ∷ [];
  }

  abbrev with_items : ℕ → ℕ → ℕ → Tables
  with_items user_id id first = record (with_vendor user_id id) {
    catalog_items =
        record { id = first; item = premium id; deleted = false }
        ∷ record { id = first + 1; item = starter id; deleted = false }
        ∷ [];
  }

  user-Gives :
      (w : World)
      → Stands none v.tables w
      → Runs w
          (exec (insert_user "demo@garuda.local" "x" "vendor"))
          (λ id. Stands none (with_user id))
          Never
  unfolding insert_user
  user-Gives w s =
      weaken-Runs
        (exec-Gives none w.seqs.users (with_user w.seqs.users) _ v.tables w s (rw new_user refl))
        (λ id x (i, s2). subst (λ n. Stands none (with_user n) x) (sym i) s2) (λ x n. n)

  vendor-Gives :
      (user_id : ℕ) (w : World)
      → Stands none (with_user user_id) w
      → Runs w (exec (insert_demo user_id)) (λ id. Stands none (with_vendor user_id id)) Never
  unfolding insert_vendor
  vendor-Gives user_id w s =
      weaken-Runs
        (exec-Gives none w.seqs.vendors (with_vendor user_id w.seqs.vendors) (insert_demo user_id)
          (with_user user_id) w s
          (rw
            (
              new_slug,
              any-last (λ (u : UserRow). u.id == user_id) v.tables.users
                  (user_row user_id "demo@garuda.local" "x" "vendor") (==-refl user_id),
            )
            refl))
        (λ id x (i, s2). subst (λ n. Stands none (with_vendor user_id n) x) (sym i) s2) (λ x n. n)

  items-Gives :
      (user_id id : ℕ) (w : World)
      → Stands none (with_vendor user_id id) w
      → Runs w
          (exec (insert_items id))
          (λ _. Stands none (with_items user_id id w.seqs.catalog_items))
          Never
  unfolding insert_item
  items-Gives user_id id w s =
      weaken-Runs
        (exec-Gives none tt (with_items user_id id w.seqs.catalog_items) (insert_items id)
          (with_vendor user_id id) w s
          (rw
            (
              no_items,
              any-last (λ (r : VendorRow). r.id == id) v.tables.vendors (demo id user_id)
                  (==-refl id),
              ==-refl id,
              any-last (λ (r : VendorRow). r.id == id) v.tables.vendors (demo id user_id)
                  (==-refl id),
            )
            refl))
        (λ u x (e, s2). s2) (λ x n. n)

  -- The rows after a first run.
  pub record Seeded (w : World) : Type 0 where
    pub user_id : ℕ
    pub id : ℕ
    pub first : ℕ
    pub stands : Stands none (with_items user_id id first) w

  abbrev Done : Result (Unit {0}) × World → Type 0
  Done answer = (answer.0 ≡ ok tt) × Seeded answer.1

  or_done-Done :
      {A : Type 0} (P : A → World → Type 0) (f : A → M (Unit {0})) (r : Result A) (w : World)
      → Ends P Never r w
      → ((a : A) (x : World) → P a x → Done (f a x))
      → Done (or_done f (r, w))
  or_done-Done P f (ok a) w h k = k a w h
  or_done-Done P f (err e) w h k = absurd h

  add_items-Done :
      (user_id id : ℕ) (w : World) → Stands none (with_vendor user_id id) w → Done (add_items id w)
  add_items-Done user_id id w s = (
    refl,
    record {
      user_id = user_id;
      id = id;
      first = w.seqs.catalog_items;
      stands =
          Runs-world (Stands none (with_items user_id id w.seqs.catalog_items))
            (items-Gives user_id id w s) (λ _ x h. h) (λ x n. absurd n);
    },
  )

  add_demo-Done : (w : World) → Stands none v.tables w → Done (add_demo w)
  add_demo-Done w s = or_done-Done _ _ _ _ (user-Gives w s).holds λ user_id x s2.
      or_done-Done _ _ _ _ (vendor-Gives user_id x s2).holds
        λ id y s3. add_items-Done user_id id y s3

  counted-Done :
      (r : Result ℕ) (w : World)
      → Ends (Gives none 0 v.tables) Never r w
      → Done (unless_counted (r, w))
  counted-Done (ok n) w (e, s) = rw e (add_demo-Done w s)
  counted-Done (err e) w h = absurd h

  seed_demo-Done : Done (seed_demo v)
  unfolding seed_demo
  seed_demo-Done =
      counted-Done (look demo_vendors v).0 (look demo_vendors v).1
        (look-Gives demo_vendors 0 v.tables v
          (record { healthy = healthy; saved = closed; tables = refl })
          (ap ok (count_where_none (λ r. str_eq r.slug "demo") v.tables.vendors new_slug))).holds

  Done-Runs : (m : M (Unit {0})) → Done (m v) → Runs v m (λ _. Seeded) Never
  Done-Runs m d = record { holds = of_done (m v).0 (m v).1 d.0 d.1 }
    where
      of_done :
          (r : Result (Unit {0})) (w : World) → r ≡ ok tt → Seeded w → Ends (λ _. Seeded) Never r w
      of_done (ok _) w e s = s
      of_done (err x) w e s = cc

  module _ (user_id id first : ℕ) (w : World)
      (s : Stands none (with_items user_id id first) w) where
    shop_found :
        Runs w
          (get_vendor_by_slug "demo")
          (Gives none (demo id user_id) (with_items user_id id first))
          Never
    unfolding get_vendor_by_slug valid_slug
    shop_found =
        look-Gives (vendor_by_slug "demo") (demo id user_id) (with_items user_id id first) w s (
          ap (λ o. scan_row o)
            (find-append_last (of_slug "demo") v.tables.vendors (demo id user_id)
              (find-none_of_any_both (λ r. str_eq r.slug "demo") (λ r. not r.deleted)
                v.tables.vendors new_slug)
              refl))

    products_found :
        Runs w
          (list_products id)
          (λ rows x. map (λ r. r.item) rows ≡ starter id ∷ premium id ∷ [])
          Never
    unfolding list_products
    products_found =
        weaken-Runs
          (look-Gives (λ t. ok (reverse (select (of_vendor id) t.catalog_items)))
            (record { id = first + 1; item = starter id; deleted = false }
              ∷ record { id = first; item = premium id; deleted = false }
              ∷ [])
            (with_items user_id id first) w s (rw (==-refl id) refl))
          (λ rows x (e, h). ap (λ (xs : List CatalogRow). map (λ r. r.item) xs) e) (λ x n. n)

  -- Over a healthy connection, with no transaction open, no item in the catalog, and neither a vendor
  -- with the slug "demo" nor the user of SeedDemo in the tables: after SeedDemo the store has an
  -- active vendor under that slug, and shows two products of it, "starter-trojan" and
  -- "premium-vless".
  pub seed_demo-shown :
      Runs {A = VendorRow × List CatalogItem} v
        (do
          seed_demo
          shop ← get_vendor_by_slug "demo"
          rows ← list_products shop.id
          pure (shop, map (λ r. r.item) rows))
        (λ p x. (p.0.status ≡ "active") × (p.1 ≡ starter p.0.id ∷ premium p.0.id ∷ []))
        Never
  seed_demo-shown = bind-Runs (Done-Runs seed_demo seed_demo-Done) λ _ w1 d.
      bind-Runs (shop_found d.user_id d.id d.first w1 d.stands) λ shop w2 (same, s2).
        bind-Runs
          (subst
            (λ (q : VendorRow).
              Runs w2 (list_products q.id)
                (λ rows x. map (λ r. r.item) rows ≡ starter q.id ∷ premium q.id ∷ []) Never)
            (sym same) (products_found d.user_id d.id d.first w2 s2))
          λ rows w3 shown. pure-Runs _ (ap (λ (q : VendorRow). q.status) same, shown)
