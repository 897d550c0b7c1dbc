-- ===== src/Storefront/Pages.antt =====
-- What the pages of the store show.
use x_ui_site.Prelude.{
  ℕ, String, ◌≡◌, refl, subst, Bool, true, false, ◌&&◌, Option, none, some, List, [], ◌∷◌, All,
  All-select, All-reverse, find_holds, str_eq, if◌then◌else◌,
}
use x_ui_site.Prelude.Int.{pos, leb_ℤ}
use x_ui_site.Prelude.Text.{trim, trim_prefix, same_char, split}
use x_ui_site.Db.Rows.{Tables, VendorRow, CatalogRow}
use x_ui_site.Db.Errors.{ok-injective, Result, ok, Error}
use x_ui_site.Db.Session.{World, look, raise}
use x_ui_site.Db.Rules.{
  Runs, Unchanged, Unchanged-refl, weaken-Runs, bind-Runs, lift-Runs, raise-Runs,
}
use x_ui_site.Repository.Statements.{scan_row-eq-ok}
use x_ui_site.Repository.Wallets.{balance, wallet_of}
use x_ui_site.Security.{Crypto, Claims}
use x_ui_site.Middleware.Jwt.{extract_bearer, parse_jwt}
use x_ui_site.Http.{
  Request, Response, Payload, store_index, not_found, vendor, product, checkout_login, checkout,
  purchase_success, purchase_failed,
}
use x_ui_site.Storefront.Reads.{
  Reads, render-Reads, branch-Reads, if-Reads, or_value-All, look-Seen,
}
use x_ui_site.Storefront.{
  missing, render, vendor_by_slug, get_vendor_by_slug, valid_slug, of_vendor, list_products,
  product_by_slug, get_product, products_page, for_product, checkout_page, for_claims, shop_page,
  by_segments, router,
}

-- A vendor that is found by its slug and is active.
pub record OnShow (t : Tables) (v : VendorRow) : Type 0 where
  pub slug : String
  pub found : vendor_by_slug slug t ≡ ok v
  pub active : str_eq v.status "active" ≡ true

-- A product of the vendor that is found by its slug and is active.
pub record Offered (t : Tables) (v : VendorRow) (p : CatalogRow) : Type 0 where
  pub slug : String
  pub found : product_by_slug v.id slug t ≡ ok p
  pub own : (of_vendor v.id p && str_eq p.item.slug slug) ≡ true
  pub active : p.item.is_active ≡ true

-- What a page of the store may show of the rows `t`.
abbrev pub Shown : Tables → Payload → Type 0
Shown t store_index = Unit
Shown t (not_found message) = Unit
Shown t (vendor v ps) = OnShow t v × All (λ p. of_vendor v.id p ≡ true) ps
Shown t (product v p) = OnShow t v × Offered t v p
Shown t (checkout_login v p) = OnShow t v × Offered t v p
Shown t (checkout v p balance can_afford) =
    OnShow t v × Offered t v p × (can_afford ≡ leb_ℤ p.item.price_toman balance)
Shown t (purchase_success v) = OnShow t v
Shown t (purchase_failed v) = OnShow t v
Shown t _ = ⊥

module _ (k : Crypto) (secret : String) (r : Request) (v : World) (closed : v.saved ≡ none) where
  abbrev Fine : Response × World → Type 0
  Fine = Reads (Shown v.tables) v

  missing-Fine : (m : String) (w : World) → Unchanged v w → Fine (missing m w)
  missing-Fine m w u = render-Reads 404 (not_found m) w u tt

  if_valid-Runs :
      {A : Type 0} (b : Bool) (q : Tables → Result A) (e : Error) (w : World)
      → Unchanged v w
      → Runs w
          (if b then look q else raise e)
          (λ a x. Unchanged v x × (q v.tables ≡ ok a))
          (Unchanged v)
  if_valid-Runs true q e w u = look-Seen q v w closed u
  if_valid-Runs false q e w u = raise-Runs e u

  products-Fine :
      (s : VendorRow) (w : World) → OnShow v.tables s → Unchanged v w → Fine (products_page s w)
  unfolding list_products
  products-Fine s w on u =
      let (u', all) =
        or_value-All (λ ps. All (λ p. of_vendor s.id p ≡ true) ps) [] {v = v}
          {m = list_products s.id} w tt
          (weaken-Runs (look-Seen _ v w closed u)
            (λ ps x h. (
              h.0,
              subst (λ z. All (λ p. of_vendor s.id p ≡ true) z) (ok-injective h.1)
                  (All-reverse _ _ (All-select (of_vendor s.id) v.tables.catalog_items)),
            ))
            (λ x h. h)) in
      render-Reads 200 _ _ u' (on, all)

  for_product-Fine :
      (s : VendorRow) (slug : String) (page : CatalogRow → World → Response × World) (w : World)
      → ((p : CatalogRow) (x : World) → Offered v.tables s p → Unchanged v x → Fine (page p x))
      → Unchanged v w
      → Fine (for_product s slug page w)
  unfolding get_product
  for_product-Fine s slug page w h u =
      branch-Reads _ _ (get_product s.id slug) w (if_valid-Runs (valid_slug slug) _ _ w u)
        (missing-Fine "product not found")
        λ p x (u', found).
          if-Reads p.item.is_active _ _
            (λ active.
              h p x
                (record {
                  slug = slug;
                  found = found;
                  own = find_holds _ v.tables.catalog_items p (scan_row-eq-ok _ found);
                  active = active;
                })
                u')
            (λ _. missing-Fine "product not found" x u')

  balance-Runs :
      (user_id : ℕ) (w : World)
      → Unchanged v w
      → Runs w (balance user_id) (λ b x. Unchanged v x × Unit {0}) (Unchanged v)
  unfolding balance
  balance-Runs user_id w u =
      bind-Runs (look-Seen (wallet_of user_id) v w closed u)
        λ row x h. lift-Runs _ (λ b e. (h.0, tt)) h.0

  checkout-Fine :
      (s : VendorRow) (p : CatalogRow) (w : World)
      → OnShow v.tables s
      → Offered v.tables s p
      → Unchanged v w
      → Fine (checkout_page k secret r s p w)
  checkout-Fine s p w on offered u =
      if-Reads (str_eq (extract_bearer r) "") _ _ (λ _. login)
        λ _. by_claims (parse_jwt k secret (extract_bearer r))
    where
      login : Fine (render 200 (checkout_login s p) w)
      login = render-Reads 200 (checkout_login s p) w u (on, offered)

      by_claims : (o : Option Claims) → Fine (for_claims k secret s p o w)
      by_claims none = login
      by_claims (some c) =
          let (u', _) =
            or_value-All (λ _. Unit {0}) (pos 0) {v = v} {m = balance c.sub} w tt
              (balance-Runs c.sub w u) in
          render-Reads 200 _ _ u' (on, offered, refl)

  shop-Fine :
      (s : VendorRow) (rest : List String) (w : World)
      → OnShow v.tables s
      → Unchanged v w
      → Fine (shop_page k secret r s rest w)
  shop-Fine s [] w on u = products-Fine s w on u
  shop-Fine s (a ∷ []) w on u =
      if-Reads (str_eq a "") _ _ (λ _. products-Fine s w on u)
        λ _.
          if-Reads (str_eq a "products") _ _ (λ _. products-Fine s w on u)
            λ _.
              if-Reads (str_eq a "purchase-success") _ _
                (λ _. render-Reads 200 (purchase_success s) w u on)
                λ _.
                  if-Reads (str_eq a "purchase-failed") _ _
                    (λ _. render-Reads 200 (purchase_failed s) w u on)
                    λ _. missing-Fine "page not found" w u
  shop-Fine s (a ∷ slug ∷ []) w on u =
      if-Reads (str_eq a "products") _ _
        (λ _.
          for_product-Fine s slug _ w
            (λ p x offered u'. render-Reads 200 (product s p) x u' (on, offered)) u)
        λ _. missing-Fine "page not found" w u
  shop-Fine s (a ∷ slug ∷ b ∷ []) w on u =
      if-Reads (str_eq a "products" && str_eq b "checkout") _ _
        (λ _. for_product-Fine s slug _ w (λ p x offered u'. checkout-Fine s p x on offered u') u)
        λ _. missing-Fine "page not found" w u
  shop-Fine s (a ∷ slug ∷ b ∷ c ∷ more) w on u = missing-Fine "page not found" w u

  segments-Fine : (segments : List String) → Fine (by_segments k secret r segments v)
  unfolding get_vendor_by_slug
  segments-Fine [] = missing-Fine "vendor not found" v (Unchanged-refl v)
  segments-Fine (slug ∷ rest) =
      branch-Reads _ _ (get_vendor_by_slug slug) v
        (if_valid-Runs (valid_slug slug) (vendor_by_slug slug) _ v (Unchanged-refl v))
        (missing-Fine "vendor not found")
        λ s x (u, found).
          if-Reads (str_eq s.status "active") _ _
            (λ active.
              shop-Fine s rest x (record { slug = slug; found = found; active = active }) u)
            λ _. missing-Fine "vendor suspended" x u

  -- With no transaction open, a request to the store, whatever its path and its token, and
  -- whatever statement fails, changes no row, sends nothing, and is answered with a page of an
  -- active vendor with rows of that vendor alone, where a product page and a checkout show an active
  -- product and the checkout offers it if the balance shown covers its price; or with the index or a
  -- message.
  pub store_shows_offers : Reads (Shown v.tables) v (router k secret r v)
  unfolding router
  store_shows_offers =
      let p = trim (same_char "/") (trim_prefix "/store" r.path) in
      if-Reads (str_eq p "") (render 200 store_index v) (by_segments k secret r (split "/" p) v)
        (λ _. render-Reads 200 store_index v (Unchanged-refl v) tt) λ _. segments-Fine (split "/" p)
