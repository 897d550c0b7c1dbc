-- ===== src/Storefront.antt =====
-- internal/storefront: the public shop, its queries (service.go) and its pages (handler.go).
pub mod Slug
pub mod Reads
pub mod Pages
use Prim.Native.Char.{Char, code}
use Prim.Native.String
use x_ui_site.Prelude.{
  ℕ, ◌+◌, String, Bool, true, false, not, ◌&&◌, ◌||◌, Option, none, some, List, [], ◌∷◌, ◌++◌, find,
  any, select, reverse, leb, ◌==◌, str_eq, if◌then◌else◌,
}
use x_ui_site.Prelude.Int.{ℤ, pos, leb_ℤ}
use x_ui_site.Prelude.Text.{same_char, split, trim, trim_prefix}
use x_ui_site.Db.Rows.{Tables, VendorRow, CatalogItem, CatalogRow}
use x_ui_site.Db.Errors.{Error, Result, ok, err, new}
use x_ui_site.Db.Session.{World, M, Sql, look, exec, raise, pure, ◌>>=◌, ◌>>◌}
use x_ui_site.Repository.Statements.{scan_row}
use x_ui_site.Repository.Wallets
use x_ui_site.Security.{Crypto, Claims}
use x_ui_site.Middleware.Jwt.{extract_bearer, parse_jwt}
use x_ui_site.Http.{
  Request, Response, Handler, Payload, store_index, not_found, vendor, product, checkout_login,
  checkout, purchase_success, purchase_failed,
}

-- [a-z0-9]
abbrev pub is_slug_char : Char → Bool
is_slug_char c = (leb 97 (code c) && leb (code c) 122) || (leb 48 (code c) && leb (code c) 57)

-- `^[a-z0-9]+(?:-[a-z0-9]+)*$` read from left to right: `begun` says that a group has a character.
abbrev pub matches_from : Bool → String → Bool
matches_from begun String.[] = begun
matches_from begun (String.◌∷◌ c s) =
    let within = matches_from true s in
    let next = matches_from false s in
    if is_slug_char c then within else if same_char c "-" then begun && next else false

-- validateSlug
unfoldable pub valid_slug : String → Bool
valid_slug s = matches_from false s

abbrev pub of_slug : String → VendorRow → Bool
of_slug slug v = str_eq v.slug slug && not v.deleted

abbrev pub vendor_by_slug : String → Tables → Result VendorRow
vendor_by_slug slug t = scan_row (find (of_slug slug) t.vendors)

-- GetVendorBySlug
unfoldable pub get_vendor_by_slug : String → M VendorRow
get_vendor_by_slug slug =
    if valid_slug slug then look (vendor_by_slug slug) else raise (new "invalid slug")

abbrev pub of_vendor : ℕ → CatalogRow → Bool
of_vendor vendor_id r = r.item.vendor_id == vendor_id && not r.deleted

-- ListProducts; rows stand in the order of their ids.
unfoldable pub list_products : ℕ → M (List CatalogRow)
list_products vendor_id = look λ t. ok (reverse (select (of_vendor vendor_id) t.catalog_items))

abbrev pub product_by_slug : ℕ → String → Tables → Result CatalogRow
product_by_slug vendor_id slug t =
    scan_row (find (λ r. of_vendor vendor_id r && str_eq r.item.slug slug) t.catalog_items)

-- GetProduct
unfoldable pub get_product : ℕ → String → M CatalogRow
get_product vendor_id slug =
    if valid_slug slug then look (product_by_slug vendor_id slug) else raise (new "invalid slug")

-- Handler.render
abbrev pub render : ℕ → Payload → World → Response × World
render code p w = (record { code = code; headers = []; payload = p }, w)

abbrev pub missing : String → World → Response × World
missing message = render 404 (not_found message)

abbrev pub branch :
    {A : Type 0}
    → (World → Response × World)
    → (A → World → Response × World)
    → Result A × World
    → Response × World
branch on_err on_ok (ok a, w) = on_ok a w
branch on_err on_ok (err e, w) = on_err w

-- `x, _ := f()`
abbrev pub or_value : {A : Type 0} → A → Result A → A
or_value d (ok a) = a
or_value d (err e) = d

abbrev pub products_page : VendorRow → World → Response × World
products_page v w =
    let (prods, w') = list_products v.id w in render 200 (vendor v (or_value [] prods)) w'

-- A page for a product that exists and is active.
abbrev pub for_product :
    VendorRow → String → (CatalogRow → World → Response × World) → World → Response × World
for_product v slug page w =
    branch (missing "product not found")
      (λ p w. if p.item.is_active then page p w else missing "product not found" w)
      (get_product v.id slug w)

module _ (k : Crypto) (secret : String) where
  abbrev pub affordable : VendorRow → CatalogRow → Result ℤ × World → Response × World
  affordable v p (bal, w) =
      let balance = or_value (pos 0) bal in
      render 200 (checkout v p balance (leb_ℤ p.item.price_toman balance)) w

  abbrev pub for_claims : VendorRow → CatalogRow → Option Claims → World → Response × World
  for_claims v p none w = render 200 (checkout_login v p) w
  for_claims v p (some c) w = affordable v p (Wallets.balance c.sub w)

  abbrev pub checkout_page : Request → VendorRow → CatalogRow → World → Response × World
  checkout_page r v p w =
      if str_eq (extract_bearer r) ""
      then render 200 (checkout_login v p) w
      else for_claims v p (parse_jwt k secret (extract_bearer r)) w

  -- The pages below a vendor, by the rest of the path.
  abbrev pub shop_page : Request → VendorRow → List String → World → Response × World
  shop_page r v [] w = products_page v w
  shop_page r v (a ∷ []) w =
      if str_eq a ""
      then products_page v w
      else if str_eq a "products"
      then products_page v w
      else if str_eq a "purchase-success"
      then render 200 (purchase_success v) w
      else if str_eq a "purchase-failed"
      then render 200 (purchase_failed v) w
      else missing "page not found" w
  shop_page r v (a ∷ slug ∷ []) w =
      if str_eq a "products"
      then for_product v slug (λ p. render 200 (product v p)) w
      else missing "page not found" w
  shop_page r v (a ∷ slug ∷ b ∷ []) w =
      if str_eq a "products" && str_eq b "checkout"
      then for_product v slug (checkout_page r v) w
      else missing "page not found" w
  shop_page r v (a ∷ slug ∷ b ∷ c ∷ more) w = missing "page not found" w

  abbrev pub in_shop : Request → List String → VendorRow → World → Response × World
  in_shop r rest v w =
      if str_eq v.status "active" then shop_page r v rest w else missing "vendor suspended" w

  abbrev pub by_segments : Request → List String → World → Response × World
  by_segments r [] w = missing "vendor not found" w
  by_segments r (slug ∷ rest) w =
      branch (missing "vendor not found") (in_shop r rest) (get_vendor_by_slug slug w)

  -- Handler.Router
  unfoldable pub router : Handler
  router r w =
      let p = trim (same_char "/") (trim_prefix "/store" r.path) in
      if str_eq p "" then render 200 store_index w else by_segments r (split "/" p) w
