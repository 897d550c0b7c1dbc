-- ===== src/System/Services.antt =====
-- Which calls of the routes keep what rests on the orders and their keys, whatever fails.
use x_ui_site.Prelude.{
  true, ℕ, String, ◌≡◌, refl, ap, ◌⊎◌, inl, inr, none, List, [], ◌∷◌, map, update_where, ◌==◌,
  arith,
}
use x_ui_site.Prelude.Int.{ℤ}
use x_ui_site.Db.Rows.{Tables, OrderRow, KeyRow, Panel, CatalogItem}
use x_ui_site.Db.Errors.{Result}
use x_ui_site.Db.Session.{World, loses, M, look}
use x_ui_site.Db.Rules.{Runs-world}
use x_ui_site.Db.Frame.{
  Keeps, IfOk-checked, IfOk-unless_taken, IfOk-in_range, exec-Keeps, look-Keeps, lift-Keeps,
  bind-Keeps,
}
use x_ui_site.Order.History.{Between}
use x_ui_site.Repository.Orders.{with_service}
use x_ui_site.Repository.Orders
use x_ui_site.Repository.Users.{create_user, create_vendor, list_by_owner, by_email}
use x_ui_site.Repository.Wallets.{ensure_for_user, balance, apply_transaction}
use x_ui_site.Repository.Catalog.{insert_item}
use x_ui_site.Repository.Catalog
use x_ui_site.Repository.Panels.{TokenCipher, insert_panel}
use x_ui_site.Repository.Panels
use x_ui_site.Repository.Proxies
use x_ui_site.Security.{Crypto}
use x_ui_site.Auth.{hash, register, login}
use x_ui_site.Proxy.{suspend, resume}
use x_ui_site.Proxy.Provision.{draw, ProvisionRequest, provision_service}
use x_ui_site.Proxy.Provision.Outcome.{NotStored, LeftBehind}
use x_ui_site.Proxy.Provision.Atomic.{provision_service-Runs}
use x_ui_site.Ledger.TopUp.{Credited, apply_transaction_atomic}
use x_ui_site.Http.Frame.{
  Protected, protected, register-Keeps, login-Keeps, create_vendor-Keeps, list_by_owner-Keeps,
  balance-Keeps, provision_service-Keeps, suspend-Keeps, resume-Keeps, by_id-Keeps,
  list_by_user-Keeps,
}
use x_ui_site.System.Between.{
  Closes, exec-Closes, look-Closes, pure-Closes, lift-Closes, gets-Closes, raise-Closes,
  or_return-Closes, notify-Closes, bind-Closes, Holds, Keeps-Holds, same-Between,
}

-- An order without the service that is made for it later.
abbrev pub bare : OrderRow → OrderRow
bare r = record r { order = record (r.order) { service_id = none } }

-- The orders, but for their services, and the keys.
pub record Sold : Type 0 where
  pub orders : List OrderRow
  pub keys : List KeyRow

abbrev pub sold : Tables → Sold
sold t = record { orders = map bare t.orders; keys = t.order_idempotency_keys }

sold_of : Protected → Sold
sold_of p = record { orders = map bare p.orders; keys = p.keys }

-- Naming a service in an order is not seen.
pub bare-with_service :
    (order_id id : ℕ) (rs : List OrderRow)
    → map bare (update_where (λ r. r.order.id == order_id) (with_service id) rs) ≡ map bare rs
bare-with_service order_id id [] = refl
bare-with_service order_id id (r ∷ rs) = ground (arith, bare-with_service order_id id rs)

draw-Closes : Closes draw
unfolding draw
draw-Closes = record { closes = λ w closed. closed }

module _ (k : Crypto) where
  hash-Closes : (password : String) → Closes (hash k password)
  unfolding hash
  hash-Closes String.[] = raise-Closes _
  hash-Closes (String.◌∷◌ c s) = bind-Closes draw-Closes (λ random. lift-Closes _)

  register-Closes : (email password : String) → Closes (register k email password)
  unfolding register create_user ensure_for_user
  register-Closes email password =
      bind-Closes (hash-Closes password) λ h. bind-Closes (exec-Closes _) λ id. exec-Closes _

  login-Closes : (secret email password : String) → Closes (login k secret email password)
  unfolding login by_email
  login-Closes secret email password =
      bind-Closes (look-Closes _) λ u. bind-Closes (gets-Closes _) λ now. pure-Closes _

suspend-Closes : (vendor_id id : ℕ) → Closes (suspend vendor_id id)
unfolding suspend Proxies.by_id Proxies.suspend Proxies.update_status
suspend-Closes vendor_id id =
    bind-Closes (or_return-Closes _ _ (look-Closes _))
      λ service. bind-Closes (lift-Closes _) λ _. bind-Closes (exec-Closes _) λ _. notify-Closes _ _

resume-Closes : (vendor_id id : ℕ) → Closes (resume vendor_id id)
unfolding resume Proxies.by_id Proxies.resume Proxies.update_status
resume-Closes vendor_id id =
    bind-Closes (or_return-Closes _ _ (look-Closes _))
      λ service. bind-Closes (lift-Closes _) λ _. bind-Closes (exec-Closes _) λ _. notify-Closes _ _

provision_service-Closes :
    (cipher : TokenCipher) (req : ProvisionRequest) → Closes (provision_service cipher req)
provision_service-Closes cipher req = record {
  closes = λ w closed.
      Runs-world (λ x. x.saved ≡ none) (provision_service-Runs cipher req w closed)
        (λ r x h. h.stored.saved) (λ x h. by_rows w x h.1);
}
  where
    by_rows : (w x : World) → (NotStored req w x ⊎ LeftBehind req w x) → x.saved ≡ none
    by_rows w x (inl n) = n.saved
    by_rows w x (inr l) = l.stored.saved

-- What rests on the orders and their keys.
module _ (K : Tables → Type 0) (stable : (t t' : Tables) → sold t' ≡ sold t → K t → K t') where
  guarded_rows : (t t' : Tables) → protected t' ≡ protected t → K t → K t'
  unfolding sold_of
  guarded_rows t t' e = stable t t' (ap sold_of e)

  open_call : {A : Type 0} (m : M A) → Keeps protected m → Closes m → Holds K m
  open_call m k c = Keeps-Holds K protected guarded_rows m k c

  pub other_call : {A : Type 0} (m : M A) → Keeps sold m → Closes m → Holds K m
  other_call m k c = Keeps-Holds K sold stable m k c

  module _ (k : Crypto) where
    pub register-Holds : (email password : String) → Holds K (register k email password)
    register-Holds email password =
        open_call _ (register-Keeps k email password) (register-Closes k email password)

    pub login-Holds : (secret email password : String) → Holds K (login k secret email password)
    login-Holds secret email password =
        open_call _ (login-Keeps k secret email password) (login-Closes k secret email password)

  pub create_vendor-Holds :
      (owner_id : ℕ) (name slug : String) → Holds K (create_vendor owner_id name slug)
  unfolding create_vendor
  create_vendor-Holds owner_id name slug =
      open_call _ (create_vendor-Keeps owner_id name slug) (exec-Closes _)

  pub list_by_owner-Holds : (owner_id : ℕ) → Holds K (list_by_owner owner_id)
  unfolding list_by_owner
  list_by_owner-Holds owner_id = open_call _ (list_by_owner-Keeps owner_id) (look-Closes _)

  pub balance-Holds : (user_id : ℕ) → Holds K (balance user_id)
  unfolding balance
  balance-Holds user_id =
      open_call _ (balance-Keeps user_id) (bind-Closes (look-Closes _) λ w. lift-Closes _)

  pub suspend-Holds : (vendor_id id : ℕ) → Holds K (suspend vendor_id id)
  suspend-Holds vendor_id id =
      open_call _ (suspend-Keeps vendor_id id) (suspend-Closes vendor_id id)

  pub resume-Holds : (vendor_id id : ℕ) → Holds K (resume vendor_id id)
  resume-Holds vendor_id id = open_call _ (resume-Keeps vendor_id id) (resume-Closes vendor_id id)

  pub provision_service-Holds :
      (cipher : TokenCipher) (req : ProvisionRequest) → Holds K (provision_service cipher req)
  provision_service-Holds cipher req =
      open_call _ (provision_service-Keeps cipher req) (provision_service-Closes cipher req)

  pub by_id-Holds : (vendor_id id : ℕ) → Holds K (Proxies.by_id vendor_id id)
  unfolding Proxies.by_id
  by_id-Holds vendor_id id = open_call _ (by_id-Keeps vendor_id id) (look-Closes _)

  pub list_by_user-Holds :
      (vendor_id user_id : ℕ) → Holds K (Proxies.list_by_user vendor_id user_id)
  unfolding Proxies.list_by_user
  list_by_user-Holds vendor_id user_id =
      open_call _ (list_by_user-Keeps vendor_id user_id) (look-Closes _)

  pub look-Holds : {A : Type 0} (q : Tables → Result A) → Holds K (look q)
  look-Holds q = other_call _ (look-Keeps sold q) (look-Closes q)

  pub create_item-Holds : (i : CatalogItem) → Holds K (Catalog.create i)
  unfolding Catalog.create insert_item
  create_item-Holds i =
      other_call _
        (exec-Keeps sold _ (record {
          frames = λ s t. IfOk-in_range _ _ _ (IfOk-unless_taken _ _ _ (IfOk-checked _ _ _ _ refl));
        }))
        (exec-Closes _)

  pub create_panel-Holds : (cipher : TokenCipher) (p : Panel) → Holds K (Panels.create cipher p)
  unfolding Panels.create insert_panel
  create_panel-Holds cipher p =
      other_call _
        (bind-Keeps sold (lift-Keeps sold _)
          λ token. exec-Keeps sold _ (record { frames = λ s t. IfOk-checked _ _ _ _ refl }))
        (bind-Closes (lift-Closes _) λ token. exec-Closes _)

  pub list_panels-Holds :
      (cipher : TokenCipher) (id : ℕ) → Holds K (Panels.list_by_vendor cipher id)
  unfolding Panels.list_by_vendor
  list_panels-Holds cipher id = look-Holds _

  pub order_by_id-Holds : (vendor_id id : ℕ) → Holds K (Orders.by_id vendor_id id)
  unfolding Orders.by_id
  order_by_id-Holds vendor_id id = look-Holds _

  pub apply_transaction-Holds :
      (user_id : ℕ) (amount : ℤ) (type : String) → Holds K (apply_transaction user_id amount type)
  apply_transaction-Holds user_id amount type = record {
    holds = λ w b.
        Runs-world (Between K) (apply_transaction_atomic user_id amount type w b.closed)
          (λ _ x h. credited w x b h.0 h.1) (λ x h. by_rows w x b h.0 h.1);
  }
    where
      credited :
          (w x : World)
          → Between K w
          → Credited user_id amount type w.tables x.tables
          → x.saved ≡ none
          → Between K x
      credited w x b c s = record {
        closed = s;
        rows = stable w.tables x.tables (ap sold c.rows) b.rows;
      }

      by_rows :
          (w x : World)
          → Between K w
          → ((x.tables ≡ w.tables)
              ⊎ (Credited user_id amount type w.tables x.tables × (loses w ≡ true)))
          → x.saved ≡ none
          → Between K x
      by_rows w x b (inl same) s = same-Between K w x same s b
      by_rows w x b (inr (c, gone)) s = credited w x b c s
