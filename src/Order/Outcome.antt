-- ===== src/Order/Outcome.antt =====
-- What Service.Create may answer and leave.
use x_ui_site.Prelude.{ℕ, ◌≡◌, true, none, ◌++◌, ◌∷◌, [], ◌⊎◌}
use x_ui_site.Prelude.Int.{ℤ}
use x_ui_site.Db.Rows.{Order}
use x_ui_site.Db.Errors.{ok}
use x_ui_site.Db.Session.{World, loses, Notice}
use x_ui_site.Db.Rules.{Unchanged}
use x_ui_site.Repository.Orders.{order_by_id, resolve_key}
use x_ui_site.Repository.Catalog.{CatalogPrice, catalog_price}
use x_ui_site.Order.{CreateRequest, CreateResponse, accepted, existing, approved_payload}
use x_ui_site.Order.Effect.{Placed}

abbrev pub approval : CreateRequest → ℕ → Notice
approval req order_id = record { topic = "order.approved"; payload = approved_payload req order_id }

module _ (req : CreateRequest) (v : World) where
  -- The price that a new order is charged: of an active item of the vendor, as it stands at `v`.
  pub record Priced (price : ℤ) : Type 0 where
    pub item : CatalogPrice
    pub listed : catalog_price req.vendor_id req.catalog_id v.tables ≡ ok item
    pub of_vendor : item.vendor_id ≡ req.vendor_id
    pub active : item.is_active ≡ true
    pub the_price : item.price ≡ price

  -- All of one order, but for the notification.
  pub record Ordered (order_id : ℕ) (w : World) : Type 0 where
    pub price : ℤ
    pub priced : Priced price
    pub placed : Placed req price order_id v.tables w.tables
    pub saved : w.saved ≡ none

  -- A new order: placed, and announced once.
  pub record Fresh (r : CreateResponse) (w : World) : Type 0 where
    pub unlinked : resolve_key req.vendor_id req.user_id req.idempotency_key v.tables ≡ ok 0
    pub ordered : Ordered r.order_id w
    pub response : r ≡ accepted r.order_id
    pub sent : w.sent ≡ v.sent ++ approval req r.order_id ∷ []

  -- The order that the key already has.
  pub record Repeated (r : CreateResponse) (w : World) : Type 0 where
    pub unchanged : Unchanged v w
    pub key_order : ℕ
    pub linked : resolve_key req.vendor_id req.user_id req.idempotency_key v.tables ≡ ok key_order
    pub order : Order
    pub found : order_by_id req.vendor_id key_order v.tables ≡ ok order
    pub response : r ≡ existing order

  -- The commit went through and its answer was lost: the order stands, unannounced.
  pub record Unheard (w : World) : Type 0 where
    pub lost : loses v ≡ true
    pub order_id : ℕ
    pub unlinked : resolve_key req.vendor_id req.user_id req.idempotency_key v.tables ≡ ok 0
    pub ordered : Ordered order_id w
    pub sent : w.sent ≡ v.sent

  abbrev pub Answered : CreateResponse → World → Type 0
  Answered r w = Fresh r w ⊎ Repeated r w

  abbrev pub Failed : World → Type 0
  Failed w = Unchanged v w ⊎ Unheard w
