-- ===== src/Order.antt =====
-- internal/order/service.go: the order engine. `create` and `renew` are Service.Create and
-- Service.Renew; the types are the structs of the file. The children prove.
pub mod Effect
pub mod Steps
pub mod Atomic
pub mod Outcome
pub mod Create
pub mod Answers
pub mod Extension
pub mod Renew
pub mod Once
pub mod History
use Prim.Native.String
use x_ui_site.Prelude.{
  ℕ, String, str_eq, Bool, true, false, Option, none, some, List, [], ◌∷◌, ◌==◌, if◌then◌else◌,
}
use x_ui_site.Prelude.Decimal.{decimal}
use x_ui_site.Prelude.Int.{ℤ}
use x_ui_site.Db.Rows.{Order, OrderState, approved, pending}
use x_ui_site.Db.Errors.{Error, Result, ok, err, new, wrap}
use x_ui_site.Db.Session.{
  World, M, Value, num, pure, raise, lift, gets, ◌>>=◌, ◌>>◌, begin, commit, or_return, or_rollback,
  notify,
}
use x_ui_site.Repository.Statements.{checked}
use x_ui_site.Repository.Wallets.{deduct_tx}
use x_ui_site.Repository.Orders.{create_tx, by_id, resolve, reserve_tx, link_order_tx}
use x_ui_site.Repository.Jobs.{enqueue_tx}
use x_ui_site.Repository.Catalog.{CatalogPrice, get}
use x_ui_site.Repository.Proxies.{by_id_for_user_tx, extend_expiry_tx}

pub record CreateRequest : Type 0 where
  pub vendor_id : ℕ
  pub user_id : ℕ
  pub catalog_id : ℕ
  pub idempotency_key : String

pub record CreateResponse : Type 0 where
  pub order_id : ℕ
  pub status : OrderState
  pub lifecycle : OrderState
  pub duplicate : Bool

-- The models.Order that is inserted.
abbrev pub new_order : CreateRequest → ℤ → Order
new_order req price = record {
  id = 0;
  vendor_id = req.vendor_id;
  user_id = req.user_id;
  catalog_id = req.catalog_id;
  service_id = none;
  amount = price;
  status = approved;
  lifecycle_state = pending;
  idempotency_key = some req.idempotency_key;
}

-- The body of the transaction of `Create`: each step that fails rolls back.
unfoldable pub place : CreateRequest → ℤ → M ℕ
place req price = do
  or_rollback (wrap "idempotency reserve (possible duplicate race)")
      (reserve_tx req.vendor_id req.user_id req.idempotency_key)
  or_rollback (wrap "wallet deduction") (deduct_tx req.user_id price)
  order_id ← or_rollback (wrap "order insert") (create_tx (new_order req price))
  or_rollback (wrap "idempotency link")
      (link_order_tx req.vendor_id req.user_id req.idempotency_key order_id)
  or_rollback (wrap "enqueue provisioning") (enqueue_tx req.vendor_id order_id)
  pure order_id

abbrev pub accepted : ℕ → CreateResponse
accepted order_id = record {
  order_id = order_id;
  status = approved;
  lifecycle = pending;
  duplicate = false;
}

abbrev pub approved_payload : CreateRequest → ℕ → List (String × Value)
approved_payload req order_id =
    ("order_id", num order_id)
    ∷ ("vendor_id", num req.vendor_id)
    ∷ ("user_id", num req.user_id)
    ∷ []

-- `Create` from the validation of the catalog item on. A failed commit ends the transaction, so
-- the deferred rollback then finds none.
unfoldable pub create_new : CreateRequest → M CreateResponse
create_new req = do
  cat ← or_return (wrap "catalog lookup") (get req.vendor_id req.catalog_id)
  lift (checked (cat.vendor_id == req.vendor_id) (new "vendor isolation violation") tt)
  lift (checked cat.is_active (new "catalog item is not active") tt)
  or_return (wrap "begin tx") begin
  order_id ← place req cat.price
  or_return (wrap "commit") commit
  notify "order.approved" (approved_payload req order_id)
  pure (accepted order_id)

abbrev pub existing : Order → CreateResponse
existing o = record {
  order_id = o.id;
  status = o.status;
  lifecycle = o.lifecycle_state;
  duplicate = true;
}

-- The fast path of `Create`: the key has an order.
unfoldable pub create_duplicate : CreateRequest → ℕ → M CreateResponse
create_duplicate req existing_id = do
  o ← or_return (wrap "load existing order") (by_id req.vendor_id existing_id)
  pure (existing o)

-- Create, once the key is known not to be empty.
unfoldable pub create_keyed : CreateRequest → M CreateResponse
create_keyed req = do
  existing_id ←
      or_return (wrap "idempotency resolve") (resolve req.vendor_id req.user_id req.idempotency_key)
  if existing_id == 0 then create_new req else create_duplicate req existing_id

unfoldable pub create : CreateRequest → M CreateResponse
create req =
    if str_eq req.idempotency_key ""
    then raise (new "idempotency_key is required")
    else create_keyed req

-- fmt.Sprintf("renew:%d:%d", serviceID, time.Now().UnixNano())
unfoldable pub renew_key : ℕ → ℕ → String
renew_key service_id now =
    String.◌++◌ "renew:" (String.◌++◌ (decimal service_id) (String.◌++◌ ":" (decimal now)))

abbrev pub original_order : Option ℕ → Result ℕ
original_order none = err (new "original order not found for service")
original_order (some id) = ok id

abbrev pub same_error : Error → Error
same_error e = e

abbrev pub renewal_request : ℕ → ℕ → ℕ → String → CreateRequest
renewal_request vendor_id user_id catalog_id key = record {
  vendor_id = vendor_id;
  user_id = user_id;
  catalog_id = catalog_id;
  idempotency_key = key;
}

-- Renew from the reservation of the key to the extension of the expiry.
unfoldable pub renew_steps : CreateRequest → ℤ → ℕ → ℤ → M ℕ
renew_steps req price service_id days = do
  or_rollback same_error (reserve_tx req.vendor_id req.user_id req.idempotency_key)
  or_rollback same_error (deduct_tx req.user_id price)
  order_id ← or_rollback same_error (create_tx (new_order req price))
  or_rollback same_error (link_order_tx req.vendor_id req.user_id req.idempotency_key order_id)
  or_rollback same_error (enqueue_tx req.vendor_id order_id)
  or_rollback same_error (extend_expiry_tx service_id days)
  pure order_id

-- The body of the transaction of `Renew`.
unfoldable pub renew_body : ℕ → ℕ → M ℕ
renew_body user_id service_id = do
  svc ← or_rollback same_error (by_id_for_user_tx service_id user_id)
  original ← or_rollback same_error (lift (original_order svc.order_id))
  order ← or_rollback same_error (by_id svc.vendor_id original)
  cat ← or_rollback same_error (get svc.vendor_id order.catalog_id)
  now ← gets (λ w. w.now)
  renew_steps (renewal_request svc.vendor_id user_id order.catalog_id (renew_key service_id now))
      cat.price service_id svc.duration_days

abbrev pub renewed_payload : ℕ → ℕ → ℕ → List (String × Value)
renewed_payload order_id service_id user_id =
    ("order_id", num order_id) ∷ ("service_id", num service_id) ∷ ("user_id", num user_id) ∷ []

unfoldable pub renew : ℕ → ℕ → M CreateResponse
renew user_id service_id = do
  begin
  order_id ← renew_body user_id service_id
  commit
  notify "order.renewed" (renewed_payload order_id service_id user_id)
  pure (accepted order_id)
