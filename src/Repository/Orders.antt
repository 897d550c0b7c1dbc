-- ===== src/Repository/Orders.antt =====
-- internal/repository/order_repository.go: orders, idempotency keys and the provisioning queue.
use x_ui_site.Prelude.{
  ℕ, ◌+◌, String, str_eq, Bool, false, not, ◌&&◌, Option, none, some, List, [], ◌∷◌, ◌++◌, find,
  any, select, take, reverse, map, update_where, ◌==◌,
}
use x_ui_site.Db.Rows.{Tables, Order, OrderRow, OrderState, KeyRow}
use x_ui_site.Db.Errors.{Result, ok, foreign_key_violation, map_ok}
use x_ui_site.Db.Session.{M, Sql, query, exec, look}
use x_ui_site.Repository.Statements.{scan_row, checked, unless_taken, has_user, has_vendor}

-- The foreign keys of orders. catalog_id references service_catalog (001_init.sql), which is not
-- the table that the catalog is read from.
abbrev pub order_keys : Order → Tables → Bool
order_keys o t =
    has_vendor o.vendor_id t
    && has_user o.user_id t
    && any (λ id. id == o.catalog_id) t.service_catalog

-- INSERT INTO orders(vendor_id, user_id, catalog_id, amount, status, lifecycle_state,
-- idempotency_key) … RETURNING id
unfoldable pub insert_order : Order → Sql ℕ
insert_order o s t =
    let row : OrderRow = record {
      order = record o { id = s.orders; service_id = none };
      deleted = false;
    } in
    (
      record s { orders = s.orders + 1 },
      checked (order_keys o t) foreign_key_violation
          (s.orders, record t { orders = t.orders ++ row ∷ [] }),
    )

-- OrderRepository.Create and CreateTx
pub create : Order → M ℕ
create o = exec (insert_order o)

unfoldable pub create_tx : Order → M ℕ
create_tx o = exec (insert_order o)

abbrev pub with_service : ℕ → OrderRow → OrderRow
with_service service_id r = record r { order = record (r.order) { service_id = some service_id } }

-- OrderRepository.LinkServiceTx
unfoldable pub link_service_tx : ℕ → ℕ → M (Unit {0})
link_service_tx order_id service_id = exec (
    query λ t. ok (
      tt,
      record t {
        orders = update_where (λ r. r.order.id == order_id) (with_service service_id) t.orders;
      },
    ))

abbrev with_status : OrderState → OrderState → OrderRow → OrderRow
with_status status lifecycle r = record r {
  order = record (r.order) { status = status; lifecycle_state = lifecycle };
}

-- OrderRepository.UpdateStatus
pub update_status : ℕ → OrderState → OrderState → M (Unit {0})
update_status order_id status lifecycle = exec (
    query λ t. ok (
      tt,
      record t {
        orders = update_where (λ r. r.order.id == order_id) (with_status status lifecycle) t.orders;
      },
    ))

-- The columns that are scanned: service_id and idempotency_key stay nil.
abbrev pub scan_order : OrderRow → Order
scan_order r = record (r.order) { service_id = none; idempotency_key = none }

abbrev pub is_order : ℕ → ℕ → OrderRow → Bool
is_order vendor_id order_id r =
    r.order.id == order_id && r.order.vendor_id == vendor_id && not r.deleted

-- OrderRepository.ByID
abbrev pub order_by_id : ℕ → ℕ → Tables → Result Order
order_by_id vendor_id order_id t =
    map_ok scan_order (scan_row (find (is_order vendor_id order_id) t.orders))

unfoldable pub by_id : ℕ → ℕ → M Order
by_id vendor_id order_id = look (order_by_id vendor_id order_id)

-- OrderRepository.ListByUser; rows stand in the order of their ids.
unfoldable pub list_by_user : ℕ → ℕ → M (List Order)
list_by_user user_id limit = look λ t. ok (
    take limit (
      map scan_order
        (reverse (select (λ r. r.order.user_id == user_id && not r.deleted) t.orders))))

abbrev pub is_key : ℕ → ℕ → String → KeyRow → Bool
is_key vendor_id user_id key r =
    r.vendor_id == vendor_id && r.user_id == user_id && str_eq r.idempotency_key key

-- The NullInt64 that Resolve scans; 0 where the order is not linked.
abbrev pub linked_order : Option ℕ → ℕ
linked_order none = 0
linked_order (some id) = id

-- sql.ErrNoRows is no error here.
abbrev pub resolved : Option KeyRow → ℕ
resolved none = 0
resolved (some r) = linked_order r.order_id

abbrev pub resolve_key : ℕ → ℕ → String → Tables → Result ℕ
resolve_key vendor_id user_id key t =
    ok (resolved (find (is_key vendor_id user_id key) t.order_idempotency_keys))

-- IdempotencyRepository.Resolve
unfoldable pub resolve : ℕ → ℕ → String → M ℕ
resolve vendor_id user_id key = look (resolve_key vendor_id user_id key)

-- INSERT INTO order_idempotency_keys, with UNIQUE(vendor_id, user_id, idempotency_key)
unfoldable pub insert_key : ℕ → ℕ → String → Sql (Unit {0})
insert_key vendor_id user_id key = query λ t.
    let row : KeyRow = record {
      vendor_id = vendor_id;
      user_id = user_id;
      idempotency_key = key;
      order_id = none;
    } in
    unless_taken (any (is_key vendor_id user_id key) t.order_idempotency_keys) (
      checked (has_vendor vendor_id t && has_user user_id t) foreign_key_violation
        (tt, record t { order_idempotency_keys = t.order_idempotency_keys ++ row ∷ [] }))

-- IdempotencyRepository.ReserveTx
unfoldable pub reserve_tx : ℕ → ℕ → String → M (Unit {0})
reserve_tx vendor_id user_id key = exec (insert_key vendor_id user_id key)

abbrev pub with_order : ℕ → KeyRow → KeyRow
with_order order_id r = record r { order_id = some order_id }

-- UPDATE order_idempotency_keys SET order_id=…
unfoldable pub update_key : ℕ → ℕ → String → ℕ → Sql (Unit {0})
update_key vendor_id user_id key order_id = query λ t. ok (
  tt,
  record t {
    order_idempotency_keys =
        update_where (is_key vendor_id user_id key) (with_order order_id) t.order_idempotency_keys;
  },
)

-- IdempotencyRepository.LinkOrderTx
unfoldable pub link_order_tx : ℕ → ℕ → String → ℕ → M (Unit {0})
link_order_tx vendor_id user_id key order_id = exec (update_key vendor_id user_id key order_id)
