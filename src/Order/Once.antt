-- ===== src/Order/Once.antt =====
-- A key buys at most one order: an invariant of the tables under every call of the order engine.
use x_ui_site.Prelude.{
  ℕ, ◌+◌, ◌≤◌, String, str_eq, eq_iff, ◌≡◌, refl, sym, ◌∙◌, subst, subst₂, Bool, true, false, ◌&&◌,
  Option, none, some, [], ◌∷◌, ◌++◌, inl, inr, ◌==◌, any, count_where, count_where-append,
  count_where-update, count_where_none, arith, Bool-cases,
}
use x_ui_site.Prelude.Int.{ℤ}
use x_ui_site.Db.Rows.{Tables, OrderRow}
use x_ui_site.Repository.Orders.{is_key, with_order}
use x_ui_site.Order.{CreateRequest}
use x_ui_site.Order.Effect.{Placement, Placed, effect, order_row, key_row}
use x_ui_site.Order.Extension.{Renewal}

abbrev str_eq_some : Option String → String → Bool
str_eq_some none key = false
str_eq_some (some k) key = str_eq k key

module _ (vendor_id user_id : ℕ) (key : String) where
  -- An order that was placed under the key.
  abbrev pub is_keyed : OrderRow → Bool
  is_keyed r =
      r.order.vendor_id == vendor_id
      && r.order.user_id == user_id
      && str_eq_some r.order.idempotency_key key

  abbrev pub keyed_orders : Tables → ℕ
  keyed_orders t = count_where is_keyed t.orders

  abbrev pub key_rows : Tables → ℕ
  key_rows t = count_where (is_key vendor_id user_id key) t.order_idempotency_keys

  -- The key has at most one row, and no more orders than rows.
  pub record OncePerKey (t : Tables) : Type 0 where
    pub one_row : key_rows t ≤ 1
    pub no_more : keyed_orders t ≤ key_rows t

  -- A new order and its key row count together, and only under their own key.
  module _ (req : CreateRequest) (price : ℤ) (p : Placement) (t : Tables) where
    abbrev mine : Bool
    mine = is_key vendor_id user_id key (key_row req none)

    keyed_orders-effect :
        keyed_orders (effect req price p t)
        ≡ keyed_orders t + count_where is_keyed (order_row req price p.order_id ∷ [])
    keyed_orders-effect = count_where-append is_keyed t.orders _

    key_rows-effect :
        key_rows (effect req price p t)
        ≡ key_rows t + count_where (is_key vendor_id user_id key) (key_row req none ∷ [])
    key_rows-effect =
        count_where-update (is_key vendor_id user_id key)
          (is_key req.vendor_id req.user_id req.idempotency_key) (with_order p.order_id)
          (t.order_idempotency_keys ++ key_row req none ∷ []) (λ r. refl)
        ∙ count_where-append (is_key vendor_id user_id key) t.order_idempotency_keys _

    -- If the new row is under the key, the key had none.
    none_before :
        mine ≡ true
        → any (is_key req.vendor_id req.user_id req.idempotency_key) t.order_idempotency_keys
          ≡ false
        → key_rows t ≡ 0
    none_before m fresh =
        let v : req.vendor_id ≡ vendor_id = ground arith in
        let u : req.user_id ≡ user_id = ground arith in
        let k : req.idempotency_key ≡ key = ground (arith, eq_iff req.idempotency_key key) in
        count_where_none (is_key vendor_id user_id key) t.order_idempotency_keys (
          subst (λ c. any (is_key vendor_id user_id c) t.order_idempotency_keys ≡ false) k
            (subst₂ (λ a b. any (is_key a b req.idempotency_key) t.order_idempotency_keys ≡ false) v
              u fresh))

    pub effect-OncePerKey :
        any (is_key req.vendor_id req.user_id req.idempotency_key) t.order_idempotency_keys ≡ false
        → OncePerKey t
        → OncePerKey (effect req price p t)
    effect-OncePerKey fresh h = elim (Bool-cases mine) [
      | inl m ↦ record {
        one_row = ground (arith, none_before m fresh, key_rows-effect);
        no_more = ground (arith, keyed_orders-effect, key_rows-effect, none_before m fresh);
      }
      | inr m ↦ record {
        one_row = ground (arith, key_rows-effect);
        no_more = ground (arith, keyed_orders-effect, key_rows-effect);
      }
    ]

  pub Placed-OncePerKey :
      {req : CreateRequest} {price : ℤ} {order_id : ℕ} {t t' : Tables}
      → Placed req price order_id t t'
      → OncePerKey t
      → OncePerKey t'
  Placed-OncePerKey {req} {price} {t = t} p h =
      subst OncePerKey (sym p.rows) (effect-OncePerKey req price p.placement t p.payable.new_key h)

  pub Renewal-OncePerKey :
      {user service now order_id : ℕ} {t t' : Tables}
      → Renewal user service now order_id t t'
      → OncePerKey t
      → OncePerKey t'
  Renewal-OncePerKey r h =
      let paid = Placed-OncePerKey r.placed h in
      subst OncePerKey (sym r.rows) (record { one_row = paid.one_row; no_more = paid.no_more })
