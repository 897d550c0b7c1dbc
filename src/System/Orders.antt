-- ===== src/System/Orders.antt =====
-- What customers may rely on while the server runs.
use x_ui_site.Prelude.{
  ℕ, ◌≤◌, String, ◌≡◌, refl, sym, ap, ◌∙◌, subst, Bool, false, none, List, [], ◌∷◌, ◌++◌, map, any,
  update_where, count_where, arith, append-nil, append_assoc,
}
use x_ui_site.Prelude.Int.{ℤ}
use x_ui_site.Db.Rows.{Tables, OrderRow, KeyRow}
use x_ui_site.Db.Session.{World}
use x_ui_site.Order.{CreateRequest}
use x_ui_site.Order.Effect.{Placed, order_row, key_row}
use x_ui_site.Order.Extension.{Renewal}
use x_ui_site.Order.Once.{
  OncePerKey, is_keyed, keyed_orders, key_rows, Placed-OncePerKey, Renewal-OncePerKey,
}
use x_ui_site.Repository.Orders.{is_key, with_order}
use x_ui_site.Middleware.RateLimit.{Buckets}
use x_ui_site.Http.Server.{Setup}
use x_ui_site.Http.Server.Money.{IsStill}
use x_ui_site.System.{Event, live}
use x_ui_site.System.Services.{bare, Sold, sold}
use x_ui_site.System.Events.{live-Between}

sold_orders : (t t' : Tables) → sold t' ≡ sold t → map bare t'.orders ≡ map bare t.orders
sold_orders t t' e = ap (λ (x : Sold). x.orders) e

sold_keys :
    (t t' : Tables) → sold t' ≡ sold t → t'.order_idempotency_keys ≡ t.order_idempotency_keys
sold_keys t t' e = ap (λ (x : Sold). x.keys) e

module _ (vendor_id user_id : ℕ) (key : String) where
  count-bare :
      (rs : List OrderRow)
      → count_where (is_keyed vendor_id user_id key) (map bare rs)
        ≡ count_where (is_keyed vendor_id user_id key) rs
  count-bare [] = refl
  count-bare (r ∷ rs) = ground (arith, count-bare rs)

  OncePerKey-stable :
      (t t' : Tables)
      → sold t' ≡ sold t
      → OncePerKey vendor_id user_id key t
      → OncePerKey vendor_id user_id key t'
  OncePerKey-stable t t' e h =
      let os : keyed_orders vendor_id user_id key t' ≡ keyed_orders vendor_id user_id key t =
        sym (count-bare t'.orders)
        ∙ ap (count_where (is_keyed vendor_id user_id key)) (sold_orders t t' e)
        ∙ count-bare t.orders in
      let ks : key_rows vendor_id user_id key t' ≡ key_rows vendor_id user_id key t =
        ap (count_where _) (sold_keys t t' e) in
      record { one_row = omega (arith, ks, h.one_row); no_more = omega (arith, os, ks, h.no_more) }

-- From `t` to `t'` orders and keys were added only; an order may have been given its service.
pub record Grown (t t' : Tables) : Type 0 where
  pub new_orders : List OrderRow
  pub orders : map bare t'.orders ≡ map bare t.orders ++ new_orders
  pub new_keys : List KeyRow
  pub keys : t'.order_idempotency_keys ≡ t.order_idempotency_keys ++ new_keys

bare-append :
    (rs : List OrderRow) (r : OrderRow) → map bare (rs ++ r ∷ []) ≡ map bare rs ++ bare r ∷ []
bare-append [] r = refl
bare-append (x ∷ rs) r = ap (λ ys. bare x ∷ ys) (bare-append rs r)

-- A key that no row has is answered in its new row alone.
with_order-new :
    (p : KeyRow → Bool) (id : ℕ) (ks : List KeyRow) (k : KeyRow)
    → any p ks ≡ false
    → update_where p (with_order id) (ks ++ k ∷ []) ≡ ks ++ update_where p (with_order id) (k ∷ [])
with_order-new p id [] k h = refl
with_order-new p id (x ∷ ks) k h = ground (arith, with_order-new p id ks k)

grow :
    {A : Type 0} (xs new more : List A) {ys zs : List A}
    → zs ≡ ys ++ more
    → ys ≡ xs ++ new
    → zs ≡ xs ++ (new ++ more)
grow xs new more e d = e ∙ ap (λ ys. ys ++ more) d ∙ append_assoc xs new more

module _ (t : Tables) where
  Grown-refl : Grown t t
  Grown-refl = record {
    new_orders = [];
    orders = sym (append-nil _);
    new_keys = [];
    keys = sym (append-nil _);
  }

  Grown-stable : (u u' : Tables) → sold u' ≡ sold u → Grown t u → Grown t u'
  Grown-stable u u' e g = record {
    new_orders = g.new_orders;
    orders = sold_orders u u' e ∙ g.orders;
    new_keys = g.new_keys;
    keys = sold_keys u u' e ∙ g.keys;
  }

  Placed-Grown :
      {req : CreateRequest} {price : ℤ} {order_id : ℕ} {u u' : Tables}
      → Placed req price order_id u u'
      → Grown t u
      → Grown t u'
  Placed-Grown {req} {price} {order_id} {u} {u'} p g =
      let order = order_row req price p.placement.order_id in
      let answered =
        update_where (is_key req.vendor_id req.user_id req.idempotency_key)
          (with_order p.placement.order_id) (key_row req none ∷ []) in
      record {
        new_orders = g.new_orders ++ bare order ∷ [];
        orders =
            grow _ _ (bare order ∷ [])
              (ap (λ (x : Tables). map bare x.orders) p.rows ∙ bare-append u.orders order) g.orders;
        new_keys = g.new_keys ++ answered;
        keys =
            grow _ _ answered
              (ap (λ (x : Tables). x.order_idempotency_keys) p.rows
                ∙ with_order-new _ _ u.order_idempotency_keys _ p.payable.new_key)
              g.keys;
      }

  Renewal-Grown :
      {user service now order_id : ℕ} {u u' : Tables}
      → Renewal user service now order_id u u'
      → Grown t u
      → Grown t u'
  Renewal-Grown r g =
      let paid = Placed-Grown r.placed g in
      subst (Grown t) (sym r.rows) (record {
        new_orders = paid.new_orders;
        orders = paid.orders;
        new_keys = paid.new_keys;
        keys = paid.keys;
      })

module _ (s : Setup) (assets_still : IsStill s.assets) (events_still : IsStill s.events) where
  -- If serving static files and event streams touches nothing, from a world with no open transaction
  -- in which a key has at most one row and no more orders than rows: whatever requests arrive and
  -- however often they are repeated, however the ticks of the worker, of the expiry and of the
  -- limiter come between them, whatever statements fail and whatever panels answer, the key has
  -- bought at most one order.
  pub live_at_most_once :
      (vendor_id user_id : ℕ) (key : String) (es : List Event) (b : Buckets) (w : World)
      → w.saved ≡ none
      → OncePerKey vendor_id user_id key w.tables
      → keyed_orders vendor_id user_id key (live s es (b, w)).1.tables ≤ 1
  live_at_most_once vendor_id user_id key es b w closed h =
      let after =
        live-Between (OncePerKey vendor_id user_id key) (OncePerKey-stable vendor_id user_id key)
          (λ req item id t t' _. Placed-OncePerKey vendor_id user_id key)
          (λ user service now id t t'. Renewal-OncePerKey vendor_id user_id key) s assets_still
          events_still es b w (record { closed = closed; rows = h }) in
      omega (arith, after.rows.one_row, after.rows.no_more)

  -- If serving static files and event streams touches nothing, from a world with no open
  -- transaction: whatever requests and ticks come, whatever fails and whatever panels answer, every
  -- order and every key that was there is still there, in its place, as it was but for the service
  -- that an order may have been given; others were only added behind.
  pub live-Grown :
      (es : List Event) (b : Buckets) (w : World)
      → w.saved ≡ none
      → Grown w.tables (live s es (b, w)).1.tables
  live-Grown es b w closed =
      (live-Between (Grown w.tables) (Grown-stable w.tables)
        (λ req item id t t' _. Placed-Grown w.tables)
        (λ user service now id t t'. Renewal-Grown w.tables) s assets_still events_still es b w
        (record { closed = closed; rows = Grown-refl w.tables })).rows
