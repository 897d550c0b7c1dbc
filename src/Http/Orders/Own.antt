-- ===== src/Http/Orders/Own.antt =====
-- Whose orders the route /api/v1/order/get shows.
use x_ui_site.Prelude.{
  String, ◌≡◌, refl, sym, ap, subst, ◌⊎◌, inl, inr, Bool, true, false, none, List, str_eq, arith,
  Bool-cases, if◌then◌else◌,
}
use x_ui_site.Prelude.Text.{parse_id}
use x_ui_site.Db.Rows.{Order}
use x_ui_site.Db.Errors.{Result, ok, err}
use x_ui_site.Db.Session.{World}
use x_ui_site.Db.Rules.{Ends, Unchanged, Unchanged-refl}
use x_ui_site.Repository.Orders
use x_ui_site.Repository.Orders.{order_by_id}
use x_ui_site.Security.{Crypto, Claims}
use x_ui_site.Storefront.Reads.{look-Seen}
use x_ui_site.Middleware.Jwt.{with_claims}
use x_ui_site.Middleware.Jwt.Guard.{guarded, guarded_or_Refused, Admits}
use x_ui_site.Http.{Request, Response, Payload, order, respond, http_error, write_json}
use x_ui_site.Http.Orders.{order_get, is_foreign}

-- No order.
abbrev pub shows_order : Payload → Bool
shows_order (order o) = true
shows_order p = false

module _ (k : Crypto) (secret : String) (roles : List String) (r : Request) (w : World)
    (closed : w.saved ≡ none) where
  -- The order that the query names, shown to its customer, or to a role other than "user".
  pub record Shown (p : Payload) : Type 0 where
    pub claims : Claims
    pub admitted : Admits k secret roles r claims
    pub row : Order
    pub payload : p ≡ order row
    pub found :
        order_by_id (parse_id (r.query "vendor_id")) (parse_id (r.query "order_id")) w.tables
        ≡ ok row
    pub own : (str_eq claims.role "user" ≡ false) ⊎ (row.user_id ≡ claims.sub)

  abbrev pub Permitted : Response × World → Type 0
  Permitted answer =
      (answer.1.tables ≡ w.tables)
      × ((shows_order answer.0.payload ≡ false) ⊎ Shown answer.0.payload)

  -- Who is not refused is no "user", or is the customer.
  own_of :
      (c : Claims) (o : Order)
      → is_foreign (with_claims k secret c r) o ≡ false
      → (str_eq c.role "user" ≡ false) ⊎ (o.user_id ≡ c.sub)
  own_of c o h = elim (Bool-cases (str_eq c.role "user")) [
    | inl user ↦ inr (ground arith)
    | inr other ↦ inl other
  ]

  respond-Permitted :
      (c : Claims)
      → Admits k secret roles r c
      → (res : Result Order) (x : World)
      → Ends
          (λ o y.
            Unchanged w y
            × (order_by_id (parse_id (r.query "vendor_id")) (parse_id (r.query "order_id")) w.tables
                ≡ ok o))
          (Unchanged w)
          res
          x
      → Permitted (
          respond
            (λ e. http_error 404 "not found")
            (λ o.
              if is_foreign (with_claims k secret c r) o
              then http_error 403 "forbidden"
              else write_json 200 (order o))
            (res, x))
  respond-Permitted c a (err e) x u = (u.tables, inl refl)
  respond-Permitted c a (ok o) x (u, found) =
      elim (Bool-cases (is_foreign (with_claims k secret c r) o)) [
        | inl foreign ↦ (
          u.tables,
          inl (
              ap
                (λ b.
                  shows_order
                    (if b then http_error 403 "forbidden" else write_json 200 (order o)).payload)
                foreign),
        )
        | inr own ↦ (
          u.tables,
          inr (record {
            claims = c;
            admitted = a;
            row = o;
            payload =
                ap
                  (λ b.
                    (if b then http_error 403 "forbidden" else write_json 200 (order o)).payload)
                  own;
            found = found;
            own = own_of c o own;
          }),
        )
      ]

  -- With no transaction open: the route changes no row, and shows an order only to a request with a
  -- token for one of the roles, and then the order that the query names, to a token of the role
  -- "user" only if it is the order's customer.
  pub order_get_own : Permitted (guarded k secret roles order_get r w)
  unfolding order_get Orders.by_id
  order_get_own = elim (guarded_or_Refused k secret roles order_get r w) [
    | inl (c, a, e) ↦
        subst Permitted (sym e)
          (respond-Permitted c a _ _ (look-Seen _ w w closed (Unchanged-refl w)).holds)
    | inr (q, why) ↦ (ap (λ x. x.tables) q.untouched, inl (ap shows_order q.payload))
  ]
