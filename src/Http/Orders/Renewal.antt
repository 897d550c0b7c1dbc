-- ===== src/Http/Orders/Renewal.antt =====
-- The service that a path of the renewal route names.
use Prim.Native.String
use x_ui_site.Prelude.{
  ℕ, String, ◌≡◌, ap, ◌∙◌, true, false, ◌≤◌, none, some, ◌==◌, if◌then◌else◌, if-true, if-false,
  arith,
}
use x_ui_site.Prelude.Decimal.{decimal}
use x_ui_site.Prelude.Text.{trim_prefix, parse_id, max_int}
use x_ui_site.Prelude.Text.Splits.{strip_prefix-append}
use x_ui_site.Prelude.Text.Numbers.{parse_id-decimal}
use x_ui_site.Db.Session.{World}
use x_ui_site.Order.{renew}
use x_ui_site.Middleware.Jwt.{user_id_from_ctx}
use x_ui_site.Http.{Request, is_post, http_error}
use x_ui_site.Http.Orders.{order_renew, audited}

trim_prefix-append : (p s : String) → trim_prefix p (String.◌++◌ p s) ≡ s
trim_prefix-append p s =
    ap (λ o. elim o [ none ↦ String.◌++◌ p s | some rest ↦ rest ]) (strip_prefix-append p s)

-- A POST to the renewal route with the decimal digits of a number of an int64 behind it, which is
-- not 0, renews the service of that number for the subject of the context, and is answered and
-- entered in the audit log as that renewal ends.
pub order_renew-decimal :
    (r : Request) (n : ℕ) (w : World)
    → is_post r ≡ true
    → r.path ≡ String.◌++◌ "/api/v1/order/renew/" (decimal n)
    → 1 ≤ n
    → n ≤ max_int
    → order_renew r w ≡ audited r "order.renew" (λ _. 201) (renew (user_id_from_ctx r.context) n w)
unfolding order_renew
order_renew-decimal r n w post path some_n small =
    if-true (is_post r) _ _ post
    ∙ ap
        (λ id.
          if id == 0
          then (http_error 400 "invalid service id", w)
          else audited r "order.renew" (λ _. 201) (renew (user_id_from_ctx r.context) id w))
        (ap (λ p. parse_id (trim_prefix "/api/v1/order/renew/" p)) path
          ∙ ap parse_id (trim_prefix-append "/api/v1/order/renew/" (decimal n))
          ∙ parse_id-decimal n small)
    ∙ if-false (n == 0) _ _ nonzero
  where
    nonzero : (n == 0) ≡ false
    nonzero = ground arith
