-- ===== src/Http/Orders/Outcome.antt =====
-- What the route /api/v1/order/create answers, and for whom it places orders.
use x_ui_site.Prelude.{
  ℕ, String, ◌≡◌, ◌≢◌, refl, sym, ap, subst, ◌∙◌, ◌⊎◌, inl, inr, true, [], ◌∷◌, ◌++◌, Option, none,
  some, List, arith, Bool-cases, if-true, if-false,
}
use x_ui_site.Db.Errors.{Result, ok, err}
use x_ui_site.Db.Session.{World, loses}
use x_ui_site.Db.Rules.{Ends}
use x_ui_site.Security.{Crypto, Claims}
use x_ui_site.Middleware.Jwt.{with_claims}
use x_ui_site.Middleware.Jwt.Guard.{guarded, guarded_or_Refused, Admits}
use x_ui_site.Order.{CreateRequest, CreateResponse, create}
use x_ui_site.Order.Outcome.{Answered, Failed, Ordered, approval}
use x_ui_site.Order.Create.{create_atomic}
use x_ui_site.Http.{Request, Response, then_field, is_post, by_body, http_error}
use x_ui_site.Http.Orders.{create_body, created_code, audited, order_create}

not_created : (n : ℕ) → ((n ≡ 401) ⊎ (n ≡ 403)) → n ≢ 201
not_created n (inl e) q = omega arith
not_created n (inr e) q = omega arith

module _ (k : Crypto) (secret : String) (roles : List String) (r : Request) (w : World) where
  -- Nothing was ordered, and the answer does not say so.
  pub record NoOrder (answer : Response × World) : Type 0 where
    pub rows : answer.1.tables ≡ w.tables
    pub code : answer.0.code ≢ 201

  -- One whole order for the subject of the token; only where the answer to a statement is lost it is denied.
  pub record Bought (answer : Response × World) : Type 0 where
    pub claims : Claims
    pub admitted : Admits k secret roles r claims
    pub request : CreateRequest
    pub asked : then_field r.body (create_body claims.sub) ≡ some request
    pub order_id : ℕ
    pub ordered : Ordered request w order_id answer.1
    pub code :
        ((answer.0.code ≡ 201) × (answer.1.sent ≡ w.sent ++ approval request order_id ∷ []))
        ⊎ ((answer.0.code ≡ 400) × (answer.1.sent ≡ w.sent) × (loses w ≡ true))

  abbrev pub Settled : Response × World → Type 0
  Settled answer = NoOrder answer ⊎ Bought answer

  module _ (c : Claims) (a : Admits k secret roles r c) (req : CreateRequest)
      (asked : then_field r.body (create_body c.sub) ≡ some req) where
    audited-Settled :
        (res : Result CreateResponse) (x : World)
        → Ends (Answered req w) (Failed req w) res x
        → Settled (audited (with_claims k secret c r) "order.create" created_code (res, x))
    audited-Settled (ok resp) x (inl f) = inr (record {
      claims = c;
      admitted = a;
      request = req;
      asked = asked;
      order_id = resp.order_id;
      ordered = record {
        price = f.ordered.price;
        priced = f.ordered.priced;
        placed = f.ordered.placed;
        saved = f.ordered.saved;
      };
      code = inl (ap created_code f.response, f.sent);
    })
    audited-Settled (ok resp) x (inr d) = inl (record {
      rows = d.unchanged.tables;
      code = λ e. let code = sym (ap created_code d.response) ∙ e in omega arith;
    })
    audited-Settled (err e) x (inl u) = inl (record { rows = u.tables; code = λ q. omega arith })
    audited-Settled (err e) x (inr f) = inr (record {
      claims = c;
      admitted = a;
      request = req;
      asked = asked;
      order_id = f.order_id;
      ordered = record {
        price = f.ordered.price;
        priced = f.ordered.priced;
        placed = f.ordered.placed;
        saved = f.ordered.saved;
      };
      code = inr (refl, f.sent, f.lost);
    })

  module _ (closed : w.saved ≡ none) where
    body-Settled :
        (c : Claims)
        → Admits k secret roles r c
        → (o : Option CreateRequest) → then_field r.body (create_body c.sub) ≡ o
        → Settled (
            by_body
              (λ req r w. audited r "order.create" created_code (create req w))
              o
              (with_claims k secret c r)
              w)
    body-Settled c a none e = inl (record { rows = refl; code = λ q. omega arith })
    body-Settled c a (some req) e =
        audited-Settled c a req e (create req w).0 (create req w).1
          (create_atomic req w closed).holds

    create-Settled :
        (c : Claims)
        → Admits k secret roles r c
        → Settled (order_create (with_claims k secret c r) w)
    unfolding order_create
    create-Settled c a = elim (Bool-cases (is_post r)) [
      | inl post ↦
          subst Settled (sym (if-true (is_post r) _ _ post))
            (body-Settled c a (then_field r.body (create_body c.sub)) refl)
      | inr other ↦
          subst Settled
            (sym (if-false (is_post r) _ (http_error 405 "method not allowed", w) other))
            (inl (record { rows = refl; code = λ q. omega arith }))
    ]

    -- With no transaction open, whatever the request and whatever statement fails: either no row
    -- has changed and the status is not 201, or the request had a token for one of the roles and one
    -- whole order, as its body asks, was placed for the subject of that token at the price of an
    -- active item of the vendor; then the status is 201 and the order is announced once, or it is 400,
    -- nothing is announced, and the faults ahead lose the answer to a statement that was carried out, as
    -- to that commit.
    pub order_create-Settled : Settled (guarded k secret roles order_create r w)
    order_create-Settled = elim (guarded_or_Refused k secret roles order_create r w) [
      | inl (c, a, e) ↦ subst Settled (sym e) (create-Settled c a)
      | inr (q, why) ↦
          inl (record { rows = ap (λ x. x.tables) q.untouched; code = not_created _ q.code })
    ]
