-- ===== src/Http/Management/TopUp.antt =====
-- Who may top up a wallet, and what the route answers.
use x_ui_site.Prelude.{
  ℕ, String, ◌≡◌, ◌≢◌, refl, sym, ap, subst, ◌⊎◌, inl, inr, true, Option, none, some, List, arith,
  Bool-cases, if-true, if-false,
}
use x_ui_site.Prelude.Int.{ℤ}
use x_ui_site.Db.Errors.{Result, ok, err}
use x_ui_site.Db.Session.{World, loses}
use x_ui_site.Db.Rules.{Ends}
use x_ui_site.Security.{Crypto, Claims}
use x_ui_site.Repository.Wallets
use x_ui_site.Ledger.TopUp.{Credited, Applied, NotApplied, apply_transaction_atomic}
use x_ui_site.Middleware.Jwt.{with_claims}
use x_ui_site.Middleware.Jwt.Guard.{guarded, guarded_or_Refused, Admits}
use x_ui_site.Http.{Request, Response, then_field, is_post, by_body, http_error, write_json, status}
use x_ui_site.Http.Management.{topup, topup_body, logged}

not_done : (n : ℕ) → ((n ≡ 401) ⊎ (n ≡ 403)) → n ≢ 200
not_done n (inl e) q = omega arith
not_done n (inr e) q = omega arith

module _ (k : Crypto) (secret : String) (roles : List String) (r : Request) (w : World) where
  -- No row changed, and the answer does not claim it.
  pub record NoTopUp (answer : Response × World) : Type 0 where
    pub rows : answer.1.tables ≡ w.tables
    pub code : answer.0.code ≢ 200

  -- One credit as the body asks; only where the answer to a statement is lost it is denied.
  pub record ToppedUp (answer : Response × World) : Type 0 where
    pub claims : Claims
    pub admitted : Admits k secret roles r claims
    pub body : ℕ × ℤ
    pub asked : then_field r.body topup_body ≡ some body
    pub credited : Credited body.0 body.1 "admin_topup" w.tables answer.1.tables
    pub code : (answer.0.code ≡ 200) ⊎ ((answer.0.code ≡ 400) × (loses w ≡ true))

  abbrev pub Finished : Response × World → Type 0
  Finished answer = NoTopUp answer ⊎ ToppedUp answer

  logged-Finished :
      (c : Claims)
      → Admits k secret roles r c
      → (b : ℕ × ℤ) → then_field r.body topup_body ≡ some b
      → (res : Result (Unit {0})) (x : World)
      → Ends (λ _. Applied b.0 b.1 "admin_topup" w) (NotApplied b.0 b.1 "admin_topup" w) res x
      → Finished (
          logged
            (with_claims k secret c r)
            "wallet.topup"
            "wallet"
            (λ _. write_json 200 (status "ok"))
            (res, x))
  logged-Finished c a b asked (ok u) x h = inr (record {
    claims = c;
    admitted = a;
    body = b;
    asked = asked;
    credited = h.0;
    code = inl refl;
  })
  logged-Finished c a b asked (err e) x (inl same, s) =
      inl (record { rows = same; code = λ q. omega arith })
  logged-Finished c a b asked (err e) x (inr (credited, gone), s) = inr (record {
    claims = c;
    admitted = a;
    body = b;
    asked = asked;
    credited = credited;
    code = inr (refl, gone);
  })

  module _ (closed : w.saved ≡ none) where
    body-Finished :
        (c : Claims)
        → Admits k secret roles r c
        → (o : Option (ℕ × ℤ)) → then_field r.body topup_body ≡ o
        → Finished (
            by_body
              (λ b r w.
                logged r "wallet.topup" "wallet"
                  (λ _. write_json 200 (status "ok"))
                  (Wallets.apply_transaction b.0 b.1 "admin_topup" w))
              o
              (with_claims k secret c r)
              w)
    body-Finished c a none e = inl (record { rows = refl; code = λ q. omega arith })
    body-Finished c a (some b) e =
        logged-Finished c a b e (Wallets.apply_transaction b.0 b.1 "admin_topup" w).0
          (Wallets.apply_transaction b.0 b.1 "admin_topup" w).1
          (apply_transaction_atomic b.0 b.1 "admin_topup" w closed).holds

    -- With no transaction open, whatever the request and whatever statement fails: either no row
    -- has changed and the status is not 200, or the request had a token for one of the roles and the
    -- wallet of the user in its body was credited once with the amount there, with its entry in the
    -- ledger, and the status is 200, or 400 where the faults ahead lose the answer to a statement that
    -- was carried out, as to that commit.
    pub topup-Finished : Finished (guarded k secret roles topup r w)
    unfolding topup
    topup-Finished = elim (guarded_or_Refused k secret roles topup r w) [
      | inl (c, a, e) ↦ subst Finished (sym e) (elim (Bool-cases (is_post r)) [
        | inl post ↦
            subst Finished (sym (if-true (is_post r) _ _ post))
              (body-Finished c a (then_field r.body topup_body) refl)
        | inr other ↦
            subst Finished
              (sym (if-false (is_post r) _ (http_error 405 "method not allowed", w) other))
              (inl (record { rows = refl; code = λ q. omega arith }))
      ])
      | inr (q, why) ↦
          inl (record { rows = ap (λ x. x.tables) q.untouched; code = not_done _ q.code })
    ]
