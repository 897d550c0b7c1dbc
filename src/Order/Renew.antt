-- ===== src/Order/Renew.antt =====
-- What Service.Renew answers and leaves, on every path and under every fault.
use x_ui_site.Prelude.{true, ℕ, ◌≡◌, refl, sym, ◌∙◌, ap, subst, none, ◌++◌, ◌∷◌, [], ◌⊎◌, inl, inr}
use x_ui_site.Db.Session.{World, loses, Notice, ◌>>=◌, ◌>>◌, notify, pure}
use x_ui_site.Db.Hoare.{SameOutside, RolledBack}
use x_ui_site.Db.Rules.{
  Runs, bind-Runs, weaken-Runs, begin-Runs, Unchanged, Begun, Guards-Runs, InDoubt, commit-Runs,
}
use x_ui_site.Order.{CreateResponse, accepted, renewed_payload, renew}
use x_ui_site.Order.Extension.{Renewal, renew_body-Guards}

abbrev renewed_notice : ℕ → ℕ → ℕ → Notice
renewed_notice order_id service_id user_id = record {
  topic = "order.renewed";
  payload = renewed_payload order_id service_id user_id;
}

module _ (user_id service_id : ℕ) (v : World) where
  -- A renewal, committed and announced once.
  pub record Renewed (r : CreateResponse) (w : World) : Type 0 where
    pub renewal : Renewal user_id service_id v.now r.order_id v.tables w.tables
    pub response : r ≡ accepted r.order_id
    pub saved : w.saved ≡ none
    pub sent : w.sent ≡ v.sent ++ renewed_notice r.order_id service_id user_id ∷ []

  -- The commit went through and its answer was lost.
  pub record RenewedUnheard (w : World) : Type 0 where
    pub lost : loses v ≡ true
    pub order_id : ℕ
    pub renewal : Renewal user_id service_id v.now order_id v.tables w.tables
    pub saved : w.saved ≡ none
    pub sent : w.sent ≡ v.sent

  abbrev pub RenewFailed : World → Type 0
  RenewFailed w = Unchanged v w ⊎ RenewedUnheard w

module _ (user_id service_id : ℕ) (v : World) (closed : v.saved ≡ none) where
  renew-InDoubt :
      (order_id : ℕ) (w1 w2 x : World)
      → Begun v w1
      → SameOutside w1 w2
      → Renewal user_id service_id v.now order_id v.tables w2.tables
      → InDoubt w2 v.tables x
      → RenewFailed user_id service_id v x
  renew-InDoubt order_id w1 w2 x b o q d = by_rows d.tables
    where
      by_rows :
          (((x.tables ≡ w2.tables) × (loses w2 ≡ true)) ⊎ (x.tables ≡ v.tables))
          → RenewFailed user_id service_id v x
      by_rows (inl (all, gone)) = inr (record {
        lost = b.lost (o.lost gone);
        order_id = order_id;
        renewal = subst (λ t. Renewal user_id service_id v.now order_id v.tables t) (sym all) q;
        saved = d.saved;
        sent = d.sent ∙ o.sent ∙ b.sent;
      })
      by_rows (inr nothing) = inl (record {
        outside = record {
          now = d.now ∙ o.now ∙ b.now;
          sent = d.sent ∙ o.sent ∙ b.sent;
          calls = d.calls ∙ o.calls ∙ b.calls;
          replies = d.replies ∙ o.replies ∙ b.replies;
          lost = λ e. b.lost (o.lost (d.lost e));
          saved = d.saved ∙ sym closed;
        };
        tables = nothing;
      })

  renew_back : (w1 x : World) → Begun v w1 → RolledBack w1 v.tables x → Unchanged v x
  renew_back w1 x b r = record {
    outside = record {
      now = r.now ∙ b.now;
      sent = r.sent ∙ b.sent;
      calls = r.calls ∙ b.calls;
      replies = r.replies ∙ b.replies;
      lost = λ e. b.lost (r.lost e);
      saved = r.saved ∙ sym closed;
    };
    tables = r.tables;
  }

  renew_notice-Runs :
      (order_id : ℕ) (w : World)
      → Renewal user_id service_id v.now order_id v.tables w.tables
      → w.saved ≡ none
      → w.sent ≡ v.sent
      → Runs w
          (do
            notify "order.renewed" (renewed_payload order_id service_id user_id)
            pure (accepted order_id))
          (Renewed user_id service_id v)
          (RenewFailed user_id service_id v)
  unfolding ◌>>=◌ notify
  renew_notice-Runs order_id w r saved s = record {
    holds = record {
      renewal = r;
      response = refl;
      saved = saved;
      sent = ap (λ x. x ++ renewed_notice order_id service_id user_id ∷ []) s;
    };
  }

  -- With no transaction open, whatever statement fails: a renewal that answers has charged the
  -- owner of the service the current price once, placed the order, queued its job and moved the
  -- expiry of this service alone to its days after the later of now and the old expiry, all
  -- together, and announced it; one that fails has changed nothing, or its commit went through
  -- unheard.
  pub renew_atomic :
      Runs v
        (renew user_id service_id)
        (Renewed user_id service_id v)
        (RenewFailed user_id service_id v)
  unfolding renew
  renew_atomic = bind-Runs (weaken-Runs (begin-Runs v) (λ a x h. h) (λ x h. inl h)) λ _ w1 b.
      bind-Runs
        (weaken-Runs
          (Guards-Runs w1 v.tables _
            (renew_body-Guards user_id service_id w1 v.tables b.saved b.tables))
          (λ a x h. h) (λ x r. inl (renew_back w1 x b r)))
        λ order_id w2 (o, r).
          let renewal =
            subst (λ n. Renewal user_id service_id n order_id v.tables w2.tables) b.now r in
          bind-Runs
            (weaken-Runs (commit-Runs w2 v.tables (o.saved ∙ b.saved)) (λ a x h. h)
              (λ x d. renew-InDoubt order_id w1 w2 x b o renewal d))
            λ _ w3 c.
              renew_notice-Runs order_id w3
                (subst (λ t. Renewal user_id service_id v.now order_id v.tables t) (sym c.tables)
                  renewal)
                c.saved (c.sent ∙ o.sent ∙ b.sent)
