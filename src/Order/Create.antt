-- ===== src/Order/Create.antt =====
-- What Service.Create answers and leaves, on every path and under every fault.
use x_ui_site.Prelude.{
  ℕ, str_eq, ◌≡◌, refl, ◌∙◌, sym, ap, subst, Bool, true, false, none, ◌++◌, ◌∷◌, [], ◌⊎◌, inl, inr,
  ◌==◌, ==_iff, if◌then◌else◌,
}
use x_ui_site.Prelude.Int.{ℤ}
use x_ui_site.Db.Rows.{Tables}
use x_ui_site.Db.Errors.{Result, ok, wrap}
use x_ui_site.Db.Session.{World, loses, M, ◌>>=◌, ◌>>◌, notify, pure, commit, or_return, committed}
use x_ui_site.Db.Rules.{
  Runs, bind-Runs, or_return-Runs, weaken-Runs, lift-Runs, pure-Runs, raise-Runs, look-Runs,
  begin-Runs, Unchanged, Unchanged-refl, Unchanged-trans, Begun, Guards-Runs, InDoubt, commit-Runs,
  committed_of_closed,
}
use x_ui_site.Db.Hoare.{SameOutside, RolledBack}
use x_ui_site.Repository.Statements.{checked-eq-ok}
use x_ui_site.Repository.Orders.{order_by_id, resolve_key, resolve, by_id}
use x_ui_site.Repository.Catalog.{catalog_price, get}
use x_ui_site.Order.{
  CreateRequest, accepted, approved_payload, place, create_new, create_duplicate, create_keyed,
  create,
}
use x_ui_site.Order.Effect.{Placed}
use x_ui_site.Order.Atomic.{place-Guards}
use x_ui_site.Order.Outcome.{approval, Priced, Ordered, Answered, Failed}

module _ (req : CreateRequest) (v : World) (closed : v.saved ≡ none) where
  notice-Runs :
      (order_id : ℕ) (w : World)
      → resolve_key req.vendor_id req.user_id req.idempotency_key v.tables ≡ ok 0
      → Ordered req v order_id w
      → w.sent ≡ v.sent
      → Runs w
          (do notify "order.approved" (approved_payload req order_id); pure (accepted order_id))
          (Answered req v)
          (Failed req v)
  unfolding ◌>>=◌ notify
  notice-Runs order_id w k o s = record {
    holds = inl (record {
      unlinked = k;
      ordered = record { price = o.price; priced = o.priced; placed = o.placed; saved = o.saved };
      response = refl;
      sent = ap (λ x. x ++ approval req order_id ∷ []) s;
    });
  }

  -- A rolled back transaction leaves the world as it was found.
  rolled_back :
      (w3 w4 x : World) → Unchanged v w3 → Begun w3 w4 → RolledBack w4 w3.tables x → Unchanged v x
  rolled_back w3 w4 x s b r = record {
    outside = record {
      now = r.now ∙ b.now ∙ s.outside.now;
      sent = r.sent ∙ b.sent ∙ s.outside.sent;
      calls = r.calls ∙ b.calls ∙ s.outside.calls;
      replies = r.replies ∙ b.replies ∙ s.outside.replies;
      lost = λ e. s.outside.lost (b.lost (r.lost e));
      saved = r.saved ∙ sym closed;
    };
    tables = r.tables ∙ s.tables;
  }

  in_doubt :
      (price : ℤ) (order_id : ℕ) (w3 w4 w5 x : World)
      → resolve_key req.vendor_id req.user_id req.idempotency_key v.tables ≡ ok 0
      → Unchanged v w3
      → Begun w3 w4
      → SameOutside w4 w5
      → Priced req v price
      → Placed req price order_id v.tables w5.tables
      → InDoubt w5 w3.tables x
      → Failed req v x
  in_doubt price order_id w3 w4 w5 x k s b o p q d =
      let sent = d.sent ∙ o.sent ∙ b.sent ∙ s.outside.sent in by_rows d.tables sent
    where
      by_rows :
          (((x.tables ≡ w5.tables) × (loses w5 ≡ true)) ⊎ (x.tables ≡ w3.tables))
          → x.sent ≡ v.sent
          → Failed req v x
      by_rows (inl (all, gone)) sent = inr (record {
        lost = s.outside.lost (b.lost (o.lost gone));
        order_id = order_id;
        unlinked = k;
        ordered = record {
          price = price;
          priced = p;
          placed = subst (λ t. Placed req price order_id v.tables t) (sym all) q;
          saved = d.saved;
        };
        sent = sent;
      })
      by_rows (inr nothing) sent = inl (record {
        outside = record {
          now = d.now ∙ o.now ∙ b.now ∙ s.outside.now;
          sent = sent;
          calls = d.calls ∙ o.calls ∙ b.calls ∙ s.outside.calls;
          replies = d.replies ∙ o.replies ∙ b.replies ∙ s.outside.replies;
          lost = λ e. s.outside.lost (b.lost (o.lost (d.lost e)));
          saved = d.saved ∙ sym closed;
        };
        tables = nothing ∙ s.tables;
      })

  place_new-Runs :
      (price : ℤ) (w3 w4 : World)
      → resolve_key req.vendor_id req.user_id req.idempotency_key v.tables ≡ ok 0
      → Priced req v price
      → Unchanged v w3
      → Begun w3 w4
      → Runs w4
          (do
            order_id ← place req price
            or_return (wrap "commit") commit
            notify "order.approved" (approved_payload req order_id)
            pure (accepted order_id))
          (Answered req v)
          (Failed req v)
  place_new-Runs price w3 w4 k p s b =
      bind-Runs
        (weaken-Runs (Guards-Runs w4 w3.tables _ (place-Guards req price w4 w3.tables b.saved))
          (λ a x h. h) (λ x r. inl (rolled_back w3 w4 x s b r)))
        λ order_id w5 (o, placed).
          let whole =
            subst (λ t. Placed req price order_id t w5.tables) (b.tables ∙ s.tables) placed in
          bind-Runs
            (or_return-Runs _ (
              weaken-Runs (commit-Runs w5 w3.tables (o.saved ∙ b.saved)) (λ a x h. h)
                (λ x d. in_doubt price order_id w3 w4 w5 x k s b o p whole d)))
            λ _ w6 c.
              notice-Runs order_id w6 k
                (record {
                  price = price;
                  priced = p;
                  placed = subst (λ t. Placed req price order_id v.tables t) (sym c.tables) whole;
                  saved = c.saved;
                })
                (c.sent ∙ o.sent ∙ b.sent ∙ s.outside.sent)

  -- What a SELECT of an unchanged world answers is in the rows of `v`.
  seen :
      {A : Type 0} (q : Tables → Result A) (a : A) (u : World)
      → Unchanged v u
      → q (committed u) ≡ ok a
      → q v.tables ≡ ok a
  seen q a u s e =
      subst (λ t. q t ≡ ok a) (committed_of_closed u (s.outside.saved ∙ closed) ∙ s.tables) e

  create_new-Runs :
      (u : World)
      → resolve_key req.vendor_id req.user_id req.idempotency_key v.tables ≡ ok 0
      → Unchanged v u
      → Runs u (create_new req) (Answered req v) (Failed req v)
  unfolding create_new get
  create_new-Runs u k s =
      bind-Runs
        (or_return-Runs _ (
          weaken-Runs (look-Runs (catalog_price req.vendor_id req.catalog_id) u) (λ a x h. h)
            (λ x h. inl (Unchanged-trans s h))))
        λ cat w1 (s1, listed).
          bind-Runs {P = λ _ w. Unchanged v w × ((cat.vendor_id == req.vendor_id) ≡ true)}
            (lift-Runs _ (λ _ e. (Unchanged-trans s s1, (checked-eq-ok _ _ _ e).0))
              (inl (Unchanged-trans s s1)))
            λ _ w2 (s2, own).
              bind-Runs {P = λ _ w. Unchanged v w × (cat.is_active ≡ true)}
                (lift-Runs _ (λ _ e. (s2, (checked-eq-ok _ _ _ e).0)) (inl s2))
                λ _ w3 (s3, on).
                  bind-Runs
                    (or_return-Runs _ (
                      weaken-Runs (begin-Runs w3) (λ a x h. h) (λ x h. inl (Unchanged-trans s3 h))))
                    λ _ w4 begun.
                      place_new-Runs cat.price w3 w4 k
                        (record {
                          item = cat;
                          listed = seen (catalog_price req.vendor_id req.catalog_id) cat u s listed;
                          of_vendor = (==_iff _ _).0 own;
                          active = on;
                          the_price = refl;
                        })
                        s3 begun

  create_duplicate-Runs :
      (key_order : ℕ) (u : World)
      → resolve_key req.vendor_id req.user_id req.idempotency_key v.tables ≡ ok key_order
      → Unchanged v u
      → Runs u (create_duplicate req key_order) (Answered req v) (Failed req v)
  unfolding create_duplicate by_id
  create_duplicate-Runs key_order u k s =
      bind-Runs
        (or_return-Runs _ (
          weaken-Runs (look-Runs (order_by_id req.vendor_id key_order) u) (λ a x h. h)
            (λ x h. inl (Unchanged-trans s h))))
        λ o w1 (s1, found). pure-Runs _ (
          inr (record {
            unchanged = Unchanged-trans s s1;
            key_order = key_order;
            linked = k;
            order = o;
            found = seen (order_by_id req.vendor_id key_order) o u s found;
            response = refl;
          }))

  branch-Runs :
      {A : Type 0} {P : A → World → Type 0} {E : World → Type 0} (b : Bool) (m n : M A) (u : World)
      → (b ≡ true → Runs u m P E)
      → (b ≡ false → Runs u n P E)
      → Runs u (if b then m else n) P E
  branch-Runs true m n u h k = h refl
  branch-Runs false m n u h k = k refl

  create_keyed-Runs : Runs v (create_keyed req) (Answered req v) (Failed req v)
  unfolding create_keyed resolve
  create_keyed-Runs =
      bind-Runs
        (or_return-Runs _ (
          weaken-Runs (look-Runs (resolve_key req.vendor_id req.user_id req.idempotency_key) v)
            (λ a x h. h) (λ x h. inl h)))
        λ id u (s, e).
          let key =
            seen (resolve_key req.vendor_id req.user_id req.idempotency_key) id v (Unchanged-refl v)
              e in
          branch-Runs (id == 0) _ _ u
            (λ zero_id. create_new-Runs u (key ∙ ap ok ((==_iff id 0).0 zero_id)) s)
            (λ _. create_duplicate-Runs id u key s)

  -- With no transaction open, whatever statement fails or whatever answer is lost: a call that answers has placed one whole
  -- order at the price of an active item of the vendor and announced it once, or has answered the
  -- order that the key already has and changed nothing; a call that fails has changed nothing,
  -- or its commit went through unheard and the whole order stands, unannounced.
  pub create_atomic : Runs v (create req) (Answered req v) (Failed req v)
  unfolding create
  create_atomic =
      branch-Runs (str_eq req.idempotency_key "") _ _ v (λ _. raise-Runs _ (inl (Unchanged-refl v)))
        (λ _. create_keyed-Runs)
