-- ===== src/Order/Answers.antt =====
-- Service.Create over a healthy connection: where the rows allow the order, it is placed.
use x_ui_site.Prelude.{
  ℕ, ◌≡◌, refl, sym, subst, ◌∙◌, Bool, true, false, not, none, some, List, [], ◌∷◌, ◌++◌, find, any,
  update_where, ◌==◌, ==-refl, str_eq, if◌then◌else◌, arith, find-none_of_any, any-last,
}
use x_ui_site.Prelude.Int.{ℤ, ◌-ℤ◌, ◌≤ℤ◌, ltb_ℤ, neg64}
use x_ui_site.Db.Rows.{Tables, WalletRow}
use x_ui_site.Db.Errors.{ok, is_ok, new}
use x_ui_site.Db.Session.{World, ◌>>=◌, ◌>>◌, read, notify, pure}
use x_ui_site.Db.Rules.{Runs, bind-Runs, or_return-Runs, pure-Runs, weaken-Runs}
use x_ui_site.Db.Success.{
  Stands, Never, Gives, exec-Gives, look-Gives, begin-Stands, commit-Stands, or_rollback-Never,
  lift-Gives, Ends-answer,
}
use x_ui_site.Repository.Statements.{has_user, has_vendor, checked}
use x_ui_site.Repository.Wallets.{
  deduct_tx, wallet_of, is_wallet_of, update_balance, insert_transaction, with_balance,
}
use x_ui_site.Repository.Orders.{
  insert_key, reserve_tx, insert_order, create_tx, update_key, link_order_tx, is_key, with_order,
  resolve_key, resolve,
}
use x_ui_site.Repository.Jobs.{insert_job, enqueue_tx}
use x_ui_site.Repository.Catalog.{CatalogPrice, catalog_price, get}
use x_ui_site.Order.{
  CreateRequest, create, create_keyed, create_new, create_duplicate, place, approved_payload,
  accepted,
}
use x_ui_site.Order.Effect.{Payable, charge, key_row, order_row, job_row}

find-any :
    (p q : WalletRow → Bool) (ws : List WalletRow) (w : WalletRow)
    → find p ws ≡ some w
    → q w ≡ true
    → any q ws ≡ true
find-any p q [] w e h = cc
find-any p q (x ∷ ws) w e h = ground (arith, find-any p q ws w)

any-charged :
    (id : ℕ) (f : ℤ → ℤ) (ws : List WalletRow)
    → any (λ r. r.id == id) (update_where (λ r. r.id == id) (with_balance f) ws)
      ≡ any (λ r. r.id == id) ws
any-charged id f [] = refl
any-charged id f (w ∷ ws) = ground (arith, any-charged id f ws)

not_ltb_of_covered : (b p : ℤ) → p ≤ℤ b → not (ltb_ℤ b p) ≡ true
not_ltb_of_covered b p h = ground arith

module _ (req : CreateRequest) (price : ℤ) (wallet : WalletRow) (t : Tables)
    (p : Payable req price wallet t) where
  customer : has_user req.user_id t ≡ true
  customer = ground (arith, p.keys_exist)

  seller : has_vendor req.vendor_id t ≡ true
  seller = ground (arith, p.keys_exist)

  abbrev t1 : Tables
  t1 = record t { order_idempotency_keys = t.order_idempotency_keys ++ key_row req none ∷ [] }

  reserve-Gives :
      (b : _) (w : World)
      → Stands b t w
      → Runs w (reserve_tx req.vendor_id req.user_id req.idempotency_key) (Gives b tt t1) Never
  unfolding reserve_tx insert_key
  reserve-Gives b w s =
      exec-Gives b tt t1 (insert_key req.vendor_id req.user_id req.idempotency_key) t w s
        (rw p.new_key (rw customer (rw seller refl)))

  abbrev t2 : Tables
  t2 = record t1 {
    wallets = update_where (λ r. r.id == wallet.id) (with_balance (λ b. b -ℤ price)) t.wallets;
  }

  wallet_there : any (λ r. r.id == wallet.id) t2.wallets ≡ true
  wallet_there =
      any-charged wallet.id (λ b. b -ℤ price) t.wallets
      ∙ find-any (is_wallet_of req.user_id) (λ r. r.id == wallet.id) t.wallets wallet p.found
          (==-refl wallet.id)

  deduct-Gives :
      (b : _) (w : World)
      → Stands b t1 w
      → Runs w
          (deduct_tx req.user_id price)
          (λ _ x. (entry : ℕ) × Stands b (charge wallet entry req.user_id price t1) x)
          Never
  unfolding deduct_tx update_balance insert_transaction
  deduct-Gives b w s =
      bind-Runs (exec-Gives b wallet t1 (read (wallet_of req.user_id)) t1 w s (rw p.found refl))
        λ found w1 (e, s1).
          bind-Runs {P = λ _ x. Stands b t1 x}
            (lift-Gives _ tt
              (subst
                (λ (z : WalletRow).
                  checked (not (ltb_ℤ z.balance price)) (new "insufficient wallet balance") tt
                  ≡ ok tt)
                (sym e) (rw (not_ltb_of_covered wallet.balance price p.covered) refl))
              s1)
            λ _ w2 s2.
              bind-Runs
                (exec-Gives b tt t2 (update_balance found.id (λ x. x -ℤ price)) t1 w2 s2 (
                  subst
                    (λ (z : WalletRow).
                      (update_balance z.id (λ x. x -ℤ price) w2.seqs t1).1 ≡ ok (tt, t2))
                    (sym e) (rw p.in_range refl)))
                λ _ w3 (_, s3).
                  weaken-Runs
                    (exec-Gives b tt
                      (charge wallet w3.seqs.wallet_transactions req.user_id price t1) _ t2 w3 s3
                      (subst
                        (λ (z : WalletRow).
                          (insert_transaction z.id req.user_id (neg64 price) "order_debit" w3.seqs
                            t2).1
                          ≡ ok (tt, charge wallet w3.seqs.wallet_transactions req.user_id price t1))
                        (sym e) (rw wallet_there (rw customer refl))))
                    (λ _ x h. (w3.seqs.wallet_transactions, h.1)) (λ x h. h)

  abbrev t4 : ℕ → ℕ → Tables
  t4 entry id = record (charge wallet entry req.user_id price t1) {
    orders = t.orders ++ order_row req price id ∷ [];
  }

  abbrev t5 : ℕ → ℕ → Tables
  t5 entry id = record (t4 entry id) {
    order_idempotency_keys =
        update_where (is_key req.vendor_id req.user_id req.idempotency_key) (with_order id)
          t1.order_idempotency_keys;
  }

  abbrev t6 : ℕ → ℕ → ℕ → Tables
  t6 entry id job = record (t5 entry id) {
    provisioning_jobs = t.provisioning_jobs ++ job_row req id job ∷ [];
  }

  place-Gives :
      (b : _) (w : World)
      → Stands b t w
      → Runs w (place req price) (λ _ x. (u : Tables) × Stands b u x) Never
  unfolding place create_tx insert_order link_order_tx update_key enqueue_tx insert_job
  place-Gives b w s = bind-Runs (or_rollback-Never _ (reserve-Gives b w s)) λ _ w1 (_, s1).
      bind-Runs (or_rollback-Never _ (deduct-Gives b w1 s1)) λ _ w2 (entry, s2).
        bind-Runs
          (or_rollback-Never _ (
            exec-Gives b w2.seqs.orders (t4 entry w2.seqs.orders) _
              (charge wallet entry req.user_id price t1) w2 s2 (rw p.keys_exist refl)))
          λ id w3 (e, s3).
            bind-Runs
              (or_rollback-Never _ (
                exec-Gives b tt (t5 entry id)
                  (update_key req.vendor_id req.user_id req.idempotency_key id) (t4 entry id) w3
                  (subst (λ n. Stands b (t4 entry n) w3) (sym e) s3) refl))
              λ _ w4 (_, s4).
                bind-Runs
                  (or_rollback-Never _ (
                    exec-Gives b tt (t6 entry id w4.seqs.provisioning_jobs)
                      (insert_job req.vendor_id id) (t5 entry id) w4 s4
                      (rw seller (
                        rw
                          (any-last (λ r. r.order.id == id) t.orders (order_row req price id)
                            (==-refl id))
                          refl))))
                  λ _ w5 (_, s5). pure-Runs id (t6 entry id w4.seqs.provisioning_jobs, s5)

abbrev Any : {A : Type 0} → A → World → Type 0
Any a w = Unit {0}

module _ (req : CreateRequest) (item : CatalogPrice) (wallet : WalletRow) (v : World)
    (closed : v.saved ≡ none) (healthy : v.faults ≡ [])
    (keyed : str_eq req.idempotency_key "" ≡ false)
    (listed : catalog_price req.vendor_id req.catalog_id v.tables ≡ ok item)
    (own : (item.vendor_id == req.vendor_id) ≡ true) (active : item.is_active ≡ true)
    (p : Payable req item.price wallet v.tables) where
  new_key : resolve_key req.vendor_id req.user_id req.idempotency_key v.tables ≡ ok 0
  new_key = rw (find-none_of_any _ v.tables.order_idempotency_keys p.new_key) refl

  create_new-Gives : (w : World) → Stands none v.tables w → Runs w (create_new req) Any Never
  unfolding create_new get ◌>>=◌ notify
  create_new-Gives w s =
      bind-Runs (or_return-Runs _ (look-Gives _ item v.tables w s listed)) λ cat w1 (e, s1).
        bind-Runs {P = λ _ x. Stands none v.tables x}
          (lift-Gives _ tt
            (subst
              (λ (c : CatalogPrice).
                checked (c.vendor_id == req.vendor_id) (new "vendor isolation violation") tt
                ≡ ok tt)
              (sym e) (rw own refl))
            s1)
          λ _ w2 s2.
            bind-Runs {P = λ _ x. Stands none v.tables x}
              (lift-Gives _ tt
                (subst
                  (λ (c : CatalogPrice).
                    checked c.is_active (new "catalog item is not active") tt ≡ ok tt)
                  (sym e) (rw active refl))
                s2)
              λ _ w3 s3. bind-Runs (or_return-Runs _ (begin-Stands v.tables w3 s3)) λ _ w4 s4.
                bind-Runs
                  (subst
                    (λ (c : CatalogPrice).
                      Runs w4 (place req c.price) (λ _ x. (u : Tables) × Stands (some v.tables) u x)
                        Never)
                    (sym e) (place-Gives req item.price wallet v.tables p (some v.tables) w4 s4))
                  λ id w5 (u, s5).
                    bind-Runs (or_return-Runs _ (commit-Stands u (some v.tables) w5 s5))
                      λ _ w6 s6. announced id w6
    where
      announced :
          (id : ℕ) (w6 : World)
          → Runs w6
              (do notify "order.approved" (approved_payload req id); pure (accepted id))
              Any
              Never
      announced id w6 = record { holds = tt }

  create_keyed-Gives : Runs v (create_keyed req) Any Never
  unfolding create_keyed resolve
  create_keyed-Gives =
      bind-Runs
        (or_return-Runs _ (
          look-Gives _ 0 v.tables v (record { healthy = healthy; saved = closed; tables = refl })
            new_key))
        λ id u (e, s).
          subst (λ n. Runs u (if n == 0 then create_new req else create_duplicate req n) Any Never)
            (sym e) (create_new-Gives u s)

  -- With no transaction open and no fault ahead, a request with a key that has no order yet, for an
  -- active item of the vendor, by a user whose wallet holds the price, and whose rows satisfy the
  -- constraints of the schema, is answered.
  pub create_answers : is_ok (create req v).0 ≡ true
  unfolding create
  create_answers =
      rw keyed
        (Ends-answer Any (create_keyed req v).0 (create_keyed req v).1 create_keyed-Gives.holds)
