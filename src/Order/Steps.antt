-- ===== src/Order/Steps.antt =====
-- What each step of a transaction does to the rows, if it answers.
use x_ui_site.Prelude.{
  ℕ, ◌≡◌, refl, sym, ◌∙◌, ap, subst, Bool, true, false, not, none, some, [], ◌∷◌, ◌++◌, find, any,
  update_where, ◌==◌, arith, not-eq-true,
}
use x_ui_site.Prelude.Int.{ℤ, ◌-ℤ◌, ◌≤ℤ◌, ltb_ℤ, neg64}
use x_ui_site.Db.Rows.{Tables, WalletRow}
use x_ui_site.Db.Errors.{Result, ok, ok-injective}
use x_ui_site.Db.Session.{World, exec, read}
use x_ui_site.Db.Hoare.{Opens, exec-Opens, lift-Opens, bind-Opens, weaken-Opens}
use x_ui_site.Repository.Statements.{
  scan_row-eq-ok, checked-eq-ok, unless_taken-eq-ok, map_ok-eq-ok,
}
use x_ui_site.Repository.Wallets.{
  is_wallet_of, wallet_of, with_balance, update_balance, insert_transaction, deduct_tx,
}
use x_ui_site.Repository.Orders.{
  is_key, with_order, order_keys, insert_key, reserve_tx, insert_order, create_tx, update_key,
  link_order_tx,
}
use x_ui_site.Repository.Jobs.{insert_job, enqueue_tx}
use x_ui_site.Order.{CreateRequest, new_order}
use x_ui_site.Order.Effect.{overflows, charge, debit_entry, key_row, order_row, job_row}

-- The rows that an answer carries are those that the statement wrote.
answered : {A : Type 0} {a b : A} {t t' : Tables} → ◌≡◌ {A = A × Tables} (a, t) (b, t') → t' ≡ t
answered e = sym (ap (λ p. p.1) e)

module _ (req : CreateRequest) where
  abbrev has_key : Tables → Bool
  has_key t = any (is_key req.vendor_id req.user_id req.idempotency_key) t.order_idempotency_keys

  pub record Reserved (t t' : Tables) : Type 0 where
    pub new_key : has_key t ≡ false
    pub rows :
        t' ≡ record t { order_idempotency_keys = t.order_idempotency_keys ++ key_row req none ∷ [] }

  pub reserve-Opens :
      (v : World)
      → Opens v (reserve_tx req.vendor_id req.user_id req.idempotency_key) (λ _. Reserved v.tables)
  unfolding reserve_tx insert_key
  reserve-Opens v = exec-Opens _ λ a t e.
      let (fresh, written) = unless_taken-eq-ok (has_key v.tables) _ e in
      let (exist, same) = checked-eq-ok _ _ _ written in
      record { new_key = fresh; rows = answered same }

  pub record Linked (order_id : ℕ) (t t' : Tables) : Type 0 where
    pub rows : t' ≡ record t {
      order_idempotency_keys =
          update_where
            (is_key req.vendor_id req.user_id req.idempotency_key)
            (with_order order_id)
            t.order_idempotency_keys;
    }

  pub link-Opens :
      (order_id : ℕ) (v : World)
      → Opens v
          (link_order_tx req.vendor_id req.user_id req.idempotency_key order_id)
          (λ _. Linked order_id v.tables)
  unfolding link_order_tx update_key
  link-Opens order_id v = exec-Opens _ λ a t e. record { rows = answered (ok-injective e) }

  pub record Enqueued (order_id : ℕ) (t t' : Tables) : Type 0 where
    pub job_id : ℕ
    pub rows :
        t'
        ≡ record t { provisioning_jobs = t.provisioning_jobs ++ job_row req order_id job_id ∷ [] }

  pub enqueue-Opens :
      (order_id : ℕ) (v : World)
      → Opens v (enqueue_tx req.vendor_id order_id) (λ _. Enqueued order_id v.tables)
  unfolding enqueue_tx insert_job
  enqueue-Opens order_id v = exec-Opens _ λ a t e.
      let (exist, same) = checked-eq-ok _ _ _ e in
      record { job_id = v.seqs.provisioning_jobs; rows = answered same }

module _ (req : CreateRequest) (price : ℤ) where
  pub record Ordered (order_id : ℕ) (t t' : Tables) : Type 0 where
    pub keys_exist : order_keys (new_order req price) t ≡ true
    pub rows : t' ≡ record t { orders = t.orders ++ order_row req price order_id ∷ [] }

  abbrev with_order_id : Tables → ℕ → Tables
  with_order_id t id = record t { orders = t.orders ++ order_row req price id ∷ [] }

  pub create-Opens :
      (v : World) → Opens v (create_tx (new_order req price)) (λ id. Ordered id v.tables)
  unfolding create_tx insert_order
  create-Opens v = exec-Opens _ λ a t e.
      let (exist, same) = checked-eq-ok _ _ _ e in
      record {
        keys_exist = exist;
        rows = answered same ∙ ap (with_order_id v.tables) (ap (λ p. p.0) same);
      }

-- The wallet that pays, and what it takes for the payment to go through.
pub record Charged (user_id : ℕ) (price : ℤ) (t t' : Tables) : Type 0 where
  pub wallet : WalletRow
  pub entry_id : ℕ
  pub found : find (is_wallet_of user_id) t.wallets ≡ some wallet
  pub covered : price ≤ℤ wallet.balance
  pub in_range : overflows wallet price t ≡ false
  pub rows : t' ≡ charge wallet entry_id user_id price t

pub read-Opens :
    {A : Type 0} (q : Tables → Result A) (v : World)
    → Opens v (exec (read q)) (λ a t. (q v.tables ≡ ok a) × (t ≡ v.tables))
read-Opens q v = exec-Opens _ λ a t e.
    let (b, answer, same) = map_ok-eq-ok (λ x. (x, v.tables)) (q v.tables) e in
    (answer ∙ ap ok (ap (λ p. p.0) same), answered same)

module _ (wallet : WalletRow) (user_id : ℕ) (price : ℤ) where
  record Debited (t t' : Tables) : Type 0 where
    in_range : overflows wallet price t ≡ false
    rows : t' ≡ record t {
      wallets = update_where (λ r. r.id == wallet.id) (with_balance (λ b. b -ℤ price)) t.wallets;
    }

  debit-Opens :
      (v : World)
      → Opens v (exec (update_balance wallet.id (λ b. b -ℤ price))) (λ _. Debited v.tables)
  unfolding update_balance
  debit-Opens v = exec-Opens _ λ a t e.
      let (fits, same) = checked-eq-ok _ _ _ e in
      record { in_range = not-eq-true (overflows wallet price v.tables) fits; rows = answered same }

  record Entered (t t' : Tables) : Type 0 where
    entry_id : ℕ
    rows : t' ≡ record t {
      wallet_transactions = t.wallet_transactions ++ debit_entry entry_id wallet user_id price ∷ [];
    }

  enter-Opens :
      (v : World)
      → Opens v
          (exec (insert_transaction wallet.id user_id (neg64 price) "order_debit"))
          (λ _. Entered v.tables)
  unfolding insert_transaction
  enter-Opens v = exec-Opens _ λ a t e.
      let (exist, same) = checked-eq-ok _ _ _ e in
      record { entry_id = v.seqs.wallet_transactions; rows = answered same }

  charged :
      (t t1 t2 : Tables)
      → find (is_wallet_of user_id) t.wallets ≡ some wallet
      → price ≤ℤ wallet.balance
      → Debited t t1
      → Entered t1 t2
      → Charged user_id price t t2
  charged t t1 t2 f c d e = record {
    wallet = wallet;
    entry_id = e.entry_id;
    found = f;
    covered = c;
    in_range = d.in_range;
    rows = e.rows ∙ ap (entered e.entry_id) d.rows;
  }
    where
      entered : ℕ → Tables → Tables
      entered id s = record s {
        wallet_transactions = s.wallet_transactions ++ debit_entry id wallet user_id price ∷ [];
      }

covered_of_not_ltb : (b p : ℤ) → not (ltb_ℤ b p) ≡ true → p ≤ℤ b
covered_of_not_ltb b p h = ground arith

-- A deduction that answers has charged the user's wallet, and the wallet held the price.
pub deduct-Opens :
    (user_id : ℕ) (price : ℤ) (v : World)
    → Opens v (deduct_tx user_id price) (λ _. Charged user_id price v.tables)
unfolding deduct_tx
deduct-Opens user_id price v =
    bind-Opens (read-Opens (wallet_of user_id) v) λ wallet w1 s1 (found, same1).
      bind-Opens {Q = λ _ t. (price ≤ℤ wallet.balance) × (t ≡ w1.tables)}
        (lift-Opens _
          λ _ e. (covered_of_not_ltb wallet.balance price (checked-eq-ok _ _ _ e).0, refl))
        λ _ w2 s2 (enough, same2).
          bind-Opens (debit-Opens wallet user_id price w2) λ _ w3 s3 debited.
            weaken-Opens (enter-Opens wallet user_id price w3) λ _ t entered.
              subst (λ x. Charged user_id price x t) (same2 ∙ same1)
                (charged wallet user_id price w2.tables w3.tables t
                  (subst (λ x. find (is_wallet_of user_id) x.wallets ≡ some wallet)
                    (sym (same2 ∙ same1)) (scan_row-eq-ok _ found))
                  enough debited entered)
