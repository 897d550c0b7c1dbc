-- ===== src/Ledger/TopUp.antt =====
-- WalletRepository.ApplyTransaction, and the route of internal/http/server.go that tops up a wallet.
use x_ui_site.Prelude.{
  ℕ, String, ◌≡◌, refl, sym, ap, subst, ◌∙◌, ◌⊎◌, inl, inr, true, false, none, some, [], ◌∷◌, ◌++◌,
  find, update_where, ◌==◌,
}
use x_ui_site.Prelude.Int.{ℤ, ◌+ℤ◌}
use x_ui_site.Db.Rows.{Tables, WalletRow, WalletTx}
use x_ui_site.Db.Session.{World, loses, exec}
use x_ui_site.Db.Hoare.{RolledBack, Opens, exec-Opens, or_rollback-Guards}
use x_ui_site.Db.Rules.{
  Runs, bind-Runs, begin-Runs, Guards-Runs, commit-Runs, weaken-Runs, Runs-world,
}
use x_ui_site.Repository.Statements.{scan_row, scan_row-eq-ok, checked-eq-ok}
use x_ui_site.Repository.Wallets.{
  apply_transaction, update_balance, insert_transaction, with_balance,
}
use x_ui_site.Order.Steps.{read-Opens}
use x_ui_site.Ledger.Sums.{IsBalanced, ledger_balance-append, shift-IsBalanced}

abbrev pub entry : ℕ → WalletRow → ℕ → ℤ → String → WalletTx
entry id wallet user_id amount type = record {
  id = id;
  wallet_id = wallet.id;
  user_id = user_id;
  amount = amount;
  type = type;
  deleted = false;
}

-- The wallet takes the amount, and the ledger says so.
abbrev pub credit : WalletRow → ℕ → ℕ → ℤ → String → Tables → Tables
credit wallet id user_id amount type t = record t {
  wallets = update_where (λ r. r.id == wallet.id) (with_balance (λ b. b +ℤ amount)) t.wallets;
  wallet_transactions = t.wallet_transactions ++ entry id wallet user_id amount type ∷ [];
}

module _ (user_id : ℕ) (amount : ℤ) (type : String) where
  -- The first wallet of the user, deleted or not, was credited once.
  pub record Credited (t t' : Tables) : Type 0 where
    pub wallet : WalletRow
    pub entry_id : ℕ
    pub found : find (λ r. r.user_id == user_id) t.wallets ≡ some wallet
    pub rows : t' ≡ credit wallet entry_id user_id amount type t

  abbrev pub Applied : World → World → Type 0
  Applied v w = Credited v.tables w.tables × (w.saved ≡ none)

  abbrev pub NotApplied : World → World → Type 0
  NotApplied v w =
      ((w.tables ≡ v.tables) ⊎ (Credited v.tables w.tables × (loses v ≡ true))) × (w.saved ≡ none)

  abbrev shifted : WalletRow → Tables → Tables
  shifted wallet t = record t {
    wallets = update_where (λ r. r.id == wallet.id) (with_balance (λ b. b +ℤ amount)) t.wallets;
  }

  abbrev with_entry : WalletRow → ℕ → Tables → Tables
  with_entry wallet id t = record t {
    wallet_transactions = t.wallet_transactions ++ entry id wallet user_id amount type ∷ [];
  }

  shift-Opens :
      (wallet : WalletRow) (v : World)
      → Opens v
          (exec (update_balance wallet.id (λ b. b +ℤ amount)))
          (λ _ t. t ≡ shifted wallet v.tables)
  unfolding update_balance
  shift-Opens wallet v = exec-Opens _ λ a t e. sym (ap (λ p. p.1) (checked-eq-ok _ _ _ e).1)

  enter-Opens :
      (wallet : WalletRow) (v : World)
      → Opens v
          (exec (insert_transaction wallet.id user_id amount type))
          (λ _ t. (id : ℕ) × (t ≡ with_entry wallet id v.tables))
  unfolding insert_transaction
  enter-Opens wallet v =
      exec-Opens _
        λ a t e. (v.seqs.wallet_transactions, sym (ap (λ p. p.1) (checked-eq-ok _ _ _ e).1))

  module _ (v : World) (closed : v.saved ≡ none) where
    rolled : (w x : World) (t : Tables) → t ≡ v.tables → RolledBack w t x → NotApplied v x
    rolled w x t same r = (inl (r.tables ∙ same), r.saved)

    -- With no transaction open, whatever statement fails: an ApplyTransaction that answers has added
    -- the amount to the first wallet of the user, once, together with its entry in the ledger; one that
    -- fails has changed no row, or its commit went through and the answer to it was lost.
    pub apply_transaction_atomic :
        Runs v (apply_transaction user_id amount type) (λ _. Applied v) (NotApplied v)
    unfolding apply_transaction
    apply_transaction_atomic =
        bind-Runs
          (weaken-Runs (begin-Runs v) (λ a x h. h)
            (λ x u. (inl u.tables, u.outside.saved ∙ closed)))
          λ _ w1 b.
            bind-Runs
              (weaken-Runs
                (Guards-Runs w1 v.tables _ (or_rollback-Guards _ b.saved (read-Opens _ w1)))
                (λ a x h. h) (λ x r. rolled w1 x v.tables refl r))
              λ wallet w2 (s2, (found, same)).
                let o2 = s2.saved ∙ b.saved in
                let t2 = same ∙ b.tables in
                bind-Runs
                  (weaken-Runs
                    (Guards-Runs w2 v.tables _ (or_rollback-Guards _ o2 (shift-Opens wallet w2)))
                    (λ a x h. h) (λ x r. rolled w2 x v.tables refl r))
                  λ _ w3 (s3, shift).
                    let o3 = s3.saved ∙ o2 in
                    bind-Runs
                      (weaken-Runs
                        (Guards-Runs w3 v.tables _
                          (or_rollback-Guards _ o3 (enter-Opens wallet w3)))
                        (λ a x h. h) (λ x r. rolled w3 x v.tables refl r))
                      λ _ w4 (s4, (id, entered)).
                        let o4 = s4.saved ∙ o3 in
                        let whole : Credited v.tables w4.tables = record {
                          wallet = wallet;
                          entry_id = id;
                          found = scan_row-eq-ok _ (
                              ap (λ t. scan_row (find (λ r. r.user_id == user_id) t.wallets))
                                (sym b.tables)
                              ∙ found);
                          rows =
                              entered ∙ ap (with_entry wallet id) (shift ∙ ap (shifted wallet) t2);
                        } in
                        weaken-Runs (commit-Runs w4 v.tables o4)
                          (λ _ x c. (subst (Credited v.tables) (sym c.tables) whole, c.saved))
                          (λ x d. (
                            by_rows w4 x whole (λ e. b.lost (s2.lost (s3.lost (s4.lost e))))
                                d.tables,
                            d.saved,
                          ))
      where
        by_rows :
            (w4 x : World)
            → Credited v.tables w4.tables
            → (loses w4 ≡ true → loses v ≡ true)
            → (((x.tables ≡ w4.tables) × (loses w4 ≡ true)) ⊎ (x.tables ≡ v.tables))
            → (x.tables ≡ v.tables) ⊎ (Credited v.tables x.tables × (loses v ≡ true))
        by_rows w4 x whole back (inl (all, gone)) =
            inr (subst (Credited v.tables) (sym all) whole, back gone)
        by_rows w4 x whole back (inr nothing) = inl nothing

  -- A credit keeps balances and ledger in step.
  Credited-IsBalanced : (t t' : Tables) → Credited t t' → IsBalanced t → IsBalanced t'
  Credited-IsBalanced t t' c b = subst IsBalanced (sym c.rows) (
      shift-IsBalanced c.wallet.id amount t.wallet_transactions _ (λ x. x +ℤ amount) (λ x. refl)
        (λ k. ledger_balance-append k t.wallet_transactions _) t.wallets b)

  -- With no transaction open, and whatever fails: every wallet holds exactly what its ledger entries
  -- add up to after an ApplyTransaction, if that held before.
  pub apply_transaction-IsBalanced :
      (v : World)
      → v.saved ≡ none
      → IsBalanced v.tables
      → IsBalanced (apply_transaction user_id amount type v).1.tables
  apply_transaction-IsBalanced v closed b =
      Runs-world (λ x. IsBalanced x.tables) (apply_transaction_atomic v closed)
        (λ _ x h. Credited-IsBalanced v.tables x.tables h.0 b) (λ x h. by_rows x h.0)
    where
      by_rows :
          (x : World)
          → ((x.tables ≡ v.tables) ⊎ (Credited v.tables x.tables × (loses v ≡ true)))
          → IsBalanced x.tables
      by_rows x (inl same) = subst IsBalanced (sym same) b
      by_rows x (inr (c, gone)) = Credited-IsBalanced v.tables x.tables c b
