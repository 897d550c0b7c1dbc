-- ===== src/Repository/Wallets.antt =====
-- internal/repository/wallet_repository.go and WalletTxRepository of order_repository.go, with
-- internal/wallet/service.go and internal/payment/wallet_payment.go on top.
use x_ui_site.Prelude.{
  ℕ, ◌+◌, String, Bool, false, not, ◌&&◌, List, [], ◌∷◌, ◌++◌, find, any, select, take, reverse,
  update_where, ◌==◌,
}
use x_ui_site.Prelude.Int.{ℤ, pos, ◌+ℤ◌, ◌-ℤ◌, ltb_ℤ, fits64, neg64}
use x_ui_site.Db.Rows.{Tables, WalletRow, WalletTx}
use x_ui_site.Db.Errors.{Result, ok, foreign_key_violation, out_of_range, new}
use x_ui_site.Db.Session.{
  M, Sql, query, read, exec, look, begin, commit, lift, ◌>>=◌, ◌>>◌, or_rollback,
}
use x_ui_site.Repository.Statements.{scan_row, checked, has_user}

-- user_id=$1 AND deleted_at IS NULL
abbrev pub is_wallet_of : ℕ → WalletRow → Bool
is_wallet_of user_id r = r.user_id == user_id && not r.deleted

-- SELECT … FROM wallets WHERE user_id=$1 AND deleted_at IS NULL. No order is asked for: of several
-- wallets of a user the first in the table answers.
abbrev pub wallet_of : ℕ → Tables → Result WalletRow
wallet_of user_id t = scan_row (find (is_wallet_of user_id) t.wallets)

abbrev pub with_balance : (ℤ → ℤ) → WalletRow → WalletRow
with_balance f r = record r { balance = f r.balance }

-- UPDATE wallets SET balance=… WHERE id=…; a BIGINT out of range is an error.
unfoldable pub update_balance : ℕ → (ℤ → ℤ) → Sql (Unit {0})
update_balance id f = query λ t.
    checked (not (any (λ r. r.id == id && not (fits64 (f r.balance))) t.wallets)) out_of_range
      (tt, record t { wallets = update_where (λ r. r.id == id) (with_balance f) t.wallets })

-- INSERT INTO wallet_transactions(wallet_id, user_id, amount, type)
unfoldable pub insert_transaction : ℕ → ℕ → ℤ → String → Sql (Unit {0})
insert_transaction wallet_id user_id amount type s t =
    let row : WalletTx = record {
      id = s.wallet_transactions;
      wallet_id = wallet_id;
      user_id = user_id;
      amount = amount;
      type = type;
      deleted = false;
    } in
    (
      record s { wallet_transactions = s.wallet_transactions + 1 },
      checked (any (λ r. r.id == wallet_id) t.wallets && has_user user_id t) foreign_key_violation
          (tt, record t { wallet_transactions = t.wallet_transactions ++ row ∷ [] }),
    )

-- WalletTxRepository.DeductTx
unfoldable pub deduct_tx : ℕ → ℤ → M (Unit {0})
deduct_tx user_id amount = do
  wallet ← exec (read (wallet_of user_id))
  lift (checked (not (ltb_ℤ wallet.balance amount)) (new "insufficient wallet balance") tt)
  exec (update_balance wallet.id (λ b. b -ℤ amount))
  exec (insert_transaction wallet.id user_id (neg64 amount) "order_debit")

-- INSERT INTO wallets(user_id,balance) VALUES($1,0) ON CONFLICT DO NOTHING. The only constraint
-- is UNIQUE(user_id, vendor_id) with vendor_id NULL, and NULLs are distinct: no row conflicts.
unfoldable pub insert_wallet : ℕ → Sql (Unit {0})
insert_wallet user_id s t =
    let row : WalletRow = record {
      id = s.wallets;
      user_id = user_id;
      balance = pos 0;
      deleted = false;
    } in
    (
      record s { wallets = s.wallets + 1 },
      checked (has_user user_id t) foreign_key_violation
          (tt, record t { wallets = t.wallets ++ row ∷ [] }),
    )

-- WalletRepository.EnsureForUser
unfoldable pub ensure_for_user : ℕ → M (Unit {0})
ensure_for_user user_id = exec (insert_wallet user_id)

-- WalletRepository.Balance, and wallet.Service.Balance which only calls it.
unfoldable pub balance : ℕ → M ℤ
balance user_id = do wallet ← look (wallet_of user_id); lift (ok wallet.balance)

-- WalletRepository.ApplyTransaction: the wallet is found whether deleted or not, and no balance
-- is tested. The deferred rollback follows every error.
unfoldable pub apply_transaction : ℕ → ℤ → String → M (Unit {0})
apply_transaction user_id amount type = do
  begin
  wallet ←
      or_rollback (λ e. e)
        (exec (read (λ t. scan_row (find (λ r. r.user_id == user_id) t.wallets))))
  or_rollback (λ e. e) (exec (update_balance wallet.id (λ b. b +ℤ amount)))
  or_rollback (λ e. e) (exec (insert_transaction wallet.id user_id amount type))
  commit

-- payment.Service.Deduct
unfoldable pub deduct : ℕ → ℤ → M (Unit {0})
unfolding apply_transaction
deduct user_id amount = apply_transaction user_id (neg64 amount) "order_debit"

-- WalletRepository.ListTransactions. Rows stand in the order of their ids, so ORDER BY id DESC is
-- the reverse.
unfoldable pub list_transactions : ℕ → ℕ → M (List WalletTx)
list_transactions user_id limit = look λ t. ok (
    take limit
      (reverse (select (λ r. r.user_id == user_id && not r.deleted) t.wallet_transactions)))
