-- ===== src/Order/Effect.antt =====
-- What an accepted order is to do to the tables: the specification of internal/order/service.go.
use x_ui_site.Prelude.{
  ℕ, ◌≡◌, Bool, true, false, not, ◌&&◌, Option, none, some, [], ◌∷◌, ◌++◌, find, any, update_where,
  ◌==◌,
}
use x_ui_site.Prelude.Int.{ℤ, ◌-ℤ◌, ◌≤ℤ◌, neg64, fits64}
use x_ui_site.Db.Rows.{Tables, WalletRow, WalletTx, OrderRow, KeyRow, Job}
use x_ui_site.Db.Rows
use x_ui_site.Repository.Wallets.{is_wallet_of, with_balance}
use x_ui_site.Repository.Orders.{is_key, with_order, order_keys}
use x_ui_site.Order.{CreateRequest, new_order}

-- The rows that are written, but for what the request says: the wallet that pays, and the ids that
-- the ledger entry, the order and the job are given.
pub record Placement : Type 0 where
  pub wallet : WalletRow
  pub entry_id : ℕ
  pub order_id : ℕ
  pub job_id : ℕ

abbrev pub debit_entry : ℕ → WalletRow → ℕ → ℤ → WalletTx
debit_entry entry_id wallet user_id price = record {
  id = entry_id;
  wallet_id = wallet.id;
  user_id = user_id;
  amount = neg64 price;
  type = "order_debit";
  deleted = false;
}

-- The wallet pays the price, and the ledger says so.
abbrev pub charge : WalletRow → ℕ → ℕ → ℤ → Tables → Tables
charge wallet entry_id user_id price t = record t {
  wallets = update_where (λ r. r.id == wallet.id) (with_balance (λ b. b -ℤ price)) t.wallets;
  wallet_transactions = t.wallet_transactions ++ debit_entry entry_id wallet user_id price ∷ [];
}

abbrev pub key_row : CreateRequest → Option ℕ → KeyRow
key_row req order_id = record {
  vendor_id = req.vendor_id;
  user_id = req.user_id;
  idempotency_key = req.idempotency_key;
  order_id = order_id;
}

abbrev pub order_row : CreateRequest → ℤ → ℕ → OrderRow
order_row req price order_id = record {
  order = record (new_order req price) { id = order_id };
  deleted = false;
}

abbrev pub job_row : CreateRequest → ℕ → ℕ → Job
job_row req order_id job_id = record {
  id = job_id;
  vendor_id = req.vendor_id;
  order_id = order_id;
  status = Rows.JobState.pending;
  retries = 0;
  last_error = none;
  dead_letter = false;
  deleted = false;
}

-- The rows after an order of `req` at `price` was accepted over the rows `t`.
abbrev pub effect : CreateRequest → ℤ → Placement → Tables → Tables
effect req price p t = record (charge p.wallet p.entry_id req.user_id price t) {
  order_idempotency_keys =
      update_where (is_key req.vendor_id req.user_id req.idempotency_key) (with_order p.order_id)
        (t.order_idempotency_keys ++ key_row req none ∷ []);
  orders = t.orders ++ order_row req price p.order_id ∷ [];
  provisioning_jobs = t.provisioning_jobs ++ job_row req p.order_id p.job_id ∷ [];
}

-- UPDATE wallets would leave the range of BIGINT.
abbrev pub overflows : WalletRow → ℤ → Tables → Bool
overflows wallet price t =
    any (λ r. r.id == wallet.id && not (fits64 (r.balance -ℤ price))) t.wallets

-- When such an order is possible at all: the key is new, a wallet of the user holds the price, and
-- the order's foreign keys exist.
pub record Payable (req : CreateRequest) (price : ℤ) (wallet : WalletRow) (t : Tables)
    : Type 0 where
  pub new_key :
      any (is_key req.vendor_id req.user_id req.idempotency_key) t.order_idempotency_keys ≡ false
  pub found : find (is_wallet_of req.user_id) t.wallets ≡ some wallet
  pub covered : price ≤ℤ wallet.balance
  pub in_range : overflows wallet price t ≡ false
  pub keys_exist : order_keys (new_order req price) t ≡ true

-- `t'` is `t` after one order, under the id `order_id`.
pub record Placed (req : CreateRequest) (price : ℤ) (order_id : ℕ) (t t' : Tables) : Type 0 where
  pub placement : Placement
  pub the_order : placement.order_id ≡ order_id
  pub payable : Payable req price placement.wallet t
  pub rows : t' ≡ effect req price placement t
