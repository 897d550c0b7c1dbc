-- ===== src/Ledger/Book.antt =====
-- The order book that the order engine keeps: what each customer can spend, and what was bought.
-- Wallet rows, ledger entries, keys, jobs and services are forgotten.
use x_ui_site.Prelude.{
  ℕ, ◌≡◌, refl, sym, ap, subst, true, false, Option, none, some, List, [], ◌∷◌, ◌++◌, map, find,
  any, update_where, ◌==◌, ==-refl, if◌then◌else◌, Bool-cases, inl, inr, arith,
}
use x_ui_site.Prelude.Int.{ℤ, ◌-ℤ◌, ◌≤ℤ◌}
use x_ui_site.Db.Rows.{Tables, WalletRow, OrderRow}
use x_ui_site.Db.Errors.{ok}
use x_ui_site.Db.Session.{World}
use x_ui_site.Repository.Wallets.{is_wallet_of, with_balance}
use x_ui_site.Repository.Catalog.{CatalogPrice, catalog_price}
use x_ui_site.Order.{CreateRequest}
use x_ui_site.Order.Effect.{Placed, order_row}
use x_ui_site.Order.Extension.{Renewal}
use x_ui_site.Order.History.{Arrival, serve, serve-Between}
use x_ui_site.Ledger.Sums.{IsUnique, shifted-IsUnique, shifted_none, find-fails}

pub record Purchase : Type 0 where
  pub order_id : ℕ
  pub vendor_id : ℕ
  pub user_id : ℕ
  pub catalog_id : ℕ
  pub price : ℤ

pub record Book : Type 0 where
  pub funds : ℕ → Option ℤ
  pub purchases : List Purchase

abbrev pub less : ℤ → Option ℤ → Option ℤ
less price none = none
less price (some b) = some (b -ℤ price)

abbrev pub paid : ℕ → ℤ → (ℕ → Option ℤ) → ℕ → Option ℤ
paid user_id price funds u = if u == user_id then less price (funds u) else funds u

-- A step of the book: a customer who has the price pays it, and the purchase is entered.
pub record Sale (b b' : Book) : Type 0 where
  pub purchase : Purchase
  pub balance : ℤ
  pub has : b.funds purchase.user_id ≡ some balance
  pub covered : purchase.price ≤ℤ balance
  pub after : b' ≡ record {
    funds = paid purchase.user_id purchase.price b.funds;
    purchases = b.purchases ++ purchase ∷ [];
  }

-- Any number of sales, one after the other.
pub data Sales (b : Book) : Book → Type 0 where
  unsold : Sales b b
  sold : (c d : Book) → Sales b c → Sale c d → Sales b d

abbrev balance_in : Option WalletRow → Option ℤ
balance_in none = none
balance_in (some w) = some w.balance

abbrev pub funds_of : List WalletRow → ℕ → Option ℤ
funds_of ws user_id = balance_in (find (is_wallet_of user_id) ws)

abbrev pub purchase_of : OrderRow → Purchase
purchase_of r = record {
  order_id = r.order.id;
  vendor_id = r.order.vendor_id;
  user_id = r.order.user_id;
  catalog_id = r.order.catalog_id;
  price = r.order.amount;
}

-- The book that the rows stand for.
abbrev pub book_of : Tables → Book
book_of t = record { funds = funds_of t.wallets; purchases = map purchase_of t.orders }

map-append_one :
    (xs : List OrderRow) (x : OrderRow)
    → map purchase_of (xs ++ x ∷ []) ≡ map purchase_of xs ++ purchase_of x ∷ []
map-append_one [] x = refl
map-append_one (y ∷ xs) x = ap (λ z. purchase_of y ∷ z) (map-append_one xs x)

-- A payment from the first wallet of the customer.
charged_first :
    (user_id : ℕ) (price : ℤ) (x : WalletRow) (ws : List WalletRow)
    → is_wallet_of user_id x ≡ true
    → any (λ r. r.id == x.id) ws ≡ false
    → (u : ℕ)
    → funds_of (update_where (λ r. r.id == x.id) (with_balance (λ b. b -ℤ price)) (x ∷ ws)) u
      ≡ paid user_id price (funds_of (x ∷ ws)) u
charged_first user_id price x ws hit single u =
    rw (==-refl x.id) (rw (shifted_none x.id (λ b. b -ℤ price) ws single) (ground arith))

module _ (user_id : ℕ) (price : ℤ) (w : WalletRow) where
  abbrev charged : List WalletRow → List WalletRow
  charged ws = update_where (λ r. r.id == w.id) (with_balance (λ b. b -ℤ price)) ws

  charged-funds :
      (ws : List WalletRow)
      → IsUnique ws
      → find (is_wallet_of user_id) ws ≡ some w
      → (u : ℕ) → funds_of (charged ws) u ≡ paid user_id price (funds_of ws) u
  charged-funds [] d e u = cc
  charged-funds (x ∷ ws) d e u = elim (Bool-cases (is_wallet_of user_id x)) [
    | inl hit ↦
        let same : x ≡ w = ground arith in
        subst
          (λ (y : WalletRow).
            funds_of (update_where (λ r. r.id == y.id) (with_balance (λ b. b -ℤ price)) (x ∷ ws)) u
            ≡ paid user_id price (funds_of (x ∷ ws)) u)
          same (charged_first user_id price x ws hit d.0 u)
    | inr miss ↦
        let later : find (is_wallet_of user_id) ws ≡ some w = ground arith in
        let other = find-fails (is_wallet_of user_id) (λ r. r.id == x.id) ws w later d.0 in
        let next = charged-funds ws d.1 later u in ground (arith, other, next)
  ]

-- A placed order is a sale.
Placed-Sale :
    (req : CreateRequest) (price : ℤ) (id : ℕ) (t t' : Tables)
    → IsUnique t.wallets
    → Placed req price id t t'
    → Sale (book_of t) (book_of t')
Placed-Sale req price id t t' d p =
    subst (λ x. Sale (book_of t) (book_of x)) (sym p.rows)
      (record {
        purchase = purchase_of (order_row req price p.placement.order_id);
        balance = p.placement.wallet.balance;
        has = ap balance_in p.payable.found;
        covered = p.payable.covered;
        after = λ i. record {
          funds = λ u.
              charged-funds req.user_id price p.placement.wallet t.wallets d p.payable.found u i;
          purchases = map-append_one t.orders (order_row req price p.placement.order_id) i;
        };
      })

-- What the book says between calls, over the rows `t` at the beginning.
record Kept (t0 t : Tables) : Type 0 where
  unique : IsUnique t.wallets
  sales : Sales (book_of t0) (book_of t)

order-Kept :
    (t0 : Tables) (req : CreateRequest) (item : CatalogPrice) (id : ℕ) (t t' : Tables)
    → catalog_price req.vendor_id req.catalog_id t ≡ ok item
    → Placed req item.price id t t'
    → Kept t0 t
    → Kept t0 t'
order-Kept t0 req item id t t' listed p k = record {
  unique =
      subst (λ x. IsUnique x.wallets) (sym p.rows)
        (shifted-IsUnique p.placement.wallet.id _ t.wallets k.unique);
  sales = sold (book_of t) (book_of t') k.sales (Placed-Sale req item.price id t t' k.unique p);
}

Renewal-Kept :
    (t0 : Tables) (user service now id : ℕ) (t t' : Tables)
    → Renewal user service now id t t'
    → Kept t0 t
    → Kept t0 t'
Renewal-Kept t0 user service now id t t' r k =
    let paid_rows = order-Kept t0 _ r.item id t r.paid r.listed r.placed k in
    subst (Kept t0) (sym r.rows) (record { unique = paid_rows.unique; sales = paid_rows.sales })

-- Over any history of orders and renewals, with any faults and repetitions, from rows in which no two
-- wallets share an id and with no transaction open: the book that the rows stand for changes by whole
-- sales alone, each to a customer who has the price and pays it once.
pub serve-Sales :
    (calls : List Arrival) (v : World)
    → v.saved ≡ none
    → IsUnique v.tables.wallets
    → Sales (book_of v.tables) (book_of (serve calls v).tables)
serve-Sales calls v closed d =
    (serve-Between (Kept v.tables) (order-Kept v.tables) (Renewal-Kept v.tables) calls v
      (record { closed = closed; rows = record { unique = d; sales = unsold } })).rows.sales
