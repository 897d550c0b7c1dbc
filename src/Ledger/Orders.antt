-- ===== src/Ledger/Orders.antt =====
-- Orders and renewals keep the books: balances agree with the ledger, and no wallet falls below 0.
use x_ui_site.Prelude.{ℕ, ◌≡◌, sym, subst, true, none, List, All, All-find, arith}
use x_ui_site.Prelude.Int.{ℤ, pos, negsuc, ◌-ℤ◌, ◌≤ℤ◌, neg64, neg64_of_nonneg, fits64, int_laws}
use x_ui_site.Db.Rows.{Tables, CatalogRow}
use x_ui_site.Db.Errors.{ok}
use x_ui_site.Db.Session.{World}
use x_ui_site.Repository.Statements.{map_ok-eq-ok, scan_row-eq-ok}
use x_ui_site.Repository.Catalog.{CatalogPrice, catalog_price, price_of}
use x_ui_site.Order.{CreateRequest}
use x_ui_site.Order.Effect.{Placed}
use x_ui_site.Order.Extension.{Renewal}
use x_ui_site.Order.History.{Arrival, serve, serve-Between}
use x_ui_site.Ledger.Sums.{
  ledger_balance-append, IsBalanced, IsUnique, IsSolvent, shift-IsBalanced, shifted-IsUnique,
  pay-IsSolvent,
}

-- A price that is not negative; Go stores it in an int64.
abbrev pub IsPrice : ℤ → Type 0
IsPrice p = (pos 0 ≤ℤ p) × (fits64 p ≡ true)

pub record Books (t : Tables) : Type 0 where
  pub prices : All (λ r. IsPrice r.item.price_toman) t.catalog_items
  pub balanced : IsBalanced t
  pub unique : IsUnique t.wallets
  pub solvent : IsSolvent t.wallets

neg64_of_IsPrice : (p : ℤ) → IsPrice p → neg64 p ≡ pos 0 -ℤ p
neg64_of_IsPrice (pos n) h = neg64_of_nonneg n (ground arith)
neg64_of_IsPrice (negsuc n) h = absurd (omega arith)

listed-IsPrice :
    (vendor_id catalog_id : ℕ) (t : Tables) (item : CatalogPrice)
    → All (λ r. IsPrice r.item.price_toman) t.catalog_items
    → catalog_price vendor_id catalog_id t ≡ ok item
    → IsPrice item.price
listed-IsPrice vendor_id catalog_id t item h e =
    let (row, found, same) = map_ok-eq-ok (λ (r : CatalogRow). price_of r.item) _ e in
    subst (λ i. IsPrice i.price) same
      (All-find (λ (r : CatalogRow). IsPrice r.item.price_toman) _ t.catalog_items row h
        (scan_row-eq-ok _ found))

effect-Books :
    (req : CreateRequest) (item : CatalogPrice) (id : ℕ) (t t' : Tables)
    → catalog_price req.vendor_id req.catalog_id t ≡ ok item
    → Placed req item.price id t t'
    → Books t
    → Books t'
effect-Books req item id t t' listed p b =
    let wallet = p.placement.wallet in
    let price = listed-IsPrice _ _ t item b.prices listed in
    subst Books (sym p.rows) (record {
      prices = b.prices;
      balanced =
          shift-IsBalanced wallet.id (pos 0 -ℤ item.price) t.wallet_transactions _
            (λ x. x -ℤ item.price) (λ x. omega int_laws)
            (λ k.
              rw (ledger_balance-append k t.wallet_transactions _)
                (rw (neg64_of_IsPrice item.price price)))
            t.wallets b.balanced;
      unique = shifted-IsUnique wallet.id _ t.wallets b.unique;
      solvent =
          pay-IsSolvent req.user_id item.price wallet t.wallets b.unique p.payable.found
            p.payable.covered b.solvent;
    })

Renewal-Books :
    (user service now id : ℕ) (t t' : Tables)
    → Renewal user service now id t t'
    → Books t
    → Books t'
Renewal-Books user service now id t t' r b =
    let paid = effect-Books _ r.item id t r.paid r.listed r.placed b in
    subst Books (sym r.rows) (record {
      prices = paid.prices;
      balanced = paid.balanced;
      unique = paid.unique;
      solvent = paid.solvent;
    })

-- Over any history of orders and renewals, with any faults: every wallet holds exactly what its
-- ledger entries add up to, and none is in debt, if that held before, wallet ids are unique and no
-- catalog price is negative, and if no transaction was open.
pub serve-Books :
    (calls : List Arrival) (v : World)
    → v.saved ≡ none
    → Books v.tables
    → Books (serve calls v).tables
serve-Books calls v closed b =
    (serve-Between Books effect-Books Renewal-Books calls v
      (record { closed = closed; rows = b })).rows
