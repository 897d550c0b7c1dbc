-- ===== src/Ledger/Sums.antt =====
-- The balance that the ledger gives a wallet, and what one payment does to it.
use x_ui_site.Prelude.{
  ℕ, ◌≡◌, refl, sym, subst, Bool, false, some, List, [], ◌∷◌, ◌++◌, find, any, update_where, ◌==◌,
  if◌then◌else◌, All, arith, Bool-cases, ==-refl, inl, inr,
}
use x_ui_site.Prelude.Int.{ℤ, pos, ◌+ℤ◌, ◌-ℤ◌, ◌≤ℤ◌, int_laws}
use x_ui_site.Db.Rows.{Tables, WalletRow, WalletTx}
use x_ui_site.Repository.Wallets.{with_balance, is_wallet_of}

-- What the ledger says of a wallet: the sum of its entries.
abbrev pub ledger_balance : ℕ → List WalletTx → ℤ
ledger_balance id [] = pos 0
ledger_balance id (e ∷ es) = (if e.wallet_id == id then e.amount else pos 0) +ℤ ledger_balance id es

pub ledger_balance-append :
    (id : ℕ) (es : List WalletTx) (e : WalletTx)
    → ledger_balance id (es ++ e ∷ [])
      ≡ ledger_balance id es +ℤ (if e.wallet_id == id then e.amount else pos 0)
ledger_balance-append id [] e = omega int_laws
ledger_balance-append id (x ∷ es) e = rw (ledger_balance-append id es e) (omega int_laws)

-- Every wallet holds what its ledger entries add up to.
abbrev pub IsBalanced : Tables → Type 0
IsBalanced t = All (λ w. w.balance ≡ ledger_balance w.id t.wallet_transactions) t.wallets

-- No two wallets have the same id.
abbrev pub IsUnique : List WalletRow → Type 0
IsUnique [] = Unit {0}
IsUnique (w ∷ ws) = (any (λ r. r.id == w.id) ws ≡ false) × IsUnique ws

abbrev pub IsSolvent : List WalletRow → Type 0
IsSolvent ws = All (λ w. pos 0 ≤ℤ w.balance) ws

module _ (id : ℕ) (delta : ℤ) (es es' : List WalletTx) where
  -- A shift of the wallets of one id, with the entry that says so.
  pub shift-IsBalanced :
      (f : ℤ → ℤ)
      → ((b : ℤ) → f b ≡ b +ℤ delta)
      → ((k : ℕ) → ledger_balance k es' ≡ ledger_balance k es +ℤ (if id == k then delta else pos 0))
      → (ws : List WalletRow) → All (λ w. w.balance ≡ ledger_balance w.id es) ws
      → All
          (λ w. w.balance ≡ ledger_balance w.id es')
          (update_where (λ r. r.id == id) (with_balance f) ws)
  shift-IsBalanced f hf hs [] h = tt
  shift-IsBalanced f hf hs (w ∷ ws) h = (
    elim (Bool-cases (w.id == id)) [
      | inl hit ↦ grind (int_laws, h.0, hf w.balance, hs w.id)
      | inr miss ↦ grind (int_laws, h.0, hs w.id)
    ],
    shift-IsBalanced f hf hs ws h.1,
  )

pub find-fails :
    (p q : WalletRow → Bool) (ws : List WalletRow) (w : WalletRow)
    → find p ws ≡ some w
    → any q ws ≡ false
    → q w ≡ false
find-fails p q [] w e h = cc
find-fails p q (x ∷ ws) w e h = ground (arith, find-fails p q ws w)

module _ (id : ℕ) (f : ℤ → ℤ) where
  abbrev shifted : List WalletRow → List WalletRow
  shifted ws = update_where (λ r. r.id == id) (with_balance f) ws

  -- With no wallet of that id nothing shifts.
  pub shifted_none : (ws : List WalletRow) → any (λ r. r.id == id) ws ≡ false → shifted ws ≡ ws
  shifted_none [] h = refl
  shifted_none (w ∷ ws) h = ground (arith, shifted_none ws)

  any-shifted :
      (k : ℕ) (ws : List WalletRow) → any (λ r. r.id == k) (shifted ws) ≡ any (λ r. r.id == k) ws
  any-shifted k [] = refl
  any-shifted k (w ∷ ws) = ground (arith, any-shifted k ws)

  pub shifted-IsUnique : (ws : List WalletRow) → IsUnique ws → IsUnique (shifted ws)
  shifted-IsUnique [] h = tt
  shifted-IsUnique (w ∷ ws) h = (ground (arith, any-shifted w.id ws, h.0), shifted-IsUnique ws h.1)

pay_first :
    (price : ℤ) (w : WalletRow) (ws : List WalletRow)
    → IsUnique (w ∷ ws)
    → price ≤ℤ w.balance
    → IsSolvent (w ∷ ws)
    → IsSolvent (shifted w.id (λ b. b -ℤ price) (w ∷ ws))
pay_first price w ws u c s = (
  rw (==-refl w.id) (omega int_laws),
  subst IsSolvent (sym (shifted_none w.id (λ b. b -ℤ price) ws u.0)) s.1,
)

-- A payment that the wallet covers leaves no wallet in debt.
pub pay-IsSolvent :
    (user_id : ℕ) (price : ℤ) (w : WalletRow) (ws : List WalletRow)
    → IsUnique ws
    → find (is_wallet_of user_id) ws ≡ some w
    → price ≤ℤ w.balance
    → IsSolvent ws
    → IsSolvent (update_where (λ r. r.id == w.id) (with_balance (λ b. b -ℤ price)) ws)
pay-IsSolvent user_id price w [] u e c s = tt
pay-IsSolvent user_id price w (x ∷ ws) u e c s = elim (Bool-cases (is_wallet_of user_id x)) [
  | inl hit ↦
      let same : x ≡ w = ground arith in
      subst (λ y. IsSolvent (shifted y.id (λ b. b -ℤ price) (x ∷ ws))) same
        (pay_first price x ws u (subst (λ y. price ≤ℤ y.balance) (sym same) c) s)
  | inr miss ↦
      let later : find (is_wallet_of user_id) ws ≡ some w = ground arith in
      let other = find-fails (is_wallet_of user_id) (λ r. r.id == x.id) ws w later u.0 in
      (ground (arith, other, s.0), pay-IsSolvent user_id price w ws u.1 later c s.1)
]
