-- ===== src/Store.antt =====
-- internal/store/store.go: users, vendors and wallets in memory. Each method runs alone, under the
-- lock. The times of creation are left out.
pub mod Accounts
use x_ui_site.Prelude.{
  ℕ, ◌+◌, String, str_eq, Bool, Option, none, some, List, [], ◌∷◌, ◌++◌, find, any, select, length,
  ◌==◌, if◌then◌else◌,
}
use x_ui_site.Prelude.Int.{ℤ, pos}
use x_ui_site.Db.Errors.{Result, ok, err, new}

-- models.User
pub record User : Type 0 where
  pub id : ℕ
  pub email : String
  pub password_hash : String
  pub role : String

-- models.Vendor
pub record Vendor : Type 0 where
  pub id : ℕ
  pub owner_user_id : ℕ
  pub name : String
  pub slug : String

-- models.Wallet
pub record Wallet : Type 0 where
  pub id : ℕ
  pub user_id : ℕ
  pub balance : ℤ

pub record Memory : Type 0 where
  pub users : List User
  pub vendors : List Vendor
  pub wallets : List Wallet

-- NewMemory
abbrev pub new_memory : Memory
new_memory = record { users = []; vendors = []; wallets = [] }

abbrev pub has_email : String → User → Bool
has_email email u = str_eq u.email email

abbrev pub new_user : String → String → String → Memory → User
new_user email hash role m = record {
  id = length m.users + 1;
  email = email;
  password_hash = hash;
  role = role;
}

abbrev pub new_wallet : Memory → Wallet
new_wallet m = record { id = length m.wallets + 1; user_id = length m.users + 1; balance = pos 0 }

-- CreateUser
unfoldable pub create_user : String → String → String → Memory → Result ℕ × Memory
create_user email hash role m =
    if any (has_email email) m.users then (err (new "email exists"), m) else (
      ok (length m.users + 1),
      record m {
        users = m.users ++ new_user email hash role m ∷ [];
        wallets = m.wallets ++ new_wallet m ∷ [];
      },
    )

abbrev pub or_not_found : {A : Type 0} → Option A → Result A
or_not_found none = err (new "not found")
or_not_found (some a) = ok a

-- GetUserByEmail
unfoldable pub get_user_by_email : String → Memory → Result User
get_user_by_email email m = or_not_found (find (has_email email) m.users)

abbrev pub has_slug : String → Vendor → Bool
has_slug slug v = str_eq v.slug slug

-- CreateVendor
unfoldable pub create_vendor : ℕ → String → String → Memory → Result (Unit {0}) × Memory
create_vendor owner name slug m =
    if any (has_slug slug) m.vendors then (err (new "slug exists"), m) else (
      ok tt,
      record m {
        vendors =
            m.vendors
            ++ record { id = length m.vendors + 1; owner_user_id = owner; name = name; slug = slug }
              ∷ [];
      },
    )

-- ListVendor
unfoldable pub list_vendor : ℕ → Memory → List Vendor
list_vendor owner m = select (λ v. v.owner_user_id == owner) m.vendors

abbrev pub balance_of : Option Wallet → Result ℤ
balance_of none = err (new "not found")
balance_of (some w) = ok w.balance

-- WalletBalance
unfoldable pub wallet_balance : ℕ → Memory → Result ℤ
wallet_balance user m = balance_of (find (λ w. w.user_id == user) m.wallets)

-- The calls that change the memory.
pub data Call : Type 0 where
  creates_user : String → String → String → Call
  creates_vendor : ℕ → String → String → Call

unfoldable pub perform : Call → Memory → Memory
perform (creates_user email hash role) m = (create_user email hash role m).1
perform (creates_vendor owner name slug) m = (create_vendor owner name slug m).1

unfoldable pub serve : List Call → Memory → Memory
serve [] m = m
serve (c ∷ cs) m = serve cs (perform c m)
