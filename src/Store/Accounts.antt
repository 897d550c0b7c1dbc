-- ===== src/Store/Accounts.antt =====
-- What holds of the memory after any calls.
use x_ui_site.Prelude.{
  ℕ, ◌+◌, ◌≤◌, ◌<◌, ◌≡◌, refl, ap, ◌∙◌, subst, String, str_eq, eq_iff, false, List, [], ◌∷◌, ◌++◌,
  any, length, length-append, count_where, count_where-append, count_where_none, find-append_last,
  find-append_miss, find-none_of_any, find-none_of_count, ◌==◌, ==-refl, arith, Bool-cases, inl,
  inr,
}
use x_ui_site.Prelude.Int.{pos}
use x_ui_site.Db.Errors.{ok}
use x_ui_site.Store.{
  Memory, User, Vendor, Wallet, new_memory, has_email, has_slug, new_user, new_wallet, create_user,
  create_vendor, get_user_by_email, wallet_balance, or_not_found, balance_of, Call, creates_user,
  creates_vendor, perform, serve,
}

abbrev pub users_of : ℕ → Memory → ℕ
users_of k m = count_where (λ u. u.id == k) m.users

-- Emails, ids and slugs are taken once, ids count up from 1, and every user has one wallet.
pub record IsSound (m : Memory) : Type 0 where
  pub emails : (e : String) → count_where (has_email e) m.users ≤ 1
  pub slugs : (s : String) → count_where (has_slug s) m.vendors ≤ 1
  pub ids : (k : ℕ) → users_of k m ≤ 1
  pub below : (k : ℕ) → length m.users < k → users_of k m ≡ 0
  pub wallets : (k : ℕ) → count_where (λ w. w.user_id == k) m.wallets ≡ users_of k m

module _ {ℓ} {A : Type ℓ} (key : A → String) where
  -- A key that no element has is new.
  new_key :
      (x : A) (xs : List A) (e : String)
      → any (λ y. str_eq (key y) (key x)) xs ≡ false
      → count_where (λ y. str_eq (key y) e) xs ≤ 1
      → count_where (λ y. str_eq (key y) e) (xs ++ x ∷ []) ≤ 1
  new_key x xs e fresh h = elim (Bool-cases (str_eq (key x) e)) [
    | inl hit ↦
        let same : key x ≡ e = ground (arith, eq_iff (key x) e) in
        let none_yet =
          count_where_none (λ y. str_eq (key y) e) xs
            (subst (λ k. any (λ y. str_eq (key y) k) xs ≡ false) same fresh) in
        ground (arith, count_where-append (λ y. str_eq (key y) e) xs (x ∷ []), none_yet)
    | inr miss ↦ ground (arith, count_where-append (λ y. str_eq (key y) e) xs (x ∷ []), h)
  ]

module _ (m : Memory) (s : IsSound m) where
  added_user-IsSound :
      (email hash role : String)
      → any (has_email email) m.users ≡ false
      → IsSound (record m {
        users = m.users ++ new_user email hash role m ∷ [];
        wallets = m.wallets ++ new_wallet m ∷ [];
      })
  added_user-IsSound email hash role fresh = record {
    emails = λ e.
        new_key (λ (u : User). u.email) (new_user email hash role m) m.users e fresh (s.emails e);
    slugs = s.slugs;
    ids = λ k. ground (
      arith,
      count_where-append (λ (u : User). u.id == k) m.users (new_user email hash role m ∷ []),
      s.ids k,
      s.below k,
    );
    below = λ k h. ground (
      arith,
      count_where-append (λ (u : User). u.id == k) m.users (new_user email hash role m ∷ []),
      s.below k,
      length-append m.users (new_user email hash role m ∷ []),
    );
    wallets = λ k. ground (
      arith,
      count_where-append (λ (u : User). u.id == k) m.users (new_user email hash role m ∷ []),
      count_where-append (λ (w : Wallet). w.user_id == k) m.wallets (new_wallet m ∷ []),
      s.wallets k,
    );
  }

  create_user-IsSound : (email hash role : String) → IsSound (create_user email hash role m).1
  unfolding create_user
  create_user-IsSound email hash role = elim (Bool-cases (any (has_email email) m.users)) [
    | inl taken ↦ rw taken s
    | inr fresh ↦ rw fresh (added_user-IsSound email hash role fresh)
  ]

  create_vendor-IsSound :
      (owner : ℕ) (name slug : String) → IsSound (create_vendor owner name slug m).1
  unfolding create_vendor
  create_vendor-IsSound owner name slug = elim (Bool-cases (any (has_slug slug) m.vendors)) [
    | inl taken ↦ rw taken s
    | inr fresh ↦ rw fresh (record {
      emails = s.emails;
      slugs = λ k. new_key (λ (v : Vendor). v.slug) _ m.vendors k fresh (s.slugs k);
      ids = s.ids;
      below = s.below;
      wallets = s.wallets;
    })
  ]

perform-IsSound : (c : Call) (m : Memory) → IsSound m → IsSound (perform c m)
unfolding perform
perform-IsSound (creates_user email hash role) m s = create_user-IsSound m s email hash role
perform-IsSound (creates_vendor owner name slug) m s = create_vendor-IsSound m s owner name slug

serve-IsSound : (cs : List Call) (m : Memory) → IsSound m → IsSound (serve cs m)
unfolding serve
serve-IsSound [] m s = s
serve-IsSound (c ∷ cs) m s = serve-IsSound cs (perform c m) (perform-IsSound c m s)

-- After any calls on a new memory: no email, user id or slug is there twice, no user id is beyond
-- the number of users, and every user has exactly one wallet.
pub new_memory-IsSound : (cs : List Call) → IsSound (serve cs new_memory)
new_memory-IsSound cs = serve-IsSound cs new_memory (record {
  emails = λ e. (omega arith);
  slugs = λ k. (omega arith);
  ids = λ k. (omega arith);
  below = λ k h. refl;
  wallets = λ k. refl;
})

-- In a sound memory a user that is created under a new email gets the next id, is found by that
-- email, has an empty wallet, and changes nothing for any other email.
pub create_user-found :
    (email hash role : String) (m : Memory)
    → IsSound m
    → any (has_email email) m.users ≡ false
    → ((create_user email hash role m).0 ≡ ok (length m.users + 1))
      × (get_user_by_email email (create_user email hash role m).1
          ≡ ok (new_user email hash role m))
      × (wallet_balance (length m.users + 1) (create_user email hash role m).1 ≡ ok (pos 0))
      × ((e : String)
          → str_eq email e ≡ false
          → get_user_by_email e (create_user email hash role m).1 ≡ get_user_by_email e m)
unfolding create_user get_user_by_email wallet_balance
create_user-found email hash role m s fresh = rw fresh (
  refl,
  ap or_not_found (
      find-append_last (has_email email) m.users (new_user email hash role m)
        (find-none_of_any _ m.users fresh) ((eq_iff email email).1 refl)),
  ap balance_of (
      find-append_last (λ w. w.user_id == length m.users + 1) m.wallets (new_wallet m)
        (find-none_of_count _ m.wallets
          (s.wallets (length m.users + 1) ∙ s.below (length m.users + 1) (omega arith)))
        (==-refl (length m.users + 1))),
  λ e other.
      ap or_not_found (find-append_miss (has_email e) m.users (new_user email hash role m) other),
)
