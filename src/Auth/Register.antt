-- ===== src/Auth/Register.antt =====
-- What Register leaves behind, and the login after it.
use Prim.Native.Char.{Char}
use x_ui_site.Prelude.{str_eq_refl}
use x_ui_site.Prelude.{
  ℕ, String, ◌≡◌, refl, sym, ap, subst, ◌∙◌, true, false, none, some, [], ◌∷◌, ◌++◌, find, any,
  str_eq, if-true, find-append_last, find-none_of_any_both, any-last, not, ==-refl, ◌==◌,
}
use x_ui_site.Prelude.Int.{pos}
use x_ui_site.Db.Rows.{Tables, UserRow, WalletRow}
use x_ui_site.Db.Errors.{ok}
use x_ui_site.Db.Session.{World, ◌>>=◌, ◌>>◌, lift}
use x_ui_site.Db.Rules.{Runs, bind-Runs, weaken-Runs}
use x_ui_site.Db.Success.{Stands, Never, exec-Gives}
use x_ui_site.Repository.Statements.{scan_row}
use x_ui_site.Repository.Users.{insert_user, create_user, user_row, has_email, user_by_email}
use x_ui_site.Repository.Wallets.{insert_wallet, ensure_for_user}
use x_ui_site.Proxy.Provision.{draw, read_bytes}
use x_ui_site.Security.{Crypto, hash_password, digest_of, salt_of}
use x_ui_site.Security.Laws.{Lawful, all_bytes, same_bytes_refl}
use x_ui_site.Security.Passwords.{compare_password_iff_digest}
use x_ui_site.Middleware.Jwt.{parse_jwt}
use x_ui_site.Middleware.Jwt.Tokens.{parse_jwt-sign_jwt}
use x_ui_site.Auth.{hash, register, login}
use x_ui_site.Auth.Login.{login-Gives}

abbrev new_wallet : ℕ → ℕ → WalletRow
new_wallet id user_id = record { id = id; user_id = user_id; balance = pos 0; deleted = false }

module _ (k : Crypto) (email : String) (c : Char) (s : String) (v : World) (closed : v.saved ≡ none)
    (healthy : v.faults ≡ []) (free : any (λ r. str_eq r.email email) v.tables.users ≡ false) where
  abbrev password : String
  password = String.◌∷◌ c s

  abbrev with_user : ℕ → String → Tables
  with_user id h = record v.tables { users = v.tables.users ++ user_row id email h "user" ∷ [] }

  -- The rows after a registration: a user with a hash of the password, and an empty wallet.
  pub record Registered (t : Tables) : Type 0 where
    pub id : ℕ
    pub wallet_id : ℕ
    pub hashed : String
    pub made : hash_password k (read_bytes v.random) password ≡ ok hashed
    pub rows : t ≡ record (with_user id hashed) {
      wallets = v.tables.wallets ++ new_wallet wallet_id id ∷ [];
    }

  hash-Gives :
      Runs v
        (hash k password)
        (λ h x. (hash_password k (read_bytes v.random) password ≡ ok h) × Stands none v.tables x)
        Never
  unfolding hash draw ◌>>=◌ lift hash_password
  hash-Gives = record {
    holds = (refl, record { healthy = healthy; saved = closed; tables = refl });
  }

  pub register-Gives :
      Runs v (register k email password) (λ _ x. Registered x.tables × Stands none x.tables x) Never
  unfolding register create_user insert_user ensure_for_user insert_wallet
  register-Gives = bind-Runs hash-Gives λ h w1 (made, s1).
      bind-Runs
        (weaken-Runs
          (exec-Gives none w1.seqs.users (with_user w1.seqs.users h) (insert_user email h "user")
            v.tables w1 s1 (rw free refl))
          (λ id x (e, s). subst (λ n. Stands none (with_user n h) x) (sym e) s) (λ x n. n))
        λ id w2 s2.
          weaken-Runs
            (exec-Gives none tt
              (record (with_user id h) {
                wallets = v.tables.wallets ++ new_wallet w2.seqs.wallets id ∷ [];
              })
              (insert_wallet id) (with_user id h) w2 s2
              (rw
                (any-last (λ (u : UserRow). u.id == id) v.tables.users (user_row id email h "user")
                  (==-refl id))
                refl))
            (λ _ x (_, s3). (
              record {
                id = id;
                wallet_id = w2.seqs.wallets;
                hashed = h;
                made = made;
                rows = s3.tables;
              },
              record { healthy = s3.healthy; saved = s3.saved; tables = refl },
            ))
            (λ x n. n)

  -- The row of the new user is found by its email.
  found_again :
      (id : ℕ) (h : String)
      → find (has_email email) (with_user id h).users ≡ some (user_row id email h "user")
  found_again id h =
      find-append_last (has_email email) v.tables.users (user_row id email h "user")
        (find-none_of_any_both (λ r. str_eq r.email email) (λ r. not r.deleted) v.tables.users free)
        (rw (str_eq_refl email) refl)

  -- With libraries that keep their promises, over a healthy connection and with no transaction
  -- open: whoever registers a new email with a password, which is not empty, and logs in with both
  -- is answered with a token that parseJWT accepts for the id of the email's row, as a user, with
  -- vendor 0.
  pub register-login :
      (laws : Lawful k) (secret : String)
      → all_bytes (read_bytes v.random) ≡ true
      → Runs v
          (do register k email password; login k secret email password)
          (λ token x.
            (u : UserRow) × (user_by_email email x.tables ≡ ok u)
            × (parse_jwt k secret token
                ≡ some (record { sub = u.id; role = "user"; vendor_id = 0 })))
          Never
  register-login laws secret random = bind-Runs register-Gives λ _ w1 (reg, s1).
      let u = user_row reg.id email reg.hashed "user" in
      let known =
        ap (λ t. user_by_email email t) reg.rows
        ∙ ap (λ o. scan_row o) (found_again reg.id reg.hashed) in
      let matches =
        compare_password_iff_digest k laws (read_bytes v.random) password reg.hashed password random
          reg.made
        ∙ same_bytes_refl (digest_of k (salt_of k (read_bytes v.random)) password) in
      weaken-Runs (login-Gives k secret email password u w1.tables w1 s1 known)
        (λ token x ((now, e), s2). (
          u,
          ap (λ t. user_by_email email t) s2.tables ∙ known,
          ap (λ t. parse_jwt k secret t) (e ∙ if-true _ _ _ matches)
              ∙ parse_jwt-sign_jwt k secret laws reg.id "user" now refl,
        ))
        (λ x n. n)
