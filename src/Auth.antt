-- ===== src/Auth.antt =====
-- internal/auth/service.go: registration and login.
pub mod Register
pub mod Login
use Prim.Native.String
use x_ui_site.Prelude.{ℕ, String, Bool, true, false, if◌then◌else◌}
use x_ui_site.Db.Rows.{UserRow}
use x_ui_site.Db.Errors.{new}
use x_ui_site.Db.Session.{M, pure, raise, lift, gets, ◌>>=◌, ◌>>◌}
use x_ui_site.Proxy.Provision.{draw}
use x_ui_site.Repository.Users.{create_user, by_email}
use x_ui_site.Repository.Wallets.{ensure_for_user}
use x_ui_site.Security.{Crypto, hash_password, compare_password, sign_jwt}

module _ (k : Crypto) where
  -- security.HashPassword with the bytes that rand.Read gives it
  unfoldable pub hash : String → M String
  hash String.[] = raise (new "password required")
  hash (String.◌∷◌ c s) = do random ← draw; lift (hash_password k random (String.◌∷◌ c s))

  -- Service.Register
  unfoldable pub register : String → String → M (Unit {0})
  register email password = do
    h ← hash password
    id ← create_user email h "user"
    ensure_for_user id

  -- The token for a user, or the empty one with the error nil of the lookup.
  abbrev pub token_for : String → UserRow → ℕ → Bool → String
  token_for secret u now matches = if matches then sign_jwt k secret u.id u.role now else ""

  -- Service.Login
  unfoldable pub login : String → String → String → M String
  login secret email password = do
    u ← by_email email
    now ← gets (λ w. w.now)
    pure (token_for secret u now (compare_password k u.password_hash password))
