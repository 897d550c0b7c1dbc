-- ===== src/Security/Passwords.antt =====
-- What ComparePassword accepts of a hash that HashPassword made.
use x_ui_site.Prelude.{ℕ, String, ◌≡◌, sym, refl, true, List}
use x_ui_site.Prelude.Text.Splits.{cut-append}
use x_ui_site.Db.Errors.{ok, ok-injective}
use x_ui_site.Security.{Crypto, hash_password, compare_password, digest_of, salt_of, same_bytes}
use x_ui_site.Security.Laws.{Lawful, all_bytes, salt_bytes}

-- A hash made of one password over random bytes is matched by exactly the passwords that have the
-- same salted digest.
pub compare_password_iff_digest :
    (k : Crypto) (laws : Lawful k) (random : List ℕ) (password hash tried : String)
    → all_bytes random ≡ true
    → hash_password k random password ≡ ok hash
    → compare_password k hash tried
      ≡ same_bytes (digest_of k (salt_of k random) tried) (digest_of k (salt_of k random) password)
unfolding hash_password compare_password
compare_password_iff_digest k laws random String.[] hash tried r e = cc
compare_password_iff_digest k laws random (String.◌∷◌ c s) hash tried r e =
    let salt = salt_bytes k random r in
    let digest = laws.sha256_bytes _ in
    rw (sym (ok-injective e)) (
      rw (cut-append "." (k.encode_std (salt_of k random)) _ (laws.std_free _ salt))
        (rw (laws.std_inverse _ salt) (rw (laws.std_inverse _ digest) refl)))
