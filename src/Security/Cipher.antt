-- ===== src/Security/Cipher.antt =====
-- internal/security/crypto.go: the cipher of panel tokens, over crypto/aes and crypto/cipher.
pub mod Panels
use x_ui_site.Prelude.{
  ℕ, String, Option, none, some, List, ◌++◌, length, take, drop, replicate, ltb, if◌then◌else◌,
}
use x_ui_site.Db.Errors.{Error, Result, ok, err, new, map_ok}
use x_ui_site.Security.{Crypto, bytes}
use x_ui_site.Repository.Panels.{TokenCipher}

-- cipher.AEAD, with no additional data.
pub record Gcm : Type 0 where
  pub nonce_size : ℕ
  pub seal : List ℕ → List ℕ → List ℕ
  pub open_sealed : List ℕ → List ℕ → Result (List ℕ)

-- aes.NewCipher and cipher.NewGCM; `corrupt_input` is the error of base64, `text_of` is string(b).
pub record Aes : Type 1 where
  pub Block : Type 0
  pub new_cipher : List ℕ → Result Block
  pub new_gcm : Block → Result Gcm
  pub corrupt_input : Error
  pub text_of : List ℕ → String

abbrev pub and_then : {A B : Type 0} → Result A → (A → Result B) → Result B
and_then (ok a) f = f a
and_then (err e) f = err e

module _ (k : Crypto) (a : Aes) where
  abbrev pub derive_key : String → List ℕ
  derive_key pass = k.sha256 (bytes pass)

  -- The block cipher and its mode, which Encrypt and Decrypt both set up.
  abbrev pub gcm_for : String → Result Gcm
  gcm_for pass = and_then (a.new_cipher (derive_key pass)) a.new_gcm

  -- make([]byte, g.NonceSize())
  abbrev pub zero_nonce : Gcm → List ℕ
  zero_nonce g = replicate g.nonce_size 0

  abbrev pub sealed : Gcm → String → List ℕ
  sealed g plaintext = zero_nonce g ++ g.seal (zero_nonce g) (bytes plaintext)

  unfoldable pub encrypt : String → String → Result String
  encrypt passphrase plaintext =
      and_then (gcm_for passphrase) λ g. ok (k.encode_std (sealed g plaintext))

  abbrev pub decoded : Option (List ℕ) → Result (List ℕ)
  decoded none = err a.corrupt_input
  decoded (some raw) = ok raw

  abbrev pub unsealed : List ℕ → Gcm → Result String
  unsealed raw g =
      if ltb (length raw) g.nonce_size
      then err (new "ciphertext too short")
      else map_ok a.text_of (g.open_sealed (take g.nonce_size raw) (drop g.nonce_size raw))

  unfoldable pub decrypt : String → String → Result String
  decrypt passphrase text =
      and_then (decoded (k.decode_std text)) λ raw. and_then (gcm_for passphrase) (unsealed raw)

  -- The cipher of an XUIPanelRepository with this passphrase.
  abbrev pub token_cipher : String → TokenCipher
  token_cipher passphrase = record { encrypt = encrypt passphrase; decrypt = decrypt passphrase }
