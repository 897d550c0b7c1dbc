-- ===== src/Security.antt =====
-- internal/security: signed tokens (jwt.go) and password hashes (password.go) here, the cipher of
-- panel tokens (crypto.go) in `Cipher`, over the primitives of crypto/hmac, crypto/sha256,
-- encoding/base64 and encoding/json.
pub mod Laws
pub mod Passwords
pub mod Cipher
use Prim.Native.Char.{Char, code}
use Prim.Native.String
use x_ui_site.Prelude.{
  ℕ, zero, suc, ◌+◌, ◌/◌, ◌%◌, String, Bool, true, false, ◌&&◌, Option, none, some, List, [], ◌∷◌,
  ◌++◌, take, replicate, str_eq, ltb, ◌==◌, if◌then◌else◌,
}
use x_ui_site.Prelude.Text.{split, cut}
use x_ui_site.Db.Errors.{Result, ok, err, new}

-- Claims of internal/middleware/jwt.go. `sub` and `vendor_id` are int64 bit patterns.
pub record Claims : Type 0 where
  pub sub : ℕ
  pub role : String
  pub vendor_id : ℕ

-- What the libraries offer, on byte lists. `marshal` is json.Marshal of the map of SignJWT and
-- `unmarshal` json.Unmarshal into Claims.
pub record Crypto : Type 0 where
  pub mac : List ℕ → List ℕ → List ℕ
  pub sha256 : List ℕ → List ℕ
  pub encode_url : List ℕ → String
  pub decode_url : String → Option (List ℕ)
  pub encode_std : List ℕ → String
  pub decode_std : String → Option (List ℕ)
  pub marshal : ℕ → String → ℕ → List ℕ
  pub unmarshal : List ℕ → Option Claims

-- []byte(s): the UTF-8 of the text.
abbrev pub utf8 : ℕ → List ℕ
utf8 n =
    if ltb n 128
    then n ∷ []
    else if ltb n 2048
    then (192 + n / 64) ∷ (128 + n % 64) ∷ []
    else if ltb n 65536
    then (224 + n / 4096) ∷ (128 + n / 64 % 64) ∷ (128 + n % 64) ∷ []
    else (240 + n / 262144) ∷ (128 + n / 4096 % 64) ∷ (128 + n / 64 % 64) ∷ (128 + n % 64) ∷ []

unfoldable pub bytes : String → List ℕ
bytes String.[] = []
bytes (String.◌∷◌ c s) = utf8 (code c) ++ bytes s

abbrev pub same_bytes : List ℕ → List ℕ → Bool
same_bytes [] [] = true
same_bytes [] (y ∷ ys) = false
same_bytes (x ∷ xs) [] = false
same_bytes (x ∷ xs) (y ∷ ys) = (x == y) && same_bytes xs ys

-- header + "." + payload
abbrev pub dotted : String → String → String
dotted a b = String.◌++◌ a (String.◌∷◌ "." b)

-- SHA256 of salt and password
abbrev pub digest_of : Crypto → List ℕ → String → List ℕ
digest_of k salt password = k.sha256 (salt ++ bytes password)

-- Seconds since the epoch a day after a time in nanoseconds.
abbrev pub expiry : ℕ → ℕ
expiry now = now / 1000000000 + 86400

module _ (k : Crypto) where
  -- sign
  abbrev pub sign : String → String → String
  sign secret message = k.encode_url (k.mac (bytes secret) (bytes message))

  abbrev pub header : String
  header = k.encode_url (bytes "{\"alg\":\"HS256\",\"typ\":\"JWT\"}")

  abbrev pub payload : ℕ → String → ℕ → String
  payload sub role now = k.encode_url (k.marshal sub role (expiry now))

  -- SignJWT at the time `now`
  unfoldable pub sign_jwt : String → ℕ → String → ℕ → String
  sign_jwt secret sub role now =
      let signed = dotted header (payload sub role now) in dotted signed (sign secret signed)

  -- hmac.Equal(sign(secret, a+"."+b), c), where a token has three parts
  abbrev pub signed_parts : String → List String → Bool
  signed_parts secret [] = false
  signed_parts secret (a ∷ []) = false
  signed_parts secret (a ∷ b ∷ []) = false
  signed_parts secret (a ∷ b ∷ c ∷ []) = str_eq (sign secret (dotted a b)) c
  signed_parts secret (a ∷ b ∷ c ∷ d ∷ more) = false

  -- ValidateJWT
  unfoldable pub validate_jwt : String → String → Bool
  validate_jwt secret token = signed_parts secret (split "." token)

  -- What rand.Read leaves in the 16 bytes of the salt.
  abbrev pub salt_of : List ℕ → List ℕ
  salt_of random = take 16 (random ++ replicate 16 0)

  -- HashPassword with the random bytes it reads
  unfoldable pub hash_password : List ℕ → String → Result String
  hash_password random String.[] = err (new "password required")
  hash_password random (String.◌∷◌ c s) =
      let salt = salt_of random in
      ok (dotted (k.encode_std salt) (k.encode_std (digest_of k salt (String.◌∷◌ c s))))

  abbrev compared : String → Option (List ℕ) → Option (List ℕ) → Bool
  compared password none d = false
  compared password (some s) none = false
  compared password (some s) (some d) = same_bytes (digest_of k s password) d

  -- A hash without a '.' leaves both texts empty.
  abbrev against : String → Option (String × String) → Bool
  against password none = compared password (k.decode_std "") (k.decode_std "")
  against password (some (a, b)) = compared password (k.decode_std a) (k.decode_std b)

  -- ComparePassword
  unfoldable pub compare_password : String → String → Bool
  compare_password hash password = against password (cut "." hash)
