-- ===== src/Security/Laws.antt =====
-- What the program relies on in the libraries below internal/security.
use x_ui_site.Prelude.{
  ℕ, String, ◌≡◌, Bool, true, ◌&&◌, ◌||◌, some, List, [], ◌∷◌, ◌++◌, str_eq, ltb, refl, arith,
  replicate, take, zero, suc,
}
use x_ui_site.Prelude.Text.{free_of}
use x_ui_site.Security.{Crypto, same_bytes, salt_of}

abbrev pub all_bytes : List ℕ → Bool
all_bytes [] = true
all_bytes (b ∷ bs) = ltb b 256 && all_bytes bs

-- The roles that the program gives.
abbrev pub is_role : String → Bool
is_role r = str_eq r "user" || str_eq r "vendor" || str_eq r "admin"

-- Digests are bytes; base64 has no '.' and is read back; what json.Marshal writes is bytes and is
-- read back, without a vendor_id.
pub record Lawful (k : Crypto) : Type 0 where
  pub mac_bytes : (key message : List ℕ) → all_bytes (k.mac key message) ≡ true
  pub sha256_bytes : (message : List ℕ) → all_bytes (k.sha256 message) ≡ true
  pub marshal_bytes :
      (sub : ℕ) (role : String) (exp : ℕ) → all_bytes (k.marshal sub role exp) ≡ true
  pub url_free : (b : List ℕ) → all_bytes b ≡ true → free_of "." (k.encode_url b) ≡ true
  pub url_inverse : (b : List ℕ) → all_bytes b ≡ true → k.decode_url (k.encode_url b) ≡ some b
  pub std_free : (b : List ℕ) → all_bytes b ≡ true → free_of "." (k.encode_std b) ≡ true
  pub std_inverse : (b : List ℕ) → all_bytes b ≡ true → k.decode_std (k.encode_std b) ≡ some b
  pub json_inverse :
      (sub : ℕ) (role : String) (exp : ℕ)
      → is_role role ≡ true
      → k.unmarshal (k.marshal sub role exp)
        ≡ some (record { sub = sub; role = role; vendor_id = 0 })

pub same_bytes_refl : (b : List ℕ) → same_bytes b b ≡ true
same_bytes_refl [] = refl
same_bytes_refl (x ∷ b) = ground (arith, same_bytes_refl b)

pub same_bytes-eq : (a b : List ℕ) → same_bytes a b ≡ true → a ≡ b
same_bytes-eq [] [] h = refl
same_bytes-eq [] (y ∷ ys) h = cc
same_bytes-eq (x ∷ xs) [] h = cc
same_bytes-eq (x ∷ xs) (y ∷ ys) h = ground (arith, same_bytes-eq xs ys)

zeros_bytes : (n : ℕ) → all_bytes (replicate n 0) ≡ true
zeros_bytes zero = refl
zeros_bytes (suc n) = zeros_bytes n

append_bytes : (a b : List ℕ) → all_bytes a ≡ true → all_bytes b ≡ true → all_bytes (a ++ b) ≡ true
append_bytes [] b h k = k
append_bytes (x ∷ a) b h k = ground (arith, append_bytes a b)

take_bytes : (n : ℕ) (b : List ℕ) → all_bytes b ≡ true → all_bytes (take n b) ≡ true
take_bytes zero b h = refl
take_bytes (suc n) [] h = refl
take_bytes (suc n) (x ∷ b) h = ground (arith, take_bytes n b)

-- The salt is bytes if the random source gives bytes.
pub salt_bytes :
    (k : Crypto) (random : List ℕ) → all_bytes random ≡ true → all_bytes (salt_of k random) ≡ true
salt_bytes k random h =
    take_bytes 16 (random ++ replicate 16 0)
      (append_bytes random (replicate 16 0) h (zeros_bytes 16))
