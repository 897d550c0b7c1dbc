-- ===== src/Tests/Utf8.antt =====
-- A reader of UTF-8, and a cipher that keeps the promises of AES-GCM: bytes in unary behind the nonce.
use Prim.Native.Char.{Char, char, code, IsScalar}
use Prim.Native.Nat.{compare, Ordering}
use text.Mathlib.TextEquality.{Char-path}
use x_ui_site.Prelude.{
  ℕ, zero, suc, ◌+◌, ◌-◌, ◌*◌, ◌/◌, String, ◌≡◌, refl, subst, ap, ◌∙◌, Bool, true, false, Option,
  none, some, List, [], ◌∷◌, ◌++◌, length, replicate, ltb, ◌==◌, Bool-cases, inl, inr,
  if◌then◌else◌, arith,
}
use x_ui_site.Db.Errors.{Result, ok, err, new, ok-injective}
use x_ui_site.Security.{Crypto, bytes, utf8}
use x_ui_site.Security.Laws.{all_bytes}
use x_ui_site.Security.Cipher.{Gcm, Aes}
use x_ui_site.Security.Cipher.Panels.{Promises}
use x_ui_site.Tests.Toys.{toy, decode-encode}

scalar? :
    (n : ℕ) (o p q : Ordering)
    → compare n 55296 ≡ o
    → compare 57343 n ≡ p
    → compare n 1114112 ≡ q
    → Option (IsScalar n)
scalar? n Ordering.lt p q e f g = some (rw e tt)
scalar? n Ordering.eq Ordering.lt Ordering.lt e f g = some (rw (e, f, g) tt)
scalar? n Ordering.gt Ordering.lt Ordering.lt e f g = some (rw (e, f, g) tt)
scalar? n o p q e f g = none

before : (n : ℕ) → Option (IsScalar n) → String → String
before n none s = s
before n (some h) s = String.◌∷◌ (char n h) s

push : ℕ → String → String
push n s = before n (scalar? n _ _ _ refl refl refl) s

scalar?-some :
    (n : ℕ) (h : IsScalar n) (s : String) (o p q : Ordering) (e : compare n 55296 ≡ o)
    (f : compare 57343 n ≡ p) (g : compare n 1114112 ≡ q)
    → before n (scalar? n o p q e f g) s ≡ String.◌∷◌ (char n h) s
unfolding scalar? before
scalar?-some n h s Ordering.lt p q e f g = ap (λ c. String.◌∷◌ c s) (Char-path _ _ refl)
scalar?-some n h s Ordering.eq Ordering.lt Ordering.lt e f g =
    ap (λ c. String.◌∷◌ c s) (Char-path _ _ refl)
scalar?-some n h s Ordering.eq Ordering.lt Ordering.eq e f g = absurd (rw (e, f, g) at h)
scalar?-some n h s Ordering.eq Ordering.lt Ordering.gt e f g = absurd (rw (e, f, g) at h)
scalar?-some n h s Ordering.eq Ordering.eq q e f g = absurd (rw (e, f) at h)
scalar?-some n h s Ordering.eq Ordering.gt q e f g = absurd (rw (e, f) at h)
scalar?-some n h s Ordering.gt Ordering.lt Ordering.lt e f g =
    ap (λ c. String.◌∷◌ c s) (Char-path _ _ refl)
scalar?-some n h s Ordering.gt Ordering.lt Ordering.eq e f g = absurd (rw (e, f, g) at h)
scalar?-some n h s Ordering.gt Ordering.lt Ordering.gt e f g = absurd (rw (e, f, g) at h)
scalar?-some n h s Ordering.gt Ordering.eq q e f g = absurd (rw (e, f) at h)
scalar?-some n h s Ordering.gt Ordering.gt q e f g = absurd (rw (e, f) at h)

push-code : (c : Char) (s : String) → push (code c) s ≡ String.◌∷◌ c s
unfolding push
push-code (char n h) s = scalar?-some n h s _ _ _ refl refl refl

-- The number of a character so far, the bytes of it that are left, and the bytes.
pub text_from : ℕ → ℕ → List ℕ → String
text_from acc left [] = ""
text_from acc zero (b ∷ bs) =
    let two = text_from (b - 192) 1 bs in
    let three = text_from (b - 224) 2 bs in
    let four = text_from (b - 240) 3 bs in
    let one = push b (text_from 0 0 bs) in
    if ltb b 128 then one else if ltb b 224 then two else if ltb b 240 then three else four
text_from acc (suc zero) (b ∷ bs) = push (acc * 64 + (b - 128)) (text_from 0 0 bs)
text_from acc (suc (suc left)) (b ∷ bs) = text_from (acc * 64 + (b - 128)) (suc left) bs

text_from-utf8 : (n : ℕ) (bs : List ℕ) → text_from 0 0 (utf8 n ++ bs) ≡ push n (text_from 0 0 bs)
unfolding text_from
text_from-utf8 n bs = elim (Bool-cases (ltb n 128)) [
  | inl a ↦ rw (a, a) refl
  | inr a ↦ elim (Bool-cases (ltb n 2048)) [
    | inl b ↦
        let low : ltb (192 + n / 64) 128 ≡ false = ground arith in
        let lead : ltb (192 + n / 64) 224 ≡ true = ground arith in
        rw (a, b, low, lead) (ap (λ m. push m (text_from 0 0 bs)) (omega arith))
    | inr b ↦ elim (Bool-cases (ltb n 65536)) [
      | inl c ↦
          let low : ltb (224 + n / 4096) 128 ≡ false = ground arith in
          let mid : ltb (224 + n / 4096) 224 ≡ false = ground arith in
          let lead : ltb (224 + n / 4096) 240 ≡ true = ground arith in
          rw (a, b, c, low, mid, lead) (ap (λ m. push m (text_from 0 0 bs)) (omega arith))
      | inr c ↦
          let low : ltb (240 + n / 262144) 128 ≡ false = ground arith in
          let mid : ltb (240 + n / 262144) 224 ≡ false = ground arith in
          let lead : ltb (240 + n / 262144) 240 ≡ false = ground arith in
          rw (a, b, c, low, mid, lead) (ap (λ m. push m (text_from 0 0 bs)) (omega arith))
    ]
  ]
]

text_from-bytes : (s : String) → text_from 0 0 (bytes s) ≡ s
unfolding bytes text_from
text_from-bytes String.[] = refl
text_from-bytes (String.◌∷◌ c s) =
    text_from-utf8 (code c) (bytes s) ∙ push-code c _ ∙ ap (λ r. String.◌∷◌ c r) (text_from-bytes s)

ones_then : ℕ → List ℕ → List ℕ
ones_then zero bs = 0 ∷ bs
ones_then (suc n) bs = 1 ∷ ones_then n bs

pub in_ones : List ℕ → List ℕ
in_ones [] = []
in_ones (n ∷ ns) = ones_then n (in_ones ns)

pub out_of_ones : ℕ → List ℕ → List ℕ
out_of_ones n [] = []
out_of_ones n (zero ∷ bs) = n ∷ out_of_ones 0 bs
out_of_ones n (suc b ∷ bs) = out_of_ones (suc n) bs

out_of_ones_then :
    (k n : ℕ) (bs : List ℕ) → out_of_ones k (ones_then n bs) ≡ (k + n) ∷ out_of_ones 0 bs
unfolding ones_then out_of_ones
out_of_ones_then k zero bs = ap (λ m. m ∷ out_of_ones 0 bs) (omega arith)
out_of_ones_then k (suc n) bs =
    out_of_ones_then (suc k) n bs ∙ ap (λ m. m ∷ out_of_ones 0 bs) (omega arith)

out_of_ones-in_ones : (ns : List ℕ) → out_of_ones 0 (in_ones ns) ≡ ns
unfolding in_ones out_of_ones
out_of_ones-in_ones [] = refl
out_of_ones-in_ones (n ∷ ns) =
    out_of_ones_then 0 n (in_ones ns)
    ∙ ap (λ m. m ∷ out_of_ones 0 (in_ones ns)) (omega arith)
    ∙ ap (λ r. n ∷ r) (out_of_ones-in_ones ns)

ones_then_bytes : (n : ℕ) (bs : List ℕ) → all_bytes bs ≡ true → all_bytes (ones_then n bs) ≡ true
unfolding ones_then
ones_then_bytes zero bs h = h
ones_then_bytes (suc n) bs h = ones_then_bytes n bs h

in_ones_bytes : (ns : List ℕ) → all_bytes (in_ones ns) ≡ true
unfolding in_ones
in_ones_bytes [] = refl
in_ones_bytes (n ∷ ns) = ones_then_bytes n (in_ones ns) (in_ones_bytes ns)

abbrev toy_gcm : Gcm
toy_gcm = record {
  nonce_size = 12;
  seal = λ nonce plaintext. in_ones plaintext;
  open_sealed = λ nonce sealed. ok (out_of_ones 0 sealed);
}

abbrev accepted : Bool → Result ℕ
accepted b = if b then ok 0 else err (new "crypto/aes: invalid key size")

-- Digests of 32 bytes.
abbrev pub toy_libraries : Crypto
toy_libraries = record toy { sha256 = λ message. replicate 32 0 }

abbrev pub toy_aes : Aes
toy_aes = record {
  Block = ℕ;
  new_cipher = λ key. accepted (length key == 32);
  new_gcm = λ b. ok toy_gcm;
  corrupt_input = new "illegal base64 data";
  text_of = text_from 0 0;
}

pub toy-Promises : Promises toy_libraries toy_aes
toy-Promises = record {
  digest_size = λ message. refl;
  accepts = λ key e. (0, rw e refl);
  has_gcm = λ b. (toy_gcm, refl);
  opens = λ b g nonce plaintext made fits.
      subst (λ (h : Gcm). h.open_sealed nonce (h.seal nonce plaintext) ≡ ok plaintext)
        (ok-injective made) (ap ok (out_of_ones-in_ones plaintext));
  seals_bytes = λ b g nonce plaintext made.
      subst (λ (h : Gcm). all_bytes (h.seal nonce plaintext) ≡ true) (ok-injective made)
        (in_ones_bytes plaintext);
  std_inverse = λ b h. ap some (decode-encode b);
  text_inverse = text_from-bytes;
}
