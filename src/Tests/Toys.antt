-- ===== src/Tests/Toys.antt =====
-- Small libraries below internal/security that keep the promises of the real ones: bytes written in
-- unary, digests that count.
use x_ui_site.Prelude.{
  ℕ, zero, suc, ◌+◌, ◌%◌, String, ◌≡◌, refl, sym, ap, ◌∙◌, true, false, Option, none, some, List,
  [], ◌∷◌, length, str_eq, eq_iff, if◌then◌else◌, ◌==◌, Bool-cases, inl, inr, arith, if-true,
  if-false,
}
use x_ui_site.Prelude.Text.{free_of, same_char}
use x_ui_site.Security.{Crypto, Claims}
use x_ui_site.Security.Laws.{Lawful, all_bytes, is_role}

unfoldable pub unary : ℕ → String → String
unary zero s = String.◌∷◌ "b" s
unary (suc n) s = String.◌∷◌ "a" (unary n s)

unfoldable pub encode : List ℕ → String
encode [] = ""
encode (b ∷ bs) = unary b (encode bs)

unfoldable pub decode_from : ℕ → String → List ℕ
decode_from n String.[] = []
decode_from n (String.◌∷◌ c s) =
    let more = decode_from (suc n) s in
    let next = decode_from 0 s in if same_char c "a" then more else n ∷ next

decode-unary : (k n : ℕ) (s : String) → decode_from k (unary n s) ≡ (k + n) ∷ decode_from 0 s
unfolding decode_from unary
decode-unary k zero s = ap (λ x. x ∷ decode_from 0 s) (omega arith)
decode-unary k (suc n) s = decode-unary (suc k) n s ∙ ap (λ x. x ∷ decode_from 0 s) (omega arith)

pub decode-encode : (bs : List ℕ) → decode_from 0 (encode bs) ≡ bs
unfolding encode decode_from
decode-encode [] = refl
decode-encode (b ∷ bs) =
    decode-unary 0 b (encode bs)
    ∙ ap (λ x. x ∷ decode_from 0 (encode bs)) (omega arith)
    ∙ ap (λ x. b ∷ x) (decode-encode bs)

unary-free : (n : ℕ) (s : String) → free_of "." s ≡ true → free_of "." (unary n s) ≡ true
unfolding unary
unary-free zero s h = h
unary-free (suc n) s h = unary-free n s h

encode-free : (bs : List ℕ) → free_of "." (encode bs) ≡ true
unfolding encode
encode-free [] = refl
encode-free (b ∷ bs) = unary-free b (encode bs) (encode-free bs)

unfoldable pub tag_of : String → ℕ
tag_of r = if str_eq r "user" then 2 else if str_eq r "vendor" then 3 else 4

unfoldable pub role_of : ℕ → String
role_of n = if n == 2 then "user" else if n == 3 then "vendor" else "admin"

unfoldable pub ones : ℕ → ℕ → List ℕ
ones zero tag = tag ∷ []
ones (suc n) tag = 1 ∷ ones n tag

unfoldable pub unmarshal_from : ℕ → List ℕ → Option Claims
unmarshal_from n [] = none
unmarshal_from n (b ∷ bs) =
    let more = unmarshal_from (suc n) bs in
    if b == 1 then more else some (record { sub = n; role = role_of b; vendor_id = 0 })

unmarshal-ones :
    (k n tag : ℕ)
    → (tag == 1) ≡ false
    → unmarshal_from k (ones n tag)
      ≡ some (record { sub = k + n; role = role_of tag; vendor_id = 0 })
unfolding unmarshal_from ones
unmarshal-ones k zero tag h =
    if-false (tag == 1) _ _ h
    ∙ ap (λ x. some (record { sub = x; role = role_of tag; vendor_id = 0 })) (omega arith)
unmarshal-ones k (suc n) tag h =
    unmarshal-ones (suc k) n tag h
    ∙ ap (λ x. some (record { sub = x; role = role_of tag; vendor_id = 0 })) (omega arith)

tag_of-no_one : (r : String) → (tag_of r == 1) ≡ false
unfolding tag_of
tag_of-no_one r = ground arith

role_of-tag_of : (r : String) → is_role r ≡ true → role_of (tag_of r) ≡ r
unfolding tag_of role_of
role_of-tag_of r h = elim (Bool-cases (str_eq r "user")) [
  | inl e ↦ ap role_of (if-true (str_eq r "user") _ _ e) ∙ sym ((eq_iff r "user").0 e)
  | inr n ↦ elim (Bool-cases (str_eq r "vendor")) [
    | inl e ↦
        ap role_of (if-false (str_eq r "user") _ _ n ∙ if-true (str_eq r "vendor") _ _ e)
        ∙ sym ((eq_iff r "vendor").0 e)
    | inr m ↦
        ap role_of (if-false (str_eq r "user") _ _ n ∙ if-false (str_eq r "vendor") _ _ m)
        ∙ sym ((eq_iff r "admin").0 (ground arith))
  ]
]

ones_bytes : (n tag : ℕ) → all_bytes (tag ∷ []) ≡ true → all_bytes (ones n tag) ≡ true
unfolding ones
ones_bytes zero tag h = h
ones_bytes (suc n) tag h = ones_bytes n tag h

count_bytes : (n : ℕ) → all_bytes (n % 256 ∷ []) ≡ true
count_bytes n = ground arith

tag_bytes : (r : String) → all_bytes (tag_of r ∷ []) ≡ true
unfolding tag_of
tag_bytes r = ground arith

abbrev pub toy : Crypto
toy = record {
  mac = λ key message. length message % 256 ∷ [];
  sha256 = λ message. length message % 256 ∷ [];
  encode_url = encode;
  decode_url = λ s. some (decode_from 0 s);
  encode_std = encode;
  decode_std = λ s. some (decode_from 0 s);
  marshal = λ sub role exp. ones sub (tag_of role);
  unmarshal = unmarshal_from 0;
}

pub toy-Lawful : Lawful toy
toy-Lawful = record {
  mac_bytes = λ key message. count_bytes (length message);
  sha256_bytes = λ message. count_bytes (length message);
  marshal_bytes = λ sub role exp. ones_bytes sub (tag_of role) (tag_bytes role);
  url_free = λ b h. encode-free b;
  url_inverse = λ b h. ap some (decode-encode b);
  std_free = λ b h. encode-free b;
  std_inverse = λ b h. ap some (decode-encode b);
  json_inverse = λ sub role exp h.
      unmarshal-ones 0 sub (tag_of role) (tag_of-no_one role)
      ∙ ap (λ r. some (record { sub = 0 + sub; role = r; vendor_id = 0 })) (role_of-tag_of role h)
      ∙ ap (λ n. some (record { sub = n; role = role; vendor_id = 0 })) (omega arith);
}
