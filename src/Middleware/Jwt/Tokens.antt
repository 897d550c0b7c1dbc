-- ===== src/Middleware/Jwt/Tokens.antt =====
-- Which tokens parseJWT accepts.
use Prim.Native.String
use text.Mathlib.TextLemmas.{append_assoc, cons-append}
use x_ui_site.Prelude.{str_eq_refl}
use x_ui_site.Prelude.{
  ℕ, String, ◌≡◌, refl, sym, ap, ◌∙◌, subst, Bool, true, false, Option, none, some, List, [], ◌∷◌,
  str_eq, eq_iff, Bool-cases, inl, inr,
}
use x_ui_site.Prelude.Text.{split, join, free_of}
use x_ui_site.Prelude.Text.Splits.{split-append, split-free, join-split}
use x_ui_site.Security.{
  Crypto, Claims, dotted, sign, sign_jwt, header, payload, bytes, expiry, signed_parts,
  validate_jwt,
}
use x_ui_site.Security.Laws.{Lawful, all_bytes, is_role}
use x_ui_site.Middleware.Jwt.{parse_jwt, if_signed, claims_in, decoded}

-- Three parts without a '.' are split as they were joined.
pub split-dotted :
    (a b c : String)
    → free_of "." a ≡ true
    → free_of "." b ≡ true
    → free_of "." c ≡ true
    → split "." (dotted (dotted a b) c) ≡ a ∷ b ∷ c ∷ []
split-dotted a b c h i j =
    ap (split ".") (
      append_assoc a (String.◌∷◌ "." b) (String.◌∷◌ "." c)
      ∙ ap (String.◌++◌ a) (cons-append "." b (String.◌∷◌ "." c)))
    ∙ split-append "." a _ h
    ∙ ap (λ x. a ∷ x) (split-append "." b c i)
    ∙ ap (λ x. a ∷ b ∷ x) (split-free "." c j)

header_bytes : all_bytes (bytes "{\"alg\":\"HS256\",\"typ\":\"JWT\"}") ≡ true
unfolding bytes
header_bytes = refl

module _ (k : Crypto) (secret : String) where
  -- With libraries that keep their promises: the token that SignJWT makes for a user and one of
  -- the program's roles, at whatever time, is accepted by parseJWT, at any later time, for that user
  -- and that role, with vendor 0.
  pub parse_jwt-sign_jwt :
      (laws : Lawful k) (sub : ℕ) (role : String) (now : ℕ)
      → is_role role ≡ true
      → parse_jwt k secret (sign_jwt k secret sub role now)
        ≡ some (record { sub = sub; role = role; vendor_id = 0 })
  unfolding sign_jwt parse_jwt
  parse_jwt-sign_jwt laws sub role now known =
      let marshalled = laws.marshal_bytes sub role (expiry now) in
      rw
        (split-dotted (header k) (payload k sub role now) _ (laws.url_free _ header_bytes)
          (laws.url_free _ marshalled) (laws.url_free _ (laws.mac_bytes _ _)))
        (rw (str_eq_refl (sign k secret (dotted (header k) (payload k sub role now))))
          (rw (laws.url_inverse _ marshalled) (laws.json_inverse sub role (expiry now) known)))

  -- A token with a signature of its own header and payload, which say `c`.
  pub record Signed (token : String) (c : Claims) : Type 0 where
    pub head : String
    pub content : String
    pub document : List ℕ
    pub whole : token ≡ dotted (dotted head content) (sign k secret (dotted head content))
    pub decoded : k.decode_url content ≡ some document
    pub says : k.unmarshal document ≡ some c

  signed_parts-Signed :
      (token : String) (parts : List String) (c : Claims)
      → join "." parts ≡ token
      → if_signed k secret (signed_parts k secret parts) (claims_in k secret parts) ≡ some c
      → Signed token c
  signed_parts-Signed token [] c j e = cc
  signed_parts-Signed token (a ∷ []) c j e = cc
  signed_parts-Signed token (a ∷ b ∷ []) c j e = cc
  signed_parts-Signed token (a ∷ b ∷ s ∷ d ∷ more) c j e = cc
  signed_parts-Signed token (a ∷ b ∷ s ∷ []) c j e =
      elim (Bool-cases (str_eq (sign k secret (dotted a b)) s)) [
        | inl same ↦
            by_document (k.decode_url b) refl
              (subst (λ t. if_signed k secret t (claims_in k secret (a ∷ b ∷ s ∷ [])) ≡ some c) same
                e)
              ((eq_iff _ _).0 same)
        | inr other ↦ absurd (
            none_some (
              subst (λ t. if_signed k secret t (claims_in k secret (a ∷ b ∷ s ∷ [])) ≡ some c) other
                e))
      ]
    where
      none_some : none ≡ some c → ⊥
      none_some q = cc

      by_document :
          (o : Option (List ℕ))
          → k.decode_url b ≡ o
          → decoded k secret o ≡ some c
          → sign k secret (dotted a b) ≡ s
          → Signed token c
      by_document none q f same = cc
      by_document (some document) q f same = record {
        head = a;
        content = b;
        document = document;
        whole =
            sym j
            ∙ sym (
                append_assoc a (String.◌∷◌ "." b) (String.◌∷◌ "." s)
                ∙ ap (String.◌++◌ a) (cons-append "." b (String.◌∷◌ "." s)))
            ∙ ap (dotted (dotted a b)) (sym same);
        decoded = q;
        says = f;
      }

  -- Whatever the libraries do: a token that parseJWT accepts for some claims ends in the signature,
  -- under the secret, of its own header and payload, and the payload says those claims; ValidateJWT
  -- accepts it too.
  pub parse_jwt_sound :
      (token : String) (c : Claims)
      → parse_jwt k secret token ≡ some c
      → Signed token c × (validate_jwt k secret token ≡ true)
  unfolding parse_jwt validate_jwt
  parse_jwt_sound token c e = (
    signed_parts-Signed token (split "." token) c (join-split "." token) e,
    if_signed-eq-some _ (signed_parts k secret (split "." token)) e,
  )
    where
      if_signed-eq-some :
          (o : Option Claims) (b : Bool) → if_signed k secret b o ≡ some c → b ≡ true
      if_signed-eq-some o true q = refl
      if_signed-eq-some o false q = cc
