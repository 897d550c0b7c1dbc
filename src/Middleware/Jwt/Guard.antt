-- ===== src/Middleware/Jwt/Guard.antt =====
-- What stands behind JWT and RequireRole is reached with a signed token of an allowed role only.
use x_ui_site.Prelude.{
  eq_iff, false, ℕ, String, ◌≡◌, refl, sym, ap, subst, ◌⊎◌, inl, inr, true, false, none, some, List,
  [], ◌∷◌, any, str_eq, Bool-cases, Option-cases, if-true, if-false, ◌∙◌,
}
use x_ui_site.Db.Session.{World}
use x_ui_site.Security.{Crypto, Claims}
use x_ui_site.Http.{Request, Response, Handler, refusal}
use x_ui_site.Middleware.Jwt.{
  admitted, extract_bearer, json_error, parse_jwt, with_claims, jwt, require_role, chain,
}

module _ (k : Crypto) (secret : String) (roles : List String) where
  -- The route of a handler for some roles.
  abbrev pub guarded : Handler → Handler
  guarded h = chain h (jwt k secret ∷ require_role roles ∷ [])

  -- The request has a token that was signed with the secret, for a role of the list.
  pub record Admits (r : Request) (c : Claims) : Type 0 where
    pub signed : parse_jwt k secret (extract_bearer r) ≡ some c
    pub allowed : any (str_eq c.role) roles ≡ true

  -- Refused before the handler: nothing is touched.
  pub record Refused (w : World) (answer : Response × World) : Type 0 where
    pub untouched : answer.1 ≡ w
    pub code : (answer.0.code ≡ 401) ⊎ (answer.0.code ≡ 403)
    pub message : String
    pub payload : answer.0.payload ≡ refusal message

  -- Why a request is refused: with 401 no token that was signed with the secret, with 403 one for
  -- a role that is not in the list.
  abbrev pub Unfit : Request → Response → Type 0
  Unfit r answer =
      ((answer.code ≡ 401) × (parse_jwt k secret (extract_bearer r) ≡ none))
      ⊎ ((answer.code ≡ 403)
          × ((c : Claims) × (parse_jwt k secret (extract_bearer r) ≡ some c)
              × (any (str_eq c.role) roles ≡ false)))

  module _ (h : Handler) (r : Request) (w : World) where
    -- The handler answers for the claims of the token.
    abbrev pub Reached : Response × World → Type 0
    Reached answer = (c : Claims) × Admits r c × (answer ≡ h (with_claims k secret c r) w)

    let_in :
        (c : Claims)
        → str_eq (extract_bearer r) "" ≡ false
        → Admits r c
        → guarded h r w ≡ h (with_claims k secret c r) w
    unfolding jwt chain require_role
    let_in c given a =
        if-false (str_eq (extract_bearer r) "") _ _ given
        ∙ ap (λ o. admitted k secret (require_role roles h) o r w) a.signed
        ∙ if-true (any (str_eq c.role) roles) _ _ a.allowed

    -- The empty token has no claims.
    unsigned : str_eq (extract_bearer r) "" ≡ true → parse_jwt k secret (extract_bearer r) ≡ none
    unfolding parse_jwt
    unsigned missing =
        subst (λ s. parse_jwt k secret s ≡ none) (sym ((eq_iff (extract_bearer r) "").0 missing))
          refl

    -- The three refusals.
    no_token :
        str_eq (extract_bearer r) "" ≡ true → guarded h r w ≡ (json_error 401 "missing token", w)
    unfolding jwt chain
    no_token missing = if-true (str_eq (extract_bearer r) "") _ _ missing

    no_claims :
        str_eq (extract_bearer r) "" ≡ false
        → parse_jwt k secret (extract_bearer r) ≡ none
        → guarded h r w ≡ (json_error 401 "invalid token", w)
    unfolding jwt chain
    no_claims given bad =
        if-false (str_eq (extract_bearer r) "") _ _ given
        ∙ ap (λ o. admitted k secret (require_role roles h) o r w) bad

    no_role :
        (c : Claims)
        → str_eq (extract_bearer r) "" ≡ false
        → parse_jwt k secret (extract_bearer r) ≡ some c
        → any (str_eq c.role) roles ≡ false
        → guarded h r w ≡ (json_error 403 "forbidden", w)
    unfolding jwt chain require_role
    no_role c given e other =
        if-false (str_eq (extract_bearer r) "") _ _ given
        ∙ ap (λ o. admitted k secret (require_role roles h) o r w) e
        ∙ if-false (any (str_eq c.role) roles) _ _ other

    refused :
        (code : ℕ) (msg : String)
        → ((code ≡ 401) ⊎ (code ≡ 403))
        → Unfit r (json_error code msg)
        → guarded h r w ≡ (json_error code msg, w)
        → Refused w (guarded h r w) × Unfit r (guarded h r w).0
    refused code msg by why e = (
      record {
        untouched = ap (λ answer. answer.1) e;
        code = subst (λ n. (n ≡ 401) ⊎ (n ≡ 403)) (sym (ap (λ answer. answer.0.code) e)) by;
        message = msg;
        payload = ap (λ answer. answer.0.payload) e;
      },
      subst (λ answer. Unfit r answer.0) (sym e) why,
    )

    -- Whatever handler stands behind JWT and RequireRole, for every request: either it runs, with the
    -- claims in the context, and the token was signed with the secret for a role of the list; or
    -- nothing has changed, and the answer is 401 where no token is signed with the secret and 403 where
    -- the signed token is for no role of the list.
    pub guarded_or_Refused :
        Reached (guarded h r w) ⊎ (Refused w (guarded h r w) × Unfit r (guarded h r w).0)
    guarded_or_Refused = elim (Bool-cases (str_eq (extract_bearer r) "")) [
      | inl missing ↦
          inr (
            refused 401 "missing token" (inl refl) (inl (refl, unsigned missing))
              (no_token missing))
      | inr given ↦ elim (Option-cases (parse_jwt k secret (extract_bearer r))) [
        | inl bad ↦
            inr (refused 401 "invalid token" (inl refl) (inl (refl, bad)) (no_claims given bad))
        | inr (c, e) ↦ elim (Bool-cases (any (str_eq c.role) roles)) [
          | inl member ↦
              let a : Admits r c = record { signed = e; allowed = member } in
              inl (c, a, let_in c given a)
          | inr other ↦ inr (
              refused 403 "forbidden" (inr refl) (inr (refl, (c, e, other)))
                (no_role c given e other))
        ]
      ]
    ]
