-- ===== src/Auth/Login.antt =====
-- What Login answers.
use x_ui_site.Prelude.{
  ℕ, String, ◌≡◌, refl, ap, ◌∙◌, ◌⊎◌, inl, inr, Bool, true, subst, false, none, some, [], if-false,
}
use x_ui_site.Db.Rows.{Tables, UserRow}
use x_ui_site.Db.Errors.{Error, Result, ok, err}
use x_ui_site.Db.Session.{World}
use x_ui_site.Db.Rules.{Runs, Ends, bind-Runs, gets-Runs, pure-Runs, Unchanged, Unchanged-refl}
use x_ui_site.Db.Success.{Stands, Never, look-Gives}
use x_ui_site.Repository.Users.{user_by_email, by_email}
use x_ui_site.Security.{Crypto, compare_password, sign_jwt}
use x_ui_site.Middleware.Jwt.{parse_jwt}
use x_ui_site.Storefront.Reads.{look-Seen}
use x_ui_site.Http.{Request, Response, respond, by_body, then_field, write_json, token}
use x_ui_site.Http.Api.{Credentials, credentials, login_route, login_with}
use x_ui_site.Auth.{login, token_for}

module _ (k : Crypto) (secret email password : String) where
  -- A token signed now for the user whose password it is, or the empty text for any other.
  pub record LoggedIn (t : Tables) (now : ℕ) (token : String) : Type 0 where
    pub user : UserRow
    pub known : user_by_email email t ≡ ok user
    pub answer :
        ((compare_password k user.password_hash password ≡ true)
          × (token ≡ sign_jwt k secret user.id user.role now))
        ⊎ ((compare_password k user.password_hash password ≡ false) × (token ≡ ""))

  answered :
      (u : UserRow) (now : ℕ) (b : Bool)
      → ((b ≡ true) × (token_for k secret u now b ≡ sign_jwt k secret u.id u.role now))
        ⊎ ((b ≡ false) × (token_for k secret u now b ≡ ""))
  answered u now true = inl (refl, refl)
  answered u now false = inr (refl, refl)

  -- With no transaction open, whatever statement fails: a login that answers has found the user of
  -- the email; its answer is the token signed now for the id and the role of that user, and the password
  -- matches the hash of the row, or it is the empty text, without an error, and the password does not; no row is changed, whether it answers or
  -- fails.
  pub login_outcome :
      (v : World)
      → v.saved ≡ none
      → Runs v
          (login k secret email password)
          (λ token x. Unchanged v x × LoggedIn v.tables v.now token)
          (Unchanged v)
  unfolding login by_email
  login_outcome v closed =
      bind-Runs (look-Seen (user_by_email email) v v closed (Unchanged-refl v)) λ u w1 (s1, found).
        bind-Runs
          (gets-Runs {P = λ now x. Unchanged v x × (now ≡ v.now)} (λ w. w.now) (s1, s1.outside.now))
          λ now w2 (s2, clock). pure-Runs _ (
            s2,
            record {
              user = u;
              known = found;
              answer =
                  subst
                    (λ n.
                      ((compare_password k u.password_hash password ≡ true)
                        × (token_for k secret u now (compare_password k u.password_hash password)
                            ≡ sign_jwt k secret u.id u.role n))
                      ⊎ ((compare_password k u.password_hash password ≡ false)
                          × (token_for k secret u now (compare_password k u.password_hash password)
                              ≡ "")))
                    clock (answered u now (compare_password k u.password_hash password));
            },
          )

  -- Over a healthy connection the login of a known user answers.
  pub login-Gives :
      (u : UserRow) (t : Tables) (w : World)
      → Stands none t w
      → user_by_email email t ≡ ok u
      → Runs w
          (login k secret email password)
          (λ token x.
            ((now : ℕ) × (token
                ≡ token_for k secret u now (compare_password k u.password_hash password)))
            × Stands none t x)
          Never
  unfolding login by_email
  login-Gives u t w s known =
      bind-Runs (look-Gives (user_by_email email) u t w s known) λ v w1 (e, s1).
        bind-Runs {P = λ now x. Stands none t x} (gets-Runs (λ w. w.now) s1) λ now w2 s2.
          pure-Runs _ (
            (
              now,
              ap (λ r. token_for k secret r now (compare_password k r.password_hash password)) e,
            ),
            s2,
          )

answer_of :
    {A : Type 0} (P : A → World → Type 0) (f : Error → Response) (g : A → Response) (a : A)
    (r : Result A) (x : World)
    → Ends P Never r x
    → ((b : A) → P b x → b ≡ a)
    → (respond f g (r, x)).0 ≡ g a
answer_of P f g a (ok b) x h j = ap g (j b h)
answer_of P f g a (err e) x h j = absurd h

-- Over a healthy connection and with no transaction open, a login with the email of a user and a
-- password that does not match the hash of the row is answered with status 200 and the empty token,
-- which parseJWT refuses.
pub login_wrong_password :
    (k : Crypto) (secret : String) (r : Request) (b : Credentials) (u : UserRow) (w : World)
    → w.saved ≡ none
    → w.faults ≡ []
    → then_field r.body credentials ≡ some b
    → user_by_email b.email w.tables ≡ ok u
    → compare_password k u.password_hash b.password ≡ false
    → ((login_route k secret r w).0 ≡ write_json 200 (token "")) × (parse_jwt k secret "" ≡ none)
unfolding login_route parse_jwt
login_wrong_password k secret r b u w closed healthy body known wrong = (
  ap (λ o. (by_body (login_with k secret) o r w).0) body
      ∙ answer_of _ _ _ "" (login k secret b.email b.password w).0
          (login k secret b.email b.password w).1
          (login-Gives k secret b.email b.password u w.tables w
            (record { healthy = healthy; saved = closed; tables = refl }) known).holds
          (λ t h. h.0.1 ∙ if-false _ _ _ wrong),
  refl,
)
