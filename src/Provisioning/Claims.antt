-- ===== src/Provisioning/Claims.antt =====
-- What claiming, finishing and failing a job do to the list of jobs.
use x_ui_site.Prelude.{
  ℕ, ◌≤◌, ◌≡◌, refl, ap, ◌∙◌, if◌then◌else◌, Bool, true, false, List, [], ◌∷◌, some, find,
  update_where, All, All-map, All-update, All-zip, All-find, find_holds, ◌==◌, arith, Bool-cases,
  inl, inr,
}
use x_ui_site.Db.Rows.{Job}
use x_ui_site.Db.Errors.{Error}
use x_ui_site.Repository.Jobs.{is_pending, is_claimable, claimed, finished, failed_with}

-- A job that was tried at most once: a pending one never, and none is a dead letter.
pub record IsTriedOnce (j : Job) : Type 0 where
  pub retries : j.retries ≤ 1
  pub alive : j.dead_letter ≡ false
  pub fresh : is_pending j.status ≡ true → j.retries ≡ 0

abbrev pub HasOwnIds : List Job → Type 0
HasOwnIds [] = Unit {0}
HasOwnIds (j ∷ js) = All (λ r. r.id == j.id ≡ false) js × HasOwnIds js

-- The queue in which every job was tried at most once.
abbrev pub IsOneShot : List Job → Type 0
IsOneShot js = All IsTriedOnce js × HasOwnIds js

-- The rows with the id of a found row are that row.
only :
    (p : Job → Bool) (js : List Job) (j : Job)
    → HasOwnIds js
    → find p js ≡ some j
    → All (λ r. r.id == j.id ≡ true → r ≡ j) js
only p [] j u e = tt
only p (x ∷ js) j u e = elim (Bool-cases (p x)) [
  | inl hit ↦
      let same : x ≡ j = ground arith in
      (
        λ q. same,
        All-map js (λ r f q. elim (absurd_of (r.id == x.id) f (ground (arith, q, same))) [ ]) u.0,
      )
  | inr miss ↦
      let rest : find p js ≡ some j = ground arith in
      let other : j.id == x.id ≡ false = All-find _ p js j u.0 rest in
      (λ q. elim (absurd_of (j.id == x.id) other (ground (arith, q))) [ ], only p js j u.1 rest)
]
  where
    absurd_of : (b : Bool) → b ≡ false → b ≡ true → ⊥
    absurd_of b f t = cc

module _ (p : Job → Bool) (f : Job → Job) (same : (r : Job) → (f r).id ≡ r.id) where
  updated-id : (j : Job) → (if p j then f j else j).id ≡ j.id
  updated-id j = ground (arith, same j)

  update_where-HasOwnIds : (js : List Job) → HasOwnIds js → HasOwnIds (update_where p f js)
  update_where-HasOwnIds [] h = tt
  update_where-HasOwnIds (j ∷ js) h = (
    All-update p f js (λ r e o. ground (arith, o, same r, updated-id j))
        (λ r e o. ground (arith, o, updated-id j)) h.0,
    update_where-HasOwnIds js h.1,
  )

-- The queue while the job `id` is worked on: its row is claimed, and was not tried before.
abbrev pub InHand : ℕ → List Job → Type 0
InHand id js = IsOneShot js × All (λ r. r.id == id ≡ true → r.retries ≡ 0) js

pub claim-InHand :
    (js : List Job) (j : Job)
    → IsOneShot js
    → find is_claimable js ≡ some j
    → InHand j.id (update_where (λ r. r.id == j.id) claimed js)
claim-InHand js j h e =
    let fresh : j.retries ≡ 0 =
      (All-find IsTriedOnce is_claimable js j h.0 e).fresh
        (pending_of j (find_holds is_claimable js j e)) in
    (
      (
        All-update (λ r. r.id == j.id) claimed js
            (λ r q t. record { retries = t.retries; alive = t.alive; fresh = λ f. absurd f })
            (λ r q t. t) h.0,
        update_where-HasOwnIds (λ r. r.id == j.id) claimed (λ r. refl) js h.1,
      ),
      All-update (λ r. r.id == j.id) claimed js (λ r q o k. ap (λ x. x.retries) (o q) ∙ fresh)
          (λ r q o k. cc) (only is_claimable js j h.1 e),
    )
  where
    pending_of : (j : Job) → is_claimable j ≡ true → is_pending j.status ≡ true
    pending_of j e = ground arith

    absurd : {A : Type 0} → false ≡ true → A
    absurd e = cc

pub finish-IsOneShot :
    (id : ℕ) (js : List Job) → IsOneShot js → IsOneShot (update_where (λ r. r.id == id) finished js)
finish-IsOneShot id js h = (
  All-update (λ r. r.id == id) finished js
      (λ r q t. record { retries = t.retries; alive = t.alive; fresh = λ f. cc }) (λ r q t. t) h.0,
  update_where-HasOwnIds (λ r. r.id == id) finished (λ r. refl) js h.1,
)

pub fail-IsOneShot :
    (id : ℕ) (e : Error) (js : List Job)
    → InHand id js
    → IsOneShot (update_where (λ r. r.id == id) (failed_with e false) js)
fail-IsOneShot id e js ((all, own), hand) = (
  All-update (λ r. r.id == id) (failed_with e false) js
      (λ r q (t, z). record { retries = ground (arith, z q); alive = refl; fresh = λ f. cc })
      (λ r q t. t.0) (All-zip _ _ js all hand),
  update_where-HasOwnIds (λ r. r.id == id) (failed_with e false) (λ r. refl) js own,
)
