-- ===== src/Provisioning/Delivery.antt =====
-- What one job leaves behind: a panel that was asked at most three times, and a service that is
-- stored whole and linked to its order, or nothing.
use x_ui_site.Prelude.{
  ℕ, zero, suc, Bool, true, false, Option, none, some, List, ◌⊎◌, inl, inr, ltb, tail, subst,
  if◌then◌else◌, ◌≤◌, ◌≡◌, refl, sym, ◌∙◌, ap, [], ◌∷◌, ◌++◌, arith, replicate, append_assoc,
  append-nil,
}
use x_ui_site.Db.Rows.{Panel}
use x_ui_site.Db.Errors.{Error, Result, ok, err, new}
use x_ui_site.Db.Session.{World, ProvisionCall, ProvisionResponse, PanelReply}
use x_ui_site.Provisioning.{
  answer_of, next_reply, decoded, attempts, create_client, recover_with, call_of, adapter_retries,
  ProvisionRequest, provision,
}

-- The panel was asked, and nothing else happened.
pub record Asked (call : ProvisionCall) (times : ℕ) (v w : World) : Type 0 where
  pub calls : w.calls ≡ v.calls ++ replicate times call
  pub tables : w.tables ≡ v.tables
  pub saved : w.saved ≡ v.saved
  pub sent : w.sent ≡ v.sent
  pub now : w.now ≡ v.now

-- The client that a reply brings: its status is below 300, and its body was understood.
abbrev pub client_in : Option PanelReply → Option ProvisionResponse
client_in none = none
client_in (some reply) = if ltb reply.status 300 then reply.body else none

-- The reply that is the next one, if one comes.
abbrev pub coming : List (Option PanelReply) → Option PanelReply
coming [] = none
coming (o ∷ os) = o

-- The client `r` comes with the reply number `k`, and with none before it.
abbrev pub FirstAt : ℕ → List (Option PanelReply) → ProvisionResponse → Type 0
FirstAt zero rs r = ⊥
FirstAt (suc k) rs r =
    ((k ≡ 0) × (client_in (coming rs) ≡ some r))
    ⊎ ((client_in (coming rs) ≡ none) × FirstAt k (tail rs) r)

-- The next `n` replies bring no client.
abbrev pub IsSilent : ℕ → List (Option PanelReply) → Type 0
IsSilent zero rs = Unit {0}
IsSilent (suc n) rs = (client_in (coming rs) ≡ none) × IsSilent n (tail rs)

pub FirstAt-unique :
    (j k : ℕ) (rs : List (Option PanelReply)) (r q : ProvisionResponse)
    → FirstAt j rs r
    → FirstAt k rs q
    → r ≡ q
FirstAt-unique zero k rs r q x y = elim x [ ]
FirstAt-unique (suc j) zero rs r q x y = elim y [ ]
FirstAt-unique (suc j) (suc k) rs r q (inl (z, e)) (inl (y, f)) = cc
FirstAt-unique (suc j) (suc k) rs r q (inl (z, e)) (inr (f, g)) = cc
FirstAt-unique (suc j) (suc k) rs r q (inr (e, h)) (inl (y, f)) = cc
FirstAt-unique (suc j) (suc k) rs r q (inr (e, h)) (inr (f, g)) =
    FirstAt-unique j k (tail rs) r q h g

abbrev pub to_option : Result ProvisionResponse → Option ProvisionResponse
to_option (ok r) = some r
to_option (err e) = none

coming-next : (rs : List (Option PanelReply)) → next_reply rs ≡ coming rs
coming-next [] = refl
coming-next (o ∷ os) = refl

answer_of-client_in : (o : Option PanelReply) → to_option (answer_of o) ≡ client_in o
answer_of-client_in none = refl
answer_of-client_in (some reply) = by (ltb reply.status 300) reply.body
  where
    by :
        (b : Bool) (body : Option ProvisionResponse)
        → to_option (if b then decoded body else err (new "xui create failed"))
          ≡ (if b then body else none)
    by true none = refl
    by true (some r) = refl
    by false body = refl

-- What Client.CreateClient makes of the next reply.
pub answer_of-coming :
    (rs : List (Option PanelReply)) → to_option (answer_of (next_reply rs)) ≡ client_in (coming rs)
answer_of-coming rs = answer_of-client_in (next_reply rs) ∙ ap client_in (coming-next rs)

-- Between one and `n` requests, the last of which brings the first client; or `n` of them, and no
-- client comes.
abbrev pub Tried : ProvisionCall → ℕ → World → Result ProvisionResponse → World → Type 0
Tried call n v (ok r) w = (k : ℕ) × (1 ≤ k) × (k ≤ n) × Asked call k v w × FirstAt k v.replies r
Tried call n v (err e) w = Asked call n v w × IsSilent n v.replies

module _ (call : ProvisionCall) where
  Asked-refl : (v : World) → Asked call 0 v v
  Asked-refl v = record {
    calls = sym (append-nil v.calls);
    tables = refl;
    saved = refl;
    sent = refl;
    now = refl;
  }

  once_more : (k : ℕ) (v u w : World) → Asked call 1 v u → Asked call k u w → Asked call (suc k) v w
  once_more k v u w h a = record {
    calls =
        a.calls
        ∙ ap (λ x. x ++ replicate k call) h.calls
        ∙ append_assoc v.calls (call ∷ []) (replicate k call);
    tables = a.tables ∙ h.tables;
    saved = a.saved ∙ h.saved;
    sent = a.sent ∙ h.sent;
    now = a.now ∙ h.now;
  }

  later :
      (n : ℕ) (v u w : World) (r : Result ProvisionResponse)
      → Asked call 1 v u
      → u.replies ≡ tail v.replies
      → client_in (coming v.replies) ≡ none
      → Tried call n u r w
      → Tried call (suc n) v r w
  later n v u w (ok r) h t c (k, low, high, a, f) = (
    suc k,
    (omega arith),
    (omega arith),
    once_more k v u w h a,
    inr (c, subst (λ rs. FirstAt k rs r) t f),
  )
  later n v u w (err e) h t c (a, f) = (once_more n v u w h a, (c, subst (IsSilent n) t f))

  recover_with-Tried :
      (n : ℕ) (v u : World) (r : Result ProvisionResponse)
      → Asked call 1 v u
      → u.replies ≡ tail v.replies
      → to_option r ≡ client_in (coming v.replies)
      → ((e : Error) → Tried call n u (attempts n e call u).0 (attempts n e call u).1)
      → Tried call
          (suc n)
          v
          (recover_with (λ e. attempts n e call) r u).0
          (recover_with (λ e. attempts n e call) r u).1
  recover_with-Tried n v u (ok r) h t c ih = (1, (omega arith), (omega arith), h, inl (refl, sym c))
  recover_with-Tried n v u (err e) h t c ih =
      later n v u (attempts n e call u).1 (attempts n e call u).0 h t (sym c) (ih e)

  create_client-Asked : (v : World) → Asked call 1 v (create_client call v).1
  unfolding create_client
  create_client-Asked v = record {
    calls = refl;
    tables = refl;
    saved = refl;
    sent = refl;
    now = refl;
  }

  attempts-Tried :
      (n : ℕ) (last : Error) (v : World)
      → Tried call n v (attempts n last call v).0 (attempts n last call v).1
  unfolding attempts create_client
  attempts-Tried zero last v = (Asked-refl v, tt)
  attempts-Tried (suc n) last v =
      recover_with-Tried n v (create_client call v).1 (create_client call v).0
        (create_client-Asked v) refl (answer_of-coming v.replies)
        (λ e. attempts-Tried n e (create_client call v).1)

-- Whatever the panel replies: Provision sends it the same request up to the first reply that brings a
-- client, which is its answer, and at most three times; it reports an error only after three replies
-- without a client. It touches no row and sends no notification.
pub provision-Tried :
    (panel : Panel) (req : ProvisionRequest) (v : World)
    → Tried
        (call_of panel req v.now)
        adapter_retries
        v
        (provision panel req v).0
        (provision panel req v).1
unfolding provision
provision-Tried panel req v = attempts-Tried (call_of panel req v.now) adapter_retries (new "") v
