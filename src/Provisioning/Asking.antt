-- ===== src/Provisioning/Asking.antt =====
-- What the panel answers within the attempts of Provision, over a healthy connection.
use x_ui_site.Prelude.{inl, inr, ◌≤◌, arith, ℕ, zero, suc, ◌≡◌, refl, Option, none, List, tail}
use x_ui_site.Db.Rows.{Tables}
use x_ui_site.Db.Errors.{Error, Result, ok, err}
use x_ui_site.Db.Session.{
  World, M, Fault, fine, refused, unacked, first_fault, past_fault, deliver, ProvisionCall,
  ProvisionResponse, PanelReply, look,
}
use x_ui_site.Db.Rules.{Runs, Ends}
use x_ui_site.Db.Success.{Stands, Never, Gives, look-Gives}
use x_ui_site.Provisioning.Delivery.{FirstAt, client_in, coming, to_option, answer_of-coming}
use x_ui_site.Provisioning.{answer_of, next_reply, attempts, create_client, recover_with}

abbrev pub Any : {A : Type 0} → A → World → Type 0
Any a w = Unit {0}

-- Both hold where a call answers.
also :
    {A : Type 0} {P : A → World → Type 0} {Q : World → Type 0} {m : M A} {w : World}
    → Runs w m P Never
    → Q (m w).1
    → Runs w m (λ a x. P a x × Q x) Never
also {A} {P} {Q} {m} {w} h q = record { holds = by (m w).0 (m w).1 h.holds q }
  where
    by : (r : Result A) (x : World) → Ends P Never r x → Q x → Ends (λ a x. P a x × Q x) Never r x
    by (ok a) x h q = (h, q)
    by (err e) x h q = h

deliver-replies :
    {A : Type 0} (f : Fault) (d : World) (r : Result A) → (deliver f d (r, d)).1.replies ≡ d.replies
deliver-replies fine d r = refl
deliver-replies refused d r = refl
deliver-replies unacked d r = refl

look-replies : {A : Type 0} (q : Tables → Result A) (w : World) → (look q w).1.replies ≡ w.replies
unfolding look
look-replies q w = deliver-replies (first_fault w.faults) (past_fault w) _

module _ (t : Tables) where
  pub look-Seen :
      {A : Type 0} (q : Tables → Result A) (a : A) (w : World)
      → Stands none t w
      → q t ≡ ok a
      → Runs w (look q) (λ b x. Gives none a t b x × (x.replies ≡ w.replies)) Never
  look-Seen q a w s e = also (look-Gives q a t w s e) (look-replies q w)

  module _ (call : ProvisionCall) (pr : ProvisionResponse) where
    recovered :
        (n k : ℕ) (r : Result ProvisionResponse) (w : World) (rs : List (Option PanelReply))
        → Stands none t w
        → to_option r ≡ client_in (coming rs)
        → FirstAt (suc k) rs pr
        → ((e : Error)
            → FirstAt k (tail rs) pr
            → Ends (Gives none pr t) Never (attempts n e call w).0 (attempts n e call w).1)
        → Ends
            (Gives none pr t)
            Never
            (recover_with (λ e. attempts n e call) r w).0
            (recover_with (λ e. attempts n e call) r w).1
    recovered n k (ok r) w rs s c (inl (z, e)) again = (cc, s)
    recovered n k (ok r) w rs s c (inr (e, f)) again = cc
    recovered n k (err x) w rs s c (inl (z, e)) again = cc
    recovered n k (err x) w rs s c (inr (e, f)) again = again x f

    pub attempts-Gives :
        (n k : ℕ) (last : Error) (w : World)
        → Stands none t w
        → k ≤ n
        → FirstAt k w.replies pr
        → Ends (Gives none pr t) Never (attempts n last call w).0 (attempts n last call w).1
    unfolding attempts create_client
    attempts-Gives n zero last w s most f = elim f [ ]
    attempts-Gives zero (suc k) last w s most f = absurd (omega (arith, most))
    attempts-Gives (suc n) (suc k) last w s most f =
        recovered n k (answer_of (next_reply w.replies)) (create_client call w).1 w.replies
          (record { healthy = s.healthy; saved = s.saved; tables = s.tables })
          (answer_of-coming w.replies) f
          λ x h.
            attempts-Gives n k x (create_client call w).1
              (record { healthy = s.healthy; saved = s.saved; tables = s.tables })
              (omega (arith, most)) h
