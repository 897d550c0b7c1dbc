-- ===== src/Db/Success.antt =====
-- Statements over a connection without faults: where the rows allow it, they answer.
use x_ui_site.Prelude.{◌≡◌, refl, true, ap, sym, subst, ◌∙◌, Option, none, some, [], tail}
use x_ui_site.Db.Rows.{Tables}
use x_ui_site.Db.Errors.{Error, Result, ok, err, is_ok, ok-injective}
use x_ui_site.Db.Session.{
  World, M, Sql, Fault, fine, refused, unacked, first_fault, past_fault, deliver, exec, settle,
  look, lift, begin, begin_by, commit, commit_by, or_rollback, rolled,
}
use x_ui_site.Db.Rules.{Runs, Ends}

-- The connection is healthy, and the rows are known, with those that a rollback would bring back.
pub record Stands (before : Option Tables) (t : Tables) (w : World) : Type 0 where
  pub healthy : w.faults ≡ []
  pub saved : w.saved ≡ before
  pub tables : w.tables ≡ t

abbrev pub seen_by : Option Tables → Tables → Tables
seen_by none t = t
seen_by (some u) t = u

abbrev pub Never : World → Type 0
Never w = ⊥

module _ {A : Type 0} (before : Option Tables) (a : A) (t : Tables) where
  abbrev pub Gives : A → World → Type 0
  Gives b x = (b ≡ a) × Stands before t x

  settle-Gives :
      (f : Fault) (d d' : World) (r : Result (A × Tables))
      → f ≡ fine
      → r ≡ ok (a, t)
      → d'.faults ≡ []
      → d'.saved ≡ before
      → Ends Gives Never (deliver f d (settle d' r)).0 (deliver f d (settle d' r)).1
  settle-Gives fine d d' (ok (b, u)) q e h s = (
    ap (λ p. p.0) (ok-injective e),
    record { healthy = h; saved = s; tables = ap (λ p. p.1) (ok-injective e) },
  )
  settle-Gives fine d d' (err x) q e h s = cc
  settle-Gives refused d d' r q e h s = cc
  settle-Gives unacked d d' r q e h s = cc

  pub exec-Gives :
      (q : Sql A) (u : Tables) (w : World)
      → Stands before u w
      → (q w.seqs u).1 ≡ ok (a, t)
      → Runs w (exec q) Gives Never
  unfolding exec
  exec-Gives q u w s e = record {
    holds =
        settle-Gives (first_fault w.faults) (past_fault w) _ (q w.seqs w.tables).1
          (ap first_fault s.healthy) (subst (λ x. (q w.seqs x).1 ≡ ok (a, t)) (sym s.tables) e)
          (ap tail s.healthy) s.saved;
  }

  look_by-Gives :
      (f : Fault) (d : World) (r : Result A)
      → f ≡ fine
      → r ≡ ok a
      → Stands before t d
      → Ends Gives Never (deliver f d (r, d)).0 (deliver f d (r, d)).1
  look_by-Gives fine d (ok b) q e s = (ok-injective e, s)
  look_by-Gives fine d (err x) q e s = cc
  look_by-Gives refused d r q e s = cc
  look_by-Gives unacked d r q e s = cc

past-Stands :
    (b : Option Tables) (t : Tables) (w : World) → Stands b t w → Stands b t (past_fault w)
past-Stands b t w s = record { healthy = ap tail s.healthy; saved = s.saved; tables = s.tables }

pub look-Gives :
    {A : Type 0} (q : Tables → Result A) (a : A) (t : Tables) (w : World)
    → Stands none t w
    → q t ≡ ok a
    → Runs w (look q) (Gives none a t) Never
unfolding look
look-Gives q a t w s e = record {
  holds =
      look_by-Gives none a t (first_fault w.faults) (past_fault w) _ (ap first_fault s.healthy)
        (ap (λ o. q (elim o [ none ↦ w.tables | some u ↦ u ])) s.saved ∙ ap q s.tables ∙ e)
        (past-Stands none t w s);
}

module _ (t : Tables) where
  begin_by-Stands :
      (f : Fault) (w : World)
      → f ≡ fine
      → Stands none t w
      → Ends (λ _. Stands (some t) t) Never (begin_by f w).0 (begin_by f w).1
  begin_by-Stands fine w q s = record {
    healthy = s.healthy;
    saved = ap some s.tables;
    tables = s.tables;
  }
  begin_by-Stands refused w q s = cc
  begin_by-Stands unacked w q s = cc

  pub begin-Stands : (w : World) → Stands none t w → Runs w begin (λ _. Stands (some t) t) Never
  unfolding begin
  begin-Stands w s = record {
    holds =
        begin_by-Stands (first_fault w.faults) (past_fault w) (ap first_fault s.healthy)
          (past-Stands none t w s);
  }

  commit_by-Stands :
      (b : Option Tables) (f : Fault) (w : World)
      → f ≡ fine
      → Stands b t w
      → Ends (λ _. Stands none t) Never (commit_by f w).0 (commit_by f w).1
  commit_by-Stands b fine w q s = record { healthy = s.healthy; saved = refl; tables = s.tables }
  commit_by-Stands b refused w q s = cc
  commit_by-Stands b unacked w q s = cc

  pub commit-Stands :
      (b : Option Tables) (w : World) → Stands b t w → Runs w commit (λ _. Stands none t) Never
  unfolding commit
  commit-Stands b w s = record {
    holds =
        commit_by-Stands b (first_fault w.faults) (past_fault w) (ap first_fault s.healthy)
          (past-Stands b t w s);
  }

module _ {A : Type 0} (P : A → World → Type 0) where
  rolled-Never :
      (f : Error → Error) (r : Result A) (w : World)
      → Ends P Never r w
      → Ends P Never (rolled f r w).0 (rolled f r w).1
  rolled-Never f (ok a) w h = h
  rolled-Never f (err e) w h = h

  lift-Never : (r : Result A) (a : A) (v : World) → r ≡ ok a → P a v → Ends P Never r v
  lift-Never (ok b) a v e p = subst (λ x. P x v) (sym (ok-injective e)) p
  lift-Never (err x) a v e p = cc

  pub Ends-answer : (r : Result A) (w : World) → Ends P Never r w → is_ok r ≡ true
  Ends-answer (ok a) w h = refl
  Ends-answer (err e) w h = absurd h

module _ {A : Type 0} {P : A → World → Type 0} where
  pub or_rollback-Never :
      (f : Error → Error) {m : M A} {v : World}
      → Runs v m P Never
      → Runs v (or_rollback f m) P Never
  unfolding or_rollback
  or_rollback-Never f {m} {v} h = record { holds = rolled-Never P f (m v).0 (m v).1 h.holds }

  pub lift-Gives : (r : Result A) (a : A) {v : World} → r ≡ ok a → P a v → Runs v (lift r) P Never
  unfolding lift
  lift-Gives r a {v} e p = record { holds = lift-Never P r a v e p }
