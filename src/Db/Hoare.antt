-- ===== src/Db/Hoare.antt =====
-- Rules for what the body of a transaction leaves behind, over its result and the world after it.
use x_ui_site.Prelude.{
  ◌≡◌, refl, ◌∙◌, arith, ◌⊎◌, inl, inr, none, some, Option, List, [], ◌∷◌, true, any, tail,
}
use x_ui_site.Db.Rows.{Tables}
use x_ui_site.Db.Errors.{Error, Result, ok, err}
use x_ui_site.Db.Session.{
  World, M, Sql, Fault, fine, refused, unacked, first_fault, past_fault, loses, is_unacked, undone,
  deliver, exec, settle, continue, commit, commit_by, ◌>>=◌, or_rollback, rolled, rollback, pure,
  gets, lift,
}

pub past_fault-loses : (v : World) → loses (past_fault v) ≡ true → loses v ≡ true
past_fault-loses v e = by v.faults e
  where
    by : (fs : List Fault) → any is_unacked (tail fs) ≡ true → any is_unacked fs ≡ true
    by [] e = e
    by (f ∷ fs) e = ground (arith, e)

undone-loses : (w : World) (o : Option Tables) → loses (undone o w) ≡ true → loses w ≡ true
undone-loses w none e = e
undone-loses w (some t) e = e

-- What no statement touches: the clock, the notices, the panels. No fault is new.
pub record SameOutside (v w : World) : Type 0 where
  pub now : w.now ≡ v.now
  pub sent : w.sent ≡ v.sent
  pub calls : w.calls ≡ v.calls
  pub replies : w.replies ≡ v.replies
  pub saved : w.saved ≡ v.saved
  pub lost : loses w ≡ true → loses v ≡ true

pub SameOutside-refl : (v : World) → SameOutside v v
SameOutside-refl v = record {
  now = refl;
  sent = refl;
  calls = refl;
  replies = refl;
  saved = refl;
  lost = λ e. e;
}

pub SameOutside-trans : (u v w : World) → SameOutside u v → SameOutside v w → SameOutside u w
SameOutside-trans u v w h k = record {
  now = k.now ∙ h.now;
  sent = k.sent ∙ h.sent;
  calls = k.calls ∙ h.calls;
  replies = k.replies ∙ h.replies;
  lost = λ e. h.lost (k.lost e);
  saved = k.saved ∙ h.saved;
}

-- A part of a transaction's body: the transaction stays open, and an answer satisfies `Q`.
abbrev pub Open : {A : Type 0} → World → (A → Tables → Type 0) → Result A → World → Type 0
Open v Q (ok a) w = SameOutside v w × Q a w.tables
Open v Q (err e) w = SameOutside v w × Unit {0}

-- The world after a rollback to the rows `t`.
pub record RolledBack (v : World) (t : Tables) (w : World) : Type 0 where
  pub tables : w.tables ≡ t
  pub saved : w.saved ≡ none
  pub now : w.now ≡ v.now
  pub sent : w.sent ≡ v.sent
  pub calls : w.calls ≡ v.calls
  pub replies : w.replies ≡ v.replies
  pub lost : loses w ≡ true → loses v ≡ true

-- A part of the body that rolls back where it fails.
abbrev pub Guarded :
    {A : Type 0} → World → Tables → (A → Tables → Type 0) → Result A → World → Type 0
Guarded v t Q (ok a) w = SameOutside v w × Q a w.tables
Guarded v t Q (err e) w = RolledBack v t w

module _ {A : Type 0} (v : World) (Q : A → Tables → Type 0) where
  settle-Open :
      (r : Result (A × Tables)) (d : World)
      → ((a : A) (t : Tables) → r ≡ ok (a, t) → Q a t)
      → SameOutside v d
      → Open v Q (settle d r).0 (settle d r).1
  settle-Open (ok (a, t)) d h s = (
    record {
      now = s.now;
      sent = s.sent;
      calls = s.calls;
      replies = s.replies;
      saved = s.saved;
      lost = s.lost;
    },
    h a t refl,
  )
  settle-Open (err e) d h s = (s, tt)

  outside_of_Open : (r : Result A) (w : World) → Open v Q r w → SameOutside v w
  outside_of_Open (ok a) w o = o.0
  outside_of_Open (err e) w o = o.0

  deliver-Open :
      (f : Fault) (d : World) (r : Result A) (w : World)
      → SameOutside v d
      → Open v Q r w
      → Open v Q (deliver f d (r, w)).0 (deliver f d (r, w)).1
  deliver-Open fine d r w s o = o
  deliver-Open refused d r w s o = (s, tt)
  deliver-Open unacked d r w s o = (outside_of_Open r w o, tt)

  rebase-Open :
      (u : World) (r : Result A) (w : World) → SameOutside v u → Open u Q r w → Open v Q r w
  rebase-Open u (ok a) w s o = (SameOutside-trans v u w s o.0, o.1)
  rebase-Open u (err e) w s o = (SameOutside-trans v u w s o.0, tt)

  rebase-Guarded :
      (t : Tables) (u : World) (r : Result A) (w : World)
      → SameOutside v u
      → Guarded u t Q r w
      → Guarded v t Q r w
  rebase-Guarded t u (ok a) w s o = (SameOutside-trans v u w s o.0, o.1)
  rebase-Guarded t u (err e) w s o = record {
    tables = o.tables;
    saved = o.saved;
    now = o.now ∙ s.now;
    sent = o.sent ∙ s.sent;
    calls = o.calls ∙ s.calls;
    replies = o.replies ∙ s.replies;
    lost = λ e. s.lost (o.lost e);
  }

  rollback-RolledBack :
      (t : Tables) (w : World) → v.saved ≡ some t → SameOutside v w → RolledBack v t (rollback w)
  unfolding rollback
  rollback-RolledBack t w e s =
      let there : w.saved ≡ some t = s.saved ∙ e in
      record {
        tables = ground arith;
        saved = ground arith;
        now = ground arith;
        sent = ground arith;
        calls = ground arith;
        replies = ground arith;
        lost = λ e. s.lost (undone-loses w w.saved e);
      }

  rolled-Guarded :
      (t : Tables) (f : Error → Error) (r : Result A) (w : World)
      → v.saved ≡ some t
      → Open v Q r w
      → Guarded v t Q (rolled f r w).0 (rolled f r w).1
  rolled-Guarded t f (ok a) w e o = o
  rolled-Guarded t f (err x) w e o = rollback-RolledBack t w e o.0

past : (v : World) → SameOutside v (past_fault v)
past v = record {
  now = refl;
  sent = refl;
  calls = refl;
  replies = refl;
  saved = refl;
  lost = past_fault-loses v;
}

-- `m` is a part of a body that starts at `v`.
pub record Opens {A : Type 0} (v : World) (m : M A) (Q : A → Tables → Type 0) : Type 0 where
  pub holds : Open v Q (m v).0 (m v).1

pub record Guards {A : Type 0} (v : World) (t : Tables) (m : M A) (Q : A → Tables → Type 0)
    : Type 0 where
  pub holds : Guarded v t Q (m v).0 (m v).1

module _ {A : Type 0} (Q : A → Tables → Type 0) where
  lift-Open : (r : Result A) (v : World) → ((a : A) → r ≡ ok a → Q a v.tables) → Open v Q r v
  lift-Open (ok a) v h = (SameOutside-refl v, h a refl)
  lift-Open (err e) v h = (SameOutside-refl v, tt)

module _ {A B : Type 0} (Q : A → Tables → Type 0) (R : B → Tables → Type 0) where
  continue-Open :
      (v w : World) (r : Result A) (f : A → M B)
      → Open v Q r w
      → ((a : A) → SameOutside v w → Q a w.tables → Opens w (f a) R)
      → Open v R (continue r f w).0 (continue r f w).1
  continue-Open v w (ok a) f o k = rebase-Open v R w (f a w).0 (f a w).1 o.0 (k a o.0 o.1).holds
  continue-Open v w (err e) f o k = o

  continue-Guarded :
      (v w : World) (t : Tables) (r : Result A) (f : A → M B)
      → Guarded v t Q r w
      → ((a : A) → SameOutside v w → Q a w.tables → Guards w t (f a) R)
      → Guarded v t R (continue r f w).0 (continue r f w).1
  continue-Guarded v w t (ok a) f o k =
      rebase-Guarded v R t w (f a w).0 (f a w).1 o.0 (k a o.0 o.1).holds
  continue-Guarded v w t (err e) f o k = o

module _ {A : Type 0} {Q : A → Tables → Type 0} where
  -- A statement that answers has made exactly its own change.
  pub exec-Opens :
      (q : Sql A) {v : World}
      → ((a : A) (t : Tables) → (q v.seqs v.tables).1 ≡ ok (a, t) → Q a t)
      → Opens v (exec q) Q
  unfolding exec
  exec-Opens q {v} h =
      let (s, r) = q v.seqs v.tables in
      let d = record (past_fault v) { seqs = s } in
      record {
        holds =
            deliver-Open v Q (first_fault v.faults) (past_fault v) (settle d r).0 (settle d r).1
              (past v)
              (settle-Open v Q r d h (record {
                now = refl;
                sent = refl;
                calls = refl;
                replies = refl;
                saved = refl;
                lost = past_fault-loses v;
              }));
      }

  pub lift-Opens :
      (r : Result A) {v : World} → ((a : A) → r ≡ ok a → Q a v.tables) → Opens v (lift r) Q
  unfolding lift
  lift-Opens r {v} h = record { holds = lift-Open Q r v h }

  pub pure-Opens : (a : A) {v : World} → Q a v.tables → Opens v (pure a) Q
  unfolding pure
  pure-Opens a {v} h = record { holds = (SameOutside-refl v, h) }

  pub pure-Guards : (a : A) {v : World} {t : Tables} → Q a v.tables → Guards v t (pure a) Q
  unfolding pure
  pure-Guards a {v} h = record { holds = (SameOutside-refl v, h) }

  pub gets-Guards :
      (f : World → A) {v : World} {t : Tables} → Q (f v) v.tables → Guards v t (gets f) Q
  unfolding gets
  gets-Guards f {v} h = record { holds = (SameOutside-refl v, h) }

  -- A failing part is followed by the rollback, which brings the committed rows back.
  pub or_rollback-Guards :
      (f : Error → Error) {m : M A} {v : World} {t : Tables}
      → v.saved ≡ some t
      → Opens v m Q
      → Guards v t (or_rollback f m) Q
  unfolding or_rollback
  or_rollback-Guards f {m} {v} {t} e o = record {
    holds = rolled-Guarded v Q t f (m v).0 (m v).1 e o.holds;
  }

module _ {A B : Type 0} {Q : A → Tables → Type 0} {R : B → Tables → Type 0} where
  -- The second part runs in the world that the first leaves.
  pub bind-Opens :
      {m : M A} {f : A → M B} {v : World}
      → Opens v m Q
      → ((a : A) (w : World) → SameOutside v w → Q a w.tables → Opens w (f a) R)
      → Opens v (m >>= f) R
  unfolding ◌>>=◌
  bind-Opens {m} {f} {v} o k = record {
    holds = continue-Open Q R v (m v).1 (m v).0 f o.holds (λ a. k a (m v).1);
  }

  pub bind-Guards :
      {m : M A} {f : A → M B} {v : World} {t : Tables}
      → Guards v t m Q
      → ((a : A) (w : World) → SameOutside v w → Q a w.tables → Guards w t (f a) R)
      → Guards v t (m >>= f) R
  unfolding ◌>>=◌
  bind-Guards {m} {f} {v} {t} o k = record {
    holds = continue-Guarded Q R v (m v).1 t (m v).0 f o.holds (λ a. k a (m v).1);
  }

module _ {A : Type 0} {Q R : A → Tables → Type 0} where
  weaken-Open :
      (v : World) (r : Result A) (w : World)
      → Open v Q r w
      → ((a : A) (t : Tables) → Q a t → R a t)
      → Open v R r w
  weaken-Open v (ok a) w o k = (o.0, k a w.tables o.1)
  weaken-Open v (err e) w o k = o

  pub weaken-Opens :
      {v : World} {m : M A} → Opens v m Q → ((a : A) (t : Tables) → Q a t → R a t) → Opens v m R
  weaken-Opens {v} {m} o k = record { holds = weaken-Open v (m v).0 (m v).1 o.holds k }

  weaken-Guarded :
      (v : World) (t : Tables) (r : Result A) (w : World)
      → Guarded v t Q r w
      → ((a : A) (x : Tables) → Q a x → R a x)
      → Guarded v t R r w
  weaken-Guarded v t (ok a) w o k = (o.0, k a w.tables o.1)
  weaken-Guarded v t (err e) w o k = o

  pub weaken-Guards :
      {v : World} {t : Tables} {m : M A}
      → Guards v t m Q
      → ((a : A) (x : Tables) → Q a x → R a x)
      → Guards v t m R
  weaken-Guards {v} {t} {m} o k = record { holds = weaken-Guarded v t (m v).0 (m v).1 o.holds k }

-- What a commit leaves of a transaction that was opened over the rows `t`.
abbrev pub Ended : World → Tables → Result (Unit {0}) → World → Type 0
Ended v t (ok _) w =
    (w.tables ≡ v.tables)
    × (w.saved ≡ none)
    × (w.sent ≡ v.sent)
    × (w.now ≡ v.now)
    × (w.calls ≡ v.calls)
    × (w.replies ≡ v.replies)
Ended v t (err _) w =
    (((w.tables ≡ v.tables) × (loses v ≡ true)) ⊎ (w.tables ≡ t))
    × (w.saved ≡ none)
    × (w.sent ≡ v.sent)
    × (w.now ≡ v.now)
    × (w.calls ≡ v.calls)
    × (w.replies ≡ v.replies)
    × (loses w ≡ true → loses v ≡ true)

unacked_first : (fs : List Fault) → first_fault fs ≡ unacked → any is_unacked fs ≡ true
unacked_first [] e = cc
unacked_first (f ∷ fs) e = ground (arith, e)

module _ (v : World) (t : Tables) (open_at : v.saved ≡ some t) where
  commit_by-Ended :
      (f : Fault)
      → first_fault v.faults ≡ f
      → Ended v t (commit_by f (past_fault v)).0 (commit_by f (past_fault v)).1
  commit_by-Ended fine e = (refl, refl, refl, refl, refl, refl)
  commit_by-Ended refused e = (
    inr (ground arith),
    ground arith,
    ground arith,
    ground arith,
    ground arith,
    ground arith,
    λ l. past_fault-loses v (undone-loses (past_fault v) v.saved l),
  )
  commit_by-Ended unacked e =
      (inl (refl, unacked_first v.faults e), refl, refl, refl, refl, refl, past_fault-loses v)

  -- All or nothing, also where the answer to the commit is lost.
  pub commit-Ended : Ended v t (commit v).0 (commit v).1
  unfolding commit
  commit-Ended = commit_by-Ended (first_fault v.faults) refl
