-- ===== src/Db/Rules.antt =====
-- Rules for actions that open no transaction, and for the frame around one.
use x_ui_site.Prelude.{◌≡◌, refl, ◌∙◌, ◌⊎◌, none, some, true, arith}
use x_ui_site.Db.Rows.{Tables}
use x_ui_site.Db.Errors.{Error, Result, ok, err}
use x_ui_site.Db.Session.{
  World, M, Fault, fine, refused, unacked, first_fault, past_fault, loses, deliver, look, committed,
  begin, begin_by, continue, ◌>>=◌, or_return, relabelled, lift, pure, raise, gets, commit,
}
use x_ui_site.Db.Hoare.{
  SameOutside, SameOutside-refl, SameOutside-trans, Open, Opens, Guards, Guarded, RolledBack, Ended,
  commit-Ended, past_fault-loses,
}

-- `P` of an answer and the world with it, `E` of the world after an error.
abbrev pub Ends : {A : Type 0} → (A → World → Type 0) → (World → Type 0) → Result A → World → Type 0
Ends P E (ok a) w = P a w
Ends P E (err e) w = E w

-- `m` run at `v`.
pub record Runs {A : Type 0} (v : World) (m : M A) (P : A → World → Type 0) (E : World → Type 0)
    : Type 0 where
  pub holds : Ends P E (m v).0 (m v).1

module _ {A : Type 0} (P : A → World → Type 0) (E : World → Type 0) where
  relabelled-Ends :
      (f : Error → Error) (r : Result A) (w : World)
      → Ends P E r w
      → Ends P E (relabelled f r w).0 (relabelled f r w).1
  relabelled-Ends f (ok a) w h = h
  relabelled-Ends f (err e) w h = h

  weaken-Ends :
      (Q : A → World → Type 0) (F : World → Type 0) (r : Result A) (w : World)
      → Ends Q F r w
      → ((a : A) (x : World) → Q a x → P a x)
      → ((x : World) → F x → E x)
      → Ends P E r w
  weaken-Ends Q F (ok a) w h j k = j a w h
  weaken-Ends Q F (err e) w h j k = k w h

  lift-Ends : (r : Result A) (w : World) → ((a : A) → r ≡ ok a → P a w) → E w → Ends P E r w
  lift-Ends (ok a) w h k = h a refl
  lift-Ends (err e) w h k = k

module _ {A B : Type 0} (P : A → World → Type 0) (R : B → World → Type 0) (E : World → Type 0) where
  continue-Ends :
      (r : Result A) (f : A → M B) (w : World)
      → Ends P E r w
      → ((a : A) → P a w → Runs w (f a) R E)
      → Ends R E (continue r f w).0 (continue r f w).1
  continue-Ends (ok a) f w h k = (k a h).holds
  continue-Ends (err e) f w h k = h

module _ {A : Type 0} {P : A → World → Type 0} {E : World → Type 0} where
  pub or_return-Runs :
      (f : Error → Error) {m : M A} {v : World} → Runs v m P E → Runs v (or_return f m) P E
  unfolding or_return
  or_return-Runs f {m} {v} h = record { holds = relabelled-Ends P E f (m v).0 (m v).1 h.holds }

  pub weaken-Runs :
      {Q : A → World → Type 0} {F : World → Type 0} {m : M A} {v : World}
      → Runs v m Q F
      → ((a : A) (x : World) → Q a x → P a x)
      → ((x : World) → F x → E x)
      → Runs v m P E
  weaken-Runs {Q} {F} {m} {v} h j k = record {
    holds = weaken-Ends P E Q F (m v).0 (m v).1 h.holds j k;
  }

  pub lift-Runs :
      (r : Result A) {v : World} → ((a : A) → r ≡ ok a → P a v) → E v → Runs v (lift r) P E
  unfolding lift
  lift-Runs r {v} h k = record { holds = lift-Ends P E r v h k }

  pub pure-Runs : (a : A) {v : World} → P a v → Runs v (pure a) P E
  unfolding pure
  pure-Runs a h = record { holds = h }

  pub gets-Runs : (f : World → A) {v : World} → P (f v) v → Runs v (gets f) P E
  unfolding gets
  gets-Runs f h = record { holds = h }

  pub raise-Runs : (e : Error) {v : World} → E v → Runs v (raise e) P E
  unfolding raise
  raise-Runs e h = record { holds = h }

module _ {A B : Type 0} {P : A → World → Type 0} {R : B → World → Type 0} {E : World → Type 0} where
  pub bind-Runs :
      {m : M A} {f : A → M B} {v : World}
      → Runs v m P E
      → ((a : A) (w : World) → P a w → Runs w (f a) R E)
      → Runs v (m >>= f) R E
  unfolding ◌>>=◌
  bind-Runs {m} {f} {v} h k = record {
    holds = continue-Ends P R E (m v).0 f (m v).1 h.holds (λ a. k a (m v).1);
  }

-- Nothing changed but the faults that were met.
pub record Unchanged (v w : World) : Type 0 where
  pub outside : SameOutside v w
  pub tables : w.tables ≡ v.tables

pub Unchanged-refl : (v : World) → Unchanged v v
Unchanged-refl v = record { outside = SameOutside-refl v; tables = refl }

pub Unchanged-trans : {u v w : World} → Unchanged u v → Unchanged v w → Unchanged u w
Unchanged-trans {u} {v} {w} h k = record {
  outside = SameOutside-trans u v w h.outside k.outside;
  tables = k.tables ∙ h.tables;
}

past : (v : World) → Unchanged v (past_fault v)
past v = record {
  outside = record {
    now = refl;
    sent = refl;
    calls = refl;
    replies = refl;
    saved = refl;
    lost = past_fault-loses v;
  };
  tables = refl;
}

module _ {A : Type 0} (q : Tables → Result A) (v : World) where
  abbrev pub Looked : A → World → Type 0
  Looked a w = Unchanged v w × (q (committed v) ≡ ok a)

  deliver-Looked :
      (f : Fault) (r : Result A)
      → q (committed v) ≡ r
      → Ends Looked
          (Unchanged v)
          (deliver f (past_fault v) (r, past_fault v)).0
          (deliver f (past_fault v) (r, past_fault v)).1
  deliver-Looked fine (ok a) e = (past v, e)
  deliver-Looked fine (err x) e = past v
  deliver-Looked refused r e = past v
  deliver-Looked unacked r e = past v

  -- A SELECT changes no row, and answers from the committed ones.
  pub look-Runs : Runs v (look q) Looked (Unchanged v)
  unfolding look
  look-Runs = record { holds = deliver-Looked (first_fault v.faults) (q (committed v)) refl }

-- A transaction is open over the rows of `v`, and nothing is written yet.
pub record Begun (v w : World) : Type 0 where
  pub tables : w.tables ≡ v.tables
  pub saved : w.saved ≡ some v.tables
  pub now : w.now ≡ v.now
  pub sent : w.sent ≡ v.sent
  pub calls : w.calls ≡ v.calls
  pub replies : w.replies ≡ v.replies
  pub lost : loses w ≡ true → loses v ≡ true

module _ (v : World) where
  begin_by-Ends :
      (f : Fault)
      → Ends
          (λ _. Begun v)
          (Unchanged v)
          (begin_by f (past_fault v)).0
          (begin_by f (past_fault v)).1
  begin_by-Ends fine = record {
    tables = refl;
    saved = refl;
    now = refl;
    sent = refl;
    calls = refl;
    replies = refl;
    lost = past_fault-loses v;
  }
  begin_by-Ends refused = past v
  begin_by-Ends unacked = past v

  pub begin-Runs : Runs v begin (λ _. Begun v) (Unchanged v)
  unfolding begin
  begin-Runs = record { holds = begin_by-Ends (first_fault v.faults) }

module _ {A : Type 0} (v : World) (t : Tables) (Q : A → Tables → Type 0) where
  abbrev pub Stays : A → World → Type 0
  Stays a w = SameOutside v w × Q a w.tables

  Guarded-Ends : (r : Result A) (w : World) → Guarded v t Q r w → Ends Stays (RolledBack v t) r w
  Guarded-Ends (ok a) w g = g
  Guarded-Ends (err e) w g = g

  pub Guards-Runs : {m : M A} → Guards v t m Q → Runs v m Stays (RolledBack v t)
  Guards-Runs {m} g = record { holds = Guarded-Ends (m v).0 (m v).1 g.holds }

module _ (v : World) (t : Tables) where
  pub record Committed (w : World) : Type 0 where
    pub tables : w.tables ≡ v.tables
    pub saved : w.saved ≡ none
    pub sent : w.sent ≡ v.sent
    pub now : w.now ≡ v.now
    pub calls : w.calls ≡ v.calls
    pub replies : w.replies ≡ v.replies

  -- The answer to the commit did not come: all rows are kept, or none.
  pub record InDoubt (w : World) : Type 0 where
    pub tables : ((w.tables ≡ v.tables) × (loses v ≡ true)) ⊎ (w.tables ≡ t)
    pub saved : w.saved ≡ none
    pub sent : w.sent ≡ v.sent
    pub now : w.now ≡ v.now
    pub calls : w.calls ≡ v.calls
    pub replies : w.replies ≡ v.replies
    pub lost : loses w ≡ true → loses v ≡ true

  Ended-Ends :
      (r : Result (Unit {0})) (w : World) → Ended v t r w → Ends (λ _. Committed) InDoubt r w
  Ended-Ends (ok _) w e = record {
    tables = e.0;
    saved = e.1;
    sent = e.2;
    now = e.3;
    calls = e.4;
    replies = e.5;
  }
  Ended-Ends (err _) w e = record {
    tables = e.0;
    saved = e.1;
    sent = e.2;
    now = e.3;
    calls = e.4;
    replies = e.5;
    lost = e.6;
  }

  pub commit-Runs : v.saved ≡ some t → Runs v commit (λ _. Committed) InDoubt
  commit-Runs e = record { holds = Ended-Ends (commit v).0 (commit v).1 (commit-Ended v t e) }

pub committed_of_closed : (v : World) → v.saved ≡ none → committed v ≡ v.tables
committed_of_closed v e = ground arith

module _ {A : Type 0} (q : Tables → Result A) (v : World) where
  abbrev pub Saw : A → Tables → Type 0
  Saw a t = (q (committed v) ≡ ok a) × (t ≡ v.tables)

  Looked-Open : (r : Result A) (w : World) → Ends (Looked q v) (Unchanged v) r w → Open v Saw r w
  Looked-Open (ok a) w h = (h.0.outside, (h.1, h.0.tables))
  Looked-Open (err e) w h = (h.outside, tt)

  -- Beside an open transaction a SELECT on the pool answers from the committed rows.
  pub look-Opens : Opens v (look q) Saw
  look-Opens = record { holds = Looked-Open (look q v).0 (look q v).1 (look-Runs q v).holds }

pub committed_of_open : (v : World) (t : Tables) → v.saved ≡ some t → committed v ≡ t
committed_of_open v t e = ground arith

module _ {A : Type 0} {P : A → World → Type 0} {E : World → Type 0} (K : World → Type 0) where
  Ends-world :
      (r : Result A) (w : World)
      → Ends P E r w
      → ((a : A) (x : World) → P a x → K x)
      → ((x : World) → E x → K x)
      → K w
  Ends-world (ok a) w h j k = j a w h
  Ends-world (err e) w h j k = k w h

  -- What answers and failures have in common.
  pub Runs-world :
      {m : M A} {v : World}
      → Runs v m P E
      → ((a : A) (x : World) → P a x → K x)
      → ((x : World) → E x → K x)
      → K (m v).1
  Runs-world {m} {v} h j k = Ends-world (m v).0 (m v).1 h.holds j k
