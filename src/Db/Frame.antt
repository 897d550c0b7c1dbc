-- ===== src/Db/Frame.antt =====
-- What a part of the program leaves alone: a view of the rows that every statement in it keeps.
use x_ui_site.Prelude.{String, ◌≡◌, refl, ◌∙◌, Bool, true, false, Option, none, some, List}
use x_ui_site.Db.Rows.{Tables}
use x_ui_site.Db.Errors.{Error, Result, ok, err, map_ok}
use x_ui_site.Db.Session.{
  World, M, Sql, Fault, fine, refused, unacked, first_fault, past_fault, deliver, settle, exec,
  look, read, committed, begin, begin_by, commit, commit_by, undone, rollback, rolled, or_rollback,
  relabelled, or_return, continue, ◌>>=◌, pure, raise, lift, gets, notify, Value,
}
use x_ui_site.Repository.Statements.{checked, unless_taken, in_range}

abbrev IsOk : {A : Type 0} → (A → Type 0) → Result A → Type 0
IsOk P (ok a) = P a
IsOk P (err e) = Unit

-- `P` of the answer, if there is one.
pub record IfOk {A : Type 0} (P : A → Type 0) (r : Result A) : Type 0 where
  pub holds : IsOk P r

module _ {A : Type 0} (P : A → Type 0) where
  pub IfOk-ok : (a : A) → P a → IfOk P (ok a)
  IfOk-ok a h = record { holds = h }

  pub IfOk-checked : (b : Bool) (e : Error) (a : A) → P a → IfOk P (checked b e a)
  IfOk-checked true e a h = record { holds = h }
  IfOk-checked false e a h = record { holds = tt }

  pub IfOk-unless_taken : (b : Bool) (r : Result A) → IfOk P r → IfOk P (unless_taken b r)
  IfOk-unless_taken true r h = record { holds = tt }
  IfOk-unless_taken false r h = h

  pub IfOk-in_range : (b : Bool) (r : Result A) → IfOk P r → IfOk P (in_range b r)
  IfOk-in_range true r h = h
  IfOk-in_range false r h = record { holds = tt }

module _ {V : Type 0} (view : Tables → V) where
  -- The view of the rows is `v`, and a rollback brings back rows with the same view.
  abbrev pub SavedView : V → Option Tables → Type 0
  SavedView v none = Unit
  SavedView v (some t) = view t ≡ v

  pub record Views (v : V) (w : World) : Type 0 where
    pub here : view w.tables ≡ v
    pub saved : SavedView v w.saved

  pub record Keeps {A : Type 0} (m : M A) : Type 0 where
    pub keeps : (v : V) (w : World) → Views v w → Views v (m w).1

  -- A statement that leaves the view as it is.
  pub record Frames {A : Type 0} (q : Sql A) : Type 0 where
    pub frames : (s : _) (t : Tables) → IfOk (λ (p : A × Tables). view p.1 ≡ view t) (q s t).1

  past-Views : (v : V) (w : World) → Views v w → Views v (past_fault w)
  past-Views v w h = record { here = h.here; saved = h.saved }

  undone-Views :
      (v : V) (o : Option Tables) (w : World)
      → SavedView v o
      → view w.tables ≡ v
      → Views v w
      → Views v (undone o w)
  undone-Views v none w h e k = k
  undone-Views v (some t) w h e k = record { here = h; saved = tt }

module _ {V A : Type 0} (view : Tables → V) where
  deliver-Views :
      (f : Fault) (v : V) (w : World) (answer : Result A × World)
      → Views view v w
      → Views view v answer.1
      → Views view v (deliver f w answer).1
  deliver-Views fine v w answer h k = k
  deliver-Views refused v w answer h k = h
  deliver-Views unacked v w answer h k = k

  settle-Views :
      (v : V) (w : World) (r : Result (A × Tables))
      → Views view v w
      → IfOk (λ p. view p.1 ≡ view w.tables) r
      → Views view v (settle w r).1
  settle-Views v w (ok (a, t)) h k = record { here = k.holds ∙ h.here; saved = h.saved }
  settle-Views v w (err e) h k = h

  pub exec-Keeps : (q : Sql A) → Frames view q → Keeps view (exec q)
  unfolding exec
  exec-Keeps q h = record {
    keeps = λ v w i.
        deliver-Views (first_fault w.faults) v (past_fault w) _ (past-Views view v w i) (
          settle-Views v _ (q w.seqs w.tables).1 (record { here = i.here; saved = i.saved })
            (h.frames w.seqs w.tables));
  }

  pub look-Keeps : (q : Tables → Result A) → Keeps view (look q)
  unfolding look
  look-Keeps q = record {
    keeps = λ v w i.
        deliver-Views (first_fault w.faults) v (past_fault w) (q (committed w), past_fault w)
          (past-Views view v w i) (past-Views view v w i);
  }

  pub read-Frames : (q : Tables → Result A) → Frames view (read q)
  read-Frames q = record { frames = λ s t. of_rows t (q t) }
    where
      of_rows :
          (t : Tables) (r : Result A)
          → IfOk (λ (p : A × Tables). view p.1 ≡ view t) (map_ok (λ a. (a, t)) r)
      of_rows t (ok a) = record { holds = refl }
      of_rows t (err e) = record { holds = tt }

  pub pure-Keeps : (a : A) → Keeps view (pure a)
  unfolding pure
  pure-Keeps a = record { keeps = λ v w i. i }

  pub raise-Keeps : (e : Error) → Keeps view (raise {A = A} e)
  unfolding raise
  raise-Keeps e = record { keeps = λ v w i. i }

  pub lift-Keeps : (r : Result A) → Keeps view (lift r)
  unfolding lift
  lift-Keeps r = record { keeps = λ v w i. i }

  pub gets-Keeps : (g : World → A) → Keeps view (gets g)
  unfolding gets
  gets-Keeps g = record { keeps = λ v w i. i }

  relabelled-Views :
      (f : Error → Error) (v : V) (r : Result A) (w : World)
      → Views view v w
      → Views view v (relabelled f r w).1
  relabelled-Views f v (ok a) w i = i
  relabelled-Views f v (err e) w i = i

  rolled-Views :
      (f : Error → Error) (v : V) (r : Result A) (w : World)
      → Views view v w
      → Views view v (rolled f r w).1
  unfolding rollback
  rolled-Views f v (ok a) w i = i
  rolled-Views f v (err e) w i = undone-Views view v w.saved w i.saved i.here i

  pub or_return-Keeps : (f : Error → Error) (m : M A) → Keeps view m → Keeps view (or_return f m)
  unfolding or_return
  or_return-Keeps f m h = record {
    keeps = λ v w i. relabelled-Views f v (m w).0 (m w).1 (h.keeps v w i);
  }

  pub or_rollback-Keeps :
      (f : Error → Error) (m : M A) → Keeps view m → Keeps view (or_rollback f m)
  unfolding or_rollback
  or_rollback-Keeps f m h = record {
    keeps = λ v w i. rolled-Views f v (m w).0 (m w).1 (h.keeps v w i);
  }

module _ {V A B : Type 0} (view : Tables → V) where
  continue-Views :
      (v : V) (r : Result A) (f : A → M B) (w : World)
      → ((a : A) → Keeps view (f a))
      → Views view v w
      → Views view v (continue r f w).1
  continue-Views v (ok a) f w h i = (h a).keeps v w i
  continue-Views v (err e) f w h i = i

  pub bind-Keeps :
      {m : M A} {f : A → M B} → Keeps view m → ((a : A) → Keeps view (f a)) → Keeps view (m >>= f)
  unfolding ◌>>=◌
  bind-Keeps {m} {f} h k = record {
    keeps = λ v w i. continue-Views v (m w).0 f (m w).1 k (h.keeps v w i);
  }

module _ {V : Type 0} (view : Tables → V) where
  begin_by-Views : (f : Fault) (v : V) (w : World) → Views view v w → Views view v (begin_by f w).1
  begin_by-Views fine v w i = record { here = i.here; saved = i.here }
  begin_by-Views refused v w i = i
  begin_by-Views unacked v w i = i

  pub begin-Keeps : Keeps view begin
  unfolding begin
  begin-Keeps = record {
    keeps = λ v w i. begin_by-Views (first_fault w.faults) v (past_fault w) (past-Views view v w i);
  }

  commit_by-Views :
      (f : Fault) (v : V) (w : World) → Views view v w → Views view v (commit_by f w).1
  commit_by-Views fine v w i = record { here = i.here; saved = tt }
  commit_by-Views refused v w i = undone-Views view v w.saved w i.saved i.here i
  commit_by-Views unacked v w i = record { here = i.here; saved = tt }

  pub commit-Keeps : Keeps view commit
  unfolding commit
  commit-Keeps = record {
    keeps =
        λ v w i. commit_by-Views (first_fault w.faults) v (past_fault w) (past-Views view v w i);
  }

  pub notify-Keeps :
      (topic : String) (payload : List (String × Value)) → Keeps view (notify topic payload)
  unfolding notify
  notify-Keeps topic payload = record { keeps = λ v w i. record { here = i.here; saved = i.saved } }
