-- ===== src/Start/Demo.antt =====
-- What SeedDemo leaves, and what it does when it is run again.
use x_ui_site.Prelude.{
  ℕ, ◌≡◌, refl, sym, ap, subst, ◌∙◌, Bool, true, any, str_eq, ltb, Bool-cases, inl, inr,
}
use x_ui_site.Db.Rows.{Tables}
use x_ui_site.Db.Errors.{Error, Result, ok, err, unique_violation}
use x_ui_site.Db.Session.{
  World, loses, M, Sql, Fault, fine, refused, unacked, first_fault, past_fault, deliver, settle,
  exec, look,
}
use x_ui_site.Db.Hoare.{past_fault-loses}
use x_ui_site.Db.Hoare.{past_fault-loses}
use x_ui_site.Db.Rules.{Unchanged, Unchanged-trans, look-Runs, Runs-world}
use x_ui_site.Repository.Users.{insert_user}
use x_ui_site.Start.Seed.{
  demo_vendors, insert_demo, or_done, count_of, add_items, add_demo, unless_counted, seed_demo,
}

-- A statement that the schema refuses changes nothing, whatever becomes of its answer.
record Refuses {A : Type 0} (v : World) (answer : Result A × World) : Type 0 where
  error : Error
  failed : answer.0 ≡ err error
  unchanged : Unchanged v answer.1

module _ {A : Type 0} where
  deliver-Refuses :
      (f : Fault) (v d : World) (e : Error)
      → Unchanged v (past_fault v)
      → Unchanged v d
      → Refuses {A = A} v (deliver f (past_fault v) (err e, d))
  deliver-Refuses fine v d e h k = record { error = e; failed = refl; unchanged = k }
  deliver-Refuses refused v d e h k = record { error = _; failed = refl; unchanged = h }
  deliver-Refuses unacked v d e h k = record { error = _; failed = refl; unchanged = k }

  exec-Refuses :
      (q : Sql A) (v : World) (e : Error) → (q v.seqs v.tables).1 ≡ err e → Refuses v (exec q v)
  unfolding exec
  exec-Refuses q v e h =
      let d = record (past_fault v) { seqs = (q v.seqs v.tables).0 } in
      subst (λ r. Refuses v (deliver (first_fault v.faults) (past_fault v) (settle d r))) (sym h)
        (deliver-Refuses (first_fault v.faults) v d e
          (same v (past_fault v) refl refl refl refl refl refl (past_fault-loses v))
          (same v d refl refl refl refl refl refl (past_fault-loses v)))
    where
      same :
          (v w : World)
          → w.now ≡ v.now
          → w.sent ≡ v.sent
          → w.calls ≡ v.calls
          → w.saved ≡ v.saved
          → w.tables ≡ v.tables
          → w.replies ≡ v.replies
          → (loses w ≡ true → loses v ≡ true)
          → Unchanged v w
      same v w a b c d e f g = record {
        outside = record { now = a; sent = b; calls = c; replies = f; saved = d; lost = g };
        tables = e;
      }

-- The user that SeedDemo makes is there, or was and is deleted.
abbrev pub has_demo_user : Tables → Bool
has_demo_user t = any (λ r. str_eq r.email "demo@garuda.local") t.users

abbrev Harmless : World → Result (Unit {0}) × World → Type 0
Harmless v answer = (answer.0 ≡ ok tt) × Unchanged v answer.1

or_done-Harmless :
    {A : Type 0} (f : A → M (Unit {0})) (v : World) (answer : Result A × World)
    → Refuses v answer
    → Harmless v (or_done f answer)
or_done-Harmless f v (ok a, w) r = cc (r.failed)
or_done-Harmless f v (err e, w) r = (refl, r.unchanged)

demo_user_taken :
    (w : World)
    → has_demo_user w.tables ≡ true
    → (insert_user "demo@garuda.local" "x" "vendor" w.seqs w.tables).1 ≡ err unique_violation
unfolding insert_user
demo_user_taken w h = rw h refl

add_demo-Harmless : (w : World) → has_demo_user w.tables ≡ true → Harmless w (add_demo w)
add_demo-Harmless w h =
    or_done-Harmless _ w (exec (insert_user "demo@garuda.local" "x" "vendor") w)
      (exec-Refuses _ w unique_violation (demo_user_taken w h))

counted-Harmless :
    (v : World) (answer : Result ℕ × World)
    → has_demo_user v.tables ≡ true
    → Unchanged v answer.1
    → Harmless v (unless_counted answer)
counted-Harmless v (r, w) h u = elim (Bool-cases (ltb 0 (count_of r))) [
  | inl some_there ↦ rw some_there (refl, u)
  | inr none_there ↦
      let (answered, same) = add_demo-Harmless w (ap has_demo_user u.tables ∙ h) in
      rw none_there (answered, Unchanged-trans u same)
]

-- Whatever fails: once the user of SeedDemo is in the table, deleted or not, SeedDemo reports no error,
-- changes no row and sends nothing, also where its shop was never made.
pub seed_demo_again :
    (w : World)
    → has_demo_user w.tables ≡ true
    → ((seed_demo w).0 ≡ ok tt) × Unchanged w (seed_demo w).1
unfolding seed_demo
seed_demo_again w h =
    counted-Harmless w (look demo_vendors w) h
      (Runs-world (Unchanged w) (look-Runs demo_vendors w) (λ _ x k. k.0) (λ x k. k))

or_done_ok :
    {A : Type 0} (f : A → M (Unit {0})) (answer : Result A × World)
    → ((a : A) (x : World) → (f a x).0 ≡ ok tt)
    → (or_done f answer).0 ≡ ok tt
or_done_ok f (ok a, w) h = h a w
or_done_ok f (err e, w) h = refl

add_demo_ok : (w : World) → (add_demo w).0 ≡ ok tt
add_demo_ok w =
    or_done_ok (λ user_id x. or_done add_items (exec (insert_demo user_id) x))
      (exec (insert_user "demo@garuda.local" "x" "vendor") w)
      λ user_id x. or_done_ok add_items (exec (insert_demo user_id) x) (λ vendor_id y. refl)

counted_ok : (answer : Result ℕ × World) → (unless_counted answer).0 ≡ ok tt
counted_ok (r, w) = elim (Bool-cases (ltb 0 (count_of r))) [
  | inl e ↦ rw e refl
  | inr e ↦ rw e (add_demo_ok w)
]

pub seed_demo_ok : (w : World) → (seed_demo w).0 ≡ ok tt
unfolding seed_demo
seed_demo_ok w = counted_ok (look demo_vendors w)
