-- ===== src/Db/Moves.antt =====
-- What one statement makes of the rows, whether or not its answer comes.
use x_ui_site.Prelude.{refl}
use x_ui_site.Db.Rows.{Tables, Seqs}
use x_ui_site.Db.Errors.{Result, ok, err}
use x_ui_site.Db.Session.{
  World, Sql, Fault, fine, refused, unacked, first_fault, past_fault, deliver, exec, settle,
}
use x_ui_site.Db.Hoare.{SameOutside, past_fault-loses}

-- `Q` of the rows that a statement leaves.
abbrev pub Left : {A : Type 0} → (Tables → Type 0) → Result (A × Tables) → Type 0
Left Q (ok (a, t)) = Q t
Left Q (err e) = Unit {0}

abbrev pub Moved : (Tables → Type 0) → World → World → Type 0
Moved Q v w = SameOutside v w × Q w.tables

module _ {A : Type 0} (Q : Tables → Type 0) (v : World) where
  settle-Moved :
      (d : World) (r : Result (A × Tables))
      → SameOutside v d
      → Q d.tables
      → Left Q r
      → Moved Q v (settle d r).1
  settle-Moved d (ok (a, t)) s k h = (
    record {
      now = s.now;
      sent = s.sent;
      calls = s.calls;
      replies = s.replies;
      saved = s.saved;
      lost = s.lost;
    },
    h,
  )
  settle-Moved d (err e) s k h = (s, k)

  deliver-Moved :
      (f : Fault) (d : World) (answer : Result A × World)
      → Moved Q v d
      → Moved Q v answer.1
      → Moved Q v (deliver f d answer).1
  deliver-Moved fine d answer h k = k
  deliver-Moved refused d answer h k = h
  deliver-Moved unacked d answer h k = k

  pub exec-Moved :
      (P : Tables → Type 0) (q : Sql A)
      → ((t : Tables) → P t → Q t)
      → ((s : Seqs) (t : Tables) → P t → Left Q (q s t).1)
      → P v.tables
      → Moved Q v (exec q v).1
  unfolding exec
  exec-Moved P q k h p =
      let same : SameOutside v (past_fault v) = record {
        now = refl;
        sent = refl;
        calls = refl;
        replies = refl;
        saved = refl;
        lost = past_fault-loses v;
      } in
      let d : World = record (past_fault v) { seqs = (q v.seqs v.tables).0 } in
      deliver-Moved (first_fault v.faults) (past_fault v) (settle d (q v.seqs v.tables).1)
        (same, k v.tables p)
        (settle-Moved d (q v.seqs v.tables).1
          (record {
            now = refl;
            sent = refl;
            calls = refl;
            replies = refl;
            saved = refl;
            lost = past_fault-loses v;
          })
          (k v.tables p) (h v.seqs v.tables p))
