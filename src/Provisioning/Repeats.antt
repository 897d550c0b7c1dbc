-- ===== src/Provisioning/Repeats.antt =====
-- No job is handled twice: what was claimed once is never claimable again.
use x_ui_site.Prelude.{
  ℕ, ◌≡◌, refl, sym, ap, ◌∙◌, subst, true, false, Bool, List, [], ◌∷◌, Option, some, none, find,
  inl, inr, update_where, All, All-update, All-find, find_holds, ◌==◌, Bool-cases, arith,
}
use x_ui_site.Db.Rows.{Tables, Seqs, Job}
use x_ui_site.Db.Errors.{Error, Result, ok, err}
use x_ui_site.Db.Session.{World, Sql, query, exec, look}
use x_ui_site.Db.Moves.{Left, exec-Moved}
use x_ui_site.Db.Hoare.{Open, Opens, exec-Opens}
use x_ui_site.Db.Rules.{Ends, Runs-world, Unchanged, look-Runs}
use x_ui_site.Repository.Jobs.{
  is_pending, is_claimable, claimed, claim_row, claim_next, finished, failed_with, mark_done,
  mark_failed, job_retries,
}
use x_ui_site.Repository.Panels.{TokenCipher}
use x_ui_site.Provisioning.{settle_job, handle_job, handled, tick}
use x_ui_site.Provisioning.Stored.{Undelivered}
use x_ui_site.Provisioning.Handling.{handle_job_atomic}
use x_ui_site.Provisioning.Claims.{IsTriedOnce}
use x_ui_site.Provisioning.Queue.{OneShot, claimed_rows, tick-OneShot, ticks}

-- No row of the job is pending.
abbrev IsSettled : ℕ → List Job → Type 0
IsSettled id js = All (λ r. r.id == id ≡ true → is_pending r.status ≡ false) js

update-IsSettled :
    (id : ℕ) (p : Job → Bool) (f : Job → Job) (js : List Job)
    → ((r : Job) → is_pending (f r).status ≡ false)
    → IsSettled id js
    → IsSettled id (update_where p f js)
update-IsSettled id p f js h s = All-update p f js (λ r e k q. h r) (λ r e k. k) s

claimed-IsSettled :
    (id : ℕ) (js : List Job)
    → All IsTriedOnce js
    → IsSettled id (update_where (λ r. r.id == id) claimed js)
claimed-IsSettled id js h =
    All-update (λ r. r.id == id) claimed js (λ r e k q. refl) (λ r e k q. cc) h

-- A job that can be claimed is not a settled one.
other_id :
    (id : ℕ) (js : List Job) (j : Job)
    → IsSettled id js
    → find is_claimable js ≡ some j
    → j.id == id ≡ false
other_id id js j s e = elim (Bool-cases (j.id == id)) [
  | inl same ↦
      let no : is_pending j.status ≡ false = All-find _ is_claimable js j s e same in
      let yes : is_claimable j ≡ true = find_holds is_claimable js j e in ground (arith, no, yes)
  | inr other ↦ other
]

module _ (id : ℕ) where
  record Quiet (v : World) : Type 0 where
    closed : v.saved ≡ none
    settled : IsSettled id v.tables.provisioning_jobs

  exec-Quiet :
      {A : Type 0} (q : Sql A) (v : World)
      → Quiet v
      → ((s : Seqs) (t : Tables)
          → IsSettled id t.provisioning_jobs
          → Left (λ u. IsSettled id u.provisioning_jobs) (q s t).1)
      → Quiet (exec q v).1
  exec-Quiet q v h k =
      let m = exec-Moved _ v (λ t. IsSettled id t.provisioning_jobs) q (λ t k. k) k h.settled in
      record { closed = m.0.saved ∙ h.closed; settled = m.1 }

  claim_row-Left :
      (o : Option Job) (t : Tables)
      → IsSettled id t.provisioning_jobs
      → Left {A = Job} (λ u. IsSettled id u.provisioning_jobs) (claim_row o t)
  claim_row-Left none t h = tt
  claim_row-Left (some j) t h =
      update-IsSettled id (λ r. r.id == j.id) claimed t.provisioning_jobs (λ r. refl) h

  claim_next-Quiet : (v : World) → Quiet v → Quiet (claim_next v).1
  unfolding claim_next
  claim_next-Quiet v h =
      exec-Quiet (query λ t. claim_row (find is_claimable t.provisioning_jobs) t) v h
        (λ s t k. claim_row-Left _ t k)

  mark_done-Quiet : (n : ℕ) (v : World) → Quiet v → Quiet (mark_done n v).1
  unfolding mark_done
  mark_done-Quiet n v h =
      exec-Quiet _ v h
        (λ s t k. update-IsSettled id (λ r. r.id == n) finished t.provisioning_jobs (λ r. refl) k)

  mark_failed-Quiet :
      (n : ℕ) (e : Error) (dead : Bool) (v : World) → Quiet v → Quiet (mark_failed n e dead v).1
  unfolding mark_failed
  mark_failed-Quiet n e dead v h = exec-Quiet _ v h (λ s t k.
      update-IsSettled id (λ r. r.id == n) (failed_with e dead) t.provisioning_jobs (λ r. refl) k)

  unchanged-Quiet : (v : World) → Quiet v → (w : World) → Unchanged v w → Quiet w
  unchanged-Quiet v h w u = record {
    closed = u.outside.saved ∙ h.closed;
    settled = subst (λ t. IsSettled id t.provisioning_jobs) (sym u.tables) h.settled;
  }

  look-Quiet : {A : Type 0} (q : Tables → Result A) (v : World) → Quiet v → Quiet (look q v).1
  look-Quiet q v h =
      Runs-world Quiet (look-Runs q v) (λ a w s. unchanged-Quiet v h w s.0) (unchanged-Quiet v h)

  settle_job-Quiet :
      (n : ℕ) (r : Result (Unit {0})) (v : World) → Quiet v → Quiet (settle_job n r v)
  unfolding settle_job
  settle_job-Quiet n (ok _) v h = mark_done-Quiet n v h
  settle_job-Quiet n (err e) v h = mark_failed-Quiet n e _ _ (look-Quiet (job_retries n) v h)

  module _ (cipher : TokenCipher) where
    handle_job-Quiet :
        (order_id vendor_id : ℕ) (v : World)
        → Quiet v
        → Quiet (handle_job cipher order_id vendor_id v).1
    handle_job-Quiet order_id vendor_id v h =
        Runs-world Quiet (handle_job_atomic cipher order_id vendor_id v h.closed)
          (λ a w d. stored w d.stored.saved (ap (λ t. t.provisioning_jobs) d.stored.rows)) failed_by
      where
        stored :
            (w : World)
            → w.saved ≡ none
            → w.tables.provisioning_jobs ≡ v.tables.provisioning_jobs
            → Quiet w
        stored w s e = record { closed = s; settled = subst (IsSettled id) (sym e) h.settled }

        failed_by : (w : World) → Undelivered cipher order_id vendor_id v w → Quiet w
        failed_by w (inl n) = stored w n.saved (ap (λ t. t.provisioning_jobs) n.tables)
        failed_by w (inr u) = stored w u.stored.saved (ap (λ t. t.provisioning_jobs) u.stored.rows)

    handled-Quiet : (r : Result Job) (w : World) → Quiet w → Quiet (handled cipher r w)
    handled-Quiet (ok j) w h =
        settle_job-Quiet j.id _ _ (handle_job-Quiet j.order_id j.vendor_id w h)
    handled-Quiet (err e) w h = h

    tick-Quiet : (v : World) → Quiet v → Quiet (tick cipher v)
    unfolding tick
    tick-Quiet v h = handled-Quiet (claim_next v).0 (claim_next v).1 (claim_next-Quiet v h)

-- A claim that answers: the job was claimable, and is settled now.
abbrev Claims : World → Job → World → Type 0
Claims v j w = (find is_claimable v.tables.provisioning_jobs ≡ some j) × Quiet j.id w

claim_next-Claims :
    (v : World) → OneShot v → Ends (Claims v) (λ w. Unit {0}) (claim_next v).0 (claim_next v).1
unfolding claim_next
claim_next-Claims v h = by (claim_next v).0 (claim_next v).1 opened.holds
  where
    claims : Sql Job
    claims = query λ t. claim_row (find is_claimable t.provisioning_jobs) t

    opened : Opens v (exec claims) (λ j t.
        (find is_claimable v.tables.provisioning_jobs ≡ some j)
        × IsSettled j.id t.provisioning_jobs)
    opened = exec-Opens claims λ j t e.
        let (found, rows) = claimed_rows _ v.tables t j e in
        (
          found,
          subst (IsSettled j.id) (sym rows)
              (claimed-IsSettled j.id v.tables.provisioning_jobs h.jobs.0),
        )

    by :
        (r : Result Job) (w : World)
        → Open v
            (λ j t.
              (find is_claimable v.tables.provisioning_jobs ≡ some j)
              × IsSettled j.id t.provisioning_jobs)
            r
            w
        → Ends (Claims v) (λ w. Unit {0}) r w
    by (ok j) w o = (o.1.0, record { closed = o.0.saved ∙ h.closed; settled = o.1.1 })
    by (err e) w o = tt

abbrev pub AreDistinct : List ℕ → Type 0
AreDistinct [] = Unit {0}
AreDistinct (i ∷ is) = All (λ k. k == i ≡ false) is × AreDistinct is

abbrev pub taken : Result Job → List ℕ → List ℕ
taken (ok j) later = j.id ∷ later
taken (err e) later = later

module _ (cipher : TokenCipher) where
  -- The ids of the jobs that the ticks handle, in their order.
  abbrev pub handled_jobs : List ℕ → World → List ℕ
  handled_jobs [] v = []
  handled_jobs (now ∷ later) v =
      let w = record v { now = now } in taken (claim_next w).0 (handled_jobs later (tick cipher w))

  at_time : (now : ℕ) (v : World) → OneShot v → OneShot (record v { now = now })
  at_time now v h = record { closed = h.closed; jobs = h.jobs }

  -- A settled job is not handled any more.
  never_again :
      (id : ℕ) (times : List ℕ) (v : World)
      → OneShot v
      → Quiet id v
      → All (λ k. k == id ≡ false) (handled_jobs times v)
  never_again id [] v h q = tt
  never_again id (now ∷ later) v h q =
      let w = record v { now = now } in
      let quiet : Quiet id w = record { closed = q.closed; settled = q.settled } in
      by (claim_next w).0 (claim_next w).1 (claim_next-Claims w (at_time now v h)) _ (
        never_again id later (tick cipher w) (tick-OneShot cipher w (at_time now v h))
          (tick-Quiet id cipher w quiet))
    where
      by :
          (r : Result Job) (x : World)
          → Ends (Claims (record v { now = now })) (λ w. Unit {0}) r x
          → (is : List ℕ) → All (λ k. k == id ≡ false) is
          → All (λ k. k == id ≡ false) (taken r is)
      by (ok j) x c is rest = (other_id id v.tables.provisioning_jobs j q.settled c.0, rest)
      by (err e) x c is rest = rest

  -- From a queue with distinct ids in which no job was tried twice, none is dead and the pending
  -- ones are untried, and with no transaction open: however often the worker ticks, at whatever
  -- times and under whatever faults, the jobs that it handles are all different, and afterwards no
  -- job was tried twice and none is a dead letter.
  pub ticks_once :
      (times : List ℕ) (v : World)
      → OneShot v
      → AreDistinct (handled_jobs times v) × OneShot (ticks cipher times v)
  unfolding tick
  ticks_once [] v h = (tt, h)
  ticks_once (now ∷ later) v h =
      let w = record v { now = now } in
      let one = at_time now v h in
      let rest = ticks_once later (tick cipher w) (tick-OneShot cipher w one) in
      (
        by (claim_next w).0 (claim_next w).1 (claim_next-Claims w one) (tick-OneShot cipher w one)
            rest.0,
        rest.1,
      )
    where
      by :
          (r : Result Job) (x : World)
          → Ends (Claims (record v { now = now })) (λ w. Unit {0}) r x
          → OneShot (handled cipher r x)
          → AreDistinct (handled_jobs later (handled cipher r x))
          → AreDistinct (taken r (handled_jobs later (handled cipher r x)))
      by (ok j) x c one rest =
          (never_again j.id later _ one (handled-Quiet j.id cipher (ok j) x c.1), rest)
      by (err e) x c one rest = rest
