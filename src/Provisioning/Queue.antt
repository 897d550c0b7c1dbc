-- ===== src/Provisioning/Queue.antt =====
-- The life of a job under the worker: claimed once, then done, failed or left in 'provisioning'.
use x_ui_site.Prelude.{
  ℕ, ◌+◌, ◌≡◌, refl, sym, ap, ◌∙◌, subst, false, List, [], ◌∷◌, Option, some, none, find,
  update_where, All-find, find_holds, ◌==◌, leb, inl, inr,
}
use x_ui_site.Db.Rows.{Tables, Seqs, Job}
use x_ui_site.Db.Errors.{Error, Result, ok, err, ok-injective}
use x_ui_site.Db.Session.{World, Sql, query, exec, look}
use x_ui_site.Db.Moves.{Left, Moved, exec-Moved}
use x_ui_site.Db.Hoare.{Open, Opens, exec-Opens}
use x_ui_site.Db.Rules.{Runs, Ends, Runs-world, Unchanged, Looked, look-Runs, committed_of_closed}
use x_ui_site.Repository.Jobs.{
  is_claimable, claimed, claim_row, claim_next, mark_done, mark_failed, job_retries, retries_of,
}
use x_ui_site.Repository.Panels.{TokenCipher}
use x_ui_site.Provisioning.Stored.{Undelivered}
use x_ui_site.Provisioning.Handling.{handle_job_atomic}
use x_ui_site.Provisioning.{scanned, settle_job, handle_job, handled, tick}
use x_ui_site.Provisioning.Claims.{
  IsOneShot, InHand, claim-InHand, finish-IsOneShot, fail-IsOneShot,
}

module _ (v : World) where
  -- No transaction is open, and every job of the queue was tried at most once.
  pub record OneShot : Type 0 where
    pub closed : v.saved ≡ none
    pub jobs : IsOneShot v.tables.provisioning_jobs

  record Working (id : ℕ) : Type 0 where
    closed : v.saved ≡ none
    jobs : InHand id v.tables.provisioning_jobs

claim_row-Left :
    (s : Seqs) (t : Tables)
    → IsOneShot t.provisioning_jobs
    → Left {A = Job}
        (λ u. IsOneShot u.provisioning_jobs)
        (claim_row (find is_claimable t.provisioning_jobs) t)
claim_row-Left s t h = by_row (find is_claimable t.provisioning_jobs) refl
  where
    by_row :
        (o : Option Job)
        → find is_claimable t.provisioning_jobs ≡ o
        → Left {A = Job} (λ u. IsOneShot u.provisioning_jobs) (claim_row o t)
    by_row none e = tt
    by_row (some j) e = (claim-InHand t.provisioning_jobs j h e).0

pub claimed_rows :
    (o : Option Job) (t u : Tables) (j : Job)
    → claim_row o t ≡ ok (j, u)
    → (o ≡ some j)
      × (u.provisioning_jobs ≡ update_where (λ r. r.id == j.id) claimed t.provisioning_jobs)
claimed_rows none t u j e = cc
claimed_rows (some i) t u j e =
    let p : ◌≡◌ {A = Job × Tables}
        (
          i,
          record t {
            provisioning_jobs = update_where (λ r. r.id == i.id) claimed t.provisioning_jobs;
          },
        )
        (j, u) =
      ok-injective e in
    (
      ap some (ap (λ x. x.0) p),
      sym (ap (λ x. x.1.provisioning_jobs) p)
          ∙ ap (λ k. update_where (λ r. r.id == k.id) claimed t.provisioning_jobs)
              (ap (λ x. x.0) p),
    )

claim_next-Runs : (v : World) → OneShot v → Runs v claim_next (λ j w. Working w j.id) OneShot
unfolding claim_next
claim_next-Runs v h = record {
  holds = by_result (claim_next v).0 (claim_next v).1 kept (opened.holds);
}
  where
    claims : Sql Job
    claims = query λ t. claim_row (find is_claimable t.provisioning_jobs) t

    kept : Moved (λ t. IsOneShot t.provisioning_jobs) v (exec claims v).1
    kept =
        exec-Moved _ v (λ t. IsOneShot t.provisioning_jobs) claims (λ t k. k) claim_row-Left h.jobs

    opened : Opens v (exec claims) (λ j t. InHand j.id t.provisioning_jobs)
    opened = exec-Opens claims λ j t e.
        let (found, rows) = claimed_rows _ v.tables t j e in
        subst (InHand j.id) (sym rows) (claim-InHand v.tables.provisioning_jobs j h.jobs found)

    by_result :
        (r : Result Job) (w : World)
        → Moved (λ t. IsOneShot t.provisioning_jobs) v w
        → Open v (λ j t. InHand j.id t.provisioning_jobs) r w
        → Ends (λ j x. Working x j.id) OneShot r w
    by_result (ok j) w m o = record { closed = o.0.saved ∙ h.closed; jobs = o.1 }
    by_result (err e) w m o = record { closed = m.0.saved ∙ h.closed; jobs = m.1 }

-- The retries of a job in hand are read as 0.
retries_of-zero :
    (id : ℕ) (js : List Job) (n : ℕ)
    → InHand id js
    → retries_of (find (λ r. r.id == id) js) ≡ ok n
    → n ≡ 0
retries_of-zero id js n h e = by_row (find (λ r. r.id == id) js) refl e
  where
    by_row : (o : Option Job) → find (λ r. r.id == id) js ≡ o → retries_of o ≡ ok n → n ≡ 0
    by_row none f q = cc
    by_row (some j) f q =
        sym (ok-injective q) ∙ All-find _ (λ r. r.id == id) js j h.1 f (find_holds _ js j f)

module _ (id : ℕ) (v : World) (h : Working v id) where
  -- Done, failed or not heard of: the queue is as sound as before, and no transaction is open.
  mark_done-OneShot : OneShot (mark_done id v).1
  unfolding mark_done
  mark_done-OneShot =
      let m =
        exec-Moved (λ t. IsOneShot t.provisioning_jobs) v (λ t. InHand id t.provisioning_jobs) _
          (λ t k. k.0) (λ s t k. finish-IsOneShot id t.provisioning_jobs k.0) h.jobs in
      record { closed = m.0.saved ∙ h.closed; jobs = m.1 }

  mark_failed-OneShot : (e : Error) → OneShot (mark_failed id e false v).1
  unfolding mark_failed
  mark_failed-OneShot e =
      let m =
        exec-Moved (λ t. IsOneShot t.provisioning_jobs) v (λ t. InHand id t.provisioning_jobs) _
          (λ t k. k.0) (λ s t k. fail-IsOneShot id e t.provisioning_jobs k) h.jobs in
      record { closed = m.0.saved ∙ h.closed; jobs = m.1 }

  record Read (r : Result ℕ) (w : World) : Type 0 where
    zero_retries : scanned r ≡ 0
    working : Working w id

  look-Read : Read (look (job_retries id) v).0 (look (job_retries id) v).1
  look-Read = by_result _ _ (look-Runs (job_retries id) v).holds
    where
      unchanged : (w : World) → Unchanged v w → Working w id
      unchanged w s = record {
        closed = s.outside.saved ∙ h.closed;
        jobs = subst (λ t. InHand id t.provisioning_jobs) (sym s.tables) h.jobs;
      }

      by_result :
          (r : Result ℕ) (w : World) → Ends (Looked (job_retries id) v) (Unchanged v) r w → Read r w
      by_result (ok n) w (s, e) = record {
        zero_retries =
            retries_of-zero id v.tables.provisioning_jobs n h.jobs
              (subst (λ t. job_retries id t ≡ ok n) (committed_of_closed v h.closed) e);
        working = unchanged w s;
      }
      by_result (err e) w s = record { zero_retries = refl; working = unchanged w s }

settle_job-OneShot :
    (id : ℕ) (v : World) → Working v id → (r : Result (Unit {0})) → OneShot (settle_job id r v)
unfolding settle_job
settle_job-OneShot id v h (ok _) = mark_done-OneShot id v h
settle_job-OneShot id v h (err e) =
    let seen = look-Read id v h in
    subst (λ n. OneShot (mark_failed id e (leb 5 (n + 1)) (look (job_retries id) v).1).1)
      (sym seen.zero_retries) (mark_failed-OneShot id (look (job_retries id) v).1 seen.working e)

module _ (cipher : TokenCipher) where
  handle_job-Working :
      (id order_id vendor_id : ℕ) (v : World)
      → Working v id
      → Working (handle_job cipher order_id vendor_id v).1 id
  handle_job-Working id order_id vendor_id v h =
      Runs-world (λ w. Working w id) (handle_job_atomic cipher order_id vendor_id v h.closed)
        (λ a w d. stored w d.stored.saved (ap (λ t. t.provisioning_jobs) d.stored.rows)) failed_by
    where
      stored :
          (w : World)
          → w.saved ≡ none
          → w.tables.provisioning_jobs ≡ v.tables.provisioning_jobs
          → Working w id
      stored w s e = record { closed = s; jobs = subst (InHand id) (sym e) h.jobs }

      failed_by : (w : World) → Undelivered cipher order_id vendor_id v w → Working w id
      failed_by w (inl n) = stored w n.saved (ap (λ t. t.provisioning_jobs) n.tables)
      failed_by w (inr u) = stored w u.stored.saved (ap (λ t. t.provisioning_jobs) u.stored.rows)

  pub tick-OneShot : (v : World) → OneShot v → OneShot (tick cipher v)
  unfolding tick
  tick-OneShot v h = by_claim (claim_next v).0 (claim_next v).1 (claim_next-Runs v h).holds
    where
      by_claim :
          (r : Result Job) (w : World)
          → Ends (λ j x. Working x j.id) OneShot r w
          → OneShot (handled cipher r w)
      by_claim (ok j) w k =
          settle_job-OneShot j.id _ (handle_job-Working j.id j.order_id j.vendor_id w k)
            (handle_job cipher j.order_id j.vendor_id w).0
      by_claim (err e) w k = k

  -- The loop of WorkerV2.Start, with the clock at each tick.
  abbrev pub ticks : List ℕ → World → World
  ticks [] v = v
  ticks (now ∷ later) v = ticks later (tick cipher (record v { now = now }))
