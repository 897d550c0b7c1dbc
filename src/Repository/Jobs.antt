-- ===== src/Repository/Jobs.antt =====
-- ProvisioningJobRepository of internal/repository/order_repository.go.
use x_ui_site.Prelude.{
  ℕ, ◌+◌, Bool, true, false, not, ◌&&◌, Option, none, some, [], ◌∷◌, ◌++◌, find, any, update_where,
  ◌==◌,
}
use x_ui_site.Db.Rows.{Tables, Job, JobState, pending, provisioning, done, failed}
use x_ui_site.Db.Errors.{Error, Result, ok, err, no_rows, foreign_key_violation}
use x_ui_site.Db.Session.{M, Sql, query, exec}
use x_ui_site.Repository.Statements.{checked, has_vendor}

-- INSERT INTO provisioning_jobs(vendor_id, order_id, status) VALUES($1,$2,'pending')
unfoldable pub insert_job : ℕ → ℕ → Sql (Unit {0})
insert_job vendor_id order_id s t =
    let row : Job = record {
      id = s.provisioning_jobs;
      vendor_id = vendor_id;
      order_id = order_id;
      status = pending;
      retries = 0;
      last_error = none;
      dead_letter = false;
      deleted = false;
    } in
    (
      record s { provisioning_jobs = s.provisioning_jobs + 1 },
      checked (has_vendor vendor_id t && any (λ r. r.order.id == order_id) t.orders)
          foreign_key_violation
          (tt, record t { provisioning_jobs = t.provisioning_jobs ++ row ∷ [] }),
    )

-- EnqueueTx
unfoldable pub enqueue_tx : ℕ → ℕ → M (Unit {0})
enqueue_tx vendor_id order_id = exec (insert_job vendor_id order_id)

abbrev pub is_pending : JobState → Bool
is_pending pending = true
is_pending _ = false

-- status='pending' AND dead_letter=FALSE AND deleted_at IS NULL
abbrev pub is_claimable : Job → Bool
is_claimable j = is_pending j.status && not j.dead_letter && not j.deleted

abbrev pub claimed : Job → Job
claimed j = record j { status = provisioning }

abbrev pub claim_row : Option Job → Tables → Result (Job × Tables)
claim_row none t = err no_rows
claim_row (some j) t = ok (
  j,
  record t { provisioning_jobs = update_where (λ r. r.id == j.id) claimed t.provisioning_jobs },
)

-- ClaimNext: the first claimable job becomes 'provisioning'. Rows stand in the order of their ids;
-- statements do not overlap here, so SKIP LOCKED skips nothing.
unfoldable pub claim_next : M Job
claim_next = exec (query λ t. claim_row (find is_claimable t.provisioning_jobs) t)

abbrev pub finished : Job → Job
finished j = record j { status = done }

-- MarkDone
unfoldable pub mark_done : ℕ → M (Unit {0})
mark_done job_id = exec (
    query λ t. ok (
      tt,
      record t {
        provisioning_jobs = update_where (λ r. r.id == job_id) finished t.provisioning_jobs;
      },
    ))

abbrev pub failed_with : Error → Bool → Job → Job
failed_with last_error dead j = record j {
  status = failed;
  retries = j.retries + 1;
  last_error = some last_error;
  dead_letter = dead;
}

-- MarkFailed
unfoldable pub mark_failed : ℕ → Error → Bool → M (Unit {0})
mark_failed job_id last_error dead = exec (
    query λ t. ok (
      tt,
      record t {
        provisioning_jobs =
            update_where (λ r. r.id == job_id) (failed_with last_error dead) t.provisioning_jobs;
      },
    ))

abbrev pub retries_of : Option Job → Result ℕ
retries_of none = err no_rows
retries_of (some j) = ok j.retries

-- SELECT retries FROM provisioning_jobs WHERE id=$1, sent by the worker itself.
abbrev pub job_retries : ℕ → Tables → Result ℕ
job_retries job_id t = retries_of (find (λ r. r.id == job_id) t.provisioning_jobs)
