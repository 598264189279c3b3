-- ===== src/Sync/Rules.antt =====
-- How `run`, `begin` and `settle` are taken apart: what has to be shown of their branches.
use outpost_vpn_server.Prelude.{
  ℕ, String, Option, none, some, List, Bool, [], ◌∷◌, ◌++◌, ◌==◌, ◌≡◌, refl, inl, inr, Bool-cases,
  Option-cases, count_where, first_where,
}
use outpost_vpn_server.Db.{Db, SyncJob, Result, ok, err}
use outpost_vpn_server.Sync.{
  System, Task, open_job, claim, claim_job, claimed_job, claims, mark_running, queue_task, run,
  begin_task, engine_call, append_call, settle_task, settle_db, settle_call, settle_completion,
  complete_kind, complete, fail,
}

module _ (P : System → Type 0) (s : System) (force : Bool) (now : ℕ) where
  pub claim_job_rule :
      (found : Option SyncJob)
      → P s
      → ((job current : SyncJob)
          → found ≡ some job
          → first_where (λ j. j.id == job.id) (mark_running force now job.id s.db).jobs
            ≡ some current
          → P (record s {
            db = mark_running force now job.id s.db;
            waiting = s.waiting ++ current ∷ [];
          }))
      → P (queue_task s (claim_job s.db force now found))
  unfolding claim_job claimed_job queue_task
  claim_job_rule none unchanged changed = unchanged
  claim_job_rule (some job) unchanged changed =
      elim (Bool-cases (count_where (claims force now job.id) s.db.jobs == 0)) [
        | inl e ↦ rw e unchanged
        | inr e ↦
            elim (Option-cases
              (first_where (λ j. j.id == job.id) (mark_running force now job.id s.db).jobs)) [
                | inl gone ↦ rw (e, gone) unchanged
                | inr (current, found) ↦ rw (e, found) (changed job current refl found)
              ]
      ]

  pub run_rule :
      (id : ℕ)
      → P s
      → ((job current : SyncJob)
          → open_job s.db id ≡ some job
          → first_where (λ j. j.id == job.id) (mark_running force now job.id s.db).jobs
            ≡ some current
          → P (record s {
            db = mark_running force now job.id s.db;
            waiting = s.waiting ++ current ∷ [];
          }))
      → P (run s id force now)
  unfolding run claim
  run_rule id unchanged changed = claim_job_rule (open_job s.db id) unchanged changed

module _ (P : Db → Type 0) (db : Db) (job : SyncJob) (now : ℕ) where
  pub settle_completion_rule :
      (r : Result Db)
      → ((message : String) → P (fail db job message now))
      → ((d : Db) → r ≡ ok d → P (complete d job.id now))
      → P (settle_completion db job now r)
  unfolding settle_completion
  settle_completion_rule (ok d) failed done = done d refl
  settle_completion_rule (err e) failed done = failed _

  pub settle_call_rule :
      (outcome : Option String)
      → ((message : String) → P (fail db job message now))
      → ((d : Db) → complete_kind db job job.kind now ≡ ok d → P (complete d job.id now))
      → P (settle_call db job now outcome)
  unfolding settle_call
  settle_call_rule none failed done =
      settle_completion_rule (complete_kind db job job.kind now) failed done
  settle_call_rule (some message) failed done = failed message

pub settle_rule :
    (P : System → Type 0) (s : System) (holder : Option Task) (outcome : Option String) (now : ℕ)
    → P s
    → ((task : Task) (message : String)
        → holder ≡ some task
        → P (record s { db = fail s.db task.job message now; holder = none }))
    → ((task : Task) (d : Db)
        → holder ≡ some task
        → complete_kind s.db task.job task.job.kind now ≡ ok d
        → P (record s { db = complete d task.job.id now; holder = none }))
    → P (settle_task s holder outcome now)
unfolding settle_task settle_db
settle_rule P s none outcome now idle failed done = idle
settle_rule P s (some task) outcome now idle failed done =
    settle_call_rule (λ d. P (record s { db = d; holder = none })) s.db task.job now _
      (λ message. failed task message refl) (λ d e. done task d refl e)

pub begin_rule :
    (P : System → Type 0) (s : System) (waiting : List SyncJob) (holder : Option Task)
    → P s
    → ((job : SyncJob) (rest : List SyncJob)
        → waiting ≡ job ∷ rest
        → holder ≡ none
        → P (record s {
          waiting = rest;
          holder = some (record { job = job; call = engine_call s.db job job.kind });
          calls = append_call s.calls (engine_call s.db job job.kind);
        }))
    → P (begin_task s waiting holder)
unfolding begin_task
begin_rule P s [] holder idle begun = idle
begin_rule P s (job ∷ rest) none idle begun = begun job rest refl refl
begin_rule P s (job ∷ rest) (some _) idle begun = idle
