-- ===== src/Db/Laws.antt =====
-- What the shared statements keep: at most one open job for a connection.
use mathlib.Core.Path.{subst}
use outpost_vpn_server.Prelude.{
  ℕ, ◌≤◌, Option, none, some, List, Bool, true, false, [], ◌∷◌, ◌++◌, ◌==◌, ◌&&◌, ◌≡◌, arith, not,
  if◌then◌else◌, inl, inr, Bool-cases, count_where, count_where-append, count_where-update,
}
use outpost_vpn_server.Db.{
  SyncJob, Db, Fault, Result, ok, err, ◌>>=◌, or_throw, is_open, open_of, insert_job, update_jobs,
}

-- `P` holds of the value, if there is one.
pub data Holds {A : Type 0} (P : A → Type 0) : Result A → Type 0 where
  returned : {a : A} → P a → Holds P (ok a)
  threw : {e : Fault} → Holds P (err e)

pub bind-Holds :
    {A B : Type 0} {Q : A → Type 0} {P : B → Type 0} {m : Result A} {f : A → Result B}
    → Holds Q m
    → ((a : A) → Q a → Holds P (f a))
    → Holds P (m >>= f)
bind-Holds (returned {a = a} q) h = h a q
bind-Holds threw h = threw

-- Where nothing has to be known of the first value.
pub bind_any-Holds :
    {A B : Type 0} {P : B → Type 0} (m : Result A) {f : A → Result B}
    → ((a : A) → Holds P (f a))
    → Holds P (m >>= f)
bind_any-Holds (ok a) h = h a
bind_any-Holds (err e) h = threw

pub if-Holds :
    {A : Type 0} {P : A → Type 0} (b : Bool) {m n : Result A}
    → Holds P m
    → Holds P n
    → Holds P (if b then m else n)
if-Holds true h k = h
if-Holds false h k = k

pub if_value :
    {A : Type 0} (P : A → Type 0) (b : Bool) {m n : A} → P m → P n → P (if b then m else n)
if_value P true h k = h
if_value P false h k = k

-- The value where a call that throws changes nothing.
pub kept-Holds :
    {A : Type 0} {P : A → Type 0} {r : Result A} (s : A)
    → Holds P r
    → P s
    → P (elim r [ ok t ↦ t | err e ↦ s ])
kept-Holds s (returned p) h = p
kept-Holds s threw h = h

pub value-Holds : {A : Type 0} {P : A → Type 0} {r : Result A} {a : A} → Holds P r → r ≡ ok a → P a
value-Holds {P = P} {a = b} (returned {a = a} p) e = let q : a ≡ b = cc in subst P q p
value-Holds threw e = elim (clash e) [ ]
  where
    clash : {A : Type 0} {f : Fault} {a : A} → err f ≡ ok a → ⊥
    clash e = cc

-- A connection has at most one job that is pending, running or failed.
abbrev pub OneOpen : Db → Type 0
OneOpen db = (id : ℕ) → count_where (open_of id) db.jobs ≤ 1

open_of-connection : (id : ℕ) (j : SyncJob) → open_of id j ≡ true → j.connection_id ≡ id
open_of-connection id j h = ground arith

insert_job-count :
    (j : SyncJob) (db : Db) (id : ℕ)
    → count_where (open_of id) db.jobs ≤ 1
    → (open_of id j ≡ true → count_where (open_of id) db.jobs ≡ 0)
    → count_where (open_of id) (db.jobs ++ j ∷ []) ≤ 1
insert_job-count j db id h k =
    rw (count_where-append (open_of id) db.jobs (j ∷ [])) (unfold count_where in ground arith)

open_of-zero :
    (id : ℕ) (j : SyncJob) (jobs : List SyncJob)
    → (is_open j.status && not (count_where (open_of j.connection_id) jobs == 0)) ≡ false
    → open_of id j ≡ true
    → count_where (open_of id) jobs ≡ 0
open_of-zero id j jobs h k =
    let e : j.connection_id ≡ id = open_of-connection id j k in rw (← e) (ground arith)

pub insert_job-OneOpen : (j : SyncJob) (db : Db) → OneOpen db → Holds OneOpen (insert_job j db)
unfolding insert_job
insert_job-OneOpen j db h =
    elim (Bool-cases
      (is_open j.status && not (count_where (open_of j.connection_id) db.jobs == 0))) [
        | inl e ↦ rw e threw
        | inr e ↦
            rw e (returned (λ id. insert_job-count j db id (h id) (open_of-zero id j db.jobs e)))
      ]

-- An update that moves no job to another connection and opens none.
abbrev pub OpensNone : (SyncJob → Bool) → (SyncJob → SyncJob) → Type 0
OpensNone p f =
    (j : SyncJob)
    → p j ≡ true
    → (j.connection_id ≡ (f j).connection_id)
      × (is_open (f j).status ≡ true → is_open j.status ≡ true)

pub update_jobs-OneOpen :
    (p : SyncJob → Bool) (f : SyncJob → SyncJob) (db : Db)
    → OpensNone p f
    → OneOpen db
    → OneOpen (update_jobs p f db)
unfolding update_jobs
update_jobs-OneOpen p f db keep h id =
    omega (arith, h id, count_where-update (open_of id) p f (opened id) db.jobs)
  where
    opened : (id : ℕ) (j : SyncJob) → p j ≡ true → open_of id (f j) ≡ true → open_of id j ≡ true
    opened id j hit e = ground (arith, keep j hit)

pub or_throw-eq-ok :
    {A : Type 0} (o : Option A) (e : Fault) {a : A} → or_throw o e ≡ ok a → o ≡ some a
or_throw-eq-ok none e h = cc
or_throw-eq-ok (some a) e h = cc
