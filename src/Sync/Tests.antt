-- ===== src/Sync/Tests.antt =====
-- Runs of the outbox, and the theorems at concrete inputs.
use outpost_vpn_server.Prelude.{
  ℕ, ◌+◌, ◌*◌, String, none, some, List, false, [], ◌∷◌, ◌≡◌, ◌≢◌, refl, arith, rows_where,
  first_where, update_where, delete_where, count_where,
}
use outpost_vpn_server.Db.{
  Db, Connection, ConnectionStatus, Color, Result, ok, err, service, resume, SyncStatus, insert_job,
  insert_connection, insert_credential, update_connection, update_jobs, write_log,
}
use outpost_vpn_server.Db.Laws.{OneOpen}
use outpost_vpn_server.Connections.{
  Crypto, Secret, hysteria_secret, xray_secret, Fresh, get, visible, by_subscription_token,
  authenticate_hysteria, match_password, match_row, hysteria_rows, create, prepare_rotation,
  prepare_suspend, prepare_resume, prepare_archive, complete_activation, complete_archive,
  complete_suspend, complete_resume, store, issue, create_job, new_job, new_connection, max_serial,
  cancel_jobs, delete_presence, update_credentials, write_both, revoke_others, activate_pending,
  revoke_all, subscription,
}
use outpost_vpn_server.Connections.Generations.{Unique}
use outpost_vpn_server.Connections.Access.{IsAuthentic, authenticate_hysteria-IsAuthentic}
use outpost_vpn_server.Connections.Locking.{
  rotation_locks_out, suspension_locks_out, prepare_archive_total,
}
use outpost_vpn_server.Sync.{
  System, Task, add_call, revoke_call, open_job, latest_job, newest, claim, claim_job, claimed_job,
  claims, mark_running, queue_task, run, begin, begin_task, engine_call, append_call,
  active_generation, settle, settle_task, settle_db, settle_call, settle_completion, complete_kind,
  complete, fail, next_retry,
}
use outpost_vpn_server.Sync.Requests.{
  Action, create_action, activate_action, archive_action, begin_action, settle_action, ready,
  sync_state, perform, step, steps, activate_request, suspend_request, resume_request,
  archive_request, rotate_request,
}
use outpost_vpn_server.Sync.Outbox.{steps-OneOpen}
use outpost_vpn_server.Sync.Uniqueness.{steps-Unique}
use outpost_vpn_server.Sync.Archive.{archive_final}
use outpost_vpn_server.Sync.Race.{suspension_undone}

abbrev test_encrypt : ℕ → Secret → ℕ
test_encrypt iv (hysteria_secret id password) = id
test_encrypt iv (xray_secret id connection generation) = 0

abbrev test_crypto : Crypto
test_crypto = record {
  encrypt = λ iv secret. record { ciphertext = test_encrypt iv secret; iv = iv; tag = 0 };
  decrypt = λ box. some (hysteria_secret box.ciphertext "pass");
  token = λ id generation. id * 100 + generation;
  hash = λ token. token + 1;
}

abbrev fresh_values : ℕ → Fresh
fresh_values n = record {
  hysteria_row = n;
  xray_row = n + 1;
  password = "pass";
  xray_id = "x";
  hysteria_iv = n;
  xray_iv = n + 1;
  job_id = n;
}

abbrev empty_system : System
empty_system = record {
  db = record { connections = []; credentials = []; jobs = []; presence = []; log = [] };
  waiting = [];
  holder = none;
  calls = [];
}

-- Connection 7 is created and activated.
abbrev setup : List (Action × ℕ)
setup =
    (
      create_action (fresh_values 10) 7
          (record { name = "a"; color = Color.blue; avatar = "avatar-1" }) "owner",
      1000,
    )
    ∷ (activate_action 7, 1001)
    ∷ (begin_action, 1002)
    ∷ (settle_action none, 1003)
    ∷ []

active_system : System
unfolding steps step perform activate_request run claim claim_job claimed_job claims mark_running
    queue_task open_job newest begin begin_task engine_call append_call settle settle_task settle_db
    settle_call settle_completion complete_kind complete create insert_connection insert_credential
    insert_job issue store create_job new_connection max_serial get visible complete_activation
    update_connection update_jobs update_credentials revoke_others activate_pending write_both
    write_log first_where update_where count_where suspend_request resume_request archive_request
    prepare_suspend prepare_resume prepare_archive complete_suspend complete_resume complete_archive
    revoke_all cancel_jobs delete_presence delete_where active_generation fail next_retry
    rotate_request prepare_rotation subscription authenticate_hysteria hysteria_rows match_password
    match_row by_subscription_token rows_where
active_system = steps test_crypto empty_system setup

active_calls : active_system.calls ≡ add_call 7 1 ∷ []
unfolding active_system
active_calls = refl

active_authenticates : authenticate_hysteria test_crypto active_system.db "pass" ≡ ok (some 7)
unfolding active_system
active_authenticates = refl

active_refuses : authenticate_hysteria test_crypto active_system.db "other" ≡ ok none
unfolding active_system
active_refuses = refl

steps-OneOpen_example : OneOpen (steps test_crypto empty_system setup).db
steps-OneOpen_example =
    steps-OneOpen test_crypto empty_system setup (λ id. unfold count_where in omega arith)

steps-Unique_example : Unique (steps test_crypto empty_system setup).db
steps-Unique_example = steps-Unique test_crypto empty_system setup (record {
  one_slot = λ r. unfold count_where in omega arith;
  one_active = λ id e. unfold count_where in omega arith;
})

abbrev ignored : Result System → System
ignored (ok t) = t
ignored (err e) = empty_system

archiving_system : System
unfolding active_system
archiving_system = ignored (perform test_crypto active_system (archive_action 7 "owner" 50) 2000)

archive_final_example :
    (get (steps test_crypto archiving_system setup).db 7 false ≡ err (service 404))
    × ((token : ℕ) (k : Connection)
        → by_subscription_token test_crypto (steps test_crypto archiving_system setup).db token
          ≡ ok k
        → k.id ≢ 7)
    × ((auth : String)
        → authenticate_hysteria test_crypto (steps test_crypto archiving_system setup).db auth
          ≢ ok (some 7))
unfolding archiving_system
archive_final_example =
    archive_final test_crypto active_system archiving_system 7 "owner" 2000 50 setup refl

authenticate_hysteria-IsAuthentic_example : IsAuthentic test_crypto active_system.db "pass" 7
authenticate_hysteria-IsAuthentic_example =
    authenticate_hysteria-IsAuthentic test_crypto active_system.db "pass" 7 active_authenticates

abbrev value_or_empty : Result Db → Db
value_or_empty (ok db) = db
value_or_empty (err e) = empty_system.db

rotated_db : Db
unfolding active_system
rotated_db =
    value_or_empty (prepare_rotation test_crypto (fresh_values 30) active_system.db 7 "owner" 3000)

rotation_locks_out_example :
    ((token : ℕ) (k : Connection)
      → by_subscription_token test_crypto rotated_db token ≡ ok k
      → k.id ≢ 7)
    × ((auth : String) → authenticate_hysteria test_crypto rotated_db auth ≢ ok (some 7))
unfolding rotated_db
rotation_locks_out_example =
    rotation_locks_out test_crypto (fresh_values 30) active_system.db rotated_db 7 "owner" 3000 refl

suspended_db : Db
unfolding active_system
suspended_db = value_or_empty (prepare_suspend active_system.db 7 "owner" 3000 40)

suspension_locks_out_example :
    ((token : ℕ) (k : Connection)
      → by_subscription_token test_crypto suspended_db token ≡ ok k
      → k.id ≢ 7)
    × ((auth : String) → authenticate_hysteria test_crypto suspended_db auth ≢ ok (some 7))
unfolding suspended_db
suspension_locks_out_example =
    suspension_locks_out test_crypto active_system.db suspended_db 7 "owner" 3000 40 refl

abbrev first_connection : List Connection → Connection
first_connection (k ∷ ks) = k
first_connection [] =
    new_connection test_crypto empty_system.db 0
      (record { name = ""; color = Color.blue; avatar = "" }) 0

prepare_archive_total_example :
    (d : Db) × (prepare_archive active_system.db 7 "owner" 3000 50 ≡ ok d)
unfolding active_system
prepare_archive_total_example =
    prepare_archive_total active_system.db 7 "owner" 3000 50
      (first_connection active_system.db.connections) refl

-- Connection 7 is suspended, and its resumption waits for the engine.
abbrev suspended_connection : Connection
suspended_connection =
    record (new_connection test_crypto empty_system.db 7
      (record { name = "a"; color = Color.blue; avatar = "avatar-1" }) 1000) {
        status = ConnectionStatus.active;
        suspended_at = some 4000;
      }

abbrev resume_task : Task
resume_task = record {
  job = record (new_job 61 7 1 none resume "owner" 4003) { status = SyncStatus.running };
  call = some (add_call 7 1);
}

abbrev resuming_system : System
resuming_system = record empty_system {
  db = record empty_system.db {
    connections = suspended_connection ∷ [];
    jobs = resume_task.job ∷ [];
  };
  holder = some resume_task;
  calls = add_call 7 1 ∷ [];
}

suspended_again : System
unfolding active_system
suspended_again = ignored (suspend_request resuming_system 7 "owner" 5000 62)

suspended_again_ok : suspend_request resuming_system 7 "owner" 5000 62 ≡ ok suspended_again
unfolding suspended_again
suspended_again_ok = refl

undone_system : System
unfolding suspended_again
undone_system = settle suspended_again none 5001

undone_connection :
    get undone_system.db 7 false ≡ ok (first_connection undone_system.db.connections)
unfolding undone_system
undone_connection = refl

suspension_undone_example : (first_connection undone_system.db.connections).suspended_at ≡ none
suspension_undone_example =
    suspension_undone resuming_system suspended_again resume_task "owner" 5000 62 5001
      (first_connection undone_system.db.connections) refl refl suspended_again_ok
      (unfold undone_system in undone_connection)

-- The suspension's own task then takes the credential from the engine, and the connection is shown as
-- ready.
final_system : System
unfolding undone_system
final_system =
    steps test_crypto undone_system ((begin_action, 5002) ∷ (settle_action none, 5003) ∷ [])

undone_state :
    (final_system.calls ≡ add_call 7 1 ∷ revoke_call 7 1 ∷ [])
    × (sync_state (first_connection final_system.db.connections) (latest_job final_system.db 7)
        ≡ ready)
unfolding final_system sync_state latest_job
undone_state = (refl, refl)
