-- ===== src/Monitoring/Services.antt =====
-- When `observeService` of src/server/services/monitoring.ts writes an event.
use outpost_vpn_server.Prelude.{
  ℕ, ◌+◌, Option, none, some, List, Bool, true, false, [], ◌∷◌, ◌++◌, ◌==◌, ◌&&◌, ◌≡◌, refl, arith,
  ap, sym, ◌∙◌, not, leb, if◌then◌else◌, Bool-cases, inl, inr, rows_where,
}
use mathlib.Core.List.{append-nil, append_assoc}
use outpost_vpn_server.Geosite.Compile.{text_eq}
use outpost_vpn_server.Geosite.Cover.{text_eq-eq, text_eq_refl}
use outpost_vpn_server.Monitoring.{
  Status, available, unavailable, baseline, Severity, error, MonitorData, MonitorRow, MonitorEvent,
  Monitor, state, save, service_key, service_unavailable, service_restored, service_event,
  observe_service, record_if, has_status, failures_of, no_data, same_status, status_or,
}
use outpost_vpn_server.Monitoring.Rows.{first_where-upsert, first_where-upsert_other}

-- One observation: the service, whether it answers, and when.
abbrev pub Observation : Type 0
Observation = List ℕ × Bool × ℕ

module _ {D : Type 0} where
  unfoldable pub observe_all : List Observation → Monitor D → Monitor D
  observe_all [] m = m
  observe_all ((service, answers, at) ∷ os) m =
      observe_all os (observe_service service answers at m)

  abbrev pub of_service : List ℕ → MonitorEvent D → Bool
  of_service service e = of_source e.source
    where
      of_source : Option (List ℕ) → Bool
      of_source none = false
      of_source (some name) = text_eq name service

  abbrev pub when : Bool → MonitorEvent D → List (MonitorEvent D)
  when due e = if due then e ∷ [] else []

  -- The events of a service, told from how often it has failed in a row: one when it fails for the second
  -- time, and one when it answers again after that.
  unfoldable pub incidents : List ℕ → ℕ → List Observation → List (MonitorEvent D)
  incidents service failed [] = []
  incidents service failed ((name, answers, at) ∷ os) =
      let other = incidents service failed os in
      let up = incidents service 0 os in
      let down = incidents service (failed + 1) os in
      if text_eq name service
      then (if answers
          then when (leb 2 failed) (service_event service_restored service at) ++ up
          else when (failed == 1) (service_event service_unavailable service at) ++ down)
      else other

  -- The row counts the failures in a row, and is unavailable from two on.
  abbrev pub Counts : Option (MonitorRow D) → ℕ → Type 0
  Counts row failed = (failures_of row ≡ failed) × (has_status unavailable row ≡ leb 2 failed)

  state-save :
      (key : List ℕ) (status : Status) (severity : Option Severity) (failures at : ℕ)
      (details : MonitorData D) (m : Monitor D) (failed : ℕ)
      → failures ≡ failed
      → same_status status unavailable ≡ leb 2 failed
      → Counts (state key (save key status severity failures at details m)) failed
  unfolding state save
  state-save key status severity failures at details m failed e f =
      rw (first_where-upsert _ m.states) (e, f)

  state-save_other :
      (key other : List ℕ) (status : Status) (severity : Option Severity) (failures at : ℕ)
      (details : MonitorData D) (m : Monitor D)
      → text_eq other key ≡ false
      → state key (save other status severity failures at details m) ≡ state key m
  unfolding state save
  state-save_other key other status severity failures at details m differ =
      first_where-upsert_other key _ m.states differ

  state-record_if :
      (key : List ℕ) (due : Bool) (e : MonitorEvent D) (m : Monitor D)
      → state key (record_if due e m) ≡ state key m
  unfolding state
  state-record_if key true e m = refl
  state-record_if key false e m = refl

  rows_where-append_one :
      (p : MonitorEvent D → Bool) (xs : List (MonitorEvent D)) (e : MonitorEvent D)
      → rows_where p (xs ++ e ∷ []) ≡ rows_where p xs ++ when (p e) e
  unfolding rows_where
  rows_where-append_one p [] e = refl
  rows_where-append_one p (x ∷ xs) e = elim (Bool-cases (p x)) [
    | inl hit ↦ rw (hit, rows_where-append_one p xs e) refl
    | inr miss ↦ rw (miss, rows_where-append_one p xs e) refl
  ]

  -- What recording adds to the events that a test selects.
  recorded :
      (p : MonitorEvent D → Bool) (due : Bool) (e : MonitorEvent D) (m : Monitor D)
      → p e ≡ true
      → rows_where p (record_if due e m).log ≡ rows_where p m.log ++ when due e
  recorded p true e m hit = rw (rows_where-append_one p m.log e, hit) refl
  recorded p false e m hit = sym (append-nil (rows_where p m.log))

  pub unrecorded :
      (p : MonitorEvent D → Bool) (due : Bool) (e : MonitorEvent D) (m : Monitor D)
      → p e ≡ false
      → rows_where p (record_if due e m).log ≡ rows_where p m.log
  unrecorded p true e m miss =
      rw (rows_where-append_one p m.log e, miss) (append-nil (rows_where p m.log))
  unrecorded p false e m miss = refl

  abbrev pub events_of : List ℕ → Monitor D → List (MonitorEvent D)
  events_of service m = rows_where (of_service service) m.log

  status_or-has_status :
      (row : Option (MonitorRow D))
      → same_status (status_or baseline row) unavailable ≡ has_status unavailable row
  status_or-has_status none = refl
  status_or-has_status (some r) = refl

  status_after :
      (row : Option (MonitorRow D)) (failed : ℕ)
      → Counts row failed
      → same_status
          (if leb 2 (failures_of row + 1) then unavailable else status_or baseline row)
          unavailable
        ≡ leb 2 (failed + 1)
  status_after row failed (counted, is_down) = elim (Bool-cases (leb 2 (failed + 1))) [
    | inl enough ↦ rw (counted, enough) refl
    | inr few ↦ rw (counted, few, status_or-has_status row, is_down) (ground arith)
  ]

  due_after :
      (row : Option (MonitorRow D)) (failed : ℕ)
      → Counts row failed
      → (leb 2 (failures_of row + 1) && not (has_status unavailable row)) ≡ (failed == 1)
  due_after row failed (counted, is_down) = rw (counted, is_down) (ground arith)

  answered :
      (service : List ℕ) (at : ℕ) (m : Monitor D) (failed : ℕ)
      → Counts (state (service_key service) m) failed
      → Counts (state (service_key service) (observe_service service true at m)) 0
        × (events_of service (observe_service service true at m)
            ≡ events_of service m
              ++ when (leb 2 failed) (service_event service_restored service at))
  unfolding observe_service
  answered service at m failed (counted, is_down) =
      let due : Bool = has_status unavailable (state (service_key service) m) in
      (
        state-save (service_key service) available none 0 at no_data
            (record_if due (service_event service_restored service at) m) 0 refl refl,
        unfold save in
            rw (← is_down) (
              recorded (of_service service) due (service_event service_restored service at) m
                (text_eq_refl service)),
      )

  failed_again :
      (service : List ℕ) (at : ℕ) (m : Monitor D) (failed : ℕ)
      → Counts (state (service_key service) m) failed
      → Counts (state (service_key service) (observe_service service false at m)) (failed + 1)
        × (events_of service (observe_service service false at m)
            ≡ events_of service m
              ++ when (failed == 1) (service_event service_unavailable service at))
  unfolding observe_service
  failed_again service at m failed (counted, is_down) =
      let row : Option (MonitorRow D) = state (service_key service) m in
      let due : Bool = leb 2 (failures_of row + 1) && not (has_status unavailable row) in
      (
        state-save (service_key service)
            (if leb 2 (failures_of row + 1) then unavailable else status_or baseline row)
            (some error) (failures_of row + 1) at no_data
            (record_if due (service_event service_unavailable service at) m) (failed + 1)
            (ap (λ n. n + 1) counted) (status_after row failed (counted, is_down)),
        unfold save in
            rw (← due_after row failed (counted, is_down)) (
              recorded (of_service service) due (service_event service_unavailable service at) m
                (text_eq_refl service)),
      )

  -- An observation of another service leaves the row and the events as they were.
  unmoved :
      (service other : List ℕ) (answers : Bool) (at : ℕ) (m : Monitor D)
      → text_eq other service ≡ false
      → (state (service_key service) (observe_service other answers at m)
          ≡ state (service_key service) m)
        × (events_of service (observe_service other answers at m) ≡ events_of service m)
  unfolding observe_service
  unmoved service other true at m differ =
      let due : Bool = has_status unavailable (state (service_key other) m) in
      (
        state-save_other (service_key service) (service_key other) _ _ _ _ _
              (record_if due (service_event service_restored other at) m) differ
            ∙ state-record_if (service_key service) due (service_event service_restored other at) m,
        unfold save in
            unrecorded (of_service service) due (service_event service_restored other at) m differ,
      )
  unmoved service other false at m differ =
      let row : Option (MonitorRow D) = state (service_key other) m in
      let due : Bool = leb 2 (failures_of row + 1) && not (has_status unavailable row) in
      (
        state-save_other (service_key service) (service_key other) _ _ _ _ _
              (record_if due (service_event service_unavailable other at) m) differ
            ∙ state-record_if (service_key service) due (service_event service_unavailable other at)
                m,
        unfold save in
            unrecorded (of_service service) due (service_event service_unavailable other at) m
              differ,
      )

  extended :
      {xs ys : List (MonitorEvent D)} (a b c : List (MonitorEvent D))
      → xs ≡ ys ++ c
      → ys ≡ a ++ b
      → xs ≡ a ++ (b ++ c)
  extended a b c e f = e ∙ ap (λ es. es ++ c) f ∙ append_assoc a b c

  -- Whatever observations of whatever services come in whatever order, the events of a service are those
  -- of its own observations: it is reported unavailable when it fails for the second time in a row, not
  -- again until it has answered, and reported restored when it answers after that. (A row there counts
  -- the failures so far, and is unavailable from two on.)
  pub observe_all-incidents :
      (service : List ℕ) (os : List Observation) (m : Monitor D) (failed : ℕ)
      → Counts (state (service_key service) m) failed
      → events_of service (observe_all os m) ≡ events_of service m ++ incidents service failed os
  unfolding observe_all incidents
  observe_all-incidents service [] m failed h = sym (append-nil (events_of service m))
  observe_all-incidents service ((name, true, at) ∷ os) m failed h =
      elim (Bool-cases (text_eq name service)) [
        | inl same ↦
            let e : name ≡ service = text_eq-eq name service same in
            let (counts, events) = answered service at m failed h in
            rw (e, text_eq_refl service)
              (extended _ _ _
                (observe_all-incidents service os (observe_service service true at m) 0 counts)
                events)
        | inr differ ↦
            let (stays, quiet) = unmoved service name true at m differ in
            rw differ (
              observe_all-incidents service os (observe_service name true at m) failed (rw stays h)
              ∙ ap (λ es. es ++ incidents service failed os) quiet)
      ]
  observe_all-incidents service ((name, false, at) ∷ os) m failed h =
      elim (Bool-cases (text_eq name service)) [
        | inl same ↦
            let e : name ≡ service = text_eq-eq name service same in
            let (counts, events) = failed_again service at m failed h in
            rw (e, text_eq_refl service)
              (extended _ _ _
                (observe_all-incidents service os (observe_service service false at m) (failed + 1)
                  counts)
                events)
        | inr differ ↦
            let (stays, quiet) = unmoved service name false at m differ in
            rw differ (
              observe_all-incidents service os (observe_service name false at m) failed (rw stays h)
              ∙ ap (λ es. es ++ incidents service failed os) quiet)
      ]
