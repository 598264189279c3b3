-- ===== src/Monitoring.antt =====
-- `MonitoringService` of src/server/services/monitoring.ts: what it keeps of services, disk and certificate
-- between two probes, and the events that it writes. A text is the list of its code points, and `D` is what
-- a threshold's event carries.
pub mod Rows
pub mod Services
pub mod Thresholds
pub mod Collect
pub mod Verdicts
pub mod Probes
mod Tests
use outpost_vpn_server.Prelude.{
  ℕ, zero, suc, ◌+◌, Option, none, some, List, Bool, true, false, [], ◌∷◌, ◌++◌, ◌==◌, ◌&&◌, ◌||◌,
  not, ltb, leb, any, if◌then◌else◌, or_else, first_where, update_where,
}
use outpost_vpn_server.Geosite.Compile.{text_eq}

pub data Alarm : Type 0 where
  warning critical : Alarm

pub data Status : Type 0 where
  available unavailable baseline healthy : Status
  alarming : Alarm → Status

pub data Severity : Type 0 where
  error : Severity
  of_alarm : Alarm → Severity

-- `"healthy" | "hold" | "warning" | "critical"`
pub data Level : Type 0 where
  fine hold : Level
  reaches : Alarm → Level

pub data EventType : Type 0 where
  service_unavailable service_restored : EventType
  disk_warning disk_critical disk_restored : EventType
  tls_warning tls_critical tls_restored : EventType

-- `data_json`: `{}`, or the data of a threshold and its `target`
pub record MonitorData (D : Type 0) : Type 0 where
  pub data_part : Option D
  pub target : Option Alarm

pub record MonitorRow (D : Type 0) : Type 0 where
  pub key : List ℕ
  pub status : Status
  pub severity : Option Severity
  pub failures : ℕ
  pub details : MonitorData D
  pub observed_at : ℕ
  pub changed_at : ℕ

pub record MonitorEvent (D : Type 0) : Type 0 where
  pub type : EventType
  pub source : Option (List ℕ)
  pub severity : Option Severity
  pub occurred_at : ℕ
  pub details : Option D

pub record Monitor (D : Type 0) : Type 0 where
  pub states : List (MonitorRow D)
  pub log : List (MonitorEvent D)

-- The names of the events of a threshold.
pub record ThresholdEvents : Type 0 where
  pub on_alarm : Alarm → EventType
  pub recovered : EventType

abbrev pub same_alarm : Alarm → Alarm → Bool
same_alarm warning warning = true
same_alarm critical critical = true
same_alarm _ _ = false

abbrev pub same_status : Status → Status → Bool
same_status available available = true
same_status unavailable unavailable = true
same_status baseline baseline = true
same_status healthy healthy = true
same_status (alarming a) (alarming b) = same_alarm a b
same_status _ _ = false

abbrev pub is_target : Alarm → Option Alarm → Bool
is_target a none = false
is_target a (some b) = same_alarm b a

-- "service:"
abbrev pub service_key : List ℕ → List ℕ
service_key name = 115 ∷ 101 ∷ 114 ∷ 118 ∷ 105 ∷ 99 ∷ 101 ∷ 58 ∷ name

module _ {D : Type 0} where
  abbrev pub of_key : List ℕ → MonitorRow D → Bool
  of_key key r = text_eq r.key key

  unfoldable pub state : List ℕ → Monitor D → Option (MonitorRow D)
  state key m = first_where (of_key key) m.states

  -- The two reads of the row that is there: whether it has a status, and its count of failures.
  abbrev pub has_status : Status → Option (MonitorRow D) → Bool
  has_status s none = false
  has_status s (some r) = same_status r.status s

  abbrev pub failures_of : Option (MonitorRow D) → ℕ
  failures_of none = 0
  failures_of (some r) = r.failures

  abbrev pub status_or : Status → Option (MonitorRow D) → Status
  status_or s none = s
  status_or s (some r) = r.status

  abbrev pub severity_of : Option (MonitorRow D) → Option Severity
  severity_of none = none
  severity_of (some r) = r.severity

  abbrev pub target_of : Option (MonitorRow D) → Option Alarm
  target_of none = none
  target_of (some r) = r.details.target

  abbrev changed_of : Status → ℕ → Option (MonitorRow D) → ℕ
  changed_of s at none = at
  changed_of s at (some r) = if same_status r.status s then r.changed_at else at

  -- INSERT ... ON CONFLICT(key) DO UPDATE
  unfoldable pub upsert : MonitorRow D → List (MonitorRow D) → List (MonitorRow D)
  upsert row rows =
      if any (of_key row.key) rows
      then update_where (of_key row.key) (λ r. row) rows
      else rows ++ row ∷ []

  unfoldable pub save :
      List ℕ → Status → Option Severity → ℕ → ℕ → MonitorData D → Monitor D → Monitor D
  save key status severity failures observed_at details m = record m {
    states =
        upsert
          (record {
            key = key;
            status = status;
            severity = severity;
            failures = failures;
            details = details;
            observed_at = observed_at;
            changed_at = changed_of status observed_at (state key m);
          })
          m.states;
  }

  -- `journal.record`
  abbrev pub record_if : Bool → MonitorEvent D → Monitor D → Monitor D
  record_if due event m = if due then record m { log = m.log ++ event ∷ [] } else m

  abbrev pub service_event : EventType → List ℕ → ℕ → MonitorEvent D
  service_event type service at = record {
    type = type;
    source = some service;
    severity = none;
    occurred_at = at;
    details = none;
  }

  abbrev pub no_data : MonitorData D
  no_data = record { data_part = none; target = none }

  unfoldable pub observe_service : List ℕ → Bool → ℕ → Monitor D → Monitor D
  observe_service service true at m =
      let previous = state (service_key service) m in
      save (service_key service) available none 0 at no_data
        (record_if (has_status unavailable previous) (service_event service_restored service at) m)
  observe_service service false at m =
      let previous = state (service_key service) m in
      let failures = failures_of previous + 1 in
      save (service_key service)
        (if leb 2 failures then unavailable else status_or baseline previous) (some error) failures
        at no_data
        (record_if (leb 2 failures && not (has_status unavailable previous))
          (service_event service_unavailable service at) m)

  abbrev pub is_alarming : Option (MonitorRow D) → Bool
  is_alarming previous =
      has_status (alarming warning) previous || has_status (alarming critical) previous

  unfoldable pub observe_threshold :
      List ℕ → Level → ℕ → D → ThresholdEvents → Monitor D → Monitor D
  observe_threshold key hold at d events m =
      let previous = state key m in
      save key (status_or healthy previous) (severity_of previous) (failures_of previous) at
        (record { data_part = some d; target = none }) m
  observe_threshold key fine at d events m =
      let previous = state key m in
      save key healthy none 0 at (record { data_part = some d; target = none })
        (record_if (is_alarming previous)
          (record {
            type = events.recovered;
            source = none;
            severity = none;
            occurred_at = at;
            details = some d;
          })
          m)
  observe_threshold key (reaches a) at d events m =
      let previous = state key m in
      let failures = if is_target a (target_of previous) then failures_of previous + 1 else 1 in
      save key (if leb 2 failures then alarming a else status_or baseline previous)
        (some (of_alarm a)) failures at (record { data_part = some d; target = some a })
        (record_if (leb 2 failures && not (has_status (alarming a) previous))
          (record {
            type = events.on_alarm a;
            source = none;
            severity = some (of_alarm a);
            occurred_at = at;
            details = some d;
          })
          m)

-- The disk's level; the percentage has two decimals, and is counted in hundredths.
abbrev pub disk_level : ℕ → Level
disk_level percent =
    if leb 9500 percent
    then reaches critical
    else if leb 8500 percent
    then reaches warning
    else if ltb percent 8000
    then fine
    else hold

-- The whole days that a certificate is still valid, rounded down, which may be below zero.
pub data ℤ : Type 0 where
  pos negsuc : ℕ → ℤ

abbrev below : ℤ → ℕ → Bool
below (pos n) k = ltb n k
below (negsuc n) k = true

abbrev pub tls_level : ℤ → Bool → Level
tls_level days true =
    if below days 1 then reaches critical else if below days 3 then reaches warning else fine
tls_level days false =
    if below days 7 then reaches critical else if below days 30 then reaches warning else fine
