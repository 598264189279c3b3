-- ===== src/Monitoring/Thresholds.antt =====
-- When `observeThreshold` of src/server/services/monitoring.ts writes an event.
use mathlib.Core.List.{append-nil, append_assoc}
use outpost_vpn_server.Prelude.{
  ℕ, ◌+◌, ◌≤◌, Option, none, some, List, Bool, true, false, [], ◌∷◌, ◌++◌, ◌&&◌, ◌||◌, ◌≡◌, refl,
  arith, ap, sym, ◌∙◌, not, leb, if◌then◌else◌, is_some, Bool-cases, inl, inr,
}
use outpost_vpn_server.Monitoring.{
  Alarm, warning, critical, Status, healthy, baseline, alarming, Severity, of_alarm, Level, fine,
  hold, reaches, ThresholdEvents, MonitorData, MonitorRow, MonitorEvent, Monitor, state, save,
  same_alarm, same_status, has_status, failures_of, status_or, target_of, is_target, is_alarming,
  record_if, observe_threshold,
}
use outpost_vpn_server.Monitoring.Rows.{first_where-upsert}

-- One observation: the level, when, and what the event is to carry.
abbrev pub Reading : Type 0 → Type 0
Reading D = Level × ℕ × D

counted : (b : Bool) (n : ℕ) → 1 ≤ (if b then n + 1 else 1)
counted true n = omega arith
counted false n = omega arith

module _ {D : Type 0} (key : List ℕ) (events : ThresholdEvents) where
  unfoldable pub observe_levels : List (Reading D) → Monitor D → Monitor D
  observe_levels [] m = m
  observe_levels ((level, at, d) ∷ rs) m =
      observe_levels rs (observe_threshold key level at d events m)

  abbrev recovered_event : ℕ → D → MonitorEvent D
  recovered_event at d = record {
    type = events.recovered;
    source = none;
    severity = none;
    occurred_at = at;
    details = some d;
  }

  abbrev alarm_event : Alarm → ℕ → D → MonitorEvent D
  alarm_event a at d = record {
    type = events.on_alarm a;
    source = none;
    severity = some (of_alarm a);
    occurred_at = at;
    details = some d;
  }

  abbrev only_if : Bool → MonitorEvent D → List (MonitorEvent D)
  only_if due e = if due then e ∷ [] else []

  -- The events, told from the level that the last reading reached and the alarm that is on: an alarm when
  -- a level is reached twice in a row and is not on already, and a recovery when an alarm is on.
  unfoldable pub alarms : Option Alarm → Option Alarm → List (Reading D) → List (MonitorEvent D)
  alarms last on [] = []
  alarms last on ((hold, at, d) ∷ rs) = alarms none on rs
  alarms last on ((fine, at, d) ∷ rs) =
      only_if (is_some on) (recovered_event at d) ++ alarms none none rs
  alarms last on ((reaches a, at, d) ∷ rs) =
      only_if (is_target a last && not (is_target a on)) (alarm_event a at d)
      ++ alarms (some a) (if is_target a last then some a else on) rs

  abbrev IsLinked : Option (MonitorRow D) → Option Alarm → Option Alarm → Type 0
  IsLinked row last on =
      (target_of row ≡ last)
      × (is_some last ≡ true → 1 ≤ failures_of row)
      × ((a : Alarm) → has_status (alarming a) row ≡ is_target a on)

  state-save :
      (status : Status) (severity : Option Severity) (failures at : ℕ) (details : MonitorData D)
      (m : Monitor D) (last on : Option Alarm)
      → details.target ≡ last
      → (is_some last ≡ true → 1 ≤ failures)
      → ((a : Alarm) → same_status status (alarming a) ≡ is_target a on)
      → IsLinked (state key (save key status severity failures at details m)) last on
  unfolding state save
  state-save status severity failures at details m last on target count alarm =
      rw (first_where-upsert _ m.states) (target, count, alarm)

  log-record_if :
      (due : Bool) (e : MonitorEvent D) (m : Monitor D)
      → (record_if due e m).log ≡ m.log ++ only_if due e
  log-record_if true e m = refl
  log-record_if false e m = sym (append-nil m.log)

  held :
      (row : Option (MonitorRow D)) (a : Alarm)
      → same_status (status_or healthy row) (alarming a) ≡ has_status (alarming a) row
  held none a = refl
  held (some r) a = refl

  begun :
      (row : Option (MonitorRow D)) (a : Alarm)
      → same_status (status_or baseline row) (alarming a) ≡ has_status (alarming a) row
  begun none a = refl
  begun (some r) a = refl

  is_alarming-is_some :
      (row : Option (MonitorRow D)) (on : Option Alarm)
      → ((a : Alarm) → has_status (alarming a) row ≡ is_target a on)
      → is_alarming row ≡ is_some on
  is_alarming-is_some row on alarm = rw (alarm warning, alarm critical) (either_alarm on)
    where
      either_alarm :
          (on : Option Alarm) → (is_target warning on || is_target critical on) ≡ is_some on
      either_alarm none = refl
      either_alarm (some warning) = refl
      either_alarm (some critical) = refl

  twice :
      (row : Option (MonitorRow D)) (last on : Option Alarm) (a : Alarm)
      → IsLinked row last on
      → leb 2 (if is_target a (target_of row) then failures_of row + 1 else 1) ≡ is_target a last
  twice row none on a (target, count, alarm) = rw target refl
  twice row (some b) on a (target, count, alarm) =
      let many : 1 ≤ failures_of row = count refl in
      elim (Bool-cases (same_alarm b a)) [
        | inl same ↦ rw (target, same) (ground arith)
        | inr other ↦ rw (target, other) refl
      ]

  alarm_after :
      (row : Option (MonitorRow D)) (last on : Option Alarm) (a b : Alarm)
      → IsLinked row last on
      → same_status
          (if leb 2 (if is_target a (target_of row) then failures_of row + 1 else 1)
            then alarming a
            else status_or baseline row)
          (alarming b)
        ≡ is_target b (if is_target a last then some a else on)
  alarm_after row last on a b linked = elim (Bool-cases (is_target a last)) [
    | inl again ↦ rw (twice row last on a linked, again) refl
    | inr first ↦ rw (twice row last on a linked, first) (begun row b ∙ linked.2 b)
  ]

  extended :
      {xs ys : List (MonitorEvent D)} (a b c : List (MonitorEvent D))
      → xs ≡ ys ++ c
      → ys ≡ a ++ b
      → xs ≡ a ++ (b ++ c)
  extended a b c e f = e ∙ ap (λ es. es ++ c) f ∙ append_assoc a b c

  -- The row is linked to a last level and an alarm that is on if it has that level as its target, with a
  -- failure counted, and the alarm as its status. From there the events of any readings of a key are an
  -- alarm whenever a level is reached for the second time in a row (readings on hold break the row) and
  -- that alarm is not on, and a recovery at the first reading that is fine after an alarm.
  pub observe_levels-alarms :
      (rs : List (Reading D)) (m : Monitor D) (last on : Option Alarm)
      → IsLinked (state key m) last on
      → (observe_levels rs m).log ≡ m.log ++ alarms last on rs
  unfolding observe_levels alarms observe_threshold save
  observe_levels-alarms [] m last on linked = sym (append-nil m.log)
  observe_levels-alarms ((hold, at, d) ∷ rs) m last on (target, count, alarm) =
      let next : Monitor D = observe_threshold key hold at d events m in
      observe_levels-alarms rs next none on
        (state-save _ _ _ at _ m none on refl (λ never. cc) (λ a. held (state key m) a ∙ alarm a))
  observe_levels-alarms ((fine, at, d) ∷ rs) m last on (target, count, alarm) =
      let next : Monitor D = observe_threshold key fine at d events m in
      let due : Bool = is_alarming (state key m) in
      extended m.log (only_if (is_some on) (recovered_event at d)) (alarms none none rs)
        (observe_levels-alarms rs next none none (
          state-save healthy none 0 at _ (record_if due (recovered_event at d) m) none none refl
            (λ never. cc) (λ a. refl)))
        (rw (← is_alarming-is_some (state key m) on alarm)
          (log-record_if due (recovered_event at d) m))
  observe_levels-alarms ((reaches a, at, d) ∷ rs) m last on linked =
      let next : Monitor D = observe_threshold key (reaches a) at d events m in
      let row : Option (MonitorRow D) = state key m in
      let failures : ℕ = if is_target a (target_of row) then failures_of row + 1 else 1 in
      let due : Bool = leb 2 failures && not (has_status (alarming a) row) in
      extended m.log (only_if (is_target a last && not (is_target a on)) (alarm_event a at d))
        (alarms (some a) (if is_target a last then some a else on) rs)
        (observe_levels-alarms rs next (some a) (if is_target a last then some a else on) (
          state-save _ (some (of_alarm a)) failures at _ (record_if due (alarm_event a at d) m)
            (some a) _ refl (λ yes. counted (is_target a (target_of row)) (failures_of row))
            (λ b. alarm_after row last on a b linked)))
        (rw (← twice row last on a linked, ← linked.2 a) (log-record_if due (alarm_event a at d) m))
