-- ===== src/Monitoring/Tests.antt =====
-- Monitoring at concrete inputs. The services are "a" and "b", and a threshold's data is its percentage.
use outpost_vpn_server.Prelude.{
  ℕ, count_where, none, some, List, true, false, [], ◌∷◌, ◌≡◌, refl, map, rows_where, first_where,
  update_where,
}
use outpost_vpn_server.Monitoring.{
  negsuc, service_key, baseline, error, no_data, Alarm, disk_warning, disk_critical, disk_restored,
  service_unavailable, service_restored, MonitorEvent, Monitor, state, upsert, save, service_event,
  observe_service, observe_threshold, disk_level,
}
use outpost_vpn_server.Monitoring.Services.{
  Observation, observe_all, of_service, incidents, observe_all-incidents, events_of,
}
use outpost_vpn_server.Monitoring.Collect.{
  Method, MonitoringSnapshot, Measured, grpc, collect, disk_events, disk_key,
}
use outpost_vpn_server.Monitoring.Verdicts.{unsaid, said, probed, of_expected}
use outpost_vpn_server.Monitoring.Probes.{collect-incidents}
use outpost_vpn_server.Monitoring.Thresholds.{
  Reading, observe_levels, alarms, observe_levels-alarms,
}

abbrev quiet : Monitor ℕ
quiet = record { states = []; log = [] }

abbrev a : List ℕ
a = 97 ∷ []

abbrev b : List ℕ
b = 98 ∷ []

-- The first service fails three times and answers; the second fails once in between.
abbrev seen : List Observation
seen =
    (a, false, 1) ∷ (b, false, 2) ∷ (a, false, 3) ∷ (b, true, 4) ∷ (a, false, 5) ∷ (a, true, 6) ∷ []

observed :
    (observe_all seen quiet).log
    ≡ service_event service_unavailable a 3 ∷ service_event service_restored a 6 ∷ []
unfolding observe_all observe_service state upsert save first_where update_where
observed = refl

observe_all-incidents_example :
    rows_where (of_service a) (observe_all seen quiet).log ≡ incidents a 0 seen
unfolding state first_where rows_where
observe_all-incidents_example = observe_all-incidents a seen quiet 0 (refl, refl)

-- 86 %, 87 %, 82 % (on hold), 96 %, 97 %, 40 %.
abbrev readings : List (Reading ℕ)
readings =
    (disk_level 8600, 1, 8600)
    ∷ (disk_level 8700, 2, 8700)
    ∷ (disk_level 8200, 3, 8200)
    ∷ (disk_level 9600, 4, 9600)
    ∷ (disk_level 9700, 5, 9700)
    ∷ (disk_level 4000, 6, 4000)
    ∷ []

alarmed :
    map (λ (e : MonitorEvent ℕ). e.type) (observe_levels disk_key disk_events readings quiet).log
    ≡ disk_warning ∷ disk_critical ∷ disk_restored ∷ []
unfolding observe_levels observe_threshold state upsert save first_where update_where
alarmed = refl

observe_levels-alarms_example :
    (observe_levels disk_key disk_events readings quiet).log
    ≡ alarms disk_key disk_events none none readings
unfolding state first_where
observe_levels-alarms_example =
    observe_levels-alarms disk_key disk_events readings quiet none none
      (refl, (λ never. cc), (λ (a : Alarm). refl))

-- The first service is expected and fails; Xray carries gRPC only.
abbrev snapshot : MonitoringSnapshot
snapshot = record {
  services = (a, false) ∷ [];
  disk_percent = some 9100;
  tls_days = some (negsuc 0);
  transports = some (false, true);
}

abbrev methods : List Method
methods = record { of_xray = true; protocol = grpc; enabled = true } ∷ []

-- The service has failed once.
abbrev shaken : Monitor Measured
shaken = record {
  states =
      record {
        key = service_key a;
        status = baseline;
        severity = some error;
        failures = 1;
        details = no_data;
        observed_at = 5;
        changed_at = 5;
      }
      ∷ [];
  log = [];
}

collect-incidents_example :
    events_of a (collect (a ∷ []) snapshot [] methods false 7 shaken)
    ≡ service_event service_unavailable a 7 ∷ []
unfolding state first_where rows_where count_where incidents
collect-incidents_example =
    collect-incidents a 1 (a ∷ []) snapshot [] methods false 7 shaken (some false) (refl, refl)
      (of_expected refl (λ e. cc) (λ e. cc) (probed unsaid said))
