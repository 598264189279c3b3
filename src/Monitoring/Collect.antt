-- ===== src/Monitoring/Collect.antt =====
-- `collect` and `refreshServices` of src/server/services/monitoring.ts, as far as they observe: what a probe
-- answers, and the observations that come of it. (The setting `monitor_snapshot` is not modelled.)
use outpost_vpn_server.Prelude.{
  ℕ, Option, none, some, List, Bool, true, false, [], ◌∷◌, ◌++◌, ◌&&◌, ◌||◌, ◌≡◌, refl, ap, ◌∙◌,
  not, any, map, if◌then◌else◌,
}
use outpost_vpn_server.Geosite.Compile.{text_eq}
use outpost_vpn_server.Monitoring.{
  ℤ, Alarm, warning, critical, Level, fine, hold, reaches, EventType, disk_warning, disk_critical,
  disk_restored, tls_warning, tls_critical, tls_restored, ThresholdEvents, Monitor, state, save,
  service_key, observe_service, observe_threshold, disk_level, tls_level,
}
use outpost_vpn_server.Monitoring.Services.{
  Observation, observe_all, of_service, incidents, Counts, unrecorded, events_of,
  observe_all-incidents,
}

-- `config.demo` has overrides of the services; a service is a name and whether it is active.
abbrev pub Services : Type 0
Services = List (List ℕ × Bool)

abbrev Transports : Type 0
Transports = Bool × Bool

-- A connection method: whether it is of Xray, its protocol, and whether it is enabled.
pub record Method : Type 0 where
  pub of_xray : Bool
  pub protocol : List ℕ
  pub enabled : Bool

pub record MonitoringSnapshot : Type 0 where
  pub services : Services
  pub disk_percent : Option ℕ
  pub tls_days : Option ℤ
  pub transports : Option Transports

-- `services[name] ?? false`
unfoldable pub answers_now : List ℕ → Services → Bool
answers_now name [] = false
answers_now name ((service, active) ∷ rest) =
    let later = answers_now name rest in if text_eq service name then active else later

unfoldable pub observations : List (List ℕ) → Services → ℕ → List Observation
observations expected services at = map (λ name. (name, answers_now name services, at)) expected

-- "xhttp", "grpc" and "vless-"
abbrev pub xhttp : List ℕ
xhttp = 120 ∷ 104 ∷ 116 ∷ 116 ∷ 112 ∷ []

abbrev pub grpc : List ℕ
grpc = 103 ∷ 114 ∷ 112 ∷ 99 ∷ []

abbrev pub vless_service : List ℕ → List ℕ
vless_service protocol = 118 ∷ 108 ∷ 101 ∷ 115 ∷ 115 ∷ 45 ∷ protocol

abbrev pub is_offered : List ℕ → List Method → Bool
is_offered protocol methods =
    any (λ (m : Method). m.of_xray && text_eq m.protocol protocol && m.enabled) methods

-- A transport that no method offers counts as answering.
abbrev pub transport_observations : Option Transports → Bool → List Method → ℕ → List Observation
transport_observations none setup methods at = []
transport_observations (some t) true methods at = []
transport_observations (some (by_xhttp, by_grpc)) false methods at =
    (vless_service xhttp, not (is_offered xhttp methods) || by_xhttp, at)
    ∷ (vless_service grpc, not (is_offered grpc methods) || by_grpc, at)
    ∷ []

-- "system:disk" and "system:tls"
abbrev pub disk_key : List ℕ
disk_key = 115 ∷ 121 ∷ 115 ∷ 116 ∷ 101 ∷ 109 ∷ 58 ∷ 100 ∷ 105 ∷ 115 ∷ 107 ∷ []

abbrev pub tls_key : List ℕ
tls_key = 115 ∷ 121 ∷ 115 ∷ 116 ∷ 101 ∷ 109 ∷ 58 ∷ 116 ∷ 108 ∷ 115 ∷ []

abbrev on_disk : Alarm → EventType
on_disk warning = disk_warning
on_disk critical = disk_critical

abbrev pub disk_events : ThresholdEvents
disk_events = record { on_alarm = on_disk; recovered = disk_restored }

abbrev on_tls : Alarm → EventType
on_tls warning = tls_warning
on_tls critical = tls_critical

abbrev pub tls_events : ThresholdEvents
tls_events = record { on_alarm = on_tls; recovered = tls_restored }

-- `{ percent }` and `{ days }`
pub data Measured : Type 0 where
  percent : ℕ → Measured
  days : ℤ → Measured

abbrev pub observe_disk : Option ℕ → ℕ → Monitor Measured → Monitor Measured
observe_disk none at m = m
observe_disk (some p) at m = observe_threshold disk_key (disk_level p) at (percent p) disk_events m

abbrev pub observe_tls : Option ℤ → Bool → ℕ → Monitor Measured → Monitor Measured
observe_tls none setup at m = m
observe_tls (some d) setup at m =
    observe_threshold tls_key (tls_level d setup) at (days d) tls_events m

-- `expected` is what `expectedServices` lists.
unfoldable pub collect :
    List (List ℕ)
    → MonitoringSnapshot
    → Services
    → List Method
    → Bool
    → ℕ
    → Monitor Measured
    → Monitor Measured
collect expected snapshot overrides methods setup at m = observe_tls snapshot.tls_days setup at (
    observe_disk snapshot.disk_percent at (
      observe_all (transport_observations snapshot.transports setup methods at)
        (observe_all (observations expected (overrides ++ snapshot.services) at) m)))

unfoldable pub refresh_services :
    List (List ℕ) → Services → Services → ℕ → Monitor Measured → Monitor Measured
refresh_services expected probed overrides at m =
    observe_all (observations expected (overrides ++ probed) at) m

threshold_silent :
    (service key : List ℕ) (level : Level) (at : ℕ) (d : Measured) (events : ThresholdEvents)
    (m : Monitor Measured)
    → events_of service (observe_threshold key level at d events m) ≡ events_of service m
unfolding observe_threshold save
threshold_silent service key hold at d events m = refl
threshold_silent service key fine at d events m = unrecorded (of_service service) _ _ m refl
threshold_silent service key (reaches a) at d events m = unrecorded (of_service service) _ _ m refl

disk_silent :
    (service : List ℕ) (p : Option ℕ) (at : ℕ) (m : Monitor Measured)
    → events_of service (observe_disk p at m) ≡ events_of service m
disk_silent service none at m = refl
disk_silent service (some p) at m =
    threshold_silent service disk_key (disk_level p) at _ disk_events m

tls_silent :
    (service : List ℕ) (d : Option ℤ) (setup : Bool) (at : ℕ) (m : Monitor Measured)
    → events_of service (observe_tls d setup at m) ≡ events_of service m
tls_silent service none setup at m = refl
tls_silent service (some d) setup at m =
    threshold_silent service tls_key (tls_level d setup) at _ tls_events m

observe_all-append :
    (os ps : List Observation) (m : Monitor Measured)
    → observe_all ps (observe_all os m) ≡ observe_all (os ++ ps) m
unfolding observe_all
observe_all-append [] ps m = refl
observe_all-append ((service, answers, at) ∷ os) ps m =
    observe_all-append os ps (observe_service service answers at m)

-- The events of a service come of the observations of a probe, not of the disk or the certificate.
pub collect-observations :
    (service : List ℕ) (failed : ℕ) (expected : List (List ℕ)) (snapshot : MonitoringSnapshot)
    (overrides : Services) (methods : List Method) (setup : Bool) (at : ℕ) (m : Monitor Measured)
    → Counts (state (service_key service) m) failed
    → events_of service (collect expected snapshot overrides methods setup at m)
      ≡ events_of service m
        ++ incidents service failed (
            observations expected (overrides ++ snapshot.services) at
            ++ transport_observations snapshot.transports setup methods at)
unfolding collect
collect-observations service failed expected snapshot overrides methods setup at m counts =
    let seen : List Observation = observations expected (overrides ++ snapshot.services) at in
    let carried : List Observation = transport_observations snapshot.transports setup methods at in
    tls_silent service snapshot.tls_days setup at
      (observe_disk snapshot.disk_percent at (observe_all carried (observe_all seen m)))
    ∙ disk_silent service snapshot.disk_percent at (observe_all carried (observe_all seen m))
    ∙ ap (events_of service) (observe_all-append seen carried m)
    ∙ observe_all-incidents service (seen ++ carried) m failed counts
