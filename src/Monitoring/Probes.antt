-- ===== src/Monitoring/Probes.antt =====
-- The events that one run of `collect` of src/server/services/monitoring.ts writes for a service.
use outpost_vpn_server.Prelude.{
  ℕ, ◌+◌, Option, none, some, List, Bool, true, false, [], ◌∷◌, ◌++◌, ◌||◌, ◌≡◌, ◌≢◌, refl, ap, sym,
  ◌∙◌, arith, not, Bool-cases, inl, inr, count_where, rows_where,
}
use outpost_vpn_server.Geosite.Compile.{text_eq}
use outpost_vpn_server.Geosite.Cover.{text_eq-eq}
use outpost_vpn_server.Monitoring.{Monitor, state, service_key}
use outpost_vpn_server.Monitoring.Services.{Observation, incidents, Counts, events_of}
use outpost_vpn_server.Monitoring.Collect.{
  Services, Method, MonitoringSnapshot, Measured, answers_now, observations, xhttp, grpc,
  vless_service, is_offered, transport_observations, collect, collect-observations,
}
use outpost_vpn_server.Monitoring.Verdicts.{
  Tells, of_expected, of_xhttp, of_grpc, in_setup, not_probed, of_no_one, told, differ,
  answers_now-eq, carried,
}

abbrev about : List ℕ → Observation → Bool
about service o = text_eq o.0 service

incidents-rows_where :
    {D : Type 0} (service : List ℕ) (failed : ℕ) (os : List Observation)
    → incidents {D = D} service failed os ≡ incidents service failed (rows_where (about service) os)
unfolding incidents rows_where
incidents-rows_where service failed [] = refl
incidents-rows_where {D} service failed ((name, true, at) ∷ os) =
    elim (Bool-cases (text_eq name service)) [
      | inl same ↦ rw (same, incidents-rows_where {D = D} service 0 os) (rw same refl)
      | inr other ↦ rw other (incidents-rows_where service failed os)
    ]
incidents-rows_where {D} service failed ((name, false, at) ∷ os) =
    elim (Bool-cases (text_eq name service)) [
      | inl same ↦ rw (same, incidents-rows_where {D = D} service (failed + 1) os) (rw same refl)
      | inr other ↦ rw other (incidents-rows_where service failed os)
    ]

rows_where-append :
    {A : Type 0} (p : A → Bool) (xs ys : List A)
    → rows_where p (xs ++ ys) ≡ rows_where p xs ++ rows_where p ys
unfolding rows_where
rows_where-append p [] ys = refl
rows_where-append p (x ∷ xs) ys = elim (Bool-cases (p x)) [
  | inl hit ↦ rw (hit, rows_where-append p xs ys) refl
  | inr miss ↦ rw (miss, rows_where-append p xs ys) refl
]

rows_where-observations_none :
    (service : List ℕ) (expected : List (List ℕ)) (services : Services) (at : ℕ)
    → count_where (λ name. text_eq name service) expected ≡ 0
    → rows_where (about service) (observations expected services at) ≡ []
unfolding rows_where observations count_where
rows_where-observations_none service [] services at h = refl
rows_where-observations_none service (name ∷ names) services at h =
    elim (Bool-cases (text_eq name service)) [
      | inl same ↦ absurd (omega (arith, rw same at h))
      | inr other ↦
          rw other
            (rows_where-observations_none service names services at (omega (arith, rw other at h)))
    ]

rows_where-observations_one :
    (service : List ℕ) (expected : List (List ℕ)) (services : Services) (at : ℕ)
    → count_where (λ name. text_eq name service) expected ≡ 1
    → rows_where (about service) (observations expected services at)
      ≡ (service, answers_now service services, at) ∷ []
unfolding rows_where observations count_where
rows_where-observations_one service [] services at h = cc
rows_where-observations_one service (name ∷ names) services at h =
    elim (Bool-cases (text_eq name service)) [
      | inl same ↦
          let e : name ≡ service = text_eq-eq name service same in
          let rest : count_where (λ n. text_eq n service) names ≡ 0 = omega (arith, rw same at h) in
          rw (same, rows_where-observations_none service names services at rest, e) refl
      | inr other ↦
          rw other
            (rows_where-observations_one service names services at (omega (arith, rw other at h)))
    ]

apart_from :
    (service name : List ℕ) (b : Bool) (at : ℕ) (os : List Observation)
    → service ≢ name
    → rows_where (about service) ((name, b, at) ∷ os) ≡ rows_where (about service) os
unfolding rows_where
apart_from service name b at os apart = rw (differ name service (λ e. apart (sym e))) refl

-- Neither transport is another service.
transports_silent :
    (service : List ℕ) (transports : Option (Bool × Bool)) (setup : Bool) (methods : List Method)
    (at : ℕ)
    → service ≢ vless_service xhttp
    → service ≢ vless_service grpc
    → rows_where (about service) (transport_observations transports setup methods at) ≡ []
unfolding rows_where
transports_silent service none setup methods at not_xhttp not_grpc = refl
transports_silent service (some t) true methods at not_xhttp not_grpc = refl
transports_silent service (some (by_xhttp, by_grpc)) false methods at not_xhttp not_grpc =
    apart_from service (vless_service xhttp) _ at
      ((vless_service grpc, not (is_offered grpc methods) || by_grpc, at) ∷ []) not_xhttp
    ∙ apart_from service (vless_service grpc) _ at [] not_grpc

observed :
    (expected : List (List ℕ)) (snapshot : MonitoringSnapshot) (overrides : Services)
    (methods : List Method) (setup : Bool) (service : List ℕ) (verdict : Option Bool) (at : ℕ)
    → Tells expected snapshot overrides methods setup service verdict
    → rows_where (about service) (observations expected (overrides ++ snapshot.services) at)
        ++ rows_where (about service) (transport_observations snapshot.transports setup methods at)
      ≡ told service verdict at
unfolding rows_where
observed expected snapshot overrides methods setup service (some b) at
      (of_expected once not_xhttp not_grpc answers) =
    rw
      (
        rows_where-observations_one service expected (overrides ++ snapshot.services) at once,
        transports_silent service snapshot.transports setup methods at not_xhttp not_grpc,
        answers_now-eq service overrides snapshot.services b answers,
      )
      refl
observed expected snapshot overrides methods setup service (some b) at
      (of_xhttp by_xhttp by_grpc unexpected in_use probed_them carries) =
    rw
      (
        rows_where-observations_none (vless_service xhttp) expected (overrides ++ snapshot.services)
            at unexpected,
        in_use,
        probed_them,
        carried xhttp methods by_xhttp b carries,
      )
      refl
observed expected snapshot overrides methods setup service (some b) at
      (of_grpc by_xhttp by_grpc unexpected in_use probed_them carries) =
    rw
      (
        rows_where-observations_none (vless_service grpc) expected (overrides ++ snapshot.services)
            at unexpected,
        in_use,
        probed_them,
        carried grpc methods by_grpc b carries,
      )
      refl
observed expected snapshot overrides methods setup service none at (in_setup unexpected e) =
    rw
      (
        rows_where-observations_none service expected (overrides ++ snapshot.services) at
            unexpected,
        e,
      )
      (no_transports snapshot.transports)
  where
    no_transports :
        (t : Option (Bool × Bool))
        → rows_where (about service) (transport_observations t true methods at) ≡ []
    no_transports none = refl
    no_transports (some t) = refl
observed expected snapshot overrides methods setup service none at (not_probed unexpected e) =
    rw
      (
        rows_where-observations_none service expected (overrides ++ snapshot.services) at
            unexpected,
        e,
      )
      refl
observed expected snapshot overrides methods setup service none at
      (of_no_one unexpected not_xhttp not_grpc) =
    rw
      (
        rows_where-observations_none service expected (overrides ++ snapshot.services) at
            unexpected,
        transports_silent service snapshot.transports setup methods at not_xhttp not_grpc,
      )
      refl

-- One run of `collect` adds to the events of a service what the probe, the overrides and the methods tell
-- of it: nothing, where they tell nothing; otherwise what comes of one more answer, or one more failure,
-- after the failures in a row that its row counts. A service is expected once or not at all, and a
-- transport is no expected service. The disk and the certificate write no event of a service.
pub collect-incidents :
    (service : List ℕ) (failed : ℕ) (expected : List (List ℕ)) (snapshot : MonitoringSnapshot)
    (overrides : Services) (methods : List Method) (setup : Bool) (at : ℕ) (m : Monitor Measured)
    (verdict : Option Bool)
    → Counts (state (service_key service) m) failed
    → Tells expected snapshot overrides methods setup service verdict
    → events_of service (collect expected snapshot overrides methods setup at m)
      ≡ events_of service m ++ incidents service failed (told service verdict at)
collect-incidents service failed expected snapshot overrides methods setup at m verdict counts
      tells =
    let seen : List Observation = observations expected (overrides ++ snapshot.services) at in
    let ways : List Observation = transport_observations snapshot.transports setup methods at in
    collect-observations service failed expected snapshot overrides methods setup at m counts
    ∙ ap (λ es. events_of service m ++ es)
        (incidents-rows_where service failed (seen ++ ways)
          ∙ ap (incidents service failed) (
              rows_where-append (about service) seen ways
              ∙ observed expected snapshot overrides methods setup service verdict at tells))
