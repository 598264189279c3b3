-- ===== src/Monitoring/Verdicts.antt =====
-- What one run of `collect` of src/server/services/monitoring.ts tells of a service, said of the probe, the
-- overrides and the connection methods, and not of the observations that the code makes of them.
use outpost_vpn_server.Prelude.{
  ℕ, Option, none, some, List, Bool, true, false, [], ◌∷◌, ◌++◌, ◌&&◌, ◌||◌, ◌≡◌, ◌≢◌, refl, ap,
  sym, ◌∙◌, arith, not, any, Bool-cases, inl, inr, count_where, All, All-imp,
}
use mathlib.Core.List.{append-nil}
use outpost_vpn_server.Geosite.Compile.{text_eq}
use outpost_vpn_server.Geosite.Cover.{text_eq-eq, text_eq_refl}
use outpost_vpn_server.Monitoring.Services.{Observation}
use outpost_vpn_server.Monitoring.Collect.{
  Services, Method, MonitoringSnapshot, answers_now, xhttp, grpc, vless_service, is_offered,
}

-- What a record of services has under a name.
pub data Says (name : List ℕ) : Services → Option Bool → Type 0 where
  unsaid : Says name [] none
  said : {active : Bool} {rest : Services} → Says name ((name, active) ∷ rest) (some active)
  later :
      {other : List ℕ} {b : Bool} {rest : Services} {value : Option Bool}
      → other ≢ name
      → Says name rest value
      → Says name ((other, b) ∷ rest) value

-- An override stands before the probe; a service that neither has does not answer.
pub data Answers (name : List ℕ) (overrides services : Services) : Bool → Type 0 where
  overridden : {b : Bool} → Says name overrides (some b) → Answers name overrides services b
  probed :
      {b : Bool}
      → Says name overrides none
      → Says name services (some b)
      → Answers name overrides services b
  unknown :
      Says name overrides none → Says name services none → Answers name overrides services false

abbrev pub Offers : List ℕ → Method → Type 0
Offers protocol m = (m.of_xray ≡ true) × (m.protocol ≡ protocol) × (m.enabled ≡ true)

-- Whether a transport carries: as the probe says where a method offers it, and yes where none does.
pub data Carries (protocol : List ℕ) (methods : List Method) (by_probe : Bool) : Bool → Type 0 where
  offered :
      (before after : List Method) (m : Method)
      → methods ≡ before ++ m ∷ after
      → Offers protocol m
      → Carries protocol methods by_probe by_probe
  not_offered : All (λ m. ¬ Offers protocol m) methods → Carries protocol methods by_probe true

-- What one run tells of a service: nothing, or whether it answers. A service is expected once or not at
-- all, and the two transports are no expected services; they are told of outside the setup, where the
-- probe has them.
pub data Tells (expected : List (List ℕ)) (snapshot : MonitoringSnapshot) (overrides : Services)
    (methods : List Method) (setup : Bool) : List ℕ → Option Bool → Type 0 where
  of_expected :
      {service : List ℕ} {b : Bool}
      → count_where (λ name. text_eq name service) expected ≡ 1
      → service ≢ vless_service xhttp
      → service ≢ vless_service grpc
      → Answers service overrides snapshot.services b
      → Tells expected snapshot overrides methods setup service (some b)
  of_xhttp :
      {b : Bool} (by_xhttp by_grpc : Bool)
      → count_where (λ name. text_eq name (vless_service xhttp)) expected ≡ 0
      → setup ≡ false
      → snapshot.transports ≡ some (by_xhttp, by_grpc)
      → Carries xhttp methods by_xhttp b
      → Tells expected snapshot overrides methods setup (vless_service xhttp) (some b)
  of_grpc :
      {b : Bool} (by_xhttp by_grpc : Bool)
      → count_where (λ name. text_eq name (vless_service grpc)) expected ≡ 0
      → setup ≡ false
      → snapshot.transports ≡ some (by_xhttp, by_grpc)
      → Carries grpc methods by_grpc b
      → Tells expected snapshot overrides methods setup (vless_service grpc) (some b)
  in_setup :
      {service : List ℕ}
      → count_where (λ name. text_eq name service) expected ≡ 0
      → setup ≡ true
      → Tells expected snapshot overrides methods setup service none
  not_probed :
      {service : List ℕ}
      → count_where (λ name. text_eq name service) expected ≡ 0
      → snapshot.transports ≡ none
      → Tells expected snapshot overrides methods setup service none
  of_no_one :
      {service : List ℕ}
      → count_where (λ name. text_eq name service) expected ≡ 0
      → service ≢ vless_service xhttp
      → service ≢ vless_service grpc
      → Tells expected snapshot overrides methods setup service none

abbrev pub told : List ℕ → Option Bool → ℕ → List Observation
told service none at = []
told service (some b) at = (service, b, at) ∷ []

pub differ : (xs ys : List ℕ) → xs ≢ ys → text_eq xs ys ≡ false
differ xs ys apart = elim (Bool-cases (text_eq xs ys)) [
  | inl same ↦ absurd (apart (text_eq-eq xs ys same))
  | inr other ↦ other
]

answers_now-said :
    (name : List ℕ) (overrides services : Services) (b : Bool) {value : Option Bool}
    → Says name overrides value
    → value ≡ some b
    → answers_now name (overrides ++ services) ≡ b
unfolding answers_now
answers_now-said name [] services b unsaid e = cc
answers_now-said name ((name', active) ∷ rest) services b said e = rw (text_eq_refl name) cc
answers_now-said name ((other, c) ∷ rest) services b (later apart says) e =
    rw (differ other name apart) (answers_now-said name rest services b says e)

answers_now-unsaid :
    (name : List ℕ) (overrides services : Services) {value : Option Bool}
    → Says name overrides value
    → value ≡ none
    → answers_now name (overrides ++ services) ≡ answers_now name services
unfolding answers_now
answers_now-unsaid name [] services unsaid e = refl
answers_now-unsaid name ((name', active) ∷ rest) services said e = cc
answers_now-unsaid name ((other, c) ∷ rest) services (later apart says) e =
    rw (differ other name apart) (answers_now-unsaid name rest services says e)

any-here :
    (p : Method → Bool) (before after : List Method) (m : Method)
    → p m ≡ true
    → any p (before ++ m ∷ after) ≡ true
any-here p [] after m hit = rw hit refl
any-here p (x ∷ xs) after m hit = rw (any-here p xs after m hit) (ground arith)

any-nowhere : (p : Method → Bool) (ms : List Method) → All (λ m. p m ≡ false) ms → any p ms ≡ false
any-nowhere p [] none_of_them = refl
any-nowhere p (m ∷ ms) (miss, misses) = rw (miss, any-nowhere p ms misses) refl

pub answers_now-eq :
    (name : List ℕ) (overrides services : Services) (b : Bool)
    → Answers name overrides services b
    → answers_now name (overrides ++ services) ≡ b
answers_now-eq name overrides services b (overridden says) =
    answers_now-said name overrides services b says refl
answers_now-eq name overrides services b (probed silent says) =
    answers_now-unsaid name overrides services silent refl
    ∙ ap (answers_now name) (sym (append-nil services))
    ∙ answers_now-said name services [] b says refl
answers_now-eq name overrides services b (unknown silent silent_too) =
    answers_now-unsaid name overrides services silent refl
    ∙ ap (answers_now name) (sym (append-nil services))
    ∙ answers_now-unsaid name services [] silent_too refl
    ∙ unfold answers_now in refl

not_offering :
    (protocol : List ℕ) (m : Method)
    → ¬ Offers protocol m
    → (m.of_xray && text_eq m.protocol protocol && m.enabled) ≡ false
not_offering protocol m never = elim (Bool-cases (text_eq m.protocol protocol)) [
  | inl same ↦ rw same (
      let e : m.protocol ≡ protocol = text_eq-eq m.protocol protocol same in
      elim (Bool-cases m.of_xray) [
        | inl xray ↦ elim (Bool-cases m.enabled) [
          | inl on ↦ absurd (never (xray, e, on))
          | inr off ↦ rw (xray, off) refl
        ]
        | inr other ↦ rw other refl
      ])
  | inr apart ↦ rw apart (ground arith)
]

pub carried :
    (protocol : List ℕ) (methods : List Method) (by_probe b : Bool)
    → Carries protocol methods by_probe b
    → (not (is_offered protocol methods) || by_probe) ≡ b
carried protocol methods by_probe b (offered before after m e (xray, named, on)) =
    rw
      (
        e,
        any-here (λ (m : Method). m.of_xray && text_eq m.protocol protocol && m.enabled) before
            after m (rw (xray, named, text_eq_refl protocol, on) refl),
      )
      refl
carried protocol methods by_probe b (not_offered never) =
    rw
      (any-nowhere (λ (m : Method). m.of_xray && text_eq m.protocol protocol && m.enabled) methods
        (All-imp (λ m. ¬ Offers protocol m)
          (λ m. (m.of_xray && text_eq m.protocol protocol && m.enabled) ≡ false)
          (not_offering protocol) methods never))
      refl
