-- ===== src/Routes/History.antt =====
-- What publishing, rolling back and discarding keep of the history of revisions, in
-- src/server/services/routes.ts.
use outpost_vpn_server.Prelude.{
  ℕ, ◌+◌, ◌≤◌, Option, none, some, List, Bool, true, false, [], ◌∷◌, ◌++◌, ◌==◌, ◌||◌, ◌≡◌, ◌↔◌,
  refl, ap, ◌∙◌, arith, not, any, All,
}
use outpost_vpn_server.Db.{service, Result, ok, guard}
use outpost_vpn_server.Db.Laws.{Holds, returned, threw, bind-Holds, bind_any-Holds, value-Holds}
use outpost_vpn_server.Auth.Refinement.{insert_row-Holds, guard-Holds}
use outpost_vpn_server.Routes.{RouteRule, RouteRevision, RouteDb, draft}
use outpost_vpn_server.Routes.Values.{TextTools, assert_unique, validate_all, same_identity}
use outpost_vpn_server.Routes.Revisions.{
  RulesetCatalog, is_empty_rules, last_version, write_draft, write_rows, replace_draft, rules_or,
  new_revision, publish,
}

pub last_version-new :
    (rs : List RouteRevision) (n : ℕ)
    → last_version rs ≤ n
    → any (λ r. r.version == n + 1) rs ≡ false
unfolding last_version
last_version-new [] n h = refl
last_version-new (r ∷ rs) n h = ground (arith, last_version-new rs n)

negated : (b : Bool) → not b ≡ true → b ≡ false
negated true h = cc
negated false h = refl

module _ (tools : TextTools) where
  -- No two rules have one identity.
  abbrev pub Distinct : List RouteRule → Type 0
  Distinct [] = Unit
  Distinct (r ∷ rs) = All (λ later. same_identity tools r later ≡ false) rs × Distinct rs

  -- None has an identity that was seen.
  abbrev Unseen : List RouteRule → List RouteRule → Type 0
  Unseen seen rs = All (λ r. any (λ s. same_identity tools s r) seen ≡ false) rs

  map-Holds :
      {A : Type 0} {P Q : A → Type 0} {m : Result A} → ((a : A) → P a → Q a) → Holds P m → Holds Q m
  map-Holds f (returned {a = a} p) = returned (f a p)
  map-Holds f threw = threw

  split_seen :
      (r : RouteRule) (seen rs : List RouteRule)
      → Unseen (r ∷ seen) rs
      → Unseen seen rs × All (λ later. same_identity tools r later ≡ false) rs
  split_seen r seen [] h = (tt, tt)
  split_seen r seen (x ∷ rs) (here, h) =
      let (fresh, apart) = split_seen r seen rs h in
      let (new, other) =
        halves (same_identity tools r x) (any (λ s. same_identity tools s x) seen) here in
      ((other, fresh), (new, apart))
    where
      halves : (a b : Bool) → (a || b) ≡ false → (a ≡ false) × (b ≡ false)
      halves true b h = cc
      halves false b h = (refl, h)

  join_seen :
      (r : RouteRule) (seen rs : List RouteRule)
      → Unseen seen rs
      → All (λ later. same_identity tools r later ≡ false) rs
      → Unseen (r ∷ seen) rs
  join_seen r seen [] fresh apart = tt
  join_seen r seen (x ∷ rs) (other, fresh) (new, apart) =
      (rw (new, other) refl, join_seen r seen rs fresh apart)

  assert_unique-Distinct :
      (seen rs : List RouteRule)
      → Holds (λ _. Unseen seen rs × Distinct rs) (assert_unique tools seen rs)
  unfolding assert_unique
  assert_unique-Distinct seen [] = returned (tt, tt)
  assert_unique-Distinct seen (r ∷ rs) =
      bind-Holds (guard-Holds (not (any (λ s. same_identity tools s r) seen)) (service 409))
        λ _ new.
          map-Holds
            (λ _ h.
              let (fresh, apart) = split_seen r seen rs h.0 in
              ((negated _ new, fresh), (apart, h.1)))
            (assert_unique-Distinct (r ∷ seen) rs)

  accepted :
      (seen rs : List RouteRule)
      → Unseen seen rs
      → Distinct rs
      → assert_unique tools seen rs ≡ ok tt
  unfolding assert_unique
  accepted seen [] fresh distinct = refl
  accepted seen (r ∷ rs) (new, fresh) (apart, distinct) =
      rw new (accepted (r ∷ seen) rs (join_seen r seen rs fresh apart) distinct)

  -- assertUnique accepts exactly the lists in which no two rules have one identity.
  pub assert_unique_lem : (rs : List RouteRule) → (assert_unique tools [] rs ≡ ok tt) ↔ Distinct rs
  assert_unique_lem rs = (
    (λ e. (value-Holds (assert_unique-Distinct [] rs) e).1),
    (λ distinct. accepted [] rs (unseen rs) distinct),
  )
    where
      unseen : (rs : List RouteRule) → Unseen [] rs
      unseen [] = tt
      unseen (r ∷ rs) = (refl, unseen rs)

  -- A new revision of the rules stands after the others and is in force.
  pub record Published (rules : List RouteRule) (db d : RouteDb) : Type 0 where
    pub latest : RouteRevision
    pub appended : d.revisions ≡ db.revisions ++ latest ∷ []
    pub has_rules : latest.rules ≡ rules
    pub numbered : latest.version ≡ last_version db.revisions + 1
    pub in_force : d.active_version ≡ last_version db.revisions + 1
    pub distinct : Distinct rules
    pub filled : is_empty_rules rules ≡ false

  write_draft-revisions :
      (fresh : ℕ → ℕ) (preserve : Bool) (now : ℕ) (rules : List RouteRule) (db : RouteDb)
      → Holds (λ d. d.revisions ≡ db.revisions) (write_draft fresh preserve now rules db)
  unfolding write_draft
  write_draft-revisions fresh preserve now rules db =
      bind_any-Holds (write_rows fresh preserve now 0 rules []) λ rows. returned refl

  replace_draft-revisions :
      (fresh : ℕ → ℕ) (now : ℕ) (replacement : Option (List RouteRule)) (db : RouteDb)
      → Holds (λ d. d.revisions ≡ db.revisions) (replace_draft fresh now replacement db)
  replace_draft-revisions fresh now none db = returned refl
  replace_draft-revisions fresh now (some rules) db = write_draft-revisions fresh false now rules db

  pub publish-Published :
      (catalog : RulesetCatalog) (note actor : List ℕ) (id : ℕ) (fresh : ℕ → ℕ) (now : ℕ)
      (rolls_back : Bool) (replacement : Option (List RouteRule)) (db : RouteDb)
      → Holds
          (Published (rules_or replacement (draft db)) db)
          (publish tools catalog note actor id fresh now rolls_back replacement db)
  unfolding publish
  publish-Published catalog note actor id fresh now rolls_back replacement db =
      let rules : List RouteRule = rules_or replacement (draft db) in
      let latest : RouteRevision =
        new_revision catalog note actor id now (last_version db.revisions + 1) rules in
      bind-Holds (guard-Holds (not (is_empty_rules rules)) (service 409)) λ _ filled.
        bind_any-Holds (validate_all tools rules) λ _.
          bind-Holds (assert_unique-Distinct [] rules) λ _ distinct.
            bind_any-Holds (guard (catalog.accepts rules) (service 409)) λ _.
              bind-Holds (replace_draft-revisions fresh now replacement db) λ replaced same.
                bind-Holds (insert_row-Holds _ _ replaced.revisions) λ rows e. returned (record {
                  latest = latest;
                  appended = e.1 ∙ ap (λ rs. rs ++ latest ∷ []) same;
                  has_rules = refl;
                  numbered = refl;
                  in_force = refl;
                  distinct = distinct.1;
                  filled = negated (is_empty_rules rules) filled;
                })
