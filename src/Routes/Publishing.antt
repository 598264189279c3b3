-- ===== src/Routes/Publishing.antt =====
-- What is in force after `publish` and `rollback` of src/server/services/routes.ts, and when they succeed.
use outpost_vpn_server.Prelude.{
  ℕ, ◌+◌, ◌≤◌, Option, none, some, List, Bool, true, false, [], ◌∷◌, ◌==◌, ◌||◌, ◌≡◌, refl, arith,
  ltb, any, first_where, ==_refl, first_where-append, first_where-append_some,
}
use outpost_vpn_server.Db.{service, ok}
use outpost_vpn_server.Db.Laws.{value-Holds, or_throw-eq-ok}
use outpost_vpn_server.Auth.{insert_row}
use outpost_vpn_server.Routes.{RouteRule, RouteRevision, RouteDb, draft, revision, published}
use outpost_vpn_server.Routes.Values.{TextTools, validate_all}
use outpost_vpn_server.Routes.Revisions.{
  RulesetCatalog, is_empty_rules, last_version, rules_or, publish, rollback,
}
use outpost_vpn_server.Routes.History.{
  Distinct, Published, publish-Published, last_version-new, assert_unique_lem,
}

le_itself : (n : ℕ) → n ≤ n
le_itself n = omega arith

module _ (tools : TextTools) (rules : List RouteRule) (db d : RouteDb)
    (p : Published tools rules db d) where
  revision-latest : revision d.active_version d ≡ ok p.latest
  unfolding revision
  revision-latest =
      rw
        (
          p.appended,
          p.in_force,
          first_where-append (λ r. r.version == last_version db.revisions + 1) p.latest db.revisions
              (rw p.numbered (==_refl (last_version db.revisions + 1)))
              (last_version-new db.revisions (last_version db.revisions)
                (le_itself (last_version db.revisions))),
        )
        refl

  rules_in_force : published d ≡ ok rules
  unfolding published
  rules_in_force =
      let positive : ltb 0 d.active_version ≡ true = rw p.in_force (ground arith) in
      rw (positive, revision-latest, p.has_rules) refl

  older : (version : ℕ) (r : RouteRevision) → revision version db ≡ ok r → revision version d ≡ ok r
  unfolding revision
  older version r e =
      rw
        (
          p.appended,
          first_where-append_some (λ x. x.version == version) p.latest db.revisions
              (or_throw-eq-ok (first_where (λ x. x.version == version) db.revisions) (service 404)
                e),
        )
        refl

any_or :
    {A : Type 0} (p q : A → Bool) (xs : List A)
    → any p xs ≡ false
    → any q xs ≡ false
    → any (λ x. p x || q x) xs ≡ false
any_or p q [] h k = refl
any_or p q (x ∷ xs) h k = ground (arith, any_or p q xs)

module _ (tools : TextTools) (catalog : RulesetCatalog) (note actor : List ℕ) (id : ℕ)
    (fresh : ℕ → ℕ) (now : ℕ) where
  -- After a publication the rules in force are those of the draft, or those that replace it; no two of
  -- them have one identity, there is at least one, and every revision that could be read still reads the
  -- same.
  pub published-publish :
      (rolls_back : Bool) (replacement : Option (List RouteRule)) (db d : RouteDb)
      → publish tools catalog note actor id fresh now rolls_back replacement db ≡ ok d
      → (published d ≡ ok (rules_or replacement (draft db)))
        × Distinct tools (rules_or replacement (draft db))
        × (is_empty_rules (rules_or replacement (draft db)) ≡ false)
        × ((version : ℕ) (r : RouteRevision)
            → revision version db ≡ ok r
            → revision version d ≡ ok r)
  published-publish rolls_back replacement db d e =
      let p =
        value-Holds
          (publish-Published tools catalog note actor id fresh now rolls_back replacement db) e in
      (
        rules_in_force tools (rules_or replacement (draft db)) db d p,
        p.distinct,
        p.filled,
        older tools (rules_or replacement (draft db)) db d p,
      )

  -- A draft is published if it has a rule, its values are valid, no two rules have one identity, the
  -- catalogue accepts it and the id of the revision is new.
  pub publish_total :
      (rolls_back : Bool) (db : RouteDb)
      → is_empty_rules (draft db) ≡ false
      → validate_all tools (draft db) ≡ ok tt
      → Distinct tools (draft db)
      → catalog.accepts (draft db) ≡ true
      → any (λ r. r.id == id) db.revisions ≡ false
      → (d : RouteDb) × (publish tools catalog note actor id fresh now rolls_back none db ≡ ok d)
  unfolding publish insert_row
  publish_total rolls_back db filled valid distinct accepted new =
      let free : any (λ r. r.id == id || r.version == last_version db.revisions + 1) db.revisions
          ≡ false =
        any_or (λ r. r.id == id) (λ r. r.version == last_version db.revisions + 1) db.revisions new
          (last_version-new db.revisions (last_version db.revisions)
            (le_itself (last_version db.revisions))) in
      rw (filled, valid, (assert_unique_lem tools (draft db)).1 distinct, accepted, free) (_, refl)

  -- A rollback brings the rules of an earlier revision back in force, and does not change that revision.
  pub published-rollback :
      (version : ℕ) (db d : RouteDb) (target : RouteRevision)
      → revision version db ≡ ok target
      → rollback tools catalog note actor id fresh now version db ≡ ok d
      → (published d ≡ ok target.rules) × (revision version d ≡ ok target)
  unfolding rollback
  published-rollback version db d target found e =
      let p =
        value-Holds
          (publish-Published tools catalog note actor id fresh now true (some target.rules) db)
          (rw found at e) in
      (
        rules_in_force tools target.rules db d p,
        older tools target.rules db d p version target found,
      )
