-- ===== src/Routes/Identities.antt =====
-- The identities of the draft's rules under `add`, `remove`, `reorder` and `updateLocal` of
-- src/server/services/routes.ts.
use outpost_vpn_server.Prelude.{
  ℕ, ◌+◌, ◌≤◌, Option, none, some, List, Bool, true, false, [], ◌∷◌, ◌++◌, ◌==◌, ◌&&◌, ◌≡◌, refl,
  ◌∙◌, arith, or_else, not, any, Bool-cases, inl, inr, delete_where, count_where, first_where,
  count_where-append, count_where-update, count_where-delete, count_where-none, count_where_mono,
  All-always, and_true, length, contains, rows_where,
}
use outpost_vpn_server.Db.{service, guard, or_throw}
use outpost_vpn_server.Db.Laws.{Holds, returned, threw, bind-Holds, bind_any-Holds, if-Holds}
use outpost_vpn_server.Auth.Refinement.{insert_row-Holds, guard-Holds}
use outpost_vpn_server.Geosite.Compile.{text_eq}
use outpost_vpn_server.Geosite.Cover.{text_eq-eq}
use outpost_vpn_server.Routes.{
  RouteAction, RouteMatcher, domain_rule, suffix_rule, ip_cidr, geosite, geoip, RouteRule, RouteDb,
  draft, same_matcher, by_position,
}
use outpost_vpn_server.Routes.Values.{TextTools, same_identity, normalize_value, validate_value}
use outpost_vpn_server.Routes.Editing.{
  place, shift_rows, place_all, new_rule, add, reindex, remove, reorder, update_local, is_local,
  is_terminal, ids_of, catch_all_last, starts_with, locals_of, local_networks,
}

same_matcher-eq : (a b : RouteMatcher) → same_matcher a b ≡ true → a ≡ b
same_matcher-eq domain_rule domain_rule h = refl
same_matcher-eq suffix_rule suffix_rule h = refl
same_matcher-eq ip_cidr ip_cidr h = refl
same_matcher-eq geosite geosite h = refl
same_matcher-eq geoip geoip h = refl
same_matcher-eq domain_rule suffix_rule h = cc
same_matcher-eq domain_rule ip_cidr h = cc
same_matcher-eq domain_rule geosite h = cc
same_matcher-eq domain_rule geoip h = cc
same_matcher-eq suffix_rule domain_rule h = cc
same_matcher-eq suffix_rule ip_cidr h = cc
same_matcher-eq suffix_rule geosite h = cc
same_matcher-eq suffix_rule geoip h = cc
same_matcher-eq ip_cidr domain_rule h = cc
same_matcher-eq ip_cidr suffix_rule h = cc
same_matcher-eq ip_cidr geosite h = cc
same_matcher-eq ip_cidr geoip h = cc
same_matcher-eq geosite domain_rule h = cc
same_matcher-eq geosite suffix_rule h = cc
same_matcher-eq geosite ip_cidr h = cc
same_matcher-eq geosite geoip h = cc
same_matcher-eq geoip domain_rule h = cc
same_matcher-eq geoip suffix_rule h = cc
same_matcher-eq geoip ip_cidr h = cc
same_matcher-eq geoip geosite h = cc

negated : (b : Bool) → not b ≡ true → b ≡ false
negated true h = cc
negated false h = refl

module _ (tools : TextTools) where
  -- No identity has two rules.
  abbrev pub KeepsApart : List RouteRule → Type 0
  KeepsApart rows = (q : RouteRule) → count_where (same_identity tools q) rows ≤ 1

  -- No identity has more rules than before.
  abbrev NoMore : List RouteRule → List RouteRule → Type 0
  NoMore before rows =
      (q : RouteRule)
      → count_where (same_identity tools q) rows ≤ count_where (same_identity tools q) before

  place-NoMore :
      (id position : ℕ) (at : Option ℕ) (before rows : List RouteRule)
      → NoMore before rows
      → Holds (NoMore before) (place id position at rows)
  unfolding place
  place-NoMore id position at before rows h =
      if-Holds
        (any (λ r. r.id == id) rows && any (λ r. not (r.id == id) && r.position == position) rows)
        threw
        (returned (λ q. omega (
          arith,
          h q,
          count_where-update (same_identity tools q) (λ r. r.id == id)
              (λ r. record r { position = position; updated_at = or_else at r.updated_at })
              (λ a hit same. same) rows,
        )))

  shift_rows-NoMore :
      (rs before rows : List RouteRule)
      → NoMore before rows
      → Holds (NoMore before) (shift_rows rs rows)
  unfolding shift_rows
  shift_rows-NoMore [] before rows h = returned h
  shift_rows-NoMore (r ∷ rs) before rows h =
      bind-Holds (place-NoMore r.id (r.position + 10000) none before rows h)
        λ moved k. shift_rows-NoMore rs before moved k

  place_all-NoMore :
      (position : ℕ) (at : Option ℕ) (ids : List ℕ) (before rows : List RouteRule)
      → NoMore before rows
      → Holds (NoMore before) (place_all position at ids rows)
  unfolding place_all
  place_all-NoMore position at [] before rows h = returned h
  place_all-NoMore position at (id ∷ ids) before rows h =
      bind-Holds (place-NoMore id position at before rows h)
        λ moved k. place_all-NoMore (position + 1) at ids before moved k

  NoMore-refl : (rows : List RouteRule) → NoMore rows rows
  NoMore-refl rows q = omega arith

  apart : (before rows : List RouteRule) → KeepsApart before → NoMore before rows → KeepsApart rows
  apart before rows h k q = omega (arith, h q, k q)

  -- Rules with the identity of one rule have one identity.
  same_identity-shared :
      (q a b : RouteRule)
      → same_identity tools q a ≡ true
      → same_identity tools a b ≡ same_identity tools q b
  same_identity-shared q a b h =
      let (matchers, values) =
        and_true (same_matcher q.matcher a.matcher)
          (text_eq (normalize_value tools q.matcher q.value)
            (normalize_value tools a.matcher a.value))
          h in
      let one_matcher : q.matcher ≡ a.matcher = same_matcher-eq q.matcher a.matcher matchers in
      let one_value : normalize_value tools q.matcher q.value
          ≡ normalize_value tools a.matcher a.value =
        text_eq-eq (normalize_value tools q.matcher q.value)
          (normalize_value tools a.matcher a.value) values in
      rw (← one_value, ← one_matcher) refl

  added-KeepsApart :
      (rule : RouteRule) (rows : List RouteRule)
      → count_where (same_identity tools rule) rows ≡ 0
      → KeepsApart rows
      → KeepsApart (rows ++ rule ∷ [])
  added-KeepsApart rule rows new h q = elim (Bool-cases (same_identity tools q rule)) [
    | inl same ↦
        let fewer = count_where_mono (same_identity tools q) (same_identity tools rule) rows (
          All-always (λ b. same_identity tools q b ≡ true → same_identity tools rule b ≡ true) rows
            (λ b hit. same_identity-shared q rule b same ∙ hit)) in
        rw (count_where-append (same_identity tools q) rows (rule ∷ []))
          (unfold count_where in rw same (omega (arith, fewer, new)))
    | inr other ↦
        rw (count_where-append (same_identity tools q) rows (rule ∷ []))
          (unfold count_where in rw other (omega (arith, h q)))
  ]

  -- A rule that `add` accepts leaves no identity with two rules, if none had two before.
  pub add-KeepsApart :
      (accepts : RouteRule → Bool) (id : ℕ) (action : RouteAction) (matcher : RouteMatcher)
      (raw : List ℕ) (enabled : Bool) (now : ℕ) (db : RouteDb)
      → KeepsApart db.drafts
      → Holds (λ d. KeepsApart d.drafts) (add tools accepts id action matcher raw enabled now db)
  unfolding add
  add-KeepsApart accepts id action matcher raw enabled now db h =
      bind_any-Holds (validate_value tools matcher raw) λ value.
        let rule : RouteRule =
          new_rule id (length db.drafts + 20000) action matcher value enabled now in
        bind_any-Holds (guard (accepts rule) (service 409)) λ _.
          bind_any-Holds (guard (not (is_terminal matcher value)) (service 409)) λ _.
            bind-Holds (guard-Holds (not (any (same_identity tools rule) db.drafts)) (service 409))
              λ _ new.
                bind-Holds (shift_rows-NoMore db.drafts db.drafts db.drafts (NoMore-refl db.drafts))
                  λ shifted fewer. bind-Holds (insert_row-Holds _ rule shifted) λ inserted e.
                    let none_yet =
                      count_where-none (same_identity tools rule) db.drafts
                        (negated (any (same_identity tools rule) db.drafts) new) in
                    bind-Holds
                      (place_all-NoMore 0 (some now)
                        (ids_of (rows_where is_local (draft db))
                          ++ id ∷ ids_of (rows_where (λ r. not (is_local r)) (draft db)))
                        inserted inserted (NoMore-refl inserted))
                      λ drafts k. returned (
                        apart inserted drafts
                          (rw e.1 (
                            added-KeepsApart rule shifted (omega (arith, fewer rule, none_yet))
                              (apart db.drafts shifted h fewer)))
                          k)

  delete-KeepsApart :
      (id : ℕ) (rows : List RouteRule)
      → KeepsApart rows
      → KeepsApart (delete_where (λ r. r.id == id) rows)
  delete-KeepsApart id rows h q =
      omega (
        arith,
        h q,
        count_where-delete (λ (r : RouteRule). r.id == id) (same_identity tools q) rows,
      )

  pub remove-KeepsApart :
      (id : ℕ) (db : RouteDb)
      → KeepsApart db.drafts
      → Holds (λ d. KeepsApart d.drafts) (remove id db)
  unfolding remove reindex
  remove-KeepsApart id db h =
      let rows : List RouteRule = delete_where (λ r. r.id == id) db.drafts in
      bind_any-Holds (or_throw (first_where (λ r. r.id == id) db.drafts) (service 404)) λ before.
        bind_any-Holds (guard (not before.locked) (service 409)) λ _.
          bind-Holds
            (bind-Holds (shift_rows-NoMore rows rows rows (NoMore-refl rows))
              λ shifted k. place_all-NoMore 0 none (ids_of (by_position rows)) rows shifted k)
            λ drafts k. returned (apart rows drafts (delete-KeepsApart id db.drafts h) k)

  pub reorder-KeepsApart :
      (ids : List ℕ) (now : ℕ) (db : RouteDb)
      → KeepsApart db.drafts
      → Holds (λ d. KeepsApart d.drafts) (reorder ids now db)
  unfolding reorder
  reorder-KeepsApart ids now db h =
      let current : List RouteRule = draft db in
      bind_any-Holds
        (guard
          (length ids == length current && not (any (λ id. not (contains id (ids_of current))) ids))
          (service 400))
        λ _.
          bind_any-Holds
            (guard (catch_all_last (first_where (λ r. is_terminal r.matcher r.value) current) ids)
              (service 409))
            λ _.
              bind_any-Holds
                (guard (starts_with (locals_of local_networks current) ids) (service 409))
                λ _.
                  bind-Holds
                    (shift_rows-NoMore db.drafts db.drafts db.drafts (NoMore-refl db.drafts))
                    λ shifted k.
                      bind-Holds (place_all-NoMore 0 (some now) ids db.drafts shifted k)
                        λ drafts l. returned (apart db.drafts drafts h l)

  pub update_local-KeepsApart :
      (action : RouteAction) (now : ℕ) (db : RouteDb)
      → KeepsApart db.drafts
      → KeepsApart (update_local action now db).drafts
  unfolding update_local
  update_local-KeepsApart action now db h q = omega (
    arith,
    h q,
    count_where-update (same_identity tools q) is_local
        (λ r. record r { action = action; updated_at = now }) (λ a hit same. same) db.drafts,
  )
