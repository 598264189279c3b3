-- ===== src/Routes/Drafts.antt =====
-- What the draft is after `writeDraft` of src/server/services/routes.ts.
use mathlib.Core.List.{append-nil, append_assoc}
use outpost_vpn_server.Prelude.{
  ℕ, ◌+◌, some, List, Bool, true, false, [], ◌∷◌, ◌++◌, ◌≡◌, refl, ◌∙◌, sym, arith, ltb, not,
  le→leb,
}
use outpost_vpn_server.Db.{service, ok, guard}
use outpost_vpn_server.Db.Laws.{Holds, returned, bind-Holds, bind_any-Holds, value-Holds}
use outpost_vpn_server.Auth.Refinement.{insert_row-Holds}
use outpost_vpn_server.Routes.{
  RouteRule, RouteRevision, RouteDb, draft, revision, by_position, insert_by_position,
}
use outpost_vpn_server.Routes.Values.{TextTools, validate_all, assert_unique}
use outpost_vpn_server.Routes.Revisions.{
  RulesetCatalog, draft_row, write_rows, write_draft, discard, publish, is_empty_rules, rollback,
}

-- The rules themselves, one after the other, with the positions from `k` on and new times.
unfoldable pub same_rules : ℕ → ℕ → List RouteRule → List RouteRule
same_rules now k [] = []
same_rules now k (r ∷ rs) =
    record {
      id = r.id;
      position = k;
      action = r.action;
      matcher = r.matcher;
      value = r.value;
      source = r.source;
      locked = r.locked;
      enabled = r.enabled;
      created_at = now;
      updated_at = now;
    }
    ∷ same_rules now (k + 1) rs

-- Copies of the rules, one after the other, each with the id that is drawn for its position.
unfoldable pub copied_rules : (ℕ → ℕ) → ℕ → ℕ → List RouteRule → List RouteRule
copied_rules fresh now k [] = []
copied_rules fresh now k (r ∷ rs) =
    record {
      id = fresh k;
      position = k;
      action = r.action;
      matcher = r.matcher;
      value = r.value;
      source = r.source;
      locked = r.locked;
      enabled = r.enabled;
      created_at = now;
      updated_at = now;
    }
    ∷ copied_rules fresh now (k + 1) rs

module _ (fresh : ℕ → ℕ) (preserve : Bool) (now : ℕ) where
  -- The rules one after the other, with the positions from a number on.
  unfoldable pub written : ℕ → List RouteRule → List RouteRule
  written k [] = []
  written k (r ∷ rs) = draft_row fresh preserve now k r ∷ written (k + 1) rs

  write_rows-Holds :
      (k : ℕ) (rules rows : List RouteRule)
      → Holds (λ out. out ≡ rows ++ written k rules) (write_rows fresh preserve now k rules rows)
  unfolding write_rows written
  write_rows-Holds k [] rows = returned (sym (append-nil rows))
  write_rows-Holds k (r ∷ rs) rows =
      bind-Holds (insert_row-Holds _ (draft_row fresh preserve now k r) rows) λ inserted e.
        rw (e.1, ← append_assoc rows (draft_row fresh preserve now k r ∷ []) (written (k + 1) rs))
          (write_rows-Holds (k + 1) rs (rows ++ draft_row fresh preserve now k r ∷ []))

  in_order :
      (k : ℕ) (r : RouteRule) (rs : List RouteRule)
      → r.position ≡ k
      → insert_by_position r (written (k + 1) rs) ≡ r ∷ written (k + 1) rs
  unfolding insert_by_position written
  in_order k r [] e = refl
  in_order k r (x ∷ rs) e = rw (le→leb r.position (k + 1) (omega (arith, e))) refl

  by_position-written : (k : ℕ) (rs : List RouteRule) → by_position (written k rs) ≡ written k rs
  unfolding by_position written
  by_position-written k [] = refl
  by_position-written k (r ∷ rs) =
      rw (by_position-written (k + 1) rs) (in_order k (draft_row fresh preserve now k r) rs refl)

  pub write_draft-written :
      (rules : List RouteRule) (db : RouteDb)
      → Holds (λ d. draft d ≡ written 0 rules) (write_draft fresh preserve now rules db)
  unfolding write_draft
  write_draft-written rules db =
      bind-Holds (write_rows-Holds 0 rules [])
        λ rows e. returned (rw e (by_position-written 0 rules))

written-same_rules :
    (fresh : ℕ → ℕ) (now k : ℕ) (rs : List RouteRule)
    → written fresh true now k rs ≡ same_rules now k rs
unfolding written same_rules
written-same_rules fresh now k [] = refl
written-same_rules fresh now k (r ∷ rs) = rw (written-same_rules fresh now (k + 1) rs) refl

written-copied_rules :
    (fresh : ℕ → ℕ) (now k : ℕ) (rs : List RouteRule)
    → written fresh false now k rs ≡ copied_rules fresh now k rs
unfolding written copied_rules
written-copied_rules fresh now k [] = refl
written-copied_rules fresh now k (r ∷ rs) = rw (written-copied_rules fresh now (k + 1) rs) refl

-- Discarding the draft makes it the rules in force, in their order, each with its id, action, matcher, value,
-- source and flags, with the positions from 0 on and new times.
pub draft-discard :
    (fresh : ℕ → ℕ) (now : ℕ) (db d : RouteDb) (target : RouteRevision)
    → revision db.active_version db ≡ ok target
    → discard fresh now db ≡ ok d
    → draft d ≡ same_rules now 0 target.rules
unfolding discard
draft-discard fresh now db d target found e =
    value-Holds {P = λ d. draft d ≡ written fresh true now 0 target.rules}
      (bind_any-Holds (guard (ltb 0 db.active_version) (service 409)) λ _.
        bind-Holds (write_draft-written fresh true now target.rules db)
          λ replaced same. returned same)
      (rw found at e)
    ∙ written-same_rules fresh now 0 target.rules

publish-written :
    (tools : TextTools) (catalog : RulesetCatalog) (note actor : List ℕ) (id : ℕ) (fresh : ℕ → ℕ)
    (now : ℕ) (rules : List RouteRule) (db : RouteDb)
    → Holds
        (λ d. draft d ≡ written fresh false now 0 rules)
        (publish tools catalog note actor id fresh now true (some rules) db)
unfolding publish
publish-written tools catalog note actor id fresh now rules db =
    bind_any-Holds (guard (not (is_empty_rules rules)) (service 409)) λ _.
      bind_any-Holds (validate_all tools rules) λ _.
        bind_any-Holds (assert_unique tools [] rules) λ _.
          bind_any-Holds (guard (catalog.accepts rules) (service 409)) λ _.
            bind-Holds (write_draft-written fresh false now rules db) λ replaced same.
              bind-Holds (insert_row-Holds _ _ replaced.revisions) λ rows e. returned same

-- Rolling back makes the draft copies of the rules of that revision, in their order, each with the id drawn
-- for it and the action, matcher, value, source and flags of the rule, with the positions from 0 on and new
-- times.
pub draft-rollback :
    (tools : TextTools) (catalog : RulesetCatalog) (note actor : List ℕ) (id : ℕ) (fresh : ℕ → ℕ)
    (now version : ℕ) (db d : RouteDb) (target : RouteRevision)
    → revision version db ≡ ok target
    → rollback tools catalog note actor id fresh now version db ≡ ok d
    → draft d ≡ copied_rules fresh now 0 target.rules
unfolding rollback
draft-rollback tools catalog note actor id fresh now version db d target found e =
    value-Holds (publish-written tools catalog note actor id fresh now target.rules db)
      (rw found at e)
    ∙ written-copied_rules fresh now 0 target.rules
