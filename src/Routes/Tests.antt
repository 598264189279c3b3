-- ===== src/Routes/Tests.antt =====
-- A draft of two rules, published, changed and rolled back.
use outpost_vpn_server.Prelude.{
  ℕ, ◌+◌, none, List, true, false, [], ◌∷◌, ◌&&◌, ◌≡◌, ◌↔◌, refl, leb, first_where,
}
use outpost_vpn_server.Db.{ok}
use outpost_vpn_server.Auth.{insert_row}
use outpost_vpn_server.Geosite.Compile.{trim}
use outpost_vpn_server.Routes.{
  RouteAction, direct, proxy, suffix_rule, user, RouteRule, RouteRevision, RouteDb, draft, revision,
  published, by_position, insert_by_position, published_entry, rolled_back_entry, discarded_entry,
}
use outpost_vpn_server.Routes.Values.{
  TextTools, assert_unique, validate_all, validate_value, normalize_value, split_at, star,
}
use outpost_vpn_server.Routes.Revisions.{
  RulesetCatalog, is_empty_rules, last_version, new_revision, write_rows, write_draft, publish,
  rollback, discard,
}
use outpost_vpn_server.Routes.History.{Distinct, assert_unique_lem}
use outpost_vpn_server.Routes.Publishing.{published-publish, publish_total, published-rollback}
use outpost_vpn_server.Routes.Drafts.{same_rules, copied_rules, draft-discard, draft-rollback}

abbrev pub tools : TextTools
tools = record { lower = λ text. text; is_letter = λ c. leb 97 c && leb c 122; is_ip = λ text. 0 }

abbrev catalog : RulesetCatalog
catalog = record { accepts = λ rules. true; version_of = λ rules. none }

abbrev pub rule : ℕ → ℕ → RouteAction → List ℕ → ℕ → RouteRule
rule id position action value at = record {
  id = id;
  position = position;
  action = action;
  matcher = suffix_rule;
  value = value;
  source = user;
  locked = false;
  enabled = true;
  created_at = at;
  updated_at = at;
}

-- ".ru" goes directly, all else by the proxy; the row of all else was inserted first.
abbrev drafted : RouteDb
drafted = record {
  drafts = rule 2 1 proxy star 0 ∷ rule 1 0 direct (46 ∷ 114 ∷ 117 ∷ []) 0 ∷ [];
  revisions = [];
  active_version = 0;
  log = [];
}

abbrev rules : List RouteRule
rules = rule 1 0 direct (46 ∷ 114 ∷ 117 ∷ []) 0 ∷ rule 2 1 proxy star 0 ∷ []

drafted-draft : draft drafted ≡ rules
unfolding by_position insert_by_position
drafted-draft = refl

abbrev first_revision : RouteRevision
first_revision = new_revision catalog [] [] 9 10 1 rules

abbrev first : RouteDb
first = record drafted {
  revisions = first_revision ∷ [];
  active_version = 1;
  log = published_entry 1 ∷ [];
}

publishes : publish tools catalog [] [] 9 (λ n. n) 10 false none drafted ≡ ok first
unfolding publish by_position insert_by_position validate_all validate_value normalize_value trim
    split_at assert_unique insert_row last_version
publishes = refl

-- The second rule is taken out of the draft, and everything is rolled back to the first revision.
abbrev changed : RouteDb
changed = record first { drafts = rule 2 1 proxy star 0 ∷ [] }

abbrev back : RouteDb
back = record {
  drafts = rule 50 0 direct (46 ∷ 114 ∷ 117 ∷ []) 20 ∷ rule 51 1 proxy star 20 ∷ [];
  revisions = first_revision ∷ new_revision catalog [] [] 8 20 2 rules ∷ [];
  active_version = 2;
  log = published_entry 1 ∷ rolled_back_entry 2 ∷ [];
}

rolls_back : rollback tools catalog [] [] 8 (λ n. 50 + n) 20 1 changed ≡ ok back
unfolding rollback revision publish write_draft write_rows by_position insert_by_position
    validate_all validate_value normalize_value trim split_at assert_unique insert_row last_version
    first_where
rolls_back = refl

published-publish_example :
    (published first ≡ ok (draft drafted))
    × Distinct tools (draft drafted)
    × (is_empty_rules (draft drafted) ≡ false)
    × ((version : ℕ) (r : RouteRevision)
        → revision version drafted ≡ ok r
        → revision version first ≡ ok r)
published-publish_example =
    published-publish tools catalog [] [] 9 (λ n. n) 10 false none drafted first publishes

published-rollback_example : (published back ≡ ok rules) × (revision 1 back ≡ ok first_revision)
unfolding revision first_where
published-rollback_example =
    published-rollback tools catalog [] [] 8 (λ n. 50 + n) 20 1 changed back first_revision refl
      rolls_back

publish_total_example :
    (d : RouteDb) × (publish tools catalog [] [] 7 (λ n. n) 30 false none drafted ≡ ok d)
unfolding by_position insert_by_position validate_all validate_value normalize_value trim split_at
publish_total_example =
    publish_total tools catalog [] [] 7 (λ n. n) 30 false drafted refl refl (((refl, tt)), (tt, tt))
      refl refl

assert_unique_lem_example : (assert_unique tools [] rules ≡ ok tt) ↔ Distinct tools rules
assert_unique_lem_example = assert_unique_lem tools rules

draft-rollback_example : draft back ≡ copied_rules (λ n. 50 + n) 20 0 rules
unfolding revision first_where
draft-rollback_example =
    draft-rollback tools catalog [] [] 8 (λ n. 50 + n) 20 1 changed back first_revision refl
      rolls_back

abbrev dropped : RouteDb
dropped = record first {
  drafts = rule 1 0 direct (46 ∷ 114 ∷ 117 ∷ []) 40 ∷ rule 2 1 proxy star 40 ∷ [];
  log = published_entry 1 ∷ discarded_entry ∷ [];
}

discards : discard (λ n. n) 40 changed ≡ ok dropped
unfolding discard revision write_draft write_rows insert_row first_where
discards = refl

draft-discard_example : draft dropped ≡ same_rules 40 0 rules
unfolding revision first_where
draft-discard_example = draft-discard (λ n. n) 40 changed dropped first_revision refl discards
