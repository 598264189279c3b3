-- ===== src/Routes/Revisions.antt =====
-- `publish`, `rollback` and `discard` of src/server/services/routes.ts.
use outpost_vpn_server.Prelude.{
  ℕ, ◌+◌, Option, none, some, List, Bool, true, false, [], ◌∷◌, ◌++◌, ◌==◌, ◌||◌, not, ltb, max,
  if◌then◌else◌,
}
use outpost_vpn_server.Db.{service, Result, ok, ◌>>=◌, ◌>>◌, guard}
use outpost_vpn_server.Auth.{insert_row}
use outpost_vpn_server.Geosite.Compile.{trim}
use outpost_vpn_server.Routes.{
  RouteRule, RouteRevision, RouteEntry, published_entry, rolled_back_entry, discarded_entry,
  RouteDb, draft, revision,
}
use outpost_vpn_server.Routes.Values.{TextTools, assert_unique, validate_all}

-- The catalogue of rule sets: whether it accepts the rules, and its version.
pub record RulesetCatalog : Type 0 where
  pub accepts : List RouteRule → Bool
  pub version_of : List RouteRule → Option (List ℕ)

abbrev pub is_empty_rules : List RouteRule → Bool
is_empty_rules [] = true
is_empty_rules (r ∷ rs) = false

-- SELECT MAX(version), and 0 where there is none
unfoldable pub last_version : List RouteRevision → ℕ
last_version [] = 0
last_version (r ∷ rs) = max r.version (last_version rs)

abbrev pub draft_row : (ℕ → ℕ) → Bool → ℕ → ℕ → RouteRule → RouteRule
draft_row fresh preserve now position r = record r {
  id = if preserve then r.id else fresh position;
  position = position;
  created_at = now;
  updated_at = now;
}

-- The rows that `writeDraft` inserts after it has emptied the table; `fresh` draws the ids that are not
-- preserved.
unfoldable pub write_rows :
    (ℕ → ℕ) → Bool → ℕ → ℕ → List RouteRule → List RouteRule → Result (List RouteRule)
write_rows fresh preserve now position [] rows = ok rows
write_rows fresh preserve now position (r ∷ rs) rows = do
  let row = draft_row fresh preserve now position r
  inserted ← insert_row (λ x. x.id == row.id || x.position == row.position) row rows
  write_rows fresh preserve now (position + 1) rs inserted

unfoldable pub write_draft : (ℕ → ℕ) → Bool → ℕ → List RouteRule → RouteDb → Result RouteDb
write_draft fresh preserve now rules db = do
  rows ← write_rows fresh preserve now 0 rules []
  ok (record db { drafts = rows })

abbrev entry_of : Bool → ℕ → RouteEntry
entry_of true version = rolled_back_entry version
entry_of false version = published_entry version

abbrev pub replace_draft : (ℕ → ℕ) → ℕ → Option (List RouteRule) → RouteDb → Result RouteDb
replace_draft fresh now none db = ok db
replace_draft fresh now (some rules) db = write_draft fresh false now rules db

abbrev pub rules_or : Option (List RouteRule) → List RouteRule → List RouteRule
rules_or none current = current
rules_or (some rules) current = rules

abbrev pub new_revision :
    RulesetCatalog → List ℕ → List ℕ → ℕ → ℕ → ℕ → List RouteRule → RouteRevision
new_revision catalog note actor id now version rules = record {
  id = id;
  version = version;
  rules = rules;
  note = trim note;
  created_at = now;
  actor = actor;
  ruleset_version = catalog.version_of rules;
}

-- The ids are drawn at random. A rollback gives the rules that replace the draft.
unfoldable pub publish :
    TextTools
    → RulesetCatalog
    → List ℕ
    → List ℕ
    → ℕ
    → (ℕ → ℕ)
    → ℕ
    → Bool
    → Option (List RouteRule)
    → RouteDb
    → Result RouteDb
publish tools catalog note actor id fresh now rolls_back replacement db = do
  let rules = rules_or replacement (draft db)
  guard (not (is_empty_rules rules)) (service 409)
  validate_all tools rules
  assert_unique tools [] rules
  guard (catalog.accepts rules) (service 409)
  let version = last_version db.revisions + 1
  replaced ← replace_draft fresh now replacement db
  revisions ←
      insert_row (λ r. r.id == id || r.version == version)
        (new_revision catalog note actor id now version rules) replaced.revisions
  ok (record replaced {
    revisions = revisions;
    active_version = version;
    log = replaced.log ++ entry_of rolls_back version ∷ [];
  })

unfoldable pub rollback :
    TextTools → RulesetCatalog → List ℕ → List ℕ → ℕ → (ℕ → ℕ) → ℕ → ℕ → RouteDb → Result RouteDb
rollback tools catalog note actor id fresh now version db = do
  target ← revision version db
  publish tools catalog note actor id fresh now true (some target.rules) db

unfoldable pub discard : (ℕ → ℕ) → ℕ → RouteDb → Result RouteDb
discard fresh now db = do
  guard (ltb 0 db.active_version) (service 409)
  target ← revision db.active_version db
  replaced ← write_draft fresh true now target.rules db
  ok (record replaced { log = replaced.log ++ discarded_entry ∷ [] })
