-- ===== src/Routes/Editing.antt =====
-- Editing the draft in src/server/services/routes.ts: `add`, `remove`, `reorder` and `updateLocal`. The
-- statements on `route_drafts` keep its unique index on positions row by row.
use outpost_vpn_server.Prelude.{
  ℕ, ◌+◌, Option, none, some, List, Bool, true, false, [], ◌∷◌, ◌++◌, ◌==◌, ◌&&◌, ◌||◌, not, map,
  length, contains, or_else, if◌then◌else◌, any, first_where, rows_where, update_where,
  delete_where,
}
use outpost_vpn_server.Db.{service, constraint, Result, ok, err, ◌>>=◌, ◌>>◌, guard, or_throw}
use outpost_vpn_server.Auth.{insert_row}
use outpost_vpn_server.Geosite.Compile.{text_eq, has_text}
use outpost_vpn_server.Routes.{
  RouteAction, RouteMatcher, suffix_rule, ip_cidr, RouteSource, system, user, RouteRule, RouteDb,
  draft, by_position, added_entry, removed_entry, reordered_entry, local_entry,
}
use outpost_vpn_server.Routes.Values.{TextTools, star, validate_value, same_identity}

-- "10.0.0.0/8", "172.16.0.0/12", "192.168.0.0/16"
abbrev pub local_networks : List (List ℕ)
local_networks =
    (49 ∷ 48 ∷ 46 ∷ 48 ∷ 46 ∷ 48 ∷ 46 ∷ 48 ∷ 47 ∷ 56 ∷ [])
    ∷ (49 ∷ 55 ∷ 50 ∷ 46 ∷ 49 ∷ 54 ∷ 46 ∷ 48 ∷ 46 ∷ 48 ∷ 47 ∷ 49 ∷ 50 ∷ [])
    ∷ (49 ∷ 57 ∷ 50 ∷ 46 ∷ 49 ∷ 54 ∷ 56 ∷ 46 ∷ 48 ∷ 46 ∷ 48 ∷ 47 ∷ 49 ∷ 54 ∷ [])
    ∷ []

abbrev pub is_system : RouteSource → Bool
is_system system = true
is_system _ = false

abbrev pub is_cidr : RouteMatcher → Bool
is_cidr ip_cidr = true
is_cidr _ = false

abbrev pub is_local : RouteRule → Bool
is_local r = is_system r.source && is_cidr r.matcher && has_text r.value local_networks

abbrev pub is_terminal : RouteMatcher → List ℕ → Bool
is_terminal suffix_rule value = text_eq value star
is_terminal _ value = false

-- UPDATE route_drafts SET position = ?, updated_at = ? WHERE id = ? (the time is left out by `reindex`)
unfoldable pub place : ℕ → ℕ → Option ℕ → List RouteRule → Result (List RouteRule)
place id position at rows =
    if any (λ r. r.id == id) rows && any (λ r. not (r.id == id) && r.position == position) rows
    then err constraint
    else ok (
        update_where (λ r. r.id == id)
          (λ r. record r { position = position; updated_at = or_else at r.updated_at }) rows)

-- UPDATE route_drafts SET position = position + 10000, row by row
unfoldable pub shift_rows : List RouteRule → List RouteRule → Result (List RouteRule)
shift_rows [] rows = ok rows
shift_rows (r ∷ rs) rows = do moved ← place r.id (r.position + 10000) none rows; shift_rows rs moved

-- ids.forEach((id, position) => update.run(position, id))
unfoldable pub place_all : ℕ → Option ℕ → List ℕ → List RouteRule → Result (List RouteRule)
place_all position at [] rows = ok rows
place_all position at (id ∷ ids) rows = do
  moved ← place id position at rows
  place_all (position + 1) at ids moved

abbrev pub ids_of : List RouteRule → List ℕ
ids_of rules = map (λ r. r.id) rules

-- The candidate after zod and validateValue, as the row that is inserted at the end.
abbrev pub new_rule : ℕ → ℕ → RouteAction → RouteMatcher → List ℕ → Bool → ℕ → RouteRule
new_rule id position action matcher value enabled now = record {
  id = id;
  position = position;
  action = action;
  matcher = matcher;
  value = value;
  source = user;
  locked = false;
  enabled = enabled;
  created_at = now;
  updated_at = now;
}

-- `accepts` is the catalogue of rule sets.
unfoldable pub add :
    TextTools
    → (RouteRule → Bool)
    → ℕ
    → RouteAction
    → RouteMatcher
    → List ℕ
    → Bool
    → ℕ
    → RouteDb
    → Result RouteDb
add tools accepts id action matcher raw enabled now db = do
  value ← validate_value tools matcher raw
  let rule = new_rule id (length db.drafts + 20000) action matcher value enabled now
  guard (accepts rule) (service 409)
  guard (not (is_terminal matcher value)) (service 409)
  guard (not (any (same_identity tools rule) db.drafts)) (service 409)
  let current = draft db
  shifted ← shift_rows db.drafts db.drafts
  inserted ← insert_row (λ r. r.id == rule.id || r.position == rule.position) rule shifted
  drafts ←
      place_all 0 (some now)
        (ids_of (rows_where is_local current)
          ++ id ∷ ids_of (rows_where (λ r. not (is_local r)) current))
        inserted
  ok (record db { drafts = drafts; log = db.log ++ added_entry id ∷ [] })

-- `reindex`
unfoldable pub reindex : List RouteRule → Result (List RouteRule)
reindex rows = do
  shifted ← shift_rows rows rows
  place_all 0 none (ids_of (by_position rows)) shifted

unfoldable pub remove : ℕ → RouteDb → Result RouteDb
remove id db = do
  before ← or_throw (first_where (λ r. r.id == id) db.drafts) (service 404)
  guard (not before.locked) (service 409)
  drafts ← reindex (delete_where (λ r. r.id == id) db.drafts)
  ok (record db { drafts = drafts; log = db.log ++ removed_entry id ∷ [] })

-- ids.at(-1)
abbrev pub last_is : ℕ → List ℕ → Bool
last_is id [] = false
last_is id (x ∷ []) = x == id
last_is id (x ∷ y ∷ ys) = last_is id (y ∷ ys)

abbrev pub catch_all_last : Option RouteRule → List ℕ → Bool
catch_all_last none ids = true
catch_all_last (some r) ids = last_is r.id ids

abbrev pub starts_with : List ℕ → List ℕ → Bool
starts_with [] ids = true
starts_with (l ∷ ls) [] = false
starts_with (l ∷ ls) (x ∷ xs) = x == l && starts_with ls xs

-- The local rules in the order of the networks, with the first rule of each.
unfoldable pub locals_of : List (List ℕ) → List RouteRule → List ℕ
locals_of [] current = []
locals_of (network ∷ networks) current =
    here (first_where (λ r. is_local r && text_eq r.value network) current)
      (locals_of networks current)
  where
    here : Option RouteRule → List ℕ → List ℕ
    here none rest = rest
    here (some r) rest = r.id ∷ rest

unfoldable pub reorder : List ℕ → ℕ → RouteDb → Result RouteDb
reorder ids now db = do
  let current = draft db
  guard (length ids == length current && not (any (λ id. not (contains id (ids_of current))) ids))
      (service 400)
  guard (catch_all_last (first_where (λ r. is_terminal r.matcher r.value) current) ids)
      (service 409)
  guard (starts_with (locals_of local_networks current) ids) (service 409)
  shifted ← shift_rows db.drafts db.drafts
  drafts ← place_all 0 (some now) ids shifted
  ok (record db { drafts = drafts; log = db.log ++ reordered_entry ∷ [] })

-- `updateLocal`, row by row, as the ids are unique
unfoldable pub update_local : RouteAction → ℕ → RouteDb → RouteDb
update_local action now db = record db {
  drafts = update_where is_local (λ r. record r { action = action; updated_at = now }) db.drafts;
  log = db.log ++ local_entry ∷ [];
}
