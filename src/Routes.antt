-- ===== src/Routes.antt =====
-- `RouteService` of src/server/services/routes.ts: the draft of the routing rules, its revisions, and which
-- one is in force. A text is the list of its code points.
pub mod Values
pub mod Revisions
pub mod History
pub mod Publishing
pub mod Drafts
pub mod Editing
pub mod Identities
pub mod Edits
mod Tests
mod EditTests
use outpost_vpn_server.Prelude.{
  ℕ, zero, suc, ◌+◌, Option, none, some, List, Bool, true, false, [], ◌∷◌, ◌++◌, ◌==◌, ◌&&◌, ◌||◌,
  not, ltb, leb, if◌then◌else◌, any, first_where,
}
use outpost_vpn_server.Db.{
  Fault, service, constraint, Result, ok, err, ◌>>=◌, ◌>>◌, guard, or_throw,
}
use outpost_vpn_server.Geosite.Compile.{text_eq}

pub data RouteAction : Type 0 where
  direct proxy block : RouteAction

pub data RouteMatcher : Type 0 where
  domain_rule suffix_rule ip_cidr geosite geoip : RouteMatcher

pub data RouteSource : Type 0 where
  system preset user : RouteSource

pub record RouteRule : Type 0 where
  pub id : ℕ
  pub position : ℕ
  pub action : RouteAction
  pub matcher : RouteMatcher
  pub value : List ℕ
  pub source : RouteSource
  pub locked : Bool
  pub enabled : Bool
  pub created_at : ℕ
  pub updated_at : ℕ

pub record RouteRevision : Type 0 where
  pub id : ℕ
  pub version : ℕ
  pub rules : List RouteRule
  pub note : List ℕ
  pub created_at : ℕ
  pub actor : List ℕ
  pub ruleset_version : Option (List ℕ)

-- What is written to `audit_log` and `events`: of a revision by its version, of a rule by its id.
pub data RouteEntry : Type 0 where
  published_entry rolled_back_entry : ℕ → RouteEntry
  added_entry removed_entry : ℕ → RouteEntry
  discarded_entry reordered_entry local_entry : RouteEntry

-- `active_route_version` is 0 where the setting is not there.
pub record RouteDb : Type 0 where
  pub drafts : List RouteRule
  pub revisions : List RouteRevision
  pub active_version : ℕ
  pub log : List RouteEntry

abbrev pub same_matcher : RouteMatcher → RouteMatcher → Bool
same_matcher domain_rule domain_rule = true
same_matcher suffix_rule suffix_rule = true
same_matcher ip_cidr ip_cidr = true
same_matcher geosite geosite = true
same_matcher geoip geoip = true
same_matcher _ _ = false

-- ORDER BY position
unfoldable pub insert_by_position : RouteRule → List RouteRule → List RouteRule
insert_by_position r [] = r ∷ []
insert_by_position r (x ∷ xs) =
    let later = insert_by_position r xs in
    if leb r.position x.position then r ∷ x ∷ xs else x ∷ later

unfoldable pub by_position : List RouteRule → List RouteRule
by_position [] = []
by_position (r ∷ rs) = insert_by_position r (by_position rs)

abbrev pub draft : RouteDb → List RouteRule
draft db = by_position db.drafts

unfoldable pub revision : ℕ → RouteDb → Result RouteRevision
revision version db = or_throw (first_where (λ r. r.version == version) db.revisions) (service 404)

-- `published`: the rules in force
unfoldable pub published : RouteDb → Result (List RouteRule)
published db =
    if ltb 0 db.active_version
    then (revision db.active_version db >>= λ r. ok r.rules)
    else ok (draft db)
