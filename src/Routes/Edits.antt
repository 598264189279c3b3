-- ===== src/Routes/Edits.antt =====
-- Any sequence of edits of a draft, in src/server/services/routes.ts; an edit that throws changes nothing.
use outpost_vpn_server.Prelude.{ℕ, List, Bool, [], ◌∷◌}
use outpost_vpn_server.Db.{Result, ok, err}
use outpost_vpn_server.Db.Laws.{Holds, returned, threw}
use outpost_vpn_server.Routes.{RouteAction, RouteMatcher, RouteRule, RouteDb}
use outpost_vpn_server.Routes.Values.{TextTools}
use outpost_vpn_server.Routes.Editing.{add, remove, reorder, update_local}
use outpost_vpn_server.Routes.Identities.{
  KeepsApart, add-KeepsApart, remove-KeepsApart, reorder-KeepsApart, update_local-KeepsApart,
}

pub data RouteEdit : Type 0 where
  add_rule : ℕ → RouteAction → RouteMatcher → List ℕ → Bool → ℕ → RouteEdit
  remove_rule : ℕ → RouteEdit
  reorder_rules : List ℕ → ℕ → RouteEdit
  set_local : RouteAction → ℕ → RouteEdit

abbrev or_unchanged : RouteDb → Result RouteDb → RouteDb
or_unchanged db (ok d) = d
or_unchanged db (err e) = db

module _ (tools : TextTools) (accepts : RouteRule → Bool) where
  unfoldable pub edit : RouteEdit → RouteDb → RouteDb
  edit (add_rule id action matcher raw enabled now) db =
      or_unchanged db (add tools accepts id action matcher raw enabled now db)
  edit (remove_rule id) db = or_unchanged db (remove id db)
  edit (reorder_rules ids now) db = or_unchanged db (reorder ids now db)
  edit (set_local action now) db = update_local action now db

  unfoldable pub edit_all : List RouteEdit → RouteDb → RouteDb
  edit_all [] db = db
  edit_all (e ∷ es) db = edit_all es (edit e db)

  or_unchanged-KeepsApart :
      (db : RouteDb) (r : Result RouteDb)
      → KeepsApart tools db.drafts
      → Holds (λ d. KeepsApart tools d.drafts) r
      → KeepsApart tools (or_unchanged db r).drafts
  or_unchanged-KeepsApart db _ h (returned k) = k
  or_unchanged-KeepsApart db _ h threw = h

  edit-KeepsApart :
      (e : RouteEdit) (db : RouteDb)
      → KeepsApart tools db.drafts
      → KeepsApart tools (edit e db).drafts
  unfolding edit
  edit-KeepsApart (add_rule id action matcher raw enabled now) db h =
      or_unchanged-KeepsApart db (add tools accepts id action matcher raw enabled now db) h
        (add-KeepsApart tools accepts id action matcher raw enabled now db h)
  edit-KeepsApart (remove_rule id) db h =
      or_unchanged-KeepsApart db (remove id db) h (remove-KeepsApart tools id db h)
  edit-KeepsApart (reorder_rules ids now) db h =
      or_unchanged-KeepsApart db (reorder ids now db) h (reorder-KeepsApart tools ids now db h)
  edit-KeepsApart (set_local action now) db h = update_local-KeepsApart tools action now db h

  -- Adding, removing and reordering rules and setting the action of the local ones, in any order, never
  -- gives two rules of the draft one identity, if no two had one before.
  pub edit_all-KeepsApart :
      (es : List RouteEdit) (db : RouteDb)
      → KeepsApart tools db.drafts
      → KeepsApart tools (edit_all es db).drafts
  unfolding edit_all
  edit_all-KeepsApart [] db h = h
  edit_all-KeepsApart (e ∷ es) db h = edit_all-KeepsApart es (edit e db) (edit-KeepsApart e db h)
