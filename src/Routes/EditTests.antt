-- ===== src/Routes/EditTests.antt =====
-- Edits at a concrete draft.
use outpost_vpn_server.Prelude.{
  ℕ, List, Bool, true, [], ◌∷◌, ◌≡◌, refl, arith, map, count_where, first_where, rows_where,
  update_where,
}
use outpost_vpn_server.Auth.{insert_row}
use outpost_vpn_server.Geosite.Compile.{trim}
use outpost_vpn_server.Routes.{
  RouteDb, RouteRule, block, direct, suffix_rule, draft, by_position, insert_by_position,
}
use outpost_vpn_server.Routes.Values.{normalize_value, validate_value, split_at}
use outpost_vpn_server.Routes.Editing.{add, place, shift_rows, place_all, reorder, locals_of}
use outpost_vpn_server.Routes.Identities.{KeepsApart}
use outpost_vpn_server.Routes.Edits.{
  RouteEdit, add_rule, reorder_rules, edit, edit_all, edit_all-KeepsApart,
}
use outpost_vpn_server.Routes.Tests.{tools}

-- Nothing at first; "ru" is added twice, "by" once, the two are exchanged, and "ru" is removed.
abbrev empty_draft : RouteDb
empty_draft = record { drafts = []; revisions = []; active_version = 0; log = [] }

abbrev by : List ℕ
by = 98 ∷ 121 ∷ []

abbrev ru : List ℕ
ru = 114 ∷ 117 ∷ []

abbrev edits : List RouteEdit
edits =
    add_rule 1 direct suffix_rule ru true 10
    ∷ add_rule 2 direct suffix_rule ru true 20
    ∷ add_rule 3 block suffix_rule by true 30
    ∷ reorder_rules (1 ∷ 3 ∷ []) 40
    ∷ []

abbrev accepts_all : RouteRule → Bool
accepts_all r = true

edited : map (λ r. r.id) (draft (edit_all tools accepts_all edits empty_draft)) ≡ 1 ∷ 3 ∷ []
unfolding edit_all edit add reorder place shift_rows place_all locals_of insert_row validate_value
    normalize_value trim split_at by_position insert_by_position first_where rows_where update_where
edited = refl

edit_all-KeepsApart_example : KeepsApart tools (edit_all tools accepts_all edits empty_draft).drafts
edit_all-KeepsApart_example =
    edit_all-KeepsApart tools accepts_all edits empty_draft (λ q. unfold count_where in omega arith)
