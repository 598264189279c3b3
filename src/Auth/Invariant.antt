-- ===== src/Auth/Invariant.antt =====
-- Every move keeps `IsSound`.
use outpost_vpn_server.Prelude.{
  ℕ, ◌<◌, List, Bool, true, false, [], ◌∷◌, ◌++◌, ◌==◌, ◌&&◌, ◌≡◌, arith, any, delete_where,
  count_where, All, All-append, All-imp, All-update, length-append, count_where_mono, All-always,
  All-delete_where, length-delete_where, length-count_where, count_where-delete, count_where-update,
  length-update_where,
}
use outpost_vpn_server.Auth.{Owner, Passkey, Session}
use outpost_vpn_server.Auth.Access.{of_passkey}
use outpost_vpn_server.Auth.Moves.{
  Core, owned_by, Move, idle, both, found, found_demo, describe, enroll, use_key, drop_key,
  open_session, touch_session, close_sessions, invite, spend, issue_token, use_token,
}
use outpost_vpn_server.Auth.Sound.{
  IsSound, nobody, owned_by-update, is_empty-update, same_owner, one_key-append, backed_by-append,
  backed_by-update, backed_by-drop,
}

unowned-keys :
    (os qs : List Owner) (ks : List Passkey)
    → os ≡ []
    → All (λ k. owned_by k.owner_id os ≡ true) ks
    → All (λ k. owned_by k.owner_id qs ≡ true) ks
unowned-keys os qs ks e h = All-imp _ _ (λ k owned. absurd (nobody k.owner_id os e owned)) ks h

unowned-sessions :
    (os qs : List Owner) (ss : List Session)
    → os ≡ []
    → All (λ s. owned_by s.owner_id os ≡ true) ss
    → All (λ s. owned_by s.owner_id qs ≡ true) ss
unowned-sessions os qs ss e h = All-imp _ _ (λ s owned. absurd (nobody s.owner_id os e owned)) ss h

All-both :
    {A : Type 0} (P Q : A → Type 0) (xs : List A) → All P xs → All Q xs → All (λ a. P a × Q a) xs
All-both P Q [] h k = tt
All-both P Q (x ∷ xs) (p, h) (q, k) = ((p, q), All-both P Q xs h k)

module _ {demo : Bool} where
  found-IsSound :
      (c : Core) (o : Owner) (k : Passkey)
      → c.owners ≡ []
      → k.owner_id ≡ o.id
      → any (λ r. r.id == k.id) c.passkeys ≡ false
      → IsSound demo c
      → IsSound demo (record c { owners = o ∷ []; passkeys = c.passkeys ++ k ∷ [] })
  found-IsSound c o k e f g h = record {
    one_owner = omega arith;
    keys_owned =
        All-append _ c.passkeys (k ∷ []) (unowned-keys c.owners (o ∷ []) c.passkeys e h.keys_owned)
          (ground (arith, f), tt);
    sessions_owned = unowned-sessions c.owners (o ∷ []) c.sessions e h.sessions_owned;
    sessions_backed =
        All-imp _ _ (λ s. backed_by-append c.passkeys k s.passkey_id) c.sessions h.sessions_backed;
    one_key = one_key-append k c.passkeys g h.one_key;
    has_key = λ d some_owner. omega (arith, length-append c.passkeys (k ∷ []));
  }

  drop_key-IsSound :
      (c : Core) (o : Owner) (id : ℕ)
      → owned_by o.id c.owners ≡ true
      → 1 < count_where (λ k. k.owner_id == o.id) c.passkeys
      → IsSound demo c
      → IsSound demo (record c {
        passkeys = delete_where (λ k. k.id == id && k.owner_id == o.id) c.passkeys;
        sessions = delete_where (λ s. s.owner_id == o.id && of_passkey id s.passkey_id) c.sessions;
      })
  drop_key-IsSound c o id owns many h = record {
    one_owner = h.one_owner;
    keys_owned = All-delete_where _ _ _ (λ k stays owned. owned) c.passkeys h.keys_owned;
    sessions_owned = All-delete_where _ _ _ (λ s stays owned. owned) c.sessions h.sessions_owned;
    sessions_backed =
        All-delete_where (λ s. s.owner_id == o.id && of_passkey id s.passkey_id) _ _
          (λ s stays both_of.
            backed_by-drop o id c.passkeys s (same_owner s.owner_id o.id c.owners both_of.0 owns)
              stays both_of.1)
          c.sessions (All-both _ _ c.sessions h.sessions_owned h.sessions_backed);
    one_key = λ i. omega (
      arith,
      h.one_key i,
      count_where-delete (λ k. k.id == id && k.owner_id == o.id) (λ k. k.id == i) c.passkeys,
    );
    has_key = λ d some_owner. omega (
      arith,
      many,
      h.one_key id,
      length-delete_where (λ k. k.id == id && k.owner_id == o.id) c.passkeys,
      length-count_where (λ k. k.owner_id == o.id) c.passkeys,
      count_where_mono (λ k. k.id == id && k.owner_id == o.id) (λ k. k.id == id) c.passkeys
          (All-always _ c.passkeys (λ k hit. ground arith)),
    );
  }

  pub Move-IsSound : {c d : Core} → Move demo c d → IsSound demo c → IsSound demo d
  Move-IsSound idle h = h
  Move-IsSound (both m n) h = Move-IsSound n (Move-IsSound m h)
  Move-IsSound (found {c = c} o k e f g) h = found-IsSound c o k e f g h
  Move-IsSound (found_demo {c = c} o e f) h = record {
    sessions_backed = h.sessions_backed;
    one_key = h.one_key;
    one_owner = omega arith;
    keys_owned = unowned-keys c.owners (o ∷ []) c.passkeys f h.keys_owned;
    sessions_owned = unowned-sessions c.owners (o ∷ []) c.sessions f h.sessions_owned;
    has_key = λ d some_owner. absurd (ground arith);
  }
  Move-IsSound (describe {c = c} p f keep) h = record {
    sessions_backed = h.sessions_backed;
    one_key = h.one_key;
    one_owner = omega (arith, length-update_where p f c.owners, h.one_owner);
    keys_owned =
        All-imp _ _ (λ k owned. rw (owned_by-update k.owner_id p f c.owners keep) owned) c.passkeys
          h.keys_owned;
    sessions_owned =
        All-imp _ _ (λ s owned. rw (owned_by-update s.owner_id p f c.owners keep) owned) c.sessions
          h.sessions_owned;
    has_key = λ d some_owner. h.has_key d (rw (is_empty-update p f c.owners) at some_owner);
  }
  Move-IsSound (enroll {c = c} k e f) h = record {
    one_owner = h.one_owner;
    sessions_owned = h.sessions_owned;
    keys_owned = All-append _ c.passkeys (k ∷ []) h.keys_owned (e, tt);
    sessions_backed =
        All-imp _ _ (λ s. backed_by-append c.passkeys k s.passkey_id) c.sessions h.sessions_backed;
    one_key = one_key-append k c.passkeys f h.one_key;
    has_key = λ d some_owner. omega (arith, length-append c.passkeys (k ∷ []));
  }
  Move-IsSound (use_key {c = c} p f keep) h = record {
    one_owner = h.one_owner;
    sessions_owned = h.sessions_owned;
    keys_owned = All-update p _ f (λ k hit owned. rw (keep k).1 owned) c.passkeys h.keys_owned;
    sessions_backed =
        All-imp _ _ (λ s. backed_by-update p f c.passkeys s.passkey_id (λ k. (keep k).0)) c.sessions
          h.sessions_backed;
    one_key = λ id. omega (
      arith,
      h.one_key id,
      count_where-update (λ k. k.id == id) p f (λ k hit e. rw (keep k).0 at e) c.passkeys,
    );
    has_key =
        λ d some_owner. omega (arith, length-update_where p f c.passkeys, h.has_key d some_owner);
  }
  Move-IsSound (drop_key {c = c} o id owns many) h = drop_key-IsSound c o id owns many h
  Move-IsSound (open_session {c = c} s e f) h = record {
    one_owner = h.one_owner;
    keys_owned = h.keys_owned;
    one_key = h.one_key;
    has_key = h.has_key;
    sessions_owned = All-append _ c.sessions (s ∷ []) h.sessions_owned (e, tt);
    sessions_backed = All-append _ c.sessions (s ∷ []) h.sessions_backed (f, tt);
  }
  Move-IsSound (touch_session {c = c} p f keep) h = record {
    one_owner = h.one_owner;
    keys_owned = h.keys_owned;
    one_key = h.one_key;
    has_key = h.has_key;
    sessions_owned =
        All-update p _ f (λ s hit owned. rw (keep s).0 owned) c.sessions h.sessions_owned;
    sessions_backed =
        All-update p _ f (λ s hit backed. rw (keep s).1 backed) c.sessions h.sessions_backed;
  }
  Move-IsSound (close_sessions {c = c} p) h = record {
    one_owner = h.one_owner;
    keys_owned = h.keys_owned;
    one_key = h.one_key;
    has_key = h.has_key;
    sessions_owned = All-delete_where p _ _ (λ s stays owned. owned) c.sessions h.sessions_owned;
    sessions_backed =
        All-delete_where p _ _ (λ s stays backed. backed) c.sessions h.sessions_backed;
  }
  Move-IsSound (invite i e) h = h
  Move-IsSound (spend p f keep) h = h
  Move-IsSound (issue_token t e) h = h
  Move-IsSound (use_token p f keep) h = h
