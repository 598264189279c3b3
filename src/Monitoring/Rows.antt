-- ===== src/Monitoring/Rows.antt =====
-- Reading back a row of `monitor_states` that was saved.
use outpost_vpn_server.Prelude.{
  ℕ, some, List, Bool, true, false, [], ◌∷◌, ◌++◌, ◌≡◌, refl, any, Bool-cases, inl, inr,
  first_where, update_where, first_where-append,
}
use outpost_vpn_server.Geosite.Compile.{text_eq}
use outpost_vpn_server.Geosite.Cover.{text_eq-eq, text_eq_refl}
use outpost_vpn_server.Monitoring.{MonitorRow, of_key, upsert}

module _ {A : Type 0} (p q : A → Bool) (row : A) where
  first_where-put :
      (xs : List A)
      → p row ≡ true
      → any p xs ≡ true
      → first_where p (update_where p (λ r. row) xs) ≡ some row
  unfolding first_where update_where
  first_where-put [] here there = cc
  first_where-put (x ∷ xs) here there = elim (Bool-cases (p x)) [
    | inl hit ↦ rw (hit, here) refl
    | inr miss ↦ rw miss (rw miss (first_where-put xs here (rw miss at there)))
  ]

  first_where-put_other :
      (xs : List A)
      → q row ≡ false
      → ((x : A) → p x ≡ true → q x ≡ false)
      → first_where q (update_where p (λ r. row) xs) ≡ first_where q xs
  unfolding first_where update_where
  first_where-put_other [] here other = refl
  first_where-put_other (x ∷ xs) here other = elim (Bool-cases (p x)) [
    | inl hit ↦ rw (hit, here, other x hit) (first_where-put_other xs here other)
    | inr miss ↦ rw (miss, first_where-put_other xs here other) refl
  ]

  first_where-append_other :
      (xs : List A) → q row ≡ false → first_where q (xs ++ row ∷ []) ≡ first_where q xs
  unfolding first_where
  first_where-append_other [] here = rw here refl
  first_where-append_other (x ∷ xs) here = rw (first_where-append_other xs here) refl

module _ {D : Type 0} where
  pub first_where-upsert :
      (row : MonitorRow D) (rows : List (MonitorRow D))
      → first_where (of_key row.key) (upsert row rows) ≡ some row
  unfolding upsert
  first_where-upsert row rows = elim (Bool-cases (any (of_key row.key) rows)) [
    | inl there ↦
        rw there
          (first_where-put (of_key row.key) (of_key row.key) row rows (text_eq_refl row.key) there)
    | inr new ↦ rw new (first_where-append (of_key row.key) row rows (text_eq_refl row.key) new)
  ]

  pub first_where-upsert_other :
      (key : List ℕ) (row : MonitorRow D) (rows : List (MonitorRow D))
      → text_eq row.key key ≡ false
      → first_where (of_key key) (upsert row rows) ≡ first_where (of_key key) rows
  unfolding upsert
  first_where-upsert_other key row rows differ = elim (Bool-cases (any (of_key row.key) rows)) [
    | inl there ↦ rw there (
        first_where-put_other (of_key row.key) (of_key key) row rows differ
          (λ r same. let e : r.key ≡ row.key = text_eq-eq r.key row.key same in rw e differ))
    | inr new ↦ rw new (first_where-append_other (of_key row.key) (of_key key) row rows differ)
  ]
