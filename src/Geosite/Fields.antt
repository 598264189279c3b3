-- ===== src/Geosite/Fields.antt =====
-- Reading a message ends, and does not depend on the fuel.
use outpost_vpn_server.Prelude.{
  ℕ, zero, suc, ◌≤◌, Option, none, some, List, Bool, true, false, [], ◌∷◌, ◌==◌, ◌&&◌, ◌≡◌, refl,
  ap, ◌∙◌, arith, if◌then◌else◌, length, Option-cases, inl, inr,
}
use outpost_vpn_server.Geosite.Reader.{◌>>=◌, tag, varint, bytes_field, skip}
use outpost_vpn_server.Geosite.Varint.{varint_shorter}
use outpost_vpn_server.Geosite.Shorter.{tag_shorter, bytes_field_shorter, skip_shorter}
use outpost_vpn_server.Geosite.Message.{
  ended, continue, value_of, read_fields, read_all, skip_field, text_field, attribute_round,
  parse_attribute, ParsedDomain, domain_round, parse_domain, Site, site_round, code_round,
}

-- A round that leaves no more bytes than it was given.
abbrev pub Shrinks : {S : Type 0} → (S → ℕ → ℕ → List ℕ → Option (S × List ℕ)) → Type 0
Shrinks {S} round =
    (s : S) (field wire : ℕ) (bytes : List ℕ) (s' : S) (left : List ℕ)
    → round s field wire bytes ≡ some (s', left)
    → length left ≤ length bytes

module _ {S : Type 0} (round : S → ℕ → ℕ → List ℕ → Option (S × List ℕ)) where
  -- As much fuel as there are bytes is enough: more changes nothing.
  pub read_fields_fuel :
      (fuel more : ℕ) (s : S) (bytes : List ℕ)
      → Shrinks round
      → length bytes ≤ fuel
      → length bytes ≤ more
      → read_fields fuel round s bytes ≡ read_fields more round s bytes
  unfolding read_fields continue
  read_fields_fuel fuel more s [] shrinks h k = refl
  read_fields_fuel zero more s (b ∷ bytes) shrinks h k = absurd (omega arith)
  read_fields_fuel (suc fuel) zero s (b ∷ bytes) shrinks h k = absurd (omega arith)
  read_fields_fuel (suc fuel) (suc more) s (b ∷ bytes) shrinks h k =
      elim (Option-cases (tag (b ∷ bytes))) [
        | inl failed ↦ rw failed refl
        | inr (r, tagged) ↦ elim (Option-cases (round s r.0 r.1 r.2)) [
          | inl refused ↦ rw (tagged, refused) refl
          | inr (p, done) ↦
              let before = tag_shorter (b ∷ bytes) r.0 r.1 r.2 tagged in
              let after = shrinks s r.0 r.1 r.2 p.0 p.1 done in
              rw (tagged, done)
                (read_fields_fuel fuel more p.0 p.1 shrinks (omega arith) (omega arith))
        ]
      ]

  -- One round of the loop.
  pub read_all_round :
      (s s' : S) (b : ℕ) (bytes rest left : List ℕ) (field wire : ℕ)
      → Shrinks round
      → tag (b ∷ bytes) ≡ some (field, wire, rest)
      → round s field wire rest ≡ some (s', left)
      → read_all round s (b ∷ bytes) ≡ read_all round s' left
  unfolding read_all read_fields continue value_of
  read_all_round s s' b bytes rest left field wire shrinks tagged done =
      let before = tag_shorter (b ∷ bytes) field wire rest tagged in
      let after = shrinks s field wire rest s' left done in
      rw (tagged, done)
        (ap value_of (
          read_fields_fuel (length bytes) (length left) s' left shrinks (omega arith)
            (omega arith)))

  -- With as much fuel as there are bytes, the loop does not run out of it.
  read_fields_ends :
      (fuel : ℕ) (s : S) (bytes : List ℕ)
      → Shrinks round
      → length bytes ≤ fuel
      → read_fields fuel round s bytes ≡ ended (value_of (read_fields fuel round s bytes))
  unfolding read_fields continue value_of
  read_fields_ends fuel s [] shrinks h = refl
  read_fields_ends zero s (b ∷ bytes) shrinks h = absurd (omega arith)
  read_fields_ends (suc fuel) s (b ∷ bytes) shrinks h = elim (Option-cases (tag (b ∷ bytes))) [
    | inl failed ↦ rw failed refl
    | inr (r, tagged) ↦ elim (Option-cases (round s r.0 r.1 r.2)) [
      | inl refused ↦ rw (tagged, refused) refl
      | inr (p, done) ↦
          let before = tag_shorter (b ∷ bytes) r.0 r.1 r.2 tagged in
          let after = shrinks s r.0 r.1 r.2 p.0 p.1 done in
          rw (tagged, done) (read_fields_ends fuel p.0 p.1 shrinks (omega arith))
    ]
  ]

  pub read_all_ends :
      (fuel : ℕ) (s : S) (bytes : List ℕ)
      → Shrinks round
      → length bytes ≤ fuel
      → read_fields fuel round s bytes ≡ ended (read_all round s bytes)
  unfolding read_all
  read_all_ends fuel s bytes shrinks h =
      read_fields_fuel fuel (length bytes) s bytes shrinks h (omega arith)
      ∙ read_fields_ends (length bytes) s bytes shrinks (omega arith)

-- At most `n` bytes are left, if the reading succeeds.
data Leaves {S : Type 0} (n : ℕ) : Option (S × List ℕ) → Type 0 where
  failed : Leaves n none
  left : {p : S × List ℕ} → length p.1 ≤ n → Leaves n (some p)

leaves :
    {S : Type 0} (n : ℕ) (m : Option (S × List ℕ))
    → ((a : S) (rest : List ℕ) → m ≡ some (a, rest) → length rest ≤ n)
    → Leaves n m
leaves n none h = failed
leaves n (some (a, rest)) h = left (h a rest refl)

bind-Leaves :
    {S T : Type 0} {n : ℕ} {m : Option (S × List ℕ)} {f : S × List ℕ → Option (T × List ℕ)}
    → Leaves n m
    → ((p : S × List ℕ) → length p.1 ≤ n → Leaves n (f p))
    → Leaves n (m >>= f)
bind-Leaves failed h = failed
bind-Leaves (left {p = p} k) h = h p k

bind_any-Leaves :
    {S A : Type 0} {n : ℕ} (m : Option A) {f : A → Option (S × List ℕ)}
    → ((a : A) → Leaves n (f a))
    → Leaves n (m >>= f)
bind_any-Leaves none h = failed
bind_any-Leaves (some a) h = h a

if-Leaves :
    {S : Type 0} {n : ℕ} (b : Bool) {m k : Option (S × List ℕ)}
    → Leaves n m
    → Leaves n k
    → Leaves n (if b then m else k)
if-Leaves true h k = h
if-Leaves false h k = k

value-Leaves :
    {S : Type 0} {n : ℕ} {m : Option (S × List ℕ)} {a : S} {rest : List ℕ}
    → Leaves n m
    → m ≡ some (a, rest)
    → length rest ≤ n
value-Leaves failed e = absurd (clash e)
  where
    clash : {A : Type 0} {a : A} → none ≡ some a → ⊥
    clash e = cc
value-Leaves {rest = rest} (left {p = p} h) e =
    let same : p.1 ≡ rest = ground arith in rw (← same) h

varint-Leaves : (bytes : List ℕ) → Leaves (length bytes) (varint bytes)
varint-Leaves bytes = leaves _ _ (λ n rest e. omega (arith, varint_shorter bytes n rest e))

bytes_field-Leaves : (bytes : List ℕ) → Leaves (length bytes) (bytes_field bytes)
bytes_field-Leaves bytes = leaves _ _ (bytes_field_shorter bytes)

skip_field-Leaves :
    {S : Type 0} (s : S) (wire : ℕ) (bytes : List ℕ)
    → Leaves (length bytes) (skip_field s wire bytes)
unfolding skip_field
skip_field-Leaves s wire bytes = elim (Option-cases (skip wire bytes)) [
  | inl refused ↦ rw refused failed
  | inr (rest, skipped) ↦ rw skipped (left (skip_shorter wire bytes rest skipped))
]

module _ (decode : List ℕ → Option (List ℕ)) where
  text_field-Leaves : (bytes : List ℕ) → Leaves (length bytes) (text_field decode bytes)
  unfolding text_field
  text_field-Leaves bytes =
      bind-Leaves (bytes_field-Leaves bytes) λ p h. bind_any-Leaves (decode p.0) λ text. left h

  pub attribute_round-Shrinks : Shrinks (attribute_round decode)
  unfolding attribute_round
  attribute_round-Shrinks key field wire bytes s' rest e =
      value-Leaves
        (if-Leaves (field == 1 && wire == 2) (text_field-Leaves bytes)
          (skip_field-Leaves key wire bytes))
        e

  pub domain_round-Shrinks : Shrinks (domain_round decode)
  unfolding domain_round
  domain_round-Shrinks d field wire bytes s' rest e =
      value-Leaves
        (if-Leaves (field == 1 && wire == 0) (bind-Leaves (varint-Leaves bytes) λ p h. left h) (
          if-Leaves (field == 2 && wire == 2) (bind-Leaves (text_field-Leaves bytes) λ p h. left h)
            (if-Leaves (field == 3 && wire == 2)
              (bind-Leaves (bytes_field-Leaves bytes)
                λ p h. bind_any-Leaves (parse_attribute decode p.0) λ attribute. left h)
              (skip_field-Leaves d wire bytes))))
        e

  pub site_round-Shrinks : Shrinks (site_round decode)
  unfolding site_round
  site_round-Shrinks s field wire bytes s' rest e =
      value-Leaves
        (if-Leaves (field == 1 && wire == 2) (bind-Leaves (text_field-Leaves bytes) λ p h. left h) (
          if-Leaves (field == 2 && wire == 2)
            (bind-Leaves (bytes_field-Leaves bytes)
              λ p h. bind_any-Leaves (parse_domain decode p.0) λ domain. left h)
            (if-Leaves (field == 4 && wire == 2)
              (bind-Leaves (text_field-Leaves bytes) λ p h. left h)
              (skip_field-Leaves s wire bytes))))
        e

  pub code_round-Shrinks : Shrinks (code_round decode)
  unfolding code_round
  code_round-Shrinks s field wire bytes s' rest e =
      value-Leaves
        (if-Leaves (field == 1 && wire == 2) (bind-Leaves (text_field-Leaves bytes) λ p h. left h) (
          if-Leaves (field == 4 && wire == 2) (bind-Leaves (text_field-Leaves bytes) λ p h. left h)
            (skip_field-Leaves s wire bytes)))
        e

  -- The four loops over a message end after at most as many rounds as the message has bytes: whatever
  -- number of rounds from there on is allowed, none runs out of it, and each ends with the value or the
  -- exception that it gives with as many rounds as there are bytes.
  pub messages_end :
      (bytes key : List ℕ) (d : ParsedDomain) (s : Site) (codes : List ℕ × List ℕ) (fuel : ℕ)
      → length bytes ≤ fuel
      → (read_fields fuel (attribute_round decode) key bytes
          ≡ ended (read_all (attribute_round decode) key bytes))
        × (read_fields fuel (domain_round decode) d bytes
            ≡ ended (read_all (domain_round decode) d bytes))
        × (read_fields fuel (site_round decode) s bytes
            ≡ ended (read_all (site_round decode) s bytes))
        × (read_fields fuel (code_round decode) codes bytes
            ≡ ended (read_all (code_round decode) codes bytes))
  messages_end bytes key d s codes fuel h = (
    read_all_ends (attribute_round decode) fuel key bytes attribute_round-Shrinks h,
    read_all_ends (domain_round decode) fuel d bytes domain_round-Shrinks h,
    read_all_ends (site_round decode) fuel s bytes site_round-Shrinks h,
    read_all_ends (code_round decode) fuel codes bytes code_round-Shrinks h,
  )
