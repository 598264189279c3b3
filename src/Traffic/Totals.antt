-- ===== src/Traffic/Totals.antt =====
-- The traffic of a connection over all samples: what `recordCumulative` adds to it, and that `compact`
-- of src/server/services/traffic.ts does not change it.
use outpost_vpn_server.Prelude.{
  ℕ, ◌+◌, ◌-◌, some, List, Bool, true, false, [], ◌∷◌, ◌==◌, ◌&&◌, not, ◌≡◌, refl, ◌∙◌, arith,
  if◌then◌else◌, leb, contains, rows_where, first_where, delete_where, Bool-cases, inl, inr,
}
use outpost_vpn_server.Traffic.{
  EngineId, Bucket, five_minutes, hour, day, Sample, Traffic, TrafficPoint, Delta, same_bucket,
  same_key, merge, add_sample, delta_of, write_delta, record_cumulative, is_old, moved, add_all,
  rollup, compact_samples, compact, is_cursor, max_safe_integer, no_delta,
}

pub sum_of : (Sample → ℕ) → List Sample → ℕ
sum_of w [] = 0
sum_of w (s ∷ ss) = w s + sum_of w ss

-- A weight that a row has alone and that a merged row has from both.
abbrev IsAdditive : (Sample → ℕ) → Type 0
IsAdditive w = (s x : Sample) → same_key s x ≡ true → w (merge x s) ≡ w x + w s

sum_of-add_sample :
    (w : Sample → ℕ) (s : Sample) (xs : List Sample)
    → IsAdditive w
    → sum_of w (add_sample s xs) ≡ sum_of w xs + w s
unfolding sum_of add_sample
sum_of-add_sample w s [] additive = omega arith
sum_of-add_sample w s (x ∷ xs) additive = elim (Bool-cases (same_key s x)) [
  | inl same ↦ rw same (omega (arith, additive s x same))
  | inr other ↦ rw other (omega (arith, sum_of-add_sample w s xs additive))
]

-- The weight of the rows that satisfy a test.
abbrev masked : (Sample → Bool) → (Sample → ℕ) → Sample → ℕ
masked c w s = if c s then w s else 0

sum_of-delete_where :
    (w : Sample → ℕ) (c : Sample → Bool) (xs : List Sample)
    → sum_of w (delete_where c xs) + sum_of (masked c w) xs ≡ sum_of w xs
unfolding sum_of delete_where
sum_of-delete_where w c [] = omega arith
sum_of-delete_where w c (x ∷ xs) = ground (arith, sum_of-delete_where w c xs)

sum_of-rows_where :
    (w : Sample → ℕ) (c : Sample → Bool) (xs : List Sample)
    → sum_of w (rows_where c xs) ≡ sum_of (masked c w) xs
unfolding sum_of rows_where
sum_of-rows_where w c [] = omega arith
sum_of-rows_where w c (x ∷ xs) = ground (arith, sum_of-rows_where w c xs)

sum_of-add_all :
    (w v : Sample → ℕ) (target : Bucket) (minutes : ℕ) (rows xs : List Sample)
    → IsAdditive w
    → ((row : Sample) → w (moved target minutes row) ≡ v row)
    → sum_of w (add_all target minutes rows xs) ≡ sum_of w xs + sum_of v rows
unfolding sum_of add_all
sum_of-add_all w v target minutes [] xs additive same = omega arith
sum_of-add_all w v target minutes (row ∷ rows) xs additive same = omega (
  arith,
  sum_of-add_all w v target minutes rows (add_sample (moved target minutes row) xs) additive same,
  sum_of-add_sample w (moved target minutes row) xs additive,
  same row,
)

sum_of-zero : (w : Sample → ℕ) (xs : List Sample) → ((s : Sample) → w s ≡ 0) → sum_of w xs ≡ 0
unfolding sum_of
sum_of-zero w [] none_of = omega arith
sum_of-zero w (x ∷ xs) none_of = omega (arith, none_of x, sum_of-zero w xs none_of)

is_old_key :
    (bucket : Bucket) (before : ℕ) (s x : Sample)
    → same_key s x ≡ true
    → is_old bucket before s ≡ is_old bucket before x
is_old_key bucket before s x h = ground arith

masked-IsAdditive :
    (w : Sample → ℕ) (bucket : Bucket) (before : ℕ)
    → IsAdditive w
    → IsAdditive (masked (is_old bucket before) w)
masked-IsAdditive w bucket before additive s x h = elim (Bool-cases (is_old bucket before x)) [
  | inl old ↦ rw (old, is_old_key bucket before s x h ∙ old) (additive s x h)
  | inr recent ↦ rw (recent, is_old_key bucket before s x h ∙ recent) (omega arith)
]

-- The upload of a connection, or its download.
pub data Direction : Type 0 where
  up down : Direction

abbrev amount : Direction → ℕ → ℕ → ℕ
amount up upload download = upload
amount down upload download = download

abbrev pub traffic_of : Direction → ℕ → Sample → ℕ
traffic_of direction id s =
    if s.connection_id == id then amount direction s.upload s.download else 0

traffic_of-IsAdditive : (direction : Direction) (id : ℕ) → IsAdditive (traffic_of direction id)
traffic_of-IsAdditive up id s x h = ground arith
traffic_of-IsAdditive down id s x h = ground arith

module _ (direction : Direction) (id : ℕ) where
  -- What old rows of a bucket carry.
  abbrev old_traffic : Bucket → ℕ → Sample → ℕ
  old_traffic bucket before = masked (is_old bucket before) (traffic_of direction id)

  rollup_total :
      (source target : Bucket) (before minutes : ℕ) (xs : List Sample)
      → sum_of (traffic_of direction id) (rollup source target before minutes xs)
        ≡ sum_of (traffic_of direction id) xs + sum_of (old_traffic source before) xs
  unfolding rollup
  rollup_total source target before minutes xs = omega (
    arith,
    sum_of-add_all (traffic_of direction id) (traffic_of direction id) target minutes
        (rows_where (is_old source before) xs) xs (traffic_of-IsAdditive direction id)
        (λ row. refl),
    sum_of-rows_where (traffic_of direction id) (is_old source before) xs,
  )

  -- A rollup leaves the rows of the buckets alone that it does not write.
  rollup_old :
      (source target bucket : Bucket) (before after minutes : ℕ) (xs : List Sample)
      → same_bucket target bucket ≡ false
      → sum_of (old_traffic bucket after) (rollup source target before minutes xs)
        ≡ sum_of (old_traffic bucket after) xs
  unfolding rollup
  rollup_old source target bucket before after minutes xs other = omega (
    arith,
    sum_of-add_all (old_traffic bucket after) (λ s. 0) target minutes
        (rows_where (is_old source before) xs) xs
        (masked-IsAdditive (traffic_of direction id) bucket after
          (traffic_of-IsAdditive direction id))
        (λ row. rw other refl),
    sum_of-zero (λ s. 0) (rows_where (is_old source before) xs) (λ s. refl),
  )

  delete_old :
      (before after : ℕ) (xs : List Sample)
      → sum_of (old_traffic hour after) (delete_where (is_old five_minutes before) xs)
        ≡ sum_of (old_traffic hour after) xs
  delete_old before after xs = omega (
    arith,
    sum_of-delete_where (old_traffic hour after) (is_old five_minutes before) xs,
    sum_of-zero (masked (is_old five_minutes before) (old_traffic hour after)) xs
        (λ s. ground arith),
  )

  compact_total :
      (cutoff hourly : ℕ) (xs : List Sample)
      → sum_of (traffic_of direction id) (compact_samples cutoff hourly xs)
        ≡ sum_of (traffic_of direction id) xs
  unfolding compact_samples
  compact_total cutoff hourly xs =
      let first = rollup five_minutes hour cutoff 60 xs in
      let second = rollup hour day hourly 1440 first in
      let third = delete_where (is_old five_minutes cutoff) second in
      omega (
        arith,
        rollup_total five_minutes hour cutoff 60 xs,
        rollup_total hour day hourly 1440 first,
        rollup_old hour day five_minutes hourly cutoff 1440 first refl,
        rollup_old five_minutes hour five_minutes cutoff cutoff 60 xs refl,
        rollup_old hour day hour hourly hourly 1440 first refl,
        delete_old cutoff hourly second,
        sum_of-delete_where (traffic_of direction id) (is_old five_minutes cutoff) second,
        sum_of-delete_where (traffic_of direction id) (is_old hour hourly) third,
      )

  -- Compaction neither loses nor invents traffic: the upload and the download of every connection,
  -- summed over all samples, are what they were, whenever it runs.
  pub compact_keeps_totals :
      (t : Traffic) (reference : ℕ)
      → sum_of (traffic_of direction id) (compact t reference).samples
        ≡ sum_of (traffic_of direction id) t.samples
  unfolding compact
  compact_keeps_totals t reference =
      compact_total (reference - 172800000) (reference - 7776000000) t.samples

  nothing_amounts :
      (upload download : ℕ)
      → (upload == 0 && download == 0) ≡ true
      → amount direction upload download ≡ 0
  nothing_amounts upload download h = by_direction direction
    where
      by_direction : (r : Direction) → amount r upload download ≡ 0
      by_direction up = ground arith
      by_direction down = ground arith

  write_delta_adds :
      (t : Traffic) (engine : EngineId) (p : TrafficPoint) (now : ℕ) (d : Delta)
      → sum_of (traffic_of direction id) (write_delta t engine p now d).samples
        ≡ sum_of (traffic_of direction id) t.samples
          + (if p.connection_id == id then amount direction d.upload d.download else 0)
  unfolding write_delta
  write_delta_adds t engine p now d = elim (Bool-cases (d.upload == 0 && d.download == 0)) [
    | inl idle ↦ rw (idle, nothing_amounts d.upload d.download idle) (ground arith)
    | inr busy ↦ rw busy (
        sum_of-add_sample (traffic_of direction id) _ t.samples
          (traffic_of-IsAdditive direction id))
  ]

  -- What `recordCumulative` returns as the increase is what the samples of the connection gain, and the
  -- samples of other connections gain nothing.
  pub record_adds :
      (t : Traffic) (engine : EngineId) (p : TrafficPoint) (now : ℕ) (t' : Traffic) (d : Delta)
      → record_cumulative t engine p now ≡ some (t', d)
      → sum_of (traffic_of direction id) t'.samples
        ≡ sum_of (traffic_of direction id) t.samples
          + (if p.connection_id == id then amount direction d.upload d.download else 0)
  unfolding record_cumulative
  record_adds t engine p now t' d e =
      let cursor = first_where (is_cursor p.connection_id engine p.counter_id) t.cursors in
      elim (Bool-cases (not (leb p.upload max_safe_integer && leb p.download max_safe_integer))) [
        | inl unsafe ↦ absurd (ground (arith, rw unsafe at e))
        | inr safe ↦ elim (Bool-cases (contains p.connection_id t.connections)) [
          | inl known ↦
              let written = rw (safe, known) at e in
              let same : write_delta t engine p now (delta_of cursor p) ≡ t' = cc in
              let same_delta : delta_of cursor p ≡ d = cc in
              rw (← same, ← same_delta) (write_delta_adds t engine p now (delta_of cursor p))
          | inr unknown ↦
              let written = rw (safe, unknown) at e in
              let same : t ≡ t' = cc in
              let same_delta : no_delta ≡ d = cc in
              rw (← same, ← same_delta) (rw (nothing_amounts 0 0 refl) (ground arith))
        ]
      ]
