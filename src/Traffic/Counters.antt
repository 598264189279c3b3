-- ===== src/Traffic/Counters.antt =====
-- What the second of two readings of a counter adds, in `recordCumulative` of
-- src/server/services/traffic.ts.
use outpost_vpn_server.Prelude.{
  ℕ, ◌-◌, some, List, true, [], ◌∷◌, ◌&&◌, ◌||◌, not, ◌≡◌, refl, arith, if◌then◌else◌, ltb, leb,
  contains, first_where, Bool-cases, inl, inr, ==_refl,
}
use outpost_vpn_server.Traffic.{
  EngineId, hysteria, xray, mihomo, sing_box, amneziawg, same_source, Traffic, TrafficPoint, Delta,
  Cursor, is_cursor, save_cursor, delta_of, write_delta, record_cumulative, max_safe_integer,
}

same_source_refl : (e : EngineId) → same_source e e ≡ true
same_source_refl hysteria = refl
same_source_refl xray = refl
same_source_refl mihomo = refl
same_source_refl sing_box = refl
same_source_refl amneziawg = refl

saved_cursor :
    (c : Cursor) (cs : List Cursor)
    → (x : Cursor) × (first_where
          (is_cursor c.connection_id c.engine c.counter_id)
          (save_cursor c cs)
        ≡ some x)
      × (x.upload ≡ c.upload)
      × (x.download ≡ c.download)
unfolding first_where save_cursor
saved_cursor c [] = (
  c,
  rw (==_refl c.connection_id, ==_refl c.counter_id, same_source_refl c.engine) refl,
  refl,
  refl,
)
saved_cursor c (x ∷ xs) = elim (Bool-cases (is_cursor c.connection_id c.engine c.counter_id x)) [
  | inl same ↦ (
    record x { upload = c.upload; download = c.download; observed_at = c.observed_at },
    rw (same, same) refl,
    refl,
    refl,
  )
  | inr other ↦ let (y, found, u, d) = saved_cursor c xs in (y, rw (other, other) found, u, d)
]

-- A reading that is accepted.
accepted :
    (t : Traffic) (engine : EngineId) (p : TrafficPoint) (now : ℕ) (t' : Traffic) (d : Delta)
    → contains p.connection_id t.connections ≡ true
    → record_cumulative t engine p now ≡ some (t', d)
    → (write_delta t engine p now
          (delta_of (first_where (is_cursor p.connection_id engine p.counter_id) t.cursors) p)
        ≡ t')
      × (delta_of (first_where (is_cursor p.connection_id engine p.counter_id) t.cursors) p ≡ d)
unfolding record_cumulative
accepted t engine p now t' d known e =
    elim (Bool-cases (not (leb p.upload max_safe_integer && leb p.download max_safe_integer))) [
      | inl unsafe ↦ absurd (ground (arith, rw unsafe at e))
      | inr safe ↦ let written = rw (safe, known) at e in (cc, cc)
    ]

-- Two readings of the same counter of a known connection, one after the other: the second adds what the
-- counter has grown by, and where it has fallen below the first reading (the engine was restarted) all
-- that it shows; `reset` says whether one of the two counters has fallen.
pub record_twice :
    (t : Traffic) (engine : EngineId) (p : TrafficPoint) (now : ℕ) (t' : Traffic) (d : Delta)
    (upload download later : ℕ) (t'' : Traffic) (d' : Delta)
    → contains p.connection_id t.connections ≡ true
    → record_cumulative t engine p now ≡ some (t', d)
    → record_cumulative t' engine (record p { upload = upload; download = download }) later
      ≡ some (t'', d')
    → (d'.upload ≡ (if leb p.upload upload then upload - p.upload else upload))
      × (d'.download ≡ (if leb p.download download then download - p.download else download))
      × (d'.reset ≡ (ltb upload p.upload || ltb download p.download))
unfolding write_delta delta_of
record_twice t engine p now t' d upload download later t'' d' known first second =
    let (w, _) = accepted t engine p now t' d known first in
    let after : Traffic =
      write_delta t engine p now
        (delta_of (first_where (is_cursor p.connection_id engine p.counter_id) t.cursors) p) in
    let cursor : Cursor = record {
      connection_id = p.connection_id;
      engine = engine;
      counter_id = p.counter_id;
      upload = p.upload;
      download = p.download;
      observed_at = now;
    } in
    let (x, found, u, v) = saved_cursor cursor t.cursors in
    let (_, same) =
      accepted after engine (record p { upload = upload; download = download }) later t'' d' known
        (rw (← w) at second) in
    rw (← same, found, u, v) (refl, refl, refl)
