-- ===== src/Traffic.antt =====
-- src/server/services/traffic.ts: the counters of traffic. `recordCumulative` turns the cumulative
-- counters that an engine reports into samples, and `compact` rolls old samples up.
pub mod Totals
pub mod Dates
pub mod Counters
mod Tests
use outpost_vpn_server.Prelude.{
  ℕ, ◌+◌, ◌-◌, ◌*◌, ◌/◌, ◌%◌, Option, none, some, List, Bool, true, false, [], ◌∷◌, ◌==◌, ◌&&◌,
  ◌||◌, not, if◌then◌else◌, ltb, leb, is_some, contains, rows_where, first_where, delete_where,
}

abbrev pub max_safe_integer : ℕ
max_safe_integer = 9007199254740991

pub data EngineId : Type 0 where
  hysteria xray mihomo sing_box amneziawg : EngineId

abbrev engine_number : EngineId → ℕ
engine_number hysteria = 0
engine_number xray = 1
engine_number mihomo = 2
engine_number sing_box = 3
engine_number amneziawg = 4

abbrev pub same_source : EngineId → EngineId → Bool
same_source a b = engine_number a == engine_number b

pub data Bucket : Type 0 where
  five_minutes hour day : Bucket

abbrev bucket_number : Bucket → ℕ
bucket_number five_minutes = 0
bucket_number hour = 1
bucket_number day = 2

abbrev pub same_bucket : Bucket → Bucket → Bool
same_bucket a b = bucket_number a == bucket_number b

-- `traffic_samples`, unique by (bucket, bucket_at, connection_id, engine)
pub record Sample : Type 0 where
  pub bucket : Bucket
  pub bucket_at : ℕ
  pub connection_id : ℕ
  pub engine : EngineId
  pub upload : ℕ
  pub download : ℕ

-- `traffic_cursors`, with the primary key (connection_id, engine, counter_id)
pub record Cursor : Type 0 where
  pub connection_id : ℕ
  pub engine : EngineId
  pub counter_id : ℕ
  pub upload : ℕ
  pub download : ℕ
  pub observed_at : ℕ

-- The tables; of `connections`, the ids.
pub record Traffic : Type 0 where
  pub connections : List ℕ
  pub cursors : List Cursor
  pub samples : List Sample

pub record TrafficPoint : Type 0 where
  pub connection_id : ℕ
  pub counter_id : ℕ
  pub upload : ℕ
  pub download : ℕ

-- What `recordCumulative` returns.
pub record Delta : Type 0 where
  pub upload : ℕ
  pub download : ℕ
  pub activity : Bool
  pub reset : Bool

-- `floorDate`, with the setters of `Date` written out
unfoldable pub floor_date : ℕ → ℕ → ℕ
floor_date date minutes =
    let seconds_off = date - date % 60000 in
    let minute = seconds_off / 60000 % 60 in
    let minutes_off = seconds_off - minute * 60000 + minute / minutes * minutes * 60000 in
    let hours = minutes / 60 in
    let of_day = minutes_off / 3600000 % 24 in
    let hours_off = minutes_off - of_day * 3600000 + of_day / hours * hours * 3600000 in
    if leb 60 minutes then hours_off - hours_off / 60000 % 60 * 60000 else minutes_off

abbrev pub same_key : Sample → Sample → Bool
same_key s x =
    same_bucket s.bucket x.bucket
    && s.bucket_at == x.bucket_at
    && s.connection_id == x.connection_id
    && same_source s.engine x.engine

-- SET upload = upload + excluded.upload, download = download + excluded.download
abbrev pub merge : Sample → Sample → Sample
merge x s = record x { upload = x.upload + s.upload; download = x.download + s.download }

-- INSERT ... ON CONFLICT ... DO UPDATE; the key is unique, so there is one row to change at most.
unfoldable pub add_sample : Sample → List Sample → List Sample
add_sample s [] = s ∷ []
add_sample s (x ∷ xs) =
    let rest = add_sample s xs in if same_key s x then merge x s ∷ xs else x ∷ rest

abbrev pub is_cursor : ℕ → EngineId → ℕ → Cursor → Bool
is_cursor connection_id engine counter_id c =
    c.connection_id == connection_id && same_source c.engine engine && c.counter_id == counter_id

unfoldable pub save_cursor : Cursor → List Cursor → List Cursor
save_cursor c [] = c ∷ []
save_cursor c (x ∷ xs) =
    let rest = save_cursor c xs in
    if is_cursor c.connection_id c.engine c.counter_id x
    then record x { upload = c.upload; download = c.download; observed_at = c.observed_at } ∷ xs
    else x ∷ rest

-- `cursor && point >= cursor ? point - cursor : point`
abbrev pub increase : Option ℕ → ℕ → ℕ
increase none point = point
increase (some cursor) point = if leb cursor point then point - cursor else point

abbrev pub cursor_upload : Option Cursor → Option ℕ
cursor_upload none = none
cursor_upload (some c) = some c.upload

abbrev pub cursor_download : Option Cursor → Option ℕ
cursor_download none = none
cursor_download (some c) = some c.download

abbrev pub is_reset : Option Cursor → TrafficPoint → Bool
is_reset none p = false
is_reset (some c) p = ltb p.upload c.upload || ltb p.download c.download

unfoldable pub delta_of : Option Cursor → TrafficPoint → Delta
delta_of cursor p =
    let upload = increase (cursor_upload cursor) p.upload in
    let download = increase (cursor_download cursor) p.download in
    let reset = is_reset cursor p in
    record {
      upload = upload;
      download = download;
      activity = is_some cursor && not reset && (ltb 0 upload || ltb 0 download);
      reset = reset;
    }

-- The transaction of `recordCumulative`.
unfoldable pub write_delta : Traffic → EngineId → TrafficPoint → ℕ → Delta → Traffic
write_delta t engine p observed_at d =
    let sample : Sample = record {
      bucket = five_minutes;
      bucket_at = floor_date observed_at 5;
      connection_id = p.connection_id;
      engine = engine;
      upload = d.upload;
      download = d.download;
    } in
    let cursor : Cursor = record {
      connection_id = p.connection_id;
      engine = engine;
      counter_id = p.counter_id;
      upload = p.upload;
      download = p.download;
      observed_at = observed_at;
    } in
    record t {
      cursors = save_cursor cursor t.cursors;
      samples = if d.upload == 0 && d.download == 0 then t.samples else add_sample sample t.samples;
    }

abbrev pub no_delta : Delta
no_delta = record { upload = 0; download = 0; activity = false; reset = false }

-- `none` is the exception on counters that are no safe integers.
unfoldable pub record_cumulative : Traffic → EngineId → TrafficPoint → ℕ → Option (Traffic × Delta)
record_cumulative t engine p observed_at =
    let cursor = first_where (is_cursor p.connection_id engine p.counter_id) t.cursors in
    let d = delta_of cursor p in
    if not (leb p.upload max_safe_integer && leb p.download max_safe_integer)
    then none
    else if contains p.connection_id t.connections
    then some (write_delta t engine p observed_at d, d)
    else some (t, no_delta)

-- WHERE bucket = ? AND bucket_at < ?
abbrev pub is_old : Bucket → ℕ → Sample → Bool
is_old bucket before s = same_bucket s.bucket bucket && ltb s.bucket_at before

abbrev pub moved : Bucket → ℕ → Sample → Sample
moved target minutes row = record row {
  bucket = target;
  bucket_at = floor_date row.bucket_at minutes;
}

unfoldable pub add_all : Bucket → ℕ → List Sample → List Sample → List Sample
add_all target minutes [] samples = samples
add_all target minutes (row ∷ rows) samples =
    add_all target minutes rows (add_sample (moved target minutes row) samples)

unfoldable pub rollup : Bucket → Bucket → ℕ → ℕ → List Sample → List Sample
rollup source target before minutes samples =
    add_all target minutes (rows_where (is_old source before) samples) samples

abbrev pub is_stale : ℕ → Cursor → Bool
is_stale before c =
    (same_source c.engine mihomo || same_source c.engine sing_box) && ltb c.observed_at before

-- The samples after `compact`: 48 hours of five minutes, 90 days of hours.
unfoldable pub compact_samples : ℕ → ℕ → List Sample → List Sample
compact_samples five_minute_cutoff hourly_cutoff samples =
    delete_where (is_old hour hourly_cutoff) (
      delete_where (is_old five_minutes five_minute_cutoff) (
        rollup hour day hourly_cutoff 1440
          (rollup five_minutes hour five_minute_cutoff 60 samples)))

unfoldable pub compact : Traffic → ℕ → Traffic
compact t reference = record t {
  samples = compact_samples (reference - 172800000) (reference - 7776000000) t.samples;
  cursors = delete_where (is_stale (reference - 172800000)) t.cursors;
}
