-- ===== src/Traffic/Tests.antt =====
-- Traffic at concrete inputs.
use outpost_vpn_server.Prelude.{
  ◌+◌, ◌*◌, ◌/◌, Option, none, some, true, false, [], ◌∷◌, ◌≡◌, refl, first_where, rows_where,
  delete_where,
}
use outpost_vpn_server.Traffic.{
  hysteria, hour, Traffic, TrafficPoint, Delta, record_cumulative, floor_date, delta_of,
  write_delta, save_cursor, add_sample, compact, compact_samples, rollup, add_all, no_delta,
}
use outpost_vpn_server.Traffic.Totals.{
  up, down, traffic_of, sum_of, compact_keeps_totals, record_adds,
}
use outpost_vpn_server.Traffic.Dates.{floor_date_lem}
use outpost_vpn_server.Traffic.Counters.{record_twice}

abbrev idle_traffic : Traffic
idle_traffic = record { connections = 7 ∷ []; cursors = []; samples = [] }

abbrev first_point : TrafficPoint
first_point = record { connection_id = 7; counter_id = 0; upload = 100; download = 40 }

abbrev second_point : TrafficPoint
second_point = record first_point { upload = 150; download = 10 }

abbrev recorded : Option (Traffic × Delta) → Traffic
recorded none = idle_traffic
recorded (some r) = r.0

abbrev returned_delta : Option (Traffic × Delta) → Delta
returned_delta none = no_delta
returned_delta (some r) = r.1

-- 1 000 s and 1 600 s after the start of 1970.
first_result : Option (Traffic × Delta)
unfolding record_cumulative first_where delta_of write_delta save_cursor add_sample floor_date
first_result = record_cumulative idle_traffic hysteria first_point 1000000

second_result : Option (Traffic × Delta)
unfolding first_result
second_result = record_cumulative (recorded first_result) hysteria second_point 1600000

-- The download has fallen: it counts as a whole.
second_delta :
    returned_delta second_result
    ≡ record { upload = 50; download = 10; activity = false; reset = true }
unfolding second_result
second_delta = refl

record_twice_example :
    ((returned_delta second_result).upload ≡ 50)
    × ((returned_delta second_result).download ≡ 10)
    × ((returned_delta second_result).reset ≡ true)
unfolding second_result
record_twice_example =
    record_twice idle_traffic hysteria first_point 1000000 (recorded first_result)
      (returned_delta first_result) 150 10 1600000 (recorded second_result)
      (returned_delta second_result) refl refl refl

record_adds_example :
    sum_of (traffic_of up 7) (recorded second_result).samples
    ≡ sum_of (traffic_of up 7) (recorded first_result).samples + 50
unfolding second_result
record_adds_example =
    record_adds up 7 (recorded first_result) hysteria second_point 1600000 (recorded second_result)
      (returned_delta second_result) refl

-- Three days later the samples of five minutes are one of an hour.
compacted :
    (compact (recorded second_result) 259200000).samples
    ≡ record {
      bucket = hour;
      bucket_at = 0;
      connection_id = 7;
      engine = hysteria;
      upload = 150;
      download = 50;
    }
      ∷ []
unfolding second_result compact compact_samples rollup add_all rows_where delete_where
compacted = refl

compact_keeps_totals_example :
    sum_of (traffic_of down 7) (compact (recorded second_result) 259200000).samples
    ≡ sum_of (traffic_of down 7) (recorded second_result).samples
compact_keeps_totals_example = compact_keeps_totals down 7 (recorded second_result) 259200000

floor_date_lem_example :
    (floor_date 1600000 5 ≡ 1600000 / 300000 * 300000)
    × (floor_date 1600000 60 ≡ 1600000 / 3600000 * 3600000)
    × (floor_date 1600000 1440 ≡ 1600000 / 86400000 * 86400000)
floor_date_lem_example = floor_date_lem 1600000
