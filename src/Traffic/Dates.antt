-- ===== src/Traffic/Dates.antt =====
-- `floorDate` of src/server/services/traffic.ts, for the three sizes of a bucket that it is called with.
use outpost_vpn_server.Prelude.{ℕ, ◌*◌, ◌/◌, ◌≡◌, arith}
use outpost_vpn_server.Traffic.{floor_date}

-- The setters of the date floor it to the whole five minutes, hours and days since 1970 (UTC).
pub floor_date_lem :
    (date : ℕ)
    → (floor_date date 5 ≡ date / 300000 * 300000)
      × (floor_date date 60 ≡ date / 3600000 * 3600000)
      × (floor_date date 1440 ≡ date / 86400000 * 86400000)
unfolding floor_date
floor_date_lem date = (omega arith, omega arith, omega arith)
