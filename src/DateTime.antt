-- ===== src/DateTime.antt =====
-- rsfbclient-core/src/date_time.rs: dates and times as the server counts them. The dates and times of
-- the `chrono` crate are the records of what its accessors answer, for the years from 0 on. Where the
-- code panics, in the arithmetic of an i32 or in a constructor of `chrono`, there is no answer here. Nor
-- is there one for the days before the year 0, on which the source says that its routine has problems,
-- and behind the year 262142, the last one that every release of chrono 0.4 has.
pub mod RoundTrip
use rsfbclient.Base.{
  ◌==◌, ◌&&◌, leb, ltb, if◌then◌else◌, ℕ, ◌+◌, ◌-◌, ◌*◌, ◌/◌, ◌%◌, ◌^◌, Option, none, some,
}
use rsfbclient.Base.Int.{ℤ, pos, negsuc}

pub record NaiveDate : Type 0 where
  pub year : ℕ
  pub month : ℕ
  pub day : ℕ

pub record NaiveTime : Type 0 where
  pub hour : ℕ
  pub minute : ℕ
  pub second : ℕ
  pub nanosecond : ℕ

pub record NaiveDateTime : Type 0 where
  pub date : NaiveDate
  pub time : NaiveTime

-- `ISC_TIMESTAMP` of rsfbclient-core/src/ibase.rs: the day, an i32, and the ten thousandths of a second.
pub record IscTimestamp : Type 0 where
  pub timestamp_date : ℤ
  pub timestamp_time : ℕ

abbrev pub isc_time_seconds_precision : ℕ
isc_time_seconds_precision = 10_000

abbrev pub fraction_to_nanos : ℕ
fraction_to_nanos = 100_000

-- `nday += 2400001 - 1721119`
abbrev nday_of : ℤ → Option ℕ
nday_of (pos n) = some (n + 678_882)
nday_of (negsuc n) = if ltb (n + 1) 678_882 then some (678_882 - (n + 1)) else none

-- `decode_date` from its second assignment on, where the number of the day is above 0.
unfoldable pub decode_nday : ℕ → NaiveDate
decode_nday nday =
    let century = (4 * nday - 1) / 146_097 in
    let in_century = 4 * nday - 1 - 146_097 * century in
    let quarter = in_century / 4 in
    let year_of = (4 * quarter + 3) / 1461 in
    let day_of_year = (4 * quarter + 3 - 1461 * year_of + 4) / 4 in
    let month = (5 * day_of_year - 3) / 153 in
    let day = (5 * day_of_year - 3 - 153 * month + 5) / 5 in
    if ltb month 10
    then record { year = 100 * century + year_of; month = month + 3; day = day }
    else record { year = 100 * century + year_of + 1; month = month - 9; day = day }

abbrev max_year : ℕ
max_year = 262_142

abbrev in_range : Option ℕ → Option NaiveDate
in_range none = none
in_range (some nday) =
    let date = decode_nday nday in
    if ltb (4 * nday) (2 ^ 31) && leb date.year max_year then some date else none

unfoldable pub decode_date : ℤ → Option NaiveDate
decode_date date = in_range (nday_of date)

-- The day from 0000-03-01, which is 1, for a date from then on.
unfoldable pub encode_nday : NaiveDate → ℕ
encode_nday date =
    let month = if ltb 2 date.month then date.month - 3 else date.month + 9 in
    let year = if ltb 2 date.month then date.year else date.year - 1 in
    let c = year / 100 in
    let ya = year - 100 * c in 146_097 * c / 4 + 1461 * ya / 4 + (153 * month + 2) / 5 + date.day

-- `nday + 1721119 - 2400001`
abbrev isc_date : ℕ → ℤ
isc_date nday = if ltb nday 678_882 then negsuc (678_882 - nday - 1) else pos (nday - 678_882)

-- In January and February of the year 0 the source's `year` is -1, so that its `c` is 0, its `ya` is -1
-- and `1461 * ya / 4` is -365.
unfoldable pub encode_date : NaiveDate → ℤ
encode_date date =
    if date.year == 0 && leb date.month 2
    then negsuc (678_882 + 365 - (153 * (date.month + 9) + 2) / 5 - date.day - 1)
    else isc_date (encode_nday date)

unfoldable pub decode_time : ℕ → Option NaiveTime
decode_time time =
    let hours = time / (3600 * isc_time_seconds_precision) in
    let in_hour = time % (3600 * isc_time_seconds_precision) in
    let minutes = in_hour / (60 * isc_time_seconds_precision) in
    let in_minute = in_hour % (60 * isc_time_seconds_precision) in
    let seconds = in_minute / isc_time_seconds_precision in
    let fraction = in_minute % isc_time_seconds_precision in
    if ltb hours 24
    then some (record {
      hour = hours;
      minute = minutes;
      second = seconds;
      nanosecond = fraction * fraction_to_nanos;
    })
    else none

unfoldable pub encode_time : NaiveTime → ℕ
encode_time time =
    ((time.hour * 60 + time.minute) * 60 + time.second) * isc_time_seconds_precision
    + time.nanosecond / fraction_to_nanos

abbrev and_time : Option NaiveDate → Option NaiveTime → Option NaiveDateTime
and_time (some date) (some time) = some (record { date = date; time = time })
and_time _ _ = none

unfoldable pub decode_timestamp : IscTimestamp → Option NaiveDateTime
decode_timestamp ts = and_time (decode_date ts.timestamp_date) (decode_time ts.timestamp_time)

unfoldable pub encode_timestamp : NaiveDateTime → IscTimestamp
encode_timestamp dt = record {
  timestamp_date = encode_date dt.date;
  timestamp_time = encode_time dt.time;
}
