-- ===== src/DateTime/RoundTrip.antt =====
-- rsfbclient-core/src/date_time.rs: a time that was encoded and is decoded again.
use rsfbclient.Base.{lt→ltb, ℕ, ◌+◌, ◌*◌, ◌/◌, ◌%◌, ◌<◌, ◌≡◌, refl, some, arith}
use rsfbclient.DateTime.{NaiveTime, fraction_to_nanos, decode_time, encode_time}

pub record InDay (time : NaiveTime) : Type 0 where
  pub hour_in : time.hour < 24
  pub minute_in : time.minute < 60
  pub second_in : time.second < 60
  pub nanosecond_in : time.nanosecond < 1_000_000_000

-- The ten thousandths of a second of a time, the fraction of its second given.
ticks : NaiveTime → ℕ → ℕ
ticks time f = ((time.hour * 60 + time.minute) * 60 + time.second) * 10_000 + f

module _ (time : NaiveTime) (fits : InDay time) (f : ℕ) (h : f < 10_000) where
  hour-ticks : ticks time f / 36_000_000 ≡ time.hour
  unfolding ticks
  hour-ticks = omega (arith, fits.minute_in, fits.second_in)

  in_hour-ticks : ticks time f % 36_000_000 ≡ (time.minute * 60 + time.second) * 10_000 + f
  unfolding ticks
  in_hour-ticks = omega (arith, fits.minute_in, fits.second_in)

  minute-ticks : ((time.minute * 60 + time.second) * 10_000 + f) / 600_000 ≡ time.minute
  minute-ticks = omega (arith, fits.second_in)

  in_minute-ticks :
      ((time.minute * 60 + time.second) * 10_000 + f) % 600_000 ≡ time.second * 10_000 + f
  in_minute-ticks = omega (arith, fits.second_in)

  second-ticks : (time.second * 10_000 + f) / 10_000 ≡ time.second
  second-ticks = omega arith

  fraction-ticks : (time.second * 10_000 + f) % 10_000 ≡ f
  fraction-ticks = omega arith

-- `decode_time` of `encode_time` of a time of the day, without a leap second, is that time with its
-- nanoseconds cut down to a multiple of the ten thousandths of a second that the server counts.
pub decode_time-encode_time :
    (time : NaiveTime)
    → InDay time
    → decode_time (encode_time time)
      ≡ some (record time { nanosecond = time.nanosecond / fraction_to_nanos * fraction_to_nanos })
unfolding decode_time encode_time ticks
decode_time-encode_time time fits =
    let f = time.nanosecond / fraction_to_nanos in
    let h : f < 10_000 = omega (arith, fits.nanosecond_in) in
    rw
      (
        hour-ticks time fits f h,
        in_hour-ticks time fits f h,
        minute-ticks time fits f h,
        in_minute-ticks time fits f h,
        second-ticks time fits f h,
        fraction-ticks time fits f h,
        lt→ltb time.hour 24 fits.hour_in,
      )
      refl
