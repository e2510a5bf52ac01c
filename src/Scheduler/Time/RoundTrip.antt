-- ===== src/Scheduler/Time/RoundTrip.antt =====
-- A time that was written reads back.
use shclaw.Base.{ℕ, ◌≤◌, ◌<◌, ◌≡◌, refl, ◌∙◌, true, false, some, [], ◌∷◌, ◌++◌, arith, ◌==◌, Bytes}
use shclaw.Base.Int.{ℤ}
use shclaw.Scheduler.Time.{
  Tm, Calendar, digits, two_digits, expect, seconds, fraction, in_range, zoned, date_time,
  parse_time, sched_parse_time, pad2, pad4, format_tm, format_time,
}

pub record IsDate (t : Tm) : Type 0 where
  pub year : t.year < 10000
  pub mon : (1 ≤ t.mon) × (t.mon ≤ 12)
  pub mday : (1 ≤ t.mday) × (t.mday ≤ 31)
  pub hour : t.hour ≤ 23
  pub min : t.min ≤ 59
  pub sec : t.sec ≤ 60

digits-pad2 : (n : ℕ) (rest : Bytes) → n < 100 → two_digits (pad2 n ++ rest) ≡ some (n, rest)
unfolding digits
digits-pad2 n rest h = ground arith

digits-pad4 : (n : ℕ) (rest : Bytes) → n < 10000 → digits 4 0 (pad4 n ++ rest) ≡ some (n, rest)
unfolding digits
digits-pad4 n rest h = ground arith

seconds-pad2 :
    (n : ℕ) (c : ℕ) (rest : Bytes)
    → n < 100
    → (c == b'.') ≡ false
    → seconds (b':' ∷ (pad2 n ++ c ∷ rest)) ≡ some (n, c ∷ rest)
unfolding seconds fraction
seconds-pad2 n c rest h e = rw (digits-pad2 n (c ∷ rest) h, e) refl

date_time-format_tm :
    (t : Tm) → IsDate t → date_time (format_tm t (b'Z' ∷ [])) ≡ some (t, b'Z' ∷ [])
unfolding date_time format_tm expect
date_time-format_tm t h =
    let mo : t.mon < 100 = ground arith in
    let da : t.mday < 100 = ground arith in
    let ho : t.hour < 100 = ground arith in
    let mi : t.min < 100 = ground arith in
    let se : t.sec < 100 = ground arith in
    rw
      (
        digits-pad4 t.year _ h.year,
        digits-pad2 t.mon _ mo,
        digits-pad2 t.mday _ da,
        digits-pad2 t.hour _ ho,
        digits-pad2 t.min _ mi,
        seconds-pad2 t.sec b'Z' [] se refl,
      )
      refl

in_range-IsDate : (t : Tm) → IsDate t → in_range t ≡ true
unfolding in_range
in_range-IsDate t h = ground arith

-- A date that `format_time` writes for UTC reads back as the time it stands for.
pub sched_parse_time-format_tm :
    (cal : Calendar) (t : Tm)
    → IsDate t
    → sched_parse_time cal (some (format_tm t (b'Z' ∷ []))) ≡ cal.timegm t
unfolding sched_parse_time parse_time zoned
sched_parse_time-format_tm cal t h = rw (date_time-format_tm t h, in_range-IsDate t h) refl

-- The two halves of the calendar that `gmtime` and `timegm` are: what one breaks down is a date,
-- and the other puts it together again.
pub record IsUtc (cal : Calendar) (t : ℤ) : Type 0 where
  pub date : IsDate (cal.gmtime t)
  pub back : cal.timegm (cal.gmtime t) ≡ t

pub sched_parse_time-format_time :
    (cal : Calendar) (t : ℤ)
    → IsUtc cal t
    → sched_parse_time cal (some (format_time cal t false)) ≡ t
unfolding format_time
sched_parse_time-format_time cal t h = sched_parse_time-format_tm cal (cal.gmtime t) h.date ∙ h.back
