-- ===== src/Scheduler/Time.antt =====
-- `sched_parse_time` of src/scheduler.c and `format_time` of src/util.c. The C library's calendar
-- is a parameter: `timegm` and `mktime` read a broken-down time as UTC and as local time, `gmtime`
-- breaks one down.
pub mod RoundTrip
use shclaw.Base.{
  ℕ, suc, ◌+◌, ◌-◌, ◌*◌, ◌/◌, ◌%◌, ◌≤◌, ◌<◌, ◌≡◌, Bool, true, false, not, ◌&&◌, ◌||◌, Option, none,
  some, List, [], ◌∷◌, ◌++◌, within, leb, ltb, ◌==◌, if◌then◌else◌, Bytes, drop,
}
use shclaw.Base.Int.{ℤ, pos, negsuc, ◌+ℤ◌, ◌-ℤ◌}

-- `struct tm`, with the year and the month as they are written: `tm_year + 1900`, `tm_mon + 1`.
pub record Tm : Type 0 where
  pub year : ℕ
  pub mon : ℕ
  pub mday : ℕ
  pub hour : ℕ
  pub min : ℕ
  pub sec : ℕ

pub record Calendar : Type 0 where
  pub timegm : Tm → ℤ
  pub mktime : Tm → ℤ
  pub gmtime : ℤ → Tm
  pub localtime : ℤ → Tm

infixl 5 ◌>>=◌
abbrev pub ◌>>=◌ : {A B : Type 0} → Option A → (A → Option B) → Option B
none >>= f = none
some a >>= f = f a

abbrev pub is_digit : ℕ → Bool
is_digit c = within b'0' b'9' c

-- The number written by `n` digits, and what follows them
unfoldable pub digits : ℕ → ℕ → Bytes → Option (ℕ × Bytes)
digits ℕ.zero acc s = some (acc, s)
digits (suc n) acc [] = none
digits (suc n) acc (c ∷ s) =
    let rest = digits n (acc * 10 + (c - b'0')) s in if is_digit c then rest else none

abbrev pub two_digits : Bytes → Option (ℕ × Bytes)
two_digits s = digits 2 0 s

-- What follows a byte that passes the test
unfoldable pub expect : (ℕ → Bool) → Bytes → Option Bytes
expect test [] = none
expect test (c ∷ s) = if test c then some s else none

unfoldable pub skip_digits : Bytes → Bytes
skip_digits [] = []
skip_digits (c ∷ s) = let rest = skip_digits s in if is_digit c then rest else c ∷ s

unfoldable pub fraction : Bytes → Bytes
fraction [] = []
fraction (c ∷ s) = if c == b'.' then skip_digits s else c ∷ s

-- ":SS" and its fraction, if there; without them the second is 0
unfoldable pub seconds : Bytes → Option (ℕ × Bytes)
seconds [] = some (0, [])
seconds (c ∷ s) =
    if c == b':' then (do (n, rest) ← two_digits s; some (n, fraction rest)) else some (0, c ∷ s)

unfoldable pub in_range : Tm → Bool
in_range t =
    within 1 12 t.mon && within 1 31 t.mday && leb t.hour 23 && leb t.min 59 && leb t.sec 60

abbrev pub drop_colon : Bytes → Bytes
drop_colon [] = []
drop_colon (c ∷ s) = if c == b':' then s else c ∷ s

-- The minutes of an offset; 0 where they are not two digits
unfoldable pub offset_minutes : Bytes → ℕ
offset_minutes s = elim (two_digits s) [ none ↦ 0 | some (n, rest) ↦ n ]

-- The zone: `Z`, an offset, or nothing for local time
unfoldable pub zoned : Calendar → Tm → Bytes → Option ℤ
zoned cal t [] = some (cal.mktime t)
zoned cal t (c ∷ s) =
    if c == b'Z' || c == b'z'
    then some (cal.timegm t)
    else if c == b'+'
    then (do
      (oh, rest) ← two_digits s
      some (cal.timegm t -ℤ pos (oh * 3600 + offset_minutes (drop_colon rest) * 60)))
    else if c == b'-'
    then (do
      (oh, rest) ← two_digits s
      some (cal.timegm t +ℤ pos (oh * 3600 + offset_minutes (drop_colon rest) * 60)))
    else some (cal.mktime t)

-- The date and the time of day, and what follows them
unfoldable pub date_time : Bytes → Option (Tm × Bytes)
date_time s = do
  (year, s1) ← digits 4 0 s
  s2 ← expect (λ c. c == b'-') s1
  (mon, s3) ← two_digits s2
  s4 ← expect (λ c. c == b'-') s3
  (mday, s5) ← two_digits s4
  s6 ← expect (λ c. c == b'T' || c == b' ') s5
  (hour, s7) ← two_digits s6
  s8 ← expect (λ c. c == b':') s7
  (min, s9) ← two_digits s8
  (sec, s10) ← seconds s9
  some (record { year = year; mon = mon; mday = mday; hour = hour; min = min; sec = sec }, s10)

unfoldable pub parse_time : Calendar → Bytes → Option ℤ
parse_time cal s = do (t, rest) ← date_time s; if in_range t then zoned cal t rest else none

abbrev pub or_zero : Option ℤ → ℤ
or_zero none = pos 0
or_zero (some t) = t

-- 0 if invalid, or for NULL
unfoldable pub sched_parse_time : Calendar → Option Bytes → ℤ
unfolding parse_time date_time zoned in_range offset_minutes seconds fraction skip_digits expect
    digits
sched_parse_time cal none = pos 0
sched_parse_time cal (some s) = or_zero (parse_time cal s)

-- `%02d` of a number below 100 and `%04d` of one below 10000
abbrev pub pad2 : ℕ → Bytes
pad2 n = (48 + n / 10) ∷ (48 + n % 10) ∷ []

-- `%04d` for a year up to 9999; a later one would take more digits.
abbrev pub pad4 : ℕ → Bytes
pad4 n = (48 + n / 1000) ∷ (48 + n / 100 % 10) ∷ (48 + n / 10 % 10) ∷ (48 + n % 10) ∷ []

-- The text of a broken-down time in front of `zone`, which is "Z" for UTC
unfoldable pub format_tm : Tm → Bytes → Bytes
format_tm t zone =
    pad4 t.year
    ++ (b'-'
        ∷ (pad2 t.mon
            ++ (b'-'
                ∷ (pad2 t.mday
                    ++ (b'T'
                        ∷ (pad2 t.hour
                            ++ (b':' ∷ (pad2 t.min ++ (b':' ∷ (pad2 t.sec ++ zone))))))))))

unfoldable pub format_time : Calendar → ℤ → Bool → Bytes
unfolding format_tm
format_time cal t true = format_tm (cal.localtime t) []
format_time cal t false = format_tm (cal.gmtime t) (b'Z' ∷ [])
