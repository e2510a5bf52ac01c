-- ===== src/Scheduler/Check.antt =====
-- What src/scheduler.c checks before it stores a task: `interval_seconds` and `check_task`. What a
-- call asks of the system comes with it: the clock, the calendar, a fresh id, and whether
-- `json_save_atomic` succeeds.
pub mod Future
use shclaw.Base.{
  ℕ, suc, ◌+◌, ◌-◌, ◌*◌, ◌≡◌, Bool, true, false, not, ◌&&◌, ◌||◌, Option, none, some, List, [], ◌∷◌,
  ◌++◌, ltb, ◌==◌, if◌then◌else◌, Bytes, codes, strcmp_eq, take, length,
}
use shclaw.Base.Int.{ℤ, pos, negsuc, pos_part, ◌+ℤ◌, ◌-ℤ◌, ltb_ℤ}
use shclaw.Scheduler.Time.{Calendar, sched_parse_time, format_time}

pub record System : Type 0 where
  pub cal : Calendar
  pub now : ℤ
  pub fresh : Bytes
  pub saved : Bool

-- What is written to `out`
pub data Answer : Type 0 where
  invalid_run_at invalid_interval : Bytes → Answer
  not_in_future : Bytes → Bytes → Answer
  missing_fields missing_id file_corrupt save_failed list_save_failed : Answer
  not_found : Bytes → Answer
  scheduled : Bytes → Bytes → Bytes → Option Bytes → Answer
  updated cancelled : Bytes → Answer

-- `p && p[0]`
unfoldable pub given : Option Bytes → Option Bytes
given none = none
given (some []) = none
given (some (c ∷ s)) = some (c ∷ s)

abbrev pub or_text : Option Bytes → Bytes → Bytes
or_text none d = d
or_text (some s) d = s

unfoldable pub interval_named : Bytes → ℕ
unfolding strcmp_eq
interval_named s =
    if strcmp_eq s (codes "every_30min")
    then 1800
    else if strcmp_eq s (codes "hourly")
    then 3600
    else if strcmp_eq s (codes "every_6h")
    then 21600
    else if strcmp_eq s (codes "every_12h")
    then 43200
    else if strcmp_eq s (codes "daily")
    then 86400
    else if strcmp_eq s (codes "weekly")
    then 604800
    else 0

-- 0 where no interval is given, or an unknown one
unfoldable pub interval_seconds : Option Bytes → ℕ
unfolding given interval_named
interval_seconds name = elim (given name) [ none ↦ 0 | some s ↦ interval_named s ]

-- `while (t <= now) t += secs`, on fuel
unfoldable pub catch_up : ℕ → ℤ → ℕ → ℤ → ℤ
unfolding ◌+ℤ◌
catch_up ℕ.zero now secs t = t
catch_up (suc n) now secs t =
    let later = catch_up n now secs (t +ℤ pos secs) in if ltb_ℤ now t then t else later

-- The loop runs at most once for each second between `t` and the clock.
unfoldable pub next_run : ℤ → ℕ → ℤ → ℤ
unfolding catch_up ◌-ℤ◌
next_run now secs t = catch_up (suc (pos_part (now -ℤ t))) now secs t

unfoldable pub is_zero : ℤ → Bool
is_zero (pos n) = n == 0
is_zero (negsuc n) = false

-- Refused with an answer, or accepted with the `run_at` to store
pub data Check : Type 0 where
  refused : Answer → Check
  accepted : Option Bytes → Check

-- The interval is fine: a past time is refused, or moves to its next occurrence.
unfoldable pub check_past : System → Bytes → Option Bytes → ℤ → Check
unfolding given next_run
check_past sys run_at interval t =
    if ltb_ℤ sys.now t then accepted (some run_at) else elim (given interval) [
      | none ↦ refused (not_in_future run_at (format_time sys.cal sys.now true))
      | some name ↦
          accepted
            (some (format_time sys.cal (next_run sys.now (interval_seconds (some name)) t) false))
    ]

-- `interval && interval[0] && !interval_seconds(interval)`
unfoldable pub bad_interval : Option Bytes → Option Bytes
unfolding given interval_seconds
bad_interval interval = elim (given interval) [
  | none ↦ none
  | some name ↦ if interval_seconds (some name) == 0 then some name else none
]

unfoldable pub check_time : System → Bytes → Option Bytes → ℤ → Check
unfolding is_zero check_past bad_interval
check_time sys run_at interval t =
    if is_zero t then refused (invalid_run_at run_at) else elim (bad_interval interval) [
      | some name ↦ refused (invalid_interval name)
      | none ↦ check_past sys run_at interval t
    ]

-- Without a `run_at` only the interval is checked.
unfoldable pub check_task : System → Option Bytes → Option Bytes → Check
unfolding given check_time bad_interval
check_task sys run_at interval = elim (given run_at) [
  | some s ↦ check_time sys s interval (sched_parse_time sys.cal (some s))
  | none ↦ elim (bad_interval interval) [
    | some name ↦ refused (invalid_interval name)
    | none ↦ accepted run_at
  ]
]
