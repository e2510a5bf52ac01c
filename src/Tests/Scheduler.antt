-- ===== src/Tests/Scheduler.antt =====
-- Runs of src/scheduler.c, in a calendar of one hour.
use shclaw.Base.{
  ℕ, ◌+◌, ◌-◌, ◌*◌, ◌/◌, ◌%◌, ◌≡◌, refl, true, some, none, List, [], ◌∷◌, arith, codes, Bytes, take,
}
use shclaw.Base.Int.{ℤ, pos, negsuc}
use shclaw.Util.Buf.{concat}
use shclaw.Scheduler.Time.{Tm, Calendar, sched_parse_time, format_tm, format_time}
use shclaw.Scheduler.Time.RoundTrip.{IsDate, IsUtc, sched_parse_time-format_tm}
use shclaw.Scheduler.Check.{System, next_run, interval_seconds}
use shclaw.Scheduler.Check.Future.{IsNext, next_run-IsNext}
use shclaw.Scheduler.Tasks.{
  Task, absent, array, load_tasks, sched_add, sched_cancel, sched_get_due, sched_mark_done,
}
use shclaw.Scheduler.Tasks.Added.{Outcome, sched_add-Outcome}
use shclaw.Scheduler.Tasks.Listing.{IsSorted, all_lines, sched_list, sched_list-IsSorted}
use shclaw.Scheduler.Tasks.Found.{Cancelled, sched_cancel-Cancelled}

abbrev at_second : ℕ → Tm
at_second n = record { year = 2026; mon = 1; mday = 1; hour = 0; min = n / 60; sec = n % 60 }

abbrev second_of : Tm → ℤ
second_of t = pos (t.min * 60 + t.sec)

abbrev broken_down : ℤ → Tm
broken_down (pos n) = at_second n
broken_down (negsuc n) = at_second 0

abbrev cal : Calendar
cal = record {
  timegm = second_of;
  mktime = second_of;
  gmtime = broken_down;
  localtime = broken_down;
}

abbrev pub sys : System
sys = record { cal = cal; now = pos 1000; fresh = codes "0a1b2c3d"; saved = true }

at_second-IsDate : IsDate (at_second 2100)
at_second-IsDate = record {
  year = omega arith;
  mon = (omega arith, omega arith);
  mday = (omega arith, omega arith);
  hour = omega arith;
  min = omega arith;
  sec = omega arith;
}

sched_parse_time-format_tm_example :
    sched_parse_time cal (some (format_tm (at_second 2100) (b'Z' ∷ []))) ≡ pos 2100
sched_parse_time-format_tm_example =
    sched_parse_time-format_tm cal (at_second 2100) at_second-IsDate

next_run-IsNext_example : IsNext (pos 1000) 300 (pos 50) (next_run (pos 1000) 300 (pos 50))
next_run-IsNext_example = next_run-IsNext (pos 1000) 300 (pos 50) (omega arith)

abbrev five_past : Bytes
five_past = codes "2026-01-01T00:05:00Z"

moved-IsUtc : IsUtc cal (
    next_run
      (pos 1000)
      (interval_seconds (some (codes "every_30min")))
      (sched_parse_time cal (some five_past)))
unfolding next_run interval_seconds sched_parse_time
moved-IsUtc = record { date = at_second-IsDate; back = refl }

sched_add-Outcome_example :
    Outcome sys absent
      (sched_add sys absent (some five_past) (some (codes "tea")) none (some (codes "every_30min")))
sched_add-Outcome_example =
    sched_add-Outcome sys absent (some five_past) (some (codes "tea")) none
      (some (codes "every_30min")) (λ past n. moved-IsUtc)

abbrev tea : Task
tea = record {
  id = some (codes "t1");
  run_at = some (codes "2026-01-01T00:05:00Z");
  description = some (codes "tea");
  prompt = none;
  recurring = some (codes "every_30min");
  created_at = none;
}

abbrev bell : Task
bell = record tea {
  id = some (codes "t2");
  run_at = some (codes "2026-01-01T00:01:00Z");
  description = some (codes "bell");
  recurring = none;
}

sched_list_run :
    sched_list cal (array (tea ∷ bell ∷ [])) 200
    ≡ some (
        codes
          "- [t2] bell, at 2026-01-01T00:01:00Z\n- [t1] tea, at 2026-01-01T00:05:00Z, recurring every_30min\n")
unfolding sched_list sched_parse_time
sched_list_run = refl

loaded : load_tasks (array (tea ∷ bell ∷ [])) ≡ some (tea ∷ bell ∷ [])
unfolding load_tasks
loaded = refl

sched_list-IsSorted_example :
    (us : List Task) × IsSorted cal (tea ∷ bell ∷ []) us
    × (sched_list cal (array (tea ∷ bell ∷ [])) 200 ≡ some (take (200 - 1) (concat (all_lines us))))
sched_list-IsSorted_example =
    sched_list-IsSorted cal (array (tea ∷ bell ∷ [])) (tea ∷ bell ∷ []) 200 loaded

sched_cancel-Cancelled_example :
    Cancelled
      (array (tea ∷ bell ∷ []))
      (some (codes "t2"))
      (sched_cancel sys (array (tea ∷ bell ∷ [])) (some (codes "t2")))
sched_cancel-Cancelled_example =
    sched_cancel-Cancelled sys (array (tea ∷ bell ∷ [])) (some (codes "t2"))

due_run : sched_get_due sys (array (tea ∷ bell ∷ [])) ≡ tea ∷ bell ∷ []
unfolding sched_get_due sched_parse_time
due_run = refl

done_run :
    sched_mark_done sys
      (array (tea ∷ bell ∷ []))
      (some (codes "t1") ∷ some (codes "t2") ∷ none ∷ [])
    ≡ array (record tea { run_at = some (codes "2026-01-01T00:35:00Z") } ∷ [])
unfolding sched_mark_done sched_parse_time format_time
done_run = refl
