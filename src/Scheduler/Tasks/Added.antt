-- ===== src/Scheduler/Tasks/Added.antt =====
-- What `sched_add` of src/scheduler.c stores.
use shclaw.Base.{
  ℕ, ◌≤◌, ◌≡◌, ◌≢◌, ◌∙◌, sym, refl, Bool, true, false, Option, none, some, inl, inr, List, [], ◌∷◌,
  ◌++◌, arith, ◌==◌, if◌then◌else◌, Bool-cases, Option-cases, if_rule, Bytes,
}
use shclaw.Base.Int.{ℤ, ltb_ℤ}
use shclaw.Json.Replaced.{none-some}
use shclaw.Scheduler.Time.{sched_parse_time, format_time}
use shclaw.Scheduler.Time.RoundTrip.{IsUtc, sched_parse_time-format_time}
use shclaw.Scheduler.Check.{
  System, Answer, scheduled, updated, cancelled, given, interval_seconds, next_run, Check, refused,
  accepted, check_task, check_time, check_past, bad_interval, is_zero,
}
use shclaw.Scheduler.Check.Future.{next_run-IsNext}
use shclaw.Scheduler.Tasks.{Task, TaskFile, array, load_tasks, sched_add, add_checked}

abbrev pub reports_success : Answer → Bool
reports_success (scheduled id desc at every) = true
reports_success (updated id) = true
reports_success (cancelled id) = true
reports_success _ = false

abbrev pub IsLater : System → Option Bytes → Type 0
IsLater sys run_at = ltb_ℤ sys.now (sched_parse_time sys.cal run_at) ≡ true

pub Accepts : System → Check → Type 0
Accepts sys (refused why) = reports_success why ≡ false
Accepts sys (accepted run_at) = IsLater sys run_at

-- The file keeps its tasks: it stays, and the answer is an error, or one task is added at the end,
-- with the fresh id and a time that lies ahead.
pub data Outcome (sys : System) (file : TaskFile) : TaskFile × Answer → Type 0 where
  kept : (why : Answer) → reports_success why ≡ false → Outcome sys file (file, why)
  added :
      (ts : List Task) (task : Task) (answer : Answer)
      → load_tasks file ≡ some ts
      → task.id ≡ some sys.fresh
      → IsLater sys task.run_at
      → Outcome sys file (array (ts ++ task ∷ []), answer)

-- Where the time has passed that is asked for, its next occurrence is written and read back.
abbrev pub IsKept : System → Option Bytes → Option Bytes → Type 0
IsKept sys run_at interval =
    ltb_ℤ sys.now (sched_parse_time sys.cal run_at) ≡ false
    → given interval ≢ none
    → IsUtc sys.cal (next_run sys.now (interval_seconds interval) (sched_parse_time sys.cal run_at))

some-none : {s : Bytes} → some s ≡ none → ⊥
some-none e = none-some (sym e)

moved :
    (sys : System) (at name : Bytes)
    → bad_interval (some name) ≡ none
    → given (some name) ≡ some name
    → IsKept sys (some at) (some name)
    → Accepts sys (check_past sys at (some name) (sched_parse_time sys.cal (some at)))
unfolding check_past Accepts bad_interval
moved sys at name g e u =
    let t : ℤ = sched_parse_time sys.cal (some at) in
    let n : ℕ = interval_seconds (some name) in
    let h : (if n == 0 then some name else none) ≡ none = rw (e, bad_interval) at g in
    let back : ltb_ℤ sys.now t ≡ false
        → sched_parse_time sys.cal (some (format_time sys.cal (next_run sys.now n t) false))
          ≡ next_run sys.now n t =
      λ l.
        sched_parse_time-format_time sys.cal (next_run sys.now n t)
          (u l (λ x. some-none (sym e ∙ x))) in
    let ahead : ltb_ℤ sys.now (next_run sys.now n t) ≡ true =
      (next_run-IsNext sys.now n t (positive n h)).later in
    elim (Bool-cases (ltb_ℤ sys.now t)) [ inl l ↦ rw l l | inr l ↦ rw (l, e, back l) ahead ]
  where
    positive : (n : ℕ) → (if n == 0 then some name else none) ≡ none → 1 ≤ n
    positive n h = ground arith

one_shot :
    (sys : System) (at : Bytes) (interval : Option Bytes)
    → given interval ≡ none
    → Accepts sys (check_past sys at interval (sched_parse_time sys.cal (some at)))
unfolding check_past Accepts
one_shot sys at interval e =
    elim (Bool-cases (ltb_ℤ sys.now (sched_parse_time sys.cal (some at)))) [
      | inl l ↦ rw l l
      | inr l ↦ rw (l, e) refl
    ]

check_past-Accepts :
    (sys : System) (at : Bytes) (interval : Option Bytes)
    → bad_interval interval ≡ none
    → IsKept sys (some at) interval
    → Accepts sys (check_past sys at interval (sched_parse_time sys.cal (some at)))
unfolding given
check_past-Accepts sys at none g u = one_shot sys at none refl
check_past-Accepts sys at (some []) g u = one_shot sys at (some []) refl
check_past-Accepts sys at (some (c ∷ s)) g u = moved sys at (c ∷ s) g refl u

check_task-Accepts :
    (sys : System) (c : ℕ) (s : Bytes) (interval : Option Bytes)
    → IsKept sys (some (c ∷ s)) interval
    → Accepts sys (check_task sys (some (c ∷ s)) interval)
unfolding check_task given check_time Accepts
check_task-Accepts sys c s interval u =
    elim (Bool-cases (is_zero (sched_parse_time sys.cal (some (c ∷ s))))) [
      | inl z ↦ rw z refl
      | inr z ↦ elim (Option-cases (bad_interval interval)) [
        | inl g ↦ rw (z, g) (check_past-Accepts sys (c ∷ s) interval g u)
        | inr (name, g) ↦ rw (z, g) refl
      ]
    ]

add_checked-Outcome :
    (sys : System) (file : TaskFile) (desc : Bytes) (prompt interval : Option Bytes) (c : Check)
    → Accepts sys c
    → Outcome sys file (add_checked sys file desc prompt interval c)
unfolding add_checked Accepts
add_checked-Outcome sys file desc prompt interval (refused why) h = kept why h
add_checked-Outcome sys file desc prompt interval (accepted run_at) h =
    elim (Option-cases (load_tasks file)) [
      | inl e ↦ rw (e, add_checked) (kept _ refl)
      | inr (ts, e) ↦
          rw (e, add_checked)
            (if_rule (Outcome sys file) sys.saved _ _ (added ts _ _ e refl h) (kept _ refl))
    ]

-- Adding a task either leaves the file as it is and answers with an error, or puts one task behind
-- those of the file, under the fresh id, whose time lies after the clock. The condition:
-- where the time that was asked for has passed and an interval is given, its next occurrence is one
-- that the calendar can write and read back.
pub sched_add-Outcome :
    (sys : System) (file : TaskFile) (run_at desc prompt interval : Option Bytes)
    → IsKept sys run_at interval
    → Outcome sys file (sched_add sys file run_at desc prompt interval)
unfolding sched_add given
sched_add-Outcome sys file none desc prompt interval u = kept _ refl
sched_add-Outcome sys file (some []) desc prompt interval u = kept _ refl
sched_add-Outcome sys file (some (c ∷ s)) none prompt interval u = kept _ refl
sched_add-Outcome sys file (some (c ∷ s)) (some []) prompt interval u = kept _ refl
sched_add-Outcome sys file (some (c ∷ s)) (some (d ∷ ds)) prompt interval u =
    add_checked-Outcome sys file (d ∷ ds) prompt interval _ (check_task-Accepts sys c s interval u)
