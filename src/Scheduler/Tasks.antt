-- ===== src/Scheduler/Tasks.antt =====
-- The task operations of src/scheduler.c. `scheduler.json` is the record of each task's members
-- that the code reads and writes, `none` where a member is missing or no string. A failed save
-- leaves the old file. The lock makes each operation one step.
pub mod Added
pub mod Listing
pub mod Found
use shclaw.Base.{
  ℕ, suc, ◌+◌, ◌-◌, ◌*◌, ◌≡◌, Bool, true, false, not, ◌&&◌, ◌||◌, Option, none, some, List, [], ◌∷◌,
  ◌++◌, ltb, ◌==◌, if◌then◌else◌, Bytes, codes, strcmp_eq, take, length,
}
use shclaw.Base.Int.{ℤ, pos, negsuc, pos_part, ◌+ℤ◌, ◌-ℤ◌, ltb_ℤ}
use shclaw.Scheduler.Time.{Calendar, sched_parse_time, format_time}
use shclaw.Scheduler.Check.{
  System, Answer, invalid_run_at, invalid_interval, not_in_future, missing_fields, missing_id,
  file_corrupt, save_failed, list_save_failed, not_found, scheduled, updated, cancelled, given,
  or_text, interval_seconds, next_run, Check, refused, accepted, check_task,
}

pub record Task : Type 0 where
  pub id : Option Bytes
  pub run_at : Option Bytes
  pub description : Option Bytes
  pub prompt : Option Bytes
  pub recurring : Option Bytes
  pub created_at : Option Bytes

-- A file that cannot be read, or is no JSON array, is `corrupt`.
pub data TaskFile : Type 0 where
  absent corrupt : TaskFile
  array : List Task → TaskFile

-- A missing file holds no tasks.
unfoldable pub load_tasks : TaskFile → Option (List Task)
load_tasks absent = some []
load_tasks corrupt = none
load_tasks (array ts) = some ts

abbrev pub save : System → TaskFile → List Task → Answer → Answer → TaskFile × Answer
save sys file tasks failed done = if sys.saved then (array tasks, done) else (file, failed)

abbrev pub new_task : System → Option Bytes → Bytes → Option Bytes → Option Bytes → Task
new_task sys run_at desc prompt interval = record {
  id = some sys.fresh;
  run_at = run_at;
  description = some desc;
  prompt = some (or_text prompt []);
  recurring = given interval;
  created_at = some (format_time sys.cal sys.now false);
}

unfoldable pub add_checked :
    System → TaskFile → Bytes → Option Bytes → Option Bytes → Check → TaskFile × Answer
unfolding given load_tasks
add_checked sys file desc prompt interval (refused why) = (file, why)
add_checked sys file desc prompt interval (accepted run_at) = elim (load_tasks file) [
  | none ↦ (file, file_corrupt)
  | some ts ↦
      save sys file (ts ++ new_task sys run_at desc prompt interval ∷ []) save_failed
        (scheduled sys.fresh desc (or_text run_at []) (given interval))
]

unfoldable pub sched_add :
    System
    → TaskFile
    → Option Bytes
    → Option Bytes
    → Option Bytes
    → Option Bytes
    → TaskFile × Answer
unfolding given add_checked check_task
sched_add sys file run_at desc prompt interval = elim (given run_at) [
  | none ↦ (file, missing_fields)
  | some at ↦ elim (given desc) [
    | none ↦ (file, missing_fields)
    | some d ↦ add_checked sys file d prompt interval (check_task sys (some at) interval)
  ]
]

-- `tid && strcmp(tid, id) == 0`
unfoldable pub has_id : Bytes → Task → Bool
has_id id task = elim task.id [ none ↦ false | some tid ↦ strcmp_eq tid id ]

unfoldable pub find_task : List Task → Bytes → Option Task
unfolding has_id
find_task [] id = none
find_task (t ∷ ts) id = let rest = find_task ts id in if has_id id t then some t else rest

-- The list where the task found is another one now
unfoldable pub put_task : List Task → Bytes → Task → List Task
unfolding has_id
put_task [] id task = []
put_task (t ∷ ts) id task =
    let rest = put_task ts id task in if has_id id t then task ∷ ts else t ∷ rest

-- The list without the task found
unfoldable pub detach : List Task → Bytes → List Task
unfolding has_id
detach [] id = []
detach (t ∷ ts) id = let rest = detach ts id in if has_id id t then ts else t ∷ rest

abbrev pub keep : Option Bytes → Option Bytes → Option Bytes
keep none old = old
keep (some s) old = some s

abbrev pub new_recurring : Option Bytes → Option Bytes → Option Bytes
new_recurring none old = old
new_recurring (some s) old = given (some s)

-- What `sched_update` sets: an empty interval makes the task a one-shot one
unfoldable pub changed : Option Bytes → Option Bytes → Option Bytes → Option Bytes → Task → Task
unfolding given
changed run_at desc prompt interval task = record task {
  run_at = keep (given run_at) task.run_at;
  description = keep (given desc) task.description;
  prompt = keep prompt task.prompt;
  recurring = new_recurring interval task.recurring;
}

unfoldable pub update_checked :
    System
    → TaskFile
    → List Task
    → Bytes
    → Task
    → Option Bytes
    → Option Bytes
    → Option Bytes
    → Check
    → TaskFile × Answer
unfolding changed put_task
update_checked sys file ts id task desc prompt interval (refused why) = (file, why)
update_checked sys file ts id task desc prompt interval (accepted run_at) =
    save sys file (put_task ts id (changed run_at desc prompt interval task)) save_failed
      (updated id)

unfoldable pub sched_update :
    System
    → TaskFile
    → Option Bytes
    → Option Bytes
    → Option Bytes
    → Option Bytes
    → Option Bytes
    → TaskFile × Answer
unfolding given load_tasks find_task update_checked
sched_update sys file id run_at desc prompt interval = elim (given id) [
  | none ↦ (file, missing_id)
  | some i ↦ elim (load_tasks file) [
    | none ↦ (file, file_corrupt)
    | some ts ↦ elim (find_task ts i) [
      | none ↦ (file, not_found i)
      | some task ↦
          update_checked sys file ts i task desc prompt interval
            (check_task sys run_at (keep interval task.recurring))
    ]
  ]
]

unfoldable pub sched_cancel : System → TaskFile → Option Bytes → TaskFile × Answer
unfolding given load_tasks find_task detach
sched_cancel sys file id = elim (given id) [
  | none ↦ (file, missing_id)
  | some i ↦ elim (load_tasks file) [
    | none ↦ (file, file_corrupt)
    | some ts ↦ elim (find_task ts i) [
      | none ↦ (file, not_found i)
      | some task ↦ save sys file (detach ts i) list_save_failed (cancelled i)
    ]
  ]
]

unfoldable pub is_positive : ℤ → Bool
is_positive (pos n) = not (n == 0)
is_positive (negsuc n) = false

-- Whether the task's time has come: `t > 0 && t <= now`
unfoldable pub is_due : System → Task → Bool
unfolding is_positive
is_due sys task =
    let t = sched_parse_time sys.cal task.run_at in is_positive t && not (ltb_ℤ sys.now t)

unfoldable pub due_of : System → List Task → List Task
due_of sys [] = []
due_of sys (t ∷ ts) = let rest = due_of sys ts in if is_due sys t then t ∷ rest else rest

-- The due tasks; the count that is returned is their number.
unfoldable pub sched_get_due : System → TaskFile → List Task
unfolding load_tasks due_of is_due
sched_get_due sys file = elim (load_tasks file) [ none ↦ [] | some ts ↦ due_of sys ts ]

-- One round of the loop over `ids`, `secs` being the task's interval
unfoldable pub done_with : System → List Task → Bytes → Task → ℕ → List Task
unfolding detach put_task next_run
done_with sys ts id task ℕ.zero = detach ts id
done_with sys ts id task (suc n) = put_task ts id (record task {
  run_at =
      some (
        format_time sys.cal (next_run sys.now (suc n) (sched_parse_time sys.cal task.run_at))
          false);
})

-- An id that is no string counts as "".
unfoldable pub mark : System → List Task → List (Option Bytes) → List Task
unfolding find_task done_with interval_seconds
mark sys ts [] = ts
mark sys ts (id ∷ ids) = elim (find_task ts (or_text id [])) [
  | none ↦ mark sys ts ids
  | some task ↦
      mark sys (done_with sys ts (or_text id []) task (interval_seconds task.recurring)) ids
]

unfoldable pub sched_mark_done : System → TaskFile → List (Option Bytes) → TaskFile
unfolding load_tasks mark
sched_mark_done sys file ids = elim (load_tasks file) [
  | none ↦ file
  | some ts ↦ if sys.saved then array (mark sys ts ids) else file
]
