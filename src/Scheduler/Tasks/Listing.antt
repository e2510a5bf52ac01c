-- ===== src/Scheduler/Tasks/Listing.antt =====
-- `sched_list` of src/scheduler.c: the tasks in the order of their times, as text.
use shclaw.Base.{
  ℕ, ◌-◌, ◌≡◌, ap, Bool, not, ◌&&◌, Option, none, some, List, [], ◌∷◌, ◌++◌, arith, Bytes, codes,
  take,
}
use shclaw.Base.Int.{ℤ, ltb_ℤ}
use shclaw.Base.Sort.{sort_onto, Ordered, IsWeakOrder, filter, sort_onto-Ordered, filter-sort_onto}
use shclaw.Util.Buf.{append_all, concat, append_all-eq-take}
use shclaw.Util.Utf8.{utf8_prefix}
use shclaw.Scheduler.Time.{Calendar, sched_parse_time}
use shclaw.Scheduler.Check.{or_text, given}
use shclaw.Scheduler.Tasks.{Task, TaskFile, load_tasks}

abbrev pub task_time : Calendar → Task → ℤ
task_time cal task = sched_parse_time cal task.run_at

-- A task moves in front of those that run after it.
abbrev pub runs_before : Calendar → Task → Task → Bool
runs_before cal a b = ltb_ℤ (task_time cal a) (task_time cal b)

unfoldable pub sorted : Calendar → List Task → List Task
unfolding sort_onto
sorted cal ts = sort_onto (runs_before cal) [] ts

abbrev pub recurrence : Option Bytes → Bytes
recurrence none = []
recurrence (some every) = codes ", recurring " ++ every

abbrev pub prompt_line : Option Bytes → List Bytes
prompt_line none = []
prompt_line (some s) = (codes "  prompt: " ++ (take (utf8_prefix s 300) s ++ codes "\n")) ∷ []

-- What is appended for one task
unfoldable pub task_lines : Task → List Bytes
unfolding given utf8_prefix
task_lines task =
    (codes "- ["
      ++ (or_text task.id (codes "?")
          ++ (codes "] "
              ++ (or_text task.description []
                  ++ (codes ", at "
                      ++ (or_text task.run_at (codes "?")
                          ++ (recurrence task.recurring ++ codes "\n")))))))
    ∷ prompt_line (given task.prompt)

unfoldable pub all_lines : List Task → List Bytes
unfolding task_lines
all_lines [] = []
all_lines (t ∷ ts) = task_lines t ++ all_lines ts

-- `none` where the file is corrupt and the answer says so
unfoldable pub sched_list : Calendar → TaskFile → ℕ → Option Bytes
unfolding load_tasks sorted all_lines append_all
sched_list cal file out_sz = elim (load_tasks file) [
  | none ↦ none
  | some ts ↦ some (append_all out_sz [] (all_lines (sorted cal ts)))
]

runs_before-IsWeakOrder : (cal : Calendar) → IsWeakOrder (runs_before cal)
runs_before-IsWeakOrder cal = record {
  asym = λ x y h. ground arith;
  weak = λ x y z h k. ground arith;
}

-- Whether a task runs at that time
abbrev pub runs_at : Calendar → ℤ → Task → Bool
runs_at cal t task = not (ltb_ℤ (task_time cal task) t) && not (ltb_ℤ t (task_time cal task))

pub record IsSorted (cal : Calendar) (ts us : List Task) : Type 0 where
  pub ordered : Ordered (runs_before cal) us
  pub stable : (t : ℤ) → filter (runs_at cal t) us ≡ filter (runs_at cal t) ts

sorted-IsSorted : (cal : Calendar) (ts : List Task) → IsSorted cal ts (sorted cal ts)
unfolding sorted
sorted-IsSorted cal ts = record {
  ordered = sort_onto-Ordered (runs_before cal) (runs_before-IsWeakOrder cal) [] ts tt;
  stable = λ t. filter-sort_onto (runs_before cal) (runs_at cal t) (λ x y p q. ground arith) [] ts;
}

-- The list is the start of the lines of the file's tasks, as many bytes as fit: in the order of
-- their times, the tasks of one time in the order of the file, and none lost or doubled.
pub sched_list-IsSorted :
    (cal : Calendar) (file : TaskFile) (ts : List Task) (out_sz : ℕ)
    → load_tasks file ≡ some ts
    → (us : List Task) × IsSorted cal ts us
      × (sched_list cal file out_sz ≡ some (take (out_sz - 1) (concat (all_lines us))))
unfolding sched_list
sched_list-IsSorted cal file ts out_sz e = (
  sorted cal ts,
  sorted-IsSorted cal ts,
  rw (e, sched_list)
      (ap some (append_all-eq-take out_sz [] (all_lines (sorted cal ts)) (omega arith))),
)
