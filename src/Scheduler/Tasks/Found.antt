-- ===== src/Scheduler/Tasks/Found.antt =====
-- What `find_task` of src/scheduler.c finds, and what `sched_cancel` and `sched_update` do with it.
use shclaw.Base.{
  some_injective, ◌≡◌, refl, sym, ◌∙◌, ap, true, false, Option, none, some, inl, inr, List, [], ◌∷◌,
  ◌++◌, arith, Bool-cases, Option-cases, if_rule, Bytes, All,
}
use shclaw.Scheduler.Check.{System, Answer, cancelled, given}
use shclaw.Scheduler.Tasks.{
  Task, TaskFile, array, load_tasks, has_id, find_task, detach, put_task, sched_cancel,
}
use shclaw.Scheduler.Tasks.Added.{reports_success}

-- The first task of the list with this id, with those in front of it and behind it
pub record IsFirst (ts : List Task) (id : Bytes) (task : Task) : Type 0 where
  pub before : List Task
  pub after : List Task
  pub split : ts ≡ before ++ task ∷ after
  pub match : has_id id task ≡ true
  pub others : All (λ t. has_id id t ≡ false) before
  pub detached : detach ts id ≡ before ++ after
  pub put : (new : Task) → put_task ts id new ≡ before ++ new ∷ after

further :
    (t : Task) (ts : List Task) (id : Bytes) (task : Task)
    → has_id id t ≡ false
    → IsFirst ts id task
    → IsFirst (t ∷ ts) id task
unfolding detach put_task
further t ts id task e h = record {
  before = t ∷ h.before;
  after = h.after;
  split = ap (◌∷◌ t) h.split;
  match = h.match;
  others = (e, h.others);
  detached = rw (e, detach) (ap (◌∷◌ t) h.detached);
  put = λ new. rw (e, put_task) (ap (◌∷◌ t) (h.put new));
}

pub find_task-IsFirst :
    (ts : List Task) (id : Bytes) (task : Task) → find_task ts id ≡ some task → IsFirst ts id task
unfolding find_task detach put_task
find_task-IsFirst [] id task e = ground arith
find_task-IsFirst (t ∷ ts) id task e = elim (Bool-cases (has_id id t)) [
  | inl h ↦
      let q : t ≡ task = some_injective (rw (h, find_task) at e) in
      record {
        before = [];
        after = ts;
        split = ap (λ x. x ∷ ts) q;
        match = ap (has_id id) (sym q) ∙ h;
        others = tt;
        detached = rw (h, detach) refl;
        put = λ new. rw (h, put_task) refl;
      }
  | inr h ↦ further t ts id task h (find_task-IsFirst ts id task (rw (h, find_task) at e))
]

-- The file stays and the answer is an error, or the first task with the id is taken out.
pub data Cancelled (file : TaskFile) (id : Option Bytes) : TaskFile × Answer → Type 0 where
  kept : (why : Answer) → reports_success why ≡ false → Cancelled file id (file, why)
  removed :
      (ts : List Task) (i : Bytes) (task : Task)
      → id ≡ some i
      → load_tasks file ≡ some ts
      → (first : IsFirst ts i task)
      → Cancelled file id (array (first.before ++ first.after), cancelled i)

-- Cancelling a task either leaves the file as it is and answers with an error, or takes out the
-- first task with that id and no other, keeps the order of the others, and says so.
pub sched_cancel-Cancelled :
    (sys : System) (file : TaskFile) (id : Option Bytes)
    → Cancelled file id (sched_cancel sys file id)
unfolding sched_cancel given
sched_cancel-Cancelled sys file none = kept _ refl
sched_cancel-Cancelled sys file (some []) = kept _ refl
sched_cancel-Cancelled sys file (some (c ∷ s)) = elim (Option-cases (load_tasks file)) [
  | inl e ↦ rw (e, sched_cancel) (kept _ refl)
  | inr (ts, e) ↦ elim (Option-cases (find_task ts (c ∷ s))) [
    | inl f ↦ rw (e, f, sched_cancel) (kept _ refl)
    | inr (task, f) ↦
        let first : IsFirst ts (c ∷ s) task = find_task-IsFirst ts (c ∷ s) task f in
        rw (e, f, first.detached, sched_cancel)
          (if_rule (Cancelled file (some (c ∷ s))) sys.saved _ _
            (removed ts (c ∷ s) task refl e first) (kept _ refl))
  ]
]
