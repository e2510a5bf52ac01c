-- ===== src/Daemon/Dispatch.antt =====
-- `dispatch` of src/daemon.c, and the end of a session in `session_worker`. Memory does not run out,
-- and no session ends within a round. A call takes the clock's seconds, and for each session what
-- the system answers.
pub mod Fair
pub mod Waiting
pub mod Kept
use shclaw.Base.{
  ℕ, zero, suc, ◌+◌, Bool, true, false, not, ◌&&◌, ◌||◌, Option, none, some, List, [], ◌∷◌, ◌++◌,
  leb, ltb, ◌==◌, if◌then◌else◌, Bytes, codes, strcasecmp_eq, snprintf, length,
}
use shclaw.Base.Int.{ℤ, pos, ◌-ℤ◌, ltb_ℤ}
use shclaw.Messenger.{Messenger, Mail, messenger_receive}
use shclaw.Scheduler.Check.{System}
use shclaw.Scheduler.Tasks.{Task, TaskFile, sched_get_due, sched_mark_done}
use shclaw.Session.Store.{
  Files, session_create, session_add_message, session_set_status, text, closed, failed,
}
use shclaw.Daemon.Start.{
  Agent, Queued, Started, agent_idle, Launch, Outcome, start_session, irc, schedule, agent_msg,
}

abbrev pub Agents : Type 0
Agents = ℕ → Agent

abbrev pub set_agent : Agents → ℕ → Agent → Agents
set_agent agents i a j = if i == j then a else agents j

pub record Served : Type 0 where
  pub agents : Agents
  pub files : Files
  pub queue : List Queued
  pub started : List Started

-- The loop over the queue; `launch` is what the system answers for the message at each place.
unfoldable pub serve_queue : (ℕ → Launch) → ℤ → ℕ → List Queued → Agents → Files → Served
serve_queue launch now_s n [] agents files = record {
  agents = agents;
  files = files;
  queue = [];
  started = [];
}
serve_queue launch now_s n (q ∷ qs) agents files =
    let kept = serve_queue launch now_s (n + 1) qs agents files in
    let o = start_session (launch n) files q.agent (agents q.agent) (irc q.text) (codes "owner") in
    let rest = serve_queue launch now_s (n + 1) qs (set_agent agents q.agent o.agent) o.files in
    if agent_idle now_s (agents q.agent)
    then record rest { started = o.started ++ rest.started }
    else record kept { queue = q ∷ kept.queue }

unfoldable pub queued_for : ℕ → List Queued → Bool
queued_for i [] = false
queued_for i (q ∷ qs) = q.agent == i || queued_for i qs

abbrev pub first_sender : List Mail → Bytes
first_sender [] = codes "unknown"
first_sender (x ∷ xs) = x.from

abbrev pub task_ids : List Task → List (Option Bytes)
task_ids [] = []
task_ids (t ∷ ts) = elim t.id [ none ↦ task_ids ts | some id ↦ some id ∷ task_ids ts ]

pub record Visit : Type 0 where
  pub outcome : Outcome
  pub mails : Messenger

-- Due tasks start a session and are marked, whether its thread could be created or not.
unfoldable pub start_due : System → Launch → Files → ℕ → Agent → Messenger → List Task → Visit
start_due sys l fs i a m [] = record {
  outcome = record { agent = a; files = fs; started = [] };
  mails = m;
}
start_due sys l fs i a m (t ∷ ts) =
    let o : Outcome = start_session l fs i a (schedule (t ∷ ts)) (codes "scheduler") in
    record {
      outcome = record o {
        agent = record (o.agent) { tasks = sched_mark_done sys a.tasks (task_ids (t ∷ ts)) };
      };
      mails = m;
    }

-- The mails of an idle agent, or else its due tasks where it is time to look at them
unfoldable pub visit_inbox :
    System → Launch → Bool → Files → ℕ → Agent → Messenger → List Mail → Visit
visit_inbox sys l check fs i a m (x ∷ xs) = record {
  outcome = start_session l fs i a (agent_msg (x ∷ xs)) (first_sender (x ∷ xs));
  mails = m;
}
visit_inbox sys l check fs i a m [] =
    start_due sys l fs i a m (if check then sched_get_due sys a.tasks else [])

unfoldable pub visit :
    System → Launch → ℤ → Bool → List Queued → Files → ℕ → Agent → Messenger → Visit
visit sys l now_s check queue fs i a m =
    if not (agent_idle now_s a) || queued_for i queue
    then record { outcome = record { agent = a; files = fs; started = [] }; mails = m }
    else visit_inbox sys l check fs i a (messenger_receive m a.name).0
        (messenger_receive m a.name).1

pub record Daemon : Type 0 where
  pub agents : Agents
  pub n_agents : ℕ
  pub queue : List Queued
  pub mails : Messenger
  pub files : Files

pub record Visited : Type 0 where
  pub agents : Agents
  pub files : Files
  pub mails : Messenger
  pub started : List Started

-- The loop over `left` agents from place `i` on
unfoldable pub visit_all :
    System → (ℕ → Launch) → ℤ → Bool → List Queued → ℕ → ℕ → Agents → Files → Messenger → Visited
visit_all sys launch now_s check queue zero i agents fs m = record {
  agents = agents;
  files = fs;
  mails = m;
  started = [];
}
visit_all sys launch now_s check queue (suc left) i agents fs m =
    let v : Visit = visit sys (launch i) now_s check queue fs i (agents i) m in
    let rest : Visited =
      visit_all sys launch now_s check queue left (i + 1) (set_agent agents i v.outcome.agent)
        v.outcome.files v.mails in
    record rest { started = v.outcome.started ++ rest.started }

unfoldable pub dispatch :
    System → (ℕ → Launch) → (ℕ → Launch) → ℤ → Bool → Daemon → Daemon × List Started
dispatch sys queue_launch visit_launch now_s check d =
    let served = serve_queue queue_launch now_s 0 d.queue d.agents d.files in
    let visited =
      visit_all sys visit_launch now_s check served.queue d.n_agents 0 served.agents served.files
        d.mails in
    (
      record d {
        agents = visited.agents;
        queue = served.queue;
        mails = visited.mails;
        files = visited.files;
      },
      served.started ++ visited.started,
    )

-- The end of a session: `completed` is its outcome.
unfoldable pub session_worker :
    Bool → Bytes → Bool → ℤ → Files → Agent → Option Bytes → Files × Agent
unfolding session_set_status
session_worker saved now completed now_s fs a sid =
    let freed : Agent = record a { busy = false; last_session_time = now_s } in
    elim sid [
      | none ↦ (fs, freed)
      | some s ↦
          ((session_set_status saved now fs s (if completed then closed else failed)).0, freed)
    ]
