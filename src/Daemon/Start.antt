-- ===== src/Daemon/Start.antt =====
-- The queue of triggers in src/daemon.c, and how a session is started: `enqueue_trigger`,
-- `on_irc_trigger`, `agent_idle` and `start_session`. Agents are known by their places in
-- `d->agents`. A trigger's JSON text stands for the mails or the tasks that it was printed from;
-- memory does not run out.
use shclaw.Base.{
  ℕ, ◌+◌, Bool, true, false, not, ◌&&◌, ◌||◌, Option, none, some, List, [], ◌∷◌, ◌++◌, leb,
  if◌then◌else◌, Bytes, codes, strcasecmp_eq, snprintf, length,
}
use shclaw.Base.Int.{ℤ, pos, ◌-ℤ◌, ltb_ℤ}
use shclaw.Messenger.{Mail}
use shclaw.Scheduler.Tasks.{Task, TaskFile}
use shclaw.Session.Store.{
  Files, session_create, session_add_message, session_set_status, text, failed,
}

pub record Agent : Type 0 where
  pub name : Bytes
  pub busy : Bool
  pub last_session_time : ℤ
  pub tasks : TaskFile

pub record Queued : Type 0 where
  pub agent : ℕ
  pub text : Bytes

-- What a session is started with
pub data Trigger : Type 0 where
  irc : Bytes → Trigger
  schedule : List Task → Trigger
  agent_msg : List Mail → Trigger

-- A session thread that runs
pub record Started : Type 0 where
  pub agent : ℕ
  pub trigger : Trigger
  pub sid : Option Bytes

-- `trigger_queue` has room for 64 messages.
unfoldable pub enqueue_trigger : ℕ → Bytes → List Queued → List Queued
enqueue_trigger agent msg queue =
    if leb 64 (length queue) then queue else queue ++ record { agent = agent; text = msg } ∷ []

-- The agents from place `i` on
unfoldable pub enqueue_for : ℕ → List Bytes → Bytes → Bytes → List Queued → List Queued
unfolding enqueue_trigger strcasecmp_eq
enqueue_for i [] agent msg queue = queue
enqueue_for i (name ∷ names) agent msg queue = enqueue_for (i + 1) names agent msg (
    if strcasecmp_eq agent (codes "all") || strcasecmp_eq agent name
    then enqueue_trigger i msg queue
    else queue)

unfoldable pub on_irc_trigger : List Bytes → Bytes → Bytes → List Queued → List Queued
unfolding enqueue_for
on_irc_trigger names agent msg queue = enqueue_for 0 names agent msg queue

-- `now_s - last_session_time >= TC_SESSION_GAP`
unfoldable pub agent_idle : ℤ → Agent → Bool
unfolding ◌-ℤ◌
agent_idle now_s a = not a.busy && not (ltb_ℤ (now_s -ℤ a.last_session_time) (pos 5))

-- What the system answers while a session is started: two fresh ids, the time, whether the saves
-- succeed, and whether the thread is created
pub record Launch : Type 0 where
  pub sid : Bytes
  pub mid : Bytes
  pub now : Bytes
  pub saved : Bool
  pub created : Bool

abbrev pub kind : Trigger → Bytes
kind (irc msg) = codes "irc"
kind (schedule tasks) = codes "schedule"
kind (agent_msg mails) = codes "agent_message"

abbrev pub title_of : Trigger → Bytes → Bytes → Bytes
title_of trigger initiator name =
    kind trigger ++ (codes " from " ++ (initiator ++ (codes " for " ++ name)))

abbrev pub sid_text : Option Bytes → Bytes
sid_text none = []
sid_text (some sid) = sid

-- An owner's message is the first one of its session.
unfoldable pub first_message : Launch → Bytes → Bytes → Trigger → Files → Files
unfolding session_add_message
first_message l sid name (irc s) fs =
    (session_add_message l.saved l.mid l.now fs sid (codes "owner") (some name) s text).0
first_message l sid name _ fs = fs

-- `snprintf(title, 128, …)`, then `session_create`: the files and the id, if there is one
unfoldable pub open_session : Launch → Files → Bytes → Trigger → Bytes → Files × Option Bytes
unfolding session_create first_message
open_session l fs name trigger initiator =
    let made : Files × Option Bytes =
      session_create l.saved l.sid l.now fs (kind trigger)
        (snprintf 128 (title_of trigger initiator name)) (some initiator) in
    (first_message l (sid_text made.1) name trigger made.0, made.1)

-- Without a thread the session has failed, and the agent is free again.
unfoldable pub close_failed : Launch → Files → Option Bytes → Files
unfolding session_set_status
close_failed l fs none = fs
close_failed l fs (some sid) = (session_set_status l.saved l.now fs sid failed).0

pub record Outcome : Type 0 where
  pub agent : Agent
  pub files : Files
  pub started : List Started

unfoldable pub start_session : Launch → Files → ℕ → Agent → Trigger → Bytes → Outcome
start_session l fs i a trigger initiator =
    let opened : Files × Option Bytes = open_session l fs a.name trigger initiator in
    if l.created
    then (record {
      agent = record a { busy = true };
      files = opened.0;
      started = record { agent = i; trigger = trigger; sid = opened.1 } ∷ [];
    })
    else (record {
      agent = record a { busy = false };
      files = close_failed l opened.0 opened.1;
      started = [];
    })
