-- ===== src/Daemon/Dispatch/Kept.antt =====
-- What becomes of the owner's messages in `dispatch` of src/daemon.c.
use shclaw.Base.{
  ℕ, zero, suc, ◌+◌, ◌≡◌, refl, ap, ◌∙◌, Bool, true, false, not, ◌||◌, inl, inr, List, [], ◌∷◌,
  ◌++◌, append-nil, ◌==◌, if◌then◌else◌, Bool-cases, Bytes, codes, All, All-map, All-append, arith,
}
use shclaw.Base.Int.{ℤ}
use shclaw.Messenger.{Messenger, Mail, messenger_receive}
use shclaw.Scheduler.Check.{System}
use shclaw.Scheduler.Tasks.{Task, sched_get_due}
use shclaw.Session.Store.{Files}
use shclaw.Daemon.Dispatch.{
  Agents, set_agent, Served, serve_queue, queued_for, start_due, visit_inbox, visit, Visit, Visited,
  visit_all, Daemon, dispatch, first_sender,
}
use shclaw.Daemon.Start.{
  Agent, Queued, Trigger, schedule, agent_msg, Started, Launch, agent_idle, start_session,
}
use shclaw.Daemon.Dispatch.Fair.{idle_count, visit_all-fair}
use shclaw.Daemon.Dispatch.Waiting.{
  texts, owner_text, owner_texts, owner_texts-append, not_idle, idle_none, serve_queue-texts, Waits,
  serve_queue-Waits,
}

-- A session that is not started with an owner's message
abbrev NoText : List Started → Type 0
NoText ss = All (λ s. owner_text s.trigger ≡ []) ss

start_session-NoText :
    (l : Launch) (fs : Files) (i : ℕ) (a : Agent) (trigger : Trigger) (who : Bytes)
    → owner_text trigger ≡ []
    → NoText (start_session l fs i a trigger who).started
unfolding start_session
start_session-NoText l fs i a trigger who h = elim (Bool-cases l.created) [
  | inl e ↦ simp (e, start_session) (h, tt)
  | inr e ↦ simp (e, start_session) tt
]

start_due-NoText :
    (sys : System) (l : Launch) (fs : Files) (i : ℕ) (a : Agent) (m : Messenger) (ts : List Task)
    → NoText (start_due sys l fs i a m ts).outcome.started
unfolding start_due
start_due-NoText sys l fs i a m [] = tt
start_due-NoText sys l fs i a m (t ∷ ts) =
    start_session-NoText l fs i a (schedule (t ∷ ts)) (codes "scheduler") refl

visit_inbox-NoText :
    (sys : System) (l : Launch) (check : Bool) (fs : Files) (i : ℕ) (a : Agent) (m : Messenger)
    (xs : List Mail)
    → NoText (visit_inbox sys l check fs i a m xs).outcome.started
unfolding visit_inbox
visit_inbox-NoText sys l check fs i a m (x ∷ xs) =
    start_session-NoText l fs i a (agent_msg (x ∷ xs)) (first_sender (x ∷ xs)) refl
visit_inbox-NoText sys l check fs i a m [] =
    start_due-NoText sys l fs i a m (if check then sched_get_due sys a.tasks else [])

visit-NoText :
    (sys : System) (l : Launch) (now_s : ℤ) (check : Bool) (queue : List Queued) (fs : Files)
    (i : ℕ) (a : Agent) (m : Messenger)
    → NoText (visit sys l now_s check queue fs i a m).outcome.started
unfolding visit
visit-NoText sys l now_s check queue fs i a m =
    elim (Bool-cases (not (agent_idle now_s a) || queued_for i queue)) [
      | inl e ↦ rw (e, visit) tt
      | inr e ↦
          rw (e, visit)
            (visit_inbox-NoText sys l check fs i a (messenger_receive m a.name).0
              (messenger_receive m a.name).1)
    ]

visit_all-NoText :
    (sys : System) (launch : ℕ → Launch) (now_s : ℤ) (check : Bool) (queue : List Queued)
    (left i : ℕ) (agents : Agents) (fs : Files) (m : Messenger)
    → NoText (visit_all sys launch now_s check queue left i agents fs m).started
unfolding visit_all
visit_all-NoText sys launch now_s check queue zero i agents fs m = tt
visit_all-NoText sys launch now_s check queue (suc left) i agents fs m =
    let v : Visit = visit sys (launch i) now_s check queue fs i (agents i) m in
    All-append (λ s. owner_text s.trigger ≡ []) v.outcome.started _
      (visit-NoText sys (launch i) now_s check queue fs i (agents i) m)
      (visit_all-NoText sys launch now_s check queue left (i + 1)
        (set_agent agents i v.outcome.agent) v.outcome.files v.mails)

NoText-owner_texts : (k : ℕ) (ss : List Started) → NoText ss → owner_texts k ss ≡ []
unfolding owner_texts
NoText-owner_texts k [] h = refl
NoText-owner_texts k (s ∷ ss) h = elim (Bool-cases (s.agent == k)) [
  | inl e ↦ rw e (ap (λ l. l ++ owner_texts k ss) h.0 ∙ NoText-owner_texts k ss h.1)
  | inr e ↦ rw e (NoText-owner_texts k ss h.1)
]

pub record IsKept (now_s : ℤ) (d after : Daemon) (started : List Started) : Type 0 where
  pub in_order : (k : ℕ) → owner_texts k started ++ texts k after.queue ≡ texts k d.queue
  pub only_busy : All (λ q. agent_idle now_s (after.agents q.agent) ≡ false) after.queue

-- Where threads can be created, a round of the loop loses no message of the owner: for each agent,
-- those that sessions were started with and those that still wait are, in this order, those that
-- waited before. And nobody who is still idle has one waiting.
pub dispatch-IsKept :
    (sys : System) (queue_launch visit_launch : ℕ → Launch) (now_s : ℤ) (check : Bool) (d : Daemon)
    → ((j : ℕ) → (queue_launch j).created ≡ true)
    → IsKept now_s d
        (dispatch sys queue_launch visit_launch now_s check d).0
        (dispatch sys queue_launch visit_launch now_s check d).1
unfolding dispatch
dispatch-IsKept sys queue_launch visit_launch now_s check d c =
    let served : Served = serve_queue queue_launch now_s 0 d.queue d.agents d.files in
    let visited : Visited =
      visit_all sys visit_launch now_s check served.queue d.n_agents 0 served.agents served.files
        d.mails in
    let silent =
      visit_all-NoText sys visit_launch now_s check served.queue d.n_agents 0 served.agents
        served.files d.mails in
    record {
      in_order = λ k.
          ap (λ l. l ++ texts k served.queue)
            (owner_texts-append k served.started visited.started
              ∙ ap (λ l. owner_texts k served.started ++ l)
                  (NoText-owner_texts k visited.started silent)
              ∙ append-nil (owner_texts k served.started))
          ∙ serve_queue-texts now_s k queue_launch 0 d.queue d.agents d.files c;
      only_busy =
          All-map still_busy served.queue
            (serve_queue-Waits now_s queue_launch 0 d.queue d.agents d.files);
    }
  where
    still_busy :
        (q : Queued)
        → Waits now_s (serve_queue queue_launch now_s 0 d.queue d.agents d.files).agents q
        → Waits now_s ((dispatch sys queue_launch visit_launch now_s check d).0.agents) q
    still_busy q w =
        let served : Served = serve_queue queue_launch now_s 0 d.queue d.agents d.files in
        let z : idle_count now_s (served.agents q.agent) ≡ 0 =
          not_idle now_s (served.agents q.agent) w in
        let b =
          visit_all-fair now_s q.agent sys visit_launch check served.queue d.n_agents 0
            served.agents served.files d.mails in
        idle_none now_s ((dispatch sys queue_launch visit_launch now_s check d).0.agents q.agent)
          (omega arith)
