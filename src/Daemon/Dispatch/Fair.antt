-- ===== src/Daemon/Dispatch/Fair.antt =====
-- Which sessions `dispatch` of src/daemon.c starts.
use mathlib.Core.Path.{subst}
use shclaw.Base.{
  ==_iff, ℕ, zero, suc, ◌+◌, ◌≤◌, ◌≡◌, refl, Bool, true, false, inl, inr, List, [], ◌∷◌, ◌++◌, ◌==◌,
  if◌then◌else◌, Bool-cases, Bytes, codes, arith,
}
use shclaw.Base.Int.{ℤ}
use shclaw.Messenger.{Messenger, Mail, messenger_receive}
use shclaw.Scheduler.Check.{System}
use shclaw.Scheduler.Tasks.{Task, sched_get_due}
use shclaw.Session.Store.{Files}
use shclaw.Daemon.Dispatch.{
  Agents, set_agent, Served, serve_queue, queued_for, start_due, visit_inbox, visit, Visit, Visited,
  visit_all, Daemon, dispatch, first_sender,
}
use shclaw.Daemon.Start.{
  Agent, Queued, Trigger, irc, schedule, agent_msg, Started, Launch, Outcome, agent_idle,
  start_session,
}

-- How often an agent is started
unfoldable pub starts : ℕ → List Started → ℕ
starts k [] = 0
starts k (s ∷ ss) = if s.agent == k then suc (starts k ss) else starts k ss

-- 1 for an idle agent, 0 for another one
unfoldable pub idle_count : ℤ → Agent → ℕ
idle_count now_s a = if agent_idle now_s a then 1 else 0

pub starts-append : (k : ℕ) (xs ys : List Started) → starts k (xs ++ ys) ≡ starts k xs + starts k ys
unfolding starts
starts-append k [] ys = omega arith
starts-append k (x ∷ xs) ys = ground (arith, starts-append k xs ys)

busy-idle : (now_s : ℤ) (a : Agent) → idle_count now_s (record a { busy = true }) ≡ 0
unfolding idle_count agent_idle
busy-idle now_s a = refl

idle_count-le : (now_s : ℤ) (a : Agent) → idle_count now_s a ≤ 1
unfolding idle_count
idle_count-le now_s a = ground arith

idle_count_one : (now_s : ℤ) (a : Agent) → agent_idle now_s a ≡ true → idle_count now_s a ≡ 1
unfolding idle_count
idle_count_one now_s a h = rw h refl

-- What a step does to one agent: it is started at most as often as it was idle and is not any
-- more, and no other agent is started.
record IsFair (now_s : ℤ) (i : ℕ) (a : Agent) (o : Outcome) : Type 0 where
  own : starts i o.started + idle_count now_s o.agent ≤ idle_count now_s a
  others : (k : ℕ) → (i == k) ≡ false → starts k o.started ≡ 0

start_session-IsFair :
    (now_s : ℤ) (l : Launch) (fs : Files) (i : ℕ) (a : Agent) (trigger : Trigger) (who : Bytes)
    → agent_idle now_s a ≡ true
    → IsFair now_s i a (start_session l fs i a trigger who)
unfolding start_session starts
start_session-IsFair now_s l fs i a trigger who h =
    let one : idle_count now_s a ≡ 1 = idle_count_one now_s a h in
    let none_left : idle_count now_s (record a { busy = true }) ≡ 0 = busy-idle now_s a in
    let at_most : idle_count now_s (record a { busy = false }) ≤ 1 =
      idle_count-le now_s (record a { busy = false }) in
    elim (Bool-cases l.created) [
      | inl e ↦ simp (e, start_session) (record { own = ground arith; others = λ k n. rw n refl })
      | inr e ↦ simp (e, start_session) (record { own = ground arith; others = λ k n. refl })
    ]

unstarted-IsFair :
    (now_s : ℤ) (i : ℕ) (a : Agent) (fs : Files)
    → IsFair now_s i a (record { agent = a; files = fs; started = [] })
unfolding starts
unstarted-IsFair now_s i a fs = record { own = omega arith; others = λ k n. refl }

-- A step at place `i`, seen from place `k`
fair_step :
    (now_s : ℤ) (i k : ℕ) (agents : Agents) (o : Outcome)
    → IsFair now_s i (agents i) o
    → starts k o.started + idle_count now_s (set_agent agents i o.agent k)
      ≤ idle_count now_s (agents k)
fair_step now_s i k agents o f = elim (Bool-cases (i == k)) [
  | inl e ↦
      let same : i ≡ k = (==_iff i k).0 e in
      rw e (
        subst (λ j. starts j o.started + idle_count now_s o.agent ≤ idle_count now_s (agents j))
          same f.own)
  | inr e ↦ let z : starts k o.started ≡ 0 = f.others k e in rw e (omega arith)
]

start_due-IsFair :
    (now_s : ℤ) (sys : System) (l : Launch) (fs : Files) (i : ℕ) (a : Agent) (m : Messenger)
    (ts : List Task)
    → agent_idle now_s a ≡ true
    → IsFair now_s i a (start_due sys l fs i a m ts).outcome
unfolding start_due idle_count agent_idle
start_due-IsFair now_s sys l fs i a m [] h = unstarted-IsFair now_s i a fs
start_due-IsFair now_s sys l fs i a m (t ∷ ts) h =
    let f : IsFair now_s i a (start_session l fs i a (schedule (t ∷ ts)) (codes "scheduler")) =
      start_session-IsFair now_s l fs i a (schedule (t ∷ ts)) (codes "scheduler") h in
    record { own = f.own; others = f.others }

visit_inbox-IsFair :
    (now_s : ℤ) (sys : System) (l : Launch) (check : Bool) (fs : Files) (i : ℕ) (a : Agent)
    (m : Messenger) (xs : List Mail)
    → agent_idle now_s a ≡ true
    → IsFair now_s i a (visit_inbox sys l check fs i a m xs).outcome
unfolding visit_inbox
visit_inbox-IsFair now_s sys l check fs i a m (x ∷ xs) h =
    start_session-IsFair now_s l fs i a (agent_msg (x ∷ xs)) (first_sender (x ∷ xs)) h
visit_inbox-IsFair now_s sys l check fs i a m [] h =
    start_due-IsFair now_s sys l fs i a m (if check then sched_get_due sys a.tasks else []) h

visit-IsFair :
    (now_s : ℤ) (sys : System) (l : Launch) (check : Bool) (queue : List Queued) (fs : Files)
    (i : ℕ) (a : Agent) (m : Messenger)
    → IsFair now_s i a (visit sys l now_s check queue fs i a m).outcome
unfolding visit
visit-IsFair now_s sys l check queue fs i a m = elim (Bool-cases (agent_idle now_s a)) [
  | inr e ↦ rw (e, visit) (unstarted-IsFair now_s i a fs)
  | inl e ↦ elim (Bool-cases (queued_for i queue)) [
    | inl q ↦ rw (e, q, visit) (unstarted-IsFair now_s i a fs)
    | inr q ↦
        rw (e, q, visit)
          (visit_inbox-IsFair now_s sys l check fs i a (messenger_receive m a.name).0
            (messenger_receive m a.name).1 e)
  ]
]

pub serve_queue-fair :
    (now_s : ℤ) (k : ℕ) (launch : ℕ → Launch) (n : ℕ) (qs : List Queued) (agents : Agents)
    (fs : Files)
    → starts k (serve_queue launch now_s n qs agents fs).started
        + idle_count now_s ((serve_queue launch now_s n qs agents fs).agents k)
      ≤ idle_count now_s (agents k)
unfolding serve_queue starts
serve_queue-fair now_s k launch n [] agents fs = omega arith
serve_queue-fair now_s k launch n (q ∷ qs) agents fs =
    elim (Bool-cases (agent_idle now_s (agents q.agent))) [
      | inr e ↦ rw (e, serve_queue) (serve_queue-fair now_s k launch (n + 1) qs agents fs)
      | inl e ↦
          let o : Outcome =
            start_session (launch n) fs q.agent (agents q.agent) (irc q.text) (codes "owner") in
          let here = fair_step now_s q.agent k agents o (
            start_session-IsFair now_s (launch n) fs q.agent (agents q.agent) (irc q.text)
              (codes "owner") e) in
          let rest =
            serve_queue-fair now_s k launch (n + 1) qs (set_agent agents q.agent o.agent) o.files in
          let both =
            starts-append k o.started
              (serve_queue launch now_s (n + 1) qs (set_agent agents q.agent o.agent)
                o.files).started in
          rw (e, serve_queue) (omega arith)
    ]

pub visit_all-fair :
    (now_s : ℤ) (k : ℕ) (sys : System) (launch : ℕ → Launch) (check : Bool) (queue : List Queued)
    (left i : ℕ) (agents : Agents) (fs : Files) (m : Messenger)
    → starts k (visit_all sys launch now_s check queue left i agents fs m).started
        + idle_count now_s ((visit_all sys launch now_s check queue left i agents fs m).agents k)
      ≤ idle_count now_s (agents k)
unfolding visit_all starts
visit_all-fair now_s k sys launch check queue zero i agents fs m = omega arith
visit_all-fair now_s k sys launch check queue (suc left) i agents fs m =
    let v : Visit = visit sys (launch i) now_s check queue fs i (agents i) m in
    let here =
      fair_step now_s i k agents v.outcome
        (visit-IsFair now_s sys (launch i) check queue fs i (agents i) m) in
    let next : Agents = set_agent agents i v.outcome.agent in
    let rest =
      visit_all-fair now_s k sys launch check queue left (i + 1) next v.outcome.files v.mails in
    let both =
      starts-append k v.outcome.started
        (visit_all sys launch now_s check queue left (i + 1) next v.outcome.files
          v.mails).started in
    omega arith

-- In one round of the loop no agent is started twice, none that was not idle is started, and one
-- that is started is not idle any more: its starts and, after the round, its being idle add up to
-- at most what its being idle was before.
pub dispatch-fair :
    (sys : System) (queue_launch visit_launch : ℕ → Launch) (now_s : ℤ) (check : Bool) (d : Daemon)
    (k : ℕ)
    → starts k (dispatch sys queue_launch visit_launch now_s check d).1
        + idle_count now_s ((dispatch sys queue_launch visit_launch now_s check d).0.agents k)
      ≤ idle_count now_s (d.agents k)
unfolding dispatch
dispatch-fair sys queue_launch visit_launch now_s check d k =
    let served : Served = serve_queue queue_launch now_s 0 d.queue d.agents d.files in
    let visited : Visited =
      visit_all sys visit_launch now_s check served.queue d.n_agents 0 served.agents served.files
        d.mails in
    let first = serve_queue-fair now_s k queue_launch 0 d.queue d.agents d.files in
    let second =
      visit_all-fair now_s k sys visit_launch check served.queue d.n_agents 0 served.agents
        served.files d.mails in
    let both = starts-append k served.started visited.started in omega arith
