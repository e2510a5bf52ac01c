-- ===== src/Daemon/Dispatch/Waiting.antt =====
-- What the queue of src/daemon.c does with the messages of the owner.
use mathlib.Core.Path.{subst}
use shclaw.Base.{
  ℕ, ◌+◌, ◌≤◌, ◌≡◌, refl, sym, ap, ◌∙◌, Bool, true, false, inl, inr, List, [], ◌∷◌, ◌++◌,
  append_assoc, ◌==◌, ==_iff, if◌then◌else◌, Bool-cases, Bytes, codes, All, arith,
}
use shclaw.Base.Int.{ℤ}
use shclaw.Session.Store.{Files}
use shclaw.Daemon.Dispatch.{Agents, set_agent, Served, serve_queue}
use shclaw.Daemon.Start.{
  Agent, Queued, Trigger, irc, schedule, agent_msg, Started, Launch, Outcome, agent_idle,
  start_session,
}
use shclaw.Daemon.Dispatch.Fair.{starts, idle_count, serve_queue-fair}

-- The messages that wait for an agent
unfoldable pub texts : ℕ → List Queued → List Bytes
texts k [] = []
texts k (q ∷ qs) = if q.agent == k then q.text ∷ texts k qs else texts k qs

abbrev pub owner_text : Trigger → List Bytes
owner_text (irc msg) = msg ∷ []
owner_text (schedule ts) = []
owner_text (agent_msg ms) = []

-- The owner's messages that an agent's sessions are started with
unfoldable pub owner_texts : ℕ → List Started → List Bytes
owner_texts k [] = []
owner_texts k (s ∷ ss) =
    if s.agent == k then owner_text s.trigger ++ owner_texts k ss else owner_texts k ss

pub owner_texts-append :
    (k : ℕ) (xs ys : List Started) → owner_texts k (xs ++ ys) ≡ owner_texts k xs ++ owner_texts k ys
unfolding owner_texts
owner_texts-append k [] ys = refl
owner_texts-append k (x ∷ xs) ys = elim (Bool-cases (x.agent == k)) [
  | inl e ↦ rw e (
      ap (λ l. owner_text x.trigger ++ l) (owner_texts-append k xs ys)
      ∙ sym (append_assoc (owner_text x.trigger) (owner_texts k xs) (owner_texts k ys)))
  | inr e ↦ rw e (owner_texts-append k xs ys)
]

unstarted_texts : (k : ℕ) (ss : List Started) → starts k ss ≡ 0 → owner_texts k ss ≡ []
unfolding starts owner_texts
unstarted_texts k [] h = refl
unstarted_texts k (s ∷ ss) h = elim (Bool-cases (s.agent == k)) [
  | inl e ↦ absurd (ground arith)
  | inr e ↦ rw e (unstarted_texts k ss (rw (e, starts) at h))
]

pub not_idle : (now_s : ℤ) (a : Agent) → agent_idle now_s a ≡ false → idle_count now_s a ≡ 0
unfolding idle_count
not_idle now_s a h = rw h refl

pub idle_none : (now_s : ℤ) (a : Agent) → idle_count now_s a ≤ 0 → agent_idle now_s a ≡ false
unfolding idle_count
idle_none now_s a h = ground arith

started_text :
    (l : Launch) (fs : Files) (i k : ℕ) (a : Agent) (msg who : Bytes)
    → l.created ≡ true
    → owner_texts k (start_session l fs i a (irc msg) who).started
      ≡ (if i == k then msg ∷ [] else [])
unfolding start_session owner_texts
started_text l fs i k a msg who h = simp (h, start_session) refl

-- An agent that is not idle is not started with a message.
no_texts :
    (now_s : ℤ) (k : ℕ) (launch : ℕ → Launch) (n : ℕ) (qs : List Queued) (agents : Agents)
    (fs : Files)
    → agent_idle now_s (agents k) ≡ false
    → owner_texts k (serve_queue launch now_s n qs agents fs).started ≡ []
no_texts now_s k launch n qs agents fs h =
    let z : idle_count now_s (agents k) ≡ 0 = not_idle now_s (agents k) h in
    let b = serve_queue-fair now_s k launch n qs agents fs in
    unstarted_texts k (serve_queue launch now_s n qs agents fs).started (omega arith)

-- A message is kept, or a session is started with it, in the order of the queue.
pub serve_queue-texts :
    (now_s : ℤ) (k : ℕ) (launch : ℕ → Launch) (n : ℕ) (qs : List Queued) (agents : Agents)
    (fs : Files)
    → ((j : ℕ) → (launch j).created ≡ true)
    → owner_texts k (serve_queue launch now_s n qs agents fs).started
        ++ texts k (serve_queue launch now_s n qs agents fs).queue
      ≡ texts k qs
unfolding serve_queue texts owner_texts
serve_queue-texts now_s k launch n [] agents fs c = refl
serve_queue-texts now_s k launch n (q ∷ qs) agents fs c =
    elim (Bool-cases (agent_idle now_s (agents q.agent))) [
      | inl e ↦
          let o : Outcome =
            start_session (launch n) fs q.agent (agents q.agent) (irc q.text) (codes "owner") in
          let rest : Served =
            serve_queue launch now_s (n + 1) qs (set_agent agents q.agent o.agent) o.files in
          rw (e, serve_queue)
            (ap (λ l. l ++ texts k rest.queue) (owner_texts-append k o.started rest.started)
              ∙ append_assoc (owner_texts k o.started) (owner_texts k rest.started)
                  (texts k rest.queue)
              ∙ ap (λ l. owner_texts k o.started ++ l)
                  (serve_queue-texts now_s k launch (n + 1) qs (set_agent agents q.agent o.agent)
                    o.files c)
              ∙ ap (λ l. l ++ texts k qs)
                  (started_text (launch n) fs q.agent k (agents q.agent) q.text (codes "owner")
                    (c n))
              ∙ joined (q.agent == k))
      | inr e ↦
          let rest : Served = serve_queue launch now_s (n + 1) qs agents fs in
          let ih : owner_texts k rest.started ++ texts k rest.queue ≡ texts k qs =
            serve_queue-texts now_s k launch (n + 1) qs agents fs c in
          elim (Bool-cases (q.agent == k)) [
            | inl f ↦
                let same : q.agent ≡ k = (==_iff q.agent k).0 f in
                let z : owner_texts k rest.started ≡ [] =
                  no_texts now_s k launch (n + 1) qs agents fs
                    (subst (λ j. agent_idle now_s (agents j) ≡ false) same e) in
                let t : texts k rest.queue ≡ texts k qs =
                  sym (ap (λ l. l ++ texts k rest.queue) z) ∙ ih in
                rw (e, f, serve_queue)
                  (ap (λ l. l ++ q.text ∷ texts k rest.queue) z ∙ ap (◌∷◌ q.text) t)
            | inr f ↦ rw (e, f, serve_queue) ih
          ]
    ]
  where
    joined :
        (b : Bool)
        → (if b then q.text ∷ [] else []) ++ texts k qs
          ≡ (if b then q.text ∷ texts k qs else texts k qs)
    joined true = refl
    joined false = refl

-- Whoever still has a message in the queue is not idle.
abbrev pub Waits : ℤ → Agents → Queued → Type 0
Waits now_s agents q = agent_idle now_s (agents q.agent) ≡ false

pub serve_queue-Waits :
    (now_s : ℤ) (launch : ℕ → Launch) (n : ℕ) (qs : List Queued) (agents : Agents) (fs : Files)
    → All
        (Waits now_s (serve_queue launch now_s n qs agents fs).agents)
        (serve_queue launch now_s n qs agents fs).queue
unfolding serve_queue
serve_queue-Waits now_s launch n [] agents fs = tt
serve_queue-Waits now_s launch n (q ∷ qs) agents fs =
    elim (Bool-cases (agent_idle now_s (agents q.agent))) [
      | inl e ↦
          let o : Outcome =
            start_session (launch n) fs q.agent (agents q.agent) (irc q.text) (codes "owner") in
          rw (e, serve_queue)
            (serve_queue-Waits now_s launch (n + 1) qs (set_agent agents q.agent o.agent) o.files)
      | inr e ↦
          let z : idle_count now_s (agents q.agent) ≡ 0 = not_idle now_s (agents q.agent) e in
          let b = serve_queue-fair now_s q.agent launch (n + 1) qs agents fs in
          rw (e, serve_queue)
            (
              idle_none now_s ((serve_queue launch now_s (n + 1) qs agents fs).agents q.agent)
                  (omega arith),
              serve_queue-Waits now_s launch (n + 1) qs agents fs,
            )
    ]
