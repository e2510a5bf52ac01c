-- ===== src/Agent/Session/Answered.antt =====
-- The answers that a session of src/agent.c sends.
use shclaw.Base.{
  ◌⊎◌, ◌≤◌, ◌<◌, ◌≡◌, refl, sym, Bool, true, false, ◌&&◌, Option, none, some, inl, inr, List, [],
  ◌∷◌, if◌then◌else◌, if_rule, Bytes, strcmp_eq_iff, length, All, All-map, arith,
}
use shclaw.Daemon.Start.{agent_msg}
use shclaw.Messenger.{Mail}
use shclaw.Json.Replaced.{true-false}
use shclaw.Agent.History.{Message, add_user_text}
use shclaw.Agent.Session.State.{
  TriggerInfo, holds, parse_trigger, added, answered, msg_delegation, System, Agent, State,
}
use shclaw.Agent.Session.Turn.{Flow}
use shclaw.Agent.Session.Run.{
  number_of_turns, turns, answer_text, deliver_to, deliver_all, deliver_answer, fresh_state,
  after_turns, Chat, Conversation, is_open, resumed, is_resumed, history_of, agent_run_session,
}
use shclaw.Agent.Session.Quiet.{was_answered, SentOk, IsShort}
use shclaw.Agent.Session.Requesters.{holds_self, holds-All, requesters_of-From}
use shclaw.Agent.Session.Sent.{was_answered-cons, turns-Sent, after_turns-Sent}

-- An answer stays given.
deliver_all-keeps :
    {W : Type 0} (sys : System W) (msg r : Bytes) (names : List Bytes) (s : State W)
    → was_answered r s.events ≡ true
    → was_answered r (deliver_all sys msg names s).events ≡ true
unfolding deliver_all
deliver_all-keeps sys msg r [] s h = h
deliver_all-keeps {W = W} sys msg r (n ∷ ns) s h =
    deliver_all-keeps sys msg r ns (if holds n s.sent_to then s else deliver_to sys msg n s) (
      if_rule (λ (t : State W). was_answered r t.events ≡ true) (holds n s.sent_to) s
        (deliver_to sys msg n s) h
        (was_answered-cons r (added n msg msg_delegation) (answered n (some msg) ∷ s.events)
          (was_answered-cons r (answered n (some msg)) s.events h)))

deliver_to-answered :
    {W : Type 0} (sys : System W) (msg n : Bytes) (s : State W)
    → was_answered n (deliver_to sys msg n s).events ≡ true
unfolding was_answered
deliver_to-answered sys msg n s = rw ((strcmp_eq_iff n n).1 refl) refl

-- Every name that is a requester's was answered then.
deliver_all-answered :
    {W : Type 0} (sys : System W) (trig : TriggerInfo) (msg : Bytes) (names : List Bytes)
    (s : State W)
    → All (λ n. holds n trig.requesters ≡ true) names
    → SentOk trig s
    → All (λ n. was_answered n (deliver_all sys msg names s).events ≡ true) names
unfolding deliver_all
deliver_all-answered sys trig msg [] s k h = tt
deliver_all-answered {W = W} sys trig msg (n ∷ ns) s k h =
    let next : State W = if holds n s.sent_to then s else deliver_to sys msg n s in
    (
      deliver_all-keeps sys msg n ns next (now (holds n s.sent_to) (λ e. h n e k.0)),
      deliver_all-answered sys trig msg ns next k.1 (
          if_rule (λ (t : State W). SentOk trig t) (holds n s.sent_to) s (deliver_to sys msg n s) h
            (λ r f g.
              was_answered-cons r (added n msg msg_delegation) (answered n (some msg) ∷ s.events)
                (was_answered-cons r (answered n (some msg)) s.events (h r f g)))),
    )
  where
    now :
        (b : Bool)
        → ((b ≡ true) → was_answered n s.events ≡ true)
        → was_answered n (if b then s else deliver_to sys msg n s).events ≡ true
    now true f = f refl
    now false f = deliver_to-answered sys msg n s

-- Whatever the model replies, the tools do and the deliveries come to, and however the session
-- ends: when it is over, an answer was sent to every agent that one of the mails is a request
-- from, where the mails are at most sixteen and names, as those that a recipient resolves to, fit
-- the field of a name.
pub agent_run_session-answers :
    {W : Type 0} (sys : System W) (a : Agent) (chat : Option Chat) (mails : List Mail)
    (conv : Option Conversation) (opening : Bool → Bytes) (world : W)
    → IsShort sys
    → length mails ≤ 16
    → All (λ m. length m.from < 32) mails
    → All
        (λ m.
          (m.reply ≡ true)
          ⊎ (was_answered m.from
                (agent_run_session sys a chat (agent_msg mails) conv opening world).state.events
              ≡ true))
        mails
unfolding agent_run_session deliver_answer parse_trigger
agent_run_session-answers {W = W} sys a chat mails conv opening world short few names =
    let trig : TriggerInfo = parse_trigger (agent_msg mails) in
    let talk : Bool = trig.relay && is_open chat in
    let old : Option (List Message) = if talk then resumed chat conv else none in
    let start : State W =
      fresh_state world (add_user_text (history_of old) (opening (is_resumed old))) in
    let went : State W × Flow = turns sys a true trig talk (number_of_turns a.max_turns) start in
    let ran : State W × Bool = after_turns sys a went in
    let sent : SentOk trig ran.0 =
      after_turns-Sent sys a trig short went
        (turns-Sent sys a trig short true talk (number_of_turns a.max_turns) start none_sent) in
    let all =
      deliver_all-answered sys trig (answer_text a.name ran.0.notice ran.0.answer ran.1)
        trig.requesters ran.0 (holds_self trig.requesters) sent in
    All-map
      (λ m f. elim f [ inl e ↦ inl e | inr e ↦ inr (holds-All _ m.from trig.requesters all e) ])
      mails (requesters_of-From mails [] names (omega arith))
  where
    none_sent :
        (r : Bytes)
        → holds r [] ≡ true
        → holds r (parse_trigger (agent_msg mails)).requesters ≡ true
        → was_answered r [] ≡ true
    none_sent r h k = absurd (true-false (sym h))
