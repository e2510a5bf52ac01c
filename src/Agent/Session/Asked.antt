-- ===== src/Agent/Session/Asked.antt =====
-- With which histories src/agent.c calls the model, and which one it keeps.
use shclaw.Base.{
  suc, refl, Bool, true, false, not, ◌&&◌, Option, none, some, List, [], ◌∷◌, ◌++◌, ◌==◌,
  if◌then◌else◌, if_rule, Bytes, length, All, arith,
}
use shclaw.Daemon.Start.{Trigger}
use shclaw.Agent.History.{Message}
use shclaw.Agent.Session.State.{TriggerInfo, parse_trigger, is_agent_msg, System, Agent, State}
use shclaw.Agent.Session.Turn.{Flow}
use shclaw.Agent.Session.Run.{
  number_of_turns, turns, answer_text, deliver_all, deliver_answer, fresh_state, heard, after_turns,
  Chat, Conversation, is_open, resumed, is_resumed, history_of, Ended, agent_run_session,
}
use shclaw.Agent.Session.Quiet.{IsShort}
use shclaw.Agent.Session.Replies.{Of}
use shclaw.Agent.History.Paired.{IsPaired, Pairs-append}
use shclaw.Agent.History.Fitted.{conv_fit-IsFitted}
use shclaw.Agent.History.{add_user_text, user_text, conv_fit}
use shclaw.Agent.Session.Quiet.{Fine}
use shclaw.Agent.Session.Run.{kept_conv, next_conv, conv_max, ends_with_assistant}
use shclaw.Agent.Session.Past.{
  IsMatched, Past, turns-Past, after_turns-Past, heard-Past, deliver_all-Past,
}

-- A conversation that is kept, if there is one
abbrev pub IsKept : Option Conversation → Type 0
IsKept none = Unit
IsKept (some conv) = IsPaired conv.messages

resumed-IsPaired :
    (b : Bool) (chat : Option Chat) (conv : Option Conversation)
    → IsKept conv
    → IsPaired (history_of (if b then resumed chat conv else none))
resumed-IsPaired false chat conv h = refl
resumed-IsPaired true none conv h = refl
resumed-IsPaired true (some chat) none h = refl
resumed-IsPaired true (some chat) (some conv) h =
    if_rule (λ o. IsPaired (history_of o)) (conv.conv_id == chat.chat_id) (some conv.messages) none
      h refl

kept_conv-IsPaired :
    {W : Type 0} (sys : System W) (a : Agent) (talk has_failed : Bool) (ms : List Message)
    → IsPaired ms
    → IsPaired (history_of (kept_conv sys a talk has_failed ms))
unfolding kept_conv
kept_conv-IsPaired sys a talk has_failed ms p =
    let fitted : List Message × Bool =
      conv_fit sys.json_size (suc (length ms)) (conv_max a.history_budget) ms in
    if_rule (λ o. IsPaired (history_of o))
      (talk && (not has_failed && (ends_with_assistant ms && fitted.1))) (some fitted.0) none
      (conv_fit-IsFitted sys.json_size (suc (length ms)) (conv_max a.history_budget) ms
        (omega arith) p).paired
      refl

next_conv-IsKept :
    (talk : Bool) (chat : Option Chat) (conv : Option Conversation) (ms : Option (List Message))
    → IsKept conv
    → IsPaired (history_of ms)
    → IsKept (next_conv talk chat conv ms)
next_conv-IsKept false chat conv ms h p = h
next_conv-IsKept true none conv ms h p = tt
next_conv-IsKept true (some chat) conv none h p = tt
next_conv-IsKept true (some chat) conv (some ms) h p = p

-- The model is called with such histories, and such a one is kept.
pub record IsOrderly {W : Type 0} (ended : Ended W) : Type 0 where
  pub asked : All Fine ended.state.events
  pub kept : IsKept ended.conv

-- Whatever the model replies and the tools do, as long as the calls that the provider lists are
-- those of the turn that is replayed, and names that a recipient resolves to fit the field of a
-- name: every history that the model is called with answers each of its tool calls in the next
-- message, all of them, in order and nothing else, trimmed or not; and so does the conversation
-- that is kept for the next session, cut or not, where the one before it did.
pub agent_run_session-IsOrderly :
    {W : Type 0} (sys : System W) (a : Agent) (chat : Option Chat) (trigger : Trigger)
    (conv : Option Conversation) (opening : Bool → Bytes) (world : W)
    → IsShort sys
    → IsMatched sys
    → IsKept conv
    → IsOrderly (agent_run_session sys a chat trigger conv opening world)
unfolding agent_run_session deliver_answer add_user_text
agent_run_session-IsOrderly {W = W} sys a chat trigger conv opening world short match c =
    let trig : TriggerInfo = parse_trigger trigger in
    let talk : Bool = trig.relay && is_open chat in
    let old : Option (List Message) = if talk then resumed chat conv else none in
    let first : List Message = history_of old ++ user_text (opening (is_resumed old)) ∷ [] in
    let start : State W = heard a talk trigger (fresh_state world first) in
    let begun : Of Past start = heard-Past sys a trig short talk trigger (fresh_state world first) (
      Pairs-append [] (history_of old) (user_text (opening (is_resumed old)) ∷ [])
          (resumed-IsPaired talk chat conv c) (refl, refl),
      tt,
    ) in
    let went : State W × Flow =
      turns sys a (is_agent_msg trigger) trig talk (number_of_turns a.max_turns) start in
    let ran : State W × Bool = after_turns sys a went in
    let past : Of Past ran.0 = after_turns-Past sys a trig short went (
      turns-Past sys a trig short (is_agent_msg trigger) talk (number_of_turns a.max_turns) start
        match begun) in
    let msg : Bytes = answer_text a.name ran.0.notice ran.0.answer ran.1 in
    let done : Of Past (deliver_all sys msg trig.requesters ran.0) =
      deliver_all-Past sys a trig short msg trig.requesters ran.0 past in
    record {
      asked = done.1;
      kept =
          next_conv-IsKept talk chat conv
            (kept_conv sys a talk ran.1 (deliver_all sys msg trig.requesters ran.0).messages) c
            (kept_conv-IsPaired sys a talk ran.1
              (deliver_all sys msg trig.requesters ran.0).messages done.0);
    }
