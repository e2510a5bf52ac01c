-- ===== src/Agent/Session/Run.antt =====
-- `agent_run_session` of src/agent.c, with `deliver_answer`. The first message of a session, which
-- `build_first_turn` or `build_next_turn` writes, is a parameter.
use shclaw.Base.{
  ℕ, zero, suc, Bool, true, false, not, ◌&&◌, Option, none, some, List, [], ◌∷◌, ◌++◌, ◌==◌,
  if◌then◌else◌, Bytes, codes, snprintf, length,
}
use shclaw.Base.Int.{ℤ, pos, negsuc}
use shclaw.Daemon.Start.{Trigger, irc}
use shclaw.Agent.History.{Message, assistant, add_user_text, conv_fit}
use shclaw.Agent.Session.State.{
  TriggerInfo, holds, parse_trigger, is_agent_msg, msg_delegation, replied, added, chatted,
  answered, System, Agent, State, emit,
}
use shclaw.Agent.Session.Turn.{Flow, again, completed, failed, turn}

abbrev pub number_of_turns : ℤ → ℕ
number_of_turns (pos zero) = 100
number_of_turns (pos (suc n)) = suc n
number_of_turns (negsuc n) = 100

-- The loop over `left` turns; `again` is its end where none is left.
unfoldable pub turns :
    {W : Type 0} → System W → Agent → Bool → TriggerInfo → Bool → ℕ → State W → State W × Flow
turns sys a from_agent trig talk zero s = (s, again)
turns sys a from_agent trig talk (suc left) s =
    let r = turn sys a from_agent trig talk s in
    elim r.1 [
      | again ↦ turns sys a from_agent trig talk left r.0
      | completed ↦ (r.0, completed)
      | failed ↦ (r.0, failed)
    ]

-- The text that stands for no answer, where there is no notice either
abbrev pub or_fallback : Bytes → Option Bytes → Bytes → Option Bytes
or_fallback [] none fallback = some fallback
or_fallback [] (some []) fallback = some fallback
or_fallback notice answer fallback = answer

abbrev pub behind : Bytes → Option Bytes → Bytes
behind notice none = []
behind notice (some answer) = (if length notice == 0 then [] else 10 ∷ []) ++ answer

unfoldable pub answer_text : Bytes → Bytes → Option Bytes → Bool → Bytes
answer_text name notice answer has_failed =
    let fallback : Bytes = snprintf 160 (
      codes "("
      ++ (name
          ++ (if has_failed
              then codes " could not finish the request)"
              else codes " finished without an answer)"))) in
    notice ++ behind notice (or_fallback notice answer fallback)

abbrev pub deliver_to : {W : Type 0} → System W → Bytes → Bytes → State W → State W
deliver_to sys msg to s =
    let r = sys.agent_message s.world to (some msg) in
    emit (added to msg msg_delegation) (record (emit (answered to (some msg)) s) { world = r.0 })

-- The loop over the requesters
unfoldable pub deliver_all : {W : Type 0} → System W → Bytes → List Bytes → State W → State W
deliver_all sys msg [] s = s
deliver_all sys msg (to ∷ others) s =
    deliver_all sys msg others (if holds to s.sent_to then s else deliver_to sys msg to s)

unfoldable pub deliver_answer :
    {W : Type 0} → System W → Agent → TriggerInfo → Bool → State W → State W
deliver_answer sys a trig has_failed s =
    deliver_all sys (answer_text a.name s.notice s.answer has_failed) trig.requesters s

unfoldable pub max_turns_notice : {W : Type 0} → System W → Agent → State W → State W
max_turns_notice sys a s =
    let notice : Bytes = snprintf 4096 (
      codes "(stopped after "
      ++ (sys.decimal (number_of_turns a.max_turns) ++ codes " turns without finishing)")) in
    emit (replied notice) (record s { notice = notice })

abbrev pub fresh_state : {W : Type 0} → W → List Message → State W
fresh_state world messages = record {
  world = world;
  events = [];
  messages = messages;
  answer = none;
  builder_retry_used = false;
  hub_retry_used = false;
  empty_retry_used = false;
  plugin_done = false;
  plugin_failed = false;
  sent_message = false;
  listed_agents = false;
  blocked_repeats = 0;
  sent_to = [];
  notice = [];
  counters = [];
}

-- `owner → NAME`
abbrev pub owner_to : Bytes → Bytes
owner_to name = snprintf 48 (codes "owner " ++ (226 ∷ 134 ∷ 146 ∷ codes " " ++ name))

-- The owner's message goes to the conversation.
abbrev pub heard : {W : Type 0} → Agent → Bool → Trigger → State W → State W
heard a talk (irc msg) s = if talk then emit (chatted (owner_to a.name) msg) s else s
heard a talk _ s = s

-- The end of the loop: no turn left, or the outcome of the last one
unfoldable pub after_turns : {W : Type 0} → System W → Agent → State W × Flow → State W × Bool
after_turns sys a (s, again) = (max_turns_notice sys a s, false)
after_turns sys a (s, completed) = (s, false)
after_turns sys a (s, failed) = (s, true)

abbrev pub ends_with_assistant : List Message → Bool
ends_with_assistant [] = false
ends_with_assistant (assistant bs ∷ []) = true
ends_with_assistant (m ∷ ms) = ends_with_assistant ms

abbrev pub conv_max : ℤ → ℕ
conv_max (pos zero) = 65536
conv_max (pos (suc n)) = suc n
conv_max (negsuc n) = 65536

-- What the agent keeps of an exchange, as the conversation that goes on
unfoldable pub kept_conv :
    {W : Type 0} → System W → Agent → Bool → Bool → List Message → Option (List Message)
kept_conv sys a talk has_failed ms =
    let fitted = conv_fit sys.json_size (suc (length ms)) (conv_max a.history_budget) ms in
    if talk && (not has_failed && (ends_with_assistant ms && fitted.1)) then some fitted.0 else none

-- An agent's side of the conversation
pub record Conversation : Type 0 where
  pub messages : List Message
  pub conv_id : ℕ
  pub conv_seq : ℕ

-- The owner's conversation: its `chat_id`, and the number of the last line that `chat_render` shows
pub record Chat : Type 0 where
  pub chat_id : ℕ
  pub seq : ℕ

-- The history of the conversation that is open still
abbrev pub resumed : Option Chat → Option Conversation → Option (List Message)
resumed (some chat) (some conv) = if conv.conv_id == chat.chat_id then some conv.messages else none
resumed _ _ = none

abbrev pub is_open : Option Chat → Bool
is_open none = false
is_open (some chat) = true

abbrev pub is_resumed : Option (List Message) → Bool
is_resumed none = false
is_resumed (some ms) = true

abbrev pub history_of : Option (List Message) → List Message
history_of none = []
history_of (some ms) = ms

-- Without a part in the conversation the agent's side stays as it is.
abbrev pub next_conv :
    Bool → Option Chat → Option Conversation → Option (List Message) → Option Conversation
next_conv false chat conv ms = conv
next_conv true (some chat) conv (some ms) =
    some (record { messages = ms; conv_id = chat.chat_id; conv_seq = chat.seq })
next_conv true _ conv _ = none

pub record Ended (W : Type 0) : Type 0 where
  pub state : State W
  pub has_failed : Bool
  pub conv : Option Conversation

-- `opening` gives the first message, of a new conversation or of one that goes on.
unfoldable pub agent_run_session :
    {W : Type 0}
    → System W
    → Agent
    → Option Chat
    → Trigger
    → Option Conversation
    → (Bool → Bytes)
    → W
    → Ended W
agent_run_session sys a chat trigger conv opening world =
    let trig : TriggerInfo = parse_trigger trigger in
    let talk : Bool = trig.relay && is_open chat in
    let old : Option (List Message) = if talk then resumed chat conv else none in
    let messages : List Message = add_user_text (history_of old) (opening (is_resumed old)) in
    let ran = after_turns sys a (
      turns sys a (is_agent_msg trigger) trig talk (number_of_turns a.max_turns)
        (heard a talk trigger (fresh_state world messages))) in
    let delivered = deliver_answer sys a trig ran.1 ran.0 in
    record {
      state = delivered;
      has_failed = ran.1;
      conv = next_conv talk chat conv (kept_conv sys a talk ran.1 delivered.messages);
    }
