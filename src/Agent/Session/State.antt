-- ===== src/Agent/Session/State.antt =====
-- The state of a session of src/agent.c, what it asks of others, and its trigger.
use shclaw.Base.{
  ℕ, Bool, true, false, ◌||◌, Option, none, some, List, [], ◌∷◌, ◌++◌, leb, ◌==◌, if◌then◌else◌,
  Bytes, codes, strcmp_eq, snprintf, length,
}
use shclaw.Base.Int.{ℤ}
use shclaw.Daemon.Start.{Trigger, irc, schedule, agent_msg}
use shclaw.Messenger.{Mail}
use shclaw.Json.{Value, Members, Scanned}
use shclaw.Memory.Search.{starts_with}
use shclaw.Agent.History.{Message, Block}
use shclaw.Agent.Repeats.{Counter}

pub record TriggerInfo : Type 0 where
  pub requesters : List Bytes
  pub reply_batch : Bool
  pub relay : Bool

-- Whether one of the names is this one
unfoldable pub holds : Bytes → List Bytes → Bool
unfolding strcmp_eq
holds name [] = false
holds name (n ∷ ns) = strcmp_eq n name || holds name ns

unfoldable pub add_requester : List Bytes → Mail → List Bytes
unfolding holds
add_requester rs m =
    if m.reply || (holds m.from rs || leb 16 (length rs)) then rs else rs ++ snprintf 32 m.from ∷ []

unfoldable pub requesters_of : List Mail → List Bytes → List Bytes
unfolding add_requester
requesters_of [] rs = rs
requesters_of (m ∷ ms) rs = requesters_of ms (add_requester rs m)

unfoldable pub parse_trigger : Trigger → TriggerInfo
unfolding requesters_of
parse_trigger (irc msg) = record { requesters = []; reply_batch = false; relay = true }
parse_trigger (schedule tasks) = record { requesters = []; reply_batch = false; relay = true }
parse_trigger (agent_msg mails) =
    let rs : List Bytes = requesters_of mails [] in
    record { requesters = rs; reply_batch = length rs == 0; relay = length rs == 0 }

abbrev pub is_agent_msg : Trigger → Bool
is_agent_msg (agent_msg mails) = true
is_agent_msg _ = false

unfoldable pub is_requester : TriggerInfo → Option Bytes → Bool
unfolding holds
is_requester trig none = false
is_requester trig (some name) = holds name trig.requesters

-- `strncmp(result, "Error", 5) == 0`
unfoldable pub is_error : Bytes → Bool
unfolding starts_with
is_error result = starts_with (codes "Error") result

-- What `session_add_message` is told: MSG_TEXT and so on
pub data MessageType : Type 0 where
  msg_text msg_thinking msg_tool_call msg_tool_result msg_delegation : MessageType

pub data Event : Type 0 where
  -- `llm_call` with this history
  asked : List Message → Event
  -- `irc_reply` and `irc_action` in the agent's name
  replied acted : Bytes → Event
  -- `session_add_message` with the recipient and the text
  added : Bytes → Bytes → MessageType → Event
  -- `chat_add` with the speaker and the text
  chatted : Bytes → Bytes → Event
  -- `agent_message` to an agent, as an answer
  answered : Bytes → Option Bytes → Event

pub record TextBlock : Type 0 where
  pub thinking : Bool
  pub body : Bytes

pub record ToolCall : Type 0 where
  pub id : Bytes
  pub name : Bytes
  pub input_json : Bytes

pub record Response : Type 0 where
  pub text_blocks : List TextBlock
  pub tool_calls : List ToolCall
  pub stop_reason : Bytes
  pub content : List Block

-- What `llm_call` gives: an error's text, or a response
pub data Reply : Type 0 where
  llm_error : Bytes → Reply
  response : Response → Reply

-- cJSON: `parse` gives the members of an object, `items` what an object or an array holds, with the
-- names of members, and `print` the JSON text of what was parsed. `number_text` is `%g`.
pub record System (W : Type 0) : Type 0 where
  pub parse : Bytes → Option Members
  pub print : Bytes → Bytes
  pub same : Bytes → Bytes → Bool
  pub strtol : Bytes → Scanned
  pub decimal : ℕ → Bytes
  pub json_size : List Message → ℕ
  pub items : Bytes → List (Option Bytes × Value)
  pub number_text : Value → Bytes
  pub resolve : Option Bytes → Option Bytes
  pub llm_call : W → List Message → W × Reply
  pub execute_tool : W → Bytes → Members → W × Bytes
  pub agent_message : W → Bytes → Option Bytes → W × Bytes
  pub plugin_names : List Bytes
  pub plugin_execute : W → Bytes → Bytes → W × Option Bytes

-- What a session reads of its agent
pub record Agent : Type 0 where
  pub name : Bytes
  pub is_builder : Bool
  pub is_hub : Bool
  pub max_turns : ℤ
  pub history_budget : ℤ
  pub provider_type : Bytes

-- `session_state_t`, with the history, the last text reply, the events and the world's state
pub record State (W : Type 0) : Type 0 where
  pub world : W
  pub events : List Event
  pub messages : List Message
  pub answer : Option Bytes
  pub builder_retry_used : Bool
  pub hub_retry_used : Bool
  pub empty_retry_used : Bool
  pub plugin_done : Bool
  pub plugin_failed : Bool
  pub sent_message : Bool
  pub listed_agents : Bool
  pub blocked_repeats : ℕ
  pub sent_to : List Bytes
  pub notice : Bytes
  pub counters : List Counter

abbrev pub emit : {W : Type 0} → Event → State W → State W
emit e s = record s { events = e ∷ s.events }
