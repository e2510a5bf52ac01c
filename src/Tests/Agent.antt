-- ===== src/Tests/Agent.antt =====
-- Runs of src/agent.c and src/tools.c: a session with a request that is answered by a message, the
-- history, the count of calls, and the arguments of a tool.
use mathlib.Core.Path.{subst}
use shclaw.Base.{
  ◌⊎◌, ℕ, zero, suc, ◌≡◌, refl, Bool, true, false, some, none, List, [], ◌∷◌, arith, codes, Bytes,
  strcmp_eq, mem_byte, All,
}
use shclaw.Base.Int.{pos}
use shclaw.Util.Utf8.{utf8_prefix}
use shclaw.Daemon.Start.{agent_msg}
use shclaw.Messenger.{
  Mail, Messenger, messenger_init, messenger_register, messenger_resolve, resolve_in,
}
use shclaw.Messenger.Names.{register_all}
use shclaw.Agent.Session.Mailed.{messenger-IsShort}
use shclaw.Json.{Members, string, object, number, j_str}
use shclaw.Tools.{is_choice, tool_check_args}
use shclaw.Tools.Table.{
  ToolDef, param, takes, needs, tool_find, tools_to_json, string_type, int_type,
}
use shclaw.Agent.History.{
  Message, Block, user_text, tool_results, assistant, conv_fit, total_of, add_user_text,
  trim_history,
}
use shclaw.Agent.History.Paired.{call_ids}
use shclaw.Agent.History.Budget.{IsTrimmed, trim_history-IsTrimmed}
use shclaw.Agent.Repeats.{Attempted, refusals, repeated_call}
use shclaw.Agent.Repeats.Counted.{used_up, times, counted, Agrees, refusals-eq-used_up}
use shclaw.Agent.Extract.{builder_extract_code}
use shclaw.Agent.Session.State.{
  Reply, response, llm_error, Response, ToolCall, System, Agent, answered, asked, added, acted,
  msg_text, msg_tool_call, msg_tool_result, holds, is_requester, is_error, parse_trigger,
}
use shclaw.Agent.Session.Call.{
  summarize_args, item_texts, value_text, note_sent, call_tool, run_built_in, run_found, run_object,
  run_tool, offered, note_result, run_call, run_calls,
}
use shclaw.Agent.Session.Turn.{
  plain_reply, after_text_reply, relay_blocks, joined_text, trimmed_history, after_calls, act,
  answered_turn, turn_of, turn,
}
use shclaw.Agent.Session.Run.{
  turns, deliver_all, deliver_answer, after_turns, kept_conv, agent_run_session,
}
use shclaw.Agent.Session.Quiet.{was_answered, IsShort}
use shclaw.Agent.Session.Calls.{asked_ids}
use shclaw.Agent.Session.Past.{IsMatched}
use shclaw.Agent.Session.Answered.{agent_run_session-answers}
use shclaw.Agent.Session.Asked.{IsOrderly, agent_run_session-IsOrderly}

-- The model sends a message first, and then replies in text.
abbrev reply_of : ℕ → Response
reply_of zero = record {
  text_blocks = [];
  tool_calls =
      record { id = codes "t1"; name = codes "send_message"; input_json = codes "{}" } ∷ [];
  stop_reason = codes "tool_use";
  content = record { tool_use = some (codes "t1"); content = none; rest = [] } ∷ [];
}
reply_of (suc n) = record {
  text_blocks = record { thinking = false; body = codes "42" } ∷ [];
  tool_calls = [];
  stop_reason = codes "end_turn";
  content = record { tool_use = none; content = none; rest = codes "42" } ∷ [];
}

-- The agents of the messenger
abbrev pub registered : Messenger
registered = register_all (codes "owner" ∷ codes "Bob" ∷ codes "oracle" ∷ []) (messenger_init [])

abbrev system : System ℕ
system = record {
  parse =
      λ s. some ((codes "to", string (codes "bob")) ∷ (codes "content", string (codes "hi")) ∷ []);
  print = λ s. s;
  same = strcmp_eq;
  strtol = λ s. record { value = pos 0; rest = s; overflow = false };
  decimal = λ n. codes "1";
  json_size = total_of;
  items = λ s.
      (some (codes "to"), string (codes "bob"))
      ∷ (some (codes "content"), string (codes "hi\n"))
      ∷ [];
  number_text = λ v. [];
  resolve = messenger_resolve registered;
  llm_call = λ w ms. (suc w, response (reply_of w));
  execute_tool = λ w name input. (w, codes "ok");
  agent_message = λ w to content. (w, codes "Message sent");
  plugin_names = [];
  plugin_execute = λ w name input. (w, none);
}

abbrev oracle : Agent
oracle = record {
  name = codes "oracle";
  is_builder = false;
  is_hub = false;
  max_turns = pos 5;
  history_budget = pos 0;
  provider_type = codes "openai";
}

abbrev mails : List Mail
mails =
    record {
      id = codes "1";
      from = codes "Bob";
      to = codes "oracle";
      content = codes "?";
      thread_id = [];
      timestamp = [];
      reply = false;
    }
    ∷ []

abbrev opening : Bool → Bytes
opening b = codes "Message from bob:"

system-IsShort : IsShort system
system-IsShort =
    messenger-IsShort system (codes "owner" ∷ codes "Bob" ∷ codes "oracle" ∷ []) [] (λ to. refl)

abbrev content_of : Reply → List Block
content_of (response r) = r.content
content_of (llm_error e) = []

abbrev calls_of : Reply → List ToolCall
calls_of (response r) = r.tool_calls
calls_of (llm_error e) = []

reply_of-matches : (w : ℕ) → call_ids (reply_of w).content ≡ asked_ids (reply_of w).tool_calls
unfolding call_ids asked_ids
reply_of-matches zero = refl
reply_of-matches (suc w) = refl

system-IsMatched : IsMatched system
system-IsMatched = record {
  matched = λ w ms r e.
      subst (λ x. call_ids (content_of x) ≡ asked_ids (calls_of x)) e (reply_of-matches w);
}

agent_run_session-answers_example :
    All
      (λ m.
        (m.reply ≡ true)
        ⊎ (was_answered m.from
              (agent_run_session system oracle none (agent_msg mails) none opening 0).state.events
            ≡ true))
      mails
agent_run_session-answers_example =
    agent_run_session-answers system oracle none mails none opening 0 system-IsShort (omega arith)
      (omega arith, tt)

agent_run_session-IsOrderly_example :
    IsOrderly (agent_run_session system oracle none (agent_msg mails) none opening 0)
agent_run_session-IsOrderly_example =
    agent_run_session-IsOrderly system oracle none (agent_msg mails) none opening 0 system-IsShort
      system-IsMatched tt

-- The message was the answer, and no other one was sent; then the text that nobody is shown.
session_run :
    (agent_run_session system oracle none (agent_msg mails) none opening 0).state.events
    ≡ added [] (codes "42") msg_text
      ∷ asked (
          user_text (codes "Message from bob:")
          ∷ assistant (record { tool_use = some (codes "t1"); content = none; rest = [] } ∷ [])
          ∷ tool_results (
              record { tool_use_id = codes "t1"; content = codes "Message sent"; is_error = false }
              ∷ [])
          ∷ [])
      ∷ added [] (codes "Message sent") msg_tool_result
      ∷ answered (codes "Bob") (some (codes "hi"))
      ∷ added [] (codes "send_message(to=bob, content=<1 chars>)") msg_tool_call
      ∷ acted (codes "calls send_message(to=bob, content=<1 chars>)")
      ∷ asked (user_text (codes "Message from bob:") ∷ [])
      ∷ []
unfolding mem_byte utf8_prefix summarize_args item_texts value_text register_all messenger_register
    messenger_resolve resolve_in agent_run_session turns turn turn_of answered_turn relay_blocks
    joined_text act after_calls run_calls run_call run_tool offered run_object run_found
    run_built_in call_tool note_sent note_result holds is_requester is_error parse_trigger
    repeated_call tool_find tool_check_args tools_to_json j_str trimmed_history after_text_reply
    plain_reply builder_extract_code after_turns deliver_answer deliver_all kept_conv add_user_text
    messenger_init
session_run = refl

-- Three exchanges, the second one with a tool call
abbrev history : List Message
history =
    user_text (codes "one")
    ∷ assistant []
    ∷ user_text (codes "two")
    ∷ assistant (record { tool_use = some (codes "t1"); content = none; rest = [] } ∷ [])
    ∷ tool_results
        (record { tool_use_id = codes "t1"; content = codes "result"; is_error = false } ∷ [])
    ∷ assistant []
    ∷ user_text (codes "three")
    ∷ []

fitted :
    conv_fit total_of 8 3 history
    ≡ (user_text (codes "one") ∷ assistant [] ∷ user_text (codes "three") ∷ [], true)
unfolding conv_fit total_of
fitted = refl

abbrev attempts : List Attempted
attempts =
    record { name = codes "exec"; args = codes "{}"; limit = 2 }
    ∷ record { name = codes "exec"; args = codes "{}"; limit = 2 }
    ∷ record { name = codes "recall"; args = codes "{}"; limit = 2 }
    ∷ record { name = codes "exec"; args = codes "{}"; limit = 2 }
    ∷ []

refused : refusals attempts [] ≡ false ∷ false ∷ false ∷ true ∷ []
unfolding refusals
refused = refl

none_counted : Agrees [] []
unfolding times counted
none_counted h = refl

refusals-eq-used_up_example : refusals attempts [] ≡ used_up [] attempts
refusals-eq-used_up_example =
    refusals-eq-used_up [] attempts []
      (omega arith, (omega arith, (omega arith, (omega arith, tt)))) none_counted (omega arith)

abbrev exec_tool : ToolDef
exec_tool = record {
  name = codes "exec";
  params = needs (codes "command") string_type ∷ takes (codes "timeout") int_type ∷ [];
}

-- A command that is JSON without quotes, and a timeout
abbrev arguments : Members
arguments = (codes "command", object (codes "{}")) ∷ (codes "timeout", number (pos 3) true) ∷ []

accepted :
    tool_check_args strcmp_eq system.strtol exec_tool arguments 100
    ≡ ((codes "command", string (codes "{}")) ∷ (codes "timeout", number (pos 3) true) ∷ [], none)
unfolding tool_check_args
accepted = refl

refused_arguments :
    (tool_check_args strcmp_eq system.strtol exec_tool [] 50).1
    ≡ some (codes "Error: missing required parameter 'command'. Usag")
unfolding tool_check_args
refused_arguments = refl

-- A tool with choices, and an input that names one of them
abbrev plan_tool : ToolDef
plan_tool = record {
  name = codes "plan";
  params =
      param (codes "interval") string_type true (some (codes "every_30min,hourly,every_6h,daily"))
      ∷ takes (codes "prompt") string_type
      ∷ [];
}

abbrev plan : Members
plan = (codes "interval", string (codes "hourly")) ∷ []

plugin_found :
    builder_extract_code
      (codes "Here:\n```c\n#include \"tc_plugin.h\"\nTC_PLUGIN_NAME = \"w\"; tc_execute() {}\n```")
      64
      200
    ≡ some (codes "w", codes "#include \"tc_plugin.h\"\nTC_PLUGIN_NAME = \"w\"; tc_execute() {}")
unfolding builder_extract_code
plugin_found = refl

-- An output of 405 bytes, and a short one in the newest message
abbrev stars : ℕ → Bytes
stars zero = []
stars (suc n) = b'*' ∷ stars n

abbrev outputs : List Message
outputs =
    tool_results (record { tool_use_id = codes "t1"; content = stars 405; is_error = false } ∷ [])
    ∷ tool_results
        (record { tool_use_id = codes "t2"; content = codes "short"; is_error = false } ∷ [])
    ∷ []

trim_history-IsTrimmed_example : IsTrimmed 300 outputs (trim_history (λ n. codes "205") outputs 300)
trim_history-IsTrimmed_example = trim_history-IsTrimmed (λ n. codes "205") outputs 300

trimmed_total : total_of (trim_history (λ n. codes "205") outputs 300) ≡ 274
unfolding trim_history total_of
trimmed_total = refl

-- Two choices in one
joined_choice :
    is_choice (some (codes "every_30min,hourly,every_6h,daily")) (codes "hourly,every_6h") ≡ true
unfolding is_choice
joined_choice = refl
