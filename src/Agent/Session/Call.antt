-- ===== src/Agent/Session/Call.antt =====
-- A tool call of the model's in src/agent.c: `run_tool`, and what the loop does with its result.
use shclaw.Base.{
  ℕ, ◌+◌, Bool, true, false, not, ◌&&◌, Option, none, some, List, [], ◌∷◌, ◌++◌, ltb, if◌then◌else◌,
  Bytes, codes, strcmp_eq, snprintf, mem_byte, take, drop, length,
}
use shclaw.Json.{Value, string, number, boolean, Members, j_str}
use shclaw.Util.Utf8.{utf8_prefix}
use shclaw.Tools.{tool_check_args}
use shclaw.Tools.Table.{ToolDef, tool_find, tools_to_json}
use shclaw.Util.Buf.{append_all}
use shclaw.Agent.History.{Result}
use shclaw.Agent.Repeats.{repeated_call}
use shclaw.Agent.Session.State.{
  TriggerInfo, holds, is_requester, is_error, msg_tool_call, msg_tool_result, acted, added,
  answered, ToolCall, System, Agent, State, emit,
}

-- The tools of the agent, and the loaded plugins
unfoldable pub offered : {W : Type 0} → System W → Agent → List Bytes
offered sys a = tools_to_json a.is_builder ++ sys.plugin_names

abbrev pub spaced : List Bytes → List Bytes
spaced [] = []
spaced (n ∷ ns) = (codes " " ++ n) ∷ spaced ns

abbrev pub with_sent : Option Bytes → List Bytes → List Bytes
with_sent none names = names
with_sent (some n) names = if ltb (length names) 8 then names ++ snprintf 32 n ∷ [] else names

-- A message that is sent is noted, with its recipient in one of eight places.
unfoldable pub note_sent : {W : Type 0} → Bytes → Option Bytes → State W × Bytes → State W × Bytes
note_sent name to (s, result) =
    if strcmp_eq name (codes "send_message") && not (is_error result)
    then (record s { sent_message = true; sent_to = with_sent to s.sent_to }, result)
    else (s, result)

-- `agent_message` as an answer
abbrev pub answer_to : {W : Type 0} → System W → Bytes → Option Bytes → State W → State W × Bytes
answer_to sys to content s =
    let r = sys.agent_message s.world to content in
    (record (emit (answered to content) s) { world = r.0 }, r.1)

abbrev pub execute : {W : Type 0} → System W → Bytes → Members → State W → State W × Bytes
execute sys name input s =
    let r = sys.execute_tool s.world name input in (record s { world = r.0 }, r.1)

-- With the arguments checked: a message to a requester is its answer.
unfoldable pub call_tool :
    {W : Type 0}
    → System W
    → TriggerInfo
    → Bytes
    → Option Bytes
    → Members
    → State W
    → State W × Bytes
call_tool sys trig name none input s = execute sys name input s
call_tool sys trig name (some to) input s =
    if is_requester trig (some to)
    then answer_to sys to (j_str sys.same input (codes "content")) s
    else execute sys name input s

abbrev pub recipient : {W : Type 0} → System W → Bytes → Members → Option Bytes
recipient sys name input =
    if strcmp_eq name (codes "send_message")
    then sys.resolve (j_str sys.same input (codes "to"))
    else none

unfoldable pub run_built_in :
    {W : Type 0} → System W → TriggerInfo → Bytes → ToolDef → Members → State W → State W × Bytes
run_built_in sys trig name t input s =
    let to : Option Bytes = recipient sys name input in
    let checked : Members × Option Bytes = tool_check_args sys.same sys.strtol t input 32768 in
    note_sent name to (elim checked.1 [
      | some problem ↦ (s, problem)
      | none ↦ call_tool sys trig name to checked.0 s
    ])

unfoldable pub run_plugin : {W : Type 0} → System W → ToolCall → State W → State W × Bytes
run_plugin sys call s =
    let r = sys.plugin_execute s.world call.name call.input_json in
    (
      record s { world = r.0 },
      elim r.1 [
        | some result ↦ result
        | none ↦
            snprintf 32768 (codes "Error: plugin '" ++ (call.name ++ codes "' is no longer loaded"))
      ],
    )

-- How often a call may be made: a builder reads a file once.
abbrev pub limit_of : Agent → Bytes → ℕ
limit_of a name = if a.is_builder && strcmp_eq name (codes "read_file") then 1 else 2

unfoldable pub run_found :
    {W : Type 0}
    → System W
    → TriggerInfo
    → ToolCall
    → Members
    → Option ToolDef
    → State W
    → State W × Bytes
run_found sys trig call input none s = run_plugin sys call s
run_found sys trig call input (some t) s = run_built_in sys trig call.name t input s

unfoldable pub run_object :
    {W : Type 0} → System W → Agent → TriggerInfo → ToolCall → Members → State W → State W × Bytes
run_object sys a trig call input s =
    let r = repeated_call (limit_of a call.name) call.name (sys.print call.input_json) s.counters in
    if r.1
    then (
      record s { counters = r.0; blocked_repeats = s.blocked_repeats + 1 },
      snprintf 32768 (
          codes "Error: "
          ++ (call.name
              ++ codes
                  " was already called with these exact arguments. Use the earlier result, or do something else.")),
    )
    else run_found sys trig call input (tool_find call.name) (record s { counters = r.0 })

unfoldable pub run_tool :
    {W : Type 0} → System W → Agent → TriggerInfo → ToolCall → State W → State W × Bytes
run_tool sys a trig call s =
    if not (holds call.name (offered sys a))
    then (
      s,
      append_all 32768 [] (
          (codes "Error: unknown tool '" ++ (call.name ++ codes "'. Available tools:"))
          ∷ spaced (offered sys a)),
    )
    else elim (sys.parse call.input_json) [
      | none ↦ (
        s,
        snprintf 32768 (
            codes "Error: the arguments of "
            ++ (call.name
                ++ codes
                    " are not a valid JSON object. Call it again with a JSON object that matches its schema.")),
      )
      | some input ↦ run_object sys a trig call input s
    ]

-- What the loop notes of a result
unfoldable pub note_result : {W : Type 0} → Bytes → Bytes → State W → State W
note_result name result s =
    let ok : Bool = not (is_error result) in
    let plugin : Bool = strcmp_eq name (codes "create_plugin") in
    record s {
      plugin_failed = if plugin then not ok else s.plugin_failed;
      plugin_done = if plugin && ok then true else s.plugin_done;
      notice = if plugin && ok then snprintf 4096 result else s.notice;
      listed_agents = if strcmp_eq name (codes "list_agents") then true else s.listed_agents;
    }

unfoldable pub value_text : {W : Type 0} → System W → Value → Bytes
value_text sys (string s) =
    if mem_byte 10 s
    then snprintf 96 (codes "<" ++ (sys.decimal (length s) ++ codes " chars>"))
    else snprintf 96 (take (utf8_prefix s 60) s ++ (if ltb 60 (length s) then codes "..." else []))
value_text sys (number n nonzero) = snprintf 96 (sys.number_text (number n nonzero))
value_text sys (boolean true) = codes "true"
value_text sys (boolean false) = codes "false"
value_text sys _ = codes "{...}"

abbrev pub name_or : Option Bytes → Bytes
name_or none = codes "?"
name_or (some name) = name

unfoldable pub item_texts :
    {W : Type 0} → System W → Bool → List (Option Bytes × Value) → List Bytes
item_texts sys first [] = []
item_texts sys first ((name, v) ∷ rest) =
    ((if first then [] else codes ", ") ++ (name_or name ++ (codes "=" ++ value_text sys v)))
    ∷ item_texts sys false rest

-- The arguments in short, in a buffer of 256 bytes
unfoldable pub summarize_args : {W : Type 0} → System W → Bytes → Bytes
summarize_args sys input_json = append_all 256 [] (item_texts sys true (sys.items input_json))

abbrev pub announced : {W : Type 0} → System W → ToolCall → State W → State W
announced sys call s =
    let line : Bytes = snprintf 400 (
      codes "calls "
      ++ (call.name ++ (codes "(" ++ (summarize_args sys call.input_json ++ codes ")")))) in
    emit (added [] (drop 6 line) msg_tool_call) (emit (acted line) s)

-- One call: the state after it, and its result for the history
unfoldable pub run_call :
    {W : Type 0} → System W → Agent → TriggerInfo → ToolCall → State W → State W × Result
run_call {W = W} sys a trig call s =
    let r : State W × Bytes = run_tool sys a trig call (announced sys call s) in
    (
      note_result call.name r.1 (emit (added [] r.1 msg_tool_result) r.0),
      record { tool_use_id = call.id; content = r.1; is_error = is_error r.1 },
    )

unfoldable pub run_calls :
    {W : Type 0} → System W → Agent → TriggerInfo → List ToolCall → State W → State W × List Result
run_calls sys a trig [] s = (s, [])
run_calls {W = W} sys a trig (c ∷ cs) s =
    let r : State W × Result = run_call sys a trig c s in
    let rest : State W × List Result = run_calls sys a trig cs r.0 in (rest.0, r.1 ∷ rest.1)
