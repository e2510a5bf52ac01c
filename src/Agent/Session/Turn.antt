-- ===== src/Agent/Session/Turn.antt =====
-- One turn of the loop of `agent_run_session` in src/agent.c, with `after_text_reply`.
use shclaw.Base.{
  suc, Bool, true, not, ◌&&◌, ◌||◌, Option, none, some, List, [], ◌∷◌, ◌++◌, leb, ◌==◌,
  if◌then◌else◌, Bytes, codes, strcmp_eq, snprintf, take, length,
}
use shclaw.Base.Int.{ℤ, pos}
use shclaw.Json.{Members, string}
use shclaw.Agent.Extract.{builder_extract_code}
use shclaw.Agent.History.{
  Message, Block, Result, tool_results, assistant, add_user_text, trim_history,
}
use shclaw.Agent.Session.State.{
  TriggerInfo, is_error, msg_text, msg_thinking, msg_tool_call, msg_tool_result, asked, replied,
  acted, added, chatted, TextBlock, Response, Reply, llm_error, response, System, Agent, State,
  emit,
}
use shclaw.Agent.Session.Call.{run_calls}

-- How a turn ends: another one follows, or the session is completed or has failed.
pub data Flow : Type 0 where
  again completed failed : Flow

abbrev pub relayed : {W : Type 0} → TriggerInfo → Bytes → State W → State W
relayed trig text s = if trig.relay then emit (replied text) s else s

abbrev pub stall_notice : Bytes
stall_notice = codes "Builder stalled: the plugin request ended without a working plugin."

abbrev pub stalled : {W : Type 0} → TriggerInfo → State W → State W × Flow
stalled trig s = (relayed trig stall_notice (record s { notice = stall_notice }), failed)

-- One more try for a builder, or the end
unfoldable pub builder_retry : {W : Type 0} → TriggerInfo → Bytes → State W → State W × Flow
builder_retry trig nudge s =
    if not s.builder_retry_used
    then (record s { messages = add_user_text s.messages nudge; builder_retry_used = true }, again)
    else stalled trig s

abbrev pub builder_nudge : Bytes
builder_nudge =
    codes
      "Do not narrate. Call create_plugin now with the complete, corrected code, or say in one sentence why you cannot."

abbrev pub auto_fail : Bytes → Bytes
auto_fail result = snprintf 4096 (
    codes "Auto-compilation failed:\n"
    ++ (take 3000 result ++ codes "\nCall create_plugin with corrected code."))

-- After the code of a reply was compiled with this result
unfoldable pub after_compile : {W : Type 0} → TriggerInfo → Bytes → State W → State W × Flow
after_compile trig result s =
    if not (is_error result)
    then (
      relayed trig result (record s { plugin_done = true; notice = snprintf 4096 result }),
      completed,
    )
    else builder_retry trig (auto_fail result) s

abbrev pub plugin_input : Bytes → Bytes → Members
plugin_input name code = (codes "name", string name) ∷ (codes "code", string code) ∷ []

unfoldable pub auto_compile :
    {W : Type 0} → System W → TriggerInfo → Bytes → Bytes → State W → State W × Flow
auto_compile sys trig name code s =
    let action : Bytes = snprintf 160 (codes "auto-compiles '" ++ (name ++ codes "' from text")) in
    let r = sys.execute_tool s.world (codes "create_plugin") (plugin_input name code) in
    after_compile trig r.1 (
      emit (added [] r.1 msg_tool_result)
        (record (emit (added [] action msg_tool_call) (emit (acted action) s)) { world = r.0 }))

unfoldable pub builder_reply :
    {W : Type 0} → System W → Bool → TriggerInfo → Option (Bytes × Bytes) → State W → State W × Flow
builder_reply sys from_agent trig (some (name, code)) s = auto_compile sys trig name code s
builder_reply sys from_agent trig none s =
    if not from_agent && not s.plugin_failed
    then (s, completed)
    else builder_retry trig builder_nudge s

abbrev pub hub_nudge : Bytes
hub_nudge =
    codes "You called list_agents but did not call send_message. Do not narrate "
    ++ (226 ∷ 128 ∷ 148 ∷ codes " call send_message now to delegate.")

abbrev pub empty_nudge : Bytes
empty_nudge = codes "Your last reply was empty. Reply in text, or call a tool."

unfoldable pub plain_reply : {W : Type 0} → Agent → Bytes → State W → State W × Flow
plain_reply a text s =
    if a.is_hub && (s.listed_agents && (not s.sent_message && not s.hub_retry_used))
    then (record s { messages = add_user_text s.messages hub_nudge; hub_retry_used = true }, again)
    else if length text == 0 && not s.empty_retry_used
    then (
      record s { messages = add_user_text s.messages empty_nudge; empty_retry_used = true },
      again,
    )
    else (s, completed)

-- `from_agent` is `trig_type == TRIG_AGENT_MSG`.
unfoldable pub after_text_reply :
    {W : Type 0} → System W → Agent → Bool → TriggerInfo → Bytes → State W → State W × Flow
after_text_reply sys a from_agent trig text s =
    if a.is_builder && not s.plugin_done
    then builder_reply sys from_agent trig (builder_extract_code text 64 32768) s
    else plain_reply a text s

-- The loop over the blocks: they are logged, and what is no thinking is relayed.
unfoldable pub relay_blocks :
    {W : Type 0} → Agent → TriggerInfo → Bool → List TextBlock → State W → State W
relay_blocks a trig talk [] s = s
relay_blocks a trig talk (b ∷ bs) s =
    let logged = emit (added [] b.body (if b.thinking then msg_thinking else msg_text)) s in
    let shown = emit (replied b.body) logged in
    let said = if talk then emit (chatted a.name b.body) shown else shown in
    relay_blocks a trig talk bs (if b.thinking || not trig.relay then logged else said)

-- The texts that are no thinking, on lines of their own
unfoldable pub joined_text : Bytes → List TextBlock → Bytes
joined_text acc [] = acc
joined_text acc (b ∷ bs) =
    joined_text
      (if b.thinking then acc else (acc ++ (if length acc == 0 then [] else 10 ∷ [])) ++ b.body) bs

abbrev pub replay : List Block → List Message
replay [] = []
replay (b ∷ bs) = assistant (b ∷ bs) ∷ []

abbrev pub stuck_notice : Bytes
stuck_notice = codes "(stopped: the model kept repeating the same tool call)"

abbrev pub refused_notice : Bytes
refused_notice = codes "(the model declined to answer)"

-- A positive budget of a provider that is not Anthropic's
unfoldable pub trimmed_history : {W : Type 0} → System W → Agent → ℤ → List Message → List Message
trimmed_history sys a (pos (suc n)) ms =
    if strcmp_eq a.provider_type (codes "anthropic")
    then ms
    else trim_history sys.decimal ms (suc n)
trimmed_history sys a _ ms = ms

unfoldable pub after_calls :
    {W : Type 0} → System W → Agent → State W × List Result → State W × Flow
after_calls sys a (s, results) =
    let told = record s {
      messages = trimmed_history sys a a.history_budget (s.messages ++ tool_results results ∷ []);
    } in
    if leb 3 told.blocked_repeats
    then (emit (replied stuck_notice) (record told { notice = stuck_notice }), failed)
    else (told, again)

-- After the assistant's turn was put into the history
unfoldable pub act :
    {W : Type 0}
    → System W
    → Agent
    → Bool
    → TriggerInfo
    → Response
    → Bytes
    → State W
    → State W × Flow
act sys a from_agent trig r text s = elim r.tool_calls [
  | c ∷ cs ↦ after_calls sys a (run_calls sys a trig (c ∷ cs) s)
  | [] ↦
      if strcmp_eq r.stop_reason (codes "refusal")
      then (record (relayed trig refused_notice s) { notice = refused_notice }, completed)
      else after_text_reply sys a from_agent trig text s
]

unfoldable pub answered_turn :
    {W : Type 0}
    → System W
    → Agent
    → Bool
    → TriggerInfo
    → Bool
    → Response
    → State W
    → State W × Flow
answered_turn sys a from_agent trig talk r s =
    let text : Bytes = joined_text [] r.text_blocks in
    let told = relay_blocks a trig talk r.text_blocks s in
    act sys a from_agent trig r text (record told {
      answer = if length text == 0 then told.answer else some text;
      messages = told.messages ++ replay r.content;
    })

unfoldable pub turn_of :
    {W : Type 0} → System W → Agent → Bool → TriggerInfo → Bool → Reply → State W → State W × Flow
turn_of sys a from_agent trig talk (response r) s = answered_turn sys a from_agent trig talk r s
turn_of sys a from_agent trig talk (llm_error error) s =
    let notice : Bytes = snprintf 4096 (codes "(LLM error: " ++ (error ++ codes ")")) in
    (emit (replied notice) (record s { notice = notice }), failed)

unfoldable pub turn :
    {W : Type 0} → System W → Agent → Bool → TriggerInfo → Bool → State W → State W × Flow
turn sys a from_agent trig talk s =
    let r = sys.llm_call s.world s.messages in
    turn_of sys a from_agent trig talk r.1 (record (emit (asked s.messages) s) { world = r.0 })
