-- ===== src/Agent/Session/Replies.antt =====
-- What the text replies of src/agent.c keep: any property of the events, the agents written to and
-- the history that an event other than a call of the model keeps, and that a user's text keeps.
use shclaw.Base.{
  Bool, true, not, ◌&&◌, ◌||◌, Option, none, some, List, [], ◌∷◌, ◌++◌, ◌==◌, if◌then◌else◌,
  if_rule, Bytes, codes, snprintf, length,
}
use shclaw.Agent.Extract.{builder_extract_code}
use shclaw.Agent.History.{Message, add_user_text}
use shclaw.Agent.Session.State.{
  TriggerInfo, is_error, msg_text, msg_thinking, msg_tool_call, msg_tool_result, asked, replied,
  acted, added, chatted, TextBlock, Event, System, Agent, State, emit,
}
use shclaw.Agent.Session.Turn.{
  Flow, again, completed, relayed, stall_notice, stalled, builder_retry, builder_nudge, auto_fail,
  after_compile, plugin_input, auto_compile, builder_reply, hub_nudge, empty_nudge, plain_reply,
  after_text_reply, relay_blocks,
}

-- An event that is no call of the model
abbrev pub Plain : Event → Type 0
Plain (asked ms) = ⊥
Plain _ = Unit

-- A property that events and a user's text keep
pub record IsKeeping (P : List Event → List Bytes → List Message → Type 0) : Type 0 where
  pub say :
      (e : Event) (es : List Event) (ns : List Bytes) (ms : List Message)
      → Plain e
      → P es ns ms
      → P (e ∷ es) ns ms
  pub tell :
      (t : Bytes) (es : List Event) (ns : List Bytes) (ms : List Message)
      → P es ns ms
      → P es ns (add_user_text ms t)

-- The property of a state
abbrev pub Of : {W : Type 0} → (List Event → List Bytes → List Message → Type 0) → State W → Type 0
Of P s = P s.events s.sent_to s.messages

module _ {W : Type 0} {P : List Event → List Bytes → List Message → Type 0} (k : IsKeeping P) where
  pub emit-Of : (e : Event) (s : State W) → Plain e → Of P s → Of P (emit e s)
  emit-Of e s p h = k.say e s.events s.sent_to s.messages p h

  pub relayed-Of :
      (trig : TriggerInfo) (text : Bytes) (s : State W) → Of P s → Of P (relayed trig text s)
  relayed-Of trig text s h =
      if_rule (Of P) trig.relay (emit (replied text) s) s (emit-Of (replied text) s tt h) h

  builder_retry-Of :
      (trig : TriggerInfo) (nudge : Bytes) (s : State W)
      → Of P s
      → Of P (builder_retry trig nudge s).0
  unfolding builder_retry
  builder_retry-Of trig nudge s h =
      if_rule (λ (r : State W × Flow). Of P r.0) (not s.builder_retry_used)
        (record s { messages = add_user_text s.messages nudge; builder_retry_used = true }, again)
        (stalled trig s) (k.tell nudge s.events s.sent_to s.messages h)
        (relayed-Of trig stall_notice (record s { notice = stall_notice }) h)

  after_compile-Of :
      (trig : TriggerInfo) (result : Bytes) (s : State W)
      → Of P s
      → Of P (after_compile trig result s).0
  unfolding after_compile
  after_compile-Of trig result s h =
      if_rule (λ (r : State W × Flow). Of P r.0) (not (is_error result))
        (
          relayed trig result (record s { plugin_done = true; notice = snprintf 4096 result }),
          completed,
        )
        (builder_retry trig (auto_fail result) s)
        (relayed-Of trig result (record s { plugin_done = true; notice = snprintf 4096 result }) h)
        (builder_retry-Of trig (auto_fail result) s h)

  builder_reply-Of :
      (sys : System W) (from_agent : Bool) (trig : TriggerInfo) (o : Option (Bytes × Bytes))
      (s : State W)
      → Of P s
      → Of P (builder_reply sys from_agent trig o s).0
  unfolding builder_reply auto_compile
  builder_reply-Of sys from_agent trig (some (name, code)) s h =
      let action : Bytes =
        snprintf 160 (codes "auto-compiles '" ++ (name ++ codes "' from text")) in
      let r : W × Bytes =
        sys.execute_tool s.world (codes "create_plugin") (plugin_input name code) in
      let acting : State W = emit (acted action) s in
      let calling : State W = record (emit (added [] action msg_tool_call) acting) {
        world = r.0;
      } in
      after_compile-Of trig r.1 (emit (added [] r.1 msg_tool_result) calling) (
        emit-Of (added [] r.1 msg_tool_result) calling tt
          (emit-Of (added [] action msg_tool_call) acting tt (emit-Of (acted action) s tt h)))
  builder_reply-Of sys from_agent trig none s h =
      if_rule (λ (r : State W × Flow). Of P r.0) (not from_agent && not s.plugin_failed)
        (s, completed) (builder_retry trig builder_nudge s) h
        (builder_retry-Of trig builder_nudge s h)

  plain_reply-Of : (a : Agent) (text : Bytes) (s : State W) → Of P s → Of P (plain_reply a text s).0
  unfolding plain_reply
  plain_reply-Of a text s h =
      if_rule (λ (r : State W × Flow). Of P r.0)
        (a.is_hub && (s.listed_agents && (not s.sent_message && not s.hub_retry_used))) _ _
        (k.tell hub_nudge s.events s.sent_to s.messages h)
        (if_rule (λ (r : State W × Flow). Of P r.0) (length text == 0 && not s.empty_retry_used) _
          (s, completed) (k.tell empty_nudge s.events s.sent_to s.messages h) h)

  pub after_text_reply-Of :
      (sys : System W) (a : Agent) (from_agent : Bool) (trig : TriggerInfo) (text : Bytes)
      (s : State W)
      → Of P s
      → Of P (after_text_reply sys a from_agent trig text s).0
  unfolding after_text_reply
  after_text_reply-Of sys a from_agent trig text s h =
      if_rule (λ (r : State W × Flow). Of P r.0) (a.is_builder && not s.plugin_done)
        (builder_reply sys from_agent trig (builder_extract_code text 64 32768) s)
        (plain_reply a text s)
        (builder_reply-Of sys from_agent trig (builder_extract_code text 64 32768) s h)
        (plain_reply-Of a text s h)

  pub relay_blocks-Of :
      (a : Agent) (trig : TriggerInfo) (talk : Bool) (bs : List TextBlock) (s : State W)
      → Of P s
      → Of P (relay_blocks a trig talk bs s)
  unfolding relay_blocks
  relay_blocks-Of a trig talk [] s h = h
  relay_blocks-Of a trig talk (b ∷ bs) s h =
      let logged : State W =
        emit (added [] b.body (if b.thinking then msg_thinking else msg_text)) s in
      let shown : State W = emit (replied b.body) logged in
      let said : State W = if talk then emit (chatted a.name b.body) shown else shown in
      let l : Of P logged =
        emit-Of (added [] b.body (if b.thinking then msg_thinking else msg_text)) s tt h in
      let w : Of P shown = emit-Of (replied b.body) logged tt l in
      relay_blocks-Of a trig talk bs (if b.thinking || not trig.relay then logged else said) (
        if_rule (Of P) (b.thinking || not trig.relay) logged said l (
          if_rule (Of P) talk (emit (chatted a.name b.body) shown) shown
            (emit-Of (chatted a.name b.body) shown tt w) w))
