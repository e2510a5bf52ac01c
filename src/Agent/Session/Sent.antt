-- ===== src/Agent/Session/Sent.antt =====
-- The agents written to, through the turns of a session of src/agent.c.
use shclaw.Base.{
  ℕ, zero, suc, ◌≡◌, refl, Bool, true, false, ◌||◌, some, inl, inr, List, [], ◌∷◌, ◌++◌, leb, ◌==◌,
  if◌then◌else◌, if_rule, List-cases, Bytes, codes, strcmp_eq, snprintf, length,
}
use shclaw.Agent.History.{Message, Result}
use shclaw.Agent.Session.State.{
  TriggerInfo, holds, asked, replied, Event, Response, Reply, llm_error, response, System, Agent,
  State, emit,
}
use shclaw.Agent.Session.Call.{run_calls}
use shclaw.Agent.Session.Turn.{
  Flow, again, completed, failed, relayed, refused_notice, stuck_notice, after_text_reply,
  relay_blocks, joined_text, replay, after_calls, act, answered_turn, turn_of, turn,
}
use shclaw.Agent.Session.Run.{turns, max_turns_notice, after_turns}
use shclaw.Agent.Session.Quiet.{answers, was_answered, SentOk, IsShort}
use shclaw.Agent.Session.Calls.{run_calls-Quiet}
use shclaw.Agent.Session.Replies.{
  IsKeeping, relayed-Of, emit-Of, after_text_reply-Of, relay_blocks-Of,
}

-- `SentOk`, of what it depends on
abbrev pub Sent : TriggerInfo → List Event → List Bytes → List Message → Type 0
Sent trig es ns ms =
    (r : Bytes) → holds r ns ≡ true → holds r trig.requesters ≡ true → was_answered r es ≡ true

pub was_answered-cons :
    (r : Bytes) (e : Event) (es : List Event)
    → was_answered r es ≡ true
    → was_answered r (e ∷ es) ≡ true
unfolding was_answered
was_answered-cons r e es h = or_right (answers r e) (was_answered r es) h
  where
    or_right : (a b : Bool) → b ≡ true → (a || b) ≡ true
    or_right true b h = refl
    or_right false b h = h

pub Sent-IsKeeping : (trig : TriggerInfo) → IsKeeping (Sent trig)
Sent-IsKeeping trig = record {
  say = λ e es ns ms p h r f g. was_answered-cons r e es (h r f g);
  tell = λ t es ns ms h. h;
}

module _ {W : Type 0} (sys : System W) (a : Agent) (trig : TriggerInfo) (short : IsShort sys) where
  act-Sent :
      (from_agent : Bool) (r : Response) (text : Bytes) (s : State W)
      → SentOk trig s
      → SentOk trig (act sys a from_agent trig r text s).0
  unfolding act after_calls
  act-Sent from_agent r text s h = elim (List-cases r.tool_calls) [
    | inl e ↦
        simp (e, act)
          (if_rule (λ (x : State W × Flow). SentOk trig x.0)
            (strcmp_eq r.stop_reason (codes "refusal"))
            (record (relayed trig refused_notice s) { notice = refused_notice }, completed)
            (after_text_reply sys a from_agent trig text s)
            (relayed-Of (Sent-IsKeeping trig) trig refused_notice s h)
            (after_text_reply-Of (Sent-IsKeeping trig) sys a from_agent trig text s h))
    | inr (c, cs, e) ↦
        let ran : State W × List Result = run_calls sys a trig (c ∷ cs) s in
        let k : SentOk trig ran.0 = (run_calls-Quiet sys a trig (c ∷ cs) s short).sent h in
        simp (e, act)
          (if_rule (λ (x : State W × Flow). SentOk trig x.0) (leb 3 ran.0.blocked_repeats) _ _
            (emit-Of (Sent-IsKeeping trig) (replied stuck_notice) ran.0 tt k) k)
  ]

  turn_of-Sent :
      (from_agent talk : Bool) (reply : Reply) (s : State W)
      → SentOk trig s
      → SentOk trig (turn_of sys a from_agent trig talk reply s).0
  unfolding turn_of answered_turn
  turn_of-Sent from_agent talk (llm_error error) s h =
      emit-Of (Sent-IsKeeping trig)
        (replied (snprintf 4096 (codes "(LLM error: " ++ (error ++ codes ")")))) s tt h
  turn_of-Sent from_agent talk (response r) s h =
      let told : State W = relay_blocks a trig talk r.text_blocks s in
      let body : Bytes = joined_text [] r.text_blocks in
      act-Sent from_agent r body
        (record told {
          answer = if length body == 0 then told.answer else some body;
          messages = told.messages ++ replay r.content;
        })
        (relay_blocks-Of (Sent-IsKeeping trig) a trig talk r.text_blocks s h)

  turn-Sent :
      (from_agent talk : Bool) (s : State W)
      → SentOk trig s
      → SentOk trig (turn sys a from_agent trig talk s).0
  unfolding turn
  turn-Sent from_agent talk s h =
      let r : W × Reply = sys.llm_call s.world s.messages in
      turn_of-Sent from_agent talk r.1 (record (emit (asked s.messages) s) { world = r.0 })
        (λ n f g. was_answered-cons n (asked s.messages) s.events (h n f g))

  pub turns-Sent :
      (from_agent talk : Bool) (left : ℕ) (s : State W)
      → SentOk trig s
      → SentOk trig (turns sys a from_agent trig talk left s).0
  unfolding turns
  turns-Sent from_agent talk zero s h = h
  turns-Sent from_agent talk (suc left) s h =
      let r : State W × Flow = turn sys a from_agent trig talk s in
      let k : SentOk trig r.0 = turn-Sent from_agent talk s h in
      follow (λ t g. turns-Sent from_agent talk left t g) r.0 r.1 k
    where
      followed : State W → Flow → State W × Flow
      followed t again = turns sys a from_agent trig talk left t
      followed t completed = (t, completed)
      followed t failed = (t, failed)

      follow :
          ((t : State W) → SentOk trig t → SentOk trig (turns sys a from_agent trig talk left t).0)
          → (t : State W) (flow : Flow) → SentOk trig t
          → SentOk trig (followed t flow).0
      follow next t again k = next t k
      follow next t completed k = k
      follow next t failed k = k

  pub after_turns-Sent :
      (x : State W × Flow) → SentOk trig x.0 → SentOk trig (after_turns sys a x).0
  unfolding after_turns max_turns_notice
  after_turns-Sent (s, again) h = emit-Of (Sent-IsKeeping trig) (replied _) s tt h
  after_turns-Sent (s, completed) h = h
  after_turns-Sent (s, failed) h = h
