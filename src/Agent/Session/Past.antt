-- ===== src/Agent/Session/Past.antt =====
-- The histories that the model is called with, through the turns of a session of src/agent.c.
use mathlib.Core.Path.{subst}
use shclaw.Base.{
  ℕ, zero, suc, ◌≤◌, ◌≡◌, refl, sym, ap, ◌∙◌, Bool, some, inl, inr, List, [], ◌∷◌, ◌++◌,
  append_assoc, leb, ◌==◌, if◌then◌else◌, if_rule, List-cases, Bytes, codes, strcmp_eq, snprintf,
  length, All, arith,
}
use shclaw.Base.Int.{ℤ, pos, negsuc}
use shclaw.Daemon.Start.{Trigger, irc, schedule, agent_msg}
use shclaw.Agent.History.{Message, Result, tool_results}
use shclaw.Agent.Session.State.{
  acted, TriggerInfo, holds, asked, replied, added, chatted, answered, Event, ToolCall, Response,
  Reply, llm_error, response, System, Agent, State, emit,
}
use shclaw.Agent.Session.Call.{run_calls}
use shclaw.Agent.Session.Turn.{
  Flow, again, completed, failed, relayed, refused_notice, trimmed_history, after_text_reply,
  relay_blocks, joined_text, replay, after_calls, act, answered_turn, turn_of, turn,
}
use shclaw.Agent.Session.Run.{
  turns, deliver_to, deliver_all, max_turns_notice, owner_to, heard, after_turns,
}
use shclaw.Agent.Session.Quiet.{Quiet, IsShort}
use shclaw.Agent.Session.Calls.{run_calls-Quiet}
use shclaw.Agent.Session.Replies.{
  Plain, IsKeeping, Of, relayed-Of, emit-Of, after_text_reply-Of, relay_blocks-Of,
}
use shclaw.Agent.History.Paired.{ids, call_ids, IsPaired, Pairs-append}
use shclaw.Agent.History.Trimmed.{trim_history-IsPaired}
use shclaw.Agent.History.{add_user_text, Block, user_text, trim_history}
use shclaw.Agent.Session.Quiet.{Fine}
use shclaw.Agent.Session.Calls.{asked_ids, ids-run_calls}

-- What the provider promises: the calls that it lists are those of the turn that is replayed.
pub record IsMatched {W : Type 0} (sys : System W) : Type 0 where
  pub matched :
      (w : W) (ms : List Message) (r : Response)
      → (sys.llm_call w ms).1 ≡ response r
      → call_ids r.content ≡ asked_ids r.tool_calls

-- The history is paired, and so was each one that the model was called with.
abbrev pub Past : List Event → List Bytes → List Message → Type 0
Past es ns ms = IsPaired ms × All Fine es

Plain-Fine : (e : Event) → Plain e → Fine e
Plain-Fine (asked ms) p = absurd p
Plain-Fine (replied t) p = tt
Plain-Fine (acted t) p = tt
Plain-Fine (added n t k) p = tt
Plain-Fine (chatted n t) p = tt
Plain-Fine (answered n t) p = tt

Past-IsKeeping : IsKeeping Past
unfolding add_user_text
Past-IsKeeping = record {
  say = λ e es ns ms p h. (h.0, (Plain-Fine e p, h.1));
  tell = λ t es ns ms h. (Pairs-append [] ms (user_text t ∷ []) h.0 (refl, refl), h.1);
}

replay-Pairs :
    (bs : List Block) (calls : List Bytes) (rs : List Result)
    → call_ids bs ≡ calls
    → ids rs ≡ calls
    → 1 ≤ length rs
    → IsPaired (replay bs ++ tool_results rs ∷ [])
unfolding ids call_ids
replay-Pairs [] calls [] e f l = absurd (omega arith)
replay-Pairs [] calls (r ∷ rs) e f l = absurd (cons-nil (f ∙ sym e))
  where
    cons-nil : {x : Bytes} {xs : List Bytes} → x ∷ xs ≡ [] → ⊥
    cons-nil e = cc
replay-Pairs (b ∷ bs) calls rs e f l = (refl, (f ∙ sym e, refl))

replay-IsPaired : (bs : List Block) → call_ids bs ≡ [] → IsPaired (replay bs)
replay-IsPaired [] e = refl
replay-IsPaired (b ∷ bs) e = (refl, e)

trimmed_history-IsPaired :
    {W : Type 0} (sys : System W) (a : Agent) (n : ℤ) (ms : List Message)
    → IsPaired ms
    → IsPaired (trimmed_history sys a n ms)
unfolding trimmed_history
trimmed_history-IsPaired sys a (pos zero) ms p = p
trimmed_history-IsPaired sys a (negsuc n) ms p = p
trimmed_history-IsPaired sys a (pos (suc n)) ms p =
    if_rule IsPaired (strcmp_eq a.provider_type (codes "anthropic")) ms
      (trim_history sys.decimal ms (suc n)) p (trim_history-IsPaired sys.decimal ms (suc n) p)

module _ {W : Type 0} (sys : System W) (a : Agent) (trig : TriggerInfo) (short : IsShort sys) where
  act-Past :
      (from_agent : Bool) (r : Response) (text : Bytes) (s : State W) (before : List Message)
      → call_ids r.content ≡ asked_ids r.tool_calls
      → s.messages ≡ before ++ replay r.content
      → IsPaired before
      → All Fine s.events
      → Of Past (act sys a from_agent trig r text s).0
  unfolding act after_calls asked_ids ids
  act-Past from_agent r text s before m e p h = elim (List-cases r.tool_calls) [
    | inl f ↦
        let q : IsPaired s.messages = subst IsPaired (sym e) (
          Pairs-append [] before (replay r.content) p
            (replay-IsPaired r.content (m ∙ ap asked_ids f))) in
        simp (f, act)
          (if_rule (λ (x : State W × Flow). Of Past x.0) (strcmp_eq r.stop_reason (codes "refusal"))
            (record (relayed trig refused_notice s) { notice = refused_notice }, completed)
            (after_text_reply sys a from_agent trig text s)
            (relayed-Of Past-IsKeeping trig refused_notice s (q, h))
            (after_text_reply-Of Past-IsKeeping sys a from_agent trig text s (q, h)))
    | inr (c, cs, f) ↦
        let ran : State W × List Result = run_calls sys a trig (c ∷ cs) s in
        let quiet : Quiet trig s ran.0 = run_calls-Quiet sys a trig (c ∷ cs) s short in
        let same : ids ran.1 ≡ asked_ids (c ∷ cs) = ids-run_calls sys a trig (c ∷ cs) s in
        let whole : IsPaired (ran.0.messages ++ tool_results ran.1 ∷ []) =
          subst (λ l. IsPaired (l ++ tool_results ran.1 ∷ [])) (sym (quiet.messages ∙ e))
            (subst IsPaired (sym (append_assoc before (replay r.content) (tool_results ran.1 ∷ [])))
              (Pairs-append [] before (replay r.content ++ tool_results ran.1 ∷ []) p (
                replay-Pairs r.content (asked_ids (c ∷ cs)) ran.1 (m ∙ ap asked_ids f) same
                  (some_result c cs ran.1 same)))) in
        let told : IsPaired
            (trimmed_history sys a a.history_budget (ran.0.messages ++ tool_results ran.1 ∷ [])) =
          trimmed_history-IsPaired sys a a.history_budget
            (ran.0.messages ++ tool_results ran.1 ∷ []) whole in
        simp (f, act)
          (if_rule (λ (x : State W × Flow). Of Past x.0) (leb 3 ran.0.blocked_repeats) _ _
            (told, (tt, quiet.asked h)) (told, quiet.asked h))
  ]
    where
      some_result :
          (c : ToolCall) (cs : List ToolCall) (rs : List Result)
          → ids rs ≡ asked_ids (c ∷ cs)
          → 1 ≤ length rs
      some_result c cs [] e = absurd (nil-cons e)
        where
          nil-cons : {x : Bytes} {xs : List Bytes} → [] ≡ x ∷ xs → ⊥
          nil-cons e = cc
      some_result c cs (r ∷ rs) e = omega arith

  turn_of-Past :
      (from_agent talk : Bool) (reply : Reply) (s : State W)
      → ((r : Response) → reply ≡ response r → call_ids r.content ≡ asked_ids r.tool_calls)
      → Of Past s
      → Of Past (turn_of sys a from_agent trig talk reply s).0
  unfolding turn_of answered_turn
  turn_of-Past from_agent talk (llm_error error) s m h =
      emit-Of Past-IsKeeping
        (replied (snprintf 4096 (codes "(LLM error: " ++ (error ++ codes ")")))) s tt h
  turn_of-Past from_agent talk (response r) s m h =
      let told : State W = relay_blocks a trig talk r.text_blocks s in
      let body : Bytes = joined_text [] r.text_blocks in
      let k : Of Past told = relay_blocks-Of Past-IsKeeping a trig talk r.text_blocks s h in
      act-Past from_agent r body
        (record told {
          answer = if length body == 0 then told.answer else some body;
          messages = told.messages ++ replay r.content;
        })
        told.messages (m r refl) refl k.0 k.1

  turn-Past :
      (from_agent talk : Bool) (s : State W)
      → IsMatched sys
      → Of Past s
      → Of Past (turn sys a from_agent trig talk s).0
  unfolding turn
  turn-Past from_agent talk s m h =
      let r : W × Reply = sys.llm_call s.world s.messages in
      turn_of-Past from_agent talk r.1 (record (emit (asked s.messages) s) { world = r.0 })
        (m.matched s.world s.messages) (h.0, (h.0, h.1))

  pub turns-Past :
      (from_agent talk : Bool) (left : ℕ) (s : State W)
      → IsMatched sys
      → Of Past s
      → Of Past (turns sys a from_agent trig talk left s).0
  unfolding turns
  turns-Past from_agent talk zero s m h = h
  turns-Past from_agent talk (suc left) s m h =
      let r : State W × Flow = turn sys a from_agent trig talk s in
      let k : Of Past r.0 = turn-Past from_agent talk s m h in
      follow (λ t g. turns-Past from_agent talk left t m g) r.0 r.1 k
    where
      followed : State W → Flow → State W × Flow
      followed t again = turns sys a from_agent trig talk left t
      followed t completed = (t, completed)
      followed t failed = (t, failed)

      follow :
          ((t : State W) → Of Past t → Of Past (turns sys a from_agent trig talk left t).0)
          → (t : State W) (flow : Flow) → Of Past t
          → Of Past (followed t flow).0
      follow next t again k = next t k
      follow next t completed k = k
      follow next t failed k = k

  pub after_turns-Past : (x : State W × Flow) → Of Past x.0 → Of Past (after_turns sys a x).0
  unfolding after_turns max_turns_notice
  after_turns-Past (s, again) h = (h.0, (tt, h.1))
  after_turns-Past (s, completed) h = h
  after_turns-Past (s, failed) h = h

  pub heard-Past :
      (talk : Bool) (trigger : Trigger) (s : State W) → Of Past s → Of Past (heard a talk trigger s)
  heard-Past talk (irc msg) s h =
      if_rule (Of Past) talk (emit (chatted (owner_to a.name) msg) s) s
        (emit-Of Past-IsKeeping (chatted (owner_to a.name) msg) s tt h) h
  heard-Past talk (schedule ts) s h = h
  heard-Past talk (agent_msg ms) s h = h

  pub deliver_all-Past :
      (msg : Bytes) (names : List Bytes) (s : State W)
      → Of Past s
      → Of Past (deliver_all sys msg names s)
  unfolding deliver_all
  deliver_all-Past msg [] s h = h
  deliver_all-Past msg (n ∷ ns) s h =
      deliver_all-Past msg ns (if holds n s.sent_to then s else deliver_to sys msg n s)
        (if_rule (Of Past) (holds n s.sent_to) s (deliver_to sys msg n s) h (h.0, (tt, (tt, h.1))))
