-- ===== src/Agent/Session/Calls.antt =====
-- What the tool calls of a turn do to a session of src/agent.c.
use mathlib.Core.Path.{subst}
use shclaw.Base.{
  ◌≡◌, refl, sym, ap, ◌∙◌, true, Option, none, some, inl, inr, List, [], ◌∷◌, ◌++◌, if_rule,
  Bool-cases, Option-cases, some_injective, Bytes, codes,
}
use shclaw.Json.{Members}
use shclaw.Json.Replaced.{true-false, none-some}
use shclaw.Tools.{check_params, param_texts, tool_check_args}
use shclaw.Tools.Table.{ToolDef, tool_find}
use shclaw.Agent.History.Paired.{ids}
use shclaw.Agent.Repeats.{repeated_call}
use shclaw.Agent.Session.State.{
  TriggerInfo, holds, is_error, acted, added, msg_tool_call, msg_tool_result, ToolCall, System,
  Agent, State, emit,
}
use shclaw.Agent.Session.Call.{
  note_sent, call_tool, recipient, run_built_in, run_plugin, run_found, run_object, run_tool,
  note_result, announced, run_call, run_calls, limit_of, offered,
}
use shclaw.Agent.Session.Quiet.{
  Quiet, Quiet-trans, emit-Quiet, same-Quiet, note_sent-Quiet, call_tool-Answered, call_tool-Quiet,
  recipient-Fits, error_text, IsShort,
}

check_error :
    {W : Type 0} (sys : System W) (t : ToolDef) (input : Members) (problem : Bytes)
    → (tool_check_args sys.same sys.strtol t input 32768).1 ≡ some problem
    → is_error problem ≡ true
unfolding tool_check_args
check_error sys t input problem e =
    elim (Option-cases (check_params sys.same sys.strtol t.params input).1) [
      | inl f ↦ absurd (none-some (rw (f, tool_check_args) at e))
      | inr (p, f) ↦
          subst (λ x. is_error x ≡ true) (some_injective (rw (f, tool_check_args) at e))
            (error_text (p ++ (codes ". Usage: " ++ (t.name ++ codes "(")))
              (param_texts true t.params))
    ]

run_built_in-Quiet :
    {W : Type 0} (sys : System W) (trig : TriggerInfo) (name : Bytes) (t : ToolDef)
    (input : Members) (s : State W)
    → IsShort sys
    → Quiet trig s (run_built_in sys trig name t input s).0
unfolding run_built_in
run_built_in-Quiet {W = W} sys trig name t input s i =
    elim (Option-cases (tool_check_args sys.same sys.strtol t input 32768).1) [
      | inl e ↦
          let to : Option Bytes = recipient sys name input in
          let checked = (tool_check_args sys.same sys.strtol t input 32768).0 in
          let r : State W × Bytes = call_tool sys trig name to checked s in
          rw (e, run_built_in)
            (Quiet-trans s r.0 (note_sent name to r).0 (call_tool-Quiet sys trig name to checked s)
              (note_sent-Quiet trig name to r.0 r.1 (λ h.
                call_tool-Answered sys trig name to checked s (recipient-Fits sys name input i))))
      | inr (problem, e) ↦
          rw (e, run_built_in)
            (note_sent-Quiet trig name (recipient sys name input) s problem
              (λ h. absurd (true-false (sym (check_error sys t input problem e) ∙ h))))
    ]

run_plugin-Quiet :
    {W : Type 0} (sys : System W) (trig : TriggerInfo) (call : ToolCall) (s : State W)
    → Quiet trig s (run_plugin sys call s).0
unfolding run_plugin
run_plugin-Quiet sys trig call s = same-Quiet s _ refl refl refl

run_found-Quiet :
    {W : Type 0} (sys : System W) (trig : TriggerInfo) (call : ToolCall) (input : Members)
    (t : Option ToolDef) (s : State W)
    → IsShort sys
    → Quiet trig s (run_found sys trig call input t s).0
unfolding run_found
run_found-Quiet sys trig call input none s i = run_plugin-Quiet sys trig call s
run_found-Quiet sys trig call input (some t) s i = run_built_in-Quiet sys trig call.name t input s i

run_object-Quiet :
    {W : Type 0} (sys : System W) (a : Agent) (trig : TriggerInfo) (call : ToolCall)
    (input : Members) (s : State W)
    → IsShort sys
    → Quiet trig s (run_object sys a trig call input s).0
unfolding run_object
run_object-Quiet {W = W} sys a trig call input s i =
    let r = repeated_call (limit_of a call.name) call.name (sys.print call.input_json) s.counters in
    if_rule (λ x. Quiet {W = W} trig s x.0) r.1 _
      (run_found sys trig call input (tool_find call.name) (record s { counters = r.0 }))
      (same-Quiet s _ refl refl refl)
      (Quiet-trans s (record s { counters = r.0 }) _ (same-Quiet s _ refl refl refl)
        (run_found-Quiet sys trig call input (tool_find call.name) (record s { counters = r.0 }) i))

run_tool-Quiet :
    {W : Type 0} (sys : System W) (a : Agent) (trig : TriggerInfo) (call : ToolCall) (s : State W)
    → IsShort sys
    → Quiet trig s (run_tool sys a trig call s).0
unfolding run_tool
run_tool-Quiet {W = W} sys a trig call s i = elim (Bool-cases (holds call.name (offered sys a))) [
  | inl e ↦ elim (Option-cases (sys.parse call.input_json)) [
    | inl f ↦ rw (e, f, run_tool) (same-Quiet s s refl refl refl)
    | inr (input, f) ↦ rw (e, f, run_tool) (run_object-Quiet sys a trig call input s i)
  ]
  | inr e ↦ rw (e, run_tool) (same-Quiet s s refl refl refl)
]

run_call-Quiet :
    {W : Type 0} (sys : System W) (a : Agent) (trig : TriggerInfo) (call : ToolCall) (s : State W)
    → IsShort sys
    → Quiet trig s (run_call sys a trig call s).0
unfolding run_call note_result
run_call-Quiet {W = W} sys a trig call s i =
    let before : State W = announced sys call s in
    let r : State W × Bytes = run_tool sys a trig call before in
    Quiet-trans s before _
      (Quiet-trans s (emit (acted _) s) before (emit-Quiet (acted _) s tt)
        (emit-Quiet (added [] _ msg_tool_call) (emit (acted _) s) tt))
      (Quiet-trans before r.0 _ (run_tool-Quiet sys a trig call before i) (
        Quiet-trans r.0 (emit (added [] r.1 msg_tool_result) r.0) _
          (emit-Quiet (added [] r.1 msg_tool_result) r.0 tt) (same-Quiet _ _ refl refl refl)))

-- The ids of the calls, for a result each
unfoldable pub asked_ids : List ToolCall → List Bytes
asked_ids [] = []
asked_ids (c ∷ cs) = c.id ∷ asked_ids cs

pub run_calls-Quiet :
    {W : Type 0} (sys : System W) (a : Agent) (trig : TriggerInfo) (calls : List ToolCall)
    (s : State W)
    → IsShort sys
    → Quiet trig s (run_calls sys a trig calls s).0
unfolding run_calls
run_calls-Quiet sys a trig [] s i = same-Quiet s s refl refl refl
run_calls-Quiet sys a trig (c ∷ cs) s i =
    let r = run_call sys a trig c s in
    Quiet-trans s r.0 _ (run_call-Quiet sys a trig c s i) (run_calls-Quiet sys a trig cs r.0 i)

pub ids-run_calls :
    {W : Type 0} (sys : System W) (a : Agent) (trig : TriggerInfo) (calls : List ToolCall)
    (s : State W)
    → ids (run_calls sys a trig calls s).1 ≡ asked_ids calls
unfolding run_calls ids asked_ids run_call
ids-run_calls sys a trig [] s = refl
ids-run_calls sys a trig (c ∷ cs) s =
    ap (λ l. c.id ∷ l) (ids-run_calls sys a trig cs (run_call sys a trig c s).0)
