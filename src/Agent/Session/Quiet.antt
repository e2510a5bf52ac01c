-- ===== src/Agent/Session/Quiet.antt =====
-- What a tool call of src/agent.c may do to a session, as a relation between the states before it
-- and after it.
use mathlib.Core.Path.{subst}
use shclaw.Base.{
  ◌⊎◌, ◌<◌, ◌≡◌, refl, sym, ◌∙◌, Bool, true, false, not, ◌&&◌, ◌||◌, Option, none, some, inl, inr,
  List, [], ◌∷◌, ◌++◌, if_rule, ltb, Bool-cases, Bytes, codes, strcmp_eq, strcmp_eq_iff, snprintf,
  length, take-of-length-le, All, arith,
}
use shclaw.Util.Buf.{append_all, append_all-eq-take, concat}
use shclaw.Memory.Search.{starts_with}
use shclaw.Json.{Members, j_str}
use shclaw.Json.Replaced.{true-false}
use shclaw.Agent.History.Paired.{IsPaired}
use shclaw.Agent.Session.State.{
  TriggerInfo, holds, is_requester, is_error, asked, answered, Event, System, State, emit,
}
use shclaw.Agent.Session.Call.{note_sent, with_sent, answer_to, execute, call_tool, recipient}

-- An answer to this agent
abbrev pub answers : Bytes → Event → Bool
answers r (answered to content) = strcmp_eq to r
answers r _ = false

unfoldable pub was_answered : Bytes → List Event → Bool
unfolding strcmp_eq
was_answered r [] = false
was_answered r (e ∷ es) = answers r e || was_answered r es

-- The model is asked with histories only in which tool calls are answered.
abbrev pub Fine : Event → Type 0
Fine (asked ms) = IsPaired ms
Fine _ = Unit

-- A requester who counts as written to was answered.
abbrev pub SentOk : {W : Type 0} → TriggerInfo → State W → Type 0
SentOk trig s =
    (r : Bytes)
    → holds r s.sent_to ≡ true
    → holds r trig.requesters ≡ true
    → was_answered r s.events ≡ true

-- What tool calls do to a session
pub record Quiet {W : Type 0} (trig : TriggerInfo) (s t : State W) : Type 0 where
  pub messages : t.messages ≡ s.messages
  pub asked : All Fine s.events → All Fine t.events
  pub sent : SentOk trig s → SentOk trig t

pub Quiet-trans :
    {W : Type 0} {trig : TriggerInfo} (s t u : State W)
    → Quiet trig s t
    → Quiet trig t u
    → Quiet trig s u
Quiet-trans s t u p q = record {
  messages = q.messages ∙ p.messages;
  asked = λ a. q.asked (p.asked a);
  sent = λ a. q.sent (p.sent a);
}

or_right : (a b : Bool) → b ≡ true → (a || b) ≡ true
or_right true b h = refl
or_right false b h = h

pub emit-Quiet :
    {W : Type 0} {trig : TriggerInfo} (e : Event) (s : State W) → Fine e → Quiet trig s (emit e s)
unfolding was_answered
emit-Quiet e s f = record {
  messages = refl;
  asked = λ a. (f, a);
  sent = λ a r h k. or_right (answers r e) (was_answered r s.events) (a r h k);
}

-- A state that differs in nothing that counts here
pub same-Quiet :
    {W : Type 0} {trig : TriggerInfo} (s t : State W)
    → t.messages ≡ s.messages
    → t.events ≡ s.events
    → t.sent_to ≡ s.sent_to
    → Quiet trig s t
same-Quiet s t m e n = record {
  messages = m;
  asked = λ a. subst (All Fine) (sym e) a;
  sent = λ a r h k.
      subst (λ es. was_answered r es ≡ true) (sym e) (a r (subst (λ ns. holds r ns ≡ true) n h) k);
}

left_of : (a : Bool) → (a || false) ≡ true → a ≡ true
left_of true h = refl
left_of false h = h

holds-append :
    (r n : Bytes) (ns : List Bytes) → holds r (ns ++ n ∷ []) ≡ true → (holds r ns ≡ true) ⊎ (n ≡ r)
unfolding holds
holds-append r n [] h = inr ((strcmp_eq_iff n r).0 (left_of (strcmp_eq n r) h))
holds-append r n (m ∷ ns) h = elim (Bool-cases (strcmp_eq m r)) [
  | inl e ↦ inl (rw e refl)
  | inr e ↦ elim (holds-append r n ns (rw (e, holds) at h)) [ inl f ↦ inl (rw e f) | inr f ↦ inr f ]
]

-- What the system promises: a name that it resolves to fits the field of a name.
pub record IsShort {W : Type 0} (sys : System W) : Type 0 where
  pub short : (to : Option Bytes) (n : Bytes) → sys.resolve to ≡ some n → length n < 32

-- A requester who is written to was answered.
abbrev pub Answered : {W : Type 0} → TriggerInfo → Option Bytes → State W → Type 0
Answered trig none s = Unit
Answered trig (some n) s =
    (length n < 32) × ((holds n trig.requesters ≡ true) → was_answered n s.events ≡ true)

with_sent-SentOk :
    {W : Type 0} (trig : TriggerInfo) (to : Option Bytes) (s : State W)
    → Answered trig to s
    → SentOk trig s
    → SentOk trig (record s { sent_to = with_sent to s.sent_to })
with_sent-SentOk trig none s h k = k
with_sent-SentOk trig (some n) s h k =
    if_rule (λ names. SentOk trig (record s { sent_to = names })) (ltb (length s.sent_to) 8)
      (s.sent_to ++ snprintf 32 n ∷ []) s.sent_to
      (λ r g q. elim (holds-append r (snprintf 32 n) s.sent_to g) [
        | inl f ↦ k r f q
        | inr f ↦
            let e : n ≡ r = sym (take-of-length-le 31 n (omega (arith, h.0))) ∙ f in
            subst (λ x. was_answered x s.events ≡ true) e
              (h.1 (subst (λ x. holds x trig.requesters ≡ true) (sym e) q))
      ])
      k

pub note_sent-Quiet :
    {W : Type 0} (trig : TriggerInfo) (name : Bytes) (to : Option Bytes) (s : State W)
    (result : Bytes)
    → ((is_error result ≡ false) → Answered trig to s)
    → Quiet trig s (note_sent name to (s, result)).0
unfolding note_sent
note_sent-Quiet {W = W} trig name to s result h =
    elim (Bool-cases (strcmp_eq name (codes "send_message") && not (is_error result))) [
      | inl e ↦
          rw (e, note_sent)
            (record {
              messages = refl;
              asked = λ a. a;
              sent =
                  with_sent-SentOk trig to s
                    (h (no_error (strcmp_eq name (codes "send_message")) (is_error result) e));
            })
      | inr e ↦ rw (e, note_sent) (same-Quiet s s refl refl refl)
    ]
  where
    no_error : (a b : Bool) → (a && not b) ≡ true → b ≡ false
    no_error a b e = ground arith

abbrev pub Fits : Option Bytes → Type 0
Fits none = Unit
Fits (some n) = length n < 32

pub call_tool-Answered :
    {W : Type 0} (sys : System W) (trig : TriggerInfo) (name : Bytes) (to : Option Bytes)
    (input : Members) (s : State W)
    → Fits to
    → Answered trig to (call_tool sys trig name to input s).0
unfolding call_tool is_requester was_answered
call_tool-Answered sys trig name none input s f = tt
call_tool-Answered sys trig name (some n) input s f = elim (Bool-cases (holds n trig.requesters)) [
  | inl e ↦ rw (e, call_tool, is_requester) (f, λ h. rw ((strcmp_eq_iff n n).1 refl) refl)
  | inr e ↦ (f, λ h. absurd (true-false (sym h ∙ e)))
]

pub call_tool-Quiet :
    {W : Type 0} (sys : System W) (trig : TriggerInfo) (name : Bytes) (to : Option Bytes)
    (input : Members) (s : State W)
    → Quiet trig s (call_tool sys trig name to input s).0
unfolding call_tool
call_tool-Quiet sys trig name none input s = same-Quiet s _ refl refl refl
call_tool-Quiet {W = W} sys trig name (some n) input s =
    if_rule (λ r. Quiet {W = W} trig s r.0) (is_requester trig (some n))
      (answer_to sys n (j_str sys.same input (codes "content")) s) (execute sys name input s)
      (Quiet-trans s (emit (answered n (j_str sys.same input (codes "content"))) s)
        (answer_to sys n (j_str sys.same input (codes "content")) s).0
        (emit-Quiet (answered n (j_str sys.same input (codes "content"))) s tt)
        (same-Quiet _ _ refl refl refl))
      (same-Quiet s _ refl refl refl)

pub recipient-Fits :
    {W : Type 0} (sys : System W) (name : Bytes) (input : Members)
    → IsShort sys
    → Fits (recipient sys name input)
recipient-Fits sys name input i =
    if_rule Fits (strcmp_eq name (codes "send_message"))
      (sys.resolve (j_str sys.same input (codes "to"))) none
      (fits (sys.resolve (j_str sys.same input (codes "to")))
        (i.short (j_str sys.same input (codes "to"))))
      tt
  where
    fits : (o : Option Bytes) → ((n : Bytes) → o ≡ some n → length n < 32) → Fits o
    fits none h = tt
    fits (some n) h = h n refl

-- A refusal of arguments is an error.
pub error_text :
    (x : Bytes) (ts : List Bytes)
    → is_error (append_all 32768 [] ((codes "Error: " ++ x) ∷ ts)) ≡ true
unfolding is_error starts_with concat
error_text x ts = rw (append_all-eq-take 32768 [] ((codes "Error: " ++ x) ∷ ts) (omega arith)) refl
