-- ===== src/Agent/History/Rounds.antt =====
-- The rounds of `conv_fit` in src/agent.c: which exchanges they take out.
use mathlib.Core.List.{append_cancel_left}
use mathlib.Core.Path.{subst}
use shclaw.Base.{
  ◌⊎◌, ◌+◌, ◌≤◌, ◌<◌, ◌≡◌, refl, sym, ap, ◌∙◌, Option, none, some, inl, inr, List, [], ◌∷◌, ◌++◌,
  append_assoc, List-cases, some_injective, length, length-append, arith,
}
use shclaw.Agent.History.{
  Message, user_text, tool_results, assistant, next_turn, drop_from, drop_exchange,
}
use shclaw.Agent.History.Paired.{IsPaired, Pairs-append, IsTurn, IsTurn-append, Pairs-turn}

pub next_turn-append : (ms : List Message) → (next_turn ms).0 ++ (next_turn ms).1 ≡ ms
unfolding next_turn
next_turn-append [] = refl
next_turn-append (user_text t ∷ ms) = refl
next_turn-append (tool_results rs ∷ ms) = ap (λ l. tool_results rs ∷ l) (next_turn-append ms)
next_turn-append (assistant bs ∷ ms) = ap (λ l. assistant bs ∷ l) (next_turn-append ms)

pub next_turn-IsTurn : (ms : List Message) → IsTurn (next_turn ms).1
unfolding next_turn
next_turn-IsTurn [] = tt
next_turn-IsTurn (user_text t ∷ ms) = tt
next_turn-IsTurn (tool_results rs ∷ ms) = next_turn-IsTurn ms
next_turn-IsTurn (assistant bs ∷ ms) = next_turn-IsTurn ms

-- The messages in front of the first turn are those of a list that goes on with any turn.
next_turn-next_turn :
    (ms after : List Message)
    → IsTurn after
    → next_turn ((next_turn ms).0 ++ after) ≡ ((next_turn ms).0, after)
unfolding next_turn
next_turn-next_turn [] [] h = refl
next_turn-next_turn [] (user_text t ∷ after) h = refl
next_turn-next_turn [] (tool_results rs ∷ after) h = absurd h
next_turn-next_turn [] (assistant bs ∷ after) h = absurd h
next_turn-next_turn (user_text t ∷ ms) [] h = refl
next_turn-next_turn (user_text t ∷ ms) (user_text s ∷ after) h = refl
next_turn-next_turn (user_text t ∷ ms) (tool_results rs ∷ after) h = absurd h
next_turn-next_turn (user_text t ∷ ms) (assistant bs ∷ after) h = absurd h
next_turn-next_turn (tool_results rs ∷ ms) after h =
    ap (λ p. (tool_results rs ∷ p.0, p.1)) (next_turn-next_turn ms after h)
next_turn-next_turn (assistant bs ∷ ms) after h =
    ap (λ p. (assistant bs ∷ p.0, p.1)) (next_turn-next_turn ms after h)

-- The first message, and what belongs to its exchange
unfoldable pub first_exchange : List Message → List Message
first_exchange [] = []
first_exchange (m ∷ ms) = m ∷ (next_turn ms).0

-- Whole exchanges are taken out behind the first one, and never the last one.
pub record IsShortened (before after : List Message) : Type 0 where
  pub dropped : List Message
  pub left : List Message
  pub was : before ≡ first_exchange before ++ (dropped ++ left)
  pub is : after ≡ first_exchange before ++ left
  pub dropped_turn : IsTurn dropped
  pub left_turn : IsTurn left
  pub kept_last : (dropped ≡ []) ⊎ (1 ≤ length left)

none-some : {a : List Message} → none ≡ some a → ⊥
none-some e = cc

-- One round: the exchange that it takes out, and what is left behind that
record Cut (kept rest dropped left : List Message) (result : Option (List Message)) : Type 0 where
  was : rest ≡ dropped ++ left
  is : result ≡ some (kept ++ left)
  dropped_turn : IsTurn dropped
  left_turn : IsTurn left
  some_left : 1 ≤ length left
  some_dropped : 1 ≤ length dropped

drop_from-cases :
    (kept rest : List Message)
    → IsTurn rest
    → (drop_from kept rest ≡ none)
      ⊎ ((dropped : List Message) × (left : List Message) × Cut kept rest dropped left
            (drop_from kept rest))
unfolding drop_from
drop_from-cases kept [] h = inl refl
drop_from-cases kept (tool_results rs ∷ r) h = absurd h
drop_from-cases kept (assistant bs ∷ r) h = absurd h
drop_from-cases kept (user_text t ∷ r) h = elim (List-cases (next_turn r).1) [
  | inl e ↦ inl (rw e refl)
  | inr (v, s, e) ↦ inr (
    user_text t ∷ (next_turn r).0,
    (next_turn r).1,
    record {
      was = ap (λ l. user_text t ∷ l) (sym (next_turn-append r));
      is = rw e refl;
      dropped_turn = tt;
      left_turn = next_turn-IsTurn r;
      some_left = rw e (omega arith);
      some_dropped = omega arith;
    },
  )
]

-- A round takes one exchange out behind the first one.
pub record Round (ms fewer : List Message) : Type 0 where
  dropped : List Message
  left : List Message
  was : ms ≡ first_exchange ms ++ (dropped ++ left)
  is : fewer ≡ first_exchange ms ++ left
  dropped_turn : IsTurn dropped
  left_turn : IsTurn left
  some_left : 1 ≤ length left
  some_dropped : 1 ≤ length dropped

pub drop_exchange-Round : (ms fewer : List Message) → drop_exchange ms ≡ some fewer → Round ms fewer
unfolding drop_exchange first_exchange
drop_exchange-Round [] fewer e = absurd (none-some e)
drop_exchange-Round (m ∷ ms) fewer e =
    elim (drop_from-cases (m ∷ (next_turn ms).0) (next_turn ms).1 (next_turn-IsTurn ms)) [
      | inl f ↦ absurd (none-some (sym f ∙ e))
      | inr (d, l, c) ↦ record {
        dropped = d;
        left = l;
        was = ap (λ r. m ∷ r) (sym (next_turn-append ms) ∙ ap (λ r. (next_turn ms).0 ++ r) c.was);
        is = some_injective (sym e ∙ c.is);
        dropped_turn = c.dropped_turn;
        left_turn = c.left_turn;
        some_left = c.some_left;
        some_dropped = c.some_dropped;
      }
    ]

abbrev rest_of : List Message → List Message
rest_of [] = []
rest_of (m ∷ ms) = (next_turn ms).1

rest_of-IsTurn : (ms : List Message) → IsTurn (rest_of ms)
rest_of-IsTurn [] = tt
rest_of-IsTurn (m ∷ ms) = next_turn-IsTurn ms

first_exchange-append :
    (ms after : List Message)
    → IsTurn after
    → 1 ≤ length (first_exchange ms)
    → first_exchange (first_exchange ms ++ after) ≡ first_exchange ms
unfolding first_exchange
first_exchange-append [] after h k = absurd (omega arith)
first_exchange-append (m ∷ ms) after h k = ap (λ p. m ∷ p.0) (next_turn-next_turn ms after h)

first_exchange-next_turn : (ms : List Message) → first_exchange ms ++ rest_of ms ≡ ms
unfolding first_exchange
first_exchange-next_turn [] = refl
first_exchange-next_turn (m ∷ ms) = ap (λ l. m ∷ l) (next_turn-append ms)

pub unshortened : (ms : List Message) → IsShortened ms ms
unshortened ms = record {
  dropped = [];
  left = rest_of ms;
  was = sym (first_exchange-next_turn ms);
  is = sym (first_exchange-next_turn ms);
  dropped_turn = tt;
  left_turn = rest_of-IsTurn ms;
  kept_last = inl refl;
}

Round-some : (ms fewer : List Message) → Round ms fewer → 1 ≤ length (first_exchange ms)
unfolding first_exchange
Round-some [] fewer r =
    let a = length-append r.dropped r.left in
    let b : length {A = Message} [] ≡ length (r.dropped ++ r.left) = ap length r.was in
    let c = r.some_left in absurd (omega arith)
Round-some (m ∷ ms) fewer r = omega arith

pub Round-length : (ms fewer : List Message) → Round ms fewer → length fewer < length ms
Round-length ms fewer r =
    let a = length-append (first_exchange ms) (r.dropped ++ r.left) in
    let b = length-append r.dropped r.left in
    let c = length-append (first_exchange ms) r.left in
    let d = r.some_dropped in
    subst (λ n. n < length ms) (sym (ap length r.is ∙ c))
      (subst (λ n. length (first_exchange ms) + length r.left < n) (sym (ap length r.was ∙ a))
        (omega arith))

-- A round and what is shortened further are shortened together.
pub Round-IsShortened :
    (ms fewer after : List Message)
    → Round ms fewer
    → IsShortened fewer after
    → IsShortened ms after
Round-IsShortened ms fewer after r s =
    let same : first_exchange fewer ≡ first_exchange ms =
      ap first_exchange r.is
      ∙ first_exchange-append ms r.left r.left_turn (Round-some ms fewer r) in
    let left_eq : r.left ≡ s.dropped ++ s.left =
      append_cancel_left (first_exchange ms) r.left (s.dropped ++ s.left)
        (sym r.is ∙ (s.was ∙ ap (λ f. f ++ (s.dropped ++ s.left)) same)) in
    record {
      dropped = r.dropped ++ s.dropped;
      left = s.left;
      was =
          r.was
          ∙ ap (λ l. first_exchange ms ++ l)
              (ap (λ l. r.dropped ++ l) left_eq ∙ sym (append_assoc r.dropped s.dropped s.left));
      is = s.is ∙ ap (λ f. f ++ s.left) same;
      dropped_turn = IsTurn-append r.dropped s.dropped r.dropped_turn s.dropped_turn;
      left_turn = s.left_turn;
      kept_last = inr (elim s.kept_last [
        | inl e ↦ subst (λ l. 1 ≤ length l) (left_eq ∙ ap (λ d. d ++ s.left) e) r.some_left
        | inr h ↦ h
      ]);
    }

pub IsShortened-IsPaired :
    (before after : List Message) → IsShortened before after → IsPaired before → IsPaired after
IsShortened-IsPaired before after s p =
    let whole =
      Pairs-turn [] (first_exchange before) (s.dropped ++ s.left)
        (IsTurn-append s.dropped s.left s.dropped_turn s.left_turn) (subst IsPaired s.was p) in
    let rest = Pairs-turn [] s.dropped s.left s.left_turn whole.1 in
    subst IsPaired (sym s.is) (Pairs-append [] (first_exchange before) s.left whole.0 rest.1)
