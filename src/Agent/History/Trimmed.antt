-- ===== src/Agent/History/Trimmed.antt =====
-- The tool calls and results of a history that `trim_history` of src/agent.c leaves.
use mathlib.Core.Path.{subst}
use shclaw.Base.{
  ℕ, ◌≡◌, refl, sym, ap, ◌∙◌, Option, none, some, List, [], ◌∷◌, leb, ◌/◌, if_rule, Bytes,
}
use shclaw.Agent.History.{
  Result, Block, Message, user_text, tool_results, assistant, trim_text, trim_results, trim_block,
  trim_blocks, trim_message, trim_messages, total_of, trim_history,
}
use shclaw.Agent.History.Paired.{ids, call_ids, Pairs, IsPaired}

ids-trim_results :
    (decimal : ℕ → Bytes) (budget total : ℕ) (rs : List Result)
    → ids (trim_results decimal budget total rs).0 ≡ ids rs
unfolding trim_results ids
ids-trim_results decimal budget total [] = refl
ids-trim_results decimal budget total (r ∷ rs) =
    ap (λ l. r.tool_use_id ∷ l)
      (ids-trim_results decimal budget (trim_text decimal budget total r.content).1 rs)

tool_use-trim_block :
    (decimal : ℕ → Bytes) (budget total : ℕ) (b : Block) (o : Option Bytes)
    → (trim_block decimal budget total b o).0.tool_use ≡ b.tool_use
unfolding trim_block
tool_use-trim_block decimal budget total b none = refl
tool_use-trim_block decimal budget total b (some c) = refl

call_ids-trim_blocks :
    (decimal : ℕ → Bytes) (budget total : ℕ) (bs : List Block)
    → call_ids (trim_blocks decimal budget total bs).0 ≡ call_ids bs
unfolding trim_blocks call_ids
call_ids-trim_blocks decimal budget total [] = refl
call_ids-trim_blocks decimal budget total (b ∷ bs) =
    let t : Block × ℕ = trim_block decimal budget total b b.content in
    with_id (tool_use-trim_block decimal budget total b b.content)
      (call_ids-trim_blocks decimal budget t.1 bs)
  where
    with_id :
        {o p : Option Bytes} {xs ys : List Bytes}
        → o ≡ p
        → xs ≡ ys
        → (elim o [ none ↦ xs | some id ↦ id ∷ xs ]) ≡ (elim p [ none ↦ ys | some id ↦ id ∷ ys ])
    with_id {p = p} {xs = xs} e f =
        ap (λ o. elim o [ none ↦ xs | some id ↦ id ∷ xs ]) e
        ∙ ap (λ l. elim p [ none ↦ l | some id ↦ id ∷ l ]) f

trim_messages-Pairs :
    (decimal : ℕ → Bytes) (budget total : ℕ) (calls : List Bytes) (ms : List Message)
    → Pairs calls ms
    → Pairs calls (trim_messages decimal budget total ms)
unfolding trim_messages trim_message
trim_messages-Pairs decimal budget total calls [] p = p
trim_messages-Pairs decimal budget total calls (m ∷ []) p = p
trim_messages-Pairs decimal budget total calls (user_text t ∷ n ∷ ms) p =
    if_rule (Pairs calls) (leb total budget) (user_text t ∷ n ∷ ms)
      (user_text t ∷ trim_messages decimal budget total (n ∷ ms)) p
      (p.0, trim_messages-Pairs decimal budget total [] (n ∷ ms) p.1)
trim_messages-Pairs decimal budget total calls (tool_results rs ∷ n ∷ ms) p =
    let t : List Result × ℕ = trim_results decimal budget total rs in
    if_rule (Pairs calls) (leb total budget) (tool_results rs ∷ n ∷ ms)
      (tool_results t.0 ∷ trim_messages decimal budget t.1 (n ∷ ms)) p
      (
        ids-trim_results decimal budget total rs ∙ p.0,
        trim_messages-Pairs decimal budget t.1 [] (n ∷ ms) p.1,
      )
trim_messages-Pairs decimal budget total calls (assistant bs ∷ n ∷ ms) p =
    let t : List Block × ℕ = trim_blocks decimal budget total bs in
    if_rule (Pairs calls) (leb total budget) (assistant bs ∷ n ∷ ms)
      (assistant t.0 ∷ trim_messages decimal budget t.1 (n ∷ ms)) p
      (
        p.0,
        subst (λ c. Pairs c (trim_messages decimal budget t.1 (n ∷ ms)))
            (sym (call_ids-trim_blocks decimal budget total bs))
            (trim_messages-Pairs decimal budget t.1 (call_ids bs) (n ∷ ms) p.1),
      )

pub trim_history-IsPaired :
    (decimal : ℕ → Bytes) (ms : List Message) (budget : ℕ)
    → IsPaired ms
    → IsPaired (trim_history decimal ms budget)
unfolding trim_history
trim_history-IsPaired decimal ms budget p =
    if_rule IsPaired (leb (total_of ms) budget) ms
      (trim_messages decimal (budget / 2) (total_of ms) ms) p
      (trim_messages-Pairs decimal (budget / 2) (total_of ms) [] ms p)
