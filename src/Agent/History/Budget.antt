-- ===== src/Agent/History/Budget.antt =====
-- How much tool output `trim_history` of src/agent.c leaves.
use shclaw.Base.{
  ◌⊎◌, ℕ, ◌+◌, ◌/◌, ◌≤◌, ◌<◌, ◌≡◌, refl, Option, none, some, inl, inr, List, [], ◌∷◌, leb, leb→le,
  leb→lt, Bool-cases, Bytes, length, length-take-le, All, arith,
}
use shclaw.Agent.History.{
  Result, Block, Message, user_text, tool_results, assistant, text_length, results_total,
  blocks_total, message_total, total_of, shorter, trim_text, trim_results, trim_block, trim_blocks,
  trim_message, trim_messages, trim_history,
}

-- A step leaves `u` of the total `t` where `size` became `left`: nothing is gained, the total is
-- kept up, and it fits unless what was looked at is `Small`.
record Trims (budget t size u left : ℕ) (Small : Type 0) : Type 0 where
  less : left ≤ size
  exact : u + size ≡ t + left
  done : (u ≤ budget) ⊎ Small

shorter_bounds : (decimal : ℕ → Bytes) (c : Bytes) → length (shorter decimal c) ≤ 399
unfolding shorter
shorter_bounds decimal c = length-take-le 399 _

trim_text-Trims :
    (decimal : ℕ → Bytes) (budget total : ℕ) (c : Bytes)
    → length c ≤ total
    → Trims budget total
        (length c)
        (trim_text decimal budget total c).1
        (length (trim_text decimal budget total c).0)
        (length (trim_text decimal budget total c).0 ≤ 400)
unfolding trim_text
trim_text-Trims decimal budget total c h = elim (Bool-cases (leb total budget)) [
  | inl e ↦
      rw (e, trim_text)
        (record { less = omega arith; exact = refl; done = inl (leb→le total budget e) })
  | inr e ↦ elim (Bool-cases (leb (length c) 400)) [
    | inl f ↦
        rw (e, f, trim_text)
          (record { less = omega arith; exact = refl; done = inr (leb→le (length c) 400 f) })
    | inr f ↦
        let s = shorter_bounds decimal c in
        let g = leb→lt (length c) 400 f in
        rw (e, f, trim_text)
          (record { less = omega arith; exact = omega arith; done = inr (omega arith) })
  ]
]

-- Two steps, one after the other
Trims-append :
    {budget t a u a' b w b' : ℕ} {P Q : Type 0}
    → Trims budget t a u a' P
    → Trims budget u b w b' Q
    → Trims budget t (a + b) w (a' + b') (P × Q)
Trims-append {budget = budget} {P = P} {Q = Q} p q = record {
  less = let x = p.less in let y = q.less in omega arith;
  exact = let x = p.exact in let y = q.exact in omega arith;
  done = elim p.done [
    | inl e ↦ inl (let x = q.exact in let y = q.less in omega arith)
    | inr s ↦ elim q.done [ inl e ↦ inl e | inr r ↦ inr (s, r) ]
  ];
}

abbrev pub SmallResults : List Result → Type 0
SmallResults rs = All (λ r. length r.content ≤ 400) rs

abbrev pub SmallBlocks : List Block → Type 0
SmallBlocks bs = All (λ b. text_length b.content ≤ 400) bs

trim_results-Trims :
    (decimal : ℕ → Bytes) (budget total : ℕ) (rs : List Result)
    → results_total rs ≤ total
    → Trims budget total
        (results_total rs)
        (trim_results decimal budget total rs).1
        (results_total (trim_results decimal budget total rs).0)
        (SmallResults (trim_results decimal budget total rs).0)
unfolding trim_results results_total
trim_results-Trims decimal budget total [] h = record {
  less = omega arith;
  exact = refl;
  done = inr tt;
}
trim_results-Trims decimal budget total (r ∷ rs) h =
    let t : Bytes × ℕ = trim_text decimal budget total r.content in
    let p = trim_text-Trims decimal budget total r.content (omega arith) in
    let e = p.exact in
    let l = p.less in Trims-append p (trim_results-Trims decimal budget t.1 rs (omega arith))

trim_block-Trims :
    (decimal : ℕ → Bytes) (budget total : ℕ) (b : Block) (o : Option Bytes)
    → b.content ≡ o
    → text_length o ≤ total
    → Trims budget total
        (text_length o)
        (trim_block decimal budget total b o).1
        (text_length (trim_block decimal budget total b o).0.content)
        (text_length (trim_block decimal budget total b o).0.content ≤ 400)
unfolding trim_block
trim_block-Trims decimal budget total b none e h =
    rw e (record { less = omega arith; exact = refl; done = inr (omega arith) })
trim_block-Trims decimal budget total b (some c) e h = trim_text-Trims decimal budget total c h

trim_blocks-Trims :
    (decimal : ℕ → Bytes) (budget total : ℕ) (bs : List Block)
    → blocks_total bs ≤ total
    → Trims budget total
        (blocks_total bs)
        (trim_blocks decimal budget total bs).1
        (blocks_total (trim_blocks decimal budget total bs).0)
        (SmallBlocks (trim_blocks decimal budget total bs).0)
unfolding trim_blocks blocks_total
trim_blocks-Trims decimal budget total [] h = record {
  less = omega arith;
  exact = refl;
  done = inr tt;
}
trim_blocks-Trims decimal budget total (b ∷ bs) h =
    let t : Block × ℕ = trim_block decimal budget total b b.content in
    let p = trim_block-Trims decimal budget total b b.content refl (omega arith) in
    let e = p.exact in
    let l = p.less in Trims-append p (trim_blocks-Trims decimal budget t.1 bs (omega arith))

-- No output of the message has more than 400 bytes.
abbrev pub IsSmall : Message → Type 0
IsSmall (user_text t) = Unit
IsSmall (tool_results rs) = SmallResults rs
IsSmall (assistant bs) = SmallBlocks bs

trim_message-Trims :
    (decimal : ℕ → Bytes) (budget total : ℕ) (m : Message)
    → message_total m ≤ total
    → Trims budget total
        (message_total m)
        (trim_message decimal budget total m).1
        (message_total (trim_message decimal budget total m).0)
        (IsSmall (trim_message decimal budget total m).0)
unfolding trim_message message_total
trim_message-Trims decimal budget total (user_text t) h = record {
  less = omega arith;
  exact = refl;
  done = inr tt;
}
trim_message-Trims decimal budget total (tool_results rs) h =
    trim_results-Trims decimal budget total rs h
trim_message-Trims decimal budget total (assistant bs) h =
    trim_blocks-Trims decimal budget total bs h

-- What stands in front of the newest message
abbrev pub older : List Message → List Message
older [] = []
older (m ∷ []) = []
older (m ∷ n ∷ ms) = m ∷ older (n ∷ ms)

older-IsSmall :
    (m : Message) (ms : List Message)
    → IsSmall m
    → All IsSmall (older ms)
    → All IsSmall (older (m ∷ ms))
older-IsSmall m [] h k = tt
older-IsSmall m (n ∷ ms) h k = (h, k)

-- The outputs fit, or those of all messages but the newest one are small.
record Fitting (budget before : ℕ) (ms out : List Message) : Type 0 where
  less : total_of out ≤ total_of ms
  done : (before + total_of out ≤ budget) ⊎ All IsSmall (older out)

-- `before` are the outputs of the messages in front.
trim_messages-Fitting :
    (decimal : ℕ → Bytes) (budget before total : ℕ) (ms : List Message)
    → total ≡ before + total_of ms
    → Fitting budget before ms (trim_messages decimal budget total ms)
unfolding trim_messages total_of
trim_messages-Fitting decimal budget before total [] e = record {
  less = omega arith;
  done = inr tt;
}
trim_messages-Fitting decimal budget before total (m ∷ []) e = record {
  less = omega arith;
  done = inr tt;
}
trim_messages-Fitting decimal budget before total (m ∷ n ∷ ms) e =
    let t : Message × ℕ = trim_message decimal budget total m in
    elim (Bool-cases (leb total budget)) [
      | inl f ↦
          let g = leb→le total budget f in
          rw (f, trim_messages) (record { less = omega arith; done = inl (omega arith) })
      | inr f ↦
          let p = trim_message-Trims decimal budget total m (omega arith) in
          let x = p.exact in
          let y = p.less in
          let i =
            trim_messages-Fitting decimal budget (before + message_total t.0) t.1 (n ∷ ms)
              (omega arith) in
          let j = i.less in
          rw (f, trim_messages)
            (record {
              less = omega arith;
              done = elim i.done [
                | inl q ↦ inl (omega arith)
                | inr q ↦ elim p.done [
                  | inl u ↦ inl (omega arith)
                  | inr u ↦ inr (older-IsSmall t.0 (trim_messages decimal budget t.1 (n ∷ ms)) u q)
                ]
              ];
            })
    ]

-- It leaves what fits as it is; otherwise it halves the budget.
pub record IsTrimmed (budget : ℕ) (ms out : List Message) : Type 0 where
  pub less : total_of out ≤ total_of ms
  pub fitting :
      ((total_of ms ≤ budget) × (out ≡ ms))
      ⊎ ((budget < total_of ms) × ((total_of out ≤ budget / 2) ⊎ All IsSmall (older out)))

-- A history whose tool outputs fit the budget is left as it is. Of another one the outputs fit half
-- the budget afterwards, or else no output of more than 400 bytes is left but in the newest message;
-- and they never grow.
pub trim_history-IsTrimmed :
    (decimal : ℕ → Bytes) (ms : List Message) (budget : ℕ)
    → IsTrimmed budget ms (trim_history decimal ms budget)
unfolding trim_history
trim_history-IsTrimmed decimal ms budget = elim (Bool-cases (leb (total_of ms) budget)) [
  | inl e ↦
      rw (e, trim_history)
        (record { less = omega arith; fitting = inl (leb→le (total_of ms) budget e, refl) })
  | inr e ↦
      let f = trim_messages-Fitting decimal (budget / 2) 0 (total_of ms) ms (omega arith) in
      rw (e, trim_history)
        (record {
          less = f.less;
          fitting = inr (
            leb→lt (total_of ms) budget e,
            elim f.done [ inl d ↦ inl (omega arith) | inr s ↦ inr s ],
          );
        })
]
