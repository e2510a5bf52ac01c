-- ===== src/Agent/History/Fitted.antt =====
-- What `conv_fit` of src/agent.c keeps of a conversation.
use shclaw.Base.{
  ◌⊎◌, ℕ, zero, suc, ◌≤◌, ◌<◌, ◌≡◌, refl, Bool, true, false, none, inl, inr, List, leb, leb→le,
  leb→lt, Bool-cases, Option-cases, length, arith,
}
use shclaw.Agent.History.{Message, drop_exchange, conv_fit}
use shclaw.Agent.History.Paired.{IsPaired}
use shclaw.Agent.History.Rounds.{
  IsShortened, Round, drop_exchange-Round, unshortened, Round-length, Round-IsShortened,
  IsShortened-IsPaired,
}

-- It says whether what it left fits, and it gives up only where no exchange can be taken out.
pub record IsFitted (size : List Message → ℕ) (max : ℕ) (before : List Message)
    (r : List Message × Bool) : Type 0 where
  pub verdict :
      ((r.1 ≡ true) × (size r.0 ≤ max))
      ⊎ ((r.1 ≡ false) × (max < size r.0) × (drop_exchange r.0 ≡ none))
  pub shortened : IsShortened before r.0
  pub paired : IsPaired r.0

pub conv_fit-IsFitted :
    (size : List Message → ℕ) (fuel max : ℕ) (messages : List Message)
    → length messages < fuel
    → IsPaired messages
    → IsFitted size max messages (conv_fit size fuel max messages)
unfolding conv_fit
conv_fit-IsFitted size zero max messages h p = absurd (omega arith)
conv_fit-IsFitted size (suc fuel) max messages h p = elim (Bool-cases (leb (size messages) max)) [
  | inl e ↦
      rw (e, conv_fit)
        (record {
          verdict = inl (refl, leb→le (size messages) max e);
          shortened = unshortened messages;
          paired = p;
        })
  | inr e ↦ elim (Option-cases (drop_exchange messages)) [
    | inl f ↦
        rw (e, f, conv_fit)
          (record {
            verdict = inr (refl, leb→lt (size messages) max e, f);
            shortened = unshortened messages;
            paired = p;
          })
    | inr (fewer, f) ↦
        let r : Round messages fewer = drop_exchange-Round messages fewer f in
        let l = Round-length messages fewer r in
        let q : IsPaired fewer =
          IsShortened-IsPaired messages fewer
            (Round-IsShortened messages fewer fewer r (unshortened fewer)) p in
        let i = conv_fit-IsFitted size fuel max fewer (omega arith) q in
        rw (e, f, conv_fit)
          (record {
            verdict = i.verdict;
            shortened =
                Round-IsShortened messages fewer (conv_fit size fuel max fewer).0 r i.shortened;
            paired = i.paired;
          })
  ]
]
