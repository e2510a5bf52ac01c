-- ===== src/Agent/History/Paired.antt =====
-- Histories in src/agent.c in which every tool call is answered, and the turns they are made of.
use mathlib.Core.Path.{subst}
use shclaw.Base.{◌≡◌, refl, sym, none, some, List, [], ◌∷◌, ◌++◌, append-nil, Bytes}
use shclaw.Agent.History.{Result, Block, Message, user_text, tool_results, assistant}

unfoldable pub ids : List Result → List Bytes
ids [] = []
ids (r ∷ rs) = r.tool_use_id ∷ ids rs

unfoldable pub call_ids : List Block → List Bytes
call_ids [] = []
call_ids (b ∷ bs) = elim b.tool_use [ none ↦ call_ids bs | some id ↦ id ∷ call_ids bs ]

-- `calls` are the tool calls that the next message must answer, all of them and in order.
abbrev pub Pairs : List Bytes → List Message → Type 0
Pairs calls [] = calls ≡ []
Pairs calls (user_text t ∷ ms) = (calls ≡ []) × Pairs [] ms
Pairs calls (tool_results rs ∷ ms) = (ids rs ≡ calls) × Pairs [] ms
Pairs calls (assistant bs ∷ ms) = (calls ≡ []) × Pairs (call_ids bs) ms

-- Every tool call is answered by the next message, and nothing else is.
abbrev pub IsPaired : List Message → Type 0
IsPaired ms = Pairs [] ms

-- Calls and their answers are not separated by a user's text.
pub Pairs-split :
    (calls : List Bytes) (xs : List Message) (t : Bytes) (ys : List Message)
    → Pairs calls (xs ++ user_text t ∷ ys)
    → Pairs calls xs × Pairs [] (user_text t ∷ ys)
Pairs-split calls [] t ys p = (p.0, (refl, p.1))
Pairs-split calls (user_text s ∷ xs) t ys p =
    let r = Pairs-split [] xs t ys p.1 in ((p.0, r.0), r.1)
Pairs-split calls (tool_results rs ∷ xs) t ys p =
    let r = Pairs-split [] xs t ys p.1 in ((p.0, r.0), r.1)
Pairs-split calls (assistant bs ∷ xs) t ys p =
    let r = Pairs-split (call_ids bs) xs t ys p.1 in ((p.0, r.0), r.1)

pub Pairs-append :
    (calls : List Bytes) (xs ys : List Message)
    → Pairs calls xs
    → Pairs [] ys
    → Pairs calls (xs ++ ys)
Pairs-append calls [] ys p q = subst (λ o. Pairs o ys) (sym p) q
Pairs-append calls (user_text s ∷ xs) ys p q = (p.0, Pairs-append [] xs ys p.1 q)
Pairs-append calls (tool_results rs ∷ xs) ys p q = (p.0, Pairs-append [] xs ys p.1 q)
Pairs-append calls (assistant bs ∷ xs) ys p q = (p.0, Pairs-append (call_ids bs) xs ys p.1 q)

-- The list is empty or begins with a user's text.
abbrev pub IsTurn : List Message → Type 0
IsTurn [] = Unit
IsTurn (user_text t ∷ ms) = Unit
IsTurn (tool_results rs ∷ ms) = ⊥
IsTurn (assistant bs ∷ ms) = ⊥

pub IsTurn-append : (d l : List Message) → IsTurn d → IsTurn l → IsTurn (d ++ l)
IsTurn-append [] l h k = k
IsTurn-append (user_text t ∷ d) l h k = tt
IsTurn-append (tool_results rs ∷ d) l h k = absurd h
IsTurn-append (assistant bs ∷ d) l h k = absurd h

pub Pairs-turn :
    (calls : List Bytes) (xs ys : List Message)
    → IsTurn ys
    → Pairs calls (xs ++ ys)
    → Pairs calls xs × Pairs [] ys
Pairs-turn calls xs [] h p = (subst (Pairs calls) (append-nil xs) p, refl)
Pairs-turn calls xs (user_text t ∷ ys) h p = Pairs-split calls xs t ys p
Pairs-turn calls xs (tool_results rs ∷ ys) h p = absurd h
Pairs-turn calls xs (assistant bs ∷ ys) h p = absurd h
