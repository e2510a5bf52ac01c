-- ===== src/Agent/Session/Requesters.antt =====
-- The agents that a session of src/agent.c has to answer.
use mathlib.Core.Path.{subst}
use shclaw.Base.{
  ◌⊎◌, ℕ, suc, ◌+◌, ◌≤◌, ◌<◌, ◌≡◌, refl, sym, true, false, ◌||◌, inl, inr, List, [], ◌∷◌, ◌++◌, leb,
  if_rule, Bool-cases, Bytes, strcmp_eq, strcmp_eq_iff, snprintf, length, length-append,
  take-of-length-le, All, All-map, arith,
}
use shclaw.Messenger.{Mail}
use shclaw.Json.Replaced.{true-false}
use shclaw.Agent.Session.State.{holds, add_requester, requesters_of}

holds-cons : (n m : Bytes) (ns : List Bytes) → holds n ns ≡ true → holds n (m ∷ ns) ≡ true
unfolding holds
holds-cons n m ns h = elim (Bool-cases (strcmp_eq m n)) [ inl e ↦ rw e refl | inr e ↦ rw e h ]

pub holds_self : (ns : List Bytes) → All (λ n. holds n ns ≡ true) ns
unfolding holds
holds_self [] = tt
holds_self (n ∷ ns) =
    (rw ((strcmp_eq_iff n n).1 refl) refl, All-map (λ m h. holds-cons m n ns h) ns (holds_self ns))

pub holds-All :
    (P : Bytes → Type 0) (r : Bytes) (ns : List Bytes) → All P ns → holds r ns ≡ true → P r
unfolding holds
holds-All P r [] h e = absurd (true-false (sym e))
holds-All P r (n ∷ ns) h e = elim (Bool-cases (strcmp_eq n r)) [
  | inl f ↦ subst P ((strcmp_eq_iff n r).0 f) h.0
  | inr f ↦ holds-All P r ns h.1 (rw (f, holds) at e)
]

holds-append-left : (n : Bytes) (ns ms : List Bytes) → holds n ns ≡ true → holds n (ns ++ ms) ≡ true
unfolding holds
holds-append-left n [] ms h = absurd (true-false (sym h))
holds-append-left n (m ∷ ns) ms h = elim (Bool-cases (strcmp_eq m n)) [
  | inl e ↦ rw e refl
  | inr e ↦ rw e (holds-append-left n ns ms (rw (e, holds) at h))
]

holds-append-last : (n : Bytes) (ns : List Bytes) → holds n (ns ++ n ∷ []) ≡ true
unfolding holds
holds-append-last n [] = rw ((strcmp_eq_iff n n).1 refl) refl
holds-append-last n (m ∷ ns) = holds-cons n m (ns ++ n ∷ []) (holds-append-last n ns)

add_requester-keeps :
    (n : Bytes) (rs : List Bytes) (m : Mail)
    → holds n rs ≡ true
    → holds n (add_requester rs m) ≡ true
unfolding add_requester
add_requester-keeps n rs m h =
    if_rule (λ l. holds n l ≡ true) (m.reply || (holds m.from rs || leb 16 (length rs))) rs
      (rs ++ snprintf 32 m.from ∷ []) h (holds-append-left n rs (snprintf 32 m.from ∷ []) h)

add_requester-length : (rs : List Bytes) (m : Mail) → length (add_requester rs m) ≤ suc (length rs)
unfolding add_requester
add_requester-length rs m =
    let l = length-append rs (snprintf 32 m.from ∷ []) in
    if_rule (λ l. length l ≤ suc (length rs)) (m.reply || (holds m.from rs || leb 16 (length rs)))
      rs (rs ++ snprintf 32 m.from ∷ []) (omega arith) (omega arith)

add_requester-holds :
    (rs : List Bytes) (m : Mail)
    → length m.from < 32
    → length rs < 16
    → m.reply ≡ false
    → holds m.from (add_requester rs m) ≡ true
unfolding add_requester
add_requester-holds rs m f l e = elim (Bool-cases (holds m.from rs)) [
  | inl h ↦ simp (e, h) refl
  | inr h ↦
      simp (e, h, room (length rs) l, take-of-length-le 31 m.from (omega arith))
        (holds-append-last m.from rs)
]
  where
    room : (n : ℕ) → n < 16 → leb 16 n ≡ false
    room n h = ground arith

requesters_of-keeps :
    (n : Bytes) (mails : List Mail) (rs : List Bytes)
    → holds n rs ≡ true
    → holds n (requesters_of mails rs) ≡ true
unfolding requesters_of
requesters_of-keeps n [] rs h = h
requesters_of-keeps n (m ∷ ms) rs h =
    requesters_of-keeps n ms (add_requester rs m) (add_requester-keeps n rs m h)

-- A mail that is a request comes from one of the names.
abbrev pub From : List Bytes → Mail → Type 0
From rs m = (m.reply ≡ true) ⊎ (holds m.from rs ≡ true)

pub requesters_of-From :
    (mails : List Mail) (rs : List Bytes)
    → All (λ m. length m.from < 32) mails
    → length rs + length mails ≤ 16
    → All (From (requesters_of mails rs)) mails
unfolding requesters_of
requesters_of-From [] rs f l = tt
requesters_of-From (m ∷ ms) rs f l =
    let k = add_requester-length rs m in
    (
      elim (Bool-cases m.reply) [
        | inl e ↦ inl e
        | inr e ↦ inr (
            requesters_of-keeps m.from ms (add_requester rs m)
              (add_requester-holds rs m f.0 (omega arith) e))
      ],
      requesters_of-From ms (add_requester rs m) f.1 (omega arith),
    )
