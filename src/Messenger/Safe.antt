-- ===== src/Messenger/Safe.antt =====
-- Whom `messenger_send` of src/messenger.c reaches, and what `messenger_receive` takes.
use shclaw.Base.{
  some_injective, ℕ, suc, ◌≡◌, refl, Bool, true, false, ◌||◌, Option, none, some, inl, inr, List,
  [], ◌∷◌, arith, if_rule, Bool-cases, Bytes, codes, strcmp_eq, strcmp_eq_refl, strcmp_eq_iff,
  strcasecmp_eq, All, All-map,
}
use shclaw.Messenger.{
  Mail, Messenger, Post, send_one, send_all, send_to, messenger_send, messenger_resolve, resolve_in,
  put_mail, same_file, strip_at, is_all,
}

unfoldable pub is_registered : List Bytes → Bytes → Bool
is_registered [] name = false
is_registered (a ∷ others) name = strcmp_eq a name || is_registered others name

-- A mail of this sender and text, in the inbox of a registered agent that is not its sender and
-- not the owner
pub record IsProper (agents : List Bytes) (from content : Bytes) (x : Mail) : Type 0 where
  pub registered : is_registered agents x.to ≡ true
  pub to_other : strcmp_eq x.to from ≡ false
  pub to_agent : strcmp_eq x.to (codes "owner") ≡ false
  pub sender : x.from ≡ from
  pub text : x.content ≡ content

weaken :
    (a : Bytes) (others bs : List Bytes)
    → All (λ n. is_registered others n ≡ true) bs
    → All (λ n. is_registered (a ∷ others) n ≡ true) bs
unfolding is_registered
weaken a others bs h = All-map (λ n e. ground arith) bs h

All-registered : (agents : List Bytes) → All (λ n. is_registered agents n ≡ true) agents
unfolding is_registered
All-registered [] = tt
All-registered (a ∷ others) =
    let r = strcmp_eq_refl a in (ground arith, weaken a others others (All-registered others))

or_true : (a b : Bool) → b ≡ true → (a || b) ≡ true
or_true a b h = ground arith

resolved :
    (agents : List Bytes) (name found : Bytes)
    → resolve_in agents name ≡ some found
    → is_registered agents found ≡ true
unfolding is_registered resolve_in
resolved [] name found e = ground arith
resolved (a ∷ others) name found e = elim (Bool-cases (strcasecmp_eq a name)) [
  | inl h ↦
      let q : a ≡ found = some_injective (rw (h, resolve_in) at e) in
      let r : strcmp_eq a found ≡ true = (strcmp_eq_iff a found).1 q in ground arith
  | inr h ↦
      let r : is_registered others found ≡ true =
        resolved others name found (rw (h, resolve_in) at e) in
      or_true (strcmp_eq a found) (is_registered others found) r
]

module _ (agents : List Bytes) (from content : Bytes) (P : Mail → Type 0)
    (proper : (x : Mail) → IsProper agents from content x → P x) where
  All-put_mail : (new : Mail) (xs : List Mail) → P new → All P xs → All P (put_mail new xs)
  unfolding put_mail
  All-put_mail new [] p h = (p, tt)
  All-put_mail new (x ∷ xs) p h =
      if_rule (All P) (same_file new.to new.id x) _ _ (p, h.1) (h.0, All-put_mail new xs p h.1)

  send_one-All :
      (post : Post) (m : Messenger) (to : Bytes) (thread_id : Option Bytes) (reply : Bool)
      → is_registered agents to ≡ true
      → strcmp_eq to from ≡ false
      → strcmp_eq to (codes "owner") ≡ false
      → All P m.mails
      → All P ((send_one post m from to content thread_id reply).0).mails
  unfolding send_one
  send_one-All post m to thread_id reply r o a h = elim (Bool-cases post.saved) [
    | inl e ↦
        simp (e, send_one)
          (All-put_mail _ m.mails
            (proper _
              (record { registered = r; to_other = o; to_agent = a; sender = refl; text = refl }))
            h)
    | inr e ↦ simp (e, send_one) h
  ]

  send_all-All :
      (posts : ℕ → Post) (i : ℕ) (names : List Bytes) (m : Messenger) (thread_id : Option Bytes)
      (reply : Bool) (sent : ℕ)
      → All (λ n. is_registered agents n ≡ true) names
      → All P m.mails
      → All P ((send_all posts i names m from content thread_id reply sent).0).mails
  unfolding send_all
  send_all-All posts i [] m thread_id reply sent r h = h
  send_all-All posts i (a ∷ names) m thread_id reply sent r h =
      elim (Bool-cases (strcmp_eq a from)) [
        | inl e ↦ rw (e, send_all) (send_all-All posts (suc i) names m thread_id reply sent r.1 h)
        | inr e ↦ elim (Bool-cases (strcmp_eq a (codes "owner"))) [
          | inl f ↦
              rw (e, f, send_all) (send_all-All posts (suc i) names m thread_id reply sent r.1 h)
          | inr f ↦
              rw (e, f, send_all)
                (send_all-All posts (suc i) names
                  (send_one (posts i) m from a content thread_id reply).0 thread_id reply (suc sent)
                  r.1 (send_one-All (posts i) m a thread_id reply r.0 e f h))
        ]
      ]

  send_to-All :
      (post : Post) (m : Messenger) (to found : Option Bytes) (thread_id : Option Bytes)
      (reply : Bool)
      → ((name : Bytes) → found ≡ some name → is_registered agents name ≡ true)
      → All P m.mails
      → All P ((send_to post m from to found content thread_id reply).0).mails
  unfolding send_to
  send_to-All post m to none thread_id reply r h = h
  send_to-All post m to (some name) thread_id reply r h =
      elim (Bool-cases (strcmp_eq name (codes "owner"))) [
        | inl e ↦ rw (e, send_to) h
        | inr e ↦ elim (Bool-cases (strcmp_eq name from)) [
          | inl f ↦ rw (e, f, send_to) h
          | inr f ↦
              rw (e, f, send_to) (send_one-All post m name thread_id reply (r name refl) f e h)
        ]
      ]

messenger_resolve-registered :
    (m : Messenger) (to : Option Bytes) (name : Bytes)
    → messenger_resolve m to ≡ some name
    → is_registered m.agents name ≡ true
unfolding messenger_resolve
messenger_resolve-registered m none name e = ground arith
messenger_resolve-registered m (some to) name e = resolved m.agents (strip_at to) name e

-- A send adds, if anything, mails of this sender and text to inboxes of registered agents, never to
-- the sender's own or the owner's: what holds of all mails before, and of each such mail, holds of
-- all mails after it.
pub messenger_send-All :
    (P : Mail → Type 0) (posts : ℕ → Post) (m : Messenger) (from : Bytes) (to : Option Bytes)
    (content : Bytes) (thread_id : Option Bytes) (reply : Bool)
    → ((x : Mail) → IsProper m.agents from content x → P x)
    → All P m.mails
    → All P ((messenger_send posts m from to content thread_id reply).0).mails
unfolding messenger_send
messenger_send-All P posts m from to content thread_id reply proper h =
    elim (Bool-cases (is_all to)) [
      | inl e ↦
          rw (e, messenger_send)
            (send_all-All m.agents from content P proper posts 0 m.agents m thread_id reply 0
              (All-registered m.agents) h)
      | inr e ↦
          rw (e, messenger_send)
            (send_to-All m.agents from content P proper (posts 0) m to (messenger_resolve m to)
              thread_id reply (messenger_resolve-registered m to) h)
    ]
