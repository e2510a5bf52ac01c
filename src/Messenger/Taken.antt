-- ===== src/Messenger/Taken.antt =====
-- What `messenger_receive` of src/messenger.c leaves behind.
use mathlib.Core.Path.{subst}
use shclaw.Base.{
  ◌≡◌, refl, ap, ◌∙◌, false, inl, inr, List, [], ◌∷◌, if◌then◌else◌, Bool-cases, Bytes, strcmp_eq,
  strcmp_eq_iff,
}
use shclaw.Messenger.{Mail, Messenger, inbox, without, messenger_receive}

other_inbox :
    (name other : Bytes) (mails : List Mail)
    → strcmp_eq name other ≡ false
    → inbox other (without name mails) ≡ inbox other mails
unfolding inbox without
other_inbox name other [] n = refl
other_inbox name other (x ∷ xs) n = elim (Bool-cases (strcmp_eq x.to name)) [
  | inl e ↦
      let q : x.to ≡ name = (strcmp_eq_iff x.to name).0 e in
      let f : strcmp_eq x.to other ≡ false = ap (λ s. strcmp_eq s other) q ∙ n in
      rw (e, f, inbox, without) (other_inbox name other xs n)
  | inr e ↦ elim (Bool-cases (strcmp_eq x.to other)) [
    | inl f ↦ rw (e, f, inbox, without) (ap (◌∷◌ x) (other_inbox name other xs n))
    | inr f ↦ rw (e, f, inbox, without) (other_inbox name other xs n)
  ]
]

own_inbox : (name : Bytes) (mails : List Mail) → inbox name (without name mails) ≡ []
unfolding inbox without
own_inbox name [] = refl
own_inbox name (x ∷ xs) = elim (Bool-cases (strcmp_eq x.to name)) [
  | inl e ↦ rw (e, without) (own_inbox name xs)
  | inr e ↦ rw (e, without) (rw (e, inbox) (own_inbox name xs))
]

-- A receive hands out the inbox whole and empties it, and leaves every other inbox as it was.
messenger_receive-inbox :
    (m : Messenger) (name other : Bytes)
    → ((messenger_receive m name).1 ≡ inbox name m.mails)
      × (inbox other ((messenger_receive m name).0).mails
          ≡ (if strcmp_eq name other then [] else inbox other m.mails))
unfolding messenger_receive
messenger_receive-inbox m name other = elim (Bool-cases (strcmp_eq name other)) [
  | inl e ↦
      let q : name ≡ other = (strcmp_eq_iff name other).0 e in
      (refl, rw e (subst (λ o. inbox o (without name m.mails) ≡ []) q (own_inbox name m.mails)))
  | inr e ↦ (refl, rw e (other_inbox name other m.mails e))
]
