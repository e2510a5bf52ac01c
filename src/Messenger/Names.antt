-- ===== src/Messenger/Names.antt =====
-- The names of registered agents in src/messenger.c.
use shclaw.Base.{
  ◌<◌, ◌≡◌, ◌||◌, Option, none, some, inl, inr, List, [], ◌∷◌, ◌++◌, leb, if_rule, Bool-cases,
  some_injective, Bytes, strcasecmp_eq, snprintf, length, length-take-le, All, All-append, arith,
}
use mathlib.Core.Path.{subst}
use shclaw.Messenger.{
  Messenger, messenger_register, messenger_resolve, resolve_in, strip_at, is_known,
}

-- The calls of `messenger_register`, one after the other
unfoldable pub register_all : List Bytes → Messenger → Messenger
register_all [] m = m
register_all (n ∷ ns) m = register_all ns (messenger_register 32 16 m n)

abbrev pub AllShort : Messenger → Type 0
AllShort m = All (λ n. length n < 32) m.agents

messenger_register-AllShort :
    (m : Messenger) (name : Bytes) → AllShort m → AllShort (messenger_register 32 16 m name)
unfolding messenger_register
messenger_register-AllShort m name h =
    let l = length-take-le 31 name in
    if_rule AllShort (is_known (messenger_resolve m (some name)) || leb 17 (length m.agents)) m
      (record m { agents = m.agents ++ snprintf 32 name ∷ [] }) h
      (All-append (λ n. length n < 32) m.agents (snprintf 32 name ∷ []) h (omega arith, tt))

pub register_all-AllShort :
    (names : List Bytes) (m : Messenger) → AllShort m → AllShort (register_all names m)
unfolding register_all
register_all-AllShort [] m h = h
register_all-AllShort (n ∷ ns) m h =
    register_all-AllShort ns (messenger_register 32 16 m n) (messenger_register-AllShort m n h)

resolve_in-short :
    (names : List Bytes) (name n : Bytes)
    → All (λ n. length n < 32) names
    → resolve_in names name ≡ some n
    → length n < 32
unfolding resolve_in
resolve_in-short [] name n h e = absurd (none-some e)
  where
    none-some : {x : Bytes} → none ≡ some x → ⊥
    none-some e = cc
resolve_in-short (a ∷ others) name n h e = elim (Bool-cases (strcasecmp_eq a name)) [
  | inl f ↦ subst (λ s. length s < 32) (some_injective (rw (f, resolve_in) at e)) h.0
  | inr f ↦ resolve_in-short others name n h.1 (rw (f, resolve_in) at e)
]

-- Whoever was registered, a name that a recipient resolves to has at most 31 bytes.
pub messenger_resolve-short :
    (m : Messenger) (to : Option Bytes) (n : Bytes)
    → AllShort m
    → messenger_resolve m to ≡ some n
    → length n < 32
unfolding messenger_resolve
messenger_resolve-short m none n h e = absurd (none-some e)
  where
    none-some : {x : Bytes} → none ≡ some x → ⊥
    none-some e = cc
messenger_resolve-short m (some to) n h e = resolve_in-short m.agents (strip_at to) n h e
