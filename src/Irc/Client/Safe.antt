-- ===== src/Irc/Client/Safe.antt =====
-- Who can start a session over IRC, and with what.
use shclaw.Base.{
  ℕ, zero, suc, ◌≤◌, ◌<◌, ◌≡◌, ◌≢◌, refl, sym, ap, true, false, not, ◌&&◌, ◌||◌, ◌⊎◌, inl, inr,
  Option, none, some, List, [], ◌∷◌, ◌++◌, map, arith, ltb, ◌==◌, Bytes, codes, length, take, drop,
  All, Every, if_rule, All-append, strcasecmp_eq, length-append, length-take, length-drop, ◌∙◌,
  Bool-cases, Option-cases, List-cases,
}
use mathlib.Core.Path.{subst}
use shclaw.Irc.Mentions.{Mention, parse_mentions}
use shclaw.Irc.Mentions.Sound.{IsDelivery, parse_mentions_sound}
use shclaw.Irc.Client.{
  Event, trigger, Irc, is_empty, irc_sendf, Parsed, parse_line, trigger_of, Kind, ping, welcome,
  nick_in_use, join, privmsg, other, kind_of, on_kind, on_privmsg, on_welcome, on_join, handle_line,
  handle_lines, clean_line, split_lines, joined, irc_receive, next_nick, bump, after_colon,
}
use shclaw.Irc.Client.Wire.{on_command-kind}

drop-take {ℓ} :
    {A : Type ℓ} (k : ℕ) (xs ys : List A) → k ≤ length xs → drop k (take k xs ++ ys) ≡ ys
drop-take zero xs ys h = refl
drop-take (suc k) [] ys h = absurd (omega arith)
drop-take (suc k) (x ∷ xs) ys h = drop-take k xs ys (omega arith)

bump-ne : (c : ℕ) (s : Bytes) → bump (c ∷ s) ≢ c
unfolding bump
bump-ne c s h = ground arith

one_byte : (r : Bytes) → 0 < length r → bump r ∷ [] ≢ r
one_byte [] h e = absurd (omega arith)
one_byte (c ∷ s) h e = bump-ne c s (let q : bump (c ∷ s) ≡ c = cc in q)

-- A nick that is tried after a refusal has at most nine bytes, so no server cuts it, and differs
-- from the refused one.
next_nick_lem : (nick : Bytes) → (length (next_nick nick) ≤ 9) × (next_nick nick ≢ nick)
unfolding next_nick
next_nick_lem nick = elim (Bool-cases (ltb (length nick) 9)) [
  | inl short ↦ rw short (
    ground (arith, length-append nick (b'_' ∷ [])),
    λ e. omega (arith, ap length e, length-append nick (b'_' ∷ [])),
  )
  | inr long ↦ rw long (
    omega (arith, length-append (take 8 nick) (bump (drop 8 nick) ∷ []), length-take 8 nick),
    λ e.
        one_byte (drop 8 nick) (ground (arith, length-drop 8 nick))
          (sym (drop-take 8 nick (bump (drop 8 nick) ∷ []) (ground arith)) ∙ ap (drop 8) e),
  )
]

-- What a client is configured with
pub record Config : Type 0 where
  pub owner : Bytes
  pub agents : List Bytes
  pub hub : Bytes

abbrev pub config_of : Irc → Config
config_of irc = record { owner = irc.owner; agents = irc.agents; hub = irc.hub }

-- A session is asked for by the owner, where one is configured, of an agent of the configuration,
-- the hub or everybody, with a text that fits its field.
abbrev pub IsAllowed : Config → Event → Type 0
IsAllowed c (trigger agent from text) =
    ((c.owner ≡ []) ⊎ (strcasecmp_eq from c.owner ≡ true))
    × IsDelivery c.agents c.hub (record { agent = agent; text = text })
IsAllowed c _ = Unit

abbrev pub Allowed : Config → List Event → Type 0
Allowed c = Every (IsAllowed c)

nil-Allowed : (c : Config) → Allowed c []
nil-Allowed c = record { all = tt }

irc_sendf-Allowed : (c : Config) (irc : Irc) (s : Bytes) → Allowed c (irc_sendf irc s)
unfolding irc_sendf
irc_sendf-Allowed c irc s =
    if_rule (Allowed c) irc.up _ _ (record { all = (tt, tt) }) (nil-Allowed c)

triggers-Allowed :
    (c : Config) (from : Bytes) (ms : List Mention)
    → (c.owner ≡ []) ⊎ (strcasecmp_eq from c.owner ≡ true)
    → All (IsDelivery c.agents c.hub) ms
    → Allowed c (map (trigger_of from) ms)
triggers-Allowed c from [] h d = nil-Allowed c
triggers-Allowed c from (m ∷ ms) h d = record {
  all = ((h, d.0), (triggers-Allowed c from ms h d.1).all);
}

owner_test :
    (owner from : Bytes)
    → (not (is_empty owner) && not (strcasecmp_eq from owner)) ≡ false
    → (owner ≡ []) ⊎ (strcasecmp_eq from owner ≡ true)
owner_test [] from h = inl refl
owner_test (c ∷ s) from h = inr (ground arith)

on_privmsg-Allowed :
    (irc : Irc) (from : Bytes) (text : Option Bytes)
    → Allowed (config_of irc) (on_privmsg irc from text)
unfolding on_privmsg
on_privmsg-Allowed irc from none = nil-Allowed _
on_privmsg-Allowed irc from (some text) =
    elim (Bool-cases (not (is_empty irc.owner) && not (strcasecmp_eq from irc.owner))) [
      | inl e ↦ rw e (nil-Allowed _)
      | inr e ↦ rw e (
          if_rule (Allowed (config_of irc))
            (elim text [ [] ↦ false | c ∷ s ↦ c == 1 ] || not irc.on_trigger) _ _ (nil-Allowed _)
            (triggers-Allowed (config_of irc) from (parse_mentions text irc.agents irc.hub 8)
              (owner_test irc.owner from e) (parse_mentions_sound text irc.agents irc.hub 8).0))
    ]

on_kind-Allowed : (k : Kind) (irc : Irc) (p : Parsed) → Allowed (config_of irc) (on_kind k irc p).1
unfolding on_kind on_welcome on_join
on_kind-Allowed ping irc p = irc_sendf-Allowed _ irc (codes "PONG " ++ p.params)
on_kind-Allowed welcome irc p = irc_sendf-Allowed _ _ _
on_kind-Allowed nick_in_use irc p = irc_sendf-Allowed _ _ _
on_kind-Allowed join irc p =
    let P = Allowed (config_of irc) in
    if_rule P (strcasecmp_eq p.from irc.nick) _ _
      (if_rule P (is_empty irc.channel_key) _ _ (nil-Allowed _) (irc_sendf-Allowed _ irc _))
      (if_rule P (not (is_empty irc.owner) && strcasecmp_eq p.from irc.owner) _ _
        (irc_sendf-Allowed _ irc _) (nil-Allowed _))
on_kind-Allowed privmsg irc p = on_privmsg-Allowed irc p.from (after_colon p.params)
on_kind-Allowed other irc p = nil-Allowed _

on_kind-config : (k : Kind) (irc : Irc) (p : Parsed) → config_of (on_kind k irc p).0 ≡ config_of irc
unfolding on_kind on_welcome
on_kind-config ping irc p = refl
on_kind-config welcome irc p = refl
on_kind-config nick_in_use irc p = refl
on_kind-config join irc p = refl
on_kind-config privmsg irc p = refl
on_kind-config other irc p = refl

-- One handled line: the configuration stays, and what it asks for is allowed.
record Obeys (c : Config) (r : Irc × List Event) : Type 0 where
  same : config_of r.0 ≡ c
  allowed : Allowed c r.1

handle_line-Obeys : (irc : Irc) (line : Bytes) → Obeys (config_of irc) (handle_line irc line)
unfolding handle_line
handle_line-Obeys irc line = elim (Option-cases (parse_line line)) [
  | inl e ↦ rw (e, handle_line) (record { same = refl; allowed = nil-Allowed _ })
  | inr (p, e) ↦
      rw (e, handle_line)
        (rw (on_command-kind irc p) (record {
          same = on_kind-config (kind_of p.command) irc p;
          allowed = on_kind-Allowed (kind_of p.command) irc p;
        }))
]

handle_lines-Obeys :
    (c : Config) (ls : List Bytes) (irc : Irc) → config_of irc ≡ c → Obeys c (handle_lines irc ls)
unfolding handle_lines
handle_lines-Obeys c [] irc h = record { same = h; allowed = nil-Allowed c }
handle_lines-Obeys c (l ∷ ls) irc h = elim (List-cases (clean_line l)) [
  | inl e ↦ rw (e, handle_lines) (handle_lines-Obeys c ls irc h)
  | inr (d, s, e) ↦
      let one = subst (λ k. Obeys k (handle_line irc (d ∷ s))) h (handle_line-Obeys irc (d ∷ s)) in
      let others = handle_lines-Obeys c ls (handle_line irc (d ∷ s)).0 one.same in
      rw (e, handle_lines)
        (record {
          same = others.same;
          allowed = record {
            all =
                All-append (IsAllowed c) (handle_line irc (d ∷ s)).1 _ one.allowed.all
                  others.allowed.all;
          };
        })
]

-- Whatever bytes the server sends, in whatever pieces, a session is started only by a message whose
-- sender is the configured owner (anybody, where none is configured), and only for the hub, for
-- everybody or for a configured agent, with a text that fits its field.
pub irc_receive-Allowed :
    (now : ℕ) (irc : Irc) (chunk : Bytes) → Allowed (config_of irc) (irc_receive now irc chunk).1
unfolding irc_receive
irc_receive-Allowed now irc chunk =
    (handle_lines-Obeys (config_of irc) (split_lines (joined irc.readbuf chunk)).0
      (record irc { last_rx = now; pinged = false }) refl).allowed
