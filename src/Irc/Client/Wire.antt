-- ===== src/Irc/Client/Wire.antt =====
-- Everything that the client writes is one protocol line.
use shclaw.Base.{
  ℕ, suc, ◌-◌, ◌≤◌, ◌≡◌, ◌≢◌, refl, ap, Bool, true, false, not, ◌&&◌, ◌||◌, inl, inr, Option, none,
  some, List, [], ◌∷◌, ◌++◌, map, arith, ltb, ◌==◌, Bytes, codes, length, take, All, All-append,
  Every, if_rule, strcasecmp_eq, length-append, length-take-le, Bool-cases, Option-cases,
  List-cases,
}
use shclaw.Irc.Mentions.{Mention, parse_mentions}
use shclaw.Irc.Client.{
  Kind, ping, welcome, nick_in_use, join, privmsg, other, kind_of, on_kind, Event, sent, Irc,
  is_empty, blank_breaks, wire, irc_sendf, Parsed, parse_line, trigger_of, on_privmsg, on_welcome,
  on_join, on_command, handle_line, handle_lines, clean_line, split_lines, joined, irc_receive,
  irc_keepalive, irc_registered, irc_disconnect, irc_connect, after_colon,
}

-- No line break
abbrev pub IsUnbroken : Bytes → Type 0
IsUnbroken s = All (λ c. (c ≢ b'\r') × (c ≢ b'\n')) s

-- One line of the protocol: a text with no line break, and one CRLF behind it, in 512 bytes
pub record IsWire (s : Bytes) : Type 0 where
  pub body : Bytes
  pub whole : s ≡ body ++ (b'\r' ∷ b'\n' ∷ [])
  pub unbroken : IsUnbroken body
  pub fits : length s ≤ 512

abbrev pub IsClean : Event → Type 0
IsClean (sent s) = IsWire s
IsClean _ = Unit

blank_breaks-IsUnbroken : (s : Bytes) → IsUnbroken (blank_breaks s)
unfolding blank_breaks
blank_breaks-IsUnbroken [] = tt
blank_breaks-IsUnbroken (c ∷ s) =
    ((λ h. ground arith, λ h. ground arith), blank_breaks-IsUnbroken s)

length-blank_breaks : (s : Bytes) → length (blank_breaks s) ≡ length s
unfolding blank_breaks
length-blank_breaks [] = refl
length-blank_breaks (c ∷ s) = ap suc (length-blank_breaks s)

wire-IsWire : (s : Bytes) → IsWire (wire s)
unfolding wire
wire-IsWire s = record {
  body = blank_breaks (take 509 s);
  whole = refl;
  unbroken = blank_breaks-IsUnbroken (take 509 s);
  fits = omega (
    arith,
    length-append (blank_breaks (take 509 s)) (b'\r' ∷ b'\n' ∷ []),
    length-blank_breaks (take 509 s),
    length-take-le 509 s,
  );
}

abbrev pub Clean : List Event → Type 0
Clean = Every IsClean

pub irc_sendf-Clean : (irc : Irc) (s : Bytes) → Clean (irc_sendf irc s)
unfolding irc_sendf
irc_sendf-Clean irc s =
    if_rule Clean irc.up _ _ (record { all = (wire-IsWire s, tt) }) (record { all = tt })

pub nil-Clean : Clean []
nil-Clean = record { all = tt }

triggers-Clean : (from : Bytes) (ms : List Mention) → Clean (map (trigger_of from) ms)
triggers-Clean from [] = nil-Clean
triggers-Clean from (m ∷ ms) = record { all = (tt, (triggers-Clean from ms).all) }

pub append-Clean : (es fs : List Event) → Clean es → Clean fs → Clean (es ++ fs)
append-Clean es fs h k = record { all = All-append IsClean es fs h.all k.all }

on_privmsg-Clean :
    (irc : Irc) (from : Bytes) (text : Option Bytes) → Clean (on_privmsg irc from text)
unfolding on_privmsg
on_privmsg-Clean irc from none = nil-Clean
on_privmsg-Clean irc from (some text) =
    if_rule Clean (not (is_empty irc.owner) && not (strcasecmp_eq from irc.owner)) _ _ nil-Clean (
      if_rule Clean (elim text [ [] ↦ false | c ∷ s ↦ c == 1 ] || not irc.on_trigger) _ _ nil-Clean
        (triggers-Clean from (parse_mentions text irc.agents irc.hub 8)))

on_join-Clean : (irc : Irc) (from : Bytes) → Clean (on_join irc from)
unfolding on_join
on_join-Clean irc from =
    if_rule Clean _ _ _ (if_rule Clean _ _ _ nil-Clean (irc_sendf-Clean irc _))
      (if_rule Clean _ _ _ (irc_sendf-Clean irc _) nil-Clean)

on_welcome-Clean : (irc : Irc) → Clean (on_welcome irc).1
unfolding on_welcome
on_welcome-Clean irc = irc_sendf-Clean _ _

pub on_command-kind :
    (irc : Irc) (p : Parsed) → on_command irc p ≡ on_kind (kind_of p.command) irc p
unfolding on_command
on_command-kind irc p = refl

on_kind-Clean : (k : Kind) (irc : Irc) (p : Parsed) → Clean (on_kind k irc p).1
unfolding on_kind
on_kind-Clean ping irc p = irc_sendf-Clean irc (codes "PONG " ++ p.params)
on_kind-Clean welcome irc p = on_welcome-Clean irc
on_kind-Clean nick_in_use irc p = irc_sendf-Clean _ _
on_kind-Clean join irc p = on_join-Clean irc p.from
on_kind-Clean privmsg irc p = on_privmsg-Clean irc p.from (after_colon p.params)
on_kind-Clean other irc p = nil-Clean

on_command-Clean : (irc : Irc) (p : Parsed) → Clean (on_command irc p).1
on_command-Clean irc p = rw (on_command-kind irc p) (on_kind-Clean (kind_of p.command) irc p)

handle_line-Clean : (irc : Irc) (line : Bytes) → Clean (handle_line irc line).1
unfolding handle_line
handle_line-Clean irc line = elim (Option-cases (parse_line line)) [
  | inl e ↦ rw (e, handle_line) nil-Clean
  | inr (p, e) ↦ rw (e, handle_line) (on_command-Clean irc p)
]

handle_lines-Clean : (ls : List Bytes) (irc : Irc) → Clean (handle_lines irc ls).1
unfolding handle_lines
handle_lines-Clean [] irc = nil-Clean
handle_lines-Clean (l ∷ ls) irc = elim (List-cases (clean_line l)) [
  | inl e ↦ rw (e, handle_lines) (handle_lines-Clean ls irc)
  | inr (c, s, e) ↦
      rw (e, handle_lines)
        (append-Clean (handle_line irc (c ∷ s)).1 _ (handle_line-Clean irc (c ∷ s))
          (handle_lines-Clean ls (handle_line irc (c ∷ s)).0))
]

irc_registered-Clean : (now : ℕ) (irc : Irc) → Clean (irc_registered now irc).1
unfolding irc_registered
irc_registered-Clean now irc =
    append-Clean (irc_sendf _ _) _ (irc_sendf-Clean _ _) (irc_sendf-Clean _ _)

pub irc_disconnect-Clean : (irc : Irc) → Clean (irc_disconnect irc).1
unfolding irc_disconnect
irc_disconnect-Clean irc = elim (Bool-cases irc.up) [
  | inl e ↦ simp e (irc_sendf-Clean irc (codes "QUIT :shclaw shutting down"))
  | inr e ↦ simp e nil-Clean
]

pub irc_connect-Clean :
    (reached anchored shaken : Bool) (now : ℕ) (irc : Irc)
    → Clean (irc_connect reached anchored shaken now irc).1
unfolding irc_connect
irc_connect-Clean false anchored shaken now irc = nil-Clean
irc_connect-Clean true false shaken now irc = nil-Clean
irc_connect-Clean true true false now irc =
    append-Clean (irc_registered now irc).1 _ (irc_registered-Clean now irc)
      (irc_disconnect-Clean (irc_registered now irc).0)
irc_connect-Clean true true true now irc = irc_registered-Clean now irc

pub irc_keepalive-Clean : (now : ℕ) (irc : Irc) → Clean (irc_keepalive now irc).1
unfolding irc_keepalive
irc_keepalive-Clean now irc = elim (Bool-cases irc.up) [
  | inr e ↦ simp e nil-Clean
  | inl e ↦ elim (Bool-cases (ltb 420000 (now - irc.last_rx))) [
    | inl d ↦ simp (e, d) nil-Clean
    | inr d ↦ elim (Bool-cases (ltb 240000 (now - irc.last_rx) && not irc.pinged)) [
      | inl q ↦ simp (e, d, q) (irc_sendf-Clean irc (codes "PING :shclaw"))
      | inr q ↦ simp (e, d, q) nil-Clean
    ]
  ]
]

pub irc_receive-Clean : (now : ℕ) (irc : Irc) (chunk : Bytes) → Clean (irc_receive now irc chunk).1
unfolding irc_receive
irc_receive-Clean now irc chunk =
    handle_lines-Clean (split_lines (joined irc.readbuf chunk)).0
      (record irc { last_rx = now; pinged = false })
