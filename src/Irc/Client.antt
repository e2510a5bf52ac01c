-- ===== src/Irc/Client.antt =====
-- src/irc.c: the client's state (`irc_t` of include/tc.h), the lines it handles, and what it
-- sends. The socket and the TLS engine are not modelled: what is written while the link is up is
-- an event, and what is read comes as chunks. `now` is `now_ms()`.
pub mod Wire
pub mod Safe
pub mod Framing
use shclaw.Base.{
  ℕ, zero, suc, ◌+◌, ◌-◌, ◌≡◌, Bool, true, false, not, ◌&&◌, ◌||◌, Option, none, some, List, [],
  ◌∷◌, ◌++◌, map, within, ltb, leb, ◌==◌, if◌then◌else◌, Bytes, codes, length, take, drop, snprintf,
  strcmp_eq, strcasecmp_eq, cspn, after_cspn, skip,
}
use shclaw.Irc.Mentions.{Mention, parse_mentions}

pub data Event : Type 0 where
  -- bytes written to the link
  sent : Bytes → Event
  -- `on_trigger(agent, from, text)`
  trigger : Bytes → Bytes → Bytes → Event
  -- `daemon_tui_broadcast(agent, text)`
  broadcast : Option Bytes → Bytes → Event

pub record Irc : Type 0 where
  pub up : Bool
  pub registered : Bool
  pub base_nick : Bytes
  pub nick : Bytes
  pub channel : Bytes
  pub channel_key : Bytes
  pub owner : Bytes
  pub hub : Bytes
  pub agents : List Bytes
  pub readbuf : Bytes
  pub last_rx : ℕ
  pub pinged : Bool
  pub on_trigger : Bool

abbrev pub is_empty : Bytes → Bool
is_empty [] = true
is_empty (c ∷ s) = false

-- CR and LF become spaces, so that no text starts a new command.
unfoldable pub blank_breaks : Bytes → Bytes
blank_breaks [] = []
blank_breaks (c ∷ s) = (if c == b'\r' || c == b'\n' then b' ' else c) ∷ blank_breaks s

-- What `irc_sendf` writes for a formatted text: 512 bytes hold it with its CRLF.
unfoldable pub wire : Bytes → Bytes
unfolding blank_breaks
wire s = blank_breaks (take 509 s) ++ (b'\r' ∷ b'\n' ∷ [])

unfoldable pub irc_sendf : Irc → Bytes → List Event
unfolding wire
irc_sendf irc s = if irc.up then sent (wire s) ∷ [] else []

-- A parsed line: who sent it, the command and its parameters.
pub record Parsed : Type 0 where
  pub from : Bytes
  pub command : Bytes
  pub params : Bytes

-- The command and what follows its first space, by `strchr`
unfoldable pub split_command : Bytes → Bytes → Option Parsed
split_command from line = elim (cspn (codes " ") line) [
  | [] ↦ none
  | c ∷ s ↦
      some (record { from = from; command = c ∷ s; params = drop 1 (after_cspn (codes " ") line) })
]

-- ":nick!user@host CMD params"
unfoldable pub parse_line : Bytes → Option Parsed
unfolding split_command cspn after_cspn skip
parse_line [] = none
parse_line (c ∷ s) =
    if c == b':'
    then elim (after_cspn (codes " ") s) [
      | [] ↦ none
      | d ∷ rest ↦ split_command (cspn (codes "!") (cspn (codes " ") s)) (skip (codes " ") rest)
    ]
    else split_command [] (c ∷ s)

-- The byte that replaces the ninth one
unfoldable pub bump : Bytes → ℕ
bump [] = b'0'
bump (c ∷ s) = if leb b'0' c && ltb c b'9' then c + 1 else b'0'

-- The nick to try when one is in use: short, since servers cut long ones.
unfoldable pub next_nick : Bytes → Bytes
unfolding bump
next_nick nick =
    if ltb (length nick) 9 then nick ++ b'_' ∷ [] else take 8 nick ++ bump (drop 8 nick) ∷ []

-- What follows the first " :" (`strstr`)
unfoldable pub after_colon : Bytes → Option Bytes
after_colon [] = none
after_colon (c ∷ []) = none
after_colon (c ∷ d ∷ s) =
    let rest = after_colon (d ∷ s) in if c == b' ' && d == b':' then some s else rest

abbrev trigger_of : Bytes → Mention → Event
trigger_of from m = trigger m.agent from m.text

-- `PRIVMSG`: only the owner is heard, and no CTCP.
unfoldable pub on_privmsg : Irc → Bytes → Option Bytes → List Event
on_privmsg irc from none = []
on_privmsg irc from (some text) =
    if not (is_empty irc.owner) && not (strcasecmp_eq from irc.owner)
    then []
    else if elim text [ [] ↦ false | c ∷ s ↦ c == 1 ] || not irc.on_trigger
    then []
    else map (trigger_of from) (parse_mentions text irc.agents irc.hub 8)

unfoldable pub on_welcome : Irc → Irc × List Event
on_welcome irc =
    let joined = record irc { registered = true } in
    (
      joined,
      irc_sendf irc (
          if is_empty irc.channel_key
          then codes "JOIN " ++ irc.channel
          else codes "JOIN " ++ (irc.channel ++ (b' ' ∷ irc.channel_key))),
    )

unfoldable pub on_join : Irc → Bytes → List Event
on_join irc from =
    if strcasecmp_eq from irc.nick
    then (if is_empty irc.channel_key
        then []
        else irc_sendf irc (codes "MODE " ++ (irc.channel ++ (codes " +k " ++ irc.channel_key))))
    else if not (is_empty irc.owner) && strcasecmp_eq from irc.owner
    then irc_sendf irc (codes "MODE " ++ (irc.channel ++ (codes " +o " ++ irc.owner)))
    else []

-- The commands that the client acts on, in the order of its tests
pub data Kind : Type 0 where
  ping welcome nick_in_use join privmsg other : Kind

unfoldable pub kind_of : Bytes → Kind
unfolding strcmp_eq
kind_of command =
    if strcmp_eq command (codes "PING")
    then ping
    else if strcmp_eq command (codes "001")
    then welcome
    else if strcmp_eq command (codes "433")
    then nick_in_use
    else if strcmp_eq command (codes "JOIN")
    then join
    else if strcmp_eq command (codes "PRIVMSG")
    then privmsg
    else other

unfoldable pub on_kind : Kind → Irc → Parsed → Irc × List Event
on_kind ping irc p = (irc, irc_sendf irc (codes "PONG " ++ p.params))
on_kind welcome irc p = on_welcome irc
on_kind nick_in_use irc p =
    let renamed = record irc { nick = next_nick irc.nick } in
    (renamed, irc_sendf renamed (codes "NICK " ++ renamed.nick))
on_kind join irc p = (irc, on_join irc p.from)
on_kind privmsg irc p = (irc, on_privmsg irc p.from (after_colon p.params))
on_kind other irc p = (irc, [])

unfoldable pub on_command : Irc → Parsed → Irc × List Event
unfolding kind_of on_kind on_welcome on_join on_privmsg next_nick after_colon irc_sendf
    strcasecmp_eq
on_command irc p = on_kind (kind_of p.command) irc p

unfoldable pub handle_line : Irc → Bytes → Irc × List Event
unfolding parse_line on_command
handle_line irc line = elim (parse_line line) [ none ↦ (irc, []) | some p ↦ on_command irc p ]

-- The complete lines of a buffer, each without its line feed, and what is left behind them
unfoldable pub push_front : ℕ → List Bytes × Bytes → List Bytes × Bytes
push_front c ([], rest) = ([], c ∷ rest)
push_front c (l ∷ ls, rest) = ((c ∷ l) ∷ ls, rest)

unfoldable pub split_lines : Bytes → List Bytes × Bytes
split_lines [] = ([], [])
split_lines (c ∷ s) =
    let more = split_lines s in if c == b'\n' then ([] ∷ more.0, more.1) else push_front c more

-- The line as `handle_line` sees it: no carriage return at its end, up to its first NUL
unfoldable pub chop : Bytes → Bytes
chop [] = []
chop (c ∷ []) = if c == b'\r' then [] else c ∷ []
chop (c ∷ d ∷ s) = c ∷ chop (d ∷ s)

unfoldable pub clean_line : Bytes → Bytes
unfolding chop cspn
clean_line l = cspn (0 ∷ []) (chop l)

unfoldable pub handle_lines : Irc → List Bytes → Irc × List Event
handle_lines irc [] = (irc, [])
handle_lines irc (l ∷ ls) = elim (clean_line l) [
  | [] ↦ handle_lines irc ls
  | c ∷ s ↦
      let first = handle_line irc (c ∷ s) in
      let others = handle_lines first.0 ls in (others.0, first.1 ++ others.1)
]

-- The buffer that a chunk joins: one that it would overflow is dropped.
unfoldable pub joined : Bytes → Bytes → Bytes
joined readbuf chunk =
    if ltb (4096 - length readbuf - 1) (length chunk) then chunk else readbuf ++ chunk

-- One round of `irc_poll` on the bytes that `read_some` returned, more than none.
unfoldable pub irc_receive : ℕ → Irc → Bytes → Irc × List Event
unfolding joined split_lines push_front handle_lines handle_line clean_line
irc_receive now irc chunk =
    let framed = split_lines (joined irc.readbuf chunk) in
    let after = handle_lines (record irc { last_rx = now; pinged = false }) framed.0 in
    (record after.0 { readbuf = framed.1 }, after.1)

-- `true` is -1: the link looks dead.
unfoldable pub irc_keepalive : ℕ → Irc → Irc × List Event × Bool
irc_keepalive now irc =
    if not irc.up
    then (irc, [], false)
    else if ltb 420000 (now - irc.last_rx)
    then (irc, [], true)
    else if ltb 240000 (now - irc.last_rx) && not irc.pinged
    then (record irc { pinged = true }, irc_sendf irc (codes "PING :shclaw"), false)
    else (irc, [], false)

-- A connection that is set up, and the registration sent over it
unfoldable pub irc_registered : ℕ → Irc → Irc × List Event
irc_registered now irc =
    let fresh = record irc {
      up = true;
      readbuf = [];
      last_rx = now;
      pinged = false;
      registered = false;
      nick = snprintf 32 irc.base_nick;
    } in
    (
      fresh,
      irc_sendf fresh (codes "NICK " ++ fresh.nick)
          ++ irc_sendf fresh (codes "USER " ++ (fresh.nick ++ codes " 0 * :shclaw")),
    )

unfoldable pub irc_disconnect : Irc → Irc × List Event
irc_disconnect irc =
    if not irc.up
    then (irc, [])
    else (record irc { up = false }, irc_sendf irc (codes "QUIT :shclaw shutting down"))

-- `reached` is whether `net_connect` gave a descriptor, `anchored` whether TLS could start (or is
-- not used), `shaken` whether the handshake, made by the first write, left the link open.
-- `true` is 0, `false` is -1.
unfoldable pub irc_connect : Bool → Bool → Bool → ℕ → Irc → Irc × List Event × Bool
unfolding irc_registered irc_disconnect
irc_connect false anchored shaken now irc = (irc, [], false)
irc_connect true false shaken now irc = (irc, [], false)
irc_connect true true false now irc =
    let (fresh, es) = irc_registered now irc in
    let (closed, fs) = irc_disconnect fresh in (closed, es ++ fs, false)
irc_connect true true true now irc = let (fresh, es) = irc_registered now irc in (fresh, es, true)
