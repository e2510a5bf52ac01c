-- ===== src/Daemon/Link.antt =====
-- The IRC link in the main loop of src/daemon.c: `irc_lost` and `irc_maintain`. Times are
-- milliseconds of `now_ms`.
pub mod Paced
use shclaw.Base.{
  ℕ, zero, suc, ◌+◌, ◌*◌, Bool, true, false, not, ◌&&◌, ◌||◌, List, [], ◌∷◌, ◌++◌, leb, ltb, ◌==◌,
  if◌then◌else◌, Bytes,
}
use shclaw.Irc.Client.{Irc, Event, irc_connect, irc_disconnect, irc_keepalive, irc_receive}

pub record Link : Type 0 where
  pub irc : Irc
  pub backoff : ℕ
  pub retry_at : ℕ

-- Twice as long as the last time, `first` seconds at first, and at most five minutes
unfoldable pub next_backoff : ℕ → ℕ → ℕ
next_backoff first b =
    let doubled : ℕ = if b == 0 then first else b * 2 in if ltb 300 doubled then 300 else doubled

unfoldable pub irc_lost : ℕ → Link → Link × List Event
unfolding irc_disconnect
irc_lost now l =
    let b : ℕ = next_backoff 5 l.backoff in
    (
      record { irc = (irc_disconnect l.irc).0; backoff = b; retry_at = now + b * 1000 },
      (irc_disconnect l.irc).1,
    )

-- What the system answers to an attempt to connect, and the clock after it
pub record Attempt : Type 0 where
  pub reached : Bool
  pub anchored : Bool
  pub shaken : Bool
  pub clock : ℕ
  pub after : ℕ

unfoldable pub settle : Attempt → Link → Irc × List Event × Bool → Link × List Event
settle a l (irc, es, true) = (record l { irc = irc }, es)
settle a l (irc, es, false) =
    let b : ℕ = next_backoff 30 l.backoff in
    (record { irc = irc; backoff = b; retry_at = a.after + b * 1000 }, es)

-- `true` is -1: the link looks dead.
unfoldable pub kept_alive : ℕ → Link → Irc × List Event × Bool → Link × List Event
kept_alive now l (irc, es, false) = (record l { irc = irc }, es)
kept_alive now l (irc, es, true) =
    let gone = irc_lost now (record l { irc = irc }) in (gone.0, es ++ gone.1)

-- `clock` is the time that `irc_keepalive` reads.
unfoldable pub irc_maintain : Attempt → ℕ → ℕ → Link → Link × List Event
irc_maintain a now clock l =
    if l.irc.up
    then kept_alive now (record l { backoff = if l.irc.registered then 0 else l.backoff })
        (irc_keepalive clock l.irc)
    else if ltb now l.retry_at
    then (l, [])
    else settle a l (irc_connect a.reached a.anchored a.shaken a.clock l.irc)

-- What the main loop does with the link
pub data Call : Type 0 where
  -- bytes that `irc_poll` reads
  received : ℕ → Bytes → Call
  -- `irc_poll` fails
  lost : ℕ → Call
  maintain : Attempt → ℕ → ℕ → Call

unfoldable pub call : Call → Link → Link × List Event
unfolding irc_lost irc_maintain
call (received now chunk) l =
    (record l { irc = (irc_receive now l.irc chunk).0 }, (irc_receive now l.irc chunk).1)
call (lost now) l = irc_lost now l
call (maintain a now clock) l = irc_maintain a now clock l

unfoldable pub run : List Call → Link → Link
run [] l = l
run (c ∷ cs) l = run cs (call c l).0
