-- ===== src/Irc/Calls.antt =====
-- The calls that the daemon and the agents make of the IRC client, and what any run of them sends.
use shclaw.Base.{
  ℕ, zero, suc, ◌+◌, Bool, Option, none, List, [], ◌∷◌, ◌++◌, ltb, ◌==◌, Bytes, if_rule,
}
use shclaw.Irc.Client.{
  Event, broadcast, Irc, irc_sendf, irc_receive, irc_keepalive, irc_disconnect, irc_connect,
}
use shclaw.Irc.Client.Wire.{
  Clean, nil-Clean, append-Clean, irc_sendf-Clean, irc_disconnect-Clean, irc_connect-Clean,
  irc_keepalive-Clean, irc_receive-Clean,
}
use shclaw.Irc.Reply.{
  chunk_length, advance, reply_loop, prefix_of, irc_reply, irc_action, action_line, action_text,
}
use shclaw.Irc.Reply.Chunks.{irc_reply-loop}

pub data Call : Type 0 where
  -- what the connection, TLS and the handshake answer, and the time
  connect : Bool → Bool → Bool → ℕ → Call
  receive : ℕ → Bytes → Call
  keepalive : ℕ → Call
  reply : Option Bytes → Bytes → Call
  action : Option Bytes → Bytes → Call
  disconnect : Call

unfoldable pub serve : Call → Irc → Irc × List Event
serve (connect reached anchored shaken now) irc = (
  (irc_connect reached anchored shaken now irc).0,
  (irc_connect reached anchored shaken now irc).1,
)
serve (receive now chunk) irc = irc_receive now irc chunk
serve (keepalive now) irc = ((irc_keepalive now irc).0, (irc_keepalive now irc).1)
serve (reply agent text) irc = (irc, irc_reply irc agent text)
serve (action agent text) irc = (irc, irc_action irc agent text)
serve disconnect irc = irc_disconnect irc

unfoldable pub serve_all : List Call → Irc → List Event
serve_all [] irc = []
serve_all (c ∷ cs) irc = (serve c irc).1 ++ serve_all cs (serve c irc).0

reply_loop-Clean :
    (fuel lines : ℕ) (irc : Irc) (prefix : Option Bytes) (p : Bytes)
    → Clean (reply_loop fuel lines irc prefix p)
unfolding reply_loop
reply_loop-Clean zero lines irc prefix p = nil-Clean
reply_loop-Clean (suc fuel) lines irc prefix [] = nil-Clean
reply_loop-Clean (suc fuel) lines irc prefix (c ∷ p) =
    if_rule Clean (chunk_length (c ∷ p) == 0) _ _
      (reply_loop-Clean fuel lines irc prefix (advance (c ∷ p)))
      (if_rule Clean (ltb 20 (lines + 1)) _ _ (irc_sendf-Clean irc _) (
        append-Clean (irc_sendf irc _) _ (irc_sendf-Clean irc _)
          (reply_loop-Clean fuel (lines + 1) irc prefix (advance (c ∷ p)))))

broadcast-Clean :
    (agent : Option Bytes) (text : Bytes) (es : List Event)
    → Clean es
    → Clean (broadcast agent text ∷ es)
broadcast-Clean agent text es h = record { all = (tt, h.all) }

irc_reply-Clean :
    (irc : Irc) (agent : Option Bytes) (text : Bytes) → Clean (irc_reply irc agent text)
irc_reply-Clean irc agent [] = unfold irc_reply in nil-Clean
irc_reply-Clean irc agent (c ∷ s) = rw (irc_reply-loop irc agent c s) (
    broadcast-Clean agent (c ∷ s) _ (
      if_rule Clean irc.up _ [] (reply_loop-Clean _ 0 irc (prefix_of irc agent) (c ∷ s)) nil-Clean))

irc_action-Clean :
    (irc : Irc) (agent : Option Bytes) (text : Bytes) → Clean (irc_action irc agent text)
unfolding irc_action
irc_action-Clean irc agent [] = nil-Clean
irc_action-Clean irc agent (c ∷ s) = broadcast-Clean none (action_line agent (c ∷ s)) _ (
    if_rule Clean irc.up _ [] (irc_sendf-Clean irc (action_text irc (action_line agent (c ∷ s))))
      nil-Clean)

serve-Clean : (c : Call) (irc : Irc) → Clean (serve c irc).1
unfolding serve
serve-Clean (connect reached anchored shaken now) irc =
    irc_connect-Clean reached anchored shaken now irc
serve-Clean (receive now chunk) irc = irc_receive-Clean now irc chunk
serve-Clean (keepalive now) irc = irc_keepalive-Clean now irc
serve-Clean (reply agent text) irc = irc_reply-Clean irc agent text
serve-Clean (action agent text) irc = irc_action-Clean irc agent text
serve-Clean disconnect irc = irc_disconnect-Clean irc

-- Whatever is received, replied or shown, and however calls follow one another, every write to the
-- link is one protocol line: no line break but the CRLF at its end, and at most 512 bytes. Text from
-- a model or the web cannot start a command of its own.
pub serve_all-Clean : (cs : List Call) (irc : Irc) → Clean (serve_all cs irc)
unfolding serve_all
serve_all-Clean [] irc = nil-Clean
serve_all-Clean (c ∷ cs) irc =
    append-Clean (serve c irc).1 _ (serve-Clean c irc) (serve_all-Clean cs (serve c irc).0)
