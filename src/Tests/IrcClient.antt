-- ===== src/Tests/IrcClient.antt =====
-- Runs of src/irc.c.
use shclaw.Base.{
  ◌≤◌, ◌≡◌, refl, true, false, some, none, List, [], ◌∷◌, ◌++◌, arith, Bytes, codes, length,
  strcmp_eq, All,
}
use shclaw.Irc.Mentions.{parse_mentions}
use shclaw.Irc.Client.{Irc, Event, sent, trigger, irc_receive}
use shclaw.Irc.Client.Safe.{Allowed, config_of, irc_receive-Allowed}
use shclaw.Irc.Client.Framing.{followed, irc_receive-append}
use shclaw.Irc.Client.Wire.{Clean}
use shclaw.Irc.Reply.{irc_reply, prefix_of, privmsg_text}
use shclaw.Irc.Reply.Chunks.{concat, strip_breaks}
use shclaw.Irc.Reply.Shown.{lines_of, irc_reply_lem}
use shclaw.Irc.Calls.{receive, reply, serve_all, serve_all-Clean}

abbrev pub link : Irc
link = record {
  up = true;
  registered = false;
  base_nick = codes "bot";
  nick = codes "bot";
  channel = codes "#c";
  channel_key = [];
  owner = codes "ann";
  hub = codes "jarvis";
  agents = codes "jarvis" ∷ codes "oracle" ∷ [];
  readbuf = [];
  last_rx = 0;
  pinged = false;
  on_trigger = true;
}

abbrev stream : Bytes
stream = codes "PING :x\r\n:Ann!u@h PRIVMSG #c :@oracle hi\r\n:eve!u@h PRIVMSG #c :hi\r\n:s 4"

received :
    (irc_receive 5 link stream).1
    ≡ sent (codes "PONG :x\r\n") ∷ trigger (codes "oracle") (codes "Ann") (codes "hi") ∷ []
unfolding irc_receive parse_mentions
received = refl

left : (irc_receive 5 link stream).0.readbuf ≡ codes ":s 4"
unfolding irc_receive parse_mentions
left = refl

replied :
    irc_reply link (some (codes "oracle")) (codes "one\n\ntwo\r")
    ≡ Event.broadcast (some (codes "oracle")) (codes "one\n\ntwo\r")
      ∷ sent (codes "PRIVMSG #c :oracle: one\r\n")
      ∷ sent (codes "PRIVMSG #c :oracle: two \r\n")
      ∷ []
unfolding irc_reply
replied = refl

irc_receive-Allowed_example : Allowed (config_of link) (irc_receive 5 link stream).1
irc_receive-Allowed_example = irc_receive-Allowed 5 link stream

irc_receive-append_example :
    irc_receive 5 link (codes "PI" ++ codes "NG :x\r\n")
    ≡ followed (irc_receive 5 link (codes "PI")) (λ i. irc_receive 5 i (codes "NG :x\r\n"))
irc_receive-append_example =
    irc_receive-append 5 link (codes "PI") (codes "NG :x\r\n") (omega arith)

room_for_text : length (privmsg_text link (prefix_of link (some (codes "oracle"))) []) ≤ 109
unfolding privmsg_text prefix_of strcmp_eq
room_for_text = omega arith

irc_reply_lem_example :
    (pieces : List Bytes) × (irc_reply link (some (codes "oracle")) (codes "a\nb")
      ≡ Event.broadcast (some (codes "oracle")) (codes "a\nb")
        ∷ lines_of link (prefix_of link (some (codes "oracle"))) 20 pieces)
    × (concat pieces ≡ strip_breaks (codes "a\nb"))
    × All (λ (p : Bytes). length p ≤ 400) pieces
irc_reply_lem_example =
    irc_reply_lem link (some (codes "oracle")) b'a' (codes "\nb") refl room_for_text

serve_all-Clean_example :
    Clean (serve_all (receive 5 stream ∷ reply none (codes "x\r\nQUIT") ∷ []) link)
serve_all-Clean_example =
    serve_all-Clean (receive 5 stream ∷ reply none (codes "x\r\nQUIT") ∷ []) link
