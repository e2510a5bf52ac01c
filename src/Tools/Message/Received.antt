-- ===== src/Tools/Message/Received.antt =====
-- A message of `agent_message` in src/tools.c, and the next `messenger_receive` of its recipient.
use mathlib.Core.List.{Perm, Permᴰ}
use mathlib.Core.List.Perm
use mathlib.Core.List.Permᴰ
use shclaw.Base.{Bool, Option, List, [], Bytes}
use shclaw.Irc.Client.{Irc}
use shclaw.Messenger.{Messenger, Mail, Post, text_or}

-- The mail that a message becomes
abbrev pub mail_of : Post → Bytes → Bytes → Bytes → Option Bytes → Bool → Mail
mail_of post from name content thread_id reply = record {
  id = post.fresh;
  from = from;
  to = name;
  content = content;
  thread_id = text_or thread_id [];
  timestamp = post.now;
  reply = reply;
}
