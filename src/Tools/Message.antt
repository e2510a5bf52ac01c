-- ===== src/Tools/Message.antt =====
-- `agent_message` of src/tools.c: a message to the owner, or to agents and then on the channel.
pub mod Received
use shclaw.Base.{
  ℕ, Bool, true, false, Option, none, some, List, [], ◌∷◌, ◌++◌, if◌then◌else◌, Bytes, codes,
  strcmp_eq, snprintf,
}
use shclaw.Irc.Client.{Irc, Event}
use shclaw.Irc.Reply.{irc_reply}
use shclaw.Messenger.{
  Messenger, Post, Answer, cannot_deliver, sent_to, broadcast, unknown, to_yourself, text_or,
  messenger_resolve, messenger_send,
}

-- What is written to `out`
pub data Told : Type 0 where
  sent_to_owner : Told
  by_messenger : Answer → Told

-- The messenger's texts that begin with "Error"
abbrev pub is_failure : Answer → Bool
is_failure (cannot_deliver to) = true
is_failure (unknown to names) = true
is_failure to_yourself = true
is_failure (sent_to to) = false
is_failure (broadcast n) = false

abbrev pub is_owner : Option Bytes → Bool
is_owner none = false
is_owner (some name) = strcmp_eq name (codes "owner")

-- `%s => %s`, the name or else the recipient as it was given
abbrev pub channel_prefix : Bytes → Option Bytes → Option Bytes → Bytes
channel_prefix from name to = snprintf 96 (from ++ (codes " => " ++ text_or name (text_or to [])))

unfoldable pub agent_message :
    (ℕ → Post)
    → Messenger
    → Irc
    → Bytes
    → Option Bytes
    → Bytes
    → Option Bytes
    → Bool
    → Messenger × List Event × Told
agent_message posts m irc from to content thread_id reply =
    let name : Option Bytes = messenger_resolve m to in
    let r : Messenger × Answer = messenger_send posts m from to content thread_id reply in
    if is_owner name then (m, irc_reply irc (some from) content, sent_to_owner) else (
      r.0,
      if is_failure r.1 then [] else irc_reply irc (some (channel_prefix from name to)) content,
      by_messenger r.1,
    )
