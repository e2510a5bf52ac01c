-- ===== src/Tests/Message.antt =====
-- A message of `agent_message` in src/tools.c, from one agent to another.
use mathlib.Core.List.{Perm}
use mathlib.Core.List.Perm
use shclaw.Base.{ℕ, ◌≡◌, refl, true, false, none, [], ◌∷◌, codes}
use shclaw.Tools.Message.Received.{mail_of}
use shclaw.Tests.Agent.{registered}
use shclaw.Messenger.{
  Mail, Messenger, Post, messenger_init, messenger_register, messenger_resolve, resolve_in,
}
use shclaw.Messenger.Names.{register_all}

abbrev post : ℕ → Post
post n = record { fresh = codes "m1"; now = codes "now"; saved = true }

abbrev post_two : Post
post_two = record { fresh = codes "m0"; now = codes "then"; saved = true }

registered_names : registered.agents ≡ codes "owner" ∷ codes "Bob" ∷ codes "oracle" ∷ []
unfolding register_all messenger_register messenger_resolve resolve_in messenger_init
registered_names = refl

-- A mail that waits already, and the new one, which the directory gives first
abbrev waiting : Mail
waiting = mail_of post_two (codes "jarvis") (codes "Bob") (codes "tea?") none false

abbrev desk : Messenger
desk = record registered { mails = waiting ∷ [] }

abbrev answer : Mail
answer = mail_of (post 0) (codes "oracle") (codes "Bob") (codes "42") none true
