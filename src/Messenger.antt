-- ===== src/Messenger.antt =====
-- src/messenger.c: the inboxes of the agents. A mail is the file `<to>/<id>.json` of the message's
-- directory, and the list of the mails stands for the directory, in one of the orders in which
-- `readdir` may read it, which the code leaves open: a state whose list is reordered is the same
-- directory. What a delivery asks of the system is its argument: a fresh id, the time, and whether
-- the write succeeds. The lock makes each operation one step.
pub mod Safe
pub mod Taken
pub mod Names
use shclaw.Base.{
  ℕ, zero, suc, ◌+◌, ◌-◌, Bool, true, false, not, ◌&&◌, ◌||◌, Option, none, some, List, [], ◌∷◌,
  ◌++◌, leb, ◌==◌, if◌then◌else◌, Bytes, codes, snprintf, strcmp_eq, strcasecmp_eq, length,
}
use shclaw.Util.Buf.{append_all}

pub record Mail : Type 0 where
  pub id : Bytes
  pub from : Bytes
  pub to : Bytes
  pub content : Bytes
  pub thread_id : Bytes
  pub timestamp : Bytes
  pub reply : Bool

pub record Messenger : Type 0 where
  pub agents : List Bytes
  pub mails : List Mail

unfoldable pub messenger_init : List Mail → Messenger
messenger_init mails = record { agents = []; mails = mails }

abbrev pub strip_at : Bytes → Bytes
strip_at [] = []
strip_at (c ∷ s) = if c == b'@' then s else c ∷ s

unfoldable pub resolve_in : List Bytes → Bytes → Option Bytes
unfolding strcasecmp_eq
resolve_in [] name = none
resolve_in (a ∷ others) name =
    let rest = resolve_in others name in if strcasecmp_eq a name then some a else rest

unfoldable pub messenger_resolve : Messenger → Option Bytes → Option Bytes
unfolding resolve_in
messenger_resolve m none = none
messenger_resolve m (some name) = resolve_in m.agents (strip_at name)

abbrev pub is_known : Option Bytes → Bool
is_known none = false
is_known (some a) = true

-- `agent_sz` is the size of a name's field, `max_agents` is TC_MAX_AGENTS.
unfoldable pub messenger_register : ℕ → ℕ → Messenger → Bytes → Messenger
unfolding messenger_resolve
messenger_register agent_sz max_agents m name =
    if is_known (messenger_resolve m (some name)) || leb (max_agents + 1) (length m.agents)
    then m
    else record m { agents = m.agents ++ snprintf agent_sz name ∷ [] }

-- What one delivery asks of the system
pub record Post : Type 0 where
  pub fresh : Bytes
  pub now : Bytes
  pub saved : Bool

abbrev pub text_or : Option Bytes → Bytes → Bytes
text_or none d = d
text_or (some s) d = s

abbrev pub same_file : Bytes → Bytes → Mail → Bool
same_file to id mail = strcmp_eq mail.to to && strcmp_eq mail.id id

-- A file of that name is replaced. A new file stands at the end of the list, which is one of the
-- orders: `readdir` may give it anywhere.
unfoldable pub put_mail : Mail → List Mail → List Mail
unfolding strcmp_eq
put_mail new [] = new ∷ []
put_mail new (x ∷ xs) =
    let rest = put_mail new xs in if same_file new.to new.id x then new ∷ xs else x ∷ rest

pub data Answer : Type 0 where
  cannot_deliver sent_to : Bytes → Answer
  broadcast : ℕ → Answer
  unknown : Option Bytes → List Bytes → Answer
  to_yourself : Answer

unfoldable pub send_one :
    Post → Messenger → Bytes → Bytes → Bytes → Option Bytes → Bool → Messenger × Answer
unfolding put_mail
send_one post m from to content thread_id reply =
    let mail : Mail = record {
      id = post.fresh;
      from = from;
      to = to;
      content = content;
      thread_id = text_or thread_id [];
      timestamp = post.now;
      reply = reply;
    } in
    if post.saved
    then (record m { mails = put_mail mail m.mails }, sent_to to)
    else (m, cannot_deliver to)

-- The loop of a broadcast, `i` being the agent's place and `sent` the deliveries so far
unfoldable pub send_all :
    (ℕ → Post)
    → ℕ
    → List Bytes
    → Messenger
    → Bytes
    → Bytes
    → Option Bytes
    → Bool
    → ℕ
    → Messenger × Answer
unfolding send_one strcmp_eq
send_all posts i [] m from content thread_id reply sent = (m, broadcast sent)
send_all posts i (a ∷ others) m from content thread_id reply sent =
    let skipped = send_all posts (suc i) others m from content thread_id reply sent in
    let delivered =
      send_all posts (suc i) others (send_one (posts i) m from a content thread_id reply).0 from
        content thread_id reply (suc sent) in
    if strcmp_eq a from || strcmp_eq a (codes "owner") then skipped else delivered

unfoldable pub send_to :
    Post
    → Messenger
    → Bytes
    → Option Bytes
    → Option Bytes
    → Bytes
    → Option Bytes
    → Bool
    → Messenger × Answer
unfolding send_one strcmp_eq
send_to post m from to none content thread_id reply = (m, unknown to m.agents)
send_to post m from to (some name) content thread_id reply =
    if strcmp_eq name (codes "owner")
    then (m, unknown to m.agents)
    else if strcmp_eq name from
    then (m, to_yourself)
    else send_one post m from name content thread_id reply

unfoldable pub is_all : Option Bytes → Bool
unfolding strcasecmp_eq
is_all none = false
is_all (some to) = strcasecmp_eq to (codes "all")

unfoldable pub messenger_send :
    (ℕ → Post) → Messenger → Bytes → Option Bytes → Bytes → Option Bytes → Bool → Messenger × Answer
unfolding is_all send_all send_to messenger_resolve
messenger_send posts m from to content thread_id reply =
    if is_all to
    then send_all posts 0 m.agents m from content thread_id reply 0
    else send_to (posts 0) m from to (messenger_resolve m to) content thread_id reply

unfoldable pub inbox : Bytes → List Mail → List Mail
unfolding strcmp_eq
inbox name [] = []
inbox name (x ∷ xs) = let rest = inbox name xs in if strcmp_eq x.to name then x ∷ rest else rest

unfoldable pub without : Bytes → List Mail → List Mail
unfolding strcmp_eq
without name [] = []
without name (x ∷ xs) = let rest = without name xs in if strcmp_eq x.to name then rest else x ∷ rest

-- Every mail of the inbox is handed out, in the order of the list, and its file deleted; the count
-- is their number.
unfoldable pub messenger_receive : Messenger → Bytes → Messenger × List Mail
unfolding inbox without
messenger_receive m name = (record m { mails = without name m.mails }, inbox name m.mails)
