-- ===== src/Session/Store.antt =====
-- The session files of src/session.c, one JSON document per session. A document is the record of
-- the members that the code reads and writes; a file that is missing or does not parse is `none`.
-- `uuid_short` and `now_iso` are the arguments `id` and `now`, and `saved` is whether
-- `json_save_atomic` succeeds: a failed save leaves the old file.
pub mod Involved
use shclaw.Base.{
  ℕ, Bool, true, false, not, ◌&&◌, ◌||◌, Option, none, some, List, [], ◌∷◌, ◌++◌, if◌then◌else◌,
  Bytes, codes, strcmp_eq, ◌==◌,
}

pub data SessionStatus : Type 0 where
  active closed failed : SessionStatus

pub data MsgType : Type 0 where
  text thinking tool_call tool_result delegation : MsgType

unfoldable pub status_str : SessionStatus → Bytes
status_str active = codes "active"
status_str closed = codes "closed"
status_str failed = codes "failed"

unfoldable pub msgtype_str : MsgType → Bytes
msgtype_str text = codes "text"
msgtype_str thinking = codes "thinking"
msgtype_str tool_call = codes "tool_call"
msgtype_str tool_result = codes "tool_result"
msgtype_str delegation = codes "delegation"

pub record Message : Type 0 where
  pub id : Bytes
  pub sender : Bytes
  pub recipient : Bytes
  pub content : Bytes
  pub type : Bytes
  pub timestamp : Bytes

pub record Session : Type 0 where
  pub id : Bytes
  pub trigger_type : Bytes
  pub title : Bytes
  pub initiator : Bytes
  pub created_at : Bytes
  pub updated_at : Bytes
  pub status : Bytes
  pub agents_involved : List Bytes
  pub messages : List Message

-- The directory: what the file `<sid>.json` holds.
abbrev pub Files : Type 0
Files = Bytes → Option Session

abbrev pub write : Files → Bytes → Session → Files
write fs sid s other = if strcmp_eq other sid then some s else fs other

-- `load_session`: an empty id has no file
unfoldable pub load_session : Files → Bytes → Option Session
load_session fs [] = none
load_session fs (c ∷ sid) = fs (c ∷ sid)

abbrev pub or_else : Option Bytes → Bytes → Bytes
or_else none d = d
or_else (some s) d = s

unfoldable pub session_create :
    Bool → Bytes → Bytes → Files → Bytes → Bytes → Option Bytes → Files × Option Bytes
session_create saved sid now fs type title initiator =
    let session : Session = record {
      id = sid;
      trigger_type = type;
      title = title;
      initiator = or_else initiator (codes "system");
      created_at = now;
      updated_at = now;
      status = codes "active";
      agents_involved = [];
      messages = [];
    } in
    if saved then (write fs sid session, some sid) else (fs, none)

-- `static const char *ignored[]`
unfoldable pub is_ignored : Bytes → Bool
unfolding strcmp_eq
is_ignored s =
    strcmp_eq s (codes "owner") || strcmp_eq s (codes "system") || strcmp_eq s (codes "all")

unfoldable pub contains : List Bytes → Bytes → Bool
contains [] s = false
contains (x ∷ xs) s = strcmp_eq x s || contains xs s

-- One round of the loop over `names`
unfoldable pub involve : Option Bytes → List Bytes → List Bytes
involve none agents = agents
involve (some []) agents = agents
involve (some (c ∷ s)) agents =
    if is_ignored (c ∷ s) || contains agents (c ∷ s) then agents else agents ++ (c ∷ s) ∷ []

unfoldable pub with_message :
    Bytes → Bytes → Bytes → Option Bytes → Bytes → MsgType → Session → Session
unfolding involve is_ignored contains msgtype_str
with_message mid now sender recipient content type s = record s {
  messages =
      s.messages
      ++ record {
        id = mid;
        sender = sender;
        recipient = or_else recipient [];
        content = content;
        type = msgtype_str type;
        timestamp = now;
      }
        ∷ [];
  updated_at = now;
  agents_involved = involve recipient (involve (some sender) s.agents_involved);
}

-- The result is the C status: `true` for 0, `false` for -1.
unfoldable pub save_to : Bool → Files → Bytes → Session → Files × Bool
save_to saved fs sid s = if saved then (write fs sid s, true) else (fs, false)

unfoldable pub session_add_message :
    Bool → Bytes → Bytes → Files → Bytes → Bytes → Option Bytes → Bytes → MsgType → Files × Bool
unfolding load_session with_message save_to
session_add_message saved mid now fs sid sender recipient content type =
    elim (load_session fs sid) [
      | none ↦ (fs, false)
      | some s ↦ save_to saved fs sid (with_message mid now sender recipient content type s)
    ]

unfoldable pub session_set_status : Bool → Bytes → Files → Bytes → SessionStatus → Files × Bool
unfolding load_session status_str save_to
session_set_status saved now fs sid st = elim (load_session fs sid) [
  | none ↦ (fs, false)
  | some s ↦ save_to saved fs sid (record s { status = status_str st; updated_at = now })
]
