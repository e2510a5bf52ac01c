-- ===== src/Session/Store/Involved.antt =====
-- The agents of a session: no name twice, and never the owner, the system or everybody.
use mathlib.Core.Path.{subst}
use shclaw.Base.{
  ◌≡◌, refl, Bool, true, false, ◌||◌, inl, inr, Option, none, some, List, [], ◌∷◌, ◌++◌, arith,
  Bytes, strcmp_eq, strcmp_eq_comm, Bool-cases, Option-cases,
}
use shclaw.Session.Store.{
  MsgType, SessionStatus, Session, Files, write, load_session, is_ignored, contains, involve,
  with_message, save_to, session_create, session_add_message, session_set_status,
}

-- Every name is there once, and the ignored names and the empty one are not there.
abbrev pub IsInvolved : List Bytes → Type 0
IsInvolved [] = Unit
IsInvolved (x ∷ xs) =
    (is_ignored x ≡ false) × (strcmp_eq x [] ≡ false) × (contains xs x ≡ false) × IsInvolved xs

pub record IsStored (fs : Files) : Type 0 where
  pub at : (sid : Bytes) (s : Session) → fs sid ≡ some s → IsInvolved s.agents_involved

contains-concat :
    (xs : List Bytes) (y x : Bytes) → contains (xs ++ y ∷ []) x ≡ (contains xs x || strcmp_eq y x)
unfolding contains
contains-concat [] y x = ground arith
contains-concat (z ∷ xs) y x = ground (arith, contains-concat xs y x)

IsInvolved-concat :
    (xs : List Bytes) (y : Bytes)
    → is_ignored y ≡ false
    → strcmp_eq y [] ≡ false
    → contains xs y ≡ false
    → IsInvolved xs
    → IsInvolved (xs ++ y ∷ [])
unfolding contains
IsInvolved-concat [] y i e c h = ground arith
IsInvolved-concat (x ∷ xs) y i e c h =
    ground (arith, contains-concat xs y x, strcmp_eq_comm x y, IsInvolved-concat xs y i e)

involve-IsInvolved :
    (name : Option Bytes) (xs : List Bytes) → IsInvolved xs → IsInvolved (involve name xs)
unfolding involve
involve-IsInvolved none xs h = h
involve-IsInvolved (some []) xs h = h
involve-IsInvolved (some (c ∷ s)) xs h =
    elim (Bool-cases (is_ignored (c ∷ s) || contains xs (c ∷ s))) [
      | inl skip ↦ rw skip h
      | inr add ↦
          rw add (
            IsInvolved-concat xs (c ∷ s) (ground arith) (unfold strcmp_eq in refl) (ground arith) h)
    ]

with_message-agents :
    (mid now sender : Bytes) (recipient : Option Bytes) (content : Bytes) (type : MsgType)
    (s : Session)
    → (with_message mid now sender recipient content type s).agents_involved
      ≡ involve recipient (involve (some sender) s.agents_involved)
unfolding with_message
with_message-agents mid now sender recipient content type s = refl

with_message-IsInvolved :
    (mid now sender : Bytes) (recipient : Option Bytes) (content : Bytes) (type : MsgType)
    (s : Session)
    → IsInvolved s.agents_involved
    → IsInvolved (with_message mid now sender recipient content type s).agents_involved
with_message-IsInvolved mid now sender recipient content type s h =
    rw (with_message-agents mid now sender recipient content type s)
      (involve-IsInvolved recipient _ (involve-IsInvolved (some sender) s.agents_involved h))

write-IsStored :
    (fs : Files) (sid : Bytes) (s : Session)
    → IsStored fs
    → IsInvolved s.agents_involved
    → IsStored (write fs sid s)
write-IsStored fs sid s h i = record {
  at = λ other t e. elim (Bool-cases (strcmp_eq other sid)) [
    | inl same ↦
        let q : some s ≡ some t = (rw same at e) in
        let r : s ≡ t = cc in subst (λ (u : Session). IsInvolved u.agents_involved) r i
    | inr differs ↦ h.at other t (rw differs at e)
  ];
}

save_to-IsStored :
    (saved : Bool) (fs : Files) (sid : Bytes) (s : Session)
    → IsStored fs
    → IsInvolved s.agents_involved
    → IsStored (save_to saved fs sid s).0
unfolding save_to
save_to-IsStored true fs sid s h i = write-IsStored fs sid s h i
save_to-IsStored false fs sid s h i = h

load_session-IsInvolved :
    (fs : Files) (sid : Bytes) (s : Session)
    → IsStored fs
    → load_session fs sid ≡ some s
    → IsInvolved s.agents_involved
unfolding load_session
load_session-IsInvolved fs [] s h e = absurd (ground arith)
load_session-IsInvolved fs (c ∷ sid) s h e = h.at (c ∷ sid) s e

session_create-IsStored :
    (saved : Bool) (sid now : Bytes) (fs : Files) (type title : Bytes) (initiator : Option Bytes)
    → IsStored fs
    → IsStored (session_create saved sid now fs type title initiator).0
unfolding session_create
session_create-IsStored true sid now fs type title initiator h = write-IsStored fs sid _ h tt
session_create-IsStored false sid now fs type title initiator h = h

session_add_message-IsStored :
    (saved : Bool) (mid now : Bytes) (fs : Files) (sid sender : Bytes) (recipient : Option Bytes)
    (content : Bytes) (type : MsgType)
    → IsStored fs
    → IsStored (session_add_message saved mid now fs sid sender recipient content type).0
unfolding session_add_message
session_add_message-IsStored saved mid now fs sid sender recipient content type h =
    elim (Option-cases (load_session fs sid)) [
      | inl e ↦ rw (e, session_add_message) h
      | inr (s, e) ↦
          rw (e, session_add_message)
            (save_to-IsStored saved fs sid _ h (
              with_message-IsInvolved mid now sender recipient content type s
                (load_session-IsInvolved fs sid s h e)))
    ]

session_set_status-IsStored :
    (saved : Bool) (now : Bytes) (fs : Files) (sid : Bytes) (st : SessionStatus)
    → IsStored fs
    → IsStored (session_set_status saved now fs sid st).0
unfolding session_set_status
session_set_status-IsStored saved now fs sid st h = elim (Option-cases (load_session fs sid)) [
  | inl e ↦ rw (e, session_set_status) h
  | inr (s, e) ↦
      rw (e, session_set_status)
        (save_to-IsStored saved fs sid _ h (load_session-IsInvolved fs sid s h e))
]

-- A call of the daemon into the store, with what its environment answers.
pub data Call : Type 0 where
  create : Bool → Bytes → Bytes → Bytes → Bytes → Option Bytes → Call
  add_message : Bool → Bytes → Bytes → Bytes → Bytes → Option Bytes → Bytes → MsgType → Call
  set_status : Bool → Bytes → Bytes → SessionStatus → Call

abbrev pub apply : Call → Files → Files
apply (create saved sid now type title initiator) fs =
    (session_create saved sid now fs type title initiator).0
apply (add_message saved mid now sid sender recipient content type) fs =
    (session_add_message saved mid now fs sid sender recipient content type).0
apply (set_status saved now sid st) fs = (session_set_status saved now fs sid st).0

abbrev pub run : List Call → Files → Files
run [] fs = fs
run (c ∷ cs) fs = run cs (apply c fs)

-- After any calls, saved or not, on any ids, no session lists an agent twice, and none lists the
-- owner, the system, "all" or an empty name.
pub run-IsStored : (cs : List Call) (fs : Files) → IsStored fs → IsStored (run cs fs)
run-IsStored [] fs h = h
run-IsStored (create saved sid now type title initiator ∷ cs) fs h =
    run-IsStored cs _ (session_create-IsStored saved sid now fs type title initiator h)
run-IsStored (add_message saved mid now sid sender recipient content type ∷ cs) fs h =
    run-IsStored cs _
      (session_add_message-IsStored saved mid now fs sid sender recipient content type h)
run-IsStored (set_status saved now sid st ∷ cs) fs h =
    run-IsStored cs _ (session_set_status-IsStored saved now fs sid st h)
