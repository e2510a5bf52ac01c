-- ===== src/Agent/Session/Mailed.antt =====
-- The messenger's recipients in a session of src/agent.c.
use shclaw.Base.{◌≡◌, sym, ◌∙◌, Option, List, Bytes}
use shclaw.Messenger.{Mail, messenger_init, messenger_resolve}
use shclaw.Messenger.Names.{register_all, register_all-AllShort, messenger_resolve-short}
use shclaw.Agent.Session.State.{System}
use shclaw.Agent.Session.Quiet.{IsShort}

-- A system whose recipients are those of the messenger, with any agents registered, resolves to
-- names that fit their field.
pub messenger-IsShort :
    {W : Type 0} (sys : System W) (names : List Bytes) (mails : List Mail)
    → ((to : Option Bytes)
        → sys.resolve to ≡ messenger_resolve (register_all names (messenger_init mails)) to)
    → IsShort sys
unfolding messenger_init
messenger-IsShort sys names mails h = record {
  short = λ to n e.
      messenger_resolve-short (register_all names (messenger_init mails)) to n
        (register_all-AllShort names (messenger_init mails) tt) (sym (h to) ∙ e);
}
