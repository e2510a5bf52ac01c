-- ===== src/Tests/Session.antt =====
-- Runs of src/session.c.
use shclaw.Base.{
  ◌+◌, ◌-◌, ◌≤◌, ◌≡◌, refl, true, some, none, List, [], ◌∷◌, ◌++◌, arith, codes, length, leb,
  if◌then◌else◌,
}
use shclaw.Session.Chat.{
  ChatLog, chat_lines, chat_line, chat_init, chat_add, chat_render, visited, line_text,
}
use shclaw.Session.Chat.Ring.{chat_init-IsValid, keep_last, entry, visited-chat_add}
use shclaw.Session.Chat.Text.{IsLine, line_text_bounds}
use shclaw.Session.Store.{Files, text}
use shclaw.Session.Store.Involved.{Call, create, add_message, run, IsStored, run-IsStored}

abbrev talk : ChatLog
talk = chat_add 100 9 5 (chat_init 60) (codes "hub") (codes "owner") (some (codes "hi\nall"))

talk_rendered : (chat_render talk 0 none 64).0 ≡ codes "09:05 owner: hi all\n"
unfolding chat_render chat_add chat_init
talk_rendered = refl

visited-chat_add_example :
    (visited (chat_add 200 9 6 (chat_init 60) (codes "hub") (codes "owner") (some (codes "hi")))
      ≡ keep_last chat_lines (
          (if leb ((chat_init 60).last + (chat_init 60).idle) 200
            then []
            else visited (chat_init 60))
          ++ entry (chat_init 60).seq (codes "hub") (line_text 9 6 (codes "owner") (codes "hi"))
            ∷ []))
    × (chat_add 200 9 6 (chat_init 60) (codes "hub") (codes "owner") (some []) ≡ chat_init 60)
    × (chat_add 200 9 6 (chat_init 60) (codes "hub") (codes "owner") none ≡ chat_init 60)
visited-chat_add_example =
    visited-chat_add 200 9 6 (chat_init 60) (codes "hub") (codes "owner") (codes "i") b'h'
      (chat_init-IsValid 60)

line_text_bounds_example :
    (length (line_text 9 5 (codes "owner") (codes "a\nb")) ≤ chat_line - 1)
    × IsLine (line_text 9 5 (codes "owner") (codes "a\nb"))
line_text_bounds_example = line_text_bounds 9 5 (codes "owner") (codes "a\nb")

abbrev no_files : Files
no_files = λ sid. none

no_files-IsStored : IsStored no_files
no_files-IsStored = record { at = λ sid s e. absurd (ground arith) }

abbrev calls : List Call
calls =
    create true (codes "s1") (codes "now") (codes "irc") (codes "title") none
    ∷ add_message true (codes "m1") (codes "now") (codes "s1") (codes "hub") (some (codes "owner"))
        (codes "hello") text
    ∷ []

run-IsStored_example : IsStored (run calls no_files)
run-IsStored_example = run-IsStored calls no_files no_files-IsStored
