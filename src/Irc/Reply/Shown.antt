-- ===== src/Irc/Reply/Shown.antt =====
-- What a reply of src/irc.c shows: the lines on the channel, and the text in the terminal.
use shclaw.Base.{
  ℕ, zero, suc, ◌+◌, ◌≤◌, ◌≡◌, refl, sym, ap, ◌∙◌, true, false, Option, some, none, List, [], ◌∷◌,
  ◌++◌, arith, ltb, if◌then◌else◌, Bytes, codes, length, take, map, All, length-append,
  take-of-length-le, if_true,
}
use shclaw.Irc.Client.{Event, sent, broadcast, Irc, irc_sendf, wire, blank_breaks}
use shclaw.Irc.Reply.{privmsg_text, truncation, prefix_of, irc_reply}
use shclaw.Irc.Reply.Chunks.{
  chunks, send_chunks, concat, strip_breaks, irc_reply-loop, reply_loop-chunks, chunks-All,
  concat-chunks,
}

-- A piece as one line of the protocol, its carriage returns as spaces
abbrev pub line_of : Irc → Option Bytes → Bytes → Event
line_of irc prefix s = sent (blank_breaks (privmsg_text irc prefix s) ++ b'\r' ∷ b'\n' ∷ [])

-- The first twenty pieces, and a notice where there are more
abbrev pub lines_of : Irc → Option Bytes → ℕ → List Bytes → List Event
lines_of irc prefix room pieces =
    map (line_of irc prefix) (take room pieces)
    ++ (if ltb room (length pieces) then line_of irc prefix truncation ∷ [] else [])

length-privmsg_text :
    (irc : Irc) (prefix : Option Bytes) (s : Bytes)
    → length (privmsg_text irc prefix s) ≡ length (privmsg_text irc prefix []) + length s
unfolding privmsg_text
length-privmsg_text irc none s =
    omega
      (arith, length-append irc.channel (codes " :" ++ s), length-append irc.channel (codes " :"))
length-privmsg_text irc (some a) s = omega (
  arith,
  length-append irc.channel (codes " :" ++ ((a ++ codes ": ") ++ s)),
  length-append irc.channel (codes " :" ++ ((a ++ codes ": ") ++ [])),
  length-append (a ++ codes ": ") s,
  length-append (a ++ codes ": ") [],
)

irc_sendf-whole :
    (irc : Irc) (prefix : Option Bytes) (s : Bytes)
    → irc.up ≡ true
    → length (privmsg_text irc prefix []) ≤ 109
    → length s ≤ 400
    → irc_sendf irc (privmsg_text irc prefix s) ≡ line_of irc prefix s ∷ []
unfolding irc_sendf wire
irc_sendf-whole irc prefix s up h l =
    if_true irc.up _ _ up
    ∙ ap (λ x. sent (blank_breaks x ++ b'\r' ∷ b'\n' ∷ []) ∷ [])
        (take-of-length-le 509 (privmsg_text irc prefix s)
          (omega (arith, length-privmsg_text irc prefix s)))

send_chunks-lines :
    (irc : Irc) (prefix : Option Bytes) (lines room : ℕ) (ps : List Bytes)
    → irc.up ≡ true
    → length (privmsg_text irc prefix []) ≤ 109
    → lines + room ≡ 20
    → All (λ (p : Bytes). length p ≤ 400) ps
    → send_chunks irc prefix lines ps ≡ lines_of irc prefix room ps
unfolding send_chunks
send_chunks-lines irc prefix lines zero [] up h e a = refl
send_chunks-lines irc prefix lines (suc room) [] up h e a =
    let no_more : ltb (suc room) 0 ≡ false = ground arith in rw (no_more, send_chunks) refl
send_chunks-lines irc prefix lines zero (p ∷ ps) up h e a =
    let full : ltb 20 (lines + 1) ≡ true = ground arith in
    let some_left : ltb 0 (suc (length ps)) ≡ true = ground arith in
    rw (full, send_chunks)
      (irc_sendf-whole irc prefix truncation up h (omega arith) ∙ sym (if_true _ _ _ some_left))
send_chunks-lines irc prefix lines (suc room) (p ∷ ps) up h e a =
    let free : ltb 20 (lines + 1) ≡ false = ground arith in
    let more : ltb (suc room) (suc (length ps)) ≡ ltb room (length ps) = ground arith in
    rw
      (
        free,
        irc_sendf-whole irc prefix p up h a.0,
        send_chunks-lines irc prefix (lines + 1) room ps up h (omega arith) a.1,
        more,
        send_chunks,
      )
      refl

-- While the link is up, and where "PRIVMSG", the channel and the name take at most 109 bytes of a
-- line, so that none is cut: a reply is shown to the terminal clients whole, and on the channel as
-- the text without its line feeds, in pieces of at most 400 bytes that are sent in order, each in a
-- line of its own and under the agent's name unless the hub speaks; of more than twenty pieces the
-- first twenty are sent, and a notice. A carriage return or line feed within a line is sent as a
-- space.
pub irc_reply_lem :
    (irc : Irc) (agent : Option Bytes) (c : ℕ) (s : Bytes)
    → irc.up ≡ true
    → length (privmsg_text irc (prefix_of irc agent) []) ≤ 109
    → (pieces : List Bytes) × (irc_reply irc agent (c ∷ s)
        ≡ broadcast agent (c ∷ s) ∷ lines_of irc (prefix_of irc agent) 20 pieces)
      × (concat pieces ≡ strip_breaks (c ∷ s))
      × All (λ (p : Bytes). length p ≤ 400) pieces
irc_reply_lem irc agent c s up h =
    let prefix = prefix_of irc agent in
    let pieces : List Bytes = chunks (suc (length (c ∷ s))) (c ∷ s) in
    (
      pieces,
      irc_reply-loop irc agent c s
          ∙ ap (◌∷◌ (broadcast agent (c ∷ s))) (
              if_true irc.up _ _ up
              ∙ reply_loop-chunks _ 0 irc prefix (c ∷ s)
              ∙ send_chunks-lines irc prefix 0 20 pieces up h (omega arith) (chunks-All _ (c ∷ s))),
      concat-chunks _ (c ∷ s) (omega arith),
      chunks-All _ (c ∷ s),
    )
