-- ===== src/Irc/Reply.antt =====
-- `irc_reply` and `irc_action` of src/irc.c: a text cut into protocol lines of at most 400 bytes,
-- twenty of them at most. The pauses between them are not modelled.
pub mod Chunks
pub mod Shown
use shclaw.Base.{
  ℕ, zero, suc, ◌+◌, ◌-◌, Bool, true, false, not, ◌&&◌, ◌||◌, Option, none, some, List, [], ◌∷◌,
  ◌++◌, ltb, ◌==◌, if◌then◌else◌, Bytes, codes, length, take, drop, snprintf, strcmp_eq, cspn,
}
use shclaw.Util.Utf8.{is_cont, byte}
use shclaw.Irc.Client.{Event, broadcast, Irc, irc_sendf}

-- `while (chunk > 1 && chunk < len && (p[chunk] & 0xC0) == 0x80) chunk--`
unfoldable pub shrink : Bytes → ℕ → ℕ → ℕ
shrink p len zero = 0
shrink p len (suc zero) = 1
shrink p len (suc (suc k)) =
    if ltb (suc (suc k)) len && is_cont (byte p (suc (suc k)))
    then shrink p len (suc k)
    else suc (suc k)

-- The length of the line at `p`, and of the part of it that is sent
abbrev pub line_length : Bytes → ℕ
line_length p = length (cspn (codes "\n") p)

unfoldable pub chunk_length : Bytes → ℕ
chunk_length p = let len = line_length p in shrink p len (if ltb 400 len then 400 else len)

abbrev pub drop_break : Bytes → Bytes
drop_break [] = []
drop_break (c ∷ s) = if c == b'\n' then s else c ∷ s

-- `p += chunk; if (chunk == len && *p == '\n') p++`
unfoldable pub advance : Bytes → Bytes
advance p =
    if chunk_length p == line_length p
    then drop_break (drop (chunk_length p) p)
    else drop (chunk_length p) p

-- "PRIVMSG <channel> :<agent>: <text>", without the agent for the hub
unfoldable pub privmsg_text : Irc → Option Bytes → Bytes → Bytes
privmsg_text irc prefix text =
    codes "PRIVMSG "
    ++ (irc.channel
        ++ (codes " :" ++ (elim prefix [ none ↦ [] | some a ↦ a ++ codes ": " ] ++ text)))

abbrev pub truncation : Bytes
truncation = codes "[... truncated, full reply in the TUI and logs]"

-- The loop, `lines` lines having been sent
unfoldable pub reply_loop : ℕ → ℕ → Irc → Option Bytes → Bytes → List Event
reply_loop zero lines irc prefix p = []
reply_loop (suc fuel) lines irc prefix [] = []
reply_loop (suc fuel) lines irc prefix (c ∷ p) =
    let text = take (chunk_length (c ∷ p)) (c ∷ p) in
    let skipped = reply_loop fuel lines irc prefix (advance (c ∷ p)) in
    let shown =
      irc_sendf irc (privmsg_text irc prefix text)
      ++ reply_loop fuel (lines + 1) irc prefix (advance (c ∷ p)) in
    let cut = irc_sendf irc (privmsg_text irc prefix truncation) in
    if chunk_length (c ∷ p) == 0 then skipped else if ltb 20 (lines + 1) then cut else shown

unfoldable pub prefix_of : Irc → Option Bytes → Option Bytes
prefix_of irc none = none
prefix_of irc (some []) = none
prefix_of irc (some (c ∷ s)) = if strcmp_eq (c ∷ s) irc.hub then none else some (c ∷ s)

-- Every round takes a byte at least: the fuel is one more than the bytes. `irc->ctx` is set, as the
-- daemon sets it at its start: without it the terminal clients would not be told.
unfoldable pub irc_reply : Irc → Option Bytes → Bytes → List Event
unfolding reply_loop prefix_of privmsg_text advance chunk_length shrink is_cont cspn strcmp_eq
    irc_sendf
irc_reply irc agent [] = []
irc_reply irc agent (c ∷ s) =
    broadcast agent (c ∷ s)
    ∷ (if irc.up then reply_loop (suc (length (c ∷ s))) 0 irc (prefix_of irc agent) (c ∷ s) else [])

unfoldable pub action_line : Option Bytes → Bytes → Bytes
action_line none text = snprintf 512 (codes "* system " ++ text)
action_line (some a) text = snprintf 512 (codes "* " ++ (a ++ (b' ' ∷ text)))

-- "PRIVMSG <channel> :\x01ACTION <line>\x01", without the star of the line
unfoldable pub action_text : Irc → Bytes → Bytes
action_text irc line =
    codes "PRIVMSG "
    ++ (irc.channel
        ++ (codes " :" ++ (1 ∷ (codes "ACTION " ++ (take 400 (drop 2 line) ++ (1 ∷ []))))))

unfoldable pub irc_action : Irc → Option Bytes → Bytes → List Event
irc_action irc agent [] = []
irc_action irc agent (c ∷ s) =
    broadcast none (action_line agent (c ∷ s))
    ∷ (if irc.up then irc_sendf irc (action_text irc (action_line agent (c ∷ s))) else [])
