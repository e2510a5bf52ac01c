-- ===== src/Irc/Client/Framing.antt =====
-- The lines of the protocol do not depend on how the bytes arrive.
use shclaw.Base.{
  ℕ, suc, ◌+◌, ◌-◌, ◌≤◌, ◌≡◌, refl, false, inl, inr, Option, none, some, List, [], ◌∷◌, ◌++◌, arith,
  ltb, ◌==◌, Bytes, length, append_assoc, length-append, Bool-cases, Option-cases, List-cases,
}
use shclaw.Irc.Client.{
  Event, Irc, irc_sendf, Parsed, parse_line, Kind, ping, welcome, nick_in_use, join, privmsg, other,
  on_kind, kind_of, on_privmsg, on_welcome, on_join, handle_line, after_colon, handle_lines,
  clean_line, split_lines, push_front, joined, irc_receive,
}
use shclaw.Irc.Client.Wire.{on_command-kind}

-- Two framings one behind the other
abbrev continue : List Bytes × Bytes → Bytes → List Bytes × Bytes
continue (ls, rest) b = let more = split_lines (rest ++ b) in (ls ++ more.0, more.1)

push_front-continue :
    (c : ℕ) (m : List Bytes × Bytes) (b : Bytes)
    → (c == b'\n') ≡ false
    → push_front c (continue m b) ≡ continue (push_front c m) b
unfolding push_front split_lines
push_front-continue c ([], rest) b e = rw e
push_front-continue c (l ∷ ls, rest) b e = refl

pub split_lines-append : (a b : Bytes) → split_lines (a ++ b) ≡ continue (split_lines a) b
unfolding split_lines
split_lines-append [] b = refl
split_lines-append (c ∷ s) b = elim (Bool-cases (c == b'\n')) [
  | inl e ↦ rw e (rw (split_lines-append s b))
  | inr e ↦ rw e (rw (split_lines-append s b) (push_front-continue c (split_lines s) b e))
]

length-push_front : (c : ℕ) (m : List Bytes × Bytes) → length (push_front c m).1 ≤ suc (length m.1)
unfolding push_front
length-push_front c ([], rest) = omega arith
length-push_front c (l ∷ ls, rest) = omega arith

length-split_lines : (s : Bytes) → length (split_lines s).1 ≤ length s
unfolding split_lines
length-split_lines [] = omega arith
length-split_lines (c ∷ s) = elim (Bool-cases (c == b'\n')) [
  | inl e ↦ rw e (omega (arith, length-split_lines s))
  | inr e ↦ rw e (omega (arith, length-split_lines s, length-push_front c (split_lines s)))
]

-- The fields that a read writes; no line depends on them.
abbrev stamp : ℕ → Bytes → Irc → Irc
stamp now rest irc = record irc { readbuf = rest; last_rx = now; pinged = false }

abbrev stamped : ℕ → Bytes → Irc × List Event → Irc × List Event
stamped now rest r = (stamp now rest r.0, r.1)

on_kind-stamp :
    (now : ℕ) (rest : Bytes) (k : Kind) (irc : Irc) (p : Parsed)
    → on_kind k (stamp now rest irc) p ≡ stamped now rest (on_kind k irc p)
unfolding on_kind on_welcome on_join on_privmsg irc_sendf
on_kind-stamp now rest ping irc p = refl
on_kind-stamp now rest welcome irc p = refl
on_kind-stamp now rest nick_in_use irc p = refl
on_kind-stamp now rest join irc p = refl
on_kind-stamp now rest privmsg irc p = privmsg_same (after_colon p.params)
  where
    privmsg_same :
        (text : Option Bytes)
        → ◌≡◌ {A = Irc × List Event}
            (stamp now rest irc, on_privmsg (stamp now rest irc) p.from text)
            (stamp now rest irc, on_privmsg irc p.from text)
    privmsg_same none = refl
    privmsg_same (some text) = refl
on_kind-stamp now rest other irc p = refl

handle_line-stamp :
    (now : ℕ) (rest : Bytes) (irc : Irc) (line : Bytes)
    → handle_line (stamp now rest irc) line ≡ stamped now rest (handle_line irc line)
unfolding handle_line
handle_line-stamp now rest irc line = elim (Option-cases (parse_line line)) [
  | inl e ↦ rw (e, handle_line)
  | inr (p, e) ↦
      rw (e, handle_line)
        (rw (on_command-kind (stamp now rest irc) p, on_command-kind irc p)
          (on_kind-stamp now rest (kind_of p.command) irc p))
]

handle_lines-stamp :
    (now : ℕ) (rest : Bytes) (ls : List Bytes) (irc : Irc)
    → handle_lines (stamp now rest irc) ls ≡ stamped now rest (handle_lines irc ls)
unfolding handle_lines
handle_lines-stamp now rest [] irc = refl
handle_lines-stamp now rest (l ∷ ls) irc = elim (List-cases (clean_line l)) [
  | inl e ↦ rw (e, handle_lines) (handle_lines-stamp now rest ls irc)
  | inr (c, s, e) ↦
      rw (e, handle_lines)
        (rw (handle_line-stamp now rest irc (c ∷ s))
          (rw (handle_lines-stamp now rest ls (handle_line irc (c ∷ s)).0)))
]

-- Two runs, one after the other
abbrev pub followed : Irc × List Event → (Irc → Irc × List Event) → Irc × List Event
followed r f = ((f r.0).0, r.1 ++ (f r.0).1)

handle_lines-append :
    (a b : List Bytes) (irc : Irc)
    → handle_lines irc (a ++ b) ≡ followed (handle_lines irc a) (λ i. handle_lines i b)
unfolding handle_lines
handle_lines-append [] b irc = refl
handle_lines-append (l ∷ a) b irc = elim (List-cases (clean_line l)) [
  | inl e ↦ rw (e, handle_lines) (handle_lines-append a b irc)
  | inr (c, s, e) ↦
      rw (e, handle_lines)
        (rw (handle_lines-append a b (handle_line irc (c ∷ s)).0) (rw append_assoc))
]

joined-fits :
    (readbuf chunk : Bytes)
    → length readbuf + length chunk ≤ 4095
    → joined readbuf chunk ≡ readbuf ++ chunk
unfolding joined
joined-fits readbuf chunk h =
    rw (let room : ltb (4096 - length readbuf - 1) (length chunk) ≡ false = ground arith in room)

irc_receive-lines :
    (now : ℕ) (irc : Irc) (chunk : Bytes)
    → length irc.readbuf + length chunk ≤ 4095
    → irc_receive now irc chunk
      ≡ stamped now
          (split_lines (irc.readbuf ++ chunk)).1
          (handle_lines irc (split_lines (irc.readbuf ++ chunk)).0)
unfolding irc_receive
irc_receive-lines now irc chunk h =
    rw (joined-fits irc.readbuf chunk h)
      (rw (handle_lines-stamp now irc.readbuf (split_lines (irc.readbuf ++ chunk)).0 irc))

-- Where the bytes fit the buffer, two reads one after the other leave the client in the state, and
-- make it do in order what, one read of all the bytes would: no line is lost, cut or handled twice
-- because of where the network splits the stream.
pub irc_receive-append :
    (now : ℕ) (irc : Irc) (a b : Bytes)
    → length irc.readbuf + length a + length b ≤ 4095
    → irc_receive now irc (a ++ b) ≡ followed (irc_receive now irc a) (λ i. irc_receive now i b)
irc_receive-append now irc a b h =
    let first = split_lines (irc.readbuf ++ a) in
    let after = handle_lines irc first.0 in
    rw (irc_receive-lines now irc (a ++ b) (omega (arith, length-append a b))) (
      rw (irc_receive-lines now irc a (omega arith)) (
        rw
          (irc_receive-lines now (stamp now first.1 after.0) b
            (omega (arith, length-split_lines (irc.readbuf ++ a), length-append irc.readbuf a)))
          (rw (← append_assoc irc.readbuf a b) (
            rw (split_lines-append (irc.readbuf ++ a) b) (
              rw (handle_lines-append first.0 (split_lines (first.1 ++ b)).0 irc)
                (rw (handle_lines-stamp now first.1 (split_lines (first.1 ++ b)).0 after.0)))))))
