-- ===== src/Irc/Reply/Chunks.antt =====
-- How `irc_reply` of src/irc.c cuts a text into chunks.
use shclaw.Base.{
  ℕ, zero, suc, ◌+◌, ◌≤◌, ◌<◌, ◌≡◌, refl, sym, ap, ◌∙◌, ◌&&◌, inl, inr, Option, List, [], ◌∷◌, ◌++◌,
  arith, ltb, ◌==◌, if◌then◌else◌, Bytes, length, take, drop, All, cspn, length-take, length-drop,
  Bool-cases, mem_byte,
}
use shclaw.Util.Utf8.{is_cont, byte}
use shclaw.Irc.Client.{Event, broadcast, Irc, irc_sendf}
use shclaw.Irc.Reply.{
  shrink, line_length, chunk_length, advance, privmsg_text, truncation, reply_loop, prefix_of,
  irc_reply, drop_break,
}

shrink_bounds : (p : Bytes) (len k : ℕ) → (shrink p len k ≤ k) × (0 < k → 0 < shrink p len k)
unfolding shrink
shrink_bounds p len zero = (omega arith, λ h. h)
shrink_bounds p len (suc zero) = (omega arith, λ h. h)
shrink_bounds p len (suc (suc k)) =
    elim (Bool-cases (ltb (suc (suc k)) len && is_cont (byte p (suc (suc k))))) [
      | inl e ↦ rw e (
        omega (arith, (shrink_bounds p len (suc k)).0),
        λ h. (shrink_bounds p len (suc k)).1 (omega arith),
      )
      | inr e ↦ rw e (omega arith, λ h. omega arith)
    ]

record ChunkBounds (chunk len : ℕ) : Type 0 where
  line : chunk ≤ len
  cap : chunk ≤ 400
  some_byte : 0 < len → 0 < chunk

shrink-ChunkBounds :
    (p : Bytes) (len k : ℕ)
    → k ≤ len
    → k ≤ 400
    → (0 < len → 0 < k)
    → ChunkBounds (shrink p len k) len
shrink-ChunkBounds p len k a b c = record {
  line = omega (arith, (shrink_bounds p len k).0);
  cap = omega (arith, (shrink_bounds p len k).0);
  some_byte = λ h. (shrink_bounds p len k).1 (c h);
}

chunk_length-ChunkBounds : (p : Bytes) → ChunkBounds (chunk_length p) (line_length p)
unfolding chunk_length
chunk_length-ChunkBounds p =
    let len = line_length p in
    shrink-ChunkBounds p len (if ltb 400 len then 400 else len) (ground arith) (ground arith)
      (λ h. ground arith)

-- The text without its line breaks
pub strip_breaks : Bytes → Bytes
strip_breaks [] = []
strip_breaks (c ∷ s) = let rest = strip_breaks s in if c == b'\n' then rest else c ∷ rest

pub concat : List Bytes → Bytes
concat [] = []
concat (s ∷ ss) = s ++ concat ss

-- The chunks of a text, and how they are sent: in order, twenty of them, then a notice.
pub chunks : ℕ → Bytes → List Bytes
chunks zero p = []
chunks (suc fuel) [] = []
chunks (suc fuel) (c ∷ p) =
    let rest = chunks fuel (advance (c ∷ p)) in
    if chunk_length (c ∷ p) == 0 then rest else take (chunk_length (c ∷ p)) (c ∷ p) ∷ rest

unfoldable pub send_chunks : Irc → Option Bytes → ℕ → List Bytes → List Event
send_chunks irc prefix lines [] = []
send_chunks irc prefix lines (s ∷ ss) =
    if ltb 20 (lines + 1)
    then irc_sendf irc (privmsg_text irc prefix truncation)
    else irc_sendf irc (privmsg_text irc prefix s) ++ send_chunks irc prefix (lines + 1) ss

pub reply_loop-chunks :
    (fuel lines : ℕ) (irc : Irc) (prefix : Option Bytes) (p : Bytes)
    → reply_loop fuel lines irc prefix p ≡ send_chunks irc prefix lines (chunks fuel p)
unfolding reply_loop chunks send_chunks
reply_loop-chunks zero lines irc prefix p = refl
reply_loop-chunks (suc fuel) lines irc prefix [] = refl
reply_loop-chunks (suc fuel) lines irc prefix (c ∷ p) =
    elim (Bool-cases (chunk_length (c ∷ p) == 0)) [
      | inl e ↦ rw e (reply_loop-chunks fuel lines irc prefix (advance (c ∷ p)))
      | inr e ↦ rw e (elim (Bool-cases (ltb 20 (lines + 1))) [
        | inl full ↦ rw full
        | inr room ↦ rw room (rw (reply_loop-chunks fuel (lines + 1) irc prefix (advance (c ∷ p))))
      ])
    ]

pub chunks-All : (fuel : ℕ) (p : Bytes) → All (λ (s : Bytes). length s ≤ 400) (chunks fuel p)
unfolding chunks
chunks-All zero p = tt
chunks-All (suc fuel) [] = tt
chunks-All (suc fuel) (c ∷ p) = elim (Bool-cases (chunk_length (c ∷ p) == 0)) [
  | inl e ↦ rw e (chunks-All fuel (advance (c ∷ p)))
  | inr e ↦ rw e (
    omega
        (arith, length-take (chunk_length (c ∷ p)) (c ∷ p), (chunk_length-ChunkBounds (c ∷ p)).cap),
    chunks-All fuel (advance (c ∷ p)),
  )
]

strip_breaks-line :
    (n : ℕ) (p : Bytes) → n ≤ line_length p → strip_breaks p ≡ take n p ++ strip_breaks (drop n p)
unfolding strip_breaks cspn mem_byte
strip_breaks-line zero p h = refl
strip_breaks-line (suc n) [] h = refl
strip_breaks-line (suc n) (c ∷ p) h = elim (Bool-cases (c == b'\n')) [
  | inl e ↦ absurd (ground arith)
  | inr e ↦ rw e (ap (◌∷◌ c) (strip_breaks-line n p (ground arith)))
]

strip_breaks-drop_break : (s : Bytes) → strip_breaks (drop_break s) ≡ strip_breaks s
unfolding strip_breaks
strip_breaks-drop_break [] = refl
strip_breaks-drop_break (c ∷ s) = ground arith

strip_breaks-advance :
    (p : Bytes) → strip_breaks p ≡ take (chunk_length p) p ++ strip_breaks (advance p)
unfolding advance
strip_breaks-advance p =
    let n = chunk_length p in
    let cut = strip_breaks-line n p (chunk_length-ChunkBounds p).line in
    elim (Bool-cases (chunk_length p == line_length p)) [
      | inl e ↦ rw e (cut ∙ ap (λ r. take n p ++ r) (sym (strip_breaks-drop_break (drop n p))))
      | inr e ↦ rw e cut
    ]

length-drop_break : (s : Bytes) → length (drop_break s) ≤ length s
length-drop_break [] = omega arith
length-drop_break (c ∷ s) = ground arith

-- At a line break the line is empty, and the break is passed.
length-drop_break_empty :
    (c : ℕ) (p : Bytes) → line_length (c ∷ p) ≡ 0 → length (drop_break (c ∷ p)) ≤ length p
unfolding cspn mem_byte
length-drop_break_empty c p h = ground arith

length-advance : (c : ℕ) (p : Bytes) → length (advance (c ∷ p)) ≤ length p
unfolding advance
length-advance c p =
    let n = chunk_length (c ∷ p) in
    let b = chunk_length-ChunkBounds (c ∷ p) in
    elim (Bool-cases (n == line_length (c ∷ p))) [
      | inl e ↦ rw e (elim (Bool-cases (n == 0)) [
        | inl z ↦
            let at : n ≡ 0 = ground arith in rw at (length-drop_break_empty c p (ground arith))
        | inr z ↦ omega (
          arith,
          length-drop_break (drop n (c ∷ p)),
          length-drop n (c ∷ p),
          let pos : 0 < n = ground arith in pos,
        )
      ])
      | inr e ↦ rw e (omega (arith, length-drop n (c ∷ p), b.some_byte (ground (arith, b.line))))
    ]

pub concat-chunks :
    (fuel : ℕ) (p : Bytes) → length p < fuel → concat (chunks fuel p) ≡ strip_breaks p
unfolding chunks concat
concat-chunks zero p h = absurd (omega arith)
concat-chunks (suc fuel) [] h = unfold strip_breaks in refl
concat-chunks (suc fuel) (c ∷ p) h =
    let ih = concat-chunks fuel (advance (c ∷ p)) (omega (arith, length-advance c p)) in
    let cut = strip_breaks-advance (c ∷ p) in
    elim (Bool-cases (chunk_length (c ∷ p) == 0)) [
      | inl e ↦ let at : chunk_length (c ∷ p) ≡ 0 = ground arith in rw e (ih ∙ sym (rw at at cut))
      | inr e ↦ rw e (rw ih (sym cut))
    ]

pub irc_reply-loop :
    (irc : Irc) (agent : Option Bytes) (c : ℕ) (s : Bytes)
    → irc_reply irc agent (c ∷ s)
      ≡ broadcast agent (c ∷ s)
        ∷ (if irc.up
            then reply_loop (suc (length (c ∷ s))) 0 irc (prefix_of irc agent) (c ∷ s)
            else [])
unfolding irc_reply
irc_reply-loop irc agent c s = refl
