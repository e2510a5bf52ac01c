-- ===== src/Session/Chat/Text.antt =====
-- The text of a chat entry fits its buffer and is one line.
use shclaw.Base.{
  ℕ, suc, ◌-◌, ◌≤◌, ◌≡◌, ◌≢◌, refl, ap, [], ◌∷◌, ◌++◌, arith, Bytes, codes, length, take, All,
  length-append, length-take-le,
}
use shclaw.Util.Utf8.{utf8_prefix}
use shclaw.Util.Utf8.Prefix.{utf8_prefix-le}
use shclaw.Session.Chat.{chat_line, one_line, line_text, two_digits}

abbrev pub IsLine : Bytes → Type 0
IsLine s = All (λ c. (c ≢ b'\n') × (c ≢ b'\r')) s

one_line-IsLine : (s : Bytes) → IsLine (one_line s)
unfolding one_line
one_line-IsLine [] = tt
one_line-IsLine (c ∷ s) = ((λ h. ground arith, λ h. ground arith), one_line-IsLine s)

length-one_line : (s : Bytes) → length (one_line s) ≡ length s
unfolding one_line
length-one_line [] = refl
length-one_line (c ∷ s) = ap suc (length-one_line s)

-- A cut of `text` by `utf8_prefix` behind a head that was itself cut.
length-cut :
    (max : ℕ) (head text : Bytes)
    → length (take max head ++ take (utf8_prefix text (max - length (take max head))) text) ≤ max
length-cut max head text =
    let room = max - length (take max head) in
    omega (
      arith,
      length-append (take max head) (take (utf8_prefix text room) text),
      length-take-le max head,
      length-take-le (utf8_prefix text room) text,
      (utf8_prefix-le text room).0,
    )

-- Whoever speaks and whatever is said, an entry fills at most 319 bytes of its 320-byte buffer
-- and holds no line break.
pub line_text_bounds :
    (hour min : ℕ) (who text : Bytes)
    → (length (line_text hour min who text) ≤ chat_line - 1) × IsLine (line_text hour min who text)
unfolding line_text
line_text_bounds hour min who text = (
  rw length-one_line (
      length-cut 319 (two_digits hour ++ (b':' ∷ (two_digits min ++ (b' ' ∷ (who ++ codes ": ")))))
        text),
  one_line-IsLine _,
)
