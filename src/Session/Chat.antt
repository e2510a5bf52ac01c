-- ===== src/Session/Chat.antt =====
-- The conversation log of src/session.c (`chat_*`) and its record in include/tc.h: a ring of
-- TC_CHAT_LINES lines. Times are seconds since the epoch; `idle` is not negative.
pub mod Ring
pub mod Text
use shclaw.Base.{
  ℕ, zero, suc, ◌+◌, ◌-◌, ◌/◌, ◌%◌, ◌^◌, Bool, true, false, not, ◌&&◌, ◌||◌, Option, none, some,
  List, [], ◌∷◌, ◌++◌, map, ltb, leb, ◌==◌, if◌then◌else◌, Bytes, codes, length, take, snprintf,
  strcmp_eq,
}
use shclaw.Util.Buf.{append_all}
use shclaw.Util.Utf8.{utf8_prefix}

abbrev pub chat_lines : ℕ
chat_lines = 20

abbrev pub chat_line : ℕ
chat_line = 320

pub record Line : Type 0 where
  pub seq : ℕ
  pub agent : Bytes
  pub text : Bytes

pub record ChatLog : Type 0 where
  pub lines : ℕ → Line
  pub n : ℕ
  pub next : ℕ
  pub seq : ℕ
  pub id : ℕ
  pub idle : ℕ
  pub last : ℕ

abbrev pub empty_line : Line
empty_line = record { seq = 0; agent = []; text = [] }

unfoldable pub chat_init : ℕ → ChatLog
chat_init idle_s = record {
  lines = λ k. empty_line;
  n = 0;
  next = 0;
  seq = 0;
  id = 0;
  idle = idle_s;
  last = 0;
}

-- The caller holds the lock. `now - last >= idle` in signed time.
unfoldable pub chat_expire : ℕ → ChatLog → ChatLog
chat_expire now c =
    if not (c.n == 0) && leb (c.last + c.idle) now
    then record c { n = 0; next = 0; id = (c.id + 1) % 2 ^ 32 }
    else c

-- `%02d` of a number below 100
abbrev pub two_digits : ℕ → Bytes
two_digits k = (48 + k / 10) ∷ (48 + k % 10) ∷ []

-- `if (*p == '\n' || *p == '\r') *p = ' '`
unfoldable pub one_line : Bytes → Bytes
one_line [] = []
one_line (c ∷ s) = (if c == b'\n' || c == b'\r' then b' ' else c) ∷ one_line s

-- The text of an entry: "HH:MM who: text" in `chat_line` bytes.
unfoldable pub line_text : ℕ → ℕ → Bytes → Bytes → Bytes
line_text hour min who text =
    let max = chat_line - 1 in
    let head =
      take max (two_digits hour ++ (b':' ∷ (two_digits min ++ (b' ' ∷ (who ++ codes ": "))))) in
    one_line (head ++ take (utf8_prefix text (max - length head)) text)

abbrev pub update : (ℕ → Line) → ℕ → Line → ℕ → Line
update f k v j = if j == k then v else f j

-- What is written at `next`, the log having been expired.
unfoldable pub chat_push : ℕ → Bytes → Bytes → ChatLog → ChatLog
chat_push now agent text c =
    let seq' = (c.seq + 1) % 2 ^ 32 in
    record c {
      lines = update c.lines c.next (record { seq = seq'; agent = snprintf 32 agent; text = text });
      n = if ltb c.n chat_lines then c.n + 1 else c.n;
      next = (c.next + 1) % chat_lines;
      seq = seq';
      last = now;
    }

-- `text` is `none` for NULL.
unfoldable pub chat_add : ℕ → ℕ → ℕ → ChatLog → Bytes → Bytes → Option Bytes → ChatLog
unfolding chat_expire chat_push line_text one_line utf8_prefix
chat_add now hour min c agent who none = c
chat_add now hour min c agent who (some []) = c
chat_add now hour min c agent who (some (t ∷ text)) =
    chat_push now agent (line_text hour min who (t ∷ text)) (chat_expire now c)

unfoldable pub chat_id : ℕ → ChatLog → ChatLog × ℕ
unfolding chat_expire
chat_id now c = let c' = chat_expire now c in (c', c'.id)

-- The lines that the loop of `chat_render` visits, `count` of them from slot `start`.
unfoldable pub slots : (ℕ → Line) → ℕ → ℕ → List Line
slots f start zero = []
slots f start (suc count) = f (start % chat_lines) ∷ slots f (start + 1) count

-- `k = (next - n + i + TC_CHAT_LINES) % TC_CHAT_LINES` for i from 0 to n - 1
unfoldable pub visited : ChatLog → List Line
unfolding slots
visited c = slots c.lines (c.next + chat_lines - c.n) c.n

-- The lines that are printed: after `after`, and not about `skip`.
unfoldable pub selected : ℕ → Option Bytes → List Line → List Bytes
selected after skip [] = []
selected after skip (l ∷ ls) =
    let rest = selected after skip ls in
    if ltb after l.seq && not (elim skip [ none ↦ false | some s ↦ strcmp_eq l.agent s ])
    then (l.text ++ (b'\n' ∷ [])) ∷ rest
    else rest

unfoldable pub chat_render : ChatLog → ℕ → Option Bytes → ℕ → Bytes × ℕ
unfolding visited selected append_all
chat_render c after skip sz = (append_all sz [] (selected after skip (visited c)), c.seq)
