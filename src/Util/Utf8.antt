-- ===== src/Util/Utf8.antt =====
-- `utf8_prefix` and `utf8_scrub` of src/util.c.
pub mod Valid
pub mod Prefix
pub mod Scrub
use shclaw.Base.{
  ℕ, zero, suc, ◌+◌, ◌-◌, ◌/◌, ◌%◌, Bool, true, false, not, ◌&&◌, Option, none, some, List, [], ◌∷◌,
  ltb, ◌==◌, if◌then◌else◌, Bytes, length,
}
use Prim.Native.Nat.{min}

-- `(c & 0xC0) == 0x80`: the two high bits of the byte are 1 and 0
unfoldable pub is_cont : ℕ → Bool
is_cont c = c / 64 % 4 == 2

-- `s[i]`, the terminating NUL and what a read past it never reaches included
abbrev pub byte : Bytes → ℕ → ℕ
byte [] i = 0
byte (c ∷ s) zero = c
byte (c ∷ s) (suc i) = byte s i

-- `while (n > 0 && (s[n] & 0xC0) == 0x80) n--`
unfoldable pub back_up : Bytes → ℕ → ℕ
back_up s zero = 0
back_up s (suc n) = if is_cont (byte s (suc n)) then back_up s n else suc n

unfoldable pub utf8_prefix : Bytes → ℕ → ℕ
unfolding back_up is_cont
utf8_prefix s max = let n = min (length s) max in if n == max then back_up s n else n

-- The number of bytes that follow the first one; `none` is the -1 of the source.
unfoldable pub followers : ℕ → Option ℕ
followers c =
    if ltb c 0x80
    then some 0
    else if ltb c 0xC2
    then none
    else if ltb c 0xE0
    then some 1
    else if ltb c 0xF0
    then some 2
    else if ltb c 0xF5
    then some 3
    else none

-- `for (i = 1; ok && i <= n; i++) ok = (p[i] & 0xC0) == 0x80`
unfoldable pub all_cont : ℕ → Bytes → Bool
all_cont zero s = true
all_cont (suc n) [] = false
all_cont (suc n) (c ∷ s) = is_cont c && all_cont n s

-- No overlong forms, surrogates or code points past U+10FFFF: the second byte after a first one.
unfoldable pub second_ok : ℕ → ℕ → ℕ → Bool
second_ok n c d =
    (if n == 2 then not (c == 0xE0 && ltb d 0xA0) && not (c == 0xED && ltb 0x9F d) else true)
    && (if n == 3 then not (c == 0xF0 && ltb d 0x90) && not (c == 0xF4 && ltb 0x8F d) else true)

-- The length of the good sequence that starts at `c`, less one; `none` where `ok` is 0.
unfoldable pub sequence : ℕ → Bytes → Option ℕ
sequence c s = elim (followers c) [
  | none ↦ none
  | some n ↦ if all_cont n s && second_ok n c (byte s 0) then some n else none
]

-- The loop, `keep` being the bytes that `p += n + 1` still has to pass.
unfoldable pub scrub : ℕ → Bytes → Bytes
scrub keep [] = []
scrub (suc keep) (c ∷ s) = c ∷ scrub keep s
scrub zero (c ∷ s) = elim (sequence c s) [ none ↦ b'?' ∷ scrub zero s | some n ↦ c ∷ scrub n s ]

unfoldable pub utf8_scrub : Bytes → Bytes
unfolding scrub sequence followers all_cont second_ok is_cont
utf8_scrub s = scrub 0 s
