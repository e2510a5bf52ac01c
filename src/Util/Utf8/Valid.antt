-- ===== src/Util/Utf8/Valid.antt =====
-- Well-formed UTF-8, row by row as the Unicode standard tabulates it (table 3-7).
use shclaw.Base.{ℕ, ◌≤◌, ◌<◌, ◌≡◌, refl, true, false, [], ◌∷◌, arith, Bytes}
use shclaw.Util.Utf8.{is_cont, byte}

abbrev pub Between : ℕ → ℕ → ℕ → Type 0
Between lo hi c = (lo ≤ c) × (c ≤ hi)

pub data IsUtf8 : Bytes → Type 0 where
  done : IsUtf8 []
  one : {s : Bytes} (a : ℕ) → a < 0x80 → IsUtf8 s → IsUtf8 (a ∷ s)
  two :
      {s : Bytes} (a b : ℕ)
      → Between 0xC2 0xDF a
      → Between 0x80 0xBF b
      → IsUtf8 s
      → IsUtf8 (a ∷ b ∷ s)
  three_e0 :
      {s : Bytes} (a b c : ℕ)
      → a ≡ 0xE0
      → Between 0xA0 0xBF b
      → Between 0x80 0xBF c
      → IsUtf8 s
      → IsUtf8 (a ∷ b ∷ c ∷ s)
  three :
      {s : Bytes} (a b c : ℕ)
      → Between 0xE1 0xEC a
      → Between 0x80 0xBF b
      → Between 0x80 0xBF c
      → IsUtf8 s
      → IsUtf8 (a ∷ b ∷ c ∷ s)
  three_ed :
      {s : Bytes} (a b c : ℕ)
      → a ≡ 0xED
      → Between 0x80 0x9F b
      → Between 0x80 0xBF c
      → IsUtf8 s
      → IsUtf8 (a ∷ b ∷ c ∷ s)
  three_ee :
      {s : Bytes} (a b c : ℕ)
      → Between 0xEE 0xEF a
      → Between 0x80 0xBF b
      → Between 0x80 0xBF c
      → IsUtf8 s
      → IsUtf8 (a ∷ b ∷ c ∷ s)
  four_f0 :
      {s : Bytes} (a b c d : ℕ)
      → a ≡ 0xF0
      → Between 0x90 0xBF b
      → Between 0x80 0xBF c
      → Between 0x80 0xBF d
      → IsUtf8 s
      → IsUtf8 (a ∷ b ∷ c ∷ d ∷ s)
  four :
      {s : Bytes} (a b c d : ℕ)
      → Between 0xF1 0xF3 a
      → Between 0x80 0xBF b
      → Between 0x80 0xBF c
      → Between 0x80 0xBF d
      → IsUtf8 s
      → IsUtf8 (a ∷ b ∷ c ∷ d ∷ s)
  four_f4 :
      {s : Bytes} (a b c d : ℕ)
      → a ≡ 0xF4
      → Between 0x80 0x8F b
      → Between 0x80 0xBF c
      → Between 0x80 0xBF d
      → IsUtf8 s
      → IsUtf8 (a ∷ b ∷ c ∷ d ∷ s)

-- Well-formed text never starts with a continuation byte.
pub IsUtf8-start : {s : Bytes} → IsUtf8 s → is_cont (byte s 0) ≡ false
unfolding is_cont
IsUtf8-start done = refl
IsUtf8-start (one a h t) = ground arith
IsUtf8-start (two a b h k t) = ground arith
IsUtf8-start (three_e0 a b c h k l t) = ground arith
IsUtf8-start (three a b c h k l t) = ground arith
IsUtf8-start (three_ed a b c h k l t) = ground arith
IsUtf8-start (three_ee a b c h k l t) = ground arith
IsUtf8-start (four_f0 a b c d h k l m t) = ground arith
IsUtf8-start (four a b c d h k l m t) = ground arith
IsUtf8-start (four_f4 a b c d h k l m t) = ground arith

pub is_cont_of : (b : ℕ) → Between 0x80 0xBF b → is_cont b ≡ true
unfolding is_cont
is_cont_of b h = ground arith

pub cont_range : (b : ℕ) → b < 256 → is_cont b ≡ true → Between 0x80 0xBF b
unfolding is_cont
cont_range b l h = ground arith
