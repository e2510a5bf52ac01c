-- ===== src/Util/Utf8/Prefix.antt =====
-- `utf8_prefix` cuts between characters, and as late as it may.
use Prim.Native.Nat.{min, zero-le}
use shclaw.Base.{
  ℕ, zero, suc, ◌+◌, ◌≤◌, ◌<◌, ◌≡◌, refl, sym, ap, ◌∙◌, true, false, ◌&&◌, ◌⊎◌, inl, inr, [], ◌∷◌,
  ◌++◌, arith, ltb, ◌==◌, if◌then◌else◌, Bytes, length, take, take-of-length-le, Bool-cases, All,
}
use native.Mathlib.Nat.{zero-add, suc-add}
use shclaw.Util.Utf8.{is_cont, byte, back_up, utf8_prefix}
use shclaw.Util.Utf8.Valid.{
  IsUtf8, IsUtf8-start, is_cont_of, done, one, two, three_e0, three, three_ed, three_ee, four_f0,
  four, four_f4,
}

back_up-le : (s : Bytes) (n : ℕ) → back_up s n ≤ n
unfolding back_up
back_up-le s zero = omega arith
back_up-le s (suc n) = ground (arith, back_up-le s n)

pub utf8_prefix-le :
    (s : Bytes) (max : ℕ) → (utf8_prefix s max ≤ max) × (utf8_prefix s max ≤ length s)
unfolding utf8_prefix
utf8_prefix-le s max = ground (arith, back_up-le s (min (length s) max))

-- What one more byte in front does.
abbrev shifted : Bytes → ℕ → ℕ
shifted s n = if is_cont (byte s 0) && n == 0 then 0 else suc n

back_up-cons : (c : ℕ) (s : Bytes) (n : ℕ) → back_up (c ∷ s) (suc n) ≡ shifted s (back_up s n)
unfolding back_up
back_up-cons c s zero = ground arith
back_up-cons c s (suc n) = ground (arith, back_up-cons c s n)

byte-nil_zero : (s : Bytes) → length s ≡ 0 → is_cont (byte s 0) ≡ false
unfolding is_cont
byte-nil_zero [] h = refl
byte-nil_zero (c ∷ s) h = absurd (omega arith)

utf8_prefix-lt : (s : Bytes) (max : ℕ) → length s < max → utf8_prefix s max ≡ length s
unfolding utf8_prefix
utf8_prefix-lt s max h = ground arith

utf8_prefix-ge : (s : Bytes) (max : ℕ) → max ≤ length s → utf8_prefix s max ≡ back_up s max
unfolding utf8_prefix
utf8_prefix-ge s max h = rw (let e : min (length s) max ≡ max = omega arith in e) (ground arith)

shifted-length : (s : Bytes) → suc (length s) ≡ shifted s (length s)
unfolding is_cont
shifted-length [] = refl
shifted-length (c ∷ s) = ground arith

utf8_prefix-cons :
    (c : ℕ) (s : Bytes) (max : ℕ) → utf8_prefix (c ∷ s) (suc max) ≡ shifted s (utf8_prefix s max)
utf8_prefix-cons c s max = elim (Bool-cases (ltb (length s) max)) [
  | inl h ↦
      utf8_prefix-lt (c ∷ s) (suc max) (ground arith)
      ∙ shifted-length s
      ∙ ap (shifted s) (sym (utf8_prefix-lt s max (ground arith)))
  | inr h ↦
      utf8_prefix-ge (c ∷ s) (suc max) (ground arith)
      ∙ back_up-cons c s max
      ∙ ap (shifted s) (sym (utf8_prefix-ge s max (ground arith)))
]

utf8_prefix-zero : (s : Bytes) → utf8_prefix s 0 ≡ 0
utf8_prefix-zero s = omega (arith, (utf8_prefix-le s 0).0)

-- A cut of a character's bytes and what follows is before the character or behind it.
module _ (s : Bytes) (start : is_cont (byte s 0) ≡ false) where
  prefix_cut :
      (a : ℕ) (cs : Bytes) (max : ℕ)
      → All (λ c. is_cont c ≡ true) cs
      → (utf8_prefix (a ∷ (cs ++ s)) max ≡ 0)
        ⊎ ((k : ℕ) × (utf8_prefix (a ∷ (cs ++ s)) max ≡ suc (length cs + utf8_prefix s k)))
  prefix_cut a cs zero h = inl (utf8_prefix-zero (a ∷ (cs ++ s)))
  prefix_cut a [] (suc max) h = inr (max, utf8_prefix-cons a s max ∙ rw start (omega arith))
  prefix_cut a (b ∷ cs) (suc max) h = elim (prefix_cut b cs max h.1) [
    | inl e ↦ inl (utf8_prefix-cons a (b ∷ (cs ++ s)) max ∙ rw e (rw h.0))
    | inr (k, e) ↦ inr (k, utf8_prefix-cons a (b ∷ (cs ++ s)) max ∙ rw e (rw h.0 (ground arith)))
  ]

take-length-append : (cs s : Bytes) (n : ℕ) → take (length cs + n) (cs ++ s) ≡ cs ++ take n s
take-length-append [] s n = rw zero-add
take-length-append (c ∷ cs) s n = rw suc-add (ap (◌∷◌ c) (take-length-append cs s n))

module _ {s : Bytes} (valid : IsUtf8 s) (ih : (k : ℕ) → IsUtf8 (take (utf8_prefix s k) s)) where
  cut-IsUtf8 :
      (a : ℕ) (cs : Bytes)
      → All (λ c. is_cont c ≡ true) cs
      → ((t : Bytes) → IsUtf8 t → IsUtf8 (a ∷ (cs ++ t)))
      → (max : ℕ) → IsUtf8 (take (utf8_prefix (a ∷ (cs ++ s)) max) (a ∷ (cs ++ s)))
  cut-IsUtf8 a cs conts make max = elim (prefix_cut s (IsUtf8-start valid) a cs max conts) [
    | inl e ↦ rw e done
    | inr (k, e) ↦ rw e (rw take-length-append (make _ (ih k)))
  ]

prefix-IsUtf8 : {s : Bytes} → IsUtf8 s → (max : ℕ) → IsUtf8 (take (utf8_prefix s max) s)
prefix-IsUtf8 done max = rw (take-of-length-le {A = ℕ} (utf8_prefix [] max) [] zero-le) done
prefix-IsUtf8 (one a h t) max = cut-IsUtf8 t (prefix-IsUtf8 t) a [] tt (λ u v. one a h v) max
prefix-IsUtf8 (two a b h k t) max =
    cut-IsUtf8 t (prefix-IsUtf8 t) a (b ∷ []) (is_cont_of b (omega arith), tt)
      (λ u v. two a b h k v) max
prefix-IsUtf8 (three_e0 a b c h k l t) max =
    cut-IsUtf8 t (prefix-IsUtf8 t) a (b ∷ c ∷ [])
      (is_cont_of b (omega arith), (is_cont_of c (omega arith), tt)) (λ u v. three_e0 a b c h k l v)
      max
prefix-IsUtf8 (three a b c h k l t) max =
    cut-IsUtf8 t (prefix-IsUtf8 t) a (b ∷ c ∷ [])
      (is_cont_of b (omega arith), (is_cont_of c (omega arith), tt)) (λ u v. three a b c h k l v)
      max
prefix-IsUtf8 (three_ed a b c h k l t) max =
    cut-IsUtf8 t (prefix-IsUtf8 t) a (b ∷ c ∷ [])
      (is_cont_of b (omega arith), (is_cont_of c (omega arith), tt)) (λ u v. three_ed a b c h k l v)
      max
prefix-IsUtf8 (three_ee a b c h k l t) max =
    cut-IsUtf8 t (prefix-IsUtf8 t) a (b ∷ c ∷ [])
      (is_cont_of b (omega arith), (is_cont_of c (omega arith), tt)) (λ u v. three_ee a b c h k l v)
      max
prefix-IsUtf8 (four_f0 a b c d h k l m t) max =
    cut-IsUtf8 t (prefix-IsUtf8 t) a (b ∷ c ∷ d ∷ [])
      (is_cont_of b (omega arith), (is_cont_of c (omega arith), (is_cont_of d (omega arith), tt)))
      (λ u v. four_f0 a b c d h k l m v) max
prefix-IsUtf8 (four a b c d h k l m t) max =
    cut-IsUtf8 t (prefix-IsUtf8 t) a (b ∷ c ∷ d ∷ [])
      (is_cont_of b (omega arith), (is_cont_of c (omega arith), (is_cont_of d (omega arith), tt)))
      (λ u v. four a b c d h k l m v) max
prefix-IsUtf8 (four_f4 a b c d h k l m t) max =
    cut-IsUtf8 t (prefix-IsUtf8 t) a (b ∷ c ∷ d ∷ [])
      (is_cont_of b (omega arith), (is_cont_of c (omega arith), (is_cont_of d (omega arith), tt)))
      (λ u v. four_f4 a b c d h k l m v) max

back_up-max : (s : Bytes) (n j : ℕ) → j ≤ n → is_cont (byte s j) ≡ false → j ≤ back_up s n
unfolding back_up
back_up-max s zero j h e = omega arith
back_up-max s (suc n) j h e = elim (Bool-cases (j == suc n)) [
  | inl last ↦
      let at : j ≡ suc n = ground arith in
      rw (let f : is_cont (byte s (suc n)) ≡ false = cc in f) (omega arith)
  | inr before ↦ ground (arith, back_up-max s n j)
]

-- Where a well-formed text is cut by `utf8_prefix` the part kept is well-formed, has at most `max`
-- bytes, and is the longest: no position up to `max` where a character starts, or the text
-- ends, lies behind the cut.
pub utf8_prefix_lem :
    {s : Bytes} (max : ℕ)
    → IsUtf8 s
    → IsUtf8 (take (utf8_prefix s max) s)
      × (utf8_prefix s max ≤ max)
      × ((j : ℕ) → j ≤ max → j ≤ length s → is_cont (byte s j) ≡ false → j ≤ utf8_prefix s max)
utf8_prefix_lem {s} max h =
    (prefix-IsUtf8 h max, (utf8_prefix-le s max).0, λ j below inside e. longest j below inside e)
  where
    longest : (j : ℕ) → j ≤ max → j ≤ length s → is_cont (byte s j) ≡ false → j ≤ utf8_prefix s max
    longest j below inside e = elim (Bool-cases (ltb (length s) max)) [
      | inl short ↦ rw (utf8_prefix-lt s max (ground arith)) inside
      | inr long ↦ rw (utf8_prefix-ge s max (ground arith)) (back_up-max s max j below e)
    ]
