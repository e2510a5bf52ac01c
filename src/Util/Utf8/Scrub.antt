-- ===== src/Util/Utf8/Scrub.antt =====
-- `utf8_scrub` leaves well-formed text, of the same length, and leaves well-formed text alone.
use shclaw.Base.{
  ℕ, zero, suc, ◌≤◌, ◌<◌, ◌≡◌, refl, ap, true, ◌&&◌, inl, inr, Option, none, some, [], ◌∷◌, ◌++◌,
  arith, ltb, ◌==◌, Bytes, length, take, drop, All, Bool-cases, Option-cases, ==_iff, ◌↔◌,
}
use mathlib.Core.Path.{subst}
use shclaw.Util.Utf8.{is_cont, byte, followers, all_cont, second_ok, sequence, scrub, utf8_scrub}
use shclaw.Util.Utf8.Valid.{
  IsUtf8, Between, is_cont_of, cont_range, done, one, two, three_e0, three, three_ed, three_ee,
  four_f0, four, four_f4,
}

scrub-take-drop : (k : ℕ) (s : Bytes) → scrub k s ≡ take k s ++ scrub 0 (drop k s)
unfolding scrub
scrub-take-drop zero s = refl
scrub-take-drop (suc k) [] = refl
scrub-take-drop (suc k) (c ∷ s) = ap (◌∷◌ c) (scrub-take-drop k s)

length-scrub : (k : ℕ) (s : Bytes) → length (scrub k s) ≡ length s
unfolding scrub
length-scrub k [] = ground arith
length-scrub (suc k) (c ∷ s) = ap suc (length-scrub k s)
length-scrub zero (c ∷ s) = elim (Option-cases (sequence c s)) [
  | inl e ↦ rw (e, scrub) (ap suc (length-scrub zero s))
  | inr (n, e) ↦ rw (e, scrub) (ap suc (length-scrub n s))
]

abbrev IsByte : ℕ → Type 0
IsByte c = c < 256

record Passes (n c : ℕ) (s : Bytes) : Type 0 where
  first : followers c ≡ some n
  others : all_cont n s ≡ true
  second : second_ok n c (byte s 0) ≡ true

sequence-Passes : (n c : ℕ) (s : Bytes) → sequence c s ≡ some n → Passes n c s
unfolding sequence
sequence-Passes n c s e = go (followers c) refl
  where
    go : (o : Option ℕ) → followers c ≡ o → Passes n c s
    go none f = cc (rw (f, sequence) at e)
    go (some m) f = elim (Bool-cases (all_cont m s && second_ok m c (byte s 0))) [
      | inl t ↦
          let eq : m ≡ n = ground arith in
          rw (← eq) (record { first = f; others = ground arith; second = ground arith })
      | inr t ↦ absurd (ground arith)
    ]

first_one : (c : ℕ) → followers c ≡ some 0 → c < 0x80
unfolding followers
first_one c e = ground arith

first_two : (c : ℕ) → followers c ≡ some 1 → Between 0xC2 0xDF c
unfolding followers
first_two c e = ground arith

first_three : (c : ℕ) → followers c ≡ some 2 → Between 0xE0 0xEF c
unfolding followers
first_three c e = ground arith

first_four : (c : ℕ) → followers c ≡ some 3 → Between 0xF0 0xF4 c
unfolding followers
first_four c e = ground arith

first-le : (n c : ℕ) → followers c ≡ some n → n ≤ 3
unfolding followers
first-le n c e = ground arith

second_three : (a b : ℕ) → second_ok 2 a b ≡ true → (a ≡ 0xE0 → 0xA0 ≤ b) × (a ≡ 0xED → b ≤ 0x9F)
unfolding second_ok
second_three a b e = (λ h. ground arith, λ h. ground arith)

second_four : (a b : ℕ) → second_ok 3 a b ≡ true → (a ≡ 0xF0 → 0x90 ≤ b) × (a ≡ 0xF4 → b ≤ 0x8F)
unfolding second_ok
second_four a b e = (λ h. ground arith, λ h. ground arith)

make_three :
    (a b c : ℕ) {t : Bytes}
    → Between 0xE0 0xEF a
    → Between 0x80 0xBF b
    → Between 0x80 0xBF c
    → second_ok 2 a b ≡ true
    → IsUtf8 t
    → IsUtf8 (a ∷ b ∷ c ∷ t)
make_three a b c ha hb hc ok h = elim (Bool-cases (a == 0xE0)) [
  | inl e ↦ let x = (==_iff a 0xE0).0 e in three_e0 a b c x ((second_three a b ok).0 x, hb.1) hc h
  | inr e ↦ elim (Bool-cases (a == 0xED)) [
    | inl f ↦ let x = (==_iff a 0xED).0 f in three_ed a b c x (hb.0, (second_three a b ok).1 x) hc h
    | inr f ↦ elim (Bool-cases (ltb a 0xED)) [
      | inl g ↦ three a b c (ground arith) hb hc h
      | inr g ↦ three_ee a b c (ground arith) hb hc h
    ]
  ]
]

make_four :
    (a b c d : ℕ) {t : Bytes}
    → Between 0xF0 0xF4 a
    → Between 0x80 0xBF b
    → Between 0x80 0xBF c
    → Between 0x80 0xBF d
    → second_ok 3 a b ≡ true
    → IsUtf8 t
    → IsUtf8 (a ∷ b ∷ c ∷ d ∷ t)
make_four a b c d ha hb hc hd ok h = elim (Bool-cases (a == 0xF0)) [
  | inl e ↦
      let x = (==_iff a 0xF0).0 e in four_f0 a b c d x ((second_four a b ok).0 x, hb.1) hc hd h
  | inr e ↦ elim (Bool-cases (a == 0xF4)) [
    | inl f ↦
        let x = (==_iff a 0xF4).0 f in four_f4 a b c d x (hb.0, (second_four a b ok).1 x) hc hd h
    | inr f ↦ four a b c d (ground arith) hb hc hd h
  ]
]

-- A sequence that passes, in front of well-formed text.
Passes-IsUtf8 :
    (n c : ℕ) (s : Bytes) {t : Bytes}
    → All IsByte s
    → Passes n c s
    → IsUtf8 t
    → IsUtf8 (c ∷ (take n s ++ t))
unfolding all_cont
Passes-IsUtf8 zero c s b p h = one c (first_one c p.first) h
Passes-IsUtf8 (suc zero) c (x ∷ s) b p h =
    two c x (first_two c p.first) (cont_range x b.0 (ground (arith, p.others))) h
Passes-IsUtf8 (suc (suc zero)) c (x ∷ y ∷ s) b p h =
    make_three c x y (first_three c p.first) (cont_range x b.0 (ground (arith, p.others)))
      (cont_range y (b.1).0 (ground (arith, p.others))) p.second h
Passes-IsUtf8 (suc (suc (suc zero))) c (x ∷ y ∷ z ∷ s) b p h =
    make_four c x y z (first_four c p.first) (cont_range x b.0 (ground (arith, p.others)))
      (cont_range y (b.1).0 (ground (arith, p.others)))
      (cont_range z ((b.1).1).0 (ground (arith, p.others))) p.second h
Passes-IsUtf8 (suc (suc (suc (suc n)))) c s b p h = absurd (omega (arith, first-le _ c p.first))
Passes-IsUtf8 n c s b p h = absurd (ground (arith, p.others))

scrub-IsUtf8 : (s : Bytes) (k : ℕ) → All IsByte s → IsUtf8 (scrub 0 (drop k s))
unfolding scrub
scrub-IsUtf8 [] zero b = done
scrub-IsUtf8 [] (suc k) b = done
scrub-IsUtf8 (c ∷ s) (suc k) b = scrub-IsUtf8 s k b.1
scrub-IsUtf8 (c ∷ s) zero b = elim (Option-cases (sequence c s)) [
  | inl e ↦ rw (e, scrub) (one b'?' (omega arith) (scrub-IsUtf8 s zero b.1))
  | inr (n, e) ↦
      rw (e, scrub)
        (rw scrub-take-drop
          (Passes-IsUtf8 n c s b.1 (sequence-Passes n c s e) (scrub-IsUtf8 s n b.1)))
]

sequence-one : (a : ℕ) (s : Bytes) → a < 0x80 → sequence a s ≡ some 0
unfolding sequence followers all_cont second_ok
sequence-one a s h = ground arith

sequence-two :
    (a b : ℕ) (s : Bytes) → Between 0xC2 0xDF a → Between 0x80 0xBF b → sequence a (b ∷ s) ≡ some 1
unfolding sequence followers all_cont second_ok
sequence-two a b s h k = ground (arith, is_cont_of b k)

sequence-three :
    (a b c : ℕ) (s : Bytes)
    → Between 0xE0 0xEF a
    → is_cont b ≡ true
    → Between 0x80 0xBF c
    → (a ≡ 0xE0 → 0xA0 ≤ b)
    → (a ≡ 0xED → b ≤ 0x9F)
    → sequence a (b ∷ c ∷ s) ≡ some 2
unfolding sequence followers all_cont second_ok
sequence-three a b c s h k l p q = ground (arith, is_cont_of c l)

sequence-four :
    (a b c d : ℕ) (s : Bytes)
    → Between 0xF0 0xF4 a
    → is_cont b ≡ true
    → Between 0x80 0xBF c
    → Between 0x80 0xBF d
    → (a ≡ 0xF0 → 0x90 ≤ b)
    → (a ≡ 0xF4 → b ≤ 0x8F)
    → sequence a (b ∷ c ∷ d ∷ s) ≡ some 3
unfolding sequence followers all_cont second_ok
sequence-four a b c d s h k l m p q = ground (arith, is_cont_of c l, is_cont_of d m)

scrub-of_IsUtf8 : {s : Bytes} → IsUtf8 s → scrub 0 s ≡ s
unfolding scrub
scrub-of_IsUtf8 done = refl
scrub-of_IsUtf8 (one a h t) = rw (sequence-one a _ h, scrub) (ap (◌∷◌ a) (scrub-of_IsUtf8 t))
scrub-of_IsUtf8 (two a b h k t) =
    rw (sequence-two a b _ h k, scrub) (ap (◌∷◌ a) (ap (◌∷◌ b) (scrub-of_IsUtf8 t)))
scrub-of_IsUtf8 (three_e0 a b c h k l t) =
    rw
      (
        sequence-three a b c _ (omega arith) (is_cont_of b (omega arith)) l (λ e. omega arith)
            (λ e. omega arith),
        scrub,
      )
      (ap (◌∷◌ a) (ap (◌∷◌ b) (ap (◌∷◌ c) (scrub-of_IsUtf8 t))))
scrub-of_IsUtf8 (three a b c h k l t) =
    rw
      (
        sequence-three a b c _ (omega arith) (is_cont_of b (omega arith)) l (λ e. omega arith)
            (λ e. omega arith),
        scrub,
      )
      (ap (◌∷◌ a) (ap (◌∷◌ b) (ap (◌∷◌ c) (scrub-of_IsUtf8 t))))
scrub-of_IsUtf8 (three_ed a b c h k l t) =
    rw
      (
        sequence-three a b c _ (omega arith) (is_cont_of b (omega arith)) l (λ e. omega arith)
            (λ e. omega arith),
        scrub,
      )
      (ap (◌∷◌ a) (ap (◌∷◌ b) (ap (◌∷◌ c) (scrub-of_IsUtf8 t))))
scrub-of_IsUtf8 (three_ee a b c h k l t) =
    rw
      (
        sequence-three a b c _ (omega arith) (is_cont_of b (omega arith)) l (λ e. omega arith)
            (λ e. omega arith),
        scrub,
      )
      (ap (◌∷◌ a) (ap (◌∷◌ b) (ap (◌∷◌ c) (scrub-of_IsUtf8 t))))
scrub-of_IsUtf8 (four_f0 a b c d h k l m t) =
    rw
      (
        sequence-four a b c d _ (omega arith) (is_cont_of b (omega arith)) l m (λ e. omega arith)
            (λ e. omega arith),
        scrub,
      )
      (ap (◌∷◌ a) (ap (◌∷◌ b) (ap (◌∷◌ c) (ap (◌∷◌ d) (scrub-of_IsUtf8 t)))))
scrub-of_IsUtf8 (four a b c d h k l m t) =
    rw
      (
        sequence-four a b c d _ (omega arith) (is_cont_of b (omega arith)) l m (λ e. omega arith)
            (λ e. omega arith),
        scrub,
      )
      (ap (◌∷◌ a) (ap (◌∷◌ b) (ap (◌∷◌ c) (ap (◌∷◌ d) (scrub-of_IsUtf8 t)))))
scrub-of_IsUtf8 (four_f4 a b c d h k l m t) =
    rw
      (
        sequence-four a b c d _ (omega arith) (is_cont_of b (omega arith)) l m (λ e. omega arith)
            (λ e. omega arith),
        scrub,
      )
      (ap (◌∷◌ a) (ap (◌∷◌ b) (ap (◌∷◌ c) (ap (◌∷◌ d) (scrub-of_IsUtf8 t)))))

-- Whatever the bytes, the repaired text is well-formed UTF-8 and has as many bytes as before.
pub utf8_scrub-IsUtf8 :
    (s : Bytes) → All (λ c. c < 256) s → IsUtf8 (utf8_scrub s) × (length (utf8_scrub s) ≡ length s)
unfolding utf8_scrub
utf8_scrub-IsUtf8 s b = (scrub-IsUtf8 s 0 b, length-scrub 0 s)

-- Among byte strings, exactly the well-formed ones are left as they are.
pub utf8_scrub-eq_self_iff : (s : Bytes) → All (λ c. c < 256) s → (utf8_scrub s ≡ s) ↔ IsUtf8 s
utf8_scrub-eq_self_iff s b =
    (λ e. subst IsUtf8 e (utf8_scrub-IsUtf8 s b).0, λ h. unfold utf8_scrub in scrub-of_IsUtf8 h)
