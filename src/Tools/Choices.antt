-- ===== src/Tools/Choices.antt =====
-- The texts that the list of choices of a parameter admits, as `tool_check_args` of src/tools.c
-- finds them.
pub mod Wrapped
use mathlib.Core.Path.{subst}
use shclaw.Base.{
  ◌⊎◌, ℕ, zero, suc, ◌+◌, ◌-◌, ◌≤◌, ◌≡◌, ◌≢◌, refl, sym, ap, ◌∙◌, Bool, true, false, ◌&&◌, ◌||◌,
  Option, none, some, inl, inr, List, [], ◌∷◌, ◌++◌, ◌==◌, if◌then◌else◌, leb, Bool-cases, Bytes,
  codes, snprintf, length, length-append, length-take, take, take-of-length-le, append_assoc, All,
  arith,
}
use shclaw.Json.Replaced.{true-false}
use shclaw.Memory.Search.{occurs, starts_with}
use shclaw.Tools.{is_choice}
use shclaw.Tools.Choices.Wrapped.{
  split, wrap, IsWord, IsCut, split-IsCut, wrap-split, occurs-run, run-occurs,
}

-- The words of the text stand next to each other among the choices.
abbrev pub IsRun : Bytes → Bytes → Type 0
IsRun choices s =
    (before : List Bytes) × (after : List Bytes) × (split choices ≡ before ++ (split s ++ after))

starts_with-long : (w h : Bytes) → suc (length h) ≤ length w → starts_with w h ≡ false
unfolding starts_with
starts_with-long [] h l = absurd (omega arith)
starts_with-long (c ∷ w) [] l = refl
starts_with-long (c ∷ w) (d ∷ h) l = ground (arith, starts_with-long w h (omega arith))

occurs-long : (w h : Bytes) → suc (length h) ≤ length w → occurs w h ≡ false
unfolding occurs
occurs-long w [] l = starts_with-long w [] l
occurs-long w (d ∷ h) l = rw (starts_with-long w (d ∷ h) l, occurs) (occurs-long w h (omega arith))

-- The buffers hold a list of at most 252 bytes, and a longer text is not found in it.
found :
    (choices s : Bytes)
    → length choices ≤ 252
    → occurs (snprintf 256 (b',' ∷ (s ++ b',' ∷ []))) (snprintf 258 (b',' ∷ (choices ++ b',' ∷ [])))
      ≡ occurs (wrap (split s)) (wrap (split choices))
found choices s h =
    let pat = b',' ∷ (choices ++ b',' ∷ []) in
    let val = b',' ∷ (s ++ b',' ∷ []) in
    let n = length-append choices (b',' ∷ []) in
    let k = length-append s (b',' ∷ []) in
    let l = length-take 255 val in
    let whole : take 257 pat ≡ pat = take-of-length-le 257 pat (omega (arith, n)) in
    elim (Bool-cases (leb (length s) 253)) [
      | inl e ↦
          let fits : take 255 val ≡ val =
            take-of-length-le 255 val (omega (arith, k, small (length s) e)) in
          ap (λ x. occurs x (take 257 pat)) fits
          ∙ ap (occurs val) whole
          ∙ sym (
              ap (λ x. occurs x (wrap (split choices))) (wrap-split s)
              ∙ ap (occurs val) (wrap-split choices))
      | inr e ↦
          ap (occurs (take 255 val)) whole
          ∙ occurs-long (take 255 val) pat (omega (arith, n, k, l, large (length s) e))
          ∙ sym (
              ap (λ x. occurs x (wrap (split choices))) (wrap-split s)
              ∙ ap (occurs val) (wrap-split choices)
              ∙ occurs-long val pat (omega (arith, n, k, large (length s) e)))
    ]
  where
    small : (n : ℕ) → leb n 253 ≡ true → n ≤ 253
    small n h = ground arith

    large : (n : ℕ) → leb n 253 ≡ false → 254 ≤ n
    large n h = ground arith

-- What a list of choices admits: the empty text, and choices that stand next to each other
abbrev pub IsAdmitted : Option Bytes → Bytes → Type 0
IsAdmitted none s = Unit
IsAdmitted (some choices) s = (s ≡ []) ⊎ IsRun choices s

-- The list of choices fits the buffer with its commas.
abbrev pub Fits : Option Bytes → Type 0
Fits none = Unit
Fits (some choices) = length choices ≤ 252

pub is_choice-IsAdmitted :
    (choices : Option Bytes) (s : Bytes)
    → Fits choices
    → is_choice choices s ≡ true
    → IsAdmitted choices s
unfolding is_choice
is_choice-IsAdmitted none s f h = tt
is_choice-IsAdmitted (some choices) [] f h = inl refl
is_choice-IsAdmitted (some choices) (c ∷ s) f h =
    let r : IsCut (c ∷ s) = split-IsCut (c ∷ s) in
    let q : IsCut choices = split-IsCut choices in
    let k : occurs (wrap (r.first ∷ r.others)) (wrap (split choices)) ≡ true =
      ap (λ l. occurs (wrap l) (wrap (split choices))) (sym r.is)
      ∙ sym (found choices (c ∷ s) f)
      ∙ h in
    let p =
      occurs-run r.first r.others (split choices) (r.word, r.words)
        (subst (All IsWord) (sym q.is) (q.word, q.words)) k in
    inr (p.0, p.1, p.2 ∙ ap (λ l. p.0 ++ (l ++ p.1)) (sym r.is))

before-All : (xs ys : List Bytes) → All IsWord (xs ++ ys) → All IsWord xs
before-All [] ys h = tt
before-All (x ∷ xs) ys h = (h.0, before-All xs ys h.1)

pub IsAdmitted-is_choice :
    (choices : Option Bytes) (s : Bytes)
    → Fits choices
    → IsAdmitted choices s
    → is_choice choices s ≡ true
unfolding is_choice
IsAdmitted-is_choice none s f h = refl
IsAdmitted-is_choice (some choices) [] f h = refl
IsAdmitted-is_choice (some choices) (c ∷ s) f (inl e) = absurd (cc)
IsAdmitted-is_choice (some choices) (c ∷ s) f (inr (before, after, e)) =
    let q : IsCut choices = split-IsCut choices in
    let a : All IsWord (before ++ (split (c ∷ s) ++ after)) =
      subst (All IsWord) (sym q.is ∙ e) (q.word, q.words) in
    found choices (c ∷ s) f
    ∙ ap (λ l. occurs (wrap (split (c ∷ s))) (wrap l)) e
    ∙ run-occurs (split (c ∷ s)) before after (before-All before _ a)
