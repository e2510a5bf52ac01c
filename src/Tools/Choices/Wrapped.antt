-- ===== src/Tools/Choices/Wrapped.antt =====
-- Words between commas, as `tool_check_args` of src/tools.c searches for them.
use mathlib.Core.Path.{subst}
use shclaw.Base.{
  ℕ, ◌≡◌, refl, sym, ap, ◌∙◌, true, false, ◌||◌, inl, inr, List, [], ◌∷◌, ◌++◌, ◌==◌, if◌then◌else◌,
  Bool-cases, Bytes, All, arith,
}
use shclaw.Json.Replaced.{true-false}
use shclaw.Memory.Search.{occurs, starts_with}

-- The words between the commas of a text
abbrev onto_first : ℕ → List Bytes → List Bytes
onto_first c [] = []
onto_first c (w ∷ ws) = (c ∷ w) ∷ ws

abbrev pub split : Bytes → List Bytes
split [] = [] ∷ []
split (c ∷ s) = let rest = split s in if c == b',' then [] ∷ rest else onto_first c rest

-- Words between commas
pub wrap : List Bytes → Bytes
wrap [] = b',' ∷ []
wrap (w ∷ ws) = b',' ∷ (w ++ wrap ws)

abbrev pub IsWord : Bytes → Type 0
IsWord w = All (λ c. (c == b',') ≡ false) w

pub record IsCut (s : Bytes) : Type 0 where
  pub first : Bytes
  pub others : List Bytes
  pub is : split s ≡ first ∷ others
  pub word : IsWord first
  pub words : All IsWord others
  pub whole : first ++ wrap others ≡ s ++ b',' ∷ []

pub split-IsCut : (s : Bytes) → IsCut s
unfolding wrap
split-IsCut [] = record { first = []; others = []; is = refl; word = tt; words = tt; whole = refl }
split-IsCut (c ∷ s) =
    let r : IsCut s = split-IsCut s in
    elim (Bool-cases (c == b',')) [
      | inl e ↦
          let at : c ≡ b',' = ground arith in
          record {
            first = [];
            others = r.first ∷ r.others;
            is = rw e (ap (λ l. [] ∷ l) r.is);
            word = tt;
            words = (r.word, r.words);
            whole = ap (λ l. b',' ∷ l) r.whole ∙ ap (λ x. x ∷ (s ++ b',' ∷ [])) (sym at);
          }
      | inr e ↦ record {
        first = c ∷ r.first;
        others = r.others;
        is = rw e (ap (onto_first c) r.is);
        word = (e, r.word);
        words = r.words;
        whole = ap (λ l. c ∷ l) r.whole;
      }
    ]

wrap-comma : (us : List Bytes) → (t : Bytes) × (wrap us ≡ b',' ∷ t)
unfolding wrap
wrap-comma [] = ([], refl)
wrap-comma (u ∷ us) = (u ++ wrap us, refl)

-- Bytes that are no comma do not begin a text between commas.
occurs-skip :
    (us : List Bytes) (w t : Bytes) → IsWord w → occurs (wrap us) (w ++ t) ≡ occurs (wrap us) t
unfolding occurs starts_with wrap
occurs-skip us [] t h = refl
occurs-skip [] (c ∷ w) t h =
    let e : (b',' == c) ≡ false = ground (arith, h.0) in rw e (occurs-skip [] w t h.1)
occurs-skip (u ∷ us) (c ∷ w) t h =
    let e : (b',' == c) ≡ false = ground (arith, h.0) in rw e (occurs-skip (u ∷ us) w t h.1)

word_by_word :
    (us ws : List Bytes) (u w : Bytes)
    → IsWord u
    → IsWord w
    → starts_with (u ++ wrap us) (w ++ wrap ws) ≡ true
    → (u ≡ w) × (starts_with (wrap us) (wrap ws) ≡ true)
unfolding starts_with
word_by_word us ws [] [] a b h = (refl, h)
word_by_word us ws [] (c ∷ w) a b h =
    let t = wrap-comma us in
    let k : starts_with (b',' ∷ t.0) (c ∷ (w ++ wrap ws)) ≡ true =
      subst (λ x. starts_with x (c ∷ (w ++ wrap ws)) ≡ true) t.1 h in
    absurd (ground (arith, b.0))
word_by_word us ws (c ∷ u) [] a b h =
    let t = wrap-comma ws in
    let k : starts_with (c ∷ (u ++ wrap us)) (b',' ∷ t.0) ≡ true =
      subst (λ x. starts_with (c ∷ (u ++ wrap us)) x ≡ true) t.1 h in
    absurd (ground (arith, a.0))
word_by_word us ws (c ∷ u) (d ∷ w) a b h =
    let p = word_by_word us ws u w a.1 b.1 (ground (arith)) in
    let e : c ≡ d = ground arith in (ap (λ x. x ∷ u) e ∙ ap (λ l. d ∷ l) p.0, p.1)

too_short : (us : List Bytes) (u : Bytes) → starts_with (u ++ wrap us) [] ≡ false
unfolding starts_with
too_short us [] = let t = wrap-comma us in rw t.1 refl
too_short us (c ∷ u) = refl

starts_with-prefix :
    (us ws : List Bytes)
    → All IsWord us
    → All IsWord ws
    → starts_with (wrap us) (wrap ws) ≡ true
    → (after : List Bytes) × (ws ≡ us ++ after)
unfolding starts_with wrap
starts_with-prefix [] ws a b h = (ws, refl)
starts_with-prefix (u ∷ us) [] a b h = absurd (true-false (sym h ∙ too_short us u))
starts_with-prefix (u ∷ us) (w ∷ ws) a b h =
    let p = word_by_word us ws u w a.0 b.0 h in
    let q = starts_with-prefix us ws a.1 b.1 p.1 in
    (q.0, ap (λ x. x ∷ ws) (sym p.0) ∙ ap (λ l. u ∷ l) q.1)

same_start : (u s t : Bytes) → starts_with s t ≡ true → starts_with (u ++ s) (u ++ t) ≡ true
unfolding starts_with
same_start [] s t h = h
same_start (c ∷ u) s t h = ground (arith, same_start u s t h)

prefix-starts_with : (us after : List Bytes) → starts_with (wrap us) (wrap (us ++ after)) ≡ true
unfolding starts_with wrap
prefix-starts_with [] after = let t = wrap-comma after in rw t.1 refl
prefix-starts_with (u ∷ us) after =
    same_start u (wrap us) (wrap (us ++ after)) (prefix-starts_with us after)

-- Whether wrapped words occur, one word of the list further
occurs-step :
    (us : List Bytes) (w : Bytes) (ws : List Bytes)
    → IsWord w
    → occurs (wrap us) (wrap (w ∷ ws))
      ≡ (starts_with (wrap us) (wrap (w ∷ ws)) || occurs (wrap us) (wrap ws))
unfolding occurs wrap
occurs-step us w ws h =
    ap (λ b. starts_with (wrap us) (b',' ∷ (w ++ wrap ws)) || b) (occurs-skip us w (wrap ws) h)

nowhere : (u : Bytes) (us : List Bytes) → occurs (wrap (u ∷ us)) (wrap []) ≡ false
unfolding occurs starts_with wrap
nowhere u us = rw (too_short us u) refl

pub occurs-run :
    (u : Bytes) (us ws : List Bytes)
    → All IsWord (u ∷ us)
    → All IsWord ws
    → occurs (wrap (u ∷ us)) (wrap ws) ≡ true
    → (before : List Bytes) × (after : List Bytes) × (ws ≡ before ++ ((u ∷ us) ++ after))
occurs-run u us [] a b h = absurd (true-false (sym h ∙ nowhere u us))
occurs-run u us (w ∷ ws) a b h = elim (Bool-cases (starts_with (wrap (u ∷ us)) (wrap (w ∷ ws)))) [
  | inl e ↦ let p = starts_with-prefix (u ∷ us) (w ∷ ws) a b e in ([], p.0, p.1)
  | inr e ↦
      let k : occurs (wrap (u ∷ us)) (wrap ws) ≡ true =
        ap (λ x. x || occurs (wrap (u ∷ us)) (wrap ws)) (sym e)
        ∙ sym (occurs-step (u ∷ us) w ws b.0)
        ∙ h in
      let p = occurs-run u us ws a b.1 k in (w ∷ p.0, p.1, ap (λ l. w ∷ l) p.2)
]

pub run-occurs :
    (us before after : List Bytes)
    → All IsWord before
    → occurs (wrap us) (wrap (before ++ (us ++ after))) ≡ true
unfolding occurs
run-occurs us [] after h =
    let t = wrap-comma (us ++ after) in
    let p : starts_with (wrap us) (b',' ∷ t.0) ≡ true =
      subst (λ x. starts_with (wrap us) x ≡ true) t.1 (prefix-starts_with us after) in
    rw (t.1, p, occurs) refl
run-occurs us (b ∷ before) after h =
    occurs-step us b (before ++ (us ++ after)) h.0 ∙ ground (arith, run-occurs us before after h.1)

pub wrap-split : (s : Bytes) → wrap (split s) ≡ b',' ∷ (s ++ b',' ∷ [])
unfolding wrap
wrap-split s = let r : IsCut s = split-IsCut s in ap wrap r.is ∙ ap (λ l. b',' ∷ l) r.whole
