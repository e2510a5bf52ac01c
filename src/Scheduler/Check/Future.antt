-- ===== src/Scheduler/Check/Future.antt =====
-- The loop of src/scheduler.c that moves a past time to the next occurrence.
use mathlib.Core.Path.{subst}
use shclaw.Base.{
  ℕ, zero, suc, ◌+◌, ◌*◌, ◌≤◌, ◌<◌, ◌≡◌, ◌∙◌, ap, true, false, inl, inr, ◌⊎◌, arith, Bool-cases,
}
use shclaw.Base.Int.{ℤ, pos, pos_part, ◌+ℤ◌, ◌-ℤ◌, ◌≤ℤ◌, ltb_ℤ}
use shclaw.Scheduler.Check.{catch_up, next_run}

-- `r` is the first of the occurrences `t`, `t + secs`, … that lies after the clock.
pub record IsNext (now : ℤ) (secs : ℕ) (t : ℤ) (r : ℤ) : Type 0 where
  pub rounds : ℕ
  pub occurrence : r ≡ t +ℤ pos (rounds * secs)
  pub later : ltb_ℤ now r ≡ true
  pub first : (j : ℕ) → j < rounds → t +ℤ pos (j * secs) ≤ℤ now

add_zero : (t : ℤ) (s : ℕ) → t ≡ t +ℤ pos (0 * s)
unfolding ◌+ℤ◌
add_zero t s = ground arith

add_add : (t : ℤ) (a b : ℕ) → t +ℤ pos a +ℤ pos b ≡ t +ℤ pos (a + b)
unfolding ◌+ℤ◌
add_add t a b = ground arith

add_more : (t : ℤ) (s k : ℕ) → t +ℤ pos s +ℤ pos (k * s) ≡ t +ℤ pos (suc k * s)
add_more t s k =
    let e : s + k * s ≡ suc k * s = omega arith in add_add t s (k * s) ∙ ap (λ n. t +ℤ pos n) e

le_of_not : (a b : ℤ) → ltb_ℤ a b ≡ false → b ≤ℤ a
le_of_not a b h = ground arith

closer :
    (now t : ℤ) (s n : ℕ)
    → 1 ≤ s
    → ltb_ℤ now t ≡ false
    → pos_part (now -ℤ t) < suc n
    → (ltb_ℤ now (t +ℤ pos s) ≡ true) ⊎ (pos_part (now -ℤ (t +ℤ pos s)) < n)
unfolding ◌+ℤ◌ ◌-ℤ◌
closer now t s n h l g = ground arith

IsNext-now : (now : ℤ) (s : ℕ) (t : ℤ) → ltb_ℤ now t ≡ true → IsNext now s t t
IsNext-now now s t l = record {
  rounds = 0;
  occurrence = add_zero t s;
  later = l;
  first = λ j h. omega arith;
}

IsNext-later :
    (now : ℤ) (s : ℕ) (t r : ℤ)
    → ltb_ℤ now t ≡ false
    → IsNext now s (t +ℤ pos s) r
    → IsNext now s t r
IsNext-later now s t r l h = record {
  rounds = suc h.rounds;
  occurrence = h.occurrence ∙ add_more t s h.rounds;
  later = h.later;
  first = before;
}
  where
    before : (j : ℕ) → j < suc h.rounds → t +ℤ pos (j * s) ≤ℤ now
    before zero b = subst (λ x. x ≤ℤ now) (add_zero t s) (le_of_not now t l)
    before (suc j) b = subst (λ x. x ≤ℤ now) (add_more t s j) (h.first j (omega arith))

-- Enough fuel: a round for each second that is missing
catch_up-IsNext :
    (n : ℕ) (now : ℤ) (s : ℕ) (t : ℤ)
    → 1 ≤ s
    → (ltb_ℤ now t ≡ true) ⊎ (pos_part (now -ℤ t) < n)
    → IsNext now s t (catch_up n now s t)
unfolding catch_up
catch_up-IsNext zero now s t h (inl l) = IsNext-now now s t l
catch_up-IsNext zero now s t h (inr g) = ground arith
catch_up-IsNext (suc n) now s t h gap = elim (Bool-cases (ltb_ℤ now t)) [
  | inl l ↦ rw l (IsNext-now now s t l)
  | inr l ↦ rw l (IsNext-later now s t _ l (catch_up-IsNext n now s (t +ℤ pos s) h (left l gap)))
]
  where
    left :
        ltb_ℤ now t ≡ false
        → (ltb_ℤ now t ≡ true) ⊎ (pos_part (now -ℤ t) < suc n)
        → (ltb_ℤ now (t +ℤ pos s) ≡ true) ⊎ (pos_part (now -ℤ (t +ℤ pos s)) < n)
    left l (inl e) = ground arith
    left l (inr g) = closer now t s n h l g

-- For an interval of at least a second, the loop ends with the first occurrence that lies after the
-- clock: every one before it was at or before the clock.
pub next_run-IsNext : (now : ℤ) (s : ℕ) (t : ℤ) → 1 ≤ s → IsNext now s t (next_run now s t)
unfolding next_run
next_run-IsNext now s t h =
    catch_up-IsNext (suc (pos_part (now -ℤ t))) now s t h (inr (omega arith))
