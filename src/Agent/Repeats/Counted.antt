-- ===== src/Agent/Repeats/Counted.antt =====
-- Which calls `repeated_call` of src/agent.c lets through.
use shclaw.Base.{
  ℕ, suc, ◌+◌, ◌≤◌, ◌<◌, ◌≡◌, refl, ap, ◌∙◌, Bool, inl, inr, List, [], ◌∷◌, leb, ltb, ◌==◌,
  if◌then◌else◌, Bool-cases, length, All, arith,
}
use shclaw.Agent.Repeats.{call_key, Counter, count_call, repeated_call, Attempted, refusals}

-- How many of the keys are `h`
unfoldable pub times : ℕ → List ℕ → ℕ
times h [] = 0
times h (k ∷ ks) = if k == h then suc (times h ks) else times h ks

-- Which calls were made with their keys as often as their limits allow, `past` being the keys of
-- the calls before
unfoldable pub used_up : List ℕ → List Attempted → List Bool
unfolding times
used_up past [] = []
used_up past (a ∷ rest) =
    leb a.limit (times (call_key a.name a.args) past) ∷ used_up (call_key a.name a.args ∷ past) rest

-- What the table says about a key
unfoldable pub counted : ℕ → List Counter → ℕ
counted h [] = 0
counted h (c ∷ cs) = if c.call_hash == h then c.call_count else counted h cs

-- The key was met as often as the table says.
abbrev pub Agrees : List ℕ → List Counter → Type 0
Agrees past counters = (h : ℕ) → counted h counters ≡ times h past

count_call-refused :
    (n limit h : ℕ) (cs : List Counter)
    → 1 ≤ limit
    → (count_call n limit h cs).1 ≡ leb limit (counted h cs)
unfolding count_call counted
count_call-refused n limit h [] k = ground arith
count_call-refused n limit h (c ∷ cs) k = elim (Bool-cases (c.call_hash == h)) [
  | inl e ↦ rw e (above limit c.call_count)
  | inr e ↦ rw e (count_call-refused n limit h cs k)
]
  where
    above : (a b : ℕ) → ltb a (b + 1) ≡ leb a b
    above a b = ground arith

-- The call is counted under its own key, and no other key's count changes.
count_call-counted :
    (n limit h g : ℕ) (cs : List Counter)
    → n < 64
    → counted g (count_call n limit h cs).0 ≡ (if h == g then suc (counted g cs) else counted g cs)
unfolding count_call counted
count_call-counted n limit h g [] k = ground arith
count_call-counted n limit h g (c ∷ cs) k = elim (Bool-cases (c.call_hash == h)) [
  | inl e ↦ rw e (ground arith)
  | inr e ↦ let i = count_call-counted n limit h g cs k in rw e (ground (arith, i))
]

count_call-length :
    (n limit h : ℕ) (cs : List Counter) → length (count_call n limit h cs).0 ≤ suc (length cs)
unfolding count_call
count_call-length n limit h [] = ground arith
count_call-length n limit h (c ∷ cs) = elim (Bool-cases (c.call_hash == h)) [
  | inl e ↦ rw e (omega arith)
  | inr e ↦ let i = count_call-length n limit h cs in rw e (omega arith)
]

-- Of up to 64 calls with limits of at least one, counting those that the table holds before, each
-- is refused exactly where calls with its hash were made as often as its limit allows, however many
-- others were made in between.
pub refusals-eq-used_up :
    (past : List ℕ) (calls : List Attempted) (counters : List Counter)
    → All (λ a. 1 ≤ a.limit) calls
    → Agrees past counters
    → length counters + length calls ≤ 64
    → refusals calls counters ≡ used_up past calls
unfolding refusals used_up repeated_call
refusals-eq-used_up past [] counters l g b = refl
refusals-eq-used_up past (a ∷ rest) counters l g b =
    let h : ℕ = call_key a.name a.args in
    let r : List Counter × Bool = count_call (length counters) a.limit h counters in
    let n = count_call-length (length counters) a.limit h counters in
    ap (λ x. x ∷ refusals rest r.0)
      (count_call-refused (length counters) a.limit h counters l.0 ∙ ap (leb a.limit) (g h))
    ∙ ap (λ xs. leb a.limit (times h past) ∷ xs)
        (refusals-eq-used_up (h ∷ past) rest r.0 l.1
          (λ k. count_call-counted (length counters) a.limit h k counters (omega arith) ∙ next h k)
          (omega arith))
  where
    next :
        (h k : ℕ)
        → (if h == k then suc (counted k counters) else counted k counters) ≡ times k (h ∷ past)
    next h k = rw (g k) refl
