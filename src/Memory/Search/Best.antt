-- ===== src/Memory/Search/Best.antt =====
-- The list of the best entries that `memory_search` of src/memory.c keeps is the start of the list
-- of all of them.
use shclaw.Base.{
  ℕ, zero, suc, ◌≡◌, refl, ap, Bool, false, ◌&&◌, List, [], ◌∷◌, ltb, ◌==◌, if◌then◌else◌,
  Bool-cases, inl, inr, Bytes, take, All, arith, All-take,
}
use shclaw.Base.Sort.{less_all, insert_by, sort_onto, Ordered, IsWeakOrder, insert_by-Ordered}
use shclaw.Memory.Log.{Entry}
use shclaw.Memory.Search.{Scored, score_of, insert_top, collect}

-- A higher score stands in front.
abbrev pub better : Scored → Scored → Bool
better a b = ltb b.0 a.0

better-IsWeakOrder : IsWeakOrder better
better-IsWeakOrder = record { asym = λ x y h. ground arith; weak = λ x y z h k. ground arith }

less_all-All-better :
    (x y : Scored) (ys : List Scored)
    → All (λ z. better z y ≡ false) ys
    → less_all better x (y ∷ ys) ≡ better x y
unfolding less_all
less_all-All-better x y [] h = ground arith
less_all-All-better x y (z ∷ zs) h =
    let rest : (better x y && less_all better x zs) ≡ better x y = less_all-All-better x y zs h.1 in
    let hz : better z y ≡ false = h.0 in ground arith

take_again : (n : ℕ) (y : Scored) (ys : List Scored) → take n (y ∷ take n ys) ≡ take n (y ∷ ys)
take_again zero y ys = refl
take_again (suc n) y ys = ap (◌∷◌ y) (again n ys)
  where
    again : (n : ℕ) (ys : List Scored) → take n (take (suc n) ys) ≡ take n ys
    again zero ys = refl
    again (suc n) [] = refl
    again (suc n) (z ∷ zs) = ap (◌∷◌ z) (again n zs)

-- Inserting into the kept part keeps the start of what inserting into the whole yields.
insert_top-take :
    (n : ℕ) (x : Scored) (l : List Scored)
    → Ordered better l
    → insert_top n x (take n l) ≡ take n (insert_by better x l)
unfolding insert_top insert_by
insert_top-take zero x l o = refl
insert_top-take (suc zero) x [] o = refl
insert_top-take (suc (suc n)) x [] o = refl
insert_top-take (suc n) x (y ∷ ys) o =
    let cut = less_all-All-better x y (take n ys) (All-take _ n ys o.0) in
    let whole = less_all-All-better x y ys o.0 in
    elim (Bool-cases (better x y)) [
      | inl e ↦ rw (cut, whole, e, insert_by, insert_top) (ap (◌∷◌ x) (take_again n y ys))
      | inr e ↦ rw (cut, whole, e, insert_by, insert_top) (ap (◌∷◌ y) (insert_top-take n x ys o.1))
    ]

-- The entries that hold a word, with their scores
unfoldable pub matching : List Bytes → List Entry → List Scored
matching words [] = []
matching words (e ∷ es) =
    let rest = matching words es in
    if score_of words e == 0 then rest else (score_of words e, e) ∷ rest

collect-take :
    (n : ℕ) (w : Bytes) (ws : List Bytes) (es : List Entry) (l : List Scored)
    → Ordered better l
    → collect n (w ∷ ws) es (take n l) ≡ take n (sort_onto better l (matching (w ∷ ws) es))
unfolding collect sort_onto matching
collect-take n w ws [] l o = refl
collect-take n w ws (e ∷ es) l o = elim (Bool-cases (score_of (w ∷ ws) e == 0)) [
  | inl z ↦ rw (z, collect, matching) (collect-take n w ws es l o)
  | inr z ↦
      rw (z, collect, matching, insert_top-take n (score_of (w ∷ ws) e, e) l o)
        (collect-take n w ws es (insert_by better (score_of (w ∷ ws) e, e) l)
          (insert_by-Ordered better better-IsWeakOrder (score_of (w ∷ ws) e, e) l o))
]

-- With at least one word, the entries that are kept are the first `n` of all that hold a word: in
-- the order of their scores, and those of one score in the order in which they were met.
pub collect-eq-take :
    (n : ℕ) (w : Bytes) (ws : List Bytes) (es : List Entry)
    → collect n (w ∷ ws) es [] ≡ take n (sort_onto better [] (matching (w ∷ ws) es))
collect-eq-take zero w ws es = collect-take zero w ws es [] tt
collect-eq-take (suc n) w ws es = collect-take (suc n) w ws es [] tt
