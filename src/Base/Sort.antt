-- ===== src/Base/Sort.antt =====
-- The insertion sort that several files of the program write out: a new element moves forward
-- past the trailing elements that it is less than.
use mathlib.Core.Path.{◌≡◌, refl, sym, ◌∙◌, ap}
use mathlib.Core.Logic.{inl, inr}
use mathlib.Core.Bool.{Bool, true, false, ◌&&◌}
use mathlib.Core.List.{List, [], ◌∷◌, ◌++◌, append_assoc, append-nil}
use native.Mathlib.Omega.{arith}
use shclaw.Base.Tests.{if◌then◌else◌, Bool-cases}
use shclaw.Base.Lists.{All, All-map}

-- Whether the element is less than every one of the list
unfoldable pub less_all : {A : Type 0} → (A → A → Bool) → A → List A → Bool
less_all less x [] = true
less_all less x (y ∷ ys) = less x y && less_all less x ys

unfoldable pub insert_by : {A : Type 0} → (A → A → Bool) → A → List A → List A
unfolding less_all
insert_by less x [] = x ∷ []
insert_by less x (y ∷ ys) =
    let rest = insert_by less x ys in if less_all less x (y ∷ ys) then x ∷ y ∷ ys else y ∷ rest

unfoldable pub sort_onto : {A : Type 0} → (A → A → Bool) → List A → List A → List A
unfolding insert_by
sort_onto less sorted [] = sorted
sort_onto less sorted (x ∷ xs) = sort_onto less (insert_by less x sorted) xs

unfoldable pub filter : {A : Type 0} → (A → Bool) → List A → List A
filter p [] = []
filter p (x ∷ xs) = let rest = filter p xs in if p x then x ∷ rest else rest

-- No element is less than one in front of it.
abbrev pub Ordered : {A : Type 0} → (A → A → Bool) → List A → Type 0
Ordered less [] = Unit
Ordered less (x ∷ xs) = All (λ y. less y x ≡ false) xs × Ordered less xs

-- A strict order whose incomparable elements are ties
pub record IsWeakOrder {A : Type 0} (less : A → A → Bool) : Type 0 where
  pub asym : (x y : A) → less x y ≡ true → less y x ≡ false
  pub weak : (x y z : A) → less y x ≡ false → less z y ≡ false → less z x ≡ false

module _ {A : Type 0} (less : A → A → Bool) where
  All-insert_by :
      (P : A → Type 0) (x : A) (xs : List A) → P x → All P xs → All P (insert_by less x xs)
  unfolding insert_by
  All-insert_by P x [] h k = (h, tt)
  All-insert_by P x (y ∷ ys) h k = elim (Bool-cases (less_all less x (y ∷ ys))) [
    | inl e ↦ rw (e, insert_by) (h, k)
    | inr e ↦ rw (e, insert_by) (k.0, All-insert_by P x ys h k.1)
  ]

  less_all-All : (x : A) (xs : List A) → less_all less x xs ≡ true → All (λ y. less x y ≡ true) xs
  unfolding less_all
  less_all-All x [] h = tt
  less_all-All x (y ∷ ys) h = (ground arith, less_all-All x ys (ground arith))

  -- An element that is less than the first of an ordered list is less than all of them.
  not_less :
      IsWeakOrder less
      → (x y : A) (ys : List A) → All (λ z. less z y ≡ false) ys
      → less_all less x (y ∷ ys) ≡ false
      → less x y ≡ false
  unfolding less_all
  not_less o x y ys h e = elim (Bool-cases (less x y)) [
    | inl l ↦ absurd (contra l ys h (rw (less_all, l) at e))
    | inr l ↦ l
  ]
    where
      contra :
          less x y ≡ true
          → (zs : List A) → All (λ z. less z y ≡ false) zs
          → less_all less x zs ≡ false
          → ⊥
      contra l [] h e = ground arith
      contra l (z ∷ zs) h e = elim (Bool-cases (less x z)) [
        | inl k ↦ contra l zs h.1 (rw (less_all, k) at e)
        | inr k ↦ let w : less x y ≡ false = o.weak y z x h.0 k in ground arith
      ]

  pub insert_by-Ordered :
      IsWeakOrder less
      → (x : A) (xs : List A) → Ordered less xs
      → Ordered less (insert_by less x xs)
  unfolding insert_by
  insert_by-Ordered o x [] h = (tt, tt)
  insert_by-Ordered o x (y ∷ ys) h = elim (Bool-cases (less_all less x (y ∷ ys))) [
    | inl e ↦
        rw (e, insert_by) (All-map (λ z l. o.asym x z l) (y ∷ ys) (less_all-All x (y ∷ ys) e), h)
    | inr e ↦
        rw (e, insert_by)
          (
            All-insert_by (λ z. less z y ≡ false) x ys (not_less o x y ys h.0 e) h.0,
            insert_by-Ordered o x ys h.1,
          )
  ]

  -- Sorting yields an ordered list.
  pub sort_onto-Ordered :
      IsWeakOrder less
      → (sorted xs : List A) → Ordered less sorted
      → Ordered less (sort_onto less sorted xs)
  unfolding sort_onto
  sort_onto-Ordered o sorted [] h = h
  sort_onto-Ordered o sorted (x ∷ xs) h =
      sort_onto-Ordered o (insert_by less x sorted) xs (insert_by-Ordered o x sorted h)

pub filter-append :
    {A : Type 0} (p : A → Bool) (xs ys : List A) → filter p (xs ++ ys) ≡ filter p xs ++ filter p ys
unfolding filter
filter-append p [] ys = refl
filter-append p (x ∷ xs) ys = elim (Bool-cases (p x)) [
  | inl e ↦ rw e (ap (◌∷◌ x) (filter-append p xs ys))
  | inr e ↦ rw e (filter-append p xs ys)
]

-- The elements of a class of ties keep their order, and none is lost or doubled.
module _ {A : Type 0} (less : A → A → Bool) (p : A → Bool)
    (tie : (x y : A) → p x ≡ true → p y ≡ true → less x y ≡ false) where
  no_ties : (x : A) (ys : List A) → p x ≡ true → less_all less x ys ≡ true → filter p ys ≡ []
  unfolding filter less_all
  no_ties x [] h e = refl
  no_ties x (y ∷ ys) h e = elim (Bool-cases (p y)) [
    | inl q ↦ let t = tie x y h q in ground arith
    | inr q ↦ rw q (no_ties x ys h (ground arith))
  ]

  filter-insert_by :
      (x : A) (ys : List A) → filter p (insert_by less x ys) ≡ filter p ys ++ filter p (x ∷ [])
  unfolding filter insert_by
  filter-insert_by x [] = refl
  filter-insert_by x (y ∷ ys) = elim (Bool-cases (less_all less x (y ∷ ys))) [
    | inl e ↦ rw (e, insert_by) (front e)
    | inr e ↦ rw (e, insert_by) (behind (filter-insert_by x ys))
  ]
    where
      front :
          less_all less x (y ∷ ys) ≡ true
          → filter p (x ∷ y ∷ ys) ≡ filter p (y ∷ ys) ++ filter p (x ∷ [])
      front e = elim (Bool-cases (p x)) [
        | inl q ↦ rw (q, no_ties x (y ∷ ys) q e) refl
        | inr q ↦ rw (q, append-nil) refl
      ]

      behind :
          filter p (insert_by less x ys) ≡ filter p ys ++ filter p (x ∷ [])
          → filter p (y ∷ insert_by less x ys) ≡ filter p (y ∷ ys) ++ filter p (x ∷ [])
      behind h = elim (Bool-cases (p y)) [ inl q ↦ rw q (ap (◌∷◌ y) h) | inr q ↦ rw q h ]

  pub filter-sort_onto :
      (sorted xs : List A) → filter p (sort_onto less sorted xs) ≡ filter p (sorted ++ xs)
  unfolding sort_onto
  filter-sort_onto sorted [] = rw append-nil refl
  filter-sort_onto sorted (x ∷ xs) = filter-sort_onto (insert_by less x sorted) xs ∙ shift
    where
      shift : filter p (insert_by less x sorted ++ xs) ≡ filter p (sorted ++ x ∷ xs)
      shift =
          filter-append p (insert_by less x sorted) xs
          ∙ ap (λ l. l ++ filter p xs) (filter-insert_by x sorted)
          ∙ append_assoc (filter p sorted) (filter p (x ∷ [])) (filter p xs)
          ∙ ap (λ l. filter p sorted ++ l) (sym (filter-append p (x ∷ []) xs))
          ∙ sym (filter-append p sorted (x ∷ xs))
