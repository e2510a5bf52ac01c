-- ===== src/Memory/Facts/Kept.antt =====
-- What src/memory.c reads back of the facts it saved.
use mathlib.Core.Path.{subst}
use shclaw.Base.{
  ◌≡◌, refl, sym, ◌∙◌, ap, Bool, true, false, Option, none, some, inl, inr, [], ◌∷◌, ◌++◌, arith,
  if◌then◌else◌, Bool-cases, Bytes, snprintf, ℕ,
}
use shclaw.Memory.Facts.{
  Members, FactFile, object, load_facts, delete_item, get_item, j_str, set_member, facts_set,
  facts_get, save_fact, or_not_found, IsSame, IsObject, fact_saved, members_of,
}

module _ (same : Bytes → Bytes → Bool) (laws : IsSame same) where
  -- A name that is missing is missing under any spelling.
  respell :
      (a b : Bytes) (ms : Members)
      → same a b ≡ true
      → get_item same a ms ≡ none
      → get_item same b ms ≡ none
  unfolding get_item
  respell a b [] s h = refl
  respell a b (m ∷ ms) s h = elim (Bool-cases (same m.0 b)) [
    | inl e ↦
        let f : same m.0 a ≡ true =
          laws.euclid b m.0 a (laws.sym_same m.0 b e) (laws.sym_same a b s) in
        let g : some m ≡ none = rw (f, get_item) at h in ground arith
    | inr e ↦ rw (e, get_item) (respell a b ms s (tail h))
  ]
    where
      tail : get_item same a (m ∷ ms) ≡ none → get_item same a ms ≡ none
      tail h = elim (Bool-cases (same m.0 a)) [
        | inl e ↦ let g : some m ≡ none = rw (e, get_item) at h in ground arith
        | inr e ↦ rw (e, get_item) at h
      ]

  skipped :
      (key : Bytes) (m : Bytes × Option Bytes) (ms : Members)
      → same m.0 key ≡ false
      → get_item same key (m ∷ ms) ≡ get_item same key ms
  unfolding get_item
  skipped key m ms e = rw (e, get_item) refl

  differ : (a b : Bytes) → same a b ≡ false → same b a ≡ false
  differ a b h = elim (Bool-cases (same b a)) [
    | inl e ↦ let g : same a b ≡ true = laws.sym_same b a e in ground arith
    | inr e ↦ e
  ]

  deleted :
      (key : Bytes) (ms : Members)
      → IsObject same ms
      → get_item same key (delete_item same key ms) ≡ none
  unfolding get_item delete_item
  deleted key [] o = refl
  deleted key (m ∷ ms) o = elim (Bool-cases (same m.0 key)) [
    | inl e ↦ rw (e, delete_item) (respell m.0 key ms e o.0)
    | inr e ↦ rw (e, delete_item) (skipped key m (delete_item same key ms) e ∙ deleted key ms o.1)
  ]

  other_kept :
      (key other : Bytes) (ms : Members)
      → same key other ≡ false
      → get_item same other (delete_item same key ms) ≡ get_item same other ms
  unfolding get_item delete_item
  other_kept key other [] n = refl
  other_kept key other (m ∷ ms) n = elim (Bool-cases (same m.0 key)) [
    | inl e ↦ elim (Bool-cases (same m.0 other)) [
      | inl f ↦ let g : same key other ≡ true = laws.euclid m.0 key other e f in ground arith
      | inr f ↦ rw (e, f, delete_item, get_item) refl
    ]
    | inr e ↦ elim (Bool-cases (same m.0 other)) [
      | inl f ↦ rw (e, f, delete_item, get_item) refl
      | inr f ↦ rw (e, f, delete_item, get_item) (other_kept key other ms n)
    ]
  ]

  at_end :
      (key : Bytes) (ms : Members) (m : Bytes × Option Bytes)
      → get_item same key ms ≡ none
      → get_item same key (ms ++ m ∷ []) ≡ get_item same key (m ∷ [])
  unfolding get_item
  at_end key [] m h = refl
  at_end key (n ∷ ms) m h = elim (Bool-cases (same n.0 key)) [
    | inl e ↦ let g : some n ≡ none = rw (e, get_item) at h in ground arith
    | inr e ↦ rw (e, get_item) (at_end key ms m (rw (e, get_item) at h))
  ]

  before_end :
      (key : Bytes) (ms : Members) (m : Bytes × Option Bytes)
      → same m.0 key ≡ false
      → get_item same key (ms ++ m ∷ []) ≡ get_item same key ms
  unfolding get_item
  before_end key [] m h = rw h refl
  before_end key (n ∷ ms) m h = elim (Bool-cases (same n.0 key)) [
    | inl e ↦ rw (e, get_item) refl
    | inr e ↦ rw (e, get_item) (before_end key ms m h)
  ]

  IsObject-delete :
      (key : Bytes) (ms : Members) → IsObject same ms → IsObject same (delete_item same key ms)
  unfolding delete_item
  IsObject-delete key [] o = tt
  IsObject-delete key (m ∷ ms) o = elim (Bool-cases (same m.0 key)) [
    | inl e ↦ rw (e, delete_item) o.1
    | inr e ↦
        rw (e, delete_item)
          (other_kept key m.0 ms (differ m.0 key e) ∙ o.0, IsObject-delete key ms o.1)
  ]

  IsObject-append :
      (ms : Members) (key : Bytes) (value : Option Bytes)
      → IsObject same ms
      → get_item same key ms ≡ none
      → IsObject same (ms ++ (key, value) ∷ [])
  unfolding get_item
  IsObject-append [] key value o h = (refl, tt)
  IsObject-append (m ∷ ms) key value o h = elim (Bool-cases (same m.0 key)) [
    | inl e ↦ let g : some m ≡ none = rw (e, get_item) at h in ground arith
    | inr e ↦ (
      at_end m.0 ms (key, value) o.0 ∙ skipped m.0 (key, value) [] (differ m.0 key e),
      IsObject-append ms key value o.1 (rw (e, get_item) at h),
    )
  ]

  set_member-IsObject :
      (key value : Bytes) (ms : Members)
      → IsObject same ms
      → IsObject same (set_member same key value ms)
  set_member-IsObject key value ms o =
      IsObject-append (delete_item same key ms) key (some value) (IsObject-delete key ms o)
        (deleted key ms o)

  get_item-set_member :
      (key value k : Bytes) (ms : Members)
      → IsObject same ms
      → same key k ≡ true
      → get_item same k (set_member same key value ms) ≡ some (key, some value)
  unfolding get_item
  get_item-set_member key value k ms o e =
      at_end k (delete_item same key ms) (key, some value)
        (respell key k (delete_item same key ms) e (deleted key ms o))
      ∙ rw (e, get_item) refl

  get_item-set_member-other :
      (key value k : Bytes) (ms : Members)
      → same key k ≡ false
      → get_item same k (set_member same key value ms) ≡ get_item same k ms
  get_item-set_member-other key value k ms e =
      before_end k (delete_item same key ms) (key, some value) e ∙ other_kept key k ms e

-- What reads say after a fact was saved: its text under every spelling of its name, and under
-- other names what they said before; the object has no name twice.
pub record IsSaved (same : Bytes → Bytes → Bool) (key value : Bytes) (old new : FactFile)
    : Type 0 where
  pub object_new : IsObject same (members_of new)
  pub reads :
      (c : ℕ) (k : Bytes) (n : ℕ)
      → facts_get same new (some (c ∷ k)) n
        ≡ (if same key (c ∷ k) then snprintf n value else facts_get same old (some (c ∷ k)) n)

IsSaved-object :
    (same : Bytes → Bytes → Bool)
    → IsSame same
    → (file : FactFile) (key value : Bytes) → IsObject same (members_of file)
    → IsSaved same key value file (object (set_member same key value (members_of file)))
unfolding facts_get j_str load_facts
IsSaved-object same laws file key value o = record {
  object_new = set_member-IsObject same laws key value (members_of file) o;
  reads = λ c k n. elim (Bool-cases (same key (c ∷ k))) [
    | inl e ↦
        rw (e, j_str, get_item-set_member same laws key value (c ∷ k) (members_of file) o e) refl
    | inr e ↦ rw e (
        ap (λ m. snprintf n (or_not_found (elim m [ none ↦ none | some x ↦ x.1 ])))
          (get_item-set_member-other same laws key value (c ∷ k) (members_of file) e))
  ];
}

-- Saving a fact under a name that is not empty, where the file can be read, answers so, and a read
-- under any spelling of the name gives its text then; reads under other names give what they gave.
pub facts_set-IsSaved :
    (same : Bytes → Bytes → Bool)
    → IsSame same
    → (file : FactFile) (ms : Members) (c : ℕ) (s value : Bytes) → load_facts file ≡ some ms
    → IsObject same ms
    → ((facts_set same true file (some (c ∷ s)) (some value)).1 ≡ fact_saved (c ∷ s) value)
      × IsSaved same (c ∷ s) value file (facts_set same true file (some (c ∷ s)) (some value)).0
unfolding facts_set save_fact
facts_set-IsSaved same laws file ms c s value e o =
    let h : members_of file ≡ ms = rw (e, members_of) refl in
    let saved : IsSaved same (c ∷ s) value file
        (object (set_member same (c ∷ s) value (members_of file))) =
      IsSaved-object same laws file (c ∷ s) value (subst (IsObject same) (sym h) o) in
    let q : IsSaved same (c ∷ s) value file (object (set_member same (c ∷ s) value ms)) =
      subst (λ x. IsSaved same (c ∷ s) value file (object (set_member same (c ∷ s) value x))) h
        saved in
    (rw (e, facts_set, save_fact) refl, rw (e, facts_set, save_fact) q)
