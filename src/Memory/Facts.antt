-- ===== src/Memory/Facts.antt =====
-- The facts of src/memory.c: a JSON object, the list of its members in their order. cJSON compares
-- the names of members without regard to case, and not in a way that the source says: `same` is a
-- parameter. `none` is a member that is no string.
pub mod Kept
use shclaw.Base.{
  ℕ, ◌≡◌, refl, Bool, true, false, not, Option, none, some, inl, inr, List, [], ◌∷◌, ◌++◌, arith,
  if◌then◌else◌, Bool-cases, Bytes, codes, snprintf,
}
use shclaw.Util.Buf.{append_all}

abbrev pub Members : Type 0
Members = List (Bytes × Option Bytes)

-- A missing file is an empty object; one that does not parse is `corrupt`.
pub data FactFile : Type 0 where
  absent corrupt : FactFile
  object : Members → FactFile

unfoldable pub load_facts : FactFile → Option Members
load_facts absent = some []
load_facts corrupt = none
load_facts (object ms) = some ms

-- `cJSON_DeleteItemFromObject`: the first member of that name
unfoldable pub delete_item : (Bytes → Bytes → Bool) → Bytes → Members → Members
delete_item same key [] = []
delete_item same key (m ∷ ms) =
    let rest = delete_item same key ms in if same m.0 key then ms else m ∷ rest

-- `cJSON_GetObjectItem`: the first member of that name
unfoldable pub get_item : (Bytes → Bytes → Bool) → Bytes → Members → Option (Bytes × Option Bytes)
get_item same key [] = none
get_item same key (m ∷ ms) =
    let rest = get_item same key ms in if same m.0 key then some m else rest

-- `j_str`: NULL where the member is missing or no string
unfoldable pub j_str : (Bytes → Bytes → Bool) → Members → Bytes → Option Bytes
unfolding get_item
j_str same ms key = elim (get_item same key ms) [ none ↦ none | some m ↦ m.1 ]

pub data Answer : Type 0 where
  fields_required cannot_save : Answer
  fact_saved : Bytes → Bytes → Answer

abbrev pub set_member : (Bytes → Bytes → Bool) → Bytes → Bytes → Members → Members
set_member same key value ms = delete_item same key ms ++ (key, some value) ∷ []

unfoldable pub save_fact :
    (Bytes → Bytes → Bool) → Bool → FactFile → Bytes → Bytes → FactFile × Answer
unfolding load_facts delete_item
save_fact same saved file key value = elim (load_facts file) [
  | none ↦ (file, cannot_save)
  | some ms ↦
      if saved
      then (object (set_member same key value ms), fact_saved key value)
      else (file, cannot_save)
]

unfoldable pub facts_set :
    (Bytes → Bytes → Bool) → Bool → FactFile → Option Bytes → Option Bytes → FactFile × Answer
unfolding save_fact
facts_set same saved file (some (c ∷ s)) (some value) = save_fact same saved file (c ∷ s) value
facts_set same saved file _ _ = (file, fields_required)

unfoldable pub fact_lines : Members → List Bytes
fact_lines [] = []
fact_lines ((key, none) ∷ ms) = fact_lines ms
fact_lines ((key, some value) ∷ ms) =
    (codes "- " ++ (key ++ (codes ": " ++ (value ++ codes "\n")))) ∷ fact_lines ms

abbrev pub members_of : FactFile → Members
members_of file = elim (load_facts file) [ none ↦ [] | some ms ↦ ms ]

abbrev pub or_not_found : Option Bytes → Bytes
or_not_found none = codes "(not found)"
or_not_found (some s) = s

-- What `out` holds: without a key every fact, one line each
unfoldable pub facts_get : (Bytes → Bytes → Bool) → FactFile → Option Bytes → ℕ → Bytes
unfolding load_facts fact_lines append_all j_str
facts_get same file (some (c ∷ s)) out_sz =
    snprintf out_sz (or_not_found (j_str same (members_of file) (c ∷ s)))
facts_get same file _ out_sz = append_all out_sz [] (fact_lines (members_of file))

unfoldable pub facts_clear : FactFile → FactFile
facts_clear file = absent

-- How names compare: an equivalence
pub record IsSame (same : Bytes → Bytes → Bool) : Type 0 where
  pub refl_same : (a : Bytes) → same a a ≡ true
  pub euclid : (a b c : Bytes) → same a b ≡ true → same a c ≡ true → same b c ≡ true
  pub sym_same : (a b : Bytes) → same a b ≡ true → same b a ≡ true

-- No two members have the same name.
abbrev pub AbsentName : (Bytes → Bytes → Bool) → Bytes → Members → Type 0
AbsentName same key ms = get_item same key ms ≡ none

abbrev pub IsObject : (Bytes → Bytes → Bool) → Members → Type 0
IsObject same [] = Unit
IsObject same (m ∷ ms) = AbsentName same m.0 ms × IsObject same ms
