-- ===== src/Json.antt =====
-- What src/util.c takes from the members of a JSON object: `j_str`, `j_int` and `j_bool`. How cJSON
-- compares names, and `strtol`, are parameters.
pub mod Replaced
use shclaw.Base.{
  Bool, true, false, not, ◌&&◌, ◌||◌, Option, none, some, List, [], ◌∷◌, ◌==◌, if◌then◌else◌, Bytes,
  codes, strcmp_eq, strcasecmp_eq, length,
}
use shclaw.Base.Int.{ℤ, pos, negsuc, ltb_ℤ}

-- A number with its `valueint`, and whether its `valuedouble` is not 0; an object or an array as
-- what `cJSON_PrintUnformatted` prints
pub data Value : Type 0 where
  null : Value
  boolean : Bool → Value
  number : ℤ → Bool → Value
  string : Bytes → Value
  object array : Bytes → Value

abbrev pub Members : Type 0
Members = List (Bytes × Value)

-- What `strtol` finds: the value, the bytes behind it, and whether it was out of range
pub record Scanned : Type 0 where
  pub value : ℤ
  pub rest : Bytes
  pub overflow : Bool

-- The member's value; the first one of that name counts.
unfoldable pub get_value : (Bytes → Bytes → Bool) → Members → Bytes → Option Value
get_value same [] key = none
get_value same (m ∷ ms) key =
    let rest = get_value same ms key in if same m.0 key then some m.1 else rest

abbrev pub string_of : Option Value → Option Bytes
string_of (some (string s)) = some s
string_of _ = none

unfoldable pub j_str : (Bytes → Bytes → Bool) → Members → Bytes → Option Bytes
unfolding get_value
j_str same ms key = string_of (get_value same ms key)

-- `INT_MIN <= v <= INT_MAX`
abbrev pub is_int : ℤ → Bool
is_int v = not (ltb_ℤ v (negsuc 2147483647)) && not (ltb_ℤ (pos 2147483647) v)

unfoldable pub int_text : (Bytes → Scanned) → Bytes → Option ℤ
int_text strtol s =
    let r : Scanned = strtol s in
    if not (length r.rest == length s) && (length r.rest == 0 && (not r.overflow && is_int r.value))
    then some r.value
    else none

-- `none` is the default of the caller.
unfoldable pub int_of : (Bytes → Scanned) → Option Value → Option ℤ
unfolding int_text
int_of strtol (some (number n nonzero)) = some n
int_of strtol (some (string s)) = int_text strtol s
int_of strtol _ = none

unfoldable pub j_int : (Bytes → Bytes → Bool) → (Bytes → Scanned) → Members → Bytes → ℤ → ℤ
unfolding int_of get_value
j_int same strtol ms key default = elim (int_of strtol (get_value same ms key)) [
  | none ↦ default
  | some n ↦ n
]

unfoldable pub bool_text : Bytes → Option Bool
unfolding strcasecmp_eq strcmp_eq
bool_text s =
    if strcasecmp_eq s (codes "true") || strcasecmp_eq s (codes "yes") || strcmp_eq s (codes "1")
    then some true
    else if strcasecmp_eq s (codes "false")
        || strcasecmp_eq s (codes "no")
        || strcmp_eq s (codes "0")
    then some false
    else none

unfoldable pub bool_of : Option Value → Option Bool
unfolding bool_text
bool_of (some (boolean b)) = some b
bool_of (some (number n nonzero)) = some nonzero
bool_of (some (string s)) = bool_text s
bool_of _ = none

unfoldable pub j_bool : (Bytes → Bytes → Bool) → Members → Bytes → Option Bool → Option Bool
unfolding bool_of get_value
j_bool same ms key default = elim (bool_of (get_value same ms key)) [
  | none ↦ default
  | some b ↦ some b
]

-- The first member of that name is replaced, under the name `key`.
unfoldable pub replace_item : (Bytes → Bytes → Bool) → Members → Bytes → Value → Members
replace_item same [] key v = []
replace_item same (m ∷ ms) key v =
    let rest = replace_item same ms key v in if same m.0 key then (key, v) ∷ ms else m ∷ rest
