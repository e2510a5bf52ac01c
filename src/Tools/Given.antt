-- ===== src/Tools/Given.antt =====
-- The types of arguments in src/tools.c, and that a check leaves what other parameters are given.
use mathlib.Core.Path.{subst}
use shclaw.Base.{
  ◌≡◌, sym, ◌∙◌, Bool, false, Option, none, some, inl, inr, if_rule, Bool-cases, Bytes,
}
use shclaw.Base.Int.{ℤ, negsuc}
use shclaw.Json.{
  Value, null, boolean, number, string, object, array, Members, Scanned, get_value, int_of, bool_of,
  replace_item,
}
use shclaw.Json.Replaced.{none-some, get_value-same, get_value-replace_item-other}
use shclaw.Memory.Facts.{IsSame}
use shclaw.Tools.{unquoted, is_none, check_value}
use shclaw.Tools.Choices.{IsAdmitted}
use shclaw.Tools.Table.{ParamType, string_type, int_type, bool_type, Param}

-- A text; where there are choices it is empty, or one of them, or neighbours among them with commas
-- between
abbrev pub IsText : Param → Value → Type 0
IsText p (string s) = IsAdmitted p.choices s
IsText p v = ⊥

-- A value that is there and not null
abbrev pub HasType : (Bytes → Scanned) → Param → Value → ParamType → Type 0
HasType strtol p v string_type = IsText p v
HasType strtol p v int_type =
    (n : ℤ) × (int_of strtol (some v) ≡ some n) × ((n ≡ negsuc 2147483647) → ⊥)
HasType strtol p v bool_type = (b : Bool) × (bool_of (some v) ≡ some b)

-- A parameter may lack a value only where none is required; otherwise the value has its type.
abbrev pub IsGiven : (Bytes → Scanned) → Param → Option Value → Type 0
IsGiven strtol p none = p.required ≡ false
IsGiven strtol p (some null) = p.required ≡ false
IsGiven strtol p (some v) = HasType strtol p v p.type

abbrev pub IsValid : (Bytes → Bytes → Bool) → (Bytes → Scanned) → Members → Param → Type 0
IsValid same strtol input p = IsGiven strtol p (get_value same input p.name)

object_untyped :
    (strtol : Bytes → Scanned) (p : Param) (s : Bytes) (t : ParamType)
    → HasType strtol p (object s) t
    → ⊥
unfolding int_of bool_of
object_untyped strtol p s string_type h = h
object_untyped strtol p s int_type (n, e, h) = none-some e
object_untyped strtol p s bool_type (b, e) = none-some e

array_untyped :
    (strtol : Bytes → Scanned) (p : Param) (s : Bytes) (t : ParamType)
    → HasType strtol p (array s) t
    → ⊥
unfolding int_of bool_of
array_untyped strtol p s string_type h = h
array_untyped strtol p s int_type (n, e, h) = none-some e
array_untyped strtol p s bool_type (b, e) = none-some e

-- A value of no type is replaced: no other parameter that is given is touched.
replace_item-IsValid :
    {same : Bytes → Bytes → Bool} (i : IsSame same) (strtol : Bytes → Scanned) (ms : Members)
    (k : Bytes) (v w : Value) (q : Param)
    → get_value same ms k ≡ some w
    → (IsGiven strtol q (some w) → ⊥)
    → IsValid same strtol ms q
    → IsValid same strtol (replace_item same ms k v) q
replace_item-IsValid {same = same} i strtol ms k v w q e h g = elim (Bool-cases (same k q.name)) [
  | inl f ↦ absurd (h (subst (IsGiven strtol q) (sym (get_value-same i ms k q.name f) ∙ e) g))
  | inr f ↦ subst (IsGiven strtol q) (sym (get_value-replace_item-other i ms k q.name v f)) g
]

unquoted-IsValid :
    {same : Bytes → Bytes → Bool} (i : IsSame same) (strtol : Bytes → Scanned) (ms : Members)
    (p q : Param) (v : Value)
    → get_value same ms p.name ≡ some v
    → IsValid same strtol ms q
    → IsValid same strtol (unquoted same ms p v) q
unfolding unquoted
unquoted-IsValid {same = same} i strtol ms p q (object s) e g =
    if_rule (λ m. IsValid same strtol m q) (is_none p.choices)
      (replace_item same ms p.name (string s)) ms
      (replace_item-IsValid i strtol ms p.name (string s) (object s) q e
        (object_untyped strtol q s q.type) g)
      g
unquoted-IsValid {same = same} i strtol ms p q (array s) e g =
    if_rule (λ m. IsValid same strtol m q) (is_none p.choices)
      (replace_item same ms p.name (string s)) ms
      (replace_item-IsValid i strtol ms p.name (string s) (array s) q e
        (array_untyped strtol q s q.type) g)
      g
unquoted-IsValid i strtol ms p q null e g = g
unquoted-IsValid i strtol ms p q (boolean b) e g = g
unquoted-IsValid i strtol ms p q (number n b) e g = g
unquoted-IsValid i strtol ms p q (string s) e g = g

pub check_value-IsValid :
    {same : Bytes → Bytes → Bool} (i : IsSame same) (strtol : Bytes → Scanned) (ms : Members)
    (p q : Param) (v : Value) (t : ParamType)
    → get_value same ms p.name ≡ some v
    → IsValid same strtol ms q
    → IsValid same strtol (check_value same strtol ms p v t).0 q
unfolding check_value
check_value-IsValid i strtol ms p q v string_type e g = unquoted-IsValid i strtol ms p q v e g
check_value-IsValid i strtol ms p q v int_type e g = g
check_value-IsValid i strtol ms p q v bool_type e g = g
