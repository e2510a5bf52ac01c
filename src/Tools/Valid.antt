-- ===== src/Tools/Valid.antt =====
-- One round of the loop of `tool_check_args` in src/tools.c.
use mathlib.Core.Path.{subst}
use shclaw.Base.{
  ◌⊎◌, ℕ, ◌≡◌, refl, sym, ap, ◌∙◌, Bool, true, false, not, Option, none, some, inl, inr, if_rule,
  Bool-cases, some_injective, Bytes, arith, ◌==◌,
}
use shclaw.Base.Int.{ℤ, pos, negsuc}
use shclaw.Json.{
  Value, null, boolean, number, string, object, array, Members, Scanned, get_value, int_of, bool_of,
  j_int, j_bool, replace_item,
}
use shclaw.Json.Replaced.{true-false, none-some, get_value-replace_item}
use shclaw.Memory.Facts.{IsSame}
use shclaw.Tools.{
  is_choice, unquoted, string_ok, is_none, check_value, check_param, is_some_int, is_some_bool,
}
use shclaw.Tools.Choices.{Fits, is_choice-IsAdmitted, IsAdmitted-is_choice}
use shclaw.Tools.Table.{ParamType, string_type, int_type, bool_type, Param}
use shclaw.Tools.Given.{HasType, IsGiven, IsValid, check_value-IsValid}

-- What the check of a parameter says of a value: it is given, or the input lacks it
string_ok-cases :
    (strtol : Bytes → Scanned) (p : Param) (f : Fits p.choices) (v : Value)
    → ((string_ok p (some v) ≡ true) × HasType strtol p v string_type)
      ⊎ ((string_ok p (some v) ≡ false) × (HasType strtol p v string_type → ⊥))
unfolding string_ok
string_ok-cases strtol p f (string s) = elim (Bool-cases (is_choice p.choices s)) [
  | inl e ↦ inl (e, is_choice-IsAdmitted p.choices s f e)
  | inr e ↦ inr (e, λ h. true-false (sym (IsAdmitted-is_choice p.choices s f h) ∙ e))
]
string_ok-cases strtol p f null = inr (refl, λ h. h)
string_ok-cases strtol p f (boolean b) = inr (refl, λ h. h)
string_ok-cases strtol p f (number n b) = inr (refl, λ h. h)
string_ok-cases strtol p f (object s) = inr (refl, λ h. h)
string_ok-cases strtol p f (array s) = inr (refl, λ h. h)

abbrev NonNull : Value → Type 0
NonNull null = ⊥
NonNull v = Unit

-- An input after a check: what it holds, and whether that has the type is what the check says.
record Decided (same : Bytes → Bytes → Bool) (strtol : Bytes → Scanned) (p : Param) (t : ParamType)
    (r : Members × Bool) : Type 0 where
  value : Value
  is : get_value same r.0 p.name ≡ some value
  non_null : NonNull value
  verdict :
      ((r.1 ≡ true) × HasType strtol p value t) ⊎ ((r.1 ≡ false) × (HasType strtol p value t → ⊥))

text-Decided :
    {same : Bytes → Bytes → Bool} (strtol : Bytes → Scanned) (p : Param) (f : Fits p.choices)
    (ms : Members) (v : Value)
    → get_value same ms p.name ≡ some v
    → NonNull v
    → Decided same strtol p string_type (ms, string_ok p (get_value same ms p.name))
text-Decided {same = same} strtol p f ms v e n = record {
  value = v;
  is = e;
  non_null = n;
  verdict = rw e (string_ok-cases strtol p f v);
}

unquoted-Decided :
    {same : Bytes → Bytes → Bool} (i : IsSame same) (strtol : Bytes → Scanned) (p : Param)
    (f : Fits p.choices) (ms : Members) (v : Value)
    → get_value same ms p.name ≡ some v
    → NonNull v
    → Decided same strtol p string_type
        (unquoted same ms p v, string_ok p (get_value same (unquoted same ms p v) p.name))
unfolding unquoted
unquoted-Decided {same = same} i strtol p f ms (object s) e n =
    if_rule (λ m. Decided same strtol p string_type (m, string_ok p (get_value same m p.name)))
      (is_none p.choices) (replace_item same ms p.name (string s)) ms
      (text-Decided strtol p f (replace_item same ms p.name (string s)) (string s)
        (get_value-replace_item i ms p.name (string s) (object s) e) tt)
      (text-Decided strtol p f ms (object s) e n)
unquoted-Decided {same = same} i strtol p f ms (array s) e n =
    if_rule (λ m. Decided same strtol p string_type (m, string_ok p (get_value same m p.name)))
      (is_none p.choices) (replace_item same ms p.name (string s)) ms
      (text-Decided strtol p f (replace_item same ms p.name (string s)) (string s)
        (get_value-replace_item i ms p.name (string s) (array s) e) tt)
      (text-Decided strtol p f ms (array s) e n)
unquoted-Decided i strtol p f ms null e n = absurd n
unquoted-Decided i strtol p f ms (boolean b) e n = text-Decided strtol p f ms (boolean b) e n
unquoted-Decided i strtol p f ms (number m b) e n = text-Decided strtol p f ms (number m b) e n
unquoted-Decided i strtol p f ms (string s) e n = text-Decided strtol p f ms (string s) e n

is_some_int-cases :
    (o : Option ℤ)
    → ((is_some_int (elim o [ none ↦ negsuc 2147483647 | some n ↦ n ]) ≡ true)
        × ((n : ℤ) × (o ≡ some n) × ((n ≡ negsuc 2147483647) → ⊥)))
      ⊎ ((is_some_int (elim o [ none ↦ negsuc 2147483647 | some n ↦ n ]) ≡ false)
          × (((n : ℤ) × (o ≡ some n) × ((n ≡ negsuc 2147483647) → ⊥)) → ⊥))
is_some_int-cases none = inr (refl, λ (n, e, h). none-some e)
is_some_int-cases (some n) = elim (Bool-cases (is_some_int n)) [
  | inl e ↦ inl (e, (n, refl, λ f. true-false (sym e ∙ ap is_some_int f)))
  | inr e ↦ inr (e, λ (m, f, h). h (sym (some_injective f) ∙ is_min n e))
]
  where
    is_min : (n : ℤ) → is_some_int n ≡ false → n ≡ negsuc 2147483647
    is_min (pos n) e = absurd (true-false e)
    is_min (negsuc n) e = ap negsuc (least n e)
      where
        least : (n : ℕ) → not (n == 2147483647) ≡ false → n ≡ 2147483647
        least n e = ground arith

is_some_bool-cases :
    (o : Option Bool)
    → ((is_some_bool (elim o [ none ↦ none | some b ↦ some b ]) ≡ true)
        × ((b : Bool) × (o ≡ some b)))
      ⊎ ((is_some_bool (elim o [ none ↦ none | some b ↦ some b ]) ≡ false)
          × (((b : Bool) × (o ≡ some b)) → ⊥))
is_some_bool-cases none = inr (refl, λ (b, e). none-some e)
is_some_bool-cases (some b) = inl (refl, (b, refl))

check_value-Decided :
    {same : Bytes → Bytes → Bool} (i : IsSame same) (strtol : Bytes → Scanned) (p : Param)
    (f : Fits p.choices) (ms : Members) (v : Value) (t : ParamType)
    → get_value same ms p.name ≡ some v
    → NonNull v
    → Decided same strtol p t (check_value same strtol ms p v t)
unfolding check_value j_int j_bool
check_value-Decided i strtol p f ms v string_type e n = unquoted-Decided i strtol p f ms v e n
check_value-Decided i strtol p f ms v int_type e n = record {
  value = v;
  is = e;
  non_null = n;
  verdict = rw (e, check_value, j_int) (is_some_int-cases (int_of strtol (some v)));
}
check_value-Decided i strtol p f ms v bool_type e n = record {
  value = v;
  is = e;
  non_null = n;
  verdict = rw (e, check_value, j_bool) (is_some_bool-cases (bool_of (some v)));
}

-- What a check answers is whether the parameter is given in the input that it leaves.
pub record Settled (same : Bytes → Bytes → Bool) (strtol : Bytes → Scanned) (p : Param)
    (r : Members × Bool) : Type 0 where
  pub answer :
      ((r.1 ≡ true) × IsValid same strtol r.0 p) ⊎ ((r.1 ≡ false) × (IsValid same strtol r.0 p → ⊥))

given→type :
    (strtol : Bytes → Scanned) (p : Param) (w : Value)
    → NonNull w
    → IsGiven strtol p (some w)
    → HasType strtol p w p.type
given→type strtol p null n g = absurd n
given→type strtol p (boolean b) n g = g
given→type strtol p (number m b) n g = g
given→type strtol p (string s) n g = g
given→type strtol p (object s) n g = g
given→type strtol p (array s) n g = g

type→given :
    (strtol : Bytes → Scanned) (p : Param) (w : Value)
    → NonNull w
    → HasType strtol p w p.type
    → IsGiven strtol p (some w)
type→given strtol p null n g = absurd n
type→given strtol p (boolean b) n g = g
type→given strtol p (number m b) n g = g
type→given strtol p (string s) n g = g
type→given strtol p (object s) n g = g
type→given strtol p (array s) n g = g

Decided-Settled :
    {same : Bytes → Bytes → Bool} (strtol : Bytes → Scanned) (p : Param) (r : Members × Bool)
    → Decided same strtol p p.type r
    → Settled same strtol p r
Decided-Settled {same = same} strtol p r d = record {
  answer = elim d.verdict [
    | inl (e, h) ↦
        inl (e, subst (IsGiven strtol p) (sym d.is) (type→given strtol p d.value d.non_null h))
    | inr (e, h) ↦
        inr (e, λ g. h (given→type strtol p d.value d.non_null (subst (IsGiven strtol p) d.is g)))
  ];
}

absent-Settled :
    {same : Bytes → Bytes → Bool} (strtol : Bytes → Scanned) (p : Param) (ms : Members)
    → (IsValid same strtol ms p ≡ (p.required ≡ false))
    → Settled same strtol p (ms, not p.required)
absent-Settled strtol p ms e = record {
  answer = elim (Bool-cases p.required) [
    | inl f ↦ inr (ap not f, λ g. true-false (sym f ∙ subst (λ t. t) e g))
    | inr f ↦ inl (ap not f, subst (λ t. t) (sym e) f)
  ];
}

pub check_param-Settled :
    {same : Bytes → Bytes → Bool} (i : IsSame same) (strtol : Bytes → Scanned) (p : Param)
    (f : Fits p.choices) (ms : Members) (v : Option Value)
    → get_value same ms p.name ≡ v
    → Settled same strtol p (check_param same strtol ms p v)
unfolding check_param
check_param-Settled i strtol p f ms none e = absent-Settled strtol p ms (ap (IsGiven strtol p) e)
check_param-Settled i strtol p f ms (some null) e =
    absent-Settled strtol p ms (ap (IsGiven strtol p) e)
check_param-Settled i strtol p f ms (some (boolean b)) e =
    Decided-Settled strtol p _ (check_value-Decided i strtol p f ms (boolean b) p.type e tt)
check_param-Settled i strtol p f ms (some (number m b)) e =
    Decided-Settled strtol p _ (check_value-Decided i strtol p f ms (number m b) p.type e tt)
check_param-Settled i strtol p f ms (some (string s)) e =
    Decided-Settled strtol p _ (check_value-Decided i strtol p f ms (string s) p.type e tt)
check_param-Settled i strtol p f ms (some (object s)) e =
    Decided-Settled strtol p _ (check_value-Decided i strtol p f ms (object s) p.type e tt)
check_param-Settled i strtol p f ms (some (array s)) e =
    Decided-Settled strtol p _ (check_value-Decided i strtol p f ms (array s) p.type e tt)

pub check_param-IsValid :
    {same : Bytes → Bytes → Bool} (i : IsSame same) (strtol : Bytes → Scanned) (ms : Members)
    (p q : Param) (v : Option Value)
    → get_value same ms p.name ≡ v
    → IsValid same strtol ms q
    → IsValid same strtol (check_param same strtol ms p v).0 q
unfolding check_param
check_param-IsValid i strtol ms p q none e g = g
check_param-IsValid i strtol ms p q (some null) e g = g
check_param-IsValid i strtol ms p q (some (boolean b)) e g =
    check_value-IsValid i strtol ms p q (boolean b) p.type e g
check_param-IsValid i strtol ms p q (some (number m b)) e g =
    check_value-IsValid i strtol ms p q (number m b) p.type e g
check_param-IsValid i strtol ms p q (some (string s)) e g =
    check_value-IsValid i strtol ms p q (string s) p.type e g
check_param-IsValid i strtol ms p q (some (object s)) e g =
    check_value-IsValid i strtol ms p q (object s) p.type e g
check_param-IsValid i strtol ms p q (some (array s)) e g =
    check_value-IsValid i strtol ms p q (array s) p.type e g
