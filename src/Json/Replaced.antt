-- ===== src/Json/Replaced.antt =====
-- Members of a JSON object in src/util.c, one of which is replaced.
use shclaw.Base.{
  ◌≡◌, refl, sym, ap, ◌∙◌, Bool, true, false, none, some, inl, inr, [], ◌∷◌, if◌then◌else◌,
  Bool-cases, Bytes,
}
use shclaw.Json.{Value, Members, get_value, replace_item}
use shclaw.Memory.Facts.{IsSame}

pub true-false : true ≡ false → ⊥
true-false e = cc

pub none-some {ℓ} : {A : Type ℓ} {a : A} → none ≡ some a → ⊥
none-some e = cc

same_ext :
    {same : Bytes → Bytes → Bool} (i : IsSame same) (a k q : Bytes)
    → same k q ≡ true
    → same a k ≡ same a q
same_ext {same = same} i a k q e = elim (Bool-cases (same a k)) [
  | inl f ↦ f ∙ sym (i.euclid k a q (i.sym_same a k f) e)
  | inr f ↦ elim (Bool-cases (same a q)) [
    | inl g ↦
        let h : same k a ≡ true = i.euclid q k a (i.sym_same k q e) (i.sym_same a q g) in
        absurd (true-false (sym (i.sym_same k a h) ∙ f))
    | inr g ↦ f ∙ sym g
  ]
]

pub get_value-same :
    {same : Bytes → Bytes → Bool} (i : IsSame same) (ms : Members) (k q : Bytes)
    → same k q ≡ true
    → get_value same ms k ≡ get_value same ms q
unfolding get_value
get_value-same i [] k q e = refl
get_value-same {same = same} i (m ∷ ms) k q e =
    rw (same_ext i m.0 k q e)
      (ap (λ r. if same m.0 q then some m.1 else r) (get_value-same i ms k q e))

pub get_value-replace_item-other :
    {same : Bytes → Bytes → Bool} (i : IsSame same) (ms : Members) (k q : Bytes) (v : Value)
    → same k q ≡ false
    → get_value same (replace_item same ms k v) q ≡ get_value same ms q
unfolding get_value replace_item
get_value-replace_item-other i [] k q v e = refl
get_value-replace_item-other {same = same} i (m ∷ ms) k q v e = elim (Bool-cases (same m.0 k)) [
  | inl f ↦ elim (Bool-cases (same m.0 q)) [
    | inl g ↦ absurd (true-false (sym (i.euclid m.0 k q f g) ∙ e))
    | inr g ↦ rw (f, e, g) refl
  ]
  | inr f ↦
      rw f
        (ap (λ r. if same m.0 q then some m.1 else r) (get_value-replace_item-other i ms k q v e))
]

pub get_value-replace_item :
    {same : Bytes → Bytes → Bool} (i : IsSame same) (ms : Members) (k : Bytes) (v w : Value)
    → get_value same ms k ≡ some w
    → get_value same (replace_item same ms k v) k ≡ some v
unfolding get_value replace_item
get_value-replace_item i [] k v w h = absurd (none-some h)
get_value-replace_item {same = same} i (m ∷ ms) k v w h = elim (Bool-cases (same m.0 k)) [
  | inl f ↦ rw (f, i.refl_same k) refl
  | inr f ↦ rw (f, f) (get_value-replace_item i ms k v w (rw (f, get_value) at h))
]
