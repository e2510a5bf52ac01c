-- ===== src/Ini/Unescape.antt =====
-- The escapes of src/ini.c: what is written with them reads back, and a value fits its buffer.
use shclaw.Base.{
  ℕ, ◌-◌, ◌≤◌, ◌<◌, ◌≡◌, refl, ap, ◌∙◌, true, false, some, inl, inr, [], ◌∷◌, ltb, ◌==◌,
  if◌then◌else◌, Bool-cases, Option-cases, Bytes, length, arith,
}
use shclaw.Ini.{ini_unescape, escaped}

-- How a text is written: the bytes with an escape of their own by it
unfoldable pub escape : Bytes → Bytes
escape [] = []
escape (c ∷ s) =
    let rest = escape s in
    if c == 10
    then b'\\' ∷ b'n' ∷ rest
    else if c == 13
    then b'\\' ∷ b'r' ∷ rest
    else if c == 9
    then b'\\' ∷ b't' ∷ rest
    else if c == b'\\'
    then b'\\' ∷ b'\\' ∷ rest
    else if c == b'"'
    then b'\\' ∷ b'"' ∷ rest
    else c ∷ rest

plain :
    (n c : ℕ) (r : Bytes)
    → (c == b'\\') ≡ false
    → ltb 1 n ≡ true
    → ini_unescape n (c ∷ r) ≡ c ∷ ini_unescape (n - 1) r
unfolding ini_unescape
plain n c [] e h = ground arith
plain n c (d ∷ r) e h = rw (e, h) refl

special :
    (n d e : ℕ) (r : Bytes)
    → escaped d ≡ some e
    → ltb 1 n ≡ true
    → ini_unescape n (b'\\' ∷ d ∷ r) ≡ e ∷ ini_unescape (n - 1) r
unfolding ini_unescape
special n d e r f h = rw (f, h) refl

nothing : (n : ℕ) → ini_unescape n [] ≡ []
unfolding ini_unescape
nothing n = refl

-- A text that is shorter than the buffer reads back from its escapes.
pub ini_unescape-escape : (n : ℕ) (s : Bytes) → length s < n → ini_unescape n (escape s) ≡ s
unfolding escape escaped
ini_unescape-escape n [] h = nothing n
ini_unescape-escape n (c ∷ s) h =
    let room : ltb 1 n ≡ true = ground arith in
    let rest : ini_unescape (n - 1) (escape s) ≡ s = ini_unescape-escape (n - 1) s (omega arith) in
    elim (Bool-cases (c == 10)) [
      | inl e ↦ rw e (by_escape b'n' 10 refl e room rest)
      | inr e1 ↦ elim (Bool-cases (c == 13)) [
        | inl e ↦ rw (e1, e) (by_escape b'r' 13 refl e room rest)
        | inr e2 ↦ elim (Bool-cases (c == 9)) [
          | inl e ↦ rw (e1, e2, e) (by_escape b't' 9 refl e room rest)
          | inr e3 ↦ elim (Bool-cases (c == b'\\')) [
            | inl e ↦ rw (e1, e2, e3, e) (by_escape b'\\' b'\\' refl e room rest)
            | inr e4 ↦ elim (Bool-cases (c == b'"')) [
              | inl e ↦ rw (e1, e2, e3, e4, e) (by_escape b'"' b'"' refl e room rest)
              | inr e5 ↦ rw (e1, e2, e3, e4, e5) (plain n c (escape s) e4 room ∙ ap (◌∷◌ c) rest)
            ]
          ]
        ]
      ]
    ]
  where
    by_escape :
        (d e : ℕ)
        → escaped d ≡ some e
        → (c == e) ≡ true
        → ltb 1 n ≡ true
        → ini_unescape (n - 1) (escape s) ≡ s
        → ini_unescape n (b'\\' ∷ d ∷ escape s) ≡ c ∷ s
    by_escape d e f q room rest =
        let same : e ≡ c = ground arith in
        special n d e (escape s) f room
        ∙ ap (λ x. x ∷ ini_unescape (n - 1) (escape s)) same
        ∙ ap (◌∷◌ c) rest

-- Whatever the escapes, the result leaves room for the NUL.
length-ini_unescape : (n : ℕ) (s : Bytes) → length (ini_unescape n s) ≤ n - 1
unfolding ini_unescape
length-ini_unescape n [] = omega arith
length-ini_unescape n (c ∷ []) = ground arith
length-ini_unescape n (c ∷ d ∷ s) =
    let p : length (ini_unescape (n - 1) (d ∷ s)) ≤ n - 1 - 1 =
      length-ini_unescape (n - 1) (d ∷ s) in
    let q : length (ini_unescape (n - 1) s) ≤ n - 1 - 1 = length-ini_unescape (n - 1) s in
    let r : length (ini_unescape (n - 2) s) ≤ n - 2 - 1 = length-ini_unescape (n - 2) s in
    elim (Bool-cases (ltb 1 n)) [
      | inr e ↦ rw (e, ini_unescape) (omega arith)
      | inl e ↦ elim (Bool-cases (c == b'\\')) [
        | inr f ↦ rw (e, f, ini_unescape) (ground arith)
        | inl f ↦ elim (Option-cases (escaped d)) [
          | inr (x, g) ↦ rw (e, f, g, ini_unescape) (ground arith)
          | inl g ↦ rw (e, f, g, ini_unescape) (ground arith)
        ]
      ]
    ]
