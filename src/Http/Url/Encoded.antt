-- ===== src/Http/Url/Encoded.antt =====
-- What `encode_path` of src/http.c writes into a request line.
use mathlib.Core.Path.{subst}
use shclaw.Base.{
  some_injective, ℕ, ◌+◌, ◌/◌, ◌%◌, ◌≤◌, ◌<◌, ◌≡◌, false, none, some, inl, inr, [], ◌∷◌, ◌++◌, ltb,
  Bytes, length, length-append, All, All-append, Bool-cases, arith,
}
use shclaw.Http.Url.{must_escape, hex_digit, encoded, encode_from, encode_path}

-- A byte that neither ends a request line nor starts the next field of it
abbrev pub IsPrintable : ℕ → Type 0
IsPrintable c = (0x20 < c) × (c < 0x7f)

printable : (c : ℕ) → must_escape c ≡ false → IsPrintable c
unfolding must_escape
printable c h = ground arith

hex_digit_bounds : (n : ℕ) → n < 16 → (48 ≤ hex_digit n) × (hex_digit n ≤ 70)
unfolding hex_digit
hex_digit_bounds n h = ground arith

hex_digit-IsPrintable : (n : ℕ) → n < 16 → IsPrintable (hex_digit n)
hex_digit-IsPrintable n h = let b = hex_digit_bounds n h in (omega arith, omega arith)

encoded_lem : (c : ℕ) → c < 256 → All IsPrintable (encoded c) × (length (encoded c) ≤ 3)
encoded_lem c h = elim (Bool-cases (must_escape c)) [
  | inl e ↦ rw e (
    (
      (omega arith, omega arith),
      (
        hex_digit-IsPrintable (c / 16) (omega arith),
        (hex_digit-IsPrintable (c % 16) (omega arith), tt),
      ),
    ),
    omega arith,
  )
  | inr e ↦ rw e ((printable c e, tt), omega arith)
]

pub record Fits (sz : ℕ) (out : Bytes) : Type 0 where
  pub printable_bytes : All IsPrintable out
  pub room : length out < sz

encode_from-Fits :
    (sz : ℕ) (out s result : Bytes)
    → All (λ c. c < 256) s
    → Fits sz out
    → encode_from sz out s ≡ some result
    → Fits sz result
unfolding encode_from
encode_from-Fits sz out [] result b f e = subst (Fits sz) (some_injective e) f
encode_from-Fits sz out (c ∷ s) result b f e = elim (Bool-cases (ltb sz (length out + 4))) [
  | inl h ↦ let q : none ≡ some result = rw (h, encode_from) at e in ground arith
  | inr h ↦
      let l = encoded_lem c b.0 in
      encode_from-Fits sz (out ++ encoded c) s result b.1
        (record {
          printable_bytes = All-append IsPrintable out (encoded c) f.printable_bytes l.0;
          room =
              long_enough (length out) (length (encoded c)) l.1 (length-append out (encoded c)) h;
        })
        (rw (h, encode_from) at e)
]
  where
    long_enough :
        (a b : ℕ)
        → b ≤ 3
        → length (out ++ encoded c) ≡ a + b
        → ltb sz (a + 4) ≡ false
        → length (out ++ encoded c) < sz
    long_enough a b h e g = ground arith

-- The bytes of a path that is encoded are printable, with no space and no control byte among them,
-- and leave room for the NUL: where the path is made of bytes, and the buffer is not empty.
pub encode_path-Fits :
    (path : Bytes) (sz : ℕ) (out : Bytes)
    → All (λ c. c < 256) path
    → 1 ≤ sz
    → encode_path path sz ≡ some out
    → Fits sz out
unfolding encode_path
encode_path-Fits path sz out b h e =
    encode_from-Fits sz [] path out b (record { printable_bytes = tt; room = omega arith }) e
