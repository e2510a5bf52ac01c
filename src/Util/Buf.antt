-- ===== src/Util/Buf.antt =====
-- `buf_appendf` of src/util.c. A buffer `char buf[sz]` with its offset is the text before the
-- offset; `vsnprintf` is a parameter of the call, `none` where it reports an error.
use shclaw.Base.{
  ℕ, ◌-◌, ◌≤◌, ◌≡◌, refl, sym, ap, ◌∙◌, ◌||◌, Option, none, some, inl, inr, List, [], ◌∷◌, ◌++◌,
  append_assoc, append-nil, arith, leb, ◌==◌, if◌then◌else◌, Bytes, length, take, length-take-le,
  take-of-length-le, take-append-take, Bool-cases,
}

-- What one call appends, `vsnprintf` having formatted `piece`.
unfoldable pub buf_appendf : ℕ → Bytes → Option Bytes → Bytes
buf_appendf sz buf piece =
    if sz == 0 || leb (sz - 1) (length buf)
    then buf
    else elim piece [ none ↦ buf | some s ↦ take (sz - 1) (buf ++ s) ]

-- A run of calls on one buffer.
unfoldable pub append_all : ℕ → Bytes → List Bytes → Bytes
unfolding buf_appendf
append_all sz buf [] = buf
append_all sz buf (s ∷ ss) = append_all sz (buf_appendf sz buf (some s)) ss

unfoldable pub concat : List Bytes → Bytes
concat [] = []
concat (s ∷ ss) = s ++ concat ss

-- One call never writes past `sz - 1` bytes, whatever is formatted.
pub length-buf_appendf :
    (sz : ℕ) (buf : Bytes) (piece : Option Bytes)
    → length buf ≤ sz - 1
    → length (buf_appendf sz buf piece) ≤ sz - 1
unfolding buf_appendf
length-buf_appendf sz buf none h = ground arith
length-buf_appendf sz buf (some s) h = ground (arith, length-take-le (sz - 1) (buf ++ s))

buf_appendf-some :
    (sz : ℕ) (buf s : Bytes)
    → length buf ≤ sz - 1
    → buf_appendf sz buf (some s) ≡ take (sz - 1) (buf ++ s)
unfolding buf_appendf
buf_appendf-some sz buf s h = elim (Bool-cases (sz == 0 || leb (sz - 1) (length buf))) [
  | inl full ↦ rw full (sym (full_take (ground arith)))
  | inr room ↦ rw room
]
  where
    full_take : length buf ≡ sz - 1 → take (sz - 1) (buf ++ s) ≡ buf
    full_take e = rw (← e) (take_left buf)
      where
        take_left : (b : Bytes) → take (length b) (b ++ s) ≡ b
        take_left [] = refl
        take_left (c ∷ b) = ap (◌∷◌ c) (take_left b)

-- A run of calls is one cut of the whole text: pieces are kept in order and in full until the
-- buffer holds `sz - 1` bytes, and nothing is written after that.
pub append_all-eq-take :
    (sz : ℕ) (buf : Bytes) (pieces : List Bytes)
    → length buf ≤ sz - 1
    → append_all sz buf pieces ≡ take (sz - 1) (buf ++ concat pieces)
unfolding append_all concat
append_all-eq-take sz buf [] h = rw append-nil (sym (take-of-length-le (sz - 1) buf h))
append_all-eq-take sz buf (s ∷ ss) h =
    append_all-eq-take sz (buf_appendf sz buf (some s)) ss (length-buf_appendf sz buf (some s) h)
    ∙ ap (λ b. take (sz - 1) (b ++ concat ss)) (buf_appendf-some sz buf s h)
    ∙ take-append-take (sz - 1) (buf ++ s) (concat ss)
    ∙ ap (take (sz - 1)) (append_assoc buf s (concat ss))
