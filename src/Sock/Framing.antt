-- ===== src/Sock/Framing.antt =====
-- What one side of the socket of src/sock.c sends, the other reads.
use shclaw.Base.{
  drop-length-append, ℕ, zero, suc, ◌+◌, ◌-◌, ◌^◌, ◌≤◌, ◌<◌, ◌≡◌, refl, ap, ◌∙◌, sym, true, some,
  inl, inr, [], ◌∷◌, ◌++◌, leb, ltb, Bool-cases, Bytes, take, drop, length, length-append,
  length-drop, take-of-length-le, arith,
}
use shclaw.Sock.{
  to_read, read_full, chunk_size, u32, read_u32, sock_send, discard, read_body, sock_read_cmd,
}

drop_nil : (n : ℕ) → drop {A = ℕ} n [] ≡ []
drop_nil zero = refl
drop_nil (suc n) = refl

drop-drop : (a b : ℕ) (s : Bytes) → drop b (drop a s) ≡ drop (a + b) s
drop-drop zero b s = let e : b ≡ 0 + b = omega arith in ap (λ n. drop n s) e
drop-drop (suc a) zero [] = sym (drop_nil (suc a + zero))
drop-drop (suc a) (suc b) [] = sym (drop_nil (suc a + suc b))
drop-drop (suc a) b (c ∷ s) =
    let e : suc (a + b) ≡ suc a + b = omega arith in drop-drop a b s ∙ ap (λ n. drop n (c ∷ s)) e

read_full-enough : (n : ℕ) (s : Bytes) → n ≤ length s → read_full n s ≡ some (take n s, drop n s)
unfolding read_full
read_full-enough n s h = let e : leb n (length s) ≡ true = ground arith in rw e refl

chunk_size_bounds : (n : ℕ) → (1 ≤ chunk_size (suc n)) × (chunk_size (suc n) ≤ suc n)
unfolding chunk_size
chunk_size_bounds n = ground arith

-- Enough fuel: every round discards a byte.
discard-drop :
    (fuel n : ℕ) (s : Bytes) → n ≤ fuel → n ≤ length s → discard fuel n s ≡ some (drop n s)
unfolding discard
discard-drop zero zero s f h = refl
discard-drop (suc fuel) zero s f h = refl
discard-drop zero (suc n) s f h = absurd (omega arith)
discard-drop (suc fuel) (suc n) s f h =
    let b = chunk_size_bounds n in
    let k : ℕ = chunk_size (suc n) in
    let r : read_full k s ≡ some (take k s, drop k s) = read_full-enough k s (omega arith) in
    let e : k + (suc n - k) ≡ suc n = omega arith in
    rw (r, discard)
      (discard-drop fuel (suc n - k) (drop k s) (omega arith) (omega (arith, length-drop k s))
        ∙ ap some (drop-drop k (suc n - k) s ∙ ap (λ m. drop m s) e))

read_u32-u32 : (n : ℕ) (s : Bytes) → n < 2 ^ 32 → read_u32 (u32 n ++ s) ≡ n
unfolding read_u32
read_u32-u32 n s h = omega arith

take_part : (n : ℕ) (xs ys : Bytes) → n ≤ length xs → take n (xs ++ ys) ≡ take n xs
take_part zero xs ys h = refl
take_part (suc n) [] ys h = absurd (omega arith)
take_part (suc n) (x ∷ xs) ys h = ap (◌∷◌ x) (take_part n xs ys (omega arith))

to_read_le : (len max_len : ℕ) → to_read len max_len ≤ len
unfolding to_read
to_read_le len max_len = ground arith

take_least : (n : ℕ) (xs : Bytes) → take (to_read (length xs) n) xs ≡ take (n - 1) xs
unfolding to_read
take_least n xs = elim (Bool-cases (ltb (length xs) (n - 1))) [
  | inl e ↦
      let h : length xs ≤ n - 1 = ground arith in
      let g : length xs ≤ length xs = omega arith in
      rw e (take-of-length-le (length xs) xs g ∙ sym (take-of-length-le (n - 1) xs h))
  | inr e ↦ rw e refl
]

read_body-append :
    (type max_len : ℕ) (text rest : Bytes)
    → read_body type (length text) max_len (text ++ rest)
      ≡ some (record { type = type; text = take (max_len - 1) text; rest = rest })
unfolding read_body
read_body-append type max_len text rest =
    let k : ℕ = to_read (length text) max_len in
    let le : k ≤ length text = to_read_le (length text) max_len in
    let e : k + (length text - k) ≡ length text = omega arith in
    let r : read_full k (text ++ rest) ≡ some (take k (text ++ rest), drop k (text ++ rest)) =
      read_full-enough k (text ++ rest) (omega (arith, length-append text rest)) in
    let d : discard (length text - k) (length text - k) (drop k (text ++ rest)) ≡ some rest =
      discard-drop (length text - k) (length text - k) (drop k (text ++ rest)) (omega arith)
        (omega (arith, length-drop k (text ++ rest), length-append text rest))
      ∙ ap some (
          drop-drop k (length text - k) (text ++ rest)
          ∙ ap (λ m. drop m (text ++ rest)) e
          ∙ drop-length-append text rest) in
    let t : take k (text ++ rest) ≡ take (max_len - 1) text =
      take_part k text rest le ∙ take_least max_len text in
    rw (r, d, t, read_body) refl

header : (a b : ℕ) (s : Bytes) → read_full 8 (u32 a ++ (u32 b ++ s)) ≡ some (u32 a ++ u32 b, s)
unfolding read_full
header a b s = ground arith

-- A message with a type and a length below 2^32, sent whole, reads back: its type, as much of its
-- text as the buffer holds, and behind it the rest of the stream, whatever was too long having been
-- discarded.
pub sock_read_cmd-sock_send :
    (type max_len : ℕ) (text rest : Bytes)
    → type < 2 ^ 32
    → length text < 2 ^ 32
    → sock_read_cmd max_len (sock_send type (some text) (length text) ++ rest)
      ≡ some (record { type = type; text = take (max_len - 1) text; rest = rest })
unfolding sock_read_cmd sock_send
sock_read_cmd-sock_send type max_len text rest h k =
    let whole : take (length text) text ≡ text =
      take-of-length-le (length text) text (omega arith) in
    let hd : read_full 8 (u32 type ++ (u32 (length text) ++ (text ++ rest)))
        ≡ some (u32 type ++ u32 (length text), text ++ rest) =
      header type (length text) (text ++ rest) in
    let t : read_u32 (u32 type ++ u32 (length text)) ≡ type = read_u32-u32 type _ h in
    let l : read_u32 (u32 (length text)) ≡ length text = read_u32-u32 (length text) [] k in
    rw (whole, hd, t, l, sock_read_cmd) (read_body-append type max_len text rest)
