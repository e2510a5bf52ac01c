-- ===== src/Http/Body/Chunks.antt =====
-- A body that was cut into chunks is put together by `http_dechunk` of src/http.c.
use shclaw.Base.{
  take-length-append, drop-length-append, ℕ, zero, suc, ◌≤◌, ◌<◌, ◌≡◌, refl, ap, false, some, List,
  [], ◌∷◌, ◌++◌, ◌==◌, Bytes, length, length-append, All, arith,
}
use shclaw.Util.Buf.{concat}
use shclaw.Http.Body.{after_eol, skip_eol, dechunk, http_dechunk}

-- How a size is written and read: what is written of it holds no carriage return, and reads back
-- where a line break follows.
pub record IsSize (strtoul : Bytes → ℕ) (hex : ℕ → Bytes) (n : ℕ) : Type 0 where
  pub no_break : All (λ c. (c == 13) ≡ false) (hex n)
  pub reads : (rest : Bytes) → strtoul (hex n ++ 13 ∷ 10 ∷ rest) ≡ n

-- A body in chunks: the size of each in front of it, and a chunk of size 0 at the end
unfoldable pub chunked : (ℕ → Bytes) → List Bytes → Bytes
chunked hex [] = hex 0 ++ 13 ∷ 10 ∷ 13 ∷ 10 ∷ []
chunked hex (c ∷ cs) = hex (length c) ++ 13 ∷ 10 ∷ (c ++ 13 ∷ 10 ∷ chunked hex cs)

after_eol-append :
    (h rest : Bytes) → All (λ c. (c == 13) ≡ false) h → after_eol (h ++ 13 ∷ 10 ∷ rest) ≡ some rest
unfolding after_eol
after_eol-append [] rest n = refl
after_eol-append (c ∷ []) rest n = rw (n.0) refl
after_eol-append (c ∷ d ∷ h) rest n = rw (n.0) (after_eol-append (d ∷ h) rest n.1)

skip_eol_lem : (s : Bytes) → skip_eol (13 ∷ 10 ∷ s) ≡ s
unfolding skip_eol
skip_eol_lem s = refl

dechunk-chunked :
    (strtoul : Bytes → ℕ) (hex : ℕ → Bytes) (fuel : ℕ) (cs : List Bytes)
    → IsSize strtoul hex 0
    → All (λ c. IsSize strtoul hex (length c)) cs
    → All (λ c. (length c == 0) ≡ false) cs
    → length cs < fuel
    → dechunk strtoul fuel (chunked hex cs) ≡ concat cs
unfolding dechunk chunked concat
dechunk-chunked strtoul hex zero cs z l n f = absurd (omega arith)
dechunk-chunked strtoul hex (suc fuel) [] z l n f =
    let a = after_eol-append (hex 0) (13 ∷ 10 ∷ []) z.no_break in
    rw (a, z.reads (13 ∷ 10 ∷ []), dechunk) refl
dechunk-chunked strtoul hex (suc fuel) (c ∷ cs) z l n f =
    let rest : Bytes = c ++ 13 ∷ 10 ∷ chunked hex cs in
    let a = after_eol-append (hex (length c)) rest l.0.no_break in
    rw
      (
        a,
        l.0.reads rest,
        n.0,
        take-length-append c (13 ∷ 10 ∷ chunked hex cs),
        drop-length-append c (13 ∷ 10 ∷ chunked hex cs),
        skip_eol_lem (chunked hex cs),
        dechunk,
      )
      (ap (λ x. c ++ x) (dechunk-chunked strtoul hex fuel cs z l.1 n.1 (omega arith)))

few_chunks : (hex : ℕ → Bytes) (cs : List Bytes) → length cs ≤ length (chunked hex cs)
unfolding chunked
few_chunks hex [] = omega arith
few_chunks hex (c ∷ cs) =
    let rest = few_chunks hex cs in
    let a = length-append (hex (length c)) (13 ∷ 10 ∷ (c ++ 13 ∷ 10 ∷ chunked hex cs)) in
    let d = length-append c (13 ∷ 10 ∷ chunked hex cs) in omega arith

-- A body in chunks none of which is empty, where `strtoul` reads the lengths of these chunks and the
-- 0 at the end as they were written, is put together whole: the chunks one after the other, and
-- nothing else.
pub http_dechunk-chunked :
    (strtoul : Bytes → ℕ) (hex : ℕ → Bytes) (cs : List Bytes)
    → IsSize strtoul hex 0
    → All (λ c. IsSize strtoul hex (length c)) cs
    → All (λ c. (length c == 0) ≡ false) cs
    → http_dechunk strtoul (chunked hex cs) ≡ concat cs
unfolding http_dechunk
http_dechunk-chunked strtoul hex cs z l n =
    dechunk-chunked strtoul hex (suc (length (chunked hex cs))) cs z l n
      (omega (arith, few_chunks hex cs))
