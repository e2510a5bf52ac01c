-- ===== src/Http/Body.antt =====
-- `http_dechunk` of src/http.c. `strtoul(p, NULL, 16)` is the C library's, a parameter; what it
-- gives is a number of its `unsigned long`, and the theorems ask of it only the sizes that occur. The
-- body that is written in place over the chunks is the result.
pub mod Chunks
use shclaw.Base.{
  ℕ, zero, suc, ◌+◌, Bool, true, false, ◌&&◌, Option, none, some, List, [], ◌∷◌, ◌++◌, ◌==◌,
  if◌then◌else◌, Bytes, take, drop, length,
}

-- `memmem(p, n, "\r\n", 2)`: what follows the first line break
unfoldable pub after_eol : Bytes → Option Bytes
after_eol [] = none
after_eol (c ∷ []) = none
after_eol (c ∷ d ∷ s) = let rest = after_eol (d ∷ s) in if c == 13 && d == 10 then some s else rest

-- The line break behind a chunk, if there
unfoldable pub skip_eol : Bytes → Bytes
skip_eol [] = []
skip_eol (c ∷ []) = c ∷ []
skip_eol (c ∷ d ∷ s) = if c == 13 && d == 10 then s else c ∷ d ∷ s

-- One round reads a size and takes the chunk, or as much of it as there is.
unfoldable pub dechunk : (Bytes → ℕ) → ℕ → Bytes → Bytes
dechunk strtoul zero s = []
dechunk strtoul (suc fuel) s = elim (after_eol s) [
  | none ↦ []
  | some r ↦
      let rest = dechunk strtoul fuel (skip_eol (drop (strtoul s) r)) in
      if strtoul s == 0 then [] else take (strtoul s) r ++ rest
]

-- Every round takes two bytes at least.
unfoldable pub http_dechunk : (Bytes → ℕ) → Bytes → Bytes
http_dechunk strtoul body = dechunk strtoul (suc (length body)) body
