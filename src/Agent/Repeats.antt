-- ===== src/Agent/Repeats.antt =====
-- `repeated_call` of src/agent.c: how often a tool was called with the same arguments.
pub mod Counted
use shclaw.Base.{
  ℕ, zero, suc, ◌+◌, ◌*◌, ◌/◌, ◌%◌, Bool, true, false, List, [], ◌∷◌, ◌++◌, leb, ltb, ◌==◌,
  if◌then◌else◌, Bytes, length,
}

-- The low `bits` bits of `a ^ b`
unfoldable pub xor_low : ℕ → ℕ → ℕ → ℕ
xor_low zero a b = 0
xor_low (suc bits) a b = (if a % 2 == b % 2 then 0 else 1) + 2 * xor_low bits (a / 2) (b / 2)

-- `h ^ (unsigned char)c`
unfoldable pub xor_byte : ℕ → ℕ → ℕ
unfolding xor_low
xor_byte h c = h / 256 * 256 + xor_low 8 (h % 256) c

-- The FNV-1a hash of the bytes, from `h` on
unfoldable pub fnv : ℕ → Bytes → ℕ
unfolding xor_byte
fnv h [] = h
fnv h (c ∷ s) = fnv (xor_byte h c * 1099511628211 % 18446744073709551616) s

-- `args` is what `cJSON_PrintUnformatted` prints.
unfoldable pub call_key : Bytes → Bytes → ℕ
unfolding fnv
call_key name args = fnv (fnv 1469598103934665603 name * 1099511628211 % 18446744073709551616) args

-- `call_hash[i]` and `call_count[i]`, for `i < n_calls`
pub record Counter : Type 0 where
  pub call_hash : ℕ
  pub call_count : ℕ

-- The loop over the counters, `n_calls` being the number of all of them
unfoldable pub count_call : ℕ → ℕ → ℕ → List Counter → List Counter × Bool
count_call n_calls limit h [] =
    (if ltb n_calls 64 then record { call_hash = h; call_count = 1 } ∷ [] else [], false)
count_call n_calls limit h (c ∷ cs) =
    let rest = count_call n_calls limit h cs in
    if c.call_hash == h
    then (record c { call_count = c.call_count + 1 } ∷ cs, ltb limit (c.call_count + 1))
    else (c ∷ rest.0, rest.1)

unfoldable pub repeated_call : ℕ → Bytes → Bytes → List Counter → List Counter × Bool
unfolding count_call call_key
repeated_call limit name args counters =
    count_call (length counters) limit (call_key name args) counters

-- One call of the model's, and its limit
pub record Attempted : Type 0 where
  pub name : Bytes
  pub args : Bytes
  pub limit : ℕ

-- Which calls of a session are refused
unfoldable pub refusals : List Attempted → List Counter → List Bool
unfolding repeated_call
refusals [] counters = []
refusals (a ∷ rest) counters =
    let r = repeated_call a.limit a.name a.args counters in r.1 ∷ refusals rest r.0
