-- ===== src/Sock.antt =====
-- The messages between the daemon and its terminal clients, `sock_send` and `sock_read_cmd` of
-- src/sock.c. A stream is the bytes that are still to be read; `read_full` fails where they run
-- out. A header is two 32-bit numbers in the byte order of the machine, taken as little-endian.
pub mod Framing
use shclaw.Base.{
  ℕ, zero, suc, ◌+◌, ◌-◌, ◌*◌, ◌/◌, ◌%◌, ◌^◌, Bool, true, false, Option, none, some, List, [], ◌∷◌,
  ◌++◌, leb, ltb, ◌==◌, if◌then◌else◌, Bytes, take, drop, length,
}

-- The reads of `len` bytes: what was read, and the rest of the stream
unfoldable pub read_full : ℕ → Bytes → Option (Bytes × Bytes)
read_full len s = if leb len (length s) then some (take len s, drop len s) else none

abbrev pub u32 : ℕ → Bytes
u32 n = n % 256 ∷ n / 256 % 256 ∷ n / 65536 % 256 ∷ n / 16777216 % 256 ∷ []

unfoldable pub read_u32 : Bytes → ℕ
read_u32 (a ∷ b ∷ c ∷ d ∷ s) = a + 256 * b + 65536 * c + 16777216 * d
read_u32 _ = 0

-- What is written; without data only the header is, whatever `len` says.
unfoldable pub sock_send : ℕ → Option Bytes → ℕ → Bytes
sock_send type none len = u32 type ++ u32 len
sock_send type (some data_bytes) len = u32 type ++ (u32 len ++ take len data_bytes)

unfoldable pub chunk_size : ℕ → ℕ
chunk_size n = if ltb n 256 then n else 256

-- The loop that discards `n` bytes in pieces of 256, on fuel
unfoldable pub discard : ℕ → ℕ → Bytes → Option Bytes
discard fuel zero s = some s
discard zero (suc n) s = none
discard (suc fuel) (suc n) s = elim (read_full (chunk_size (suc n)) s) [
  | none ↦ none
  | some r ↦ discard fuel (suc n - chunk_size (suc n)) r.1
]

pub record Command : Type 0 where
  pub type : ℕ
  pub text : Bytes
  pub rest : Bytes

-- `none` is the result -1.
abbrev pub with_rest : ℕ → Bytes → Option Bytes → Option Command
with_rest type text none = none
with_rest type text (some rest) = some (record { type = type; text = text; rest = rest })

-- The buffer has a byte at least, as every caller's has: the source subtracts modulo 2^64.
unfoldable pub to_read : ℕ → ℕ → ℕ
to_read len max_len = if ltb len (max_len - 1) then len else max_len - 1

-- The body: as many bytes as the buffer holds, the others are discarded
unfoldable pub read_body : ℕ → ℕ → ℕ → Bytes → Option Command
read_body type len max_len s = elim (read_full (to_read len max_len) s) [
  | none ↦ none
  | some r ↦
      with_rest type r.0 (discard (len - to_read len max_len) (len - to_read len max_len) r.1)
]

unfoldable pub sock_read_cmd : ℕ → Bytes → Option Command
sock_read_cmd max_len s = elim (read_full 8 s) [
  | none ↦ none
  | some h ↦ read_body (read_u32 h.0) (read_u32 (drop 4 h.0)) max_len h.1
]
