-- ===== src/Base/Cstr.antt =====
-- Byte strings as the C library handles them. A C string is the list of its bytes before the NUL;
-- a write through `snprintf` into `char buf[sz]` keeps `sz - 1` of them.
use Prim.Native.Nat.{ℕ, ◌+◌, ◌-◌, ◌≤◌}
use Prim.Native.Char.{code}
use Prim.Native.String.{String}
use mathlib.Core.Path.{◌≡◌, refl}
use mathlib.Core.Logic.{◌↔◌}
use mathlib.Core.Bool.{Bool, true, false, ◌&&◌, ◌||◌}
use mathlib.Core.List.{List, [], ◌∷◌, ◌++◌}
use native.Mathlib.Omega.{arith}
use shclaw.Base.Tests.{within, ◌==◌, if◌then◌else◌}
use shclaw.Base.Lists.{length, take, length-take-le}

abbrev pub Bytes : Type 0
Bytes = List ℕ

-- The bytes of a literal, which is ASCII throughout.
abbrev pub codes : String → Bytes
codes String.[] = []
codes (String.◌∷◌ c s) = code c ∷ codes s

-- `snprintf(buf, sz, "%s", s)`
abbrev pub snprintf : ℕ → Bytes → Bytes
snprintf sz s = take (sz - 1) s

-- `strcmp(a, b) == 0`
unfoldable pub strcmp_eq : Bytes → Bytes → Bool
strcmp_eq [] [] = true
strcmp_eq (x ∷ xs) (y ∷ ys) = x == y && strcmp_eq xs ys
strcmp_eq _ _ = false

unfoldable pub tolower : ℕ → ℕ
tolower c = if within b'A' b'Z' c then c + 32 else c

-- `strcasecmp(a, b) == 0`
unfoldable pub strcasecmp_eq : Bytes → Bytes → Bool
unfolding tolower
strcasecmp_eq [] [] = true
strcasecmp_eq (x ∷ xs) (y ∷ ys) = tolower x == tolower y && strcasecmp_eq xs ys
strcasecmp_eq _ _ = false

-- `strchr(set, c) != NULL` for a byte of a text
unfoldable pub mem_byte : ℕ → Bytes → Bool
mem_byte c [] = false
mem_byte c (x ∷ xs) = c == x || mem_byte c xs

-- The bytes before the first one of `set`, and those from it on (`strcspn`).
unfoldable pub cspn : Bytes → Bytes → Bytes
unfolding mem_byte
cspn set [] = []
cspn set (c ∷ cs) = if mem_byte c set then [] else c ∷ cspn set cs

unfoldable pub after_cspn : Bytes → Bytes → Bytes
unfolding mem_byte
after_cspn set [] = []
after_cspn set (c ∷ cs) = let rest = after_cspn set cs in if mem_byte c set then c ∷ cs else rest

-- `while (*s is in set) s++`
unfoldable pub skip : Bytes → Bytes → Bytes
unfolding mem_byte
skip set [] = []
skip set (c ∷ cs) = let rest = skip set cs in if mem_byte c set then rest else c ∷ cs

-- `while (len > 0 && s[len - 1] is in set) len--`
unfoldable pub rstrip : Bytes → Bytes → Bytes
unfolding mem_byte
rstrip set [] = []
rstrip set (c ∷ cs) = elim (rstrip set cs) [
  | [] ↦ if mem_byte c set then [] else c ∷ []
  | d ∷ ds ↦ c ∷ d ∷ ds
]

pub strcmp_eq_iff : (a b : Bytes) → (strcmp_eq a b ≡ true) ↔ (a ≡ b)
unfolding strcmp_eq
strcmp_eq_iff (x ∷ a) (y ∷ b) = ground (arith, strcmp_eq_iff a b)
strcmp_eq_iff _ _ = ground arith

pub length-snprintf : (sz : ℕ) (s : Bytes) → length (snprintf sz s) ≤ sz - 1
length-snprintf sz s = length-take-le (sz - 1) s

pub cspn-append-after_cspn : (set s : Bytes) → cspn set s ++ after_cspn set s ≡ s
unfolding cspn after_cspn
cspn-append-after_cspn set [] = refl
cspn-append-after_cspn set (c ∷ cs) = ground (arith, cspn-append-after_cspn set cs)

pub length-rstrip : (set s : Bytes) → length (rstrip set s) ≤ length s
unfolding rstrip
length-rstrip set [] = omega arith
length-rstrip set (c ∷ cs) = ground (arith, length-rstrip set cs)

pub length-skip : (set s : Bytes) → length (skip set s) ≤ length s
unfolding skip
length-skip set [] = omega arith
length-skip set (c ∷ cs) = ground (arith, length-skip set cs)

pub strcmp_eq_comm : (a b : Bytes) → strcmp_eq a b ≡ strcmp_eq b a
unfolding strcmp_eq
strcmp_eq_comm [] [] = refl
strcmp_eq_comm [] (y ∷ b) = refl
strcmp_eq_comm (x ∷ a) [] = refl
strcmp_eq_comm (x ∷ a) (y ∷ b) = ground (arith, strcmp_eq_comm a b)

pub strcmp_eq_refl : (a : Bytes) → strcmp_eq a a ≡ true
strcmp_eq_refl a = (strcmp_eq_iff a a).1 refl
