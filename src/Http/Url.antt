-- ===== src/Http/Url.antt =====
-- URLs in src/http.c: `has_ctl`, `encode_path` and `parse_url`. `atoi` is the C library's, a
-- parameter; it is given the port's text up to the end of the authority, behind which stands no
-- digit.
pub mod Encoded
pub mod Parsed
use shclaw.Base.{
  ℕ, zero, suc, ◌+◌, ◌-◌, ◌/◌, ◌%◌, ◌≤◌, ◌≡◌, Bool, true, false, not, ◌&&◌, ◌||◌, Option, none,
  some, List, [], ◌∷◌, ◌++◌, leb, ltb, ◌==◌, if◌then◌else◌, Bytes, codes, cspn, mem_byte, take,
  drop, length,
}
use shclaw.Base.Int.{ℤ, pos, negsuc}

abbrev pub is_ctl : ℕ → Bool
is_ctl c = ltb c 0x20 || c == 0x7f

unfoldable pub has_ctl : Bytes → Bool
has_ctl [] = false
has_ctl (c ∷ s) = is_ctl c || has_ctl s

-- "0123456789ABCDEF"
unfoldable pub hex_digit : ℕ → ℕ
hex_digit n = if ltb n 10 then 48 + n else 55 + n

-- What cannot stand in a request line
unfoldable pub must_escape : ℕ → Bool
unfolding mem_byte
must_escape c =
    leb c 0x20
    || leb 0x7f c
    || mem_byte c (b'"' ∷ b'<' ∷ b'>' ∷ b'\\' ∷ b'^' ∷ b'`' ∷ b'{' ∷ b'|' ∷ b'}' ∷ [])

abbrev pub encoded : ℕ → Bytes
encoded c = if must_escape c then b'%' ∷ hex_digit (c / 16) ∷ hex_digit (c % 16) ∷ [] else c ∷ []

-- `out` is what was written so far; `none` is the result -1.
unfoldable pub encode_from : ℕ → Bytes → Bytes → Option Bytes
unfolding must_escape hex_digit
encode_from sz out [] = some out
encode_from sz out (c ∷ s) =
    let rest = encode_from sz (out ++ encoded c) s in if ltb sz (length out + 4) then none else rest

unfoldable pub encode_path : Bytes → ℕ → Option Bytes
unfolding encode_from
encode_path input sz = encode_from sz [] input

pub record Url : Type 0 where
  pub host : Bytes
  pub port : ℤ
  pub path : Bytes
  pub is_https : Bool

-- `strncmp(s, prefix, strlen(prefix)) == 0`: what follows the prefix
unfoldable pub strip_prefix : Bytes → Bytes → Option Bytes
strip_prefix [] s = some s
strip_prefix (p ∷ ps) [] = none
strip_prefix (p ∷ ps) (c ∷ s) = let rest = strip_prefix ps s in if p == c then rest else none

-- Whether it is HTTPS, and what follows the scheme
unfoldable pub scheme : Bytes → Bool × Bytes
unfolding strip_prefix
scheme url = elim (strip_prefix (codes "https://") url) [
  | some rest ↦ (true, rest)
  | none ↦ elim (strip_prefix (codes "http://") url) [
    | some rest ↦ (false, rest)
    | none ↦ (false, url)
  ]
]

-- The host of an authority, and what stands behind its colon
pub record Authority : Type 0 where
  pub name : Bytes
  pub port_text : Option Bytes

abbrev pub after_bracket : Bytes → Bytes → Option Authority
after_bracket name [] = some (record { name = name; port_text = none })
after_bracket name (c ∷ s) =
    if c == b':' then some (record { name = name; port_text = some s }) else none

unfoldable pub bracketed : Bytes → Option Authority
unfolding mem_byte cspn
bracketed s =
    if mem_byte b']' s
    then after_bracket (cspn (b']' ∷ []) s) (drop (length (cspn (b']' ∷ []) s) + 1) s)
    else none

unfoldable pub named_host : Bytes → Option Authority
unfolding mem_byte cspn
named_host s =
    let name : Bytes = cspn (b':' ∷ []) s in
    if mem_byte b':' s
    then some (record { name = name; port_text = some (drop (length name + 1) s) })
    else some (record { name = s; port_text = none })

-- `[` in front: an IPv6 address
unfoldable pub authority : Bytes → Option Authority
unfolding bracketed named_host
authority [] = some (record { name = []; port_text = none })
authority (c ∷ s) = if c == b'[' then bracketed s else named_host (c ∷ s)

-- A path without its fragment; `/` is put in front where it is missing
unfoldable pub path_of : Bytes → Bytes
unfolding cspn
path_of [] = b'/' ∷ []
path_of (c ∷ s) = if c == b'/' then cspn (b'#' ∷ []) (c ∷ s) else b'/' ∷ cspn (b'#' ∷ []) (c ∷ s)

abbrev pub valid_port : ℤ → Bool
valid_port (pos n) = ltb 0 n && ltb n 65536
valid_port (negsuc n) = false

abbrev pub port_of : (Bytes → ℤ) → Bool → Option Bytes → ℤ
port_of atoi is_https (some s) = atoi s
port_of atoi true none = pos 443
port_of atoi false none = pos 80

abbrev pub bad_host : Bytes → Bool
bad_host name = length name == 0 || leb 256 (length name)

unfoldable pub check_url : Url → Option Url
check_url u =
    if bad_host u.host || leb 2048 (length u.path) || not (valid_port u.port) then none else some u

-- The remainder `rest` of a URL, behind its scheme
unfoldable pub parse_rest : (Bytes → ℤ) → Bool → Bytes → Option Url
unfolding authority path_of check_url cspn
parse_rest atoi is_https s =
    let auth : Bytes = cspn (codes "/?#") s in
    elim (authority auth) [
      | none ↦ none
      | some a ↦ check_url (record {
        host = a.name;
        port = port_of atoi is_https a.port_text;
        path = path_of (drop (length auth) s);
        is_https = is_https;
      })
    ]

unfoldable pub parse_url : (Bytes → ℤ) → Option Bytes → Option Url
unfolding has_ctl scheme parse_rest
parse_url atoi none = none
parse_url atoi (some url) =
    if has_ctl url then none else parse_rest atoi (scheme url).0 (scheme url).1
