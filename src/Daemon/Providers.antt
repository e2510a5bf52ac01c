-- ===== src/Daemon/Providers.antt =====
-- The providers and tiers of src/daemon.c: `load_providers`, `load_tiers` and
-- `daemon_resolve_provider`. `atoi` is the C library's, a parameter.
use shclaw.Base.{
  ◌+◌, Bool, false, not, ◌||◌, Option, none, some, List, [], ◌∷◌, ◌++◌, leb, ◌==◌, if◌then◌else◌,
  Bytes, codes, strcmp_eq, snprintf, mem_byte, cspn, take, drop, length,
}
use shclaw.Base.Int.{ℤ, pos}
use shclaw.Ini.{Entry, ini_get, ini_get_int}

pub record Provider : Type 0 where
  pub provider_name : Bytes
  pub provider_type : Bytes
  pub api_key : Bytes
  pub base_url : Bytes
  pub model : Bytes
  pub max_tokens : ℤ
  pub timeout : ℤ
  pub cache_key : Bytes
  pub reasoning_effort : Bytes

abbrev pub or_text : Option Bytes → Bytes → Bytes
or_text none d = d
or_text (some s) d = s

-- The name behind `provider:` or `provider.`; `none` for another section, or no name
unfoldable pub provider_section : Bytes → Option Bytes
unfolding strcmp_eq
provider_section s =
    if strcmp_eq (take 9 s) (codes "provider:") || strcmp_eq (take 9 s) (codes "provider.")
    then elim (drop 9 s) [ [] ↦ none | c ∷ r ↦ some (c ∷ r) ]
    else none

unfoldable pub known_provider : List Provider → Bytes → Bool
unfolding strcmp_eq
known_provider [] name = false
known_provider (p ∷ ps) name = strcmp_eq p.provider_name name || known_provider ps name

-- Anything but Anthropic speaks the OpenAI protocol.
abbrev pub protocol : Bytes → Bytes
protocol type = if strcmp_eq type (codes "anthropic") then codes "anthropic" else codes "openai"

unfoldable pub read_provider : (Bytes → ℤ) → List Entry → Bytes → Bytes → Provider
unfolding ini_get ini_get_int strcmp_eq
read_provider atoi cfg section name = record {
  provider_name = snprintf 32 name;
  provider_type = protocol (or_text (ini_get (some cfg) section (codes "type")) name);
  api_key = snprintf 256 (or_text (ini_get (some cfg) section (codes "api_key")) []);
  base_url = snprintf 256 (or_text (ini_get (some cfg) section (codes "base_url")) []);
  model = [];
  max_tokens = ini_get_int atoi (some cfg) section (codes "max_tokens") (pos 0);
  timeout = ini_get_int atoi (some cfg) section (codes "timeout") (pos 0);
  cache_key = [];
  reasoning_effort =
      snprintf 16 (or_text (ini_get (some cfg) section (codes "reasoning_effort")) []);
}

-- One round of the loop, `name` being the section's, if it is a provider's
unfoldable pub add_provider :
    (Bytes → ℤ) → List Entry → Bytes → Option Bytes → List Provider → List Provider
unfolding known_provider read_provider
add_provider atoi cfg section none ps = ps
add_provider atoi cfg section (some name) ps =
    if known_provider ps name then ps else ps ++ read_provider atoi cfg section name ∷ []

-- The loop ends at eight providers.
unfoldable pub load_providers :
    (Bytes → ℤ) → List Entry → List Entry → List Provider → List Provider
unfolding add_provider provider_section
load_providers atoi cfg [] ps = ps
load_providers atoi cfg (e ∷ es) ps =
    let rest =
      load_providers atoi cfg es
        (add_provider atoi cfg e.section (provider_section e.section) ps) in
    if leb 8 (length ps) then ps else rest

pub record Tier : Type 0 where
  pub tier : Bytes
  pub model_ref : Bytes

unfoldable pub load_tiers : List Entry → List Tier → List Tier
unfolding strcmp_eq
load_tiers [] ts = ts
load_tiers (e ∷ es) ts =
    let more =
      load_tiers es
        (ts ++ record { tier = snprintf 32 e.key; model_ref = snprintf 96 e.value } ∷ []) in
    let rest = load_tiers es ts in
    if leb 8 (length ts) then ts else if strcmp_eq e.section (codes "tiers") then more else rest

-- One level: what a tier stands for is not looked up again.
unfoldable pub tier_ref : List Tier → Bytes → Bytes
unfolding strcmp_eq
tier_ref [] ref = ref
tier_ref (t ∷ ts) ref =
    let rest = tier_ref ts ref in if strcmp_eq t.tier ref then t.model_ref else rest

-- "provider/model": by the name, and else the first provider with a key
unfoldable pub matches : Bytes → Provider → Bool
unfolding mem_byte cspn strcmp_eq
matches ref p =
    if mem_byte b'/' ref
    then strcmp_eq p.provider_name (cspn (b'/' ∷ []) ref)
    else not (length p.api_key == 0)

abbrev pub model_of : Bytes → Bytes
model_of ref = if mem_byte b'/' ref then drop (length (cspn (b'/' ∷ []) ref) + 1) ref else ref

unfoldable pub find_provider : List Provider → Bytes → Option Provider
unfolding matches mem_byte cspn
find_provider [] ref = none
find_provider (p ∷ ps) ref =
    let rest = find_provider ps ref in
    if matches ref p then some (record p { model = snprintf 64 (model_of ref) }) else rest

-- `none` is the result -1.
unfoldable pub daemon_resolve_provider : List Tier → List Provider → Bytes → Option Provider
unfolding tier_ref find_provider
daemon_resolve_provider tiers ps ref = find_provider ps (tier_ref tiers ref)
