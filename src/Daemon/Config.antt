-- ===== src/Daemon/Config.antt =====
-- How src/daemon.c reads its agents: `load_agent`, `load_agents` and the choice of the hub in
-- `daemon_run`, with `tool_name_valid` of src/tools.c. `atoi` is the C library's, a parameter.
pub mod Loaded
use shclaw.Base.{
  ℕ, zero, suc, ◌+◌, ◌-◌, Bool, true, false, not, ◌&&◌, ◌||◌, Option, none, some, List, [], ◌∷◌,
  ◌++◌, leb, ltb, within, ◌==◌, if◌then◌else◌, Bytes, codes, strcmp_eq, strcasecmp_eq, snprintf,
  mem_byte, cspn, take, drop, length,
}
use shclaw.Base.Int.{ℤ, pos, negsuc}
use shclaw.Base.Sort.{sort_onto}
use shclaw.Ini.{Entry, find_entry, ini_load, ini_get, ini_get_int, ini_get_bool}
use shclaw.Daemon.Providers.{Provider, or_text, Tier, daemon_resolve_provider}

abbrev pub name_char : ℕ → Bool
name_char c =
    within b'a' b'z' c || within b'A' b'Z' c || within b'0' b'9' c || c == b'_' || c == b'-'

unfoldable pub name_chars : Bytes → Bool
name_chars [] = true
name_chars (c ∷ s) = name_char c && name_chars s

unfoldable pub tool_name_valid : Bytes → Bool
unfolding name_chars
tool_name_valid s = name_chars s && not (length s == 0) && leb (length s) 64

-- What `load_agent` sets of an agent
pub record AgentConfig : Type 0 where
  pub name : Bytes
  pub provider : Provider
  pub max_turns : ℤ
  pub history_budget : ℤ
  pub is_hub : Bool
  pub is_builder : Bool
  pub specialty : Bytes
  pub personality : Bytes
  pub system_prompt_extra : Bytes
  pub objectives : List Bytes

unfoldable pub is_taken : List AgentConfig → Bytes → Bool
unfolding strcasecmp_eq
is_taken [] name = false
is_taken (a ∷ rest) name = strcasecmp_eq a.name name || is_taken rest name

-- The name becomes a path, an IRC mention and a message recipient.
unfoldable pub bad_name : List AgentConfig → Bytes → Bool
unfolding tool_name_valid is_taken strcasecmp_eq
bad_name agents name =
    not (tool_name_valid name)
    || leb 32 (length name)
    || strcasecmp_eq name (codes "all")
    || strcasecmp_eq name (codes "owner")
    || is_taken agents name

-- The objectives, at most sixteen of them
unfoldable pub objectives_of : List Entry → List Bytes → List Bytes
unfolding strcmp_eq
objectives_of [] os = os
objectives_of (e ∷ es) os =
    let more = objectives_of es (os ++ snprintf 256 e.value ∷ []) in
    let rest = objectives_of es os in
    if leb 16 (length os)
    then os
    else if strcmp_eq e.section (codes "objectives")
    then more
    else rest

-- `get "agent"` of the file
abbrev pub agent_key : List Entry → Bytes → Option Bytes
agent_key cfg key = ini_get (some cfg) (codes "agent") key

abbrev pub model_ref_of : Option Bytes → Option Bytes → Bytes
model_ref_of (some tier) model = tier
model_ref_of none (some model) = model
model_ref_of none none = codes "standard"

unfoldable pub read_agent : (Bytes → ℤ) → List Entry → Bytes → Provider → AgentConfig
unfolding ini_get ini_get_int ini_get_bool objectives_of
read_agent atoi cfg name provider = record {
  name = snprintf 32 name;
  provider = record provider { cache_key = snprintf 48 (codes "shclaw-" ++ name) };
  max_turns = ini_get_int atoi (some cfg) (codes "agent") (codes "max_turns") (pos 100);
  history_budget = ini_get_int atoi (some cfg) (codes "agent") (codes "history_budget") (pos 0);
  is_hub = ini_get_bool (some cfg) (codes "agent") (codes "hub") false;
  is_builder = ini_get_bool (some cfg) (codes "agent") (codes "builder") false;
  specialty = snprintf 256 (or_text (agent_key cfg (codes "specialty")) []);
  personality = snprintf 4096 (or_text (agent_key cfg (codes "personality")) []);
  system_prompt_extra = snprintf 32768 (or_text (agent_key cfg (codes "system_prompt_extra")) []);
  objectives = objectives_of cfg [];
}

-- With its name checked and its provider looked up
unfoldable pub add_agent :
    (Bytes → ℤ) → List Entry → Bytes → Option Provider → List AgentConfig → List AgentConfig
unfolding read_agent
add_agent atoi cfg name none agents = agents
add_agent atoi cfg name (some p) agents = agents ++ read_agent atoi cfg name p ∷ []

unfoldable pub named_agent :
    (Bytes → ℤ)
    → List Tier
    → List Provider
    → List Entry
    → Option Bytes
    → List AgentConfig
    → List AgentConfig
unfolding bad_name add_agent daemon_resolve_provider ini_get
named_agent atoi tiers ps cfg none agents = agents
named_agent atoi tiers ps cfg (some name) agents =
    if bad_name agents name
    then agents
    else add_agent atoi cfg name
        (daemon_resolve_provider tiers ps
          (model_ref_of (agent_key cfg (codes "tier")) (agent_key cfg (codes "model"))))
        agents

-- `file` is the content of the agent's file, `none` where it cannot be opened.
unfoldable pub load_agent :
    (Bytes → ℤ) → List Tier → List Provider → Option Bytes → List AgentConfig → List AgentConfig
unfolding ini_load ini_get named_agent
load_agent atoi tiers ps file agents =
    if leb 16 (length agents) then agents else elim (ini_load file) [
      | none ↦ agents
      | some cfg ↦ named_agent atoi tiers ps cfg (agent_key cfg (codes "name")) agents
    ]

-- `strcmp(a, b) < 0`
unfoldable pub strcmp_lt : Bytes → Bytes → Bool
strcmp_lt s [] = false
strcmp_lt [] (d ∷ t) = true
strcmp_lt (c ∷ s) (d ∷ t) = ltb c d || (c == d && strcmp_lt s t)

-- `len > 4`, and the name ends in ".ini"
unfoldable pub is_ini : Bytes → Bool
unfolding strcmp_eq
is_ini name = ltb 4 (length name) && strcmp_eq (drop (length name - 4) name) (codes ".ini")

-- At most 64 of the names that `readdir` gives
unfoldable pub ini_names : List Bytes → List Bytes → List Bytes
unfolding is_ini
ini_names [] names = names
ini_names (x ∷ xs) names =
    let more = ini_names xs (names ++ x ∷ []) in
    let rest = ini_names xs names in
    if leb 64 (length names) then names else if is_ini x then more else rest

unfoldable pub load_files :
    (Bytes → ℤ)
    → List Tier
    → List Provider
    → (Bytes → Option Bytes)
    → List Bytes
    → List AgentConfig
    → List AgentConfig
unfolding load_agent
load_files atoi tiers ps read [] agents = agents
load_files atoi tiers ps read (x ∷ xs) agents =
    load_files atoi tiers ps read xs (load_agent atoi tiers ps (read x) agents)

-- `read` gives the content of a file of etc/agents. `qsort` sorts by `cmp_str`.
unfoldable pub load_agents :
    (Bytes → ℤ) → List Tier → List Provider → (Bytes → Option Bytes) → List Bytes → List AgentConfig
unfolding ini_names sort_onto strcmp_lt load_files
load_agents atoi tiers ps read entries =
    load_files atoi tiers ps read (sort_onto strcmp_lt [] (ini_names entries [])) []

-- The agent with `hub = true`, else the first one; `none` where there is no agent
unfoldable pub first_hub : List AgentConfig → Option Bytes
first_hub [] = none
first_hub (a ∷ rest) = if a.is_hub then some a.name else first_hub rest

unfoldable pub hub_name : List AgentConfig → Option Bytes
unfolding first_hub
hub_name [] = none
hub_name (a ∷ rest) = some (or_text (first_hub (a ∷ rest)) a.name)
