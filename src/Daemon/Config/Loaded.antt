-- ===== src/Daemon/Config/Loaded.antt =====
-- The agents that src/daemon.c loads.
use mathlib.Core.Path.{subst}
use shclaw.Base.{
  ℕ, ◌≤◌, ◌<◌, ◌≡◌, refl, sym, ◌∙◌, true, false, Option, none, some, inl, inr, List, [], ◌∷◌, ◌++◌,
  append_assoc, append-nil, leb, Bool-cases, Option-cases, Bytes, codes, strcasecmp_eq, snprintf,
  length, length-append, take-of-length-le, All, All-append, arith,
}
use shclaw.Base.Int.{ℤ}
use shclaw.Base.Sort.{sort_onto}
use shclaw.Ini.{Entry, ini_load}
use shclaw.Daemon.Config.{
  name_char, name_chars, tool_name_valid, AgentConfig, is_taken, bad_name, read_agent, add_agent,
  named_agent, load_agent, load_files, load_agents, strcmp_lt, ini_names, agent_key,
}
use shclaw.Daemon.Providers.{Provider, Tier}

-- A name that can stand in a path, a mention and a recipient, and means one agent
pub record IsAgentName (s : Bytes) : Type 0 where
  pub size : (1 ≤ length s) × (length s < 32)
  pub plain : All (λ c. name_char c ≡ true) s
  pub not_all : strcasecmp_eq s (codes "all") ≡ false
  pub not_owner : strcasecmp_eq s (codes "owner") ≡ false

-- None of the agents has the name, in any case of letters.
abbrev pub IsFree : List AgentConfig → Bytes → Type 0
IsFree agents name = All (λ a. strcasecmp_eq a.name name ≡ false) agents

-- No agent has the name of one in front of it.
abbrev pub Distinct : List AgentConfig → List AgentConfig → Type 0
Distinct seen [] = Unit
Distinct seen (a ∷ rest) = IsFree seen a.name × Distinct (seen ++ a ∷ []) rest

pub record IsLoaded (agents : List AgentConfig) : Type 0 where
  pub few : length agents ≤ 16
  pub named : All (λ a. IsAgentName a.name) agents
  pub distinct : Distinct [] agents

Distinct-append :
    (seen agents : List AgentConfig) (a : AgentConfig)
    → Distinct seen agents
    → IsFree (seen ++ agents) a.name
    → Distinct seen (agents ++ a ∷ [])
Distinct-append seen [] a d h = (subst (λ l. IsFree l a.name) (append-nil seen) h, tt)
Distinct-append seen (x ∷ xs) a d h = (
  d.0,
  Distinct-append (seen ++ x ∷ []) xs a d.1
      (subst (λ l. IsFree l a.name) (sym (append_assoc seen (x ∷ []) xs)) h),
)

name_chars-All : (s : Bytes) → name_chars s ≡ true → All (λ c. name_char c ≡ true) s
unfolding name_chars
name_chars-All [] h = tt
name_chars-All (c ∷ s) h = (ground arith, name_chars-All s (ground arith))

good_name : (agents : List AgentConfig) (s : Bytes) → bad_name agents s ≡ false → IsAgentName s
unfolding bad_name tool_name_valid
good_name agents s h = record {
  size = ground arith;
  plain = name_chars-All s (ground arith);
  not_all = ground arith;
  not_owner = ground arith;
}

untaken : (agents : List AgentConfig) (s : Bytes) → bad_name agents s ≡ false → IsFree agents s
unfolding bad_name
untaken agents s h = free agents (ground arith)
  where
    free : (agents : List AgentConfig) → is_taken agents s ≡ false → IsFree agents s
    free [] h = tt
    free (a ∷ rest) h = (ground arith, free rest (ground arith))

whole_name : (s : Bytes) → length s < 32 → snprintf 32 s ≡ s
whole_name s h = let le : length s ≤ 31 = omega arith in take-of-length-le 31 s le

read_agent-name :
    (atoi : Bytes → ℤ) (cfg : List Entry) (s : Bytes) (p : Provider)
    → (read_agent atoi cfg s p).name ≡ snprintf 32 s
unfolding read_agent
read_agent-name atoi cfg s p = refl

add_agent-IsLoaded :
    (atoi : Bytes → ℤ) (cfg : List Entry) (s : Bytes) (p : Option Provider)
    (agents : List AgentConfig)
    → bad_name agents s ≡ false
    → length agents < 16
    → IsLoaded agents
    → IsLoaded (add_agent atoi cfg s p agents)
unfolding add_agent
add_agent-IsLoaded atoi cfg s none agents b n l = l
add_agent-IsLoaded atoi cfg s (some p) agents b n l =
    let a : AgentConfig = read_agent atoi cfg s p in
    let g : IsAgentName s = good_name agents s b in
    let e : a.name ≡ s = read_agent-name atoi cfg s p ∙ whole_name s g.size.1 in
    record {
      few = omega (arith, length-append agents (a ∷ []));
      named =
          All-append (λ x. IsAgentName x.name) agents (a ∷ []) l.named
            (subst IsAgentName (sym e) g, tt);
      distinct =
          Distinct-append [] agents a l.distinct
            (subst (λ x. IsFree agents x) (sym e) (untaken agents s b));
    }

named_agent-IsLoaded :
    (atoi : Bytes → ℤ) (tiers : List Tier) (ps : List Provider) (cfg : List Entry)
    (s : Option Bytes) (agents : List AgentConfig)
    → length agents < 16
    → IsLoaded agents
    → IsLoaded (named_agent atoi tiers ps cfg s agents)
unfolding named_agent
named_agent-IsLoaded atoi tiers ps cfg none agents n l = l
named_agent-IsLoaded atoi tiers ps cfg (some s) agents n l = elim (Bool-cases (bad_name agents s)) [
  | inl e ↦ rw (e, named_agent) l
  | inr e ↦ rw (e, named_agent) (add_agent-IsLoaded atoi cfg s _ agents e n l)
]

load_agent-IsLoaded :
    (atoi : Bytes → ℤ) (tiers : List Tier) (ps : List Provider) (file : Option Bytes)
    (agents : List AgentConfig)
    → IsLoaded agents
    → IsLoaded (load_agent atoi tiers ps file agents)
unfolding load_agent
load_agent-IsLoaded atoi tiers ps file agents l = elim (Bool-cases (leb 16 (length agents))) [
  | inl e ↦ rw (e, load_agent) l
  | inr e ↦ elim (Option-cases (ini_load file)) [
    | inl f ↦ rw (e, f, load_agent) l
    | inr (cfg, f) ↦
        rw (e, f, load_agent)
          (named_agent-IsLoaded atoi tiers ps cfg (agent_key cfg (codes "name")) agents
            (room (length agents) e) l)
  ]
]
  where
    room : (n : ℕ) → leb 16 n ≡ false → n < 16
    room n h = ground arith

load_files-IsLoaded :
    (atoi : Bytes → ℤ) (tiers : List Tier) (ps : List Provider) (read : Bytes → Option Bytes)
    (names : List Bytes) (agents : List AgentConfig)
    → IsLoaded agents
    → IsLoaded (load_files atoi tiers ps read names agents)
unfolding load_files
load_files-IsLoaded atoi tiers ps read [] agents l = l
load_files-IsLoaded atoi tiers ps read (x ∷ xs) agents l =
    load_files-IsLoaded atoi tiers ps read xs (load_agent atoi tiers ps (read x) agents)
      (load_agent-IsLoaded atoi tiers ps (read x) agents l)

-- Whatever files there are and whatever they hold, at most sixteen agents are loaded; each name has
-- 1 to 31 letters, digits, `_` or `-` and is neither "all" nor "owner", and no two are the same but
-- for the case of letters.
pub load_agents-IsLoaded :
    (atoi : Bytes → ℤ) (tiers : List Tier) (ps : List Provider) (read : Bytes → Option Bytes)
    (entries : List Bytes)
    → IsLoaded (load_agents atoi tiers ps read entries)
unfolding load_agents
load_agents-IsLoaded atoi tiers ps read entries =
    load_files-IsLoaded atoi tiers ps read (sort_onto strcmp_lt [] (ini_names entries [])) []
      (record { few = omega arith; named = tt; distinct = tt })
