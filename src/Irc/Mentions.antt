-- ===== src/Irc/Mentions.antt =====
-- `parse_mentions` of src/irc_parse.c. Pointers into the message are positions in it.
pub mod Plain
pub mod Sound
use shclaw.Base.{
  ℕ, zero, suc, ◌+◌, ◌-◌, Bool, true, false, not, ◌&&◌, ◌||◌, Option, none, some, List, [], ◌∷◌,
  ◌++◌, map, within, ltb, ◌==◌, if◌then◌else◌, Bytes, codes, length, take, drop, snprintf,
  strcmp_eq, strcasecmp_eq, cspn, skip, rstrip,
}

abbrev pub irc_line_max : ℕ
irc_line_max = 480

-- A mention found in the message: where it starts and ends, and whom it names.
pub record Found : Type 0 where
  pub at : ℕ
  pub end : ℕ
  pub name : Bytes

pub record Mention : Type 0 where
  pub agent : Bytes
  pub text : Bytes

-- The agent named by a word, in its configured spelling
unfoldable pub find_agent : Bytes → List Bytes → Option Bytes
find_agent word [] = none
find_agent word (a ∷ agents) =
    if length a == length word && strcasecmp_eq word a then some a else find_agent word agents

unfoldable pub is_word_char : ℕ → Bool
is_word_char c =
    within b'a' b'z' c
    || within b'A' b'Z' c
    || within b'0' b'9' c
    || c == b'_'
    || c == b'-'
    || c == b'.'

unfoldable pub set_text : Bytes → Bytes
set_text s = take (irc_line_max - 1) (rstrip (codes " \t") (skip (codes " \t:,") s))

-- Where a name stops
abbrev pub stops : Bytes
stops = codes " \t@,:.!?;"

-- "all", or the configured name of an agent, copied to a field of 32 bytes
unfoldable pub named : List Bytes → Bytes → Option Bytes
named agents word =
    if length word == 3 && strcasecmp_eq word (codes "all")
    then some (codes "all")
    else elim (find_agent word agents) [ none ↦ none | some a ↦ some (snprintf 32 a) ]

-- "builder: do X" or "builder, do X"; `rest` is what follows the word.
unfoldable pub addressed : List Bytes → Bytes → Bytes → Option Bytes
addressed agents [] rest = none
addressed agents (w ∷ ws) [] = none
addressed agents (w ∷ ws) (c ∷ rest) =
    if c == b':' || c == b',' then named agents (w ∷ ws) else none

-- Whether the byte `c` behind `prev` and in front of `s` starts a mention: "user@oracle.com"
-- does not.
unfoldable pub mention_at : List Bytes → Option ℕ → ℕ → Bytes → Option (ℕ × Bytes)
mention_at agents prev c s =
    if not (c == b'@') || elim prev [ none ↦ false | some p ↦ is_word_char p ]
    then none
    else elim (named agents (cspn stops s)) [
      | none ↦ none
      | some n ↦ some (length (cspn stops s), n)
    ]

-- The loop over `p`: `room` mentions may still be stored, and `passed` bytes belong to the word of
-- the last one.
unfoldable pub scan : List Bytes → ℕ → ℕ → ℕ → Option ℕ → Bytes → List Found
scan agents room passed pos prev [] = []
scan agents zero passed pos prev (c ∷ s) = []
scan agents (suc room) (suc passed) pos prev (c ∷ s) =
    scan agents (suc room) passed (pos + 1) (some c) s
scan agents (suc room) zero pos prev (c ∷ s) = elim (mention_at agents prev c s) [
  | none ↦ scan agents (suc room) zero (pos + 1) (some c) s
  | some (len, name) ↦
      record { at = pos; end = pos + 1 + len; name = name }
      ∷ scan agents room len (pos + 1) (some c) s
]

unfoldable pub mentions : List Bytes → Bytes → List Found
mentions agents msg =
    let word = cspn stops msg in
    elim (addressed agents word (drop (length word) msg)) [
      | none ↦ scan agents 16 0 0 none msg
      | some name ↦
          record { at = 0; end = length word; name = name }
          ∷ scan agents 15 (length word) 0 none msg
    ]

-- The first mention of everybody
unfoldable pub find_all : List Found → Option Found
find_all [] = none
find_all (m ∷ ms) = if strcmp_eq m.name (codes "all") then some m else find_all ms

-- Every agent gets the whole message, minus the mention.
unfoldable pub to_all : Bytes → Found → Mention
to_all msg m =
    let text = set_text (snprintf irc_line_max (take m.at msg ++ (b' ' ∷ drop m.end msg))) in
    record { agent = codes "all"; text = elim text [ [] ↦ set_text msg | c ∷ s ↦ c ∷ s ] }

-- The text from a mention up to the next one
unfoldable pub segment : Bytes → ℕ → List Found → Bytes
segment msg end [] = set_text (drop end msg)
segment msg end (m ∷ ms) = set_text (take (m.at - end) (drop end msg))

abbrev pub give : Bytes → Bytes → Mention
give text agent = record { agent = agent; text = text }

-- The loop over the mentions: `room` places are left in `out`, and `waiting` are the agents that
-- have no text yet. Trailing mentions without any text are dropped.
unfoldable pub assign : Bytes → ℕ → List Bytes → List Found → List Mention
assign msg room waiting [] = []
assign msg zero waiting (m ∷ ms) = []
assign msg (suc room) waiting (m ∷ ms) = elim (segment msg m.end ms) [
  | [] ↦ assign msg room (waiting ++ m.name ∷ []) ms
  | c ∷ s ↦ map (give (c ∷ s)) (waiting ++ m.name ∷ []) ++ assign msg room [] ms
]

-- Text before the first mention goes to the hub.
unfoldable pub to_hub : Bytes → Bytes → Found → List Mention
to_hub msg hub m = elim (set_text (take m.at msg)) [
  | [] ↦ []
  | c ∷ s ↦ record { agent = snprintf 32 hub; text = c ∷ s } ∷ []
]

unfoldable pub route : Bytes → Bytes → ℕ → List Found → List Mention
route msg hub max_out [] = record { agent = snprintf 32 hub; text = set_text msg } ∷ []
route msg hub max_out (m ∷ ms) = elim (find_all (m ∷ ms)) [
  | some a ↦ to_all msg a ∷ []
  | none ↦ let first = to_hub msg hub m in first ++ assign msg (max_out - length first) [] (m ∷ ms)
]

unfoldable pub parse_mentions : Bytes → List Bytes → Bytes → ℕ → List Mention
unfolding set_text skip rstrip find_agent strcasecmp_eq named addressed is_word_char mention_at scan
    mentions find_all strcmp_eq to_all segment assign to_hub route cspn
parse_mentions [] agents hub max_out = []
parse_mentions (c ∷ s) agents hub zero = []
parse_mentions (c ∷ s) agents hub (suc k) = route (c ∷ s) hub (suc k) (mentions agents (c ∷ s))
