-- ===== src/Agent/Extract.antt =====
-- `builder_extract_code` of src/agent.c: a plugin's code in a text reply. A pointer into a text is
-- the rest of the text from it on.
use shclaw.Base.{
  ℕ, ◌-◌, ◌&&◌, Option, none, some, [], ◌∷◌, ltb, ◌==◌, if◌then◌else◌, Bytes, codes, take, drop,
  length,
}
use shclaw.Memory.Search.{starts_with, occurs}

unfoldable pub strstr : Bytes → Bytes → Option Bytes
unfolding starts_with
strstr word [] = if starts_with word [] then some [] else none
strstr word (c ∷ s) =
    let rest = strstr word s in if starts_with word (c ∷ s) then some (c ∷ s) else rest

unfoldable pub strchr : ℕ → Bytes → Option Bytes
strchr c [] = none
strchr c (d ∷ s) = let rest = strchr c s in if c == d then some (d ∷ s) else rest

-- The bytes from `start` to `end`, which lies behind it
abbrev pub between : Bytes → Bytes → Bytes
between start end = take (length start - length end) start

-- A block that fits, and looks like a plugin's code
unfoldable pub plugin_block : ℕ → Bytes → Option Bytes
unfolding occurs
plugin_block code_sz block =
    if ltb 0 (length block)
      && (ltb (length block) code_sz
          && (occurs (codes "tc_plugin.h") block && occurs (codes "tc_execute") block))
    then some block
    else none

unfoldable pub fenced_rest : ℕ → Bytes → Option Bytes
unfolding plugin_block strstr
fenced_rest code_sz start = elim (strstr (codes "\n```") start) [
  | none ↦ none
  | some end ↦ plugin_block code_sz (between start end)
]

-- `fence` begins with the three backquotes.
unfoldable pub fenced_line : ℕ → Bytes → Option Bytes
unfolding strchr fenced_rest
fenced_line code_sz fence = elim (strchr 10 (drop 3 fence)) [
  | none ↦ none
  | some eol ↦ fenced_rest code_sz (drop 1 eol)
]

unfoldable pub fenced : ℕ → Bytes → Option Bytes
unfolding strstr fenced_line
fenced code_sz text = elim (strstr (codes "```") text) [
  | none ↦ none
  | some fence ↦ fenced_line code_sz fence
]

-- The text up to its last closing brace, which is not the first byte
unfoldable pub to_last_brace : Bytes → Option Bytes
to_last_brace [] = none
to_last_brace (c ∷ s) = elim (to_last_brace s) [
  | some t ↦ some (c ∷ t)
  | none ↦ if c == b'}' then some (c ∷ []) else none
]

unfoldable pub raw_from : Bytes → Option Bytes
unfolding occurs to_last_brace
raw_from [] = none
raw_from (c ∷ s) =
    if occurs (codes "tc_execute") (c ∷ s)
    then elim (to_last_brace s) [ none ↦ none | some t ↦ some (c ∷ t) ]
    else none

unfoldable pub raw : ℕ → Bytes → Option Bytes
unfolding strstr raw_from
raw code_sz text = elim (strstr (codes "#include \"tc_plugin.h\"") text) [
  | none ↦ none
  | some start ↦ elim (raw_from start) [
    | none ↦ none
    | some code ↦ if ltb (length code) code_sz then some code else none
  ]
]

-- The text behind a quote, up to the next one
unfoldable pub quoted : ℕ → Bytes → Option Bytes
unfolding strchr
quoted name_sz q1 = elim (strchr b'"' q1) [
  | none ↦ none
  | some q2 ↦
      if ltb 0 (length (between q1 q2)) && ltb (length (between q1 q2)) name_sz
      then some (between q1 q2)
      else none
]

unfoldable pub plugin_name : ℕ → Bytes → Option Bytes
unfolding strstr strchr quoted
plugin_name name_sz code = elim (strstr (codes "TC_PLUGIN_NAME") code) [
  | none ↦ none
  | some np ↦ elim (strchr b'"' np) [ none ↦ none | some q ↦ quoted name_sz (drop 1 q) ]
]

abbrev pub or_else : Option Bytes → Option Bytes → Option Bytes
or_else (some s) o = some s
or_else none o = o

-- The name and the code; `none` is the result 0.
unfoldable pub builder_extract_code : Bytes → ℕ → ℕ → Option (Bytes × Bytes)
unfolding fenced raw plugin_name
builder_extract_code text name_sz code_sz =
    elim (or_else (fenced code_sz text) (raw code_sz text)) [
      | none ↦ none
      | some code ↦ elim (plugin_name name_sz code) [ none ↦ none | some name ↦ some (name, code) ]
    ]
