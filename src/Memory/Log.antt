-- ===== src/Memory/Log.antt =====
-- The memory log of src/memory.c. A line of the log file is parsed by cJSON, which is the
-- parameter `parse`. What a call asks of the system comes with it: a fresh id, the
-- time, and whether the line failed to reach the disk. The lock makes each operation one step.
pub mod Tags
pub mod Cache
use shclaw.Base.{
  ℕ, zero, suc, ◌+◌, ◌-◌, ◌≤◌, ◌≡◌, Bool, true, false, not, ◌&&◌, ◌||◌, Option, none, some, List,
  [], ◌∷◌, ◌++◌, ltb, leb, within, ◌==◌, if◌then◌else◌, Bytes, codes, strcmp_eq, tolower, cspn,
  after_cspn, skip, rstrip, snprintf, take, length,
}
use mathlib.Core.List.{map}
use shclaw.Base.Int.{ℤ, pos, negsuc, ltb_ℤ}

abbrev pub is_alnum : ℕ → Bool
is_alnum c = within b'a' b'z' c || within b'A' b'Z' c || within b'0' b'9' c

unfoldable pub is_word_char : ℕ → Bool
is_word_char c = is_alnum c || c == b'-' || c == b'_' || c == b'@' || c == b'.' || leb 0x80 c

unfoldable pub lowercase : Bytes → Bytes
unfolding tolower
lowercase s = map tolower s

unfoldable pub has_tag : List Bytes → Bytes → Bool
unfolding strcmp_eq
has_tag [] word = false
has_tag (t ∷ ts) word = strcmp_eq t word || has_tag ts word

-- The end of a word: whether it becomes a tag, `count` being the tags that were extracted
unfoldable pub keep_tag : Bytes → List Bytes → ℕ → Bool
unfolding has_tag
keep_tag word tags count = leb 4 (length word) && ltb count 10 && not (has_tag tags word)

abbrev pub with_tag : Bytes → List Bytes → ℕ → List Bytes
with_tag word tags count = if keep_tag word tags count then tags ++ word ∷ [] else tags

abbrev pub tag_count : Bytes → List Bytes → ℕ → ℕ
tag_count word tags count = if keep_tag word tags count then suc count else count

-- The loop over the text, with the word so far; the byte that ends a word is not part of any,
-- also where the word is full.
unfoldable pub extract : Bytes → Bytes → List Bytes → ℕ → List Bytes
unfolding is_word_char tolower keep_tag
extract [] word tags count = with_tag word tags count
extract (c ∷ s) word tags count =
    let in_word = extract s (word ++ tolower c ∷ []) tags count in
    let after = extract s [] (with_tag word tags count) (tag_count word tags count) in
    if is_word_char c && ltb (length word) 62 then in_word else after

unfoldable pub extract_tags : Bytes → List Bytes → List Bytes
unfolding extract
extract_tags content tags = extract content [] tags 0

pub record Entry : Type 0 where
  pub id : Option Bytes
  pub content : Option Bytes
  pub category : Option Bytes
  pub importance : Option ℕ
  pub timestamp : Option Bytes
  pub tags : List Bytes

-- `strtok_r` at commas, the tokens trimmed of spaces and lowercased; empty ones are left out
unfoldable pub trimmed : Bytes → Bytes
unfolding skip rstrip lowercase
trimmed tok = lowercase (rstrip (b' ' ∷ []) (skip (b' ' ∷ []) tok))

abbrev pub unless_empty : Bytes → List Bytes → List Bytes
unless_empty [] ts = ts
unless_empty (c ∷ s) ts = (c ∷ s) ∷ ts

-- `word` is the token so far.
unfoldable pub csv_tags : Bytes → Bytes → List Bytes
unfolding trimmed
csv_tags [] word = unless_empty (trimmed word) []
csv_tags (c ∷ s) word =
    let more = csv_tags s (word ++ c ∷ []) in
    let rest = csv_tags s [] in if c == b',' then unless_empty (trimmed word) rest else more

abbrev pub user_tags : Option Bytes → List Bytes
user_tags none = []
user_tags (some csv) = csv_tags (snprintf 512 csv) []

-- `importance <= 0` is 5, and more than 10 is 10.
unfoldable pub clamp : ℤ → ℕ
clamp (negsuc n) = 5
clamp (pos n) = if n == 0 then 5 else if ltb 10 n then 10 else n

unfoldable pub or_general : Option Bytes → Bytes
or_general none = codes "general"
or_general (some []) = codes "general"
or_general (some (c ∷ s)) = c ∷ s

-- The bytes of the file, none where it is missing, and the cache of entries once it was read
pub record Memory : Type 0 where
  pub file : Bytes
  pub cache : Option (List Entry)

-- The lines, `line` being the start of the first one; the last one may lack its line feed.
unfoldable pub lines_from : Bytes → Bytes → List Bytes
lines_from line [] = line ∷ []
lines_from line (c ∷ s) =
    let more = lines_from (line ++ c ∷ []) s in
    let rest = lines_from [] s in if c == 10 then line ∷ rest else more

-- `strtok_r` skips empty lines, and a line that does not parse is left out.
unfoldable pub parse_lines : (Bytes → Option Entry) → List Bytes → List Entry
parse_lines parse [] = []
parse_lines parse ([] ∷ ls) = parse_lines parse ls
parse_lines parse ((c ∷ s) ∷ ls) = elim (parse (c ∷ s)) [
  | none ↦ parse_lines parse ls
  | some e ↦ e ∷ parse_lines parse ls
]

abbrev pub entries : (Bytes → Option Entry) → Memory → List Entry
entries parse m = elim m.cache [ none ↦ parse_lines parse (lines_from [] m.file) | some es ↦ es ]

unfoldable pub load_cache : (Bytes → Option Entry) → Memory → Memory
unfolding parse_lines lines_from
load_cache parse m = record m { cache = some (entries parse m) }

pub record Clock : Type 0 where
  pub fresh : Bytes
  pub now : Bytes

pub data Answer : Type 0 where
  content_required cannot_append : Answer
  remembered : Bytes → Bytes → Answer

unfoldable pub new_entry : Clock → Bytes → Option Bytes → ℤ → Option Bytes → Entry
unfolding or_general clamp csv_tags extract_tags
new_entry clock content category importance tags_csv = record {
  id = some clock.fresh;
  content = some content;
  category = some (or_general category);
  importance = some (clamp importance);
  timestamp = some clock.now;
  tags = extract_tags content (user_tags tags_csv);
}

abbrev pub or_empty : Option Bytes → Bytes
or_empty none = []
or_empty (some s) = s

-- The cache takes only what reached the disk. `print` is `cJSON_PrintUnformatted`; where the
-- write failed, `torn` is what it left in the file.
unfoldable pub append_entry :
    (Entry → Bytes) → Option Bytes → Entry → List Entry → Memory → Bytes → Memory × Answer
append_entry print none e es m content = (
  record { file = m.file ++ (print e ++ 10 ∷ []); cache = some (es ++ e ∷ []) },
  remembered (or_empty e.id) (take 80 content),
)
append_entry print (some torn) e es m content =
    (record { file = torn; cache = some es }, cannot_append)

unfoldable pub memory_add :
    (Bytes → Option Entry)
    → (Entry → Bytes)
    → Option Bytes
    → Clock
    → Memory
    → Option Bytes
    → Option Bytes
    → ℤ
    → Option Bytes
    → Memory × Answer
unfolding new_entry append_entry
memory_add parse print failed clock m none category importance tags_csv = (m, content_required)
memory_add parse print failed clock m (some []) category importance tags_csv = (m, content_required)
memory_add parse print failed clock m (some (c ∷ s)) category importance tags_csv =
    append_entry print failed (new_entry clock (c ∷ s) category importance tags_csv)
      (entries parse m) m (c ∷ s)

unfoldable pub memory_clear : Memory → Memory
memory_clear m = record { file = []; cache = none }
