-- ===== src/Ini.antt =====
-- The configuration file reader, src/ini.c. A file is its bytes; memory does not run out. The
-- buffers of `ini_load` have 32768 bytes, those of a physical line 4096, those of names 64.
pub mod Unescape
use shclaw.Base.{
  ℕ, zero, suc, ◌+◌, ◌-◌, ◌*◌, ◌≤◌, ◌≡◌, Bool, true, false, not, ◌&&◌, ◌||◌, Option, none, some,
  List, [], ◌∷◌, ◌++◌, leb, ltb, ◌==◌, if◌then◌else◌, Bytes, codes, cspn, skip, rstrip, mem_byte,
  strcmp_eq, strcasecmp_eq, snprintf, take, drop, length,
}
use shclaw.Base.Int.{ℤ, pos}

unfoldable pub ini_rstrip : Bytes → Bytes
unfolding rstrip
ini_rstrip s = rstrip (10 ∷ 13 ∷ 32 ∷ 9 ∷ []) s

unfoldable pub ini_append : ℕ → Bytes → Bytes → Bytes
ini_append dst_sz dst src =
    if leb dst_sz (length dst + 1) then dst else dst ++ snprintf (dst_sz - length dst) src

-- The pieces that `fgets` into `char line[room]` reads: up to a line break or as many bytes as fit
unfoldable pub fgets_from : ℕ → Bytes → Bytes → List Bytes
fgets_from room [] [] = []
fgets_from room line [] = line ∷ []
fgets_from room line (c ∷ s) =
    let more = fgets_from room (line ++ c ∷ []) s in
    let rest = fgets_from room [] s in
    if c == 10 || leb room (length line + 2) then (line ++ c ∷ []) ∷ rest else more

abbrev pub fgets_all : Bytes → List Bytes
fgets_all file = fgets_from 4096 [] file

abbrev pub is_continued : Bytes → Bool
is_continued [] = false
is_continued (c ∷ []) = c == b'\\'
is_continued (c ∷ d ∷ s) = is_continued (d ∷ s)

abbrev pub drop_last : Bytes → Bytes
drop_last [] = []
drop_last (c ∷ []) = []
drop_last (c ∷ d ∷ s) = c ∷ drop_last (d ∷ s)

-- The logical lines, of the physical ones: a backslash at the end goes on with the next
unfoldable pub ini_read_logical_line : ℕ → Bytes → List Bytes → Bool → List Bytes
unfolding rstrip ini_append
ini_read_logical_line out_sz out [] have_line = if have_line then out ∷ [] else []
ini_read_logical_line out_sz out (l ∷ ls) have_line =
    let line : Bytes = rstrip (10 ∷ 13 ∷ []) l in
    let more = ini_read_logical_line out_sz (ini_append out_sz out (drop_last line)) ls true in
    let rest = ini_read_logical_line out_sz [] ls false in
    if is_continued line then more else ini_append out_sz out line ∷ rest

-- What an escape stands for; `none` is the default case.
unfoldable pub escaped : ℕ → Option ℕ
escaped c =
    if c == b'n'
    then some 10
    else if c == b'r'
    then some 13
    else if c == b't'
    then some 9
    else if c == b'\\'
    then some b'\\'
    else if c == b'"'
    then some b'"'
    else none

-- The second byte of an unknown escape, where it still fits
abbrev pub second : ℕ → ℕ → Bytes
second dst_sz c = if ltb 2 dst_sz then c ∷ [] else []

-- `dst_sz` is what is left of the destination: the loop goes on while `di + 1 < dst_sz`.
unfoldable pub ini_unescape : ℕ → Bytes → Bytes
unfolding escaped
ini_unescape dst_sz [] = []
ini_unescape dst_sz (c ∷ []) = if ltb 1 dst_sz then c ∷ [] else []
ini_unescape dst_sz (c ∷ d ∷ s) =
    let plain = ini_unescape (dst_sz - 1) (d ∷ s) in
    let one = ini_unescape (dst_sz - 1) s in
    let two = ini_unescape (dst_sz - 2) s in
    if not (ltb 1 dst_sz)
    then []
    else if not (c == b'\\')
    then c ∷ plain
    else elim (escaped d) [ some e ↦ e ∷ one | none ↦ b'\\' ∷ (second dst_sz d ++ two) ]

pub record Entry : Type 0 where
  pub section : Bytes
  pub key : Bytes
  pub value : Bytes

-- What one logical line is: nothing, the start of a section, or an entry
pub data LineKind : Type 0 where
  skipped : LineKind
  section_start : Bytes → LineKind
  entry : Bytes → Bytes → LineKind

-- The bytes behind the first `c`
unfoldable pub after_byte : ℕ → Bytes → Bytes
after_byte c [] = []
after_byte c (d ∷ s) = let rest = after_byte c s in if d == c then s else rest

abbrev pub blanks : Bytes
blanks = 32 ∷ 9 ∷ []

unfoldable pub read_entry : Bytes → LineKind
unfolding mem_byte cspn rstrip skip after_byte
read_entry p =
    if mem_byte b'=' p
    then entry (rstrip blanks (cspn (b'=' ∷ []) p)) (skip blanks (after_byte b'=' p))
    else skipped

unfoldable pub read_section : Bytes → LineKind
unfolding mem_byte cspn
read_section p = if mem_byte b']' p then section_start (cspn (b']' ∷ []) (drop 1 p)) else skipped

unfoldable pub read_stripped : Bytes → LineKind
unfolding read_entry read_section
read_stripped [] = skipped
read_stripped (c ∷ s) =
    if c == b';' || c == b'#'
    then skipped
    else if c == b'['
    then read_section (c ∷ s)
    else read_entry (c ∷ s)

unfoldable pub read_line : Bytes → LineKind
unfolding ini_rstrip skip read_stripped
read_line line = read_stripped (skip blanks (ini_rstrip line))

-- The loop of `ini_load` over the logical lines
unfoldable pub load_lines : Bytes → List Bytes → List Entry
unfolding read_line ini_unescape
load_lines section [] = []
load_lines section (l ∷ ls) = elim (read_line l) [
  | skipped ↦ load_lines section ls
  | section_start name ↦ load_lines (snprintf 64 name) ls
  | entry key value ↦
      record {
        section = snprintf 64 section;
        key = snprintf 64 key;
        value = ini_unescape 32768 value;
      }
      ∷ load_lines section ls
]

-- `none` where the file cannot be opened
unfoldable pub ini_load : Option Bytes → Option (List Entry)
unfolding fgets_from ini_read_logical_line load_lines
ini_load none = none
ini_load (some file) = some (load_lines [] (ini_read_logical_line 32768 [] (fgets_all file) false))

unfoldable pub find_entry : List Entry → Bytes → Bytes → Option Bytes
unfolding strcmp_eq
find_entry [] section key = none
find_entry (e ∷ es) section key =
    let rest = find_entry es section key in
    if strcmp_eq e.section section && strcmp_eq e.key key then some e.value else rest

unfoldable pub ini_get : Option (List Entry) → Bytes → Bytes → Option Bytes
unfolding find_entry
ini_get none section key = none
ini_get (some es) section key = find_entry es section key

-- `atoi` is a parameter.
unfoldable pub ini_get_int : (Bytes → ℤ) → Option (List Entry) → Bytes → Bytes → ℤ → ℤ
unfolding ini_get
ini_get_int atoi ini section key def = elim (ini_get ini section key) [
  | none ↦ def
  | some v ↦ atoi v
]

unfoldable pub ini_get_bool : Option (List Entry) → Bytes → Bytes → Bool → Bool
unfolding ini_get strcmp_eq strcasecmp_eq
ini_get_bool ini section key def = elim (ini_get ini section key) [
  | none ↦ def
  | some v ↦
      strcasecmp_eq v (codes "true")
      || strcmp_eq v (codes "1")
      || strcasecmp_eq v (codes "yes")
      || strcasecmp_eq v (codes "on")
]
