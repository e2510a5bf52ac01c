-- ===== src/Memory/Search.antt =====
-- `memory_search` of src/memory.c: the words of a query, the score of an entry, and the list of the
-- best entries, as text.
pub mod Best
use mathlib.Core.List.{map}
use shclaw.Base.{
  ℕ, zero, suc, ◌+◌, ◌-◌, ◌≤◌, ◌≡◌, Bool, true, false, not, ◌&&◌, ◌||◌, Option, none, some, List,
  [], ◌∷◌, ◌++◌, reverse, ltb, leb, ◌==◌, if◌then◌else◌, Bytes, codes, take, drop, length, snprintf,
}
use shclaw.Base.Int.{ℤ, pos, negsuc}
use shclaw.Base.Sort.{less_all}
use shclaw.Util.Buf.{append_all}
use shclaw.Util.Utf8.{utf8_prefix}
use shclaw.Memory.Log.{lines_from, Memory, Entry, entries, is_word_char, lowercase, parse_lines}

-- 20 where `n <= 0`, and at most 50
unfoldable pub limit : ℤ → ℕ
limit (negsuc n) = 20
limit (pos n) = if n == 0 then 20 else if ltb 50 n then 50 else n

-- The words of at least two bytes, `word` being the one so far
abbrev pub close_word : Bytes → List Bytes → List Bytes
close_word word rest = if leb 2 (length word) then lowercase (snprintf 32 word) ∷ rest else rest

unfoldable pub words_of : Bytes → Bytes → List Bytes
unfolding is_word_char lowercase
words_of [] word = close_word word []
words_of (c ∷ s) word =
    let more = words_of s (word ++ c ∷ []) in
    let rest = words_of s [] in if is_word_char c then more else close_word word rest

-- At most eight of them
unfoldable pub query_words : Option Bytes → List Bytes
unfolding words_of
query_words none = []
query_words (some query) = take 8 (words_of query [])

unfoldable pub starts_with : Bytes → Bytes → Bool
starts_with [] s = true
starts_with (w ∷ ws) [] = false
starts_with (w ∷ ws) (c ∷ s) = w == c && starts_with ws s

-- `strstr`
unfoldable pub occurs : Bytes → Bytes → Bool
unfolding starts_with
occurs word [] = starts_with word []
occurs word (c ∷ s) = starts_with word (c ∷ s) || occurs word s

abbrev pub text_or : Bytes → Option Bytes → Bytes
text_or d none = d
text_or d (some s) = s

unfoldable pub tag_texts : List Bytes → List Bytes
tag_texts [] = []
tag_texts (t ∷ ts) = (b' ' ∷ t) ∷ tag_texts ts

-- `char hay[TC_BUF_LG]`
unfoldable pub hay : ℕ → Entry → Bytes
unfolding append_all tag_texts lowercase
hay buf_lg e = lowercase (
    append_all buf_lg []
      ((text_or [] e.content ++ (b' ' ∷ text_or [] e.category)) ∷ tag_texts e.tags))

unfoldable pub count_in : List Bytes → Bytes → ℕ
unfolding occurs
count_in [] h = 0
count_in (w ∷ ws) h = let rest = count_in ws h in if occurs w h then suc rest else rest

unfoldable pub match_score : List Bytes → Entry → ℕ
unfolding hay count_in
match_score words e = count_in words (hay 4096 e)

-- Without words every entry scores 1.
unfoldable pub score_of : List Bytes → Entry → ℕ
unfolding match_score
score_of [] e = 1
score_of (w ∷ ws) e = match_score (w ∷ ws) e

abbrev pub Scored : Type 0
Scored = ℕ × Entry

-- `while (pos > 0 && score[pos - 1] < s) pos--` and the moves behind it; an entry never gets past
-- the end of the list's `n` places.
unfoldable pub insert_top : ℕ → Scored → List Scored → List Scored
unfolding less_all
insert_top zero x top = []
insert_top (suc n) x [] = x ∷ []
insert_top (suc n) x (y ∷ ys) =
    let rest = insert_top n x ys in
    if less_all (λ a b. ltb b.0 a.0) x (y ∷ ys) then take (suc n) (x ∷ y ∷ ys) else y ∷ rest

abbrev pub no_words : List Bytes → Bool
no_words [] = true
no_words (w ∷ ws) = false

-- The loop over the entries, the newest first. Without words all scores are equal, and the loop
-- ends where the list is full.
unfoldable pub collect : ℕ → List Bytes → List Entry → List Scored → List Scored
unfolding insert_top score_of
collect n words [] top = top
collect n words (e ∷ es) top =
    let s : ℕ = score_of words e in
    let skipped = collect n words es top in
    let taken = collect n words es (insert_top n (s, e) top) in
    if s == 0 then skipped else if no_words words && leb n (length top) then top else taken

unfoldable pub format_entry : (ℕ → Bytes) → Scored → Bytes
unfolding utf8_prefix
format_entry decimal (s, e) =
    let content : Bytes = text_or [] e.content in
    codes "- ["
    ++ (text_or (codes "?") e.id
        ++ (codes "] ("
            ++ (text_or (codes "general") e.category
                ++ (codes ", "
                    ++ (take 10 (text_or [] e.timestamp)
                        ++ (codes ", importance "
                            ++ (decimal (elim e.importance [ none ↦ 5 | some i ↦ i ])
                                ++ (codes ") "
                                    ++ (take (utf8_prefix content 500) content
                                        ++ codes "\n")))))))))

-- What `out` holds; `decimal` is the `%d` of the C library.
unfoldable pub memory_search :
    (Bytes → Option Entry) → (ℕ → Bytes) → Memory → Option Bytes → ℤ → ℕ → Bytes
unfolding append_all format_entry collect query_words limit parse_lines lines_from
memory_search parse decimal m query n out_sz = append_all out_sz [] (
    map (format_entry decimal)
      (collect (limit n) (query_words query) (reverse (entries parse m)) []))
