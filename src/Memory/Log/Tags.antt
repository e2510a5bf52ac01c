-- ===== src/Memory/Log/Tags.antt =====
-- The tags that `extract_tags` of src/memory.c finds.
use mathlib.Core.Path.{subst}
use shclaw.Base.{
  ℕ, suc, ◌+◌, ◌-◌, ◌≤◌, ◌<◌, ◌≡◌, refl, sym, ◌∙◌, ap, true, false, Bool, ◌&&◌, ◌||◌, ◌==◌, leb,
  List, [], ◌∷◌, ◌++◌, ltb, within, Bool-cases, inl, inr, Bytes, tolower, length, All, All-append,
  length-append, arith, append_assoc, append-nil,
}
use shclaw.Memory.Log.{is_word_char, has_tag, keep_tag, with_tag, tag_count, extract, extract_tags}

-- A lowercase letter, a digit, one of `-_@.`, or a byte outside ASCII
abbrev pub word_byte : ℕ → Bool
word_byte c =
    within b'a' b'z' c
    || within b'0' b'9' c
    || (c == b'-' || c == b'_' || c == b'@' || c == b'.')
    || leb 128 c

abbrev pub IsWord : Bytes → Type 0
IsWord w = All (λ c. word_byte c ≡ true) w

-- A tag is a lowercase word of 4 to 62 bytes.
pub record IsTag (w : Bytes) : Type 0 where
  pub long : 4 ≤ length w
  pub short : length w ≤ 62
  pub word : IsWord w

-- None of the words is among the tags or among the words in front of it.
abbrev pub Fresh : List Bytes → List Bytes → Type 0
Fresh tags [] = Unit
Fresh tags (w ∷ ws) = (has_tag tags w ≡ false) × Fresh (tags ++ w ∷ []) ws

-- What stands behind the tags that were there: at most `room` tags, each a proper one and new.
pub record Extends (tags : List Bytes) (room : ℕ) (result : List Bytes) : Type 0 where
  pub found : List Bytes
  pub split : result ≡ tags ++ found
  pub few : length found ≤ room
  pub proper : All IsTag found
  pub fresh : Fresh tags found

Fresh-append :
    (tags xs ys : List Bytes) → Fresh tags xs → Fresh (tags ++ xs) ys → Fresh tags (xs ++ ys)
Fresh-append tags [] ys h k = subst (λ l. Fresh l ys) (append-nil tags) k
Fresh-append tags (x ∷ xs) ys h k = (
  h.0,
  Fresh-append (tags ++ x ∷ []) xs ys h.1
      (subst (λ l. Fresh l ys) (sym (append_assoc tags (x ∷ []) xs)) k),
)

unchanged : (tags : List Bytes) (room : ℕ) → Extends tags room tags
unchanged tags room = record {
  found = [];
  split = sym (append-nil tags);
  few = omega arith;
  proper = tt;
  fresh = tt;
}

one_tag :
    (word : Bytes) (tags : List Bytes) (count room : ℕ)
    → length word ≤ 62
    → IsWord word
    → keep_tag word tags count ≡ true
    → 1 ≤ room
    → Extends tags room (tags ++ word ∷ [])
unfolding keep_tag
one_tag word tags count room h l k r = record {
  found = word ∷ [];
  split = refl;
  few = r;
  proper = (record { long = ground arith; short = h; word = l }, tt);
  fresh = (ground arith, tt);
}

below_ten :
    (word : Bytes) (tags : List Bytes) (count : ℕ) → keep_tag word tags count ≡ true → count < 10
unfolding keep_tag
below_ten word tags count k = ground arith

with_tag-Extends :
    (word : Bytes) (tags : List Bytes) (count : ℕ)
    → length word ≤ 62
    → IsWord word
    → Extends tags (10 - count) (with_tag word tags count)
with_tag-Extends word tags count h l = elim (Bool-cases (keep_tag word tags count)) [
  | inl k ↦
      rw k (one_tag word tags count (10 - count) h l k (omega (arith, below_ten word tags count k)))
  | inr k ↦ rw k (unchanged tags (10 - count))
]

join :
    (tags mid result : List Bytes) (a b room : ℕ)
    → Extends tags a mid
    → Extends mid b result
    → a + b ≤ room
    → Extends tags room result
join tags mid result a b room x y h = record {
  found = x.found ++ y.found;
  split = y.split ∙ ap (λ l. l ++ y.found) x.split ∙ append_assoc tags x.found y.found;
  few = omega (arith, length-append x.found y.found, x.few, y.few);
  proper = All-append IsTag x.found y.found x.proper y.proper;
  fresh = Fresh-append tags x.found y.found x.fresh (subst (λ l. Fresh l y.found) x.split y.fresh);
}

after_word :
    (word : Bytes) (tags result : List Bytes) (count : ℕ)
    → length word ≤ 62
    → IsWord word
    → Extends (with_tag word tags count) (10 - tag_count word tags count) result
    → Extends tags (10 - count) result
after_word word tags result count h l x = elim (Bool-cases (keep_tag word tags count)) [
  | inl k ↦
      let y : Extends (tags ++ word ∷ []) (10 - suc count) result = rw k at x in
      join tags (tags ++ word ∷ []) result 1 (10 - suc count) (10 - count)
        (one_tag word tags count 1 h l k (omega arith)) y
        (omega (arith, below_ten word tags count k))
  | inr k ↦ rw k at x
]

word_byte-tolower : (c : ℕ) → is_word_char c ≡ true → word_byte (tolower c) ≡ true
unfolding is_word_char tolower
word_byte-tolower c h = ground arith

left : (a b : Bool) → (a && b) ≡ true → a ≡ true
left true b h = refl
left false b h = h

extract-Extends :
    (s word : Bytes) (tags : List Bytes) (count : ℕ)
    → length word ≤ 62
    → IsWord word
    → Extends tags (10 - count) (extract s word tags count)
unfolding extract
extract-Extends [] word tags count h l = with_tag-Extends word tags count h l
extract-Extends (c ∷ s) word tags count h l =
    elim (Bool-cases (is_word_char c && ltb (length word) 62)) [
      | inl e ↦
          rw (e, extract)
            (extract-Extends s (word ++ tolower c ∷ []) tags count
              (ground (arith, length-append word (tolower c ∷ [])))
              (All-append _ word (tolower c ∷ []) l
                (word_byte-tolower c (left (is_word_char c) (ltb (length word) 62) e), tt)))
      | inr e ↦
          rw (e, extract)
            (after_word word tags _ count h l (
              extract-Extends s [] (with_tag word tags count) (tag_count word tags count)
                (omega arith) tt))
    ]

-- Whatever the text, at most ten tags are put behind those that were there; each is a
-- word of 4 to 62 bytes, all of them lowercase letters, digits, `-`, `_`, `@`, `.` or bytes outside
-- ASCII, and none is there twice or was there before.
pub extract_tags-Extends :
    (content : Bytes) (tags : List Bytes) → Extends tags 10 (extract_tags content tags)
unfolding extract_tags
extract_tags-Extends content tags = extract-Extends content [] tags 0 (omega arith) tt
