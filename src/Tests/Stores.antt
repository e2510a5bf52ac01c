-- ===== src/Tests/Stores.antt =====
-- Runs of src/memory.c and src/messenger.c.
use native.Mathlib.Omega.{arith}
use shclaw.Base.{
  ℕ, ◌≡◌, refl, sym, ◌∙◌, true, false, Option, some, none, List, [], ◌∷◌, codes, Bytes, take,
  strcmp_eq, strcmp_eq_iff, strcmp_eq_refl, strcmp_eq_comm, All,
}
use shclaw.Base.Sort.{sort_onto}
use shclaw.Base.Int.{pos}
use shclaw.Memory.Log.{
  Entry, Memory, Clock, memory_add, memory_clear, load_cache, new_entry, extract_tags,
}
use shclaw.Memory.Log.Cache.{
  Agrees, IsPrinted, ended, LogCall, add, clear, read, log_calls, log_calls-Agrees,
}
use shclaw.Memory.Log.Tags.{Extends, extract_tags-Extends}
use shclaw.Memory.Facts.{object, facts_set, fact_saved, IsObject, IsSame, load_facts, get_item}
use shclaw.Memory.Facts.Kept.{IsSaved, facts_set-IsSaved}
use shclaw.Memory.Search.{collect}
use shclaw.Memory.Search.Best.{better, matching, collect-eq-take}
use shclaw.Messenger.{Messenger, Post, messenger_send}
use shclaw.Messenger.Safe.{messenger_send-All}

tags_run : extract_tags (codes "Call the Plumber, call me") [] ≡ codes "call" ∷ codes "plumber" ∷ []
unfolding extract_tags
tags_run = refl

extract_tags-Extends_example : Extends [] 10 (extract_tags (codes "Call the Plumber, call me") [])
extract_tags-Extends_example = extract_tags-Extends (codes "Call the Plumber, call me") []

strcmp_eq-IsSame : IsSame strcmp_eq
strcmp_eq-IsSame = record {
  refl_same = strcmp_eq_refl;
  euclid =
      λ a b c h k. (strcmp_eq_iff b c).1 (sym ((strcmp_eq_iff a b).0 h) ∙ (strcmp_eq_iff a c).0 k);
  sym_same = λ a b h. strcmp_eq_comm b a ∙ h;
}

abbrev facts : List (Bytes × Option Bytes)
facts = (codes "city", some (codes "Rome")) ∷ []

no_more : get_item strcmp_eq (codes "city") [] ≡ none
unfolding get_item
no_more = refl

facts-IsObject : IsObject strcmp_eq facts
facts-IsObject = (no_more, tt)

loaded : load_facts (object facts) ≡ some facts
unfolding load_facts
loaded = refl

facts_set-IsSaved_example :
    ((facts_set strcmp_eq true (object facts) (some (codes "city")) (some (codes "Oslo"))).1
      ≡ fact_saved (codes "city") (codes "Oslo"))
    × IsSaved strcmp_eq
        (codes "city")
        (codes "Oslo")
        (object facts)
        (facts_set strcmp_eq true (object facts) (some (codes "city")) (some (codes "Oslo"))).0
facts_set-IsSaved_example =
    facts_set-IsSaved strcmp_eq strcmp_eq-IsSame (object facts) facts b'c' (codes "ity")
      (codes "Oslo") loaded facts-IsObject

abbrev entry_of : Bytes → Entry
entry_of content = record {
  id = none;
  content = some content;
  category = none;
  importance = none;
  timestamp = none;
  tags = [];
}

abbrev log : List Entry
log =
    entry_of (codes "tea at five") ∷ entry_of (codes "rain") ∷ entry_of (codes "tea and cake") ∷ []

collect-eq-take_example :
    collect 2 (codes "tea" ∷ codes "cake" ∷ []) log []
    ≡ take 2 (sort_onto better [] (matching (codes "tea" ∷ codes "cake" ∷ []) log))
collect-eq-take_example = collect-eq-take 2 (codes "tea") (codes "cake" ∷ []) log

collect_run :
    collect 2 (codes "tea" ∷ codes "cake" ∷ []) log []
    ≡ (2, entry_of (codes "tea and cake")) ∷ (1, entry_of (codes "tea at five")) ∷ []
unfolding collect
collect_run = refl

abbrev desk : Messenger
desk = record { agents = codes "hub" ∷ codes "oracle" ∷ codes "owner" ∷ []; mails = [] }

abbrev post : ℕ → Post
post i = record { fresh = codes "m1"; now = codes "now"; saved = true }

messenger_send-All_example :
    All
      (λ x. strcmp_eq x.to (codes "hub") ≡ false)
      ((messenger_send post desk (codes "hub") (some (codes "all")) (codes "hello") none false).0
        ).mails
messenger_send-All_example =
    messenger_send-All (λ x. strcmp_eq x.to (codes "hub") ≡ false) post desk (codes "hub")
      (some (codes "all")) (codes "hello") none false (λ x p. p.to_other) tt

send_run :
    (messenger_send post desk (codes "hub") (some (codes "all")) (codes "hello") none false).0
    ≡ record desk {
      mails =
          record {
            id = codes "m1";
            from = codes "hub";
            to = codes "oracle";
            content = codes "hello";
            thread_id = [];
            timestamp = codes "now";
            reply = false;
          }
          ∷ [];
    }
unfolding messenger_send
send_run = refl

abbrev clock : Clock
clock = record { fresh = codes "m1"; now = codes "now" }

abbrev first_entry : Entry
first_entry = new_entry clock (codes "tea at five") none (pos 12) (some (codes " Drinks, time"))

abbrev no_memory : Memory
no_memory = record { file = []; cache = none }

abbrev parse_entry : Bytes → Option Entry
parse_entry s = some first_entry

-- An entry is added, an addition fails, and another one is added after a clear.
abbrev log_uses : List LogCall
log_uses =
    add true clock (some (codes "tea at five")) none (pos 12) (some (codes " Drinks, time"))
    ∷ add false clock (some (codes "milk")) none (pos 1) none
    ∷ clear
    ∷ read
    ∷ add true clock (some (codes "tea at five")) none (pos 12) (some (codes " Drinks, time"))
    ∷ []

log_calls-Agrees_example : Agrees parse_entry (
    log_calls parse_entry (λ e. codes "{}") log_uses (record { file = codes "{}\n"; cache = none }))
log_calls-Agrees_example =
    log_calls-Agrees parse_entry (λ e. codes "{}") log_uses (codes "{}\n") (ended (codes "{}"))
      (printed, (tt, (tt, (tt, (printed, tt)))))
  where
    printed : IsPrinted parse_entry first_entry (codes "{}")
    printed = record { reads = refl; some_text = λ e. ground arith; one_line = (refl, (refl, tt)) }

log_run :
    (log_calls parse_entry (λ e. codes "{}") log_uses no_memory).cache ≡ some (first_entry ∷ [])
unfolding memory_add memory_clear load_cache
log_run = refl

new_entry_run :
    (first_entry.importance ≡ some 10)
    × (first_entry.tags ≡ codes "drinks" ∷ codes "time" ∷ codes "five" ∷ [])
unfolding new_entry
new_entry_run = (refl, refl)

abbrev busy : Messenger
busy = (messenger_send post desk (codes "hub") (some (codes "all")) (codes "hello") none false).0
