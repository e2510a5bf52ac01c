-- ===== src/Memory/Log/Cache.antt =====
-- The cache of src/memory.c and the file that it stands for.
use mathlib.Core.Path.{subst}
use shclaw.Base.Int.{ℤ}
use shclaw.Base.{
  ◌≡◌, ◌≢◌, refl, ap, ◌∙◌, sym, ℕ, ◌==◌, Bool, true, false, Bool-cases, Option-cases, inl, inr,
  Option, none, some, List, [], ◌∷◌, ◌++◌, Bytes, append_assoc, append-nil, All,
}
use shclaw.Memory.Log.{
  Entry, Memory, lines_from, parse_lines, entries, append_entry, memory_add, memory_clear,
  load_cache, new_entry, Clock,
}

-- A file whose last line is complete
pub data IsComplete : Bytes → Type 0 where
  nothing : IsComplete []
  ended : (s : Bytes) → IsComplete (s ++ 10 ∷ [])

no_breaks :
    (line text : Bytes)
    → All (λ c. (c == 10) ≡ false) text
    → lines_from line (text ++ 10 ∷ []) ≡ (line ++ text) ∷ [] ∷ []
unfolding lines_from
no_breaks line [] n = ap (λ x. x ∷ [] ∷ []) (sym (append-nil line))
no_breaks line (c ∷ s) n =
    rw (n.0, lines_from)
      (no_breaks (line ++ c ∷ []) s n.1 ∙ ap (λ x. x ∷ [] ∷ []) (append_assoc line (c ∷ []) s))

parse_cons :
    (parse : Bytes → Option Entry) (l : Bytes) (ls : List Bytes)
    → parse_lines parse (l ∷ ls) ≡ parse_lines parse (l ∷ []) ++ parse_lines parse ls
unfolding parse_lines
parse_cons parse [] ls = refl
parse_cons parse (c ∷ s) ls = elim (Option-cases (parse (c ∷ s))) [
  | inl e ↦ rw (e, parse_lines) refl
  | inr (x, e) ↦ rw (e, parse_lines) refl
]

parse_end :
    (parse : Bytes → Option Entry) (l : Bytes)
    → parse_lines parse (l ∷ [] ∷ []) ≡ parse_lines parse (l ∷ [])
unfolding parse_lines
parse_end parse l = parse_cons parse l ([] ∷ []) ∙ append-nil (parse_lines parse (l ∷ []))

-- Behind a complete line what follows is read by itself.
parse_more :
    (parse : Bytes → Option Entry) (line s more : Bytes)
    → parse_lines parse (lines_from line (s ++ 10 ∷ more))
      ≡ parse_lines parse (lines_from line (s ++ 10 ∷ [])) ++ parse_lines parse (lines_from [] more)
unfolding lines_from
parse_more parse line [] more =
    parse_cons parse line (lines_from [] more)
    ∙ ap (λ x. x ++ parse_lines parse (lines_from [] more)) (sym (parse_end parse line))
parse_more parse line (c ∷ s) more = elim (Bool-cases (c == 10)) [
  | inl e ↦
      rw (e, lines_from)
        (parse_cons parse line (lines_from [] (s ++ 10 ∷ more))
          ∙ ap (λ x. parse_lines parse (line ∷ []) ++ x) (parse_more parse [] s more)
          ∙ sym (
              append_assoc (parse_lines parse (line ∷ []))
                (parse_lines parse (lines_from [] (s ++ 10 ∷ [])))
                (parse_lines parse (lines_from [] more)))
          ∙ ap (λ x. x ++ parse_lines parse (lines_from [] more))
              (sym (parse_cons parse line (lines_from [] (s ++ 10 ∷ [])))))
  | inr e ↦ rw (e, lines_from) (parse_more parse (line ++ c ∷ []) s more)
]

-- How an entry is written: as one line that is not empty and reads back
pub record IsPrinted (parse : Bytes → Option Entry) (e : Entry) (text : Bytes) : Type 0 where
  pub reads : parse text ≡ some e
  pub some_text : text ≢ []
  pub one_line : All (λ c. (c == 10) ≡ false) text

parse_one :
    (parse : Bytes → Option Entry) (e : Entry) (text : Bytes)
    → IsPrinted parse e text
    → parse_lines parse (lines_from [] (text ++ 10 ∷ [])) ≡ e ∷ []
unfolding parse_lines
parse_one parse e [] p = absurd (p.some_text refl)
parse_one parse e (c ∷ s) p =
    ap (parse_lines parse) (no_breaks [] (c ∷ s) p.one_line) ∙ rw (p.reads, parse_lines) refl

parse_appended :
    (parse : Bytes → Option Entry) (e : Entry) (file text : Bytes)
    → IsComplete file
    → IsPrinted parse e text
    → parse_lines parse (lines_from [] (file ++ (text ++ 10 ∷ [])))
      ≡ parse_lines parse (lines_from [] file) ++ e ∷ []
unfolding parse_lines lines_from
parse_appended parse e file text nothing p = parse_one parse e text p
parse_appended parse e file text (ended s) p =
    ap (λ x. parse_lines parse (lines_from [] x)) (append_assoc s (10 ∷ []) (text ++ 10 ∷ []))
    ∙ parse_more parse [] s (text ++ 10 ∷ [])
    ∙ ap (λ x. parse_lines parse (lines_from [] (s ++ 10 ∷ [])) ++ x) (parse_one parse e text p)

-- The cache holds what a reading of the file would give, and the file ends with a line feed.
pub record Agrees (parse : Bytes → Option Entry) (m : Memory) : Type 0 where
  pub same : entries parse m ≡ parse_lines parse (lines_from [] m.file)
  pub complete : IsComplete m.file

-- A whole write where cache and file agreed
memory_add-Agrees :
    (parse : Bytes → Option Entry) (print : Entry → Bytes) (clock : Clock) (m : Memory) (c : ℕ)
    (s : Bytes) (category : Option Bytes) (importance : ℤ) (tags_csv : Option Bytes)
    → Agrees parse m
    → IsPrinted parse
        (new_entry clock (c ∷ s) category importance tags_csv)
        (print (new_entry clock (c ∷ s) category importance tags_csv))
    → Agrees parse
        ((memory_add parse print none clock m (some (c ∷ s)) category importance tags_csv).0)
unfolding memory_add append_entry
memory_add-Agrees parse print clock m c s category importance tags_csv h p =
    let e : Entry = new_entry clock (c ∷ s) category importance tags_csv in
    record {
      same =
          ap (λ x. x ++ e ∷ []) h.same ∙ sym (parse_appended parse e m.file (print e) h.complete p);
      complete =
          subst IsComplete (append_assoc m.file (print e) (10 ∷ [])) (ended (m.file ++ print e));
    }

-- The operations on the log: an addition, with whether it reaches the file, a clear, and a reading
pub data LogCall : Type 0 where
  add : Bool → Clock → Option Bytes → Option Bytes → ℤ → Option Bytes → LogCall
  clear read : LogCall

-- An addition writes its whole line, or fails and leaves the file as it was.
abbrev pub log_call : (Bytes → Option Entry) → (Entry → Bytes) → LogCall → Memory → Memory
log_call parse print (add true clock content category importance tags_csv) m =
    (memory_add parse print none clock m content category importance tags_csv).0
log_call parse print (add false clock content category importance tags_csv) m =
    (memory_add parse print (some m.file) clock m content category importance tags_csv).0
log_call parse print clear m = memory_clear m
log_call parse print read m = load_cache parse m

abbrev pub log_calls : (Bytes → Option Entry) → (Entry → Bytes) → List LogCall → Memory → Memory
log_calls parse print [] m = m
log_calls parse print (c ∷ cs) m = log_calls parse print cs (log_call parse print c m)

-- What is written is one line that reads back.
abbrev pub IsWritten : (Bytes → Option Entry) → (Entry → Bytes) → LogCall → Type 0
IsWritten parse print (add true clock (some (c ∷ s)) category importance tags_csv) =
    IsPrinted parse (new_entry clock (c ∷ s) category importance tags_csv)
      (print (new_entry clock (c ∷ s) category importance tags_csv))
IsWritten parse print c = Unit

log_call-Agrees :
    (parse : Bytes → Option Entry) (print : Entry → Bytes) (c : LogCall) (m : Memory)
    → IsWritten parse print c
    → Agrees parse m
    → Agrees parse (log_call parse print c m)
unfolding memory_add append_entry memory_clear load_cache
log_call-Agrees parse print (add true clock (some (c ∷ s)) category importance tags) m p h =
    memory_add-Agrees parse print clock m c s category importance tags h p
log_call-Agrees parse print (add true clock (some []) category importance tags) m p h = h
log_call-Agrees parse print (add true clock none category importance tags) m p h = h
log_call-Agrees parse print (add false clock (some (c ∷ s)) category importance tags) m p h =
    record { same = h.same; complete = h.complete }
log_call-Agrees parse print (add false clock (some []) category importance tags) m p h = h
log_call-Agrees parse print (add false clock none category importance tags) m p h = h
log_call-Agrees parse print clear m p h = record { same = refl; complete = nothing }
log_call-Agrees parse print read m p h = record { same = h.same; complete = h.complete }

log_calls-kept :
    (parse : Bytes → Option Entry) (print : Entry → Bytes) (cs : List LogCall) (m : Memory)
    → All (IsWritten parse print) cs
    → Agrees parse m
    → Agrees parse (log_calls parse print cs m)
log_calls-kept parse print [] m ps h = h
log_calls-kept parse print (c ∷ cs) m ps h =
    log_calls-kept parse print cs (log_call parse print c m) ps.1
      (log_call-Agrees parse print c m ps.0 h)

-- From a start with a file whose last line is complete, after any additions, clears and readings:
-- the cache and the file agree, so what the daemon knows is what it will know after a restart. The
-- conditions: an addition writes its whole line and closes the file, or it fails and leaves the file
-- as it was; and what is written is one line that reads back.
pub log_calls-Agrees :
    (parse : Bytes → Option Entry) (print : Entry → Bytes) (cs : List LogCall) (file : Bytes)
    → IsComplete file
    → All (IsWritten parse print) cs
    → Agrees parse (log_calls parse print cs (record { file = file; cache = none }))
log_calls-Agrees parse print cs file f ps =
    log_calls-kept parse print cs (record { file = file; cache = none }) ps
      (record { same = refl; complete = f })
