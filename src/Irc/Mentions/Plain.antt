-- ===== src/Irc/Mentions/Plain.antt =====
-- Messages without a mention go to the hub, and no agent is handed an empty text.
use shclaw.Base.{
  ℕ, zero, suc, ◌-◌, ◌≡◌, ◌≢◌, refl, inl, inr, none, List, [], ◌∷◌, ◌++◌, map, Bytes, length, take,
  All, All-append, List-cases,
}
use shclaw.Irc.Mentions.Sound.{parse_mentions-route}
use shclaw.Irc.Mentions.{
  Found, Mention, set_text, mentions, find_all, segment, give, assign, to_hub, route,
  parse_mentions,
}

abbrev pub HasText : Mention → Type 0
HasText m = m.text ≢ []

give-HasText : (c : ℕ) (s : Bytes) (names : List Bytes) → All HasText (map (give (c ∷ s)) names)
give-HasText c s [] = tt
give-HasText c s (n ∷ names) = (λ h. cc, give-HasText c s names)

assign-HasText :
    (msg : Bytes) (room : ℕ) (waiting : List Bytes) (ms : List Found)
    → All HasText (assign msg room waiting ms)
unfolding assign
assign-HasText msg room waiting [] = tt
assign-HasText msg zero waiting (m ∷ ms) = tt
assign-HasText msg (suc room) waiting (m ∷ ms) = elim (List-cases (segment msg m.end ms)) [
  | inl e ↦ rw (e, assign) (assign-HasText msg room (waiting ++ m.name ∷ []) ms)
  | inr (c, s, e) ↦
      rw (e, assign)
        (All-append HasText (map (give (c ∷ s)) (waiting ++ m.name ∷ [])) (assign msg room [] ms)
          (give-HasText c s (waiting ++ m.name ∷ [])) (assign-HasText msg room [] ms))
]

to_hub-HasText : (msg hub : Bytes) (m : Found) → All HasText (to_hub msg hub m)
unfolding to_hub
to_hub-HasText msg hub m = elim (List-cases (set_text (take m.at msg))) [
  | inl e ↦ rw (e, to_hub) tt
  | inr (c, s, e) ↦ rw (e, to_hub) (λ h. cc, tt)
]

route-HasText :
    (msg hub : Bytes) (k : ℕ) (ms : List Found)
    → ms ≢ []
    → find_all ms ≡ none
    → All HasText (route msg hub k ms)
unfolding route
route-HasText msg hub k [] ne e = absurd (ne refl)
route-HasText msg hub k (m ∷ ms) ne e =
    rw (e, route)
      (All-append HasText (to_hub msg hub m) _ (to_hub-HasText msg hub m)
        (assign-HasText msg (k - length (to_hub msg hub m)) [] (m ∷ ms)))

-- Where a message mentions agents and not everybody, every part that is handed out has a text:
-- an agent named without one shares the next text, or gets nothing.
parse_mentions-HasText :
    (msg : Bytes) (agents : List Bytes) (hub : Bytes) (max_out : ℕ)
    → mentions agents msg ≢ []
    → find_all (mentions agents msg) ≡ none
    → All HasText (parse_mentions msg agents hub max_out)
parse_mentions-HasText [] agents hub max_out ne e = unfold parse_mentions in tt
parse_mentions-HasText (c ∷ s) agents hub zero ne e = unfold parse_mentions in tt
parse_mentions-HasText (c ∷ s) agents hub (suc k) ne e =
    rw (parse_mentions-route c s agents hub k) (route-HasText (c ∷ s) hub (suc k) _ ne e)
