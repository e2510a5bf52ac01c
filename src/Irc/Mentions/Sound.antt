-- ===== src/Irc/Mentions/Sound.antt =====
-- Where the parts of a message go.
use shclaw.Base.{
  ℕ, zero, suc, ◌+◌, ◌-◌, ◌≤◌, ◌≡◌, refl, sym, ap, ◌&&◌, ◌⊎◌, inl, inr, Option, none, some, List,
  [], ◌∷◌, ◌++◌, map, arith, ◌==◌, Bytes, codes, length, take, drop, snprintf, strcasecmp_eq, cspn,
  All, All-append, length-append, length-take-le, Bool-cases, Option-cases, List-cases,
}
use mathlib.Core.Path.{subst}
use shclaw.Irc.Mentions.{
  irc_line_max, Found, Mention, find_agent, set_text, stops, named, addressed, mention_at, scan,
  mentions, find_all, to_all, segment, give, assign, to_hub, route, parse_mentions,
}

-- A configured name, in its field of 32 bytes
abbrev pub Listed : List Bytes → Bytes → Type 0
Listed [] n = ⊥
Listed (a ∷ agents) n = (n ≡ snprintf 32 a) ⊎ Listed agents n

abbrev pub IsTarget : List Bytes → Bytes → Type 0
IsTarget agents n = (n ≡ codes "all") ⊎ Listed agents n

find_agent-Listed :
    (word : Bytes) (agents : List Bytes) (a : Bytes)
    → find_agent word agents ≡ some a
    → Listed agents (snprintf 32 a)
unfolding find_agent
find_agent-Listed word [] a e = absurd (ground arith)
find_agent-Listed word (x ∷ agents) a e =
    elim (Bool-cases (length x == length word && strcasecmp_eq word x)) [
      | inl hit ↦
          let q : some x ≡ some a = (rw hit at e) in
          let r : x ≡ a = cc in inl (ap (snprintf 32) (sym r))
      | inr miss ↦ inr (find_agent-Listed word agents a (rw miss at e))
    ]

named-IsTarget :
    (agents : List Bytes) (word n : Bytes) → named agents word ≡ some n → IsTarget agents n
unfolding named
named-IsTarget agents word n e =
    elim (Bool-cases (length word == 3 && strcasecmp_eq word (codes "all"))) [
      | inl all ↦
          let q : some (codes "all") ≡ some n = (rw (all, named) at e) in
          inl (let r : n ≡ codes "all" = cc in r)
      | inr one ↦ elim (Option-cases (find_agent word agents)) [
        | inl miss ↦ absurd (let q : none ≡ some n = (rw (one, miss, named) at e) in cc)
        | inr (a, hit) ↦
            let q : some (snprintf 32 a) ≡ some n = (rw (one, hit, named) at e) in
            let r : snprintf 32 a ≡ n = cc in
            inr (subst (Listed agents) r (find_agent-Listed word agents a hit))
      ]
    ]

addressed-IsTarget :
    (agents : List Bytes) (word rest n : Bytes)
    → addressed agents word rest ≡ some n
    → IsTarget agents n
unfolding addressed
addressed-IsTarget agents [] rest n e = absurd (ground arith)
addressed-IsTarget agents (w ∷ ws) [] n e = absurd (ground arith)
addressed-IsTarget agents (w ∷ ws) (c ∷ rest) n e = named-IsTarget agents (w ∷ ws) n (ground arith)

mention_at-IsTarget :
    (agents : List Bytes) (prev : Option ℕ) (c : ℕ) (s : Bytes) (len : ℕ) (n : Bytes)
    → mention_at agents prev c s ≡ some (len, n)
    → IsTarget agents n
unfolding mention_at
mention_at-IsTarget agents prev c s len n e = named-IsTarget agents (cspn stops s) n (ground arith)

scan-IsTarget :
    (agents : List Bytes) (room passed pos : ℕ) (prev : Option ℕ) (s : Bytes)
    → All (λ (m : Found). IsTarget agents m.name) (scan agents room passed pos prev s)
unfolding scan
scan-IsTarget agents room passed pos prev [] = tt
scan-IsTarget agents zero passed pos prev (c ∷ s) = tt
scan-IsTarget agents (suc room) (suc passed) pos prev (c ∷ s) =
    scan-IsTarget agents (suc room) passed (pos + 1) (some c) s
scan-IsTarget agents (suc room) zero pos prev (c ∷ s) =
    elim (Option-cases (mention_at agents prev c s)) [
      | inl e ↦ rw (e, scan) (scan-IsTarget agents (suc room) zero (pos + 1) (some c) s)
      | inr ((len, name), e) ↦
          rw (e, scan)
            (
              mention_at-IsTarget agents prev c s len name e,
              scan-IsTarget agents room len (pos + 1) (some c) s,
            )
    ]

mentions-IsTarget :
    (agents : List Bytes) (msg : Bytes)
    → All (λ (m : Found). IsTarget agents m.name) (mentions agents msg)
unfolding mentions
mentions-IsTarget agents msg =
    let word = cspn stops msg in
    let rest = drop (length word) msg in
    elim (Option-cases (addressed agents word rest)) [
      | inl e ↦ rw (e, mentions) (scan-IsTarget agents 16 0 0 none msg)
      | inr (n, e) ↦
          rw (e, mentions)
            (
              addressed-IsTarget agents word rest n e,
              scan-IsTarget agents 15 (length word) 0 none msg,
            )
    ]

-- What one delivered mention may be
abbrev pub IsDelivery : List Bytes → Bytes → Mention → Type 0
IsDelivery agents hub m =
    ((m.agent ≡ snprintf 32 hub) ⊎ IsTarget agents m.agent) × (length m.text ≤ irc_line_max - 1)

length-set_text : (s : Bytes) → length (set_text s) ≤ irc_line_max - 1
unfolding set_text
length-set_text s = length-take-le 479 _

length-segment :
    (msg : Bytes) (end : ℕ) (ms : List Found) → length (segment msg end ms) ≤ irc_line_max - 1
unfolding segment
length-segment msg end [] = length-set_text _
length-segment msg end (m ∷ ms) = length-set_text _

module _ (agents : List Bytes) (hub : Bytes) where
  give-IsDelivery :
      (text : Bytes) (names : List Bytes)
      → length text ≤ irc_line_max - 1
      → All (IsTarget agents) names
      → All (IsDelivery agents hub) (map (give text) names)
  give-IsDelivery text [] h t = tt
  give-IsDelivery text (n ∷ names) h t = ((inr t.0, h), give-IsDelivery text names h t.1)

  assign-IsDelivery :
      (msg : Bytes) (room : ℕ) (waiting : List Bytes) (ms : List Found)
      → All (IsTarget agents) waiting
      → All (λ (m : Found). IsTarget agents m.name) ms
      → All (IsDelivery agents hub) (assign msg room waiting ms)
  unfolding assign
  assign-IsDelivery msg room waiting [] w t = tt
  assign-IsDelivery msg zero waiting (m ∷ ms) w t = tt
  assign-IsDelivery msg (suc room) waiting (m ∷ ms) w t =
      let names = All-append (IsTarget agents) waiting (m.name ∷ []) w (t.0, tt) in
      elim (List-cases (segment msg m.end ms)) [
        | inl e ↦ rw (e, assign) (assign-IsDelivery msg room (waiting ++ m.name ∷ []) ms names t.1)
        | inr (c, s, e) ↦
            rw (e, assign)
              (All-append (IsDelivery agents hub) (map (give (c ∷ s)) (waiting ++ m.name ∷ []))
                (assign msg room [] ms)
                (give-IsDelivery (c ∷ s) (waiting ++ m.name ∷ [])
                  (subst (λ (t : Bytes). length t ≤ 479) e (length-segment msg m.end ms)) names)
                (assign-IsDelivery msg room [] ms tt t.1))
      ]

  to_hub-IsDelivery : (msg : Bytes) (m : Found) → All (IsDelivery agents hub) (to_hub msg hub m)
  unfolding to_hub
  to_hub-IsDelivery msg m = elim (List-cases (set_text (take m.at msg))) [
    | inl e ↦ rw (e, to_hub) tt
    | inr (c, s, e) ↦
        rw (e, to_hub)
          (
            (inl refl, subst (λ (t : Bytes). length t ≤ 479) e (length-set_text (take m.at msg))),
            tt,
          )
  ]

  to_all-IsDelivery : (msg : Bytes) (m : Found) → IsDelivery agents hub (to_all msg m)
  unfolding to_all
  to_all-IsDelivery msg m =
      let clean = snprintf irc_line_max (take m.at msg ++ (b' ' ∷ drop m.end msg)) in
      elim (List-cases (set_text clean)) [
        | inl e ↦ rw (e, to_all) (inr (inl refl), length-set_text msg)
        | inr (c, s, e) ↦
            rw (e, to_all)
              (inr (inl refl), subst (λ (t : Bytes). length t ≤ 479) e (length-set_text clean))
      ]

  route-IsDelivery :
      (msg : Bytes) (max_out : ℕ) (ms : List Found)
      → All (λ (m : Found). IsTarget agents m.name) ms
      → All (IsDelivery agents hub) (route msg hub max_out ms)
  unfolding route
  route-IsDelivery msg max_out [] t = ((inl refl, length-set_text msg), tt)
  route-IsDelivery msg max_out (m ∷ ms) t = elim (Option-cases (find_all (m ∷ ms))) [
    | inl e ↦
        rw (e, route)
          (All-append (IsDelivery agents hub) (to_hub msg hub m) _ (to_hub-IsDelivery msg m)
            (assign-IsDelivery msg (max_out - length (to_hub msg hub m)) [] (m ∷ ms) tt t))
    | inr (a, e) ↦ rw (e, route) (to_all-IsDelivery msg a, tt)
  ]

length-map-give :
    (text : Bytes) (names : List Bytes) → length (map (give text) names) ≡ length names
length-map-give text [] = refl
length-map-give text (n ∷ names) = ap suc (length-map-give text names)

length-assign :
    (msg : Bytes) (room : ℕ) (waiting : List Bytes) (ms : List Found)
    → length (assign msg room waiting ms) ≤ room + length waiting
unfolding assign
length-assign msg room waiting [] = omega arith
length-assign msg zero waiting (m ∷ ms) = omega arith
length-assign msg (suc room) waiting (m ∷ ms) =
    let names = waiting ++ m.name ∷ [] in
    elim (List-cases (segment msg m.end ms)) [
      | inl e ↦
          rw (e, assign)
            (omega (arith, length-assign msg room names ms, length-append waiting (m.name ∷ [])))
      | inr (c, s, e) ↦
          rw (e, assign)
            (omega (
              arith,
              length-append (map (give (c ∷ s)) names) (assign msg room [] ms),
              length-map-give (c ∷ s) names,
              length-append waiting (m.name ∷ []),
              length-assign msg room [] ms,
            ))
    ]

length-to_hub : (msg hub : Bytes) (m : Found) → length (to_hub msg hub m) ≤ 1
unfolding to_hub
length-to_hub msg hub m = elim (List-cases (set_text (take m.at msg))) [
  | inl e ↦ rw (e, to_hub) (omega arith)
  | inr (c, s, e) ↦ rw (e, to_hub) (omega arith)
]

length-route :
    (msg hub : Bytes) (k : ℕ) (ms : List Found) → length (route msg hub (suc k) ms) ≤ suc k
unfolding route
length-route msg hub k [] = omega arith
length-route msg hub k (m ∷ ms) = elim (Option-cases (find_all (m ∷ ms))) [
  | inl e ↦
      let first = to_hub msg hub m in
      let others = assign msg (suc k - length first) [] (m ∷ ms) in
      rw (e, route)
        (omega (
          arith,
          length-append first others,
          length-to_hub msg hub m,
          length-assign msg (suc k - length first) [] (m ∷ ms),
        ))
  | inr (a, e) ↦ rw (e, route) (omega arith)
]

pub parse_mentions-route :
    (c : ℕ) (s : Bytes) (agents : List Bytes) (hub : Bytes) (k : ℕ)
    → parse_mentions (c ∷ s) agents hub (suc k)
      ≡ route (c ∷ s) hub (suc k) (mentions agents (c ∷ s))
unfolding parse_mentions
parse_mentions-route c s agents hub k = refl

-- Whatever the message, each part of it goes to the hub, to everybody, or to an agent of the
-- configuration under its configured name; it fits the text field, and there are at most
-- `max_out` parts.
pub parse_mentions_sound :
    (msg : Bytes) (agents : List Bytes) (hub : Bytes) (max_out : ℕ)
    → All (IsDelivery agents hub) (parse_mentions msg agents hub max_out)
      × (length (parse_mentions msg agents hub max_out) ≤ max_out)
parse_mentions_sound [] agents hub max_out =
    (unfold parse_mentions in tt, unfold parse_mentions in omega arith)
parse_mentions_sound (c ∷ s) agents hub zero =
    (unfold parse_mentions in tt, unfold parse_mentions in omega arith)
parse_mentions_sound (c ∷ s) agents hub (suc k) = rw (parse_mentions-route c s agents hub k) (
  route-IsDelivery agents hub (c ∷ s) (suc k) _ (mentions-IsTarget agents (c ∷ s)),
  length-route (c ∷ s) hub k _,
)
