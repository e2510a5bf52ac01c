-- ===== src/Session/Chat/Ring.antt =====
-- The ring holds the last lines of the open conversation, oldest first.
use shclaw.Base.{
  ℕ, zero, suc, ◌+◌, ◌-◌, ◌%◌, ◌^◌, ◌≤◌, ◌<◌, ◌≡◌, refl, sym, ap, ◌∙◌, Bool, true, false, Option,
  none, some, inl, inr, List, [], ◌∷◌, ◌++◌, arith, ltb, leb, ◌==◌, if◌then◌else◌, Bytes, length,
  drop, snprintf, Bool-cases, length-append,
}
use shclaw.Session.Chat.{
  chat_lines, Line, ChatLog, chat_init, chat_expire, line_text, update, chat_push, chat_add, slots,
  visited,
}

pub record IsValid (c : ChatLog) : Type 0 where
  pub count : c.n ≤ chat_lines
  pub place : c.next < chat_lines

pub chat_init-IsValid : (idle : ℕ) → IsValid (chat_init idle)
unfolding chat_init
chat_init-IsValid idle = omega arith

chat_expire-IsValid : (now : ℕ) {c : ChatLog} → IsValid c → IsValid (chat_expire now c)
unfolding chat_expire
chat_expire-IsValid now v = ground arith

chat_push-IsValid :
    (now : ℕ) (agent text : Bytes) {c : ChatLog} → IsValid c → IsValid (chat_push now agent text c)
unfolding chat_push
chat_push-IsValid now agent text v = ground arith

pub chat_add-IsValid :
    (now hour min : ℕ) {c : ChatLog} (agent who : Bytes) (text : Option Bytes)
    → IsValid c
    → IsValid (chat_add now hour min c agent who text)
unfolding chat_add
chat_add-IsValid now hour min agent who none v = v
chat_add-IsValid now hour min agent who (some []) v = v
chat_add-IsValid now hour min agent who (some (t ∷ text)) v =
    chat_push-IsValid now agent _ (chat_expire-IsValid now v)

slots-mod : (f : ℕ → Line) (a b n : ℕ) → a % 20 ≡ b % 20 → slots f a n ≡ slots f b n
unfolding slots
slots-mod f a b zero h = refl
slots-mod f a b (suc n) h =
    rw h (ap (◌∷◌ (f (b % 20))) (slots-mod f (a + 1) (b + 1) n (omega arith)))

slots-snoc : (f : ℕ → Line) (a n : ℕ) → slots f a (suc n) ≡ slots f a n ++ f ((a + n) % 20) ∷ []
unfolding slots
slots-snoc f a zero = ap (λ k. f (k % 20) ∷ []) (let e : a ≡ a + 0 = omega arith in e)
slots-snoc f a (suc n) = ap (◌∷◌ (f (a % 20))) (
    slots-snoc f (a + 1) n
    ∙ ap (λ k. slots f (a + 1) n ++ f (k % 20) ∷ [])
        (let e : a + 1 + n ≡ a + suc n = omega arith in e))

-- Slots other than `p` are untouched by a write at `p`.
slots-update :
    (f : ℕ → Line) (p : ℕ) (e : Line) (a n : ℕ)
    → p < 20
    → p < a
    → a + n ≤ p + 20
    → slots (update f p e) a n ≡ slots f a n
unfolding slots
slots-update f p e a zero h k l = refl
slots-update f p e a (suc n) h k l =
    let ne : (a % 20 == p) ≡ false = ground arith in
    rw ne (ap (◌∷◌ (f (a % 20))) (slots-update f p e (a + 1) n h (omega arith) (omega arith)))

length-slots : (f : ℕ → Line) (a n : ℕ) → length (slots f a n) ≡ n
unfolding slots
length-slots f a zero = refl
length-slots f a (suc n) = ap suc (length-slots f (a + 1) n)

-- The last `n` of a list.
abbrev pub keep_last {ℓ} : {A : Type ℓ} → ℕ → List A → List A
keep_last n xs = drop (length xs - n) xs

-- One write at `p` behind `m` kept slots that end there.
slots-push :
    (f : ℕ → Line) (p : ℕ) (e : Line) (a a' m : ℕ)
    → p < 20
    → p < a
    → a + m ≡ p + 20
    → a' % 20 ≡ a % 20
    → slots (update f p e) a' (suc m) ≡ slots f a m ++ e ∷ []
slots-push f p e a a' m h k l q =
    slots-mod (update f p e) a' a (suc m) q
    ∙ slots-snoc (update f p e) a m
    ∙ rw (let at : (a + m) % 20 ≡ p = omega arith in at) (
        rw (let hit : (p == p) ≡ true = ground arith in hit)
          (ap (λ s. s ++ e ∷ []) (slots-update f p e a m h k (omega arith))))

abbrev pub entry : ℕ → Bytes → Bytes → Line
entry seq agent text = record { seq = (seq + 1) % 2 ^ 32; agent = snprintf 32 agent; text = text }

keep_last-short {ℓ} : {A : Type ℓ} (n : ℕ) (xs : List A) → length xs ≤ n → keep_last n xs ≡ xs
keep_last-short n xs h = rw (let e : length xs - n ≡ 0 = omega arith in e)

abbrev grown : ℕ → ℕ
grown n = if ltb n 20 then n + 1 else n

ring_full :
    (f : ℕ → Line) (p : ℕ) (e : Line)
    → p < 20
    → slots (update f p e) ((p + 1) % 20 + 20 - 20) 20
      ≡ keep_last 20 (slots f (p + 20 - 20) 20 ++ e ∷ [])
unfolding slots
ring_full f p e h =
    slots-push f p e (p + 1) ((p + 1) % 20 + 20 - 20) 19 h (omega arith) (omega arith) (omega arith)
    ∙ ap (λ s. s ++ e ∷ []) (slots-mod f (p + 1) (p + 20 - 20 + 1) 19 (omega arith))

ring_push :
    (f : ℕ → Line) (p n : ℕ) (e : Line)
    → n ≤ 20
    → p < 20
    → slots (update f p e) ((p + 1) % 20 + 20 - grown n) (grown n)
      ≡ keep_last 20 (slots f (p + 20 - n) n ++ e ∷ [])
ring_push f p n e h k = elim (Bool-cases (ltb n 20)) [
  | inl room ↦ rw room (
      rw (let e : n + 1 ≡ suc n = omega arith in e) (
        slots-push f p e (p + 20 - n) ((p + 1) % 20 + 20 - suc n) n k (ground arith) (ground arith)
          (ground arith)
        ∙ sym (
            keep_last-short 20 (slots f (p + 20 - n) n ++ e ∷ []) (
              ground (
                arith,
                length-append (slots f (p + 20 - n) n) (e ∷ []),
                length-slots f (p + 20 - n) n,
              )))))
  | inr full ↦ let at : n ≡ 20 = ground arith in rw full (rw at (ring_full f p e k))
]

visited-chat_push :
    (now : ℕ) (agent text : Bytes) {c : ChatLog}
    → IsValid c
    → visited (chat_push now agent text c)
      ≡ keep_last chat_lines (visited c ++ entry c.seq agent text ∷ [])
unfolding visited chat_push
visited-chat_push now agent text {c} v =
    ring_push c.lines c.next c.n (entry c.seq agent text) v.count v.place

slots-nil : (f : ℕ → Line) (a n : ℕ) → (n == 0) ≡ true → slots f a n ≡ []
unfolding slots
slots-nil f a zero h = refl
slots-nil f a (suc n) h = absurd (ground arith)

visited-chat_expire :
    (now : ℕ) (c : ChatLog)
    → visited (chat_expire now c) ≡ (if leb (c.last + c.idle) now then [] else visited c)
unfolding visited chat_expire
visited-chat_expire now c = elim (Bool-cases (c.n == 0)) [
  | inl none_left ↦
      rw none_left (
        rw (slots-nil c.lines (c.next + 20 - c.n) c.n none_left) (same (leb (c.last + c.idle) now)))
  | inr some_left ↦ rw some_left (expired (leb (c.last + c.idle) now))
]
  where
    same : (b : Bool) → ◌≡◌ {A = List Line} [] (if b then [] else [])
    same true = refl
    same false = refl

    expired :
        (b : Bool)
        → visited (if b then record c { n = 0; next = 0; id = (c.id + 1) % 2 ^ 32 } else c)
          ≡ (if b then [] else visited c)
    expired true = refl
    expired false = refl

seq-chat_expire : (now : ℕ) (c : ChatLog) → (chat_expire now c).seq ≡ c.seq
unfolding chat_expire
seq-chat_expire now c = ground arith

chat_add-push :
    (now hour min : ℕ) (c : ChatLog) (agent who text : Bytes) (t : ℕ)
    → chat_add now hour min c agent who (some (t ∷ text))
      ≡ chat_push now agent (line_text hour min who (t ∷ text)) (chat_expire now c)
unfolding chat_add
chat_add-push now hour min c agent who text t = refl

-- An added line that is not empty closes a conversation that has been silent for `idle` seconds,
-- and is then the last one of the log, which keeps the latest 20 lines of the open conversation in
-- the order of their arrival. An empty or missing text changes nothing.
pub visited-chat_add :
    (now hour min : ℕ) (c : ChatLog) (agent who text : Bytes) (t : ℕ)
    → IsValid c
    → (visited (chat_add now hour min c agent who (some (t ∷ text)))
        ≡ keep_last chat_lines (
            (if leb (c.last + c.idle) now then [] else visited c)
            ++ entry c.seq agent (line_text hour min who (t ∷ text)) ∷ []))
      × (chat_add now hour min c agent who (some []) ≡ c)
      × (chat_add now hour min c agent who none ≡ c)
visited-chat_add now hour min c agent who text t v = (
  rw (chat_add-push, visited-chat_push now agent _ (chat_expire-IsValid now v))
      (rw (visited-chat_expire, seq-chat_expire)),
  unfold chat_add in refl,
  unfold chat_add in refl,
)
