-- ===== src/Daemon/Link/Paced.antt =====
-- How long src/daemon.c waits before it connects again.
use shclaw.Base.{
  ℕ, ◌+◌, ◌≤◌, ◌≡◌, refl, Bool, true, false, inl, inr, List, [], ◌∷◌, ltb, if◌then◌else◌,
  Bool-cases, arith,
}
use shclaw.Irc.Client.{Irc, Event, irc_connect, irc_keepalive}
use shclaw.Daemon.Link.{
  Link, next_backoff, irc_lost, Attempt, settle, kept_alive, irc_maintain, Call, received, lost,
  maintain, call, run,
}

-- The latest time that a call is made at, or that it reads
unfoldable pub later : ℕ → ℕ → ℕ
later a b = if ltb a b then b else a

unfoldable pub time_of : Call → ℕ
unfolding later
time_of (received now chunk) = now
time_of (lost now) = now
time_of (maintain a now clock) = later now a.after

unfoldable pub latest : ℕ → List Call → ℕ
unfolding later time_of
latest t [] = t
latest t (c ∷ cs) = latest (later t (time_of c)) cs

-- The pause is at most five minutes, and so is the wait.
pub record IsPaced (t : ℕ) (l : Link) : Type 0 where
  pub pause : l.backoff ≤ 300
  pub wait : l.retry_at ≤ t + 300000

next_backoff_bounds : (first b : ℕ) → next_backoff first b ≤ 300
unfolding next_backoff
next_backoff_bounds first b = ground arith

later_bounds : (a b : ℕ) → (a ≤ later a b) × (b ≤ later a b)
unfolding later
later_bounds a b = ground arith

irc_lost-IsPaced : (t now : ℕ) (l : Link) → now ≤ t → IsPaced t (irc_lost now l).0
unfolding irc_lost
irc_lost-IsPaced t now l h =
    let b = next_backoff_bounds 5 l.backoff in record { pause = b; wait = omega arith }

settle-IsPaced :
    (t : ℕ) (a : Attempt) (l : Link) (r : Irc × List Event × Bool)
    → a.after ≤ t
    → IsPaced t l
    → IsPaced t (settle a l r).0
unfolding settle
settle-IsPaced t a l (irc, es, true) h p = record { pause = p.pause; wait = p.wait }
settle-IsPaced t a l (irc, es, false) h p =
    let b = next_backoff_bounds 30 l.backoff in record { pause = b; wait = omega arith }

kept_alive-IsPaced :
    (t now : ℕ) (l : Link) (r : Irc × List Event × Bool)
    → now ≤ t
    → IsPaced t l
    → IsPaced t (kept_alive now l r).0
unfolding kept_alive
kept_alive-IsPaced t now l (irc, es, false) h p = record { pause = p.pause; wait = p.wait }
kept_alive-IsPaced t now l (irc, es, true) h p = irc_lost-IsPaced t now (record l { irc = irc }) h

reset_bounds : (b : Bool) (n : ℕ) → n ≤ 300 → (if b then 0 else n) ≤ 300
reset_bounds b n h = ground arith

irc_maintain-IsPaced :
    (t : ℕ) (a : Attempt) (now clock : ℕ) (l : Link)
    → now ≤ t
    → a.after ≤ t
    → IsPaced t l
    → IsPaced t (irc_maintain a now clock l).0
unfolding irc_maintain
irc_maintain-IsPaced t a now clock l h k p = elim (Bool-cases l.irc.up) [
  | inl e ↦
      simp (e, irc_maintain)
        (kept_alive-IsPaced t now (record l { backoff = if l.irc.registered then 0 else l.backoff })
          (irc_keepalive clock l.irc) h
          (record { pause = reset_bounds l.irc.registered l.backoff p.pause; wait = p.wait }))
  | inr e ↦ elim (Bool-cases (ltb now l.retry_at)) [
    | inl f ↦ simp (e, f, irc_maintain) p
    | inr f ↦
        simp (e, f, irc_maintain)
          (settle-IsPaced t a l (irc_connect a.reached a.anchored a.shaken a.clock l.irc) k p)
  ]
]

IsPaced-le : (t u : ℕ) (l : Link) → t ≤ u → IsPaced t l → IsPaced u l
IsPaced-le t u l h p = record { pause = p.pause; wait = omega arith }

call-IsPaced :
    (t : ℕ) (c : Call) (l : Link) → IsPaced t l → IsPaced (later t (time_of c)) (call c l).0
unfolding call time_of
call-IsPaced t (received now chunk) l p =
    let b = later_bounds t now in record { pause = p.pause; wait = omega arith }
call-IsPaced t (lost now) l p = irc_lost-IsPaced (later t now) now l (later_bounds t now).1
call-IsPaced t (maintain a now clock) l p =
    let u : ℕ = later now a.after in
    let b = later_bounds t u in
    let d = later_bounds now a.after in
    irc_maintain-IsPaced (later t u) a now clock l (omega arith) (omega arith)
      (IsPaced-le t (later t u) l b.0 p)

run-IsPaced : (t : ℕ) (cs : List Call) (l : Link) → IsPaced t l → IsPaced (latest t cs) (run cs l)
unfolding run latest
run-IsPaced t [] l p = p
run-IsPaced t (c ∷ cs) l p =
    run-IsPaced (later t (time_of c)) cs (call c l).0 (call-IsPaced t c l p)

-- However calls followed one another, from a link whose pause and wait are at most five minutes: a
-- link that is down is tried again by the first call of `irc_maintain` that is made five minutes or
-- more after the latest time that they saw.
pub run-retries :
    (t : ℕ) (cs : List Call) (l : Link) (a : Attempt) (now clock : ℕ)
    → IsPaced t l
    → (run cs l).irc.up ≡ false
    → latest t cs + 300000 ≤ now
    → irc_maintain a now clock (run cs l)
      ≡ settle a (run cs l) (irc_connect a.reached a.anchored a.shaken a.clock (run cs l).irc)
unfolding irc_maintain
run-retries t cs l a now clock p down h =
    let q : IsPaced (latest t cs) (run cs l) = run-IsPaced t cs l p in
    let due : ltb now (run cs l).retry_at ≡ false = not_yet now (run cs l).retry_at (omega arith) in
    simp (down, due, irc_maintain) refl
  where
    not_yet : (a b : ℕ) → b ≤ a → ltb a b ≡ false
    not_yet a b h = ground arith
