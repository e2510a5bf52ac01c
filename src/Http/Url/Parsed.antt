-- ===== src/Http/Url/Parsed.antt =====
-- What `parse_url` of src/http.c accepts.
use mathlib.Core.Path.{subst}
use shclaw.Base.{
  ℕ, ◌+◌, ◌≤◌, ◌<◌, ◌≡◌, refl, Bool, true, false, not, ◌||◌, Option, none, some, inl, inr, [], ◌∷◌,
  leb, ◌==◌, if_rule, Bool-cases, Option-cases, Bytes, codes, cspn, mem_byte, drop, length, All,
  All-drop, arith,
}
use shclaw.Base.Int.{ℤ}
use shclaw.Http.Url.{
  is_ctl, has_ctl, Url, Authority, strip_prefix, scheme, after_bracket, bracketed, named_host,
  authority, path_of, valid_port, port_of, bad_host, check_url, parse_rest, parse_url,
}

abbrev pub NoCtl : Bytes → Type 0
NoCtl s = All (λ c. is_ctl c ≡ false) s

-- A URL that can be asked for: a host that fits its buffer, a port, a path that fits its buffer, and
-- no control byte in either
pub record IsUsable (u : Url) : Type 0 where
  pub host_length : (1 ≤ length u.host) × (length u.host < 256)
  pub path_length : length u.path < 2048
  pub port : valid_port u.port ≡ true
  pub host_clean : NoCtl u.host
  pub path_clean : NoCtl u.path

has_ctl-NoCtl : (s : Bytes) → has_ctl s ≡ false → NoCtl s
unfolding has_ctl
has_ctl-NoCtl [] h = tt
has_ctl-NoCtl (c ∷ s) h = (ground arith, has_ctl-NoCtl s (ground arith))

cspn-NoCtl : (set s : Bytes) → NoCtl s → NoCtl (cspn set s)
unfolding cspn
cspn-NoCtl set [] h = tt
cspn-NoCtl set (c ∷ s) h = elim (Bool-cases (mem_byte c set)) [
  | inl e ↦ rw (e, cspn) tt
  | inr e ↦ rw (e, cspn) (h.0, cspn-NoCtl set s h.1)
]

-- What a successful step leaves, as a statement about every outcome
pub data Whenever {A : Type 0} (P : A → Type 0) : Option A → Type 0 where
  failed : Whenever P none
  gave : {a : A} → P a → Whenever P (some a)

strip_prefix-NoCtl : (p s : Bytes) → NoCtl s → Whenever NoCtl (strip_prefix p s)
unfolding strip_prefix
strip_prefix-NoCtl [] s h = gave h
strip_prefix-NoCtl (p ∷ ps) [] h = failed
strip_prefix-NoCtl (p ∷ ps) (c ∷ s) h =
    if_rule (Whenever NoCtl) (p == c) _ _ (strip_prefix-NoCtl ps s h.1) failed

given_by : {P : Bytes → Type 0} {o : Option Bytes} {a : Bytes} → o ≡ some a → Whenever P o → P a
given_by {P = P} {a = a} e w = from (subst (Whenever P) e w)
  where
    from : Whenever P (some a) → P a
    from (gave h) = h

scheme-NoCtl : (s : Bytes) → NoCtl s → NoCtl (scheme s).1
unfolding scheme
scheme-NoCtl s h = elim (Option-cases (strip_prefix (codes "https://") s)) [
  | inr (r, e) ↦ rw (e, scheme) (given_by e (strip_prefix-NoCtl (codes "https://") s h))
  | inl e ↦ elim (Option-cases (strip_prefix (codes "http://") s)) [
    | inr (r, f) ↦ rw (e, f, scheme) (given_by f (strip_prefix-NoCtl (codes "http://") s h))
    | inl f ↦ rw (e, f, scheme) h
  ]
]

path_of-NoCtl : (s : Bytes) → NoCtl s → NoCtl (path_of s)
unfolding path_of
path_of-NoCtl [] h = (refl, tt)
path_of-NoCtl (c ∷ s) h =
    if_rule NoCtl (c == b'/') _ _ (cspn-NoCtl (b'#' ∷ []) (c ∷ s) h)
      (refl, cspn-NoCtl (b'#' ∷ []) (c ∷ s) h)

abbrev CleanName : Authority → Type 0
CleanName a = NoCtl a.name

after_bracket-CleanName : (name s : Bytes) → NoCtl name → Whenever CleanName (after_bracket name s)
after_bracket-CleanName name [] h = gave h
after_bracket-CleanName name (c ∷ s) h =
    if_rule (Whenever CleanName) (c == b':') _ _ (gave h) failed

bracketed-CleanName : (s : Bytes) → NoCtl s → Whenever CleanName (bracketed s)
unfolding bracketed
bracketed-CleanName s h =
    if_rule (Whenever CleanName) (mem_byte b']' s) _ _
      (after_bracket-CleanName (cspn (b']' ∷ []) s) (drop (length (cspn (b']' ∷ []) s) + 1) s)
        (cspn-NoCtl (b']' ∷ []) s h))
      failed

named_host-CleanName : (s : Bytes) → NoCtl s → Whenever CleanName (named_host s)
unfolding named_host
named_host-CleanName s h =
    if_rule (Whenever CleanName) (mem_byte b':' s) _ _ (gave (cspn-NoCtl (b':' ∷ []) s h)) (gave h)

authority-CleanName : (s : Bytes) → NoCtl s → Whenever CleanName (authority s)
unfolding authority
authority-CleanName [] h = gave tt
authority-CleanName (c ∷ s) h =
    if_rule (Whenever CleanName) (c == b'[') _ _ (bracketed-CleanName s h.1)
      (named_host-CleanName (c ∷ s) h)

check_url-IsUsable : (u : Url) → NoCtl u.host → NoCtl u.path → Whenever IsUsable (check_url u)
unfolding check_url
check_url-IsUsable u h p =
    elim (Bool-cases (bad_host u.host || leb 2048 (length u.path) || not (valid_port u.port))) [
      | inl e ↦ rw (e, check_url) failed
      | inr e ↦
          rw (e, check_url)
            (gave (record {
              host_length =
                  host_ok (length u.host) (leb 2048 (length u.path)) (not (valid_port u.port)) e;
              path_length = path_ok (bad_host u.host) (length u.path) (not (valid_port u.port)) e;
              port = port_ok (bad_host u.host) (leb 2048 (length u.path)) (valid_port u.port) e;
              host_clean = h;
              path_clean = p;
            }))
    ]
  where
    host_ok : (n : ℕ) (b c : Bool) → (n == 0 || leb 256 n || b || c) ≡ false → (1 ≤ n) × (n < 256)
    host_ok n b c e = ground arith

    path_ok : (a : Bool) (n : ℕ) (b : Bool) → (a || leb 2048 n || b) ≡ false → n < 2048
    path_ok a n b e = ground arith

    port_ok : (a b c : Bool) → (a || b || not c) ≡ false → c ≡ true
    port_ok a b c e = ground arith

name_of : {o : Option Authority} {a : Authority} → o ≡ some a → Whenever CleanName o → NoCtl a.name
name_of {a = a} e w = from (subst (Whenever CleanName) e w)
  where
    from : Whenever CleanName (some a) → NoCtl a.name
    from (gave h) = h

parse_rest-IsUsable :
    (atoi : Bytes → ℤ) (is_https : Bool) (s : Bytes)
    → NoCtl s
    → Whenever IsUsable (parse_rest atoi is_https s)
unfolding parse_rest
parse_rest-IsUsable atoi is_https s h = elim (Option-cases (authority (cspn (codes "/?#") s))) [
  | inl e ↦ rw (e, parse_rest) failed
  | inr (a, e) ↦
      rw (e, parse_rest)
        (check_url-IsUsable
          (record {
            host = a.name;
            port = port_of atoi is_https a.port_text;
            path = path_of (drop (length (cspn (codes "/?#") s)) s);
            is_https = is_https;
          })
          (name_of e (authority-CleanName (cspn (codes "/?#") s) (cspn-NoCtl (codes "/?#") s h)))
          (path_of-NoCtl (drop (length (cspn (codes "/?#") s)) s)
            (All-drop _ (length (cspn (codes "/?#") s)) s h)))
]

-- Whatever the URL, and whatever `atoi` makes of its port: it is refused, or it yields a host of 1
-- to 255 bytes, a port from 1 to 65535 and a path of less than 2048 bytes, with no control byte in
-- host or path that could end a header line.
pub parse_url-IsUsable :
    (atoi : Bytes → ℤ) (url : Option Bytes) → Whenever IsUsable (parse_url atoi url)
unfolding parse_url
parse_url-IsUsable atoi none = failed
parse_url-IsUsable atoi (some url) = elim (Bool-cases (has_ctl url)) [
  | inl e ↦ rw (e, parse_url) failed
  | inr e ↦
      rw (e, parse_url)
        (parse_rest-IsUsable atoi (scheme url).0 (scheme url).1
          (scheme-NoCtl url (has_ctl-NoCtl url e)))
]
