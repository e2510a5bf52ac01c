-- ===== src/ToolExec/Reported.antt =====
-- What src/tool_exec.c reports of a command's output.
use mathlib.Core.Path.{subst}
use shclaw.Base.{
  ℕ, zero, suc, ◌+◌, ◌-◌, ◌≤◌, ◌<◌, ◌≡◌, refl, sym, ap, ◌∙◌, Bool, true, false, inl, inr, Option,
  none, some, List, [], ◌∷◌, ◌++◌, append_assoc, ltb, ltb→lt, ltb→le, if◌then◌else◌, Bool-cases,
  Bytes, take, drop, length, length-append, length-drop, length-take, length-take-le,
  take-append-drop, take-of-length-le, arith,
}
use shclaw.Base.Int.{ℤ}
use shclaw.Util.Buf.{append_all, append_all-eq-take, concat}
use Prim.Native.Nat.{min}
use shclaw.ToolExec.{
  ReadRound, idle, bytes, closed, Collected, read_rounds, Status, child_collect, effective_timeout,
  dropped_note, status_note, or_marker, Child, cap_of, run_child, tool_exec_cmd,
}

-- Whether the rounds end because the deadline passes, and not because the output does
abbrev pub deadline_passes : List ReadRound → Bool
deadline_passes [] = true
deadline_passes (closed ∷ rounds) = false
deadline_passes (idle ∷ rounds) = deadline_passes rounds
deadline_passes (bytes n ∷ rounds) = deadline_passes rounds

-- How many bytes one read gives when `got` were read and the child has written `left` more
abbrev pub read_now : ℕ → ℕ → ℕ → ℕ → ℕ
read_now cap n got left = min (min n (if ltb got cap then cap - got else 4096)) left

-- How many bytes the rounds read in all
abbrev pub read_in : ℕ → List ReadRound → ℕ → ℕ → ℕ
read_in cap [] got left = got
read_in cap (closed ∷ rounds) got left = got
read_in cap (idle ∷ rounds) got left = read_in cap rounds got left
read_in cap (bytes n ∷ rounds) got left =
    read_in cap rounds (got + read_now cap n got left) (left - read_now cap n got left)

-- The start of the output that was read: as much of it is kept as fits, and the rest is counted.
record IsCollected (cap : ℕ) (rounds : List ReadRound) (got left : ℕ) (output : Bytes)
    (c : Collected) : Type 0 where
  seen : Bytes
  stream : output ≡ seen ++ c.unread
  amount : length seen ≡ read_in cap rounds got left
  late : c.timed_out ≡ deadline_passes rounds
  out : c.out ≡ take cap seen
  dropped : c.dropped ≡ length seen - cap

-- A read of some bytes, and then the other rounds
read_more :
    (cap n got left got' left' : ℕ) (rounds : List ReadRound) (output : Bytes) (c : Collected)
    → got' ≡ got + read_now cap n got left
    → left' ≡ left - read_now cap n got left
    → IsCollected cap rounds got' left' output c
    → IsCollected cap (bytes n ∷ rounds) got left output c
read_more cap n got left got' left' rounds output c g l x = record {
  seen = x.seen;
  stream = x.stream;
  amount = x.amount ∙ ap (λ k. read_in cap rounds k left') g ∙ ap (read_in cap rounds _) l;
  late = x.late;
  out = x.out;
  dropped = x.dropped;
}

take-append-full : (n : ℕ) (xs ys : Bytes) → n ≤ length xs → take n (xs ++ ys) ≡ take n xs
take-append-full zero xs ys h = refl
take-append-full (suc n) [] ys h = absurd (omega arith)
take-append-full (suc n) (x ∷ xs) ys h = ap (λ l. x ∷ l) (take-append-full n xs ys (omega arith))

take-least : (cap : ℕ) (seen : Bytes) → length (take cap seen) < cap → take cap seen ≡ seen
take-least zero seen h = absurd (omega arith)
take-least (suc n) [] h = refl
take-least (suc n) (x ∷ xs) h = ap (λ l. x ∷ l) (take-least n xs (omega arith))

-- `seen` was read before, and `out` and `dropped` say so.
read_rounds-IsCollected :
    (cap : ℕ) (rounds : List ReadRound) (seen child output : Bytes) (out : Bytes) (dropped : ℕ)
    → output ≡ seen ++ child
    → out ≡ take cap seen
    → dropped ≡ length seen - cap
    → IsCollected cap rounds
        (length seen)
        (length child)
        output
        (read_rounds cap rounds out child dropped)
unfolding read_rounds
read_rounds-IsCollected cap [] seen child output out dropped s o d = record {
  seen = seen;
  stream = s;
  amount = refl;
  late = refl;
  out = o;
  dropped = d;
}
read_rounds-IsCollected cap (closed ∷ rounds) seen child output out dropped s o d = record {
  seen = seen;
  stream = s;
  amount = refl;
  late = refl;
  out = o;
  dropped = d;
}
read_rounds-IsCollected cap (idle ∷ rounds) seen child output out dropped s o d =
    let x : IsCollected cap rounds (length seen) (length child) output
        (read_rounds cap rounds out child dropped) =
      read_rounds-IsCollected cap rounds seen child output out dropped s o d in
    record {
      seen = x.seen;
      stream = x.stream;
      amount = x.amount;
      late = x.late;
      out = x.out;
      dropped = x.dropped;
    }
read_rounds-IsCollected cap (bytes n ∷ rounds) seen child output out dropped s o d =
    let room : ℕ = min n (cap - length out) in
    let sink : ℕ = min n 4096 in
    elim (Bool-cases (ltb (length out) cap)) [
      | inl e ↦
          let small : length out < cap = ltb→lt (length out) cap e in
          let whole : take cap seen ≡ seen =
            take-least cap seen (subst (λ l. length l < cap) o small) in
          let got : Bytes = take room child in
          let l = length-append seen got in
          let k = length-take-le room child in
          let same : length out ≡ length seen = ap length (o ∙ whole) in
          let room_left : length (seen ++ got) ≤ cap =
            fits n cap (length out) (length seen) (length got) (length (seen ++ got)) small same l
              k in
          rw (e, read_rounds)
            (read_more cap n (length seen) (length child) (length (seen ++ got))
              (length (drop room child)) rounds output _
              (more n cap (length seen) (length out) seen child same small)
              (fewer n cap (length seen) (length out) child same small)
              (read_rounds-IsCollected cap rounds (seen ++ got) (drop room child) output
                (out ++ got) dropped (next seen child output room s)
                (ap (λ x. x ++ got) (o ∙ whole)
                  ∙ sym (take-of-length-le cap (seen ++ got) room_left))
                (omega arith)))
      | inr e ↦
          let full : cap ≤ length out = ltb→le (length out) cap e in
          let got : Bytes = take sink child in
          let l = length-append seen got in
          let k = length-take cap seen in
          let j : length out ≡ length (take cap seen) = ap length o in
          let enough : cap ≤ length seen = omega (arith, j) in
          rw (e, read_rounds)
            (read_more cap n (length seen) (length child) (length (seen ++ got))
              (length (drop sink child)) rounds output _ (more_sunk n cap seen child enough)
              (fewer_sunk n cap (length seen) child enough)
              (read_rounds-IsCollected cap rounds (seen ++ got) (drop sink child) output out
                (dropped + length got) (next seen child output sink s)
                (o ∙ sym (take-append-full cap seen got enough)) (omega arith)))
    ]
  where
    next :
        (seen child output : Bytes) (n : ℕ)
        → output ≡ seen ++ child
        → output ≡ (seen ++ take n child) ++ drop n child
    next seen child output n s =
        s
        ∙ ap (λ x. seen ++ x) (sym (take-append-drop n child))
        ∙ sym (append_assoc seen (take n child) (drop n child))

    more :
        (n cap g o : ℕ) (seen child : Bytes)
        → o ≡ length seen
        → o < cap
        → length (seen ++ take (min n (cap - o)) child)
          ≡ length seen + read_now cap n (length seen) (length child)
    more n cap g o seen child e h =
        let l = length-append seen (take (min n (cap - o)) child) in
        let k = length-take (min n (cap - o)) child in ground arith

    fewer :
        (n cap g o : ℕ) (child : Bytes)
        → o ≡ g
        → o < cap
        → length (drop (min n (cap - o)) child) ≡ length child - read_now cap n g (length child)
    fewer n cap g o child e h = let k = length-drop (min n (cap - o)) child in ground arith

    more_sunk :
        (n cap : ℕ) (seen child : Bytes)
        → cap ≤ length seen
        → length (seen ++ take (min n 4096) child)
          ≡ length seen + read_now cap n (length seen) (length child)
    more_sunk n cap seen child h =
        let l = length-append seen (take (min n 4096) child) in
        let k = length-take (min n 4096) child in ground arith

    fewer_sunk :
        (n cap g : ℕ) (child : Bytes)
        → cap ≤ g
        → length (drop (min n 4096) child) ≡ length child - read_now cap n g (length child)
    fewer_sunk n cap g child h = let k = length-drop (min n 4096) child in ground arith

    fits : (n cap o s g w : ℕ) → o < cap → o ≡ s → w ≡ s + g → g ≤ min n (cap - o) → w ≤ cap
    fits n cap o s g w h e f k = omega arith

-- How a child ended, as far as the deadline let it
abbrev ended : Bool → Option Status → Option Status
ended timed_out status = if timed_out then none else status

-- What a buffer of `n` bytes takes of the start `seen` of an output and the notes
abbrev pub shown : (ℕ → Bytes) → ℕ → ℕ → ℕ → Bytes → Option Status → Bytes
shown decimal timeout n cap seen status = take (n - 1) (
    take cap seen
    ++ concat (dropped_note decimal (length seen - cap) ++ status_note decimal timeout status))

-- What is reported of the start `seen` of a command's output
pub record IsReported (decimal : ℕ → Bytes) (timeout : ℕ) (child : Child) (out_sz : ℕ)
    (text : Bytes) : Type 0 where
  pub seen : Bytes
  pub unread : Bytes
  pub stream : child.output ≡ seen ++ unread
  pub amount : length seen ≡ read_in (cap_of out_sz) child.rounds 0 (length child.output)
  pub report :
      text
      ≡ or_marker (
          shown decimal timeout out_sz
            (cap_of out_sz)
            seen
            (ended (deadline_passes child.rounds) child.status))

cap_bounds : (n : ℕ) → 256 ≤ n → cap_of n ≤ n - 1
cap_bounds n h = ground arith

-- Whatever the rounds in which a command writes: for a buffer of 256 bytes at least, and where the
-- child could be started, the result is the start of its output, as much of it as is kept, with the
-- number of the bytes that were read beyond it, and with a note of the timeout where the deadline
-- passed before the output or the child ended, else with how the child ended. What was read is the
-- start of what the child wrote, as long as the reads of the rounds together.
pub tool_exec_cmd-IsReported :
    (decimal : ℕ → Bytes) (c : ℕ) (cmd : Bytes) (timeout : ℤ) (child : Child) (out_sz : ℕ)
    → 256 ≤ out_sz
    → child.piped ≡ true
    → child.forked ≡ true
    → IsReported decimal
        (effective_timeout timeout)
        child
        out_sz
        (tool_exec_cmd decimal (some (c ∷ cmd)) timeout child out_sz)
unfolding tool_exec_cmd run_child child_collect
tool_exec_cmd-IsReported decimal c cmd timeout child out_sz h p f =
    let r : Collected = read_rounds (cap_of out_sz) child.rounds [] child.output 0 in
    let k : IsCollected (cap_of out_sz) child.rounds 0 (length child.output) child.output r =
      read_rounds-IsCollected (cap_of out_sz) child.rounds [] child.output child.output [] 0 refl
        (sym (take-of-length-le (cap_of out_sz) [] (omega arith))) (omega arith) in
    record {
      seen = k.seen;
      unread = r.unread;
      stream = k.stream;
      amount = k.amount;
      report =
          simp (not_small out_sz h, p, f, tool_exec_cmd)
            (ap or_marker (
              reported out_sz (cap_of out_sz) r.out k.seen r.dropped
                (ended r.timed_out child.status) h (cap_bounds out_sz h) k.out k.dropped
              ∙ ap
                  (λ b.
                    shown decimal (effective_timeout timeout) out_sz (cap_of out_sz) k.seen
                      (ended b child.status))
                  k.late));
    }
  where
    not_small : (n : ℕ) → 256 ≤ n → ltb n 256 ≡ false
    not_small n h = ground arith

    reported :
        (n cap : ℕ) (out seen : Bytes) (dropped : ℕ) (status : Option Status)
        → 256 ≤ n
        → cap ≤ n - 1
        → out ≡ take cap seen
        → dropped ≡ length seen - cap
        → append_all n out
            (dropped_note decimal dropped ++ status_note decimal (effective_timeout timeout) status)
          ≡ shown decimal (effective_timeout timeout) n cap seen status
    reported n cap out seen dropped status h c o d =
        let l = length-take-le cap seen in
        let j : length out ≡ length (take cap seen) = ap length o in
        append_all-eq-take n out
          (dropped_note decimal dropped ++ status_note decimal (effective_timeout timeout) status)
          (omega arith)
        ∙ ap
            (λ x. take (n - 1) (
              x
              ++ concat (
                  dropped_note decimal dropped
                  ++ status_note decimal (effective_timeout timeout) status)))
            o
        ∙ ap
            (λ x. take (n - 1) (
              take cap seen
              ++ concat (
                  dropped_note decimal x
                  ++ status_note decimal (effective_timeout timeout) status)))
            d
