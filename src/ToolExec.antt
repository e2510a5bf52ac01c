-- ===== src/ToolExec.antt =====
-- src/tool_exec.c: how the output of a child process is collected and what `tool_exec_cmd` makes of
-- it. A child's output is a list of bytes, and a round of the loop is what `poll` and `read` report
-- in it; the rounds end where the deadline passes. `decimal` is the C library's `%d` and `%zu`.
pub mod Reported
use shclaw.Base.{
  ℕ, zero, suc, ◌+◌, ◌-◌, Bool, true, false, not, ◌&&◌, ◌||◌, Option, none, some, List, [], ◌∷◌,
  ◌++◌, leb, ltb, ◌==◌, if◌then◌else◌, Bytes, codes, snprintf, take, drop, length,
}
use shclaw.Base.Int.{ℤ, pos, negsuc}
use shclaw.Util.Buf.{append_all}
use Prim.Native.Nat.{min}

pub data ReadRound : Type 0 where
  -- nothing to read yet, or a signal
  idle : ReadRound
  -- `read` gives this many bytes, as far as there are so many and there is room for them
  bytes : ℕ → ReadRound
  -- the end of the output, or an error
  closed : ReadRound

pub record Collected : Type 0 where
  pub out : Bytes
  pub dropped : ℕ
  pub timed_out : Bool
  pub unread : Bytes

-- Past `cap` the output goes to a sink of 4096 bytes and is counted.
unfoldable pub read_rounds : ℕ → List ReadRound → Bytes → Bytes → ℕ → Collected
read_rounds cap [] out child dropped = record {
  out = out;
  dropped = dropped;
  timed_out = true;
  unread = child;
}
read_rounds cap (closed ∷ rounds) out child dropped = record {
  out = out;
  dropped = dropped;
  timed_out = false;
  unread = child;
}
read_rounds cap (idle ∷ rounds) out child dropped = read_rounds cap rounds out child dropped
read_rounds cap (bytes n ∷ rounds) out child dropped =
    let room : ℕ = min n (cap - length out) in
    let sink : ℕ = min n 4096 in
    let kept = read_rounds cap rounds (out ++ take room child) (drop room child) dropped in
    let counted =
      read_rounds cap rounds out (drop sink child) (dropped + length (take sink child)) in
    if ltb (length out) cap then kept else counted

-- How the child ends: its exit code, or the signal that ended it
pub data Status : Type 0 where
  exited signaled : ℕ → Status

-- `none` is -1: the output or the child itself outlived the deadline, and the child was killed.
unfoldable pub child_collect :
    ℕ → List ReadRound → Bytes → Option Status → Collected × Option Status
child_collect cap rounds child status =
    let c : Collected = read_rounds cap rounds [] child 0 in
    (c, if c.timed_out then none else status)

abbrev pub effective_timeout : ℤ → ℕ
effective_timeout (negsuc n) = 30
effective_timeout (pos n) = if n == 0 then 30 else if ltb 3600 n then 3600 else n

abbrev pub dropped_note : (ℕ → Bytes) → ℕ → List Bytes
dropped_note decimal zero = []
dropped_note decimal (suc n) =
    (codes "\n[output truncated: " ++ (decimal (suc n) ++ codes " more bytes]")) ∷ []

abbrev pub status_note : (ℕ → Bytes) → ℕ → Option Status → List Bytes
status_note decimal timeout none =
    (codes "\n[TIMEOUT after " ++ (decimal timeout ++ codes "s]")) ∷ []
status_note decimal timeout (some (exited zero)) = []
status_note decimal timeout (some (exited (suc n))) =
    (codes "\n[exit " ++ (decimal (suc n) ++ codes "]")) ∷ []
status_note decimal timeout (some (signaled n)) =
    (codes "\n[killed by signal " ++ (decimal n ++ codes "]")) ∷ []

-- A command without output and without a note
abbrev pub or_marker : Bytes → Bytes
or_marker [] = codes "[empty output]"
or_marker (c ∷ s) = c ∷ s

-- What the system answers: whether there is a pipe and a child, and what the child does
pub record Child : Type 0 where
  pub piped : Bool
  pub forked : Bool
  pub rounds : List ReadRound
  pub output : Bytes
  pub status : Option Status

-- `TC_TOOL_OUTPUT_MAX`, and room for the notes
abbrev pub cap_of : ℕ → ℕ
cap_of out_sz = if ltb 10240 (out_sz - 128) then 10240 else out_sz - 128

unfoldable pub run_child : (ℕ → Bytes) → ℕ → Child → ℕ → Bytes
run_child decimal timeout child out_sz =
    let r = child_collect (cap_of out_sz) child.rounds child.output child.status in
    or_marker (
      append_all out_sz r.0.out
        (dropped_note decimal r.0.dropped ++ status_note decimal timeout r.1))

unfoldable pub tool_exec_cmd : (ℕ → Bytes) → Option Bytes → ℤ → Child → ℕ → Bytes
tool_exec_cmd decimal (some (c ∷ cmd)) timeout child out_sz =
    if ltb out_sz 256
    then []
    else if not child.piped
    then codes "Error: pipe() failed"
    else if not child.forked
    then codes "Error: fork() failed"
    else run_child decimal (effective_timeout timeout) child out_sz
tool_exec_cmd decimal _ timeout child out_sz =
    if ltb out_sz 256 then [] else codes "Error: empty command"
