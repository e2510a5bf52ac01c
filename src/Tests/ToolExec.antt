-- ===== src/Tests/ToolExec.antt =====
-- Runs of src/tool_exec.c.
use shclaw.Base.{ℕ, ◌+◌, ◌≡◌, refl, true, some, [], ◌∷◌, arith, codes, Bytes}
use shclaw.Base.Int.{pos}
use shclaw.Util.Buf.{append_all}
use shclaw.ToolExec.{
  idle, bytes, closed, exited, Child, effective_timeout, read_rounds, child_collect, run_child,
  tool_exec_cmd,
}
use shclaw.ToolExec.Reported.{IsReported, tool_exec_cmd-IsReported}

abbrev digit : ℕ → Bytes
digit n = (n + b'0') ∷ []

-- A child that writes in two pieces, and fails
abbrev child : Child
child = record {
  piped = true;
  forked = true;
  rounds = bytes 3 ∷ idle ∷ bytes 90 ∷ closed ∷ [];
  output = codes "no such file";
  status = some (exited 2);
}

reported :
    tool_exec_cmd digit (some (codes "ls x")) (pos 0) child 256 ≡ codes "no such file\n[exit 2]"
unfolding tool_exec_cmd run_child child_collect read_rounds append_all
reported = refl

cut : (read_rounds 4 child.rounds [] child.output 0).out ≡ codes "no s"
unfolding read_rounds
cut = refl

counted : (read_rounds 4 (bytes 9 ∷ bytes 9 ∷ []) [] child.output 0).dropped ≡ 8
unfolding read_rounds
counted = refl

tool_exec_cmd-IsReported_example :
    IsReported digit
      (effective_timeout (pos 0))
      child
      256
      (tool_exec_cmd digit (some (codes "ls x")) (pos 0) child 256)
tool_exec_cmd-IsReported_example =
    tool_exec_cmd-IsReported digit b'l' (codes "s x") (pos 0) child 256 (omega arith) refl refl
