-- ===== src/Tools/Checked.antt =====
-- What an input holds that `tool_check_args` of src/tools.c accepts, and why it refuses another.
use shclaw.Base.{
  ◌⊎◌, ℕ, ◌-◌, ◌≡◌, Bool, true, Option, none, some, List, ◌∷◌, ◌++◌, Bytes, codes, take, All,
}
use shclaw.Json.{Value, Members, Scanned}
use shclaw.Util.Buf.{concat}
use shclaw.Tools.{problem_of, param_texts}
use shclaw.Tools.Table.{Param, ToolDef}
use shclaw.Tools.Given.{IsValid}

-- All parameters are given in what is left of the input; or one is not, and the problem names it.
abbrev pub Verdict :
    (Bytes → Bytes → Bool) → (Bytes → Scanned) → List Param → Members → (Option Bytes) → Type 0
Verdict same strtol ps input problem =
    ((problem ≡ none) × All (IsValid same strtol input) ps)
    ⊎ ((p : Param) × (before : List Param) × (after : List Param) × (v : Option Value) × (ps
          ≡ before ++ p ∷ after)
        × (problem ≡ some (problem_of p v))
        × (IsValid same strtol input p → ⊥))

-- What a call answers: nothing, and then every parameter is given in what is left of the input; or
-- an error that names one that is not.
pub record IsChecked (same : Bytes → Bytes → Bool) (strtol : Bytes → Scanned) (t : ToolDef)
    (out_sz : ℕ) (r : Members × Option Bytes) : Type 0 where
  pub problem : Option Bytes
  pub verdict : Verdict same strtol t.params r.0 problem
  pub answer : r.1 ≡ elim problem [
    | none ↦ none
    | some s ↦ some (
        take (out_sz - 1) (
          (codes "Error: " ++ (s ++ (codes ". Usage: " ++ (t.name ++ codes "("))))
          ++ concat (param_texts true t.params)))
  ]
