-- ===== src/Tools.antt =====
-- `tool_check_args` of src/tools.c, for the tools of the table (Table).
pub mod Message
pub mod Table
pub mod Given
pub mod Choices
pub mod Valid
pub mod Checked
use shclaw.Base.{
  ℕ, zero, suc, ◌+◌, Bool, true, false, not, ◌&&◌, ◌||◌, Option, none, some, List, [], ◌∷◌, ◌++◌,
  if◌then◌else◌, Bytes, codes, strcmp_eq, snprintf, length, ◌==◌,
}
use shclaw.Base.Int.{ℤ, pos, negsuc}
use shclaw.Json.{
  Value, null, string, object, array, Members, Scanned, get_value, j_int, j_bool, replace_item,
}
use shclaw.Memory.Search.{occurs}
use shclaw.Util.Buf.{append_all}
use shclaw.Tools.Table.{ParamType, Param, ToolDef, string_type, int_type, bool_type}

-- An empty text stands for no choice. `pat` and `val` are buffers of 258 and 256 bytes.
unfoldable pub is_choice : Option Bytes → Bytes → Bool
unfolding occurs
is_choice none s = true
is_choice (some choices) [] = true
is_choice (some choices) (c ∷ s) =
    occurs (snprintf 256 (codes "," ++ ((c ∷ s) ++ codes ",")))
      (snprintf 258 (codes "," ++ (choices ++ codes ",")))

abbrev pub is_none : Option Bytes → Bool
is_none none = true
is_none (some s) = false

-- What is checked of a text: JSON values without quotes are taken as their text.
unfoldable pub unquoted : (Bytes → Bytes → Bool) → Members → Param → Value → Members
unfolding replace_item
unquoted same input p (object s) =
    if is_none p.choices then replace_item same input p.name (string s) else input
unquoted same input p (array s) =
    if is_none p.choices then replace_item same input p.name (string s) else input
unquoted same input p v = input

unfoldable pub string_ok : Param → Option Value → Bool
unfolding is_choice
string_ok p (some (string s)) = is_choice p.choices s
string_ok p _ = false

abbrev pub is_some_int : ℤ → Bool
is_some_int (pos n) = true
is_some_int (negsuc n) = not (n == 2147483647)

abbrev pub is_some_bool : Option Bool → Bool
is_some_bool none = false
is_some_bool (some b) = true

-- The input after the check of a parameter that has the value `v`, and whether it is `ok`
unfoldable pub check_value :
    (Bytes → Bytes → Bool)
    → (Bytes → Scanned)
    → Members
    → Param
    → Value
    → ParamType
    → Members × Bool
unfolding unquoted string_ok get_value j_int j_bool
check_value same strtol input p v string_type =
    let after : Members = unquoted same input p v in
    (after, string_ok p (get_value same after p.name))
check_value same strtol input p v int_type =
    (input, is_some_int (j_int same strtol input p.name (negsuc 2147483647)))
check_value same strtol input p v bool_type = (input, is_some_bool (j_bool same input p.name none))

unfoldable pub check_param :
    (Bytes → Bytes → Bool) → (Bytes → Scanned) → Members → Param → Option Value → Members × Bool
unfolding check_value
check_param same strtol input p none = (input, not p.required)
check_param same strtol input p (some null) = (input, not p.required)
check_param same strtol input p (some v) = check_value same strtol input p v p.type

-- `v` is read again after a value without quotes was replaced, and is there still.
abbrev pub problem_of : Param → Option Value → Bytes
problem_of p none = snprintf 256 (codes "missing required parameter '" ++ (p.name ++ codes "'"))
problem_of p (some v) = snprintf 256 (codes "invalid value for '" ++ (p.name ++ codes "'"))

-- The loop over the parameters: the input after it, and the first problem
unfoldable pub check_params :
    (Bytes → Bytes → Bool) → (Bytes → Scanned) → List Param → Members → Members × Option Bytes
unfolding check_param get_value
check_params same strtol [] input = (input, none)
check_params same strtol (p ∷ ps) input =
    let v : Option Value = get_value same input p.name in
    let r : Members × Bool = check_param same strtol input p v in
    let rest : Members × Option Bytes = check_params same strtol ps r.0 in
    if r.1 then rest else (r.0, some (problem_of p v))

abbrev pub type_to_json_str : ParamType → Bytes
type_to_json_str string_type = codes "string"
type_to_json_str int_type = codes "integer"
type_to_json_str bool_type = codes "boolean"

abbrev pub choices_text : Option Bytes → Bytes
choices_text none = []
choices_text (some c) = codes " one of " ++ c

unfoldable pub param_texts : Bool → List Param → List Bytes
param_texts first [] = codes ")" ∷ []
param_texts first (p ∷ ps) =
    ((if first then [] else codes ", ")
      ++ (p.name
          ++ (codes ": "
              ++ (type_to_json_str p.type
                  ++ (choices_text p.choices ++ (if p.required then codes ", required" else []))))))
    ∷ param_texts false ps

-- What `out` holds; `none` is NULL, for an input that matches. The input is what the call leaves.
unfoldable pub tool_check_args :
    (Bytes → Bytes → Bool) → (Bytes → Scanned) → ToolDef → Members → ℕ → Members × Option Bytes
unfolding check_params param_texts append_all
tool_check_args same strtol t input out_sz =
    let r : Members × Option Bytes = check_params same strtol t.params input in
    (
      r.0,
      elim r.1 [
        | none ↦ none
        | some problem ↦ some (
            append_all out_sz [] (
              (codes "Error: " ++ (problem ++ (codes ". Usage: " ++ (t.name ++ codes "("))))
              ∷ param_texts true t.params))
      ],
    )
