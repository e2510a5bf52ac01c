-- ===== src/Tools/Table.antt =====
-- The tools of src/tools.c: their table, `tool_find`, and which of them an agent is offered.
-- Descriptions are left out; the build is one with plugins.
use shclaw.Base.{
  Bool, true, false, not, ◌||◌, Option, none, some, List, [], ◌∷◌, if◌then◌else◌, Bytes, codes,
  strcmp_eq,
}

pub data ParamType : Type 0 where
  string_type int_type bool_type : ParamType

pub record Param : Type 0 where
  pub name : Bytes
  pub type : ParamType
  pub required : Bool
  pub choices : Option Bytes

pub record ToolDef : Type 0 where
  pub name : Bytes
  pub params : List Param

abbrev pub param : Bytes → ParamType → Bool → Option Bytes → Param
param name type required choices = record {
  name = name;
  type = type;
  required = required;
  choices = choices;
}

abbrev pub needs : Bytes → ParamType → Param
needs name type = param name type true none

abbrev pub takes : Bytes → ParamType → Param
takes name type = param name type false none

abbrev pub tool_table : List ToolDef
tool_table =
    record {
      name = codes "exec";
      params = needs (codes "command") string_type ∷ takes (codes "timeout") int_type ∷ [];
    }
    ∷ record {
      name = codes "read_file";
      params =
          needs (codes "path") string_type
          ∷ takes (codes "offset") int_type
          ∷ takes (codes "limit") int_type
          ∷ [];
    }
    ∷ record {
      name = codes "write_file";
      params =
          needs (codes "path") string_type
          ∷ needs (codes "content") string_type
          ∷ takes (codes "append") bool_type
          ∷ [];
    }
    ∷ record {
      name = codes "schedule_task";
      params =
          takes (codes "in_minutes") int_type
          ∷ takes (codes "run_at") string_type
          ∷ needs (codes "description") string_type
          ∷ takes (codes "prompt") string_type
          ∷ [];
    }
    ∷ record {
      name = codes "schedule_recurring";
      params =
          takes (codes "in_minutes") int_type
          ∷ takes (codes "run_at") string_type
          ∷ param (codes "interval") string_type true
              (some (codes "every_30min,hourly,every_6h,every_12h,daily,weekly"))
          ∷ needs (codes "description") string_type
          ∷ takes (codes "prompt") string_type
          ∷ [];
    }
    ∷ record { name = codes "list_tasks"; params = [] }
    ∷ record {
      name = codes "update_task";
      params =
          needs (codes "task_id") string_type
          ∷ takes (codes "run_at") string_type
          ∷ takes (codes "description") string_type
          ∷ takes (codes "prompt") string_type
          ∷ takes (codes "interval") string_type
          ∷ [];
    }
    ∷ record { name = codes "cancel_task"; params = needs (codes "task_id") string_type ∷ [] }
    ∷ record {
      name = codes "remember";
      params =
          needs (codes "content") string_type
          ∷ param (codes "category") string_type false
              (some (codes "general,project,person,event,error"))
          ∷ takes (codes "importance") int_type
          ∷ takes (codes "tags") string_type
          ∷ [];
    }
    ∷ record {
      name = codes "recall";
      params = takes (codes "query") string_type ∷ takes (codes "n") int_type ∷ [];
    }
    ∷ record {
      name = codes "set_fact";
      params = needs (codes "key") string_type ∷ needs (codes "value") string_type ∷ [];
    }
    ∷ record { name = codes "get_fact"; params = takes (codes "key") string_type ∷ [] }
    ∷ record {
      name = codes "send_message";
      params = needs (codes "to") string_type ∷ needs (codes "content") string_type ∷ [];
    }
    ∷ record { name = codes "list_agents"; params = [] }
    ∷ record {
      name = codes "create_plugin";
      params =
          needs (codes "name") string_type
          ∷ needs (codes "code") string_type
          ∷ takes (codes "test_input") string_type
          ∷ [];
    }
    ∷ record {
      name = codes "clear_memory";
      params =
          needs (codes "agent") string_type
          ∷ param (codes "what") string_type false (some (codes "memory,facts,both"))
          ∷ [];
    }
    ∷ []

unfoldable pub find_tool : List ToolDef → Bytes → Option ToolDef
unfolding strcmp_eq
find_tool [] name = none
find_tool (t ∷ ts) name =
    let rest = find_tool ts name in if strcmp_eq t.name name then some t else rest

-- `none` is the id -1.
unfoldable pub tool_find : Bytes → Option ToolDef
unfolding find_tool
tool_find name = find_tool tool_table name

abbrev pub is_tool : Bytes → Bytes → Bool
is_tool name other = strcmp_eq name other

-- Whether `tools_to_json` offers a tool
unfoldable pub is_offered : Bool → Bytes → Bool
unfolding strcmp_eq
is_offered is_builder name =
    if is_builder
    then is_tool name (codes "read_file")
      || is_tool name (codes "exec")
      || is_tool name (codes "create_plugin")
      || is_tool name (codes "send_message")
    else not (is_tool name (codes "create_plugin"))

unfoldable pub offered_from : Bool → List ToolDef → List Bytes
unfolding is_offered
offered_from is_builder [] = []
offered_from is_builder (t ∷ ts) =
    let rest = offered_from is_builder ts in
    if is_offered is_builder t.name then t.name ∷ rest else rest

-- The names of the tools in `tools_to_json`
unfoldable pub tools_to_json : Bool → List Bytes
unfolding offered_from
tools_to_json is_builder = offered_from is_builder tool_table
