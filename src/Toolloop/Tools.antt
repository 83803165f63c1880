-- ===== src/Toolloop/Tools.antt =====
-- internal/toolloop/tools.go: the tools that a model may call, and how a call of one ends. What a tool brings
-- when it is invoked at a turn, and the wording of the refusals, are parameters.
pub mod Answers
use dispute_router.Common.{
  ℕ, String, str_eq, Bool, true, false, List, [], ◌∷◌, map, Option, none, some, ltb, if◌then◌else◌,
  length,
}
use dispute_router.Common.Bytes.{Bytes}
use dispute_router.Llm.{Tool, ToolUse}

-- `Rule`; `not_refused` is the empty string.
pub data Rule : Type 0 where
  not_refused unknown_tool invalid_arguments not_found result_too_large : Rule

-- `ToolResult`.
pub record ToolResult : Type 0 where
  pub tool_use_id : String
  pub content : Bytes
  pub is_error : Bool
  pub rule : Rule

-- The errors that ruleFor tells apart, by what they wrap.
pub data ToolError : Type 0 where
  wraps_invalid_arguments wraps_invalid_input wraps_not_found other_error : ToolError

-- What an invocation brings: the JSON of its value, a value that does not encode, or an error with its text.
pub data Invoked : Type 0 where
  value : Bytes → Invoked
  not_encodable : Invoked
  raised : ToolError → Bytes → Invoked

-- `disputetools.Definition`: an entry of the catalog.
pub record Definition : Type 0 where
  pub tool : Tool
  pub invoke : ℕ → Bytes → Invoked

-- The texts that refuse a name and a length.
pub record Wording : Type 0 where
  pub no_tool_named : String → List String → Bytes
  pub too_many_bytes : ℕ → Bytes

pub record Registry : Type 0 where
  pub catalog : List Definition
  pub wording : Wording

abbrev pub max_result_bytes : ℕ
max_result_bytes = 32768

-- `byName[name]`: of two entries with one name the map holds the later.
unfoldable pub by_name : String → List Definition → Option Definition
by_name name [] = none
by_name name (d ∷ ds) = elim (by_name name ds) [
  | some e ↦ some e
  | none ↦ if str_eq d.tool.name name then some d else none
]

-- `Registry.Tools`.
unfoldable pub tools_of : List Definition → List Tool
tools_of [] = []
tools_of (d ∷ ds) = d.tool ∷ tools_of ds

-- `Registry.Names`.
unfoldable pub names_of : List Definition → List String
names_of [] = []
names_of (d ∷ ds) = d.tool.name ∷ names_of ds

-- `ruleFor`.
unfoldable pub rule_for : ToolError → Option Rule
rule_for wraps_invalid_arguments = some invalid_arguments
rule_for wraps_invalid_input = some invalid_arguments
rule_for wraps_not_found = some not_found
rule_for other_error = none

-- `refuse`.
unfoldable pub refuse : ToolUse → Rule → Bytes → ToolResult
refuse u rule reason = record { tool_use_id = u.id; content = reason; is_error = true; rule = rule }

refused_by : ToolUse → Bytes → Option Rule → Option ToolResult
unfolding refuse
refused_by u text none = none
refused_by u text (some rule) = some (refuse u rule text)

-- `Run` from the invocation on.
unfoldable pub settle : Wording → Bool → ToolUse → Invoked → Option ToolResult
unfolding refuse refused_by rule_for
settle w cancelled u (raised e text) = if cancelled then none else refused_by u text (rule_for e)
settle w cancelled u not_encodable = none
settle w cancelled u (value encoded) =
    if ltb max_result_bytes (length encoded)
    then some (refuse u result_too_large (w.too_many_bytes (length encoded)))
    else some record { tool_use_id = u.id; content = encoded; is_error = false; rule = not_refused }

-- `Registry.Run`; `none` is an error, which ends the run.
unfoldable pub run_tool : Registry → Bool → ℕ → ToolUse → Option ToolResult
unfolding settle by_name names_of refuse
run_tool r cancelled turn u = elim (by_name u.name r.catalog) [
  | none ↦ some (refuse u unknown_tool (r.wording.no_tool_named u.name (names_of r.catalog)))
  | some def ↦ settle r.wording cancelled u (def.invoke turn u.input)
]
