-- ===== src/Toolloop.antt =====
-- internal/toolloop/loop.go: a model driven over a set of tools until it ends or meets a ceiling. What the model
-- answers, when the context is cancelled, and what each tool brings at each turn are parameters; the time
-- that calls take is left out. Costs are not negative and fit an int64.
pub mod Tools
pub mod Ends
pub mod Spend
pub mod Halts
pub mod Talk
use dispute_router.Common.{
  ℕ, zero, suc, ◌+◌, ◌-◌, String, str_eq, Bool, true, false, not, ◌&&◌, ◌||◌, List, [], ◌∷◌, ◌++◌,
  Option, none, some, ltb, leb, if◌then◌else◌, length, map,
}
use dispute_router.Common.Bytes.{Bytes}
use dispute_router.Llm.{
  ContentBlock, empty_block, text_block, Message, Request, Response, ToolUse, Usage, no_usage,
  add_usage,
}
use dispute_router.Llm.Pricing.{Pricing, cost}
use dispute_router.Toolloop.Tools.{Registry, ToolResult, Rule, not_refused, tools_of, run_tool}

-- `Halt`.
pub data Halt : Type 0 where
  completed turn_ceiling budget_exceeded output_truncated unexpected_stop_reason : Halt

-- `Halt.Done`.
unfoldable pub done : Halt → Bool
done completed = true
done _ = false

-- `Budget`; a cost of zero is no ceiling.
pub record Budget : Type 0 where
  pub max_turns : ℕ
  pub max_cost_micros : ℕ
  pub max_tokens : ℕ

-- `ToolCall`.
pub record ToolCall : Type 0 where
  pub name : String
  pub input : Bytes
  pub result_bytes : ℕ
  pub is_error : Bool
  pub rule : Rule

-- `Turn`.
pub record Turn : Type 0 where
  pub index : ℕ
  pub stop_reason : String
  pub usage : Usage
  pub cost_micros : ℕ
  pub tool_calls : List ToolCall

-- `Result`.
pub record RunResult : Type 0 where
  pub text : Bytes
  pub halt : Halt
  pub stop_reason : String
  pub turns : List Turn
  pub usage : Usage
  pub cost_micros : ℕ
  pub messages : List Message

-- `Loop`.
pub record Loop : Type 0 where
  pub registry : Registry
  pub pricing : Pricing
  pub budget : Budget
  pub model : String

-- What the outside does: at the start of a turn, whether the context is done; what the model answers; and for
-- each tool call of a turn, whether its context was done when the tool failed.
pub record World : Type 0 where
  pub is_cancelled : ℕ → Bool
  pub complete : ℕ → Request → Option Response
  pub is_call_cancelled : ℕ → ℕ → Bool

pub data LoopError : Type 0 where
  cancelled : LoopError
  turn_failed : ℕ → LoopError
  tool_failed : LoopError

-- What `Run` returns.
pub record Returned : Type 0 where
  pub result : RunResult
  pub error : Option LoopError

unfoldable pub tool_uses_in : List ContentBlock → List ToolUse
tool_uses_in [] = []
tool_uses_in (b ∷ content) =
    let rest = tool_uses_in content in
    if str_eq b.kind "tool_use"
    then record { id = b.id; name = b.name; input = b.input } ∷ rest
    else rest

abbrev written : Bytes → Bytes → Bytes
written [] text = text
written (c ∷ sofar) text = (c ∷ sofar) ++ (b'\n' ∷ text)

-- The loop of `textOf`.
unfoldable pub text_from : Bytes → List ContentBlock → Bytes
text_from sofar [] = sofar
text_from sofar (b ∷ content) =
    text_from (if str_eq b.kind "text" then written sofar b.text else sofar) content

-- `textOf`.
unfoldable pub text_of : List ContentBlock → Bytes
unfolding text_from
text_of content = text_from [] content

-- `ToolResult.block`.
unfoldable pub result_block : ToolResult → ContentBlock
result_block r = record empty_block {
  kind = "tool_result";
  tool_use_id = r.tool_use_id;
  content = r.content;
  is_error = r.is_error;
}

unfoldable pub tool_call : ToolUse → ToolResult → ToolCall
tool_call u r = record {
  name = u.name;
  input = u.input;
  result_bytes = length r.content;
  is_error = r.is_error;
  rule = r.rule;
}

unfoldable pub slot_of : ToolUse → Option ToolResult → Option (ContentBlock × ToolCall)
unfolding result_block tool_call
slot_of u none = none
slot_of u (some r) = some (result_block r, tool_call u r)

-- The goroutines of `runTools`: the slots that each fills, or neither.
unfoldable pub fill_slots :
    Registry → (ℕ → Bool) → ℕ → ℕ → List ToolUse → List (Option (ContentBlock × ToolCall))
unfolding slot_of
fill_slots r flags turn i [] = []
fill_slots r flags turn i (u ∷ uses) =
    slot_of u (run_tool r (flags i) turn u) ∷ fill_slots r flags turn (suc i) uses

-- The calls that `completed` keeps: those with a name.
unfoldable pub completed_calls : List (Option (ContentBlock × ToolCall)) → List ToolCall
completed_calls [] = []
completed_calls (none ∷ slots) = completed_calls slots
completed_calls (some (b, c) ∷ slots) =
    let rest = completed_calls slots in if str_eq c.name "" then rest else c ∷ rest

unfoldable pub both_slots :
    ContentBlock
    → ToolCall
    → Option (List ContentBlock × List ToolCall)
    → Option (List ContentBlock × List ToolCall)
both_slots b c none = none
both_slots b c (some (bs, cs)) = some (b ∷ bs, c ∷ cs)

-- The two slices, when every goroutine filled its slots.
unfoldable pub all_slots :
    List (Option (ContentBlock × ToolCall)) → Option (List ContentBlock × List ToolCall)
unfolding both_slots
all_slots [] = some ([], [])
all_slots (none ∷ slots) = none
all_slots (some (b, c) ∷ slots) = both_slots b c (all_slots slots)

-- `finish`.
unfoldable pub finish : RunResult → Turn → RunResult
finish r entry = record r {
  turns = r.turns ++ (entry ∷ []);
  usage = add_usage r.usage entry.usage;
  cost_micros = r.cost_micros + entry.cost_micros;
}

-- What one round of the loop comes to.
pub data Next : Type 0 where
  stop : Returned → Next
  go : List Message → RunResult → Next

abbrev pub returned : RunResult → Next
returned r = stop record { result = r; error = none }

unfoldable pub request_of : Loop → Bytes → List Message → Request
request_of l system messages = record {
  model = l.model;
  system = system;
  messages = messages;
  tools = tools_of l.registry.catalog;
  max_tokens = l.budget.max_tokens;
  cache_system = true;
}

unfoldable pub turn_of : Loop → ℕ → Response → Turn
turn_of l turn response = record {
  index = turn;
  stop_reason = response.stop_reason;
  usage = response.usage;
  cost_micros = cost l.pricing response.usage;
  tool_calls = [];
}

abbrev pub assistant_message : Response → Message
assistant_message response = record { role = "assistant"; blocks = response.blocks }

abbrev pub user_message : List ContentBlock → Message
user_message blocks = record { role = "user"; blocks = blocks }

-- The case "tool_use" after the tools have run.
unfoldable pub after_tools :
    List Message
    → RunResult
    → Turn
    → List (Option (ContentBlock × ToolCall))
    → Option (List ContentBlock × List ToolCall)
    → Next
unfolding finish completed_calls
after_tools messages r entry slots none = stop record {
  result = finish r (record entry { tool_calls = completed_calls slots });
  error = some tool_failed;
}
after_tools messages r entry slots (some (results, calls)) =
    go (messages ++ (user_message results ∷ [])) (finish r (record entry { tool_calls = calls }))

-- The case "tool_use".
unfoldable pub use_tools : Loop → World → ℕ → List Message → RunResult → Turn → List ToolUse → Next
unfolding after_tools fill_slots all_slots finish
use_tools l w turn messages r entry [] = returned (
    finish
      (record r { halt = unexpected_stop_reason; stop_reason = "tool_use_without_tool_use_block" })
      entry)
use_tools l w turn messages r entry (u ∷ uses) =
    let slots = fill_slots l.registry (w.is_call_cancelled turn) turn 0 (u ∷ uses) in
    after_tools messages r entry slots (all_slots slots)

-- The cases that end the run with `halt`.
unfoldable pub end_run : List Message → RunResult → Turn → Halt → Next
unfolding finish
end_run messages r entry halt =
    returned (record (finish (record r { halt = halt }) entry) { messages = messages })

-- The switch on stop_reason.
unfoldable pub switch : Loop → World → ℕ → List Message → RunResult → Response → Next
unfolding use_tools end_run turn_of tool_uses_in
switch l w turn messages r response =
    if str_eq response.stop_reason "tool_use"
    then use_tools l w turn messages r (turn_of l turn response) (tool_uses_in response.blocks)
    else if str_eq response.stop_reason "end_turn" || str_eq response.stop_reason "stop_sequence"
    then end_run messages r (turn_of l turn response) completed
    else if str_eq response.stop_reason "max_tokens"
    then end_run messages r (turn_of l turn response) output_truncated
    else end_run messages r (turn_of l turn response) unexpected_stop_reason

-- What follows the call of the model.
unfoldable pub heard : Loop → World → ℕ → List Message → RunResult → Option Response → Next
unfolding switch text_of
heard l w turn messages r none = stop record { result = r; error = some (turn_failed turn) }
heard l w turn messages r (some response) =
    switch l w turn (messages ++ (assistant_message response ∷ []))
      (record r { text = text_of response.blocks; stop_reason = response.stop_reason }) response

unfoldable pub is_spent : Budget → ℕ → Bool
is_spent b micros = ltb 0 b.max_cost_micros && leb b.max_cost_micros micros

-- The body of the loop.
unfoldable pub round : Loop → World → Bytes → ℕ → List Message → RunResult → Next
unfolding heard is_spent request_of
round l w system turn messages r =
    if w.is_cancelled turn
    then stop record { result = r; error = some cancelled }
    else if is_spent l.budget r.cost_micros
    then returned (record r { halt = budget_exceeded })
    else heard l w turn messages r (w.complete turn (request_of l system messages))

-- The loop, with `left` turns of MaxTurns to go.
unfoldable pub run_from : Loop → World → Bytes → ℕ → ℕ → List Message → RunResult → Returned
run_from l w system zero turn messages r = record {
  result = record r { messages = messages };
  error = none;
}
run_from l w system (suc left) turn messages r = elim (round l w system turn messages r) [
  | stop out ↦ out
  | go messages' r' ↦ run_from l w system left (suc turn) messages' r'
]

unfoldable pub first_messages : Bytes → List Message
first_messages prompt = user_message (text_block prompt ∷ []) ∷ []

abbrev pub first_result : RunResult
first_result = record {
  text = [];
  halt = turn_ceiling;
  stop_reason = "";
  turns = [];
  usage = no_usage;
  cost_micros = 0;
  messages = [];
}

-- `Run`.
unfoldable pub run : Loop → World → Bytes → Bytes → Returned
unfolding run_from first_messages
run l w system prompt =
    run_from l w system l.budget.max_turns 0 (first_messages prompt) first_result
