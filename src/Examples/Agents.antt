-- ===== src/Examples/Agents.antt =====
-- The theorems on the tool loop, the model's client and the queue consumer, at a model that asks for one tool and then ends.
use dispute_router.Common.{
  ℕ, zero, suc, ◌≡◌, refl, String, Bool, false, List, [], ◌∷◌, Option, some, length, get_elem?,
}
use dispute_router.Common.Bytes.{Bytes, codes}
use dispute_router.Common.Int.{pos}
use dispute_router.Database.Transaction.{works}
use dispute_router.Llm.{
  add_usage, Tool, ToolUse, empty_block, text_block, Request, Response, Message,
}
use dispute_router.Llm.Pricing.{cost}
use dispute_router.Llm.Retry.{Attempt, answered, api_failed, complete, Sound, complete-Sound}
use dispute_router.Llm.Embed.{
  Item, vectors_of, no_vectors, place, place_at, set_at, filled, all_filled,
}
use dispute_router.Llm.Embed.Places.{Shown, vectors_of_lem}
use dispute_router.Toolloop.Tools.{
  Invoked, value, Registry, run_tool, ToolResult, by_name, settle, not_refused,
}
use dispute_router.Toolloop.Tools.Answers.{Fits, run_tool-Fits}
use dispute_router.Toolloop.{
  Loop, World, RunResult, run, round, heard, switch, use_tools, after_tools, turn_of, finish, go,
  user_message, assistant_message, first_messages, first_result,
}
use dispute_router.Toolloop.Spend.{Booked, run-Booked}
use dispute_router.Toolloop.Halts.{Settles, run-Settles}
use dispute_router.Toolloop.Talk.{Conversation, Reaches, start, next, Reaches-Conversation}
use dispute_router.Worker.Consumer.{
  Codec, Delivered, Station, Envelope, DisputeReceived, handle_all,
}
use dispute_router.Worker.Consumer.Delivery.{Safe, handle_all-Safe}

abbrev tool : Tool
tool = record { name = "get_dispute"; description = []; input_schema = codes "{}" }

abbrev look_up : ℕ → Bytes → Invoked
look_up turn input = value (codes "{}")

abbrev no_tool : String → List String → Bytes
no_tool name names = codes "no tool"

abbrev too_many : ℕ → Bytes
too_many n = codes "too large"

abbrev registry : Registry
registry = record {
  catalog = record { tool = tool; invoke = look_up } ∷ [];
  wording = record { no_tool_named = no_tool; too_many_bytes = too_many };
}

abbrev loop : Loop
loop = record {
  registry = registry;
  pricing = record {
    input_rate = 3000000;
    output_rate = 15000000;
    cache_write_rate = 0;
    cache_read_rate = 0;
  };
  budget = record { max_turns = 4; max_cost_micros = 1000; max_tokens = 100 };
  model = "m";
}

abbrev ask_tool : Response
ask_tool = record {
  blocks =
      record empty_block { kind = "tool_use"; id = "u1"; name = "get_dispute"; input = codes "{}" }
      ∷ [];
  stop_reason = "tool_use";
  usage = record {
    input_tokens = 10;
    output_tokens = 5;
    cache_creation_input_tokens = 0;
    cache_read_input_tokens = 0;
  };
}

abbrev say_end : Response
say_end = record {
  blocks = text_block (codes "done") ∷ [];
  stop_reason = "end_turn";
  usage = record {
    input_tokens = 20;
    output_tokens = 5;
    cache_creation_input_tokens = 0;
    cache_read_input_tokens = 0;
  };
}

abbrev model_answers : ℕ → Request → Option Response
model_answers zero request = some ask_tool
model_answers (suc turn) request = some say_end

abbrev never : ℕ → Bool
never turn = false

abbrev never_call : ℕ → ℕ → Bool
never_call turn i = false

abbrev outside : World
outside = record { is_cancelled = never; complete = model_answers; is_call_cancelled = never_call }

run-Booked_example : Booked loop 4 (run loop outside (codes "s") (codes "p")).result
run-Booked_example = run-Booked loop outside (codes "s") (codes "p")

run-Settles_example : Settles (run loop outside (codes "s") (codes "p"))
run-Settles_example = run-Settles loop outside (codes "s") (codes "p")

abbrev use_1 : ToolUse
use_1 = record { id = "u1"; name = "get_dispute"; input = codes "{}" }

abbrev answer_1 : ToolResult
answer_1 = record { tool_use_id = "u1"; content = codes "{}"; is_error = false; rule = not_refused }

answer_1-eq : run_tool registry false 0 use_1 ≡ some answer_1
unfolding run_tool by_name settle
answer_1-eq = refl

run_tool-Fits_example : Fits registry 0 use_1 answer_1
run_tool-Fits_example = run_tool-Fits registry false 0 use_1 answer_1 answer_1-eq

-- What the second round meets.
abbrev sent_1 : List Message
sent_1 =
    user_message (text_block (codes "p") ∷ [])
    ∷ assistant_message ask_tool
    ∷ user_message
        (record empty_block { kind = "tool_result"; tool_use_id = "u1"; content = codes "{}" } ∷ [])
    ∷ []

abbrev result_1 : RunResult
result_1 = record first_result {
  stop_reason = "tool_use";
  turns =
      record {
        index = 0;
        stop_reason = "tool_use";
        usage = ask_tool.usage;
        cost_micros = 105;
        tool_calls =
            record {
              name = "get_dispute";
              input = codes "{}";
              result_bytes = 2;
              is_error = false;
              rule = not_refused;
            }
            ∷ [];
      }
      ∷ [];
  usage = ask_tool.usage;
  cost_micros = 105;
}

round_0 :
    round loop outside (codes "s") 0 (first_messages (codes "p")) first_result ≡ go sent_1 result_1
unfolding round heard switch use_tools after_tools turn_of finish run_tool first_messages cost
    add_usage
round_0 = refl

reached : Reaches loop outside (codes "s") (codes "p") 1 sent_1 result_1
reached = next start round_0

Reaches-Conversation_example : Conversation (codes "p") sent_1
Reaches-Conversation_example = Reaches-Conversation reached

abbrev call : ℕ → Attempt ℕ
call zero = answered 0
call (suc zero) = api_failed record { status_code = 529; has_cause = false; retry_after = pos 0 }
call (suc (suc n)) = answered n

complete-Sound_example : Sound call never 1 3 (complete call never)
complete-Sound_example = complete-Sound call never

abbrev width : ℕ → ℕ
width v = 1024

abbrev unit_length : ℕ → ℕ
unit_length v = v

abbrev items : List (Item ℕ)
items = record { index = pos 1; embedding = 8 } ∷ record { index = pos 0; embedding = 9 } ∷ []

abbrev vectors : List ℕ
vectors = 9 ∷ 8 ∷ []

items-placed : vectors_of width unit_length 2 items ≡ some vectors
unfolding vectors_of filled place place_at set_at no_vectors all_filled
items-placed = refl

vectors_of_lem_example :
    (length vectors ≡ 2)
    × ((i v : ℕ) → get_elem? vectors i ≡ some v → Shown width unit_length items i v)
vectors_of_lem_example = vectors_of_lem width unit_length 2 items vectors items-placed

abbrev decode_envelope : Bytes → Option Envelope
decode_envelope body = some record {
  outbox_id = 1;
  aggregate_type = "dispute";
  aggregate_id = 7;
  event_type = "dispute.received";
  payload = body;
}

abbrev decode_received : Bytes → Option DisputeReceived
decode_received body = some record { dispute_id = 7; deadline_at = 5000000000 }

abbrev codec : Codec
codec = record { decode_envelope = decode_envelope; decode_received = decode_received }

abbrev message : Delivered
message = record { receipt_handle = 1; body = some (codes "{}") }

abbrev station : Station
station = record { queue = message ∷ []; index = [] }

handle_all-Safe_example :
    Safe codec (handle_all codec ((message, works, works) ∷ []) station) message
handle_all-Safe_example =
    handle_all-Safe codec ((message, works, works) ∷ []) station message ((λ e. refl), tt) refl
