-- ===== src/Llm.antt =====
-- internal/llm/wire.go: what goes to the Messages API and what comes back. The counts of tokens are not
-- negative, and a sum of them fits an int. Raw JSON and texts are lists of bytes.
pub mod Pricing
pub mod Retry
pub mod Embed
use mathlib.Core.Option
use dispute_router.Common.{ℕ, ◌+◌, String, Bool, List, [], ◌∷◌, Option}
use dispute_router.Common.Bytes.{Bytes}

-- `ContentBlock`; `kind` is its "type". The bytes that it was decoded from, if any, are `raw`.
pub record ContentBlock : Type 0 where
  pub kind : String
  pub text : Bytes
  pub id : String
  pub name : String
  pub input : Bytes
  pub tool_use_id : String
  pub content : Bytes
  pub is_error : Bool
  pub thinking : Bytes
  pub signature : Bytes
  pub redacted : Bytes
  pub raw : Bytes

abbrev pub empty_block : ContentBlock
empty_block = record {
  kind = "";
  text = [];
  id = "";
  name = "";
  input = [];
  tool_use_id = "";
  content = [];
  is_error = Bool.false;
  thinking = [];
  signature = [];
  redacted = [];
  raw = [];
}

-- A block that this program writes.
abbrev pub text_block : Bytes → ContentBlock
text_block text = record empty_block { kind = "text"; text = text }

abbrev with_raw : Bytes → ContentBlock → ContentBlock
with_raw bytes b = record b { raw = bytes }

-- `UnmarshalJSON`, with what encoding/json makes of the fields.
unfoldable pub unmarshal_block : (Bytes → Option ContentBlock) → Bytes → Option ContentBlock
unmarshal_block fields bytes = Option.map (with_raw bytes) (fields bytes)

abbrev raw_or : Bytes → Bytes → Bytes
raw_or [] encoded = encoded
raw_or (b ∷ raw) encoded = b ∷ raw

-- `MarshalJSON`.
unfoldable pub marshal_block : (ContentBlock → Bytes) → ContentBlock → Bytes
marshal_block encode b = raw_or b.raw (encode b)

-- `Message`.
pub record Message : Type 0 where
  pub role : String
  pub blocks : List ContentBlock

-- `Tool`.
pub record Tool : Type 0 where
  pub name : String
  pub description : Bytes
  pub input_schema : Bytes

-- `Request`; this program leaves the temperature unset in the loop, and forces a tool elsewhere.
pub record Request : Type 0 where
  pub model : String
  pub system : Bytes
  pub messages : List Message
  pub tools : List Tool
  pub max_tokens : ℕ
  pub cache_system : Bool

-- `ToolUse`.
pub record ToolUse : Type 0 where
  pub id : String
  pub name : String
  pub input : Bytes

-- `Usage`.
pub record Usage : Type 0 where
  pub input_tokens : ℕ
  pub output_tokens : ℕ
  pub cache_creation_input_tokens : ℕ
  pub cache_read_input_tokens : ℕ

abbrev pub no_usage : Usage
no_usage = record {
  input_tokens = 0;
  output_tokens = 0;
  cache_creation_input_tokens = 0;
  cache_read_input_tokens = 0;
}

-- `Usage.Add`.
unfoldable pub add_usage : Usage → Usage → Usage
add_usage u other = record {
  input_tokens = u.input_tokens + other.input_tokens;
  output_tokens = u.output_tokens + other.output_tokens;
  cache_creation_input_tokens = u.cache_creation_input_tokens + other.cache_creation_input_tokens;
  cache_read_input_tokens = u.cache_read_input_tokens + other.cache_read_input_tokens;
}

-- `Response`.
pub record Response : Type 0 where
  pub blocks : List ContentBlock
  pub stop_reason : String
  pub usage : Usage
