-- ===== src/Llm/Gateway.antt =====
-- internal/llm/types.go: what goes to the inference gateway and what comes back. The gateway, the
-- tools' code and the GPU scheduler answer depending on all the calls before.
use agent_exec_engine.Prelude.{ℕ, String, Bool, false, List, Option, Map, Result}
use agent_exec_engine.Prelude.Int.{ℤ, pos}
use agent_exec_engine.Prelude.Logged.{Logged}
use agent_exec_engine.Types.{Value, Float64, ToolSchema, ToolCall}
use agent_exec_engine.Llm.Message.{ChatMessage}
use agent_exec_engine.Mcp.Registry.{Runtime, RpcError}

-- The parameters are a map with the schema's three fields.
pub record ToolFunction : Type 0 where
  pub name : String
  pub description : String
  pub parameters : ToolSchema

pub record Tool : Type 0 where
  pub type : String
  pub function : ToolFunction

pub record ChatRequest : Type 0 where
  pub model : String
  pub messages : List ChatMessage
  pub tools : List Tool
  pub max_tokens : ℤ
  pub stream : Bool

-- What a step leaves out of its request is zero.
abbrev pub chat_request : List ChatMessage → List Tool → ChatRequest
chat_request messages tools = record {
  model = "";
  messages = messages;
  tools = tools;
  max_tokens = pos 0;
  stream = false;
}

pub record Usage : Type 0 where
  pub prompt_tokens : ℤ
  pub completion_tokens : ℤ
  pub total_tokens : ℤ

pub record Choice : Type 0 where
  pub message : ChatMessage
  pub finish_reason : String

pub record ChatResponse : Type 0 where
  pub choices : List Choice
  pub usage : Usage

pub record HttpRequest : Type 0 where
  pub url : String
  pub body : String
  pub authorization : Option String
  pub request_id : Option String

-- The answer's body is an error where it cannot be read.
pub record NetError : Type 0 where
  pub text : String
  pub is_net_error : Bool

pub record HttpResponse : Type 0 where
  pub status_code : ℕ
  pub body : Result NetError String

pub data LlmError : Type 0 where
  marshal_failed decode_failed canceled : String → LlmError
  transport : NetError → LlmError
  server_error status_failed : ℕ → String → LlmError
  no_choices index_out_of_range no_registry too_many_rounds : LlmError
  bad_arguments gpu_failed release_failed tool_failed : String → LlmError
  rpc_failed : String → RpcError → LlmError

pub data GatewayCall : Type 0 where
  post : HttpRequest → GatewayCall
  sleep : ℕ → GatewayCall
  use_tool : ToolCall → GatewayCall
  request_gpu : String → ℤ → ℤ → Option String → GatewayCall
  release_gpu : String → GatewayCall

-- An answer `none` of the sleep and of the GPU scheduler is nil; of `new_request`, that the request
-- can be built.
pub record Gateway : Type 0 where
  pub new_request : HttpRequest → Option NetError
  pub on_post : List GatewayCall → Result NetError HttpResponse
  pub on_sleep : List GatewayCall → Option String
  pub on_request_gpu : List GatewayCall → Option String
  pub on_release_gpu : List GatewayCall → Option String
  pub new_id : List GatewayCall → String
  pub encode : ChatRequest → Result String String
  pub decode : String → Result String ChatResponse
  pub decode_arguments : String → Result String (Map Value)
  pub marshal_input : Map Value → Option String
  pub print_input : Map Value → String
  pub print_number : ℕ → String
  pub rpc_message : RpcError → String
  pub out_of_range : Float64 → ℤ
  pub runtime : Runtime

abbrev pub Run {ℓ} : Type ℓ → Type ℓ
Run A = Logged GatewayCall LlmError A
