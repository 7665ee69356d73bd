-- ===== src/Mcp/Server.antt =====
-- internal/mcp/server.go and errors.go: how one JSON-RPC request is answered. Metrics are left out;
-- the decoding of JSON is the codec's.
pub mod Replies
pub mod Messages
pub mod Batches
pub mod Transport
pub mod Lines
use agent_exec_engine.Prelude.{
  ℕ, ◌+◌, String, Bool, true, false, not, ◌||◌, List, [], ◌∷◌, Option, none, some, if◌then◌else◌,
  ◌==◌, Map, Result, ok, err,
}
use agent_exec_engine.Prelude.Int.{ℤ, negsuc}
use agent_exec_engine.Types.{Value, null, ToolDefinition, ToolCall, ToolResult}
use agent_exec_engine.Mcp.Registry.{
  RpcError, tool_not_found, invalid_params, permission, Registry, Runtime, Outcome, call, list,
}
use agent_exec_engine.Mcp.RateLimit.{RateLimiter, allow}

pub data ErrorCode : Type 0 where
  err_parse err_invalid_request err_method_not_found err_invalid_params err_internal : ErrorCode
  err_tool_not_found err_rate_limited err_permission : ErrorCode

-- The numbers of errors.go, `negsuc n` for -(n + 1).
abbrev code_of : ErrorCode → ℤ
code_of err_parse = negsuc 32699
code_of err_invalid_request = negsuc 32599
code_of err_method_not_found = negsuc 32600
code_of err_invalid_params = negsuc 32601
code_of err_internal = negsuc 32602
code_of err_tool_not_found = negsuc 31999
code_of err_rate_limited = negsuc 32000
code_of err_permission = negsuc 32001

pub record Request : Type 0 where
  pub jsonrpc : String
  pub id : Value
  pub method : String
  pub params : String

pub data Body : Type 0 where
  tools : List ToolDefinition → Body
  content : String → Bool → Body
  server_info : Body
  error : ErrorCode → Body

pub record Response : Type 0 where
  pub id : Value
  pub body : Body

-- What a body is decoded to: no JSON, JSON that cannot be encoded again or that is no request, or a
-- request.
pub data Decoded : Type 0 where
  no_json not_normal no_request : Decoded
  request : Request → Decoded

pub record Codec : Type 0 where
  pub decode : String → Decoded
  -- The elements of an array, as texts.
  pub decode_batch : String → Option (List String)
  -- The first value of a line, encoded again; none if the line begins with no JSON.
  pub normalize : String → Option (Result String String)
  -- The name and the arguments of a tool call.
  pub decode_params : String → Option (String × Map Value)
  -- fmt.Sprintf("%v", id)
  pub show_id : Value → String

pub record Server : Type 0 where
  pub registry : Registry
  pub rate_limiter : RateLimiter
  -- How many calls reached the registry.
  pub calls : ℕ

abbrev pub reply_error : Value → ErrorCode → Response
reply_error id code = record { id = id; body = error code }

abbrev rpc_code : RpcError → ErrorCode
rpc_code (tool_not_found name) = err_tool_not_found
rpc_code (invalid_params e) = err_invalid_params
rpc_code (permission rule) = err_permission

abbrev reply_of : Result RpcError ToolResult → Body
reply_of (err e) = error (rpc_code e)
reply_of (ok result) = content result.content result.is_error

module _ (runtime : Runtime) (codec : Codec) where
  -- The call of the registry, and the answer made of its outcome.
  unfoldable pub call_registry : Request → String → Map Value → Server → Server × Response
  call_registry req name arguments s = (
    record s { calls = s.calls + 1 },
    record {
      id = req.id;
      body = reply_of (
          (call runtime s.calls s.registry
            (record { id = codec.show_id req.id; tool_name = name; input = arguments })).reply);
    },
  )

  -- The rate limit is taken before the registry looks at the call.
  unfoldable pub limited : ℕ → Request → String → Map Value → Server → Server × Response
  limited now req name arguments s =
      let (rl, allowed) = allow name now s.rate_limiter in
      let s' = record s { rate_limiter = rl } in
      if not allowed
      then (s', reply_error req.id err_rate_limited)
      else call_registry req name arguments s'

  unfoldable pub handle_call_tool : ℕ → Request → Server → Server × Response
  handle_call_tool now req s = elim (codec.decode_params req.params) [
    | none ↦ (s, reply_error req.id err_invalid_params)
    | some (name, arguments) ↦ limited now req name arguments s
  ]

  unfoldable pub handle_request : ℕ → Request → Server → Server × Response
  handle_request now req s =
      if not (req.jsonrpc == "2.0") || req.method == ""
      then (s, reply_error req.id err_invalid_request)
      else if req.method == "tools/list"
      then (s, record { id = req.id; body = tools (list runtime s.registry) })
      else if req.method == "tools/call"
      then handle_call_tool now req s
      else if req.method == "initialize"
      then (s, record { id = req.id; body = server_info })
      else (s, reply_error req.id err_method_not_found)

  unfoldable pub handle_request_bytes : ℕ → String → Server → Server × Response
  handle_request_bytes now body s = elim (codec.decode body) [
    | no_json ↦ (s, reply_error null err_parse)
    | not_normal ↦ (s, reply_error null err_internal)
    | no_request ↦ (s, reply_error null err_invalid_request)
    | request req ↦ handle_request now req s
  ]
