-- ===== src/Mcp/Server/Replies.antt =====
-- What every answer of the server has.
use agent_exec_engine.Prelude.{ℕ, ◌+◌, String, false, ◌≡◌, ◌≢◌, eq_iff, Map, arith, ◌≤◌}
use agent_exec_engine.Types.{Value}
use agent_exec_engine.Mcp.Registry.{Runtime}
use agent_exec_engine.Mcp.RateLimit.{allow}
use agent_exec_engine.Mcp.Server.{
  Request, Codec, Server, error, err_rate_limited, limited, call_registry, handle_call_tool,
  handle_request,
}

module _ (runtime : Runtime) (codec : Codec) (now : ℕ) (req : Request) (s : Server) where
  -- Every request that was decoded is answered under its own id, and at most one call of it
  -- reaches the registry.
  pub handle_request-id :
      ((handle_request runtime codec now req s).1.id ≡ req.id)
      × ((handle_request runtime codec now req s).0.calls ≤ s.calls + 1)
  unfolding handle_request handle_call_tool limited call_registry
  handle_request-id = ground arith

  -- A call that the rate limiter refuses is answered with the code for that, and the registry does
  -- not see it.
  limited-refused :
      (name : String) (arguments : Map Value)
      → (allow name now s.rate_limiter).1 ≡ false
      → ((limited runtime codec now req name arguments s).1.body ≡ error err_rate_limited)
        × ((limited runtime codec now req name arguments s).0.calls ≡ s.calls)
  unfolding limited
  limited-refused name arguments h = ground arith

  -- The registry is only reached by a request of version 2.0 whose method is tools/call.
  handle_request-calls :
      (handle_request runtime codec now req s).0.calls ≢ s.calls
      → (req.jsonrpc ≡ "2.0") × (req.method ≡ "tools/call")
  unfolding handle_request
  handle_request-calls h = ground (arith, eq_iff req.jsonrpc "2.0", eq_iff req.method "tools/call")
