-- ===== src/Api/Router.antt =====
-- internal/api/middleware.go and router.go: the id of a request, and the answer to the health check.
-- The routes and the log are gin's and zap's.
use agent_exec_engine.Prelude.{
  ℕ, String, Bool, Option, none, some, if◌then◌else◌, ◌==◌, Result, ok, err,
}
use agent_exec_engine.Store.Interface.{Store, StoreError}

-- The id of a request: its header's, or a new one, the second argument. It is set in the context
-- and in the response's header.
unfoldable pub request_id : String → String → String
request_id header fresh = if header == "" then fresh else header

pub record Health : Type 0 where
  pub code : ℕ
  pub status : String
  pub version : String

abbrev health_status : Result StoreError (Unit {0}) → String
health_status (ok _) = "ok"
health_status (err e) = "degraded"

-- A handler may have no store. `done` says that the request's context is done.
unfoldable health : {S : Type 0} → Option (Store S) → Bool → S → Health
health none done s = record { code = 200; status = "ok"; version = "0.1.0" }
health (some store) done s = record {
  code = 200;
  status = health_status (store.ping done s).0;
  version = "0.1.0";
}
