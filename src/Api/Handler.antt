-- ===== src/Api/Handler.antt =====
-- internal/api/handler.go, tool_handlers.go and errors.go: the requests and their statuses. Reading
-- a body is gin's: a handler takes its result. Texts of errors are left out.
use agent_exec_engine.Prelude.{
  ℕ, String, Bool, List, Option, none, some, if◌then◌else◌, ◌==◌, not, Map, lookup, Result, ok, err,
}
use agent_exec_engine.Prelude.Int.{ℤ}
use agent_exec_engine.Types.{Step, StepState, WorkflowRun, Value, ToolDefinition, ToolSchema}
use agent_exec_engine.Dag.Scheduler.Machine.{World}
use agent_exec_engine.Mcp.Registry.{
  RegisterError, Registry, Runtime, ToolHandler, register, unregister, list,
}
use agent_exec_engine.Api.Manager.{
  Manager, ManagerError, Fresh, create_and_run, get_run, resume_workflow, cancel_workflow,
}

pub record CreateWorkflowRequest : Type 0 where
  pub name : String
  pub steps : List Step
  pub metadata : Map String

pub record ResumeRequest : Type 0 where
  pub step_id : String
  pub input : Map Value

pub record ToolHandlerSpec : Type 0 where
  pub type : String
  pub template : String

pub record RegisterToolRequest : Type 0 where
  pub name : String
  pub description : String
  pub input_schema : ToolSchema
  pub category : String
  pub sandboxed : Bool
  pub rate_limit : ℤ
  pub handler : ToolHandlerSpec

pub data ReplyBody : Type 0 where
  run_body : WorkflowRun → ReplyBody
  steps_body : Map StepState → ReplyBody
  step_body : StepState → ReplyBody
  tools_body : List ToolDefinition → ReplyBody
  message_body : String → ReplyBody
  error_body : ℕ → ReplyBody

pub record Reply : Type 0 where
  pub status : ℕ
  pub body : ReplyBody

-- errBadRequest, errNotFound and errConflict
abbrev refuse : ℕ → Reply
refuse code = record { status = code; body = error_body code }

module _ (world : World) where
  unfoldable create_workflow :
      Fresh → Result String CreateWorkflowRequest → Manager → Reply × Manager
  unfolding create_and_run
  create_workflow fresh (err e) m = (refuse 400, m)
  create_workflow fresh (ok req) m =
      elim (create_and_run world fresh
        (record {
          id = "";
          name = req.name;
          steps = req.steps;
          metadata = req.metadata;
          created_at = 0;
        })
        m) [
          | err e ↦ (refuse 400, m)
          | ok (run, m') ↦ (record { status = 201; body = run_body run }, m')
        ]

  abbrev resume_response : Result ManagerError (Unit {0}) × Manager → Reply × Manager
  resume_response (err e, m) = (refuse 409, m)
  resume_response (ok done, m) =
      (record { status = 200; body = message_body "workflow resumed" }, m)

  unfoldable resume_handler : ℕ → String → Result String ResumeRequest → Manager → Reply × Manager
  unfolding resume_workflow
  resume_handler fuel id (err e) m = (refuse 400, m)
  resume_handler fuel id (ok req) m =
      resume_response (resume_workflow world fuel id req.step_id req.input m)

abbrev on_run : (WorkflowRun → Reply) → Option WorkflowRun × Manager → Reply × Manager
on_run answer (none, m) = (refuse 404, m)
on_run answer (some run, m) = (answer run, m)

unfoldable get_workflow_handler : String → Manager → Reply × Manager
unfolding get_run
get_workflow_handler id m =
    on_run (λ run. record { status = 200; body = run_body run }) (get_run id m)

unfoldable list_steps : String → Manager → Reply × Manager
unfolding get_run
list_steps id m =
    on_run (λ run. record { status = 200; body = steps_body run.step_states }) (get_run id m)

abbrev step_response : Option StepState → Reply
step_response none = refuse 404
step_response (some state) = record { status = 200; body = step_body state }

unfoldable get_step : String → String → Manager → Reply × Manager
unfolding get_run
get_step id step_id m =
    on_run (λ run. step_response (lookup step_id run.step_states)) (get_run id m)

unfoldable cancel_handler : String → Manager → Reply
unfolding cancel_workflow
cancel_handler id m = elim (cancel_workflow id m) [
  | err e ↦ refuse 404
  | ok done ↦ record { status = 200; body = message_body "workflow canceled" }
]

-- text/template: a template that parses gives a function of the input.
module _ (parse : String → String → Option (Map Value → Result String String)) where
  abbrev parsed : Option (Map Value → Result String String) → Option ToolHandler
  parsed none = none
  parsed (some render) = some (λ n. render)

  unfoldable build_dynamic_tool_handler : String → ToolHandlerSpec → Option ToolHandler
  build_dynamic_tool_handler name spec =
      if not (spec.type == "template")
      then none
      else if spec.template == ""
      then none
      else parsed (parse name spec.template)

  abbrev register_response : Registry → Result RegisterError Registry → Reply × Registry
  register_response r (err e) = (refuse 409, r)
  register_response r (ok r') = (record { status = 201; body = message_body "tool registered" }, r')

  abbrev with_handler : RegisterToolRequest → Option ToolHandler → Registry → Reply × Registry
  with_handler req none r = (refuse 400, r)
  with_handler req (some handler) r = register_response r (
      register
        (record {
          name = req.name;
          description = req.description;
          input_schema = req.input_schema;
          category = req.category;
          sandboxed = req.sandboxed;
          rate_limit = req.rate_limit;
        })
        (some handler) r)

  unfoldable register_tool : Result String RegisterToolRequest → Registry → Reply × Registry
  unfolding build_dynamic_tool_handler register
  register_tool (err e) r = (refuse 400, r)
  register_tool (ok req) r = with_handler req (build_dynamic_tool_handler req.name req.handler) r

unfoldable list_tools : Runtime → Registry → Reply
unfolding list
list_tools runtime r = record { status = 200; body = tools_body (list runtime r) }

unfoldable unregister_tool : String → Registry → Reply × Registry
unfolding unregister
unregister_tool name r =
    (record { status = 200; body = message_body "tool unregistered" }, unregister name r)
