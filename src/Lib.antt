-- ===== src/Lib.antt =====
-- A verification library for the agent execution engine: the workflow scheduler, its checkpoints,
-- the tool server, the steps that ask a language model, the sandbox and the interface over HTTP.
--
-- A workflow is a list of steps with dependencies. `NewGraph` makes a graph of it, the scheduler
-- takes the ready steps from the graph, runs them through executors, records their states and
-- outputs, resolves them in the graph and saves a checkpoint after each; a human step pauses the
-- run, and a checkpoint restores it. Executors of tool steps call the registry, which the tool
-- server offers over JSON-RPC as well; those of model steps converse with a gateway, call tools in
-- between, and may hold a GPU meanwhile. Code runs in containers that the sandbox makes and
-- removes. The manager keeps the workflows and their runs, and the handlers answer requests for
-- them.
--
-- - Prelude: lists, maps as association lists, results and signed numbers. Prelude.Texts has what
--   is used of Go's `strings`, Paths what is used of `path` and `path/filepath`. Prelude.Logged is
--   for code that calls another system: the calls are kept, newest first, and the answers may
--   depend on them; Prelude.Logged.Growth is about numbers that a run's calls determine.
-- - Types: pkg/types. Types.Flow is workflow.go, Types.Lifecycle event.go, Types.Tool tool.go, and
--   Types.Dynamic the values of `map[string]any`. Times and durations are nanoseconds.
-- - Dag.Step: internal/dag/step.go (`ValidTransitions`, `CanTransition`, `ShouldRetry`).
-- - Dag.Graph: internal/dag/graph.go. `new_graph` is NewGraph, made of `index_steps`,
--   `build_edges` and `validate_acyclic`; `resolve_step` is resolveStep, under MarkComplete and
--   SkipStep; `ready_steps` is ReadySteps. The children treat: Index, Link, Build, Built (what the
--   two loops of the construction leave), Loop, Degrees, Kahn, Cycles (the cycle test), New,
--   Resolve, Ready, Commute.
-- - Dag.Scheduler: internal/dag/scheduler.go, scheduler_state.go and scheduler_run.go. Machine has
--   the state and the actions, Steps the operations on one step, Batch the attempts and batches,
--   Loop the loop of a run, its end, its pause and its resumption. A mutex's section is one step;
--   the goroutines of a batch run one after the other in an order that the world chooses. The
--   children Retries and Moves treat the attempts and their statuses, Decisions the branch steps,
--   Waiting and Resume the human steps; Open counts the steps that are not over, Rounds, Branches,
--   Plans and Ends follow the count through a run, and Starts has it at first; Returns and Finishes
--   treat the runs that return no error. The children of Order follow what each started step depends
--   on through an attempt, a batch, a round, a human step, a restored checkpoint and a run.
-- - Dag.Checkpoint: internal/dag/checkpoint.go (`Save`, `Load`, `RestoreScheduler`), over the
--   store.
-- - Store.Interface, Store.Memory and Store.Redis: interface.go, memory.go and redis.go of
--   internal/store. The interface is a record of operations, with a record of what they do; both
--   stores fill it, and Store.Alike compares them.
-- - Mcp.Validator, Mcp.Guardrail, Mcp.Registry, Mcp.RateLimit and Mcp.Server: the files of
--   internal/mcp with these names; errors.go is in Mcp.Server. Mcp.Server.Messages has the messages
--   of server.go, which are single or batches, and Mcp.Server.Transport has HTTP and stdio.go;
--   Batches and Lines treat them. Mcp.Tools: file_reader.go (Files), sql_query.go (Queries),
--   code_exec.go (Code), web_search.go (Search), rag_search.go (Inputs, Rag) and knowledge_qa.go
--   (Knowledge) of internal/mcp/tools.
-- - Llm.Message: internal/llm/types.go and tokens.go; Llm.Context: context.go, strategy_write.go
--   and strategy_compress.go; Llm.Select: strategy_select.go. Llm.Gateway: the requests and
--   answers of types.go; Llm.Prompt: what executor.go makes of a step's configuration; Llm.Client:
--   client.go (`Chat`, `doChat`); Llm.Stream: stream.go, opened in Llm.Stream.Open and treated in
--   Llm.Stream.Chunks; Llm.Conversation: executor.go
--   (`runConversation`, `handleToolCalls`), whose tool calls go to Mcp.Registry; Llm.React:
--   react_executor.go.
-- - Sandbox.Policy, Sandbox.Engine and Sandbox.Archive: internal/sandbox/executor.go, lifecycle.go
--   and archive.go. `execute` is Execute, with `run_container` up to the deferred removal.
--   Sandbox.Pool: pool.go, as the slots that requests take and give back. Sandbox.Images: images.go.
-- - Infra: internal/infra/scheduler_client.go; Infra.Pairs treats requests with their releases.
--   Config: internal/config/config.go, after viper has read it.
-- - Api.Manager and Api.Handler: internal/api/manager.go, and handler.go with tool_handlers.go and
--   errors.go. Api.Router: the request's ID of middleware.go and the health check of router.go. The
--   goroutine that runs a workflow is a step of its own, `finish_run`.
--
-- What is not in the repository is a parameter: the order in which Go visits a map's entries
-- (which lists each entry once), the clock, the executors, the contexts, CEL, JSON, regular
-- expressions, the file system, the database, the Redis client, the container engine, the
-- connections to the gateway and to the services of the tools, the platform's API and the code of
-- the tools that are registered at run time.
--
-- Loops are by recursion on their lists. Three have fuel: `kahn` has the number of degrees, enough
-- since a step enters the queue at most once; `attempts` has one more than the retries that are
-- left, enough since every retry is counted; `run_loop` takes its fuel as an argument, and one
-- more than the steps of the workflow is enough. The rounds of a conversation, of the ReAct loop
-- and of a chat request's attempts are counted down from the program's own constants.
--
-- Numbers: counters and versions are natural numbers without a bound; degrees and budgets are
-- signed. The rate limiter's tokens and the scores of messages are exact where the program has
-- float64.
--
-- Not modelled: gin with its routes, the prompts' templates, logs, metrics and traces, and the main
-- program, since they are calls of libraries or wiring.
pub mod Prelude
pub mod Types
pub mod Store
pub mod Dag
pub mod Mcp
pub mod Infra
pub mod Llm
pub mod Paths
pub mod Sandbox
pub mod Api
pub mod Config
