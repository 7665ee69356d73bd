-- ===== src/Config.antt =====
-- internal/config/config.go: the configuration, and what is asked of it. Reading files and the
-- environment is viper's. Durations are nanoseconds.
use Prim.Native.String.{◌++◌ as str_append}
use agent_exec_engine.Prelude.{String, Bool, ◌||◌, if◌then◌else◌, ◌==◌, Result, ok, ◌>>◌, fail_if}
use agent_exec_engine.Prelude.Int.{ℤ, pos, ltb_ℤ}
use agent_exec_engine.Prelude.Texts.{trim_left_of, trim_right_of}

pub record ServerConfig : Type 0 where
  pub port : ℤ
  pub read_timeout : ℤ
  pub write_timeout : ℤ

pub record RedisConfig : Type 0 where
  pub url : String
  pub pool_size : ℤ
  pub password : String
  pub db : ℤ

pub record DagConfig : Type 0 where
  pub default_step_timeout : ℤ
  pub max_parallel_steps : ℤ
  pub checkpoint_interval : ℤ

pub record SandboxConfig : Type 0 where
  pub default_image : String
  pub cpu_quota : ℤ
  pub memory_limit : ℤ
  pub pids_limit : ℤ
  pub timeout : ℤ
  pub network_mode : String
  pub read_only_fs : Bool
  pub max_concurrent : ℤ

pub record McpConfig : Type 0 where
  pub server_name : String
  pub protocol_version : String

pub record WebSearchConfig : Type 0 where
  pub api_key : String

pub record FileReaderConfig : Type 0 where
  pub base_path : String

pub record SqlQueryConfig : Type 0 where
  pub dsn : String

pub record RagSearchConfig : Type 0 where
  pub qdrant_url : String
  pub collection : String
  pub embed_model : String

pub record KnowledgeQaConfig : Type 0 where
  pub rag_service_url : String

pub record ObservabilityConfig : Type 0 where
  pub log_level : String
  pub otlp_endpoint : String
  pub metrics_path : String

pub record InfraConfig : Type 0 where
  pub gateway_url : String
  pub scheduler_url : String

pub record LlmConfig : Type 0 where
  pub base_url : String
  pub model : String
  pub api_key : String
  pub timeout : ℤ

pub record ToolsConfig : Type 0 where
  pub web_search : WebSearchConfig
  pub file_reader : FileReaderConfig
  pub sql_query : SqlQueryConfig
  pub rag_search : RagSearchConfig
  pub knowledge_qa : KnowledgeQaConfig

pub record Config : Type 0 where
  pub server : ServerConfig
  pub redis : RedisConfig
  pub dag : DagConfig
  pub sandbox : SandboxConfig
  pub mcp : McpConfig
  pub tools : ToolsConfig
  pub observability : ObservabilityConfig
  pub infra : InfraConfig
  pub llm : LlmConfig

pub data ConfigError : Type 0 where
  port_out_of_range no_parallel_steps memory_too_small no_concurrency : ConfigError
  no_gateway_url no_scheduler_url no_base_url : ConfigError

unfoldable validate : Config → Result ConfigError (Unit {0})
validate c = do
  fail_if (ltb_ℤ c.server.port (pos 1) || ltb_ℤ (pos 65535) c.server.port) port_out_of_range
  fail_if (ltb_ℤ c.dag.max_parallel_steps (pos 1)) no_parallel_steps
  fail_if (ltb_ℤ c.sandbox.memory_limit (pos 1048576)) memory_too_small
  fail_if (ltb_ℤ c.sandbox.max_concurrent (pos 1)) no_concurrency
  fail_if (c.infra.gateway_url == "") no_gateway_url
  fail_if (c.infra.scheduler_url == "") no_scheduler_url
  fail_if (c.llm.base_url == "") no_base_url
  ok tt

-- 47 is the number of the character /.
unfoldable join_url : String → String → String
unfolding trim_left_of trim_right_of
join_url base suffix = str_append (trim_right_of 47 base) (str_append "/" (trim_left_of 47 suffix))

-- The end of `Load`, after the configuration was read.
unfoldable finish_load : Config → Result ConfigError Config
unfolding validate join_url
finish_load c =
    let base_url =
      if c.llm.base_url == "" then join_url c.infra.gateway_url "/v1" else c.llm.base_url in
    let completed = record c { llm = record (c.llm) { base_url = base_url } } in
    validate completed >> ok completed
