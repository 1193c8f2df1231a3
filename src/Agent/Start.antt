-- ===== src/Agent/Start.antt =====
-- src/agent.rs: the configuration of an agent and its errors.
use adbproxy_rs.Base.{ℕ, Option}
use adbproxy_rs.Text.{Text}
use adbproxy_rs.Io.{IoError}
use adbproxy_rs.Config.{HubConfig}

pub data AgentError : Type 0 where
  io : IoError → AgentError
  config : Text → AgentError
  unsupported_platform : AgentError

-- Times are in milliseconds.
pub record AgentConfig : Type 0 where
  pub config_path : Text
  pub control_abstract : Text
  pub control_path : Option Text
  pub poll_interval : ℕ
  pub inline_backends : Option HubConfig
  pub connect_retries : ℕ
  pub connect_retry_delay : ℕ
