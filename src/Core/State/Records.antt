-- ===== src/Core/State/Records.antt =====
-- The records that apps/desktop/src/main/core-manager.ts keeps of its sessions, endpoints and jobs.
use dolssh.Prelude.{ℕ, String, Bool, Option}

pub data SessionTransport : Type 0 where
  ssh aws_ssm warpgate local_shell : SessionTransport

pub data TabStatus : Type 0 where
  connecting connected error : TabStatus

-- The tab's source is local exactly if it has no host.
pub record TerminalTab : Type 0 where
  pub id : String
  pub session_id : String
  pub title : String
  pub host_id : Option String
  pub status : TabStatus
  pub error_message : Option String
  pub last_event_at : ℕ

pub data LifecycleStatus : Type 0 where
  connected closed error : LifecycleStatus

pub record RemoteSessionLifecycleState : Type 0 where
  pub host_id : String
  pub host_label : String
  pub title : String
  pub connection_details : String
  pub connection_kind : SessionTransport
  pub connected_at : Option ℕ
  pub disconnected_at : Option ℕ
  pub disconnect_reason : Option String
  pub status : Option LifecycleStatus
  pub recording_id : Option String
  pub has_replay : Bool

pub data TransferStatus : Type 0 where
  queued running completed failed cancelled : TransferStatus

pub record TransferJob : Type 0 where
  pub id : String
  pub source_label : String
  pub target_label : String
  pub item_count : ℕ
  pub bytes_total : ℕ
  pub bytes_completed : ℕ
  pub speed_bytes_per_second : Option ℕ
  pub eta_seconds : Option ℕ
  pub status : TransferStatus
  pub started_at : ℕ
  pub updated_at : ℕ
  pub active_item_name : Option String
  pub error_message : Option String
  pub request : Option String

pub data ForwardStatus : Type 0 where
  starting running stopped error : ForwardStatus

pub record PortForwardDefinition : Type 0 where
  pub rule_id : String
  pub host_id : String
  pub transport : String
  pub backend_aws_ssm : Bool
  pub mode : String
  pub bind_address : String
  pub bind_port : ℕ

pub record PortForwardRuntimeRecord : Type 0 where
  pub rule_id : String
  pub host_id : String
  pub transport : String
  pub mode : String
  pub method : String
  pub bind_address : String
  pub bind_port : ℕ
  pub status : ForwardStatus
  pub message : Option String
  pub updated_at : ℕ
  pub started_at : Option ℕ

pub record SftpEndpointSummary : Type 0 where
  pub id : String
  pub host_id : String
  pub title : String
  pub path : String
  pub connected_at : ℕ

pub record ContainersEndpointRuntime : Type 0 where
  pub host_id : String
  pub runtime : Option String
  pub runtime_command : Option String
  pub unsupported_reason : Option String

pub data LogLevel : Type 0 where
  info warn error : LogLevel
