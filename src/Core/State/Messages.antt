-- ===== src/Core/State/Messages.antt =====
-- What goes over the pipe to the core process: CoreRequest and CoreEvent of
-- apps/desktop/src/shared/ipc.ts. The parts of a payload that the manager does not read are one text.
use dolssh.Prelude.{ℕ, String, Option}
use dolssh.Prelude.Int.{ℤ}

pub data CoreEventType : Type 0 where
  status connected closed error data_event : CoreEventType
  host_key_probed : CoreEventType
  keyboard_interactive_challenge keyboard_interactive_resolved : CoreEventType
  port_forward_started port_forward_stopped port_forward_error : CoreEventType
  sftp_connected sftp_disconnected sftp_listed sftp_ack sftp_error : CoreEventType
  sftp_transfer_progress sftp_transfer_completed : CoreEventType
  sftp_transfer_failed sftp_transfer_cancelled : CoreEventType
  containers_connected containers_disconnected containers_listed : CoreEventType
  containers_inspected containers_logs containers_action_completed : CoreEventType
  containers_stats containers_logs_searched containers_error : CoreEventType

pub record Payload : Type 0 where
  pub message : Option String
  pub path : Option String
  pub bytes_total : Option ℕ
  pub bytes_completed : Option ℕ
  pub speed_bytes_per_second : Option ℕ
  pub eta_seconds : Option ℕ
  pub active_item_name : Option String
  pub transport : Option String
  pub mode : Option String
  pub method : Option String
  pub bind_address : Option String
  pub bind_port : Option ℕ
  pub runtime : Option String
  pub runtime_command : Option String
  pub unsupported_reason : Option String
  pub rest : String

pub record CoreEvent : Type 0 where
  pub type : CoreEventType
  pub request_id : Option String
  pub session_id : Option String
  pub endpoint_id : Option String
  pub job_id : Option String
  pub payload : Payload

pub record Size : Type 0 where
  pub cols : ℤ
  pub rows : ℤ

-- What a request asks for; a payload that the manager only passes on is one text.
pub data Command : Type 0 where
  connect aws_connect local_connect : String → Command
  resize : Size → Command
  control_signal : String → Command
  disconnect : Command
  keyboard_interactive_respond : String → Command
  port_forward_start ssm_port_forward_start : String → Command
  port_forward_stop ssm_port_forward_stop : Command
  sftp_connect sftp_list : String → Command
  sftp_change : (type payload : String) → Command
  sftp_disconnect : Command
  sftp_transfer_start : String → Command
  sftp_transfer_cancel : Command
  containers_connect : String → Command
  containers_disconnect : Command
  containers_query : (type payload : String) → Command
  probe_host_key : String → Command

pub record CoreRequest : Type 0 where
  pub id : String
  pub command : Command
  pub session_id : Option String
  pub endpoint_id : Option String
  pub job_id : Option String
