-- ===== src/Core/Records.antt =====
-- The records that apps/desktop/src/main/core-manager.ts keeps of transfers and port forwards, and what
-- it builds them from.
use dolssh.Prelude.{
  or_else, value_or, ℕ, String, Bool, true, false, ◌||◌, Option, none, some, ◌=ℕ=◌, if◌then◌else◌,
  some_is, get, set, delete,
}
use dolssh.Core.State.{
  Payload, CoreEvent, TransferStatus, TransferJob, ForwardStatus, PortForwardDefinition,
  PortForwardRuntimeRecord, SftpEndpointSummary, port_forward_event, Endpoints, CoreManager, emit,
  given,
}
use dolssh.Core.Requests.{type_code}

abbrev pub change_endpoints : (Endpoints → Endpoints) → CoreManager → CoreManager
change_endpoints f st = record st { endpoints = f st.endpoints }

abbrev pub set_job : TransferJob → CoreManager → CoreManager
set_job job = change_endpoints (λ e. record e { transfer_jobs = set job.id job e.transfer_jobs })

abbrev pub set_runtime : String → PortForwardRuntimeRecord → CoreManager → CoreManager
set_runtime id r =
    change_endpoints (λ e. record e { forward_runtimes = set id r e.forward_runtimes })

abbrev pub set_forward_definition : PortForwardDefinition → CoreManager → CoreManager
set_forward_definition d =
    change_endpoints (λ e. record e { forward_definitions = set d.rule_id d e.forward_definitions })

abbrev pub forget_forward_definition : String → CoreManager → CoreManager
forget_forward_definition id =
    change_endpoints (λ e. record e { forward_definitions = delete id e.forward_definitions })

abbrev pub forget_container : String → CoreManager → CoreManager
forget_container id = change_endpoints (λ e. record e { containers = delete id e.containers })

-- The job that an event about an unknown job begins.
abbrev pub unknown_job : ℕ → TransferJob
unknown_job now = record {
  id = "";
  source_label = "Unknown";
  target_label = "Unknown";
  item_count = 0;
  bytes_total = 0;
  bytes_completed = 0;
  speed_bytes_per_second = none;
  eta_seconds = none;
  status = TransferStatus.running;
  started_at = now;
  updated_at = now;
  active_item_name = none;
  error_message = none;
  request = none;
}

abbrev pub transfer_status : ℕ → TransferStatus
transfer_status type =
    if type =ℕ= 17
    then TransferStatus.completed
    else (if type =ℕ= 18
        then TransferStatus.failed
        else (if type =ℕ= 19 then TransferStatus.cancelled else TransferStatus.running))

unfoldable pub to_transfer_job_event : Option TransferJob → CoreEvent → ℕ → TransferJob
to_transfer_job_event existing event now =
    let job = value_or existing (unknown_job now) in
    let payload = event.payload in
    record job {
      id = value_or event.job_id job.id;
      bytes_total = value_or payload.bytes_total job.bytes_total;
      bytes_completed = value_or payload.bytes_completed job.bytes_completed;
      speed_bytes_per_second = or_else payload.speed_bytes_per_second job.speed_bytes_per_second;
      eta_seconds = or_else payload.eta_seconds job.eta_seconds;
      status = transfer_status (type_code event.type);
      updated_at = now;
      active_item_name = or_else (given payload.active_item_name) job.active_item_name;
      error_message = or_else (given payload.message) job.error_message;
    }

-- The fields of the runtime that a definition fills in where an answer leaves them out.
abbrev pub definition_host_id : Option PortForwardDefinition → String
definition_host_id none = ""
definition_host_id (some d) = d.host_id

abbrev pub definition_transport : Option PortForwardDefinition → Option String → String
definition_transport none transport = if some_is transport "aws-ssm" then "aws-ssm" else "ssh"
definition_transport (some d) transport = d.transport

abbrev pub definition_mode : Option PortForwardDefinition → String
definition_mode none = "local"
definition_mode (some d) = d.mode

abbrev pub definition_method : Option PortForwardDefinition → String
definition_method none = "ssh-native"
definition_method (some d) = if d.backend_aws_ssm then "ssm-remote-host" else "ssh-native"

abbrev pub definition_bind_address : Option PortForwardDefinition → String
definition_bind_address none = "127.0.0.1"
definition_bind_address (some d) = d.bind_address

abbrev pub definition_bind_port : Option PortForwardDefinition → ℕ
definition_bind_port none = 0
definition_bind_port (some d) = d.bind_port

abbrev pub known_mode : Option String → Option String
known_mode mode =
    if some_is mode "remote" || (some_is mode "dynamic" || some_is mode "local") then mode else none

abbrev pub known_method : Option String → Option String
known_method method =
    if some_is method "ssh-native"
      || (some_is method "ssh-session-proxy" || some_is method "ssm-remote-host")
    then method
    else none

abbrev pub runtime_method : Option PortForwardRuntimeRecord → Option String
runtime_method none = none
runtime_method (some r) = some r.method

abbrev pub runtime_started_at : Option PortForwardRuntimeRecord → Option ℕ
runtime_started_at none = none
runtime_started_at (some r) = r.started_at

abbrev pub is_running_status : ForwardStatus → Bool
is_running_status ForwardStatus.starting = false
is_running_status ForwardStatus.running = true
is_running_status ForwardStatus.stopped = false
is_running_status ForwardStatus.error = false

unfoldable pub build_forward_runtime :
    String → Payload → ForwardStatus → ℕ → Endpoints → PortForwardRuntimeRecord
build_forward_runtime rule_id payload status now e =
    let fallback = get rule_id e.forward_definitions in
    let current = get rule_id e.forward_runtimes in
    record {
      rule_id = rule_id;
      host_id = definition_host_id fallback;
      transport = definition_transport fallback payload.transport;
      mode = value_or (known_mode payload.mode) (definition_mode fallback);
      method =
          value_or (or_else (known_method payload.method) (runtime_method current))
            (definition_method fallback);
      bind_address = value_or payload.bind_address (definition_bind_address fallback);
      bind_port = value_or payload.bind_port (definition_bind_port fallback);
      status = status;
      message = given payload.message;
      updated_at = now;
      started_at = if is_running_status status then some now else runtime_started_at current;
    }

abbrev pub endpoint_title : Option SftpEndpointSummary → String
endpoint_title none = "Remote"
endpoint_title (some s) = s.title

-- The endpoint of a transfer is the local machine, or an endpoint's id.
unfoldable pub describe_transfer_endpoint : Option String → Endpoints → String
describe_transfer_endpoint none e = "Local"
describe_transfer_endpoint (some id) e = endpoint_title (get id e.sftp)

abbrev pub show_runtime : PortForwardRuntimeRecord → CoreManager → CoreManager
show_runtime r st = emit (port_forward_event r) (set_runtime r.rule_id r st)
