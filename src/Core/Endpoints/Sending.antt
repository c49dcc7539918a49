-- ===== src/Core/Endpoints/Sending.antt =====
-- SFTP endpoints and transfers, containers and port forwards of apps/desktop/src/main/core-manager.ts,
-- up to the request that a method waits for.
use dolssh.Prelude.{
  value_or, ℕ, suc, ◌+◌, String, Bool, true, false, Option, none, some, List, [], ◌∷◌,
  if◌then◌else◌, get, delete, is_some,
}
use dolssh.Core.State.{
  CoreEventType, Command, CoreRequest, TransferStatus, TransferJob, ForwardStatus,
  PortForwardDefinition, PortForwardRuntimeRecord, transfer_event, CoreManager, emit, send_control,
}
use dolssh.Core.Sessions.{start_process}
use dolssh.Core.Requests.{request_response}
use dolssh.Core.Records.{
  change_endpoints, set_job, set_forward_definition, forget_container, describe_transfer_endpoint,
  show_runtime,
}

abbrev pub endpoint_request : (id endpoint_id : String) → Command → CoreRequest
endpoint_request id endpoint_id command = record {
  id = id;
  command = command;
  session_id = none;
  endpoint_id = some endpoint_id;
  job_id = none;
}

abbrev pub job_request : (id job_id : String) → Command → CoreRequest
job_request id job_id command = record {
  id = id;
  command = command;
  session_id = none;
  endpoint_id = none;
  job_id = some job_id;
}

pub record TransferStartInput : Type 0 where
  pub source : Option String
  pub target : Option String
  pub item_sizes : List ℕ
  pub payload : String

abbrev pub sum : List ℕ → ℕ
sum [] = 0
sum (n ∷ ns) = n + sum ns

abbrev pub count_items : List ℕ → ℕ
count_items [] = 0
count_items (n ∷ ns) = suc (count_items ns)

pub record ForwardInput : Type 0 where
  pub rule_id : String
  pub host_id : String
  pub transport : Option String
  pub mode : String
  pub bind_address : String
  pub bind_port : ℕ
  pub source_endpoint_id : Option String
  pub payload : String

-- The forward of a rule is first announced as starting.
abbrev pub starting_runtime :
    ForwardInput → (transport mode method : String) → ℕ → PortForwardRuntimeRecord
starting_runtime input transport mode method now = record {
  rule_id = input.rule_id;
  host_id = input.host_id;
  transport = transport;
  mode = mode;
  method = method;
  bind_address = input.bind_address;
  bind_port = input.bind_port;
  status = ForwardStatus.starting;
  message = none;
  updated_at = now;
  started_at = none;
}

abbrev pub forward_definition :
    ForwardInput → (transport mode : String) → Bool → PortForwardDefinition
forward_definition input transport mode backend_aws_ssm = record {
  rule_id = input.rule_id;
  host_id = input.host_id;
  transport = transport;
  backend_aws_ssm = backend_aws_ssm;
  mode = mode;
  bind_address = input.bind_address;
  bind_port = input.bind_port;
}

abbrev pub stop_command : Option PortForwardDefinition → Command
stop_command none = Command.port_forward_stop
stop_command (some d) =
    if d.backend_aws_ssm then Command.ssm_port_forward_stop else Command.port_forward_stop

module _ (uuid : ℕ → String) where
  -- A request about an endpoint that is waited for; the process runs.
  unfoldable pub request_endpoint :
      String → Command → List CoreEventType → CoreManager → CoreManager
  unfolding request_response start_process
  request_endpoint endpoint_id command expected_types st =
      request_response (endpoint_request (uuid st.next_uuid) endpoint_id command) expected_types
        record (start_process st) { next_uuid = suc st.next_uuid }

  unfoldable pub sftp_connect : (endpoint_id payload : String) → CoreManager → CoreManager
  unfolding request_endpoint
  sftp_connect endpoint_id payload =
      request_endpoint endpoint_id (Command.sftp_connect payload)
        (CoreEventType.sftp_connected ∷ [])

  unfoldable pub sftp_disconnect : String → CoreManager → CoreManager
  unfolding request_endpoint
  sftp_disconnect endpoint_id st =
      if is_some (get endpoint_id st.endpoints.sftp)
      then request_endpoint endpoint_id Command.sftp_disconnect
          (CoreEventType.sftp_disconnected ∷ []) st
      else st

  unfoldable pub sftp_list : (endpoint_id path : String) → CoreManager → CoreManager
  unfolding request_endpoint
  sftp_list endpoint_id path =
      request_endpoint endpoint_id (Command.sftp_list path) (CoreEventType.sftp_listed ∷ [])

  -- `sftpMkdir`, `sftpRename`, `sftpChmod` and `sftpDelete`, by the type of their request.
  unfoldable pub sftp_change : (type endpoint_id payload : String) → CoreManager → CoreManager
  unfolding request_endpoint
  sftp_change type endpoint_id payload =
      request_endpoint endpoint_id (Command.sftp_change type payload) (CoreEventType.sftp_ack ∷ [])

  unfoldable pub start_sftp_transfer : TransferStartInput → ℕ → CoreManager → CoreManager
  unfolding send_control start_process describe_transfer_endpoint
  start_sftp_transfer input now st =
      let job_id = uuid st.next_uuid in
      let job : TransferJob = record {
        id = job_id;
        source_label = describe_transfer_endpoint input.source st.endpoints;
        target_label = describe_transfer_endpoint input.target st.endpoints;
        item_count = count_items input.item_sizes;
        bytes_total = sum input.item_sizes;
        bytes_completed = 0;
        speed_bytes_per_second = none;
        eta_seconds = none;
        status = TransferStatus.queued;
        started_at = now;
        updated_at = now;
        active_item_name = none;
        error_message = none;
        request = some input.payload;
      } in
      send_control
        (job_request (uuid (suc st.next_uuid)) job_id (Command.sftp_transfer_start input.payload))
        (emit (transfer_event job)
          (set_job job record (start_process st) { next_uuid = suc (suc st.next_uuid) }))

  unfoldable pub cancel_sftp_transfer : String → CoreManager → CoreManager
  unfolding send_control start_process
  cancel_sftp_transfer job_id st =
      if is_some (get job_id st.endpoints.transfer_jobs)
      then send_control (job_request (uuid st.next_uuid) job_id Command.sftp_transfer_cancel)
          record (start_process st) { next_uuid = suc st.next_uuid }
      else st

  unfoldable pub containers_connect : (endpoint_id payload : String) → CoreManager → CoreManager
  unfolding request_endpoint
  containers_connect endpoint_id payload =
      request_endpoint endpoint_id (Command.containers_connect payload)
        (CoreEventType.containers_connected ∷ [])

  unfoldable pub containers_disconnect : String → CoreManager → CoreManager
  unfolding request_endpoint
  containers_disconnect endpoint_id st =
      let rest = forget_container endpoint_id st in
      if st.is_running
      then request_endpoint endpoint_id Command.containers_disconnect
          (CoreEventType.containers_disconnected ∷ []) rest
      else rest

  -- `containersList`, `…Inspect`, `…Logs`, `…Stats`, `…SearchLogs` and the actions on a container, by
  -- the type of their request and of the answer.
  unfoldable pub containers_query :
      (type : String) → CoreEventType → (endpoint_id payload : String) → CoreManager → CoreManager
  unfolding request_endpoint
  containers_query type answer endpoint_id payload =
      request_endpoint endpoint_id (Command.containers_query type payload) (answer ∷ [])

  unfoldable pub probe_host_key : String → CoreManager → CoreManager
  unfolding request_response start_process
  probe_host_key payload st =
      request_response
        record {
          id = uuid st.next_uuid;
          command = Command.probe_host_key payload;
          session_id = none;
          endpoint_id = none;
          job_id = none;
        }
        (CoreEventType.host_key_probed ∷ [])
        record (start_process st) { next_uuid = suc st.next_uuid }

  unfoldable pub start_port_forward : ForwardInput → ℕ → CoreManager → CoreManager
  unfolding request_endpoint
  start_port_forward input now st =
      let transport = value_or input.transport "ssh" in
      request_endpoint input.rule_id (Command.port_forward_start input.payload)
        (CoreEventType.port_forward_started ∷ [])
        (show_runtime (starting_runtime input transport input.mode "ssh-native" now)
          (set_forward_definition (forward_definition input transport input.mode false) st))

  unfoldable pub start_ssm_port_forward : ForwardInput → ℕ → CoreManager → CoreManager
  unfolding request_endpoint
  start_ssm_port_forward input now st =
      let transport = value_or input.transport "aws-ssm" in
      request_endpoint input.rule_id (Command.ssm_port_forward_start input.payload)
        (CoreEventType.port_forward_started ∷ [])
        (show_runtime (starting_runtime input transport "local" "ssm-remote-host" now)
          (set_forward_definition (forward_definition input transport "local" true) st))

  unfoldable pub stop_port_forward : String → CoreManager → CoreManager
  unfolding request_endpoint
  stop_port_forward rule_id st =
      if st.is_running
      then request_endpoint rule_id (stop_command (get rule_id st.endpoints.forward_definitions))
          (CoreEventType.port_forward_stopped ∷ []) st
      else change_endpoints
          (λ e. record e {
            forward_definitions = delete rule_id e.forward_definitions;
            forward_runtimes = delete rule_id e.forward_runtimes;
          })
          st
