-- ===== src/Core/Sessions/Opening.antt =====
-- Opening terminal sessions: connect, connectAwsSession and connectLocalSession of
-- apps/desktop/src/main/core-manager.ts. A method that starts the core process begins after the process
-- runs; ids come from the stream `uuid`.
use dolssh.Prelude.{ℕ, suc, String, true, false, Option, none, some, set}
use Prim.Native.String
use dolssh.Prelude.Decimal.{decimal}
use dolssh.Core.State.{
  CoreEvent, CoreEventType, Payload, Command, CoreRequest, SessionTransport, ssh, aws_ssm, warpgate,
  local_shell, TabStatus, TerminalTab, RemoteSessionLifecycleState, Sessions, CoreManager,
  send_control,
}

-- `start`, whose process is then there.
unfoldable pub start_process : CoreManager → CoreManager
start_process st = record st { is_running = true }

abbrev pub change_sessions : (Sessions → Sessions) → CoreManager → CoreManager
change_sessions f st = record st { sessions = f st.sessions }

abbrev pub set_tab : String → TerminalTab → CoreManager → CoreManager
set_tab k tab = change_sessions (λ s. record s { tabs = set k tab s.tabs })

abbrev pub set_lifecycle : String → RemoteSessionLifecycleState → CoreManager → CoreManager
set_lifecycle k l = change_sessions (λ s. record s { lifecycle = set k l s.lifecycle })

-- A request about a session, with an id of its own.
abbrev pub request_for : (ℕ → String) → ℕ → String → Command → CoreRequest
request_for uuid n session_id command = record {
  id = uuid n;
  command = command;
  session_id = some session_id;
  endpoint_id = none;
  job_id = none;
}

abbrev pub no_payload : Payload
no_payload = record {
  message = none;
  path = none;
  bytes_total = none;
  bytes_completed = none;
  speed_bytes_per_second = none;
  eta_seconds = none;
  active_item_name = none;
  transport = none;
  mode = none;
  method = none;
  bind_address = none;
  bind_port = none;
  runtime = none;
  runtime_command = none;
  unsupported_reason = none;
  rest = "";
}

abbrev pub message_payload : String → Payload
message_payload m = record no_payload { message = some m }

abbrev pub session_event : CoreEventType → String → Payload → CoreEvent
session_event type session_id payload = record {
  type = type;
  request_id = none;
  session_id = some session_id;
  endpoint_id = none;
  job_id = none;
  payload = payload;
}

abbrev pub new_tab : (id title : String) → Option String → (now : ℕ) → TerminalTab
new_tab id title host_id now = record {
  id = id;
  session_id = id;
  title = title;
  host_id = host_id;
  status = TabStatus.connecting;
  error_message = none;
  last_event_at = now;
}

pub record RemoteInput : Type 0 where
  pub title : String
  pub host_id : String
  pub host_label : String
  pub connection_details : String
  pub kind : SessionTransport

abbrev pub new_lifecycle : RemoteInput → RemoteSessionLifecycleState
new_lifecycle input = record {
  host_id = input.host_id;
  host_label = input.host_label;
  title = input.title;
  connection_details = input.connection_details;
  connection_kind = input.kind;
  connected_at = none;
  disconnected_at = none;
  disconnect_reason = none;
  status = none;
  recording_id = none;
  has_replay = false;
}

abbrev pub joined_details : (a b c : String) → String
joined_details a b c = String.◌++◌ a (String.◌++◌ " · " (String.◌++◌ b (String.◌++◌ " · " c)))

pub record ConnectInput : Type 0 where
  pub title : String
  pub host_id : String
  pub host_label : String
  pub host : String
  pub port : ℕ
  pub username : String
  pub transport : Option SessionTransport
  pub payload : String

-- `payload.transport ?? "ssh"`, which is no local shell.
abbrev pub remote_transport : Option SessionTransport → SessionTransport
remote_transport none = ssh
remote_transport (some ssh) = ssh
remote_transport (some aws_ssm) = aws_ssm
remote_transport (some warpgate) = warpgate
remote_transport (some local_shell) = ssh

pub record AwsInput : Type 0 where
  pub title : String
  pub host_id : String
  pub host_label : String
  pub profile_name : String
  pub region : String
  pub instance_id : String
  pub payload : String

module _ (uuid : ℕ → String) where
  -- What `connect` and `connectAwsSession` share.
  unfoldable pub open_remote : RemoteInput → Command → ℕ → CoreManager → CoreManager
  unfolding send_control start_process
  open_remote input command now st =
      let id = uuid st.next_uuid in
      let request = request_for uuid (suc st.next_uuid) id command in
      send_control request (
        change_sessions
          (λ s. record s {
            transport = set id input.kind s.transport;
            lifecycle = set id (new_lifecycle input) s.lifecycle;
            tabs = set id (new_tab id input.title (some input.host_id) now) s.tabs;
          })
          record (start_process st) { next_uuid = suc (suc st.next_uuid) })

  unfoldable pub connect : ConnectInput → ℕ → CoreManager → CoreManager
  unfolding open_remote
  connect input =
      open_remote
        record {
          title = input.title;
          host_id = input.host_id;
          host_label = input.host_label;
          connection_details = joined_details input.host (decimal input.port) input.username;
          kind = remote_transport input.transport;
        }
        (Command.connect input.payload)

  unfoldable pub connect_aws_session : AwsInput → ℕ → CoreManager → CoreManager
  unfolding open_remote
  connect_aws_session input =
      open_remote
        record {
          title = input.title;
          host_id = input.host_id;
          host_label = input.host_label;
          connection_details = joined_details input.profile_name input.region input.instance_id;
          kind = aws_ssm;
        }
        (Command.aws_connect input.payload)

  unfoldable pub connect_local_session : (title payload : String) → ℕ → CoreManager → CoreManager
  unfolding send_control start_process
  connect_local_session title payload now st =
      let id = uuid st.next_uuid in
      let request = request_for uuid (suc st.next_uuid) id (Command.local_connect payload) in
      send_control request (
        change_sessions
          (λ s. record s {
            transport = set id local_shell s.transport;
            tabs = set id (new_tab id title none now) s.tabs;
          })
          record (start_process st) { next_uuid = suc (suc st.next_uuid) })
