-- ===== src/Core/State.antt =====
-- The manager's state, its requests to the core process and the core's events, from
-- apps/desktop/src/main/core-manager.ts and apps/desktop/src/shared/ipc.ts. A time is a number
-- of milliseconds. The maps keyed by session stand in a record of their own, as do those of
-- endpoints and jobs. What the manager writes to the core, sends to its windows, logs, and
-- settles is the list `effects`, the newest first.
pub mod Messages
pub mod Records
pub use Messages.*
pub use Records.*
use dolssh.Prelude.{
  ℕ, String, Bool, true, false, Option, none, some, List, [], ◌∷◌, ◌==◌, if◌then◌else◌, Map,
}
use dolssh.Prelude.Int.{ℤ}

-- `SSH core process is not running`, and `keyboard-interactive response requires exactly one sessionId
-- or endpointId`.
pub data CallError : Type 0 where
  not_running one_target : CallError

-- `lifecycle_logged` carries the record that its log entry shows.
pub data Effect : Type 0 where
  control : CoreRequest → Effect
  stream : (session_id : String) → List ℕ → Effect
  terminal_event : CoreEvent → Effect
  terminal_data : (session_id : String) → List ℕ → Effect
  transfer_event : TransferJob → Effect
  port_forward_event : PortForwardRuntimeRecord → Effect
  logged : LogLevel → (message : String) → Effect
  lifecycle_logged : (session_id : String) → RemoteSessionLifecycleState → (updated_at : ℕ) → Effect
  resolved : (request_id : String) → Payload → Effect
  rejected : (request_id message : String) → Effect
  thrown : CallError → Effect

pub record Sessions : Type 0 where
  pub tabs : Map TerminalTab
  pub desired_resize : Map Size
  pub sent_resize : Map Size
  pub transport : Map SessionTransport
  pub lifecycle : Map RemoteSessionLifecycleState

pub record Endpoints : Type 0 where
  pub sftp : Map SftpEndpointSummary
  pub containers : Map ContainersEndpointRuntime
  pub transfer_jobs : Map TransferJob
  pub forward_definitions : Map PortForwardDefinition
  pub forward_runtimes : Map PortForwardRuntimeRecord

pub record CoreManager : Type 0 where
  pub is_running : Bool
  pub is_shutting_down : Bool
  pub sessions : Sessions
  pub endpoints : Endpoints
  pub pending_responses : Map (List CoreEventType)
  pub next_uuid : ℕ
  pub effects : List Effect

abbrev pub no_sessions : Sessions
no_sessions = record {
  tabs = [];
  desired_resize = [];
  sent_resize = [];
  transport = [];
  lifecycle = [];
}

abbrev pub no_endpoints : Endpoints
no_endpoints = record {
  sftp = [];
  containers = [];
  transfer_jobs = [];
  forward_definitions = [];
  forward_runtimes = [];
}

abbrev pub new_manager : CoreManager
new_manager = record {
  is_running = false;
  is_shutting_down = false;
  sessions = no_sessions;
  endpoints = no_endpoints;
  pending_responses = [];
  next_uuid = 0;
  effects = [];
}

abbrev pub emit : Effect → CoreManager → CoreManager
emit e st = record st { effects = e ∷ st.effects }

abbrev pub is_live : TabStatus → Bool
is_live TabStatus.connecting = false
is_live TabStatus.connected = true
is_live TabStatus.error = false

-- A text that is missing or empty counts as missing.
abbrev pub given : Option String → Option String
given none = none
given (some s) = if s == "" then none else some s

-- `sendControl`, which throws where there is no process.
unfoldable pub send_control : CoreRequest → CoreManager → CoreManager
send_control request st =
    if st.is_running then emit (control request) st else emit (thrown not_running) st

unfoldable pub send_stream : String → List ℕ → CoreManager → CoreManager
send_stream session_id payload st =
    if st.is_running then emit (stream session_id payload) st else emit (thrown not_running) st
