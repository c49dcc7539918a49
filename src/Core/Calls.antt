-- ===== src/Core/Calls.antt =====
-- What can happen to the manager of apps/desktop/src/main/core-manager.ts: a call of one of its methods,
-- the rest of a method once its request is settled, a timer, an event of the core, the end of the core.
use dolssh.Prelude.{ℕ, String, Bool, Option, List, [], ◌∷◌}
use dolssh.Core.State.{
  CoreEventType, Payload, CoreEvent, CoreRequest, Size, PortForwardRuntimeRecord, CoreManager,
  new_manager,
}
use dolssh.Core.Sessions
use dolssh.Core.Sessions.{ConnectInput, AwsInput}
use dolssh.Core.Requests
use dolssh.Core.Records
use dolssh.Core.Endpoints
use dolssh.Core.Endpoints.{ForwardInput, TransferStartInput}
use dolssh.Core.Events
use dolssh.Core.Process
use dolssh.Core.Process.{Metadata}

-- Calls about terminal sessions.
pub data SessionCall : Type 0 where
  connect : ConnectInput → SessionCall
  connect_aws_session : AwsInput → SessionCall
  connect_local_session : (title payload : String) → SessionCall
  write_binary : (session_id : String) → List ℕ → SessionCall
  send_control_signal : (session_id signal : String) → SessionCall
  resize : (session_id : String) → Size → SessionCall
  disconnect : (session_id : String) → SessionCall
  attach_recording : (session_id recording_id : String) → SessionCall
  respond_keyboard_interactive :
      (session_id endpoint_id : Option String) → (payload : String) → SessionCall

-- Calls that send a request about an endpoint.
pub data EndpointCall : Type 0 where
  sftp_connect sftp_list : (endpoint_id payload : String) → EndpointCall
  sftp_change : (type endpoint_id payload : String) → EndpointCall
  sftp_disconnect : (endpoint_id : String) → EndpointCall
  start_sftp_transfer : TransferStartInput → EndpointCall
  cancel_sftp_transfer : (job_id : String) → EndpointCall
  containers_connect : (endpoint_id payload : String) → EndpointCall
  containers_query : (type : String) → CoreEventType → (endpoint_id payload : String) → EndpointCall
  containers_disconnect : (endpoint_id : String) → EndpointCall
  probe_host_key : (payload : String) → EndpointCall
  start_port_forward start_ssm_port_forward : ForwardInput → EndpointCall
  stop_port_forward : (rule_id : String) → EndpointCall

-- The rest of a method, once its request is settled.
pub data Continuation : Type 0 where
  sftp_connected : (endpoint_id host_id title : String) → Payload → Continuation
  sftp_connect_failed sftp_disconnect_failed : Continuation
  sftp_disconnected : (endpoint_id : String) → Continuation
  sftp_listed : (endpoint_id : String) → Payload → Continuation
  containers_connected : (endpoint_id host_id : String) → Bool → Payload → Continuation
  forward_started : (rule_id : String) → Payload → Continuation
  forward_settled : (source_endpoint_id : Option String) → Continuation
  forward_stopped : (rule_id : String) → Continuation
  set_runtime : PortForwardRuntimeRecord → Continuation

pub data Call : Type 0 where
  session : SessionCall → Call
  endpoint : EndpointCall → Call
  continued : Continuation → Call
  event : CoreEvent → Call
  stream_frame : Metadata → List ℕ → Call
  stderr : (trimmed : String) → Call
  timer : CoreRequest → Call
  shutdown : Call
  exited : (message : String) → Call

unfoldable pub continue : Continuation → ℕ → CoreManager → CoreManager
unfolding Endpoints.sftp_connect_answered Endpoints.sftp_connect_failed
    Endpoints.sftp_disconnect_answered Endpoints.sftp_disconnect_failed Endpoints.sftp_list_answered
    Endpoints.containers_connect_answered Endpoints.forward_answered Endpoints.forget_source
    Endpoints.stop_port_forward_answered
continue (sftp_connected e host_id title response) now =
    Endpoints.sftp_connect_answered e host_id title response now
continue sftp_connect_failed now = Endpoints.sftp_connect_failed
continue sftp_disconnect_failed now = Endpoints.sftp_disconnect_failed
continue (sftp_disconnected e) now = Endpoints.sftp_disconnect_answered e
continue (sftp_listed e response) now = Endpoints.sftp_list_answered e response
continue (containers_connected e host_id is_blank response) now =
    Endpoints.containers_connect_answered e host_id is_blank response
continue (forward_started rule_id response) now = Endpoints.forward_answered rule_id response now
continue (forward_settled source_endpoint_id) now = Endpoints.forget_source source_endpoint_id
continue (forward_stopped rule_id) now = Endpoints.stop_port_forward_answered rule_id now
continue (set_runtime r) now = Records.show_runtime r

module _ (uuid : ℕ → String) where
  unfoldable pub perform_session : SessionCall → ℕ → CoreManager → CoreManager
  unfolding Sessions.connect Sessions.connect_aws_session Sessions.connect_local_session
      Sessions.write_binary Sessions.send_control_signal Sessions.resize Sessions.disconnect
      Sessions.attach_remote_session_recording Process.respond_keyboard_interactive
  perform_session (connect input) now = Sessions.connect uuid input now
  perform_session (connect_aws_session input) now = Sessions.connect_aws_session uuid input now
  perform_session (connect_local_session title payload) now =
      Sessions.connect_local_session uuid title payload now
  perform_session (write_binary k bytes) now = Sessions.write_binary uuid k bytes
  perform_session (send_control_signal k signal) now = Sessions.send_control_signal uuid k signal
  perform_session (resize k size) now = Sessions.resize uuid k size
  perform_session (disconnect k) now = Sessions.disconnect uuid k
  perform_session (attach_recording k recording_id) now =
      Sessions.attach_remote_session_recording k recording_id now
  perform_session (respond_keyboard_interactive k e payload) now =
      Process.respond_keyboard_interactive uuid k e payload

  unfoldable pub perform_endpoint : EndpointCall → ℕ → CoreManager → CoreManager
  unfolding Endpoints.sftp_connect Endpoints.sftp_list Endpoints.sftp_change
      Endpoints.sftp_disconnect Endpoints.start_sftp_transfer Endpoints.cancel_sftp_transfer
      Endpoints.containers_connect Endpoints.containers_query Endpoints.containers_disconnect
      Endpoints.probe_host_key Endpoints.start_port_forward Endpoints.start_ssm_port_forward
      Endpoints.stop_port_forward
  perform_endpoint (sftp_connect e payload) now = Endpoints.sftp_connect uuid e payload
  perform_endpoint (sftp_list e path) now = Endpoints.sftp_list uuid e path
  perform_endpoint (sftp_change type e payload) now = Endpoints.sftp_change uuid type e payload
  perform_endpoint (sftp_disconnect e) now = Endpoints.sftp_disconnect uuid e
  perform_endpoint (start_sftp_transfer input) now = Endpoints.start_sftp_transfer uuid input now
  perform_endpoint (cancel_sftp_transfer job_id) now = Endpoints.cancel_sftp_transfer uuid job_id
  perform_endpoint (containers_connect e payload) now = Endpoints.containers_connect uuid e payload
  perform_endpoint (containers_query type answer e payload) now =
      Endpoints.containers_query uuid type answer e payload
  perform_endpoint (containers_disconnect e) now = Endpoints.containers_disconnect uuid e
  perform_endpoint (probe_host_key payload) now = Endpoints.probe_host_key uuid payload
  perform_endpoint (start_port_forward input) now = Endpoints.start_port_forward uuid input now
  perform_endpoint (start_ssm_port_forward input) now =
      Endpoints.start_ssm_port_forward uuid input now
  perform_endpoint (stop_port_forward rule_id) now = Endpoints.stop_port_forward uuid rule_id

  unfoldable pub perform : Call → ℕ → CoreManager → CoreManager
  unfolding perform_session perform_endpoint continue Events.handle_control_event
      Process.report_stderr Requests.time_out Process.shutdown Process.process_exited
  perform (session c) now = perform_session c now
  perform (endpoint c) now = perform_endpoint c now
  perform (continued c) now = continue c now
  perform (event e) now = Events.handle_control_event uuid e now
  perform (stream_frame metadata payload) now = Process.broadcast_stream metadata payload
  perform (stderr trimmed) now = Process.report_stderr trimmed
  perform (timer request) now = Requests.time_out request
  perform shutdown now = Process.shutdown
  perform (exited message) now = Process.process_exited message now

  -- The calls so far, each with its time, from a new manager.
  unfoldable pub run : List (ℕ × Call) → CoreManager
  unfolding perform
  run [] = new_manager
  run ((now, call) ∷ calls) = let before = run calls in perform call now before
