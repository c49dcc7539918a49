-- ===== src/Core/Process.antt =====
-- The core process's output and its end: consumeStdout, broadcastStream, the listeners of `start`,
-- shutdown and clearRuntimeState, and respondKeyboardInteractive, of
-- apps/desktop/src/main/core-manager.ts.
use dolssh.Prelude.{
  ℕ, suc, String, true, false, not, Option, none, some, List, [], ◌∷◌, ◌==◌, if◌then◌else◌, keys,
  values, is_some,
}
use dolssh.Framing.{Frame, control, stream, Pushed, returned, threw, push}
use dolssh.Core.State.{
  CoreEventType, CoreEvent, Command, TransferStatus, TransferJob, ForwardStatus,
  PortForwardRuntimeRecord, Effect, terminal_event, terminal_data, transfer_event,
  port_forward_event, thrown, one_target, CoreManager, no_sessions, no_endpoints, emit, given,
  send_control,
}
use dolssh.Core.Sessions.{start_process, no_payload, message_payload, session_event}
use dolssh.Core.Requests.{reject_all_pending}
use dolssh.Core.Events.{handle_control_event}

-- A frame's metadata: the fields of an event, and those of a stream frame.
pub record Metadata : Type 0 where
  pub event : CoreEvent
  pub type : String
  pub session_id : String

abbrev pub broadcast_stream : Metadata → List ℕ → CoreManager → CoreManager
broadcast_stream metadata payload st =
    if metadata.type == "data" then emit (terminal_data metadata.session_id payload) st else st

-- The manager with its parser, which is its buffer.
pub record Reader : Type 0 where
  pub manager : CoreManager
  pub buffer : List ℕ

-- A frame's metadata is a value of JSON; `read` takes the fields of an event and of a stream frame.
module _ {M : Type 0} (uuid : ℕ → String) (read : M → Metadata) where
  abbrev pub handle_frame : Frame M → ℕ → CoreManager → CoreManager
  handle_frame (control metadata) now st = handle_control_event uuid (read metadata).event now st
  handle_frame (stream metadata payload) now st = broadcast_stream (read metadata) payload st

  unfoldable pub handle_frames : List (Frame M) → ℕ → CoreManager → CoreManager
  handle_frames [] now st = st
  handle_frames (frame ∷ frames) now st = handle_frames frames now (handle_frame frame now st)

  -- A throw of the parser leaves the listener, and the frames of the chunk are lost.
  abbrev pub handle_pushed : Pushed M → ℕ → CoreManager → Reader
  handle_pushed (returned frames buffer) now st = record {
    manager = handle_frames frames now st;
    buffer = buffer;
  }
  handle_pushed (threw x buffer) now st = record { manager = st; buffer = buffer }

  unfoldable pub consume_stdout : (List ℕ → Option M) → List ℕ → ℕ → Reader → Reader
  unfolding handle_frames
  consume_stdout parse chunk now r = handle_pushed (push parse r.buffer chunk) now r.manager

-- What the core writes to its standard error, without the spaces around it.
unfoldable pub report_stderr : (trimmed : String) → CoreManager → CoreManager
report_stderr trimmed = emit (
    terminal_event record {
      type = CoreEventType.error;
      request_id = none;
      session_id = none;
      endpoint_id = none;
      job_id = none;
      payload = message_payload (if trimmed == "" then "SSH core error" else trimmed);
    })

unfoldable pub clear_runtime_state : CoreManager → CoreManager
clear_runtime_state st = record st { sessions = no_sessions; endpoints = no_endpoints }

abbrev pub close_each : List String → (message : String) → List Effect → List Effect
close_each [] message es = es
close_each (k ∷ ks) message es =
    close_each ks message
      (terminal_event (session_event CoreEventType.closed k (message_payload message)) ∷ es)

abbrev pub fail_jobs : List TransferJob → (message : String) → ℕ → List Effect → List Effect
fail_jobs [] message now es = es
fail_jobs (job ∷ jobs) message now es = fail_jobs jobs message now (
    transfer_event
      record job { status = TransferStatus.failed; updated_at = now; error_message = some message }
    ∷ es)

abbrev pub fail_forwards :
    List PortForwardRuntimeRecord → (message : String) → ℕ → List Effect → List Effect
fail_forwards [] message now es = es
fail_forwards (r ∷ rs) message now es = fail_forwards rs message now (
    port_forward_event
      record r { status = ForwardStatus.error; updated_at = now; message = some message }
    ∷ es)

abbrev pub stopped_event : String → CoreEvent
stopped_event message = record {
  type = CoreEventType.status;
  request_id = none;
  session_id = none;
  endpoint_id = none;
  job_id = none;
  payload = record no_payload { message = some message; rest = "stopped" };
}

unfoldable pub announce_exit : (message : String) → ℕ → CoreManager → CoreManager
announce_exit message now st = record st {
  effects =
      terminal_event (stopped_event message)
      ∷ fail_forwards (values st.endpoints.forward_runtimes) message now (
          fail_jobs (values st.endpoints.transfer_jobs) message now
            (close_each (keys st.sessions.tabs) message st.effects));
}

-- The listener on the end of the process, with the message that names its code and signal.
unfoldable pub core_exited : (message : String) → ℕ → CoreManager → CoreManager
unfolding announce_exit reject_all_pending clear_runtime_state
core_exited message now st =
    let announced = if st.is_shutting_down then st else announce_exit message now st in
    record (clear_runtime_state (reject_all_pending message announced)) {
      is_running = false;
      is_shutting_down = false;
    }

-- `shutdown` up to the end of the process, which it then waits for; a second call waits for the same.
unfoldable pub shutdown : CoreManager → CoreManager
unfolding clear_runtime_state
shutdown st =
    if st.is_running then record st { is_shutting_down = true } else clear_runtime_state st

-- What the listener of `shutdown` does after that of `start`.
unfoldable pub shutdown_finished : CoreManager → CoreManager
unfolding clear_runtime_state
shutdown_finished st = record (clear_runtime_state st) {
  is_running = false;
  is_shutting_down = false;
}

-- The end of the process: `shutdown` adds its listener behind that of `start`.
unfoldable pub process_exited : (message : String) → ℕ → CoreManager → CoreManager
unfolding core_exited shutdown_finished
process_exited message now st =
    let ended = core_exited message now st in
    if st.is_shutting_down then shutdown_finished ended else ended

unfoldable pub respond_keyboard_interactive :
    (ℕ → String)
    → (session_id endpoint_id : Option String) → (payload : String) → CoreManager
    → CoreManager
unfolding send_control start_process
respond_keyboard_interactive uuid session_id endpoint_id payload st =
    let has_session = is_some (given session_id) in
    let has_endpoint = is_some (given endpoint_id) in
    if (if has_session then has_endpoint else not has_endpoint)
    then emit (thrown one_target) st
    else send_control
        record {
          id = uuid st.next_uuid;
          command = Command.keyboard_interactive_respond payload;
          session_id = given session_id;
          endpoint_id = given endpoint_id;
          job_id = none;
        }
        record (start_process st) { next_uuid = suc st.next_uuid }
