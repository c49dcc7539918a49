-- ===== src/Core/Requests.antt =====
-- Requests that wait for an answer of the core: requestResponse, resolvePendingResponse and
-- rejectAllPending of apps/desktop/src/main/core-manager.ts. What settles a promise is an effect, and
-- `pending_responses` keeps the types of event that answer a request.
use dolssh.Prelude.{
  value_or, ℕ, String, Bool, true, false, ◌||◌, Option, none, some, List, [], ◌∷◌, ◌=ℕ=◌,
  if◌then◌else◌, get, set, delete, keys, is_some,
}
use Prim.Native.String
use dolssh.Core.State.{
  CoreEventType, CoreEvent, Command, CoreRequest, Effect, resolved, rejected, thrown, not_running,
  CoreManager, emit, given, send_control,
}

-- The types of event have a number each, by which they are compared.
abbrev pub type_code : CoreEventType → ℕ
type_code CoreEventType.status = 0
type_code CoreEventType.connected = 1
type_code CoreEventType.closed = 2
type_code CoreEventType.error = 3
type_code CoreEventType.data_event = 4
type_code CoreEventType.host_key_probed = 5
type_code CoreEventType.keyboard_interactive_challenge = 6
type_code CoreEventType.keyboard_interactive_resolved = 7
type_code CoreEventType.port_forward_started = 8
type_code CoreEventType.port_forward_stopped = 9
type_code CoreEventType.port_forward_error = 10
type_code CoreEventType.sftp_connected = 11
type_code CoreEventType.sftp_disconnected = 12
type_code CoreEventType.sftp_listed = 13
type_code CoreEventType.sftp_ack = 14
type_code CoreEventType.sftp_error = 15
type_code CoreEventType.sftp_transfer_progress = 16
type_code CoreEventType.sftp_transfer_completed = 17
type_code CoreEventType.sftp_transfer_failed = 18
type_code CoreEventType.sftp_transfer_cancelled = 19
type_code CoreEventType.containers_connected = 20
type_code CoreEventType.containers_disconnected = 21
type_code CoreEventType.containers_listed = 22
type_code CoreEventType.containers_inspected = 23
type_code CoreEventType.containers_logs = 24
type_code CoreEventType.containers_action_completed = 25
type_code CoreEventType.containers_stats = 26
type_code CoreEventType.containers_logs_searched = 27
type_code CoreEventType.containers_error = 28

abbrev pub expects : List CoreEventType → CoreEventType → Bool
expects [] type = false
expects (t ∷ types) type = if type_code t =ℕ= type_code type then true else expects types type

-- The types that reject whatever waits.
abbrev pub is_failure : CoreEventType → Bool
is_failure type =
    (type_code type =ℕ= 3)
    || ((type_code type =ℕ= 15) || ((type_code type =ℕ= 10) || (type_code type =ℕ= 28)))

-- The type of a request, as the wire spells it.
abbrev pub command_name : Command → String
command_name (Command.connect payload) = "connect"
command_name (Command.aws_connect payload) = "awsConnect"
command_name (Command.local_connect payload) = "localConnect"
command_name (Command.resize size) = "resize"
command_name (Command.control_signal signal) = "controlSignal"
command_name Command.disconnect = "disconnect"
command_name (Command.keyboard_interactive_respond payload) = "keyboardInteractiveRespond"
command_name (Command.port_forward_start payload) = "portForwardStart"
command_name (Command.ssm_port_forward_start payload) = "ssmPortForwardStart"
command_name Command.port_forward_stop = "portForwardStop"
command_name Command.ssm_port_forward_stop = "ssmPortForwardStop"
command_name (Command.sftp_connect payload) = "sftpConnect"
command_name (Command.sftp_list path) = "sftpList"
command_name (Command.sftp_change type payload) = type
command_name Command.sftp_disconnect = "sftpDisconnect"
command_name (Command.sftp_transfer_start payload) = "sftpTransferStart"
command_name Command.sftp_transfer_cancel = "sftpTransferCancel"
command_name (Command.containers_connect payload) = "containersConnect"
command_name Command.containers_disconnect = "containersDisconnect"
command_name (Command.containers_query type payload) = type
command_name (Command.probe_host_key payload) = "probeHostKey"

-- A request that is about to be waited for; its timer is the step `time_out`.
unfoldable pub request_response : CoreRequest → List CoreEventType → CoreManager → CoreManager
unfolding send_control
request_response request expected_types st =
    if st.is_running
    then send_control request
        record st { pending_responses = set request.id expected_types st.pending_responses }
    else emit (thrown not_running) st

abbrev pub settle : String → Effect → CoreManager → CoreManager
settle id e st = emit e record st { pending_responses = delete id st.pending_responses }

-- The timer of a request. Every way to settle a request calls clearTimeout, so that its timer only runs
-- while the request waits: the test stands for that.
unfoldable pub time_out : CoreRequest → CoreManager → CoreManager
time_out request st =
    if is_some (get request.id st.pending_responses)
    then settle request.id
        (rejected request.id
          (String.◌++◌ "Timed out waiting for SSH core response: " (command_name request.command)))
        st
    else st

abbrev pub resolve_at : Option (List CoreEventType) → String → CoreEvent → CoreManager → CoreManager
resolve_at none id event st = st
resolve_at (some expected_types) id event st =
    if is_failure event.type
    then settle id (rejected id (value_or event.payload.message "SSH core error")) st
    else (if expects expected_types event.type
        then settle id (resolved id event.payload) st
        else st)

abbrev pub resolve_for : Option String → CoreEvent → CoreManager → CoreManager
resolve_for none event st = st
resolve_for (some id) event st = resolve_at (get id st.pending_responses) id event st

unfoldable pub resolve_pending_response : CoreEvent → CoreManager → CoreManager
resolve_pending_response event st = resolve_for (given event.request_id) event st

unfoldable pub reject_each : List String → String → CoreManager → CoreManager
reject_each [] message st = st
reject_each (id ∷ ids) message st = reject_each ids message (settle id (rejected id message) st)

-- `rejectAllPending`.
unfoldable pub reject_all_pending : String → CoreManager → CoreManager
unfolding reject_each
reject_all_pending message st = reject_each (keys st.pending_responses) message st
