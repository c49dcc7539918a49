-- ===== src/Sharing/Methods.antt =====
-- The methods that the windows and the core call: apps/desktop/src/main/session-share-service.ts.
-- What the server answers to a request is an argument of the part after the `await`.
use dolssh.Prelude.{
  get, delete, set, ℕ, String, Bool, true, false, Option, none, some, List, [], ◌∷◌, ◌++◌, ◌==◌,
  if◌then◌else◌, length, get_elem?, includes,
}
use dolssh.Workspace.Store.State.{
  SessionShareState, SessionShareChatMessage, ShareStatus, inactive, starting, active, error,
}
use dolssh.Workspace.Store.Shared.{inactive_share}
use dolssh.Sharing.Share.{
  OwnerMessage, snapshot, output, session_ended, connecting, ActiveSessionShare, enqueue_or_send,
}
use dolssh.Sharing.Service.{
  Service, set_input, change, is_active, broadcast_state, set_state, active_state, close_socket,
  with_share, with_session,
}

pub record StartInput : Type 0 where
  pub session_id : String
  pub title : String
  pub transport : String
  pub snapshot : String
  pub cols : ℕ
  pub rows : ℕ
  pub appearance : String
  pub viewport : Option String

abbrev pub starting_state : Option String → SessionShareState
starting_state url = record {
  status = starting;
  share_url = url;
  input_enabled = false;
  viewer_count = 0;
  error_message = none;
}

abbrev pub provisional_share : StartInput → ActiveSessionShare
provisional_share input = record {
  session_id = input.session_id;
  title = input.title;
  host_label = input.title;
  share_id = "";
  share_url = "";
  owner_token = "";
  transport = input.transport;
  input_enabled = false;
  viewer_count = 0;
  latest_snapshot = input.snapshot;
  cols = input.cols;
  rows = input.rows;
  appearance = input.appearance;
  viewport = input.viewport;
  socket = none;
  owner_socket_open = false;
  closed_by_owner = false;
  pending_messages = [];
  owner_chat_messages = [];
  is_e2e_fake = false;
  state = starting_state none;
}

abbrev pub is_running : ShareStatus → Bool
is_running inactive = false
is_running starting = true
is_running active = true
is_running error = false

abbrev pub running_state : Option ActiveSessionShare → Option SessionShareState
running_state none = none
running_state (some share) = if is_running share.state.status then some share.state else none

abbrev pub object_at : Service → Option ℕ → Option ActiveSessionShare
object_at sv none = none
object_at sv (some r) = get_elem? sv.objects r

-- `start`, first part: a share that starts or is active is answered as it is.
unfoldable pub start_existing : Service → String → Option SessionShareState
start_existing sv session_id = running_state (object_at sv (get session_id sv.shares))

-- `start`, after a failed share was stopped: the new object, and its reference.
unfoldable pub start_provisional : StartInput → Service → Service × ℕ
unfolding broadcast_state
start_provisional input sv =
    let r = length sv.objects in
    let placed = record sv {
      objects = sv.objects ++ provisional_share input ∷ [];
      shares = set input.session_id r sv.shares;
    } in
    (broadcast_state input.session_id (starting_state none) placed, r)

pub record CreateShareResponse : Type 0 where
  pub share_id : String
  pub viewer_url : String
  pub owner_token : String

abbrev pub begin_connecting : ActiveSessionShare → ActiveSessionShare
begin_connecting s = record s { socket = some record { ready_state = connecting; sent = [] } }

abbrev pub set_created : CreateShareResponse → ActiveSessionShare → ActiveSessionShare
set_created created s = record s {
  share_id = created.share_id;
  share_url = created.viewer_url;
  owner_token = created.owner_token;
}

abbrev pub failed_start : String → SessionShareState
failed_start message = record {
  status = error;
  share_url = none;
  input_enabled = false;
  viewer_count = 0;
  error_message = some message;
}

abbrev pub mark_closed : ActiveSessionShare → ActiveSessionShare
mark_closed s = record s { closed_by_owner = true }

abbrev pub toggled_state : Bool → ActiveSessionShare → SessionShareState
toggled_state enabled share = record share.state { input_enabled = enabled; error_message = none }

-- `start`, after the server made the share; the socket begins to connect.
unfoldable pub start_created : ℕ → CreateShareResponse → Service → Service
unfolding broadcast_state
start_created r created = with_share r (λ share sv. change r begin_connecting (
    set_state r share.session_id (starting_state (some created.viewer_url))
      (change r (set_created created) sv)))

-- `start`, where the request or the socket throws.
unfoldable pub start_failed : ℕ → String → Service → Service
unfolding broadcast_state
start_failed r message =
    with_share r (λ share sv. set_state r share.session_id (failed_start message) sv)

abbrev pub stop_at : String → Option ℕ → Service → Service
stop_at session_id none sv = broadcast_state session_id inactive_share sv
stop_at session_id (some r) sv =
    change r mark_closed record sv { shares = delete session_id sv.shares }

-- `stop`, up to its request.
unfoldable pub stop_begin : String → Service → Service
unfolding broadcast_state
stop_begin session_id sv = stop_at session_id (get session_id sv.shares) sv

-- `stop`, once its request has ended, with or without an error.
unfoldable pub stop_finish : ℕ → String → Service → Service
unfolding broadcast_state
stop_finish r session_id sv = broadcast_state session_id inactive_share (change r close_socket sv)

-- `setInputEnabled`, after its test that the share has an id and after its request.
unfoldable pub set_input_enabled : ℕ → Bool → Service → Service
unfolding broadcast_state
set_input_enabled r enabled = with_share r (λ share sv.
    set_state r share.session_id (toggled_state enabled share) (change r (set_input enabled) sv))

pub record SnapshotInput : Type 0 where
  pub session_id : String
  pub snapshot : String
  pub cols : ℕ
  pub rows : ℕ
  pub kind : String
  pub appearance : String
  pub viewport : Option String

pub data CoreEvent : Type 0 where
  closed : CoreEvent
  failed : CoreEvent
  connected : CoreEvent
  other : CoreEvent

abbrev pub keep_snapshot : SnapshotInput → ActiveSessionShare → ActiveSessionShare
keep_snapshot input s = record s {
  latest_snapshot = input.snapshot;
  cols = input.cols;
  rows = input.rows;
  appearance = input.appearance;
  viewport = input.viewport;
}

abbrev pub snapshot_message : SnapshotInput → OwnerMessage
snapshot_message input =
    snapshot input.snapshot input.cols input.rows input.kind input.appearance input.viewport

module _ (encode : OwnerMessage → String) where
  abbrev pub take_snapshot : SnapshotInput → ActiveSessionShare → ActiveSessionShare
  take_snapshot input s = enqueue_or_send encode (keep_snapshot input s) (snapshot_message input)

  unfoldable pub update_snapshot : SnapshotInput → Service → Service
  unfolding enqueue_or_send
  update_snapshot input =
      with_session input.session_id (λ r share sv. change r (take_snapshot input) sv)

  -- A chunk comes as its base64 text, which is empty only for no bytes.
  unfoldable pub handle_terminal_stream : String → String → Service → Service
  unfolding enqueue_or_send
  handle_terminal_stream session_id data_base64 = with_session session_id (λ r share sv.
      if data_base64 == ""
      then sv
      else change r (λ s. enqueue_or_send encode s (output data_base64)) sv)

  -- The event of a session, up to the request of `stop`.
  unfoldable pub handle_terminal_event : String → CoreEvent → Service → Service
  unfolding enqueue_or_send stop_begin broadcast_state
  handle_terminal_event session_id closed = with_session session_id (λ r share sv.
      stop_begin session_id (change r (λ s. enqueue_or_send encode s session_ended) sv))
  handle_terminal_event session_id failed = with_session session_id (λ r share sv.
      stop_begin session_id (change r (λ s. enqueue_or_send encode s session_ended) sv))
  handle_terminal_event session_id connected =
      with_session session_id (λ r share sv. set_state r session_id (active_state share) sv)
  handle_terminal_event session_id other = λ sv. sv

abbrev pub status_active : Option ActiveSessionShare → Bool
status_active none = false
status_active (some share) = is_active share.state.status

-- `openOwnerChatWindow`, where the window's page loads: at most one window for a session.
unfoldable pub open_owner_chat_window : String → Service → Service
open_owner_chat_window session_id sv =
    if status_active (object_at sv (get session_id sv.shares))
    then (if includes session_id sv.owner_chat_windows
        then sv
        else record sv { owner_chat_windows = session_id ∷ sv.owner_chat_windows })
    else sv

pub record OwnerChatSnapshot : Type 0 where
  pub session_id : String
  pub title : String
  pub state : SessionShareState
  pub messages : List SessionShareChatMessage

abbrev pub snapshot_of : String → Option ActiveSessionShare → OwnerChatSnapshot
snapshot_of session_id none = record {
  session_id = session_id;
  title = "";
  state = inactive_share;
  messages = [];
}
snapshot_of session_id (some share) = record {
  session_id = session_id;
  title = share.title;
  state = share.state;
  messages = share.owner_chat_messages;
}

unfoldable pub get_owner_chat_snapshot : Service → String → OwnerChatSnapshot
get_owner_chat_snapshot sv session_id =
    snapshot_of session_id (object_at sv (get session_id sv.shares))
