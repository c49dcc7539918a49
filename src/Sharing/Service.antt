-- ===== src/Sharing/Service.antt =====
-- The service of apps/desktop/src/main/session-share-service.ts. A share is an object that event
-- handlers of its socket hold on to, also after another share has taken its place: `objects` are
-- all the shares ever made, a reference is an index into them, and `shares` maps sessions to
-- references. A method with an `await` is a definition for each part between two of them. What the
-- service tells its windows and the core is the list `outputs`.
use dolssh.Prelude.{
  get, Map, delete, ℕ, zero, suc, String, Bool, true, false, not, Option, none, some, List, [], ◌∷◌,
  ◌++◌, ◌==◌, ◌=ℕ=◌, ◌&&◌, ◌||◌, if◌then◌else◌, get_elem?, filter_by,
}
use dolssh.Prelude.Int.{ℤ, pos_part}
use dolssh.Workspace.Store.State.{
  SessionShareState, SessionShareChatMessage, ShareStatus, inactive, starting, active, error,
}
use dolssh.Sharing.Share.{
  OwnerMessage, Encoding, OwnerServerMessage, viewer_input, control_signal, viewer_count,
  input_enabled, chat_message, share_ended, opened, closing, Socket, ActiveSessionShare,
  append_owner_chat_message, greet,
}

pub data Output : Type 0 where
  state_event : String → SessionShareState → Output
  chat_event : String → SessionShareChatMessage → Output
  write_binary : String → Encoding → String → Output
  send_control_signal : String → String → Output

pub record Service : Type 0 where
  pub objects : List ActiveSessionShare
  pub shares : Map ℕ
  pub owner_chat_windows : List String
  pub outputs : List Output

abbrev pub update_at {ℓ} : {A : Type ℓ} → ℕ → (A → A) → List A → List A
update_at n f [] = []
update_at zero f (x ∷ xs) = f x ∷ xs
update_at (suc n) f (x ∷ xs) = x ∷ update_at n f xs

abbrev pub change : ℕ → (ActiveSessionShare → ActiveSessionShare) → Service → Service
change r f sv = record sv { objects = update_at r f sv.objects }

abbrev pub emit : Output → Service → Service
emit o sv = record sv { outputs = sv.outputs ++ o ∷ [] }

-- The reference is the one that the map has for the session.
abbrev pub is_current : Option ℕ → ℕ → Bool
is_current none r = false
is_current (some q) r = q =ℕ= r

abbrev pub is_active : ShareStatus → Bool
is_active inactive = false
is_active starting = false
is_active active = true
is_active error = false

abbrev pub clear_chat : Option ℕ → Service → Service
clear_chat none sv = sv
clear_chat (some r) sv = change r (λ share. record share { owner_chat_messages = [] }) sv

abbrev pub close_owner_chat_window : String → Service → Service
close_owner_chat_window session_id sv = record sv {
  owner_chat_windows = filter_by (λ id. not (id == session_id)) sv.owner_chat_windows;
}

unfoldable pub broadcast_state : String → SessionShareState → Service → Service
broadcast_state session_id state sv =
    let told = emit (state_event session_id state) sv in
    (if is_active state.status
      then told
      else close_owner_chat_window session_id (clear_chat (get session_id told.shares) told))

-- `share.state = …` and the broadcast after it.
abbrev pub set_state : ℕ → String → SessionShareState → Service → Service
set_state r session_id state sv =
    broadcast_state session_id state (change r (λ share. record share { state = state }) sv)

abbrev pub active_state : ActiveSessionShare → SessionShareState
active_state share = record {
  status = active;
  share_url = some share.share_url;
  input_enabled = share.input_enabled;
  viewer_count = share.viewer_count;
  error_message = none;
}

abbrev pub failed_state : ActiveSessionShare → String → SessionShareState
failed_state share message = record share.state { status = error; error_message = some message }

abbrev pub closed : Option Socket → Option Socket
closed none = none
closed (some socket) = some record socket { ready_state = closing }

abbrev pub close_socket : ActiveSessionShare → ActiveSessionShare
close_socket share = record share { socket = closed share.socket }

abbrev pub act_on :
    Option ActiveSessionShare → (ActiveSessionShare → Service → Service) → Service → Service
act_on none f sv = sv
act_on (some share) f sv = f share sv

abbrev pub connected : Option Socket → Option Socket
connected none = none
connected (some socket) = some record socket { ready_state = opened }

abbrev pub open_socket : ActiveSessionShare → ActiveSessionShare
open_socket share = record share { socket = connected share.socket }

-- What a method does to the share that a reference stands for.
abbrev pub with_share : ℕ → (ActiveSessionShare → Service → Service) → Service → Service
with_share r f sv = act_on (get_elem? sv.objects r) f sv

abbrev pub act_at : Option ℕ → (ℕ → ActiveSessionShare → Service → Service) → Service → Service
act_at none f sv = sv
act_at (some r) f sv = with_share r (f r) sv

-- What a method does to the share that the map has for a session.
abbrev pub with_session : String → (ℕ → ActiveSessionShare → Service → Service) → Service → Service
with_session session_id f sv = act_at (get session_id sv.shares) f sv

abbrev pub default_end : Option String → String
default_end none = "세션 공유가 종료되었습니다."
default_end (some message) = message

abbrev pub set_viewer_count : ℤ → ActiveSessionShare → ActiveSessionShare
set_viewer_count n s = record s { viewer_count = pos_part n }

abbrev pub set_input : Bool → ActiveSessionShare → ActiveSessionShare
set_input b s = record s { input_enabled = b }

abbrev pub close_ended : ActiveSessionShare → ActiveSessionShare
close_ended s = close_socket record s { closed_by_owner = true }

abbrev pub remember : SessionShareChatMessage → ActiveSessionShare → ActiveSessionShare
remember message s = record s {
  owner_chat_messages = append_owner_chat_message s.owner_chat_messages message;
}

abbrev pub open_owner_socket : ActiveSessionShare → ActiveSessionShare
open_owner_socket s = open_socket record s { owner_socket_open = true }

-- A message of the server, for the share that `r` refers to. Errors of the core are swallowed.
unfoldable pub handle_owner_server_message :
    ℕ → OwnerServerMessage → ActiveSessionShare → Service → Service
unfolding broadcast_state
handle_owner_server_message r (viewer_count n) share sv =
    set_state r share.session_id record share.state { viewer_count = pos_part n }
      (change r (set_viewer_count n) sv)
handle_owner_server_message r (input_enabled b) share sv =
    set_state r share.session_id record share.state { input_enabled = b }
      (change r (set_input b) sv)
handle_owner_server_message r (share_ended message) share sv =
    let told = set_state r share.session_id (failed_state share (default_end message)) sv in
    let ended = record told { shares = delete share.session_id told.shares } in
    change r close_ended ended
handle_owner_server_message r (chat_message message) share sv =
    emit (chat_event share.session_id message) (change r (remember message) sv)
handle_owner_server_message r (control_signal signal) share sv =
    if share.input_enabled && share.transport == "aws-ssm"
    then emit (send_control_signal share.session_id signal) sv
    else sv
handle_owner_server_message r (viewer_input encoding text) share sv =
    if share.input_enabled then emit (write_binary share.session_id encoding text) sv else sv

-- What the socket received: a message, or text that does not parse, with the error of the parser.
pub data Received : Type 0 where
  broken : String → Received
  message : OwnerServerMessage → Received

abbrev pub receive : ℕ → Received → ActiveSessionShare → Service → Service
receive r (broken e) share sv = set_state r share.session_id (failed_state share e) sv
receive r (message m) share sv = handle_owner_server_message r m share sv

abbrev pub lost_state : ActiveSessionShare → SessionShareState
lost_state share = failed_state share "세션 공유 연결이 종료되었습니다."

abbrev pub unopened_state : ActiveSessionShare → SessionShareState
unopened_state share = failed_state share "세션 공유 연결을 열지 못했습니다."

-- The socket's listeners. Its ready state changes with the events `open` and `close`.
unfoldable pub on_message : ℕ → Received → Service → Service
unfolding handle_owner_server_message
on_message r received = with_share r (λ share sv.
    if is_current (get share.session_id sv.shares) r then receive r received share sv else sv)

abbrev pub is_known : Option ℕ → Bool
is_known none = false
is_known (some r) = true

unfoldable pub on_close : ℕ → Service → Service
unfolding broadcast_state
on_close r = with_share r (λ share sv.
    if share.closed_by_owner || not (is_known (get share.session_id sv.shares))
    then change r close_socket sv
    else set_state r share.session_id (lost_state share) (change r close_socket sv))

unfoldable pub on_error : ℕ → Service → Service
unfolding broadcast_state
on_error r = with_share r (λ share sv.
    if is_known (get share.session_id sv.shares)
    then set_state r share.session_id (unopened_state share) sv
    else sv)

module _ (encode : OwnerMessage → String) where
  unfoldable pub on_open : ℕ → Service → Service
  unfolding broadcast_state greet
  on_open r = with_share r (λ share sv.
      if is_current (get share.session_id sv.shares) r
      then change r (greet encode)
          (set_state r share.session_id (active_state share) (change r open_owner_socket sv))
      else change r close_socket sv)
