-- ===== src/Sharing/Share.antt =====
-- One shared session of apps/desktop/src/main/session-share-service.ts: its fields, the messages to
-- and from the server, and the queue of messages that wait for the owner's socket. The terminal's
-- appearance and viewport are texts that nothing reads. The socket is what the service sees of it:
-- its ready state, and the messages it was given.
use dolssh.Prelude.{
  ℕ, String, Bool, true, false, not, ◌&&◌, Option, none, some, List, [], ◌∷◌, ◌++◌, ltb, ◌==◌,
  if◌then◌else◌, length, last_of, filter_by,
}
use dolssh.Prelude.Int.{ℤ}
use dolssh.Workspace.Store.State.{SessionShareState, SessionShareChatMessage}

pub data OwnerMessage : Type 0 where
  hello :
      (title host_label transport : String) (cols rows : ℕ) (snapshot appearance : String)
      (viewport : Option String)
      → OwnerMessage
  snapshot :
      (snapshot : String) (cols rows : ℕ) (kind appearance : String) (viewport : Option String)
      → OwnerMessage
  output : (data_base64 : String) → OwnerMessage
  session_ended : OwnerMessage

pub data Encoding : Type 0 where
  utf8 binary : Encoding

pub data OwnerServerMessage : Type 0 where
  viewer_input : Encoding → String → OwnerServerMessage
  control_signal : String → OwnerServerMessage
  viewer_count : ℤ → OwnerServerMessage
  input_enabled : Bool → OwnerServerMessage
  chat_message : SessionShareChatMessage → OwnerServerMessage
  share_ended : Option String → OwnerServerMessage

pub data ReadyState : Type 0 where
  connecting opened closing : ReadyState

pub record Socket : Type 0 where
  pub ready_state : ReadyState
  pub sent : List String

pub record ActiveSessionShare : Type 0 where
  pub session_id : String
  pub title : String
  pub host_label : String
  pub share_id : String
  pub share_url : String
  pub owner_token : String
  pub transport : String
  pub input_enabled : Bool
  pub viewer_count : ℕ
  pub latest_snapshot : String
  pub cols : ℕ
  pub rows : ℕ
  pub appearance : String
  pub viewport : Option String
  pub socket : Option Socket
  pub owner_socket_open : Bool
  pub closed_by_owner : Bool
  pub pending_messages : List String
  pub owner_chat_messages : List SessionShareChatMessage
  pub is_e2e_fake : Bool
  pub state : SessionShareState

abbrev pub max_pending_owner_messages : ℕ
max_pending_owner_messages = 512

abbrev pub session_share_chat_history_limit : ℕ
session_share_chat_history_limit = 50

unfoldable pub append_owner_chat_message :
    List SessionShareChatMessage → SessionShareChatMessage → List SessionShareChatMessage
append_owner_chat_message messages message =
    let next_messages =
      filter_by (λ entry. not (entry.id == message.id)) messages ++ message ∷ [] in
    (if ltb session_share_chat_history_limit (length next_messages)
      then last_of session_share_chat_history_limit next_messages
      else next_messages)

abbrev pub is_open : ReadyState → Bool
is_open connecting = false
is_open opened = true
is_open closing = false

abbrev pub socket_is_open : Option Socket → Bool
socket_is_open none = false
socket_is_open (some socket) = is_open socket.ready_state

-- `socket.send`, on a socket that is open.
abbrev pub give : String → Option Socket → Option Socket
give encoded none = none
give encoded (some socket) = some record socket { sent = socket.sent ++ encoded ∷ [] }

-- The loop that shifts the oldest messages out.
unfoldable pub trim_pending : List String → List String
trim_pending [] = []
trim_pending (x ∷ xs) =
    if ltb max_pending_owner_messages (length (x ∷ xs)) then trim_pending xs else x ∷ xs

-- The loop that shifts the messages into the socket. Each is the JSON of an object, so that the
-- test for an empty one never holds.
unfoldable pub flush : List String → Option Socket → Option Socket
flush [] socket = socket
flush (x ∷ xs) socket = flush xs (give x socket)

module _ (encode : OwnerMessage → String) where
  unfoldable pub send_owner_message : ActiveSessionShare → OwnerMessage → ActiveSessionShare
  send_owner_message share message =
      if socket_is_open share.socket
      then record share { socket = give (encode message) share.socket }
      else share

  unfoldable pub enqueue_or_send : ActiveSessionShare → OwnerMessage → ActiveSessionShare
  unfolding send_owner_message trim_pending
  enqueue_or_send share message =
      if share.owner_socket_open && socket_is_open share.socket
      then send_owner_message share message
      else record share {
        pending_messages = trim_pending (share.pending_messages ++ encode message ∷ []);
      }

  -- What the open socket is given: the greeting, and the messages that waited.
  unfoldable pub greet : ActiveSessionShare → ActiveSessionShare
  unfolding send_owner_message flush
  greet share =
      let message =
        hello share.title share.host_label share.transport share.cols share.rows
          share.latest_snapshot share.appearance share.viewport in
      let greeted = send_owner_message share message in
      record greeted {
        socket = flush greeted.pending_messages greeted.socket;
        pending_messages = [];
      }
