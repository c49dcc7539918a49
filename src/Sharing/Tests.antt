-- ===== src/Sharing/Tests.antt =====
-- A shared session from its start to a viewer's input, and the theorems at it.
use dolssh.Prelude.{
  get, set, delete, String-discrete, arith, ◌≡◌, refl, String, true, none, some, [], ◌∷◌,
}
use dolssh.Sharing.Share.{
  OwnerMessage, hello, snapshot, output, session_ended, utf8, input_enabled, viewer_input, opened,
  connecting, ActiveSessionShare, greet,
}
use dolssh.Sharing.Service.{
  Service, message, write_binary, open_socket, on_open, on_message, on_error, broadcast_state,
}
use dolssh.Sharing.Methods.{
  open_owner_chat_window, StartInput, CreateShareResponse, provisional_share, set_created,
  begin_connecting, start_provisional, start_created, handle_terminal_stream, stop_begin,
  stop_finish,
}
use dolssh.Sharing.Queue.{enqueue_all, greet-enqueue_all}
use dolssh.Sharing.Ownership.{WellKept}
use dolssh.Sharing.Steps.{
  empty_service, Reach, start, next, provisions, creates, opens, receives, streams,
}
use dolssh.Sharing.Reached.{Reach-WellKept}
use dolssh.Sharing.Relay.{core_calls}

abbrev kind_name : OwnerMessage → String
kind_name (hello t h p c r s a v) = "hello"
kind_name (snapshot s c r k a v) = "snapshot"
kind_name (output text) = text
kind_name session_ended = "ended"

abbrev first_input : StartInput
first_input = record {
  session_id = "s";
  title = "host";
  transport = "ssh";
  snapshot = "";
  cols = 80;
  rows = 24;
  appearance = "";
  viewport = none;
}

abbrev response : CreateShareResponse
response = record { share_id = "1"; viewer_url = "u"; owner_token = "t" }

abbrev shared : Service
shared = start_created 0 response (start_provisional first_input empty_service).0

abbrev live : Service
live =
    on_message 0 (message (input_enabled true))
      (on_open kind_name 0 (handle_terminal_stream kind_name "s" "a" shared))

live_reached : Reach kind_name live
live_reached =
    next
      (next
        (next (next (next start (provisions empty_service first_input)) (creates _ 0 response))
          (streams shared "s" "a"))
        (opens _ 0))
      (receives _ 0 (message (input_enabled true)))

Reach-WellKept_example : WellKept live
Reach-WellKept_example = Reach-WellKept kind_name live_reached

abbrev typed : Service
typed = on_message 0 (message (viewer_input utf8 "ls")) live

-- The viewer's text reaches the core.
typed_calls : core_calls typed.outputs ≡ write_binary "s" utf8 "ls" ∷ []
unfolding get set on_message on_open handle_terminal_stream start_created start_provisional
    String-discrete
typed_calls = refl

abbrev waiting : ActiveSessionShare
waiting = begin_connecting (set_created response (provisional_share first_input))

greet-enqueue_all_example :
    greet kind_name (open_socket (enqueue_all kind_name waiting (output "a" ∷ output "b" ∷ [])))
    ≡ record waiting {
      socket = some record { ready_state = opened; sent = "hello" ∷ "a" ∷ "b" ∷ [] };
      pending_messages = [];
    }
greet-enqueue_all_example =
    greet-enqueue_all kind_name waiting record { ready_state = connecting; sent = [] }
      (output "a" ∷ output "b" ∷ []) refl refl (omega arith)

-- A session that is shared again, and the socket of its first share, which reports an error late.
abbrev restarted : Service
restarted = open_owner_chat_window "s" (
    on_open kind_name 1 (
      start_created 1 response
        (start_provisional first_input (stop_finish 0 "s" (stop_begin "s" shared))).0))

restarted_window : restarted.owner_chat_windows ≡ "s" ∷ []
unfolding get set delete on_open start_created start_provisional open_owner_chat_window stop_finish
    stop_begin broadcast_state String-discrete
restarted_window = refl

late_error : (on_error 0 restarted).owner_chat_windows ≡ []
unfolding get restarted_window on_error
late_error = refl
