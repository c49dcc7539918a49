-- ===== src/Core/Sessions/Input.antt =====
-- What is typed in a terminal session, its size and its end: write, writeBinary, sendControlSignal,
-- resize, flushResizeIfReady and disconnect of apps/desktop/src/main/core-manager.ts.
use dolssh.Prelude.{
  ℕ, zero, suc, String, Bool, true, false, not, ◌&&◌, ◌||◌, Option, none, some, List, [], ◌∷◌,
  ◌=ℕ=◌, if◌then◌else◌, get, set, delete, is_some,
}
use dolssh.Prelude.Int.{ℤ, pos, negsuc}
use dolssh.Core.State.{
  CoreEventType, Size, resize as resize_command, control_signal, disconnect as disconnect_command,
  SessionTransport, ssh, aws_ssm, warpgate, local_shell, TerminalTab, terminal_event, Sessions,
  CoreManager, emit, is_live, send_control, send_stream,
}
use dolssh.Core.Sessions.Opening.{change_sessions, request_for, session_event, message_payload}

abbrev pub is_aws : Option SessionTransport → Bool
is_aws none = false
is_aws (some ssh) = false
is_aws (some aws_ssm) = true
is_aws (some warpgate) = false
is_aws (some local_shell) = false

abbrev pub tab_is_live : Option TerminalTab → Bool
tab_is_live none = false
tab_is_live (some tab) = is_live tab.status

abbrev pub byte_signal : ℕ → Option String
byte_signal b =
    if b =ℕ= 3
    then some "interrupt"
    else (if b =ℕ= 26 then some "suspend" else (if b =ℕ= 28 then some "quit" else none))

unfoldable pub resolve_aws_ssm_control_signal : List ℕ → Option String
resolve_aws_ssm_control_signal [] = none
resolve_aws_ssm_control_signal (b ∷ []) = byte_signal b
resolve_aws_ssm_control_signal (b ∷ c ∷ bs) = none

abbrev pub same_number : ℤ → ℤ → Bool
same_number (pos m) (pos n) = m =ℕ= n
same_number (pos m) (negsuc n) = false
same_number (negsuc m) (pos n) = false
same_number (negsuc m) (negsuc n) = m =ℕ= n

abbrev pub is_size : Option Size → Size → Bool
is_size none size = false
is_size (some s) size = same_number s.cols size.cols && same_number s.rows size.rows

abbrev pub is_positive : ℤ → Bool
is_positive (pos zero) = false
is_positive (pos (suc n)) = true
is_positive (negsuc n) = false

abbrev pub forget_sizes : String → Sessions → Sessions
forget_sizes k s = record s {
  desired_resize = delete k s.desired_resize;
  sent_resize = delete k s.sent_resize;
}

module _ (uuid : ℕ → String) where
  unfoldable pub send_control_signal : String → String → CoreManager → CoreManager
  unfolding send_control
  send_control_signal session_id signal st =
      if tab_is_live (get session_id st.sessions.tabs)
        && is_aws (get session_id st.sessions.transport)
      then send_control (request_for uuid st.next_uuid session_id (control_signal signal))
          record st { next_uuid = suc st.next_uuid }
      else st

  abbrev pub signal_or_bytes : Option String → String → List ℕ → CoreManager → CoreManager
  signal_or_bytes none session_id payload = send_stream session_id payload
  signal_or_bytes (some signal) session_id payload = send_control_signal session_id signal

  -- `writeBinary`; `write` does the same with the bytes of its text.
  unfoldable pub write_binary : String → List ℕ → CoreManager → CoreManager
  unfolding send_stream send_control_signal resolve_aws_ssm_control_signal
  write_binary session_id payload st =
      if tab_is_live (get session_id st.sessions.tabs)
      then (if is_aws (get session_id st.sessions.transport)
          then signal_or_bytes (resolve_aws_ssm_control_signal payload) session_id payload st
          else send_stream session_id payload st)
      else st

  abbrev pub flush_size : Option Size → String → CoreManager → CoreManager
  flush_size none session_id st = st
  flush_size (some size) session_id st =
      if is_size (get session_id st.sessions.sent_resize) size
      then st
      else send_control (request_for uuid st.next_uuid session_id (resize_command size)) (
          change_sessions (λ s. record s { sent_resize = set session_id size s.sent_resize })
            record st { next_uuid = suc st.next_uuid })

  unfoldable pub flush_resize_if_ready : String → CoreManager → CoreManager
  unfolding send_control
  flush_resize_if_ready session_id st =
      if tab_is_live (get session_id st.sessions.tabs)
      then flush_size (get session_id st.sessions.desired_resize) session_id st
      else st

  unfoldable pub resize : String → Size → CoreManager → CoreManager
  unfolding flush_resize_if_ready
  resize session_id size st =
      if is_some (get session_id st.sessions.tabs)
        && (is_positive size.cols && is_positive size.rows)
      then flush_resize_if_ready session_id (
          if is_size (get session_id st.sessions.desired_resize) size
          then st
          else change_sessions
              (λ s. record s { desired_resize = set session_id size s.desired_resize }) st)
      else st

  abbrev pub disconnect_tab : Option TerminalTab → String → CoreManager → CoreManager
  disconnect_tab none session_id st = st
  disconnect_tab (some tab) session_id st =
      if not st.is_running || not (is_live tab.status)
      then emit
          (terminal_event (
            session_event CoreEventType.closed session_id
              (message_payload "client requested disconnect")))
          (change_sessions
            (λ s. record s {
              transport = delete session_id s.transport;
              tabs = delete session_id s.tabs;
            })
            st)
      else send_control (request_for uuid st.next_uuid session_id disconnect_command)
          record st { next_uuid = suc st.next_uuid }

  unfoldable pub disconnect : String → CoreManager → CoreManager
  unfolding send_control
  disconnect session_id st =
      disconnect_tab (get session_id st.sessions.tabs) session_id
        (change_sessions (forget_sizes session_id) st)
