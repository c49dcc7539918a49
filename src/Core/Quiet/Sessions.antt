-- ===== src/Core/Quiet/Sessions.antt =====
-- The operations on terminal sessions of apps/desktop/src/main/core-manager.ts wait for no answer.
use dolssh.Prelude.{
  ℕ, refl, String, not, ◌&&◌, ◌||◌, Option, none, some, List, get, is_some, if◌then◌else◌, arith,
}
use dolssh.Core.State.{Command, TerminalTab, Size, CoreManager, is_live, given}
use dolssh.Core.Sessions.{
  RemoteInput, open_remote, connect, connect_aws_session, connect_local_session, tab_is_live,
  is_aws, send_control_signal, signal_or_bytes, resolve_aws_ssm_control_signal, write_binary,
  is_size, flush_size, flush_resize_if_ready, is_positive, resize, disconnect_tab, disconnect,
  attach_remote_session_recording, start_process,
}
use dolssh.Core.Process.{respond_keyboard_interactive}
use dolssh.Core.Calls.{SessionCall, perform_session}
use dolssh.Core.Idle.{Idle-Quiet, attach_at-Idle}
use dolssh.Core.Quiet.{
  Quiet, quiet, Quiet-refl, Quiet-trans, Quiet-if, send_control-Quiet, send_stream-Quiet,
}

module _ (uuid : ℕ → String) where
  open_remote-Quiet :
      (input : RemoteInput) (command : Command) (now : ℕ) (st : CoreManager)
      → Quiet st (open_remote uuid input command now st)
  unfolding open_remote start_process
  open_remote-Quiet input command now st =
      Quiet-trans (quiet (omega arith) refl (λ k. refl) (λ h. refl)) (send_control-Quiet _ _)

  connect_local_session-Quiet :
      (title payload : String) (now : ℕ) (st : CoreManager)
      → Quiet st (connect_local_session uuid title payload now st)
  unfolding connect_local_session start_process
  connect_local_session-Quiet title payload now st =
      Quiet-trans (quiet (omega arith) refl (λ k. refl) (λ h. refl)) (send_control-Quiet _ _)

  send_control_signal-Quiet :
      (k signal : String) (st : CoreManager) → Quiet st (send_control_signal uuid k signal st)
  unfolding send_control_signal
  send_control_signal-Quiet k signal st =
      Quiet-if (tab_is_live (get k st.sessions.tabs) && is_aws (get k st.sessions.transport))
        (Quiet-trans (quiet (omega arith) refl (λ k. refl) (λ h. h)) (send_control-Quiet _ _))
        (Quiet-refl st)

  signal_or_bytes-Quiet :
      (o : Option String) (k : String) (bytes : List ℕ) (st : CoreManager)
      → Quiet st (signal_or_bytes uuid o k bytes st)
  signal_or_bytes-Quiet none k bytes st = send_stream-Quiet k bytes st
  signal_or_bytes-Quiet (some signal) k bytes st = send_control_signal-Quiet k signal st

  write_binary-Quiet :
      (k : String) (bytes : List ℕ) (st : CoreManager) → Quiet st (write_binary uuid k bytes st)
  unfolding write_binary
  write_binary-Quiet k bytes st =
      Quiet-if (tab_is_live (get k st.sessions.tabs))
        (Quiet-if (is_aws (get k st.sessions.transport))
          (signal_or_bytes-Quiet (resolve_aws_ssm_control_signal bytes) k bytes st)
          (send_stream-Quiet k bytes st))
        (Quiet-refl st)

  flush_size-Quiet :
      (o : Option Size) (k : String) (st : CoreManager) → Quiet st (flush_size uuid o k st)
  flush_size-Quiet none k st = Quiet-refl st
  flush_size-Quiet (some size) k st =
      Quiet-if (is_size (get k st.sessions.sent_resize) size) (Quiet-refl st)
        (Quiet-trans (quiet (omega arith) refl (λ k. refl) (λ h. h)) (send_control-Quiet _ _))

  pub flush_resize_if_ready-Quiet :
      (k : String) (st : CoreManager) → Quiet st (flush_resize_if_ready uuid k st)
  unfolding flush_resize_if_ready
  flush_resize_if_ready-Quiet k st =
      Quiet-if (tab_is_live (get k st.sessions.tabs))
        (flush_size-Quiet (get k st.sessions.desired_resize) k st) (Quiet-refl st)

  resize-Quiet : (k : String) (size : Size) (st : CoreManager) → Quiet st (resize uuid k size st)
  unfolding resize
  resize-Quiet k size st =
      Quiet-if
        (is_some (get k st.sessions.tabs) && (is_positive size.cols && is_positive size.rows))
        (Quiet-trans
          (Quiet-if (is_size (get k st.sessions.desired_resize) size) (Quiet-refl st)
            (quiet (omega arith) refl (λ k. refl) (λ h. h)))
          (flush_resize_if_ready-Quiet k _))
        (Quiet-refl st)

  disconnect_tab-Quiet :
      (o : Option TerminalTab) (k : String) (st : CoreManager)
      → Quiet st (disconnect_tab uuid o k st)
  disconnect_tab-Quiet none k st = Quiet-refl st
  disconnect_tab-Quiet (some tab) k st =
      Quiet-if (not st.is_running || not (is_live tab.status))
        (quiet (omega arith) refl (λ k. refl) (λ h. h))
        (Quiet-trans (quiet (omega arith) refl (λ k. refl) (λ h. h)) (send_control-Quiet _ _))

  disconnect-Quiet : (k : String) (st : CoreManager) → Quiet st (disconnect uuid k st)
  unfolding disconnect
  disconnect-Quiet k st =
      Quiet-trans (quiet (omega arith) refl (λ k. refl) (λ h. h))
        (disconnect_tab-Quiet (get k st.sessions.tabs) k _)

  respond_keyboard_interactive-Quiet :
      (k e : Option String) (payload : String) (st : CoreManager)
      → Quiet st (respond_keyboard_interactive uuid k e payload st)
  unfolding respond_keyboard_interactive start_process
  respond_keyboard_interactive-Quiet k e payload st =
      Quiet-if (if is_some (given k) then is_some (given e) else not (is_some (given e)))
        (quiet (omega arith) refl (λ k. refl) (λ h. h))
        (Quiet-trans (quiet (omega arith) refl (λ k. refl) (λ h. refl)) (send_control-Quiet _ _))

pub perform_session-Quiet :
    (uuid : ℕ → String) (c : SessionCall) (now : ℕ) (st : CoreManager)
    → Quiet st (perform_session uuid c now st)
unfolding perform_session connect connect_aws_session attach_remote_session_recording
perform_session-Quiet uuid (SessionCall.connect input) now st = open_remote-Quiet uuid _ _ now st
perform_session-Quiet uuid (SessionCall.connect_aws_session input) now st =
    open_remote-Quiet uuid _ _ now st
perform_session-Quiet uuid (SessionCall.connect_local_session title payload) now st =
    connect_local_session-Quiet uuid title payload now st
perform_session-Quiet uuid (SessionCall.write_binary k bytes) now st =
    write_binary-Quiet uuid k bytes st
perform_session-Quiet uuid (SessionCall.send_control_signal k signal) now st =
    send_control_signal-Quiet uuid k signal st
perform_session-Quiet uuid (SessionCall.resize k size) now st = resize-Quiet uuid k size st
perform_session-Quiet uuid (SessionCall.disconnect k) now st = disconnect-Quiet uuid k st
perform_session-Quiet uuid (SessionCall.attach_recording k id) now st =
    Idle-Quiet (attach_at-Idle (get k st.sessions.lifecycle) k id now st)
perform_session-Quiet uuid (SessionCall.respond_keyboard_interactive k e payload) now st =
    respond_keyboard_interactive-Quiet uuid k e payload st
