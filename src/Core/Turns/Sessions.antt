-- ===== src/Core/Turns/Sessions.antt =====
-- The methods and events of apps/desktop/src/main/core-manager.ts that are about sessions, as turns.
use dolssh.Prelude.{
  ℕ, ◌≡◌, refl, ap, String, not, ◌&&◌, ◌||◌, Option, none, some, ◌=ℕ=◌, ◌∙◌, inl, inr, Bool-cases,
  ==_iff, get, is_some, delete-here, delete-other, arith,
}
use dolssh.Core.State.{
  Command, CoreEvent, SessionTransport, RemoteSessionLifecycleState, TerminalTab, Size, CoreManager,
  TabStatus, emit, terminal_event, is_live, given, send_control,
}
use dolssh.Core.Sessions.{
  start_process, change_sessions, forget_sizes, RemoteInput, open_remote, connect,
  connect_aws_session, connect_local_session, tab_is_live, is_size, is_positive,
  flush_resize_if_ready, resize, disconnect_tab, disconnect, attach_remote_session_recording,
}
use dolssh.Core.Requests.{type_code, resolve_pending_response}
use dolssh.Core.Events.{
  forget_tab, lifecycle_of_remote, transport_label, update_tab, change_session,
  handle_session_event, handle_about, is_transfer_event, is_forward_event, handle_control_event,
}
use dolssh.Core.Calls.{SessionCall, perform_session}
use dolssh.Core.Sound.{Sound}
use dolssh.Core.Idle.{
  Idle-Apart, attach_at-Idle, log_closed-Idle, log_connected-Idle, log_failed-Idle,
  handle_forward_event-Idle, handle_transfer_event-Idle, handle_endpoint_event-Idle,
}
use dolssh.Core.Sound.Requested.{resolve_pending_response-Apart}
use dolssh.Core.Sound.Sizes.{flush_size-tab}
use dolssh.Core.Sound.Runs.{
  write_binary-Apart, send_control_signal-Apart, respond_keyboard_interactive-Apart,
}
use dolssh.Core.Turns.{
  Turn, Turn-if, same-Turn, Apart-Turn, Idle-Turn, set-Turn, lost-Turn, emit-Turn, then-Turn,
  closed-counts,
}
use dolssh.Core.Closing.{closes-log_closed, closes-resolve_pending_response}
use dolssh.Core.Phases.{
  begins, SameTabs, status_phase, stays, Apart-SameTabs, SameTabs-if, SameTabs-trans,
  connected-Allowed, failed-Allowed,
}

module _ (uuid : ℕ → String) where
  flush-SameTabs : (k : String) (st : CoreManager) → SameTabs st (flush_resize_if_ready uuid k st)
  unfolding flush_resize_if_ready
  flush-SameTabs k st =
      SameTabs-if (tab_is_live (get k st.sessions.tabs))
        record {
          same_tab =
              λ j. ap (get j) (flush_size-tab uuid (get k st.sessions.desired_resize) k st).0;
        }
        record { same_tab = λ j. refl }

  resize-SameTabs :
      (k : String) (size : Size) (st : CoreManager) → SameTabs st (resize uuid k size st)
  unfolding resize
  resize-SameTabs k size st =
      SameTabs-if
        (is_some (get k st.sessions.tabs) && (is_positive size.cols && is_positive size.rows))
        (SameTabs-trans
          (SameTabs-if (is_size (get k st.sessions.desired_resize) size)
            record { same_tab = λ j. refl } record { same_tab = λ j. refl })
          (flush-SameTabs k _))
        record { same_tab = λ j. refl }

  disconnect_tab-Turn :
      (o : Option TerminalTab) (k : String) (st : CoreManager)
      → Turn st (disconnect_tab uuid o k st)
  unfolding send_control
  disconnect_tab-Turn none k st = same-Turn record { same_tab = λ j. refl }
  disconnect_tab-Turn (some tab) k st =
      let r = (==_iff k k).1 refl in
      Turn-if (not st.is_running || not (is_live tab.status))
        (lost-Turn k (λ j h. delete-other j k st.sessions.tabs h) (delete-here k st.sessions.tabs)
          (ground (arith, r)))
        (Turn-if st.is_running (same-Turn record { same_tab = λ j. refl })
          (same-Turn record { same_tab = λ j. refl }))

  update_tab-Turn :
      (type : ℕ) (tab : TerminalTab) (transport : Option SessionTransport)
      (remote : Option RemoteSessionLifecycleState) (k : String) (event : CoreEvent) (now : ℕ)
      (st : CoreManager)
      → get k st.sessions.tabs ≡ some tab
      → Turn st (update_tab uuid type tab transport remote k event now st)
  update_tab-Turn type tab transport remote k event now st h =
      Turn-if (type =ℕ= 1)
        (set-Turn k record tab { status = TabStatus.connected; last_event_at = now }
          (SameTabs-trans (flush-SameTabs k _) (
            Apart-SameTabs (
              Idle-Apart (log_connected-Idle remote k (transport_label transport) now _)))).same_tab
          (rw h (connected-Allowed tab.status)))
        (Turn-if (type =ℕ= 3)
          (set-Turn k _
            (Apart-SameTabs (
              Idle-Apart
                (log_failed-Idle remote k (transport_label transport) event now _))).same_tab
            (rw h (failed-Allowed tab.status)))
          (set-Turn k _ (λ j. refl) (rw h (stays (status_phase tab.status)))))

  change_session-Turn :
      (o : Option TerminalTab) (k : String) (event : CoreEvent) (now : ℕ) (st : CoreManager)
      → given event.session_id ≡ some k
      → get k st.sessions.tabs ≡ o
      → Turn st (emit (terminal_event event) (change_session uuid o k event now st))
  change_session-Turn none k event now st g h = emit-Turn event (
      Turn-if (type_code event.type =ℕ= 2) (same-Turn record { same_tab = λ j. refl })
        (same-Turn record { same_tab = λ j. refl }))
  change_session-Turn (some tab) k event now st g h =
      let transport = get k st.sessions.transport in
      let remote = lifecycle_of_remote transport (get k st.sessions.lifecycle) in
      let left = change_sessions (forget_tab k) st in
      elim (Bool-cases (type_code event.type =ℕ= 2)) [
        | inl e ↦
            let closing = log_closed-Idle remote k (transport_label transport) event now left in
            let same = (Idle-Apart closing).same in
            let n = closes-log_closed k remote k (transport_label transport) event now left in
            let reported = closed-counts k event g e in
            rw e (
              lost-Turn k (λ j h. (same j).0 ∙ delete-other j k st.sessions.tabs h)
                ((same k).0 ∙ delete-here k st.sessions.tabs) (ground (arith, n, reported)))
        | inr e ↦ rw e (
            emit-Turn event
              (update_tab-Turn (type_code event.type) tab transport remote k event now st h))
      ]

  handle_about-Turn :
      (e k : Option String) (event : CoreEvent) (now : ℕ) (st : CoreManager)
      → given event.session_id ≡ k
      → Turn st (handle_about uuid e k event now st)
  unfolding handle_session_event
  handle_about-Turn (some e) k event now st g = Idle-Turn (handle_endpoint_event-Idle e event st)
  handle_about-Turn none (some k) event now st g =
      change_session-Turn (get k st.sessions.tabs) k event now st g refl
  handle_about-Turn none none event now st g =
      Turn-if ((type_code event.type =ℕ= 0) || (type_code event.type =ℕ= 3))
        (same-Turn record { same_tab = λ j. refl }) (same-Turn record { same_tab = λ j. refl })

  -- The settling of a request comes first, and moves no tab.
  pub handle_control_event-Turn :
      (event : CoreEvent) (now : ℕ) (st : CoreManager)
      → Turn st (handle_control_event uuid event now st)
  unfolding handle_control_event
  handle_control_event-Turn event now st =
      let settled = resolve_pending_response event st in
      then-Turn (Apart-SameTabs (resolve_pending_response-Apart event st))
        (λ k. closes-resolve_pending_response k event st)
        (Turn-if (is_transfer_event (type_code event.type))
          (Idle-Turn (handle_transfer_event-Idle event now settled))
          (Turn-if (is_forward_event (type_code event.type))
            (Idle-Turn (handle_forward_event-Idle event now settled))
            (handle_about-Turn (given event.endpoint_id) (given event.session_id) event now settled
              refl)))

  open_remote-Turn :
      (input : RemoteInput) (command : Command) (now : ℕ) (st : CoreManager)
      → Sound uuid st
      → Turn st (open_remote uuid input command now st)
  unfolding open_remote start_process send_control
  open_remote-Turn input command now st s =
      set-Turn (uuid st.next_uuid) _ (λ k. refl)
        (rw (s.fresh_tabs st.next_uuid (omega arith)) begins)

  pub perform_session-Turn :
      (c : SessionCall) (now : ℕ) (st : CoreManager)
      → Sound uuid st
      → Turn st (perform_session uuid c now st)
  unfolding perform_session connect connect_aws_session connect_local_session disconnect
      attach_remote_session_recording start_process send_control
  perform_session-Turn (SessionCall.connect input) now st s = open_remote-Turn _ _ now st s
  perform_session-Turn (SessionCall.connect_aws_session input) now st s =
      open_remote-Turn _ _ now st s
  perform_session-Turn (SessionCall.connect_local_session title payload) now st s =
      set-Turn (uuid st.next_uuid) _ (λ k. refl)
        (rw (s.fresh_tabs st.next_uuid (omega arith)) begins)
  perform_session-Turn (SessionCall.write_binary k bytes) now st s =
      Apart-Turn (write_binary-Apart k bytes st s)
  perform_session-Turn (SessionCall.send_control_signal k signal) now st s =
      Apart-Turn (send_control_signal-Apart k signal st s)
  perform_session-Turn (SessionCall.resize k size) now st s = same-Turn (resize-SameTabs k size st)
  perform_session-Turn (SessionCall.disconnect k) now st s =
      then-Turn {t = change_sessions (forget_sizes k) st} record { same_tab = λ j. refl }
        (λ j. refl) (disconnect_tab-Turn (get k st.sessions.tabs) k _)
  perform_session-Turn (SessionCall.attach_recording k id) now st s =
      Idle-Turn (attach_at-Idle (get k st.sessions.lifecycle) k id now st)
  perform_session-Turn (SessionCall.respond_keyboard_interactive k e payload) now st s =
      Apart-Turn (respond_keyboard_interactive-Apart uuid k e payload st)
