-- ===== src/Core/Quiet/Events.antt =====
-- What the manager of apps/desktop/src/main/core-manager.ts does with an event, once the request that
-- waits for it is settled.
use dolssh.Prelude.{ℕ, refl, String, ◌||◌, Option, none, some, ◌=ℕ=◌, get, arith}
use dolssh.Core.State.{
  CoreEvent, TerminalTab, SessionTransport, RemoteSessionLifecycleState, CoreManager, given,
}
use dolssh.Core.Requests.{type_code}
use dolssh.Core.Events.{
  lifecycle_of_remote, transport_label, update_tab, change_session, handle_session_event,
  handle_about, is_transfer_event, is_forward_event, handle_settled,
}
use dolssh.Core.Quiet.{Quiet, quiet, Quiet-refl, Quiet-trans, Quiet-if}
use dolssh.Core.Quiet.Sessions.{flush_resize_if_ready-Quiet}
use dolssh.Core.Idle.{
  Idle-Quiet, log_closed-Idle, log_connected-Idle, log_failed-Idle, handle_forward_event-Idle,
  handle_transfer_event-Idle, handle_endpoint_event-Idle,
}

module _ (uuid : ℕ → String) where
  update_tab-Quiet :
      (type : ℕ) (tab : TerminalTab) (transport : Option SessionTransport)
      (remote : Option RemoteSessionLifecycleState) (k : String) (event : CoreEvent) (now : ℕ)
      (st : CoreManager)
      → Quiet st (update_tab uuid type tab transport remote k event now st)
  update_tab-Quiet type tab transport remote k event now st =
      Quiet-if (type =ℕ= 1)
        (Quiet-trans
          (Quiet-trans (quiet (omega arith) refl (λ k. refl) (λ h. h))
            (flush_resize_if_ready-Quiet uuid k _))
          (Idle-Quiet (log_connected-Idle remote k (transport_label transport) now _)))
        (Quiet-if (type =ℕ= 3)
          (Quiet-trans (quiet (omega arith) refl (λ k. refl) (λ h. h))
            (Idle-Quiet (log_failed-Idle remote k (transport_label transport) event now _)))
          (quiet (omega arith) refl (λ k. refl) (λ h. h)))

  change_session-Quiet :
      (o : Option TerminalTab) (k : String) (event : CoreEvent) (now : ℕ) (st : CoreManager)
      → Quiet st (change_session uuid o k event now st)
  change_session-Quiet none k event now st =
      Quiet-if (type_code event.type =ℕ= 2) (quiet (omega arith) refl (λ k. refl) (λ h. h))
        (Quiet-refl st)
  change_session-Quiet (some tab) k event now st =
      let transport = get k st.sessions.transport in
      let remote = lifecycle_of_remote transport (get k st.sessions.lifecycle) in
      Quiet-if (type_code event.type =ℕ= 2)
        (Quiet-trans
          (Quiet-trans (quiet (omega arith) refl (λ k. refl) (λ h. h))
            (Idle-Quiet (log_closed-Idle remote k (transport_label transport) event now _)))
          (quiet (omega arith) refl (λ k. refl) (λ h. h)))
        (update_tab-Quiet (type_code event.type) tab transport remote k event now st)

  handle_session_event-Quiet :
      (k : String) (event : CoreEvent) (now : ℕ) (st : CoreManager)
      → Quiet st (handle_session_event uuid k event now st)
  unfolding handle_session_event
  handle_session_event-Quiet k event now st =
      Quiet-trans (change_session-Quiet (get k st.sessions.tabs) k event now st)
        (quiet (omega arith) refl (λ k. refl) (λ h. h))

  handle_about-Quiet :
      (e k : Option String) (event : CoreEvent) (now : ℕ) (st : CoreManager)
      → Quiet st (handle_about uuid e k event now st)
  handle_about-Quiet (some e) k event now st = Idle-Quiet (handle_endpoint_event-Idle e event st)
  handle_about-Quiet none (some k) event now st = handle_session_event-Quiet k event now st
  handle_about-Quiet none none event now st =
      Quiet-if ((type_code event.type =ℕ= 0) || (type_code event.type =ℕ= 3))
        (quiet (omega arith) refl (λ k. refl) (λ h. h)) (Quiet-refl st)

  pub handle_settled-Quiet :
      (event : CoreEvent) (now : ℕ) (st : CoreManager) → Quiet st (handle_settled uuid event now st)
  handle_settled-Quiet event now st =
      Quiet-if (is_transfer_event (type_code event.type))
        (Idle-Quiet (handle_transfer_event-Idle event now st))
        (Quiet-if (is_forward_event (type_code event.type))
          (Idle-Quiet (handle_forward_event-Idle event now st))
          (handle_about-Quiet (given event.endpoint_id) (given event.session_id) event now st))
