-- ===== src/Core/Sound/Events.antt =====
-- What an event of the core does to a session of apps/desktop/src/main/core-manager.ts.
use dolssh.Prelude.{
  ℕ, ◌≡◌, refl, ap, sym, ◌∙◌, String, true, ◌||◌, Option, none, some, ◌=ℕ=◌, Bool-cases, inl, inr,
  get, set-here, set-other, delete-here, delete-other, arith,
}
use dolssh.Core.State.{
  CoreEvent, SessionTransport, RemoteSessionLifecycleState, TerminalTab, Size, CoreManager, is_live,
  given,
}
use dolssh.Core.Sessions.{change_sessions, set_tab, flush_resize_if_ready}
use dolssh.Core.Requests.{type_code, resolve_pending_response}
use dolssh.Core.Events.{
  forget_tab, lifecycle_of_remote, transport_label, update_tab, change_session,
  handle_session_event, handle_about, is_transfer_event, is_forward_event, handle_control_event,
}
use dolssh.Core.Sound.{
  IsUnsent, IsGood, Sound, Changes, apart, Apart-refl, Apart-trans, Apart-if, Changes-trans,
}
use dolssh.Core.Sound.Sizes.{tab-running, flush_resize_if_ready-Changes, flush-good}
use dolssh.Core.Sound.Told.{flush-ToldAt}
use dolssh.Core.Sound.Tabs.{Sound-Apart, Sound-changed, closed-Sound}
use dolssh.Core.Idle.{
  Idle-Apart, log_closed-Idle, log_connected-Idle, log_failed-Idle, handle_forward_event-Idle,
  handle_transfer_event-Idle, handle_endpoint_event-Idle,
}
use dolssh.Core.Sound.Requested.{resolve_pending_response-Apart}

set_tab-Changes :
    (k : String) (tab : TerminalTab) (st : CoreManager) → Changes k st (set_tab k tab st)
set_tab-Changes k tab st = record {
  next_uuid_le = omega arith;
  same_running = λ h. h;
  same_misfires = refl;
  others = λ j h. (set-other j k tab st.sessions.tabs h, refl, refl, refl);
}

-- The sizes of a session whose tab is set again.
reset-IsGood :
    (k : String) (o : Option TerminalTab) (tab newer : TerminalTab) (desired sent : Option Size)
    → o ≡ some tab
    → newer.session_id ≡ tab.session_id
    → (is_live newer.status ≡ true → is_live tab.status ≡ true)
    → IsGood k o desired sent
    → IsGood k (some newer) desired sent
reset-IsGood k none tab newer desired sent h e l g = absurd (cc h)
reset-IsGood k (some old) tab newer desired sent h e l g =
    let same : old ≡ tab = ground (arith, h) in
    (
      g.0,
      e ∙ (ap (λ t. t.session_id) (sym same) ∙ g.1),
      λ x. g.2 (ap (λ t. is_live t.status) same ∙ l x),
    )

reset-IsUnsent :
    (k : String) (o : Option TerminalTab) (tab newer : TerminalTab) (desired sent : Option Size)
    → o ≡ some tab
    → newer.session_id ≡ tab.session_id
    → IsGood k o desired sent
    → IsUnsent k (some newer) desired sent
reset-IsUnsent k none tab newer desired sent h e g = absurd (cc h)
reset-IsUnsent k (some old) tab newer desired sent h e g =
    let same : old ≡ tab = ground (arith, h) in (g.0, e ∙ (ap (λ t. t.session_id) (sym same) ∙ g.1))

module _ {uuid : ℕ → String} where
  reset-Sound :
      (k : String) (tab newer : TerminalTab) (st : CoreManager)
      → Sound uuid st
      → get k st.sessions.tabs ≡ some tab
      → newer.session_id ≡ tab.session_id
      → (is_live newer.status ≡ true → is_live tab.status ≡ true)
      → Sound uuid (set_tab k newer st)
  reset-Sound k tab newer st s h e l =
      Sound-changed k s (set_tab-Changes k newer st)
        (rw (set-here k newer st.sessions.tabs)
          (reset-IsGood k (get k st.sessions.tabs) tab newer _ _ h e l (s.good k)))
        (s.told k) (inl (tab, h))

  connected-Sound :
      (k : String) (tab newer : TerminalTab) (st : CoreManager)
      → Sound uuid st
      → get k st.sessions.tabs ≡ some tab
      → newer.session_id ≡ tab.session_id
      → Sound uuid (flush_resize_if_ready uuid k (set_tab k newer st))
  connected-Sound k tab newer st s h e =
      Sound-changed k s
        (Changes-trans (set_tab-Changes k newer st)
          (flush_resize_if_ready-Changes uuid k (set_tab k newer st) (λ l. tab-running k tab s h)))
        (flush-good uuid k (set_tab k newer st) (
          rw (set-here k newer st.sessions.tabs)
            (reset-IsUnsent k (get k st.sessions.tabs) tab newer _ _ h e (s.good k))))
        (flush-ToldAt uuid k (set_tab k newer st) (λ l. tab-running k tab s h) (s.told k))
        (inl (tab, h))

  update_tab-Sound :
      (type : ℕ) (tab : TerminalTab) (transport : Option SessionTransport)
      (remote : Option RemoteSessionLifecycleState) (k : String) (event : CoreEvent) (now : ℕ)
      (st : CoreManager)
      → Sound uuid st
      → get k st.sessions.tabs ≡ some tab
      → Sound uuid (update_tab uuid type tab transport remote k event now st)
  update_tab-Sound type tab transport remote k event now st s h = elim (Bool-cases (type =ℕ= 1)) [
    | inl e ↦ rw e (
        Sound-Apart (connected-Sound k tab _ st s h refl)
          (Idle-Apart (log_connected-Idle remote k (transport_label transport) now _)))
    | inr e ↦ elim (Bool-cases (type =ℕ= 3)) [
      | inl f ↦
          rw (e, f)
            (Sound-Apart (reset-Sound k tab _ st s h refl (λ l. absurd (cc l)))
              (Idle-Apart (log_failed-Idle remote k (transport_label transport) event now _)))
      | inr f ↦ rw (e, f) (reset-Sound k tab _ st s h refl (λ l. l))
    ]
  ]

  forgotten-Sound :
      (k : String) (st : CoreManager)
      → Sound uuid st
      → Sound uuid (change_sessions (forget_tab k) st)
  forgotten-Sound k st s =
      closed-Sound k st _ s
        record {
          next_uuid_le = omega arith;
          same_running = λ h. h;
          same_misfires = refl;
          others = λ j h. (
            delete-other j k st.sessions.tabs h,
            delete-other j k st.sessions.desired_resize h,
            delete-other j k st.sessions.sent_resize h,
            refl,
          );
        }
        (delete-here k st.sessions.tabs) (delete-here k st.sessions.desired_resize)
        (delete-here k st.sessions.sent_resize)

  change_session-Sound :
      (o : Option TerminalTab) (k : String) (event : CoreEvent) (now : ℕ) (st : CoreManager)
      → Sound uuid st
      → get k st.sessions.tabs ≡ o
      → Sound uuid (change_session uuid o k event now st)
  change_session-Sound none k event now st s h = Sound-Apart s (
      Apart-if (type_code event.type =ℕ= 2)
        (apart (omega arith) (λ r. r) refl (λ j. (refl, refl, refl, refl))) (Apart-refl st))
  change_session-Sound (some tab) k event now st s h =
      let transport = get k st.sessions.transport in
      let remote = lifecycle_of_remote transport (get k st.sessions.lifecycle) in
      elim (Bool-cases (type_code event.type =ℕ= 2)) [
        | inl e ↦ rw e (
            Sound-Apart (forgotten-Sound k st s) (
              Apart-trans
                (Idle-Apart (log_closed-Idle remote k (transport_label transport) event now _))
                (apart (omega arith) (λ r. r) refl (λ j. (refl, refl, refl, refl)))))
        | inr e ↦
            rw e (update_tab-Sound (type_code event.type) tab transport remote k event now st s h)
      ]

  handle_about-Sound :
      (e k : Option String) (event : CoreEvent) (now : ℕ) (st : CoreManager)
      → Sound uuid st
      → Sound uuid (handle_about uuid e k event now st)
  unfolding handle_session_event
  handle_about-Sound (some e) k event now st s =
      Sound-Apart s (Idle-Apart (handle_endpoint_event-Idle e event st))
  handle_about-Sound none (some k) event now st s =
      Sound-Apart (change_session-Sound (get k st.sessions.tabs) k event now st s refl)
        (apart (omega arith) (λ r. r) refl (λ j. (refl, refl, refl, refl)))
  handle_about-Sound none none event now st s = Sound-Apart s (
      Apart-if ((type_code event.type =ℕ= 0) || (type_code event.type =ℕ= 3))
        (apart (omega arith) (λ r. r) refl (λ j. (refl, refl, refl, refl))) (Apart-refl st))

  pub handle_control_event-Sound :
      (event : CoreEvent) (now : ℕ) (st : CoreManager)
      → Sound uuid st
      → Sound uuid (handle_control_event uuid event now st)
  unfolding handle_control_event
  handle_control_event-Sound event now st s =
      let settled = resolve_pending_response event st in
      let s' = Sound-Apart s (resolve_pending_response-Apart event st) in
      elim (Bool-cases (is_transfer_event (type_code event.type))) [
        | inl e ↦ rw e (Sound-Apart s' (Idle-Apart (handle_transfer_event-Idle event now settled)))
        | inr e ↦ elim (Bool-cases (is_forward_event (type_code event.type))) [
          | inl f ↦
              rw (e, f) (Sound-Apart s' (Idle-Apart (handle_forward_event-Idle event now settled)))
          | inr f ↦
              rw (e, f)
                (handle_about-Sound (given event.endpoint_id) (given event.session_id) event now
                  settled s')
        ]
      ]
