-- ===== src/Sharing/Reached.antt =====
-- The invariant in every state that the service's events and calls lead to.
use dolssh.Prelude.{◌≡◌, refl, ◌⊎◌, get, ℕ, ◌∙◌, String, ◌==◌, inl, inr}
use dolssh.Sharing.Share.{OwnerMessage, output, session_ended, enqueue_or_send}
use dolssh.Sharing.Service.{
  Service, Received, on_message, with_session, change, is_current, active_state, on_open,
}
use dolssh.Sharing.Methods.{
  stop_begin, keep_snapshot, snapshot_message, take_snapshot, SnapshotInput, CoreEvent, closed,
  failed, connected, other, update_snapshot, handle_terminal_stream, handle_terminal_event,
}
use dolssh.Sharing.Chat.{Keeps, enqueue-Keeps, greet-Keeps}
use dolssh.Sharing.Ownership.{WellKept}
use dolssh.Sharing.Lawful.{
  Lawful, Lawful-refl, Lawful-trans, Lawful-if, change-Lawful, set_state-Lawful, with_share-Lawful,
  with_session-Lawful,
}
use dolssh.Sharing.Steps.{
  Step, provisions, creates, fails, opens, receives, closes, breaks, begins_stop, finishes_stop,
  toggles, snapshots, streams, hears, shows, Reach, start, next, empty_service-WellKept,
  start_provisional-Lawful,
}
use dolssh.Sharing.Kept.{
  close_socket-Keeps, open_owner_socket-Keeps, keep_snapshot-Keeps, start_created-Lawful,
  start_failed-Lawful, set_input_enabled-Lawful, stop_begin-Lawful, stop_finish-Lawful,
  on_message-WellKept, on_close-Lawful, on_error-Lawful, open_owner_chat_window-Lawful,
}

module _ (encode : OwnerMessage → String) where
  on_open-Lawful : (sv : Service) (r : ℕ) → Lawful sv (on_open encode r sv)
  unfolding on_open
  on_open-Lawful sv r = with_share-Lawful r _ sv (λ share.
      Lawful-if (is_current (get share.session_id sv.shares) r)
        (Lawful-trans (change-Lawful r sv open_owner_socket-Keeps) (
          Lawful-trans (set_state-Lawful r share.session_id (active_state share) _)
            (change-Lawful r _ (greet-Keeps encode))))
        (change-Lawful r sv close_socket-Keeps))

  take_snapshot-Keeps : (input : SnapshotInput) → Keeps (take_snapshot encode input)
  take_snapshot-Keeps input s =
      let (fits, i, m) = keep_snapshot-Keeps input s in
      let (fits', i', m') = enqueue-Keeps encode (snapshot_message input) (keep_snapshot input s) in
      ((λ w. fits' (fits w)), i' ∙ i, m' ∙ m)

  update_snapshot-Lawful :
      (sv : Service) (i : SnapshotInput) → Lawful sv (update_snapshot encode i sv)
  unfolding update_snapshot
  update_snapshot-Lawful sv i =
      with_session-Lawful i.session_id _ sv (λ r share. change-Lawful r sv (take_snapshot-Keeps i))

  handle_terminal_stream-Lawful :
      (sv : Service) (s chunk : String) → Lawful sv (handle_terminal_stream encode s chunk sv)
  unfolding handle_terminal_stream
  handle_terminal_stream-Lawful sv s chunk = with_session-Lawful s _ sv (λ r share.
      Lawful-if (chunk == "") (Lawful-refl sv)
        (change-Lawful r sv (enqueue-Keeps encode (output chunk))))

  ended-Lawful :
      (sv : Service) (s : String)
      → Lawful sv (
          with_session s
            (λ r share sv'.
              stop_begin s (change r (λ t. enqueue_or_send encode t session_ended) sv'))
            sv)
  ended-Lawful sv s = with_session-Lawful s _ sv (λ r share.
      Lawful-trans (change-Lawful r sv (enqueue-Keeps encode session_ended))
        (stop_begin-Lawful s _))

  handle_terminal_event-Lawful :
      (sv : Service) (s : String) (e : CoreEvent) → Lawful sv (handle_terminal_event encode s e sv)
  unfolding handle_terminal_event
  handle_terminal_event-Lawful sv s closed = ended-Lawful sv s
  handle_terminal_event-Lawful sv s failed = ended-Lawful sv s
  handle_terminal_event-Lawful sv s connected =
      with_session-Lawful s _ sv (λ r share. set_state-Lawful r s (active_state share) sv)
  handle_terminal_event-Lawful sv s other = Lawful-refl sv

  -- A step is lawful, or the receipt of a message.
  pub Step-cases :
      {sv tv : Service}
      → Step encode sv tv
      → Lawful sv tv ⊎ ((r : ℕ) × (m : Received) × (tv ≡ on_message r m sv))
  Step-cases (provisions sv input) = inl (start_provisional-Lawful sv input)
  Step-cases (creates sv r c) = inl (start_created-Lawful sv r c)
  Step-cases (fails sv r e) = inl (start_failed-Lawful sv r e)
  Step-cases (opens sv r) = inl (on_open-Lawful sv r)
  Step-cases (receives sv r m) = inr (r, m, refl)
  Step-cases (closes sv r) = inl (on_close-Lawful sv r)
  Step-cases (breaks sv r) = inl (on_error-Lawful sv r)
  Step-cases (begins_stop sv s) = inl (stop_begin-Lawful s sv)
  Step-cases (finishes_stop sv r s) = inl (stop_finish-Lawful sv r s)
  Step-cases (toggles sv r b) = inl (set_input_enabled-Lawful sv r b)
  Step-cases (snapshots sv i) = inl (update_snapshot-Lawful sv i)
  Step-cases (streams sv s chunk) = inl (handle_terminal_stream-Lawful sv s chunk)
  Step-cases (hears sv s e) = inl (handle_terminal_event-Lawful sv s e)
  Step-cases (shows sv s) = inl (open_owner_chat_window-Lawful sv s)

  Step-WellKept : {sv tv : Service} → Step encode sv tv → WellKept sv → WellKept tv
  Step-WellKept {sv = sv} step v = elim (Step-cases step) [
    | inl law ↦ law.keeps v
    | inr (r, m, e) ↦ rw e (on_message-WellKept sv r m v)
  ]

  -- Whatever events and calls come in whatever order, with the parts of a method that waits for the
  -- server apart: at most 512 messages wait for a socket, a share remembers at most 50 chat messages
  -- and none twice, and the share that the map has for a session is that session's and not closed by
  -- its owner.
  pub Reach-WellKept : {sv : Service} → Reach encode sv → WellKept sv
  Reach-WellKept start = empty_service-WellKept
  Reach-WellKept (next reached step) = Step-WellKept step (Reach-WellKept reached)
