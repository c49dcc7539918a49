-- ===== src/Sharing/Kept.antt =====
-- The listeners of a socket and the methods that send nothing, of
-- apps/desktop/src/main/session-share-service.ts: the invariant after them, and the calls of the core.
use dolssh.Prelude.{
  get, get_elem?, ℕ, ◌≡◌, refl, ap, ◌∙◌, String, Bool, not, ◌&&◌, ◌||◌, some, ◌==◌, inl, inr,
  Bool-cases, Option-cases, includes,
}
use dolssh.Prelude.Int.{ℤ, pos_part}
use dolssh.Workspace.Store.Shared.{inactive_share}
use dolssh.Sharing.Share.{
  OwnerServerMessage, viewer_input, control_signal, viewer_count, input_enabled, chat_message,
  share_ended, ActiveSessionShare,
}
use dolssh.Sharing.Service.{
  Service, change, set_state, is_current, is_known, close_socket, set_viewer_count, set_input,
  close_ended, remember, open_owner_socket, receive, Received, broken, message, default_end,
  failed_state, lost_state, unopened_state, handle_owner_server_message, on_message, on_close,
  on_error,
}
use dolssh.Sharing.Methods.{
  starting_state, begin_connecting, set_created, failed_start, mark_closed, toggled_state,
  keep_snapshot, CreateShareResponse, start_created, start_failed, stop_begin, stop_finish,
  set_input_enabled, SnapshotInput, status_active, object_at, open_owner_chat_window,
}
use dolssh.Sharing.Chat.{Keeps, same-Fits, plain-Keeps, append-ChatFits}
use dolssh.Sharing.Ownership.{
  WellKept, change-WellKept, untouched-WellKept, broadcast-shares, set_state-WellKept,
  retire-WellKept,
}
use dolssh.Sharing.Relay.{is_current-some}
use dolssh.Sharing.Lawful.{
  Lawful, lawful, Lawful-refl, Lawful-trans, Lawful-if, change-Lawful, broadcast-Lawful,
  set_state-Lawful, with_share-Lawful,
}

abbrev pub IsCurrent : Service → ℕ → ActiveSessionShare → Type 0
IsCurrent sv r share = get share.session_id sv.shares ≡ some r

-- A change of fields that the invariant does not read.
pub begin_connecting-Keeps : Keeps begin_connecting
begin_connecting-Keeps =
    plain-Keeps begin_connecting (λ s. refl) (λ s. refl) (λ s. refl) (λ s. refl)

pub set_created-Keeps : (c : CreateShareResponse) → Keeps (set_created c)
set_created-Keeps c = plain-Keeps (set_created c) (λ s. refl) (λ s. refl) (λ s. refl) (λ s. refl)

pub set_input-Keeps : (b : Bool) → Keeps (set_input b)
set_input-Keeps b = plain-Keeps (set_input b) (λ s. refl) (λ s. refl) (λ s. refl) (λ s. refl)

pub set_viewer_count-Keeps : (n : ℤ) → Keeps (set_viewer_count n)
set_viewer_count-Keeps n =
    plain-Keeps (set_viewer_count n) (λ s. refl) (λ s. refl) (λ s. refl) (λ s. refl)

pub close_socket-Keeps : Keeps close_socket
close_socket-Keeps = plain-Keeps close_socket (λ s. refl) (λ s. refl) (λ s. refl) (λ s. refl)

pub open_owner_socket-Keeps : Keeps open_owner_socket
open_owner_socket-Keeps =
    plain-Keeps open_owner_socket (λ s. refl) (λ s. refl) (λ s. refl) (λ s. refl)

pub keep_snapshot-Keeps : (input : SnapshotInput) → Keeps (keep_snapshot input)
keep_snapshot-Keeps input =
    plain-Keeps (keep_snapshot input) (λ s. refl) (λ s. refl) (λ s. refl) (λ s. refl)

handle-WellKept :
    (sv : Service) (r : ℕ) (m : OwnerServerMessage) (share : ActiveSessionShare)
    → IsCurrent sv r share
    → WellKept sv
    → WellKept (handle_owner_server_message r m share sv)
unfolding handle_owner_server_message
handle-WellKept sv r (viewer_input encoding text) share c v =
    elim (Bool-cases share.input_enabled) [
      | inl e ↦ rw e (untouched-WellKept sv sv.owner_chat_windows _ v)
      | inr e ↦ rw e v
    ]
handle-WellKept sv r (control_signal signal) share c v =
    elim (Bool-cases (share.input_enabled && share.transport == "aws-ssm")) [
      | inl e ↦ rw e (untouched-WellKept sv sv.owner_chat_windows _ v)
      | inr e ↦ rw e v
    ]
handle-WellKept sv r (viewer_count n) share c v =
    set_state-WellKept r share.session_id record share.state { viewer_count = pos_part n }
      (change r (set_viewer_count n) sv)
      (change-WellKept sv r (set_viewer_count n) (set_viewer_count-Keeps n) v)
handle-WellKept sv r (input_enabled b) share c v =
    set_state-WellKept r share.session_id record share.state { input_enabled = b }
      (change r (set_input b) sv) (change-WellKept sv r (set_input b) (set_input-Keeps b) v)
handle-WellKept sv r (chat_message m) share c v =
    untouched-WellKept (change r (remember m) sv) sv.owner_chat_windows _ (
      change-WellKept sv r (remember m)
        (λ s. (
          (λ w. record {
            pending = w.pending;
            chat = append-ChatFits s.owner_chat_messages m w.chat;
          }),
          refl,
          refl,
        ))
        v)
handle-WellKept sv r (share_ended m) share c v =
    let state = failed_state share (default_end m) in
    retire-WellKept (set_state r share.session_id state sv) share.session_id r close_ended
      (λ s. same-Fits {s = s} {t = close_ended s} refl refl)
      (ap (get share.session_id)
          (broadcast-shares share.session_id state (change r (λ s. record s { state = state }) sv))
        ∙ c)
      (set_state-WellKept r share.session_id state sv v)

-- A text that does not parse, or a message.
received-WellKept :
    (sv : Service) (r : ℕ) (m : Received) (share : ActiveSessionShare)
    → IsCurrent sv r share
    → WellKept sv
    → WellKept (receive r m share sv)
received-WellKept sv r (broken e) share c v =
    set_state-WellKept r share.session_id (failed_state share e) sv v
received-WellKept sv r (message m) share c v = handle-WellKept sv r m share c v

pub on_message-WellKept :
    (sv : Service) (r : ℕ) (m : Received) → WellKept sv → WellKept (on_message r m sv)
unfolding on_message
on_message-WellKept sv r m v = elim (Option-cases (get_elem? sv.objects r)) [
  | inl e ↦ rw e v
  | inr (share, e) ↦ elim (Bool-cases (is_current (get share.session_id sv.shares) r)) [
    | inl here ↦ rw (e, here) (received-WellKept sv r m share (is_current-some _ r here) v)
    | inr away ↦ rw (e, away) v
  ]
]

pub start_created-Lawful :
    (sv : Service) (r : ℕ) (c : CreateShareResponse) → Lawful sv (start_created r c sv)
unfolding start_created
start_created-Lawful sv r c = with_share-Lawful r _ sv (λ share.
    Lawful-trans (change-Lawful r sv (set_created-Keeps c)) (
      Lawful-trans (set_state-Lawful r share.session_id (starting_state (some c.viewer_url)) _)
        (change-Lawful r _ begin_connecting-Keeps)))

pub start_failed-Lawful : (sv : Service) (r : ℕ) (e : String) → Lawful sv (start_failed r e sv)
unfolding start_failed
start_failed-Lawful sv r e =
    with_share-Lawful r _ sv (λ share. set_state-Lawful r share.session_id (failed_start e) sv)

pub set_input_enabled-Lawful :
    (sv : Service) (r : ℕ) (b : Bool) → Lawful sv (set_input_enabled r b sv)
unfolding set_input_enabled
set_input_enabled-Lawful sv r b = with_share-Lawful r _ sv (λ share.
    Lawful-trans (change-Lawful r sv (set_input-Keeps b))
      (set_state-Lawful r share.session_id (toggled_state b share) _))

pub stop_begin-Lawful : (s : String) (sv : Service) → Lawful sv (stop_begin s sv)
unfolding stop_begin
stop_begin-Lawful s sv = elim (Option-cases (get s sv.shares)) [
  | inl e ↦ rw e (broadcast-Lawful s inactive_share sv)
  | inr (r, e) ↦ rw e (
      lawful
        (λ v.
          retire-WellKept sv s r mark_closed
            (λ share. same-Fits {s = share} {t = mark_closed share} refl refl) e v)
        refl)
]

pub stop_finish-Lawful : (sv : Service) (r : ℕ) (s : String) → Lawful sv (stop_finish r s sv)
unfolding stop_finish
stop_finish-Lawful sv r s =
    Lawful-trans (change-Lawful r sv close_socket-Keeps) (broadcast-Lawful s inactive_share _)

pub on_close-Lawful : (sv : Service) (r : ℕ) → Lawful sv (on_close r sv)
unfolding on_close
on_close-Lawful sv r = with_share-Lawful r _ sv (λ share.
    Lawful-if (share.closed_by_owner || not (is_known (get share.session_id sv.shares)))
      (change-Lawful r sv close_socket-Keeps)
      (Lawful-trans (change-Lawful r sv close_socket-Keeps)
        (set_state-Lawful r share.session_id (lost_state share) _)))

pub on_error-Lawful : (sv : Service) (r : ℕ) → Lawful sv (on_error r sv)
unfolding on_error
on_error-Lawful sv r = with_share-Lawful r _ sv (λ share.
    Lawful-if (is_known (get share.session_id sv.shares))
      (set_state-Lawful r share.session_id (unopened_state share) sv) (Lawful-refl sv))

pub open_owner_chat_window-Lawful :
    (sv : Service) (s : String) → Lawful sv (open_owner_chat_window s sv)
unfolding open_owner_chat_window
open_owner_chat_window-Lawful sv s =
    Lawful-if (status_active (object_at sv (get s sv.shares)))
      (Lawful-if (includes s sv.owner_chat_windows) (Lawful-refl sv)
        (lawful (untouched-WellKept sv _ sv.outputs) refl))
      (Lawful-refl sv)
