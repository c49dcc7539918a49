-- ===== src/Core/Idle.antt =====
-- The parts of apps/desktop/src/main/core-manager.ts that touch no session's tab or size, ask the core
-- for no answer and settle no request: its logs, the endpoints and port forwards it keeps, and what it
-- does with an answer.
use dolssh.Prelude.{
  ℕ, ◌≡◌, ap, ◌∙◌, Bool, true, false, List, if◌then◌else◌, Map, refl, String, not, ◌||◌, Option,
  none, some, ◌=ℕ=◌, get, is_some, arith,
}
use dolssh.Core.State.{
  CoreEvent, CoreEventType, TerminalTab, Size, LifecycleStatus, RemoteSessionLifecycleState,
  ForwardStatus, PortForwardRuntimeRecord, SftpEndpointSummary, CoreManager, given,
}
use dolssh.Core.Sessions.{
  mark_at, mark_remote_session_connected, finalize_at, finalize_remote_session_lifecycle, attach_at,
}
use dolssh.Core.Requests.{type_code}
use dolssh.Core.Endpoints.{
  keep_path, show_stopped, sftp_connect_answered, sftp_connect_failed, sftp_disconnect_answered,
  sftp_disconnect_failed, sftp_list_answered, containers_connect_answered, forward_answered,
  forget_source, forget_given, stop_port_forward_answered,
}
use dolssh.Core.Events.{
  handle_transfer_event, forward_status, forget_stopped, log_forward, handle_forward_event,
  handle_endpoint_event, log_closed, log_connected, log_failed,
}
use dolssh.Core.Calls.{Continuation, continue}
use dolssh.Core.Quiet.{Quiet, quiet, settled}
use dolssh.Core.Sound.{Apart, apart, misfires, last_size}

-- What of the manager the laws on its sessions and requests speak of.
record View : Type 0 where
  tabs : Map TerminalTab
  desired_resize : Map Size
  sent_resize : Map Size
  pending_responses : Map (List CoreEventType)
  is_running : Bool
  next_uuid : ℕ
  times_settled : String → ℕ
  times_misfired : ℕ
  last_sizes : String → Option Size

abbrev view : CoreManager → View
view st = record {
  tabs = st.sessions.tabs;
  desired_resize = st.sessions.desired_resize;
  sent_resize = st.sessions.sent_resize;
  pending_responses = st.pending_responses;
  is_running = st.is_running;
  next_uuid = st.next_uuid;
  times_settled = λ k. settled k st.effects;
  times_misfired = misfires st.effects;
  last_sizes = λ k. last_size k st.effects;
}

pub record Idle (st t : CoreManager) : Type 0 where
  same_view : view t ≡ view st

idle : {st t : CoreManager} → view t ≡ view st → Idle st t
idle e = record { same_view = e }

Idle-refl : (st : CoreManager) → Idle st st
Idle-refl st = idle refl

Idle-trans : {st t u : CoreManager} → Idle st t → Idle t u → Idle st u
Idle-trans p q = idle (q.same_view ∙ p.same_view)

Idle-if : {st t u : CoreManager} (b : Bool) → Idle st t → Idle st u → Idle st (if b then t else u)
Idle-if true p q = p
Idle-if false p q = q

pub Idle-Quiet : {st t : CoreManager} → Idle st t → Quiet st t
Idle-Quiet p =
    let e = p.same_view in
    let n = ap (λ v. v.next_uuid) e in
    let r = ap (λ v. v.is_running) e in
    quiet (omega (arith, n)) (ap (λ v. v.pending_responses) e) (λ k. ap (λ v. v.times_settled k) e)
      (λ h. r ∙ h)

pub Idle-Apart : {st t : CoreManager} → Idle st t → Apart st t
Idle-Apart p =
    let e = p.same_view in
    let n = ap (λ v. v.next_uuid) e in
    let r = ap (λ v. v.is_running) e in
    apart (omega (arith, n)) (λ h. r ∙ h) (ap (λ v. v.times_misfired) e)
      (λ j. (
        ap (λ v. get j v.tabs) e,
        ap (λ v. get j v.desired_resize) e,
        ap (λ v. get j v.sent_resize) e,
        ap (λ v. v.last_sizes j) e,
      ))

mark_at-Idle :
    (o : Option RemoteSessionLifecycleState) (k : String) (now : ℕ) (st : CoreManager)
    → Idle st (mark_at o k now st)
mark_at-Idle none k now st = Idle-refl st
mark_at-Idle (some l) k now st = Idle-if (is_some l.connected_at) (Idle-refl st) (idle refl)

pub mark_remote_session_connected-Idle :
    (k : String) (now : ℕ) (st : CoreManager) → Idle st (mark_remote_session_connected k now st)
unfolding mark_remote_session_connected
mark_remote_session_connected-Idle k now st = mark_at-Idle (get k st.sessions.lifecycle) k now st

finalize_at-Idle :
    (o : Option RemoteSessionLifecycleState) (k : String) (s : LifecycleStatus)
    (reason : Option String) (now : ℕ) (st : CoreManager)
    → Idle st (finalize_at o k s reason now st)
finalize_at-Idle none k s reason now st = Idle-refl st
finalize_at-Idle (some l) k s reason now st =
    Idle-if (not (is_some l.connected_at) || is_some l.disconnected_at) (Idle-refl st) (idle refl)

pub finalize_remote_session_lifecycle-Idle :
    (k : String) (s : LifecycleStatus) (reason : Option String) (now : ℕ) (st : CoreManager)
    → Idle st (finalize_remote_session_lifecycle k s reason now st)
unfolding finalize_remote_session_lifecycle
finalize_remote_session_lifecycle-Idle k s reason now st =
    finalize_at-Idle (get k st.sessions.lifecycle) k s reason now st

pub attach_at-Idle :
    (o : Option RemoteSessionLifecycleState) (k id : String) (now : ℕ) (st : CoreManager)
    → Idle st (attach_at o k id now st)
attach_at-Idle none k id now st = Idle-refl st
attach_at-Idle (some l) k id now st = Idle-if (is_some l.connected_at) (idle refl) (idle refl)

log_forward-Idle : (s : ForwardStatus) (st : CoreManager) → Idle st (log_forward s st)
log_forward-Idle ForwardStatus.starting st = Idle-refl st
log_forward-Idle ForwardStatus.running st = idle refl
log_forward-Idle ForwardStatus.stopped st = idle refl
log_forward-Idle ForwardStatus.error st = Idle-refl st

forget_stopped-Idle :
    (s : ForwardStatus) (id : String) (st : CoreManager) → Idle st (forget_stopped s id st)
forget_stopped-Idle ForwardStatus.starting id st = Idle-refl st
forget_stopped-Idle ForwardStatus.running id st = Idle-refl st
forget_stopped-Idle ForwardStatus.stopped id st = idle refl
forget_stopped-Idle ForwardStatus.error id st = Idle-refl st

pub handle_forward_event-Idle :
    (event : CoreEvent) (now : ℕ) (st : CoreManager) → Idle st (handle_forward_event event now st)
unfolding handle_forward_event
handle_forward_event-Idle event now st =
    let status = forward_status (type_code event.type) in
    Idle-trans (Idle-trans (forget_stopped-Idle status _ st) (idle refl))
      (log_forward-Idle status _)

pub handle_transfer_event-Idle :
    (event : CoreEvent) (now : ℕ) (st : CoreManager) → Idle st (handle_transfer_event event now st)
unfolding handle_transfer_event
handle_transfer_event-Idle event now st = idle refl

pub handle_endpoint_event-Idle :
    (id : String) (event : CoreEvent) (st : CoreManager)
    → Idle st (handle_endpoint_event id event st)
unfolding handle_endpoint_event
handle_endpoint_event-Idle id event st =
    let type = type_code event.type in
    Idle-if ((type =ℕ= 21) || (type =ℕ= 28)) (idle refl)
      (Idle-if ((type =ℕ= 22) || ((type =ℕ= 23) || (type =ℕ= 24))) (Idle-refl st) (idle refl))

pub log_closed-Idle :
    (o : Option RemoteSessionLifecycleState) (k label : String) (event : CoreEvent) (now : ℕ)
    (st : CoreManager)
    → Idle st (log_closed o k label event now st)
log_closed-Idle none k label event now st = idle refl
log_closed-Idle (some l) k label event now st =
    Idle-if (is_some l.disconnected_at) (Idle-refl st)
      (finalize_remote_session_lifecycle-Idle k LifecycleStatus.closed event.payload.message now st)

pub log_connected-Idle :
    (o : Option RemoteSessionLifecycleState) (k label : String) (now : ℕ) (st : CoreManager)
    → Idle st (log_connected o k label now st)
log_connected-Idle none k label now st = idle refl
log_connected-Idle (some l) k label now st = mark_remote_session_connected-Idle k now st

pub log_failed-Idle :
    (o : Option RemoteSessionLifecycleState) (k label : String) (event : CoreEvent) (now : ℕ)
    (st : CoreManager)
    → Idle st (log_failed o k label event now st)
log_failed-Idle none k label event now st = idle refl
log_failed-Idle (some l) k label event now st =
    Idle-if (is_some l.connected_at)
      (finalize_remote_session_lifecycle-Idle k LifecycleStatus.error event.payload.message now st)
      (idle refl)

keep_path-Idle :
    (o : Option SftpEndpointSummary) (id path : String) (st : CoreManager)
    → Idle st (keep_path o id path st)
keep_path-Idle none id path st = Idle-refl st
keep_path-Idle (some summary) id path st = idle refl

show_stopped-Idle :
    (o : Option PortForwardRuntimeRecord) (now : ℕ) (id : String) (st : CoreManager)
    → Idle st (show_stopped o now id st)
show_stopped-Idle none now id st = Idle-refl st
show_stopped-Idle (some r) now id st = idle refl

forget_given-Idle : (o : Option String) (st : CoreManager) → Idle st (forget_given o st)
forget_given-Idle none st = Idle-refl st
forget_given-Idle (some id) st = idle refl

pub continue-Idle : (c : Continuation) (now : ℕ) (st : CoreManager) → Idle st (continue c now st)
unfolding continue sftp_connect_answered sftp_connect_failed sftp_disconnect_answered
    sftp_disconnect_failed sftp_list_answered containers_connect_answered forward_answered
    forget_source stop_port_forward_answered
continue-Idle (Continuation.sftp_connected e h t r) now st = idle refl
continue-Idle Continuation.sftp_connect_failed now st = idle refl
continue-Idle Continuation.sftp_disconnect_failed now st = idle refl
continue-Idle (Continuation.sftp_disconnected e) now st = idle refl
continue-Idle (Continuation.sftp_listed e r) now st =
    keep_path-Idle (get e st.endpoints.sftp) e _ st
continue-Idle (Continuation.containers_connected e h b r) now st = idle refl
continue-Idle (Continuation.forward_started id r) now st = idle refl
continue-Idle (Continuation.forward_settled source) now st = forget_given-Idle (given source) st
continue-Idle (Continuation.forward_stopped id) now st =
    Idle-trans (idle refl) (show_stopped-Idle (get id st.endpoints.forward_runtimes) now id _)
continue-Idle (Continuation.set_runtime r) now st = idle refl
