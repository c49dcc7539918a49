-- ===== src/Core/Events.antt =====
-- What the manager does with the core's output: handleControlEvent, consumeStdout, broadcastStream and
-- the end of the process, of apps/desktop/src/main/core-manager.ts. The metadata of a log entry is not
-- modelled.
use dolssh.Prelude.{
  value_or, ℕ, String, Bool, true, false, ◌||◌, ◌&&◌, Option, none, some, ◌=ℕ=◌, leb, if◌then◌else◌,
  get, delete, is_some,
}
use Prim.Native.String
use dolssh.Core.State.{
  CoreEvent, SessionTransport, ssh, aws_ssm, warpgate, local_shell, TabStatus, TerminalTab,
  LifecycleStatus, RemoteSessionLifecycleState, TransferJob, ForwardStatus, LogLevel,
  terminal_event, transfer_event, port_forward_event, logged, Sessions, Endpoints, CoreManager,
  emit, given,
}
use dolssh.Core.Sessions.{
  change_sessions, set_tab, flush_resize_if_ready, mark_remote_session_connected,
  finalize_remote_session_lifecycle,
}
use dolssh.Core.Requests.{type_code, resolve_pending_response}
use dolssh.Core.Records.{
  set_job, set_runtime, forget_forward_definition, forget_container, to_transfer_job_event,
  build_forward_runtime,
}

abbrev pub find_job : Option String → Endpoints → Option TransferJob
find_job none e = none
find_job (some id) e = get id e.transfer_jobs

-- The source sets the job of an ended transfer a second time, which changes nothing.
unfoldable pub handle_transfer_event : CoreEvent → ℕ → CoreManager → CoreManager
unfolding to_transfer_job_event
handle_transfer_event event now st =
    let job = to_transfer_job_event (find_job (given event.job_id) st.endpoints) event now in
    emit (transfer_event job) (set_job job st)

abbrev pub forward_status : ℕ → ForwardStatus
forward_status type =
    if type =ℕ= 8
    then ForwardStatus.running
    else (if type =ℕ= 9 then ForwardStatus.stopped else ForwardStatus.error)

abbrev pub forget_stopped : ForwardStatus → String → CoreManager → CoreManager
forget_stopped ForwardStatus.starting rule_id st = st
forget_stopped ForwardStatus.running rule_id st = st
forget_stopped ForwardStatus.stopped rule_id st = forget_forward_definition rule_id st
forget_stopped ForwardStatus.error rule_id st = st

abbrev pub log_forward : ForwardStatus → CoreManager → CoreManager
log_forward ForwardStatus.starting st = st
log_forward ForwardStatus.running st = emit (logged LogLevel.info "포트 포워딩이 시작되었습니다.") st
log_forward ForwardStatus.stopped st = emit (logged LogLevel.info "포트 포워딩이 중지되었습니다.") st
log_forward ForwardStatus.error st = st

unfoldable pub handle_forward_event : CoreEvent → ℕ → CoreManager → CoreManager
unfolding build_forward_runtime
handle_forward_event event now st =
    let rule_id = value_or event.endpoint_id "" in
    let status = forward_status (type_code event.type) in
    let runtime = build_forward_runtime rule_id event.payload status now st.endpoints in
    log_forward status (
      emit (port_forward_event runtime)
        (set_runtime rule_id runtime (forget_stopped status rule_id st)))

-- Events about an endpoint other than those of transfers and forwards.
unfoldable pub handle_endpoint_event : String → CoreEvent → CoreManager → CoreManager
handle_endpoint_event endpoint_id event st =
    let type = type_code event.type in
    if (type =ℕ= 21) || (type =ℕ= 28)
    then emit (terminal_event event) (forget_container endpoint_id st)
    else (if (type =ℕ= 22) || ((type =ℕ= 23) || (type =ℕ= 24))
        then st
        else emit (terminal_event event) st)

abbrev pub is_local : Option SessionTransport → Bool
is_local none = false
is_local (some ssh) = false
is_local (some aws_ssm) = false
is_local (some warpgate) = false
is_local (some local_shell) = true

abbrev pub transport_label : Option SessionTransport → String
transport_label none = "SSH"
transport_label (some ssh) = "SSH"
transport_label (some aws_ssm) = "AWS SSM"
transport_label (some warpgate) = "Warpgate"
transport_label (some local_shell) = "로컬 터미널"

-- `getConnectionKindLabel`.
abbrev pub connection_kind_label : SessionTransport → String
connection_kind_label ssh = "SSH"
connection_kind_label aws_ssm = "AWS SSM"
connection_kind_label warpgate = "Warpgate"
connection_kind_label local_shell = "SSH"

abbrev pub log_session : LogLevel → (label message : String) → CoreManager → CoreManager
log_session level label message = emit (logged level (String.◌++◌ label message))

abbrev pub forget_lifecycle : String → CoreManager → CoreManager
forget_lifecycle k = change_sessions (λ s. record s { lifecycle = delete k s.lifecycle })

-- A local session is logged as an entry of its own, as is one with no lifecycle.
abbrev pub lifecycle_of_remote :
    Option SessionTransport
    → Option RemoteSessionLifecycleState
    → Option RemoteSessionLifecycleState
lifecycle_of_remote transport none = none
lifecycle_of_remote transport (some l) = if is_local transport then none else some l

abbrev pub log_closed :
    Option RemoteSessionLifecycleState
    → String
    → (label : String) → CoreEvent
    → ℕ
    → CoreManager
    → CoreManager
log_closed none k label event now st = log_session LogLevel.info label " 세션이 종료되었습니다." st
log_closed (some l) k label event now st =
    if is_some l.disconnected_at
    then st
    else finalize_remote_session_lifecycle k LifecycleStatus.closed event.payload.message now st

abbrev pub log_connected :
    Option RemoteSessionLifecycleState → String → (label : String) → ℕ → CoreManager → CoreManager
log_connected none k label now st = log_session LogLevel.info label " 세션이 연결되었습니다." st
log_connected (some l) k label now st = mark_remote_session_connected k now st

abbrev pub log_failed :
    Option RemoteSessionLifecycleState
    → String
    → (label : String) → CoreEvent
    → ℕ
    → CoreManager
    → CoreManager
log_failed none k label event now st = log_session LogLevel.error label " 세션 오류가 발생했습니다." st
log_failed (some l) k label event now st =
    if is_some l.connected_at
    then finalize_remote_session_lifecycle k LifecycleStatus.error event.payload.message now st
    else forget_lifecycle k
        (log_session LogLevel.error (connection_kind_label l.connection_kind) " 세션 오류가 발생했습니다." st)

abbrev pub forget_unknown : String → Sessions → Sessions
forget_unknown k s = record s { transport = delete k s.transport; lifecycle = delete k s.lifecycle }

abbrev pub forget_tab : String → Sessions → Sessions
forget_tab k s = record s {
  transport = delete k s.transport;
  tabs = delete k s.tabs;
  desired_resize = delete k s.desired_resize;
  sent_resize = delete k s.sent_resize;
}

abbrev pub is_transfer_event : ℕ → Bool
is_transfer_event type = leb 16 type && leb type 19

abbrev pub is_forward_event : ℕ → Bool
is_forward_event type = leb 8 type && leb type 10

module _ (uuid : ℕ → String) where
  -- An event that is not `closed`, of a session with a tab.
  abbrev pub update_tab :
      (type : ℕ)
      → TerminalTab
      → Option SessionTransport
      → Option RemoteSessionLifecycleState
      → String
      → CoreEvent
      → ℕ
      → CoreManager
      → CoreManager
  update_tab type tab transport remote k event now st =
      if type =ℕ= 1
      then log_connected remote k (transport_label transport) now (
          flush_resize_if_ready uuid k
            (set_tab k record tab { status = TabStatus.connected; last_event_at = now } st))
      else (if type =ℕ= 3
          then log_failed remote k (transport_label transport) event now (
              set_tab k
                record tab {
                  status = TabStatus.error;
                  error_message = some (value_or event.payload.message "SSH error");
                  last_event_at = now;
                }
                st)
          else set_tab k record tab { last_event_at = now } st)

  abbrev pub change_session :
      Option TerminalTab → String → CoreEvent → ℕ → CoreManager → CoreManager
  change_session none k event now st =
      if type_code event.type =ℕ= 2 then change_sessions (forget_unknown k) st else st
  change_session (some tab) k event now st =
      let transport = get k st.sessions.transport in
      let remote = lifecycle_of_remote transport (get k st.sessions.lifecycle) in
      if type_code event.type =ℕ= 2
      then forget_lifecycle k (
          log_closed remote k (transport_label transport) event now
            (change_sessions (forget_tab k) st))
      else update_tab (type_code event.type) tab transport remote k event now st

  unfoldable pub handle_session_event : String → CoreEvent → ℕ → CoreManager → CoreManager
  unfolding flush_resize_if_ready mark_remote_session_connected finalize_remote_session_lifecycle
  handle_session_event k event now st =
      emit (terminal_event event) (change_session (get k st.sessions.tabs) k event now st)

  -- Where an event goes: the chain of conditions of `handleControlEvent`.
  abbrev pub handle_about :
      (endpoint_id session_id : Option String) → CoreEvent → ℕ → CoreManager → CoreManager
  handle_about (some endpoint_id) session_id event now st =
      handle_endpoint_event endpoint_id event st
  handle_about none (some k) event now st = handle_session_event k event now st
  handle_about none none event now st =
      if (type_code event.type =ℕ= 0) || (type_code event.type =ℕ= 3)
      then emit (terminal_event event) st
      else st

  abbrev pub handle_settled : CoreEvent → ℕ → CoreManager → CoreManager
  handle_settled event now st =
      if is_transfer_event (type_code event.type)
      then handle_transfer_event event now st
      else (if is_forward_event (type_code event.type)
          then handle_forward_event event now st
          else handle_about (given event.endpoint_id) (given event.session_id) event now st)

  unfoldable pub handle_control_event : CoreEvent → ℕ → CoreManager → CoreManager
  unfolding handle_transfer_event handle_forward_event handle_endpoint_event handle_session_event
      resolve_pending_response
  handle_control_event event now st = handle_settled event now (resolve_pending_response event st)
