-- ===== src/Core/Sessions/Lifecycle.antt =====
-- The record of a remote session's life, of apps/desktop/src/main/core-manager.ts.
use dolssh.Prelude.{ℕ, String, true, not, ◌||◌, Option, none, some, if◌then◌else◌, get, is_some}
use dolssh.Core.State.{
  LifecycleStatus, RemoteSessionLifecycleState, lifecycle_logged, CoreManager, emit,
}
use dolssh.Core.Sessions.Opening.{set_lifecycle}

abbrev pub mark_at : Option RemoteSessionLifecycleState → String → ℕ → CoreManager → CoreManager
mark_at none session_id now st = st
mark_at (some l) session_id now st =
    if is_some l.connected_at
    then st
    else let marked : RemoteSessionLifecycleState = record l {
      connected_at = some now;
      status = some LifecycleStatus.connected;
      disconnected_at = none;
      disconnect_reason = none;
    } in
      emit (lifecycle_logged session_id marked now) (set_lifecycle session_id marked st)

unfoldable pub mark_remote_session_connected : String → ℕ → CoreManager → CoreManager
mark_remote_session_connected session_id now st =
    mark_at (get session_id st.sessions.lifecycle) session_id now st

abbrev pub finalize_at :
    Option RemoteSessionLifecycleState
    → String
    → LifecycleStatus
    → Option String
    → ℕ
    → CoreManager
    → CoreManager
finalize_at none session_id status reason now st = st
finalize_at (some l) session_id status reason now st =
    if not (is_some l.connected_at) || is_some l.disconnected_at
    then st
    else let ended : RemoteSessionLifecycleState = record l {
      disconnected_at = some now;
      disconnect_reason = reason;
      status = some status;
    } in
      emit (lifecycle_logged session_id ended now) (set_lifecycle session_id ended st)

unfoldable pub finalize_remote_session_lifecycle :
    String → LifecycleStatus → Option String → ℕ → CoreManager → CoreManager
finalize_remote_session_lifecycle session_id status reason now st =
    finalize_at (get session_id st.sessions.lifecycle) session_id status reason now st

abbrev pub attach_at :
    Option RemoteSessionLifecycleState
    → String
    → (recording_id : String) → ℕ
    → CoreManager
    → CoreManager
attach_at none session_id recording_id now st = st
attach_at (some l) session_id recording_id now st =
    let recorded : RemoteSessionLifecycleState = record l {
      recording_id = some recording_id;
      has_replay = true;
    } in
    let kept = set_lifecycle session_id recorded st in
    (if is_some l.connected_at then emit (lifecycle_logged session_id recorded now) kept else kept)

unfoldable pub attach_remote_session_recording : String → String → ℕ → CoreManager → CoreManager
attach_remote_session_recording session_id recording_id now st =
    attach_at (get session_id st.sessions.lifecycle) session_id recording_id now st
