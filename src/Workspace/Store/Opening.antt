-- ===== src/Workspace/Store/Opening.antt =====
-- Opening a tab for a session, and its progress and errors, from
-- apps/desktop/src/renderer/store/createAppStore.ts. `now` is the time of the call. The fields
-- `homeSection` and `hostDrawer`, which opening a tab resets, are not part of the state.
use Prim.Native.String
use dolssh.Prelude.{
  ℕ, suc, String, Bool, true, false, not, Option, none, some, List, [], ◌∷◌, ◌++◌, ◌==◌,
  if◌then◌else◌, find_by, filter_by, map_where, any_by, includes, length, some_is, or_else,
}
use dolssh.Prelude.Fresh.{first_free}
use dolssh.Prelude.Decimal.{decimal}
use dolssh.Workspace.Strip.{session_tab, session}
use dolssh.Workspace.Store.Shared.{inactive_share}
use dolssh.Workspace.Store.State.{
  AppState, TerminalTab, TerminalConnectionProgress, TerminalSource, host, local, TabStatus,
  PendingConnectionAttempt,
}
use dolssh.Workspace.Store.Drag.{drop_session_item}
use dolssh.Workspace.Store.Session.{is_tab, drop_attempts, activate_session_context_in_state}

-- `${label} (${n})`.
abbrev pub numbered_label : String → ℕ → String
numbered_label label n = String.◌++◌ label (String.◌++◌ " (" (String.◌++◌ (decimal n) ")"))

-- The tabs whose titles count for a scope: a host's id, or none for local terminals.
abbrev pub in_scope : Option String → TerminalSource → Option String → Bool
in_scope none local host_id = true
in_scope none _ host_id = false
in_scope (some h) host host_id = some_is host_id h
in_scope (some h) _ host_id = false

abbrev pub scope_titles : Option String → List TerminalTab → List String
scope_titles scope [] = []
scope_titles scope (tab ∷ tabs) =
    if in_scope scope tab.source tab.host_id
    then tab.title ∷ scope_titles scope tabs
    else scope_titles scope tabs

-- The search for a number has more fuel than there are titles.
unfoldable pub build_session_title : String → Option String → List TerminalTab → String
build_session_title label scope tabs =
    let existing = scope_titles scope tabs in
    (if not (includes label existing)
      then label
      else numbered_label label
          (first_free (numbered_label label) (suc (length existing)) 1 existing))

unfoldable pub create_pending_session_id : (ℕ → String) → ℕ → String
create_pending_session_id uuid n = String.◌++◌ "pending:" (uuid n)

unfoldable pub create_pending_session_tab :
    (session_id : String)
    → TerminalSource
    → Option String
    → String
    → TerminalConnectionProgress
    → String
    → TerminalTab
create_pending_session_tab session_id source host_id title progress now = record {
  id = session_id;
  session_id = session_id;
  source = source;
  host_id = host_id;
  title = title;
  status = TabStatus.pending;
  error_message = none;
  connection_progress = some progress;
  session_share = some inactive_share;
  has_received_output = false;
  last_event_at = now;
}

-- What a tab is opened for: a host by its id and label, or a local terminal.
pub record Target : Type 0 where
  pub host_id : Option String
  pub label : String

abbrev pub source_of : Option String → TerminalSource
source_of none = local
source_of (some h) = host

-- The state with the tab of an existing session made new, and the session brought to the front.
unfoldable pub reopen_tab : AppState → String → TerminalTab → PendingConnectionAttempt → AppState
reopen_tab st session_id tab attempt = record activated {
  tabs = map_where (is_tab session_id) (λ _. tab) st.tabs;
  pending_connection_attempts =
      drop_attempts session_id st.pending_connection_attempts ++ attempt ∷ [];
}
  where
    activated : AppState
    activated = activate_session_context_in_state st session_id

-- The state with a tab at the end of the strip.
unfoldable pub open_tab : AppState → String → TerminalTab → PendingConnectionAttempt → AppState
open_tab st session_id tab attempt = record st {
  tabs = filter_by (λ item. not (is_tab session_id item)) st.tabs ++ tab ∷ [];
  tab_strip = drop_session_item session_id st.tab_strip ++ session session_id ∷ [];
  active_workspace_tab = session_tab session_id;
  pending_connection_attempts =
      drop_attempts session_id st.pending_connection_attempts ++ attempt ∷ [];
}

abbrev pub open_or_reopen :
    AppState
    → Target
    → (session_id : String) → (cols rows : ℕ) → TerminalConnectionProgress
    → String
    → Option TerminalTab
    → AppState
open_or_reopen st target session_id cols rows progress now none =
    let title = build_session_title target.label target.host_id st.tabs in
    open_tab st session_id
      (create_pending_session_tab session_id (source_of target.host_id) target.host_id title
        progress now)
      (record {
        session_id = session_id;
        source = source_of target.host_id;
        host_id = target.host_id;
        title = title;
        latest_cols = cols;
        latest_rows = rows;
        container_id = none;
      })
open_or_reopen st target session_id cols rows progress now (some existing) =
    reopen_tab st session_id
      (create_pending_session_tab session_id (source_of target.host_id) target.host_id
        existing.title progress now)
      (record {
        session_id = session_id;
        source = source_of target.host_id;
        host_id = target.host_id;
        title = existing.title;
        latest_cols = cols;
        latest_rows = rows;
        container_id = none;
      })

-- With no session given a new id is drawn, and no tab is looked for.
unfoldable pub create_pending_session_tab_for :
    (ℕ → String)
    → AppState
    → Target
    → (cols rows : ℕ) → TerminalConnectionProgress
    → String
    → Option String
    → AppState × String
create_pending_session_tab_for uuid st target cols rows progress now (some session_id) = (
  open_or_reopen st target session_id cols rows progress now (find_by (is_tab session_id) st.tabs),
  session_id,
)
create_pending_session_tab_for uuid st target cols rows progress now none =
    let session_id = create_pending_session_id uuid st.next_uuid in
    let drawn : AppState = record st { next_uuid = suc st.next_uuid } in
    (open_or_reopen drawn target session_id cols rows progress now none, session_id)

unfoldable pub update_session_progress :
    AppState → String → TerminalConnectionProgress → TabStatus → String → AppState
update_session_progress st session_id progress status now =
    if not (any_by (is_tab session_id) st.tabs) then st else record st {
      tabs =
          map_where (is_tab session_id)
            (λ tab. record tab {
              status = status;
              error_message = none;
              connection_progress = some progress;
              last_event_at = now;
            })
            st.tabs;
    }

unfoldable pub resolve_error_progress : String → Bool → TerminalConnectionProgress
resolve_error_progress message retryable = record {
  stage = "connecting";
  message = message;
  blocking_kind = "none";
  retryable = retryable;
}

unfoldable pub mark_session_error :
    AppState
    → (session_id message : String) → Option TerminalConnectionProgress
    → (retryable : Bool) → String
    → AppState
mark_session_error st session_id message progress retryable now =
    if not (any_by (is_tab session_id) st.tabs)
    then record st {
      pending_connection_attempts = drop_attempts session_id st.pending_connection_attempts;
    }
    else record st {
      tabs =
          map_where (is_tab session_id)
            (λ tab. record tab {
              status = TabStatus.error;
              error_message = some message;
              connection_progress =
                  or_else progress (some (resolve_error_progress message retryable));
              last_event_at = now;
            })
            st.tabs;
      pending_connection_attempts = drop_attempts session_id st.pending_connection_attempts;
    }

-- `updatePendingConnectionSize`.
unfoldable pub update_pending_connection_size : AppState → String → (cols rows : ℕ) → AppState
update_pending_connection_size st session_id cols rows = record st {
  pending_connection_attempts =
      map_where (λ attempt. attempt.session_id == session_id)
        (λ attempt. record attempt { latest_cols = cols; latest_rows = rows })
        st.pending_connection_attempts;
}
