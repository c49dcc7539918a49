-- ===== src/Workspace/Store/Session.antt =====
-- The life of a session's tab in the store, from
-- apps/desktop/src/renderer/store/createAppStore.ts: opening a tab, the events that change it, the
-- change of a pending session's id into the real one, and removal. `now` is the time of the call.
use dolssh.Prelude.{
  String, Bool, not, Option, none, some, List, ◌==◌, if◌then◌else◌, find_by, index_by, insert_at,
  filter_by, map_where, includes, map, some_is,
}
use dolssh.Workspace.Layout.{
  WorkspaceLayoutNode, leaf, split, list_workspace_session_ids, find_first_workspace_session_id,
  remove_session_from_workspace_layout, replace_session_id_in_layout,
}
use dolssh.Workspace.Strip.{
  WorkspaceTabId, session_tab, workspace_tab, DynamicTabStripItem, session, workspace, WorkspaceTab,
  is_session, is_workspace, same_tab, resolve_next_visible_tab,
}
use dolssh.Workspace.Store.State.{
  AppState, TerminalTab, PendingPrompt, PendingInteractiveAuth, ssh, other,
  PendingConnectionAttempt,
}
use dolssh.Workspace.Store.Drag.{
  update_workspace, drop_workspace, drop_session_item, drop_workspace_item, index_or_end,
}
use dolssh.Workspace.Store.Notifications.{clear_session_share_chat_notifications}

abbrev pub is_tab : String → TerminalTab → Bool
is_tab session_id tab = tab.session_id == session_id

-- `listWorkspaceSessionIds(workspace.layout).includes(sessionId)`.
abbrev pub shows : String → WorkspaceTab → Bool
shows session_id w = includes session_id (list_workspace_session_ids w.layout)

abbrev pub drop_attempts : String → List PendingConnectionAttempt → List PendingConnectionAttempt
drop_attempts session_id = filter_by (λ attempt. not (attempt.session_id == session_id))

-- A prompt is dropped if it is the session's.
abbrev pub drop_prompt : String → Option PendingPrompt → Option PendingPrompt
drop_prompt session_id none = none
drop_prompt session_id (some p) = if some_is p.session_id session_id then none else some p

abbrev pub drop_auth : String → Option PendingInteractiveAuth → Option PendingInteractiveAuth
drop_auth session_id none = none
drop_auth session_id (some (other rest)) = some (other rest)
drop_auth session_id (some (ssh s rest)) = if s == session_id then none else some (ssh s rest)

pub record Arrangement : Type 0 where
  pub workspaces : List WorkspaceTab
  pub tab_strip : List DynamicTabStripItem
  pub active : WorkspaceTabId

-- The workspace had no other session: it is closed.
abbrev pub close_emptied : AppState → WorkspaceTab → Arrangement
close_emptied st w =
    let index = index_by (is_workspace w.id) st.tab_strip in
    let strip = drop_workspace_item w.id st.tab_strip in
    record {
      workspaces = drop_workspace w.id st.workspaces;
      tab_strip = strip;
      active =
          if same_tab st.active_workspace_tab (workspace_tab w.id)
          then resolve_next_visible_tab strip (index_or_end index strip)
          else st.active_workspace_tab;
    }

-- One session is left: its tab takes the place of the workspace's.
abbrev pub replace_by_last : AppState → WorkspaceTab → String → Arrangement
replace_by_last st w last =
    let index = index_by (is_workspace w.id) st.tab_strip in
    let strip = drop_workspace_item w.id st.tab_strip in
    record {
      workspaces = drop_workspace w.id st.workspaces;
      tab_strip = insert_at (index_or_end index strip) (session last) strip;
      active =
          if same_tab st.active_workspace_tab (workspace_tab w.id)
          then session_tab last
          else st.active_workspace_tab;
    }

abbrev pub keep_reduced : AppState → String → WorkspaceTab → WorkspaceLayoutNode → Arrangement
keep_reduced st session_id w reduced = record {
  workspaces =
      update_workspace w.id
        (λ item. record item {
          layout = reduced;
          active_session_id =
              if item.active_session_id == session_id
              then find_first_workspace_session_id reduced
              else item.active_session_id;
        })
        st.workspaces;
  tab_strip = drop_session_item session_id st.tab_strip;
  active = st.active_workspace_tab;
}

unfoldable pub remove_from_workspace :
    AppState → String → WorkspaceTab → Option WorkspaceLayoutNode → Arrangement
remove_from_workspace st session_id w none = close_emptied st w
remove_from_workspace st session_id w (some (leaf id last)) = replace_by_last st w last
remove_from_workspace st session_id w (some (split id axis ratio first second)) =
    keep_reduced st session_id w (split id axis ratio first second)

unfoldable pub remove_arranged : AppState → String → Option WorkspaceTab → Arrangement
remove_arranged st session_id (some w) =
    remove_from_workspace st session_id w (remove_session_from_workspace_layout w.layout session_id)
remove_arranged st session_id none =
    let strip = drop_session_item session_id st.tab_strip in
    record {
      workspaces = st.workspaces;
      tab_strip = strip;
      active =
          if same_tab st.active_workspace_tab (session_tab session_id)
          then resolve_next_visible_tab strip
              (index_or_end (index_by (is_session session_id) st.tab_strip) strip)
          else st.active_workspace_tab;
    }

unfoldable pub remove_session_from_state : AppState → String → AppState
remove_session_from_state st session_id =
    let a = remove_arranged st session_id (find_by (shows session_id) st.workspaces) in
    record {
      tabs = filter_by (λ tab. not (is_tab session_id tab)) st.tabs;
      session_share_chat_notifications =
          clear_session_share_chat_notifications st.session_share_chat_notifications session_id;
      workspaces = a.workspaces;
      tab_strip = a.tab_strip;
      active_workspace_tab = a.active;
      pending_host_key_prompt = drop_prompt session_id st.pending_host_key_prompt;
      pending_credential_retry = drop_prompt session_id st.pending_credential_retry;
      pending_interactive_auth = drop_auth session_id st.pending_interactive_auth;
      pending_connection_attempts = drop_attempts session_id st.pending_connection_attempts;
      next_uuid = st.next_uuid;
    }

unfoldable pub replace_prompt :
    (previous next : String) → Option PendingPrompt → Option PendingPrompt
replace_prompt previous next none = none
replace_prompt previous next (some p) =
    if some_is p.session_id previous then some (record p { session_id = some next }) else some p

unfoldable pub replace_auth :
    (previous next : String) → Option PendingInteractiveAuth → Option PendingInteractiveAuth
replace_auth previous next none = none
replace_auth previous next (some (other rest)) = some (other rest)
replace_auth previous next (some (ssh s rest)) =
    if s == previous then some (ssh next rest) else some (ssh s rest)

abbrev pub replace_item : (previous next : String) → DynamicTabStripItem → DynamicTabStripItem
replace_item previous next (session s) = if s == previous then session next else session s
replace_item previous next (workspace w) = workspace w

abbrev pub replace_in_workspace : (previous next : String) → WorkspaceTab → WorkspaceTab
replace_in_workspace previous next w = record w {
  layout = replace_session_id_in_layout w.layout previous next;
  active_session_id = if w.active_session_id == previous then next else w.active_session_id;
}

-- `transform` is what the caller does to the tab besides.
unfoldable pub replace_session_references_in_state :
    AppState → (previous next : String) → (TerminalTab → TerminalTab) → AppState
replace_session_references_in_state st previous next transform = record st {
  tabs =
      map_where (is_tab previous) (λ tab. transform (record tab { id = next; session_id = next }))
        st.tabs;
  tab_strip = map (replace_item previous next) st.tab_strip;
  workspaces = map (replace_in_workspace previous next) st.workspaces;
  active_workspace_tab =
      if same_tab st.active_workspace_tab (session_tab previous)
      then session_tab next
      else st.active_workspace_tab;
  pending_host_key_prompt = replace_prompt previous next st.pending_host_key_prompt;
  pending_credential_retry = replace_prompt previous next st.pending_credential_retry;
  pending_interactive_auth = replace_auth previous next st.pending_interactive_auth;
}

abbrev pub activate_owned : AppState → String → Option WorkspaceTab → AppState
activate_owned st session_id none = record st { active_workspace_tab = session_tab session_id }
activate_owned st session_id (some w) = record st {
  workspaces =
      update_workspace w.id (λ item. record item { active_session_id = session_id }) st.workspaces;
  active_workspace_tab = workspace_tab w.id;
}

unfoldable pub activate_session_context_in_state : AppState → String → AppState
activate_session_context_in_state st session_id =
    activate_owned st session_id (find_by (shows session_id) st.workspaces)
