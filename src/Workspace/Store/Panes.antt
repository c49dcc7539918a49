-- ===== src/Workspace/Store/Panes.antt =====
-- The store's operations on the panes of a workspace: moving, detaching, reordering, focusing,
-- resizing and closing, from apps/desktop/src/renderer/store/createAppStore.ts.
use mathlib.Core.Option
use dolssh.Prelude.{
  ℕ, suc, String, Bool, true, false, not, Option, none, some, List, ◌==◌, if◌then◌else◌, find_by,
  index_by, insert_at, map_where, includes,
}
use dolssh.Prelude.Int.{ℤ}
use dolssh.Workspace.Layout.{
  WorkspaceDropDirection, WorkspaceLayoutNode, leaf, split, list_workspace_session_ids,
  find_first_workspace_session_id, remove_session_from_workspace_layout,
  move_session_within_workspace_layout, update_workspace_split_ratio,
}
use dolssh.Workspace.Strip.{
  session_tab, workspace_tab, DynamicTabStripItem, session, WorkspaceTab, is_workspace, has_id,
  same_tab, resolve_next_visible_tab, Placement, reorder_strip,
}
use dolssh.Workspace.Store.State.{AppState, TerminalTab, disconnecting}
use dolssh.Workspace.Store.Drag.{
  update_workspace, drop_workspace, drop_workspace_item, index_or_end,
}

module _ (uuid : ℕ → String) where
  abbrev pub move_in :
      AppState
      → (workspace_id session_id : String) → WorkspaceDropDirection
      → String
      → Option WorkspaceTab
      → AppState × Bool
  move_in st workspace_id session_id direction target none = (st, false)
  move_in st workspace_id session_id direction target (some w) =
      let r =
        move_session_within_workspace_layout uuid w.layout session_id target direction
          st.next_uuid in
      (if not r.moved then (st, false) else (
        record st {
          workspaces =
              update_workspace workspace_id
                (λ item. record item { layout = r.layout; active_session_id = session_id })
                st.workspaces;
          active_workspace_tab = workspace_tab workspace_id;
          next_uuid = r.next;
        },
        true,
      ))

  unfoldable pub move_workspace_session :
      AppState
      → (workspace_id session_id : String) → WorkspaceDropDirection
      → String
      → AppState × Bool
  move_workspace_session st workspace_id session_id direction target =
      move_in st workspace_id session_id direction target
        (find_by (has_id workspace_id) st.workspaces)

-- A workspace whose last pane but one leaves is replaced on the strip by the two sessions.
unfoldable pub dissolve_workspace : AppState → (workspace_id session_id last : String) → AppState
dissolve_workspace st workspace_id session_id last =
    let index = index_by (is_workspace workspace_id) st.tab_strip in
    let strip = drop_workspace_item workspace_id st.tab_strip in
    let strip₁ = insert_at (index_or_end index strip) (session last) strip in
    let strip₂ =
      insert_at (index_or_end (Option.map suc index) strip₁) (session session_id) strip₁ in
    record st {
      workspaces = drop_workspace workspace_id st.workspaces;
      tab_strip = strip₂;
      active_workspace_tab = session_tab session_id;
    }

-- The workspace keeps its other panes, and the session gets a tab after the workspace's.
unfoldable pub shrink_workspace :
    AppState → (workspace_id session_id : String) → WorkspaceLayoutNode → AppState
shrink_workspace st workspace_id session_id reduced =
    let index = index_by (is_workspace workspace_id) st.tab_strip in
    record st {
      workspaces =
          update_workspace workspace_id
            (λ item. record item {
              layout = reduced;
              active_session_id =
                  if item.active_session_id == session_id
                  then find_first_workspace_session_id reduced
                  else item.active_session_id;
            })
            st.workspaces;
      tab_strip =
          insert_at (index_or_end (Option.map suc index) st.tab_strip) (session session_id)
            st.tab_strip;
      active_workspace_tab = session_tab session_id;
    }

unfoldable pub detach_reduced :
    AppState → (workspace_id session_id : String) → Option WorkspaceLayoutNode → AppState
unfolding dissolve_workspace shrink_workspace
detach_reduced st workspace_id session_id none = st
detach_reduced st workspace_id session_id (some (leaf id last)) =
    dissolve_workspace st workspace_id session_id last
detach_reduced st workspace_id session_id (some (split id axis ratio first second)) =
    shrink_workspace st workspace_id session_id (split id axis ratio first second)

abbrev pub detach_from :
    AppState → (workspace_id session_id : String) → Option WorkspaceTab → AppState
detach_from st workspace_id session_id none = st
detach_from st workspace_id session_id (some w) =
    detach_reduced st workspace_id session_id
      (remove_session_from_workspace_layout w.layout session_id)

unfoldable pub detach_session_from_workspace :
    AppState → (workspace_id session_id : String) → AppState
detach_session_from_workspace st workspace_id session_id =
    detach_from st workspace_id session_id (find_by (has_id workspace_id) st.workspaces)

unfoldable pub reorder_dynamic_tab :
    AppState → (source target : DynamicTabStripItem) → Placement → AppState
reorder_dynamic_tab st source target placement = record st {
  tab_strip = reorder_strip st.tab_strip source target placement;
}

unfoldable pub focus_workspace_session : AppState → (workspace_id session_id : String) → AppState
focus_workspace_session st workspace_id session_id = record st {
  workspaces =
      update_workspace workspace_id (λ w. record w { active_session_id = session_id })
        st.workspaces;
  active_workspace_tab = workspace_tab workspace_id;
}

unfoldable pub toggle_workspace_broadcast : AppState → String → AppState
toggle_workspace_broadcast st workspace_id = record st {
  workspaces =
      update_workspace workspace_id (λ w. record w { broadcast_enabled = not w.broadcast_enabled })
        st.workspaces;
}

unfoldable pub resize_workspace_split : AppState → (workspace_id split_id : String) → ℤ → AppState
resize_workspace_split st workspace_id split_id ratio = record st {
  workspaces =
      update_workspace workspace_id
        (λ w. record w { layout = update_workspace_split_ratio w.layout split_id ratio })
        st.workspaces;
}

-- `closeWorkspace` first asks for the sessions to be disconnected. The state is changed only once
-- every request has succeeded, and may have changed in between; the sessions are the earlier ones.
unfoldable pub close_workspace_requests : AppState → String → Option (List String)
close_workspace_requests st workspace_id =
    Option.map (λ w. list_workspace_session_ids w.layout)
      (find_by (has_id workspace_id) st.workspaces)

abbrev pub mark_disconnecting : String → TerminalTab → TerminalTab
mark_disconnecting now tab = record tab { status = disconnecting; last_event_at = now }

unfoldable pub close_workspace_commit : AppState → String → List String → String → AppState
close_workspace_commit st workspace_id session_ids now =
    let index = index_by (is_workspace workspace_id) st.tab_strip in
    let strip = drop_workspace_item workspace_id st.tab_strip in
    record st {
      workspaces = drop_workspace workspace_id st.workspaces;
      tab_strip = strip;
      tabs =
          map_where (λ tab. includes tab.session_id session_ids) (mark_disconnecting now) st.tabs;
      active_workspace_tab =
          if same_tab st.active_workspace_tab (workspace_tab workspace_id)
          then resolve_next_visible_tab strip (index_or_end index strip)
          else st.active_workspace_tab;
    }
