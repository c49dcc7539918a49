-- ===== src/Workspace/Store/Drag.antt =====
-- The store's operations that move sessions between the strip and the workspaces: dropping one tab
-- beside another, from
-- apps/desktop/src/renderer/store/createAppStore.ts. An operation returns the new state, with the
-- answer where the source returns one.
use Prim.Native.String
use dolssh.Prelude.{
  ℕ, suc, String, Bool, true, false, not, Option, none, some, List, [], ◌∷◌, ◌++◌, ◌||◌, ◌&&◌, ◌==◌,
  leb, if◌then◌else◌, find_by, index_by, insert_at, filter_by, map_where, length, includes, min,
}
use dolssh.Prelude.Fresh.{first_free}
use dolssh.Prelude.Decimal.{decimal}
use dolssh.Workspace.Layout.{
  WorkspaceDropDirection, create_workspace_split, list_workspace_session_ids,
  count_workspace_sessions, find_first_workspace_session_id, insert_session_into_workspace_layout,
}
use dolssh.Workspace.Strip.{
  workspace_tab, DynamicTabStripItem, session, workspace, WorkspaceTab, is_session, is_workspace,
  has_id, resolve_adjacent_target,
}
use dolssh.Workspace.Store.State.{AppState}

-- `Workspace (n)`.
abbrev pub numbered_title : ℕ → String
numbered_title n = String.◌++◌ "Workspace (" (String.◌++◌ (decimal n) ")")

abbrev pub titles : List WorkspaceTab → List String
titles [] = []
titles (w ∷ ws) = w.title ∷ titles ws

-- The search for a number has more fuel than there are titles.
unfoldable pub build_workspace_title : List WorkspaceTab → String
build_workspace_title workspaces =
    let existing = titles workspaces in
    (if not (includes "Workspace" existing)
      then "Workspace"
      else numbered_title (first_free numbered_title (suc (length existing)) 1 existing))

-- `f` at the workspaces with an id.
abbrev pub update_workspace :
    String → (WorkspaceTab → WorkspaceTab) → List WorkspaceTab → List WorkspaceTab
update_workspace id f = map_where (has_id id) f

abbrev pub drop_workspace : String → List WorkspaceTab → List WorkspaceTab
drop_workspace id = filter_by (λ w. not (has_id id w))

abbrev pub drop_session_item : String → List DynamicTabStripItem → List DynamicTabStripItem
drop_session_item s = filter_by (λ item. not (is_session s item))

abbrev pub drop_workspace_item : String → List DynamicTabStripItem → List DynamicTabStripItem
drop_workspace_item id = filter_by (λ item. not (is_workspace id item))

-- `workspaceIndex >= 0 ? workspaceIndex : strip.length`.
abbrev pub index_or_end {ℓ} : {A : Type ℓ} → Option ℕ → List A → ℕ
index_or_end none strip = length strip
index_or_end (some i) strip = i

-- `targetSessionId && sessions.includes(targetSessionId)`: the empty text counts as no target.
abbrev pub names_pane : Option String → List String → Bool
names_pane none sessions = false
names_pane (some target) sessions = not (target == "") && includes target sessions

abbrev pub text_or_empty : Option String → String
text_or_empty none = ""
text_or_empty (some s) = s

unfoldable pub resolve_target : Option String → WorkspaceTab → String
resolve_target target w =
    let sessions = list_workspace_session_ids w.layout in
    (if names_pane target sessions
      then text_or_empty target
      else (if includes w.active_session_id sessions
          then w.active_session_id
          else find_first_workspace_session_id w.layout))

module _ (uuid : ℕ → String) where
  -- Two tabs of the strip become a workspace in the place of the first of them.
  unfoldable pub pair_sessions :
      AppState
      → (session_id adjacent : String) → WorkspaceDropDirection
      → (current_index adjacent_index : ℕ) → AppState
  pair_sessions st session_id adjacent direction current_index adjacent_index =
      let workspace_id = uuid st.next_uuid in
      let (layout, next) =
        create_workspace_split uuid adjacent session_id direction (suc st.next_uuid) in
      let w : WorkspaceTab = record {
        id = workspace_id;
        title = build_workspace_title st.workspaces;
        layout = layout;
        active_session_id = session_id;
        broadcast_enabled = false;
      } in
      let strip =
        filter_by (λ item. not (is_session session_id item || is_session adjacent item))
          st.tab_strip in
      record st {
        workspaces = st.workspaces ++ w ∷ [];
        tab_strip = insert_at (min current_index adjacent_index) (workspace workspace_id) strip;
        active_workspace_tab = workspace_tab workspace_id;
        next_uuid = next;
      }

  abbrev pub pair_at :
      AppState
      → (session_id adjacent : String) → WorkspaceDropDirection
      → Option ℕ
      → Option ℕ
      → AppState × Bool
  pair_at st session_id adjacent direction (some i) (some j) =
      (pair_sessions st session_id adjacent direction i j, true)
  pair_at st session_id adjacent direction (some i) none = (st, false)
  pair_at st session_id adjacent direction none j = (st, false)

  -- A tab of the strip becomes a pane of a workspace.
  unfoldable pub join_workspace :
      AppState
      → String
      → WorkspaceDropDirection
      → Option String
      → Option WorkspaceTab
      → AppState × Bool
  join_workspace st session_id direction target none = (st, false)
  join_workspace st session_id direction target (some w) =
      if leb 4 (count_workspace_sessions w.layout)
      then (st, false)
      else let r =
          insert_session_into_workspace_layout uuid w.layout (resolve_target target w) session_id
            direction st.next_uuid in
        (if not r.inserted then (st, false) else (
          record st {
            workspaces =
                update_workspace w.id
                  (λ item. record item { layout = r.layout; active_session_id = session_id })
                  st.workspaces;
            tab_strip = drop_session_item session_id st.tab_strip;
            active_workspace_tab = workspace_tab w.id;
            next_uuid = r.next;
          },
          true,
        ))

  abbrev pub split_beside :
      AppState
      → String
      → WorkspaceDropDirection
      → Option String
      → Option DynamicTabStripItem
      → AppState × Bool
  split_beside st session_id direction target none = (st, false)
  split_beside st session_id direction target (some (session adjacent)) =
      pair_at st session_id adjacent direction (index_by (is_session session_id) st.tab_strip)
        (index_by (is_session adjacent) st.tab_strip)
  split_beside st session_id direction target (some (workspace id)) =
      join_workspace st session_id direction target (find_by (has_id id) st.workspaces)

  unfoldable pub split_session_into_workspace :
      AppState → String → WorkspaceDropDirection → Option String → AppState × Bool
  split_session_into_workspace st session_id direction target =
      split_beside st session_id direction target
        (resolve_adjacent_target st.tab_strip st.workspaces session_id)
