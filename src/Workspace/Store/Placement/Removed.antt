-- ===== src/Workspace/Store/Placement/Removed.antt =====
-- Removing a session: it has no place any more, and every other session keeps its own.
use dolssh.Prelude.{
  insert_at, ℕ, ◌+◌, ◌≤◌, ◌≡◌, refl, ap, String, Bool, true, Option, none, some, List, [], ◌∷◌,
  ◌==◌, if◌then◌else◌, find_by, count, count-append, arith, index_by, inl, inr, Option-cases,
  includes-count, not_includes-count,
}
use dolssh.Workspace.Layout.{
  WorkspaceLayoutNode, leaf, split, list_workspace_session_ids,
  remove_session_from_workspace_layout,
}
use dolssh.Workspace.Layout.Remove.{sessions_of, without, sessions_of-remove, count-without}
use dolssh.Workspace.Strip.{session, WorkspaceTab, is_workspace, has_id}
use dolssh.Workspace.Store.State.{AppState, placed, strip_sessions, workspace_ids, pane_sessions}
use dolssh.Workspace.Store.Drag.{
  drop_workspace, drop_workspace_item, drop_session_item, index_or_end,
}
use dolssh.Workspace.Store.Session.{
  shows, Arrangement, keep_reduced, remove_from_workspace, remove_arranged,
  remove_session_from_state,
}
use dolssh.Workspace.Store.Counting.{
  sessions-insert_at, sessions-drop_session, sessions-drop_workspace, panes-drop, panes-update,
}
use dolssh.Workspace.Store.Placement.{WellPlaced, places}
use dolssh.Workspace.Store.Placement.Detached.{count-placed, panes-le}

module _ (test : WorkspaceTab → Bool) where
  pub found-test :
      (ws : List WorkspaceTab) (w : WorkspaceTab) → find_by test ws ≡ some w → test w ≡ true
  found-test [] w h = cc
  found-test (x ∷ ws) w h = ground (arith, found-test ws w)

  found-listed :
      (ws : List WorkspaceTab) (w : WorkspaceTab)
      → find_by test ws ≡ some w
      → 1 ≤ count w.id (workspace_ids ws)
  found-listed [] w h = cc
  found-listed (x ∷ ws) w h = ground (arith, found-listed ws w)

  -- A workspace that is found by some test is found by its id.
  pub found-by_id :
      (ws : List WorkspaceTab) (w : WorkspaceTab)
      → count w.id (workspace_ids ws) ≤ 1
      → find_by test ws ≡ some w
      → find_by (has_id w.id) ws ≡ some w
  found-by_id [] w u h = cc
  found-by_id (x ∷ ws) w u h = ground (arith, found-by_id ws w, found-listed ws w)

not_shown-count :
    (s : String) (ws : List WorkspaceTab)
    → find_by (shows s) ws ≡ none
    → count s (pane_sessions ws) ≡ 0
not_shown-count s [] h = refl
not_shown-count s (w ∷ ws) h = ground (
  arith,
  not_shown-count s ws,
  count-append s (list_workspace_session_ids w.layout) (pane_sessions ws),
  not_includes-count s (list_workspace_session_ids w.layout),
)

abbrev arranged_places : String → Arrangement → ℕ
arranged_places a r = count a (placed r.tab_strip r.workspaces)

module _ (st : AppState) (s : String) (w : WorkspaceTab) (a : String)
    (found : find_by (has_id w.id) st.workspaces ≡ some w)
    (unique : count w.id (workspace_ids st.workspaces) ≤ 1)
    (off_strip : count s (strip_sessions st.tab_strip) ≡ 0)
    (one_place : count s (pane_sessions st.workspaces)
      ≡ count s (list_workspace_session_ids w.layout)) where
  kept-panes :
      (node : WorkspaceLayoutNode)
      → count a (pane_sessions (keep_reduced st s w node).workspaces)
          + count a (list_workspace_session_ids w.layout)
        ≡ count a (pane_sessions st.workspaces) + count a (list_workspace_session_ids node)
  kept-panes node = panes-update w.id _ st.workspaces w a unique found

  remove_from-places :
      (o : Option WorkspaceLayoutNode)
      → sessions_of o ≡ without s (list_workspace_session_ids w.layout)
      → arranged_places a (remove_from_workspace st s w o) ≡ (if s == a then 0 else places a st)
  unfolding remove_from_workspace list_workspace_session_ids
  remove_from-places none e = ground (
    arith,
    ap (count a) e,
    count-without s a (list_workspace_session_ids w.layout),
    panes-drop w.id st.workspaces w a unique found,
    count-placed a st.tab_strip st.workspaces,
    count-placed a (drop_workspace_item w.id st.tab_strip) (drop_workspace w.id st.workspaces),
    ap (count a) (sessions-drop_workspace w.id st.tab_strip),
  )
  remove_from-places (some (leaf i last)) e =
      let strip = drop_workspace_item w.id st.tab_strip in
      let k = index_or_end (index_by (is_workspace w.id) st.tab_strip) strip in
      ground (
        arith,
        ap (count a) e,
        count-without s a (list_workspace_session_ids w.layout),
        panes-drop w.id st.workspaces w a unique found,
        count-placed a st.tab_strip st.workspaces,
        count-placed a (insert_at k (session last) strip) (drop_workspace w.id st.workspaces),
        sessions-insert_at a k (session last) strip,
        ap (count a) (sessions-drop_workspace w.id st.tab_strip),
      )
  remove_from-places (some (split i axis ratio first second)) e =
      let r = keep_reduced st s w (split i axis ratio first second) in
      ground (
        arith,
        ap (count a) e,
        count-without s a (list_workspace_session_ids w.layout),
        kept-panes (split i axis ratio first second),
        count-placed a st.tab_strip st.workspaces,
        count-placed a (drop_session_item s st.tab_strip) r.workspaces,
        sessions-drop_session a s st.tab_strip,
      )

-- In a store where every session is well placed, a session that is removed has no place left, and
-- every other session keeps how many it has.
pub remove-places :
    (uuid : ℕ → String) (st : AppState) (s a : String)
    → WellPlaced uuid st
    → places a (remove_session_from_state st s) ≡ (if s == a then 0 else places a st)
unfolding remove_session_from_state remove_arranged
remove-places uuid st s a v = elim (Option-cases (find_by (shows s) st.workspaces)) [
  | inl e ↦
      rw (e, remove_arranged)
        (ground (
          arith,
          not_shown-count s st.workspaces e,
          sessions-drop_session a s st.tab_strip,
          count-placed a st.tab_strip st.workspaces,
          count-placed a (drop_session_item s st.tab_strip) st.workspaces,
        ))
  | inr (w, e) ↦
      let found = found-by_id (shows s) st.workspaces w (v.unique w.id) e in
      let there =
        includes-count s (list_workspace_session_ids w.layout)
          (found-test (shows s) st.workspaces w e) in
      let below = panes-le w.id s st.workspaces w found in
      let all = count-placed s st.tab_strip st.workspaces in
      let o = v.once s in
      rw (e, remove_arranged)
        (remove_from-places st s w a found (v.unique w.id) (omega arith) (omega arith)
          (remove_session_from_workspace_layout w.layout s) (sessions_of-remove w.layout s))
]
