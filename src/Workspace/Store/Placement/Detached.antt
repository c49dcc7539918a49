-- ===== src/Workspace/Store/Placement/Detached.antt =====
-- Taking a session out of its workspace: it keeps its one place, now a tab of its own.
use mathlib.Core.Option
use dolssh.Prelude.{
  ℕ, suc, ◌+◌, ◌≤◌, ◌≡◌, refl, ap, String, true, Option, none, some, List, [], ◌∷◌, ◌==◌, find_by,
  insert_at, count, count-append, includes, arith, index_by, includes-count,
}
use dolssh.Workspace.Layout.{
  WorkspaceLayoutNode, leaf, split, list_workspace_session_ids,
  remove_session_from_workspace_layout,
}
use dolssh.Workspace.Layout.Remove.{sessions_of, without, sessions_of-remove, count-without}
use dolssh.Workspace.Strip.{DynamicTabStripItem, session, WorkspaceTab, is_workspace, has_id}
use dolssh.Workspace.Store.State.{AppState, placed, strip_sessions, workspace_ids, pane_sessions}
use dolssh.Workspace.Store.Drag.{drop_workspace_item, index_or_end}
use dolssh.Workspace.Store.Panes.{
  dissolve_workspace, shrink_workspace, detach_reduced, detach_from, detach_session_from_workspace,
}
use dolssh.Workspace.Store.Counting.{
  one_if, sessions-insert_at, sessions-drop_workspace, panes-drop, panes-update,
}
use dolssh.Workspace.Store.Placement.{WellPlaced, places}

pub count-placed :
    (a : String) (xs : List DynamicTabStripItem) (ws : List WorkspaceTab)
    → count a (placed xs ws) ≡ count a (strip_sessions xs) + count a (pane_sessions ws)
count-placed a xs ws = count-append a (strip_sessions xs) (pane_sessions ws)

pub panes-le :
    (id a : String) (ws : List WorkspaceTab) (w : WorkspaceTab)
    → find_by (has_id id) ws ≡ some w
    → count a (list_workspace_session_ids w.layout) ≤ count a (pane_sessions ws)
panes-le id a [] w h = cc
panes-le id a (x ∷ ws) w h = ground (
  arith,
  panes-le id a ws w,
  count-append a (list_workspace_session_ids x.layout) (pane_sessions ws),
)

module _ (st : AppState) (id s : String) (w : WorkspaceTab)
    (found : find_by (has_id id) st.workspaces ≡ some w) where
  dissolve-strip :
      (last a : String)
      → count a (strip_sessions (dissolve_workspace st id s last).tab_strip)
        ≡ one_if (last == a) + one_if (s == a) + count a (strip_sessions st.tab_strip)
  unfolding dissolve_workspace
  dissolve-strip last a =
      let index = index_by (is_workspace id) st.tab_strip in
      let strip = drop_workspace_item id st.tab_strip in
      let strip₁ = insert_at (index_or_end index strip) (session last) strip in
      omega (
        arith,
        sessions-insert_at a (index_or_end (Option.map suc index) strip₁) (session s) strip₁,
        sessions-insert_at a (index_or_end index strip) (session last) strip,
        ap (count a) (sessions-drop_workspace id st.tab_strip),
      )

  dissolve-panes :
      (last a : String)
      → count id (workspace_ids st.workspaces) ≤ 1
      → count a (pane_sessions (dissolve_workspace st id s last).workspaces)
          + count a (list_workspace_session_ids w.layout)
        ≡ count a (pane_sessions st.workspaces)
  unfolding dissolve_workspace
  dissolve-panes last a u = panes-drop id st.workspaces w a u found

  shrink-strip :
      (node : WorkspaceLayoutNode) (a : String)
      → count a (strip_sessions (shrink_workspace st id s node).tab_strip)
        ≡ one_if (s == a) + count a (strip_sessions st.tab_strip)
  unfolding shrink_workspace
  shrink-strip node a =
      let index = index_by (is_workspace id) st.tab_strip in
      omega (
        arith,
        sessions-insert_at a (index_or_end (Option.map suc index) st.tab_strip) (session s)
            st.tab_strip,
      )

  shrink-panes :
      (node : WorkspaceLayoutNode) (a : String)
      → count id (workspace_ids st.workspaces) ≤ 1
      → count a (pane_sessions (shrink_workspace st id s node).workspaces)
          + count a (list_workspace_session_ids w.layout)
        ≡ count a (pane_sessions st.workspaces) + count a (list_workspace_session_ids node)
  unfolding shrink_workspace
  shrink-panes node a u = panes-update id _ st.workspaces w a u found

  -- `o` is what is left of the layout when the session leaves it.
  pub detach_reduced-places :
      (o : Option WorkspaceLayoutNode) (a : String)
      → count id (workspace_ids st.workspaces) ≤ 1
      → count s (list_workspace_session_ids w.layout) ≡ 1
      → sessions_of o ≡ without s (list_workspace_session_ids w.layout)
      → places a (detach_reduced st id s o) ≡ places a st
  unfolding detach_reduced list_workspace_session_ids
  detach_reduced-places none a u c e = refl
  detach_reduced-places (some (leaf i last)) a u c e =
      let p = dissolve_workspace st id s last in
      ground (
        arith,
        ap (count a) e,
        count-without s a (list_workspace_session_ids w.layout),
        count-placed a st.tab_strip st.workspaces,
        count-placed a p.tab_strip p.workspaces,
        dissolve-strip last a,
        dissolve-panes last a,
      )
  detach_reduced-places (some (split i axis ratio first second)) a u c e =
      let node = split i axis ratio first second in
      let p = shrink_workspace st id s node in
      ground (
        arith,
        ap (count a) e,
        count-without s a (list_workspace_session_ids w.layout),
        count-placed a st.tab_strip st.workspaces,
        count-placed a p.tab_strip p.workspaces,
        shrink-strip node a,
        shrink-panes node a,
      )

  -- A session with one place at most that is in the workspace has one pane there.
  pub one_pane :
      places s st ≤ 1
      → includes s (list_workspace_session_ids w.layout) ≡ true
      → count s (list_workspace_session_ids w.layout) ≡ 1
  one_pane o there = omega (
    arith,
    count-placed s st.tab_strip st.workspaces,
    panes-le id s st.workspaces w found,
    includes-count s (list_workspace_session_ids w.layout) there,
  )

-- In a store where every session is well placed, detaching a session from the workspace that shows
-- it keeps how many places every session has.
pub detach-places :
    (uuid : ℕ → String) (st : AppState) (id s : String) (w : WorkspaceTab) (a : String)
    → find_by (has_id id) st.workspaces ≡ some w
    → includes s (list_workspace_session_ids w.layout) ≡ true
    → WellPlaced uuid st
    → places a (detach_session_from_workspace st id s) ≡ places a st
unfolding detach_session_from_workspace
detach-places uuid st id s w a found there v =
    rw (found, detach_from)
      (detach_reduced-places st id s w found (remove_session_from_workspace_layout w.layout s) a
        (v.unique id) (one_pane st id s w found (v.once s) there) (sessions_of-remove w.layout s))
