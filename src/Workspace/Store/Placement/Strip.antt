-- ===== src/Workspace/Store/Placement/Strip.antt =====
-- Reordering the strip, bringing a session to the front of its workspace and closing a workspace
-- keep the invariant of the store.
use dolssh.Prelude.{
  count-append, ℕ, ◌+◌, ◌≤◌, ◌≡◌, refl, ap, ◌∙◌, String, true, some, List, [], ◌∷◌, find_by, count,
  includes, arith,
}
use dolssh.Workspace.Layout.{list_workspace_session_ids}
use dolssh.Workspace.Strip.{
  WorkspaceTab, has_id, DynamicTabStripItem, session, workspace, Placement, reorder_strip,
}
use dolssh.Workspace.Strip.Reorder.{reorder_lem, take_out, place, holds, holds-take_out}
use dolssh.Workspace.Store.State.{AppState, strip_sessions, strip_workspaces, pane_sessions}
use dolssh.Workspace.Store.Drag.{drop_workspace, drop_workspace_item}
use dolssh.Workspace.Store.Panes.{
  focus_workspace_session, reorder_dynamic_tab, close_workspace_commit,
}
use dolssh.Workspace.Store.Counting.{
  ids-update, ids-drop, sessions-drop_workspace, workspaces-drop_workspace,
}
use dolssh.Workspace.Store.Placement.{
  IsShown, WellPlaced, find-IsShown, drop-AllShown, update-AllShown_one,
}
use dolssh.Workspace.Store.Placement.Panes.{panes-keep}
use dolssh.Workspace.Store.Placement.Detached.{count-placed}

module _ (a : String) where
  sessions-place :
      (p : Placement) (b x : DynamicTabStripItem) (xs : List DynamicTabStripItem)
      → holds b xs ≡ true
      → count a (strip_sessions (place p b x xs))
        ≡ count a (strip_sessions (x ∷ [])) + count a (strip_sessions xs)
  sessions-place p b x [] h = cc
  sessions-place p b (session s) (session y ∷ xs) h =
      ground (arith, sessions-place p b (session s) xs)
  sessions-place p b (session s) (workspace y ∷ xs) h =
      ground (arith, sessions-place p b (session s) xs)
  sessions-place p b (workspace s) (session y ∷ xs) h =
      ground (arith, sessions-place p b (workspace s) xs)
  sessions-place p b (workspace s) (workspace y ∷ xs) h =
      ground (arith, sessions-place p b (workspace s) xs)

  workspaces-place :
      (p : Placement) (b x : DynamicTabStripItem) (xs : List DynamicTabStripItem)
      → holds b xs ≡ true
      → count a (strip_workspaces (place p b x xs))
        ≡ count a (strip_workspaces (x ∷ [])) + count a (strip_workspaces xs)
  workspaces-place p b x [] h = cc
  workspaces-place p b (session s) (session y ∷ xs) h =
      ground (arith, workspaces-place p b (session s) xs)
  workspaces-place p b (session s) (workspace y ∷ xs) h =
      ground (arith, workspaces-place p b (session s) xs)
  workspaces-place p b (workspace s) (session y ∷ xs) h =
      ground (arith, workspaces-place p b (workspace s) xs)
  workspaces-place p b (workspace s) (workspace y ∷ xs) h =
      ground (arith, workspaces-place p b (workspace s) xs)

  sessions-take_out :
      (x : DynamicTabStripItem) (xs : List DynamicTabStripItem)
      → holds x xs ≡ true
      → count a (strip_sessions (x ∷ [])) + count a (strip_sessions (take_out x xs))
        ≡ count a (strip_sessions xs)
  sessions-take_out x [] h = cc
  sessions-take_out (session s) (session y ∷ xs) h =
      ground (arith, sessions-take_out (session s) xs)
  sessions-take_out (session s) (workspace y ∷ xs) h =
      ground (arith, sessions-take_out (session s) xs)
  sessions-take_out (workspace s) (session y ∷ xs) h =
      ground (arith, sessions-take_out (workspace s) xs)
  sessions-take_out (workspace s) (workspace y ∷ xs) h =
      ground (arith, sessions-take_out (workspace s) xs)

  workspaces-take_out :
      (x : DynamicTabStripItem) (xs : List DynamicTabStripItem)
      → holds x xs ≡ true
      → count a (strip_workspaces (x ∷ [])) + count a (strip_workspaces (take_out x xs))
        ≡ count a (strip_workspaces xs)
  workspaces-take_out x [] h = cc
  workspaces-take_out (session s) (session y ∷ xs) h =
      ground (arith, workspaces-take_out (session s) xs)
  workspaces-take_out (session s) (workspace y ∷ xs) h =
      ground (arith, workspaces-take_out (session s) xs)
  workspaces-take_out (workspace s) (session y ∷ xs) h =
      ground (arith, workspaces-take_out (workspace s) xs)
  workspaces-take_out (workspace s) (workspace y ∷ xs) h =
      ground (arith, workspaces-take_out (workspace s) xs)

  sessions-reorder :
      (strip : List DynamicTabStripItem) (x b : DynamicTabStripItem) (p : Placement)
      → count a (strip_sessions (reorder_strip strip x b p)) ≡ count a (strip_sessions strip)
  sessions-reorder strip x b p = rw (reorder_lem strip x b p) (
      ground (
        arith,
        holds-take_out x b strip,
        sessions-place p b x (take_out x strip),
        sessions-take_out x strip,
      ))

  workspaces-reorder :
      (strip : List DynamicTabStripItem) (x b : DynamicTabStripItem) (p : Placement)
      → count a (strip_workspaces (reorder_strip strip x b p)) ≡ count a (strip_workspaces strip)
  workspaces-reorder strip x b p = rw (reorder_lem strip x b p) (
      ground (
        arith,
        holds-take_out x b strip,
        workspaces-place p b x (take_out x strip),
        workspaces-take_out x strip,
      ))

pub reorder-WellPlaced :
    (uuid : ℕ → String) (st : AppState) (x b : DynamicTabStripItem) (p : Placement)
    → WellPlaced uuid st
    → WellPlaced uuid (reorder_dynamic_tab st x b p)
unfolding reorder_dynamic_tab
reorder-WellPlaced uuid st x b p v = record {
  once = λ a. omega (
    arith,
    v.once a,
    sessions-reorder a st.tab_strip x b p,
    count-placed a st.tab_strip st.workspaces,
    count-placed a (reorder_strip st.tab_strip x b p) st.workspaces,
  );
  unique = v.unique;
  listed = λ a. workspaces-reorder a st.tab_strip x b p ∙ v.listed a;
  fresh = v.fresh;
  shown = v.shown;
}

-- A session is brought to the front of a workspace that shows it.
pub focus-WellPlaced :
    (uuid : ℕ → String) (st : AppState) (id s : String) (w : WorkspaceTab)
    → find_by (has_id id) st.workspaces ≡ some w
    → includes s (list_workspace_session_ids w.layout) ≡ true
    → WellPlaced uuid st
    → WellPlaced uuid (focus_workspace_session st id s)
unfolding focus_workspace_session
focus-WellPlaced uuid st id s w found there v =
    let f : WorkspaceTab → WorkspaceTab = λ item. record item { active_session_id = s } in
    let ids = ids-update id f st.workspaces (λ _. refl) in
    let panes = panes-keep id f st.workspaces (λ _. refl) in
    let k = find-IsShown id st.workspaces w found v.shown in
    let shown : IsShown (f w) = record {
      several = k.several;
      few = k.few;
      active = there;
      ratios = k.ratios;
    } in
    record {
      once = λ a. rw panes (v.once a);
      unique = λ a. rw ids (v.unique a);
      listed = λ a. rw ids (v.listed a);
      fresh = λ n h. rw ids (v.fresh n h);
      shown = update-AllShown_one id f st.workspaces w (v.unique id) found shown v.shown;
    }

panes-drop-le :
    (id a : String) (ws : List WorkspaceTab)
    → count a (pane_sessions (drop_workspace id ws)) ≤ count a (pane_sessions ws)
panes-drop-le id a [] = omega arith
panes-drop-le id a (w ∷ ws) = ground (
  arith,
  panes-drop-le id a ws,
  count-append a (list_workspace_session_ids w.layout) (pane_sessions ws),
  count-append a (list_workspace_session_ids w.layout) (pane_sessions (drop_workspace id ws)),
)

-- Closing a workspace takes it from the list and from the strip.
pub close-WellPlaced :
    (uuid : ℕ → String) (st : AppState) (id : String) (sessions : List String) (now : String)
    → WellPlaced uuid st
    → WellPlaced uuid (close_workspace_commit st id sessions now)
unfolding close_workspace_commit
close-WellPlaced uuid st id sessions now v = record {
  once = λ a. omega (
    arith,
    v.once a,
    panes-drop-le id a st.workspaces,
    ap (count a) (sessions-drop_workspace id st.tab_strip),
    count-placed a st.tab_strip st.workspaces,
    count-placed a (drop_workspace_item id st.tab_strip) (drop_workspace id st.workspaces),
  );
  unique = λ a. ground (arith, ids-drop id st.workspaces a, v.unique a);
  listed = λ a.
      ground (
        arith,
        v.listed a,
        ids-drop id st.workspaces a,
        workspaces-drop_workspace a id st.tab_strip,
      );
  fresh = λ n h. ground (arith, v.fresh n h, ids-drop id st.workspaces (uuid n));
  shown = drop-AllShown id st.workspaces v.shown;
}
