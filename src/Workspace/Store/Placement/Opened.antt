-- ===== src/Workspace/Store/Placement/Opened.antt =====
-- Opening a tab for a session and bringing a session to the front keep the invariant of the store.
use dolssh.Prelude.{
  ℕ, ◌+◌, ◌≡◌, refl, ap, String, List, [], ◌∷◌, ◌++◌, ◌==◌, if◌then◌else◌, find_by, count, arith,
  inl, inr, Option-cases,
}
use dolssh.Workspace.Strip.{DynamicTabStripItem, session, workspace, WorkspaceTab}
use dolssh.Workspace.Store.State.{
  AppState, TerminalTab, PendingConnectionAttempt, strip_sessions, strip_workspaces, pane_sessions,
}
use dolssh.Workspace.Store.Drag.{drop_session_item}
use dolssh.Workspace.Store.Session.{shows, activate_owned, activate_session_context_in_state}
use dolssh.Workspace.Store.Opening.{open_tab}
use dolssh.Workspace.Store.Counting.{
  sessions-drop_session, workspaces-drop_session, one_if, ids-update,
}
use dolssh.Workspace.Store.Placement.{
  IsShown, WellPlaced, places, find-IsShown, update-AllShown_one,
}
use dolssh.Workspace.Store.Placement.Detached.{count-placed}
use dolssh.Workspace.Store.Placement.Panes.{panes-keep}
use dolssh.Workspace.Store.Placement.Removed.{found-by_id, found-test}

sessions-end :
    (a s : String) (xs : List DynamicTabStripItem)
    → count a (strip_sessions (xs ++ session s ∷ []))
      ≡ count a (strip_sessions xs) + one_if (s == a)
sessions-end a s [] = omega arith
sessions-end a s (session x ∷ xs) = omega (arith, sessions-end a s xs)
sessions-end a s (workspace w ∷ xs) = sessions-end a s xs

workspaces-end :
    (s : String) (xs : List DynamicTabStripItem)
    → strip_workspaces (xs ++ session s ∷ []) ≡ strip_workspaces xs
workspaces-end s [] = refl
workspaces-end s (session x ∷ xs) = workspaces-end s xs
workspaces-end s (workspace w ∷ xs) = ap (◌∷◌ w) (workspaces-end s xs)

-- A session that no workspace shows is opened: it has the one tab at the end of the strip, and
-- every other session keeps its places.
pub open-places :
    (st : AppState) (s a : String) (tab : TerminalTab) (attempt : PendingConnectionAttempt)
    → count s (pane_sessions st.workspaces) ≡ 0
    → places a (open_tab st s tab attempt) ≡ (if s == a then 1 else places a st)
unfolding open_tab
open-places st s a tab attempt h =
    let strip = drop_session_item s st.tab_strip in
    ground (
      arith,
      sessions-end a s strip,
      sessions-drop_session a s st.tab_strip,
      count-placed a st.tab_strip st.workspaces,
      count-placed a (strip ++ session s ∷ []) st.workspaces,
    )

pub open-WellPlaced :
    (uuid : ℕ → String) (st : AppState) (s : String) (tab : TerminalTab)
    (attempt : PendingConnectionAttempt)
    → count s (pane_sessions st.workspaces) ≡ 0
    → WellPlaced uuid st
    → WellPlaced uuid (open_tab st s tab attempt)
unfolding open_tab
open-WellPlaced uuid st s tab attempt h v = record {
  once = λ a. ground (arith, open-places st s a tab attempt h, v.once a);
  unique = v.unique;
  listed = λ a.
      rw
        (
          workspaces-end s (drop_session_item s st.tab_strip),
          workspaces-drop_session s st.tab_strip,
        )
        (v.listed a);
  fresh = v.fresh;
  shown = v.shown;
}

-- Bringing a session to the front keeps the invariant: where a workspace shows it, it is a pane.
pub activate-WellPlaced :
    (uuid : ℕ → String) (st : AppState) (s : String)
    → WellPlaced uuid st
    → WellPlaced uuid (activate_session_context_in_state st s)
unfolding activate_session_context_in_state
activate-WellPlaced uuid st s v = elim (Option-cases (find_by (shows s) st.workspaces)) [
  | inl e ↦
      rw (e, activate_owned)
        (record {
          once = v.once;
          unique = v.unique;
          listed = v.listed;
          fresh = v.fresh;
          shown = v.shown;
        })
  | inr (w, e) ↦
      let found = found-by_id (shows s) st.workspaces w (v.unique w.id) e in
      let f : WorkspaceTab → WorkspaceTab = λ item. record item { active_session_id = s } in
      let ids = ids-update w.id f st.workspaces (λ _. refl) in
      let panes = panes-keep w.id f st.workspaces (λ _. refl) in
      let k = find-IsShown w.id st.workspaces w found v.shown in
      let shown : IsShown (f w) = record {
        several = k.several;
        few = k.few;
        active = found-test (shows s) st.workspaces w e;
        ratios = k.ratios;
      } in
      rw (e, activate_owned)
        (record {
          once = λ a. rw panes (v.once a);
          unique = λ a. rw ids (v.unique a);
          listed = λ a. rw ids (v.listed a);
          fresh = λ n h. rw ids (v.fresh n h);
          shown = update-AllShown_one w.id f st.workspaces w (v.unique w.id) found shown v.shown;
        })
]
