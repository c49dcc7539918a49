-- ===== src/Workspace/Store/Placement/Remaining.antt =====
-- Removing a session keeps the invariant of the store for the sessions that remain.
use dolssh.Prelude.Int.{ℤ}
use dolssh.Prelude.{
  ℕ, ◌≤◌, ◌≡◌, refl, ◌∙◌, String, Option, none, some, ◌==◌, if◌then◌else◌, find_by, count, arith,
  index_by, inl, inr, Option-cases,
}
use dolssh.Workspace.Layout.{
  Axis, WorkspaceLayoutNode, leaf, split, list_workspace_session_ids,
  remove_session_from_workspace_layout, find_first_workspace_session_id,
}
use dolssh.Workspace.Layout.Remove.{sessions_of, without, sessions_of-remove}
use dolssh.Workspace.Layout.Ratios.{RatiosInRange, AllInRange, remove-AllInRange}
use dolssh.Workspace.Strip.{WorkspaceTab, is_workspace, has_id}
use dolssh.Workspace.Store.State.{AppState, strip_workspaces, workspace_ids}
use dolssh.Workspace.Store.Drag.{drop_workspace_item, index_or_end}
use dolssh.Workspace.Store.Session.{
  shows, Arrangement, close_emptied, replace_by_last, keep_reduced, remove_from_workspace,
  remove_arranged, remove_session_from_state,
}
use dolssh.Workspace.Store.Counting.{
  workspaces-insert_session, workspaces-drop_session, workspaces-drop_workspace, ids-drop,
  ids-update,
}
use dolssh.Workspace.Store.Placement.{
  AllShown, WellPlaced, find-IsShown, drop-AllShown, update-AllShown_one,
}
use dolssh.Workspace.Store.Placement.Shrunk.{shrunk-IsShown}
use dolssh.Workspace.Store.Placement.Removed.{found-by_id, remove-places}

-- The invariant but for the places, of an arrangement after which no new id has been drawn.
record IsKept (uuid : ℕ → String) (next : ℕ) (r : Arrangement) : Type 0 where
  unique : (a : String) → count a (workspace_ids r.workspaces) ≤ 1
  listed :
      (a : String) → count a (strip_workspaces r.tab_strip) ≡ count a (workspace_ids r.workspaces)
  fresh : (n : ℕ) → next ≤ n → count (uuid n) (workspace_ids r.workspaces) ≡ 0
  shown : AllShown r.workspaces

module _ (uuid : ℕ → String) (st : AppState) (v : WellPlaced uuid st) (s : String)
    (w : WorkspaceTab) (found : find_by (has_id w.id) st.workspaces ≡ some w) where
  close_emptied-IsKept : IsKept uuid st.next_uuid (close_emptied st w)
  close_emptied-IsKept = record {
    unique = λ a. ground (arith, ids-drop w.id st.workspaces a, v.unique a);
    listed = λ a. ground (
      arith,
      v.listed a,
      ids-drop w.id st.workspaces a,
      workspaces-drop_workspace a w.id st.tab_strip,
    );
    fresh = λ n h. ground (arith, v.fresh n h, ids-drop w.id st.workspaces (uuid n));
    shown = drop-AllShown w.id st.workspaces v.shown;
  }

  replace_by_last-IsKept : (last : String) → IsKept uuid st.next_uuid (replace_by_last st w last)
  replace_by_last-IsKept last =
      let k = close_emptied-IsKept in
      let strip = drop_workspace_item w.id st.tab_strip in
      let i = index_or_end (index_by (is_workspace w.id) st.tab_strip) strip in
      record {
        unique = k.unique;
        listed = λ a. workspaces-insert_session a i last strip ∙ k.listed a;
        fresh = k.fresh;
        shown = k.shown;
      }

  keep_reduced-IsKept :
      (i : String) (axis : Axis) (ratio : ℤ) (first second : WorkspaceLayoutNode)
      → list_workspace_session_ids (split i axis ratio first second)
        ≡ without s (list_workspace_session_ids w.layout)
      → RatiosInRange (split i axis ratio first second)
      → IsKept uuid st.next_uuid (keep_reduced st s w (split i axis ratio first second))
  keep_reduced-IsKept i axis ratio first second e k =
      let node = split i axis ratio first second in
      let f : WorkspaceTab → WorkspaceTab = λ item. record item {
        layout = node;
        active_session_id =
            if item.active_session_id == s
            then find_first_workspace_session_id node
            else item.active_session_id;
      } in
      let same = ids-update w.id f st.workspaces (λ _. refl) in
      let w_shown = find-IsShown w.id st.workspaces w found v.shown in
      record {
        unique = λ a. rw same (v.unique a);
        listed = λ a. rw (same, workspaces-drop_session s st.tab_strip) (v.listed a);
        fresh = λ n h. rw same (v.fresh n h);
        shown =
            update-AllShown_one w.id f st.workspaces w (v.unique w.id) found
              (shrunk-IsShown st w.id s w found i axis ratio first second w_shown e k) v.shown;
      }

  remove_from-IsKept :
      (o : Option WorkspaceLayoutNode)
      → sessions_of o ≡ without s (list_workspace_session_ids w.layout)
      → AllInRange o
      → IsKept uuid st.next_uuid (remove_from_workspace st s w o)
  unfolding remove_from_workspace
  remove_from-IsKept none e k = close_emptied-IsKept
  remove_from-IsKept (some (leaf i last)) e k = replace_by_last-IsKept last
  remove_from-IsKept (some (split i axis ratio first second)) e k =
      keep_reduced-IsKept i axis ratio first second e k

remove_arranged-IsKept :
    (uuid : ℕ → String) (st : AppState) (s : String)
    → WellPlaced uuid st
    → IsKept uuid st.next_uuid (remove_arranged st s (find_by (shows s) st.workspaces))
unfolding remove_arranged
remove_arranged-IsKept uuid st s v = elim (Option-cases (find_by (shows s) st.workspaces)) [
  | inl e ↦
      rw (e, remove_arranged)
        (record {
          unique = v.unique;
          listed = λ a. rw (workspaces-drop_session s st.tab_strip) (v.listed a);
          fresh = v.fresh;
          shown = v.shown;
        })
  | inr (w, e) ↦
      let found = found-by_id (shows s) st.workspaces w (v.unique w.id) e in
      rw (e, remove_arranged)
        (remove_from-IsKept uuid st v s w found (remove_session_from_workspace_layout w.layout s)
          (sessions_of-remove w.layout s)
          (remove-AllInRange w.layout s (find-IsShown w.id st.workspaces w found v.shown).ratios))
]

-- Whatever session is removed, the others stay placed once, and each workspace that is left has
-- two to four panes with its active session among them.
pub remove-WellPlaced :
    (uuid : ℕ → String) (st : AppState) (s : String)
    → WellPlaced uuid st
    → WellPlaced uuid (remove_session_from_state st s)
unfolding remove_session_from_state
remove-WellPlaced uuid st s v =
    let k = remove_arranged-IsKept uuid st s v in
    record {
      once = λ a. ground (arith, remove-places uuid st s a v, v.once a);
      unique = k.unique;
      listed = k.listed;
      fresh = k.fresh;
      shown = k.shown;
    }
