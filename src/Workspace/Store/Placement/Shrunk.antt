-- ===== src/Workspace/Store/Placement/Shrunk.antt =====
-- Taking a session out of its workspace keeps the invariant of the store.
use mathlib.Core.Option
use dolssh.Prelude.Int.{ℤ}
use dolssh.Prelude.{
  ℕ, suc, ◌≤◌, ◌≡◌, refl, ap, ◌∙◌, String, true, Option, none, some, ◌==◌, if◌then◌else◌, find_by,
  insert_at, count, length, length-append, includes, arith, index_by, inl, inr, Bool-cases,
}
use dolssh.Workspace.Layout.{
  Axis, WorkspaceLayoutNode, leaf, split, list_workspace_session_ids,
  find_first_workspace_session_id, remove_session_from_workspace_layout,
}
use dolssh.Workspace.Layout.Insert.{includes-find_first}
use dolssh.Workspace.Layout.Remove.{
  sessions_of, without, sessions_of-remove, length-without, includes-without, length-list-pos,
}
use dolssh.Workspace.Layout.Ratios.{RatiosInRange, AllInRange, remove-AllInRange}
use dolssh.Workspace.Strip.{session, WorkspaceTab, is_workspace, has_id}
use dolssh.Workspace.Store.State.{AppState}
use dolssh.Workspace.Store.Drag.{drop_workspace_item, index_or_end}
use dolssh.Workspace.Store.Panes.{
  dissolve_workspace, shrink_workspace, detach_reduced, detach_from, detach_session_from_workspace,
}
use dolssh.Workspace.Store.Counting.{
  workspaces-insert_session, workspaces-drop_workspace, ids-drop, ids-update,
}
use dolssh.Workspace.Store.Placement.Detached.{detach_reduced-places, one_pane}
use dolssh.Workspace.Store.Placement.{
  IsShown, WellPlaced, places, find-IsShown, drop-AllShown, update-AllShown_one,
}

several_panes :
    (id : String) (axis : Axis) (ratio : ℤ) (first second : WorkspaceLayoutNode)
    → 2 ≤ length (list_workspace_session_ids (split id axis ratio first second))
unfolding list_workspace_session_ids
several_panes id axis ratio first second = omega (
  arith,
  length-list-pos first,
  length-list-pos second,
  length-append (list_workspace_session_ids first) (list_workspace_session_ids second),
)

module _ (st : AppState) (id s : String) (w : WorkspaceTab)
    (found : find_by (has_id id) st.workspaces ≡ some w) where
  dissolve-WellPlaced :
      (uuid : ℕ → String) (last : String)
      → WellPlaced uuid st
      → ((a : String) → places a (dissolve_workspace st id s last) ≡ places a st)
      → WellPlaced uuid (dissolve_workspace st id s last)
  unfolding dissolve_workspace
  dissolve-WellPlaced uuid last v e =
      let index = index_by (is_workspace id) st.tab_strip in
      let strip = drop_workspace_item id st.tab_strip in
      let i = index_or_end index strip in
      let strip₁ = insert_at i (session last) strip in
      let j = index_or_end (Option.map suc index) strip₁ in
      record {
        once = λ a. omega (arith, e a, v.once a);
        unique = λ a. ground (arith, ids-drop id st.workspaces a, v.unique a);
        listed = λ a. ground (
          arith,
          v.listed a,
          ids-drop id st.workspaces a,
          workspaces-insert_session a j s strip₁,
          workspaces-insert_session a i last strip,
          workspaces-drop_workspace a id st.tab_strip,
        );
        fresh = λ n h. ground (arith, v.fresh n h, ids-drop id st.workspaces (uuid n));
        shown = drop-AllShown id st.workspaces v.shown;
      }

  active_pane :
      (node : WorkspaceLayoutNode)
      → IsShown w
      → list_workspace_session_ids node ≡ without s (list_workspace_session_ids w.layout)
      → includes
          (if w.active_session_id == s
            then find_first_workspace_session_id node
            else w.active_session_id)
          (list_workspace_session_ids node)
        ≡ true
  active_pane node v e = elim (Bool-cases (w.active_session_id == s)) [
    | inl same ↦ rw same (includes-find_first node)
    | inr other ↦
        rw (other, e)
          (includes-without s w.active_session_id (list_workspace_session_ids w.layout)
              (ground arith)
            ∙ v.active)
  ]

  -- What is left of a workspace that keeps two panes.
  pub shrunk-IsShown :
      (i : String) (axis : Axis) (ratio : ℤ) (first second : WorkspaceLayoutNode)
      → IsShown w
      → list_workspace_session_ids (split i axis ratio first second)
        ≡ without s (list_workspace_session_ids w.layout)
      → RatiosInRange (split i axis ratio first second)
      → IsShown (record w {
        layout = split i axis ratio first second;
        active_session_id =
            if w.active_session_id == s
            then find_first_workspace_session_id (split i axis ratio first second)
            else w.active_session_id;
      })
  shrunk-IsShown i axis ratio first second v e k =
      let node = split i axis ratio first second in
      let xs = list_workspace_session_ids w.layout in
      record {
        several = several_panes i axis ratio first second;
        few = ground (arith, ap length e, length-without s xs, v.few);
        active = active_pane node v e;
        ratios = k;
      }

  shrink-WellPlaced :
      (uuid : ℕ → String) (i : String) (axis : Axis) (ratio : ℤ)
      (first second : WorkspaceLayoutNode)
      → WellPlaced uuid st
      → list_workspace_session_ids (split i axis ratio first second)
        ≡ without s (list_workspace_session_ids w.layout)
      → RatiosInRange (split i axis ratio first second)
      → ((a : String)
          → places a (shrink_workspace st id s (split i axis ratio first second)) ≡ places a st)
      → WellPlaced uuid (shrink_workspace st id s (split i axis ratio first second))
  unfolding shrink_workspace
  shrink-WellPlaced uuid i axis ratio first second v e k keep =
      let node = split i axis ratio first second in
      let j =
        index_or_end (Option.map suc (index_by (is_workspace id) st.tab_strip)) st.tab_strip in
      let w_shown = find-IsShown id st.workspaces w found v.shown in
      let f : WorkspaceTab → WorkspaceTab = λ item. record item {
        layout = node;
        active_session_id =
            if item.active_session_id == s
            then find_first_workspace_session_id node
            else item.active_session_id;
      } in
      let same = ids-update id f st.workspaces (λ _. refl) in
      record {
        once = λ a. omega (arith, keep a, v.once a);
        unique = λ a. rw same (v.unique a);
        listed = λ a. rw same (workspaces-insert_session a j s st.tab_strip ∙ v.listed a);
        fresh = λ n h. rw same (v.fresh n h);
        shown =
            update-AllShown_one id f st.workspaces w (v.unique id) found
              (shrunk-IsShown i axis ratio first second w_shown e k) v.shown;
      }

  detach_reduced-WellPlaced :
      (uuid : ℕ → String) (o : Option WorkspaceLayoutNode)
      → WellPlaced uuid st
      → count s (list_workspace_session_ids w.layout) ≡ 1
      → sessions_of o ≡ without s (list_workspace_session_ids w.layout)
      → AllInRange o
      → WellPlaced uuid (detach_reduced st id s o)
  unfolding detach_reduced
  detach_reduced-WellPlaced uuid none v c e k = v
  detach_reduced-WellPlaced uuid (some (leaf i last)) v c e k =
      dissolve-WellPlaced uuid last v
        (λ a. detach_reduced-places st id s w found (some (leaf i last)) a (v.unique id) c e)
  detach_reduced-WellPlaced uuid (some (split i axis ratio first second)) v c e k =
      let node = split i axis ratio first second in
      shrink-WellPlaced uuid i axis ratio first second v e k
        (λ a. detach_reduced-places st id s w found (some node) a (v.unique id) c e)

-- A session that is taken out of its workspace keeps its one place, as every other session does;
-- the workspace keeps two panes at least, or is gone from the list and from the strip.
pub detach-WellPlaced :
    (uuid : ℕ → String) (st : AppState) (id s : String) (w : WorkspaceTab)
    → find_by (has_id id) st.workspaces ≡ some w
    → includes s (list_workspace_session_ids w.layout) ≡ true
    → WellPlaced uuid st
    → WellPlaced uuid (detach_session_from_workspace st id s)
unfolding detach_session_from_workspace
detach-WellPlaced uuid st id s w found there v =
    rw (found, detach_from)
      (detach_reduced-WellPlaced st id s w found uuid
        (remove_session_from_workspace_layout w.layout s) v
        (one_pane st id s w found (v.once s) there) (sessions_of-remove w.layout s)
        (remove-AllInRange w.layout s (find-IsShown id st.workspaces w found v.shown).ratios))
