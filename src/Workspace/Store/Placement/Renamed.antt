-- ===== src/Workspace/Store/Placement/Renamed.antt =====
-- A session that is given another id keeps its place.
use dolssh.Prelude.{
  ℕ, suc, ◌≡◌, refl, ap, sym, String, true, List, [], ◌∷◌, ◌==◌, if◌then◌else◌, count, length,
  includes, arith, map,
}
use mathlib.Core.List.{map-append}
use dolssh.Workspace.Layout.{
  WorkspaceLayoutNode, leaf, split, list_workspace_session_ids, replace_session_id_in_layout,
}
use dolssh.Workspace.Layout.Ratios.{replace-RatiosInRange}
use dolssh.Workspace.Strip.{DynamicTabStripItem, session, workspace, WorkspaceTab}
use dolssh.Workspace.Store.State.{
  AppState, TerminalTab, placed, strip_sessions, strip_workspaces, workspace_ids, pane_sessions,
}
use dolssh.Workspace.Store.Session.{
  replace_item, replace_in_workspace, replace_session_references_in_state,
}
use dolssh.Workspace.Store.Placement.{IsShown, AllShown, WellPlaced, places}

abbrev pub rename : (previous next : String) → String → String
rename previous next s = if s == previous then next else s

module _ (p n : String) where
  pub list-replace :
      (node : WorkspaceLayoutNode)
      → list_workspace_session_ids (replace_session_id_in_layout node p n)
        ≡ map (rename p n) (list_workspace_session_ids node)
  unfolding list_workspace_session_ids replace_session_id_in_layout
  list-replace (leaf id s) = ground arith
  list-replace (split id axis ratio first second) =
      rw (list-replace first, list-replace second)
        (sym (
          map-append (rename p n) (list_workspace_session_ids first)
            (list_workspace_session_ids second)))

  strip-replace :
      (strip : List DynamicTabStripItem)
      → strip_sessions (map (replace_item p n) strip) ≡ map (rename p n) (strip_sessions strip)
  strip-replace [] = refl
  strip-replace (session s ∷ strip) = ground (arith, strip-replace strip)
  strip-replace (workspace w ∷ strip) = strip-replace strip

  workspaces-replace :
      (strip : List DynamicTabStripItem)
      → strip_workspaces (map (replace_item p n) strip) ≡ strip_workspaces strip
  workspaces-replace [] = refl
  workspaces-replace (session s ∷ strip) = ground (arith, workspaces-replace strip)
  workspaces-replace (workspace w ∷ strip) = ap (◌∷◌ w) (workspaces-replace strip)

  panes-replace :
      (ws : List WorkspaceTab)
      → pane_sessions (map (replace_in_workspace p n) ws) ≡ map (rename p n) (pane_sessions ws)
  panes-replace [] = refl
  panes-replace (w ∷ ws) =
      rw (list-replace w.layout, panes-replace ws)
        (sym (map-append (rename p n) (list_workspace_session_ids w.layout) (pane_sessions ws)))

  ids-replace :
      (ws : List WorkspaceTab)
      → workspace_ids (map (replace_in_workspace p n) ws) ≡ workspace_ids ws
  ids-replace [] = refl
  ids-replace (w ∷ ws) = ap (◌∷◌ w.id) (ids-replace ws)

  -- The places of all sessions, in their order on the strip and in the workspaces, are those of
  -- before with the one id exchanged for the other.
  pub placed-replace :
      (st : AppState) (transform : TerminalTab → TerminalTab)
      → placed
          (replace_session_references_in_state st p n transform).tab_strip
          (replace_session_references_in_state st p n transform).workspaces
        ≡ map (rename p n) (placed st.tab_strip st.workspaces)
  unfolding replace_session_references_in_state
  placed-replace st transform =
      rw (strip-replace st.tab_strip, panes-replace st.workspaces)
        (sym (map-append (rename p n) (strip_sessions st.tab_strip) (pane_sessions st.workspaces)))

  count-rename :
      (a : String) (xs : List String)
      → count n xs ≡ 0
      → count a (map (rename p n) xs)
        ≡ (if n == a then count p xs else (if p == a then 0 else count a xs))
  count-rename a [] h = ground arith
  count-rename a (x ∷ xs) h = ground (arith, count-rename a xs)

  includes-rename :
      (s : String) (xs : List String)
      → includes s xs ≡ true
      → includes (rename p n s) (map (rename p n) xs) ≡ true
  includes-rename s [] h = cc
  includes-rename s (x ∷ xs) h = ground (arith, includes-rename s xs)

  length-rename : (xs : List String) → length (map (rename p n) xs) ≡ length xs
  length-rename [] = refl
  length-rename (x ∷ xs) = ap suc (length-rename xs)

  renamed-IsShown : (w : WorkspaceTab) → IsShown w → IsShown (replace_in_workspace p n w)
  renamed-IsShown w v =
      let e = list-replace w.layout in
      let l = length-rename (list_workspace_session_ids w.layout) in
      record {
        several = rw (e, l) v.several;
        few = rw (e, l) v.few;
        active =
            rw e
              (includes-rename w.active_session_id (list_workspace_session_ids w.layout) v.active);
        ratios = replace-RatiosInRange w.layout p n v.ratios;
      }

  renamed-AllShown :
      (ws : List WorkspaceTab) → AllShown ws → AllShown (map (replace_in_workspace p n) ws)
  renamed-AllShown [] h = tt
  renamed-AllShown (w ∷ ws) h = (renamed-IsShown w h.0, renamed-AllShown ws h.1)

  -- Where the new id has no place yet, the invariant is kept.
  pub replace-WellPlaced :
      (uuid : ℕ → String) (st : AppState) (transform : TerminalTab → TerminalTab)
      → places n st ≡ 0
      → WellPlaced uuid st
      → WellPlaced uuid (replace_session_references_in_state st p n transform)
  unfolding replace_session_references_in_state
  replace-WellPlaced uuid st transform free v =
      let ids = ids-replace st.workspaces in
      record {
        once = λ a. ground (
          arith,
          ap (count a) (placed-replace st transform),
          count-rename a (placed st.tab_strip st.workspaces) free,
          v.once a,
          v.once p,
        );
        unique = λ a. rw ids (v.unique a);
        listed = λ a. rw (ids, workspaces-replace st.tab_strip) (v.listed a);
        fresh = λ k h. rw ids (v.fresh k h);
        shown = renamed-AllShown st.workspaces v.shown;
      }
