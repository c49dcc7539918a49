-- ===== src/Workspace/Store/Placement/Panes.antt =====
-- Moving a pane, and the operations that change no pane's session, keep the invariant of the store.
use dolssh.Prelude.Int.{ℤ}
use dolssh.Prelude.{
  ℕ, ◌≡◌, refl, ap, sym, ◌∙◌, String, true, not, some, List, [], ◌∷◌, find_by, count, length,
  includes, arith, inl, inr, Option-cases, Bool-cases,
}
use dolssh.Workspace.Layout.{
  update_workspace_split_ratio, WorkspaceDropDirection, list_workspace_session_ids,
  move_session_within_workspace_layout,
}
use dolssh.Workspace.Layout.Insert.{length-insert_beside, includes-insert_beside}
use dolssh.Workspace.Layout.Remove.{without, length-without, includes-without}
use dolssh.Workspace.Layout.Move.{move_lem, movable, count-move}
use dolssh.Workspace.Layout.Ratios.{
  move-RatiosInRange, move-next, update_ratio-RatiosInRange, list-update_ratio,
}
use dolssh.Workspace.Strip.{WorkspaceTab, has_id}
use dolssh.Workspace.Store.State.{AppState, pane_sessions}
use dolssh.Workspace.Store.Drag.{update_workspace}
use dolssh.Workspace.Store.Panes.{
  move_in, move_workspace_session, resize_workspace_split, toggle_workspace_broadcast,
}
use dolssh.Workspace.Store.Counting.{panes-update, ids-update}
use dolssh.Workspace.Store.Placement.{
  IsShown, AllShown, WellPlaced, find-IsShown, update-AllShown, update-AllShown_one,
}
use dolssh.Workspace.Store.Placement.Detached.{count-placed, one_pane}

module _ (uuid : ℕ → String) (st : AppState) (id : String) (w : WorkspaceTab)
    (found : find_by (has_id id) st.workspaces ≡ some w) (s t : String)
    (d : WorkspaceDropDirection) where
  move-includes :
      (move_session_within_workspace_layout uuid w.layout s t d st.next_uuid).moved ≡ true
      → movable s t (list_workspace_session_ids w.layout) ≡ true
  move-includes h = sym ((move_lem uuid w.layout s t d st.next_uuid).0) ∙ h

  move-IsShown :
      IsShown w
      → count s (list_workspace_session_ids w.layout) ≡ 1
      → (move_session_within_workspace_layout uuid w.layout s t d st.next_uuid).moved ≡ true
      → IsShown (record w {
        layout = (move_session_within_workspace_layout uuid w.layout s t d st.next_uuid).layout;
        active_session_id = s;
      })
  move-IsShown v c h =
      let xs = list_workspace_session_ids w.layout in
      let m = move-includes h in
      let e = (move_lem uuid w.layout s t d st.next_uuid).1 in
      record {
        several = ground (
          arith,
          ap length e,
          length-insert_beside t s d (without s xs),
          length-without s xs,
          includes-without s t xs,
          v.several,
        );
        few = ground (
          arith,
          ap length e,
          length-insert_beside t s d (without s xs),
          length-without s xs,
          includes-without s t xs,
          v.few,
        );
        active = ground (
          arith,
          ap (includes s) e,
          includes-insert_beside t s d (without s xs),
          includes-without s t xs,
        );
        ratios = move-RatiosInRange uuid w.layout s t d st.next_uuid v.ratios;
      }

  moved-WellPlaced :
      WellPlaced uuid st
      → (move_session_within_workspace_layout uuid w.layout s t d st.next_uuid).moved ≡ true
      → WellPlaced uuid (move_in uuid st id s d t (some w)).0
  moved-WellPlaced v h =
      let r = move_session_within_workspace_layout uuid w.layout s t d st.next_uuid in
      let f : WorkspaceTab → WorkspaceTab =
        λ item. record item { layout = r.layout; active_session_id = s } in
      let same = ids-update id f st.workspaces (λ _. refl) in
      let c = one_pane st id s w found (v.once s) (ground (arith, move-includes h)) in
      rw (h, move_in)
        (record {
          once = λ a. omega (
            arith,
            v.once a,
            panes-update id f st.workspaces w a (v.unique id) found,
            count-move uuid w.layout s t d st.next_uuid a c,
            count-placed a st.tab_strip st.workspaces,
            count-placed a st.tab_strip (update_workspace id f st.workspaces),
          );
          unique = λ a. rw same (v.unique a);
          listed = λ a. rw same (v.listed a);
          fresh = λ n k.
              rw same (v.fresh n (omega (arith, move-next uuid w.layout s t d st.next_uuid)));
          shown =
              update-AllShown_one id f st.workspaces w (v.unique id) found
                (move-IsShown (find-IsShown id st.workspaces w found v.shown) c h) v.shown;
        })

-- Moving a pane keeps the invariant, also where the move is refused.
pub move-WellPlaced :
    (uuid : ℕ → String) (st : AppState) (id s : String) (d : WorkspaceDropDirection) (t : String)
    → WellPlaced uuid st
    → WellPlaced uuid (move_workspace_session uuid st id s d t).0
unfolding move_workspace_session
move-WellPlaced uuid st id s d t v = elim (Option-cases (find_by (has_id id) st.workspaces)) [
  | inl e ↦ rw (e, move_in) v
  | inr (w, e) ↦
      elim (Bool-cases
        (move_session_within_workspace_layout uuid w.layout s t d st.next_uuid).moved) [
          | inl h ↦ rw e (moved-WellPlaced uuid st id w e s t d v h)
          | inr h ↦ rw (e, move_in, h) v
        ]
]

pub panes-keep :
    (id : String) (f : WorkspaceTab → WorkspaceTab) (ws : List WorkspaceTab)
    → ((w : WorkspaceTab)
        → list_workspace_session_ids (f w).layout ≡ list_workspace_session_ids w.layout)
    → pane_sessions (update_workspace id f ws) ≡ pane_sessions ws
panes-keep id f [] h = refl
panes-keep id f (w ∷ ws) h = ground (arith, h w, panes-keep id f ws h)

-- A change of workspaces that keeps their ids and the sessions of their panes.
update-WellPlaced :
    (uuid : ℕ → String) (st : AppState) (id : String) (f : WorkspaceTab → WorkspaceTab)
    → ((w : WorkspaceTab) → (f w).id ≡ w.id)
    → ((w : WorkspaceTab)
        → list_workspace_session_ids (f w).layout ≡ list_workspace_session_ids w.layout)
    → AllShown (update_workspace id f st.workspaces)
    → WellPlaced uuid st
    → WellPlaced uuid (record st { workspaces = update_workspace id f st.workspaces })
update-WellPlaced uuid st id f keep_id keep_panes shown v =
    let ids = ids-update id f st.workspaces keep_id in
    let panes = panes-keep id f st.workspaces keep_panes in
    record {
      once = λ a. rw panes (v.once a);
      unique = λ a. rw ids (v.unique a);
      listed = λ a. rw ids (v.listed a);
      fresh = λ n k. rw ids (v.fresh n k);
      shown = shown;
    }

resized-IsShown :
    (split_id : String) (ratio : ℤ) (w : WorkspaceTab)
    → IsShown w
    → IsShown (record w { layout = update_workspace_split_ratio w.layout split_id ratio })
resized-IsShown split_id ratio w v =
    let e = list-update_ratio w.layout split_id ratio in
    record {
      several = rw e v.several;
      few = rw e v.few;
      active = rw e v.active;
      ratios = update_ratio-RatiosInRange w.layout split_id ratio v.ratios;
    }

pub resize-WellPlaced :
    (uuid : ℕ → String) (st : AppState) (id split_id : String) (ratio : ℤ)
    → WellPlaced uuid st
    → WellPlaced uuid (resize_workspace_split st id split_id ratio)
unfolding resize_workspace_split
resize-WellPlaced uuid st id split_id ratio v =
    let f : WorkspaceTab → WorkspaceTab =
      λ w. record w { layout = update_workspace_split_ratio w.layout split_id ratio } in
    update-WellPlaced uuid st id f (λ _. refl) (λ w. list-update_ratio w.layout split_id ratio)
      (update-AllShown id f st.workspaces (resized-IsShown split_id ratio) v.shown) v

pub toggle-WellPlaced :
    (uuid : ℕ → String) (st : AppState) (id : String)
    → WellPlaced uuid st
    → WellPlaced uuid (toggle_workspace_broadcast st id)
unfolding toggle_workspace_broadcast
toggle-WellPlaced uuid st id v =
    let f : WorkspaceTab → WorkspaceTab =
      λ w. record w { broadcast_enabled = not w.broadcast_enabled } in
    update-WellPlaced uuid st id f (λ _. refl) (λ _. refl)
      (update-AllShown id f st.workspaces
        (λ w k. record { several = k.several; few = k.few; active = k.active; ratios = k.ratios })
        v.shown)
      v
