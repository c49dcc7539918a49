-- ===== src/Workspace/Store/Placement/Dropped.antt =====
-- Dropping a tab of the strip beside the next one: no session is lost or shown twice.
use dolssh.Prelude.{
  ℕ, suc, ◌+◌, ◌≤◌, ◌≡◌, refl, ap, ◌∙◌, String, Option, none, some, List, [], ◌∷◌, ◌==◌,
  if◌then◌else◌, find_by, count, count-append, includes, arith, index_by, min, inl, inr,
  Option-cases, Bool-cases,
}
use dolssh.Workspace.Layout.{
  WorkspaceDropDirection, list_workspace_session_ids, create_workspace_split,
  insert_session_into_workspace_layout,
}
use dolssh.Workspace.Layout.Insert.{list-create, list-insert, insert-inserted, count-insert_beside}
use dolssh.Workspace.Strip.{
  DynamicTabStripItem, session, workspace, WorkspaceTab, is_session, has_id,
  resolve_adjacent_target,
}
use dolssh.Workspace.Strip.Neighbours.{IsBeside, next, previous, adjacent-IsBeside}
use dolssh.Workspace.Store.State.{AppState, placed, strip_sessions, workspace_ids, pane_sessions}
use dolssh.Workspace.Store.Drag.{
  update_workspace, drop_session_item, pair_sessions, join_workspace, split_beside,
  split_session_into_workspace, resolve_target,
}
use dolssh.Workspace.Store.Counting.{
  one_if, sessions-insert_workspace, sessions-drop_two, sessions-drop_session, panes-append,
  panes-update, session-and-next, session-and-previous, find_self,
}
use dolssh.Workspace.Store.Placement.{WellPlaced, places}

count-create :
    (uuid : ℕ → String) (t s : String) (d : WorkspaceDropDirection) (n : ℕ) (a : String)
    → count a (list_workspace_session_ids (create_workspace_split uuid t s d n).0)
      ≡ one_if (s == a) + one_if (t == a)
count-create uuid t s d n a =
    rw (list-create uuid t s d n) (ground (arith, count-insert_beside t s d a (t ∷ [])))

count-placed :
    (a : String) (xs : List DynamicTabStripItem) (ws : List WorkspaceTab)
    → count a (placed xs ws) ≡ count a (strip_sessions xs) + count a (pane_sessions ws)
count-placed a xs ws = count-append a (strip_sessions xs) (pane_sessions ws)

module _ (uuid : ℕ → String) (st : AppState) where
  module _ (s t : String) (d : WorkspaceDropDirection) (i j : ℕ) (a : String) where
    pair-sessions :
        count a (strip_sessions (pair_sessions uuid st s t d i j).tab_strip)
        ≡ (if s == a then 0 else (if t == a then 0 else count a (strip_sessions st.tab_strip)))
    unfolding pair_sessions
    pair-sessions =
        sessions-insert_workspace a (min i j) (uuid st.next_uuid) _
        ∙ sessions-drop_two a s t st.tab_strip

    pair-panes :
        count a (pane_sessions (pair_sessions uuid st s t d i j).workspaces)
        ≡ count a (pane_sessions st.workspaces) + (one_if (s == a) + one_if (t == a))
    unfolding pair_sessions
    pair-panes =
        panes-append st.workspaces _ a
        ∙ ap (λ n. count a (pane_sessions st.workspaces) + n)
            (count-create uuid t s d (suc st.next_uuid) a)

    -- Two tabs that are two occurrences on the strip become two panes.
    pair-places :
        places a st ≤ 1
        → one_if (s == a) + one_if (t == a) ≤ count a (strip_sessions st.tab_strip)
        → places a (pair_sessions uuid st s t d i j) ≡ places a st
    pair-places u h =
        let p = pair_sessions uuid st s t d i j in
        ground (
          arith,
          count-placed a st.tab_strip st.workspaces,
          count-placed a p.tab_strip p.workspaces,
          pair-sessions,
          pair-panes,
        )

  -- What the strip and the workspaces are after a session joined a workspace.
  module _ (s : String) (d : WorkspaceDropDirection) (target : Option String)
      (w : WorkspaceTab) where
    -- A tab of the strip becomes a pane.
    join-places :
        (a : String)
        → find_by (has_id w.id) st.workspaces ≡ some w
        → count w.id (workspace_ids st.workspaces) ≤ 1
        → places a st ≤ 1
        → one_if (s == a) ≤ count a (strip_sessions st.tab_strip)
        → places a (join_workspace uuid st s d target (some w)).0 ≡ places a st
    unfolding join_workspace
    join-places a found u o h =
        let r =
          insert_session_into_workspace_layout uuid w.layout (resolve_target target w) s d
            st.next_uuid in
        let f : WorkspaceTab → WorkspaceTab =
          λ item. record item { layout = r.layout; active_session_id = s } in
        let xs = list_workspace_session_ids w.layout in
        elim (Bool-cases (includes (resolve_target target w) xs)) [
          | inr missing ↦
              ground
                (arith, insert-inserted uuid w.layout (resolve_target target w) s d st.next_uuid)
          | inl there ↦ ground (
            arith,
            insert-inserted uuid w.layout (resolve_target target w) s d st.next_uuid,
            list-insert uuid w.layout (resolve_target target w) s d st.next_uuid,
            count-insert_beside (resolve_target target w) s d a xs,
            panes-update w.id f st.workspaces w a u found,
            sessions-drop_session a s st.tab_strip,
            count-placed a st.tab_strip st.workspaces,
            count-placed a (drop_session_item s st.tab_strip)
                (update_workspace w.id f st.workspaces),
          )
        ]

  join_none-places :
      (s : String) (d : WorkspaceDropDirection) (target : Option String) (a : String)
      → places a (join_workspace uuid st s d target none).0 ≡ places a st
  unfolding join_workspace
  join_none-places s d target a = refl

  beside-count :
      (s : String) (x : DynamicTabStripItem) (a : String)
      → IsBeside st.tab_strip s x
      → one_if (s == a) + count a (strip_sessions (x ∷ [])) ≤ count a (strip_sessions st.tab_strip)
  beside-count s x a (next i f g) = session-and-next s x st.tab_strip i a f g
  beside-count s x a (previous i f g) = session-and-previous s x st.tab_strip i a f g

  -- Whatever is dropped, and whether or not it is, every session keeps its number of places.
  split_beside-places :
      (s : String) (d : WorkspaceDropDirection) (target : Option String) (x : DynamicTabStripItem)
      (a : String)
      → WellPlaced uuid st
      → IsBeside st.tab_strip s x
      → places a (split_beside uuid st s d target (some x)).0 ≡ places a st
  split_beside-places s d target (session t) a v b =
      elim (Option-cases (index_by (is_session s) st.tab_strip)) [
        | inl e ↦ ground arith
        | inr (i, e) ↦ elim (Option-cases (index_by (is_session t) st.tab_strip)) [
          | inl f ↦ ground arith
          | inr (j, f) ↦
              ground (arith, pair-places s t d i j a (v.once a), beside-count s (session t) a b)
        ]
      ]
  split_beside-places s d target (workspace id) a v b =
      elim (Option-cases (find_by (has_id id) st.workspaces)) [
        | inl e ↦ rw (e, split_beside) (join_none-places s d target a)
        | inr (w, e) ↦
            rw (e, split_beside)
              (join-places s d target w a (find_self id st.workspaces w e) (v.unique w.id)
                (v.once a) (ground (arith, beside-count s (workspace id) a b)))
      ]

  -- In a store where every session is well placed, dropping a tab, where it succeeds and where it
  -- is refused, keeps how many places every session has.
  pub split-places :
      (s : String) (d : WorkspaceDropDirection) (target : Option String) (a : String)
      → WellPlaced uuid st
      → places a (split_session_into_workspace uuid st s d target).0 ≡ places a st
  unfolding split_session_into_workspace
  split-places s d target a v =
      elim (Option-cases (resolve_adjacent_target st.tab_strip st.workspaces s)) [
        | inl e ↦ rw (e, split_beside)
        | inr (x, e) ↦ rw e (
            split_beside-places s d target x a v
              (adjacent-IsBeside st.tab_strip st.workspaces s x e).0)
      ]
