-- ===== src/Workspace/Layout/Move.antt =====
-- What moving a session beside another one does to the panes.
use dolssh.Prelude.{
  ℕ, ◌≡◌, String, Bool, true, false, not, Option, none, some, List, ◌==◌, arith, if◌then◌else◌,
  count, includes, ◌&&◌,
}
use dolssh.Workspace.Layout.{
  WorkspaceDropDirection, WorkspaceLayoutNode, list_workspace_session_ids, reinsert,
  remove_session_from_workspace_layout, move_session_within_workspace_layout,
}
use dolssh.Workspace.Layout.Insert.{
  insert_beside, insert-inserted, list-insert, count-insert_beside,
}
use dolssh.Workspace.Layout.Remove.{
  includes-without, sessions_of, without, sessions_of-remove, count-without,
}

-- Whether a move is carried out.
abbrev pub movable : (session target : String) → List String → Bool
movable s t xs = not (s == t) && (includes s xs && includes t xs)

module _ (uuid : ℕ → String) where
  reinsert_lem :
      (node : WorkspaceLayoutNode) (o : Option WorkspaceLayoutNode) (s t : String)
      (d : WorkspaceDropDirection) (n : ℕ)
      → includes t (sessions_of o) ≡ true
      → (reinsert uuid node o s t d n).moved ≡ true
        × (list_workspace_session_ids (reinsert uuid node o s t d n).layout
            ≡ insert_beside t s d (sessions_of o))
  reinsert_lem node none s t d n h = cc
  reinsert_lem node (some r) s t d n h =
      ground (arith, insert-inserted uuid r t s d n, list-insert uuid r t s d n)

  -- A session is moved exactly if it is another one than the target and both are in the layout.
  -- Then its panes are taken out and it stands beside the target, all others in their order;
  -- otherwise the sessions of the layout are as before.
  pub move_lem :
      (node : WorkspaceLayoutNode) (s t : String) (d : WorkspaceDropDirection) (n : ℕ)
      → ((move_session_within_workspace_layout uuid node s t d n).moved
          ≡ movable s t (list_workspace_session_ids node))
        × (list_workspace_session_ids
              (move_session_within_workspace_layout uuid node s t d n).layout
            ≡ (if movable s t (list_workspace_session_ids node)
                then insert_beside t s d (without s (list_workspace_session_ids node))
                else list_workspace_session_ids node))
  unfolding move_session_within_workspace_layout
  move_lem node s t d n = ground (
    arith,
    reinsert_lem node (remove_session_from_workspace_layout node s) s t d n,
    sessions_of-remove node s,
    includes-without s t (list_workspace_session_ids node),
  )

  -- A refused move returns the layout itself.
  pub move_refused :
      (node : WorkspaceLayoutNode) (s t : String) (d : WorkspaceDropDirection) (n : ℕ)
      → (move_session_within_workspace_layout uuid node s t d n).moved ≡ false
      → (move_session_within_workspace_layout uuid node s t d n).layout ≡ node
  unfolding move_session_within_workspace_layout
  move_refused node s t d n h = ground (
    arith,
    reinsert_lem node (remove_session_from_workspace_layout node s) s t d n,
    sessions_of-remove node s,
    includes-without s t (list_workspace_session_ids node),
  )

  -- Where the moved session has one pane, a move keeps how often each session is shown.
  pub count-move :
      (node : WorkspaceLayoutNode) (s t : String) (d : WorkspaceDropDirection) (n : ℕ) (a : String)
      → count s (list_workspace_session_ids node) ≡ 1
      → count a (
          list_workspace_session_ids
            (move_session_within_workspace_layout uuid node s t d n).layout)
        ≡ count a (list_workspace_session_ids node)
  count-move node s t d n a h =
      let xs = list_workspace_session_ids node in
      ground (
        arith,
        move_lem node s t d n,
        count-insert_beside t s d a (without s xs),
        count-without s a xs,
        includes-without s t xs,
      )
