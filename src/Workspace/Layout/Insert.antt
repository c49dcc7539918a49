-- ===== src/Workspace/Layout/Insert.antt =====
-- What inserting a session does to the panes, read from left to right.
use dolssh.Prelude.{
  ℕ, ◌+◌, ◌≡◌, refl, String, false, List, [], ◌∷◌, ◌++◌, ◌==◌, arith, if◌then◌else◌, includes,
  includes-append, count, length, suc, true,
}
use dolssh.Workspace.Layout.{
  WorkspaceDropDirection, left, WorkspaceLayoutNode, leaf, split, prepend_incoming,
  list_workspace_session_ids, insert_session_into_workspace_layout, create_workspace_split,
  find_first_workspace_session_id,
}

-- `incoming` beside the first `target`, on the side that the direction names.
abbrev pub insert_beside :
    (target incoming : String) → WorkspaceDropDirection → List String → List String
insert_beside target incoming direction [] = []
insert_beside target incoming direction (x ∷ xs) =
    if x == target
    then (if prepend_incoming direction then incoming ∷ x ∷ xs else x ∷ incoming ∷ xs)
    else x ∷ insert_beside target incoming direction xs

insert_beside-append :
    (t s : String) (d : WorkspaceDropDirection) (xs ys : List String)
    → insert_beside t s d (xs ++ ys)
      ≡ (if includes t xs then insert_beside t s d xs ++ ys else xs ++ insert_beside t s d ys)
insert_beside-append t s d [] ys = refl
insert_beside-append t s d (x ∷ xs) ys = ground (arith, insert_beside-append t s d xs ys)

pub insert_beside-not_includes :
    (t s : String) (d : WorkspaceDropDirection) (xs : List String)
    → includes t xs ≡ false
    → insert_beside t s d xs ≡ xs
insert_beside-not_includes t s d [] h = refl
insert_beside-not_includes t s d (x ∷ xs) h = ground (arith, insert_beside-not_includes t s d xs)

-- One more occurrence of the incoming session, and all others as before.
pub count-insert_beside :
    (t s : String) (d : WorkspaceDropDirection) (a : String) (xs : List String)
    → count a (insert_beside t s d xs)
      ≡ (if includes t xs then (if s == a then 1 else 0) else 0) + count a xs
count-insert_beside t s d a [] = omega arith
count-insert_beside t s d a (x ∷ xs) = ground (arith, count-insert_beside t s d a xs)

module _ (uuid : ℕ → String) where
  -- An insertion succeeds exactly if the target is in the layout.
  pub insert-inserted :
      (node : WorkspaceLayoutNode) (t s : String) (d : WorkspaceDropDirection) (n : ℕ)
      → (insert_session_into_workspace_layout uuid node t s d n).inserted
        ≡ includes t (list_workspace_session_ids node)
  unfolding insert_session_into_workspace_layout list_workspace_session_ids
  insert-inserted (leaf id x) t s d n = ground arith
  insert-inserted (split id axis ratio first second) t s d n =
      let n₁ = (insert_session_into_workspace_layout uuid first t s d n).next in
      rw (includes-append t (list_workspace_session_ids first) (list_workspace_session_ids second))
        (ground (arith, insert-inserted first t s d n, insert-inserted second t s d n₁))

  -- The sessions of the layout after an insertion: the incoming session
  -- stands beside the first occurrence of the target, before it for `left` and `top` and after it
  -- for `right` and `bottom`, and all else is as before; with no such target nothing changes.
  pub list-insert :
      (node : WorkspaceLayoutNode) (t s : String) (d : WorkspaceDropDirection) (n : ℕ)
      → list_workspace_session_ids (insert_session_into_workspace_layout uuid node t s d n).layout
        ≡ insert_beside t s d (list_workspace_session_ids node)
  unfolding insert_session_into_workspace_layout list_workspace_session_ids
  list-insert (leaf id x) t s left n = ground arith
  list-insert (leaf id x) t s _ n = ground arith
  list-insert (split id axis ratio first second) t s d n =
      let n₁ = (insert_session_into_workspace_layout uuid first t s d n).next in
      let xs = list_workspace_session_ids first in
      let ys = list_workspace_session_ids second in
      ground (
        arith,
        insert_beside-append t s d xs ys,
        insert_beside-not_includes t s d ys,
        insert-inserted first t s d n,
        insert-inserted second t s d n₁,
        list-insert first t s d n,
        list-insert second t s d n₁,
      )

-- A new split shows the two sessions, the incoming one on the side that the direction names.
pub list-create :
    (uuid : ℕ → String) (existing incoming : String) (d : WorkspaceDropDirection) (n : ℕ)
    → list_workspace_session_ids (create_workspace_split uuid existing incoming d n).0
      ≡ insert_beside existing incoming d (existing ∷ [])
unfolding create_workspace_split list_workspace_session_ids
list-create uuid existing incoming left n = ground arith
list-create uuid existing incoming _ n = ground arith

pub length-insert_beside :
    (t s : String) (d : WorkspaceDropDirection) (xs : List String)
    → length (insert_beside t s d xs) ≡ (if includes t xs then suc (length xs) else length xs)
length-insert_beside t s d [] = refl
length-insert_beside t s d (x ∷ xs) = ground (arith, length-insert_beside t s d xs)

pub includes-insert_beside :
    (t s : String) (d : WorkspaceDropDirection) (xs : List String)
    → includes t xs ≡ true
    → includes s (insert_beside t s d xs) ≡ true
includes-insert_beside t s d [] h = cc
includes-insert_beside t s d (x ∷ xs) h = ground (arith, includes-insert_beside t s d xs)

pub includes-find_first :
    (node : WorkspaceLayoutNode)
    → includes (find_first_workspace_session_id node) (list_workspace_session_ids node) ≡ true
unfolding find_first_workspace_session_id list_workspace_session_ids
includes-find_first (leaf id s) = ground arith
includes-find_first (split id axis ratio first second) = ground (
  arith,
  includes-find_first first,
  includes-append (find_first_workspace_session_id first) (list_workspace_session_ids first)
      (list_workspace_session_ids second),
)
