-- ===== src/Workspace/Layout/Remove.antt =====
-- What removing a session does to the panes.
use mathlib.Core.List.{append-nil}
use dolssh.Prelude.Int.{ℤ}
use dolssh.Prelude.{
  ◌+◌, includes, false, ◌≡◌, refl, sym, String, not, Option, none, some, List, [], ◌∷◌, ◌++◌, ◌==◌,
  arith, if◌then◌else◌, count, count-filter_by, filter_by, length, ◌<◌, length-append,
}
use dolssh.Workspace.Layout.{
  Axis, WorkspaceLayoutNode, leaf, split, list_workspace_session_ids, join_reduced,
  remove_session_from_workspace_layout,
}

-- No layout has no sessions.
abbrev pub sessions_of : Option WorkspaceLayoutNode → List String
sessions_of none = []
sessions_of (some node) = list_workspace_session_ids node

abbrev pub without : String → List String → List String
without s = filter_by (λ x. not (x == s))

without-append :
    (s : String) (xs ys : List String) → without s (xs ++ ys) ≡ without s xs ++ without s ys
without-append s [] ys = refl
without-append s (x ∷ xs) ys = ground (arith, without-append s xs ys)

sessions_of-join_reduced :
    (id : String) (axis : Axis) (ratio : ℤ) (o p : Option WorkspaceLayoutNode)
    → sessions_of (join_reduced id axis ratio o p) ≡ sessions_of o ++ sessions_of p
unfolding list_workspace_session_ids
sessions_of-join_reduced id axis ratio none none = refl
sessions_of-join_reduced id axis ratio none (some q) = refl
sessions_of-join_reduced id axis ratio (some o) none = sym (append-nil _)
sessions_of-join_reduced id axis ratio (some o) (some q) = refl

-- The panes that are left are those of all other sessions, in their order; a layout that is gone
-- has no panes.
pub sessions_of-remove :
    (node : WorkspaceLayoutNode) (s : String)
    → sessions_of (remove_session_from_workspace_layout node s)
      ≡ without s (list_workspace_session_ids node)
unfolding remove_session_from_workspace_layout list_workspace_session_ids
sessions_of-remove (leaf id x) s = ground arith
sessions_of-remove (split id axis ratio first second) s = rw (
  sessions_of-join_reduced id axis ratio (remove_session_from_workspace_layout first s)
      (remove_session_from_workspace_layout second s),
  sessions_of-remove first s,
  sessions_of-remove second s,
  without-append s (list_workspace_session_ids first) (list_workspace_session_ids second),
)

pub length-list-pos : (node : WorkspaceLayoutNode) → 0 < length (list_workspace_session_ids node)
unfolding list_workspace_session_ids
length-list-pos (leaf id x) = omega arith
length-list-pos (split id axis ratio first second) = omega (
  arith,
  length-list-pos first,
  length-append (list_workspace_session_ids first) (list_workspace_session_ids second),
)

-- The removed session is gone, and every other one occurs as often as before.
pub count-without :
    (s a : String) (xs : List String) → count a (without s xs) ≡ (if a == s then 0 else count a xs)
count-without s a xs = ground (arith, count-filter_by (λ x. not (x == s)) a xs)

-- As many panes go as the session has.
pub length-without :
    (s : String) (xs : List String) → length (without s xs) + count s xs ≡ length xs
length-without s [] = refl
length-without s (x ∷ xs) = ground (arith, length-without s xs)

pub includes-without :
    (s t : String) (xs : List String) → (s == t) ≡ false → includes t (without s xs) ≡ includes t xs
includes-without s t [] h = refl
includes-without s t (x ∷ xs) h = ground (arith, includes-without s t xs)
