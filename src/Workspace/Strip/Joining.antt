-- ===== src/Workspace/Strip/Joining.antt =====
-- Which tab a dropped tab joins: resolveAdjacentTarget of
-- apps/desktop/src/renderer/store/createAppStore.ts.
use mathlib.Core.List.{append_assoc}
use dolssh.Prelude.{
  ℕ, zero, suc, ◌<◌, ◌≡◌, refl, sym, ◌∙◌, String, true, false, Option, none, some, List, [], ◌∷◌,
  ◌++◌, get_elem?, index_by, find_by, length, arith, inl, inr, Option-cases, Bool-cases,
}
use dolssh.Workspace.Layout.{list_workspace_session_ids, count_workspace_sessions}
use dolssh.Workspace.Strip.{
  DynamicTabStripItem, session, workspace, WorkspaceTab, is_session, has_id, item_before,
  acceptable, try_candidate, resolve_adjacent_target,
}
use dolssh.Workspace.Strip.Positions.{
  IsNext, IsPrevious, index-IsNext, index-IsPrevious, next-item, previous-item, unplaced,
}

-- A tab that another session may join: a session, or a workspace there is with less than four panes.
pub data CanJoin (workspaces : List WorkspaceTab) : DynamicTabStripItem → Type 0 where
  a_session : (s : String) → CanJoin workspaces (session s)
  a_workspace :
      (id : String) (w : WorkspaceTab)
      → find_by (has_id id) workspaces ≡ some w
      → length (list_workspace_session_ids w.layout) < 4
      → CanJoin workspaces (workspace id)

-- The tab to the right is taken if it can be joined, else the one to the left if that can be.
pub data Chosen (strip : List DynamicTabStripItem) (workspaces : List WorkspaceTab) (s : String)
    : Option DynamicTabStripItem → Type 0 where
  right :
      (x : DynamicTabStripItem)
      → IsNext strip s x
      → CanJoin workspaces x
      → Chosen strip workspaces s (some x)
  left :
      (x : DynamicTabStripItem)
      → ((y : DynamicTabStripItem) → IsNext strip s y → ¬ CanJoin workspaces y)
      → IsPrevious strip s x
      → CanJoin workspaces x
      → Chosen strip workspaces s (some x)
  neither :
      ((y : DynamicTabStripItem) → IsNext strip s y → ¬ CanJoin workspaces y)
      → ((y : DynamicTabStripItem) → IsPrevious strip s y → ¬ CanJoin workspaces y)
      → Chosen strip workspaces s none

acceptable-CanJoin :
    (ws : List WorkspaceTab) (x : DynamicTabStripItem) → acceptable ws x ≡ true → CanJoin ws x
unfolding count_workspace_sessions
acceptable-CanJoin ws (session s) h = a_session s
acceptable-CanJoin ws (workspace id) h = elim (Option-cases (find_by (has_id id) ws)) [
  | inl e ↦ absurd (ground (arith, h, e))
  | inr (w, e) ↦ a_workspace id w e (ground (arith, h, e))
]

CanJoin-acceptable :
    (ws : List WorkspaceTab) (x : DynamicTabStripItem) → CanJoin ws x → acceptable ws x ≡ true
unfolding count_workspace_sessions
CanJoin-acceptable ws (session s) _ = refl
CanJoin-acceptable ws (workspace _) (a_workspace id w e l) = rw e (ground (arith, l))

not-CanJoin :
    (ws : List WorkspaceTab) (x : DynamicTabStripItem) → acceptable ws x ≡ false → ¬ CanJoin ws x
not-CanJoin ws x h c = let g = CanJoin-acceptable ws x c in absurd (cc (h, g))

module _ (s : String) where
  -- What is to the left, once the tab to the right cannot be joined.
  left-Chosen :
      (strip : List DynamicTabStripItem) (ws : List WorkspaceTab) (i : ℕ)
      → index_by (is_session s) strip ≡ some i
      → ((y : DynamicTabStripItem) → IsNext strip s y → ¬ CanJoin ws y)
      → Chosen strip ws s (try_candidate ws (item_before strip i) none)
  left-Chosen strip ws zero h n =
      neither n (λ y p. let a = previous-item s strip zero y h p in absurd (cc a))
  left-Chosen strip ws (suc i) h n = elim (Option-cases (get_elem? strip i)) [
    | inl e ↦
        rw e (neither n (λ y p. let a = previous-item s strip (suc i) y h p in absurd (cc (e, a))))
    | inr (x, e) ↦ elim (Bool-cases (acceptable ws x)) [
      | inl good ↦
          rw (e, good) (left x n (index-IsPrevious s strip i x h e) (acceptable-CanJoin ws x good))
      | inr bad ↦
          rw (e, bad)
            (neither n (λ y p.
              let a = previous-item s strip (suc i) y h p in
              let same : x ≡ y = ground (arith, e, a) in rw (sym same) (not-CanJoin ws x bad)))
    ]
  ]

-- A dropped tab joins the tab to the right of its session's first tab, if that is a session or a
-- workspace there is with less than four panes, else the one to its left, if that is one; and where
-- none is chosen, neither of them is.
pub adjacent-Chosen :
    (strip : List DynamicTabStripItem) (ws : List WorkspaceTab) (s : String)
    → Chosen strip ws s (resolve_adjacent_target strip ws s)
unfolding resolve_adjacent_target
adjacent-Chosen strip ws s = elim (Option-cases (index_by (is_session s) strip)) [
  | inl h ↦ rw h (
      neither (λ y (xs, ys, e, f) c. unplaced s strip xs (y ∷ ys) h f e)
        (λ y (xs, ys, e, f) c.
          unplaced s strip (xs ++ y ∷ []) ys h f
            (e ∙ sym (append_assoc xs (y ∷ []) (session s ∷ ys)))))
  | inr (i, h) ↦ elim (Option-cases (get_elem? strip (suc i))) [
    | inl e ↦
        rw (h, e)
          (left-Chosen s strip ws i h
            (λ y p. let a = next-item s strip i y h p in absurd (cc (e, a))))
    | inr (x, e) ↦ elim (Bool-cases (acceptable ws x)) [
      | inl good ↦
          rw (h, e, good) (right x (index-IsNext s strip i x h e) (acceptable-CanJoin ws x good))
      | inr bad ↦
          rw (h, e, bad)
            (left-Chosen s strip ws i h (λ y p.
              let a = next-item s strip i y h p in
              let same : x ≡ y = ground (arith, e, a) in rw (sym same) (not-CanJoin ws x bad)))
    ]
  ]
]
