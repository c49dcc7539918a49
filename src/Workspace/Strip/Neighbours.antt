-- ===== src/Workspace/Strip/Neighbours.antt =====
-- The tab that a dropped tab joins, and the tab that is shown after one is closed.
use dolssh.Prelude.{
  ℕ, zero, suc, ◌≤◌, ◌≡◌, refl, String, Bool, true, Option, none, some, List, [], ◌∷◌, get_elem?,
  index_by, arith, length, inl, inr, Option-cases, Bool-cases, or_else,
}
use dolssh.Workspace.Strip.{
  WorkspaceTabId, home, session_tab, workspace_tab, DynamicTabStripItem, session, workspace,
  WorkspaceTab, is_session, item_before, try_candidate, acceptable, resolve_adjacent_target,
  resolve_next_visible_tab, as_tab, item_or_before,
}
use dolssh.Workspace.Strip.Reorder.{holds}

-- `x` is the tab right after or right before the session's first tab.
pub data IsBeside (strip : List DynamicTabStripItem) (s : String) (x : DynamicTabStripItem)
    : Type 0 where
  next :
      (i : ℕ)
      → index_by (is_session s) strip ≡ some i
      → get_elem? strip (suc i) ≡ some x
      → IsBeside strip s x
  previous :
      (i : ℕ)
      → index_by (is_session s) strip ≡ some (suc i)
      → get_elem? strip i ≡ some x
      → IsBeside strip s x

previous-IsBeside :
    (strip : List DynamicTabStripItem) (ws : List WorkspaceTab) (s : String)
    (x : DynamicTabStripItem) (i : ℕ)
    → index_by (is_session s) strip ≡ some i
    → try_candidate ws (item_before strip i) none ≡ some x
    → IsBeside strip s x × (acceptable ws x ≡ true)
previous-IsBeside strip ws s x zero h e = cc
previous-IsBeside strip ws s x (suc i) h e = elim (Option-cases (get_elem? strip i)) [
  | inl f ↦ ground arith
  | inr (y, f) ↦ elim (Bool-cases (acceptable ws y)) [
    | inl good ↦ let same : x ≡ y = ground arith in rw same (previous i h f, good)
    | inr bad ↦ ground arith
  ]
]

-- The tab that is chosen stands right after or right before the session's tab, and is a session
-- or a workspace that exists and has fewer than four panes.
pub adjacent-IsBeside :
    (strip : List DynamicTabStripItem) (ws : List WorkspaceTab) (s : String)
    (x : DynamicTabStripItem)
    → resolve_adjacent_target strip ws s ≡ some x
    → IsBeside strip s x × (acceptable ws x ≡ true)
unfolding resolve_adjacent_target
adjacent-IsBeside strip ws s x e = elim (Option-cases (index_by (is_session s) strip)) [
  | inl f ↦ ground arith
  | inr (i, f) ↦ elim (Option-cases (get_elem? strip (suc i))) [
    | inl g ↦ previous-IsBeside strip ws s x i f (ground arith)
    | inr (y, g) ↦ elim (Bool-cases (acceptable ws y)) [
      | inl good ↦ let same : x ≡ y = ground arith in rw same (next i f g, good)
      | inr bad ↦ previous-IsBeside strip ws s x i f (ground arith)
    ]
  ]
]

-- Whether a tab is home or stands on the strip.
abbrev pub is_shown : WorkspaceTabId → List DynamicTabStripItem → Bool
is_shown (session_tab s) strip = holds (session s) strip
is_shown (workspace_tab w) strip = holds (workspace w) strip
is_shown _ strip = true

is_shown-cons :
    (t : WorkspaceTabId) (x : DynamicTabStripItem) (strip : List DynamicTabStripItem)
    → is_shown t strip ≡ true
    → is_shown t (x ∷ strip) ≡ true
is_shown-cons (session_tab s) x strip h = ground arith
is_shown-cons (workspace_tab w) x strip h = ground arith
is_shown-cons _ x strip h = refl

get_elem?-is_shown :
    (strip : List DynamicTabStripItem) (i : ℕ) → is_shown (as_tab (get_elem? strip i)) strip ≡ true
get_elem?-is_shown [] i = refl
get_elem?-is_shown (session s ∷ strip) zero = ground arith
get_elem?-is_shown (workspace w ∷ strip) zero = ground arith
get_elem?-is_shown (x ∷ strip) (suc i) =
    is_shown-cons (as_tab (get_elem? strip i)) x strip (get_elem?-is_shown strip i)

or_else-is_shown :
    (strip : List DynamicTabStripItem) (o p : Option DynamicTabStripItem)
    → is_shown (as_tab o) strip ≡ true
    → is_shown (as_tab p) strip ≡ true
    → is_shown (as_tab (or_else o p)) strip ≡ true
or_else-is_shown strip none p h k = k
or_else-is_shown strip (some x) p h k = h

-- The tab shown after a close is home or a tab that is still on the strip.
resolve_next_visible_tab-is_shown :
    (strip : List DynamicTabStripItem) (i : ℕ)
    → is_shown (resolve_next_visible_tab strip i) strip ≡ true
unfolding resolve_next_visible_tab
resolve_next_visible_tab-is_shown strip zero = get_elem?-is_shown strip zero
resolve_next_visible_tab-is_shown strip (suc i) =
    or_else-is_shown strip (get_elem? strip (suc i)) (get_elem? strip i)
      (get_elem?-is_shown strip (suc i)) (get_elem?-is_shown strip i)

as_tab-home : (o : Option DynamicTabStripItem) → as_tab o ≡ home → o ≡ none
as_tab-home none h = refl
as_tab-home (some (session s)) h = cc
as_tab-home (some (workspace w)) h = cc

get_elem?-none : {A : Type 0} (xs : List A) (i : ℕ) → get_elem? xs i ≡ none → length xs ≤ i
get_elem?-none [] i h = omega arith
get_elem?-none (x ∷ xs) zero h = cc
get_elem?-none (x ∷ xs) (suc i) h = omega (arith, get_elem?-none xs i h)

-- And it is home only if the strip is empty, for a closed tab within the strip or at its end.
pub resolve_next_visible_tab-home :
    (strip : List DynamicTabStripItem) (i : ℕ)
    → i ≤ length strip
    → resolve_next_visible_tab strip i ≡ home
    → strip ≡ []
unfolding resolve_next_visible_tab
resolve_next_visible_tab-home [] i h e = refl
resolve_next_visible_tab-home (x ∷ strip) zero h e = cc (as_tab-home (some x) e)
resolve_next_visible_tab-home (x ∷ strip) (suc i) h e =
    ground (arith, as_tab-home (item_or_before (x ∷ strip) (suc i)) e, get_elem?-none (x ∷ strip) i)
