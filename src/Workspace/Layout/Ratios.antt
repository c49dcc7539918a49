-- ===== src/Workspace/Layout/Ratios.antt =====
-- The ratios of the splits stay between 0.2 and 0.8, and a resize moves no pane.
use dolssh.Prelude.{◌+◌, ◌≤◌, ℕ, ◌≡◌, refl, String, Option, none, some, arith, ◌==◌, if◌then◌else◌}
use dolssh.Prelude.Int.{ℤ, pos, negsuc, ◌≤ℤ◌}
use dolssh.Workspace.Layout.{
  create_workspace_split, WorkspaceDropDirection, left, Axis, WorkspaceLayoutNode, leaf, split,
  list_workspace_session_ids, clamp_ratio, join_reduced, insert_session_into_workspace_layout,
  remove_session_from_workspace_layout, reinsert, move_session_within_workspace_layout,
  update_workspace_split_ratio, replace_session_id_in_layout,
}

abbrev pub IsRatio : ℤ → Type 0
IsRatio ratio = (pos 200 ≤ℤ ratio) × (ratio ≤ℤ pos 800)

abbrev pub RatiosInRange : WorkspaceLayoutNode → Type 0
RatiosInRange (leaf id s) = Unit
RatiosInRange (split id axis ratio first second) =
    IsRatio ratio × RatiosInRange first × RatiosInRange second

abbrev pub AllInRange : Option WorkspaceLayoutNode → Type 0
AllInRange none = Unit
AllInRange (some node) = RatiosInRange node

clamp_ratio-IsRatio : (ratio : ℤ) → IsRatio (clamp_ratio ratio)
clamp_ratio-IsRatio (pos n) = ground arith
clamp_ratio-IsRatio (negsuc n) = ground arith

clamp_ratio_idem : (ratio : ℤ) → clamp_ratio (clamp_ratio ratio) ≡ clamp_ratio ratio
clamp_ratio_idem (pos n) = ground arith
clamp_ratio_idem (negsuc n) = ground arith

-- The tree with one split's ratio changed, and nothing else.
abbrev pub set_ratio : WorkspaceLayoutNode → String → ℤ → WorkspaceLayoutNode
set_ratio (leaf id s) target ratio = leaf id s
set_ratio (split id axis old first second) target ratio =
    if id == target
    then split id axis ratio first second
    else split id axis old (set_ratio first target ratio) (set_ratio second target ratio)

update_idem :
    (node : WorkspaceLayoutNode) (id : String) (ratio : ℤ)
    → update_workspace_split_ratio node id (clamp_ratio ratio)
      ≡ update_workspace_split_ratio node id ratio
unfolding update_workspace_split_ratio
update_idem (leaf i s) id ratio = refl
update_idem (split i axis old first second) id ratio = rw (clamp_ratio_idem ratio)

-- A resize sets the ratio of the split it names, outermost first, to the given one held between
-- 0.2 and 0.8, and changes nothing else; clamping again on the way down makes no difference.
pub update_ratio_lem :
    (node : WorkspaceLayoutNode) (id : String) (ratio : ℤ)
    → update_workspace_split_ratio node id ratio ≡ set_ratio node id (clamp_ratio ratio)
unfolding update_workspace_split_ratio
update_ratio_lem (leaf i s) id ratio = refl
update_ratio_lem (split i axis old first second) id ratio = ground (
  arith,
  update_idem first id ratio,
  update_idem second id ratio,
  update_ratio_lem first id ratio,
  update_ratio_lem second id ratio,
)

-- Every resize, to whatever ratio, keeps all ratios in range.
pub update_ratio-RatiosInRange :
    (node : WorkspaceLayoutNode) (id : String) (ratio : ℤ)
    → RatiosInRange node
    → RatiosInRange (update_workspace_split_ratio node id ratio)
unfolding update_workspace_split_ratio
update_ratio-RatiosInRange (leaf i s) id ratio h = tt
update_ratio-RatiosInRange (split i axis old first second) id ratio h = ground (
  arith,
  clamp_ratio-IsRatio ratio,
  update_ratio-RatiosInRange first id (clamp_ratio ratio) h.1,
  update_ratio-RatiosInRange second id (clamp_ratio ratio) h.2,
)

pub list-update_ratio :
    (node : WorkspaceLayoutNode) (id : String) (ratio : ℤ)
    → list_workspace_session_ids (update_workspace_split_ratio node id ratio)
      ≡ list_workspace_session_ids node
unfolding update_workspace_split_ratio list_workspace_session_ids
list-update_ratio (leaf i s) id ratio = refl
list-update_ratio (split i axis old first second) id ratio = ground (
  arith,
  list-update_ratio first id (clamp_ratio ratio),
  list-update_ratio second id (clamp_ratio ratio),
)

join_reduced-AllInRange :
    (id : String) (axis : Axis) (ratio : ℤ) (o p : Option WorkspaceLayoutNode)
    → IsRatio ratio
    → AllInRange o
    → AllInRange p
    → AllInRange (join_reduced id axis ratio o p)
join_reduced-AllInRange id axis ratio none none h k l = tt
join_reduced-AllInRange id axis ratio none (some q) h k l = l
join_reduced-AllInRange id axis ratio (some o) none h k l = k
join_reduced-AllInRange id axis ratio (some o) (some q) h k l = (h, k, l)

pub remove-AllInRange :
    (node : WorkspaceLayoutNode) (s : String)
    → RatiosInRange node
    → AllInRange (remove_session_from_workspace_layout node s)
unfolding remove_session_from_workspace_layout
remove-AllInRange (leaf id x) s h = ground arith
remove-AllInRange (split id axis ratio first second) s h =
    join_reduced-AllInRange id axis ratio _ _ h.0 (remove-AllInRange first s h.1)
      (remove-AllInRange second s h.2)

pub replace-RatiosInRange :
    (node : WorkspaceLayoutNode) (s t : String)
    → RatiosInRange node
    → RatiosInRange (replace_session_id_in_layout node s t)
unfolding replace_session_id_in_layout
replace-RatiosInRange (leaf id x) s t h = ground arith
replace-RatiosInRange (split id axis ratio first second) s t h =
    (h.0, replace-RatiosInRange first s t h.1, replace-RatiosInRange second s t h.2)

module _ (uuid : ℕ → String) where
  pub insert-RatiosInRange :
      (node : WorkspaceLayoutNode) (t s : String) (d : WorkspaceDropDirection) (n : ℕ)
      → RatiosInRange node
      → RatiosInRange (insert_session_into_workspace_layout uuid node t s d n).layout
  unfolding insert_session_into_workspace_layout
  insert-RatiosInRange (leaf id x) t s left n h = ground arith
  insert-RatiosInRange (leaf id x) t s _ n h = ground arith
  insert-RatiosInRange (split id axis ratio first second) t s d n h =
      let n₁ = (insert_session_into_workspace_layout uuid first t s d n).next in
      ground
        (arith, insert-RatiosInRange first t s d n h.1, insert-RatiosInRange second t s d n₁ h.2)

  reinsert-RatiosInRange :
      (node : WorkspaceLayoutNode) (o : Option WorkspaceLayoutNode) (s t : String)
      (d : WorkspaceDropDirection) (n : ℕ)
      → RatiosInRange node
      → AllInRange o
      → RatiosInRange (reinsert uuid node o s t d n).layout
  reinsert-RatiosInRange node none s t d n h k = h
  reinsert-RatiosInRange node (some r) s t d n h k =
      ground (arith, insert-RatiosInRange r t s d n k)

  pub move-RatiosInRange :
      (node : WorkspaceLayoutNode) (s t : String) (d : WorkspaceDropDirection) (n : ℕ)
      → RatiosInRange node
      → RatiosInRange (move_session_within_workspace_layout uuid node s t d n).layout
  unfolding move_session_within_workspace_layout
  move-RatiosInRange node s t d n h =
      let o = remove_session_from_workspace_layout node s in
      ground (arith, reinsert-RatiosInRange node o s t d n h (remove-AllInRange node s h))

  pub create-RatiosInRange :
      (t s : String) (d : WorkspaceDropDirection) (n : ℕ)
      → RatiosInRange (create_workspace_split uuid t s d n).0
  unfolding create_workspace_split
  create-RatiosInRange t s left n = ground arith
  create-RatiosInRange t s _ n = ground arith

  -- Ids are only drawn, never given back.
  pub insert-next :
      (node : WorkspaceLayoutNode) (t s : String) (d : WorkspaceDropDirection) (n : ℕ)
      → n ≤ (insert_session_into_workspace_layout uuid node t s d n).next
  unfolding insert_session_into_workspace_layout
  insert-next (leaf id x) t s d n = ground arith
  insert-next (split id axis ratio first second) t s d n =
      let n₁ = (insert_session_into_workspace_layout uuid first t s d n).next in
      ground (arith, insert-next first t s d n, insert-next second t s d n₁)

  pub create-next :
      (t s : String) (d : WorkspaceDropDirection) (n : ℕ)
      → (create_workspace_split uuid t s d n).1 ≡ n + 3
  unfolding create_workspace_split
  create-next t s d n = omega arith

  reinsert-next :
      (node : WorkspaceLayoutNode) (o : Option WorkspaceLayoutNode) (s t : String)
      (d : WorkspaceDropDirection) (n : ℕ)
      → n ≤ (reinsert uuid node o s t d n).next
  reinsert-next node none s t d n = omega arith
  reinsert-next node (some r) s t d n = ground (arith, insert-next r t s d n)

  pub move-next :
      (node : WorkspaceLayoutNode) (s t : String) (d : WorkspaceDropDirection) (n : ℕ)
      → n ≤ (move_session_within_workspace_layout uuid node s t d n).next
  unfolding move_session_within_workspace_layout
  move-next node s t d n =
      ground (arith, reinsert-next node (remove_session_from_workspace_layout node s) s t d n)
