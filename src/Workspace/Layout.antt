-- ===== src/Workspace/Layout.antt =====
-- The tree of panes of a workspace and the functions on it, from
-- apps/desktop/src/renderer/store/createAppStore.ts. `crypto.randomUUID` is the parameter `uuid`,
-- the supply of ids by the number of ids drawn before; every function that draws ids is given that
-- number and returns the next one. A ratio is an integer of thousandths.
pub mod Insert
pub mod Remove
pub mod Move
pub mod Ratios
use dolssh.Prelude.{
  ℕ, ◌+◌, String, Bool, true, false, not, Option, none, some, List, [], ◌∷◌, ◌++◌, ◌||◌, ◌==◌,
  if◌then◌else◌, length, includes,
}
use dolssh.Prelude.Int.{ℤ, pos, min_ℤ, max_ℤ}

pub data WorkspaceDropDirection : Type 0 where
  left right top bottom : WorkspaceDropDirection

pub data Axis : Type 0 where
  horizontal vertical : Axis

pub data WorkspaceLayoutNode : Type 0 where
  leaf : (id session_id : String) → WorkspaceLayoutNode
  split :
      (id : String) (axis : Axis) (ratio : ℤ) (first second : WorkspaceLayoutNode)
      → WorkspaceLayoutNode

unfoldable pub direction_axis : WorkspaceDropDirection → Axis
direction_axis left = horizontal
direction_axis right = horizontal
direction_axis top = vertical
direction_axis bottom = vertical

abbrev pub prepend_incoming : WorkspaceDropDirection → Bool
prepend_incoming left = true
prepend_incoming right = false
prepend_incoming top = true
prepend_incoming bottom = false

unfoldable pub list_workspace_session_ids : WorkspaceLayoutNode → List String
list_workspace_session_ids (leaf id session_id) = session_id ∷ []
list_workspace_session_ids (split id axis ratio first second) =
    list_workspace_session_ids first ++ list_workspace_session_ids second

unfoldable pub count_workspace_sessions : WorkspaceLayoutNode → ℕ
unfolding list_workspace_session_ids
count_workspace_sessions node = length (list_workspace_session_ids node)

unfoldable pub find_first_workspace_session_id : WorkspaceLayoutNode → String
find_first_workspace_session_id (leaf id session_id) = session_id
find_first_workspace_session_id (split id axis ratio first second) =
    find_first_workspace_session_id first

abbrev pub half : ℤ
half = pos 500

pub record Inserted : Type 0 where
  pub layout : WorkspaceLayoutNode
  pub inserted : Bool
  pub next : ℕ

module _ (uuid : ℕ → String) where
  unfoldable pub create_workspace_leaf : String → ℕ → WorkspaceLayoutNode × ℕ
  create_workspace_leaf session_id next = (leaf (uuid next) session_id, next + 1)

  -- The existing session's leaf draws its id first, then the incoming one's, then the split.
  unfoldable pub create_workspace_split :
      (existing incoming : String) → WorkspaceDropDirection → ℕ → WorkspaceLayoutNode × ℕ
  unfolding create_workspace_leaf direction_axis
  create_workspace_split existing incoming direction next =
      let (existing_leaf, n₁) = create_workspace_leaf existing next in
      let (incoming_leaf, n₂) = create_workspace_leaf incoming n₁ in
      let prepend = prepend_incoming direction in
      (
        split (uuid n₂) (direction_axis direction) half
            (if prepend then incoming_leaf else existing_leaf)
            (if prepend then existing_leaf else incoming_leaf),
        n₂ + 1,
      )

  -- What the recursive case does with the results for the two halves.
  abbrev pub join_inserted :
      (id : String) (axis : Axis) (ratio : ℤ) (first second : WorkspaceLayoutNode)
      → Inserted
      → (ℕ → Inserted)
      → Inserted
  join_inserted id axis ratio first second next_first insert_second =
      if next_first.inserted
      then record {
        layout = split id axis ratio next_first.layout second;
        inserted = true;
        next = next_first.next;
      }
      else let next_second = insert_second next_first.next in
        (if next_second.inserted
          then record {
            layout = split id axis ratio first next_second.layout;
            inserted = true;
            next = next_second.next;
          }
          else record {
            layout = split id axis ratio first second;
            inserted = false;
            next = next_second.next;
          })

  unfoldable pub insert_session_into_workspace_layout :
      WorkspaceLayoutNode → (target incoming : String) → WorkspaceDropDirection → ℕ → Inserted
  unfolding create_workspace_split
  insert_session_into_workspace_layout (leaf id session_id) target incoming direction next =
      if not (session_id == target)
      then record { layout = leaf id session_id; inserted = false; next = next }
      else let (layout, n) = create_workspace_split target incoming direction next in
        record { layout = layout; inserted = true; next = n }
  insert_session_into_workspace_layout (split id axis ratio first second) target incoming direction
        next =
      join_inserted id axis ratio first second
        (insert_session_into_workspace_layout first target incoming direction next)
        (insert_session_into_workspace_layout second target incoming direction)

-- `null` is an empty layout.
abbrev pub join_reduced :
    (id : String) (axis : Axis) (ratio : ℤ)
    → Option WorkspaceLayoutNode
    → Option WorkspaceLayoutNode
    → Option WorkspaceLayoutNode
join_reduced id axis ratio none none = none
join_reduced id axis ratio none (some next_second) = some next_second
join_reduced id axis ratio (some next_first) none = some next_first
join_reduced id axis ratio (some next_first) (some next_second) =
    some (split id axis ratio next_first next_second)

unfoldable pub remove_session_from_workspace_layout :
    WorkspaceLayoutNode → String → Option WorkspaceLayoutNode
remove_session_from_workspace_layout (leaf id session_id) removed =
    if session_id == removed then none else some (leaf id session_id)
remove_session_from_workspace_layout (split id axis ratio first second) removed =
    join_reduced id axis ratio (remove_session_from_workspace_layout first removed)
      (remove_session_from_workspace_layout second removed)

pub record Moved : Type 0 where
  pub layout : WorkspaceLayoutNode
  pub moved : Bool
  pub next : ℕ

module _ (uuid : ℕ → String) where
  -- The part of the move that inserts the session again after its removal.
  abbrev pub reinsert :
      (node : WorkspaceLayoutNode)
      → Option WorkspaceLayoutNode
      → (session target : String) → WorkspaceDropDirection
      → ℕ
      → Moved
  reinsert node none session target direction next = record {
    layout = node;
    moved = false;
    next = next;
  }
  reinsert node (some reduced) session target direction next =
      let r = insert_session_into_workspace_layout uuid reduced target session direction next in
      (if not r.inserted
        then record { layout = node; moved = false; next = r.next }
        else record { layout = r.layout; moved = true; next = r.next })

  unfoldable pub move_session_within_workspace_layout :
      WorkspaceLayoutNode → (session target : String) → WorkspaceDropDirection → ℕ → Moved
  move_session_within_workspace_layout node session target direction next =
      let ids = list_workspace_session_ids node in
      (if session == target
        then record { layout = node; moved = false; next = next }
        else (if not (includes session ids) || not (includes target ids)
            then record { layout = node; moved = false; next = next }
            else reinsert node (remove_session_from_workspace_layout node session) session target
                direction next))

abbrev pub clamp_ratio : ℤ → ℤ
clamp_ratio ratio = min_ℤ (pos 800) (max_ℤ (pos 200) ratio)

-- The recursion is given the ratio already clamped, and clamps it again.
unfoldable pub update_workspace_split_ratio :
    WorkspaceLayoutNode → (split_id : String) → ℤ → WorkspaceLayoutNode
update_workspace_split_ratio (leaf id session_id) split_id ratio = leaf id session_id
update_workspace_split_ratio (split id axis old first second) split_id ratio =
    if id == split_id
    then split id axis (clamp_ratio ratio) first second
    else split id axis old (update_workspace_split_ratio first split_id (clamp_ratio ratio))
        (update_workspace_split_ratio second split_id (clamp_ratio ratio))

unfoldable pub replace_session_id_in_layout :
    WorkspaceLayoutNode → (previous next : String) → WorkspaceLayoutNode
replace_session_id_in_layout (leaf id session_id) previous next =
    if session_id == previous then leaf id next else leaf id session_id
replace_session_id_in_layout (split id axis ratio first second) previous next =
    split id axis ratio (replace_session_id_in_layout first previous next)
      (replace_session_id_in_layout second previous next)
