-- ===== src/Workspace/Strip.antt =====
-- The strip of tabs beside the fixed ones, from apps/desktop/src/renderer/store/createAppStore.ts.
-- A tab id is its constructor: `session:…` and `workspace:…` differ from each other and from the
-- fixed ids in their first letters.
pub mod Reorder
pub mod Neighbours
pub mod Positions
pub mod Joining
use dolssh.Prelude.{
  ℕ, zero, suc, ◌+◌, ◌≡◌, refl, String, Bool, true, false, not, Option, none, some, List, [], ◌∷◌,
  ◌||◌, ◌==◌, ◌=ℕ=◌, leb, if◌then◌else◌, get_elem?, find_by, index_by, insert_at, or_else,
}
use dolssh.Workspace.Layout.{WorkspaceLayoutNode, count_workspace_sessions}

pub data WorkspaceTabId : Type 0 where
  home sftp containers : WorkspaceTabId
  session_tab workspace_tab : String → WorkspaceTabId

pub data DynamicTabStripItem : Type 0 where
  session workspace : String → DynamicTabStripItem

pub record WorkspaceTab : Type 0 where
  pub id : String
  pub title : String
  pub layout : WorkspaceLayoutNode
  pub active_session_id : String
  pub broadcast_enabled : Bool

abbrev pub is_session : String → DynamicTabStripItem → Bool
is_session id (session s) = s == id
is_session id (workspace w) = false

abbrev pub is_workspace : String → DynamicTabStripItem → Bool
is_workspace id (session s) = false
is_workspace id (workspace w) = w == id

abbrev pub has_id : String → WorkspaceTab → Bool
has_id id w = w.id == id

-- The comparison of two tab ids, `===`.
abbrev pub same_tab : WorkspaceTabId → WorkspaceTabId → Bool
same_tab home home = true
same_tab sftp sftp = true
same_tab containers containers = true
same_tab (session_tab a) (session_tab b) = a == b
same_tab (workspace_tab a) (workspace_tab b) = a == b
same_tab _ _ = false

abbrev pub as_tab : Option DynamicTabStripItem → WorkspaceTabId
as_tab none = home
as_tab (some (session s)) = session_tab s
as_tab (some (workspace w)) = workspace_tab w

-- `tabStrip[removedIndex] ?? tabStrip[removedIndex - 1]`, where no item has the index -1.
abbrev pub item_or_before : List DynamicTabStripItem → ℕ → Option DynamicTabStripItem
item_or_before strip zero = get_elem? strip zero
item_or_before strip (suc i) = or_else (get_elem? strip (suc i)) (get_elem? strip i)

unfoldable pub resolve_next_visible_tab : List DynamicTabStripItem → ℕ → WorkspaceTabId
resolve_next_visible_tab strip removed_index = as_tab (item_or_before strip removed_index)

-- Whether the loop of `resolveAdjacentTarget` returns the candidate.
abbrev pub has_room : Option WorkspaceTab → Bool
has_room none = false
has_room (some w) = not (leb 4 (count_workspace_sessions w.layout))

abbrev pub acceptable : List WorkspaceTab → DynamicTabStripItem → Bool
acceptable workspaces (session s) = true
acceptable workspaces (workspace w) = has_room (find_by (has_id w) workspaces)

-- One round of that loop: a candidate that is missing or not acceptable is passed over.
abbrev pub try_candidate :
    List WorkspaceTab
    → Option DynamicTabStripItem
    → Option DynamicTabStripItem
    → Option DynamicTabStripItem
try_candidate workspaces none later = later
try_candidate workspaces (some item) later = if acceptable workspaces item then some item else later

-- `tabStrip[currentIndex - 1]`.
abbrev pub item_before : List DynamicTabStripItem → ℕ → Option DynamicTabStripItem
item_before strip zero = none
item_before strip (suc i) = get_elem? strip i

abbrev pub adjacent_at :
    List DynamicTabStripItem → List WorkspaceTab → Option ℕ → Option DynamicTabStripItem
adjacent_at strip workspaces none = none
adjacent_at strip workspaces (some i) =
    try_candidate workspaces (get_elem? strip (suc i))
      (try_candidate workspaces (item_before strip i) none)

unfoldable pub resolve_adjacent_target :
    List DynamicTabStripItem → List WorkspaceTab → String → Option DynamicTabStripItem
unfolding count_workspace_sessions
resolve_adjacent_target strip workspaces session_id =
    adjacent_at strip workspaces (index_by (is_session session_id) strip)

abbrev pub dynamic_tab_matches : DynamicTabStripItem → DynamicTabStripItem → Bool
dynamic_tab_matches (session a) (session b) = a == b
dynamic_tab_matches (workspace a) (workspace b) = a == b
dynamic_tab_matches (session a) (workspace b) = false
dynamic_tab_matches (workspace a) (session b) = false

pub data Placement : Type 0 where
  before after : Placement

abbrev pub is_after : Placement → Bool
is_after before = false
is_after after = true

-- `splice(i, 1)`: the strip without its item at `i`.
abbrev pub remove_at {ℓ} : {A : Type ℓ} → ℕ → List A → List A
remove_at i [] = []
remove_at zero (x ∷ xs) = xs
remove_at (suc i) (x ∷ xs) = x ∷ remove_at i xs

-- The strip after the moved item is taken out of `taken` and put beside the target there.
abbrev pub put_beside :
    List DynamicTabStripItem
    → List DynamicTabStripItem
    → Option DynamicTabStripItem
    → Option ℕ
    → Placement
    → List DynamicTabStripItem
put_beside strip taken (some moved) (some i) placement =
    insert_at (if is_after placement then suc i else i) moved taken
put_beside strip taken (some moved) none placement = strip
put_beside strip taken none target placement = strip

abbrev pub reorder_at :
    List DynamicTabStripItem
    → DynamicTabStripItem
    → Option ℕ
    → Option ℕ
    → Placement
    → List DynamicTabStripItem
reorder_at strip target (some source_index) (some target_index) placement =
    if source_index =ℕ= target_index
    then strip
    else let taken = remove_at source_index strip in
      put_beside strip taken (get_elem? strip source_index)
        (index_by (λ item. dynamic_tab_matches item target) taken) placement
reorder_at strip target (some source_index) none placement = strip
reorder_at strip target none target_index placement = strip

-- The strip that `reorderDynamicTab` leaves.
unfoldable pub reorder_strip :
    List DynamicTabStripItem
    → (source target : DynamicTabStripItem) → Placement
    → List DynamicTabStripItem
reorder_strip strip source target placement =
    if dynamic_tab_matches source target
    then strip
    else reorder_at strip target (index_by (λ item. dynamic_tab_matches item source) strip)
        (index_by (λ item. dynamic_tab_matches item target) strip) placement
