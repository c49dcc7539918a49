-- ===== src/Sftp/Pane.antt =====
-- A pane of files with its selection and its history, and the functions on them:
-- apps/desktop/src/renderer/store/createAppStore.ts. `trim` and `toLowerCase` of a text and its
-- `includes` are parameters. The fields that these functions do not read are left out.
use dolssh.Prelude.{
  ℕ, zero, suc, ◌-◌, String, Bool, true, false, not, ◌&&◌, Option, none, some, List, [], ◌∷◌, ◌++◌,
  ◌==◌, if◌then◌else◌, min, max, length, take, drop, get_elem?, filter_by, any_by, index_by,
  includes,
}
use dolssh.Prelude.Int.{ℤ, pos, negsuc}

pub record FileEntry : Type 0 where
  pub name : String
  pub path : String
  pub is_directory : Bool

pub record SftpPaneState : Type 0 where
  pub history : List String
  pub history_index : ℤ
  pub entries : List FileEntry
  pub selected_paths : List String
  pub selection_anchor_path : Option String
  pub filter_query : String

pub record SftpEntrySelectionInput : Type 0 where
  pub entry_path : Option String
  pub visible_entry_paths : List String
  pub toggle : Bool
  pub range : Bool

abbrev pub paths : List FileEntry → List String
paths [] = []
paths (e ∷ es) = e.path ∷ paths es

abbrev pub index_of : String → List String → Option ℕ
index_of s = index_by (λ x. x == s)

pub record Selection : Type 0 where
  pub selected : List String
  pub anchor : Option String

abbrev pub only : String → Selection
only path = record { selected = path ∷ []; anchor = some path }

-- `visiblePaths.slice(start, end + 1)` between two indices.
abbrev pub between : ℕ → ℕ → List String → List String
between i j xs = drop (min i j) (take (suc (max i j)) xs)

-- The anchor, if it is not missing, not empty and visible.
abbrev pub visible_anchor : List String → Option String → Option String
visible_anchor visible none = none
visible_anchor visible (some anchor) =
    if not (anchor == "") && includes anchor visible then some anchor else none

-- A click that extends the selection from the anchor.
abbrev pub select_range :
    (path : String) (visible : List String)
    → Option String
    → (target anchor_at : Option ℕ) → Selection
select_range path visible none target anchor_at = only path
select_range path visible (some anchor) none anchor_at = only path
select_range path visible (some anchor) (some target) none = only path
select_range path visible (some anchor) (some target) (some i) = record {
  selected = between i target visible;
  anchor = some anchor;
}

abbrev pub anchor_index : List String → Option String → Option ℕ
anchor_index visible none = none
anchor_index visible (some anchor) = index_of anchor visible

abbrev pub toggle_path : String → List String → List String
toggle_path path selected =
    if includes path selected
    then filter_by (λ x. not (x == path)) selected
    else selected ++ path ∷ []

module _ (trim to_lower_case : String → String) (text_includes : String → String → Bool) where
  abbrev pub is_shown : String → FileEntry → Bool
  is_shown query entry =
      if trim query == ""
      then true
      else text_includes (to_lower_case entry.name) (to_lower_case (trim query))

  -- `provided`, where it is not missing and not empty.
  unfoldable pub resolve_sftp_visible_entry_paths : SftpPaneState → List String → List String
  resolve_sftp_visible_entry_paths pane [] =
      paths (filter_by (is_shown pane.filter_query) pane.entries)
  resolve_sftp_visible_entry_paths pane (p ∷ provided) =
      filter_by (λ x. includes x (paths pane.entries)) (p ∷ provided)

  abbrev pub select_visible : SftpPaneState → String → List String → Selection
  select_visible pane path visible =
      let anchor = visible_anchor visible pane.selection_anchor_path in
      select_range path visible anchor (index_of path visible) (anchor_index visible anchor)

  abbrev pub select_path : SftpPaneState → SftpEntrySelectionInput → String → Selection
  select_path pane input path =
      if not (includes path (paths pane.entries))
      then record { selected = pane.selected_paths; anchor = pane.selection_anchor_path }
      else (if input.range
          then select_visible pane path
              (resolve_sftp_visible_entry_paths pane input.visible_entry_paths)
          else (if input.toggle
              then record { selected = toggle_path path pane.selected_paths; anchor = some path }
              else only path))

  abbrev pub select_at : SftpPaneState → SftpEntrySelectionInput → Option String → Selection
  select_at pane input none = record { selected = []; anchor = none }
  select_at pane input (some path) =
      if path == "" then record { selected = []; anchor = none } else select_path pane input path

  unfoldable pub resolve_next_sftp_selection : SftpPaneState → SftpEntrySelectionInput → Selection
  unfolding resolve_sftp_visible_entry_paths
  resolve_next_sftp_selection pane input = select_at pane input input.entry_path

-- `selectSftpEntry` on its pane.
abbrev pub with_selection : SftpPaneState → Selection → SftpPaneState
with_selection pane s = record pane {
  selected_paths = s.selected;
  selection_anchor_path = s.anchor;
}

abbrev pub selected_entries : SftpPaneState → List FileEntry
selected_entries pane = filter_by (λ entry. includes entry.path pane.selected_paths) pane.entries

abbrev pub items_at : SftpPaneState → String → List FileEntry
items_at pane dragged =
    if dragged == ""
    then selected_entries pane
    else (if any_by (λ entry. entry.path == dragged) (selected_entries pane)
        then selected_entries pane
        else filter_by (λ entry. entry.path == dragged) pane.entries)

unfoldable pub resolve_transfer_items_from_pane : SftpPaneState → Option String → List FileEntry
resolve_transfer_items_from_pane pane none = selected_entries pane
resolve_transfer_items_from_pane pane (some dragged) = items_at pane dragged

-- `history.slice(0, historyIndex + 1)`, which counts a negative end from the back.
abbrev pub prefix_to : ℤ → List String → List String
prefix_to (pos n) xs = take (suc n) xs
prefix_to (negsuc zero) xs = []
prefix_to (negsuc (suc m)) xs = take (length xs - suc m) xs

abbrev pub last_index : List String → ℤ
last_index [] = negsuc 0
last_index (x ∷ xs) = pos (length xs)

abbrev pub ends_with : List String → String → Bool
ends_with [] path = false
ends_with (x ∷ []) path = x == path
ends_with (x ∷ y ∷ xs) path = ends_with (y ∷ xs) path

unfoldable pub push_history : SftpPaneState → String → SftpPaneState
push_history pane next_path =
    let prefix = prefix_to pane.history_index pane.history in
    let history = if ends_with prefix next_path then prefix else prefix ++ next_path ∷ [] in
    record pane { history = history; history_index = last_index history }

-- `navigateSftpBack` and `navigateSftpForward`, up to the listing of the path they give: `none`
-- where they return at once. The index is -1 at least; an index past the end of the history, where
-- the source would go back to no path, gives `none` as well.
unfoldable pub navigate_sftp_back : SftpPaneState → Option (String × SftpPaneState)
navigate_sftp_back pane = elim pane.history_index [
  | pos zero ↦ none
  | negsuc n ↦ none
  | pos (suc n) ↦ elim (get_elem? pane.history n) [
    | none ↦ none
    | some path ↦ some (path, record pane { history_index = pos n })
  ]
]

abbrev pub next_place : ℤ → ℕ
next_place (pos n) = suc n
next_place (negsuc n) = 0

unfoldable pub navigate_sftp_forward : SftpPaneState → Option (String × SftpPaneState)
navigate_sftp_forward pane = elim (get_elem? pane.history (next_place pane.history_index)) [
  | none ↦ none
  | some path ↦ some (path, record pane { history_index = pos (next_place pane.history_index) })
]
